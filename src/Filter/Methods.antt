-- ===== src/Filter/Methods.antt =====
-- src/nas_acl_filter.cpp: each set method with its get method.
use sonic_nas_acl.Base.{◌≡◌, refl, ◌⊎◌, inl, inr, some, List, [], ◌∷◌, ◌++◌, arith, Bool-cases}
use sonic_nas_acl.Common.{CommonData, Scalar, scalar_data}
use sonic_nas_acl.CpsMap.{DataType, FilterFn}
use sonic_nas_acl.Filter.{Filter, FilterKind, FilterUnion, blank_filter}
use sonic_nas_acl.Filter.Values.{
  FilterEnv, validate_ip_type_data, validate_ip_frag_data, call_set_fn, call_get_fn,
}
use mathlib.Core.List.{append-nil}
use sonic_nas_acl.Result.{ok, err, attr_val}
use sonic_nas_acl.Types.{MatchType}
use sonic_nas_acl.Filter.Layout.{read_back_as}
use sonic_nas_acl.Layout.{FitsAll, ifidx_result, memcpy_exact}

-- A pair of a value and a mask, by the method that stores it.
abbrev pub Pair : FilterEnv → MatchType → FilterFn → List CommonData → Type 0
Pair e t fn vals =
    (f : Filter) × (call_set_fn e fn vals (blank_filter t) ≡ ok f) × (call_get_fn e fn f ≡ ok vals)

abbrev pub bytes_filter : MatchType → FilterKind → FilterUnion → FilterUnion → Filter
bytes_filter t kind bs ms = record {
  f_info = record { filter_type = t; values_type = some kind; value = bs; mask = ms };
  ifindex_list = [];
}

module _ (e : FilterEnv) (t : MatchType) where
  pub u8-Pair :
      (vals : List CommonData)
      → FitsAll ((DataType.u8, 1) ∷ (DataType.u8, 1) ∷ []) vals
      → Pair e t FilterFn.u8 vals
  unfolding call_set_fn call_get_fn
  u8-Pair [] h = absurd h
  u8-Pair (d ∷ []) h = absurd h.1
  u8-Pair (d ∷ m ∷ []) ((n, p), ((k, q), _)) = rw (p, q) (_, refl, refl)
  u8-Pair (d ∷ m ∷ x ∷ r) h = absurd h.1.1

  pub u16-Pair :
      (vals : List CommonData)
      → FitsAll ((DataType.u16, 2) ∷ (DataType.u16, 2) ∷ []) vals
      → Pair e t FilterFn.u16 vals
  unfolding call_set_fn call_get_fn
  u16-Pair [] h = absurd h
  u16-Pair (d ∷ []) h = absurd h.1
  u16-Pair (d ∷ m ∷ []) ((n, p), ((k, q), _)) = rw (p, q) (_, refl, refl)
  u16-Pair (d ∷ m ∷ x ∷ r) h = absurd h.1.1

  pub u32-Pair :
      (vals : List CommonData)
      → FitsAll ((DataType.u32, 4) ∷ (DataType.u32, 4) ∷ []) vals
      → Pair e t FilterFn.u32 vals
  unfolding call_set_fn call_get_fn
  u32-Pair [] h = absurd h
  u32-Pair (d ∷ []) h = absurd h.1
  u32-Pair (d ∷ m ∷ []) ((n, p), ((k, q), _)) = rw (p, q) (_, refl, refl)
  u32-Pair (d ∷ m ∷ x ∷ r) h = absurd h.1.1

  pub ipv4-Pair :
      (vals : List CommonData)
      → FitsAll ((DataType.bin, e.consts.ipv4_len) ∷ (DataType.bin, e.consts.ipv4_len) ∷ []) vals
      → Pair e t FilterFn.ipv4 vals
  unfolding call_set_fn call_get_fn
  ipv4-Pair [] h = absurd h
  ipv4-Pair (d ∷ []) h = absurd h.1
  ipv4-Pair (d ∷ m ∷ []) ((bs, n, p), ((cs, k, q), _)) =
      rw (p, q)
        (
          bytes_filter t FilterKind.ipv4_addr (FilterUnion.ipv4 bs) (FilterUnion.ipv4 cs),
          ground (arith, memcpy_exact e.consts.ipv4_len bs n, memcpy_exact e.consts.ipv4_len cs k),
          refl,
        )
  ipv4-Pair (d ∷ m ∷ x ∷ r) h = absurd h.1.1

  pub ipv6-Pair :
      (vals : List CommonData)
      → FitsAll ((DataType.bin, e.consts.ipv6_len) ∷ (DataType.bin, e.consts.ipv6_len) ∷ []) vals
      → Pair e t FilterFn.ipv6 vals
  unfolding call_set_fn call_get_fn
  ipv6-Pair [] h = absurd h
  ipv6-Pair (d ∷ []) h = absurd h.1
  ipv6-Pair (d ∷ m ∷ []) ((bs, n, p), ((cs, k, q), _)) =
      rw (p, q)
        (
          bytes_filter t FilterKind.ipv6_addr (FilterUnion.ipv6 bs) (FilterUnion.ipv6 cs),
          ground (arith, memcpy_exact e.consts.ipv6_len bs n, memcpy_exact e.consts.ipv6_len cs k),
          refl,
        )
  ipv6-Pair (d ∷ m ∷ x ∷ r) h = absurd h.1.1

  pub mac-Pair :
      (vals : List CommonData)
      → FitsAll ((DataType.bin, e.consts.mac_len) ∷ (DataType.bin, e.consts.mac_len) ∷ []) vals
      → Pair e t FilterFn.mac vals
  unfolding call_set_fn call_get_fn
  mac-Pair [] h = absurd h
  mac-Pair (d ∷ []) h = absurd h.1
  mac-Pair (d ∷ m ∷ []) ((bs, n, p), ((cs, k, q), _)) =
      rw (p, q)
        (
          bytes_filter t FilterKind.mac_addr (FilterUnion.mac bs) (FilterUnion.mac cs),
          ground (arith, memcpy_exact e.consts.mac_len bs n, memcpy_exact e.consts.mac_len cs k),
          refl,
        )
  mac-Pair (d ∷ m ∷ x ∷ r) h = absurd h.1.1

  -- A number alone leaves the mask 0.
  pub u8_alone :
      (vals : List CommonData)
      → FitsAll ((DataType.u8, 1) ∷ []) vals
      → (f : Filter) × (call_set_fn e FilterFn.u8 vals (blank_filter t) ≡ ok f)
        × (call_get_fn e FilterFn.u8 f ≡ ok (vals ++ scalar_data (Scalar.u8 0) ∷ []))
  unfolding call_set_fn call_get_fn
  u8_alone [] h = absurd h
  u8_alone (d ∷ []) ((n, p), _) = rw p (_, refl, refl)
  u8_alone (d ∷ m ∷ r) h = absurd h.1

  -- A method that may refuse its value.
  abbrev pub Checked : FilterFn → List CommonData → Type 0
  Checked fn vals =
      Pair e t fn vals ⊎ (Unit {0} × (call_set_fn e fn vals (blank_filter t) ≡ err attr_val))

  pub ip_type-Checked :
      (vals : List CommonData)
      → FitsAll ((DataType.u32, 4) ∷ []) vals
      → Checked FilterFn.ip_type vals
  unfolding call_set_fn call_get_fn
  ip_type-Checked [] h = absurd h
  ip_type-Checked (d ∷ []) ((n, p), _) =
      rw p (elim (Bool-cases (validate_ip_type_data (e.ip_type_of n))) [
        | inl valid ↦ inl (
          bytes_filter t FilterKind.ip_type (FilterUnion.ip_type n) FilterUnion.zeroed,
          ground arith,
          refl,
        )
        | inr invalid ↦ inr (tt, ground arith)
      ])
  ip_type-Checked (d ∷ m ∷ r) h = absurd h.1

  pub ip_frag-Checked :
      (vals : List CommonData)
      → FitsAll ((DataType.u32, 4) ∷ []) vals
      → Checked FilterFn.ip_frag vals
  unfolding call_set_fn call_get_fn
  ip_frag-Checked [] h = absurd h
  ip_frag-Checked (d ∷ []) ((n, p), _) =
      rw p (elim (Bool-cases (validate_ip_frag_data (e.ip_frag_of n))) [
        | inl valid ↦ inl (
          bytes_filter t FilterKind.ip_frag (FilterUnion.ip_frag n) FilterUnion.zeroed,
          ground arith,
          refl,
        )
        | inr invalid ↦ inr (tt, ground arith)
      ])
  ip_frag-Checked (d ∷ m ∷ r) h = absurd h.1

  pub ifindex-Checked :
      (vals : List CommonData)
      → FitsAll ((DataType.ifindex, 4) ∷ []) vals
      → Checked FilterFn.ifindex vals
  unfolding call_set_fn call_get_fn
  ifindex-Checked [] h = absurd h
  ifindex-Checked (d ∷ []) ((i, p), _) = rw p (elim (ifidx_result e.hal i) [
    | inl (info, found) ↦ inl (
      record {
        f_info = record {
          filter_type = t;
          values_type = some FilterKind.port;
          value = FilterUnion.ndi_port info.npu_id info.port_id;
          mask = FilterUnion.zeroed;
        };
        ifindex_list = i ∷ [];
      },
      ground arith,
      refl,
    )
    | inr refused ↦ inr (tt, ground arith)
  ])
  ifindex-Checked (d ∷ m ∷ r) h = absurd h.1

  pub iflist_stored :
      (vals : List CommonData)
      → FitsAll ((DataType.iflist, 0) ∷ []) vals
      → (f : Filter) × (call_set_fn e FilterFn.ifindex_list vals (blank_filter t) ≡ ok f)
        × (call_get_fn e FilterFn.ifindex_list f ≡ ok (read_back_as DataType.iflist vals))
  unfolding call_set_fn call_get_fn
  iflist_stored [] h = absurd h
  iflist_stored (d ∷ []) (([], p), _) = rw p (_, refl, refl)
  iflist_stored (d ∷ []) ((i ∷ is, p), _) = rw p (_, refl, rw (append-nil is))
  iflist_stored (d ∷ m ∷ r) h = absurd h.1
