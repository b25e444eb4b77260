-- ===== src/Action/Methods.antt =====
-- src/nas_acl_action.cpp: each set method with its get method.
use sonic_nas_acl.Base.{
  ℕ, ◌≡◌, refl, Bool, true, false, ◌⊎◌, inl, inr, Option, none, some, List, [], ◌∷◌, arith, nat_eq,
  Option-cases, Bool-cases,
}
use sonic_nas_acl.Action.{Action, blank_action, ActionKind, ActionUnion}
use sonic_nas_acl.Action.Calls.{call_set_fn, call_get_fn}
use sonic_nas_acl.Action.Layout.{last_table, is_lag, without_lags, list_item, ReadsBack}
use sonic_nas_acl.Action.Values.{
  ActionEnv, pkt_action_named, set_opaque_data, opaque_items, not_lags, all_not_lags, with_values,
}
use sonic_nas_acl.Common.{CommonData, Scalar, scalar_data}
use sonic_nas_acl.CpsMap.{DataType, ActionFn}
use sonic_nas_acl.Env.{Hal, IfInfo, IntType}
use sonic_nas_acl.Layout.{pair_items, FitsAll, ifidx_result, memcpy_exact}
use mathlib.Core.List.{append-nil}
use sonic_nas_acl.Map.{Map, find, put, find-put}
use sonic_nas_acl.Result.{ok, err, attr_val}
use sonic_nas_acl.Types.{ActionType}
use sonic_nas_acl.Utl.{nas_acl_utl_is_ifidx_type_lag}

-- The pairs that were put, the last one of each id.
abbrev or_else : Option (Map ℕ ℕ) → Option (Map ℕ ℕ) → Option (Map ℕ ℕ)
or_else none o = o
or_else (some m) o = some m

abbrev Puts : Map ℕ (Map ℕ ℕ) → Map ℕ (Map ℕ ℕ) → Type 0
Puts ps tbl =
    (tbl' : Map ℕ (Map ℕ ℕ)) × (set_opaque_data (pair_items ps) tbl ≡ ok tbl')
    × ((oid : ℕ) → find oid tbl' ≡ or_else (last_table oid ps) (find oid tbl))

puts : (ps tbl : Map ℕ (Map ℕ ℕ)) → Puts ps tbl
unfolding set_opaque_data
puts [] tbl = (tbl, refl, λ oid. refl)
puts ((i, m) ∷ ps) tbl =
    let (tbl', done, lookup) = puts ps (put i m tbl) in
    (tbl', ground arith, λ oid. ground (arith, lookup oid, find-put i oid m tbl))

opaque_items_lem : (tbl : Map ℕ (Map ℕ ℕ)) → opaque_items tbl ≡ pair_items tbl
unfolding opaque_items
opaque_items_lem [] = refl
opaque_items_lem ((i, m) ∷ tbl) = rw (opaque_items_lem tbl) refl

abbrev LagResult : Hal → ℕ → Type 0
LagResult hal i =
    (nas_acl_utl_is_ifidx_type_lag hal i ≡ ok (is_lag hal i))
    ⊎ (nas_acl_utl_is_ifidx_type_lag hal i ≡ err attr_val)

lag_found :
    (hal : Hal) (i : ℕ) (info : IfInfo) (k : IntType)
    → hal i ≡ some info
    → info.int_type ≡ k
    → LagResult hal i
unfolding nas_acl_utl_is_ifidx_type_lag
lag_found hal i info IntType.lag found kind = inl (ground arith)
lag_found hal i info _ found kind = inl (ground arith)

lag_result : (hal : Hal) (i : ℕ) → LagResult hal i
unfolding nas_acl_utl_is_ifidx_type_lag
lag_result hal i = elim (Option-cases (hal i)) [
  | inl missing ↦ inr (ground arith)
  | inr (info, found) ↦ lag_found hal i info info.int_type found refl
]

not_lags_cases :
    (hal : Hal) (l : List ℕ)
    → (not_lags hal l ≡ ok (without_lags hal l)) ⊎ (not_lags hal l ≡ err attr_val)
unfolding not_lags
not_lags_cases hal [] = inl refl
not_lags_cases hal (i ∷ is) = elim (lag_result hal i) [
  | inl kind ↦ elim (not_lags_cases hal is) [
    | inl rest ↦ inl (ground arith)
    | inr refused ↦ inr (ground arith)
  ]
  | inr refused ↦ inr (ground arith)
]

listed :
    (e : ActionEnv) (a : Action) (l : List ℕ)
    → call_get_fn e (some ActionFn.ifindex_list) (record a { ifindex_list = l }) ≡ ok (list_item l)
unfolding call_get_fn
listed e a [] = refl
listed e a (i ∷ is) = refl

-- A value that is stored and read back as it is, by the method that stores it.
abbrev pub Kept : ActionEnv → ActionType → ActionFn → List CommonData → Type 0
Kept e t fn vals =
    (a : Action) × (back : List CommonData) × (call_set_fn e (some fn) vals (blank_action t) ≡ ok a)
    × (call_get_fn e (some fn) a ≡ ok back)
    × (back ≡ vals)

abbrev pub Refused : ActionEnv → ActionType → ActionFn → List CommonData → Type 0
Refused e t fn vals = Unit {0} × (call_set_fn e (some fn) vals (blank_action t) ≡ err attr_val)

module _ (e : ActionEnv) (t : ActionType) where
  pub u8-Kept :
      (vals : List CommonData) → FitsAll ((DataType.u8, 1) ∷ []) vals → Kept e t ActionFn.u8 vals
  unfolding call_set_fn call_get_fn
  u8-Kept [] h = absurd h
  u8-Kept (d ∷ []) ((n, p), _) = rw p (_, _, refl, refl, refl)
  u8-Kept (d ∷ m ∷ r) h = absurd h.1

  pub u16-Kept :
      (vals : List CommonData) → FitsAll ((DataType.u16, 2) ∷ []) vals → Kept e t ActionFn.u16 vals
  unfolding call_set_fn call_get_fn
  u16-Kept [] h = absurd h
  u16-Kept (d ∷ []) ((n, p), _) = rw p (_, _, refl, refl, refl)
  u16-Kept (d ∷ m ∷ r) h = absurd h.1

  pub obj_id-Kept :
      (vals : List CommonData)
      → FitsAll ((DataType.obj_id, 8) ∷ []) vals
      → Kept e t ActionFn.obj_id vals
  unfolding call_set_fn call_get_fn
  obj_id-Kept [] h = absurd h
  obj_id-Kept (d ∷ []) ((n, p), _) = rw p (_, _, refl, refl, refl)
  obj_id-Kept (d ∷ m ∷ r) h = absurd h.1

  pub ipv4-Kept :
      (vals : List CommonData)
      → FitsAll ((DataType.bin, e.consts.ipv4_len) ∷ []) vals
      → Kept e t ActionFn.ipv4 vals
  unfolding call_set_fn call_get_fn
  ipv4-Kept [] h = absurd h
  ipv4-Kept (d ∷ []) ((bs, n, p), _) = rw p (
    with_values ActionKind.ipv4_addr (ActionUnion.ipv4 bs) (blank_action t),
    _,
    ground (arith, memcpy_exact e.consts.ipv4_len bs n),
    refl,
    refl,
  )
  ipv4-Kept (d ∷ m ∷ r) h = absurd h.1

  pub ipv6-Kept :
      (vals : List CommonData)
      → FitsAll ((DataType.bin, e.consts.ipv6_len) ∷ []) vals
      → Kept e t ActionFn.ipv6 vals
  unfolding call_set_fn call_get_fn
  ipv6-Kept [] h = absurd h
  ipv6-Kept (d ∷ []) ((bs, n, p), _) = rw p (
    with_values ActionKind.ipv6_addr (ActionUnion.ipv6 bs) (blank_action t),
    _,
    ground (arith, memcpy_exact e.consts.ipv6_len bs n),
    refl,
    refl,
  )
  ipv6-Kept (d ∷ m ∷ r) h = absurd h.1

  pub mac-Kept :
      (vals : List CommonData)
      → FitsAll ((DataType.bin, e.consts.mac_len) ∷ []) vals
      → Kept e t ActionFn.mac vals
  unfolding call_set_fn call_get_fn
  mac-Kept [] h = absurd h
  mac-Kept (d ∷ []) ((bs, n, p), _) = rw p (
    with_values ActionKind.mac_addr (ActionUnion.mac bs) (blank_action t),
    _,
    ground (arith, memcpy_exact e.consts.mac_len bs n),
    refl,
    refl,
  )
  mac-Kept (d ∷ m ∷ r) h = absurd h.1

  pub opaque_data-Kept :
      (vals : List CommonData)
      → FitsAll ((DataType.obj_id, 8) ∷ (DataType.opaque, 0) ∷ []) vals
      → Kept e t ActionFn.opaque_data vals
  unfolding call_set_fn call_get_fn set_opaque_data opaque_items put
  opaque_data-Kept [] h = absurd h
  opaque_data-Kept (d ∷ []) h = absurd h.1
  opaque_data-Kept (d ∷ m ∷ []) ((n, p), ((tbl, q), _)) = rw (p, q) (_, _, refl, refl, refl)
  opaque_data-Kept (d ∷ m ∷ x ∷ r) h = absurd h.1.1

  -- A method that may refuse its value.
  pub pkt_action-Kept :
      (vals : List CommonData)
      → FitsAll ((DataType.u32, 4) ∷ []) vals
      → Kept e t ActionFn.pkt_action vals ⊎ Refused e t ActionFn.pkt_action vals
  unfolding call_set_fn call_get_fn
  pkt_action-Kept [] h = absurd h
  pkt_action-Kept (d ∷ []) ((n, p), _) =
      rw p (elim (Bool-cases (pkt_action_named (e.pkt_action_of n))) [
        | inl named ↦ inl (
          record (blank_action t) {
            a_info = record (blank_action t).a_info {
              values_type = ActionKind.pkt_action;
              pkt_action = n;
            };
          },
          _,
          ground arith,
          refl,
          refl,
        )
        | inr other ↦ inr (tt, ground arith)
      ])
  pkt_action-Kept (d ∷ m ∷ r) h = absurd h.1

  ifindex_port :
      (i : ℕ)
      → nas_acl_utl_is_ifidx_type_lag e.hal i ≡ ok false
      → Kept e t ActionFn.ifindex (scalar_data (Scalar.ifindex i) ∷ [])
        ⊎ Refused e t ActionFn.ifindex (scalar_data (Scalar.ifindex i) ∷ [])
  unfolding call_set_fn call_get_fn
  ifindex_port i kind = elim (ifidx_result e.hal i) [
    | inl (info, found) ↦ inl (
      with_values ActionKind.port (ActionUnion.ndi_port info.npu_id info.port_id)
          (record (blank_action t) { ifindex_list = i ∷ [] }),
      _,
      ground arith,
      refl,
      refl,
    )
    | inr refused ↦ inr (tt, ground arith)
  ]

  ifindex_lag :
      (i : ℕ)
      → nas_acl_utl_is_ifidx_type_lag e.hal i ≡ ok true
      → Kept e t ActionFn.ifindex (scalar_data (Scalar.ifindex i) ∷ [])
        ⊎ Refused e t ActionFn.ifindex (scalar_data (Scalar.ifindex i) ∷ [])
  unfolding call_set_fn call_get_fn
  ifindex_lag i kind = elim (Option-cases (e.lag_ndi_ids i)) [
    | inl unknown ↦ inr (tt, ground arith)
    | inr (tbl, found) ↦ inl (
      record (blank_action t) {
        a_info = record (blank_action t).a_info { values_type = ActionKind.obj_id };
        ifindex_list = i ∷ [];
        nas2ndi_oid_tbl = put i tbl [];
      },
      _,
      ground arith,
      refl,
      refl,
    )
  ]

  ifindex_by_kind :
      (i : ℕ) (kind : Bool)
      → nas_acl_utl_is_ifidx_type_lag e.hal i ≡ ok kind
      → Kept e t ActionFn.ifindex (scalar_data (Scalar.ifindex i) ∷ [])
        ⊎ Refused e t ActionFn.ifindex (scalar_data (Scalar.ifindex i) ∷ [])
  ifindex_by_kind i false kind = ifindex_port i kind
  ifindex_by_kind i true kind = ifindex_lag i kind

  pub ifindex-Kept :
      (vals : List CommonData)
      → FitsAll ((DataType.ifindex, 4) ∷ []) vals
      → Kept e t ActionFn.ifindex vals ⊎ Refused e t ActionFn.ifindex vals
  unfolding call_set_fn call_get_fn
  ifindex-Kept [] h = absurd h
  ifindex-Kept (d ∷ []) ((i, p), _) = rw p (elim (lag_result e.hal i) [
    | inl kind ↦ ifindex_by_kind i (is_lag e.hal i) kind
    | inr refused ↦ inr (tt, ground arith)
  ])
  ifindex-Kept (d ∷ m ∷ r) h = absurd h.1

  pub ifindex_list-Kept :
      (vals : List CommonData)
      → FitsAll ((DataType.iflist, 0) ∷ []) vals
      → ((a : Action) × (back : List CommonData) × (call_set_fn e
              (some ActionFn.ifindex_list)
              vals
              (blank_action t)
            ≡ ok a)
          × (call_get_fn e (some ActionFn.ifindex_list) a ≡ ok back)
          × ReadsBack DataType.iflist e.hal vals back)
        ⊎ Refused e t ActionFn.ifindex_list vals
  unfolding call_set_fn call_get_fn all_not_lags
  ifindex_list-Kept [] h = absurd h
  ifindex_list-Kept (d ∷ []) ((l, p), _) = rw p (elim (not_lags_cases e.hal l) [
    | inl ports ↦ inl (
      record (blank_action t) {
        a_info = record (blank_action t).a_info { values_type = ActionKind.portlist };
        ifindex_list = without_lags e.hal l;
      },
      list_item (without_lags e.hal l),
      ground (arith, append-nil (without_lags e.hal l)),
      listed e
          (record (blank_action t) {
            a_info = record (blank_action t).a_info { values_type = ActionKind.portlist };
          })
          (without_lags e.hal l),
      refl,
    )
    | inr refused ↦ inr (tt, ground arith)
  ])
  ifindex_list-Kept (d ∷ m ∷ r) h = absurd h.1

  pub opaque_data_list_stored :
      (vals : List CommonData)
      → (ps : Map ℕ (Map ℕ ℕ)) × (vals ≡ pair_items ps)
      → (a : Action) × (back : List CommonData) × (call_set_fn e
            (some ActionFn.opaque_data_list)
            vals
            (blank_action t)
          ≡ ok a)
        × (call_get_fn e (some ActionFn.opaque_data) a ≡ ok back)
        × ReadsBack DataType.embedded_list e.hal vals back
  unfolding call_set_fn call_get_fn find
  opaque_data_list_stored vals (ps, p) =
      let (tbl, done, lookup) = puts ps [] in
      (
        record (blank_action t) {
          a_info = record (blank_action t).a_info { values_type = ActionKind.obj_id_list };
          nas2ndi_oid_tbl = tbl;
        },
        pair_items tbl,
        rw p (ground arith),
        ground (arith, opaque_items_lem tbl),
        (ps, tbl, p, refl, λ oid. ground (arith, lookup oid)),
      )
