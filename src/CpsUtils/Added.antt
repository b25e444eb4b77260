-- ===== src/CpsUtils/Added.antt =====
-- src/nas_acl_cps_utils.cpp: reading one attribute that was added to an object.
use sonic_nas_acl.Base.{
  ℕ, ◌≡◌, Bool, true, false, ◌||◌, none, some, [], ◌∷◌, length, nat_eq, ◌==◌, arith, Bool-cases,
  inl, inr,
}
use sonic_nas_acl.Common.{CommonData}
use sonic_nas_acl.CpsApi.{CpsApi, CpsAttr, CpsVal, Shows, bin, u16, u32, u64, attr_id_eq, AttrPath}
use sonic_nas_acl.CpsMap.{MapData, DataType}
use sonic_nas_acl.CpsUtils.Ranges.{in_range}
use sonic_nas_acl.CpsUtils.Read.{
  attr_data, cps_wr_attr_data, validate_range, plain_value, get_data_from_obj,
}
use sonic_nas_acl.CpsUtils.Write.{value_of, add_value, add_data_to_obj}
use sonic_nas_acl.Layout.{FitsType}
use sonic_nas_acl.Result.{ok}

-- The types whose value is one attribute.
abbrev pub is_flat : DataType → Bool
is_flat DataType.u8 = true
is_flat DataType.u16 = true
is_flat DataType.u32 = true
is_flat DataType.obj_id = true
is_flat DataType.ifindex = true
is_flat DataType.bin = true
is_flat _ = false

module _ {Ob : Type 0} ⦃api : CpsApi Ob⦄ (ob ob' : Ob) (path : AttrPath) where
  pub added_value :
      (v : CpsVal) (size expected : ℕ)
      → add_value (some (v, size)) path expected ob ≡ (true, ob')
      → ((expected == 0 || expected == size) ≡ true) × (api.e_add ob path v ≡ (true, ob'))
  unfolding add_value
  added_value v size expected p = elim (Bool-cases (expected == 0 || expected == size)) [
    | inl fits ↦ (fits, ground arith)
    | inr misfit ↦ absurd (ground arith)
  ]

  pub add_flat :
      (type : DataType) (d : CommonData) (expected : ℕ) (v : CpsVal) (size : ℕ)
      → is_flat type ≡ true
      → value_of d type ≡ ok (some (v, size))
      → add_data_to_obj path d expected type ob ≡ ok (true, ob')
      → add_value (some (v, size)) path expected ob ≡ (true, ob')
  unfolding add_data_to_obj
  add_flat DataType.opaque d expected v size flat is p = cc
  add_flat _ d expected v size flat is p = ground arith

  -- The attribute that was added.
  shown :
      (m : MapData) (d : CommonData) (v : CpsVal) (size : ℕ)
      → api.e_get ob path ≡ none
      → value_of d m.data_type ≡ ok (some (v, size))
      → is_flat m.data_type ≡ true
      → add_data_to_obj path d m.data_len m.data_type ob ≡ ok (true, ob')
      → (a : CpsAttr) × (api.e_get ob' path ≡ some a)
        × Shows a v
        × ((m.data_len == 0 || m.data_len == size) ≡ true)
  shown m d v size absent is flat p =
      let (fits, added) =
        added_value v size m.data_len (add_flat m.data_type d m.data_len v size flat is p) in
      let (a, got, shows) = api.added_get ob ob' path v added absent in (a, got, shows, fits)

  pub as_plain :
      (m : MapData) (type : DataType)
      → m.data_type ≡ type
      → is_flat type ≡ true
      → get_data_from_obj ob' path m ≡ plain_value ob' path m
  unfolding get_data_from_obj
  as_plain m DataType.opaque is flat = cc
  as_plain m _ is flat = ground arith

  pub read_value :
      (m : MapData) (type : DataType) (d : CommonData)
      → m.data_type ≡ type
      → is_flat type ≡ true
      → FitsType type m.data_len d
      → in_range m d ≡ true
      → api.e_get ob path ≡ none
      → add_data_to_obj path d m.data_len m.data_type ob ≡ ok (true, ob')
      → get_data_from_obj ob' path m ≡ ok d
  unfolding plain_value attr_data cps_wr_attr_data validate_range value_of
  read_value m DataType.u8 d is flat (n, e) r absent p =
      let (a, got, shows, fits) =
        shown m d (bin (n ∷ [])) 1 absent (ground arith) (ground arith) p in
      ground (arith, as_plain m DataType.u8 is flat)
  read_value m DataType.u16 d is flat (n, e) r absent p =
      let (a, got, (len, shows), fits) =
        shown m d (u16 n) 2 absent (ground arith) (ground arith) p in
      ground (arith, as_plain m DataType.u16 is flat)
  read_value m DataType.u32 d is flat (n, e) r absent p =
      let (a, got, (len, shows), fits) =
        shown m d (u32 n) 4 absent (ground arith) (ground arith) p in
      ground (arith, as_plain m DataType.u32 is flat)
  read_value m DataType.obj_id d is flat (n, e) r absent p =
      let (a, got, (len, shows), fits) =
        shown m d (u64 n) 8 absent (ground arith) (ground arith) p in
      ground (arith, as_plain m DataType.obj_id is flat)
  read_value m DataType.ifindex d is flat (n, e) r absent p =
      let (a, got, (len, shows), fits) =
        shown m d (u32 n) 4 absent (ground arith) (ground arith) p in
      ground (arith, as_plain m DataType.ifindex is flat)
  read_value m DataType.bin d is flat (bs, len, e) r absent p =
      let (a, got, shows, fits) =
        shown m d (bin bs) (length bs) absent (ground arith) (ground arith) p in
      ground (arith, as_plain m DataType.bin is flat)
  read_value m _ d is flat fits r absent p = absurd (ground arith)
