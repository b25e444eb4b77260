-- ===== src/CpsUtils/Read.antt =====
-- Reading the value of a filter or an action from a CPS object.
use sonic_nas_acl.Base.{
  ℕ, zero, suc, ◌^◌, ◌-◌, ◌%◌, Bool, true, ◌&&◌, ◌||◌, not, none, some, List, [], ◌∷◌, ◌++◌, nat_eq,
  ◌==◌, ltb, length, if◌then◌else◌,
}
use sonic_nas_acl.Common.{
  CommonData, Scalar, scalar_data, bytes_data, iflist_data, empty_data, as_u8, as_u16, as_u32,
}
use sonic_nas_acl.CpsApi.{CpsApi, CpsAttr, AttrId, named, attr_id_eq, AttrPath}
use sonic_nas_acl.CpsMap.{MapData, DataType, AttrMode}
use sonic_nas_acl.Layout.{table_data}
use sonic_nas_acl.Result.{
  Result, ok, err, ◌>>=◌, ◌>>◌, guard, missing_attr, attr_len, attr_val, fail, undefined_behaviour,
}

-- A read of the first byte, which may not be there.
abbrev pub first_byte : List ℕ → Result CommonData
first_byte [] = err undefined_behaviour
first_byte (byte ∷ bytes) = ok (scalar_data (Scalar.u8 byte))

unfoldable pub cps_wr_attr_data : CpsAttr → DataType → Result CommonData
cps_wr_attr_data a DataType.u8 = first_byte a.bytes
cps_wr_attr_data a DataType.u16 = ok (scalar_data (Scalar.u16 a.u16))
cps_wr_attr_data a DataType.u32 = ok (scalar_data (Scalar.u32 a.u32))
cps_wr_attr_data a DataType.u64 = ok (scalar_data (Scalar.u64 a.u64))
cps_wr_attr_data a DataType.obj_id = ok (scalar_data (Scalar.obj_id a.u64))
cps_wr_attr_data a DataType.ifindex = ok (scalar_data (Scalar.ifindex a.u32))
cps_wr_attr_data a DataType.bin = ok (bytes_data a.bytes)
cps_wr_attr_data a DataType.nothing = ok empty_data
cps_wr_attr_data a _ = err fail

unfoldable pub filled : ℕ → ℕ → List ℕ
filled zero byte = []
filled (suc n) byte = byte ∷ filled n byte

-- The bound of a range is an unsigned int, and a number has `w` bits.
abbrev pub all_ones : ℕ → ℕ → ℕ
all_ones w range_max = if range_max == 0 then 2 ^ w - 1 else range_max % 2 ^ w

unfoldable pub fill_optional_attr : MapData → Result CommonData
unfolding filled
fill_optional_attr m = elim m.data_type [
  | DataType.u8 ↦ ok (scalar_data (Scalar.u8 (all_ones 8 m.range_max)))
  | DataType.u16 ↦ ok (scalar_data (Scalar.u16 (all_ones 16 m.range_max)))
  | DataType.u32 ↦ ok (scalar_data (Scalar.u32 (all_ones 32 m.range_max)))
  | DataType.u64 ↦ ok (scalar_data (Scalar.u64 (2 ^ 64 - 1)))
  | DataType.bin ↦ ok (bytes_data (filled m.data_len 0xff))
  | _ ↦ err fail
]

-- Whether a number is in the range of an attribute.
abbrev pub within : MapData → ℕ → Bool
within m n = not (ltb m.range_max n) && not (ltb n m.range_min)

unfoldable pub validate_range : MapData → CommonData → Result Bool
validate_range m d = if m.range_max == 0 then ok true else elim m.data_type [
  | DataType.u8 ↦ (do n ← as_u8 d; ok (within m n))
  | DataType.u16 ↦ (do n ← as_u16 d; ok (within m n))
  | DataType.u32 ↦ (do n ← as_u32 d; ok (within m n))
  | _ ↦ err fail
]

-- An attribute that is there.
unfoldable pub attr_data : MapData → CpsAttr → Result CommonData
unfolding cps_wr_attr_data validate_range
attr_data m a = do
  guard (m.data_len == 0 || m.data_len == length a.bytes) attr_len
  d ← cps_wr_attr_data a m.data_type
  valid ← validate_range m d
  guard valid attr_val
  ok d

-- An attribute that is not there.
unfoldable pub absent_data : MapData → Result CommonData
unfolding fill_optional_attr
absent_data m = elim m.mode [
  | AttrMode.mandatory ↦ err missing_attr
  | AttrMode.optional ↦ fill_optional_attr m
]

module _ {Ob : Type 0} ⦃api : CpsApi Ob⦄ (ob : Ob) where
  unfoldable pub opaque_value : AttrPath → Result CommonData
  opaque_value path = elim (api.unserialize ob path) [
    | none ↦ err missing_attr
    | some tbl ↦ ok (table_data tbl)
  ]

  unfoldable pub plain_value : AttrPath → MapData → Result CommonData
  unfolding attr_data absent_data
  plain_value path m = elim (api.e_get ob path) [ none ↦ absent_data m | some a ↦ attr_data m a ]

  unfoldable pub get_data_from_obj : AttrPath → MapData → Result CommonData
  unfolding opaque_value plain_value
  get_data_from_obj path m = elim m.data_type [
    | DataType.opaque ↦ opaque_value path
    | _ ↦ plain_value path m
  ]

  unfoldable pub get_child_attrs_from_obj : AttrPath → List MapData → Result (List CommonData)
  unfolding get_data_from_obj
  get_child_attrs_from_obj path [] = ok []
  get_child_attrs_from_obj path (m ∷ ms) = do
    d ← get_data_from_obj (path ++ named m.attr_id ∷ []) m
    ds ← get_child_attrs_from_obj path ms
    ok (d ∷ ds)

  -- The lists inside, one after the other.
  unfoldable pub get_lists :
      AttrPath → List MapData → List (AttrId × CpsAttr) → Result (List CommonData)
  unfolding get_child_attrs_from_obj
  get_lists path ms [] = ok []
  get_lists path ms ((i, a) ∷ rest) = do
    ds ← get_child_attrs_from_obj (path ++ i ∷ []) ms
    es ← get_lists path ms rest
    ok (ds ++ es)

  unfoldable pub get_child_list_from_obj :
      AttrPath → MapData → List MapData → Result (List CommonData)
  unfolding get_lists
  get_child_list_from_obj path m ms = elim (api.inside ob path) [
    | none ↦ elim m.mode [ AttrMode.mandatory ↦ err missing_attr | AttrMode.optional ↦ ok [] ]
    | some items ↦ get_lists path ms items
  ]

  unfoldable pub copy_non_iflist_data_from_obj :
      AttrPath → MapData → List MapData → Result (List CommonData)
  unfolding get_child_list_from_obj get_child_attrs_from_obj get_data_from_obj
  copy_non_iflist_data_from_obj path m ms = elim m.data_type [
    | DataType.embedded_list ↦ get_child_list_from_obj path m ms
    | DataType.embedded ↦ get_child_attrs_from_obj path ms
    | _ ↦ (do d ← get_data_from_obj path m; ok (d ∷ []))
  ]

-- `parent_list.back ()` and what `pop_back` leaves.
abbrev pub split_last : AttrPath → Result (AttrPath × AttrId)
split_last [] = err undefined_behaviour
split_last (a ∷ []) = ok ([], a)
split_last (a ∷ b ∷ p) = do (q, l) ← split_last (b ∷ p); ok (a ∷ q, l)

-- The interfaces of the attributes with an id, by the accessor of the library, without a test of
-- their length.
unfoldable pub interfaces : AttrId → List (AttrId × CpsAttr) → List ℕ
interfaces id [] = []
interfaces id ((i, a) ∷ rest) =
    let more = interfaces id rest in if i == id then a.u32 ∷ more else more

module _ {Ob : Type 0} ⦃api : CpsApi Ob⦄ (ob : Ob) where
  unfoldable pub iflist_level : AttrPath → Result (List (AttrId × CpsAttr))
  iflist_level [] = ok (api.attrs ob)
  iflist_level (a ∷ p) = elim (api.inside ob (a ∷ p)) [
    | none ↦ err missing_attr
    | some items ↦ ok items
  ]

  unfoldable pub copy_iflist_data_from_obj : AttrPath → Result (List CommonData)
  unfolding iflist_level interfaces
  copy_iflist_data_from_obj path = do
    (parent, id) ← split_last path
    items ← iflist_level parent
    ok (iflist_data (interfaces id items) ∷ [])

  unfoldable pub nas_acl_copy_data_from_obj :
      AttrPath → MapData → List MapData → Result (List CommonData)
  unfolding copy_iflist_data_from_obj copy_non_iflist_data_from_obj
  nas_acl_copy_data_from_obj path m ms = elim m.data_type [
    | DataType.iflist ↦ copy_iflist_data_from_obj path
    | _ ↦ copy_non_iflist_data_from_obj ob path m ms
  ]
