-- ===== src/CpsUtils/Fits.antt =====
-- What is read from a CPS object has the layout of its row.
use sonic_nas_acl.Base.{
  ℕ, zero, suc, ◌≡◌, ◌≢◌, refl, sym, subst, ◌||◌, true, inl, inr, List, [], ◌∷◌, ◌++◌, arith,
  length, nat_eq, ◌==◌, Option-cases,
}
use sonic_nas_acl.Common.{CommonData, Scalar, scalar_data}
use sonic_nas_acl.CpsApi.{CpsApi, CpsAttr, AttrPath, named}
use sonic_nas_acl.CpsMap.{MapData, DataType}
use sonic_nas_acl.CpsUtils.Read.{
  first_byte, cps_wr_attr_data, attr_data, absent_data, fill_optional_attr, filled, validate_range,
  all_ones, opaque_value, plain_value, get_data_from_obj, get_child_attrs_from_obj,
}
use sonic_nas_acl.Layout.{FitsType, FitsAll, shape}
use sonic_nas_acl.Result.{ok, guard, attr_len, attr_val, >>=-eq-ok}

-- The types that FitsType has values for; a byte and bytes need a length.
abbrev pub IsReadable : DataType → ℕ → Type 0
IsReadable DataType.bin len = len ≢ 0
IsReadable DataType.u8 len = len ≢ 0
IsReadable DataType.u64 len = ⊥
IsReadable DataType.nothing len = ⊥
IsReadable DataType.embedded len = ⊥
IsReadable DataType.embedded_list len = ⊥
IsReadable DataType.iflist len = ⊥
IsReadable _ len = Unit

abbrev pub AllReadable : List (DataType × ℕ) → Type 0
AllReadable [] = Unit
AllReadable ((type, len) ∷ ms) = IsReadable type len × AllReadable ms

length-filled : (n byte : ℕ) → length (filled n byte) ≡ n
unfolding filled
length-filled zero byte = refl
length-filled (suc n) byte = ground (arith, length-filled n byte)

first_byte_fits :
    (bs : List ℕ) (d : CommonData)
    → first_byte bs ≡ ok d
    → (n : ℕ) × (d ≡ scalar_data (Scalar.u8 n))
first_byte_fits [] d p = cc
first_byte_fits (b ∷ bs) d p = (b, ground arith)

pub written_fits :
    (a : CpsAttr) (type : DataType) (len : ℕ) (d : CommonData)
    → IsReadable type len
    → (len == 0 || len == length a.bytes) ≡ true
    → cps_wr_attr_data a type ≡ ok d
    → FitsType type len d
unfolding cps_wr_attr_data
written_fits a DataType.u8 len d r h p = first_byte_fits a.bytes d p
written_fits a DataType.u16 len d r h p = (a.u16, ground arith)
written_fits a DataType.u32 len d r h p = (a.u32, ground arith)
written_fits a DataType.obj_id len d r h p = (a.u64, ground arith)
written_fits a DataType.ifindex len d r h p = (a.u32, ground arith)
written_fits a DataType.bin len d r h p = (a.bytes, ground arith, ground arith)
written_fits a DataType.opaque len d r h p = absurd (ground arith)
written_fits a _ len d r h p = absurd r

-- What a value that was read passed.
abbrev pub Passed : MapData → CpsAttr → CommonData → Type 0
Passed m a d =
    ((m.data_len == 0 || m.data_len == length a.bytes) ≡ true)
    × (cps_wr_attr_data a m.data_type ≡ ok d)
    × (validate_range m d ≡ ok true)

pub attr_data-Passed :
    (m : MapData) (a : CpsAttr) (d : CommonData) → attr_data m a ≡ ok d → Passed m a d
unfolding attr_data
attr_data-Passed m a d p =
    let (u, len, after) =
      >>=-eq-ok (guard (m.data_len == 0 || m.data_len == length a.bytes) attr_len) _ {b = d} p in
    let (d', written, after') = >>=-eq-ok (cps_wr_attr_data a m.data_type) _ {b = d} after in
    let (valid, ranged, after'') = >>=-eq-ok (validate_range m d') _ {b = d} after' in
    let (u', checked, same) = >>=-eq-ok (guard valid attr_val) _ {b = d} after'' in
    (ground arith, ground arith, ground arith)

optional_fits :
    (m : MapData) (type : DataType) (d : CommonData)
    → m.data_type ≡ type
    → IsReadable type m.data_len
    → fill_optional_attr m ≡ ok d
    → FitsType type m.data_len d
unfolding fill_optional_attr
optional_fits m DataType.u8 d is r p = (all_ones 8 m.range_max, ground arith)
optional_fits m DataType.u16 d is r p = (all_ones 16 m.range_max, ground arith)
optional_fits m DataType.u32 d is r p = (all_ones 32 m.range_max, ground arith)
optional_fits m DataType.bin d is r p =
    (filled m.data_len 0xff, length-filled m.data_len 0xff, ground arith)
optional_fits m DataType.obj_id d is r p = absurd (ground arith)
optional_fits m DataType.ifindex d is r p = absurd (ground arith)
optional_fits m DataType.opaque d is r p = absurd (ground arith)
optional_fits m _ d is r p = absurd r

absent_fits :
    (m : MapData) (d : CommonData)
    → IsReadable m.data_type m.data_len
    → absent_data m ≡ ok d
    → FitsType m.data_type m.data_len d
unfolding absent_data
absent_fits m d r p = optional_fits m m.data_type d refl r (ground arith)

module _ {Ob : Type 0} ⦃api : CpsApi Ob⦄ (ob : Ob) where
  plain_fits :
      (path : AttrPath) (m : MapData) (d : CommonData)
      → IsReadable m.data_type m.data_len
      → plain_value ob path m ≡ ok d
      → FitsType m.data_type m.data_len d
  unfolding plain_value
  plain_fits path m d r p = elim (Option-cases (api.e_get ob path)) [
    | inl missing ↦ absent_fits m d r (ground arith)
    | inr (a, found) ↦
        let (len, written, ranged) = attr_data-Passed m a d (ground arith) in
        written_fits a m.data_type m.data_len d r len written
  ]

  opaque_fits :
      (path : AttrPath) (d : CommonData)
      → opaque_value ob path ≡ ok d
      → FitsType DataType.opaque 0 d
  unfolding opaque_value
  opaque_fits path d p = elim (Option-cases (api.unserialize ob path)) [
    | inl missing ↦ absurd (ground arith)
    | inr (tbl, found) ↦ (tbl, ground arith)
  ]

  pub value_fits :
      (path : AttrPath) (m : MapData) (type : DataType) (d : CommonData)
      → m.data_type ≡ type
      → IsReadable type m.data_len
      → get_data_from_obj ob path m ≡ ok d
      → FitsType type m.data_len d
  unfolding get_data_from_obj
  value_fits path m DataType.opaque d is r p = opaque_fits path d (ground arith)
  value_fits path m type d is r p =
      subst (λ x. FitsType x m.data_len d) is
        (plain_fits path m d (subst (λ x. IsReadable x m.data_len) (sym is) r) (ground arith))

  pub children_fit :
      (path : AttrPath) (ms : List MapData) (vals : List CommonData)
      → AllReadable (shape ms)
      → get_child_attrs_from_obj ob path ms ≡ ok vals
      → FitsAll (shape ms) vals
  unfolding get_child_attrs_from_obj
  children_fit path [] [] r p = tt
  children_fit path [] (d ∷ vals) r p = cc
  children_fit path (m ∷ ms) vals (r, rs) p =
      let (d, got, after) =
        >>=-eq-ok (get_data_from_obj ob (path ++ named m.attr_id ∷ []) m) _ {b = vals} p in
      let (ds, rest, done) = >>=-eq-ok (get_child_attrs_from_obj ob path ms) _ {b = vals} after in
      subst (FitsAll (shape (m ∷ ms))) {x = d ∷ ds} (ground arith) (
        (
          value_fits (path ++ named m.attr_id ∷ []) m m.data_type d refl r got,
          children_fit path ms ds rs rest,
        ))
