-- ===== src/CpsUtils/Reports.antt =====
-- The errors of reading a value from a CPS object are codes that the request answers with.
use sonic_nas_acl.Base.{
  ℕ, ◌≡◌, ◌≢◌, refl, sym, subst, Bool, true, false, ◌||◌, inl, inr, List, [], ◌∷◌, ◌++◌, arith,
  length, nat_eq, ◌==◌, Option-cases,
}
use sonic_nas_acl.Common.{CommonData}
use sonic_nas_acl.CpsApi.{CpsApi, CpsAttr, AttrPath, named}
use sonic_nas_acl.CpsMap.{MapData, DataType}
use sonic_nas_acl.CpsUtils.Fits.{IsReadable, AllReadable, written_fits}
use sonic_nas_acl.CpsUtils.Read.{
  first_byte, cps_wr_attr_data, attr_data, absent_data, fill_optional_attr, validate_range,
  opaque_value, plain_value, get_data_from_obj, get_child_attrs_from_obj,
}
use sonic_nas_acl.Layout.{FitsType, shape}
use sonic_nas_acl.Result.{Result, ok, err, Error, is_reported, ◌>>=◌, guard, attr_len, attr_val}

abbrev pub Reports : {B : Type 0} → Result B → Type 0
Reports r = (x : Error) → r ≡ err x → is_reported x ≡ true

pub bind-Reports :
    {B C : Type 0} (call : Result B) (rest : B → Result C)
    → Reports call
    → ((v : B) → call ≡ ok v → Reports (rest v))
    → Reports (call >>= rest)
bind-Reports (err y) rest h k = λ x p. h x (ground arith)
bind-Reports (ok v) rest h k = k v refl

pub ok-Reports : {B : Type 0} (v : B) → Reports (ok v)
ok-Reports v = λ x p. cc

pub err-Reports : {B : Type 0} (y : Error) → is_reported y ≡ true → Reports {B = B} (err y)
err-Reports y h = λ x p. ground arith

guard-Reports : (b : Bool) (y : Error) → is_reported y ≡ true → Reports (guard b y)
guard-Reports true y h = λ x p. cc
guard-Reports false y h = λ x p. ground arith

first_byte-Reports : (bs : List ℕ) → length bs ≢ 0 → Reports (first_byte bs)
first_byte-Reports [] h = absurd (h refl)
first_byte-Reports (b ∷ bs) h = λ x p. cc

written-Reports :
    (a : CpsAttr) (type : DataType) (len : ℕ)
    → IsReadable type len
    → (len == 0 || len == length a.bytes) ≡ true
    → Reports (cps_wr_attr_data a type)
unfolding cps_wr_attr_data
written-Reports a DataType.u8 len r h = first_byte-Reports a.bytes (ground arith)
written-Reports a DataType.opaque len r h = λ x p. ground arith
written-Reports a DataType.u64 len r h = λ x p. cc
written-Reports a DataType.nothing len r h = λ x p. cc
written-Reports a DataType.embedded len r h = absurd r
written-Reports a DataType.embedded_list len r h = absurd r
written-Reports a DataType.iflist len r h = absurd r
written-Reports a _ len r h = λ x p. cc

-- A value that was read as a number of some type is compared as one of that type.
ranged-Reports :
    (m : MapData) (type : DataType) (len : ℕ) (d : CommonData)
    → m.data_type ≡ type
    → FitsType type len d
    → Reports (validate_range m d)
unfolding validate_range
ranged-Reports m DataType.u8 len d is (n, p) = λ x q. ground arith
ranged-Reports m DataType.u16 len d is (n, p) = λ x q. ground arith
ranged-Reports m DataType.u32 len d is (n, p) = λ x q. ground arith
ranged-Reports m _ len d is fits = λ x q. ground arith

attr_data-Reports :
    (m : MapData) (a : CpsAttr) → IsReadable m.data_type m.data_len → Reports (attr_data m a)
unfolding attr_data
attr_data-Reports m a r =
    bind-Reports (guard (m.data_len == 0 || m.data_len == length a.bytes) attr_len) _
      (guard-Reports (m.data_len == 0 || m.data_len == length a.bytes) attr_len refl)
      (λ u h.
        let len : (m.data_len == 0 || m.data_len == length a.bytes) ≡ true = ground arith in
        bind-Reports (cps_wr_attr_data a m.data_type) _
          (written-Reports a m.data_type m.data_len r len)
          (λ d written.
            bind-Reports (validate_range m d) _
              (ranged-Reports m m.data_type m.data_len d refl
                (written_fits a m.data_type m.data_len d r len written))
              (λ valid checked.
                bind-Reports (guard valid attr_val) _ (guard-Reports valid attr_val refl)
                  (λ u' done. ok-Reports d))))

optional-Reports :
    (m : MapData) (type : DataType) → m.data_type ≡ type → Reports (fill_optional_attr m)
unfolding fill_optional_attr
optional-Reports m DataType.u8 is = λ x p. ground arith
optional-Reports m DataType.bin is = λ x p. ground arith
optional-Reports m _ is = λ x p. ground arith

absent-Reports : (m : MapData) → Reports (absent_data m)
unfolding absent_data
absent-Reports m = λ x p. ground (arith, optional-Reports m m.data_type refl x)

module _ {Ob : Type 0} ⦃api : CpsApi Ob⦄ (ob : Ob) where
  opaque-Reports : (path : AttrPath) → Reports (opaque_value ob path)
  unfolding opaque_value
  opaque-Reports path = λ x p. ground arith

  plain-Reports :
      (path : AttrPath) (m : MapData)
      → IsReadable m.data_type m.data_len
      → Reports (plain_value ob path m)
  unfolding plain_value
  plain-Reports path m r = λ x p. elim (Option-cases (api.e_get ob path)) [
    | inl missing ↦ absent-Reports m x (ground arith)
    | inr (a, found) ↦ attr_data-Reports m a r x (ground arith)
  ]

  pub value-Reports :
      (path : AttrPath) (m : MapData) (type : DataType)
      → m.data_type ≡ type
      → IsReadable type m.data_len
      → Reports (get_data_from_obj ob path m)
  unfolding get_data_from_obj
  value-Reports path m DataType.opaque is r = λ x p. opaque-Reports path x (ground arith)
  value-Reports path m type is r =
      λ x p. plain-Reports path m (subst (λ y. IsReadable y m.data_len) (sym is) r) x (ground arith)

  pub children-Reports :
      (path : AttrPath) (ms : List MapData)
      → AllReadable (shape ms)
      → Reports (get_child_attrs_from_obj ob path ms)
  unfolding get_child_attrs_from_obj
  children-Reports path [] r = ok-Reports []
  children-Reports path (m ∷ ms) (r, rs) =
      bind-Reports (get_data_from_obj ob (path ++ named m.attr_id ∷ []) m) _
        (value-Reports (path ++ named m.attr_id ∷ []) m m.data_type refl r)
        (λ d got.
          bind-Reports (get_child_attrs_from_obj ob path ms) _ (children-Reports path ms rs)
            (λ ds rest. ok-Reports (d ∷ ds)))
