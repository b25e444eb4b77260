-- ===== src/CpsUtils/Ranges.antt =====
-- The ranges of the rows hold for what is read.
use sonic_nas_acl.Base.{
  ℕ, ◌^◌, ◌%◌, ◌<◌, ◌≡◌, refl, sym, subst, Bool, true, false, ◌&&◌, ◌||◌, not, inl, inr, List, [],
  ◌∷◌, ◌++◌, arith, nat_eq, ◌==◌, ltb, leb, if◌then◌else◌, Option-cases,
}
use native.Mathlib.Nat.{mod-eq_of_lt}
use sonic_nas_acl.Common.{CommonData, Scalar}
use sonic_nas_acl.CpsApi.{CpsApi, AttrId, AttrPath, named}
use sonic_nas_acl.CpsUtils.Copied.{IsReadableAs, iflist_fits}
use sonic_nas_acl.CpsMap.{MapData, DataType}
use sonic_nas_acl.CpsUtils.Fits.{IsReadable, AllReadable, attr_data-Passed, written_fits}
use sonic_nas_acl.CpsUtils.Read.{
  within, all_ones, validate_range, absent_data, fill_optional_attr, plain_value, get_data_from_obj,
  get_child_attrs_from_obj, nas_acl_copy_data_from_obj, copy_non_iflist_data_from_obj,
}
use sonic_nas_acl.Layout.{FitsType, FitsAll, shape}
use sonic_nas_acl.Result.{ok, ◌>>=◌, >>=-eq-ok}

abbrev pub is_between : ℕ → ℕ → ℕ → Bool
is_between lo hi n = leb lo n && leb n hi

-- Whether the number that was read is in the range of its attribute, if that has one.
abbrev pub in_range : MapData → CommonData → Bool
in_range m d = if m.range_max == 0 then true else elim d.scalar [
  | Scalar.u8 n ↦ is_between m.range_min m.range_max n
  | Scalar.u16 n ↦ is_between m.range_min m.range_max n
  | Scalar.u32 n ↦ is_between m.range_min m.range_max n
  | _ ↦ false
]

abbrev pub all_in_range : List MapData → List CommonData → Bool
all_in_range [] [] = true
all_in_range (m ∷ ms) (d ∷ ds) = let rest = all_in_range ms ds in in_range m d && rest
all_in_range _ _ = false

-- A range that is not empty and fits the type; a type without ranges has none.
abbrev pub sane_as : DataType → ℕ → ℕ → Bool
sane_as DataType.u8 lo hi = not (ltb hi lo) && ltb hi (2 ^ 8)
sane_as DataType.u16 lo hi = not (ltb hi lo) && ltb hi (2 ^ 16)
sane_as DataType.u32 lo hi = not (ltb hi lo) && ltb hi (2 ^ 32)
sane_as _ lo hi = hi == 0

abbrev pub sane : MapData → Bool
sane m = m.range_max == 0 || sane_as m.data_type m.range_min m.range_max

abbrev pub all_sane : List MapData → Bool
all_sane [] = true
all_sane (m ∷ ms) = let rest = all_sane ms in sane m && rest

validated :
    (m : MapData) (type : DataType) (len : ℕ) (d : CommonData)
    → m.data_type ≡ type
    → FitsType type len d
    → validate_range m d ≡ ok true
    → in_range m d ≡ true
unfolding validate_range
validated m DataType.u8 len d is (n, p) h = ground arith
validated m DataType.u16 len d is (n, p) h = ground arith
validated m DataType.u32 len d is (n, p) h = ground arith
validated m _ len d is fits h = ground arith

mod_below : (n k : ℕ) → n < k → n % k ≡ n
mod_below n k h = mod-eq_of_lt {n = n} {m = k} h

-- The number that stands for an absent mask.
ones_within :
    (m : MapData) (w : ℕ)
    → (m.range_max == 0) ≡ false
    → not (ltb m.range_max m.range_min) ≡ true
    → ltb m.range_max (2 ^ w) ≡ true
    → within m (all_ones w m.range_max) ≡ true
ones_within m w some_range low high = ground (arith, mod_below m.range_max (2 ^ w))

absent_in_range :
    (m : MapData) (type : DataType) (d : CommonData)
    → m.data_type ≡ type
    → sane m ≡ true
    → absent_data m ≡ ok d
    → in_range m d ≡ true
unfolding absent_data fill_optional_attr
absent_in_range m DataType.u8 d is h p = ground (arith, ones_within m 8)
absent_in_range m DataType.u16 d is h p = ground (arith, ones_within m 16)
absent_in_range m DataType.u32 d is h p = ground (arith, ones_within m 32)
absent_in_range m _ d is h p = ground arith

module _ {Ob : Type 0} ⦃api : CpsApi Ob⦄ (ob : Ob) where
  plain_in_range :
      (path : AttrPath) (m : MapData) (d : CommonData)
      → IsReadable m.data_type m.data_len
      → sane m ≡ true
      → plain_value ob path m ≡ ok d
      → in_range m d ≡ true
  unfolding plain_value
  plain_in_range path m d r h p = elim (Option-cases (api.e_get ob path)) [
    | inl missing ↦ absent_in_range m m.data_type d refl h (ground arith)
    | inr (a, found) ↦
        let (len, written, ranged) = attr_data-Passed m a d (ground arith) in
        validated m m.data_type m.data_len d refl
          (written_fits a m.data_type m.data_len d r len written) ranged
  ]

  value_in_range :
      (path : AttrPath) (m : MapData) (type : DataType) (d : CommonData)
      → m.data_type ≡ type
      → IsReadable type m.data_len
      → sane m ≡ true
      → get_data_from_obj ob path m ≡ ok d
      → in_range m d ≡ true
  unfolding get_data_from_obj
  value_in_range path m DataType.opaque d is r h p = ground arith
  value_in_range path m type d is r h p =
      plain_in_range path m d (subst (λ y. IsReadable y m.data_len) (sym is) r) h (ground arith)

  pub children_in_range :
      (path : AttrPath) (ms : List MapData) (vals : List CommonData)
      → AllReadable (shape ms)
      → all_sane ms ≡ true
      → get_child_attrs_from_obj ob path ms ≡ ok vals
      → all_in_range ms vals ≡ true
  unfolding get_child_attrs_from_obj
  children_in_range path [] [] r h p = refl
  children_in_range path [] (d ∷ vals) r h p = cc
  children_in_range path (m ∷ ms) vals (r, rs) h p =
      let (d, got, after) =
        >>=-eq-ok (get_data_from_obj ob (path ++ named m.attr_id ∷ []) m) _ {b = vals} p in
      let (ds, rest, done) = >>=-eq-ok (get_child_attrs_from_obj ob path ms) _ {b = vals} after in
      let first =
        value_in_range (path ++ named m.attr_id ∷ []) m m.data_type d refl r (ground arith) got in
      let others = children_in_range path ms ds rs (ground arith) rest in
      subst (λ l. all_in_range (m ∷ ms) l ≡ true) {x = d ∷ ds} (ground arith) (ground arith)

-- The attributes that the values of a row come from.
abbrev pub attrs_as : DataType → MapData → List MapData → List MapData
attrs_as DataType.embedded m ms = ms
attrs_as _ m ms = m ∷ []

abbrev pub IsPlainList : DataType → Type 0
IsPlainList DataType.embedded_list = ⊥
IsPlainList _ = Unit

module _ {Ob : Type 0} ⦃api : CpsApi Ob⦄ (ob : Ob) (path : AttrPath) (id : AttrId) (m : MapData)
    (ms : List MapData) where
  single_in_range :
      (p : AttrPath) (vals : List CommonData)
      → IsReadable m.data_type m.data_len
      → sane m ≡ true
      → (get_data_from_obj ob p m >>= λ d. ok (d ∷ [])) ≡ ok vals
      → all_in_range (m ∷ []) vals ≡ true
  single_in_range p vals r h q =
      let (d, got, done) = >>=-eq-ok (get_data_from_obj ob p m) _ {b = vals} q in
      let first = value_in_range ob p m m.data_type d refl r h got in
      subst (λ l. all_in_range (m ∷ []) l ≡ true) {x = d ∷ []} (ground arith) (ground arith)

  iflist_in_range :
      (vals : List CommonData)
      → sane_as DataType.iflist m.range_min m.range_max ≡ true
      → FitsAll ((DataType.iflist, m.data_len) ∷ []) vals
      → all_in_range (m ∷ []) vals ≡ true
  iflist_in_range [] h fits = absurd fits
  iflist_in_range (d ∷ []) h fits = ground arith
  iflist_in_range (d ∷ e ∷ vals) h fits = absurd fits.1

  pub copied_in_range :
      (type : DataType) (vals : List CommonData)
      → m.data_type ≡ type
      → IsPlainList type
      → IsReadableAs type m ms
      → all_sane (attrs_as type m ms) ≡ true
      → nas_acl_copy_data_from_obj ob (path ++ id ∷ []) m ms ≡ ok vals
      → all_in_range (attrs_as type m ms) vals ≡ true
  unfolding nas_acl_copy_data_from_obj copy_non_iflist_data_from_obj
  copied_in_range DataType.embedded vals is pl r h p =
      children_in_range ob (path ++ id ∷ []) ms vals r h (ground arith)
  copied_in_range DataType.embedded_list vals is pl r h p = absurd pl
  copied_in_range DataType.iflist vals is pl r h p =
      iflist_in_range vals (ground arith) (iflist_fits ob path id m.data_len vals (ground arith))
  copied_in_range _ vals is pl (r, u) h p =
      single_in_range (path ++ id ∷ []) vals r (ground arith) (ground arith)
