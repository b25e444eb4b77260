-- ===== src/CpsUtils/Written.antt =====
-- src/nas_acl_cps_utils.cpp: reading what was added to an object.
use Prim.Native.String.{String}
use sonic_nas_acl.Base.{
  ℕ, suc, ◌≡◌, refl, sym, ap, ◌∙◌, Bool, true, false, not, ◌&&◌, none, some, List, [], ◌∷◌, ◌++◌,
  length, nat_eq, ◌==◌, arith, Bool-cases, inl, inr,
}
use sonic_nas_acl.Common.{CommonData, item}
use sonic_nas_acl.CpsApi.{
  CpsApi, CpsVal, bin, u16, u32, u64, named, attr_id_eq, attr_id_beq_iff, AttrPath, is_prefix,
}
use sonic_nas_acl.CpsMap.{MapData, DataType}
use sonic_nas_acl.CpsUtils.Added.{is_flat, added_value, add_flat, as_plain, read_value}
use sonic_nas_acl.CpsUtils.Ranges.{all_in_range}
use sonic_nas_acl.CpsUtils.Read.{
  attr_data, absent_data, plain_value, get_data_from_obj, get_child_attrs_from_obj,
  copy_non_iflist_data_from_obj, nas_acl_copy_data_from_obj,
}
use sonic_nas_acl.CpsUtils.Write.{
  value_of, add_data_to_obj, add_child_attrs_to_obj, copy_non_iflist_data_to_obj,
  nas_acl_copy_data_to_obj,
}
use sonic_nas_acl.Layout.{FitsType, FitsAll, shape}
use sonic_nas_acl.Result.{ok, Result-cases}

abbrev pub all_flat : List MapData → Bool
all_flat [] = true
all_flat (m ∷ ms) = let rest = all_flat ms in is_flat m.data_type && rest

-- The ids of attributes differ.
abbrev is_other : MapData → List MapData → Bool
is_other m [] = true
is_other m (n ∷ ms) = let rest = is_other m ms in not (named m.attr_id == named n.attr_id) && rest

abbrev pub all_differ : List MapData → Bool
all_differ [] = true
all_differ (m ∷ ms) = let rest = all_differ ms in is_other m ms && rest

-- The values at an index and after it.
abbrev ItemsAt : List CommonData → ℕ → List CommonData → Type 0
ItemsAt vals start [] = Unit
ItemsAt vals start (d ∷ ds) = (item vals start ≡ ok d) × ItemsAt vals (suc start) ds

later_items :
    (x : CommonData) (vals : List CommonData) (start : ℕ) (ds : List CommonData)
    → ItemsAt vals start ds
    → ItemsAt (x ∷ vals) (suc start) ds
later_items x vals start [] h = tt
later_items x vals start (d ∷ ds) (here, rest) = (here, later_items x vals (suc start) ds rest)

own_items : (vals : List CommonData) → ItemsAt vals 0 vals
own_items [] = tt
own_items (d ∷ ds) = (refl, later_items d ds 0 ds (own_items ds))

siblings_apart :
    (path : AttrPath) (x y : String)
    → (named x == named y) ≡ false
    → is_prefix (path ++ named x ∷ []) (path ++ named y ∷ []) ≡ false
siblings_apart [] x y h = ground arith
siblings_apart (a ∷ path) x y h = ground (arith, siblings_apart path x y h)

value_known :
    (type : DataType) (len : ℕ) (d : CommonData)
    → is_flat type ≡ true
    → FitsType type len d
    → (v : CpsVal) × (size : ℕ) × (value_of d type ≡ ok (some (v, size)))
unfolding value_of
value_known DataType.u8 len d flat (n, e) = (bin (n ∷ []), 1, ground arith)
value_known DataType.u16 len d flat (n, e) = (u16 n, 2, ground arith)
value_known DataType.u32 len d flat (n, e) = (u32 n, 4, ground arith)
value_known DataType.obj_id len d flat (n, e) = (u64 n, 8, ground arith)
value_known DataType.ifindex len d flat (n, e) = (u32 n, 4, ground arith)
value_known DataType.bin len d flat (bs, l, e) = (bin bs, length bs, ground arith)
value_known _ len d flat fits = absurd (ground arith)

module _ {Ob : Type 0} ⦃api : CpsApi Ob⦄ (path : AttrPath) where
  -- No child is in the object.
  abbrev pub AllAbsent : Ob → List MapData → Type 0
  AllAbsent ob [] = Unit
  AllAbsent ob (m ∷ ms) = (api.e_get ob (path ++ named m.attr_id ∷ []) ≡ none) × AllAbsent ob ms

  first_added :
      (ob ob' : Ob) (m : MapData) (ms : List MapData) (vals : List CommonData) (start : ℕ)
      (d : CommonData)
      → item vals start ≡ ok d
      → add_child_attrs_to_obj path (m ∷ ms) vals start ob ≡ ok (true, ob')
      → (ob1 : Ob) × (add_data_to_obj (path ++ named m.attr_id ∷ []) d m.data_len m.data_type ob
          ≡ ok (true, ob1))
        × (add_child_attrs_to_obj path ms vals (suc start) ob1 ≡ ok (true, ob'))
  unfolding add_child_attrs_to_obj
  first_added ob ob' m ms vals start d here p =
      elim (Result-cases
        (add_data_to_obj (path ++ named m.attr_id ∷ []) d m.data_len m.data_type ob)) [
          | inl (x, failed) ↦ absurd (ground arith)
          | inr ((true, ob1), done) ↦ (ob1, done, ground arith)
          | inr ((false, ob1), refused) ↦ absurd (ground arith)
        ]

  one_kept :
      (ob ob' : Ob) (m : MapData) (d : CommonData) (x : String)
      → is_flat m.data_type ≡ true
      → FitsType m.data_type m.data_len d
      → (named x == named m.attr_id) ≡ false
      → add_data_to_obj (path ++ named m.attr_id ∷ []) d m.data_len m.data_type ob ≡ ok (true, ob')
      → api.e_get ob' (path ++ named x ∷ []) ≡ api.e_get ob (path ++ named x ∷ [])
  one_kept ob ob' m d x flat fits other p =
      let (v, size, known) = value_known m.data_type m.data_len d flat fits in
      let here = path ++ named m.attr_id ∷ [] in
      let (l, added) =
        added_value ob ob' here v size m.data_len
          (add_flat ob ob' here m.data_type d m.data_len v size flat known p) in
      api.added_other ob ob' here (path ++ named x ∷ []) v added
        (siblings_apart path x m.attr_id other)

  still_absent :
      (ob ob' : Ob) (m : MapData) (d : CommonData) (ms : List MapData)
      → is_flat m.data_type ≡ true
      → FitsType m.data_type m.data_len d
      → is_other m ms ≡ true
      → add_data_to_obj (path ++ named m.attr_id ∷ []) d m.data_len m.data_type ob ≡ ok (true, ob')
      → AllAbsent ob ms
      → AllAbsent ob' ms
  still_absent ob ob' m d [] flat fits other p absent = tt
  still_absent ob ob' m d (n ∷ ms) flat fits other p (here, rest) = (
    one_kept ob ob' m d n.attr_id flat fits
          (ground (
            arith,
            attr_id_beq_iff (named n.attr_id) (named m.attr_id),
            attr_id_beq_iff (named m.attr_id) (named n.attr_id),
          ))
          p
        ∙ here,
    still_absent ob ob' m d ms flat fits (ground arith) p rest,
  )

  others_kept :
      (ob ob' : Ob) (m : MapData) (ms : List MapData) (vals : List CommonData) (start : ℕ)
      (ds : List CommonData)
      → is_other m ms ≡ true
      → all_flat ms ≡ true
      → FitsAll (shape ms) ds
      → ItemsAt vals start ds
      → add_child_attrs_to_obj path ms vals start ob ≡ ok (true, ob')
      → api.e_get ob' (path ++ named m.attr_id ∷ []) ≡ api.e_get ob (path ++ named m.attr_id ∷ [])
  unfolding add_child_attrs_to_obj
  others_kept ob ob' m [] vals start ds other flat fits items p = ground arith
  others_kept ob ob' m (n ∷ ms) vals start [] other flat fits items p = absurd fits
  others_kept ob ob' m (n ∷ ms) vals start (d ∷ ds) other flat (fit, fits) (here, items) p =
      let (ob1, first, rest) = first_added ob ob' n ms vals start d here p in
      others_kept ob1 ob' m ms vals (suc start) ds (ground arith) (ground arith) fits items rest
      ∙ one_kept ob ob1 n d m.attr_id (ground arith) fit (ground arith) first

  same_read :
      (ob ob' : Ob) (p : AttrPath) (m : MapData)
      → is_flat m.data_type ≡ true
      → api.e_get ob' p ≡ api.e_get ob p
      → get_data_from_obj ob' p m ≡ get_data_from_obj ob p m
  unfolding plain_value
  same_read ob ob' p m flat same =
      as_plain ob ob' p m m.data_type refl flat
      ∙ (ap (λ e. elim e [ none ↦ absent_data m | some a ↦ attr_data m a ]) same
          ∙ sym (as_plain ob' ob p m m.data_type refl flat))

  children_read :
      (ob ob' : Ob) (ms : List MapData) (vals : List CommonData) (start : ℕ) (ds : List CommonData)
      → all_flat ms ≡ true
      → all_differ ms ≡ true
      → FitsAll (shape ms) ds
      → all_in_range ms ds ≡ true
      → ItemsAt vals start ds
      → AllAbsent ob ms
      → add_child_attrs_to_obj path ms vals start ob ≡ ok (true, ob')
      → get_child_attrs_from_obj ob' path ms ≡ ok ds
  unfolding get_child_attrs_from_obj
  children_read ob ob' [] vals start [] flat differ fits ranged items absent p = refl
  children_read ob ob' [] vals start (d ∷ ds) flat differ fits ranged items absent p = absurd fits
  children_read ob ob' (m ∷ ms) vals start [] flat differ fits ranged items absent p = absurd fits
  children_read ob ob' (m ∷ ms) vals start (d ∷ ds) flat differ (fit, fits) ranged (here, items)
        (no_m, no_ms) p =
      let (ob1, first, rest) = first_added ob ob' m ms vals start d here p in
      let is_m : is_flat m.data_type ≡ true = ground arith in
      let q = path ++ named m.attr_id ∷ [] in
      let own = read_value ob ob1 q m m.data_type d refl is_m fit (ground arith) no_m first in
      let kept =
        others_kept ob1 ob' m ms vals (suc start) ds (ground arith) (ground arith) fits items
          rest in
      let now = same_read ob1 ob' q m is_m kept ∙ own in
      let later =
        children_read ob1 ob' ms vals (suc start) ds (ground arith) (ground arith) fits
          (ground arith) items (still_absent ob ob1 m d ms is_m fit (ground arith) first no_ms)
          rest in
      ground arith

  -- The children of an embedded value are read as they were added.
  pub written-read :
      (ob ob' : Ob) (m : MapData) (ms : List MapData) (vals : List CommonData)
      → m.data_type ≡ DataType.embedded
      → all_flat ms ≡ true
      → all_differ ms ≡ true
      → FitsAll (shape ms) vals
      → all_in_range ms vals ≡ true
      → AllAbsent ob ms
      → nas_acl_copy_data_to_obj path m ms vals ob ≡ ok (true, ob')
      → nas_acl_copy_data_from_obj ob' path m ms ≡ ok vals
  unfolding nas_acl_copy_data_to_obj copy_non_iflist_data_to_obj nas_acl_copy_data_from_obj
      copy_non_iflist_data_from_obj
  written-read ob ob' m ms vals is flat differ fits ranged absent p =
      elim (Bool-cases (length vals == length ms)) [
        | inl same ↦ ground (
          arith,
          children_read ob ob' ms vals 0 vals flat differ fits ranged (own_items vals) absent
              (ground arith),
        )
        | inr unequal ↦ absurd (ground arith)
      ]
