-- ===== src/NasEntry/Diff.antt =====
-- src/nas_acl_entry.cpp: the results of the comparison of lists.
use sonic_nas_acl.Base.{
  ◌≡◌, ◌∙◌, Bool, none, some, Option, [], ◌∷◌, arith, Eq, ◌==◌, if◌then◌else◌, inl, inr,
  Option-cases,
}
use sonic_nas_acl.Filter.{Filter}
use sonic_nas_acl.Filter.Ndi.{filter_ne}
use sonic_nas_acl.Map.{Map, find, insert}
use sonic_nas_acl.NasEntry.Compare.{
  compare_one, compare_old, compare_new, list_compare, flist_compare,
}
use sonic_nas_acl.Types.{MatchType, match_eq, action_eq}

abbrev pub or_else : {A : Type 0} → Option A → Option A → Option A
or_else none o = o
or_else (some a) o = some a

module _ {K V : Type 0} ⦃key : Eq K⦄ where
  insert_lem :
      (k j : K) (v : V) (m : Map K V)
      → find j (insert k v m) ≡ or_else (find j m) (if k == j then some v else none)
  unfolding find insert
  insert_lem k j v [] = ground arith
  insert_lem k j v ((i, w) ∷ m) =
      ground (arith, key.beq_iff k j, key.beq_iff i k, key.beq_iff i j, insert_lem k j v m)

-- Each element of the map is at the key that it names, and no key is there twice.
abbrev pub IsKeyed : {K V : Type 0} ⦃key : Eq K⦄ → (V → K) → Map K V → Type 0
IsKeyed type_of [] = Unit
IsKeyed type_of ((k, v) ∷ m) = (type_of v ≡ k) × (find k m ≡ none) × IsKeyed type_of m

module _ {K V : Type 0} ⦃key : Eq K⦄ (type_of : V → K) where
  keyed_at : (m : Map K V) → IsKeyed type_of m → (k : K) (v : V) → find k m ≡ some v → type_of v ≡ k
  unfolding find
  keyed_at [] keyed k v there = cc
  keyed_at ((i, w) ∷ m) (names, fresh, keyed) k v there =
      ground (arith, key.beq_iff i k, keyed_at m keyed k v)

abbrev pub modified : {V : Type 0} → (V → V → Bool) → Option V → Option V → Option V
modified ne none old = none
modified ne (some new) none = none
modified ne (some new) (some old) = if ne old new then some new else none

module _ {K V : Type 0} ⦃key : Eq K⦄ where
  -- What is at a key of the old list and not of the new.
  abbrev pub removed_at : Map K V → Map K V → K → Option V
  removed_at lhs rhs k = elim (find k lhs) [ none ↦ find k rhs | some _ ↦ none ]

  -- What the new list has at a key, if the old one has nothing there or something else.
  abbrev pub changed_at : (V → V → Bool) → Map K V → Map K V → K → Option V
  changed_at ne lhs rhs k = elim (find k rhs) [
    | none ↦ find k lhs
    | some old ↦ modified ne (find k lhs) (some old)
  ]

module _ {K V : Type 0} ⦃key : Eq K⦄ (type_of : V → K) (ne : V → V → Bool) (lhs : Map K V)
    (keyed_lhs : IsKeyed type_of lhs) where
  old_deleted :
      (rhs gone more : Map K V)
      → IsKeyed type_of rhs
      → (k : K)
      → find k (compare_old type_of ne lhs rhs gone more).0
        ≡ or_else (find k gone) (removed_at lhs rhs k)
  unfolding find compare_old compare_one
  old_deleted [] gone more keyed k = ground arith
  old_deleted ((i, old) ∷ rhs) gone more (names, fresh, keyed) k =
      let acc = compare_one type_of ne lhs old gone more in
      old_deleted rhs acc.0 acc.1 keyed k
      ∙ ground
          (arith, key.beq_iff i k, key.beq_iff (type_of old) k, insert_lem (type_of old) k old gone)

  old_modified :
      (rhs gone more : Map K V)
      → IsKeyed type_of rhs
      → (k : K)
      → find k (compare_old type_of ne lhs rhs gone more).1
        ≡ or_else (find k more) (modified ne (find k lhs) (find k rhs))
  unfolding find compare_old compare_one
  old_modified [] gone more keyed k = ground arith
  old_modified ((i, old) ∷ rhs) gone more (names, fresh, keyed) k =
      let acc = compare_one type_of ne lhs old gone more in
      old_modified rhs acc.0 acc.1 keyed k ∙ elim (Option-cases (find (type_of old) lhs)) [
        | inl missing ↦ ground (arith, key.beq_iff i k)
        | inr (new, there) ↦ ground (
          arith,
          key.beq_iff i k,
          keyed_at type_of lhs keyed_lhs (type_of old) new there,
          insert_lem (type_of new) k new more,
        )
      ]

module _ {K V : Type 0} ⦃key : Eq K⦄ (type_of : V → K) (ne : V → V → Bool) (rhs : Map K V) where
  new_added :
      (lhs more : Map K V)
      → IsKeyed type_of lhs
      → (k : K)
      → find k (compare_new type_of ne rhs lhs more) ≡ or_else (find k more) (removed_at rhs lhs k)
  unfolding find compare_new
  new_added [] more keyed k = ground arith
  new_added ((i, new) ∷ lhs) more (names, fresh, keyed) k = ground (
    arith,
    key.beq_iff i k,
    key.beq_iff (type_of new) k,
    insert_lem (type_of new) k new more,
    new_added lhs more keyed k,
    new_added lhs (insert (type_of new) new more) keyed k,
  )

module _ {K V : Type 0} ⦃key : Eq K⦄ (type_of : V → K) (ne : V → V → Bool) (lhs rhs : Map K V)
    (keyed_lhs : IsKeyed type_of lhs) (keyed_rhs : IsKeyed type_of rhs) where
  list_compare_lem :
      (k : K)
      → (find k (list_compare type_of ne lhs rhs).0 ≡ removed_at lhs rhs k)
        × (find k (list_compare type_of ne lhs rhs).1 ≡ changed_at ne lhs rhs k)
  unfolding find list_compare
  list_compare_lem k = (
    old_deleted type_of ne lhs keyed_lhs rhs [] [] keyed_rhs k,
    new_added type_of ne rhs lhs (compare_old type_of ne lhs rhs [] []).1 keyed_lhs k
        ∙ ground (arith, old_modified type_of ne lhs keyed_lhs rhs [] [] keyed_rhs k),
  )

module _ (lhs rhs : Map MatchType Filter) where
  -- For new and old filter lists in which each filter is at its own type and no type is there
  -- twice: at every type, the deleted list has the old filter if the new list has none, and
  -- nothing otherwise; the list of added or modified filters has the new filter if the old list
  -- has none or one that differs, and nothing otherwise.
  pub flist_compare_lem :
      IsKeyed (λ f. f.filter_type) lhs
      → IsKeyed (λ f. f.filter_type) rhs
      → (k : MatchType)
      → (find k (flist_compare lhs rhs).0 ≡ removed_at lhs rhs k)
        × (find k (flist_compare lhs rhs).1 ≡ changed_at filter_ne lhs rhs k)
  unfolding flist_compare
  flist_compare_lem keyed_lhs keyed_rhs =
      list_compare_lem (λ f. f.filter_type) filter_ne lhs rhs keyed_lhs keyed_rhs
