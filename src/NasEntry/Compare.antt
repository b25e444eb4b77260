-- ===== src/NasEntry/Compare.antt =====
-- src/nas_acl_entry.cpp: _utl_flist_compare and _utl_alist_compare, which are the same loops over
-- filters and over actions.
use sonic_nas_acl.Base.{Bool, none, some, [], ◌∷◌, Eq, if◌then◌else◌}
use sonic_nas_acl.Action.{Action}
use sonic_nas_acl.Action.Ndi.{action_ne}
use sonic_nas_acl.Filter.{Filter}
use sonic_nas_acl.Filter.Ndi.{filter_ne}
use sonic_nas_acl.Map.{Map, find, insert}
use sonic_nas_acl.Types.{MatchType, ActionType, match_eq, action_eq}

module _ {K V : Type 0} ⦃key : Eq K⦄ (type_of : V → K) (ne : V → V → Bool) where
  -- `(deleted, add_or_mod)` after one round of the first loop.
  unfoldable pub compare_one : Map K V → V → Map K V → Map K V → Map K V × Map K V
  compare_one lhs old deleted add_or_mod = elim (find (type_of old) lhs) [
    | none ↦ (insert (type_of old) old deleted, add_or_mod)
    | some new ↦
        if ne old new then (deleted, insert (type_of new) new add_or_mod) else (deleted, add_or_mod)
  ]

  unfoldable pub compare_old : Map K V → Map K V → Map K V → Map K V → Map K V × Map K V
  unfolding compare_one
  compare_old lhs [] deleted add_or_mod = (deleted, add_or_mod)
  compare_old lhs ((_, old) ∷ rest) deleted add_or_mod =
      let acc = compare_one lhs old deleted add_or_mod in compare_old lhs rest acc.0 acc.1

  unfoldable pub compare_new : Map K V → Map K V → Map K V → Map K V
  compare_new rhs [] add_or_mod = add_or_mod
  compare_new rhs ((_, new) ∷ rest) add_or_mod = elim (find (type_of new) rhs) [
    | none ↦ compare_new rhs rest (insert (type_of new) new add_or_mod)
    | some _ ↦ compare_new rhs rest add_or_mod
  ]

  -- `(deleted, add_or_mod)` for the new list `lhs` and the old list `rhs`.
  unfoldable pub list_compare : Map K V → Map K V → Map K V × Map K V
  unfolding compare_old compare_new
  list_compare lhs rhs = let acc = compare_old lhs rhs [] [] in (acc.0, compare_new rhs lhs acc.1)

unfoldable pub flist_compare :
    Map MatchType Filter → Map MatchType Filter → Map MatchType Filter × Map MatchType Filter
unfolding list_compare filter_ne
flist_compare = list_compare (λ f. f.filter_type) filter_ne

unfoldable pub alist_compare :
    Map ActionType Action → Map ActionType Action → Map ActionType Action × Map ActionType Action
unfolding list_compare action_ne
alist_compare = list_compare (λ a. a.action_type) action_ne
