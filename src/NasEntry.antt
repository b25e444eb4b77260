-- ===== src/NasEntry.antt =====
-- sonic/nas_acl_entry.h, src/nas_acl_entry.cpp: the methods of nas_acl_entry that change or read one
-- entry. The table that an entry points to is an argument, and so is a method of the base class.
-- A method that can throw after a change gives the entry as it leaves it with the result.
pub mod Compare
pub mod Diff
pub mod Npus
pub mod Push
pub mod Pushed
use sonic_nas_acl.Base.{
  ℕ, Bool, true, false, ◌&&◌, not, none, some, Option, List, [], ◌∷◌, nat_eq, ◌==◌, if◌then◌else◌,
}
use sonic_nas_acl.Action.{Action, is_set_counter}
use sonic_nas_acl.Env.{BaseObj, Hal, Attr, entry_priority, entry_match, entry_action}
use sonic_nas_acl.Filter.{Filter, is_npu_specific}
use sonic_nas_acl.Filter.Ndi.{get_npu_list}
use sonic_nas_acl.IdSet.{contains}
use sonic_nas_acl.Map.{Map, find, put, erase}
use sonic_nas_acl.NasCounter.{is_obj_in_npu}
use sonic_nas_acl.NasTable.{is_filter_allowed, is_empty}
use sonic_nas_acl.Object.{Table, Counter, Entry, counter_id, is_counter_enabled}
use sonic_nas_acl.Result.{
  Result, ok, err, ◌>>=◌, ◌>>◌, guard, inconsistent, attr_val, key_val, terminated, out_of_range,
}
use sonic_nas_acl.Switch.{Switch, find_counter}
use sonic_nas_acl.Switch.Entries.{entry_counter}
use sonic_nas_acl.Types.{MatchType, ActionType, match_eq, action_eq}

-- The test of a loop `for (auto npu_id : needed) { if (!have.contains (npu_id)) throw ...; }`.
unfoldable pub all_contained : List ℕ → List ℕ → Bool
all_contained [] have = true
all_contained (n ∷ ns) have = let rest = all_contained ns have in contains n have && rest

module _ {O : Type 0} where
  unfoldable pub set_entry_id : ℕ → Entry O → Result (Entry O)
  set_entry_id i e = guard (e.entry_id == 0) terminated >> ok (record e { entry_id = i })

  unfoldable pub get_filter : MatchType → Entry O → Result Filter
  get_filter ftype e = elim (find ftype e.flist) [ none ↦ err key_val | some f ↦ ok f ]

  unfoldable pub get_action : ActionType → Entry O → Result Action
  get_action atype e = elim (find atype e.alist) [ none ↦ err key_val | some a ↦ ok a ]

  unfoldable pub npu_specific_conflict : Filter → Entry O → Bool
  npu_specific_conflict f e =
      not (is_empty e.filter_npus)
      && elim (find f.filter_type e.flist) [ none ↦ true | some _ ↦ false ]

module _ {O : Type 0} ⦃b : BaseObj O⦄ where
  unfoldable pub npu_list : Entry O → List ℕ
  npu_list e = if is_empty e.filter_npus then b.npu_list e.base else e.filter_npus

  unfoldable pub set_priority : ℕ → Entry O → Entry O
  set_priority p e = record e { priority = p; base = b.mark_attr_dirty entry_priority e.base }

  unfoldable pub copy_table_npus : Table O → Entry O → Entry O
  copy_table_npus t e = record e {
    base = b.set_npu_list (b.npu_list t.base) e.base;
    following_table_npus = true;
  }

  unfoldable pub add_npu : ℕ → Bool → Entry O → Entry O
  add_npu npu reset e = record e { following_table_npus = false; base = b.add_npu npu reset e.base }

  unfoldable pub is_npu_set : ℕ → Entry O → Bool
  is_npu_set npu e =
      if not e.following_table_npus
      then contains npu (b.npu_list e.base)
      else contains npu e.filter_npus

  unfoldable store_filter : Filter → Entry O → Entry O
  store_filter f e = record e {
    base = b.mark_attr_dirty entry_match e.base;
    flist = put f.filter_type f e.flist;
  }

  -- The part of add_filter for the filters that need certain NPUs.
  unfoldable add_npu_filter : Hal → Table O → Filter → Entry O → Entry O × Result (Unit {0})
  unfolding npu_specific_conflict get_npu_list all_contained store_filter
  add_npu_filter hal t f e =
      if npu_specific_conflict f e then (e, err inconsistent) else elim (get_npu_list hal f) [
        | err x ↦ (e, err x)
        | ok npus ↦
            let e' : Entry O = record e { filter_npus = npus } in
            if all_contained npus (b.npu_list t.base)
            then (store_filter f e', ok tt)
            else (e', err inconsistent)
      ]

  unfoldable pub add_filter : Hal → Table O → Filter → Bool → Entry O → Entry O × Result (Unit {0})
  unfolding add_npu_filter store_filter is_filter_allowed
  add_filter hal t f reset e =
      if is_filter_allowed f.filter_type t
      then (let e' =
            (if reset && not (b.is_attr_dirty entry_match e.base)
              then record e { flist = []; filter_npus = [] }
              else e) in
          if is_npu_specific f.filter_type
          then add_npu_filter hal t f e'
          else (store_filter f e', ok tt))
      else (e, err inconsistent)

  unfoldable pub remove_filter : MatchType → Entry O → Entry O
  remove_filter ftype e = record e {
    filter_npus = if is_npu_specific ftype then [] else e.filter_npus;
    flist = erase ftype e.flist;
    base = b.mark_attr_dirty entry_match e.base;
  }

  unfoldable pub remove_action : ActionType → Entry O → Entry O
  remove_action atype e = record e {
    alist = erase atype e.alist;
    base = b.mark_attr_dirty entry_action e.base;
  }

  unfoldable pub reset_filter : Entry O → Entry O
  reset_filter e = record e {
    flist = [];
    filter_npus = [];
    base = b.mark_attr_dirty entry_match e.base;
  }

  unfoldable pub reset_action : Entry O → Entry O
  reset_action e = record e { alist = []; base = b.mark_attr_dirty entry_action e.base }

module _ {G O : Type 0} where
  -- The tests of the counter of an added SET_COUNTER action.
  unfoldable pub check_added_counter : Entry O → Switch G O → Result (Unit {0})
  unfolding find_counter
  check_added_counter e sw = elim (find_counter e.table_id (counter_id e) sw) [
    | none ↦ err attr_val
    | some k ↦ guard (k.table_id == e.table_id) inconsistent
  ]

module _ {G O : Type 0} ⦃b : BaseObj O⦄ where
  unfoldable pub add_action : Action → Bool → Entry O → Switch G O → Entry O × Result (Unit {0})
  unfolding check_added_counter is_set_counter
  add_action a reset e sw =
      let old = (if reset && not (b.is_attr_dirty entry_action e.base) then [] else e.alist) in
      let e' : Entry O = record e {
        base = b.mark_attr_dirty entry_action e.base;
        alist = put a.action_type a old;
      } in
      (e', (if is_set_counter a.action_type then check_added_counter e' sw else ok tt))

  counter_in_npus : Entry O → List ℕ → Switch G O → Result (Unit {0})
  unfolding entry_counter
  counter_in_npus e [] sw = ok tt
  counter_in_npus e (n ∷ ns) sw = do
    found ← entry_counter e sw
    (elim found [
      | none ↦ err terminated
      | some k ↦ guard (is_obj_in_npu n k) inconsistent >> counter_in_npus e ns sw
    ])

  -- With the guard of its callers, `if (is_counter_enabled ())`.
  unfoldable pub validate_counter_npus : Entry O → Switch G O → Result (Unit {0})
  unfolding npu_list counter_in_npus
  validate_counter_npus e sw =
      if is_counter_enabled e then counter_in_npus e (npu_list e) sw else ok tt

  unfoldable pub commit_create :
      (Entry O → Result (Entry O)) → Table O → Entry O → Switch G O → Result (Entry O)
  unfolding copy_table_npus npu_list validate_counter_npus
  commit_create base_commit t e sw = do
    e' ←
        (if e.following_table_npus
          then ok (copy_table_npus t e)
          else (guard (all_contained e.filter_npus (npu_list e)) inconsistent >> ok e))
    validate_counter_npus e' sw >> base_commit e'

  unfoldable pub commit_modify :
      (Entry O → Entry O → Result (Entry O))
      → Table O
      → Entry O
      → Entry O
      → Switch G O
      → Result (Entry O)
  unfolding copy_table_npus validate_counter_npus
  commit_modify base_commit t e_orig e sw = do
    e' ←
        (if not e.following_table_npus && is_empty (b.npu_list e.base)
          then ok (copy_table_npus t e)
          else if not e.following_table_npus
          then (guard (all_contained e.filter_npus (b.npu_list e.base)) inconsistent >> ok e)
          else ok e)
    validate_counter_npus e' sw >> base_commit e_orig e'

unfoldable pub is_leaf_attr : Attr → Result Bool
is_leaf_attr entry_priority = ok true
is_leaf_attr entry_match = ok false
is_leaf_attr entry_action = ok false
is_leaf_attr _ = err out_of_range
