-- ===== src/NasCounter/Deletion.antt =====
-- Deleting a counter.
use sonic_nas_acl.Base.{ℕ, ◌≡◌, false, some, arith, nat_eq}
use sonic_nas_acl.Env.{IdGenerator}
use sonic_nas_acl.NasCounter.{commit_delete}
use sonic_nas_acl.NasTable.{is_empty}
use sonic_nas_acl.Object.{Counter}
use sonic_nas_acl.Result.{Result, ok}
use sonic_nas_acl.Switch.{Switch, find_counter, find_entry}
use sonic_nas_acl.Switch.Counters.{remove_counter-IsConsistent}
use sonic_nas_acl.Switch.Entries.{remove_counter_from_table}
use sonic_nas_acl.Switch.Refs.{IsConsistent}
use sonic_nas_acl.IdSet.{contains}
use sonic_nas_acl.Switch.Lookup.{uses}

module _ {G O : Type 0} ⦃gen : IdGenerator G⦄
    (base_commit : Counter O → Counter O × Result (Unit {0})) (t i : ℕ) (k : Counter O)
    (sw sw' : Switch G O) where
  -- In a consistent switch, when commit_delete of a stored counter and then
  -- remove_counter_from_table return, no entry of the table was counting with the counter, and
  -- the switch is still consistent.
  pub delete_counter-IsConsistent :
      IsConsistent sw
      → find_counter t i sw ≡ some k
      → (commit_delete base_commit k).1 ≡ ok tt
      → remove_counter_from_table t i sw ≡ ok sw'
      → IsConsistent sw' × ((j : ℕ) → uses (find_entry t j sw) i ≡ false)
  unfolding commit_delete is_empty contains
  delete_counter-IsConsistent v there checked removed = (
    remove_counter-IsConsistent t i sw sw' v (ground arith) removed,
    λ j. ground (arith, v.exact t i j),
  )
