-- ===== src/CpsTable/Deleted.antt =====
-- src/nas_acl_cps_table.cpp: a delete request for a table.
use sonic_nas_acl.Base.{
  ℕ, ◌≡◌, subst, inl, inr, Bool, true, ◌&&◌, not, none, some, arith, nat_eq, ◌==◌, if◌then◌else◌,
  Option-cases,
}
use sonic_nas_acl.CpsApi.{CpsApi}
use sonic_nas_acl.CpsEnv.{CpsEnv}
use sonic_nas_acl.CpsKey.{nas_acl_cps_key_get_obj_id}
use sonic_nas_acl.CpsTable.{nas_acl_table_delete, delete_table}
use sonic_nas_acl.CpsTable.Created.{IsSound}
use sonic_nas_acl.Env.{BaseObj, IdGenerator}
use sonic_nas_acl.Map.{find, find-erase}
use sonic_nas_acl.NasTable.{commit_delete}
use sonic_nas_acl.NasTable.Deletion.{delete_table-lookups}
use sonic_nas_acl.Object.{Table}
use sonic_nas_acl.Request.{Handled}
use sonic_nas_acl.Result.{Result, ok, Result-cases}
use sonic_nas_acl.Switch.Lookup.{is_some}
use sonic_nas_acl.Switch.{Switch, find_table, get_table, find_entry, find_counter, remove_table}

module _ {G O : Type 0} ⦃gen : IdGenerator G⦄ (sw : Switch G O) where
  -- The table was there and is gone with its container, its id free again, and nothing else changes.
  abbrev pub Removes : ℕ → Switch G O → Type 0
  Removes t sw' =
      (is_some (find_table t sw) ≡ true)
      × ((j : ℕ) → find_table j sw' ≡ (if t == j then none else find_table j sw))
      × ((j : ℕ)
          → find j sw'.table_containers ≡ (if t == j then none else find j sw.table_containers))
      × ((j i : ℕ) → find_entry j i sw' ≡ find_entry j i sw)
      × ((j i : ℕ) → find_counter j i sw' ≡ find_counter j i sw)
      × ((j : ℕ) → gen.in_use sw'.tableid_gen j ≡ (not (t == j) && gen.in_use sw.tableid_gen j))

  removed :
      (base_commit : Table O → Table O × Result (Unit {0})) (t : ℕ) (x : Table O)
      → IsSound sw
      → find_table t sw ≡ some x
      → (commit_delete base_commit x sw).1 ≡ ok tt
      → IsSound (remove_table t sw) × Removes t (remove_table t sw)
  unfolding remove_table find_table
  removed base_commit t x v found done =
      let id = v.keyed t x found in
      let (tables, entries, counters) = delete_table-lookups base_commit x sw done in
      (
        record {
          paired = λ j.
              ground
                (arith, v.paired j, find-erase t j sw.tables, find-erase t j sw.table_containers);
          exact =
              λ j. ground (arith, tables j, v.exact j, gen.release_in_use t j sw.tableid_gen, id);
          keyed = λ j y at_j. ground (arith, tables j, v.keyed j y, id);
        },
        (
          ground arith,
          λ j. ground (arith, tables j, id),
          λ j. find-erase t j sw.table_containers,
          λ j i. ground (arith, entries j i, id),
          λ j i. ground (arith, counters j i, id),
          λ j. gen.release_in_use t j sw.tableid_gen,
        ),
      )

module _ {Ob G O : Type 0} ⦃api : CpsApi Ob⦄ ⦃gen : IdGenerator G⦄ ⦃b : BaseObj O⦄ (env : CpsEnv)
    (obj prev : Ob) (is_rollbk_op : Bool) (sw : Switch G O) (following_switch_npus : Table O → Bool)
    (base_commit : Table O → Table O × Result (Unit {0})) where
  abbrev pub deleted : Handled Ob G O
  deleted = nas_acl_table_delete env obj prev is_rollbk_op sw following_switch_npus base_commit

  -- In a switch whose tables have containers and are stored under their own ids, which are the
  -- ids in use: when nas_acl_table_delete of an object whose key names a table succeeds, the
  -- table was stored; afterwards the table and its container are gone, no other table, no other
  -- container, no entry and no counter of any table changes, only its id is no longer in use, and
  -- the switch is still of this kind.
  pub delete_table-Removes :
      (t : ℕ)
      → IsSound sw
      → nas_acl_cps_key_get_obj_id obj "BASE_ACL_TABLE_ID" ≡ some t
      → deleted.rc ≡ ok tt
      → IsSound deleted.sw × Removes sw t deleted.sw
  unfolding nas_acl_table_delete delete_table get_table find_table
  delete_table-Removes t v key p = elim (Option-cases (find t sw.tables)) [
    | inl missing ↦ absurd (ground arith)
    | inr (x, found) ↦ elim (Result-cases (commit_delete base_commit x sw).1) [
      | inl (y, failed) ↦ absurd (ground arith)
      | inr (u, done) ↦
          subst (λ s. IsSound s × Removes sw t s) {x = remove_table t sw} {y = deleted.sw}
            (ground arith) (removed sw base_commit t x v found done)
    ]
  ]
