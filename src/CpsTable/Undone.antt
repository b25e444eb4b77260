-- ===== src/CpsTable/Undone.antt =====
-- src/nas_acl_cps_table.cpp: a create request for a table and the delete request for its previous
-- object, which undoes it.
use sonic_nas_acl.Base.{
  ℕ, ◌≡◌, refl, sym, false, ◌==◌, ap, subst, ◌∙◌, Bool, true, Option, none, some, [], arith, nat_eq,
}
use sonic_nas_acl.CpsApi.{CpsApi, u64}
use sonic_nas_acl.CpsEnv.{CpsEnv}
use sonic_nas_acl.CpsKey.{nas_acl_cps_key_get_obj_id, nas_acl_cps_key_set_obj_id}
use sonic_nas_acl.CpsTable.{nas_acl_table_delete, delete_table, cps_key_fill}
use sonic_nas_acl.CpsTable.Created.{IsSound, KeepsId, create_table-Saves, create_table-IsSound}
use sonic_nas_acl.CpsTable.Deleted.{deleted, delete_table-Removes}
use sonic_nas_acl.CpsTable.Failing.{created}
use sonic_nas_acl.Env.{BaseObj, IdGenerator}
use sonic_nas_acl.Map.{find, find-insert}
use sonic_nas_acl.NasTable.Deletion.{save_table-Stored}
use sonic_nas_acl.NasTable.{commit_delete, validate_empty, is_empty}
use sonic_nas_acl.Object.{Table}
use sonic_nas_acl.Request.{Handled}
use sonic_nas_acl.Result.{Result, ok}
use sonic_nas_acl.Switch.Lookup.{is_some}
use sonic_nas_acl.Switch.{
  Switch, Container, find_table, get_table, find_entry, find_counter, save_table, entry_list,
  counter_list, entry_id_max,
}

none_of : {A B : Type 0} (a : Option A) (b : Option B) → is_some a ≡ is_some b → b ≡ none → a ≡ none
none_of none b same h = refl
none_of (some a) b same h = ground arith

module _ {G O : Type 0} ⦃gen : IdGenerator G⦄ (t : Table O) (sw : Switch G O)
    (missing : find_table t.table_id sw ≡ none)
    (no_container : find t.table_id sw.table_containers ≡ none) where
  abbrev new_container : Container G O
  new_container = record {
    entry_id_gen = gen.fresh entry_id_max;
    acl_entries = [];
    counter_id_gen = gen.fresh entry_id_max;
    acl_counters = [];
  }

  -- The base class deletes the new table: it has no entries and no counters.
  new_table_empty :
      (base_delete : Table O → Table O × Result (Unit {0}))
      → commit_delete base_delete t (save_table t sw) ≡ base_delete t
  unfolding commit_delete validate_empty entry_list counter_list save_table find_table is_empty
  new_table_empty base_delete =
      ground
        (arith, find-insert t.table_id t.table_id new_container sw.table_containers no_container)

  other_containers :
      (j : ℕ)
      → (t.table_id == j) ≡ false
      → find j (save_table t sw).table_containers ≡ find j sw.table_containers
  unfolding save_table find_table
  other_containers j other =
      ground (arith, find-insert t.table_id j new_container sw.table_containers no_container)

module _ {G O : Type 0} ⦃gen : IdGenerator G⦄ (sw : Switch G O) where
  -- Every lookup, every container and every id in use is as it was.
  abbrev pub Restored : Switch G O → Type 0
  Restored sw' =
      ((j : ℕ) → find_table j sw' ≡ find_table j sw)
      × ((j : ℕ) → find j sw'.table_containers ≡ find j sw.table_containers)
      × ((j i : ℕ) → find_entry j i sw' ≡ find_entry j i sw)
      × ((j i : ℕ) → find_counter j i sw' ≡ find_counter j i sw)
      × ((j : ℕ) → gen.in_use sw'.tableid_gen j ≡ gen.in_use sw.tableid_gen j)

-- An object has room for the key of a table.
abbrev pub SetsKeys : (Ob : Type 0) ⦃api : CpsApi Ob⦄ → Type 0
SetsKeys Ob = (ob : Ob) (i : ℕ) → (nas_acl_cps_key_set_obj_id ob "BASE_ACL_TABLE_ID" i).0 ≡ true

module _ {Ob G O : Type 0} ⦃api : CpsApi Ob⦄ ⦃gen : IdGenerator G⦄ ⦃b : BaseObj O⦄ (env : CpsEnv)
    (obj prev : Ob) (sw : Switch G O) (base_commit : Table O → Result (Table O))
    (base_delete : Table O → Table O × Result (Unit {0}))
    (following_switch_npus : Table O → Bool) where
  key_filled :
      (ob : Ob) (t : Table O)
      → SetsKeys Ob
      → nas_acl_cps_key_get_obj_id (cps_key_fill ob t) "BASE_ACL_TABLE_ID" ≡ some t.table_id
  unfolding cps_key_fill nas_acl_cps_key_set_obj_id nas_acl_cps_key_get_obj_id
  key_filled ob t sets =
      let ob' = (nas_acl_cps_key_set_obj_id ob "BASE_ACL_TABLE_ID" t.table_id).1 in
      let (a, got, (len, shows)) =
        api.key_set ob ob' "BASE_ACL_TABLE_ID" (u64 t.table_id)
          (ground (arith, sets ob t.table_id)) in
      ground arith

  abbrev first : Handled Ob G O
  first = created env obj prev false sw base_commit

  -- The rollback gets the previous object that was saved.
  abbrev second : Handled Ob G O
  second = deleted env first.prev first.prev true first.sw following_switch_npus base_delete

  second_returns :
      (t : Table O) (s : Switch G O) (ob : Ob)
      → nas_acl_cps_key_get_obj_id ob "BASE_ACL_TABLE_ID" ≡ some t.table_id
      → find_table t.table_id s ≡ some t
      → (commit_delete base_delete t s).1 ≡ ok tt
      → (deleted env ob ob true s following_switch_npus base_delete).rc ≡ ok tt
  unfolding nas_acl_table_delete delete_table get_table find_table
  second_returns t s ob key found done = ground arith

  pub create-delete-Restored :
      IsSound sw
      → KeepsId base_commit
      → SetsKeys Ob
      → ((x : Table O) → (base_delete x).1 ≡ ok tt)
      → first.rc ≡ ok tt
      → (second.rc ≡ ok tt) × Restored sw second.sw
  unfolding find_table find_entry find_counter
  create-delete-Restored v keeps sets total p =
      let (t, g, is, filled, missing, in_use) =
        create_table-Saves env obj prev false sw base_commit v keeps p in
      let sound = (create_table-IsSound env obj prev false sw base_commit v keeps p).0 in
      let sw1 : Switch G O = record sw { tableid_gen = g } in
      let (paired, tables, entries, counters) = save_table-Stored t sw1 v.paired in
      let no_container =
        none_of (find t.table_id sw.table_containers) (find_table t.table_id sw)
          (v.paired t.table_id) missing in
      let key : nas_acl_cps_key_get_obj_id first.prev "BASE_ACL_TABLE_ID" ≡ some t.table_id =
        ap (λ o. nas_acl_cps_key_get_obj_id o "BASE_ACL_TABLE_ID") filled
        ∙ key_filled (api.copy_key prev first.obj) t sets in
      let empty = new_table_empty t sw1 missing no_container base_delete in
      let rc = second_returns t first.sw first.prev key (ground (arith, tables t.table_id)) (
        subst (λ s. (commit_delete base_delete t s).1 ≡ ok tt) (sym is)
          (ap (λ r. r.1) empty ∙ total t)) in
      let (sound', (was, tables', containers', entries', counters', in_use')) =
        delete_table-Removes env first.prev first.prev true first.sw following_switch_npus
          base_delete t.table_id sound key rc in
      (
        rc,
        (
          λ j. ground (arith, tables' j, tables j, ap (find_table j) is),
          λ j. ground (
            arith,
            containers' j,
            no_container,
            other_containers t sw1 missing no_container j,
            ap (λ s. find j s.table_containers) is,
          ),
          λ j k. entries' j k ∙ ap (find_entry j k) is ∙ entries j k,
          λ j k. counters' j k ∙ ap (find_counter j k) is ∙ counters j k,
          λ j. ground (arith, in_use' j, sound.exact j, v.exact j, tables j, ap (find_table j) is),
        ),
      )
