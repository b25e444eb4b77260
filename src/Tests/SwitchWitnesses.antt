-- ===== src/Tests/SwitchWitnesses.antt =====
-- The theorems on the switch and its id guards, applied to the small switch.
use sonic_nas_acl.Base.{
  ℕ, ◌≡◌, ◌≢◌, refl, Bool, true, false, none, some, List, [], arith, nat_eq, ◌==◌, if◌then◌else◌,
}
use sonic_nas_acl.IdGuard.{new_guard, entry_obj, IdGuard, alloc_guarded_id, reserve_guarded_id}
use sonic_nas_acl.IdGuard.Guarded.{Guards, alloc_guarded_id-Guards, reserve_guarded_id-Guards}
use sonic_nas_acl.IdSet.{contains, add, remove}
use sonic_nas_acl.Map.{find, put, erase, insert}
use sonic_nas_acl.NasCounter.Deletion.{delete_counter-IsConsistent}
use sonic_nas_acl.NasTable.Deletion.{IsPaired, Stored, save_table-Stored, delete_table-lookups}
use sonic_nas_acl.NasTable
use sonic_nas_acl.NasCounter
use sonic_nas_acl.Switch.Lookup.{uses, is_some}
use sonic_nas_acl.Object.{counter_id, is_counter_enabled}
use sonic_nas_acl.Result.{Result, ok, err}
use sonic_nas_acl.Switch.{Switch, find_entry, find_counter, find_table, save_table, remove_table}
use sonic_nas_acl.Switch.Consistent.{save_entry-IsConsistent, remove_entry-IsConsistent}
use sonic_nas_acl.Switch.Entries.{
  save_entry, remove_entry_from_table, remove_counter_from_table, entry_counter,
}
use sonic_nas_acl.Switch.Refs.{IsConsistent}
use sonic_nas_acl.Switch.Stored.{
  save_entry-find_entry, remove_entry-find_entry, remove_entry_returns,
}
use sonic_nas_acl.Switch.Total.{HasCounter, save_entry_returns}
use sonic_nas_acl.Tests.Fixtures.{
  Obj, list_gen, plain_obj, small_switch, small_switch-IsConsistent, counting_entry, counter_of,
  table_1,
}
use sonic_nas_acl.Types.{action_beq, ActionType-discrete}

abbrev value_or : {A : Type 0} → A → Result A → A
value_or a (ok b) = b
value_or a (err e) = a

-- The entry 7, counting with the counter 6 from now on.
abbrev moved : Switch (List ℕ) Obj
moved = value_or small_switch (save_entry (counting_entry 7 6) small_switch)

moved_ok : save_entry (counting_entry 7 6) small_switch ≡ ok moved
unfolding save_entry find contains action_beq ActionType-discrete is_counter_enabled counter_id add
    remove put entry_counter
moved_ok = refl

nonzero : is_counter_enabled (counting_entry 7 6) ≡ true → counter_id (counting_entry 7 6) ≢ 0
unfolding find action_beq ActionType-discrete counter_id
nonzero on = ground arith

save_entry-IsConsistent_example : IsConsistent moved
save_entry-IsConsistent_example =
    save_entry-IsConsistent (counting_entry 7 6) small_switch moved small_switch-IsConsistent
      nonzero moved_ok

has_counter : HasCounter (counting_entry 7 6) small_switch
unfolding find find_counter action_beq ActionType-discrete is_counter_enabled counter_id
has_counter = refl

has_container : is_some (find 1 small_switch.table_containers) ≡ true
unfolding find
has_container = refl

save_entry_returns_example :
    (sw' : Switch (List ℕ) Obj) × (save_entry (counting_entry 7 6) small_switch ≡ ok sw')
save_entry_returns_example =
    save_entry_returns (counting_entry 7 6) small_switch small_switch-IsConsistent has_container
      has_counter

save_entry-find_entry_example : find_entry 1 7 moved ≡ some (counting_entry 7 6)
save_entry-find_entry_example =
    save_entry-find_entry (counting_entry 7 6) small_switch moved 1 7 moved_ok

-- Without the entry.
abbrev emptied : Switch (List ℕ) Obj
emptied = value_or small_switch (remove_entry_from_table 1 7 small_switch)

emptied_ok : remove_entry_from_table 1 7 small_switch ≡ ok emptied
unfolding remove_entry_from_table find contains action_beq ActionType-discrete is_counter_enabled
    counter_id add remove put erase entry_counter
emptied_ok = refl

remove_entry-IsConsistent_example : IsConsistent emptied
remove_entry-IsConsistent_example =
    remove_entry-IsConsistent 1 7 small_switch emptied small_switch-IsConsistent emptied_ok

has_entry : is_some (find_entry 1 7 small_switch) ≡ true
unfolding find find_entry
has_entry = refl

remove_entry_returns_example :
    (sw' : Switch (List ℕ) Obj) × (remove_entry_from_table 1 7 small_switch ≡ ok sw')
remove_entry_returns_example =
    remove_entry_returns 1 7 small_switch small_switch-IsConsistent has_entry

remove_entry-find_entry_example : find_entry 1 7 emptied ≡ none
remove_entry-find_entry_example = remove_entry-find_entry 1 7 small_switch emptied 1 7 emptied_ok

-- Without the unused counter.
abbrev without_6 : Switch (List ℕ) Obj
without_6 = value_or small_switch (remove_counter_from_table 1 6 small_switch)

without_6_ok : remove_counter_from_table 1 6 small_switch ≡ ok without_6
unfolding remove_counter_from_table find erase put remove
without_6_ok = refl

counter_6_there : find_counter 1 6 small_switch ≡ some (counter_of 6 [])
unfolding find find_counter
counter_6_there = refl

counter_6_deleted : (NasCounter.commit_delete (λ k. (k, ok tt)) (counter_of 6 [])).1 ≡ ok tt
unfolding NasCounter.commit_delete NasTable.is_empty
counter_6_deleted = refl

delete_counter-IsConsistent_example :
    IsConsistent without_6 × ((j : ℕ) → uses (find_entry 1 j small_switch) 6 ≡ false)
delete_counter-IsConsistent_example =
    delete_counter-IsConsistent (λ k. (k, ok tt)) 1 6 (counter_of 6 []) small_switch without_6
      small_switch-IsConsistent counter_6_there counter_6_deleted without_6_ok

-- A switch with an empty table.
abbrev fresh_switch : Switch (List ℕ) Obj
fresh_switch = record { tables = []; table_containers = []; tableid_gen = [] }

fresh-IsPaired : IsPaired fresh_switch
unfolding find find_table
fresh-IsPaired t = refl

save_table-Stored_example : Stored table_1 fresh_switch (save_table table_1 fresh_switch)
save_table-Stored_example = save_table-Stored table_1 fresh_switch fresh-IsPaired

empty_table_deleted :
    (NasTable.commit_delete (λ t. (t, ok tt)) table_1 (save_table table_1 fresh_switch)).1 ≡ ok tt
unfolding NasTable.commit_delete save_table find insert NasTable.is_empty
empty_table_deleted = refl

delete_table-lookups_example :
    ((t : ℕ)
      → find_table t (remove_table 1 (save_table table_1 fresh_switch))
        ≡ (if 1 == t then none else find_table t (save_table table_1 fresh_switch)))
    × ((t i : ℕ)
        → find_entry t i (remove_table 1 (save_table table_1 fresh_switch))
          ≡ find_entry t i (save_table table_1 fresh_switch))
    × ((t i : ℕ)
        → find_counter t i (remove_table 1 (save_table table_1 fresh_switch))
          ≡ find_counter t i (save_table table_1 fresh_switch))
delete_table-lookups_example =
    delete_table-lookups (λ t. (t, ok tt)) table_1 (save_table table_1 fresh_switch)
      empty_table_deleted

-- The guard of a new entry of table 1.
abbrev entry_guard : IdGuard
entry_guard = new_guard entry_obj 1

abbrev allocated : ℕ × IdGuard × Switch (List ℕ) Obj
allocated = value_or (0, entry_guard, small_switch) (alloc_guarded_id entry_guard small_switch)

allocated_ok : alloc_guarded_id entry_guard small_switch ≡ ok allocated
unfolding alloc_guarded_id find put
allocated_ok = refl

alloc_guarded_id-Guards_example :
    Guards entry_guard small_switch allocated.0 allocated.1 allocated.2
alloc_guarded_id-Guards_example =
    alloc_guarded_id-Guards entry_guard small_switch allocated.0 allocated.1 allocated.2
      allocated_ok

abbrev reserved : Bool × IdGuard × Switch (List ℕ) Obj
reserved =
    value_or (true, entry_guard, small_switch) (reserve_guarded_id 9 entry_guard small_switch)

reserved_ok : reserve_guarded_id 9 entry_guard small_switch ≡ ok (true, reserved.1, reserved.2)
unfolding reserve_guarded_id find put contains add
reserved_ok = refl

reserve_guarded_id-Guards_example : Guards entry_guard small_switch 9 reserved.1 reserved.2
reserve_guarded_id-Guards_example =
    reserve_guarded_id-Guards entry_guard small_switch 9 reserved.1 reserved.2 reserved_ok
