-- ===== src/NasTable/Deletion.antt =====
-- src/nas_acl_table.cpp, src/nas_acl_switch.cpp: storing and deleting a table.
use sonic_nas_acl.Base.{
  ℕ, ◌≡◌, refl, inl, inr, none, some, Option, [], arith, nat_eq, ◌==◌, if◌then◌else◌, Option-cases,
}
use sonic_nas_acl.Env.{IdGenerator}
use sonic_nas_acl.Map.{find, find-put, find-insert, find-erase}
use sonic_nas_acl.NasTable.{commit_delete, validate_empty, is_empty}
use sonic_nas_acl.Object.{Table}
use sonic_nas_acl.Result.{Result, ok}
use sonic_nas_acl.Switch.{
  Switch, Container, entry_list, counter_list, find_entry, find_counter, find_table, save_table,
  remove_table, entry_id_max,
}
use sonic_nas_acl.Switch.Lookup.{is_some}

missing_container :
    {A B : Type 0} (a : Option A) (b : Option B) → a ≡ none → is_some b ≡ is_some a → b ≡ none
missing_container a none h same = refl
missing_container a (some b) h same = ground arith

module _ {G O : Type 0} where
  -- The tables that are stored are those that have a container.
  abbrev pub IsPaired : Switch G O → Type 0
  IsPaired sw = (t : ℕ) → is_some (find t sw.table_containers) ≡ is_some (find_table t sw)

module _ {G O : Type 0} ⦃gen : IdGenerator G⦄ (x : Table O) (sw : Switch G O) where
  -- The table is the only thing that is different.
  abbrev pub Stored : Switch G O → Type 0
  Stored sw' =
      IsPaired sw'
      × ((t : ℕ) → find_table t sw' ≡ (if x.table_id == t then some x else find_table t sw))
      × ((t i : ℕ) → find_entry t i sw' ≡ find_entry t i sw)
      × ((t i : ℕ) → find_counter t i sw' ≡ find_counter t i sw)

  -- In a switch whose stored tables are those that have a container, save_table keeps that, makes
  -- find_table give the saved table at its id and what it gave before elsewhere, and leaves every
  -- entry and every counter as it was; this holds for a new table and for a replacement.
  pub save_table-Stored : IsPaired sw → Stored (save_table x sw)
  unfolding save_table find_table find_entry find_counter find
  save_table-Stored paired = elim (Option-cases (find x.table_id sw.tables)) [
    | inl fresh ↦
        let c : Container G O = record {
          entry_id_gen = gen.fresh entry_id_max;
          acl_entries = [];
          counter_id_gen = gen.fresh entry_id_max;
          acl_counters = [];
        } in
        let was = paired x.table_id in
        let missing =
          missing_container (find x.table_id sw.tables) (find x.table_id sw.table_containers) fresh
            was in
        (
          λ t. ground (
            arith,
            paired t,
            find-insert x.table_id t x sw.tables fresh,
            find-insert x.table_id t c sw.table_containers missing,
          ),
          λ t. ground (arith, find-insert x.table_id t x sw.tables fresh),
          λ t i. ground (arith, missing, find-insert x.table_id t c sw.table_containers missing),
          λ t i. ground (arith, missing, find-insert x.table_id t c sw.table_containers missing),
        )
    | inr (old, was) ↦ (
      λ t. ground (arith, paired t, find-put x.table_id t x sw.tables),
      λ t. ground (arith, find-put x.table_id t x sw.tables),
      λ t i. ground arith,
      λ t i. ground arith,
    )
  ]

module _ {G O : Type 0} ⦃gen : IdGenerator G⦄ (base_commit : Table O → Table O × Result (Unit {0}))
    (x : Table O) (sw : Switch G O) where
  commit_delete_cases :
      (commit_delete base_commit x sw).1 ≡ ok tt
      → (c : Container G O) × (find x.table_id sw.table_containers ≡ some c)
        × (c.acl_entries ≡ [])
        × (c.acl_counters ≡ [])
  unfolding commit_delete validate_empty entry_list counter_list is_empty
  commit_delete_cases done = elim (Option-cases (find x.table_id sw.table_containers)) [
    | inl missing ↦ absurd (ground arith)
    | inr (c, found) ↦ (c, found, ground arith, ground arith)
  ]

  -- When commit_delete of a table succeeds and the table is then removed from the switch,
  -- find_table gives nothing for it and is otherwise unchanged, and every entry and every counter
  -- of every table is found as before: none is lost.
  pub delete_table-lookups :
      (commit_delete base_commit x sw).1 ≡ ok tt
      → ((t : ℕ)
          → find_table t (remove_table x.table_id sw)
            ≡ (if x.table_id == t then none else find_table t sw))
        × ((t i : ℕ) → find_entry t i (remove_table x.table_id sw) ≡ find_entry t i sw)
        × ((t i : ℕ) → find_counter t i (remove_table x.table_id sw) ≡ find_counter t i sw)
  unfolding remove_table find_table find_entry find_counter find
  delete_table-lookups done =
      let (c, found, no_entries, no_counters) = commit_delete_cases done in
      (
        λ t. ground (arith, find-erase x.table_id t sw.tables),
        λ t i. ground (arith, find-erase x.table_id t sw.table_containers),
        λ t i. ground (arith, find-erase x.table_id t sw.table_containers),
      )
