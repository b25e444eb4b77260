-- ===== src/Switch.antt =====
-- sonic/nas_acl_switch.h, src/nas_acl_switch.cpp: nas_acl_switch. A reference or pointer to a stored
-- object is its key in the switch, so a change through it is a change of the switch.
pub mod Ids
pub mod Entries
pub mod Lookup
pub mod Refs
pub mod Consistent
pub mod Total
pub mod Stored
pub mod Counters
use sonic_nas_acl.Base.{ℕ, none, some, Option, [], nat_eq, if◌then◌else◌, ltb}
use sonic_nas_acl.Env.{IdGenerator}
use sonic_nas_acl.Map.{Map, find, at, insert, put, erase}
use sonic_nas_acl.Object.{Table, Counter, Entry}
use sonic_nas_acl.Result.{Result, ok, err, ◌>>=◌, key_val}

abbrev pub table_id_max : ℕ
table_id_max = 500

abbrev pub entry_id_max : ℕ
entry_id_max = 4094

-- acl_table_container_t, over the id generator `G` and the base object `O`.
pub record Container (G O : Type 0) : Type 0 where
  pub entry_id_gen : G
  pub acl_entries : Map ℕ (Entry O)
  pub counter_id_gen : G
  pub acl_counters : Map ℕ (Counter O)

pub record Switch (G O : Type 0) : Type 0 where
  pub tables : Map ℕ (Table O)
  pub table_containers : Map ℕ (Container G O)
  pub tableid_gen : G

-- `m.at (k)` with `std::out_of_range` turned into the exception for a missing key.
abbrev pub at_key : {V : Type 0} → ℕ → Map ℕ V → Result V
at_key k m = elim (find k m) [ none ↦ err key_val | some v ↦ ok v ]

module _ {G O : Type 0} where
  unfoldable pub get_table : ℕ → Switch G O → Result (Table O)
  get_table t sw = at_key t sw.tables

  unfoldable pub find_table : ℕ → Switch G O → Option (Table O)
  find_table t sw = find t sw.tables

  unfoldable pub entry_list : ℕ → Switch G O → Result (Map ℕ (Entry O))
  entry_list t sw = do c ← at_key t sw.table_containers; ok c.acl_entries

  unfoldable pub counter_list : ℕ → Switch G O → Result (Map ℕ (Counter O))
  counter_list t sw = do c ← at_key t sw.table_containers; ok c.acl_counters

  unfoldable pub get_entry : ℕ → ℕ → Switch G O → Result (Entry O)
  get_entry t i sw = do c ← at_key t sw.table_containers; at_key i c.acl_entries

  unfoldable pub find_entry : ℕ → ℕ → Switch G O → Option (Entry O)
  find_entry t i sw = elim (find t sw.table_containers) [
    | none ↦ none
    | some c ↦ find i c.acl_entries
  ]

  unfoldable pub get_counter : ℕ → ℕ → Switch G O → Result (Counter O)
  get_counter t i sw = do c ← at_key t sw.table_containers; at_key i c.acl_counters

  unfoldable pub find_counter : ℕ → ℕ → Switch G O → Option (Counter O)
  find_counter t i sw = elim (find t sw.table_containers) [
    | none ↦ none
    | some c ↦ find i c.acl_counters
  ]

  -- A change of the container of a table, through a reference to it.
  abbrev pub set_container : ℕ → Container G O → Switch G O → Switch G O
  set_container t c sw = record sw { table_containers = put t c sw.table_containers }

  unfoldable pub save_table : ⦃gen : IdGenerator G⦄ → Table O → Switch G O → Switch G O
  save_table ⦃gen⦄ t sw = elim (find t.table_id sw.tables) [
    | none ↦ record sw {
      table_containers =
          insert t.table_id
            (record {
              entry_id_gen = gen.fresh entry_id_max;
              acl_entries = [];
              counter_id_gen = gen.fresh entry_id_max;
              acl_counters = [];
            })
            sw.table_containers;
      tables = insert t.table_id t sw.tables;
    }
    | some _ ↦ record sw { tables = put t.table_id t sw.tables }
  ]

  unfoldable pub remove_table : ⦃gen : IdGenerator G⦄ → ℕ → Switch G O → Switch G O
  remove_table ⦃gen⦄ t sw = record sw {
    table_containers = erase t sw.table_containers;
    tables = erase t sw.tables;
    tableid_gen = gen.release_id t sw.tableid_gen;
  }
