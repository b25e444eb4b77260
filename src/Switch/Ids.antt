-- ===== src/Switch/Ids.antt =====
-- The ids of tables, entries and counters.
use sonic_nas_acl.Base.{ℕ, Bool, nat_eq, if◌then◌else◌, ltb}
use sonic_nas_acl.Env.{IdGenerator}
use sonic_nas_acl.Map.{at}
use sonic_nas_acl.Result.{Result, ok, err, ◌>>=◌, fail, noexcept_body}
use sonic_nas_acl.Switch.{Switch, table_id_max, entry_id_max, set_container}

module _ {G O : Type 0} ⦃gen : IdGenerator G⦄ where
  unfoldable pub alloc_table_id : Switch G O → Result (ℕ × Switch G O)
  alloc_table_id sw = do (i, g) ← gen.alloc_id sw.tableid_gen; ok (i, record sw { tableid_gen = g })

  unfoldable pub reserve_table_id : ℕ → Switch G O → Result (Bool × Switch G O)
  reserve_table_id i sw =
      if ltb table_id_max i
      then err fail
      else (let (unused, g) = gen.reserve_id i sw.tableid_gen in
          ok (unused, record sw { tableid_gen = g }))

  unfoldable pub release_table_id : ℕ → Switch G O → Switch G O
  release_table_id i sw = record sw { tableid_gen = gen.release_id i sw.tableid_gen }

  unfoldable pub alloc_entry_id_in_table : ℕ → Switch G O → Result (ℕ × Switch G O)
  alloc_entry_id_in_table t sw = do
    c ← at t sw.table_containers
    (i, g) ← gen.alloc_id c.entry_id_gen
    ok (i, set_container t (record c { entry_id_gen = g }) sw)

  unfoldable pub reserve_entry_id_in_table : ℕ → ℕ → Switch G O → Result (Bool × Switch G O)
  reserve_entry_id_in_table t i sw = if ltb entry_id_max i then err fail else (do
    c ← at t sw.table_containers
    let (unused, g) = gen.reserve_id i c.entry_id_gen
    ok (unused, set_container t (record c { entry_id_gen = g }) sw))

  unfoldable pub release_entry_id_in_table : ℕ → ℕ → Switch G O → Result (Switch G O)
  release_entry_id_in_table t i sw = noexcept_body (do
    c ← at t sw.table_containers
    ok (set_container t (record c { entry_id_gen = gen.release_id i c.entry_id_gen }) sw))

  unfoldable pub alloc_counter_id_in_table : ℕ → Switch G O → Result (ℕ × Switch G O)
  alloc_counter_id_in_table t sw = do
    c ← at t sw.table_containers
    (i, g) ← gen.alloc_id c.counter_id_gen
    ok (i, set_container t (record c { counter_id_gen = g }) sw)

  unfoldable pub reserve_counter_id_in_table : ℕ → ℕ → Switch G O → Result (Bool × Switch G O)
  reserve_counter_id_in_table t i sw = if ltb entry_id_max i then err fail else (do
    c ← at t sw.table_containers
    let (unused, g) = gen.reserve_id i c.counter_id_gen
    ok (unused, set_container t (record c { counter_id_gen = g }) sw))

  unfoldable pub release_counter_id_in_table : ℕ → ℕ → Switch G O → Result (Switch G O)
  release_counter_id_in_table t i sw = noexcept_body (do
    c ← at t sw.table_containers
    ok (set_container t (record c { counter_id_gen = gen.release_id i c.counter_id_gen }) sw))
