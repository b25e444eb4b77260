-- ===== src/Switch/Entries.antt =====
-- Storing and removing entries and counters, with the references from counters back to entries.
use sonic_nas_acl.Base.{ℕ, none, some, Option, nat_eq, ◌==◌, if◌then◌else◌}
use sonic_nas_acl.Env.{IdGenerator}
use sonic_nas_acl.IdSet.{add, remove}
use sonic_nas_acl.Map.{find, at, put, erase}
use sonic_nas_acl.Object.{Counter, Entry, counter_id, is_counter_enabled}
use sonic_nas_acl.Result.{Result, ok, ◌>>=◌, noexcept_body}
use sonic_nas_acl.Switch.{Switch, Container, set_container, get_counter}

module _ {O : Type 0} where
  -- nas_acl_counter_t::add_ref and del_ref
  unfoldable pub add_ref : ℕ → Counter O → Counter O
  add_ref eid k = record k { refs = add eid k.refs }

  unfoldable pub del_ref : ℕ → Counter O → Counter O
  del_ref eid k = record k { refs = remove eid k.refs }

module _ {G O : Type 0} where
  -- nas_acl_entry::get_counter: NULL, or the counter, which must exist.
  unfoldable pub entry_counter : Entry O → Switch G O → Result (Option (Counter O))
  unfolding get_counter
  entry_counter e sw =
      if is_counter_enabled e
      then (do k ← get_counter e.table_id (counter_id e) sw; ok (some k))
      else ok none

  -- A write through a pointer to a stored counter.
  unfoldable pub put_counter : ℕ → ℕ → Counter O → Switch G O → Switch G O
  put_counter t i k sw = elim (find t sw.table_containers) [
    | none ↦ sw
    | some c ↦ set_container t (record c { acl_counters = put i k c.acl_counters }) sw
  ]

  unfoldable pub put_entry : ℕ → ℕ → Entry O → Switch G O → Switch G O
  put_entry t i e sw = elim (find t sw.table_containers) [
    | none ↦ sw
    | some c ↦ set_container t (record c { acl_entries = put i e c.acl_entries }) sw
  ]

  -- `if (p != nullptr) p->f (eid);` for the counter `p` of an entry.
  unfoldable pub on_counter :
      (ℕ → Counter O → Counter O) → Entry O → Switch G O → Result (Switch G O)
  unfolding put_counter
  on_counter f e sw = do
    found ← entry_counter e sw
    elim found [
      | none ↦ ok sw
      | some k ↦ ok (put_counter e.table_id (counter_id e) (f e.entry_id k) sw)
    ]

  save_new : Entry O → Switch G O → Result (Switch G O)
  unfolding put_entry on_counter add_ref
  save_new e sw = on_counter add_ref e (put_entry e.table_id e.entry_id e sw)

  save_over : Entry O → Entry O → Switch G O → Result (Switch G O)
  unfolding put_entry on_counter add_ref del_ref
  save_over e_orig e sw = do
    sw' ←
        (if counter_id e_orig == counter_id e
          then ok sw
          else (on_counter del_ref e_orig sw >>= on_counter add_ref e))
    ok (put_entry e.table_id e.entry_id e sw')

  unfoldable pub save_entry : Entry O → Switch G O → Result (Switch G O)
  unfolding save_new save_over
  save_entry e sw = noexcept_body (do
    c ← at e.table_id sw.table_containers
    elim (find e.entry_id c.acl_entries) [
      | none ↦ save_new e sw
      | some e_orig ↦ save_over e_orig e sw
    ])

  unfoldable pub erase_entry :
      ⦃gen : IdGenerator G⦄ → ℕ → ℕ → Container G O → Switch G O → Switch G O
  erase_entry ⦃gen⦄ t i c sw =
      set_container t
        (record c {
          acl_entries = erase i c.acl_entries;
          entry_id_gen = gen.release_id i c.entry_id_gen;
        })
        sw

  unfoldable pub remove_entry_from_table :
      ⦃gen : IdGenerator G⦄ → ℕ → ℕ → Switch G O → Result (Switch G O)
  unfolding on_counter del_ref erase_entry
  remove_entry_from_table t i sw = noexcept_body (do
    c ← at t sw.table_containers
    e ← at i c.acl_entries
    sw' ← on_counter del_ref e sw
    c' ← at t sw'.table_containers
    ok (erase_entry t i c' sw'))

  unfoldable pub save_counter : Counter O → Switch G O → Result (Switch G O)
  save_counter k sw = noexcept_body (do
    c ← at k.table_id sw.table_containers
    ok (
        set_container k.table_id (record c { acl_counters = put k.counter_id k c.acl_counters })
          sw))

  unfoldable pub remove_counter_from_table :
      ⦃gen : IdGenerator G⦄ → ℕ → ℕ → Switch G O → Result (Switch G O)
  remove_counter_from_table ⦃gen⦄ t i sw = noexcept_body (do
    c ← at t sw.table_containers
    ok (
        set_container t
          (record c {
            acl_counters = erase i c.acl_counters;
            counter_id_gen = gen.release_id i c.counter_id_gen;
          })
          sw))
