-- ===== src/Switch/Counters.antt =====
-- Storing and removing counters, tables and ids.
use sonic_nas_acl.Base.{
  ℕ, ◌≡◌, ◌&&◌, inl, inr, none, some, [], arith, nat_eq, ◌==◌, if◌then◌else◌, Option-cases,
}
use sonic_nas_acl.Env.{IdGenerator}
use sonic_nas_acl.IdSet.{contains}
use sonic_nas_acl.Map.{find, put, erase, find-put, find-erase}
use sonic_nas_acl.Object.{Counter}
use sonic_nas_acl.Result.{ok}
use sonic_nas_acl.Switch.{Switch, Container, find_entry, find_counter}
use sonic_nas_acl.Switch.Entries.{save_counter, put_counter, remove_counter_from_table}
use sonic_nas_acl.Switch.Lookup.{refs_at, find_counter-put_counter, find_entry-put_counter}
use sonic_nas_acl.Switch.Refs.{IsConsistent}

module _ {G O : Type 0} (k : Counter O) (sw sw' : Switch G O) (saved : save_counter k sw ≡ ok sw')
    (t j : ℕ) where
  pub save_counter-find_counter :
      find_counter t j sw'
      ≡ (if k.table_id == t && k.counter_id == j then some k else find_counter t j sw)
  unfolding find_counter save_counter
  save_counter-find_counter = elim (Option-cases (find k.table_id sw.table_containers)) [
    | inl missing ↦ absurd (ground arith)
    | inr (c, found) ↦ ground (
      arith,
      find-put k.table_id t (record c { acl_counters = put k.counter_id k c.acl_counters })
          sw.table_containers,
      find-put k.counter_id j k c.acl_counters,
    )
  ]

  pub save_counter-find_entry : find_entry t j sw' ≡ find_entry t j sw
  unfolding find_entry save_counter
  save_counter-find_entry = elim (Option-cases (find k.table_id sw.table_containers)) [
    | inl missing ↦ absurd (ground arith)
    | inr (c, found) ↦ ground (
      arith,
      find-put k.table_id t (record c { acl_counters = put k.counter_id k c.acl_counters })
          sw.table_containers,
    )
  ]

module _ {G O : Type 0} (sw : Switch G O) (c : Container G O) (t i : ℕ) (k : Counter O)
    (there : find t sw.table_containers ≡ some c) where
  -- A counter that lists the same entries as the one in its place can replace it.
  pub put_counter-IsConsistent :
      IsConsistent sw
      → ((j : ℕ) → contains j k.refs ≡ contains j (refs_at t i sw))
      → IsConsistent (put_counter t i k sw)
  put_counter-IsConsistent v same = record {
    exact = λ t' cid j. ground (
      arith,
      same j,
      v.exact t' cid j,
      find_counter-put_counter sw c t i there t' cid k,
      find_entry-put_counter sw t i k t' j,
    );
    keyed = λ t' j e at_j. ground (arith, find_entry-put_counter sw t i k t' j, v.keyed t' j e);
    counted =
        λ t' j e at_j on. ground (arith, find_entry-put_counter sw t i k t' j, v.counted t' j e);
  }

module _ {G O : Type 0} (k : Counter O) (sw sw' : Switch G O) where
  -- When save_counter returns for a counter that lists the same entries as the counter stored at
  -- its place (none if there is none), it keeps the switch consistent.
  pub save_counter-IsConsistent :
      IsConsistent sw
      → ((i : ℕ) → contains i k.refs ≡ contains i (refs_at k.table_id k.counter_id sw))
      → save_counter k sw ≡ ok sw'
      → IsConsistent sw'
  save_counter-IsConsistent v same saved = record {
    exact = λ t cid i. ground (
      arith,
      same i,
      v.exact t cid i,
      save_counter-find_counter k sw sw' saved t cid,
      save_counter-find_entry k sw sw' saved t i,
    );
    keyed = λ t i e at_i. ground (arith, save_counter-find_entry k sw sw' saved t i, v.keyed t i e);
    counted = λ t i e at_i on.
        ground (arith, save_counter-find_entry k sw sw' saved t i, v.counted t i e);
  }

module _ {G O : Type 0} ⦃gen : IdGenerator G⦄ (t i : ℕ) (sw sw' : Switch G O)
    (removed : remove_counter_from_table t i sw ≡ ok sw') (t' j : ℕ) where
  pub remove_counter-find_counter :
      find_counter t' j sw' ≡ (if t == t' && i == j then none else find_counter t' j sw)
  unfolding find_counter remove_counter_from_table
  remove_counter-find_counter = elim (Option-cases (find t sw.table_containers)) [
    | inl missing ↦ absurd (ground arith)
    | inr (c, found) ↦ ground (
      arith,
      find-put t t'
          (record c {
            acl_counters = erase i c.acl_counters;
            counter_id_gen = gen.release_id i c.counter_id_gen;
          })
          sw.table_containers,
      find-erase i j c.acl_counters,
    )
  ]

  remove_counter-find_entry : find_entry t' j sw' ≡ find_entry t' j sw
  unfolding find_entry remove_counter_from_table
  remove_counter-find_entry = elim (Option-cases (find t sw.table_containers)) [
    | inl missing ↦ absurd (ground arith)
    | inr (c, found) ↦ ground (
      arith,
      find-put t t'
          (record c {
            acl_counters = erase i c.acl_counters;
            counter_id_gen = gen.release_id i c.counter_id_gen;
          })
          sw.table_containers,
    )
  ]

module _ {G O : Type 0} ⦃gen : IdGenerator G⦄ (t i : ℕ) (sw sw' : Switch G O) where
  pub remove_counter-IsConsistent :
      IsConsistent sw
      → refs_at t i sw ≡ []
      → remove_counter_from_table t i sw ≡ ok sw'
      → IsConsistent sw'
  unfolding contains
  remove_counter-IsConsistent v unused removed = record {
    exact = λ t' cid j. ground (
      arith,
      unused,
      v.exact t' cid j,
      remove_counter-find_counter t i sw sw' removed t' cid,
      remove_counter-find_entry t i sw sw' removed t' j,
    );
    keyed = λ t' j e at_j.
        ground (arith, remove_counter-find_entry t i sw sw' removed t' j, v.keyed t' j e);
    counted = λ t' j e at_j on.
        ground (arith, remove_counter-find_entry t i sw sw' removed t' j, v.counted t' j e);
  }
