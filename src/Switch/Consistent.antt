-- ===== src/Switch/Consistent.antt =====
-- src/nas_acl_switch.cpp: save_entry and remove_entry_from_table, and the references from
-- counters to entries.
use sonic_nas_acl.Base.{
  ℕ, ◌≡◌, ◌≢◌, sym, subst, true, ◌&&◌, inl, inr, none, some, arith, nat_eq, ◌==◌, if◌then◌else◌,
  Option-cases, Bool-cases,
}
use sonic_nas_acl.Env.{IdGenerator}
use sonic_nas_acl.Map.{find, at, find-put, erase, find-erase}
use sonic_nas_acl.Object.{Entry, counter_id, is_counter_enabled}
use sonic_nas_acl.Result.{Result, ok, err, ◌>>=◌, >>=-eq-ok, noexcept_body}
use sonic_nas_acl.Switch.{Switch, Container, find_entry, find_counter}
use sonic_nas_acl.Switch.Entries.{
  put_entry, add_ref, del_ref, on_counter, save_entry, erase_entry, remove_entry_from_table,
}
use sonic_nas_acl.Switch.Lookup.{Reaches, on_counter-Reaches}
use sonic_nas_acl.Switch.Refs.{
  IsConsistent, stored_new, stored_moved, stored_same, refs-del, entries-same,
}

pub noexcept_ok : {A : Type 0} (r : Result A) {a : A} → noexcept_body r ≡ ok a → r ≡ ok a
noexcept_ok (ok x) h = h
noexcept_ok (err e) h = cc

module _ {G O : Type 0} (e : Entry O) (sw sw' : Switch G O) where
  -- When save_entry returns for an entry that has no counter with id 0, it keeps the switch
  -- consistent: every counter lists exactly the entries of its table that count with it, every
  -- entry is stored under its own ids, and no stored entry counts with the id 0. This covers a
  -- new entry and one that replaces an entry with another counter, the same one or none.
  pub save_entry-IsConsistent :
      IsConsistent sw
      → (is_counter_enabled e ≡ true → counter_id e ≢ 0)
      → save_entry e sw ≡ ok sw'
      → IsConsistent sw'
  unfolding save_entry find_entry
  save_entry-IsConsistent v nonzero saved =
      elim (Option-cases (find e.table_id sw.table_containers)) [
        | inl missing ↦ absurd (ground arith)
        | inr (c, found) ↦ elim (Option-cases (find e.entry_id c.acl_entries)) [
          | inl fresh ↦ stored_new e sw sw' c v nonzero found fresh (
              on_counter-Reaches add_ref e (put_entry e.table_id e.entry_id e sw) sw'
                (noexcept_ok _ (ground arith)))
          | inr (old, was) ↦ elim (Bool-cases (counter_id old == counter_id e)) [
            | inl equal ↦
                subst IsConsistent (ground arith)
                  (stored_same e old sw c v nonzero found (ground arith) (ground arith))
            | inr other ↦
                let (end, both, done) =
                  >>=-eq-ok (on_counter del_ref old sw >>= on_counter add_ref e)
                    (λ s. ok (put_entry e.table_id e.entry_id e s)) {b = sw'} (ground arith) in
                let (mid, dropped, added) =
                  >>=-eq-ok (on_counter del_ref old sw) (on_counter add_ref e) both in
                subst IsConsistent (ground arith) (
                  stored_moved e old sw mid end c v nonzero found (ground arith)
                    (on_counter-Reaches del_ref old sw mid dropped)
                    (on_counter-Reaches add_ref e mid end added))
          ]
        ]
      ]

module _ {G O : Type 0} ⦃gen : IdGenerator G⦄ (t i : ℕ) (sw sw' : Switch G O) where
  -- What remove_entry_from_table does when it returns.
  abbrev pub Removes : Type 0
  Removes =
      (e : Entry O) × (mid : Switch G O) × (c : Container G O) × (find_entry t i sw ≡ some e)
      × Reaches del_ref e sw mid
      × (find t mid.table_containers ≡ some c)
      × (sw' ≡ erase_entry t i c mid)

  pub remove_entry_cases : remove_entry_from_table t i sw ≡ ok sw' → Removes
  unfolding remove_entry_from_table find_entry
  remove_entry_cases removed = elim (Option-cases (find t sw.table_containers)) [
    | inl missing ↦ absurd (ground arith)
    | inr (c, found) ↦ elim (Option-cases (find i c.acl_entries)) [
      | inl missing ↦ absurd (ground arith)
      | inr (e, was) ↦
          let (mid, dropped, rest) =
            >>=-eq-ok (on_counter del_ref e sw)
              (λ s. at t s.table_containers >>= (λ c'. ok (erase_entry t i c' s))) {b = sw'}
              (ground arith) in
          let (c', there, done) =
            >>=-eq-ok (at t mid.table_containers) (λ k. ok (erase_entry t i k mid)) {b = sw'}
              rest in
          (
            e,
            mid,
            c',
            ground arith,
            on_counter-Reaches del_ref e sw mid dropped,
            ground arith,
            ground arith,
          )
    ]
  ]

module _ {G O : Type 0} ⦃gen : IdGenerator G⦄ (t i : ℕ) (c : Container G O) (sw : Switch G O)
    (found : find t sw.table_containers ≡ some c) (t' j : ℕ) where
  pub find_entry-erase_entry :
      find_entry t' j (erase_entry t i c sw)
      ≡ (if t == t' && i == j then none else find_entry t' j sw)
  unfolding find_entry erase_entry
  find_entry-erase_entry = ground (
    arith,
    find-put t t'
        (record c {
          acl_entries = erase i c.acl_entries;
          entry_id_gen = gen.release_id i c.entry_id_gen;
        })
        sw.table_containers,
    find-erase i j c.acl_entries,
  )

  pub find_counter-erase_entry : find_counter t' j (erase_entry t i c sw) ≡ find_counter t' j sw
  unfolding find_counter erase_entry
  find_counter-erase_entry = ground (
    arith,
    find-put t t'
        (record c {
          acl_entries = erase i c.acl_entries;
          entry_id_gen = gen.release_id i c.entry_id_gen;
        })
        sw.table_containers,
  )

module _ {G O : Type 0} ⦃gen : IdGenerator G⦄ (t i : ℕ) (sw sw' : Switch G O) where
  removed_IsConsistent : IsConsistent sw → Removes t i sw sw' → IsConsistent sw'
  removed_IsConsistent v (e, mid, c, was, reach, found, done) =
      let same = entries-same e sw mid del_ref reach in
      let erased = find_entry-erase_entry t i c mid found in
      subst IsConsistent (sym done) (record {
        exact = λ t' cid j. ground (
          arith,
          refs-del e sw mid reach t' cid j,
          same t' j,
          erased t' j,
          v.exact t' cid j,
          v.keyed t i e was,
          find_counter-erase_entry t i c mid found t' cid,
        );
        keyed = λ t' j x at_j. ground (arith, same t' j, erased t' j, v.keyed t' j x);
        counted = λ t' j x at_j on. ground (arith, same t' j, erased t' j, v.counted t' j x);
      })

  -- When remove_entry_from_table returns it keeps the switch consistent: every counter lists
  -- exactly the entries of its table that count with it, every entry is stored under its own ids,
  -- and no stored entry counts with the id 0.
  pub remove_entry-IsConsistent :
      IsConsistent sw → remove_entry_from_table t i sw ≡ ok sw' → IsConsistent sw'
  remove_entry-IsConsistent v removed =
      removed_IsConsistent v (remove_entry_cases t i sw sw' removed)
