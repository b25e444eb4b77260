-- ===== src/Switch/Stored.antt =====
-- src/nas_acl_switch.cpp: the entries after save_entry and remove_entry_from_table.
use sonic_nas_acl.Base.{
  ℕ, ◌≡◌, ◌∙◌, true, ◌&&◌, inl, inr, none, some, arith, nat_eq, ◌==◌, if◌then◌else◌, Option-cases,
  Bool-cases,
}
use sonic_nas_acl.Env.{IdGenerator}
use sonic_nas_acl.Map.{find}
use sonic_nas_acl.Object.{Entry, counter_id}
use sonic_nas_acl.Result.{ok, ◌>>=◌, >>=-eq-ok}
use sonic_nas_acl.Switch.{Switch, find_entry}
use sonic_nas_acl.Switch.Entries.{
  put_entry, add_ref, del_ref, on_counter, save_entry, erase_entry, remove_entry_from_table,
}
use sonic_nas_acl.Switch.Lookup.{is_some, on_counter-Reaches, find_entry-put_entry}
use sonic_nas_acl.Switch.Refs.{IsConsistent, some_of, entries-same, containers-same}
use sonic_nas_acl.Switch.Consistent.{noexcept_ok, remove_entry_cases, find_entry-erase_entry}
use sonic_nas_acl.Switch.Total.{on_counter_returns, stored_counter}

module _ {G O : Type 0} (e : Entry O) (sw sw' : Switch G O) (t i : ℕ) where
  -- When save_entry returns, find_entry gives the saved entry at its table and entry id, and at
  -- every other place what it gave before.
  pub save_entry-find_entry :
      save_entry e sw ≡ ok sw'
      → find_entry t i sw'
        ≡ (if e.table_id == t && e.entry_id == i then some e else find_entry t i sw)
  unfolding save_entry find_entry
  save_entry-find_entry saved = elim (Option-cases (find e.table_id sw.table_containers)) [
    | inl missing ↦ absurd (ground arith)
    | inr (c, found) ↦ elim (Option-cases (find e.entry_id c.acl_entries)) [
      | inl fresh ↦
          entries-same e (put_entry e.table_id e.entry_id e sw) sw' add_ref
            (on_counter-Reaches add_ref e (put_entry e.table_id e.entry_id e sw) sw'
              (noexcept_ok _ (ground arith)))
            t i
          ∙ find_entry-put_entry sw c e.table_id e.entry_id found t i e
      | inr (old, was) ↦ elim (Bool-cases (counter_id old == counter_id e)) [
        | inl equal ↦ ground (arith, find_entry-put_entry sw c e.table_id e.entry_id found t i e)
        | inr other ↦
            let (end, both, done) =
              >>=-eq-ok (on_counter del_ref old sw >>= on_counter add_ref e)
                (λ s. ok (put_entry e.table_id e.entry_id e s)) {b = sw'} (ground arith) in
            let (mid, dropped, added) =
              >>=-eq-ok (on_counter del_ref old sw) (on_counter add_ref e) both in
            let drop = on_counter-Reaches del_ref old sw mid dropped in
            let reach = on_counter-Reaches add_ref e mid end added in
            let (c', there) = some_of (find e.table_id end.table_containers) (
              ground (
                arith,
                containers-same old sw mid del_ref drop e.table_id,
                containers-same e mid end add_ref reach e.table_id,
              )) in
            ground (
              arith,
              find_entry-put_entry end c' e.table_id e.entry_id there t i e,
              entries-same e mid end add_ref reach t i,
              entries-same old sw mid del_ref drop t i,
            )
      ]
    ]
  ]

module _ {G O : Type 0} ⦃gen : IdGenerator G⦄ (t i : ℕ) (sw : Switch G O) where
  -- When remove_entry_from_table returns, find_entry gives nothing at the place of the removed
  -- entry, and at every other place what it gave before.
  pub remove_entry-find_entry :
      (sw' : Switch G O) (t' j : ℕ)
      → remove_entry_from_table t i sw ≡ ok sw'
      → find_entry t' j sw' ≡ (if t == t' && i == j then none else find_entry t' j sw)
  remove_entry-find_entry sw' t' j removed =
      let (e, mid, c, was, reach, found, done) = remove_entry_cases t i sw sw' removed in
      ground (
        arith,
        find_entry-erase_entry t i c mid found t' j,
        entries-same e sw mid del_ref reach t' j,
      )

  -- In a consistent switch, remove_entry_from_table of an entry that is stored returns: no
  -- exception leaves the noexcept function.
  pub remove_entry_returns :
      IsConsistent sw
      → is_some (find_entry t i sw) ≡ true
      → (sw' : Switch G O) × (remove_entry_from_table t i sw ≡ ok sw')
  unfolding remove_entry_from_table find_entry
  remove_entry_returns v present = elim (Option-cases (find t sw.table_containers)) [
    | inl missing ↦ absurd (ground arith)
    | inr (c, found) ↦ elim (Option-cases (find i c.acl_entries)) [
      | inl missing ↦ absurd (ground arith)
      | inr (e, was) ↦
          let (mid, dropped) =
            on_counter_returns del_ref e sw (stored_counter sw v t i e (ground arith)) in
          let (c', there) = some_of (find t mid.table_containers) (
            ground (
              arith,
              containers-same e sw mid del_ref (on_counter-Reaches del_ref e sw mid dropped) t,
            )) in
          (erase_entry t i c' mid, ground arith)
    ]
  ]
