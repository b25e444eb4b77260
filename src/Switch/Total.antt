-- ===== src/Switch/Total.antt =====
-- src/nas_acl_switch.cpp: the calls in save_entry that can throw.
use sonic_nas_acl.Base.{
  ℕ, ◌≡◌, refl, true, inl, inr, some, arith, nat_eq, ◌==◌, if◌then◌else◌, Option-cases, Bool-cases,
}
use sonic_nas_acl.IdSet.{contains}
use sonic_nas_acl.Map.{find}
use sonic_nas_acl.Object.{Counter, Entry, counter_id, is_counter_enabled}
use sonic_nas_acl.Result.{ok, ◌>>=◌}
use sonic_nas_acl.Switch.{Switch, find_entry, find_counter, get_counter}
use sonic_nas_acl.Switch.Entries.{
  put_counter, put_entry, add_ref, del_ref, entry_counter, on_counter, save_entry,
}
use sonic_nas_acl.Switch.Lookup.{
  is_some, Reaches, on_counter-Reaches, find_counter-put_counter, find_counter-put_entry,
}
use sonic_nas_acl.Switch.Refs.{IsConsistent}

module _ {G O : Type 0} where
  -- The counter of the entry exists, if it has one.
  abbrev pub HasCounter : Entry O → Switch G O → Type 0
  HasCounter e sw =
      (if is_counter_enabled e then is_some (find_counter e.table_id (counter_id e) sw) else true)
      ≡ true

module _ {G O : Type 0} (f : ℕ → Counter O → Counter O) (e : Entry O) (sw : Switch G O) where
  pub on_counter_returns : HasCounter e sw → (sw' : Switch G O) × (on_counter f e sw ≡ ok sw')
  unfolding on_counter entry_counter get_counter find_counter
  on_counter_returns there = elim (Bool-cases (is_counter_enabled e)) [
    | inr off ↦ (sw, ground arith)
    | inl on ↦ elim (Option-cases (find e.table_id sw.table_containers)) [
      | inl missing ↦ absurd (ground (arith, there))
      | inr (c, found) ↦ elim (Option-cases (find (counter_id e) c.acl_counters)) [
        | inl missing ↦ absurd (ground (arith, there))
        | inr (k, found_k) ↦
            (put_counter e.table_id (counter_id e) (f e.entry_id k) sw, ground arith)
      ]
    ]
  ]

  counters-same :
      (sw' : Switch G O)
      → Reaches f e sw sw'
      → (t i : ℕ) → is_some (find_counter t i sw') ≡ is_some (find_counter t i sw)
  unfolding find_counter
  counters-same sw' (inl (off, same)) t i = rw same refl
  counters-same sw' (inr (c, k, on, found, there, change)) t i = rw change (
      ground
        (arith, find_counter-put_counter sw c e.table_id (counter_id e) found t i (f e.entry_id k)))

module _ {G O : Type 0} (sw : Switch G O) where
  -- The counter of a stored entry exists.
  pub stored_counter :
      IsConsistent sw → (t i : ℕ) (e : Entry O) → find_entry t i sw ≡ some e → HasCounter e sw
  unfolding contains
  stored_counter v t i e was = elim (Bool-cases (is_counter_enabled e)) [
    | inr off ↦ ground arith
    | inl on ↦ elim (Option-cases (find_counter e.table_id (counter_id e) sw)) [
      | inl missing ↦ absurd (ground (arith, v.keyed t i e was, v.exact t (counter_id e) i))
      | inr (k, there) ↦ ground arith
    ]
  ]

module _ {G O : Type 0} (e : Entry O) (sw : Switch G O) where
  save_new_returns :
      HasCounter e sw
      → (sw' : Switch G O) × (on_counter add_ref e (put_entry e.table_id e.entry_id e sw) ≡ ok sw')
  save_new_returns there = on_counter_returns add_ref e (put_entry e.table_id e.entry_id e sw) (
      ground
        (arith, there, find_counter-put_entry sw e.table_id e.entry_id e e.table_id (counter_id e)))

  move_returns :
      (old : Entry O)
      → HasCounter old sw
      → HasCounter e sw
      → (sw' : Switch G O) × ((on_counter del_ref old sw >>= on_counter add_ref e) ≡ ok sw')
  move_returns old old_there there =
      let (mid, dropped) = on_counter_returns del_ref old sw old_there in
      let reach = on_counter-Reaches del_ref old sw mid dropped in
      let (end, added) =
        on_counter_returns add_ref e mid (
          ground
            (arith, there, counters-same del_ref old sw mid reach e.table_id (counter_id e))) in
      (end, ground arith)

  -- In a consistent switch, save_entry of an entry whose table has a container and whose counter,
  -- if it has one, exists returns: no exception leaves the noexcept function.
  pub save_entry_returns :
      IsConsistent sw
      → is_some (find e.table_id sw.table_containers) ≡ true
      → HasCounter e sw
      → (sw' : Switch G O) × (save_entry e sw ≡ ok sw')
  unfolding save_entry find_entry
  save_entry_returns v table there = elim (Option-cases (find e.table_id sw.table_containers)) [
    | inl missing ↦ absurd (ground arith)
    | inr (c, found) ↦ elim (Option-cases (find e.entry_id c.acl_entries)) [
      | inl fresh ↦ let (end, done) = save_new_returns there in (end, ground arith)
      | inr (old, was) ↦ elim (Bool-cases (counter_id old == counter_id e)) [
        | inl equal ↦ (put_entry e.table_id e.entry_id e sw, ground arith)
        | inr other ↦
            let (end, done) =
              move_returns old (stored_counter sw v e.table_id e.entry_id old (ground arith))
                there in
            (put_entry e.table_id e.entry_id e end, ground arith)
      ]
    ]
  ]
