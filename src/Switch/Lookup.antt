-- ===== src/Switch/Lookup.antt =====
-- What the lookups give after each change of the switch.
use sonic_nas_acl.Base.{
  ℕ, ◌≡◌, Bool, true, false, ◌&&◌, ◌⊎◌, inl, inr, none, some, Option, List, [], arith, nat_eq, ◌==◌,
  if◌then◌else◌, Option-cases, Bool-cases,
}
use sonic_nas_acl.Map.{find, put, find-put}
use sonic_nas_acl.Object.{Counter, Entry, counter_id, is_counter_enabled}
use sonic_nas_acl.Result.{ok}
use sonic_nas_acl.Switch.{Switch, Container, find_entry, find_counter, get_counter}
use sonic_nas_acl.Switch.Entries.{put_counter, put_entry, entry_counter, on_counter}

abbrev pub is_some : {A : Type 0} → Option A → Bool
is_some none = false
is_some (some _) = true

module _ {O : Type 0} where
  -- The entries that a counter lists.
  abbrev pub refs_of : Option (Counter O) → List ℕ
  refs_of none = []
  refs_of (some k) = k.refs

  -- Whether an entry counts with a counter.
  abbrev pub uses : Option (Entry O) → ℕ → Bool
  uses none cid = false
  uses (some e) cid = is_counter_enabled e && counter_id e == cid

abbrev pub refs_at : {G O : Type 0} → ℕ → ℕ → Switch G O → List ℕ
refs_at t cid sw = refs_of (find_counter t cid sw)

module _ {G O : Type 0} (sw : Switch G O) (c : Container G O) (t i : ℕ)
    (there : find t sw.table_containers ≡ some c) (t' j : ℕ) where
  pub find_entry-put_entry :
      (e : Entry O)
      → find_entry t' j (put_entry t i e sw)
        ≡ (if t == t' && i == j then some e else find_entry t' j sw)
  unfolding find_entry put_entry
  find_entry-put_entry e = ground (
    arith,
    find-put t t' (record c { acl_entries = put i e c.acl_entries }) sw.table_containers,
    find-put i j e c.acl_entries,
  )

  pub find_counter-put_counter :
      (k : Counter O)
      → find_counter t' j (put_counter t i k sw)
        ≡ (if t == t' && i == j then some k else find_counter t' j sw)
  unfolding find_counter put_counter
  find_counter-put_counter k = ground (
    arith,
    find-put t t' (record c { acl_counters = put i k c.acl_counters }) sw.table_containers,
    find-put i j k c.acl_counters,
  )

module _ {G O : Type 0} (sw : Switch G O) (t i : ℕ) where
  pub find_counter-put_entry :
      (e : Entry O) (t' j : ℕ) → find_counter t' j (put_entry t i e sw) ≡ find_counter t' j sw
  unfolding find_counter put_entry
  find_counter-put_entry e t' j = elim (Option-cases (find t sw.table_containers)) [
    | inl missing ↦ rw (missing, put_entry)
    | inr (c, found) ↦ ground (
      arith,
      find-put t t' (record c { acl_entries = put i e c.acl_entries }) sw.table_containers,
    )
  ]

  pub find_entry-put_counter :
      (k : Counter O) (t' j : ℕ) → find_entry t' j (put_counter t i k sw) ≡ find_entry t' j sw
  unfolding find_entry put_counter
  find_entry-put_counter k t' j = elim (Option-cases (find t sw.table_containers)) [
    | inl missing ↦ rw (missing, put_counter)
    | inr (c, found) ↦ ground (
      arith,
      find-put t t' (record c { acl_counters = put i k c.acl_counters }) sw.table_containers,
    )
  ]

  -- The tables that have a container stay the same.
  pub container-put_entry :
      (e : Entry O) (t' : ℕ)
      → is_some (find t' (put_entry t i e sw).table_containers)
        ≡ is_some (find t' sw.table_containers)
  unfolding put_entry
  container-put_entry e t' = elim (Option-cases (find t sw.table_containers)) [
    | inl missing ↦ rw (missing, put_entry)
    | inr (c, found) ↦ ground (
      arith,
      find-put t t' (record c { acl_entries = put i e c.acl_entries }) sw.table_containers,
    )
  ]

  pub container-put_counter :
      (k : Counter O) (t' : ℕ)
      → is_some (find t' (put_counter t i k sw).table_containers)
        ≡ is_some (find t' sw.table_containers)
  unfolding put_counter
  container-put_counter k t' = elim (Option-cases (find t sw.table_containers)) [
    | inl missing ↦ rw (missing, put_counter)
    | inr (c, found) ↦ ground (
      arith,
      find-put t t' (record c { acl_counters = put i k c.acl_counters }) sw.table_containers,
    )
  ]

-- What a call through the counter of an entry does: nothing, or a change of the counter it names.
abbrev pub Reaches :
    {G O : Type 0} → (ℕ → Counter O → Counter O) → Entry O → Switch G O → Switch G O → Type 0
Reaches {G} {O} f e sw sw' =
    ((is_counter_enabled e ≡ false) × (sw' ≡ sw))
    ⊎ ((c : Container G O) × (k : Counter O) × (is_counter_enabled e ≡ true)
        × (find e.table_id sw.table_containers ≡ some c)
        × (find (counter_id e) c.acl_counters ≡ some k)
        × (sw' ≡ put_counter e.table_id (counter_id e) (f e.entry_id k) sw))

module _ {G O : Type 0} (f : ℕ → Counter O → Counter O) (e : Entry O) (sw sw' : Switch G O) where
  pub on_counter-Reaches : on_counter f e sw ≡ ok sw' → Reaches f e sw sw'
  unfolding on_counter entry_counter get_counter
  on_counter-Reaches done = elim (Bool-cases (is_counter_enabled e)) [
    | inr off ↦ inl (off, ground arith)
    | inl on ↦ elim (Option-cases (find e.table_id sw.table_containers)) [
      | inl missing ↦ absurd (ground arith)
      | inr (c, found) ↦ elim (Option-cases (find (counter_id e) c.acl_counters)) [
        | inl missing ↦ absurd (ground arith)
        | inr (k, there) ↦ inr (c, k, on, found, there, ground arith)
      ]
    ]
  ]
