-- ===== src/Switch/Refs.antt =====
-- src/nas_acl_switch.cpp: the references from counters to entries, and what it means that they
-- are exact.
use sonic_nas_acl.Base.{
  ℕ, ◌≡◌, ◌≢◌, refl, ◌∙◌, Bool, true, false, ◌&&◌, ◌||◌, not, inl, inr, none, some, Option, arith,
  nat_eq, ◌==◌, if◌then◌else◌,
}
use sonic_nas_acl.IdSet.{contains, contains-add, contains-remove}
use sonic_nas_acl.Map.{find}
use sonic_nas_acl.Object.{Counter, Entry, counter_id, is_counter_enabled}
use sonic_nas_acl.Switch.{Switch, Container, find_entry, find_counter}
use sonic_nas_acl.Switch.Entries.{put_entry, add_ref, del_ref}
use sonic_nas_acl.Switch.Lookup.{
  refs_at, uses, is_some, Reaches, find_entry-put_entry, find_counter-put_counter,
  find_counter-put_entry, find_entry-put_counter, container-put_counter,
}

module _ {O : Type 0} where
  -- Whether entry `i` of table `t` is the entry `e`, counting with the counter `cid`.
  abbrev pub names : Entry O → ℕ → ℕ → ℕ → Bool
  names e t cid i =
      is_counter_enabled e && (e.table_id == t && (counter_id e == cid && e.entry_id == i))

module _ {G O : Type 0} (e : Entry O) (sw sw' : Switch G O) where
  pub refs-add :
      Reaches add_ref e sw sw'
      → (t cid i : ℕ)
      → contains i (refs_at t cid sw') ≡ (contains i (refs_at t cid sw) || names e t cid i)
  unfolding add_ref find_counter
  refs-add (inl (off, same)) t cid i = rw same (ground arith)
  refs-add (inr (c, k, on, found, there, change)) t cid i = rw change (
      ground (
        arith,
        find_counter-put_counter sw c e.table_id (counter_id e) found t cid (add_ref e.entry_id k),
        contains-add e.entry_id i k.refs,
      ))

  pub refs-del :
      Reaches del_ref e sw sw'
      → (t cid i : ℕ)
      → contains i (refs_at t cid sw') ≡ (contains i (refs_at t cid sw) && not (names e t cid i))
  unfolding del_ref find_counter
  refs-del (inl (off, same)) t cid i = rw same (ground arith)
  refs-del (inr (c, k, on, found, there, change)) t cid i = rw change (
      ground (
        arith,
        find_counter-put_counter sw c e.table_id (counter_id e) found t cid (del_ref e.entry_id k),
        contains-remove e.entry_id i k.refs,
      ))

  -- The entries stay as they are.
  pub entries-same :
      (f : ℕ → Counter O → Counter O)
      → Reaches f e sw sw'
      → (t i : ℕ) → find_entry t i sw' ≡ find_entry t i sw
  entries-same f (inl (off, same)) t i = rw same refl
  entries-same f (inr (c, k, on, found, there, change)) t i =
      rw change (find_entry-put_counter sw e.table_id (counter_id e) (f e.entry_id k) t i)

  pub containers-same :
      (f : ℕ → Counter O → Counter O)
      → Reaches f e sw sw'
      → (t : ℕ) → is_some (find t sw'.table_containers) ≡ is_some (find t sw.table_containers)
  containers-same f (inl (off, same)) t = rw same refl
  containers-same f (inr (c, k, on, found, there, change)) t =
      rw change (container-put_counter sw e.table_id (counter_id e) (f e.entry_id k) t)

pub some_of : {A : Type 0} (o : Option A) → is_some o ≡ true → (a : A) × (o ≡ some a)
some_of none h = cc
some_of (some a) h = (a, refl)

module _ {O : Type 0} where
  pub disabled_counter : (e : Entry O) → is_counter_enabled e ≡ false → counter_id e ≡ 0
  unfolding is_counter_enabled counter_id
  disabled_counter e off = ground arith

module _ {G O : Type 0} where
  pub record IsConsistent (sw : Switch G O) : Type 0 where
    pub exact : (t cid i : ℕ) → contains i (refs_at t cid sw) ≡ uses (find_entry t i sw) cid
    pub keyed :
        (t i : ℕ) (e : Entry O) → find_entry t i sw ≡ some e → (e.table_id ≡ t) × (e.entry_id ≡ i)
    pub counted :
        (t i : ℕ) (e : Entry O)
        → find_entry t i sw ≡ some e
        → is_counter_enabled e ≡ true
        → counter_id e ≢ 0

  -- An entry of a table that exists is stored, when the counters list it and the entries have not
  -- changed yet.
  stored :
      (e : Entry O) (sw mid : Switch G O) (c : Container G O)
      → IsConsistent sw
      → (is_counter_enabled e ≡ true → counter_id e ≢ 0)
      → find e.table_id mid.table_containers ≡ some c
      → ((t i : ℕ) → find_entry t i mid ≡ find_entry t i sw)
      → ((t cid i : ℕ)
          → contains i (refs_at t cid mid) ≡ (
              if e.table_id == t && e.entry_id == i
              then uses (some e) cid
              else uses (find_entry t i sw) cid))
      → IsConsistent (put_entry e.table_id e.entry_id e mid)
  stored e sw mid c v nonzero found same listed = record {
    exact = λ t cid i. ground (
      arith,
      listed t cid i,
      same t i,
      find_counter-put_entry mid e.table_id e.entry_id e t cid,
      find_entry-put_entry mid c e.table_id e.entry_id found t i e,
    );
    keyed = λ t i x at_i. ground (
      arith,
      same t i,
      find_entry-put_entry mid c e.table_id e.entry_id found t i e,
      v.keyed t i x,
    );
    counted = λ t i x at_i on. ground (
      arith,
      same t i,
      find_entry-put_entry mid c e.table_id e.entry_id found t i e,
      v.counted t i x,
      nonzero,
    );
  }

  pub stored_new :
      (e : Entry O) (sw sw' : Switch G O) (c : Container G O)
      → IsConsistent sw
      → (is_counter_enabled e ≡ true → counter_id e ≢ 0)
      → find e.table_id sw.table_containers ≡ some c
      → find e.entry_id c.acl_entries ≡ none
      → Reaches add_ref e (put_entry e.table_id e.entry_id e sw) sw'
      → IsConsistent sw'
  unfolding find_entry
  stored_new e sw sw' c v nonzero found fresh reach =
      let mid = put_entry e.table_id e.entry_id e sw in
      record {
        exact = λ t cid i. ground (
          arith,
          refs-add e mid sw' reach t cid i,
          entries-same e mid sw' add_ref reach t i,
          v.exact t cid i,
          find_counter-put_entry sw e.table_id e.entry_id e t cid,
          find_entry-put_entry sw c e.table_id e.entry_id found t i e,
        );
        keyed = λ t i x at_i. ground (
          arith,
          entries-same e mid sw' add_ref reach t i,
          find_entry-put_entry sw c e.table_id e.entry_id found t i e,
          v.keyed t i x,
        );
        counted = λ t i x at_i on. ground (
          arith,
          entries-same e mid sw' add_ref reach t i,
          find_entry-put_entry sw c e.table_id e.entry_id found t i e,
          v.counted t i x,
          nonzero,
        );
      }

  pub stored_moved :
      (e old : Entry O) (sw mid sw' : Switch G O) (c : Container G O)
      → IsConsistent sw
      → (is_counter_enabled e ≡ true → counter_id e ≢ 0)
      → find e.table_id sw.table_containers ≡ some c
      → find_entry e.table_id e.entry_id sw ≡ some old
      → Reaches del_ref old sw mid
      → Reaches add_ref e mid sw'
      → IsConsistent (put_entry e.table_id e.entry_id e sw')
  stored_moved e old sw mid sw' c v nonzero found was drop reach =
      let (c', there) = some_of (find e.table_id sw'.table_containers) (
        ground (
          arith,
          containers-same old sw mid del_ref drop e.table_id,
          containers-same e mid sw' add_ref reach e.table_id,
        )) in
      stored e sw sw' c' v nonzero there
        (λ t i. entries-same e mid sw' add_ref reach t i ∙ entries-same old sw mid del_ref drop t i)
        (λ t cid i. ground (
          arith,
          refs-add e mid sw' reach t cid i,
          refs-del old sw mid drop t cid i,
          v.exact t cid i,
          v.keyed e.table_id e.entry_id old was,
        ))

  pub stored_same :
      (e old : Entry O) (sw : Switch G O) (c : Container G O)
      → IsConsistent sw
      → (is_counter_enabled e ≡ true → counter_id e ≢ 0)
      → find e.table_id sw.table_containers ≡ some c
      → find_entry e.table_id e.entry_id sw ≡ some old
      → counter_id old ≡ counter_id e
      → IsConsistent (put_entry e.table_id e.entry_id e sw)
  stored_same e old sw c v nonzero found was equal =
      stored e sw sw c v nonzero found (λ t i. refl)
        (λ t cid i. ground (
          arith,
          v.exact t cid i,
          v.counted e.table_id e.entry_id old was,
          disabled_counter e,
          disabled_counter old,
        ))
