-- ===== src/CpsCounter/Deleted.antt =====
-- src/nas_acl_cps_counter.cpp: a delete request for a counter.
use sonic_nas_acl.Base.{
  ℕ, ◌≡◌, subst, ◌⊎◌, inl, inr, Bool, false, ◌&&◌, none, some, arith, nat_eq, ◌==◌, if◌then◌else◌,
  Option-cases,
}
use sonic_nas_acl.CpsApi.{CpsApi}
use sonic_nas_acl.CpsCounter.{nas_acl_counter_delete, delete_counter_of, delete_counter}
use sonic_nas_acl.CpsCounter.Unused.{removable}
use sonic_nas_acl.CpsEnv.{CpsEnv}
use sonic_nas_acl.CpsKey.{nas_acl_cps_key_get_obj_id}
use sonic_nas_acl.Env.{BaseObj, IdGenerator}
use sonic_nas_acl.Map.{find}
use sonic_nas_acl.NasCounter.{commit_delete}
use sonic_nas_acl.NasCounter.Deletion.{delete_counter-IsConsistent}
use sonic_nas_acl.Object.{Counter}
use sonic_nas_acl.Request.{Handled, caught}
use sonic_nas_acl.Result.{Result, ok, err, Error, Result-cases, missing_key}
use sonic_nas_acl.Switch.{Switch, Container, get_counter, find_counter, find_entry}
use sonic_nas_acl.Switch.Counters.{remove_counter-find_counter, put_counter-IsConsistent}
use sonic_nas_acl.Switch.Entries.{put_counter}
use sonic_nas_acl.Switch.Lookup.{uses, find_counter-put_counter, find_entry-put_counter}
use sonic_nas_acl.Switch.Refs.{IsConsistent}

-- The base class does not change which entries a counter lists.
abbrev pub KeepsRefs : {O : Type 0} → (Counter O → Counter O × Result (Unit {0})) → Type 0
KeepsRefs {O} base_commit = (k : Counter O) → (base_commit k).0.refs ≡ k.refs

module _ {Ob G O : Type 0} ⦃api : CpsApi Ob⦄ ⦃gen : IdGenerator G⦄ ⦃b : BaseObj O⦄ (env : CpsEnv)
    (obj prev : Ob) (is_rollbk_op : Bool) (sw : Switch G O)
    (base_commit : Counter O → Counter O × Result (Unit {0})) where
  -- The counter as the commit left it.
  abbrev Replaced : ℕ → ℕ → Switch G O → Type 0
  Replaced t i sw' =
      (k : Counter O) × (find_counter t i sw ≡ some k)
      × ((t' j : ℕ)
          → find_counter t' j sw' ≡ (
              if t == t' && i == j
              then some (commit_delete base_commit k).0
              else find_counter t' j sw))
      × ((t' j : ℕ) → find_entry t' j sw' ≡ find_entry t' j sw)

  -- An error, before the commit or from it; no counter and no entry is lost.
  abbrev Fails : ℕ → ℕ → Handled Ob G O → Type 0
  Fails t i h = (x : Error) × (h.rc ≡ err x) × IsConsistent h.sw × ((h.sw ≡ sw) ⊎ Replaced t i h.sw)

  -- The counter is gone, no other counter is, and no entry was counting with it.
  abbrev Cleared : ℕ → ℕ → Switch G O → Type 0
  Cleared t i sw' =
      IsConsistent sw'
      × ((j : ℕ) → uses (find_entry t j sw) i ≡ false)
      × ((t' j : ℕ)
          → find_counter t' j sw' ≡ (if t == t' && i == j then none else find_counter t' j sw))

  abbrev Gone : ℕ → ℕ → Handled Ob G O → Type 0
  Gone t i h = (h.rc ≡ ok tt) × Cleared t i h.sw

  abbrev Deletes : ℕ → ℕ → Handled Ob G O → Type 0
  Deletes t i h = Fails t i h ⊎ Gone t i h

  -- There is a key missing, or the counter that the keys name is gone or is still there.
  abbrev pub Outcome : Handled Ob G O → Type 0
  Outcome h =
      ((h.rc ≡ err missing_key) × (h.sw ≡ sw))
      ⊎ ((t : ℕ) × (i : ℕ) × (nas_acl_cps_key_get_obj_id obj "BASE_ACL_COUNTER_TABLE_ID" ≡ some t)
          × (nas_acl_cps_key_get_obj_id obj "BASE_ACL_COUNTER_ID" ≡ some i)
          × Deletes t i h)

  found_counter :
      (t i : ℕ) (k : Counter O) → get_counter t i sw ≡ ok k → find_counter t i sw ≡ some k
  unfolding get_counter find_counter
  found_counter t i k p = elim (Option-cases (find t sw.table_containers)) [
    | inl missing ↦ absurd (ground arith)
    | inr (c, found) ↦ ground arith
  ]

  container_of :
      (t i : ℕ) (k : Counter O)
      → find_counter t i sw ≡ some k
      → (c : Container G O) × (find t sw.table_containers ≡ some c)
  unfolding find_counter
  container_of t i k found = elim (Option-cases (find t sw.table_containers)) [
    | inl missing ↦ absurd (ground arith)
    | inr there ↦ there
  ]

  kept_refs :
      (k : Counter O) → KeepsRefs base_commit → (commit_delete base_commit k).0.refs ≡ k.refs
  unfolding commit_delete
  kept_refs k keeps = ground (arith, keeps k)

  failed_commit :
      (t i : ℕ) (k : Counter O)
      → IsConsistent sw
      → KeepsRefs base_commit
      → find_counter t i sw ≡ some k
      → IsConsistent (put_counter t i (commit_delete base_commit k).0 sw)
        × Replaced t i (put_counter t i (commit_delete base_commit k).0 sw)
  failed_commit t i k v keeps found =
      let left = (commit_delete base_commit k).0 in
      let (c, there) = container_of t i k found in
      (
        put_counter-IsConsistent sw c t i left there v (λ j. ground (arith, kept_refs k keeps)),
        (
          k,
          found,
          λ t' j. find_counter-put_counter sw c t i there t' j left,
          λ t' j. find_entry-put_counter sw t i left t' j,
        ),
      )

  removal_cases :
      (t i : ℕ) (k : Counter O)
      → IsConsistent sw
      → find_counter t i sw ≡ some k
      → (commit_delete base_commit k).1 ≡ ok tt
      → Deletes t i (delete_counter env obj prev is_rollbk_op sw base_commit t i k)
  unfolding delete_counter
  removal_cases t i k v found done =
      let (sw', removed) = removable sw t i k found in
      let (v', unused) =
        delete_counter-IsConsistent base_commit t i k sw sw' v found done removed in
      inr (
        ground arith,
        subst (Cleared t i) {x = sw'} (ground arith)
            (v', unused, λ t' j. remove_counter-find_counter t i sw sw' removed t' j),
      )

  commit_cases :
      (t i : ℕ) (k : Counter O)
      → IsConsistent sw
      → KeepsRefs base_commit
      → find_counter t i sw ≡ some k
      → Deletes t i (delete_counter env obj prev is_rollbk_op sw base_commit t i k)
  unfolding delete_counter
  commit_cases t i k v keeps found = elim (Result-cases (commit_delete base_commit k).1) [
    | inl (x, failed) ↦
        let (v', replaced) =
          subst (λ s. IsConsistent s × Replaced t i s)
            {x = put_counter t i (commit_delete base_commit k).0 sw}
            {y = (delete_counter env obj prev is_rollbk_op sw base_commit t i k).sw} (ground arith)
            (failed_commit t i k v keeps found) in
        inl (caught x, ground arith, v', inr replaced)
    | inr (u, done) ↦ removal_cases t i k v found (ground arith)
  ]

  found_cases :
      (t i : ℕ)
      → IsConsistent sw
      → KeepsRefs base_commit
      → Deletes t i (delete_counter_of env obj prev is_rollbk_op sw base_commit t i)
  unfolding delete_counter_of
  found_cases t i v keeps = elim (Result-cases (get_counter t i sw)) [
    | inl (x, failed) ↦
        inl
          (caught x, ground arith, subst IsConsistent {x = sw} (ground arith) v, inl (ground arith))
    | inr (k, got) ↦
        subst (Deletes t i) {x = delete_counter env obj prev is_rollbk_op sw base_commit t i k}
          {y = delete_counter_of env obj prev is_rollbk_op sw base_commit t i} (ground arith)
          (commit_cases t i k v keeps (found_counter t i k got))
  ]

  -- In a consistent switch (every counter lists exactly the entries that count with it), and with
  -- a commit of the base class that keeps the references of a counter, also when it fails:
  -- nas_acl_counter_delete either returns the error for a missing key and leaves the switch as it
  -- is, or the keys name a table id and a counter id, and the switch is consistent afterwards.
  -- Then it either returns an error, and the switch is as it was except that the named counter
  -- may be replaced by what its commit_delete left of it, with every other counter and every
  -- entry found as before; or it succeeds, no entry of the table was counting with the counter,
  -- the counter is no longer found, and every other counter is found as before.
  pub delete_request-Outcome :
      IsConsistent sw
      → KeepsRefs base_commit
      → Outcome (nas_acl_counter_delete env obj prev is_rollbk_op sw base_commit)
  unfolding nas_acl_counter_delete
  delete_request-Outcome v keeps =
      elim (Option-cases (nas_acl_cps_key_get_obj_id obj "BASE_ACL_COUNTER_TABLE_ID")) [
        | inl missing ↦ inl (ground arith, ground arith)
        | inr (t, table) ↦
            elim (Option-cases (nas_acl_cps_key_get_obj_id obj "BASE_ACL_COUNTER_ID")) [
              | inl missing ↦ inl (ground arith, ground arith)
              | inr (i, counter) ↦
                  subst Outcome {x = delete_counter_of env obj prev is_rollbk_op sw base_commit t i}
                    {y = nas_acl_counter_delete env obj prev is_rollbk_op sw base_commit}
                    (ground arith) (inr (t, i, table, counter, found_cases t i v keeps))
            ]
      ]
