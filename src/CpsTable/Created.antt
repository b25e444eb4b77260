-- ===== src/CpsTable/Created.antt =====
-- src/nas_acl_cps_table.cpp: a create request for a table that succeeds.
use sonic_nas_acl.Base.{
  ℕ, ◌≡◌, subst, inl, inr, Bool, false, ◌||◌, Option, none, some, arith, nat_eq, ◌==◌,
  if◌then◌else◌, Option-cases,
}
use sonic_nas_acl.CpsApi.{CpsApi}
use sonic_nas_acl.CpsEnv.{CpsEnv}
use sonic_nas_acl.CpsTable.{table_created, table_taken, cps_key_fill}
use sonic_nas_acl.CpsTable.Failing.{Creates, passed_id, created, create_cases}
use sonic_nas_acl.CpsTable.Taking.{blank_guard, Taken, take_id-Taken}
use sonic_nas_acl.Env.{BaseObj, IdGenerator}
use sonic_nas_acl.IdGuard.{IdGuard}
use sonic_nas_acl.NasTable.{set_table_id, commit_create}
use sonic_nas_acl.NasTable.Deletion.{IsPaired, save_table-Stored}
use sonic_nas_acl.Object.{Table}
use sonic_nas_acl.Request.{Handled, take_id}
use sonic_nas_acl.Result.{Result, ok, ◌>>=◌, Result-cases}
use sonic_nas_acl.Switch.Lookup.{is_some}
use sonic_nas_acl.Switch.{Switch, find_table, find_entry, find_counter, save_table}

-- The base class does not change the id of a table that it commits.
abbrev pub KeepsId : {O : Type 0} → (Table O → Result (Table O)) → Type 0
KeepsId {O} base_commit = (t t' : Table O) → base_commit t ≡ ok t' → t'.table_id ≡ t.table_id

module _ {G O : Type 0} ⦃gen : IdGenerator G⦄ where
  -- The tables that are stored are those that have a container, each under its own id, and the ids
  -- in use are theirs.
  pub record IsSound (sw : Switch G O) : Type 0 where
    pub paired : IsPaired sw
    pub exact : (t : ℕ) → gen.in_use sw.tableid_gen t ≡ is_some (find_table t sw)
    pub keyed : (t : ℕ) (x : Table O) → find_table t sw ≡ some x → x.table_id ≡ t

module _ {O : Type 0} ⦃b : BaseObj O⦄ where
  committed_id :
      (base_commit : Table O → Result (Table O)) (i : ℕ) (tmp t : Table O)
      → KeepsId base_commit
      → (set_table_id i tmp >>= commit_create base_commit) ≡ ok t
      → t.table_id ≡ i
  unfolding set_table_id commit_create
  committed_id base_commit i tmp t keeps p =
      elim (Result-cases (base_commit (record tmp { table_id = i }))) [
        | inl (x, failed) ↦ absurd (ground arith)
        | inr (t', done) ↦ ground (arith, keeps (record tmp { table_id = i }) t' done)
      ]

module _ {Ob G O : Type 0} ⦃api : CpsApi Ob⦄ ⦃gen : IdGenerator G⦄ ⦃b : BaseObj O⦄ (env : CpsEnv)
    (obj prev : Ob) (is_rollbk_op : Bool) (sw : Switch G O)
    (base_commit : Table O → Result (Table O)) where
  -- A table that was not there is stored under its id, and nothing else changes.
  abbrev pub Adds : Switch G O → Type 0
  Adds sw' =
      (t : Table O) × (find_table t.table_id sw ≡ none)
      × ((j : ℕ) → find_table j sw' ≡ (if t.table_id == j then some t else find_table j sw))
      × ((j i : ℕ) → find_entry j i sw' ≡ find_entry j i sw)
      × ((j i : ℕ) → find_counter j i sw' ≡ find_counter j i sw)
      × ((j : ℕ) → gen.in_use sw'.tableid_gen j ≡ (t.table_id == j || gen.in_use sw.tableid_gen j))

  fresh_id :
      (passed : Option ℕ) (i : ℕ) (idg : IdGuard) (sw1 : Switch G O)
      → IsSound sw
      → table_taken env obj prev is_rollbk_op sw passed ≡ false
      → take_id passed blank_guard sw ≡ ok (i, idg, sw1)
      → find_table i sw ≡ none
  unfolding table_taken take_id
  fresh_id none i idg sw1 v free p = elim (Option-cases (find_table i sw)) [
    | inl missing ↦ missing
    | inr (x, found) ↦ elim (Result-cases (gen.alloc_id sw.tableid_gen)) [
      | inl (y, failed) ↦ absurd (ground arith)
      | inr ((k, g), got) ↦
          absurd (ground (arith, gen.alloc_unused sw.tableid_gen g k got, v.exact i))
    ]
  ]
  fresh_id (some i') i idg sw1 v free p = ground arith

  in_use_after :
      (i : ℕ) (idg : IdGuard) (sw1 : Switch G O)
      → Taken sw i idg sw1
      → (g : G) × (sw1 ≡ record sw { tableid_gen = g })
        × ((j : ℕ) → gen.in_use g j ≡ (i == j || gen.in_use sw.tableid_gen j))
  in_use_after i idg sw1 (g, same, inl (held, (was, now))) = (g, same, now)
  in_use_after i idg sw1 (g, same, inr (held, was, now)) =
      (g, same, λ j. ground (arith, now j, was))

  abbrev SoundlyAdds : Switch G O → Type 0
  SoundlyAdds sw' = IsSound sw' × Adds sw'

  same_gen : (t : Table O) (s : Switch G O) → (save_table t s).tableid_gen ≡ s.tableid_gen
  unfolding save_table
  same_gen t s = ground arith

  stored :
      (t : Table O) (g : G)
      → IsSound sw
      → find_table t.table_id sw ≡ none
      → ((j : ℕ) → gen.in_use g j ≡ (t.table_id == j || gen.in_use sw.tableid_gen j))
      → SoundlyAdds (save_table t (record sw { tableid_gen = g }))
  unfolding find_table find_entry find_counter
  stored t g v missing in_use =
      let sw1 : Switch G O = record sw { tableid_gen = g } in
      let (paired, tables, entries, counters) = save_table-Stored t sw1 v.paired in
      (
        record {
          paired = paired;
          exact = λ j. ground (arith, tables j, v.exact j, in_use j, same_gen t sw1);
          keyed = λ j x found. ground (arith, tables j, v.keyed j x);
        },
        (t, missing, tables, entries, counters, λ j. ground (arith, in_use j, same_gen t sw1)),
      )

  -- What is stored: a table that was not there, with its id taken from the generator.
  -- The previous object, where one is saved, gets its key.
  abbrev pub Saves : Handled Ob G O → Type 0
  Saves h =
      (t : Table O) × (g : G) × (h.sw ≡ save_table t (record sw { tableid_gen = g }))
      × (h.prev ≡ (if is_rollbk_op then prev else cps_key_fill (api.copy_key prev h.obj) t))
      × (find_table t.table_id sw ≡ none)
      × ((j : ℕ) → gen.in_use g j ≡ (t.table_id == j || gen.in_use sw.tableid_gen j))

  saves :
      (h : Handled Ob G O)
      → IsSound sw
      → KeepsId base_commit
      → table_taken env obj prev is_rollbk_op sw
          (passed_id env obj prev is_rollbk_op sw base_commit)
        ≡ false
      → Creates env obj prev is_rollbk_op sw base_commit
          (passed_id env obj prev is_rollbk_op sw base_commit)
          h
      → Saves h
  unfolding table_created
  saves h v keeps free (tmp, i, idg, sw1, t, taken, done, is) =
      let passed = passed_id env obj prev is_rollbk_op sw base_commit in
      let (g, same, in_use) = in_use_after i idg sw1 (take_id-Taken sw passed i idg sw1 taken) in
      let id = committed_id base_commit i tmp t keeps done in
      let missing = fresh_id passed i idg sw1 v free taken in
      (t, g, ground arith, ground arith, ground arith, λ j. ground (arith, in_use j))

  pub create_table-Saves :
      IsSound sw
      → KeepsId base_commit
      → (created env obj prev is_rollbk_op sw base_commit).rc ≡ ok tt
      → Saves (created env obj prev is_rollbk_op sw base_commit)
  create_table-Saves v keeps p = elim (create_cases env obj prev is_rollbk_op sw base_commit) [
    | inl ((y, failed), fails) ↦ absurd (ground arith)
    | inr (free, creates) ↦
        saves (created env obj prev is_rollbk_op sw base_commit) v keeps free creates
  ]

  -- In a switch whose tables have containers and are stored under their own ids, which are the
  -- ids in use, and with a commit of the base class that keeps the id of a table: when
  -- nas_acl_table_create succeeds, the switch is still of this kind, and one table more is
  -- stored, at an id that had none; no other table, no entry and no counter changes, and its id
  -- is the only one more in use.
  pub create_table-IsSound :
      IsSound sw
      → KeepsId base_commit
      → (created env obj prev is_rollbk_op sw base_commit).rc ≡ ok tt
      → IsSound (created env obj prev is_rollbk_op sw base_commit).sw
        × Adds (created env obj prev is_rollbk_op sw base_commit).sw
  create_table-IsSound v keeps p =
      let (t, g, is, filled, missing, in_use) = create_table-Saves v keeps p in
      subst SoundlyAdds {x = save_table t (record sw { tableid_gen = g })}
        {y = (created env obj prev is_rollbk_op sw base_commit).sw} (ground arith)
        (stored t g v missing in_use)
