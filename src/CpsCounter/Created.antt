-- ===== src/CpsCounter/Created.antt =====
-- src/nas_acl_cps_counter.cpp: a create request for a counter that succeeds.
use sonic_nas_acl.Base.{
  ℕ, ◌≡◌, subst, ◌∙◌, Bool, true, false, ◌&&◌, inl, inr, none, some, Option, [], arith, nat_eq,
  ◌==◌, if◌then◌else◌, Option-cases, Bool-cases,
}
use sonic_nas_acl.CpsApi.{CpsApi}
use sonic_nas_acl.CpsCounter.{
  nas_acl_counter_create, create_counter_in, counter_parsed, counter_commit, counter_created,
  counter_taken, parse_attrs,
}
use sonic_nas_acl.CpsCounter.Taking.{
  KeepsKey, parsed_key, committed_key, TakenIn, take_id-TakenIn, taken_lookups,
}
use sonic_nas_acl.CpsTable.Taking.{unwind_rc}
use sonic_nas_acl.CpsEnv.{CpsEnv}
use sonic_nas_acl.CpsKey.{nas_acl_cps_key_get_obj_id}
use sonic_nas_acl.Env.{BaseObj, IdGenerator}
use sonic_nas_acl.IdGuard.{IdGuard, new_guard, counter_obj}
use sonic_nas_acl.Map.{find, find-put, put}
use sonic_nas_acl.NasCounter.{set_counter_id, commit_create}
use sonic_nas_acl.Object.{Table, Counter, new_counter}
use sonic_nas_acl.Request.{Handled, take_id, unwind}
use sonic_nas_acl.Result.{Result, ok, ◌>>=◌, Result-cases}
use sonic_nas_acl.Switch.{
  Switch, Container, set_container, find_table, get_table, find_entry, find_counter,
}
use sonic_nas_acl.Switch.Counters.{
  save_counter-IsConsistent, save_counter-find_counter, save_counter-find_entry,
}
use sonic_nas_acl.Switch.Entries.{save_counter}
use sonic_nas_acl.Switch.Lookup.{is_some}
use sonic_nas_acl.Switch.Refs.{IsConsistent}

module _ {G O : Type 0} ⦃gen : IdGenerator G⦄ where
  -- The id of a stored counter is in use, and a table is stored under its own id.
  pub record IsTracked (sw : Switch G O) : Type 0 where
    pub counters :
        (t i : ℕ) (c : Container G O)
        → find t sw.table_containers ≡ some c
        → is_some (find i c.acl_counters) ≡ true
        → gen.in_use c.counter_id_gen i ≡ true
    pub tables : (t : ℕ) (x : Table O) → find_table t sw ≡ some x → x.table_id ≡ t

same_lookups :
    {G O : Type 0} (sw sw1 : Switch G O)
    → ((t j : ℕ) → find_counter t j sw1 ≡ find_counter t j sw)
    → ((t j : ℕ) → find_entry t j sw1 ≡ find_entry t j sw)
    → IsConsistent sw
    → IsConsistent sw1
same_lookups sw sw1 counters entries v = record {
  exact = λ t cid i. ground (arith, counters t cid, entries t i, v.exact t cid i);
  keyed = λ t i e at_i. v.keyed t i e (ground (arith, entries t i));
  counted = λ t i e at_i on. v.counted t i e (ground (arith, entries t i)) on;
}

module _ {Ob G O : Type 0} ⦃api : CpsApi Ob⦄ ⦃gen : IdGenerator G⦄ ⦃b : BaseObj O⦄ (env : CpsEnv)
    (obj prev : Ob) (is_rollbk_op : Bool) (sw : Switch G O)
    (base_commit : Counter O → Result (Counter O)) where
  abbrev pub created : Handled Ob G O
  created = nas_acl_counter_create env obj prev is_rollbk_op sw base_commit

  abbrev passed_id : Option ℕ
  passed_id = nas_acl_cps_key_get_obj_id obj "BASE_ACL_COUNTER_ID"

  -- How a counter comes into the table.
  abbrev Creates : ℕ → Table O → Switch G O → Type 0
  Creates t x end =
      (p : Counter O) × (i : ℕ) × (idg : IdGuard) × (sw1 : Switch G O) × (k : Counter O)
      × (counter_taken env obj prev is_rollbk_op sw t passed_id ≡ false)
      × (parse_attrs {O = O} env (api.attrs obj) (new_counter x.table_id) ≡ ok p)
      × (take_id passed_id (new_guard counter_obj t) sw ≡ ok (i, idg, sw1))
      × ((set_counter_id i p >>= commit_create base_commit x) ≡ ok k)
      × (save_counter k sw1 ≡ ok end)

  created_in :
      (t : ℕ) (x : Table O)
      → (create_counter_in env obj prev is_rollbk_op sw base_commit t x).rc ≡ ok tt
      → Creates t x (create_counter_in env obj prev is_rollbk_op sw base_commit t x).sw
  unfolding create_counter_in counter_parsed counter_commit counter_created unwind
  created_in t x rc = elim (Bool-cases (counter_taken env obj prev is_rollbk_op sw t passed_id)) [
    | inl taken ↦ absurd (ground arith)
    | inr free ↦
        elim (Result-cases (parse_attrs {O = O} env (api.attrs obj) (new_counter x.table_id))) [
          | inl (y, failed) ↦ absurd (ground arith)
          | inr (p, parsed) ↦ elim (Result-cases (take_id passed_id (new_guard counter_obj t) sw)) [
            | inl (y, failed) ↦
                let (e, bad) = unwind_rc sw obj prev (new_guard counter_obj t) y in
                absurd (ground arith)
            | inr ((i, idg, sw1), took) ↦
                elim (Result-cases (set_counter_id i p >>= commit_create base_commit x)) [
                  | inl (y, failed) ↦
                      let (e, bad) = unwind_rc sw1 obj prev idg y in absurd (ground arith)
                  | inr (k, done) ↦ elim (Result-cases (save_counter k sw1)) [
                    | inl (y, failed) ↦ absurd (ground arith)
                    | inr (end, saved) ↦ (p, i, idg, sw1, k, free, parsed, took, done, ground arith)
                  ]
                ]
          ]
        ]
  ]

  fresh_id :
      (t i : ℕ) (sw1 : Switch G O)
      → IsTracked sw
      → counter_taken env obj prev is_rollbk_op sw t passed_id ≡ false
      → TakenIn t sw passed_id i sw1
      → find_counter t i sw ≡ none
  unfolding counter_taken find_counter
  fresh_id t i sw1 v free (c, g, found, is, how, now) =
      elim (Option-cases (find i c.acl_counters)) [
        | inl missing ↦ ground arith
        | inr (k, there) ↦ elim how [
          | inl given ↦ absurd (ground arith)
          | inr unused ↦ absurd (ground (arith, v.counters t i c found))
        ]
      ]

  save_counter-IsTracked :
      (t i : ℕ) (k : Counter O) (sw1 end : Switch G O)
      → IsTracked sw
      → TakenIn t sw passed_id i sw1
      → k.table_id ≡ t
      → k.counter_id ≡ i
      → save_counter k sw1 ≡ ok end
      → IsTracked end
  unfolding save_counter find_table
  save_counter-IsTracked t i k sw1 end v (c, g, found, is, how, now) table id saved =
      let c1 : Container G O = record c { counter_id_gen = g } in
      let c2 : Container G O = record c1 { acl_counters = put i k c.acl_counters } in
      let there : find t sw1.table_containers ≡ some c1 =
        ground (arith, find-put t t c1 sw.table_containers) in
      let stored : end ≡ set_container t c2 sw1 = ground arith in
      record {
        counters = λ t' j c' at_t' at_j. ground (
          arith,
          v.counters t' j c',
          v.counters t j c found,
          now j,
          find-put t t' c1 sw.table_containers,
          find-put t t' c2 sw1.table_containers,
          find-put i j k c.acl_counters,
        );
        tables = λ t' x at_t'. ground (arith, v.tables t' x);
      }

  -- A counter without entries is at a place where there was none, and nothing else changes.
  abbrev pub AddsCounter : ℕ → Switch G O → Type 0
  AddsCounter t sw' =
      (i : ℕ) × (k : Counter O) × (find_counter t i sw ≡ none)
      × ((k.refs ≡ []) × (k.table_id ≡ t) × (k.counter_id ≡ i))
      × IsConsistent sw'
      × IsTracked sw'
      × ((t' j : ℕ)
          → find_counter t' j sw' ≡ (if t == t' && i == j then some k else find_counter t' j sw))
      × ((t' j : ℕ) → find_entry t' j sw' ≡ find_entry t' j sw)

  adds :
      (t : ℕ) (x : Table O) (end : Switch G O)
      → IsConsistent sw
      → IsTracked sw
      → KeepsKey base_commit
      → x.table_id ≡ t
      → Creates t x end
      → AddsCounter t end
  adds t x end v tracked keeps own (p, i, idg, sw1, k, free, parsed, took, done, saved) =
      let taken = take_id-TakenIn t sw passed_id i idg sw1 took in
      let (counters, entries) = taken_lookups t sw passed_id i sw1 taken in
      let missing = fresh_id t i sw1 tracked free taken in
      let (pr, pt, pc) = parsed_key env (api.attrs obj) (new_counter x.table_id) p parsed in
      let (kr, kt, kc) = committed_key base_commit x i p k keeps done in
      let refs : k.refs ≡ [] = ground arith in
      let table : k.table_id ≡ t = ground arith in
      let v1 = same_lookups sw sw1 counters entries v in
      (
        i,
        k,
        missing,
        (refs, table, kc),
        save_counter-IsConsistent k sw1 end v1 (λ j. ground (arith, counters t i)) saved,
        save_counter-IsTracked t i k sw1 end tracked taken table kc saved,
        λ t' j. ground (arith, save_counter-find_counter k sw1 end saved t' j, counters t' j),
        λ t' j. save_counter-find_entry k sw1 end saved t' j ∙ entries t' j,
      )

  -- In a consistent switch (every counter lists exactly the entries that count with it) in which
  -- the id of every stored counter is in use and tables are stored under their own ids, and with
  -- a commit of the base class that keeps the ids and the references of a counter: when
  -- nas_acl_counter_create of an object whose key names the table t succeeds, the switch
  -- afterwards has one counter more, in the table t, at an id that no counter of the table had;
  -- the counter has this table id and this id and lists no entries; every other counter and every
  -- entry is found as before; and the switch is still of this kind.
  pub create_counter-AddsCounter :
      (t : ℕ)
      → IsConsistent sw
      → IsTracked sw
      → KeepsKey base_commit
      → nas_acl_cps_key_get_obj_id obj "BASE_ACL_COUNTER_TABLE_ID" ≡ some t
      → created.rc ≡ ok tt
      → AddsCounter t created.sw
  unfolding nas_acl_counter_create get_table find_table
  create_counter-AddsCounter t v tracked keeps key rc = elim (Option-cases (find t sw.tables)) [
    | inl missing ↦ absurd (ground arith)
    | inr (x, found) ↦
        subst (AddsCounter t)
          {x = (create_counter_in env obj prev is_rollbk_op sw base_commit t x).sw} {y = created.sw}
          (ground arith)
          (adds t x (create_counter_in env obj prev is_rollbk_op sw base_commit t x).sw v tracked
            keeps (tracked.tables t x found) (created_in t x (ground arith)))
  ]
