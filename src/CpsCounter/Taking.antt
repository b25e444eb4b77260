-- ===== src/CpsCounter/Taking.antt =====
-- src/nas_acl_cps_counter.cpp: the steps of a create request for a counter.
use sonic_nas_acl.Base.{
  ℕ, ◌≡◌, true, false, ◌⊎◌, inl, inr, none, some, Option, List, [], ◌∷◌, arith, nat_eq, ◌==◌, ◌||◌,
  Option-cases, Bool-cases,
}
use sonic_nas_acl.CpsApi.{AttrId, CpsAttr}
use sonic_nas_acl.CpsCounter.{
  CounterAttr, types, npu_id_list, unknown, counter_attr, parse_attr, parse_attrs,
}
use sonic_nas_acl.CpsEnv.{CpsEnv}
use sonic_nas_acl.Env.{BaseObj, IdGenerator}
use sonic_nas_acl.IdGuard.{IdGuard, new_guard, counter_obj, alloc_guarded_id, reserve_guarded_id}
use sonic_nas_acl.Map.{find, find-put}
use sonic_nas_acl.NasCounter.{set_type, add_npu, set_counter_id, commit_create, copy_table_npus}
use sonic_nas_acl.Object.{Table, Counter, CounterType, packet, byte, other_counter_type}
use sonic_nas_acl.Request.{take_id}
use sonic_nas_acl.Result.{Result, ok, ◌>>=◌, Result-cases}
use sonic_nas_acl.Switch.{Switch, Container, set_container, find_entry, find_counter}
use sonic_nas_acl.Switch.Ids.{alloc_counter_id_in_table, reserve_counter_id_in_table}

-- The same ids and references.
abbrev pub SameKey : {O : Type 0} → Counter O → Counter O → Type 0
SameKey k k' = (k'.refs ≡ k.refs) × (k'.table_id ≡ k.table_id) × (k'.counter_id ≡ k.counter_id)

-- The base class does not change the ids of a counter, nor which entries it lists.
abbrev pub KeepsKey : {O : Type 0} → (Counter O → Result (Counter O)) → Type 0
KeepsKey {O} base_commit = (k k' : Counter O) → base_commit k ≡ ok k' → SameKey k k'

module _ {O : Type 0} ⦃b : BaseObj O⦄ (env : CpsEnv) where
  set_type_key : (type : CounterType) (k : Counter O) → SameKey k (set_type type true k).0
  unfolding set_type
  set_type_key packet k = (ground arith, ground arith, ground arith)
  set_type_key byte k = (ground arith, ground arith, ground arith)
  set_type_key (other_counter_type n) k = (ground arith, ground arith, ground arith)

  parsed_one :
      (attr : CounterAttr) (n : ℕ) (k k' : Counter O)
      → parse_attr env attr n k ≡ ok k'
      → SameKey k k'
  unfolding parse_attr add_npu
  parsed_one types n k k' p =
      let (r, t, c) = set_type_key (env.counter_type_of n) k in
      (ground arith, ground arith, ground arith)
  parsed_one npu_id_list n k k' p = (ground arith, ground arith, ground arith)
  parsed_one unknown n k k' p = (ground arith, ground arith, ground arith)

  pub parsed_key :
      (attrs : List (AttrId × CpsAttr)) (k k' : Counter O)
      → parse_attrs env attrs k ≡ ok k'
      → SameKey k k'
  unfolding parse_attrs
  parsed_key [] k k' p = (ground arith, ground arith, ground arith)
  parsed_key ((id, a) ∷ attrs) k k' p =
      elim (Result-cases (parse_attr env (counter_attr id) a.u32 k)) [
        | inl (x, failed) ↦ absurd (ground arith)
        | inr (k1, done) ↦
            let (r, t, c) = parsed_one (counter_attr id) a.u32 k k1 done in
            let (r', t', c') = parsed_key attrs k1 k' (ground arith) in
            (ground arith, ground arith, ground arith)
      ]

module _ {O : Type 0} ⦃b : BaseObj O⦄ where
  -- A counter is committed with its new id.
  pub committed_key :
      (base_commit : Counter O → Result (Counter O)) (x : Table O) (i : ℕ) (p k : Counter O)
      → KeepsKey base_commit
      → (set_counter_id i p >>= commit_create base_commit x) ≡ ok k
      → (k.refs ≡ p.refs) × (k.table_id ≡ p.table_id) × (k.counter_id ≡ i)
  unfolding set_counter_id commit_create copy_table_npus
  committed_key base_commit x i p k keeps done = elim (Result-cases (set_counter_id i p)) [
    | inl (y, failed) ↦ absurd (ground arith)
    | inr (q, given) ↦ elim (Bool-cases q.following_table_npus) [
      | inl on ↦
          let (r, t, c) = keeps (copy_table_npus x q) k (ground arith) in
          (ground arith, ground arith, ground arith)
      | inr off ↦
          let (r, t, c) = keeps q k (ground arith) in (ground arith, ground arith, ground arith)
    ]
  ]

module _ {G O : Type 0} ⦃gen : IdGenerator G⦄ (t : ℕ) (sw : Switch G O) where
  -- Only the generator of the counters of the table changes; a new id was not in use.
  abbrev pub TakenIn : Option ℕ → ℕ → Switch G O → Type 0
  TakenIn passed i sw1 =
      (c : Container G O) × (g : G) × (find t sw.table_containers ≡ some c)
      × (sw1 ≡ set_container t (record c { counter_id_gen = g }) sw)
      × ((passed ≡ some i) ⊎ (gen.in_use c.counter_id_gen i ≡ false))
      × ((j : ℕ) → gen.in_use g j ≡ (i == j || gen.in_use c.counter_id_gen j))

  pub take_id-TakenIn :
      (passed : Option ℕ) (i : ℕ) (idg : IdGuard) (sw1 : Switch G O)
      → take_id passed (new_guard counter_obj t) sw ≡ ok (i, idg, sw1)
      → TakenIn passed i sw1
  unfolding take_id alloc_guarded_id reserve_guarded_id alloc_counter_id_in_table
      reserve_counter_id_in_table
  take_id-TakenIn passed i idg sw1 p = elim (Option-cases (find t sw.table_containers)) [
    | inl missing ↦ absurd (elim passed [ none ↦ ground arith | some j ↦ ground arith ])
    | inr (c, found) ↦ elim (Option-cases passed) [
      | inl fresh ↦ elim (Result-cases (gen.alloc_id c.counter_id_gen)) [
        | inl (x, failed) ↦ absurd (ground arith)
        | inr ((j, g), got) ↦ (
          c,
          g,
          found,
          ground arith,
          inr (ground (arith, gen.alloc_unused c.counter_id_gen g j got)),
          λ l. ground (arith, gen.alloc_in_use c.counter_id_gen g j l got),
        )
      ]
      | inr (j, given) ↦ (
        c,
        (gen.reserve_id j c.counter_id_gen).1,
        found,
        ground arith,
        inl (ground arith),
        λ l. ground (arith, gen.reserve_in_use j l c.counter_id_gen),
      )
    ]
  ]

  pub taken_lookups :
      (passed : Option ℕ) (i : ℕ) (sw1 : Switch G O)
      → TakenIn passed i sw1
      → ((t' j : ℕ) → find_counter t' j sw1 ≡ find_counter t' j sw)
        × ((t' j : ℕ) → find_entry t' j sw1 ≡ find_entry t' j sw)
  unfolding find_counter find_entry
  taken_lookups passed i sw1 (c, g, found, is, fresh, now) = (
    λ t' j. ground (arith, find-put t t' (record c { counter_id_gen = g }) sw.table_containers),
    λ t' j. ground (arith, find-put t t' (record c { counter_id_gen = g }) sw.table_containers),
  )
