-- ===== src/IdGuard/Changed.antt =====
-- How the ids of a switch change when one of its generators hands out an id.
use sonic_nas_acl.Base.{
  ℕ, ◌≡◌, Bool, true, false, ◌||◌, inl, inr, none, some, Option, arith, nat_eq, ◌==◌, Option-cases,
}
use sonic_nas_acl.Env.{IdGenerator}
use sonic_nas_acl.IdGuard.{
  alloc_id_of, reserve_id_of, ObjType, table_obj, entry_obj, counter_obj, other_obj,
}
use sonic_nas_acl.Map.{Map, find, at}
use sonic_nas_acl.Result.{ok, >>=-eq-ok}
use sonic_nas_acl.Switch.Ids.{
  alloc_table_id, alloc_entry_id_in_table, alloc_counter_id_in_table, reserve_table_id,
  reserve_entry_id_in_table, reserve_counter_id_in_table,
}
use sonic_nas_acl.Switch.{Switch, Container, set_container}

at_found : {V : Type 0} (k : ℕ) (m : Map ℕ V) {v : V} → at k m ≡ ok v → find k m ≡ some v
at_found k m done = ground arith

module _ {G O : Type 0} ⦃gen : IdGenerator G⦄ where
  unfoldable pub in_use_entry : Option (Container G O) → ℕ → Bool
  in_use_entry none i = false
  in_use_entry (some c) i = gen.in_use c.entry_id_gen i

  unfoldable pub in_use_counter : Option (Container G O) → ℕ → Bool
  in_use_counter none i = false
  in_use_counter (some c) i = gen.in_use c.counter_id_gen i

  -- The ids that are handed out to the objects of a type in a table.
  unfoldable pub ids_in_use : ObjType → ℕ → Switch G O → ℕ → Bool
  unfolding in_use_entry in_use_counter
  ids_in_use table_obj t sw i = gen.in_use sw.tableid_gen i
  ids_in_use entry_obj t sw i = in_use_entry (find t sw.table_containers) i
  ids_in_use counter_obj t sw i = in_use_counter (find t sw.table_containers) i
  ids_in_use other_obj t sw i = false

-- A generator hands out an id.
abbrev pub Took : {G : Type 0} ⦃gen : IdGenerator G⦄ → ℕ → G → G → Type 0
Took ⦃gen⦄ i g g' =
    (gen.in_use g i ≡ false) × ((j : ℕ) → gen.in_use g' j ≡ (i == j || gen.in_use g j))

module _ {G : Type 0} ⦃gen : IdGenerator G⦄ (g : G) where
  alloc-Took : (i : ℕ) (g' : G) → gen.alloc_id g ≡ ok (i, g') → Took i g g'
  alloc-Took i g' done = (gen.alloc_unused g g' i done, λ j. gen.alloc_in_use g g' i j done)

  reserve-Took : (i : ℕ) → (gen.reserve_id i g).0 ≡ true → Took i g (gen.reserve_id i g).1
  reserve-Took i unused = (ground (arith, gen.reserve_result i g), λ j. gen.reserve_in_use i j g)

module _ {G O : Type 0} ⦃gen : IdGenerator G⦄ where
  -- One generator of the switch hands out an id, and nothing else changes.
  abbrev pub Changed : ObjType → ℕ → Switch G O → ℕ → Switch G O → Type 0
  Changed table_obj t sw i sw' =
      (g : G) × Took i sw.tableid_gen g × (sw' ≡ record sw { tableid_gen = g })
  Changed entry_obj t sw i sw' =
      (c : Container G O) × (g : G) × (find t sw.table_containers ≡ some c)
      × Took i c.entry_id_gen g
      × (sw' ≡ set_container t (record c { entry_id_gen = g }) sw)
  Changed counter_obj t sw i sw' =
      (c : Container G O) × (g : G) × (find t sw.table_containers ≡ some c)
      × Took i c.counter_id_gen g
      × (sw' ≡ set_container t (record c { counter_id_gen = g }) sw)
  Changed other_obj t sw i sw' = ⊥

module _ {G O : Type 0} ⦃gen : IdGenerator G⦄ (t : ℕ) (sw : Switch G O) where
  pub alloc-Changed :
      (type : ObjType) (i : ℕ) (sw' : Switch G O)
      → alloc_id_of type t sw ≡ ok (i, sw')
      → Changed type t sw i sw'
  unfolding alloc_id_of alloc_table_id alloc_entry_id_in_table alloc_counter_id_in_table
  alloc-Changed table_obj i sw' done =
      let ((k, g), taken, rest) =
        >>=-eq-ok (gen.alloc_id sw.tableid_gen) (λ (k, g). ok (k, record sw { tableid_gen = g }))
          {b = (i, sw')} done in
      (g, alloc-Took sw.tableid_gen i g (ground arith), ground arith)
  alloc-Changed entry_obj i sw' done =
      let (c, found, after) = >>=-eq-ok (at t sw.table_containers) _ {b = (i, sw')} done in
      let ((k, g), taken, rest) =
        >>=-eq-ok (gen.alloc_id c.entry_id_gen)
          (λ (k, g). ok (k, set_container t (record c { entry_id_gen = g }) sw)) {b = (i, sw')}
          after in
      (
        c,
        g,
        at_found t sw.table_containers found,
        alloc-Took c.entry_id_gen i g (ground arith),
        ground arith,
      )
  alloc-Changed counter_obj i sw' done =
      let (c, found, after) = >>=-eq-ok (at t sw.table_containers) _ {b = (i, sw')} done in
      let ((k, g), taken, rest) =
        >>=-eq-ok (gen.alloc_id c.counter_id_gen)
          (λ (k, g). ok (k, set_container t (record c { counter_id_gen = g }) sw)) {b = (i, sw')}
          after in
      (
        c,
        g,
        at_found t sw.table_containers found,
        alloc-Took c.counter_id_gen i g (ground arith),
        ground arith,
      )
  alloc-Changed other_obj i sw' done = cc

  pub reserve-Changed :
      (type : ObjType) (i : ℕ) (sw' : Switch G O)
      → reserve_id_of type t i sw ≡ ok (true, sw')
      → Changed type t sw i sw'
  unfolding reserve_id_of reserve_table_id reserve_entry_id_in_table reserve_counter_id_in_table
  reserve-Changed table_obj i sw' done = (
    (gen.reserve_id i sw.tableid_gen).1,
    reserve-Took sw.tableid_gen i (ground arith),
    ground arith,
  )
  reserve-Changed entry_obj i sw' done = elim (Option-cases (find t sw.table_containers)) [
    | inl missing ↦ absurd (ground arith)
    | inr (c, found) ↦ (
      c,
      (gen.reserve_id i c.entry_id_gen).1,
      found,
      reserve-Took c.entry_id_gen i (ground arith),
      ground arith,
    )
  ]
  reserve-Changed counter_obj i sw' done = elim (Option-cases (find t sw.table_containers)) [
    | inl missing ↦ absurd (ground arith)
    | inr (c, found) ↦ (
      c,
      (gen.reserve_id i c.counter_id_gen).1,
      found,
      reserve-Took c.counter_id_gen i (ground arith),
      ground arith,
    )
  ]
  reserve-Changed other_obj i sw' done = cc
