-- ===== src/CpsTable/Taking.antt =====
-- The id of a new table: what it changes, and that unwinding gives it back.
use sonic_nas_acl.Base.{
  ℕ, ◌≡◌, refl, ◌⊎◌, inl, inr, true, Option, none, some, arith, nat_eq, Bool-cases,
}
use sonic_nas_acl.Env.{IdGenerator}
use sonic_nas_acl.IdGuard.{IdGuard, new_guard, table_obj, destroy_guard}
use sonic_nas_acl.IdGuard.Changed.{Took}
use sonic_nas_acl.Request.{Handled, caught, take_id, unwind}
use sonic_nas_acl.Result.{ok, err, Error, Result-cases}
use sonic_nas_acl.Switch.{Switch}

abbrev pub blank_guard : IdGuard
blank_guard = new_guard table_obj 0

module _ {G O : Type 0} ⦃gen : IdGenerator G⦄ (sw : Switch G O) where
  -- The generator handed out the id and the guard holds it, or the id was in use before and the
  -- guard holds nothing.
  abbrev pub Holds : ℕ → IdGuard → G → Type 0
  Holds i idg g =
      ((idg ≡ record blank_guard { guarding = true; guarded_id = i }) × Took i sw.tableid_gen g)
      ⊎ ((idg ≡ blank_guard)
          × (gen.in_use sw.tableid_gen i ≡ true)
          × ((j : ℕ) → gen.in_use g j ≡ gen.in_use sw.tableid_gen j))

  abbrev pub Taken : ℕ → IdGuard → Switch G O → Type 0
  Taken i idg sw' = (g : G) × (sw' ≡ record sw { tableid_gen = g }) × Holds i idg g

  pub take_id-Taken :
      (passed : Option ℕ) (i : ℕ) (idg : IdGuard) (sw' : Switch G O)
      → take_id passed blank_guard sw ≡ ok (i, idg, sw')
      → Taken i idg sw'
  unfolding take_id
  take_id-Taken none i idg sw' p = elim (Result-cases (gen.alloc_id sw.tableid_gen)) [
    | inl (x, failed) ↦ absurd (ground arith)
    | inr ((k, g), got) ↦ (
      g,
      ground arith,
      inl (
        ground arith,
        (
          ground (arith, gen.alloc_unused sw.tableid_gen g k got),
          λ j. ground (arith, gen.alloc_in_use sw.tableid_gen g k j got),
        ),
      ),
    )
  ]
  take_id-Taken (some i') i idg sw' p = elim (Bool-cases (gen.in_use sw.tableid_gen i')) [
    | inl used ↦ (
      (gen.reserve_id i' sw.tableid_gen).1,
      ground arith,
      inr (
        ground (arith, gen.reserve_result i' sw.tableid_gen),
        ground arith,
        λ j. ground (arith, gen.reserve_in_use i' j sw.tableid_gen),
      ),
    )
    | inr free ↦ (
      (gen.reserve_id i' sw.tableid_gen).1,
      ground arith,
      inl (
        ground (arith, gen.reserve_result i' sw.tableid_gen),
        (ground arith, λ j. ground (arith, gen.reserve_in_use i' j sw.tableid_gen)),
      ),
    )
  ]

  -- What a request that failed left: the tables and their contents as they were, and the same ids
  -- of tables in use.
  abbrev pub Untouched : {Ob : Type 0} → Ob → Ob → Handled Ob G O → Type 0
  Untouched obj prev h =
      (h.obj ≡ obj)
      × (h.prev ≡ prev)
      × (h.sw.tables ≡ sw.tables)
      × (h.sw.table_containers ≡ sw.table_containers)
      × ((j : ℕ) → gen.in_use h.sw.tableid_gen j ≡ gen.in_use sw.tableid_gen j)

  pub unwind_rc :
      {Ob : Type 0} (obj prev : Ob) (idg : IdGuard) (x : Error)
      → (y : Error) × ((unwind obj prev idg sw x).rc ≡ err y)
  unfolding unwind
  unwind_rc obj prev idg x = elim (Result-cases (destroy_guard idg sw)) [
    | inl (y, failed) ↦ (y, ground arith)
    | inr (sw', done) ↦ (caught x, ground arith)
  ]

  pub unwind-Untouched :
      {Ob : Type 0} (obj prev : Ob) (i : ℕ) (idg : IdGuard) (sw' : Switch G O) (x : Error)
      → Taken i idg sw'
      → Untouched obj prev (unwind obj prev idg sw' x)
  unfolding unwind
  unwind-Untouched obj prev i idg sw' x (g, same, inl (held, (was, now))) =
      rw (held, same)
        ((refl, refl, refl, refl, λ j. ground (arith, gen.release_in_use i j g, now j, was)))
  unwind-Untouched obj prev i idg sw' x (g, same, inr (held, was, now)) =
      rw (held, same) ((refl, refl, refl, refl, now))
