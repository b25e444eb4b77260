-- ===== src/IdGuard/Guarded.antt =====
-- src/nas_acl_utl.cpp: the ids in use while a guard holds one and after its end.
use sonic_nas_acl.Base.{ℕ, ◌≡◌, refl, true, false, ◌||◌, some, arith, nat_eq, ◌==◌, if◌then◌else◌}
use sonic_nas_acl.Env.{IdGenerator}
use sonic_nas_acl.IdGuard.{
  alloc_id_of, release_id_of, reserve_id_of, ObjType, table_obj, entry_obj, counter_obj, other_obj,
  IdGuard, unguard, alloc_guarded_id, reserve_guarded_id, destroy_guard,
}
use sonic_nas_acl.Map.{find, put, find-put}
use sonic_nas_acl.Result.{ok, >>=-eq-ok}
use sonic_nas_acl.Switch.Ids.{
  release_table_id, release_entry_id_in_table, release_counter_id_in_table,
}
use sonic_nas_acl.Switch.{Switch, Container, set_container}
use sonic_nas_acl.IdGuard.Changed.{
  in_use_entry, in_use_counter, ids_in_use, Took, Changed, alloc-Changed, reserve-Changed,
}

module _ {G O : Type 0} ⦃gen : IdGenerator G⦄ (t : ℕ) (sw : Switch G O) (i : ℕ)
    (sw' : Switch G O) where
  -- The id was not in use, and now it is, and no other id.
  abbrev pub Takes : ObjType → Type 0
  Takes type =
      (ids_in_use type t sw i ≡ false)
      × ((j : ℕ) → ids_in_use type t sw' j ≡ (i == j || ids_in_use type t sw j))

  changed_takes : (type : ObjType) → Changed type t sw i sw' → Takes type
  unfolding ids_in_use in_use_entry in_use_counter
  changed_takes table_obj (g, (was, now), done) = (was, λ j. ground (arith, now j))
  changed_takes entry_obj (c, g, found, (was, now), done) = (
    ground arith,
    λ j. ground (arith, now j, find-put t t (record c { entry_id_gen = g }) sw.table_containers),
  )
  changed_takes counter_obj (c, g, found, (was, now), done) = (
    ground arith,
    λ j. ground (arith, now j, find-put t t (record c { counter_id_gen = g }) sw.table_containers),
  )
  changed_takes other_obj none_such = absurd none_such

  -- Giving the id back succeeds, and then every id is in use as before.
  abbrev pub Releases : ObjType → Type 0
  Releases type =
      (end : Switch G O) × (release_id_of type t i sw' ≡ ok end)
      × ((type' : ObjType) (t' j : ℕ) → ids_in_use type' t' end j ≡ ids_in_use type' t' sw j)

-- A generator that took an id and gave it back has the ids in use that it had.
gave_back :
    {G : Type 0} ⦃gen : IdGenerator G⦄ (g g' : G) (i : ℕ)
    → Took i g g'
    → (j : ℕ) → gen.in_use (gen.release_id i g') j ≡ gen.in_use g j
gave_back ⦃gen⦄ g g' i (was, now) j = ground (arith, now j, gen.release_in_use i j g', was)

module _ {G O : Type 0} ⦃gen : IdGenerator G⦄ (t : ℕ) (sw : Switch G O) (i : ℕ) (g : G) where
  table_end_same :
      Took i sw.tableid_gen g
      → (type' : ObjType) (t' j : ℕ)
      → ids_in_use type' t' (record sw { tableid_gen = gen.release_id i g }) j
        ≡ ids_in_use type' t' sw j
  unfolding ids_in_use in_use_entry in_use_counter
  table_end_same took table_obj t' j = gave_back sw.tableid_gen g i took j
  table_end_same took entry_obj t' j = refl
  table_end_same took counter_obj t' j = refl
  table_end_same took other_obj t' j = refl

module _ {G O : Type 0} ⦃gen : IdGenerator G⦄ (t : ℕ) (sw : Switch G O) (i : ℕ) (c : Container G O)
    (g : G) (found : find t sw.table_containers ≡ some c) where
  entry_end : Switch G O
  entry_end =
      let mid = set_container t (record c { entry_id_gen = g }) sw in
      set_container t (record c { entry_id_gen = gen.release_id i g }) mid

  counter_end : Switch G O
  counter_end =
      let mid = set_container t (record c { counter_id_gen = g }) sw in
      set_container t (record c { counter_id_gen = gen.release_id i g }) mid

  entry_end_same :
      Took i c.entry_id_gen g
      → (type' : ObjType) (t' j : ℕ) → ids_in_use type' t' entry_end j ≡ ids_in_use type' t' sw j
  unfolding ids_in_use in_use_entry in_use_counter entry_end
  entry_end_same took table_obj t' j = refl
  entry_end_same took entry_obj t' j = ground (
    arith,
    gave_back c.entry_id_gen g i took j,
    find-put t t' (record c { entry_id_gen = g }) sw.table_containers,
    find-put t t' (record c { entry_id_gen = gen.release_id i g })
        (put t (record c { entry_id_gen = g }) sw.table_containers),
  )
  entry_end_same took counter_obj t' j = ground (
    arith,
    find-put t t' (record c { entry_id_gen = g }) sw.table_containers,
    find-put t t' (record c { entry_id_gen = gen.release_id i g })
        (put t (record c { entry_id_gen = g }) sw.table_containers),
  )
  entry_end_same took other_obj t' j = refl

  counter_end_same :
      Took i c.counter_id_gen g
      → (type' : ObjType) (t' j : ℕ) → ids_in_use type' t' counter_end j ≡ ids_in_use type' t' sw j
  unfolding ids_in_use in_use_entry in_use_counter counter_end
  counter_end_same took table_obj t' j = refl
  counter_end_same took counter_obj t' j = ground (
    arith,
    gave_back c.counter_id_gen g i took j,
    find-put t t' (record c { counter_id_gen = g }) sw.table_containers,
    find-put t t' (record c { counter_id_gen = gen.release_id i g })
        (put t (record c { counter_id_gen = g }) sw.table_containers),
  )
  counter_end_same took entry_obj t' j = ground (
    arith,
    find-put t t' (record c { counter_id_gen = g }) sw.table_containers,
    find-put t t' (record c { counter_id_gen = gen.release_id i g })
        (put t (record c { counter_id_gen = g }) sw.table_containers),
  )
  counter_end_same took other_obj t' j = refl

module _ {G O : Type 0} ⦃gen : IdGenerator G⦄ (t : ℕ) (sw : Switch G O) (i : ℕ)
    (sw' : Switch G O) where
  changed_releases : (type : ObjType) → Changed type t sw i sw' → Releases t sw i sw' type
  unfolding ids_in_use release_id_of release_table_id release_entry_id_in_table
      release_counter_id_in_table entry_end counter_end
  changed_releases table_obj (g, took, done) =
      (record sw { tableid_gen = gen.release_id i g }, ground arith, table_end_same t sw i g took)
  changed_releases entry_obj (c, g, found, took, done) = (
    entry_end t sw i c g found,
    ground (arith, find-put t t (record c { entry_id_gen = g }) sw.table_containers),
    entry_end_same t sw i c g found took,
  )
  changed_releases counter_obj (c, g, found, took, done) = (
    counter_end t sw i c g found,
    ground (arith, find-put t t (record c { counter_id_gen = g }) sw.table_containers),
    counter_end_same t sw i c g found took,
  )
  changed_releases other_obj none_such = absurd none_such

module _ {G O : Type 0} ⦃gen : IdGenerator G⦄ (g : IdGuard) (sw : Switch G O) (i : ℕ) (g' : IdGuard)
    (sw' : Switch G O) where
  -- The guard holds the id, and while it does nobody else can have it; without unguard its end
  -- leaves the switch's ids as they were, with unguard it does nothing.
  abbrev pub Guards : Type 0
  Guards =
      Takes g.table_id sw i sw' g.obj_type
      × ((end : Switch G O) × (destroy_guard g' sw' ≡ ok end)
          × ((type : ObjType) (t j : ℕ) → ids_in_use type t end j ≡ ids_in_use type t sw j))
      × (destroy_guard (unguard g') sw' ≡ ok sw')

  guards :
      Changed g.obj_type g.table_id sw i sw'
      → g' ≡ record g { guarding = true; guarded_id = i }
      → Guards
  unfolding destroy_guard unguard
  guards changed is_held =
      let (end, released, same) = changed_releases g.table_id sw i sw' g.obj_type changed in
      (changed_takes g.table_id sw i sw' g.obj_type changed, (end, rw is_held released, same), refl)

  -- When alloc_guarded_id returns an id for a guard of a table, an entry or a counter, that id
  -- was not in use and is then the only one more in use among the ids of that kind; destroying
  -- the guard succeeds, and afterwards every id of every kind and table is in use exactly as
  -- before; after unguard the destructor changes nothing.
  pub alloc_guarded_id-Guards : alloc_guarded_id g sw ≡ ok (i, g', sw') → Guards
  unfolding alloc_guarded_id
  alloc_guarded_id-Guards done =
      let ((k, end), taken, rest) =
        >>=-eq-ok (alloc_id_of g.obj_type g.table_id sw)
          (λ (k, s). ok (k, record g { guarding = true; guarded_id = k }, s)) {b = (i, g', sw')}
          done in
      guards (alloc-Changed g.table_id sw g.obj_type i sw' (ground arith)) (ground arith)

  -- When reserve_guarded_id returns true for an id, that id was not in use and is then the only
  -- one more in use among the ids of that kind; destroying the guard succeeds, and afterwards
  -- every id of every kind and table is in use exactly as before; after unguard the destructor
  -- changes nothing.
  pub reserve_guarded_id-Guards : reserve_guarded_id i g sw ≡ ok (true, g', sw') → Guards
  unfolding reserve_guarded_id
  reserve_guarded_id-Guards done =
      let ((unused, end), taken, rest) =
        >>=-eq-ok (reserve_id_of g.obj_type g.table_id i sw)
          (λ (u, s). ok (u, (if u then record g { guarding = true; guarded_id = i } else g), s))
          {b = (true, g', sw')} done in
      guards (reserve-Changed g.table_id sw g.obj_type i sw' (ground arith)) (ground arith)
