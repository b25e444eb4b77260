-- ===== src/IdGuard.antt =====
-- sonic/nas_acl_utl.h, src/nas_acl_utl.cpp: nas_acl_id_guard_t. The guard holds an id until the
-- object that is to have it exists; its destructor gives the id back.
pub mod Changed
pub mod Guarded
use sonic_nas_acl.Base.{ℕ, Bool, true, false, if◌then◌else◌, not}
use sonic_nas_acl.Env.{IdGenerator}
use sonic_nas_acl.Result.{Result, ok, err, ◌>>=◌, fail}
use sonic_nas_acl.Switch.{Switch}
use sonic_nas_acl.Switch.Ids.{
  alloc_table_id, alloc_entry_id_in_table, alloc_counter_id_in_table, reserve_table_id,
  reserve_entry_id_in_table, reserve_counter_id_in_table, release_table_id,
  release_entry_id_in_table, release_counter_id_in_table,
}

-- BASE_ACL_OBJECTS_t, the values that the guard tells apart.
pub data ObjType : Type 0 where
  table_obj entry_obj counter_obj other_obj : ObjType

pub record IdGuard : Type 0 where
  pub obj_type : ObjType
  pub table_id : ℕ
  pub guarding : Bool
  pub guarded_id : ℕ

abbrev pub new_guard : ObjType → ℕ → IdGuard
new_guard type t = record { obj_type = type; table_id = t; guarding = false; guarded_id = 0 }

unfoldable pub unguard : IdGuard → IdGuard
unguard g = record g { guarding = false; guarded_id = 0 }

-- The move: the new guard, and the old one after it.
unfoldable pub move_guard : IdGuard → IdGuard × IdGuard
unfolding unguard
move_guard g = (g, unguard g)

module _ {G O : Type 0} ⦃gen : IdGenerator G⦄ where
  unfoldable alloc_id_of : ObjType → ℕ → Switch G O → Result (ℕ × Switch G O)
  unfolding alloc_table_id alloc_entry_id_in_table alloc_counter_id_in_table
  alloc_id_of table_obj t sw = alloc_table_id sw
  alloc_id_of entry_obj t sw = alloc_entry_id_in_table t sw
  alloc_id_of counter_obj t sw = alloc_counter_id_in_table t sw
  alloc_id_of other_obj t sw = err fail

  unfoldable pub alloc_guarded_id : IdGuard → Switch G O → Result (ℕ × IdGuard × Switch G O)
  unfolding alloc_id_of
  alloc_guarded_id g sw = do
    (i, sw') ← alloc_id_of g.obj_type g.table_id sw
    ok (i, record g { guarding = true; guarded_id = i }, sw')

  unfoldable reserve_id_of : ObjType → ℕ → ℕ → Switch G O → Result (Bool × Switch G O)
  unfolding reserve_table_id reserve_entry_id_in_table reserve_counter_id_in_table
  reserve_id_of table_obj t i sw = reserve_table_id i sw
  reserve_id_of entry_obj t i sw = reserve_entry_id_in_table t i sw
  reserve_id_of counter_obj t i sw = reserve_counter_id_in_table t i sw
  reserve_id_of other_obj t i sw = err fail

  unfoldable pub reserve_guarded_id :
      ℕ → IdGuard → Switch G O → Result (Bool × IdGuard × Switch G O)
  unfolding reserve_id_of
  reserve_guarded_id i g sw = do
    (unused, sw') ← reserve_id_of g.obj_type g.table_id i sw
    ok (unused, (if unused then record g { guarding = true; guarded_id = i } else g), sw')

  unfoldable release_id_of : ObjType → ℕ → ℕ → Switch G O → Result (Switch G O)
  unfolding release_table_id release_entry_id_in_table release_counter_id_in_table
  release_id_of table_obj t i sw = ok (release_table_id i sw)
  release_id_of entry_obj t i sw = release_entry_id_in_table t i sw
  release_id_of counter_obj t i sw = release_counter_id_in_table t i sw
  release_id_of other_obj t i sw = ok sw

  -- The destructor.
  unfoldable pub destroy_guard : IdGuard → Switch G O → Result (Switch G O)
  unfolding release_id_of
  destroy_guard g sw =
      if g.guarding then release_id_of g.obj_type g.table_id g.guarded_id sw else ok sw
