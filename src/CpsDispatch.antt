-- ===== src/CpsDispatch.antt =====
-- src/nas_acl_cps.cpp and the operation maps of the handlers: which handler a request reaches.
pub mod Rollback
use sonic_nas_acl.Base.{Bool, true, false, not, Option, none, some, if◌then◌else◌}
use sonic_nas_acl.CpsApi.{CpsApi}
use sonic_nas_acl.CpsCounter.{nas_acl_counter_create, nas_acl_counter_delete}
use sonic_nas_acl.CpsEntry.{CpsOp, create, set, delete, other_op, EntryBase}
use sonic_nas_acl.CpsEntry.Write.{nas_acl_entry_create, nas_acl_entry_modify, nas_acl_entry_delete}
use sonic_nas_acl.CpsEnv.{CpsEnv}
use sonic_nas_acl.CpsStats.{nas_acl_stats_set}
use sonic_nas_acl.CpsTable.{nas_acl_table_create, nas_acl_table_delete}
use sonic_nas_acl.Env.{BaseObj, IdGenerator}
use sonic_nas_acl.Ndi.{Ndi}
use sonic_nas_acl.Object.{Table, Counter}
use sonic_nas_acl.Request.{Handled}
use sonic_nas_acl.Result.{Result, err, Error, unsupported, mem}
use sonic_nas_acl.Switch.{Switch}

-- The base class of each object; a commit has the argument `rolling_back`.
pub record Bases (O : Type 0) : Type 0 where
  pub following_switch_npus : Table O → Bool
  pub table_create : Bool → Table O → Result (Table O)
  pub table_delete : Bool → Table O → Table O × Result (Unit {0})
  pub counter_create : Bool → Counter O → Result (Counter O)
  pub counter_delete : Bool → Counter O → Counter O × Result (Unit {0})
  pub entry : Bool → EntryBase O

-- The key of an object: its category, its sub-category and its operation.
pub data SubCategory : Type 0 where
  table_sub entry_sub counter_sub stats_sub other_sub : SubCategory

pub record Key : Type 0 where
  pub is_base_acl : Bool
  pub sub_category : SubCategory
  pub op : CpsOp

-- The functions of the operation maps.
pub data WriteFn : Type 0 where
  table_create table_delete entry_create entry_modify entry_delete : WriteFn
  counter_create counter_delete stats_set : WriteFn

unfoldable pub nas_acl_get_table_operation_map : CpsOp → Option WriteFn
nas_acl_get_table_operation_map create = some WriteFn.table_create
nas_acl_get_table_operation_map delete = some WriteFn.table_delete
nas_acl_get_table_operation_map _ = none

unfoldable pub nas_acl_get_entry_operation_map : CpsOp → Option WriteFn
nas_acl_get_entry_operation_map create = some entry_create
nas_acl_get_entry_operation_map set = some entry_modify
nas_acl_get_entry_operation_map delete = some entry_delete
nas_acl_get_entry_operation_map other_op = none

unfoldable pub nas_acl_get_counter_operation_map : CpsOp → Option WriteFn
nas_acl_get_counter_operation_map create = some WriteFn.counter_create
nas_acl_get_counter_operation_map delete = some WriteFn.counter_delete
nas_acl_get_counter_operation_map _ = none

unfoldable pub nas_acl_get_stats_op_map : CpsOp → Option WriteFn
nas_acl_get_stats_op_map set = some stats_set
nas_acl_get_stats_op_map _ = none

unfoldable pub operation_map : SubCategory → CpsOp → Option WriteFn
unfolding nas_acl_get_table_operation_map nas_acl_get_entry_operation_map
    nas_acl_get_counter_operation_map nas_acl_get_stats_op_map
operation_map table_sub op = nas_acl_get_table_operation_map op
operation_map entry_sub op = nas_acl_get_entry_operation_map op
operation_map counter_sub op = nas_acl_get_counter_operation_map op
operation_map stats_sub op = nas_acl_get_stats_op_map op
operation_map other_sub op = none

-- Statistics have no previous state.
unfoldable pub saves_prev : SubCategory → Bool → Bool
saves_prev stats_sub rollback = false
saves_prev _ rollback = not rollback

module _ {Ob G O W : Type 0} ⦃api : CpsApi Ob⦄ ⦃gen : IdGenerator G⦄ ⦃b : BaseObj O⦄ ⦃n : Ndi W⦄
    (env : CpsEnv) (bases : Bases O) (obj : Ob) (sw : Switch G O) (w : W) where
  -- Under the lock of the module.
  unfoldable pub nas_acl_exec_write_op : WriteFn → Ob → Bool → Handled Ob G O × W
  unfolding nas_acl_table_create nas_acl_table_delete nas_acl_entry_create nas_acl_entry_modify
      nas_acl_entry_delete nas_acl_counter_create nas_acl_counter_delete nas_acl_stats_set
  nas_acl_exec_write_op WriteFn.table_create prev rb =
      (nas_acl_table_create env obj prev rb sw (bases.table_create rb), w)
  nas_acl_exec_write_op WriteFn.table_delete prev rb = (
    nas_acl_table_delete env obj prev rb sw bases.following_switch_npus (bases.table_delete rb),
    w,
  )
  nas_acl_exec_write_op entry_create prev rb =
      (nas_acl_entry_create env (bases.entry rb) obj prev rb sw, w)
  nas_acl_exec_write_op entry_modify prev rb =
      (nas_acl_entry_modify env (bases.entry rb) obj prev rb sw, w)
  nas_acl_exec_write_op entry_delete prev rb =
      (nas_acl_entry_delete env (bases.entry rb) obj prev rb sw, w)
  nas_acl_exec_write_op WriteFn.counter_create prev rb =
      (nas_acl_counter_create env obj prev rb sw (bases.counter_create rb), w)
  nas_acl_exec_write_op WriteFn.counter_delete prev rb =
      (nas_acl_counter_delete env obj prev rb sw (bases.counter_delete rb), w)
  nas_acl_exec_write_op stats_set prev rb =
      let (rc, w') = nas_acl_stats_set obj sw w in
      (record { rc = rc; obj = obj; prev = prev; sw = sw }, w')

  abbrev refused : Error → Handled Ob G O × W
  refused x = (record { rc = err x; obj = obj; prev = obj; sw = sw }, w)

  -- `new_prev` is what cps_api_object_list_create_obj_and_append gives, with `none` for NULL. Where
  -- no previous state is saved the handler gets NULL and does not use it; `obj` stands for that.
  unfoldable pub write_with : WriteFn → Bool → Bool → Option Ob → Handled Ob G O × W
  unfolding nas_acl_exec_write_op
  write_with fn false rollback new_prev = nas_acl_exec_write_op fn obj rollback
  write_with fn true rollback none = refused mem
  write_with fn true rollback (some prev) = nas_acl_exec_write_op fn prev rollback

  unfoldable pub nas_acl_cps_api_write_internal :
      Key → CpsOp → Bool → Option Ob → Handled Ob G O × W
  unfolding operation_map saves_prev write_with
  nas_acl_cps_api_write_internal key op rollback new_prev =
      if key.is_base_acl
      then (elim (operation_map key.sub_category op) [
        | none ↦ refused unsupported
        | some fn ↦ write_with fn (saves_prev key.sub_category rollback) rollback new_prev
      ])
      else refused unsupported

  unfoldable pub nas_acl_cps_api_write : Key → Option Ob → Handled Ob G O × W
  unfolding nas_acl_cps_api_write_internal
  nas_acl_cps_api_write key new_prev = nas_acl_cps_api_write_internal key key.op false new_prev

-- The operation that undoes one.
unfoldable pub undo_op : CpsOp → CpsOp
undo_op create = delete
undo_op delete = create
undo_op op = op

module _ {Ob G O W : Type 0} ⦃api : CpsApi Ob⦄ ⦃gen : IdGenerator G⦄ ⦃b : BaseObj O⦄ ⦃n : Ndi W⦄
    (env : CpsEnv) (bases : Bases O) (obj : Ob) (sw : Switch G O) (w : W) where
  -- `obj` is the saved previous object.
  unfoldable pub nas_acl_cps_api_rollback : Key → Handled Ob G O × W
  unfolding undo_op nas_acl_cps_api_write_internal
  nas_acl_cps_api_rollback key =
      nas_acl_cps_api_write_internal env bases obj sw w key (undo_op key.op) true none
