-- ===== src/CpsCounter.antt =====
-- src/nas_acl_cps_counter.cpp: the requests for counters. The switch is the one that
-- nas_acl_get_switch returns; the methods of the base class that commit to the NPUs are arguments.
pub mod Taking
pub mod Created
pub mod Deleted
pub mod Unused
use Prim.Native.String.{String}
use sonic_nas_acl.Base.{
  ℕ, Bool, true, false, ◌&&◌, not, Option, none, some, List, [], ◌∷◌, ◌==◌, if◌then◌else◌,
}
use sonic_nas_acl.CpsApi.{CpsApi, CpsAttr, u32, AttrId, named, attr_id_eq}
use sonic_nas_acl.CpsEnv.{CpsEnv}
use sonic_nas_acl.CpsKey.{nas_acl_cps_key_get_obj_id, nas_acl_cps_key_set_obj_id}
use sonic_nas_acl.CpsTable.{add_u32s, and_then}
use sonic_nas_acl.Env.{BaseObj, IdGenerator}
use sonic_nas_acl.IdGuard.{IdGuard, new_guard, counter_obj, unguard}
use sonic_nas_acl.NasCounter.{set_type, add_npu, set_counter_id, commit_create, commit_delete}
use sonic_nas_acl.Object.{Table, Counter, new_counter, packet, byte}
use sonic_nas_acl.Request.{Handled, caught, take_id, unwind}
use sonic_nas_acl.Result.{Result, ok, err, Error, ◌>>=◌, ◌>>◌, guard, missing_key}
use sonic_nas_acl.Switch.{Switch, find_counter, get_table, get_counter}
use sonic_nas_acl.Switch.Entries.{put_counter, save_counter, remove_counter_from_table}

-- The attributes that the switch statement tells apart.
pub data CounterAttr : Type 0 where
  types npu_id_list unknown : CounterAttr

unfoldable pub counter_attr : AttrId → CounterAttr
counter_attr id =
    if id == named "BASE_ACL_COUNTER_TYPES"
    then types
    else if id == named "BASE_ACL_COUNTER_NPU_ID_LIST"
    then npu_id_list
    else unknown

module _ {O : Type 0} ⦃b : BaseObj O⦄ (env : CpsEnv) where
  unfoldable pub parse_attr : CounterAttr → ℕ → Counter O → Result (Counter O)
  unfolding set_type add_npu
  parse_attr types n k = let (k', done) = set_type (env.counter_type_of n) true k in done >> ok k'
  parse_attr npu_id_list n k = ok (add_npu n true k)
  parse_attr unknown n k = ok k

  unfoldable pub parse_attrs : List (AttrId × CpsAttr) → Counter O → Result (Counter O)
  unfolding counter_attr parse_attr
  parse_attrs [] k = ok k
  parse_attrs ((id, a) ∷ rest) k = do k' ← parse_attr (counter_attr id) a.u32 k; parse_attrs rest k'

module _ {Ob : Type 0} ⦃api : CpsApi Ob⦄ where
  -- `if (enabled) { add the type }`
  abbrev add_type : Bool → ℕ → Ob → Bool × Ob
  add_type enabled n ob =
      if enabled then api.attr_add ob "BASE_ACL_COUNTER_TYPES" (u32 n) else (true, ob)

module _ {Ob O : Type 0} ⦃api : CpsApi Ob⦄ where
  unfoldable pub cps_key_fill : Ob → Counter O → Bool × Ob
  unfolding nas_acl_cps_key_set_obj_id
  cps_key_fill ob k =
      and_then (nas_acl_cps_key_set_obj_id ob "BASE_ACL_COUNTER_TABLE_ID" k.table_id)
        (λ ob'. nas_acl_cps_key_set_obj_id ob' "BASE_ACL_COUNTER_ID" k.counter_id)

module _ {Ob O : Type 0} ⦃api : CpsApi Ob⦄ ⦃b : BaseObj O⦄ (env : CpsEnv) where
  unfoldable pub fill_counter_npu_list : Counter O → Bool → Ob → Bool × Ob
  unfolding add_u32s
  fill_counter_npu_list k explicit_npu_list ob =
      if k.following_table_npus && not explicit_npu_list
      then (true, ob)
      else add_u32s "BASE_ACL_COUNTER_NPU_ID_LIST" (b.npu_list k.base) ob

  unfoldable pub fill_counter_attr_info : Counter O → Bool → Ob → Bool × Ob
  unfolding fill_counter_npu_list
  fill_counter_attr_info k explicit_npu_list ob =
      and_then (add_type k.enable_pkt_count (env.counter_type_number packet) ob) (λ ob1.
        and_then (add_type k.enable_byte_count (env.counter_type_number byte) ob1)
          (fill_counter_npu_list k explicit_npu_list))

module _ {Ob G O : Type 0} ⦃api : CpsApi Ob⦄ ⦃gen : IdGenerator G⦄ ⦃b : BaseObj O⦄ (env : CpsEnv)
    (obj prev : Ob) (is_rollbk_op : Bool) (sw : Switch G O) where
  abbrev answer : Result (Unit {0}) → Handled Ob G O
  answer rc = record { rc = rc; obj = obj; prev = prev; sw = sw }

  -- The counter is committed: it is stored, and the keys are filled. save_counter is noexcept.
  unfoldable pub counter_created : Counter O → Switch G O → Handled Ob G O
  unfolding save_counter nas_acl_cps_key_set_obj_id cps_key_fill
  counter_created k sw' = elim (save_counter k sw') [
    | err x ↦ record { rc = err x; obj = obj; prev = prev; sw = sw' }
    | ok sw'' ↦
        let obj' = (nas_acl_cps_key_set_obj_id obj "BASE_ACL_COUNTER_ID" k.counter_id).1 in
        record {
          rc = ok tt;
          obj = obj';
          prev = if is_rollbk_op then prev else (cps_key_fill (api.copy_key prev obj') k).1;
          sw = sw'';
        }
  ]

  unfoldable pub counter_commit :
      (Counter O → Result (Counter O))
      → Table O
      → Counter O
      → ℕ
      → IdGuard
      → Switch G O
      → Handled Ob G O
  unfolding unwind set_counter_id commit_create counter_created
  counter_commit base_commit table tmp_counter counter_id idg sw' =
      elim (set_counter_id counter_id tmp_counter >>= commit_create base_commit table) [
        | err x ↦ unwind obj prev idg sw' x
        | ok k ↦ counter_created k sw'
      ]

  unfoldable pub counter_parsed :
      (Counter O → Result (Counter O)) → ℕ → Table O → Option ℕ → Counter O → Handled Ob G O
  unfolding take_id unwind counter_commit
  counter_parsed base_commit table_id table passed tmp_counter =
      elim (take_id passed (new_guard counter_obj table_id) sw) [
        | err x ↦ unwind obj prev (new_guard counter_obj table_id) sw x
        | ok (counter_id, idg, sw') ↦
            counter_commit base_commit table tmp_counter counter_id idg sw'
      ]

  unfoldable pub counter_taken : ℕ → Option ℕ → Bool
  unfolding find_counter
  counter_taken table_id none = false
  counter_taken table_id (some i) = elim (find_counter table_id i sw) [
    | none ↦ false
    | some _ ↦ true
  ]

  -- In a table that exists. A counter starts with the id of the table object.
  unfoldable pub create_counter_in : (Counter O → Result (Counter O)) → ℕ → Table O → Handled Ob G O
  unfolding nas_acl_cps_key_get_obj_id counter_taken parse_attrs counter_parsed
  create_counter_in base_commit table_id table =
      let passed = nas_acl_cps_key_get_obj_id obj "BASE_ACL_COUNTER_ID" in
      if counter_taken table_id passed
      then answer (err missing_key)
      else elim (parse_attrs env (api.attrs obj) (new_counter table.table_id)) [
        | err x ↦ answer (err (caught x))
        | ok k ↦ counter_parsed base_commit table_id table passed k
      ]

  unfoldable pub nas_acl_counter_create : (Counter O → Result (Counter O)) → Handled Ob G O
  unfolding nas_acl_cps_key_get_obj_id get_table create_counter_in
  nas_acl_counter_create base_commit =
      elim (nas_acl_cps_key_get_obj_id obj "BASE_ACL_COUNTER_TABLE_ID") [
        | none ↦ answer (err missing_key)
        | some table_id ↦ elim (get_table table_id sw) [
          | err x ↦ answer (err (caught x))
          | ok table ↦ create_counter_in base_commit table_id table
        ]
      ]

  -- The handler's work on a stored counter: a commit that fails may have changed it.
  -- remove_counter_from_table is noexcept.
  unfoldable pub delete_counter :
      (Counter O → Counter O × Result (Unit {0})) → ℕ → ℕ → Counter O → Handled Ob G O
  unfolding cps_key_fill fill_counter_attr_info commit_delete put_counter remove_counter_from_table
  delete_counter base_commit table_id counter_id k =
      let prev' =
        (if is_rollbk_op
          then prev
          else (fill_counter_attr_info env k false (cps_key_fill (api.copy_key prev obj) k).1).1) in
      let (left, done) = commit_delete base_commit k in
      elim done [
        | err x ↦ record {
          rc = err (caught x);
          obj = obj;
          prev = prev';
          sw = put_counter table_id counter_id left sw;
        }
        | ok _ ↦ elim (remove_counter_from_table table_id counter_id sw) [
          | err x ↦ record { rc = err x; obj = obj; prev = prev'; sw = sw }
          | ok sw' ↦ record { rc = ok tt; obj = obj; prev = prev'; sw = sw' }
        ]
      ]

  unfoldable pub delete_counter_of :
      (Counter O → Counter O × Result (Unit {0})) → ℕ → ℕ → Handled Ob G O
  unfolding get_counter delete_counter
  delete_counter_of base_commit table_id counter_id = elim (get_counter table_id counter_id sw) [
    | err x ↦ answer (err (caught x))
    | ok k ↦ delete_counter base_commit table_id counter_id k
  ]

  unfoldable pub nas_acl_counter_delete :
      (Counter O → Counter O × Result (Unit {0})) → Handled Ob G O
  unfolding nas_acl_cps_key_get_obj_id delete_counter_of
  nas_acl_counter_delete base_commit =
      elim (nas_acl_cps_key_get_obj_id obj "BASE_ACL_COUNTER_TABLE_ID") [
        | none ↦ answer (err missing_key)
        | some table_id ↦ elim (nas_acl_cps_key_get_obj_id obj "BASE_ACL_COUNTER_ID") [
          | none ↦ answer (err missing_key)
          | some counter_id ↦ delete_counter_of base_commit table_id counter_id
        ]
      ]
