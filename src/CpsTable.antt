-- ===== src/CpsTable.antt =====
-- src/nas_acl_cps_table.cpp: the requests for tables. The switch is the one that nas_acl_get_switch
-- returns; the methods of the base class that commit to the NPUs are arguments.
pub mod Taking
pub mod Created
pub mod Failing
pub mod Deleted
pub mod Undone
use Prim.Native.String.{String}
use sonic_nas_acl.Base.{
  ℕ, nat_eq, Bool, true, false, not, Option, none, some, List, [], ◌∷◌, map, ◌&&◌, ◌==◌,
  if◌then◌else◌,
}
use sonic_nas_acl.CpsApi.{CpsApi, CpsAttr, u32, AttrId, named, attr_id_eq}
use sonic_nas_acl.CpsEnv.{CpsEnv}
use sonic_nas_acl.CpsKey.{nas_acl_cps_key_get_obj_id, nas_acl_cps_key_set_obj_id}
use sonic_nas_acl.Env.{BaseObj, IdGenerator}
use sonic_nas_acl.IdGuard.{IdGuard, new_guard, table_obj}
use sonic_nas_acl.Map.{put}
use sonic_nas_acl.NasTable.{
  set_stage, set_priority, set_allowed_filter, add_npu, set_table_id, commit_create, commit_delete,
}
use sonic_nas_acl.Object.{Table, new_table}
use sonic_nas_acl.Request.{Handled, caught, take_id, unwind}
use sonic_nas_acl.Result.{Result, ok, err, ◌>>=◌, ◌>>◌, guard, duplicate, key_val, missing_key}
use sonic_nas_acl.Switch.{Switch, find_table, get_table, save_table, remove_table}

-- The table that a request describes so far, and the attributes that it may have only once.
pub record Parsed (O : Type 0) : Type 0 where
  pub table : Table O
  pub is_stage_present : Bool
  pub is_priority_present : Bool

-- The attributes that the switch statement tells apart.
pub data TableAttr : Type 0 where
  stage priority allowed_match_fields npu_id_list unknown : TableAttr

unfoldable pub table_attr : AttrId → TableAttr
table_attr id =
    if id == named "BASE_ACL_TABLE_STAGE"
    then stage
    else if id == named "BASE_ACL_TABLE_PRIORITY"
    then priority
    else if id == named "BASE_ACL_TABLE_ALLOWED_MATCH_FIELDS"
    then allowed_match_fields
    else if id == named "BASE_ACL_TABLE_NPU_ID_LIST"
    then npu_id_list
    else unknown

module _ {G O : Type 0} ⦃b : BaseObj O⦄ (env : CpsEnv) (sw : Switch G O) where
  -- One round of the loop over the attributes, for the value of an attribute.
  unfoldable pub parse_attr : TableAttr → ℕ → Parsed O → Result (Parsed O)
  unfolding set_stage set_priority set_allowed_filter add_npu
  parse_attr stage n p = do
    guard (not p.is_stage_present) duplicate
    let (t, done) = set_stage (env.stage_of n) p.table
    done >> ok (record p { table = t; is_stage_present = true })
  parse_attr priority n p = do
    guard (not p.is_priority_present) duplicate
    t ← set_priority n p.table
    ok (record p { table = t; is_priority_present = true })
  parse_attr allowed_match_fields n p = do
    t ← set_allowed_filter env.filter_env.consts (env.match_of n) p.table
    ok (record p { table = t })
  parse_attr npu_id_list n p = do t ← add_npu n true p.table sw; ok (record p { table = t })
  parse_attr unknown n p = ok p

  unfoldable pub parse_attrs : List (AttrId × CpsAttr) → Parsed O → Result (Parsed O)
  unfolding table_attr parse_attr
  parse_attrs [] p = ok p
  parse_attrs ((id, a) ∷ rest) p = do p' ← parse_attr (table_attr id) a.u32 p; parse_attrs rest p'

module _ {Ob : Type 0} ⦃api : CpsApi Ob⦄ where
  unfoldable pub cps_key_fill : {O : Type 0} → Ob → Table O → Ob
  unfolding nas_acl_cps_key_set_obj_id
  cps_key_fill ob t = (nas_acl_cps_key_set_obj_id ob "BASE_ACL_TABLE_ID" t.table_id).1

  -- One attribute for each number, as long as they are added.
  unfoldable pub add_u32s : String → List ℕ → Ob → Bool × Ob
  add_u32s id [] ob = (true, ob)
  add_u32s id (n ∷ ns) ob =
      let (added, ob') = api.attr_add ob id (u32 n) in
      let rest = add_u32s id ns ob' in if added then rest else (false, ob')

  -- `if (!f (obj)) return false;` before the rest.
  abbrev pub and_then : Bool × Ob → (Ob → Bool × Ob) → Bool × Ob
  and_then (true, ob) rest = rest ob
  and_then (false, ob) rest = (false, ob)

module _ {Ob O : Type 0} ⦃api : CpsApi Ob⦄ ⦃b : BaseObj O⦄ (env : CpsEnv)
    (following_switch_npus : Table O → Bool) where
  unfoldable pub nas_acl_fill_table_npu_list : Table O → Bool → Ob → Bool × Ob
  unfolding add_u32s
  nas_acl_fill_table_npu_list t explicit_npu_list ob =
      if following_switch_npus t && not explicit_npu_list
      then (true, ob)
      else add_u32s "BASE_ACL_TABLE_NPU_ID_LIST" (b.npu_list t.base) ob

  unfoldable pub nas_acl_fill_table_allowed_fields : Table O → Ob → Bool × Ob
  unfolding add_u32s
  nas_acl_fill_table_allowed_fields t =
      add_u32s "BASE_ACL_TABLE_ALLOWED_MATCH_FIELDS" (map env.match_number t.allowed_filters)

  unfoldable pub nas_acl_fill_table_attr_info : Table O → Bool → Ob → Bool × Ob
  unfolding nas_acl_fill_table_npu_list nas_acl_fill_table_allowed_fields
  nas_acl_fill_table_attr_info t explicit_npu_list ob =
      and_then (api.attr_add ob "BASE_ACL_TABLE_STAGE" (u32 (env.stage_number t.stage))) (λ ob1.
        and_then (api.attr_add ob1 "BASE_ACL_TABLE_PRIORITY" (u32 t.priority)) (λ ob2.
          and_then (nas_acl_fill_table_allowed_fields t ob2)
            (nas_acl_fill_table_npu_list t explicit_npu_list)))

module _ {Ob G O : Type 0} ⦃api : CpsApi Ob⦄ ⦃gen : IdGenerator G⦄ ⦃b : BaseObj O⦄ (env : CpsEnv)
    (obj prev : Ob) (is_rollbk_op : Bool) (sw : Switch G O) where
  abbrev answer : Result (Unit {0}) → Handled Ob G O
  answer rc = record { rc = rc; obj = obj; prev = prev; sw = sw }

  -- The table is committed: it is stored, and the keys are filled.
  unfoldable pub table_created : ℕ → Table O → Switch G O → Handled Ob G O
  unfolding save_table nas_acl_cps_key_set_obj_id cps_key_fill
  table_created table_id t sw' =
      let obj' = (nas_acl_cps_key_set_obj_id obj "BASE_ACL_TABLE_ID" table_id).1 in
      record {
        rc = ok tt;
        obj = obj';
        prev = if is_rollbk_op then prev else cps_key_fill (api.copy_key prev obj') t;
        sw = save_table t sw';
      }

  -- With the id and its guard: set_table_id and commit_create.
  unfoldable pub table_commit :
      (Table O → Result (Table O)) → Table O → ℕ → IdGuard → Switch G O → Handled Ob G O
  unfolding unwind set_table_id commit_create table_created
  table_commit base_commit tmp_table table_id idg sw' =
      elim (set_table_id table_id tmp_table >>= commit_create base_commit) [
        | err x ↦ unwind obj prev idg sw' x
        | ok t ↦ table_created t.table_id t sw'
      ]

  unfoldable pub table_parsed : (Table O → Result (Table O)) → Option ℕ → Table O → Handled Ob G O
  unfolding take_id unwind table_commit
  table_parsed base_commit passed tmp_table = elim (take_id passed (new_guard table_obj 0) sw) [
    | err x ↦ unwind obj prev (new_guard table_obj 0) sw x
    | ok (table_id, idg, sw') ↦ table_commit base_commit tmp_table table_id idg sw'
  ]

  -- Whether the id that is passed in belongs to a table already.
  unfoldable pub table_taken : Option ℕ → Bool
  unfolding find_table
  table_taken none = false
  table_taken (some i) = elim (find_table i sw) [ none ↦ false | some _ ↦ true ]

  unfoldable pub nas_acl_table_create : (Table O → Result (Table O)) → Handled Ob G O
  unfolding nas_acl_cps_key_get_obj_id table_taken parse_attrs table_parsed
  nas_acl_table_create base_commit =
      let passed = nas_acl_cps_key_get_obj_id obj "BASE_ACL_TABLE_ID" in
      if table_taken passed
      then answer (err key_val)
      else elim (parse_attrs env sw (api.attrs obj)
          (record { table = new_table; is_stage_present = false; is_priority_present = false })) [
            | err x ↦ answer (err (caught x))
            | ok p ↦ table_parsed base_commit passed p.table
          ]

  -- The handler's work on a stored table: a commit that fails may have changed it.
  unfoldable pub delete_table :
      (Table O → Bool) → (Table O → Table O × Result (Unit {0})) → ℕ → Table O → Handled Ob G O
  unfolding cps_key_fill nas_acl_fill_table_attr_info commit_delete remove_table
  delete_table following_switch_npus base_commit table_id curr_table =
      let prev' =
        (if is_rollbk_op
          then prev
          else (nas_acl_fill_table_attr_info env following_switch_npus curr_table false
              (cps_key_fill (api.copy_key prev obj) curr_table)).1) in
      let (left, done) = commit_delete base_commit curr_table sw in
      elim done [
        | err x ↦ record {
          rc = err (caught x);
          obj = obj;
          prev = prev';
          sw = record sw { tables = put table_id left sw.tables };
        }
        | ok _ ↦ record { rc = ok tt; obj = obj; prev = prev'; sw = remove_table table_id sw }
      ]

  unfoldable pub nas_acl_table_delete :
      (Table O → Bool) → (Table O → Table O × Result (Unit {0})) → Handled Ob G O
  unfolding nas_acl_cps_key_get_obj_id get_table delete_table
  nas_acl_table_delete following_switch_npus base_commit =
      elim (nas_acl_cps_key_get_obj_id obj "BASE_ACL_TABLE_ID") [
        | none ↦ answer (err missing_key)
        | some table_id ↦ elim (get_table table_id sw) [
          | err x ↦ answer (err (caught x))
          | ok curr_table ↦ delete_table following_switch_npus base_commit table_id curr_table
        ]
      ]
