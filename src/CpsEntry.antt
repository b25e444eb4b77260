-- ===== src/CpsEntry.antt =====
-- src/nas_acl_cps_entry.cpp: the keys and the attributes of a request for an entry. What the base
-- class of an entry does is an argument.
pub mod Update
pub mod Write
use Prim.Native.String.{String}
use sonic_nas_acl.Base.{
  ℕ, Bool, true, false, ◌&&◌, not, Option, none, some, List, [], ◌∷◌, ◌==◌, if◌then◌else◌,
}
use sonic_nas_acl.CpsApi.{CpsApi, CpsAttr, u32, AttrId, named, attr_id_eq}
use sonic_nas_acl.CpsAction.{nas_acl_set_action_list, nas_acl_fill_action_attr_list}
use sonic_nas_acl.CpsEnv.{CpsEnv}
use sonic_nas_acl.CpsFilter.{nas_acl_set_match_list, nas_acl_fill_match_attr_list}
use sonic_nas_acl.CpsKey.{
  nas_acl_cps_key_get_obj_id, nas_acl_cps_key_set_obj_id, nas_acl_cps_key_get_u32,
  nas_acl_cps_key_set_u32,
}
use sonic_nas_acl.CpsTable.{add_u32s, and_then}
use sonic_nas_acl.Env.{BaseObj, Attr, entry_priority, entry_match, entry_action, other_attr}
use sonic_nas_acl.NasEntry.{set_priority, add_npu, npu_list}
use sonic_nas_acl.Object.{Table, Entry}
use sonic_nas_acl.Result.{Result, ok, err, ◌>>=◌, ◌>>◌, guard, missing_key, duplicate}
use sonic_nas_acl.Switch.{Switch, get_table}
use sonic_nas_acl.Types.{MatchType, ActionType}

-- The operation of a request.
pub data CpsOp : Type 0 where
  create set delete other_op : CpsOp

-- nas::base_obj_t for entries: what commits to the NPUs, the copy of an entry, the attributes that
-- are set in an entry, and those that a commit_modify of an old and a new entry reports.
pub record EntryBase (O : Type 0) : Type 0 where
  pub commit_create : Entry O → Result (Entry O)
  pub commit_modify : Entry O → Entry O → Result (Entry O)
  pub commit_delete : Entry O → Entry O × Result (Unit {0})
  pub copy : Entry O → Entry O
  pub set_attr_list : Entry O → List Attr
  pub mod_attrs : Entry O → Entry O → List Attr

pub record EntryKey : Type 0 where
  pub table_id : Option ℕ
  pub entry_id : Option ℕ
  pub ftype : Option MatchType
  pub atype : Option ActionType

-- A request for one filter or one action of an entry.
pub data Part : Type 0 where
  match_part : MatchType → Part
  action_part : ActionType → Part

-- `is_incr_upd` is that there is a part.
pub record OpKey (O : Type 0) : Type 0 where
  pub table : Table O
  pub eid : Option ℕ
  pub part : Option Part

abbrev map_option : {A B : Type 0} → (A → B) → Option A → Option B
map_option f none = none
map_option f (some a) = some (f a)

module _ {Ob : Type 0} ⦃api : CpsApi Ob⦄ where
  unfoldable pub cps_extract_key : CpsEnv → Ob → EntryKey
  unfolding nas_acl_cps_key_get_obj_id nas_acl_cps_key_get_u32
  cps_extract_key env ob = record {
    table_id = nas_acl_cps_key_get_obj_id ob "BASE_ACL_ENTRY_TABLE_ID";
    entry_id = nas_acl_cps_key_get_obj_id ob "BASE_ACL_ENTRY_ID";
    ftype = map_option env.match_of (nas_acl_cps_key_get_u32 ob "BASE_ACL_ENTRY_MATCH_TYPE");
    atype = map_option env.action_of (nas_acl_cps_key_get_u32 ob "BASE_ACL_ENTRY_ACTION_TYPE");
  }

  unfoldable pub cps_key_fill : {O : Type 0} → Ob → Entry O → Bool × Ob
  unfolding nas_acl_cps_key_set_obj_id
  cps_key_fill ob e =
      and_then (nas_acl_cps_key_set_obj_id ob "BASE_ACL_ENTRY_TABLE_ID" e.table_id)
        (λ ob'. nas_acl_cps_key_set_obj_id ob' "BASE_ACL_ENTRY_ID" e.entry_id)

  unfoldable pub cps_filter_upd_key_fill :
      {O : Type 0} → CpsEnv → Ob → Entry O → MatchType → Bool × Ob
  unfolding cps_key_fill nas_acl_cps_key_set_u32
  cps_filter_upd_key_fill env ob e ftype =
      and_then (cps_key_fill ob e)
        (λ ob'. nas_acl_cps_key_set_u32 ob' "BASE_ACL_ENTRY_MATCH_TYPE" (env.match_number ftype))

  unfoldable pub cps_action_upd_key_fill :
      {O : Type 0} → CpsEnv → Ob → Entry O → ActionType → Bool × Ob
  unfolding cps_key_fill nas_acl_cps_key_set_u32
  cps_action_upd_key_fill env ob e atype =
      and_then (cps_key_fill ob e)
        (λ ob'. nas_acl_cps_key_set_u32 ob' "BASE_ACL_ENTRY_ACTION_TYPE" (env.action_number atype))

-- The match type comes before the action type.
unfoldable pub part_of : EntryKey → Option Part
part_of key = elim key.ftype [
  | some ftype ↦ some (match_part ftype)
  | none ↦ map_option action_part key.atype
]

unfoldable pub op_key_of : {O : Type 0} → EntryKey → Table O → OpKey O
unfolding part_of
op_key_of key t = elim key.entry_id [
  | none ↦ record { table = t; eid = none; part = none }
  | some eid ↦ record { table = t; eid = some eid; part = part_of key }
]

unfoldable pub cps_op_key_extract :
    {Ob G O : Type 0} ⦃api : CpsApi Ob⦄ → CpsEnv → Ob → Switch G O → Result (OpKey O)
unfolding cps_extract_key get_table op_key_of
cps_op_key_extract env ob sw =
    let key = cps_extract_key env ob in
    elim key.table_id [
      | none ↦ err missing_key
      | some table_id ↦ (do t ← get_table table_id sw; ok (op_key_of key t))
    ]

-- The attributes that the switch statement tells apart.
pub data EntryAttr : Type 0 where
  priority match_list action_list npu_id_list unknown : EntryAttr

unfoldable pub entry_attr : AttrId → EntryAttr
entry_attr id =
    if id == named "BASE_ACL_ENTRY_PRIORITY"
    then priority
    else if id == named "BASE_ACL_ENTRY_MATCH"
    then match_list
    else if id == named "BASE_ACL_ENTRY_ACTION"
    then action_list
    else if id == named "BASE_ACL_ENTRY_NPU_ID_LIST"
    then npu_id_list
    else unknown

-- An exception: the entry as it was left is not used any more.
abbrev pub settled : {O : Type 0} → Entry O × Result (Unit {0}) → Result (Entry O)
settled (e, r) = r >> ok e

module _ {Ob G O : Type 0} ⦃api : CpsApi Ob⦄ ⦃b : BaseObj O⦄ (env : CpsEnv) (ob : Ob) (t : Table O)
    (sw : Switch G O) where
  -- With `npu_modified`.
  unfoldable pub parse_attr : EntryAttr → CpsAttr → Entry O → Bool → Result (Entry O × Bool)
  unfolding set_priority nas_acl_set_match_list nas_acl_set_action_list add_npu
  parse_attr priority a e modified = do
    guard (not (b.is_attr_dirty entry_priority e.base)) duplicate
    ok (set_priority a.u32 e, modified)
  parse_attr match_list a e modified = do
    e' ← settled (nas_acl_set_match_list env ob t a e)
    ok (e', modified)
  parse_attr action_list a e modified = do
    e' ← settled (nas_acl_set_action_list env ob sw a e)
    ok (e', modified)
  parse_attr npu_id_list a e modified = ok (add_npu a.u32 true e, true)
  parse_attr unknown a e modified = ok (e, modified)

  unfoldable pub cps_parse_attrs :
      List (AttrId × CpsAttr) → Entry O → Bool → Result (Entry O × Bool)
  unfolding entry_attr parse_attr
  cps_parse_attrs [] e modified = ok (e, modified)
  cps_parse_attrs ((id, a) ∷ rest) e modified = do
    (e', modified') ← parse_attr (entry_attr id) a e modified
    cps_parse_attrs rest e' modified'

  unfoldable pub cps_parse_entry_obj : Entry O → Result (Entry O × Bool)
  unfolding cps_parse_attrs
  cps_parse_entry_obj e = cps_parse_attrs (api.attrs ob) e false

module _ {Ob O : Type 0} ⦃api : CpsApi Ob⦄ ⦃b : BaseObj O⦄ (env : CpsEnv) (e : Entry O) where
  unfoldable pub nas_acl_fill_entry_npu_list : Bool → Ob → Bool × Ob
  unfolding add_u32s npu_list
  nas_acl_fill_entry_npu_list explicit_npu_list ob =
      if not explicit_npu_list && e.following_table_npus
      then (true, ob)
      else add_u32s "BASE_ACL_ENTRY_NPU_ID_LIST" (npu_list e) ob

  -- `if (!f (obj)) return false;` for a call that can throw.
  abbrev pub and_result : Result (Bool × Ob) → (Ob → Result (Bool × Ob)) → Result (Bool × Ob)
  and_result call rest = do (filled, ob) ← call; if filled then rest ob else ok (false, ob)

  unfoldable pub nas_acl_fill_entry_attr_info : Bool → Ob → Result (Bool × Ob)
  unfolding nas_acl_fill_entry_npu_list nas_acl_fill_match_attr_list nas_acl_fill_action_attr_list
  nas_acl_fill_entry_attr_info explicit_npu_list ob =
      and_result (ok (api.attr_add ob "BASE_ACL_ENTRY_PRIORITY" (u32 e.priority))) (λ ob1.
        and_result (nas_acl_fill_match_attr_list env e ob1) (λ ob2.
          and_result (nas_acl_fill_action_attr_list env e ob2)
            (λ ob3. ok (nas_acl_fill_entry_npu_list explicit_npu_list ob3))))

  -- What the calls return is ignored.
  unfoldable pub pack_attr : Attr → Ob → Result Ob
  unfolding nas_acl_fill_match_attr_list nas_acl_fill_action_attr_list
  pack_attr entry_priority ob = ok (api.attr_add ob "BASE_ACL_ENTRY_PRIORITY" (u32 e.priority)).1
  pack_attr entry_match ob = do (filled, ob') ← nas_acl_fill_match_attr_list env e ob; ok ob'
  pack_attr entry_action ob = do (filled, ob') ← nas_acl_fill_action_attr_list env e ob; ok ob'
  pack_attr _ ob = ok ob

  unfoldable pub pack_each : List Attr → Ob → Result Ob
  unfolding pack_attr
  pack_each [] ob = ok ob
  pack_each (a ∷ rest) ob = do ob' ← pack_attr a ob; pack_each rest ob'

  unfoldable pub cps_pack_attrs : Ob → Ob → List Attr → Bool → Result Ob
  unfolding cps_key_fill pack_each nas_acl_fill_entry_npu_list
  cps_pack_attrs pack_obj key_obj attrs npu_modified = do
    ob ← pack_each attrs (cps_key_fill (api.copy_key pack_obj key_obj) e).1
    ok (if npu_modified then (nas_acl_fill_entry_npu_list false ob).1 else ob)

  unfoldable pub cps_pack_entry : EntryBase O → Ob → Ob → Result Ob
  unfolding cps_pack_attrs
  cps_pack_entry base pack_obj key_obj = cps_pack_attrs pack_obj key_obj (base.set_attr_list e) true

  unfoldable pub cps_pack_key : Ob → Ob → Result Ob
  unfolding cps_pack_attrs
  cps_pack_key pack_obj key_obj = cps_pack_attrs pack_obj key_obj [] false
