-- ===== src/CpsAction.antt =====
-- src/nas_acl_cps_action.cpp: the actions of an entry in a CPS object.
pub mod Reads
use sonic_nas_acl.Base.{
  ℕ, suc, Bool, true, false, Option, none, some, List, [], ◌∷◌, ◌++◌, if◌then◌else◌,
}
use sonic_nas_acl.CpsApi.{CpsApi, CpsAttr, u32, AttrId, named, index, AttrPath, nas_acl_get_attr}
use sonic_nas_acl.CpsEnv.{CpsEnv}
use sonic_nas_acl.CpsMap.{ActionInfo, DataType}
use sonic_nas_acl.CpsUtils.Read.{nas_acl_copy_data_from_obj}
use sonic_nas_acl.CpsUtils.Write.{nas_acl_copy_data_to_obj}
use sonic_nas_acl.Env.{BaseObj}
use sonic_nas_acl.Action.{Action, blank_action}
use sonic_nas_acl.Action.Calls.{call_set_fn, call_get_fn}
use sonic_nas_acl.ActionMap.{action_info}
use sonic_nas_acl.Map.{Map}
use sonic_nas_acl.NasEntry.{add_action}
use sonic_nas_acl.Object.{Entry}
use sonic_nas_acl.Switch.{Switch}
use sonic_nas_acl.Result.{Result, ok, err, ◌>>=◌, fail, missing_attr, duplicate}
use sonic_nas_acl.Types.{ActionType}

module _ {Ob : Type 0} ⦃api : CpsApi Ob⦄ (env : CpsEnv) (ob : Ob) where
  -- The action with the value that the object has for it.
  unfoldable pub read_action : ActionType → ActionInfo → AttrPath → Result Action
  unfolding nas_acl_copy_data_from_obj call_set_fn
  read_action type info path = elim info.val.data_type [
    | DataType.nothing ↦ ok (blank_action type)
    | _ ↦ (do
      vals ←
          nas_acl_copy_data_from_obj ob (path ++ named info.val.attr_id ∷ []) info.val
            info.child_list
      call_set_fn env.action_env info.set_fn vals (blank_action type))
  ]

module _ {Ob G O : Type 0} ⦃api : CpsApi Ob⦄ ⦃b : BaseObj O⦄ (env : CpsEnv) (ob : Ob)
    (sw : Switch G O) where
  unfoldable pub nas_acl_set_action_attr :
      ActionType → AttrPath → Bool → Entry O → Entry O × Result (Unit {0})
  unfolding action_info read_action add_action
  nas_acl_set_action_attr type path reset e = elim (action_info env.action_env.consts type) [
    | none ↦ (e, err fail)
    | some info ↦ elim (read_action env ob type info path) [
      | err x ↦ (e, err x)
      | ok a ↦ add_action a reset e sw
    ]
  ]

  -- The type of one item of the list: `BASE_ACL_ENTRY_ACTION_TYPE` in it, exactly once.
  unfoldable pub action_type_in : CpsAttr → Result ActionType
  unfolding nas_acl_get_attr
  action_type_in item = elim (api.nested item) [
    | [] ↦ err missing_attr
    | a ∷ rest ↦ elim (nas_acl_get_attr (a ∷ rest) (named "BASE_ACL_ENTRY_ACTION_TYPE")) [
      | none ↦ err missing_attr
      | some (attr, true) ↦ err duplicate
      | some (attr, false) ↦ ok (env.action_of attr.u32)
    ]
  ]

  -- The items one after the other. An error leaves the actions that were added before it.
  unfoldable pub set_actions : List (AttrId × CpsAttr) → Entry O → Entry O × Result (Unit {0})
  unfolding action_type_in nas_acl_set_action_attr
  set_actions [] e = (e, ok tt)
  set_actions ((list_index, item) ∷ rest) e = elim (action_type_in item) [
    | err x ↦ (e, err x)
    | ok type ↦
        let path = named "BASE_ACL_ENTRY_ACTION" ∷ list_index ∷ [] in
        let (e', done) = nas_acl_set_action_attr type path true e in
        let after = set_actions rest e' in elim done [ err x ↦ (e', err x) | ok _ ↦ after ]
  ]

  unfoldable pub nas_acl_set_action_list : CpsAttr → Entry O → Entry O × Result (Unit {0})
  unfolding set_actions
  nas_acl_set_action_list it e = set_actions (api.nested it) e

module _ {Ob : Type 0} ⦃api : CpsApi Ob⦄ (env : CpsEnv) where
  unfoldable pub nas_acl_fill_action_attr : Action → ActionType → AttrPath → Ob → Result (Bool × Ob)
  unfolding action_info call_get_fn nas_acl_copy_data_to_obj
  nas_acl_fill_action_attr a type path ob = elim (action_info env.action_env.consts type) [
    | none ↦ ok (false, ob)
    | some info ↦ (do
      vals ← call_get_fn env.action_env info.get_fn a
      nas_acl_copy_data_to_obj (path ++ named info.val.attr_id ∷ []) info.val info.child_list vals
          ob)
  ]

  -- An action without a value has nothing after its type.
  unfoldable pub fill_action : Action → ActionInfo → AttrPath → Ob → Result (Bool × Ob)
  unfolding nas_acl_fill_action_attr
  fill_action a info path ob = elim info.val.data_type [
    | DataType.nothing ↦ ok (true, ob)
    | _ ↦ nas_acl_fill_action_attr a a.action_type path ob
  ]

  -- The actions from number `i` on.
  unfoldable pub fill_actions : ℕ → Map ActionType Action → Ob → Result (Bool × Ob)
  unfolding action_info fill_action
  fill_actions i [] ob = ok (true, ob)
  fill_actions i ((_, a) ∷ rest) ob = elim (action_info env.action_env.consts a.action_type) [
    | none ↦ ok (false, ob)
    | some info ↦
        let path = named "BASE_ACL_ENTRY_ACTION" ∷ index i ∷ [] in
        let (typed, ob') =
          api.e_add ob (path ++ named "BASE_ACL_ENTRY_ACTION_TYPE" ∷ [])
            (u32 (env.action_number a.action_type)) in
        if typed
        then (do
          (filled, ob'') ← fill_action a info path ob'
          if filled then fill_actions (suc i) rest ob'' else ok (false, ob''))
        else ok (false, ob')
  ]

  unfoldable pub nas_acl_fill_action_attr_list : {O : Type 0} → Entry O → Ob → Result (Bool × Ob)
  unfolding fill_actions
  nas_acl_fill_action_attr_list e ob = fill_actions 0 e.alist ob
