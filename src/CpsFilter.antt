-- ===== src/CpsFilter.antt =====
-- src/nas_acl_cps_filter.cpp: the filters of an entry in a CPS object.
pub mod Reads
pub mod Ranges
pub mod Refilled
use sonic_nas_acl.Base.{
  ℕ, suc, Bool, true, false, Option, none, some, List, [], ◌∷◌, ◌++◌, if◌then◌else◌,
}
use sonic_nas_acl.CpsApi.{CpsApi, CpsAttr, u32, AttrId, named, index, AttrPath, nas_acl_get_attr}
use sonic_nas_acl.CpsEnv.{CpsEnv}
use sonic_nas_acl.CpsMap.{FilterInfo, DataType}
use sonic_nas_acl.CpsUtils.Read.{nas_acl_copy_data_from_obj}
use sonic_nas_acl.CpsUtils.Write.{nas_acl_copy_data_to_obj}
use sonic_nas_acl.Env.{BaseObj}
use sonic_nas_acl.Filter.{Filter, blank_filter}
use sonic_nas_acl.Filter.Values.{call_set_fn, call_get_fn}
use sonic_nas_acl.FilterMap.{filter_info}
use sonic_nas_acl.Map.{Map}
use sonic_nas_acl.NasEntry.{add_filter}
use sonic_nas_acl.Object.{Table, Entry}
use sonic_nas_acl.Result.{Result, ok, err, ◌>>=◌, attr_val, missing_attr, duplicate}
use sonic_nas_acl.Types.{MatchType}

module _ {Ob : Type 0} ⦃api : CpsApi Ob⦄ (env : CpsEnv) (ob : Ob) where
  -- The filter with the value that the object has for it.
  unfoldable pub read_match : MatchType → FilterInfo → AttrPath → Result Filter
  unfolding nas_acl_copy_data_from_obj call_set_fn
  read_match type info path = elim info.val.data_type [
    | DataType.nothing ↦ ok (blank_filter type)
    | _ ↦ (do
      vals ←
          nas_acl_copy_data_from_obj ob (path ++ named info.val.attr_id ∷ []) info.val
            info.child_list
      call_set_fn env.filter_env info.set_fn vals (blank_filter type))
  ]

module _ {Ob O : Type 0} ⦃api : CpsApi Ob⦄ ⦃b : BaseObj O⦄ (env : CpsEnv) (ob : Ob)
    (t : Table O) where
  unfoldable pub nas_acl_set_match_attr :
      MatchType → AttrPath → Bool → Entry O → Entry O × Result (Unit {0})
  unfolding filter_info read_match add_filter
  nas_acl_set_match_attr type path reset e = elim (filter_info env.filter_env.consts type) [
    | none ↦ (e, err attr_val)
    | some info ↦ elim (read_match env ob type info path) [
      | err x ↦ (e, err x)
      | ok f ↦ add_filter env.filter_env.hal t f reset e
    ]
  ]

  -- The type of one item of the list: `BASE_ACL_ENTRY_MATCH_TYPE` in it, exactly once.
  unfoldable pub match_type_in : CpsAttr → Result MatchType
  unfolding nas_acl_get_attr
  match_type_in item = elim (api.nested item) [
    | [] ↦ err missing_attr
    | a ∷ rest ↦ elim (nas_acl_get_attr (a ∷ rest) (named "BASE_ACL_ENTRY_MATCH_TYPE")) [
      | none ↦ err missing_attr
      | some (attr, true) ↦ err duplicate
      | some (attr, false) ↦ ok (env.match_of attr.u32)
    ]
  ]

  -- The items one after the other. An error leaves the filters that were added before it.
  unfoldable pub set_matches : List (AttrId × CpsAttr) → Entry O → Entry O × Result (Unit {0})
  unfolding match_type_in nas_acl_set_match_attr
  set_matches [] e = (e, ok tt)
  set_matches ((list_index, item) ∷ rest) e = elim (match_type_in item) [
    | err x ↦ (e, err x)
    | ok type ↦
        let path = named "BASE_ACL_ENTRY_MATCH" ∷ list_index ∷ [] in
        let (e', done) = nas_acl_set_match_attr type path true e in
        let after = set_matches rest e' in elim done [ err x ↦ (e', err x) | ok _ ↦ after ]
  ]

  unfoldable pub nas_acl_set_match_list : CpsAttr → Entry O → Entry O × Result (Unit {0})
  unfolding set_matches
  nas_acl_set_match_list it e = set_matches (api.nested it) e

module _ {Ob : Type 0} ⦃api : CpsApi Ob⦄ (env : CpsEnv) where
  unfoldable pub nas_acl_fill_match_attr : Filter → MatchType → AttrPath → Ob → Result (Bool × Ob)
  unfolding filter_info call_get_fn nas_acl_copy_data_to_obj
  nas_acl_fill_match_attr f type path ob = elim (filter_info env.filter_env.consts type) [
    | none ↦ ok (false, ob)
    | some info ↦ (do
      vals ← call_get_fn env.filter_env info.get_fn f
      nas_acl_copy_data_to_obj (path ++ named info.val.attr_id ∷ []) info.val info.child_list vals
          ob)
  ]

  -- The filters from number `i` on.
  unfoldable pub fill_matches : ℕ → Map MatchType Filter → Ob → Result (Bool × Ob)
  unfolding nas_acl_fill_match_attr
  fill_matches i [] ob = ok (true, ob)
  fill_matches i ((_, f) ∷ rest) ob =
      let path = named "BASE_ACL_ENTRY_MATCH" ∷ index i ∷ [] in
      let (typed, ob') =
        api.e_add ob (path ++ named "BASE_ACL_ENTRY_MATCH_TYPE" ∷ [])
          (u32 (env.match_number f.filter_type)) in
      if typed
      then (do
        (filled, ob'') ← nas_acl_fill_match_attr f f.filter_type path ob'
        if filled then fill_matches (suc i) rest ob'' else ok (false, ob''))
      else ok (false, ob')

  unfoldable pub nas_acl_fill_match_attr_list : {O : Type 0} → Entry O → Ob → Result (Bool × Ob)
  unfolding fill_matches
  nas_acl_fill_match_attr_list e ob = fill_matches 0 e.flist ob
