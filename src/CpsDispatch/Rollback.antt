-- ===== src/CpsDispatch/Rollback.antt =====
-- src/nas_acl_cps.cpp: a request for a new table through the dispatch, and its rollback.
use sonic_nas_acl.Base.{true, some}
use sonic_nas_acl.CpsApi.{CpsApi}
use sonic_nas_acl.CpsDispatch.{
  Bases, Key, table_sub, nas_acl_cps_api_write, nas_acl_cps_api_rollback,
}
use sonic_nas_acl.CpsEntry.{create}
use sonic_nas_acl.CpsEnv.{CpsEnv}
use sonic_nas_acl.Env.{BaseObj, IdGenerator}
use sonic_nas_acl.Ndi.{Ndi}
use sonic_nas_acl.Request.{Handled}
use sonic_nas_acl.Switch.{Switch}

abbrev pub create_table_key : Key
create_table_key = record { is_base_acl = true; sub_category = table_sub; op = create }

module _ {Ob G O W : Type 0} ⦃api : CpsApi Ob⦄ ⦃gen : IdGenerator G⦄ ⦃b : BaseObj O⦄ ⦃n : Ndi W⦄
    (env : CpsEnv) (bases : Bases O) (obj prev : Ob) (sw : Switch G O) (w w2 : W) where
  abbrev pub first : Handled Ob G O × W
  first = nas_acl_cps_api_write env bases obj sw w create_table_key (some prev)

  -- The rollback gets the previous object as the request left it.
  abbrev pub second : Handled Ob G O × W
  second = nas_acl_cps_api_rollback env bases first.0.prev first.0.sw w2 create_table_key
