-- ===== src/CpsKey.antt =====
-- sonic/nas_acl_cps_key.h: the keys of a CPS object. The switch id is not among them: it is always
-- the default one.
use Prim.Native.String.{String}
use sonic_nas_acl.Base.{ℕ, Bool, Option, none, some}
use sonic_nas_acl.CpsApi.{CpsApi, u32, u64}

module _ {Ob : Type 0} ⦃api : CpsApi Ob⦄ where
  unfoldable pub nas_acl_cps_key_set_u32 : Ob → String → ℕ → Bool × Ob
  nas_acl_cps_key_set_u32 ob id n = api.set_key ob id (u32 n)

  unfoldable pub nas_acl_cps_key_set_obj_id : Ob → String → ℕ → Bool × Ob
  nas_acl_cps_key_set_obj_id ob id i = api.set_key ob id (u64 i)

  -- `none` where the function returns false.
  unfoldable pub nas_acl_cps_key_get_u32 : Ob → String → Option ℕ
  nas_acl_cps_key_get_u32 ob id = elim (api.get_key ob id) [ none ↦ none | some a ↦ some a.u32 ]

  unfoldable pub nas_acl_cps_key_get_obj_id : Ob → String → Option ℕ
  nas_acl_cps_key_get_obj_id ob id = elim (api.get_key ob id) [ none ↦ none | some a ↦ some a.u64 ]
