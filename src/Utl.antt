-- ===== src/Utl.antt =====
-- src/nas_acl_utl.cpp: interface indices. (nas_acl_id_guard_t is in IdGuard.)
use sonic_nas_acl.Base.{ℕ, Bool, true, false, none, some}
use sonic_nas_acl.Env.{Hal, IntType, IfInfo}
use sonic_nas_acl.Result.{Result, ok, err, attr_val}

unfoldable pub nas_acl_utl_ifidx_to_ndi_port : Hal → ℕ → Result IfInfo
nas_acl_utl_ifidx_to_ndi_port hal ifindex = elim (hal ifindex) [
  | none ↦ err attr_val
  | some info ↦ elim info.int_type [ IntType.port ↦ ok info | _ ↦ err attr_val ]
]

unfoldable pub nas_acl_utl_is_ifidx_type_lag : Hal → ℕ → Result Bool
nas_acl_utl_is_ifidx_type_lag hal ifindex = elim (hal ifindex) [
  | none ↦ err attr_val
  | some info ↦ elim info.int_type [ IntType.lag ↦ ok true | _ ↦ ok false ]
]
