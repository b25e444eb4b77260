-- ===== src/Action/Values.antt =====
-- The get and set methods, which a row of the action map names.
use sonic_nas_acl.Base.{
  ℕ, Bool, true, false, Option, none, some, List, [], ◌∷◌, ◌++◌, if◌then◌else◌, nat_eq,
}
use sonic_nas_acl.Action.{
  Action, ActionKind, ActionUnion, union_u8, union_u16, union_u32, union_ipv4, union_ipv6,
  union_mac,
}
use sonic_nas_acl.Common.{
  CommonData, Scalar, empty_data, scalar_data, bytes_data, iflist_data, as_u8, as_u16, as_u32,
  as_obj_id, as_ifindex, item, memcpy,
}
use sonic_nas_acl.Env.{Consts, Hal}
use sonic_nas_acl.Map.{Map, put}
use sonic_nas_acl.Result.{Result, ok, err, ◌>>=◌, ◌>>◌, guard, attr_val}
use sonic_nas_acl.Utl.{nas_acl_utl_ifidx_to_ndi_port, nas_acl_utl_is_ifidx_type_lag}

-- BASE_ACL_PACKET_ACTION_TYPE_t: the names of _pkt_action_name_map. Their numbers are in a
-- generated header.
pub data PktAction : Type 0 where
  drop forward copy_to_cpu trap_to_cpu copy_to_cpu_cancel copy_to_cpu_and_forward : PktAction
  copy_to_cpu_cancel_and_drop copy_to_cpu_cancel_and_forward : PktAction
  unlisted : PktAction

-- `_pkt_action_name_map.find (a) != _pkt_action_name_map.end ()`
unfoldable pub pkt_action_named : PktAction → Bool
pkt_action_named drop = true
pkt_action_named forward = true
pkt_action_named copy_to_cpu = true
pkt_action_named trap_to_cpu = true
pkt_action_named copy_to_cpu_cancel = true
pkt_action_named copy_to_cpu_and_forward = true
pkt_action_named copy_to_cpu_cancel_and_drop = true
pkt_action_named copy_to_cpu_cancel_and_forward = true
pkt_action_named unlisted = false

-- What the methods take from outside; `lag_ndi_ids` is dn_nas_lag_get_ndi_ids, with `none` for an
-- error.
pub record ActionEnv : Type 0 where
  pub consts : Consts
  pub hal : Hal
  pub lag_ndi_ids : ℕ → Option (Map ℕ ℕ)
  pub pkt_action_of : ℕ → PktAction

abbrev pub with_values : ActionKind → ActionUnion → Action → Action
with_values kind u a = record a { a_info = record a.a_info { values_type = kind; values = u } }

unfoldable pub set_obj_id_action_val : List CommonData → Action → Result Action
set_obj_id_action_val vals a = do
  v ← item vals 0
  oid ← as_obj_id v
  ok (record a { a_info = record a.a_info { values_type = ActionKind.obj_id }; nas_oid = oid })

unfoldable pub get_obj_id_action_val : Action → Result (List CommonData)
get_obj_id_action_val a = ok (scalar_data (Scalar.obj_id a.nas_oid) ∷ [])

unfoldable pub set_u32_action_val : List CommonData → Action → Result Action
set_u32_action_val vals a = do
  v ← item vals 0
  n ← as_u32 v
  ok (with_values ActionKind.u32 (ActionUnion.u32 n) a)

unfoldable pub get_u32_action_val : Action → Result (List CommonData)
get_u32_action_val a = do n ← union_u32 a.values; ok (scalar_data (Scalar.u32 n) ∷ [])

unfoldable pub set_u16_action_val : List CommonData → Action → Result Action
set_u16_action_val vals a = do
  v ← item vals 0
  n ← as_u16 v
  ok (with_values ActionKind.u16 (ActionUnion.u16 n) a)

unfoldable pub get_u16_action_val : Action → Result (List CommonData)
get_u16_action_val a = do n ← union_u16 a.values; ok (scalar_data (Scalar.u16 n) ∷ [])

unfoldable pub set_u8_action_val : List CommonData → Action → Result Action
set_u8_action_val vals a = do
  v ← item vals 0
  n ← as_u8 v
  ok (with_values ActionKind.u8 (ActionUnion.u8 n) a)

unfoldable pub get_u8_action_val : Action → Result (List CommonData)
get_u8_action_val a = do n ← union_u8 a.values; ok (scalar_data (Scalar.u8 n) ∷ [])

unfoldable pub set_ipv4_action_val : Consts → List CommonData → Action → Result Action
set_ipv4_action_val c vals a = do
  v ← item vals 0
  bs ← memcpy c.ipv4_len v.bytes
  ok (with_values ActionKind.ipv4_addr (ActionUnion.ipv4 bs) a)

unfoldable pub get_ipv4_action_val : Consts → Action → Result (List CommonData)
get_ipv4_action_val c a = do bs ← union_ipv4 c.ipv4_len a.values; ok (bytes_data bs ∷ [])

unfoldable pub set_ipv6_action_val : Consts → List CommonData → Action → Result Action
set_ipv6_action_val c vals a = do
  v ← item vals 0
  bs ← memcpy c.ipv6_len v.bytes
  ok (with_values ActionKind.ipv6_addr (ActionUnion.ipv6 bs) a)

unfoldable pub get_ipv6_action_val : Consts → Action → Result (List CommonData)
get_ipv6_action_val c a = do bs ← union_ipv6 c.ipv6_len a.values; ok (bytes_data bs ∷ [])

unfoldable pub set_mac_action_val : Consts → List CommonData → Action → Result Action
set_mac_action_val c vals a = do
  v ← item vals 0
  bs ← memcpy c.mac_len v.bytes
  ok (with_values ActionKind.mac_addr (ActionUnion.mac bs) a)

unfoldable pub get_mac_action_val : Consts → Action → Result (List CommonData)
get_mac_action_val c a = do bs ← union_mac c.mac_len a.values; ok (bytes_data bs ∷ [])

-- The items in pairs of an object id and its table; an item without a partner is left out.
unfoldable pub set_opaque_data : List CommonData → Map ℕ (Map ℕ ℕ) → Result (Map ℕ (Map ℕ ℕ))
set_opaque_data (i ∷ d ∷ rest) tbl = do
  oid ← as_obj_id i
  set_opaque_data rest (put oid d.ndi_obj_id_table tbl)
set_opaque_data _ tbl = ok tbl

unfoldable pub set_opaque_data_action_val : List CommonData → Action → Result Action
unfolding set_opaque_data
set_opaque_data_action_val vals a = do
  tbl ← set_opaque_data vals a.nas2ndi_oid_tbl
  ok (record a {
    a_info = record a.a_info { values_type = ActionKind.obj_id };
    nas2ndi_oid_tbl = tbl;
  })

unfoldable pub set_opaque_data_list_action_val : List CommonData → Action → Result Action
unfolding set_opaque_data
set_opaque_data_list_action_val vals a = do
  tbl ← set_opaque_data vals a.nas2ndi_oid_tbl
  ok (record a {
    a_info = record a.a_info { values_type = ActionKind.obj_id_list };
    nas2ndi_oid_tbl = tbl;
  })

unfoldable pub opaque_items : Map ℕ (Map ℕ ℕ) → List CommonData
opaque_items [] = []
opaque_items ((oid, tbl) ∷ rest) =
    scalar_data (Scalar.obj_id oid)
    ∷ record empty_data { ndi_obj_id_table = tbl }
    ∷ opaque_items rest

unfoldable pub get_opaque_data_action_val : Action → Result (List CommonData)
unfolding opaque_items
get_opaque_data_action_val a = ok (opaque_items a.nas2ndi_oid_tbl)

set_lag : ActionEnv → ℕ → Action → Result Action
set_lag e ifindex a = elim (e.lag_ndi_ids ifindex) [
  | none ↦ err attr_val
  | some tbl ↦ ok (record a {
    a_info = record a.a_info { values_type = ActionKind.obj_id };
    nas2ndi_oid_tbl = put ifindex tbl a.nas2ndi_oid_tbl;
  })
]

set_port : ActionEnv → ℕ → Action → Result Action
set_port e ifindex a = do
  intf_ctrl ← nas_acl_utl_ifidx_to_ndi_port e.hal ifindex
  ok (with_values ActionKind.port (ActionUnion.ndi_port intf_ctrl.npu_id intf_ctrl.port_id) a)

unfoldable pub set_action_ifindex : ActionEnv → List CommonData → Action → Result Action
unfolding set_lag set_port
set_action_ifindex e vals a = do
  v ← item vals 0
  ifindex ← as_ifindex v
  let a' = record a { ifindex_list = a.ifindex_list ++ ifindex ∷ [] }
  is_lag ← nas_acl_utl_is_ifidx_type_lag e.hal ifindex
  if is_lag then set_lag e ifindex a' else set_port e ifindex a'

unfoldable pub get_action_ifindex : Action → Result (List CommonData)
get_action_ifindex a = elim a.ifindex_list [
  | [] ↦ ok []
  | i ∷ is ↦ ok (scalar_data (Scalar.ifindex i) ∷ [])
]

-- The interfaces of a list that are not LAGs.
unfoldable pub not_lags : Hal → List ℕ → Result (List ℕ)
not_lags hal [] = ok []
not_lags hal (i ∷ is) = do
  is_lag ← nas_acl_utl_is_ifidx_type_lag hal i
  rest ← not_lags hal is
  ok (if is_lag then rest else i ∷ rest)

unfoldable pub all_not_lags : Hal → List CommonData → Result (List ℕ)
all_not_lags hal [] = ok []
all_not_lags hal (d ∷ ds) = do
  ports ← not_lags hal d.ifindex_list
  rest ← all_not_lags hal ds
  ok (ports ++ rest)

unfoldable pub set_action_ifindex_list : Hal → List CommonData → Action → Result Action
unfolding not_lags all_not_lags
set_action_ifindex_list hal vals a = do
  ports ← all_not_lags hal vals
  ok (record a {
    a_info = record a.a_info { values_type = ActionKind.portlist };
    ifindex_list = a.ifindex_list ++ ports;
  })

unfoldable pub get_action_ifindex_list : Action → Result (List CommonData)
get_action_ifindex_list a = elim a.ifindex_list [
  | [] ↦ ok []
  | i ∷ is ↦ ok (iflist_data (i ∷ is) ∷ [])
]

unfoldable pub get_pkt_action_val : Action → Result (List CommonData)
get_pkt_action_val a = ok (scalar_data (Scalar.u32 a.pkt_action) ∷ [])

unfoldable pub set_pkt_action_val : (ℕ → PktAction) → List CommonData → Action → Result Action
unfolding pkt_action_named
set_pkt_action_val pkt_action_of vals a = do
  v ← item vals 0
  n ← as_u32 v
  guard (pkt_action_named (pkt_action_of n)) attr_val
  ok (record a { a_info = record a.a_info { values_type = ActionKind.pkt_action; pkt_action = n } })
