-- ===== src/Action/Calls.antt =====
-- sonic/nas_acl_cps.h: the calls through the member function pointers of the action map.
use sonic_nas_acl.Base.{Option, none, some, List}
use sonic_nas_acl.Action.{Action}
use sonic_nas_acl.Action.Values.{
  ActionEnv, set_obj_id_action_val, get_obj_id_action_val, set_u32_action_val, get_u32_action_val,
  set_u16_action_val, get_u16_action_val, set_u8_action_val, get_u8_action_val, set_ipv4_action_val,
  get_ipv4_action_val, set_ipv6_action_val, get_ipv6_action_val, set_mac_action_val,
  get_mac_action_val, set_opaque_data_action_val, set_opaque_data_list_action_val,
  get_opaque_data_action_val, set_action_ifindex, get_action_ifindex, set_action_ifindex_list,
  get_action_ifindex_list, get_pkt_action_val, set_pkt_action_val,
}
use sonic_nas_acl.Common.{CommonData}
use sonic_nas_acl.CpsMap.{ActionFn}
use sonic_nas_acl.Result.{Result, err, undefined_behaviour}

unfoldable pub set_by : ActionEnv → ActionFn → List CommonData → Action → Result Action
unfolding set_obj_id_action_val set_u32_action_val set_u16_action_val set_u8_action_val
    set_ipv4_action_val set_ipv6_action_val set_mac_action_val set_opaque_data_action_val
    set_opaque_data_list_action_val set_action_ifindex set_action_ifindex_list set_pkt_action_val
set_by e ActionFn.pkt_action = set_pkt_action_val e.pkt_action_of
set_by e ActionFn.ifindex = set_action_ifindex e
set_by e ActionFn.ifindex_list = set_action_ifindex_list e.hal
set_by e ActionFn.opaque_data = set_opaque_data_action_val
set_by e ActionFn.opaque_data_list = set_opaque_data_list_action_val
set_by e ActionFn.obj_id = set_obj_id_action_val
set_by e ActionFn.u8 = set_u8_action_val
set_by e ActionFn.u16 = set_u16_action_val
set_by e ActionFn.u32 = set_u32_action_val
set_by e ActionFn.ipv4 = set_ipv4_action_val e.consts
set_by e ActionFn.ipv6 = set_ipv6_action_val e.consts
set_by e ActionFn.mac = set_mac_action_val e.consts

-- From the empty list. No row names a get method for a list of opaque data.
unfoldable pub get_by : ActionEnv → ActionFn → Action → Result (List CommonData)
unfolding get_obj_id_action_val get_u32_action_val get_u16_action_val get_u8_action_val
    get_ipv4_action_val get_ipv6_action_val get_mac_action_val get_opaque_data_action_val
    get_action_ifindex get_action_ifindex_list get_pkt_action_val
get_by e ActionFn.pkt_action = get_pkt_action_val
get_by e ActionFn.ifindex = get_action_ifindex
get_by e ActionFn.ifindex_list = get_action_ifindex_list
get_by e ActionFn.opaque_data = get_opaque_data_action_val
get_by e ActionFn.opaque_data_list = λ a. err undefined_behaviour
get_by e ActionFn.obj_id = get_obj_id_action_val
get_by e ActionFn.u8 = get_u8_action_val
get_by e ActionFn.u16 = get_u16_action_val
get_by e ActionFn.u32 = get_u32_action_val
get_by e ActionFn.ipv4 = get_ipv4_action_val e.consts
get_by e ActionFn.ipv6 = get_ipv6_action_val e.consts
get_by e ActionFn.mac = get_mac_action_val e.consts

-- `(action.*(map_info.set_fn)) (data)`: a call through NULL is undefined.
unfoldable pub call_set_fn : ActionEnv → Option ActionFn → List CommonData → Action → Result Action
unfolding set_by
call_set_fn e none vals a = err undefined_behaviour
call_set_fn e (some fn) vals a = set_by e fn vals a

unfoldable pub call_get_fn : ActionEnv → Option ActionFn → Action → Result (List CommonData)
unfolding get_by
call_get_fn e none a = err undefined_behaviour
call_get_fn e (some fn) a = get_by e fn a
