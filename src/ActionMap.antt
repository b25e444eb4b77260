-- ===== src/ActionMap.antt =====
-- src/nas_acl_cps_action_map.cpp: the map from an action type to the layout of its value.
pub mod Forward
pub mod Header
use Prim.Native.String.{String}
use sonic_nas_acl.Base.{Bool, true, false, Option, none, some}
use sonic_nas_acl.Env.{Consts}
use sonic_nas_acl.CpsMap.{ActionInfo}
use sonic_nas_acl.Types.{
  ActionType, packet_action, redirect_port, redirect_ip_nexthop, flood, mirror_ingress,
  mirror_egress, set_counter, set_policer, decrement_ttl, set_tc, set_inner_vlan_id,
  set_inner_vlan_pri, set_outer_vlan_id, set_outer_vlan_pri, set_src_mac, set_dst_mac, set_src_ip,
  set_dst_ip, set_src_ipv6, set_dst_ipv6, set_dscp, set_l4_src_port, set_l4_dst_port, set_cpu_queue,
  egress_mask, redirect_port_list, other_action,
}
use Forward.{
  packet_action_info, redirect_port_info, redirect_ip_nexthop_info, flood_info, mirror_ingress_info,
  mirror_egress_info, set_counter_info, set_policer_info, decrement_ttl_info, set_cpu_queue_info,
  egress_mask_info, redirect_port_list_info,
}
use Header.{
  set_tc_info, set_inner_vlan_id_info, set_inner_vlan_pri_info, set_outer_vlan_id_info,
  set_outer_vlan_pri_info, set_src_mac_info, set_dst_mac_info, set_src_ip_info, set_dst_ip_info,
  set_src_ipv6_info, set_dst_ipv6_info, set_dscp_info, set_l4_src_port_info, set_l4_dst_port_info,
}

-- `_action_map.find (type)`, with `none` for `_action_map.end ()`.
unfoldable pub action_info : Consts → ActionType → Option ActionInfo
unfolding packet_action_info redirect_port_info redirect_ip_nexthop_info flood_info
    mirror_ingress_info mirror_egress_info set_counter_info set_policer_info decrement_ttl_info
    set_tc_info set_inner_vlan_id_info set_inner_vlan_pri_info set_outer_vlan_id_info
    set_outer_vlan_pri_info set_src_mac_info set_dst_mac_info set_src_ip_info set_dst_ip_info
    set_src_ipv6_info set_dst_ipv6_info set_dscp_info set_l4_src_port_info set_l4_dst_port_info
    set_cpu_queue_info egress_mask_info redirect_port_list_info
action_info c packet_action = some (packet_action_info c)
action_info c redirect_port = some (redirect_port_info c)
action_info c redirect_ip_nexthop = some (redirect_ip_nexthop_info c)
action_info c flood = some (flood_info c)
action_info c mirror_ingress = some (mirror_ingress_info c)
action_info c mirror_egress = some (mirror_egress_info c)
action_info c set_counter = some (set_counter_info c)
action_info c set_policer = some (set_policer_info c)
action_info c decrement_ttl = some (decrement_ttl_info c)
action_info c set_tc = some (set_tc_info c)
action_info c set_inner_vlan_id = some (set_inner_vlan_id_info c)
action_info c set_inner_vlan_pri = some (set_inner_vlan_pri_info c)
action_info c set_outer_vlan_id = some (set_outer_vlan_id_info c)
action_info c set_outer_vlan_pri = some (set_outer_vlan_pri_info c)
action_info c set_src_mac = some (set_src_mac_info c)
action_info c set_dst_mac = some (set_dst_mac_info c)
action_info c set_src_ip = some (set_src_ip_info c)
action_info c set_dst_ip = some (set_dst_ip_info c)
action_info c set_src_ipv6 = some (set_src_ipv6_info c)
action_info c set_dst_ipv6 = some (set_dst_ipv6_info c)
action_info c set_dscp = some (set_dscp_info c)
action_info c set_l4_src_port = some (set_l4_src_port_info c)
action_info c set_l4_dst_port = some (set_l4_dst_port_info c)
action_info c set_cpu_queue = some (set_cpu_queue_info c)
action_info c egress_mask = some (egress_mask_info c)
action_info c redirect_port_list = some (redirect_port_list_info c)
action_info c (other_action n) = none

unfoldable pub nas_acl_action_is_type_valid : Consts → ActionType → Bool
unfolding action_info
nas_acl_action_is_type_valid c type = elim (action_info c type) [ none ↦ false | some _ ↦ true ]

unfoldable pub nas_acl_action_type_name : Consts → ActionType → String
unfolding action_info
nas_acl_action_type_name c type = elim (action_info c type) [
  | none ↦ "Invalid Action Type"
  | some info ↦ info.name
]
