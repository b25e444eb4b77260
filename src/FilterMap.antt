-- ===== src/FilterMap.antt =====
-- src/nas_acl_cps_filter_map.cpp: the map from a match type to the layout of its value.
pub mod Address
pub mod Vlan
pub mod Ip
pub mod Rest
use Prim.Native.String.{String}
use sonic_nas_acl.Base.{Bool, true, false, Option, none, some}
use sonic_nas_acl.Env.{Consts}
use sonic_nas_acl.CpsMap.{FilterInfo}
use sonic_nas_acl.Types.{
  MatchType, src_ipv6, dst_ipv6, src_mac, dst_mac, src_ip, dst_ip, in_ports, out_ports, in_port,
  out_port, outer_vlan_id, outer_vlan_pri, outer_vlan_cfi, inner_vlan_id, inner_vlan_pri,
  inner_vlan_cfi, l4_src_port, l4_dst_port, ether_type, ip_protocol, dscp, ttl, tos, ip_flags,
  tcp_flags, ip_type, ip_frag, ipv6_flow_label, tc, ecn, icmp_type, icmp_code, other_match,
}
use Address.{
  src_ipv6_info, dst_ipv6_info, src_mac_info, dst_mac_info, src_ip_info, dst_ip_info, in_ports_info,
  out_ports_info, in_port_info, out_port_info,
}
use Vlan.{
  outer_vlan_id_info, outer_vlan_pri_info, outer_vlan_cfi_info, inner_vlan_id_info,
  inner_vlan_pri_info, inner_vlan_cfi_info,
}
use Ip.{
  l4_src_port_info, l4_dst_port_info, ether_type_info, ip_protocol_info, dscp_info, ttl_info,
  tos_info, ip_flags_info,
}
use Rest.{
  tcp_flags_info, ip_type_info, ip_frag_info, ipv6_flow_label_info, tc_info, ecn_info,
  icmp_type_info, icmp_code_info,
}

-- `_filter_map.find (type)`, with `none` for `_filter_map.end ()`.
unfoldable pub filter_info : Consts → MatchType → Option FilterInfo
unfolding src_ipv6_info dst_ipv6_info src_mac_info dst_mac_info src_ip_info dst_ip_info
    in_ports_info out_ports_info in_port_info out_port_info outer_vlan_id_info outer_vlan_pri_info
    outer_vlan_cfi_info inner_vlan_id_info inner_vlan_pri_info inner_vlan_cfi_info l4_src_port_info
    l4_dst_port_info ether_type_info ip_protocol_info dscp_info ttl_info tos_info ip_flags_info
    tcp_flags_info ip_type_info ip_frag_info ipv6_flow_label_info tc_info ecn_info icmp_type_info
    icmp_code_info
filter_info c src_ipv6 = some (src_ipv6_info c)
filter_info c dst_ipv6 = some (dst_ipv6_info c)
filter_info c src_mac = some (src_mac_info c)
filter_info c dst_mac = some (dst_mac_info c)
filter_info c src_ip = some (src_ip_info c)
filter_info c dst_ip = some (dst_ip_info c)
filter_info c in_ports = some (in_ports_info c)
filter_info c out_ports = some (out_ports_info c)
filter_info c in_port = some (in_port_info c)
filter_info c out_port = some (out_port_info c)
filter_info c outer_vlan_id = some (outer_vlan_id_info c)
filter_info c outer_vlan_pri = some (outer_vlan_pri_info c)
filter_info c outer_vlan_cfi = some (outer_vlan_cfi_info c)
filter_info c inner_vlan_id = some (inner_vlan_id_info c)
filter_info c inner_vlan_pri = some (inner_vlan_pri_info c)
filter_info c inner_vlan_cfi = some (inner_vlan_cfi_info c)
filter_info c l4_src_port = some (l4_src_port_info c)
filter_info c l4_dst_port = some (l4_dst_port_info c)
filter_info c ether_type = some (ether_type_info c)
filter_info c ip_protocol = some (ip_protocol_info c)
filter_info c dscp = some (dscp_info c)
filter_info c ttl = some (ttl_info c)
filter_info c tos = some (tos_info c)
filter_info c ip_flags = some (ip_flags_info c)
filter_info c tcp_flags = some (tcp_flags_info c)
filter_info c ip_type = some (ip_type_info c)
filter_info c ip_frag = some (ip_frag_info c)
filter_info c ipv6_flow_label = some (ipv6_flow_label_info c)
filter_info c tc = some (tc_info c)
filter_info c ecn = some (ecn_info c)
filter_info c icmp_type = some (icmp_type_info c)
filter_info c icmp_code = some (icmp_code_info c)
filter_info c (other_match n) = none

unfoldable pub nas_acl_filter_is_type_valid : Consts → MatchType → Bool
unfolding filter_info
nas_acl_filter_is_type_valid c type = elim (filter_info c type) [ none ↦ false | some _ ↦ true ]

unfoldable pub nas_acl_filter_type_name : Consts → MatchType → String
unfolding filter_info
nas_acl_filter_type_name c type = elim (filter_info c type) [
  | none ↦ "Invalid Filter Type"
  | some info ↦ info.name
]
