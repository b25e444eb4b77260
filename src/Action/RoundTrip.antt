-- ===== src/Action/RoundTrip.antt =====
-- src/nas_acl_cps_action_map.cpp, src/nas_acl_action.cpp: the rows of the action map with their
-- methods.
use sonic_nas_acl.Base.{◌≡◌, ap, subst, inl, Option, none, some, List}
use sonic_nas_acl.Action.Layout.{FitsInfo, Stores, RowStores}
use sonic_nas_acl.Action.Methods.{
  ifindex-Kept, ifindex_list-Kept, ipv4-Kept, ipv6-Kept, mac-Kept, obj_id-Kept, opaque_data-Kept,
  opaque_data_list_stored, pkt_action-Kept, u16-Kept, u8-Kept,
}
use sonic_nas_acl.Action.Values.{ActionEnv}
use sonic_nas_acl.ActionMap.{action_info}
use sonic_nas_acl.Common.{CommonData}
use sonic_nas_acl.CpsMap.{ActionInfo}
use sonic_nas_acl.Types.{
  ActionType, packet_action, redirect_port, redirect_ip_nexthop, flood, mirror_ingress,
  mirror_egress, set_counter, set_policer, decrement_ttl, set_tc, set_inner_vlan_id,
  set_inner_vlan_pri, set_outer_vlan_id, set_outer_vlan_pri, set_src_mac, set_dst_mac, set_src_ip,
  set_dst_ip, set_src_ipv6, set_dst_ipv6, set_dscp, set_l4_src_port, set_l4_dst_port, set_cpu_queue,
  egress_mask, redirect_port_list, other_action,
}

abbrev pub ForInfo : (ActionInfo → Type 0) → Option ActionInfo → Type 0
ForInfo P none = Unit
ForInfo P (some info) = P info

rows_store : (e : ActionEnv) (t : ActionType) → ForInfo (RowStores e t) (action_info e.consts t)
unfolding action_info
rows_store e packet_action = λ vals h. pkt_action-Kept e packet_action vals h
rows_store e redirect_port = λ vals h. ifindex-Kept e redirect_port vals h
rows_store e redirect_ip_nexthop = λ vals h. inl (opaque_data-Kept e redirect_ip_nexthop vals h)
rows_store e flood = λ vals h. absurd h
rows_store e mirror_ingress = λ vals h. inl (opaque_data_list_stored e mirror_ingress vals h)
rows_store e mirror_egress = λ vals h. inl (opaque_data_list_stored e mirror_egress vals h)
rows_store e set_counter = λ vals h. inl (obj_id-Kept e set_counter vals h)
rows_store e set_policer = λ vals h. inl (opaque_data-Kept e set_policer vals h)
rows_store e decrement_ttl = λ vals h. absurd h
rows_store e set_tc = λ vals h. inl (u8-Kept e set_tc vals h)
rows_store e set_inner_vlan_id = λ vals h. inl (u16-Kept e set_inner_vlan_id vals h)
rows_store e set_inner_vlan_pri = λ vals h. inl (u8-Kept e set_inner_vlan_pri vals h)
rows_store e set_outer_vlan_id = λ vals h. inl (u16-Kept e set_outer_vlan_id vals h)
rows_store e set_outer_vlan_pri = λ vals h. inl (u8-Kept e set_outer_vlan_pri vals h)
rows_store e set_src_mac = λ vals h. inl (mac-Kept e set_src_mac vals h)
rows_store e set_dst_mac = λ vals h. inl (mac-Kept e set_dst_mac vals h)
rows_store e set_src_ip = λ vals h. inl (ipv4-Kept e set_src_ip vals h)
rows_store e set_dst_ip = λ vals h. inl (ipv4-Kept e set_dst_ip vals h)
rows_store e set_src_ipv6 = λ vals h. inl (ipv6-Kept e set_src_ipv6 vals h)
rows_store e set_dst_ipv6 = λ vals h. inl (ipv6-Kept e set_dst_ipv6 vals h)
rows_store e set_dscp = λ vals h. inl (u8-Kept e set_dscp vals h)
rows_store e set_l4_src_port = λ vals h. inl (u16-Kept e set_l4_src_port vals h)
rows_store e set_l4_dst_port = λ vals h. inl (u16-Kept e set_l4_dst_port vals h)
rows_store e set_cpu_queue = λ vals h. inl (opaque_data-Kept e set_cpu_queue vals h)
rows_store e egress_mask = λ vals h. ifindex_list-Kept e egress_mask vals h
rows_store e redirect_port_list = λ vals h. ifindex_list-Kept e redirect_port_list vals h
rows_store e (other_action n) = tt

info_or : ActionInfo → Option ActionInfo → ActionInfo
info_or d none = d
info_or d (some info) = info

pub for_info :
    (P : ActionInfo → Type 0) (info : ActionInfo) (o : Option ActionInfo)
    → ForInfo P o
    → o ≡ some info
    → P info
unfolding info_or
for_info P info none h p = cc
for_info P info (some i) h p = subst P (ap (info_or i) p) h

-- For every action type that the action map has a row for and every list of values that fits the
-- layout of the row, the set method of the row stores the values in a new action and the get
-- method of the row gives values back, or the set method refuses with the error for a bad value,
-- which only the methods for a packet action, an interface and a list of interfaces can do. What
-- is given back is what was stored, except that a list of interfaces comes without its LAGs, and
-- a list of object ids has at each id the last table that was given for it. A row without a value
-- has no layout.
pub set-get_action :
    (e : ActionEnv) (t : ActionType) (info : ActionInfo) (vals : List CommonData)
    → action_info e.consts t ≡ some info
    → FitsInfo info vals
    → Stores e t info vals
set-get_action e t info vals p fits =
    for_info (RowStores e t) info (action_info e.consts t) (rows_store e t) p vals fits
