-- ===== src/Filter/RoundTrip.antt =====
-- src/nas_acl_cps_filter_map.cpp, src/nas_acl_filter.cpp: the rows of the filter map with their
-- methods.
use sonic_nas_acl.Base.{◌≡◌, ap, subst, inl, Option, none, some, List}
use sonic_nas_acl.Common.{CommonData}
use sonic_nas_acl.CpsMap.{FilterInfo}
use sonic_nas_acl.Filter.Values.{FilterEnv}
use sonic_nas_acl.FilterMap.{filter_info}
use sonic_nas_acl.Types.{
  MatchType, other_match, src_ipv6, dst_ipv6, src_mac, dst_mac, src_ip, dst_ip, in_ports, out_ports,
  in_port, out_port, outer_vlan_id, outer_vlan_pri, outer_vlan_cfi, inner_vlan_id, inner_vlan_pri,
  inner_vlan_cfi, l4_src_port, l4_dst_port, ether_type, ip_protocol, dscp, ttl, tos, ip_flags,
  tcp_flags, ip_type, ip_frag, ipv6_flow_label, tc, ecn, icmp_type, icmp_code,
}
use sonic_nas_acl.Filter.Layout.{FitsInfo, Stores, RowStores}
use sonic_nas_acl.Filter.Methods.{
  u8-Pair, u16-Pair, u32-Pair, ipv4-Pair, ipv6-Pair, mac-Pair, u8_alone, ip_type-Checked,
  ip_frag-Checked, ifindex-Checked, iflist_stored,
}

abbrev pub ForInfo : (FilterInfo → Type 0) → Option FilterInfo → Type 0
ForInfo P none = Unit
ForInfo P (some info) = P info

rows_store : (e : FilterEnv) (t : MatchType) → ForInfo (RowStores e t) (filter_info e.consts t)
unfolding filter_info
rows_store e src_ipv6 = λ vals h. inl (ipv6-Pair e src_ipv6 vals h)
rows_store e dst_ipv6 = λ vals h. inl (ipv6-Pair e dst_ipv6 vals h)
rows_store e src_mac = λ vals h. inl (mac-Pair e src_mac vals h)
rows_store e dst_mac = λ vals h. inl (mac-Pair e dst_mac vals h)
rows_store e src_ip = λ vals h. inl (ipv4-Pair e src_ip vals h)
rows_store e dst_ip = λ vals h. inl (ipv4-Pair e dst_ip vals h)
rows_store e in_ports = λ vals h. inl (iflist_stored e in_ports vals h)
rows_store e out_ports = λ vals h. inl (iflist_stored e out_ports vals h)
rows_store e in_port = λ vals h. ifindex-Checked e in_port vals h
rows_store e out_port = λ vals h. ifindex-Checked e out_port vals h
rows_store e outer_vlan_id = λ vals h. inl (u16-Pair e outer_vlan_id vals h)
rows_store e outer_vlan_pri = λ vals h. inl (u8-Pair e outer_vlan_pri vals h)
rows_store e outer_vlan_cfi = λ vals h. inl (u8_alone e outer_vlan_cfi vals h)
rows_store e inner_vlan_id = λ vals h. inl (u16-Pair e inner_vlan_id vals h)
rows_store e inner_vlan_pri = λ vals h. inl (u8-Pair e inner_vlan_pri vals h)
rows_store e inner_vlan_cfi = λ vals h. inl (u8_alone e inner_vlan_cfi vals h)
rows_store e l4_src_port = λ vals h. inl (u16-Pair e l4_src_port vals h)
rows_store e l4_dst_port = λ vals h. inl (u16-Pair e l4_dst_port vals h)
rows_store e ether_type = λ vals h. inl (u16-Pair e ether_type vals h)
rows_store e ip_protocol = λ vals h. inl (u8-Pair e ip_protocol vals h)
rows_store e dscp = λ vals h. inl (u8-Pair e dscp vals h)
rows_store e ttl = λ vals h. inl (u8-Pair e ttl vals h)
rows_store e tos = λ vals h. inl (u8-Pair e tos vals h)
rows_store e ip_flags = λ vals h. inl (u8-Pair e ip_flags vals h)
rows_store e tcp_flags = λ vals h. inl (u8-Pair e tcp_flags vals h)
rows_store e ip_type = λ vals h. ip_type-Checked e ip_type vals h
rows_store e ip_frag = λ vals h. ip_frag-Checked e ip_frag vals h
rows_store e ipv6_flow_label = λ vals h. inl (u32-Pair e ipv6_flow_label vals h)
rows_store e tc = λ vals h. inl (u8-Pair e tc vals h)
rows_store e ecn = λ vals h. inl (u8-Pair e ecn vals h)
rows_store e icmp_type = λ vals h. inl (u8-Pair e icmp_type vals h)
rows_store e icmp_code = λ vals h. inl (u8-Pair e icmp_code vals h)
rows_store e (other_match n) = tt

info_or : FilterInfo → Option FilterInfo → FilterInfo
info_or d none = d
info_or d (some info) = info

pub for_info :
    (P : FilterInfo → Type 0) (info : FilterInfo) (o : Option FilterInfo)
    → ForInfo P o
    → o ≡ some info
    → P info
unfolding info_or
for_info P info none h p = cc
for_info P info (some i) h p = subst P (ap (info_or i) p) h

-- For every match type that the filter map has a row for and every list of values that fits the
-- layout of the row (the attribute types and lengths of the value or of its children), the set
-- method of the row stores the values in a new filter and the get method of the row then gives
-- them back, or the set method refuses with the error for a bad value, which only the methods for
-- an IP type, an IP fragment and a single interface can do. Given back means: a number that is
-- not embedded is followed by a mask 0, and an empty list of interfaces gives nothing. No row
-- reads past a list or reads a union member that was not written.
pub set-get_round_trip :
    (e : FilterEnv) (t : MatchType) (info : FilterInfo) (vals : List CommonData)
    → filter_info e.consts t ≡ some info
    → FitsInfo info vals
    → Stores e t info vals
set-get_round_trip e t info vals p fits =
    for_info (RowStores e t) info (filter_info e.consts t) (rows_store e t) p vals fits
