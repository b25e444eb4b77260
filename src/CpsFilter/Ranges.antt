-- ===== src/CpsFilter/Ranges.antt =====
-- src/nas_acl_cps_filter_map.cpp: the ranges of the rows of the filter map.
use sonic_nas_acl.Base.{
  ◌^◌, ◌≡◌, refl, Bool, true, ◌&&◌, not, some, List, [], ◌∷◌, ◌++◌, arith, ltb,
}
use sonic_nas_acl.Common.{CommonData}
use sonic_nas_acl.CpsApi.{CpsApi, AttrPath, named}
use sonic_nas_acl.CpsEnv.{HaveSize}
use sonic_nas_acl.CpsFilter.Reads.{RowReadable, rows_readable}
use sonic_nas_acl.CpsMap.{MapData, FilterInfo}
use sonic_nas_acl.CpsUtils.Ranges.{all_in_range, all_sane, attrs_as, copied_in_range}
use sonic_nas_acl.CpsUtils.Read.{nas_acl_copy_data_from_obj}
use sonic_nas_acl.Env.{Consts}
use sonic_nas_acl.Filter.RoundTrip.{ForInfo, for_info}
use sonic_nas_acl.FilterMap.{filter_info}
use sonic_nas_acl.Result.{ok}
use sonic_nas_acl.Types.{
  MatchType, src_ipv6, dst_ipv6, src_mac, dst_mac, src_ip, dst_ip, in_ports, out_ports, in_port,
  out_port, outer_vlan_id, outer_vlan_pri, outer_vlan_cfi, inner_vlan_id, inner_vlan_pri,
  inner_vlan_cfi, l4_src_port, l4_dst_port, ether_type, ip_protocol, dscp, ttl, tos, ip_flags,
  tcp_flags, ip_type, ip_frag, ipv6_flow_label, tc, ecn, icmp_type, icmp_code, other_match,
}

-- The constants of other headers fit the types that they bound, and there is a VLAN id.
abbrev pub sane_consts : Consts → Bool
sane_consts c =
    not (ltb c.max_vlan_id 1)
    && (ltb c.max_vlan_id (2 ^ 16) && (ltb c.max_dot1p (2 ^ 8) && ltb c.max_dscp (2 ^ 8)))

abbrev pub row_attrs : FilterInfo → List MapData
row_attrs info = attrs_as info.val.data_type info.val info.child_list

abbrev RowSane : FilterInfo → Type 0
RowSane info = all_sane (row_attrs info) ≡ true

rows_sane :
    (c : Consts) → sane_consts c ≡ true → (t : MatchType) → ForInfo RowSane (filter_info c t)
unfolding filter_info
rows_sane c h src_ipv6 = refl
rows_sane c h dst_ipv6 = refl
rows_sane c h src_mac = refl
rows_sane c h dst_mac = refl
rows_sane c h src_ip = refl
rows_sane c h dst_ip = refl
rows_sane c h in_ports = refl
rows_sane c h out_ports = refl
rows_sane c h in_port = refl
rows_sane c h out_port = refl
rows_sane c h outer_vlan_id = ground arith
rows_sane c h outer_vlan_pri = ground arith
rows_sane c h outer_vlan_cfi = ground arith
rows_sane c h inner_vlan_id = ground arith
rows_sane c h inner_vlan_pri = ground arith
rows_sane c h inner_vlan_cfi = ground arith
rows_sane c h l4_src_port = refl
rows_sane c h l4_dst_port = refl
rows_sane c h ether_type = refl
rows_sane c h ip_protocol = refl
rows_sane c h dscp = ground arith
rows_sane c h ttl = refl
rows_sane c h tos = refl
rows_sane c h ip_flags = refl
rows_sane c h tcp_flags = refl
rows_sane c h ip_type = refl
rows_sane c h ip_frag = refl
rows_sane c h ipv6_flow_label = refl
rows_sane c h tc = refl
rows_sane c h ecn = refl
rows_sane c h icmp_type = refl
rows_sane c h icmp_code = refl
rows_sane c h (other_match n) = tt

module _ {Ob : Type 0} ⦃api : CpsApi Ob⦄ where
  -- When the lengths of MAC, IPv4 and IPv6 addresses are not 0, the largest VLAN id is at least 1
  -- and fits 16 bits, and the largest 802.1p priority and DSCP fit 8 bits: the values that
  -- nas_acl_copy_data_from_obj copies for a row of the filter map, those that it fills in for an
  -- absent mask included, are one for each attribute of the row, and each is within the range of
  -- its attribute where that has one.
  pub match_values-all_in_range :
      (c : Consts) (ob : Ob) (t : MatchType) (info : FilterInfo) (path : AttrPath)
      (vals : List CommonData)
      → HaveSize c
      → sane_consts c ≡ true
      → filter_info c t ≡ some info
      → nas_acl_copy_data_from_obj ob (path ++ named info.val.attr_id ∷ []) info.val info.child_list
        ≡ ok vals
      → all_in_range (row_attrs info) vals ≡ true
  match_values-all_in_range c ob t info path vals size h row p =
      let (plain, r) = for_info RowReadable info (filter_info c t) (rows_readable c size t) row in
      copied_in_range ob path (named info.val.attr_id) info.val info.child_list info.val.data_type
        vals refl plain r (for_info RowSane info (filter_info c t) (rows_sane c h t) row) p
