-- ===== src/FilterMap/Rest.antt =====
-- src/nas_acl_cps_filter_map.cpp, _filter_map: the rows for the flags, the kinds of IP packet and the remaining fields.
use sonic_nas_acl.Base.{[], ◌∷◌}
use sonic_nas_acl.Env.{Consts}
use sonic_nas_acl.CpsMap.{
  DataType, AttrMode, FilterFn, FilterInfo, map_data, max_ecn, max_ipv6_flow_label,
}

unfoldable pub tcp_flags_info : Consts → FilterInfo
tcp_flags_info c = record {
  name = "MATCH_TYPE_TCP_FLAGS";
  val = map_data "BASE_ACL_ENTRY_MATCH_TCP_FLAGS_VALUE" DataType.embedded 0 AttrMode.mandatory 0 0;
  child_list =
      map_data "BASE_ACL_ENTRY_MATCH_TCP_FLAGS_VALUE_DATA" DataType.u8 1 AttrMode.mandatory 0 0
      ∷ map_data "BASE_ACL_ENTRY_MATCH_TCP_FLAGS_VALUE_MASK" DataType.u8 1 AttrMode.optional 0 0
      ∷ [];
  get_fn = FilterFn.u8;
  set_fn = FilterFn.u8;
}

unfoldable pub ip_type_info : Consts → FilterInfo
ip_type_info c = record {
  name = "MATCH_TYPE_IP_TYPE";
  val = map_data "BASE_ACL_ENTRY_MATCH_IP_TYPE_VALUE" DataType.u32 4 AttrMode.mandatory 0 0;
  child_list = [];
  get_fn = FilterFn.ip_type;
  set_fn = FilterFn.ip_type;
}

unfoldable pub ip_frag_info : Consts → FilterInfo
ip_frag_info c = record {
  name = "MATCH_TYPE_IP_FRAG";
  val = map_data "BASE_ACL_ENTRY_MATCH_IP_FRAG_VALUE" DataType.u32 4 AttrMode.mandatory 0 0;
  child_list = [];
  get_fn = FilterFn.ip_frag;
  set_fn = FilterFn.ip_frag;
}

unfoldable pub ipv6_flow_label_info : Consts → FilterInfo
ipv6_flow_label_info c = record {
  name = "MATCH_TYPE_IPV6_FLOW_LABEL";
  val =
      map_data "BASE_ACL_ENTRY_MATCH_IPV6_FLOW_LABEL_VALUE" DataType.embedded 0 AttrMode.mandatory 0
        0;
  child_list =
      map_data "BASE_ACL_ENTRY_MATCH_IPV6_FLOW_LABEL_VALUE_DATA" DataType.u32 4 AttrMode.mandatory 0
        max_ipv6_flow_label
      ∷ map_data "BASE_ACL_ENTRY_MATCH_IPV6_FLOW_LABEL_VALUE_MASK" DataType.u32 4 AttrMode.optional
          0 max_ipv6_flow_label
      ∷ [];
  get_fn = FilterFn.u32;
  set_fn = FilterFn.u32;
}

unfoldable pub tc_info : Consts → FilterInfo
tc_info c = record {
  name = "MATCH_TYPE_TC";
  val = map_data "BASE_ACL_ENTRY_MATCH_TC_VALUE" DataType.embedded 0 AttrMode.mandatory 0 0;
  child_list =
      map_data "BASE_ACL_ENTRY_MATCH_TC_VALUE_DATA" DataType.u8 1 AttrMode.mandatory 0 0
      ∷ map_data "BASE_ACL_ENTRY_MATCH_TC_VALUE_MASK" DataType.u8 1 AttrMode.optional 0 0
      ∷ [];
  get_fn = FilterFn.u8;
  set_fn = FilterFn.u8;
}

unfoldable pub ecn_info : Consts → FilterInfo
ecn_info c = record {
  name = "MATCH_TYPE_ECN";
  val = map_data "BASE_ACL_ENTRY_MATCH_ECN_VALUE" DataType.embedded 0 AttrMode.mandatory 0 0;
  child_list =
      map_data "BASE_ACL_ENTRY_MATCH_ECN_VALUE_DATA" DataType.u8 1 AttrMode.mandatory 0 max_ecn
      ∷ map_data "BASE_ACL_ENTRY_MATCH_ECN_VALUE_MASK" DataType.u8 1 AttrMode.optional 0 max_ecn
      ∷ [];
  get_fn = FilterFn.u8;
  set_fn = FilterFn.u8;
}

unfoldable pub icmp_type_info : Consts → FilterInfo
icmp_type_info c = record {
  name = "MATCH_TYPE_ICMP_TYPE";
  val = map_data "BASE_ACL_ENTRY_MATCH_ICMP_TYPE_VALUE" DataType.embedded 0 AttrMode.mandatory 0 0;
  child_list =
      map_data "BASE_ACL_ENTRY_MATCH_ICMP_TYPE_VALUE_DATA" DataType.u8 1 AttrMode.mandatory 0 0
      ∷ map_data "BASE_ACL_ENTRY_MATCH_ICMP_TYPE_VALUE_MASK" DataType.u8 1 AttrMode.optional 0 0
      ∷ [];
  get_fn = FilterFn.u8;
  set_fn = FilterFn.u8;
}

unfoldable pub icmp_code_info : Consts → FilterInfo
icmp_code_info c = record {
  name = "MATCH_TYPE_ICMP_CODE";
  val = map_data "BASE_ACL_ENTRY_MATCH_ICMP_CODE_VALUE" DataType.embedded 0 AttrMode.mandatory 0 0;
  child_list =
      map_data "BASE_ACL_ENTRY_MATCH_ICMP_CODE_VALUE_DATA" DataType.u8 1 AttrMode.mandatory 0 0
      ∷ map_data "BASE_ACL_ENTRY_MATCH_ICMP_CODE_VALUE_MASK" DataType.u8 1 AttrMode.optional 0 0
      ∷ [];
  get_fn = FilterFn.u8;
  set_fn = FilterFn.u8;
}
