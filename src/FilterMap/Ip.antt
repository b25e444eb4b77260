-- ===== src/FilterMap/Ip.antt =====
-- src/nas_acl_cps_filter_map.cpp, _filter_map: the rows for the L4 ports, the Ethernet type and the fields of the IP header.
use sonic_nas_acl.Base.{[], ◌∷◌}
use sonic_nas_acl.Env.{Consts}
use sonic_nas_acl.CpsMap.{DataType, AttrMode, FilterFn, FilterInfo, map_data, max_ip_flags}

unfoldable pub l4_src_port_info : Consts → FilterInfo
l4_src_port_info c = record {
  name = "MATCH_TYPE_L4_SRC_PORT";
  val =
      map_data "BASE_ACL_ENTRY_MATCH_L4_SRC_PORT_VALUE" DataType.embedded 0 AttrMode.mandatory 0 0;
  child_list =
      map_data "BASE_ACL_ENTRY_MATCH_L4_SRC_PORT_VALUE_DATA" DataType.u16 2 AttrMode.mandatory 0 0
      ∷ map_data "BASE_ACL_ENTRY_MATCH_L4_SRC_PORT_VALUE_MASK" DataType.u16 2 AttrMode.optional 0 0
      ∷ [];
  get_fn = FilterFn.u16;
  set_fn = FilterFn.u16;
}

unfoldable pub l4_dst_port_info : Consts → FilterInfo
l4_dst_port_info c = record {
  name = "MATCH_TYPE_L4_DST_PORT";
  val =
      map_data "BASE_ACL_ENTRY_MATCH_L4_DST_PORT_VALUE" DataType.embedded 0 AttrMode.mandatory 0 0;
  child_list =
      map_data "BASE_ACL_ENTRY_MATCH_L4_DST_PORT_VALUE_DATA" DataType.u16 2 AttrMode.mandatory 0 0
      ∷ map_data "BASE_ACL_ENTRY_MATCH_L4_DST_PORT_VALUE_MASK" DataType.u16 2 AttrMode.optional 0 0
      ∷ [];
  get_fn = FilterFn.u16;
  set_fn = FilterFn.u16;
}

unfoldable pub ether_type_info : Consts → FilterInfo
ether_type_info c = record {
  name = "MATCH_TYPE_ETHER_TYPE";
  val = map_data "BASE_ACL_ENTRY_MATCH_ETHER_TYPE_VALUE" DataType.embedded 0 AttrMode.mandatory 0 0;
  child_list =
      map_data "BASE_ACL_ENTRY_MATCH_ETHER_TYPE_VALUE_DATA" DataType.u16 2 AttrMode.mandatory 0 0
      ∷ map_data "BASE_ACL_ENTRY_MATCH_ETHER_TYPE_VALUE_MASK" DataType.u16 2 AttrMode.optional 0 0
      ∷ [];
  get_fn = FilterFn.u16;
  set_fn = FilterFn.u16;
}

unfoldable pub ip_protocol_info : Consts → FilterInfo
ip_protocol_info c = record {
  name = "MATCH_TYPE_IP_PROTOCOL";
  val =
      map_data "BASE_ACL_ENTRY_MATCH_IP_PROTOCOL_VALUE" DataType.embedded 0 AttrMode.mandatory 0 0;
  child_list =
      map_data "BASE_ACL_ENTRY_MATCH_IP_PROTOCOL_VALUE_DATA" DataType.u8 1 AttrMode.mandatory 0 0
      ∷ map_data "BASE_ACL_ENTRY_MATCH_IP_PROTOCOL_VALUE_MASK" DataType.u8 1 AttrMode.optional 0 0
      ∷ [];
  get_fn = FilterFn.u8;
  set_fn = FilterFn.u8;
}

unfoldable pub dscp_info : Consts → FilterInfo
dscp_info c = record {
  name = "MATCH_TYPE_DSCP";
  val = map_data "BASE_ACL_ENTRY_MATCH_DSCP_VALUE" DataType.embedded 0 AttrMode.mandatory 0 0;
  child_list =
      map_data "BASE_ACL_ENTRY_MATCH_DSCP_VALUE_DATA" DataType.u8 1 AttrMode.mandatory 0 c.max_dscp
      ∷ map_data "BASE_ACL_ENTRY_MATCH_DSCP_VALUE_MASK" DataType.u8 1 AttrMode.optional 0 c.max_dscp
      ∷ [];
  get_fn = FilterFn.u8;
  set_fn = FilterFn.u8;
}

unfoldable pub ttl_info : Consts → FilterInfo
ttl_info c = record {
  name = "MATCH_TYPE_TTL";
  val = map_data "BASE_ACL_ENTRY_MATCH_TTL_VALUE" DataType.embedded 0 AttrMode.mandatory 0 0;
  child_list =
      map_data "BASE_ACL_ENTRY_MATCH_TTL_VALUE_DATA" DataType.u8 1 AttrMode.mandatory 0 0
      ∷ map_data "BASE_ACL_ENTRY_MATCH_TTL_VALUE_MASK" DataType.u8 1 AttrMode.optional 0 0
      ∷ [];
  get_fn = FilterFn.u8;
  set_fn = FilterFn.u8;
}

unfoldable pub tos_info : Consts → FilterInfo
tos_info c = record {
  name = "MATCH_TYPE_TOS";
  val = map_data "BASE_ACL_ENTRY_MATCH_TOS_VALUE" DataType.embedded 0 AttrMode.mandatory 0 0;
  child_list =
      map_data "BASE_ACL_ENTRY_MATCH_TOS_VALUE_DATA" DataType.u8 1 AttrMode.mandatory 0 0
      ∷ map_data "BASE_ACL_ENTRY_MATCH_TOS_VALUE_MASK" DataType.u8 1 AttrMode.optional 0 0
      ∷ [];
  get_fn = FilterFn.u8;
  set_fn = FilterFn.u8;
}

unfoldable pub ip_flags_info : Consts → FilterInfo
ip_flags_info c = record {
  name = "MATCH_TYPE_IP_FLAGS";
  val = map_data "BASE_ACL_ENTRY_MATCH_IP_FLAGS_VALUE" DataType.embedded 0 AttrMode.mandatory 0 0;
  child_list =
      map_data "BASE_ACL_ENTRY_MATCH_IP_FLAGS_VALUE_DATA" DataType.u8 1 AttrMode.mandatory 0
        max_ip_flags
      ∷ map_data "BASE_ACL_ENTRY_MATCH_IP_FLAGS_VALUE_MASK" DataType.u8 1 AttrMode.optional 0
          max_ip_flags
      ∷ [];
  get_fn = FilterFn.u8;
  set_fn = FilterFn.u8;
}
