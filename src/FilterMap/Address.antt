-- ===== src/FilterMap/Address.antt =====
-- src/nas_acl_cps_filter_map.cpp, _filter_map: the rows for addresses and ports.
use sonic_nas_acl.Base.{[], ◌∷◌}
use sonic_nas_acl.Env.{Consts}
use sonic_nas_acl.CpsMap.{DataType, AttrMode, FilterFn, FilterInfo, map_data}

unfoldable pub src_ipv6_info : Consts → FilterInfo
src_ipv6_info c = record {
  name = "MATCH_TYPE_SRC_IPV6";
  val = map_data "BASE_ACL_ENTRY_MATCH_SRC_IPV6_VALUE" DataType.embedded 0 AttrMode.mandatory 0 0;
  child_list =
      map_data "BASE_ACL_ENTRY_MATCH_SRC_IPV6_VALUE_ADDR" DataType.bin c.ipv6_len AttrMode.mandatory
        0 0
      ∷ map_data "BASE_ACL_ENTRY_MATCH_SRC_IPV6_VALUE_MASK" DataType.bin c.ipv6_len
          AttrMode.optional 0 0
      ∷ [];
  get_fn = FilterFn.ipv6;
  set_fn = FilterFn.ipv6;
}

unfoldable pub dst_ipv6_info : Consts → FilterInfo
dst_ipv6_info c = record {
  name = "MATCH_TYPE_DST_IPV6";
  val = map_data "BASE_ACL_ENTRY_MATCH_DST_IPV6_VALUE" DataType.embedded 0 AttrMode.mandatory 0 0;
  child_list =
      map_data "BASE_ACL_ENTRY_MATCH_DST_IPV6_VALUE_ADDR" DataType.bin c.ipv6_len AttrMode.mandatory
        0 0
      ∷ map_data "BASE_ACL_ENTRY_MATCH_DST_IPV6_VALUE_MASK" DataType.bin c.ipv6_len
          AttrMode.optional 0 0
      ∷ [];
  get_fn = FilterFn.ipv6;
  set_fn = FilterFn.ipv6;
}

unfoldable pub src_mac_info : Consts → FilterInfo
src_mac_info c = record {
  name = "MATCH_TYPE_SRC_MAC";
  val = map_data "BASE_ACL_ENTRY_MATCH_SRC_MAC_VALUE" DataType.embedded 0 AttrMode.mandatory 0 0;
  child_list =
      map_data "BASE_ACL_ENTRY_MATCH_SRC_MAC_VALUE_ADDR" DataType.bin c.mac_len AttrMode.mandatory 0
        0
      ∷ map_data "BASE_ACL_ENTRY_MATCH_SRC_MAC_VALUE_MASK" DataType.bin c.mac_len AttrMode.optional
          0 0
      ∷ [];
  get_fn = FilterFn.mac;
  set_fn = FilterFn.mac;
}

unfoldable pub dst_mac_info : Consts → FilterInfo
dst_mac_info c = record {
  name = "MATCH_TYPE_DST_MAC";
  val = map_data "BASE_ACL_ENTRY_MATCH_DST_MAC_VALUE" DataType.embedded 0 AttrMode.mandatory 0 0;
  child_list =
      map_data "BASE_ACL_ENTRY_MATCH_DST_MAC_VALUE_ADDR" DataType.bin c.mac_len AttrMode.mandatory 0
        0
      ∷ map_data "BASE_ACL_ENTRY_MATCH_DST_MAC_VALUE_MASK" DataType.bin c.mac_len AttrMode.optional
          0 0
      ∷ [];
  get_fn = FilterFn.mac;
  set_fn = FilterFn.mac;
}

unfoldable pub src_ip_info : Consts → FilterInfo
src_ip_info c = record {
  name = "MATCH_TYPE_SRC_IP";
  val = map_data "BASE_ACL_ENTRY_MATCH_SRC_IP_VALUE" DataType.embedded 0 AttrMode.mandatory 0 0;
  child_list =
      map_data "BASE_ACL_ENTRY_MATCH_SRC_IP_VALUE_ADDR" DataType.bin c.ipv4_len AttrMode.mandatory 0
        0
      ∷ map_data "BASE_ACL_ENTRY_MATCH_SRC_IP_VALUE_MASK" DataType.bin c.ipv4_len AttrMode.optional
          0 0
      ∷ [];
  get_fn = FilterFn.ipv4;
  set_fn = FilterFn.ipv4;
}

unfoldable pub dst_ip_info : Consts → FilterInfo
dst_ip_info c = record {
  name = "MATCH_TYPE_DST_IP";
  val = map_data "BASE_ACL_ENTRY_MATCH_DST_IP_VALUE" DataType.embedded 0 AttrMode.mandatory 0 0;
  child_list =
      map_data "BASE_ACL_ENTRY_MATCH_DST_IP_VALUE_ADDR" DataType.bin c.ipv4_len AttrMode.mandatory 0
        0
      ∷ map_data "BASE_ACL_ENTRY_MATCH_DST_IP_VALUE_MASK" DataType.bin c.ipv4_len AttrMode.optional
          0 0
      ∷ [];
  get_fn = FilterFn.ipv4;
  set_fn = FilterFn.ipv4;
}

unfoldable pub in_ports_info : Consts → FilterInfo
in_ports_info c = record {
  name = "MATCH_TYPE_IN_PORTS";
  val = map_data "BASE_ACL_ENTRY_MATCH_IN_PORTS_VALUE" DataType.iflist 0 AttrMode.mandatory 0 0;
  child_list = [];
  get_fn = FilterFn.ifindex_list;
  set_fn = FilterFn.ifindex_list;
}

unfoldable pub out_ports_info : Consts → FilterInfo
out_ports_info c = record {
  name = "MATCH_TYPE_OUT_PORTS";
  val = map_data "BASE_ACL_ENTRY_MATCH_OUT_PORTS_VALUE" DataType.iflist 0 AttrMode.mandatory 0 0;
  child_list = [];
  get_fn = FilterFn.ifindex_list;
  set_fn = FilterFn.ifindex_list;
}

unfoldable pub in_port_info : Consts → FilterInfo
in_port_info c = record {
  name = "MATCH_TYPE_IN_PORT";
  val = map_data "BASE_ACL_ENTRY_MATCH_IN_PORT_VALUE" DataType.ifindex 4 AttrMode.mandatory 0 0;
  child_list = [];
  get_fn = FilterFn.ifindex;
  set_fn = FilterFn.ifindex;
}

unfoldable pub out_port_info : Consts → FilterInfo
out_port_info c = record {
  name = "MATCH_TYPE_OUT_PORT";
  val = map_data "BASE_ACL_ENTRY_MATCH_OUT_PORT_VALUE" DataType.ifindex 4 AttrMode.mandatory 0 0;
  child_list = [];
  get_fn = FilterFn.ifindex;
  set_fn = FilterFn.ifindex;
}
