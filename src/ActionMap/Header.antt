-- ===== src/ActionMap/Header.antt =====
-- src/nas_acl_cps_action_map.cpp, _action_map: the rows that set a header field or the traffic class.
use sonic_nas_acl.Base.{some, []}
use sonic_nas_acl.Env.{Consts}
use sonic_nas_acl.CpsMap.{DataType, AttrMode, ActionFn, ActionInfo, map_data}

unfoldable pub set_tc_info : Consts → ActionInfo
set_tc_info c = record {
  name = "ACTION_TYPE_SET_TC";
  val = map_data "BASE_ACL_ENTRY_ACTION_NEW_TC_VALUE" DataType.u8 1 AttrMode.mandatory 0 0;
  child_list = [];
  get_fn = some ActionFn.u8;
  set_fn = some ActionFn.u8;
}

unfoldable pub set_inner_vlan_id_info : Consts → ActionInfo
set_inner_vlan_id_info c = record {
  name = "ACTION_TYPE_SET_INNER_VLAN_ID";
  val =
      map_data "BASE_ACL_ENTRY_ACTION_NEW_INNER_VLAN_ID_VALUE" DataType.u16 2 AttrMode.mandatory 1
        c.max_vlan_id;
  child_list = [];
  get_fn = some ActionFn.u16;
  set_fn = some ActionFn.u16;
}

unfoldable pub set_inner_vlan_pri_info : Consts → ActionInfo
set_inner_vlan_pri_info c = record {
  name = "ACTION_TYPE_SET_INNER_VLAN_PRI";
  val =
      map_data "BASE_ACL_ENTRY_ACTION_NEW_INNER_VLAN_PRI_VALUE" DataType.u8 1 AttrMode.mandatory 0
        c.max_dot1p;
  child_list = [];
  get_fn = some ActionFn.u8;
  set_fn = some ActionFn.u8;
}

unfoldable pub set_outer_vlan_id_info : Consts → ActionInfo
set_outer_vlan_id_info c = record {
  name = "ACTION_TYPE_SET_OUTER_VLAN_ID";
  val =
      map_data "BASE_ACL_ENTRY_ACTION_NEW_OUTER_VLAN_ID_VALUE" DataType.u16 2 AttrMode.mandatory 1
        c.max_vlan_id;
  child_list = [];
  get_fn = some ActionFn.u16;
  set_fn = some ActionFn.u16;
}

unfoldable pub set_outer_vlan_pri_info : Consts → ActionInfo
set_outer_vlan_pri_info c = record {
  name = "ACTION_TYPE_SET_OUTER_VLAN_PRI";
  val =
      map_data "BASE_ACL_ENTRY_ACTION_NEW_OUTER_VLAN_PRI_VALUE" DataType.u8 1 AttrMode.mandatory 0
        c.max_dot1p;
  child_list = [];
  get_fn = some ActionFn.u8;
  set_fn = some ActionFn.u8;
}

unfoldable pub set_src_mac_info : Consts → ActionInfo
set_src_mac_info c = record {
  name = "ACTION_TYPE_SET_SRC_MAC";
  val =
      map_data "BASE_ACL_ENTRY_ACTION_NEW_SRC_MAC_VALUE" DataType.bin c.mac_len AttrMode.mandatory 0
        0;
  child_list = [];
  get_fn = some ActionFn.mac;
  set_fn = some ActionFn.mac;
}

unfoldable pub set_dst_mac_info : Consts → ActionInfo
set_dst_mac_info c = record {
  name = "ACTION_TYPE_SET_DST_MAC";
  val =
      map_data "BASE_ACL_ENTRY_ACTION_NEW_DST_MAC_VALUE" DataType.bin c.mac_len AttrMode.mandatory 0
        0;
  child_list = [];
  get_fn = some ActionFn.mac;
  set_fn = some ActionFn.mac;
}

unfoldable pub set_src_ip_info : Consts → ActionInfo
set_src_ip_info c = record {
  name = "ACTION_TYPE_SET_SRC_IP";
  val =
      map_data "BASE_ACL_ENTRY_ACTION_NEW_SRC_IP_VALUE" DataType.bin c.ipv4_len AttrMode.mandatory 0
        0;
  child_list = [];
  get_fn = some ActionFn.ipv4;
  set_fn = some ActionFn.ipv4;
}

unfoldable pub set_dst_ip_info : Consts → ActionInfo
set_dst_ip_info c = record {
  name = "ACTION_TYPE_SET_DST_IP";
  val =
      map_data "BASE_ACL_ENTRY_ACTION_NEW_DST_IP_VALUE" DataType.bin c.ipv4_len AttrMode.mandatory 0
        0;
  child_list = [];
  get_fn = some ActionFn.ipv4;
  set_fn = some ActionFn.ipv4;
}

unfoldable pub set_src_ipv6_info : Consts → ActionInfo
set_src_ipv6_info c = record {
  name = "ACTION_TYPE_SET_SRC_IPV6";
  val =
      map_data "BASE_ACL_ENTRY_ACTION_NEW_SRC_IPV6_VALUE" DataType.bin c.ipv6_len AttrMode.mandatory
        0 0;
  child_list = [];
  get_fn = some ActionFn.ipv6;
  set_fn = some ActionFn.ipv6;
}

unfoldable pub set_dst_ipv6_info : Consts → ActionInfo
set_dst_ipv6_info c = record {
  name = "ACTION_TYPE_SET_DST_IPV6";
  val =
      map_data "BASE_ACL_ENTRY_ACTION_NEW_DST_IPV6_VALUE" DataType.bin c.ipv6_len AttrMode.mandatory
        0 0;
  child_list = [];
  get_fn = some ActionFn.ipv6;
  set_fn = some ActionFn.ipv6;
}

unfoldable pub set_dscp_info : Consts → ActionInfo
set_dscp_info c = record {
  name = "ACTION_TYPE_SET_DSCP";
  val =
      map_data "BASE_ACL_ENTRY_ACTION_NEW_DSCP_VALUE" DataType.u8 1 AttrMode.mandatory 0 c.max_dscp;
  child_list = [];
  get_fn = some ActionFn.u8;
  set_fn = some ActionFn.u8;
}

unfoldable pub set_l4_src_port_info : Consts → ActionInfo
set_l4_src_port_info c = record {
  name = "ACTION_TYPE_SET_L4_SRC_PORT";
  val =
      map_data "BASE_ACL_ENTRY_ACTION_NEW_L4_SRC_PORT_VALUE" DataType.u16 2 AttrMode.mandatory 0 0;
  child_list = [];
  get_fn = some ActionFn.u16;
  set_fn = some ActionFn.u16;
}

unfoldable pub set_l4_dst_port_info : Consts → ActionInfo
set_l4_dst_port_info c = record {
  name = "ACTION_TYPE_SET_L4_DST_PORT";
  val =
      map_data "BASE_ACL_ENTRY_ACTION_NEW_L4_DST_PORT_VALUE" DataType.u16 2 AttrMode.mandatory 0 0;
  child_list = [];
  get_fn = some ActionFn.u16;
  set_fn = some ActionFn.u16;
}
