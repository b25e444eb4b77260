-- ===== src/ActionMap/Forward.antt =====
-- src/nas_acl_cps_action_map.cpp, _action_map: the rows that forward, mirror, count or police.
use sonic_nas_acl.Base.{none, some, [], ◌∷◌}
use sonic_nas_acl.Env.{Consts}
use sonic_nas_acl.CpsMap.{DataType, AttrMode, ActionFn, ActionInfo, map_data}

unfoldable pub packet_action_info : Consts → ActionInfo
packet_action_info c = record {
  name = "ACTION_TYPE_PACKET_ACTION";
  val = map_data "BASE_ACL_ENTRY_ACTION_PACKET_ACTION_VALUE" DataType.u32 4 AttrMode.mandatory 0 0;
  child_list = map_data "0" DataType.nothing 0 AttrMode.mandatory 0 0 ∷ [];
  get_fn = some ActionFn.pkt_action;
  set_fn = some ActionFn.pkt_action;
}

unfoldable pub redirect_port_info : Consts → ActionInfo
redirect_port_info c = record {
  name = "ACTION_TYPE_REDIRECT_PORT";
  val =
      map_data "BASE_ACL_ENTRY_ACTION_REDIRECT_PORT_VALUE" DataType.ifindex 4 AttrMode.mandatory 0
        0;
  child_list = map_data "0" DataType.nothing 0 AttrMode.mandatory 0 0 ∷ [];
  get_fn = some ActionFn.ifindex;
  set_fn = some ActionFn.ifindex;
}

unfoldable pub redirect_ip_nexthop_info : Consts → ActionInfo
redirect_ip_nexthop_info c = record {
  name = "ACTION_TYPE_REDIRECT_IP_NEXTHOP";
  val =
      map_data "BASE_ACL_ENTRY_ACTION_IP_NEXTHOP_GROUP_VALUE" DataType.embedded 0 AttrMode.mandatory
        0 0;
  child_list =
      map_data "BASE_ACL_ENTRY_ACTION_IP_NEXTHOP_GROUP_VALUE_ID" DataType.obj_id 8
        AttrMode.mandatory 0 0
      ∷ map_data "BASE_ACL_ENTRY_ACTION_IP_NEXTHOP_GROUP_VALUE_DATA" DataType.opaque 0
          AttrMode.mandatory 0 0
      ∷ [];
  get_fn = some ActionFn.opaque_data;
  set_fn = some ActionFn.opaque_data;
}

unfoldable pub flood_info : Consts → ActionInfo
flood_info c = record {
  name = "ACTION_TYPE_FLOOD";
  val = map_data "0" DataType.nothing 0 AttrMode.mandatory 0 0;
  child_list = [];
  get_fn = none;
  set_fn = none;
}

unfoldable pub mirror_ingress_info : Consts → ActionInfo
mirror_ingress_info c = record {
  name = "ACTION_TYPE_MIRROR_INGRESS";
  val =
      map_data "BASE_ACL_ENTRY_ACTION_MIRROR_INGRESS_VALUE" DataType.embedded_list 0
        AttrMode.mandatory 0 0;
  child_list =
      map_data "BASE_ACL_ENTRY_ACTION_MIRROR_INGRESS_VALUE_INDEX" DataType.obj_id 8
        AttrMode.mandatory 0 0
      ∷ map_data "BASE_ACL_ENTRY_ACTION_MIRROR_INGRESS_VALUE_DATA" DataType.opaque 0
          AttrMode.mandatory 0 0
      ∷ [];
  get_fn = some ActionFn.opaque_data;
  set_fn = some ActionFn.opaque_data_list;
}

unfoldable pub mirror_egress_info : Consts → ActionInfo
mirror_egress_info c = record {
  name = "ACTION_TYPE_MIRROR_EGRESS";
  val =
      map_data "BASE_ACL_ENTRY_ACTION_MIRROR_EGRESS_VALUE" DataType.embedded_list 0
        AttrMode.mandatory 0 0;
  child_list =
      map_data "BASE_ACL_ENTRY_ACTION_MIRROR_EGRESS_VALUE_INDEX" DataType.obj_id 8
        AttrMode.mandatory 0 0
      ∷ map_data "BASE_ACL_ENTRY_ACTION_MIRROR_EGRESS_VALUE_DATA" DataType.opaque 0
          AttrMode.mandatory 0 0
      ∷ [];
  get_fn = some ActionFn.opaque_data;
  set_fn = some ActionFn.opaque_data_list;
}

unfoldable pub set_counter_info : Consts → ActionInfo
set_counter_info c = record {
  name = "ACTION_TYPE_SET_COUNTER";
  val = map_data "BASE_ACL_ENTRY_ACTION_COUNTER_VALUE" DataType.obj_id 8 AttrMode.mandatory 0 0;
  child_list = [];
  get_fn = some ActionFn.obj_id;
  set_fn = some ActionFn.obj_id;
}

unfoldable pub set_policer_info : Consts → ActionInfo
set_policer_info c = record {
  name = "ACTION_TYPE_SET_POLICER";
  val = map_data "BASE_ACL_ENTRY_ACTION_POLICER_VALUE" DataType.embedded 0 AttrMode.mandatory 0 0;
  child_list =
      map_data "BASE_ACL_ENTRY_ACTION_POLICER_VALUE_INDEX" DataType.obj_id 8 AttrMode.mandatory 0 0
      ∷ map_data "BASE_ACL_ENTRY_ACTION_POLICER_VALUE_DATA" DataType.opaque 0 AttrMode.mandatory 0 0
      ∷ [];
  get_fn = some ActionFn.opaque_data;
  set_fn = some ActionFn.opaque_data;
}

unfoldable pub decrement_ttl_info : Consts → ActionInfo
decrement_ttl_info c = record {
  name = "ACTION_TYPE_DECREMENT_TTL";
  val = map_data "0" DataType.nothing 0 AttrMode.mandatory 0 0;
  child_list = [];
  get_fn = none;
  set_fn = none;
}

unfoldable pub set_cpu_queue_info : Consts → ActionInfo
set_cpu_queue_info c = record {
  name = "ACTION_TYPE_SET_CPU_QUEUE";
  val = map_data "BASE_ACL_ENTRY_ACTION_CPU_QUEUE_VALUE" DataType.embedded 0 AttrMode.mandatory 0 0;
  child_list =
      map_data "BASE_ACL_ENTRY_ACTION_CPU_QUEUE_VALUE_INDEX" DataType.obj_id 8 AttrMode.mandatory 0
        0
      ∷ map_data "BASE_ACL_ENTRY_ACTION_CPU_QUEUE_VALUE_DATA" DataType.opaque 0 AttrMode.mandatory 0
          0
      ∷ [];
  get_fn = some ActionFn.opaque_data;
  set_fn = some ActionFn.opaque_data;
}

unfoldable pub egress_mask_info : Consts → ActionInfo
egress_mask_info c = record {
  name = "ACTION_TYPE_EGRESS_MASK";
  val = map_data "BASE_ACL_ENTRY_ACTION_EGRESS_MASK_VALUE" DataType.iflist 0 AttrMode.mandatory 0 0;
  child_list = map_data "0" DataType.nothing 0 AttrMode.mandatory 0 0 ∷ [];
  get_fn = some ActionFn.ifindex_list;
  set_fn = some ActionFn.ifindex_list;
}

unfoldable pub redirect_port_list_info : Consts → ActionInfo
redirect_port_list_info c = record {
  name = "ACTION_TYPE_REDIRECT_PORT_LIST";
  val =
      map_data "BASE_ACL_ENTRY_ACTION_REDIRECT_PORT_LIST_VALUE" DataType.iflist 0 AttrMode.mandatory
        0 0;
  child_list = map_data "0" DataType.nothing 0 AttrMode.mandatory 0 0 ∷ [];
  get_fn = some ActionFn.ifindex_list;
  set_fn = some ActionFn.ifindex_list;
}
