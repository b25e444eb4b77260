-- ===== src/FilterMap/Vlan.antt =====
-- src/nas_acl_cps_filter_map.cpp, _filter_map: the rows for VLAN tags.
use sonic_nas_acl.Base.{[], ◌∷◌}
use sonic_nas_acl.Env.{Consts}
use sonic_nas_acl.CpsMap.{DataType, AttrMode, FilterFn, FilterInfo, map_data, max_cfi}

unfoldable pub outer_vlan_id_info : Consts → FilterInfo
outer_vlan_id_info c = record {
  name = "MATCH_TYPE_OUTER_VLAN_ID";
  val =
      map_data "BASE_ACL_ENTRY_MATCH_OUTER_VLAN_ID_VALUE" DataType.embedded 0 AttrMode.mandatory 0
        0;
  child_list =
      map_data "BASE_ACL_ENTRY_MATCH_OUTER_VLAN_ID_VALUE_DATA" DataType.u16 2 AttrMode.mandatory 1
        c.max_vlan_id
      ∷ map_data "BASE_ACL_ENTRY_MATCH_OUTER_VLAN_ID_VALUE_MASK" DataType.u16 2 AttrMode.optional 0
          c.max_vlan_id
      ∷ [];
  get_fn = FilterFn.u16;
  set_fn = FilterFn.u16;
}

unfoldable pub outer_vlan_pri_info : Consts → FilterInfo
outer_vlan_pri_info c = record {
  name = "MATCH_TYPE_OUTER_VLAN_PRI";
  val =
      map_data "BASE_ACL_ENTRY_MATCH_OUTER_VLAN_PRI_VALUE" DataType.embedded 0 AttrMode.mandatory 0
        0;
  child_list =
      map_data "BASE_ACL_ENTRY_MATCH_OUTER_VLAN_PRI_VALUE_DATA" DataType.u8 1 AttrMode.mandatory 0
        c.max_dot1p
      ∷ map_data "BASE_ACL_ENTRY_MATCH_OUTER_VLAN_PRI_VALUE_MASK" DataType.u8 1 AttrMode.optional 0
          c.max_dot1p
      ∷ [];
  get_fn = FilterFn.u8;
  set_fn = FilterFn.u8;
}

unfoldable pub outer_vlan_cfi_info : Consts → FilterInfo
outer_vlan_cfi_info c = record {
  name = "MATCH_TYPE_OUTER_VLAN_CFI";
  val =
      map_data "BASE_ACL_ENTRY_MATCH_OUTER_VLAN_CFI_VALUE" DataType.u8 1 AttrMode.mandatory 0
        max_cfi;
  child_list = [];
  get_fn = FilterFn.u8;
  set_fn = FilterFn.u8;
}

unfoldable pub inner_vlan_id_info : Consts → FilterInfo
inner_vlan_id_info c = record {
  name = "MATCH_TYPE_INNER_VLAN_ID";
  val =
      map_data "BASE_ACL_ENTRY_MATCH_INNER_VLAN_ID_VALUE" DataType.embedded 0 AttrMode.mandatory 0
        0;
  child_list =
      map_data "BASE_ACL_ENTRY_MATCH_INNER_VLAN_ID_VALUE_DATA" DataType.u16 2 AttrMode.mandatory 1
        c.max_vlan_id
      ∷ map_data "BASE_ACL_ENTRY_MATCH_INNER_VLAN_ID_VALUE_MASK" DataType.u16 2 AttrMode.optional 0
          c.max_vlan_id
      ∷ [];
  get_fn = FilterFn.u16;
  set_fn = FilterFn.u16;
}

unfoldable pub inner_vlan_pri_info : Consts → FilterInfo
inner_vlan_pri_info c = record {
  name = "MATCH_TYPE_INNER_VLAN_PRI";
  val =
      map_data "BASE_ACL_ENTRY_MATCH_INNER_VLAN_PRI_VALUE" DataType.embedded 0 AttrMode.mandatory 0
        0;
  child_list =
      map_data "BASE_ACL_ENTRY_MATCH_INNER_VLAN_PRI_VALUE_DATA" DataType.u8 1 AttrMode.mandatory 0
        c.max_dot1p
      ∷ map_data "BASE_ACL_ENTRY_MATCH_INNER_VLAN_PRI_VALUE_MASK" DataType.u8 1 AttrMode.optional 0
          c.max_dot1p
      ∷ [];
  get_fn = FilterFn.u8;
  set_fn = FilterFn.u8;
}

unfoldable pub inner_vlan_cfi_info : Consts → FilterInfo
inner_vlan_cfi_info c = record {
  name = "MATCH_TYPE_INNER_VLAN_CFI";
  val =
      map_data "BASE_ACL_ENTRY_MATCH_INNER_VLAN_CFI_VALUE" DataType.u8 1 AttrMode.mandatory 0
        max_cfi;
  child_list = [];
  get_fn = FilterFn.u8;
  set_fn = FilterFn.u8;
}
