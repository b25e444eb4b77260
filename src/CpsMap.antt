-- ===== src/CpsMap.antt =====
-- sonic/nas_acl_cps.h: how the value of a filter or an action is laid out in a CPS object. A member
-- function pointer is the name of its function; an attribute id is the name of its constant.
use Prim.Native.String.{String}
use sonic_nas_acl.Base.{ℕ, Option, List}

pub data DataType : Type 0 where
  nothing u8 u16 u32 u64 obj_id bin ifindex iflist embedded opaque embedded_list : DataType

pub data AttrMode : Type 0 where
  mandatory optional : AttrMode

-- `range_max` 0 stands for no range, `data_len` 0 for any length.
pub record MapData : Type 0 where
  pub attr_id : String
  pub data_type : DataType
  pub data_len : ℕ
  pub mode : AttrMode
  pub range_min : ℕ
  pub range_max : ℕ

abbrev pub map_data : String → DataType → ℕ → AttrMode → ℕ → ℕ → MapData
map_data attr type len mode lo hi = record {
  attr_id = attr;
  data_type = type;
  data_len = len;
  mode = mode;
  range_min = lo;
  range_max = hi;
}

pub data FilterFn : Type 0 where
  u8 u16 u32 ipv4 ipv6 mac ip_type ip_frag ifindex_list ifindex : FilterFn

pub record FilterInfo : Type 0 where
  pub name : String
  pub val : MapData
  pub child_list : List MapData
  pub get_fn : FilterFn
  pub set_fn : FilterFn

pub data ActionFn : Type 0 where
  pkt_action ifindex ifindex_list opaque_data opaque_data_list obj_id : ActionFn
  u8 u16 u32 ipv4 ipv6 mac : ActionFn

-- A row without methods has NULL for them.
pub record ActionInfo : Type 0 where
  pub name : String
  pub val : MapData
  pub child_list : List MapData
  pub get_fn : Option ActionFn
  pub set_fn : Option ActionFn

-- sonic/nas_acl_common.h
abbrev pub max_cfi : ℕ
max_cfi = 0x1

abbrev pub max_ecn : ℕ
max_ecn = 0x3

abbrev pub max_ip_flags : ℕ
max_ip_flags = 0x7

abbrev pub max_ipv6_flow_label : ℕ
max_ipv6_flow_label = 0xfffff
