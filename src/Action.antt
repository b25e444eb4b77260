-- ===== src/Action.antt =====
-- sonic/nas_acl_action.h, src/nas_acl_action.cpp: nas_acl_action_t. An action is a value, as a
-- filter is; a method that throws leaves none.
pub mod Values
pub mod Ndi
pub mod Differ
pub mod Calls
pub mod Layout
pub mod Methods
pub mod RoundTrip
use sonic_nas_acl.Base.{ℕ, Bool, true, false, if◌then◌else◌, List, [], ℕ_discrete}
use sonic_nas_acl.Map.{Map}
use sonic_nas_acl.Filter.{NdiPort, zero_bytes}
use sonic_nas_acl.Types.{ActionType, ActionType-discrete, set_counter, other_action}
use sonic_nas_acl.Result.{Result, ok, err, attr_val, undefined_behaviour}

-- ndi_acl_action_values_type_t
pub data ActionKind : Type 0 where
  no_value pkt_action u8 u16 u32 ipv4_addr ipv6_addr mac_addr : ActionKind
  obj_id obj_id_list port portlist : ActionKind

-- The union of the values of ndi_acl_entry_action_t, by the member that was written last.
-- `ndi_obj_ref_list` has the count and the ids that were stored.
pub data ActionUnion : Type 0 where
  zeroed : ActionUnion
  u8 u16 u32 : ℕ → ActionUnion
  ipv4 ipv6 mac : List ℕ → ActionUnion
  ndi_port : ℕ → ℕ → ActionUnion
  ndi_portlist : List NdiPort → ActionUnion
  ndi_obj_ref : ℕ → ActionUnion
  ndi_obj_ref_list : ℕ → List ℕ → ActionUnion

-- ndi_acl_entry_action_t
pub record NdiAction : Type 0 where
  pub action_type : ActionType
  pub values_type : ActionKind
  pub pkt_action : ℕ
  pub values : ActionUnion

pub record Action : Type 0 where
  pub a_info : NdiAction
  pub open a_info use *
  pub ifindex_list : List ℕ
  pub nas_oid : ℕ
  pub nas2ndi_oid_tbl : Map ℕ (Map ℕ ℕ)

-- The constructor, for a valid type.
abbrev pub blank_action : ActionType → Action
blank_action t = record {
  a_info = record {
    action_type = t;
    values_type = ActionKind.no_value;
    pkt_action = 0;
    values = ActionUnion.zeroed;
  };
  ifindex_list = [];
  nas_oid = 0;
  nas2ndi_oid_tbl = [];
}

unfoldable pub is_set_counter : ActionType → Bool
is_set_counter set_counter = true
is_set_counter _ = false

unfoldable pub is_counter : Action → Bool
unfolding is_set_counter
is_counter a = is_set_counter a.action_type

unfoldable pub NdiAction-discrete : Discrete NdiAction
unfolding ℕ_discrete ActionType-discrete
NdiAction-discrete = hlevel (ℕ_discrete, ActionType-discrete)

-- Reading a member of the union: another one than was written is undefined.
abbrev pub union_u8 : ActionUnion → Result ℕ
union_u8 (ActionUnion.u8 n) = ok n
union_u8 ActionUnion.zeroed = ok 0
union_u8 _ = err undefined_behaviour

abbrev pub union_u16 : ActionUnion → Result ℕ
union_u16 (ActionUnion.u16 n) = ok n
union_u16 ActionUnion.zeroed = ok 0
union_u16 _ = err undefined_behaviour

abbrev pub union_u32 : ActionUnion → Result ℕ
union_u32 (ActionUnion.u32 n) = ok n
union_u32 ActionUnion.zeroed = ok 0
union_u32 _ = err undefined_behaviour

abbrev pub union_ipv4 : ℕ → ActionUnion → Result (List ℕ)
union_ipv4 n (ActionUnion.ipv4 bs) = ok bs
union_ipv4 n ActionUnion.zeroed = ok (zero_bytes n)
union_ipv4 n _ = err undefined_behaviour

abbrev pub union_ipv6 : ℕ → ActionUnion → Result (List ℕ)
union_ipv6 n (ActionUnion.ipv6 bs) = ok bs
union_ipv6 n ActionUnion.zeroed = ok (zero_bytes n)
union_ipv6 n _ = err undefined_behaviour

abbrev pub union_mac : ℕ → ActionUnion → Result (List ℕ)
union_mac n (ActionUnion.mac bs) = ok bs
union_mac n ActionUnion.zeroed = ok (zero_bytes n)
union_mac n _ = err undefined_behaviour

abbrev pub union_npu_id : ActionUnion → Result ℕ
union_npu_id (ActionUnion.ndi_port npu p) = ok npu
union_npu_id ActionUnion.zeroed = ok 0
union_npu_id _ = err undefined_behaviour

-- Whether `ndi_portlist.port_list` is NULL.
abbrev pub union_no_portlist : ActionUnion → Result Bool
union_no_portlist (ActionUnion.ndi_portlist l) = ok false
union_no_portlist ActionUnion.zeroed = ok true
union_no_portlist _ = err undefined_behaviour
