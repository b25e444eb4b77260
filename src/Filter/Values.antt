-- ===== src/Filter/Values.antt =====
-- The get and set methods, which a row of the filter map names.
use sonic_nas_acl.Base.{ℕ, Bool, true, false, some, List, [], ◌∷◌, ◌++◌}
use sonic_nas_acl.Env.{Consts, Hal}
use sonic_nas_acl.Common.{
  CommonData, Scalar, scalar_data, bytes_data, iflist_data, as_u8, as_u16, as_u32, as_ifindex, item,
  memcpy,
}
use sonic_nas_acl.CpsMap.{FilterFn}
use sonic_nas_acl.Filter.{
  Filter, FilterKind, FilterUnion, union_u8, union_u16, union_u32, union_ipv4, union_ipv6,
  union_mac, union_ip_type, union_ip_frag,
}
use sonic_nas_acl.Result.{Result, ok, err, ◌>>=◌, ◌>>◌, guard, attr_val, missing_attr}
use sonic_nas_acl.Utl.{nas_acl_utl_ifidx_to_ndi_port}

abbrev with_value : FilterKind → FilterUnion → Filter → Filter
with_value kind u f = record f { f_info = record f.f_info { values_type = some kind; value = u } }

abbrev with_mask : FilterUnion → Filter → Filter
with_mask u f = record f { f_info = record f.f_info { mask = u } }

-- `if (val_list.size () > 1)` a mask follows the value.
abbrev set_mask :
    (CommonData → Result ℕ) → (ℕ → FilterUnion) → List CommonData → Filter → Result Filter
set_mask read member (v ∷ m ∷ rest) f = do n ← read m; ok (with_mask (member n) f)
set_mask read member _ f = ok f

-- One of u8, u16 and u32: the kind, the member of the input's union, and that of the filter's.
abbrev set_number :
    FilterKind
    → (CommonData → Result ℕ)
    → (ℕ → FilterUnion)
    → List CommonData
    → Filter
    → Result Filter
set_number kind read member vals f = do
  v ← item vals 0
  n ← read v
  set_mask read member vals (with_value kind (member n) f)

unfoldable pub set_u32_filter_val : List CommonData → Filter → Result Filter
set_u32_filter_val = set_number FilterKind.u32 as_u32 FilterUnion.u32

unfoldable pub set_u16_filter_val : List CommonData → Filter → Result Filter
set_u16_filter_val = set_number FilterKind.u16 as_u16 FilterUnion.u16

unfoldable pub set_u8_filter_val : List CommonData → Filter → Result Filter
set_u8_filter_val = set_number FilterKind.u8 as_u8 FilterUnion.u8

abbrev set_bytes :
    FilterKind → ℕ → (List ℕ → FilterUnion) → List CommonData → Filter → Result Filter
set_bytes kind len member vals f = do
  v ← item vals 0
  bs ← memcpy len v.bytes
  m ← item vals 1
  ms ← memcpy len m.bytes
  ok (with_mask (member ms) (with_value kind (member bs) f))

unfoldable pub set_ipv4_filter_val : Consts → List CommonData → Filter → Result Filter
set_ipv4_filter_val c = set_bytes FilterKind.ipv4_addr c.ipv4_len FilterUnion.ipv4

unfoldable pub set_ipv6_filter_val : Consts → List CommonData → Filter → Result Filter
set_ipv6_filter_val c = set_bytes FilterKind.ipv6_addr c.ipv6_len FilterUnion.ipv6

unfoldable pub set_mac_filter_val : Consts → List CommonData → Filter → Result Filter
set_mac_filter_val c = set_bytes FilterKind.mac_addr c.mac_len FilterUnion.mac

-- BASE_ACL_MATCH_IP_TYPE_t and BASE_ACL_MATCH_IP_FRAG_t: the names that the code lists. Their
-- numbers are in a generated header.
pub data IpType : Type 0 where
  any ip non_ip ipv4any non_ipv4 ipv6any non_ipv6 arp arp_request arp_reply : IpType
  unlisted : IpType

pub data IpFrag : Type 0 where
  any non_frag non_frag_or_head head non_head : IpFrag
  unlisted : IpFrag

unfoldable pub validate_ip_type_data : IpType → Bool
validate_ip_type_data IpType.any = true
validate_ip_type_data IpType.ip = true
validate_ip_type_data IpType.non_ip = true
validate_ip_type_data IpType.ipv4any = true
validate_ip_type_data IpType.non_ipv4 = true
validate_ip_type_data IpType.ipv6any = true
validate_ip_type_data IpType.non_ipv6 = true
validate_ip_type_data IpType.arp = true
validate_ip_type_data IpType.arp_request = true
validate_ip_type_data IpType.arp_reply = true
validate_ip_type_data _ = false

unfoldable pub validate_ip_frag_data : IpFrag → Bool
validate_ip_frag_data IpFrag.any = true
validate_ip_frag_data IpFrag.non_frag = true
validate_ip_frag_data IpFrag.non_frag_or_head = true
validate_ip_frag_data IpFrag.head = true
validate_ip_frag_data IpFrag.non_head = true
validate_ip_frag_data _ = false

unfoldable pub set_ip_type_filter_val : (ℕ → IpType) → List CommonData → Filter → Result Filter
set_ip_type_filter_val ip_type_of vals f = do
  v ← item vals 0
  n ← as_u32 v
  guard (validate_ip_type_data (ip_type_of n)) attr_val
  ok (with_value FilterKind.ip_type (FilterUnion.ip_type n) f)

unfoldable pub set_ip_frag_filter_val : (ℕ → IpFrag) → List CommonData → Filter → Result Filter
set_ip_frag_filter_val ip_frag_of vals f = do
  v ← item vals 0
  n ← as_u32 v
  guard (validate_ip_frag_data (ip_frag_of n)) attr_val
  ok (with_value FilterKind.ip_frag (FilterUnion.ip_frag n) f)

abbrev pub all_ifindexes : List CommonData → List ℕ
all_ifindexes [] = []
all_ifindexes (d ∷ ds) = d.ifindex_list ++ all_ifindexes ds

unfoldable pub set_filter_ifindex_list : List CommonData → Filter → Result Filter
set_filter_ifindex_list vals f = ok (record f {
  f_info = record f.f_info { values_type = some FilterKind.portlist };
  ifindex_list = f.ifindex_list ++ all_ifindexes vals;
})

unfoldable pub set_filter_ifindex : Hal → List CommonData → Filter → Result Filter
set_filter_ifindex hal [] f = err missing_attr
set_filter_ifindex hal (v ∷ rest) f = do
  ifindex ← as_ifindex v
  intf_ctrl ← nas_acl_utl_ifidx_to_ndi_port hal ifindex
  ok
      (record (with_value FilterKind.port (FilterUnion.ndi_port intf_ctrl.npu_id intf_ctrl.port_id)
        f) { ifindex_list = f.ifindex_list ++ ifindex ∷ [] })

unfoldable pub get_u32_filter_val : Filter → Result (List CommonData)
get_u32_filter_val f = do
  n ← union_u32 f.value
  m ← union_u32 f.mask
  ok (scalar_data (Scalar.u32 n) ∷ scalar_data (Scalar.u32 m) ∷ [])

unfoldable pub get_u16_filter_val : Filter → Result (List CommonData)
get_u16_filter_val f = do
  n ← union_u16 f.value
  m ← union_u16 f.mask
  ok (scalar_data (Scalar.u16 n) ∷ scalar_data (Scalar.u16 m) ∷ [])

unfoldable pub get_u8_filter_val : Filter → Result (List CommonData)
get_u8_filter_val f = do
  n ← union_u8 f.value
  m ← union_u8 f.mask
  ok (scalar_data (Scalar.u8 n) ∷ scalar_data (Scalar.u8 m) ∷ [])

unfoldable pub get_ipv4_filter_val : Consts → Filter → Result (List CommonData)
get_ipv4_filter_val c f = do
  bs ← union_ipv4 c.ipv4_len f.value
  ms ← union_ipv4 c.ipv4_len f.mask
  ok (bytes_data bs ∷ bytes_data ms ∷ [])

unfoldable pub get_ipv6_filter_val : Consts → Filter → Result (List CommonData)
get_ipv6_filter_val c f = do
  bs ← union_ipv6 c.ipv6_len f.value
  ms ← union_ipv6 c.ipv6_len f.mask
  ok (bytes_data bs ∷ bytes_data ms ∷ [])

unfoldable pub get_mac_filter_val : Consts → Filter → Result (List CommonData)
get_mac_filter_val c f = do
  bs ← union_mac c.mac_len f.value
  ms ← union_mac c.mac_len f.mask
  ok (bytes_data bs ∷ bytes_data ms ∷ [])

unfoldable pub get_ip_type_filter_val : Filter → Result (List CommonData)
get_ip_type_filter_val f = do n ← union_ip_type f.value; ok (scalar_data (Scalar.u32 n) ∷ [])

unfoldable pub get_ip_frag_filter_val : Filter → Result (List CommonData)
get_ip_frag_filter_val f = do n ← union_ip_frag f.value; ok (scalar_data (Scalar.u32 n) ∷ [])

unfoldable pub get_filter_ifindex_list : Filter → Result (List CommonData)
get_filter_ifindex_list f = elim f.ifindex_list [
  | [] ↦ ok []
  | i ∷ is ↦ ok (iflist_data (i ∷ is) ∷ [])
]

unfoldable pub get_filter_ifindex : Filter → Result (List CommonData)
get_filter_ifindex f = elim f.ifindex_list [
  | [] ↦ ok []
  | i ∷ is ↦ ok (scalar_data (Scalar.ifindex i) ∷ [])
]

-- What the methods take from outside: the sizes, the HAL, and the numbers of two
-- enumerations.
pub record FilterEnv : Type 0 where
  pub consts : Consts
  pub hal : Hal
  pub ip_type_of : ℕ → IpType
  pub ip_frag_of : ℕ → IpFrag

-- `(filter.*(map_info.set_fn)) (common_data_list)`
unfoldable pub call_set_fn : FilterEnv → FilterFn → List CommonData → Filter → Result Filter
unfolding set_u8_filter_val set_u16_filter_val set_u32_filter_val set_ipv4_filter_val
    set_ipv6_filter_val set_mac_filter_val set_ip_type_filter_val set_ip_frag_filter_val
    set_filter_ifindex_list set_filter_ifindex
call_set_fn e FilterFn.u8 = set_u8_filter_val
call_set_fn e FilterFn.u16 = set_u16_filter_val
call_set_fn e FilterFn.u32 = set_u32_filter_val
call_set_fn e FilterFn.ipv4 = set_ipv4_filter_val e.consts
call_set_fn e FilterFn.ipv6 = set_ipv6_filter_val e.consts
call_set_fn e FilterFn.mac = set_mac_filter_val e.consts
call_set_fn e FilterFn.ip_type = set_ip_type_filter_val e.ip_type_of
call_set_fn e FilterFn.ip_frag = set_ip_frag_filter_val e.ip_frag_of
call_set_fn e FilterFn.ifindex_list = set_filter_ifindex_list
call_set_fn e FilterFn.ifindex = set_filter_ifindex e.hal

-- `(filter.*(map_info.get_fn)) (common_data_list)`, from the empty list.
unfoldable pub call_get_fn : FilterEnv → FilterFn → Filter → Result (List CommonData)
unfolding get_u8_filter_val get_u16_filter_val get_u32_filter_val get_ipv4_filter_val
    get_ipv6_filter_val get_mac_filter_val get_ip_type_filter_val get_ip_frag_filter_val
    get_filter_ifindex_list get_filter_ifindex
call_get_fn e FilterFn.u8 = get_u8_filter_val
call_get_fn e FilterFn.u16 = get_u16_filter_val
call_get_fn e FilterFn.u32 = get_u32_filter_val
call_get_fn e FilterFn.ipv4 = get_ipv4_filter_val e.consts
call_get_fn e FilterFn.ipv6 = get_ipv6_filter_val e.consts
call_get_fn e FilterFn.mac = get_mac_filter_val e.consts
call_get_fn e FilterFn.ip_type = get_ip_type_filter_val
call_get_fn e FilterFn.ip_frag = get_ip_frag_filter_val
call_get_fn e FilterFn.ifindex_list = get_filter_ifindex_list
call_get_fn e FilterFn.ifindex = get_filter_ifindex
