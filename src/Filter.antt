-- ===== src/Filter.antt =====
-- sonic/nas_acl_filter.h, src/nas_acl_filter.cpp: nas_acl_filter_t. A filter is a value: a method
-- returns the changed filter, and one that throws leaves none, since the callers drop the object.
pub mod Values
pub mod Ndi
pub mod Layout
pub mod Methods
pub mod RoundTrip
pub mod Npus
use sonic_nas_acl.Base.{
  ℕ, zero, suc, ◌∷◌, Bool, true, false, Option, none, List, [], if◌then◌else◌, ℕ_discrete,
}
use sonic_nas_acl.Env.{Consts}
use sonic_nas_acl.FilterMap.{nas_acl_filter_is_type_valid}
use sonic_nas_acl.Result.{Result, ok, err, attr_val, undefined_behaviour}
use sonic_nas_acl.Types.{MatchType, MatchType-discrete, in_ports, in_port}

-- ndi_acl_filter_values_type_t
pub data FilterKind : Type 0 where
  u8 u16 u32 ipv4_addr ipv6_addr mac_addr ip_type ip_frag portlist port : FilterKind

pub record NdiPort : Type 0 where
  pub npu_id : ℕ
  pub npu_port : ℕ

-- The union of the values of ndi_acl_entry_filter_t, by the member that was written last; `zeroed`
-- is what `memset` leaves. Addresses are arrays of bytes.
pub data FilterUnion : Type 0 where
  zeroed : FilterUnion
  u8 u16 u32 : ℕ → FilterUnion
  ipv4 ipv6 mac : List ℕ → FilterUnion
  ip_type ip_frag : ℕ → FilterUnion
  ndi_port : ℕ → ℕ → FilterUnion
  ndi_portlist : List NdiPort → FilterUnion

-- ndi_acl_entry_filter_t; `values_type` is `none` until a value is set.
pub record NdiFilter : Type 0 where
  pub filter_type : MatchType
  pub values_type : Option FilterKind
  pub value : FilterUnion
  pub mask : FilterUnion

pub record Filter : Type 0 where
  pub f_info : NdiFilter
  pub open f_info use *
  pub ifindex_list : List ℕ

-- The constructor, for a valid type.
abbrev pub blank_filter : MatchType → Filter
blank_filter t = record {
  f_info = record { filter_type = t; values_type = none; value = zeroed; mask = zeroed };
  ifindex_list = [];
}

unfoldable pub nas_acl_filter_t : Consts → MatchType → Result Filter
nas_acl_filter_t c t =
    if nas_acl_filter_is_type_valid c t then ok (blank_filter t) else err attr_val

-- nas_acl_filter_t::is_npu_specific
unfoldable pub is_npu_specific : MatchType → Bool
is_npu_specific in_ports = true
is_npu_specific in_port = true
is_npu_specific _ = false

unfoldable pub NdiFilter-discrete : Discrete NdiFilter
unfolding ℕ_discrete MatchType-discrete
NdiFilter-discrete = hlevel (ℕ_discrete, MatchType-discrete)

-- Reading a member of the union: another one than was written is undefined.
abbrev pub union_u8 : FilterUnion → Result ℕ
union_u8 (u8 n) = ok n
union_u8 zeroed = ok 0
union_u8 _ = err undefined_behaviour

abbrev pub union_u16 : FilterUnion → Result ℕ
union_u16 (u16 n) = ok n
union_u16 zeroed = ok 0
union_u16 _ = err undefined_behaviour

abbrev pub union_u32 : FilterUnion → Result ℕ
union_u32 (u32 n) = ok n
union_u32 zeroed = ok 0
union_u32 _ = err undefined_behaviour

abbrev pub union_ip_type : FilterUnion → Result ℕ
union_ip_type (ip_type n) = ok n
union_ip_type zeroed = ok 0
union_ip_type _ = err undefined_behaviour

abbrev pub union_ip_frag : FilterUnion → Result ℕ
union_ip_frag (ip_frag n) = ok n
union_ip_frag zeroed = ok 0
union_ip_frag _ = err undefined_behaviour

abbrev pub zero_bytes : ℕ → List ℕ
zero_bytes zero = []
zero_bytes (suc n) = 0 ∷ zero_bytes n

abbrev pub union_ipv4 : ℕ → FilterUnion → Result (List ℕ)
union_ipv4 n (ipv4 bs) = ok bs
union_ipv4 n zeroed = ok (zero_bytes n)
union_ipv4 n _ = err undefined_behaviour

abbrev pub union_ipv6 : ℕ → FilterUnion → Result (List ℕ)
union_ipv6 n (ipv6 bs) = ok bs
union_ipv6 n zeroed = ok (zero_bytes n)
union_ipv6 n _ = err undefined_behaviour

abbrev pub union_mac : ℕ → FilterUnion → Result (List ℕ)
union_mac n (mac bs) = ok bs
union_mac n zeroed = ok (zero_bytes n)
union_mac n _ = err undefined_behaviour

abbrev pub union_npu_id : FilterUnion → Result ℕ
union_npu_id (ndi_port npu p) = ok npu
union_npu_id zeroed = ok 0
union_npu_id _ = err undefined_behaviour

-- Whether `ndi_portlist.port_list` is NULL.
abbrev pub union_no_portlist : FilterUnion → Result Bool
union_no_portlist (ndi_portlist l) = ok false
union_no_portlist zeroed = ok true
union_no_portlist _ = err undefined_behaviour
