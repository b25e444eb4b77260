-- ===== src/CpsFilter/Reads.antt =====
-- src/nas_acl_cps_utils.cpp, src/nas_acl_cps_filter.cpp: what reading a filter from a CPS object
-- gives.
use sonic_nas_acl.Base.{
  ◌≡◌, refl, sym, true, subst, ◌⊎◌, inl, inr, some, List, [], ◌∷◌, ◌++◌, arith,
}
use sonic_nas_acl.Common.{CommonData}
use sonic_nas_acl.CpsApi.{CpsApi, AttrPath, named}
use sonic_nas_acl.CpsEnv.{CpsEnv, HaveSize}
use sonic_nas_acl.CpsFilter.{read_match}
use sonic_nas_acl.CpsMap.{FilterInfo, DataType}
use sonic_nas_acl.CpsUtils.Read.{nas_acl_copy_data_from_obj}
use sonic_nas_acl.CpsUtils.Fits.{IsReadable}
use sonic_nas_acl.CpsUtils.Copied.{IsReadableAs, FitsAs, copied_fits, copied-Reports}
use sonic_nas_acl.CpsUtils.Ranges.{IsPlainList}
use sonic_nas_acl.Env.{Consts}
use sonic_nas_acl.Filter.{Filter, blank_filter}
use sonic_nas_acl.Filter.Layout.{FitsInfo, Layout, read_back}
use sonic_nas_acl.Filter.RoundTrip.{set-get_round_trip, ForInfo, for_info}
use sonic_nas_acl.Filter.Values.{call_set_fn, call_get_fn}
use sonic_nas_acl.FilterMap.{filter_info}
use sonic_nas_acl.Result.{Result, ok, err, Error, ◌>>=◌, is_reported, attr_val}
use sonic_nas_acl.Types.{
  MatchType, src_ipv6, dst_ipv6, src_mac, dst_mac, src_ip, dst_ip, in_ports, out_ports, in_port,
  out_port, outer_vlan_id, outer_vlan_pri, outer_vlan_cfi, inner_vlan_id, inner_vlan_pri,
  inner_vlan_cfi, l4_src_port, l4_dst_port, ether_type, ip_protocol, dscp, ttl, tos, ip_flags,
  tcp_flags, ip_type, ip_frag, ipv6_flow_label, tc, ecn, icmp_type, icmp_code, other_match,
}

abbrev pub RowReadable : FilterInfo → Type 0
RowReadable info =
    IsPlainList info.val.data_type × IsReadableAs info.val.data_type info.val info.child_list

pub rows_readable :
    (c : Consts) → HaveSize c → (t : MatchType) → ForInfo RowReadable (filter_info c t)
unfolding filter_info
rows_readable c s src_ipv6 = (tt, (s.ipv6, (s.ipv6, tt)))
rows_readable c s dst_ipv6 = (tt, (s.ipv6, (s.ipv6, tt)))
rows_readable c s src_mac = (tt, (s.mac, (s.mac, tt)))
rows_readable c s dst_mac = (tt, (s.mac, (s.mac, tt)))
rows_readable c s src_ip = (tt, (s.ipv4, (s.ipv4, tt)))
rows_readable c s dst_ip = (tt, (s.ipv4, (s.ipv4, tt)))
rows_readable c s in_ports = (tt, tt)
rows_readable c s out_ports = (tt, tt)
rows_readable c s in_port = (tt, (tt, tt))
rows_readable c s out_port = (tt, (tt, tt))
rows_readable c s outer_vlan_id = (tt, (tt, (tt, tt)))
rows_readable c s outer_vlan_pri = (tt, (λ h. cc, (λ h. cc, tt)))
rows_readable c s outer_vlan_cfi = (tt, (λ h. cc, tt))
rows_readable c s inner_vlan_id = (tt, (tt, (tt, tt)))
rows_readable c s inner_vlan_pri = (tt, (λ h. cc, (λ h. cc, tt)))
rows_readable c s inner_vlan_cfi = (tt, (λ h. cc, tt))
rows_readable c s l4_src_port = (tt, (tt, (tt, tt)))
rows_readable c s l4_dst_port = (tt, (tt, (tt, tt)))
rows_readable c s ether_type = (tt, (tt, (tt, tt)))
rows_readable c s ip_protocol = (tt, (λ h. cc, (λ h. cc, tt)))
rows_readable c s dscp = (tt, (λ h. cc, (λ h. cc, tt)))
rows_readable c s ttl = (tt, (λ h. cc, (λ h. cc, tt)))
rows_readable c s tos = (tt, (λ h. cc, (λ h. cc, tt)))
rows_readable c s ip_flags = (tt, (λ h. cc, (λ h. cc, tt)))
rows_readable c s tcp_flags = (tt, (λ h. cc, (λ h. cc, tt)))
rows_readable c s ip_type = (tt, (tt, tt))
rows_readable c s ip_frag = (tt, (tt, tt))
rows_readable c s ipv6_flow_label = (tt, (tt, (tt, tt)))
rows_readable c s tc = (tt, (λ h. cc, (λ h. cc, tt)))
rows_readable c s ecn = (tt, (λ h. cc, (λ h. cc, tt)))
rows_readable c s icmp_type = (tt, (λ h. cc, (λ h. cc, tt)))
rows_readable c s icmp_code = (tt, (λ h. cc, (λ h. cc, tt)))
rows_readable c s (other_match n) = tt

module _ {Ob : Type 0} ⦃api : CpsApi Ob⦄ (env : CpsEnv) (ob : Ob) (t : MatchType)
    (info : FilterInfo) (path : AttrPath) where
  -- A code that the request answers with, or a filter whose value is what the object has.
  abbrev pub Reads : Type 0
  Reads =
      ((x : Error) × (read_match env ob t info path ≡ err x) × (is_reported x ≡ true))
      ⊎ ((f : Filter) × (vals : List CommonData) × (nas_acl_copy_data_from_obj ob
              (path ++ named info.val.attr_id ∷ []) info.val info.child_list
            ≡ ok vals)
          × (read_match env ob t info path ≡ ok f)
          × (call_get_fn env.filter_env info.get_fn f ≡ ok (read_back info vals)))

  pub read_as :
      (type : DataType)
      → info.val.data_type ≡ type
      → IsReadableAs type info.val info.child_list
      → read_match env ob t info path ≡ (
          nas_acl_copy_data_from_obj ob
            (path ++ named info.val.attr_id ∷ [])
            info.val
            info.child_list
          >>= λ vals. call_set_fn env.filter_env info.set_fn vals (blank_filter t))
  unfolding read_match
  read_as DataType.nothing is (r, u) = absurd (subst (λ y. IsReadable y info.val.data_len) is r)
  read_as _ is r = ground arith

  fits_row :
      (type : DataType) (vals : List CommonData)
      → info.val.data_type ≡ type
      → IsPlainList type
      → FitsAs type info.val info.child_list vals
      → FitsInfo info vals
  fits_row DataType.embedded vals is r fits = subst (λ type. Layout type info vals) (sym is) fits
  fits_row DataType.nothing vals is r fits = absurd fits
  fits_row DataType.embedded_list vals is r fits = absurd r
  fits_row _ vals is r fits = subst (λ type. Layout type info vals) (sym is) fits

  found :
      RowReadable info
      → filter_info env.filter_env.consts t ≡ some info
      → (r : Result (List CommonData))
      → nas_acl_copy_data_from_obj ob (path ++ named info.val.attr_id ∷ []) info.val info.child_list
        ≡ r
      → Reads
  unfolding read_match
  found (nl, r) row (err x) p = inl (
    x,
    ground (arith, read_as info.val.data_type refl r),
    copied-Reports ob path (named info.val.attr_id) info.val info.child_list info.val.data_type refl
        r x p,
  )
  found (nl, r) row (ok vals) p =
      let fits =
        copied_fits ob path (named info.val.attr_id) info.val info.child_list info.val.data_type
          vals refl r p in
      let same = read_as info.val.data_type refl r in
      elim (set-get_round_trip env.filter_env t info vals row
        (fits_row info.val.data_type vals refl nl fits)) [
          | inl (f, set, get) ↦ inr (f, vals, p, ground arith, get)
          | inr (may, refused) ↦ inl (attr_val, ground arith, refl)
        ]

module _ {Ob : Type 0} ⦃api : CpsApi Ob⦄ where
  -- For every row of the filter map, every CPS object and every path, when the lengths of MAC,
  -- IPv4 and IPv6 addresses are not 0: reading the filter (nas_acl_copy_data_from_obj, then the
  -- set method of the row) either is an error that the request answers with its code, never a
  -- missing list element, a bad union member or a read past the end; or it gives a filter, and
  -- the get method of the row gives back the values that were copied from the object, in the form
  -- that the round trip of the rows states. What an accessor of the CPS library reads of an
  -- attribute that is shorter than its type is left to the library.
  pub read_match-Reads :
      (env : CpsEnv) (ob : Ob) (t : MatchType) (info : FilterInfo) (path : AttrPath)
      → HaveSize env.filter_env.consts
      → filter_info env.filter_env.consts t ≡ some info
      → Reads env ob t info path
  read_match-Reads env ob t info path s row =
      found env ob t info path
        (for_info RowReadable info (filter_info env.filter_env.consts t)
          (rows_readable env.filter_env.consts s t) row)
        row _ refl
