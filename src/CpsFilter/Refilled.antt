-- ===== src/CpsFilter/Refilled.antt =====
-- src/nas_acl_cps_filter.cpp: a filter that was read from one object, put into another one and read
-- from that.
use sonic_nas_acl.Base.{◌≡◌, refl, true, ◌&&◌, subst, inl, inr, some, List, [], ◌∷◌, ◌++◌, arith}
use sonic_nas_acl.Common.{CommonData}
use sonic_nas_acl.CpsApi.{CpsApi, AttrPath, named}
use sonic_nas_acl.CpsEnv.{CpsEnv, HaveSize}
use sonic_nas_acl.CpsFilter.{read_match, nas_acl_fill_match_attr}
use sonic_nas_acl.CpsFilter.Ranges.{match_values-all_in_range, sane_consts}
use sonic_nas_acl.CpsFilter.Reads.{read_match-Reads, read_as, rows_readable, RowReadable}
use sonic_nas_acl.CpsMap.{FilterInfo, DataType}
use sonic_nas_acl.CpsUtils.Copied.{copied_fits, FitsAs}
use sonic_nas_acl.CpsUtils.Ranges.{all_in_range, attrs_as}
use sonic_nas_acl.CpsUtils.Read.{nas_acl_copy_data_from_obj}
use sonic_nas_acl.CpsUtils.Write.{nas_acl_copy_data_to_obj}
use sonic_nas_acl.CpsUtils.Written.{all_flat, all_differ, AllAbsent, written-read}
use sonic_nas_acl.Env.{Consts}
use sonic_nas_acl.Filter.{Filter}
use sonic_nas_acl.Filter.Layout.{read_back, read_back_as}
use sonic_nas_acl.Filter.RoundTrip.{ForInfo, for_info}
use sonic_nas_acl.FilterMap.{filter_info}
use sonic_nas_acl.Result.{ok}
use sonic_nas_acl.Types.{
  MatchType, src_ipv6, dst_ipv6, src_mac, dst_mac, src_ip, dst_ip, in_ports, out_ports, in_port,
  out_port, outer_vlan_id, outer_vlan_pri, outer_vlan_cfi, inner_vlan_id, inner_vlan_pri,
  inner_vlan_cfi, l4_src_port, l4_dst_port, ether_type, ip_protocol, dscp, ttl, tos, ip_flags,
  tcp_flags, ip_type, ip_frag, ipv6_flow_label, tc, ecn, icmp_type, icmp_code, other_match,
}

abbrev RowFlat : FilterInfo → Type 0
RowFlat info = (all_flat info.child_list && all_differ info.child_list) ≡ true

rows_flat : (c : Consts) (t : MatchType) → ForInfo RowFlat (filter_info c t)
unfolding filter_info
rows_flat c src_ipv6 = refl
rows_flat c dst_ipv6 = refl
rows_flat c src_mac = refl
rows_flat c dst_mac = refl
rows_flat c src_ip = refl
rows_flat c dst_ip = refl
rows_flat c in_ports = refl
rows_flat c out_ports = refl
rows_flat c in_port = refl
rows_flat c out_port = refl
rows_flat c outer_vlan_id = refl
rows_flat c outer_vlan_pri = refl
rows_flat c outer_vlan_cfi = refl
rows_flat c inner_vlan_id = refl
rows_flat c inner_vlan_pri = refl
rows_flat c inner_vlan_cfi = refl
rows_flat c l4_src_port = refl
rows_flat c l4_dst_port = refl
rows_flat c ether_type = refl
rows_flat c ip_protocol = refl
rows_flat c dscp = refl
rows_flat c ttl = refl
rows_flat c tos = refl
rows_flat c ip_flags = refl
rows_flat c tcp_flags = refl
rows_flat c ip_type = refl
rows_flat c ip_frag = refl
rows_flat c ipv6_flow_label = refl
rows_flat c tc = refl
rows_flat c ecn = refl
rows_flat c icmp_type = refl
rows_flat c icmp_code = refl
rows_flat c (other_match n) = tt

module _ {Ob : Type 0} ⦃api : CpsApi Ob⦄ (env : CpsEnv) (ob ob2 ob' : Ob) (t : MatchType)
    (info : FilterInfo) (path path2 : AttrPath) (f : Filter) where
  refilled_values :
      (vals : List CommonData)
      → HaveSize env.filter_env.consts
      → sane_consts env.filter_env.consts ≡ true
      → filter_info env.filter_env.consts t ≡ some info
      → info.val.data_type ≡ DataType.embedded
      → nas_acl_copy_data_from_obj ob (path ++ named info.val.attr_id ∷ []) info.val info.child_list
        ≡ ok vals
      → AllAbsent (path2 ++ named info.val.attr_id ∷ []) ob2 info.child_list
      → nas_acl_copy_data_to_obj
          (path2 ++ named info.val.attr_id ∷ [])
          info.val
          info.child_list
          vals
          ob2
        ≡ ok (true, ob')
      → nas_acl_copy_data_from_obj ob'
          (path2 ++ named info.val.attr_id ∷ [])
          info.val
          info.child_list
        ≡ ok vals
  refilled_values vals s sane row is copied absent filled =
      let c = env.filter_env.consts in
      let readable = for_info RowReadable info (filter_info c t) (rows_readable c s t) row in
      let fits =
        copied_fits ob path (named info.val.attr_id) info.val info.child_list info.val.data_type
          vals refl readable.1 copied in
      let ranged = match_values-all_in_range c ob t info path vals s sane row copied in
      let flat = for_info RowFlat info (filter_info c t) (rows_flat c t) row in
      written-read (path2 ++ named info.val.attr_id ∷ []) ob2 ob' info.val info.child_list vals is
        (ground arith) (ground arith)
        (subst (λ type. FitsAs type info.val info.child_list vals) is fits)
        (subst (λ type. all_in_range (attrs_as type info.val info.child_list) vals ≡ true) is
          ranged)
        absent filled

  -- For a row of the filter map whose value is embedded, when the lengths of MAC, IPv4 and IPv6
  -- addresses are not 0, the largest VLAN id is at least 1 and fits 16 bits, and the largest
  -- 802.1p priority and DSCP fit 8 bits: when a filter was read from a CPS object, and
  -- nas_acl_fill_match_attr adds it to another object that has none of its child attributes yet
  -- and succeeds, then reading from that object gives the same filter, with the filled-in mask.
  pub refilled-read_match :
      HaveSize env.filter_env.consts
      → sane_consts env.filter_env.consts ≡ true
      → filter_info env.filter_env.consts t ≡ some info
      → info.val.data_type ≡ DataType.embedded
      → read_match env ob t info path ≡ ok f
      → AllAbsent (path2 ++ named info.val.attr_id ∷ []) ob2 info.child_list
      → nas_acl_fill_match_attr env f t path2 ob2 ≡ ok (true, ob')
      → read_match env ob' t info path2 ≡ ok f
  unfolding nas_acl_fill_match_attr
  refilled-read_match s sane row is was absent filled =
      elim (read_match-Reads env ob t info path s row) [
        | inl (x, failed, reported) ↦ absurd (ground arith)
        | inr (f', vals, copied, gives, got) ↦
            let c = env.filter_env.consts in
            let readable = for_info RowReadable info (filter_info c t) (rows_readable c s t) row in
            let same : f' ≡ f = ground arith in
            let back : read_back info vals ≡ vals =
              subst (λ type. read_back_as type vals ≡ vals) {x = DataType.embedded}
                {y = info.val.data_type} (ground arith) refl in
            let written = refilled_values vals s sane row is copied absent (ground arith) in
            ground (
              arith,
              read_as env ob t info path info.val.data_type refl readable.1,
              read_as env ob' t info path2 info.val.data_type refl readable.1,
            )
      ]
