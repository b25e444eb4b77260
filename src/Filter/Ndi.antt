-- ===== src/Filter/Ndi.antt =====
-- What a filter becomes in the NDI, which NPUs it needs, and when two filters differ.
use sonic_nas_acl.Base.{
  ℕ, Bool, true, false, ◌&&◌, not, Option, some, List, [], ◌∷◌, ◌==◌, nat_eq, if◌then◌else◌, is_yes,
}
use sonic_nas_acl.Env.{Hal}
use sonic_nas_acl.Filter.{
  Filter, FilterKind, FilterUnion, NdiFilter, NdiPort, NdiFilter-discrete, is_npu_specific,
  union_npu_id, union_no_portlist,
}
use sonic_nas_acl.IdSet.{add}
use sonic_nas_acl.Result.{Result, ok, ◌>>=◌, ◌>>◌, guard, terminated}
use sonic_nas_acl.Types.{match_beq}
use sonic_nas_acl.Utl.{nas_acl_utl_ifidx_to_ndi_port}

abbrev pub is_port : Option FilterKind → Bool
is_port (some FilterKind.port) = true
is_port _ = false

abbrev pub is_portlist : Option FilterKind → Bool
is_portlist (some FilterKind.portlist) = true
is_portlist _ = false

-- The ports of the list that are on the NPU.
unfoldable pub npu_ports : Hal → ℕ → List ℕ → Result (List NdiPort)
npu_ports hal npu [] = ok []
npu_ports hal npu (i ∷ is) = do
  intf_ctrl ← nas_acl_utl_ifidx_to_ndi_port hal i
  rest ← npu_ports hal npu is
  ok (
      if intf_ctrl.npu_id == npu
      then record { npu_id = intf_ctrl.npu_id; npu_port = intf_ctrl.port_id } ∷ rest
      else rest)

unfoldable pub fill_portlist : NdiFilter → List NdiPort → Bool × NdiFilter
fill_portlist dest [] = (false, dest)
fill_portlist dest (p ∷ ps) = (true, record dest { value = FilterUnion.ndi_portlist (p ∷ ps) })

unfoldable pub copy_value : Hal → Filter → ℕ → Result (Bool × NdiFilter)
unfolding fill_portlist npu_ports
copy_value hal f npu =
    if is_portlist f.values_type
    then (do
      empty ← union_no_portlist f.value
      guard empty terminated
      ports ← npu_ports hal npu f.ifindex_list
      ok (fill_portlist f.f_info ports))
    else ok (true, f.f_info)

-- The result, and what is in `*ndi_filter_p`. The first test reads what the caller left in there.
unfoldable pub copy_filter_ndi : Hal → Filter → NdiFilter → ℕ → Result (Bool × NdiFilter)
unfolding copy_value
copy_filter_ndi hal f ndi_filter npu =
    if is_port ndi_filter.values_type
    then (do
      filter_npu ← union_npu_id f.value
      if filter_npu == npu then copy_value hal f npu else ok (false, ndi_filter))
    else copy_value hal f npu

unfoldable pub npus_of : Hal → List ℕ → List ℕ → Result (List ℕ)
npus_of hal [] npus = ok npus
npus_of hal (i ∷ is) npus = do
  intf_ctrl ← nas_acl_utl_ifidx_to_ndi_port hal i
  npus_of hal is (add intf_ctrl.npu_id npus)

unfoldable pub get_npu_list : Hal → Filter → Result (List ℕ)
unfolding npus_of
get_npu_list hal f = if is_npu_specific f.filter_type then npus_of hal f.ifindex_list [] else ok []

unfoldable pub lists_equal : List ℕ → List ℕ → Bool
lists_equal [] [] = true
lists_equal (a ∷ as') (b ∷ bs) = a == b && lists_equal as' bs
lists_equal _ _ = false

-- operator!=. The memcmp is equality of the structures as sums of members, so a member that was
-- never written differs from one that 0 was written to.
unfoldable pub filter_ne : Filter → Filter → Bool
unfolding lists_equal NdiFilter-discrete
filter_ne f rhs =
    if not (match_beq f.filter_type rhs.filter_type)
    then true
    else if is_portlist f.values_type
    then not (lists_equal f.ifindex_list rhs.ifindex_list)
    else if is_port f.values_type
    then not (lists_equal f.ifindex_list rhs.ifindex_list)
    else not (is_yes (NdiFilter-discrete f.f_info rhs.f_info))
