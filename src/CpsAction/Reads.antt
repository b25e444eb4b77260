-- ===== src/CpsAction/Reads.antt =====
-- src/nas_acl_cps_utils.cpp, src/nas_acl_cps_action.cpp: what reading an action from a CPS object
-- gives.
use sonic_nas_acl.Base.{
  ◌≡◌, refl, sym, Bool, true, false, subst, ◌⊎◌, inl, inr, some, List, [], ◌∷◌, ◌++◌, arith,
}
use sonic_nas_acl.Action.{Action, blank_action}
use sonic_nas_acl.Action.Calls.{call_set_fn, call_get_fn}
use sonic_nas_acl.Action.Layout.{FitsInfo, Layout, ReadsBack}
use sonic_nas_acl.Action.RoundTrip.{set-get_action, ForInfo, for_info}
use sonic_nas_acl.ActionMap.{action_info}
use sonic_nas_acl.Common.{CommonData}
use sonic_nas_acl.CpsAction.{read_action}
use sonic_nas_acl.CpsApi.{CpsApi, AttrPath, named}
use sonic_nas_acl.CpsEnv.{CpsEnv, HaveSize}
use sonic_nas_acl.CpsMap.{ActionInfo, DataType}
use sonic_nas_acl.CpsUtils.Fits.{IsReadable}
use sonic_nas_acl.CpsUtils.Copied.{IsReadableAs, FitsAs, copied_fits, copied-Reports}
use sonic_nas_acl.CpsUtils.Read.{nas_acl_copy_data_from_obj}
use sonic_nas_acl.Env.{Consts}
use sonic_nas_acl.Result.{Result, ok, err, Error, ◌>>=◌, is_reported, attr_val}
use sonic_nas_acl.Types.{
  ActionType, packet_action, redirect_port, redirect_ip_nexthop, flood, mirror_ingress,
  mirror_egress, set_counter, set_policer, decrement_ttl, set_tc, set_inner_vlan_id,
  set_inner_vlan_pri, set_outer_vlan_id, set_outer_vlan_pri, set_src_mac, set_dst_mac, set_src_ip,
  set_dst_ip, set_src_ipv6, set_dst_ipv6, set_dscp, set_l4_src_port, set_l4_dst_port, set_cpu_queue,
  egress_mask, redirect_port_list, other_action,
}

-- Whether an action of a row has a value at all.
abbrev pub has_value : DataType → Bool
has_value DataType.nothing = false
has_value _ = true

abbrev RowReadableAs : DataType → ActionInfo → Type 0
RowReadableAs DataType.nothing info = Unit
RowReadableAs type info = IsReadableAs type info.val info.child_list

abbrev RowReadable : ActionInfo → Type 0
RowReadable info = RowReadableAs info.val.data_type info

rows_readable : (c : Consts) → HaveSize c → (t : ActionType) → ForInfo RowReadable (action_info c t)
unfolding action_info
rows_readable c s packet_action = (tt, tt)
rows_readable c s redirect_port = (tt, tt)
rows_readable c s redirect_ip_nexthop = (tt, (tt, tt))
rows_readable c s flood = tt
rows_readable c s mirror_ingress = refl
rows_readable c s mirror_egress = refl
rows_readable c s set_counter = (tt, tt)
rows_readable c s set_policer = (tt, (tt, tt))
rows_readable c s decrement_ttl = tt
rows_readable c s set_tc = (λ h. cc, tt)
rows_readable c s set_inner_vlan_id = (tt, tt)
rows_readable c s set_inner_vlan_pri = (λ h. cc, tt)
rows_readable c s set_outer_vlan_id = (tt, tt)
rows_readable c s set_outer_vlan_pri = (λ h. cc, tt)
rows_readable c s set_src_mac = (s.mac, tt)
rows_readable c s set_dst_mac = (s.mac, tt)
rows_readable c s set_src_ip = (s.ipv4, tt)
rows_readable c s set_dst_ip = (s.ipv4, tt)
rows_readable c s set_src_ipv6 = (s.ipv6, tt)
rows_readable c s set_dst_ipv6 = (s.ipv6, tt)
rows_readable c s set_dscp = (λ h. cc, tt)
rows_readable c s set_l4_src_port = (tt, tt)
rows_readable c s set_l4_dst_port = (tt, tt)
rows_readable c s set_cpu_queue = (tt, (tt, tt))
rows_readable c s egress_mask = tt
rows_readable c s redirect_port_list = tt
rows_readable c s (other_action n) = tt

module _ {Ob : Type 0} ⦃api : CpsApi Ob⦄ (env : CpsEnv) (ob : Ob) (t : ActionType)
    (info : ActionInfo) (path : AttrPath) where
  -- A code that the request answers with, or a filter whose value is what the object has.
  abbrev pub Reads : Type 0
  Reads =
      ((x : Error) × (read_action env ob t info path ≡ err x) × (is_reported x ≡ true))
      ⊎ ((a : Action) × (vals : List CommonData) × (nas_acl_copy_data_from_obj ob
              (path ++ named info.val.attr_id ∷ []) info.val info.child_list
            ≡ ok vals)
          × (read_action env ob t info path ≡ ok a)
          × ((back : List CommonData) × (call_get_fn env.action_env info.get_fn a ≡ ok back)
              × ReadsBack info.val.data_type env.action_env.hal vals back))

  value_readable :
      (type : DataType)
      → has_value type ≡ true
      → RowReadableAs type info
      → IsReadableAs type info.val info.child_list
  value_readable DataType.nothing valued r = cc
  value_readable _ valued r = r

  read_as :
      (type : DataType)
      → info.val.data_type ≡ type
      → IsReadableAs type info.val info.child_list
      → read_action env ob t info path ≡ (
          nas_acl_copy_data_from_obj ob
            (path ++ named info.val.attr_id ∷ [])
            info.val
            info.child_list
          >>= λ vals. call_set_fn env.action_env info.set_fn vals (blank_action t))
  unfolding read_action
  read_as DataType.nothing is (r, u) = absurd (subst (λ y. IsReadable y info.val.data_len) is r)
  read_as _ is r = ground arith

  fits_row :
      (type : DataType) (vals : List CommonData)
      → info.val.data_type ≡ type
      → FitsAs type info.val info.child_list vals
      → FitsInfo info vals
  fits_row DataType.nothing vals is fits = absurd fits
  fits_row DataType.embedded vals is fits = subst (λ type. Layout type info vals) (sym is) fits
  fits_row DataType.embedded_list vals is fits = subst (λ type. Layout type info vals) (sym is) fits
  fits_row _ vals is fits = subst (λ type. Layout type info vals) (sym is) fits

  found :
      RowReadable info
      → has_value info.val.data_type ≡ true
      → action_info env.action_env.consts t ≡ some info
      → (r : Result (List CommonData))
      → nas_acl_copy_data_from_obj ob (path ++ named info.val.attr_id ∷ []) info.val info.child_list
        ≡ r
      → Reads
  unfolding read_action
  found readable valued row (err x) p =
      let r = value_readable info.val.data_type valued readable in
      inl (
        x,
        ground (arith, read_as info.val.data_type refl r),
        copied-Reports ob path (named info.val.attr_id) info.val info.child_list info.val.data_type
            refl r x p,
      )
  found readable valued row (ok vals) p =
      let r = value_readable info.val.data_type valued readable in
      let fits =
        copied_fits ob path (named info.val.attr_id) info.val info.child_list info.val.data_type
          vals refl r p in
      let same = read_as info.val.data_type refl r in
      elim (set-get_action env.action_env t info vals row
        (fits_row info.val.data_type vals refl fits)) [
          | inl (a, back, set, get, same_values) ↦
              inr (a, vals, p, ground arith, (back, get, same_values))
          | inr (may, refused) ↦ inl (attr_val, ground arith, refl)
        ]

module _ {Ob : Type 0} ⦃api : CpsApi Ob⦄ where
  -- For every row of the action map that has a value, every CPS object and every path, when the
  -- lengths of MAC, IPv4 and IPv6 addresses are not 0: reading the action
  -- (nas_acl_copy_data_from_obj, then the set method of the row) either is an error that the
  -- request answers with its code, never a missing list element, a bad union member or a read
  -- past the end; or it gives an action, and the get method of the row gives back the values that
  -- were copied from the object, in the form that the round trip of the rows states. What an
  -- accessor of the CPS library reads of an attribute that is shorter than its type is left to
  -- the library.
  pub read_action-Reads :
      (env : CpsEnv) (ob : Ob) (t : ActionType) (info : ActionInfo) (path : AttrPath)
      → HaveSize env.action_env.consts
      → action_info env.action_env.consts t ≡ some info
      → has_value info.val.data_type ≡ true
      → Reads env ob t info path
  read_action-Reads env ob t info path s row valued =
      found env ob t info path
        (for_info RowReadable info (action_info env.action_env.consts t)
          (rows_readable env.action_env.consts s t) row)
        valued row _ refl
