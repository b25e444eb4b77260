-- ===== src/Action/Ndi.antt =====
-- What an action becomes in the NDI, and when two actions differ.
use sonic_nas_acl.Base.{
  ℕ, Bool, true, false, ◌&&◌, ◌||◌, not, Option, none, some, List, [], ◌∷◌, ◌++◌, ◌==◌, nat_eq,
  nat_beq, if◌then◌else◌, is_yes, length,
}
use sonic_nas_acl.Action.{
  Action, ActionKind, ActionUnion, NdiAction, NdiAction-discrete, is_counter, union_npu_id,
  union_no_portlist,
}
use sonic_nas_acl.Env.{Hal}
use sonic_nas_acl.Filter.{NdiPort}
use sonic_nas_acl.Filter.Ndi.{npu_ports, lists_equal}
use sonic_nas_acl.Map.{Map, find}
use sonic_nas_acl.Result.{Result, ok, err, ◌>>=◌, ◌>>◌, guard, fail, terminated}
use sonic_nas_acl.Types.{action_beq}

with_union : ActionUnion → NdiAction → NdiAction
with_union u a = record a { values = u }

-- _ndi_copy_one_obj_id: the first table of the map, and in it the NPU.
first_obj_id : ℕ → Map ℕ (Map ℕ ℕ) → Option ℕ
first_obj_id npu [] = none
first_obj_id npu ((oid, tbl) ∷ rest) = find npu tbl

ndi_copy_one_obj_id : Action → ℕ → Result NdiAction
unfolding first_obj_id with_union
ndi_copy_one_obj_id a npu = elim (first_obj_id npu a.nas2ndi_oid_tbl) [
  | none ↦ err fail
  | some ndi_oid ↦ ok (with_union (ActionUnion.ndi_obj_ref ndi_oid) a.a_info)
]

-- The NDI ids of the objects that the NPU has.
unfoldable pub npu_obj_ids : ℕ → Map ℕ (Map ℕ ℕ) → List ℕ
npu_obj_ids npu [] = []
npu_obj_ids npu ((oid, tbl) ∷ rest) = elim (find npu tbl) [
  | none ↦ npu_obj_ids npu rest
  | some i ↦ i ∷ npu_obj_ids npu rest
]

-- _ndi_copy_obj_id_list: the count is that of all objects.
obj_id_list : Action → List ℕ → Result NdiAction
unfolding with_union
obj_id_list a [] = err fail
obj_id_list a (i ∷ is) =
    ok (with_union (ActionUnion.ndi_obj_ref_list (length a.nas2ndi_oid_tbl) (i ∷ is)) a.a_info)

portlist_action : Action → List NdiPort → Option NdiAction
unfolding with_union
portlist_action a [] = none
portlist_action a (p ∷ ps) = some (with_union (ActionUnion.ndi_portlist (p ∷ ps)) a.a_info)

-- The element that is pushed, or `none` if it is popped again.
unfoldable pub ndi_action : Hal → Action → ℕ → Result (Option NdiAction)
unfolding ndi_copy_one_obj_id npu_obj_ids obj_id_list portlist_action is_counter
ndi_action hal a npu = elim a.values_type [
  | ActionKind.obj_id ↦
      if is_counter a
      then ok (some a.a_info)
      else (do copied ← ndi_copy_one_obj_id a npu; ok (some copied))
  | ActionKind.obj_id_list ↦ (do
    copied ← obj_id_list a (npu_obj_ids npu a.nas2ndi_oid_tbl)
    ok (some copied))
  | ActionKind.port ↦ (do
    port_npu ← union_npu_id a.values
    ok (if port_npu == npu then some a.a_info else none))
  | ActionKind.portlist ↦ (do
    empty ← union_no_portlist a.values
    guard empty terminated
    ports ← npu_ports hal npu a.ifindex_list
    ok (portlist_action a ports))
  | _ ↦ ok (some a.a_info)
]

push_some : List NdiAction → Option NdiAction → List NdiAction
push_some l none = l
push_some l (some x) = l ++ x ∷ []

-- It always returns true: the result is the list.
unfoldable pub copy_action_ndi : Hal → Action → List NdiAction → ℕ → Result (List NdiAction)
unfolding push_some
copy_action_ndi hal a ndi_alist npu = do
  pushed ← ndi_action hal a npu
  ok (push_some ndi_alist pushed)

found_as : Option ℕ → ℕ → Bool
found_as none v = false
found_as (some w) v = v == w

-- `==` of unordered maps: as many elements, and each of the first is in the second.
id_tables_within : Map ℕ ℕ → Map ℕ ℕ → Bool
unfolding found_as
id_tables_within [] t = true
id_tables_within ((k, v) ∷ s) t = found_as (find k t) v && id_tables_within s t

id_tables_equal : Map ℕ ℕ → Map ℕ ℕ → Bool
unfolding id_tables_within
id_tables_equal s t = nat_beq (length s) (length t) && id_tables_within s t

table_found : Option (Map ℕ ℕ) → Map ℕ ℕ → Bool
unfolding id_tables_equal
table_found none t = false
table_found (some u) t = id_tables_equal t u

oid_tables_within : Map ℕ (Map ℕ ℕ) → Map ℕ (Map ℕ ℕ) → Bool
unfolding table_found
oid_tables_within [] t = true
oid_tables_within ((k, v) ∷ s) t = table_found (find k t) v && oid_tables_within s t

unfoldable pub oid_tables_equal : Map ℕ (Map ℕ ℕ) → Map ℕ (Map ℕ ℕ) → Bool
unfolding oid_tables_within
oid_tables_equal s t = nat_beq (length s) (length t) && oid_tables_within s t

unfoldable pub values_differ : Action → Action → Bool
unfolding lists_equal oid_tables_equal NdiAction-discrete
values_differ a rhs = elim a.values_type [
  | ActionKind.port ↦ not (lists_equal a.ifindex_list rhs.ifindex_list)
  | ActionKind.obj_id ↦
      not (a.nas_oid == rhs.nas_oid) || not (oid_tables_equal a.nas2ndi_oid_tbl rhs.nas2ndi_oid_tbl)
  | ActionKind.obj_id_list ↦ not (oid_tables_equal a.nas2ndi_oid_tbl rhs.nas2ndi_oid_tbl)
  | ActionKind.no_value ↦ false
  | _ ↦ not (is_yes (NdiAction-discrete a.a_info rhs.a_info))
]

-- operator!=
unfoldable pub action_ne : Action → Action → Bool
unfolding values_differ
action_ne a rhs = not (action_beq a.action_type rhs.action_type) || values_differ a rhs
