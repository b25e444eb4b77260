-- ===== src/CpsUtils/Write.antt =====
-- Adding the value of a filter or an action to a CPS object. A function that returns false may have
-- changed the object before.
use sonic_nas_acl.Base.{
  ℕ, zero, suc, ◌*◌, ◌/◌, Bool, true, false, Option, none, some, List, [], ◌∷◌, ◌++◌, length,
  nat_eq, ◌==◌, ◌||◌, if◌then◌else◌,
}
use sonic_nas_acl.Common.{CommonData, as_u8, as_u16, as_u32, as_u64, as_obj_id, as_ifindex, item}
use sonic_nas_acl.CpsApi.{CpsApi, CpsVal, bin, u16, u32, u64, named, index, AttrPath}
use sonic_nas_acl.CpsMap.{MapData, DataType}
use sonic_nas_acl.Result.{Result, ok, err, ◌>>=◌, undefined_behaviour}

-- The data and the size for a type, or nothing for an unknown one.
unfoldable pub value_of : CommonData → DataType → Result (Option (CpsVal × ℕ))
value_of d DataType.u8 = do n ← as_u8 d; ok (some (bin (n ∷ []), 1))
value_of d DataType.u16 = do n ← as_u16 d; ok (some (u16 n, 2))
value_of d DataType.u32 = do n ← as_u32 d; ok (some (u32 n, 4))
value_of d DataType.u64 = do n ← as_u64 d; ok (some (u64 n, 8))
value_of d DataType.obj_id = do n ← as_obj_id d; ok (some (u64 n, 8))
value_of d DataType.ifindex = do n ← as_ifindex d; ok (some (u32 n, 4))
value_of d DataType.bin = ok (some (bin d.bytes, length d.bytes))
value_of d _ = ok none

module _ {Ob : Type 0} ⦃api : CpsApi Ob⦄ where
  unfoldable pub add_value : Option (CpsVal × ℕ) → AttrPath → ℕ → Ob → Bool × Ob
  add_value none path expected_size ob = (false, ob)
  add_value (some (v, size)) path expected_size ob =
      if expected_size == 0 || expected_size == size then api.e_add ob path v else (false, ob)

  unfoldable pub add_data_to_obj : AttrPath → CommonData → ℕ → DataType → Ob → Result (Bool × Ob)
  unfolding value_of add_value
  add_data_to_obj path d expected_size DataType.opaque ob =
      ok (api.serialize d.ndi_obj_id_table ob path)
  add_data_to_obj path d expected_size type ob = do
    v ← value_of d type
    ok (add_value v path expected_size ob)

  -- `common_data_list.at (start_index)` for each child.
  unfoldable pub add_child_attrs_to_obj :
      AttrPath → List MapData → List CommonData → ℕ → Ob → Result (Bool × Ob)
  unfolding add_data_to_obj
  add_child_attrs_to_obj path [] vals start ob = ok (true, ob)
  add_child_attrs_to_obj path (m ∷ ms) vals start ob = do
    d ← item vals start
    (added, ob') ← add_data_to_obj (path ++ named m.attr_id ∷ []) d m.data_len m.data_type ob
    if added then add_child_attrs_to_obj path ms vals (suc start) ob' else ok (false, ob')

  -- The objects from number `i` on, of which `n` are left.
  unfoldable pub add_objs :
      AttrPath → List MapData → List CommonData → ℕ → ℕ → Ob → Result (Bool × Ob)
  unfolding add_child_attrs_to_obj
  add_objs path ms vals i zero ob = ok (true, ob)
  add_objs path ms vals i (suc n) ob = do
    (added, ob') ← add_child_attrs_to_obj (path ++ index i ∷ []) ms vals (i * length ms) ob
    if added then add_objs path ms vals (suc i) n ob' else ok (false, ob')

  -- A division by an empty list of children is undefined.
  unfoldable pub add_child_list_to_obj :
      AttrPath → List MapData → List CommonData → Ob → Result (Bool × Ob)
  unfolding add_objs
  add_child_list_to_obj path [] vals ob = err undefined_behaviour
  add_child_list_to_obj path (m ∷ ms) vals ob =
      let num_objs = length vals / length (m ∷ ms) in
      if num_objs == 0 then ok (false, ob) else add_objs path (m ∷ ms) vals 0 num_objs ob

  unfoldable pub copy_non_iflist_data_to_obj :
      AttrPath → MapData → List MapData → List CommonData → Ob → Result (Bool × Ob)
  unfolding add_child_list_to_obj add_child_attrs_to_obj add_data_to_obj
  copy_non_iflist_data_to_obj path m ms vals ob = elim m.data_type [
    | DataType.embedded_list ↦ add_child_list_to_obj path ms vals ob
    | DataType.embedded ↦
        if length vals == length ms
        then add_child_attrs_to_obj path ms vals 0 ob
        else ok (false, ob)
    | _ ↦ elim vals [
      | [] ↦ ok (false, ob)
      | d ∷ ds ↦ add_data_to_obj path d m.data_len m.data_type ob
    ]
  ]

  unfoldable pub add_ifindexes : AttrPath → List ℕ → Ob → Bool × Ob
  add_ifindexes path [] ob = (true, ob)
  add_ifindexes path (i ∷ is) ob =
      let (added, ob') = api.e_add ob path (u32 i) in
      let rest = add_ifindexes path is ob' in if added then rest else (false, ob')

  unfoldable pub copy_iflist_data_to_obj : AttrPath → List CommonData → Ob → Bool × Ob
  unfolding add_ifindexes
  copy_iflist_data_to_obj path (d ∷ []) ob = add_ifindexes path d.ifindex_list ob
  copy_iflist_data_to_obj path _ ob = (false, ob)

  unfoldable pub nas_acl_copy_data_to_obj :
      AttrPath → MapData → List MapData → List CommonData → Ob → Result (Bool × Ob)
  unfolding copy_non_iflist_data_to_obj copy_iflist_data_to_obj
  nas_acl_copy_data_to_obj path m ms vals ob = elim m.data_type [
    | DataType.nothing ↦ ok (true, ob)
    | DataType.iflist ↦ ok (copy_iflist_data_to_obj path vals ob)
    | DataType.opaque ↦ ok (false, ob)
    | _ ↦ copy_non_iflist_data_to_obj path m ms vals ob
  ]
