-- ===== src/NasTable.antt =====
-- sonic/nas_acl_table.h, src/nas_acl_table.cpp: the methods of nas_acl_table. A method of the base
-- class that it calls is an argument.
pub mod Deletion
pub mod Fields
use sonic_nas_acl.Base.{
  ℕ, Bool, true, false, not, none, some, List, [], ◌∷◌, nat_eq, length, ◌==◌, if◌then◌else◌, ltb,
}
use sonic_nas_acl.Env.{
  BaseObj, Consts, Attr, table_stage, table_priority, table_allowed_match_fields,
}
use sonic_nas_acl.FilterMap.{nas_acl_filter_is_type_valid}
use sonic_nas_acl.IdSet.{contains, add}
use sonic_nas_acl.Map.{Map, find, at, insert, put, erase}
use sonic_nas_acl.Ndi.{Ndi, NdiTable, checked}
use sonic_nas_acl.Object.{Table, Counter, Entry, Stage, ingress, egress, other_stage}
use sonic_nas_acl.Result.{
  Result, ok, err, ◌>>=◌, ◌>>◌, guard, create_only, inconsistent, attr_val, fail, terminated,
  out_of_range, undefined_behaviour,
}
use sonic_nas_acl.Switch.{Switch, entry_list, counter_list}
use sonic_nas_acl.Types.{MatchType, match_eq}

unfoldable pub is_empty : {A : Type 0} → List A → Bool
is_empty [] = true
is_empty (_ ∷ _) = false

module _ {O : Type 0} where
  unfoldable pub is_filter_allowed : MatchType → Table O → Bool
  is_filter_allowed f t = contains f t.allowed_filters

  unfoldable pub set_table_id : ℕ → Table O → Result (Table O)
  set_table_id i t = guard (t.table_id == 0) terminated >> ok (record t { table_id = i })

module _ {G O : Type 0} ⦃b : BaseObj O⦄ where
  unfoldable pub validate_table_npu_change : Table O → Switch G O → Result (Unit {0})
  unfolding entry_list
  validate_table_npu_change t sw =
      if b.is_created_in_ndi t.base
      then (do es ← entry_list t.table_id sw; guard (is_empty es) create_only)
      else ok tt

  unfoldable pub add_npu : ℕ → Bool → Table O → Switch G O → Result (Table O)
  add_npu npu reset t sw =
      validate_table_npu_change t sw >> ok (record t { base = b.add_npu npu reset t.base })

  unfoldable pub reset_npus : Table O → Switch G O → Result (Table O)
  reset_npus t sw = validate_table_npu_change t sw >> ok (record t { base = b.reset_npus t.base })

module _ {G O : Type 0} where
  -- The checks before the table is deleted.
  unfoldable pub validate_empty : Table O → Switch G O → Result (Unit {0})
  unfolding entry_list counter_list
  validate_empty t sw = do
    es ← entry_list t.table_id sw
    guard (is_empty es) inconsistent
    ks ← counter_list t.table_id sw
    guard (is_empty ks) inconsistent

  -- The table as the call leaves it, also when it throws.
  unfoldable pub commit_delete :
      (Table O → Table O × Result (Unit {0})) → Table O → Switch G O → Table O × Result (Unit {0})
  unfolding validate_empty
  commit_delete base_commit t sw = elim (validate_empty t sw) [
    | err x ↦ (t, err x)
    | ok _ ↦ base_commit t
  ]

module _ {O : Type 0} ⦃b : BaseObj O⦄ where
  unfoldable pub commit_create : (Table O → Result (Table O)) → Table O → Result (Table O)
  commit_create base_commit t =
      guard (b.is_attr_dirty table_stage t.base) create_only
      >> guard (b.is_attr_dirty table_allowed_match_fields t.base) create_only
      >> base_commit t

  unfoldable pub set_priority : ℕ → Table O → Result (Table O)
  set_priority p t =
      guard (not (b.is_created_in_ndi t.base)) create_only
      >> ok (
          if p == t.priority
          then t
          else record t { priority = p; base = b.mark_attr_dirty table_priority t.base })

  -- The field is assigned before its value is tested.
  unfoldable pub set_stage : Stage → Table O → Table O × Result (Unit {0})
  set_stage s t = if b.is_created_in_ndi t.base then (t, err create_only) else elim s [
    | ingress ↦ (record t { stage = ingress; base = b.mark_attr_dirty table_stage t.base }, ok tt)
    | egress ↦ (record t { stage = egress; base = b.mark_attr_dirty table_stage t.base }, ok tt)
    | other_stage n ↦ (record t { stage = other_stage n }, err attr_val)
  ]

  unfoldable pub set_allowed_filter : Consts → MatchType → Table O → Result (Table O)
  set_allowed_filter c f t =
      guard (not (b.is_created_in_ndi t.base)) create_only
      >> guard (nas_acl_filter_is_type_valid c f) attr_val
      >> ok (
          let t' =
            (if b.is_attr_dirty table_allowed_match_fields t.base then t else record t {
              base = b.mark_attr_dirty table_allowed_match_fields t.base;
              allowed_filters = [];
            }) in
          record t' { allowed_filters = add f t'.allowed_filters })

-- The array that is copied to has `filter_count` elements.
unfoldable pub allowed_filters_c_cpy : {O : Type 0} → ℕ → Table O → Result (List MatchType)
allowed_filters_c_cpy filter_count t =
    if ltb filter_count (length t.allowed_filters)
    then err undefined_behaviour
    else ok t.allowed_filters

module _ {O : Type 0} where
  unfoldable pub alloc_fill_ndi_obj : Table O → Result NdiTable
  unfolding allowed_filters_c_cpy
  alloc_fill_ndi_obj t = do
    fs ← allowed_filters_c_cpy (length t.allowed_filters) t
    ok (record {
      filter_count = length t.allowed_filters;
      filter_list = fs;
      stage = t.stage;
      priority = t.priority;
    })

  unfoldable pub get_ndi_obj_id : ℕ → Table O → Result ℕ
  get_ndi_obj_id npu t = elim (find npu t.ndi_obj_ids) [ none ↦ err fail | some i ↦ ok i ]

module _ {O W : Type 0} ⦃n : Ndi W⦄ where
  unfoldable pub push_create_obj_to_npu : ℕ → NdiTable → Table O → W → Result (Table O) × W
  push_create_obj_to_npu npu ndi_obj t w =
      let (reply, w') = n.table_create npu ndi_obj w in
      ((do i ← checked reply; ok (record t { ndi_obj_ids = put npu i t.ndi_obj_ids })), w')

  unfoldable pub push_delete_obj_to_npu : ℕ → Table O → W → Result (Table O) × W
  push_delete_obj_to_npu npu t w = elim (find npu t.ndi_obj_ids) [
    | none ↦ (err out_of_range, w)
    | some i ↦
        let (reply, w') = n.table_delete npu i w in
        (checked reply >> ok (record t { ndi_obj_ids = erase npu t.ndi_obj_ids }), w')
  ]

  unfoldable pub push_leaf_attr_to_npu : Attr → ℕ → Table O → W → Result (Unit {0}) × W
  push_leaf_attr_to_npu table_priority npu t w = elim (find npu t.ndi_obj_ids) [
    | none ↦ (err out_of_range, w)
    | some i ↦ let (reply, w') = n.table_set_priority npu i t.priority w in (checked reply, w')
  ]
  push_leaf_attr_to_npu _ npu t w = (err terminated, w)

unfoldable pub is_leaf_attr : Attr → Result Bool
is_leaf_attr table_allowed_match_fields = ok false
is_leaf_attr table_stage = ok true
is_leaf_attr table_priority = ok true
is_leaf_attr _ = err out_of_range
