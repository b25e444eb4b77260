-- ===== src/NasCounter.antt =====
-- sonic/nas_acl_counter.h, src/nas_acl_counter.cpp: the methods of nas_acl_counter_t. A method of
-- the base class that it calls is an argument; `add_ref` and `del_ref` are with the switch.
pub mod Deletion
pub mod Types
use sonic_nas_acl.Base.{
  ℕ, Bool, true, false, ◌&&◌, not, none, some, Option, List, [], ◌∷◌, nat_eq, bool_eq, ◌==◌,
  if◌then◌else◌,
}
use sonic_nas_acl.Env.{BaseObj, Attr, counter_types}
use sonic_nas_acl.IdSet.{add}
use sonic_nas_acl.Map.{find, put, erase}
use sonic_nas_acl.NasTable.{get_ndi_obj_id, is_empty}
use sonic_nas_acl.Ndi.{Ndi, NdiCounter, Reply, done, failed, checked}
use sonic_nas_acl.Object.{
  Table, Counter, CounterType, packet, byte, other_counter_type, counter_type_eq,
}
use sonic_nas_acl.Result.{
  Result, ok, err, ◌>>=◌, ◌>>◌, guard, create_only, inconsistent, attr_val, terminated,
  out_of_range, ndi,
}

-- nas_acl_counter_t::counter
pub data CountKind : Type 0 where
  pkt_kind byte_kind : CountKind

module _ {O : Type 0} where
  unfoldable pub set_counter_id : ℕ → Counter O → Result (Counter O)
  set_counter_id i k = guard (k.counter_id == 0) terminated >> ok (record k { counter_id = i })

  unfoldable pub is_obj_in_npu : ℕ → Counter O → Bool
  is_obj_in_npu npu k = elim (find npu k.ndi_obj_ids) [ none ↦ false | some _ ↦ true ]

  unfoldable pub ndi_obj_id : ℕ → Counter O → Result ℕ
  ndi_obj_id npu k = elim (find npu k.ndi_obj_ids) [ none ↦ err out_of_range | some i ↦ ok i ]

  unfoldable pub diff_counter_type : Counter O → Counter O → Counter O
  diff_counter_type k_orig k =
      let with_byte =
        (if k.enable_byte_count == k_orig.enable_byte_count
          then k.types_to_be_pushed
          else add byte k.types_to_be_pushed) in
      record k {
        types_to_be_pushed =
            if k.enable_pkt_count == k_orig.enable_pkt_count
            then with_byte
            else add packet with_byte;
      }

  -- The counter as the call leaves it, also when it throws.
  unfoldable pub commit_delete :
      (Counter O → Counter O × Result (Unit {0})) → Counter O → Counter O × Result (Unit {0})
  commit_delete base_commit k = if is_empty k.refs then base_commit k else (k, err create_only)

module _ {O : Type 0} ⦃b : BaseObj O⦄ where
  unfoldable pub copy_table_npus : Table O → Counter O → Counter O
  copy_table_npus t k = record k {
    base = b.set_npu_list (b.npu_list t.base) k.base;
    following_table_npus = true;
  }

  unfoldable pub add_npu : ℕ → Bool → Counter O → Counter O
  add_npu npu reset k = record k { following_table_npus = false; base = b.add_npu npu reset k.base }

  unfoldable pub commit_create :
      (Counter O → Result (Counter O)) → Table O → Counter O → Result (Counter O)
  unfolding copy_table_npus
  commit_create base_commit t k =
      base_commit (if k.following_table_npus then copy_table_npus t k else k)

  unfoldable pub commit_modify :
      (Counter O → Counter O → Result (Counter O))
      → Table O
      → Counter O
      → Counter O
      → Result (Counter O)
  unfolding copy_table_npus diff_counter_type
  commit_modify base_commit t k_orig k =
      let k' =
        (if not k.following_table_npus && is_empty (b.npu_list k.base)
          then copy_table_npus t k
          else k) in
      base_commit k_orig (diff_counter_type k_orig k')

  -- The counter as the call leaves it, also when it throws.
  unfoldable pub set_type : CounterType → Bool → Counter O → Counter O × Result (Unit {0})
  set_type type reset k =
      let k' =
        (if b.is_attr_dirty counter_types k.base then k else record k {
          base = b.mark_attr_dirty counter_types k.base;
          types_to_be_pushed = [];
          enable_byte_count = not reset && k.enable_byte_count;
          enable_pkt_count = not reset && k.enable_pkt_count;
        }) in
      elim type [
        | packet ↦ (record k' { enable_pkt_count = true }, ok tt)
        | byte ↦ (record k' { enable_byte_count = true }, ok tt)
        | other_counter_type _ ↦ (k', err attr_val)
      ]

module _ {O : Type 0} where
  -- The NDI id of the counter, where the function returns true.
  unfoldable pub validate_entry_counter : CountKind → ℕ → Counter O → Option ℕ
  validate_entry_counter pkt_kind npu k =
      if k.enable_pkt_count then find npu k.ndi_obj_ids else none
  validate_entry_counter byte_kind npu k =
      if k.enable_byte_count then find npu k.ndi_obj_ids else none

module _ {O W : Type 0} ⦃n : Ndi W⦄ where
  unfoldable pub push_create_obj_to_npu : ℕ → Table O → Counter O → W → Result (Counter O) × W
  unfolding get_ndi_obj_id
  push_create_obj_to_npu npu t k w = elim (get_ndi_obj_id npu t) [
    | err e ↦ (err e, w)
    | ok table ↦
        let (reply, w') =
          n.counter_create npu
            (record {
              table_id = table;
              enable_pkt_count = k.enable_pkt_count;
              enable_byte_count = k.enable_byte_count;
            })
            w in
        ((do i ← checked reply; ok (record k { ndi_obj_ids = put npu i k.ndi_obj_ids })), w')
  ]

  unfoldable pub push_delete_obj_to_npu : ℕ → Counter O → W → Result (Counter O) × W
  push_delete_obj_to_npu npu k w = elim (find npu k.ndi_obj_ids) [
    | none ↦ (err out_of_range, w)
    | some i ↦
        let (reply, w') = n.counter_delete npu i w in
        (checked reply >> ok (record k { ndi_obj_ids = erase npu k.ndi_obj_ids }), w')
  ]

  -- The counts are results of the call, its error codes the errors.
  unfoldable pub get_pkt_count_ndi : ℕ → Counter O → W → Result ℕ
  unfolding validate_entry_counter
  get_pkt_count_ndi npu k w = elim (validate_entry_counter pkt_kind npu k) [
    | none ↦ err inconsistent
    | some i ↦ checked (n.counter_get_pkt_count npu i w)
  ]

  unfoldable pub get_byte_count_ndi : ℕ → Counter O → W → Result ℕ
  unfolding validate_entry_counter
  get_byte_count_ndi npu k w = elim (validate_entry_counter byte_kind npu k) [
    | none ↦ err inconsistent
    | some i ↦ checked (n.counter_get_byte_count npu i w)
  ]

  unfoldable pub set_pkt_count_ndi : ℕ → ℕ → Counter O → W → Result (Unit {0}) × W
  unfolding validate_entry_counter
  set_pkt_count_ndi npu count k w = elim (validate_entry_counter pkt_kind npu k) [
    | none ↦ (err inconsistent, w)
    | some i ↦ (let (reply, w') = n.counter_set_pkt_count npu i count w in (checked reply, w'))
  ]

  unfoldable pub set_byte_count_ndi : ℕ → ℕ → Counter O → W → Result (Unit {0}) × W
  unfolding validate_entry_counter
  set_byte_count_ndi npu count k w = elim (validate_entry_counter byte_kind npu k) [
    | none ↦ (err inconsistent, w)
    | some i ↦ (let (reply, w') = n.counter_set_byte_count npu i count w in (checked reply, w'))
  ]
