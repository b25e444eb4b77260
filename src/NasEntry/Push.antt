-- ===== src/NasEntry/Push.antt =====
-- src/nas_acl_entry.cpp: creating and deleting an entry in an NPU, and pushing its priority.
use sonic_nas_acl.Base.{
  suc, ℕ, Bool, true, false, none, some, Option, List, [], ◌∷◌, nat_eq, if◌then◌else◌,
}
use sonic_nas_acl.Action.{Action, ActionUnion, NdiAction, is_counter}
use sonic_nas_acl.Action.Ndi.{copy_action_ndi}
use sonic_nas_acl.Env.{Hal, Attr, entry_priority}
use sonic_nas_acl.Filter.{Filter, NdiFilter}
use sonic_nas_acl.Filter.Ndi.{copy_filter_ndi}
use sonic_nas_acl.Map.{Map, find, put, erase}
use sonic_nas_acl.NasCounter.{ndi_obj_id}
use sonic_nas_acl.NasTable.{get_ndi_obj_id}
use sonic_nas_acl.Ndi.{Ndi, NdiEntry, checked}
use sonic_nas_acl.Object.{Table, Entry}
use sonic_nas_acl.Result.{
  Result, ok, err, ◌>>=◌, ◌>>◌, noexcept_body, out_of_range, fail, undefined_behaviour,
}
use sonic_nas_acl.Switch.{Switch}
use sonic_nas_acl.Switch.Entries.{entry_counter}
use sonic_nas_acl.Types.{MatchType, ActionType}

-- `none` where a filter is not needed on the NPU and the function returns false. `fresh` is what the
-- elements of the allocated array hold.
unfoldable pub copy_all_filters_ndi :
    Hal → (ℕ → NdiFilter) → Map MatchType Filter → ℕ → Result (Option (List NdiFilter))
copy_all_filters_ndi hal fresh [] npu = ok (some [])
copy_all_filters_ndi hal fresh ((_, f) ∷ rest) npu = do
  copied ← copy_filter_ndi hal f (fresh 0) npu
  (if copied.0
      then (do
        others ← copy_all_filters_ndi hal (λ i. fresh (suc i)) rest npu
        ok (elim others [ none ↦ none | some l ↦ some (copied.1 ∷ l) ]))
      else ok none)

-- `ndi_alist.back ()`, with the reference to the counter set.
unfoldable pub set_back : ℕ → List NdiAction → Result (List NdiAction)
set_back i [] = err undefined_behaviour
set_back i (a ∷ []) = ok (record a { values = ActionUnion.ndi_obj_ref i } ∷ [])
set_back i (a ∷ b ∷ l) = do rest ← set_back i (b ∷ l); ok (a ∷ rest)

module _ {G O : Type 0} where
  unfoldable pub copy_ndi_counter_id :
      Entry O → List NdiAction → ℕ → Switch G O → Result (List NdiAction)
  unfolding entry_counter ndi_obj_id set_back
  copy_ndi_counter_id e ndi_alist npu sw = noexcept_body (do
    counter ← entry_counter e sw
    (elim counter [
      | none ↦ err undefined_behaviour
      | some k ↦ (do i ← ndi_obj_id npu k; set_back i ndi_alist)
    ]))

  unfoldable pub copy_all_actions_ndi :
      Hal
      → Entry O
      → Map ActionType Action
      → ℕ
      → Switch G O
      → List NdiAction
      → Result (List NdiAction)
  unfolding copy_action_ndi copy_ndi_counter_id is_counter
  copy_all_actions_ndi hal e [] npu sw ndi_alist = ok ndi_alist
  copy_all_actions_ndi hal e ((_, a) ∷ rest) npu sw ndi_alist = do
    copied ← copy_action_ndi hal a ndi_alist npu
    referred ← (if is_counter a then copy_ndi_counter_id e copied npu sw else ok copied)
    copy_all_actions_ndi hal e rest npu sw referred

  -- The structure that is passed to the NDI, or `none` where the entry is not needed on the NPU.
  unfoldable pub ndi_entry_of :
      Hal → (ℕ → NdiFilter) → ℕ → Table O → Entry O → Switch G O → Result (Option NdiEntry)
  unfolding get_ndi_obj_id copy_all_filters_ndi copy_all_actions_ndi
  ndi_entry_of hal fresh npu t e sw = do
    table ← get_ndi_obj_id npu t
    filters ← copy_all_filters_ndi hal fresh e.flist npu
    (elim filters [
      | none ↦ ok none
      | some fs ↦ (do
        actions ← copy_all_actions_ndi hal e e.alist npu sw []
        ok (
            some (record {
              table_id = table;
              priority = e.priority;
              filter_list = fs;
              action_list = actions;
            })))
    ])

module _ {G O W : Type 0} ⦃n : Ndi W⦄ where
  -- The value that is returned, the entry afterwards, and the NPUs.
  unfoldable pub push_create_obj_to_npu :
      Hal → (ℕ → NdiFilter) → ℕ → Table O → Entry O → Switch G O → W → Result (Bool × Entry O) × W
  unfolding ndi_entry_of
  push_create_obj_to_npu hal fresh npu t e sw w = elim (ndi_entry_of hal fresh npu t e sw) [
    | err x ↦ (err x, w)
    | ok found ↦ elim found [
      | none ↦ (ok (false, e), w)
      | some ndi_entry ↦
          let (reply, w') = n.entry_create npu ndi_entry w in
          (
            (do
              i ← checked reply
              ok (true, record e { ndi_entry_ids = put npu i e.ndi_entry_ids })),
            w',
          )
    ]
  ]

module _ {O W : Type 0} ⦃n : Ndi W⦄ where
  unfoldable pub push_delete_obj_to_npu : ℕ → Entry O → W → Result (Bool × Entry O) × W
  push_delete_obj_to_npu npu e w = elim (find npu e.ndi_entry_ids) [
    | none ↦ (ok (false, e), w)
    | some i ↦
        let (reply, w') = n.entry_delete npu i w in
        (checked reply >> ok (true, record e { ndi_entry_ids = erase npu e.ndi_entry_ids }), w')
  ]

  unfoldable pub push_leaf_attr_to_npu : Attr → ℕ → Entry O → W → Result (Unit {0}) × W
  push_leaf_attr_to_npu entry_priority npu e w = elim (find npu e.ndi_entry_ids) [
    | none ↦ (err out_of_range, w)
    | some i ↦ let (reply, w') = n.entry_set_priority npu i e.priority w in (checked reply, w')
  ]
  push_leaf_attr_to_npu _ npu e w = (err fail, w)
