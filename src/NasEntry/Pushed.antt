-- ===== src/NasEntry/Pushed.antt =====
-- src/nas_acl_entry.cpp: the ids of an entry in the NPUs.
use sonic_nas_acl.Base.{ℕ, ◌≡◌, refl, true, none, some, Option, arith, nat_eq}
use sonic_nas_acl.Env.{Hal}
use sonic_nas_acl.Filter.{NdiFilter}
use sonic_nas_acl.Map.{find, find-put}
use sonic_nas_acl.NasEntry.Push.{ndi_entry_of, push_create_obj_to_npu, push_delete_obj_to_npu}
use sonic_nas_acl.Ndi.{Ndi, NdiEntry, Reply, done, failed, checked}
use sonic_nas_acl.Object.{Table, Entry}
use sonic_nas_acl.Result.{Result, ok, err}
use sonic_nas_acl.Switch.{Switch}

module _ {G O W : Type 0} ⦃n : Ndi W⦄ (hal : Hal) (fresh : ℕ → NdiFilter) (npu : ℕ) (t : Table O)
    (e e' : Entry O) (sw : Switch G O) (w w' : W) where
  -- What is created, its id, and its deletion.
  abbrev pub Created : Type 0
  Created =
      (x : NdiEntry) × (i : ℕ) × (ndi_entry_of hal fresh npu t e sw ≡ ok (some x))
      × (n.entry_create npu x w ≡ (done i, w'))
      × (find npu e'.ndi_entry_ids ≡ some i)
      × ((later : W) → (push_delete_obj_to_npu npu e' later).1 ≡ (n.entry_delete npu i later).1)

  of_reply :
      (x : NdiEntry) (r : Reply ℕ × W)
      → ndi_entry_of hal fresh npu t e sw ≡ ok (some x)
      → n.entry_create npu x w ≡ r
      → push_create_obj_to_npu hal fresh npu t e sw w ≡ (ok (true, e'), w')
      → Created
  unfolding push_create_obj_to_npu push_delete_obj_to_npu checked
  of_reply x (done i, w1) made reply pushed =
      let there : find npu e'.ndi_entry_ids ≡ some i =
        ground (arith, made, reply, find-put npu npu i e.ndi_entry_ids) in
      (x, i, made, ground (arith, made, reply), there, λ later. ground (arith, there))
  of_reply x (failed rc, w1) made reply pushed = absurd (ground (arith, made, reply))

  of_entry :
      (r : Result (Option NdiEntry))
      → ndi_entry_of hal fresh npu t e sw ≡ r
      → push_create_obj_to_npu hal fresh npu t e sw w ≡ (ok (true, e'), w')
      → Created
  unfolding push_create_obj_to_npu
  of_entry (ok (some x)) made pushed = of_reply x (n.entry_create npu x w) made refl pushed
  of_entry (ok none) made pushed = absurd (ground (arith, made))
  of_entry (err x) made pushed = absurd (ground (arith, made))

  -- When push_create_obj_to_npu returns true for an NPU, it made one call that creates the entry,
  -- with the structure that its table id, priority, filters and actions give for the NPU; the id
  -- that the NDI returned is recorded for the NPU; and push_delete_obj_to_npu on the resulting
  -- entry deletes that id, whatever state the NPUs are in by then.
  pub push_create-Created :
      push_create_obj_to_npu hal fresh npu t e sw w ≡ (ok (true, e'), w') → Created
  push_create-Created pushed = of_entry (ndi_entry_of hal fresh npu t e sw) refl pushed
