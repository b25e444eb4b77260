-- ===== src/CpsCounter/Unused.antt =====
-- src/nas_acl_cps_counter.cpp: a delete request for a counter that no entry uses.
use sonic_nas_acl.Base.{
  ℕ, ◌≡◌, refl, inl, inr, Bool, true, false, some, List, [], ◌∷◌, arith, nat_eq, Option-cases,
}
use sonic_nas_acl.CpsApi.{CpsApi}
use sonic_nas_acl.CpsCounter.{nas_acl_counter_delete, delete_counter_of, delete_counter}
use sonic_nas_acl.CpsEnv.{CpsEnv}
use sonic_nas_acl.CpsKey.{nas_acl_cps_key_get_obj_id}
use sonic_nas_acl.Env.{BaseObj, IdGenerator}
use sonic_nas_acl.IdSet.{contains}
use sonic_nas_acl.Map.{find}
use sonic_nas_acl.NasCounter.{commit_delete}
use sonic_nas_acl.NasTable.{is_empty}
use sonic_nas_acl.Object.{Counter}
use sonic_nas_acl.Result.{Result, ok, Result-cases}
use sonic_nas_acl.Switch.{Switch, get_counter, find_counter, find_entry}
use sonic_nas_acl.Switch.Entries.{remove_counter_from_table}
use sonic_nas_acl.Switch.Lookup.{uses}
use sonic_nas_acl.Switch.Refs.{IsConsistent}

no_member : (l : List ℕ) → ((j : ℕ) → contains j l ≡ false) → is_empty l ≡ true
unfolding contains is_empty
no_member [] h = refl
no_member (x ∷ xs) h = ground (arith, h x)

module _ {G O : Type 0} ⦃gen : IdGenerator G⦄ (sw : Switch G O) (t i : ℕ) (k : Counter O) where
  counter_stored : find_counter t i sw ≡ some k → get_counter t i sw ≡ ok k
  unfolding get_counter find_counter
  counter_stored there = elim (Option-cases (find t sw.table_containers)) [
    | inl missing ↦ absurd (ground arith)
    | inr (c, found) ↦ ground arith
  ]

  pub removable :
      find_counter t i sw ≡ some k
      → (sw' : Switch G O) × (remove_counter_from_table t i sw ≡ ok sw')
  unfolding remove_counter_from_table find_counter
  removable there = elim (Option-cases (find t sw.table_containers)) [
    | inl missing ↦ absurd (ground arith)
    | inr (c, found) ↦ elim (Result-cases (remove_counter_from_table t i sw)) [
      | inl (x, failed) ↦ absurd (ground arith)
      | inr done ↦ done
    ]
  ]

  unused_refs :
      IsConsistent sw
      → find_counter t i sw ≡ some k
      → ((j : ℕ) → uses (find_entry t j sw) i ≡ false)
      → is_empty k.refs ≡ true
  unused_refs v there unused = no_member k.refs (λ j. ground (arith, v.exact t i j, unused j))

module _ {Ob G O : Type 0} ⦃api : CpsApi Ob⦄ ⦃gen : IdGenerator G⦄ ⦃b : BaseObj O⦄ (env : CpsEnv)
    (obj prev : Ob) (is_rollbk_op : Bool) (sw : Switch G O)
    (base_commit : Counter O → Counter O × Result (Unit {0})) where
  -- In a consistent switch (every counter lists exactly the entries that count with it), when the
  -- keys name a counter that is stored and that no entry of its table counts with, and the base
  -- class commits its deletion, nas_acl_counter_delete succeeds.
  pub unused_counter_deleted :
      (t i : ℕ) (k : Counter O)
      → IsConsistent sw
      → nas_acl_cps_key_get_obj_id obj "BASE_ACL_COUNTER_TABLE_ID" ≡ some t
      → nas_acl_cps_key_get_obj_id obj "BASE_ACL_COUNTER_ID" ≡ some i
      → find_counter t i sw ≡ some k
      → ((j : ℕ) → uses (find_entry t j sw) i ≡ false)
      → (base_commit k).1 ≡ ok tt
      → (nas_acl_counter_delete env obj prev is_rollbk_op sw base_commit).rc ≡ ok tt
  unfolding nas_acl_counter_delete delete_counter_of delete_counter commit_delete
  unused_counter_deleted t i k v table counter there unused done =
      let (sw', removed) = removable sw t i k there in
      ground (arith, counter_stored sw t i k there, unused_refs sw t i k v there unused)
