-- ===== src/CpsTable/Failing.antt =====
-- src/nas_acl_cps_table.cpp: a create request for a table either stores a committed table or leaves everything as it was.
use sonic_nas_acl.Base.{ℕ, ◌≡◌, refl, subst, ◌⊎◌, inl, inr, Bool, false, Option, arith, Bool-cases}
use sonic_nas_acl.CpsApi.{CpsApi}
use sonic_nas_acl.CpsEnv.{CpsEnv}
use sonic_nas_acl.CpsKey.{nas_acl_cps_key_get_obj_id}
use sonic_nas_acl.CpsTable.{
  parse_attrs, table_created, table_commit, table_parsed, table_taken, nas_acl_table_create,
}
use sonic_nas_acl.CpsTable.Taking.{
  blank_guard, take_id-Taken, Untouched, unwind_rc, unwind-Untouched,
}
use sonic_nas_acl.Env.{BaseObj, IdGenerator}
use sonic_nas_acl.IdGuard.{IdGuard}
use sonic_nas_acl.NasTable.{set_table_id, commit_create}
use sonic_nas_acl.Object.{Table, new_table}
use sonic_nas_acl.Request.{Handled, caught, take_id, unwind}
use sonic_nas_acl.Result.{Result, ok, err, Error, ◌>>=◌, key_val, Result-cases}
use sonic_nas_acl.Switch.{Switch}

module _ {Ob G O : Type 0} ⦃api : CpsApi Ob⦄ ⦃gen : IdGenerator G⦄ ⦃b : BaseObj O⦄ (env : CpsEnv)
    (obj prev : Ob) (is_rollbk_op : Bool) (sw : Switch G O)
    (base_commit : Table O → Result (Table O)) where
  -- A table that was committed with an id that was free or could not be reserved.
  abbrev pub Creates : Option ℕ → Handled Ob G O → Type 0
  Creates passed h =
      (tmp : Table O) × (i : ℕ) × (idg : IdGuard) × (sw1 : Switch G O) × (t : Table O) × (take_id
          passed blank_guard sw
        ≡ ok (i, idg, sw1))
      × ((set_table_id i tmp >>= commit_create base_commit) ≡ ok t)
      × (h ≡ table_created env obj prev is_rollbk_op sw t.table_id t sw1)

  abbrev Fails : Handled Ob G O → Type 0
  Fails h = ((y : Error) × (h.rc ≡ err y)) × Untouched sw obj prev h

  commit_cases :
      (passed : Option ℕ) (tmp : Table O) (i : ℕ) (idg : IdGuard) (sw1 : Switch G O)
      → take_id passed blank_guard sw ≡ ok (i, idg, sw1)
      → Fails (table_commit env obj prev is_rollbk_op sw base_commit tmp i idg sw1)
        ⊎ Creates passed (table_commit env obj prev is_rollbk_op sw base_commit tmp i idg sw1)
  unfolding table_commit
  commit_cases passed tmp i idg sw1 p =
      elim (Result-cases (set_table_id i tmp >>= commit_create base_commit)) [
        | inl (x, failed) ↦ inl (
            subst Fails {x = unwind obj prev idg sw1 x}
              {y = table_commit env obj prev is_rollbk_op sw base_commit tmp i idg sw1}
              (ground arith)
              ((
                unwind_rc sw1 obj prev idg x,
                unwind-Untouched sw obj prev i idg sw1 x (take_id-Taken sw passed i idg sw1 p),
              )))
        | inr (t, done) ↦ inr (tmp, i, idg, sw1, t, p, done, ground arith)
      ]

  parsed_cases :
      (passed : Option ℕ) (tmp : Table O)
      → Fails (table_parsed env obj prev is_rollbk_op sw base_commit passed tmp)
        ⊎ Creates passed (table_parsed env obj prev is_rollbk_op sw base_commit passed tmp)
  unfolding table_parsed unwind
  parsed_cases passed tmp = elim (Result-cases (take_id passed blank_guard sw)) [
    | inl (x, failed) ↦ inl (
        subst Fails {x = unwind obj prev blank_guard sw x}
          {y = table_parsed env obj prev is_rollbk_op sw base_commit passed tmp} (ground arith)
          ((unwind_rc sw obj prev blank_guard x, (refl, refl, refl, refl, λ j. refl))))
    | inr ((i, idg, sw1), taken) ↦
        subst (λ h. Fails h ⊎ Creates passed h)
          {x = table_commit env obj prev is_rollbk_op sw base_commit tmp i idg sw1} (ground arith)
          (commit_cases passed tmp i idg sw1 taken)
  ]

  abbrev pub passed_id : Option ℕ
  passed_id = nas_acl_cps_key_get_obj_id obj "BASE_ACL_TABLE_ID"

  abbrev pub created : Handled Ob G O
  created = nas_acl_table_create env obj prev is_rollbk_op sw base_commit

  -- What a create request does.
  abbrev pub Outcome : Handled Ob G O → Type 0
  Outcome h =
      Fails h ⊎ ((table_taken env obj prev is_rollbk_op sw passed_id ≡ false) × Creates passed_id h)

  unchanged : (x : Error) → Fails (record { rc = err x; obj = obj; prev = prev; sw = sw })
  unchanged x = ((x, refl), (refl, refl, refl, refl, λ j. refl))

  pub create_cases : Outcome created
  unfolding nas_acl_table_create
  create_cases = elim (Bool-cases (table_taken env obj prev is_rollbk_op sw passed_id)) [
    | inl taken ↦
        subst Outcome {x = record { rc = err key_val; obj = obj; prev = prev; sw = sw }}
          (ground arith) (inl (unchanged key_val))
    | inr free ↦
        elim (Result-cases (
          parse_attrs env sw (api.attrs obj) (record {
            table = new_table;
            is_stage_present = false;
            is_priority_present = false;
          }))) [
            | inl (x, failed) ↦
                subst Outcome {x = record { rc = err (caught x); obj = obj; prev = prev; sw = sw }}
                  (ground arith) (inl (unchanged (caught x)))
            | inr (p, parsed) ↦
                subst Outcome
                  {x = table_parsed env obj prev is_rollbk_op sw base_commit passed_id p.table}
                  (ground arith)
                  (elim (parsed_cases passed_id p.table) [
                    | inl fails ↦ inl fails
                    | inr creates ↦ inr (free, creates)
                  ])
          ]
  ]

  -- When nas_acl_table_create returns an error, from whatever check, exception of a setter,
  -- failed allocation of an id or failed commit, the object and the previous object, the tables
  -- and the containers are as they were before, and the same table ids are in use.
  pub create_failed-Untouched : (x : Error) → created.rc ≡ err x → Untouched sw obj prev created
  unfolding table_created
  create_failed-Untouched x p = elim create_cases [
    | inl fails ↦ fails.1
    | inr (free, (tmp, i, idg, sw1, t, taken, done, is)) ↦ absurd (ground arith)
  ]
