-- ===== src/CpsEntry/Write.antt =====
-- src/nas_acl_cps_entry.cpp: the requests that create, modify and delete an entry. The switch is
-- the one that nas_acl_get_switch returns.
use sonic_nas_acl.Base.{ℕ, Bool, true, false, Option, none, some, if◌then◌else◌}
use sonic_nas_acl.CpsApi.{CpsApi}
use sonic_nas_acl.CpsEntry.{
  create, set, delete, EntryBase, OpKey, cps_op_key_extract, cps_parse_entry_obj, cps_pack_attrs,
  cps_pack_entry, cps_pack_key,
}
use sonic_nas_acl.CpsEntry.Update.{cps_entry_incr_upd}
use sonic_nas_acl.CpsEnv.{CpsEnv}
use sonic_nas_acl.CpsKey.{nas_acl_cps_key_set_obj_id}
use sonic_nas_acl.Env.{BaseObj, IdGenerator}
use sonic_nas_acl.IdGuard.{IdGuard, new_guard, entry_obj}
use sonic_nas_acl.NasEntry.{set_entry_id, commit_create, commit_modify}
use sonic_nas_acl.Object.{Table, Entry, new_entry}
use sonic_nas_acl.Request.{Handled, caught, take_id, unwind}
use sonic_nas_acl.Result.{Result, ok, err, ◌>>=◌, key_val, missing_key}
use sonic_nas_acl.Switch.{Switch, find_entry, get_entry}
use sonic_nas_acl.Switch.Entries.{save_entry, put_entry, remove_entry_from_table}

module _ {Ob G O : Type 0} ⦃api : CpsApi Ob⦄ ⦃gen : IdGenerator G⦄ ⦃b : BaseObj O⦄ (env : CpsEnv)
    (base : EntryBase O) (obj prev : Ob) (is_rollbk_op : Bool) (sw : Switch G O) where
  abbrev answer : Result (Unit {0}) → Handled Ob G O
  answer rc = record { rc = rc; obj = obj; prev = prev; sw = sw }

  -- `prev` as it is filled, or the exception.
  abbrev filled_prev : Result Ob → Result Ob
  filled_prev fill = if is_rollbk_op then ok prev else fill

  -- The entry is committed: it is stored, and the keys are filled. save_entry is noexcept.
  unfoldable pub entry_created : Entry O → Switch G O → Handled Ob G O
  unfolding save_entry nas_acl_cps_key_set_obj_id cps_pack_key
  entry_created e sw' = elim (save_entry e sw') [
    | err x ↦ record { rc = err x; obj = obj; prev = prev; sw = sw' }
    | ok sw'' ↦
        let obj' = (nas_acl_cps_key_set_obj_id obj "BASE_ACL_ENTRY_ID" e.entry_id).1 in
        elim (filled_prev (cps_pack_key env e prev obj')) [
          | err x ↦ record { rc = err (caught x); obj = obj'; prev = prev; sw = sw'' }
          | ok prev' ↦ record { rc = ok tt; obj = obj'; prev = prev'; sw = sw'' }
        ]
  ]

  unfoldable pub entry_commit : Table O → Entry O → ℕ → IdGuard → Switch G O → Handled Ob G O
  unfolding unwind set_entry_id commit_create entry_created
  entry_commit t tmp_entry entry_id idg sw' =
      elim (set_entry_id entry_id tmp_entry >>= λ e. commit_create base.commit_create t e sw') [
        | err x ↦ unwind obj prev idg sw' x
        | ok e ↦ entry_created e sw'
      ]

  unfoldable pub entry_parsed : Table O → Option ℕ → Entry O → Handled Ob G O
  unfolding take_id unwind entry_commit
  entry_parsed t passed tmp_entry = elim (take_id passed (new_guard entry_obj t.table_id) sw) [
    | err x ↦ unwind obj prev (new_guard entry_obj t.table_id) sw x
    | ok (entry_id, idg, sw') ↦ entry_commit t tmp_entry entry_id idg sw'
  ]

  unfoldable pub entry_taken : ℕ → Option ℕ → Bool
  unfolding find_entry
  entry_taken table_id none = false
  entry_taken table_id (some i) = elim (find_entry table_id i sw) [ none ↦ false | some _ ↦ true ]

  unfoldable pub create_whole : Table O → Option ℕ → Handled Ob G O
  unfolding entry_taken cps_parse_entry_obj entry_parsed
  create_whole t passed =
      if entry_taken t.table_id passed
      then answer (err key_val)
      else elim (cps_parse_entry_obj env obj t sw (new_entry t.table_id)) [
        | err x ↦ answer (err (caught x))
        | ok (e, npu_modified) ↦ entry_parsed t passed e
      ]

  -- A request for a part has the id of an entry.
  unfoldable pub create_by_key : OpKey O → Handled Ob G O
  unfolding cps_entry_incr_upd create_whole
  create_by_key key = elim key.part [
    | none ↦ create_whole key.table key.eid
    | some part ↦ elim key.eid [
      | none ↦ answer (err missing_key)
      | some eid ↦ cps_entry_incr_upd env base obj prev is_rollbk_op key.table sw create part eid
    ]
  ]

  unfoldable pub nas_acl_entry_create : Handled Ob G O
  unfolding cps_op_key_extract create_by_key
  nas_acl_entry_create = elim (cps_op_key_extract env obj sw) [
    | err x ↦ answer (err (caught x))
    | ok key ↦ create_by_key key
  ]

  -- The new entry is committed: `prev` gets the old values, then the entry is stored.
  unfoldable pub entry_modified : Entry O → Entry O → Bool → Handled Ob G O
  unfolding cps_pack_attrs save_entry
  entry_modified old_entry e npu_modified =
      let mod_attrs = base.mod_attrs old_entry e in
      elim (filled_prev (cps_pack_attrs env old_entry prev obj mod_attrs npu_modified)) [
        | err x ↦ answer (err (caught x))
        | ok prev' ↦ elim (save_entry e sw) [
          | err x ↦ record { rc = err x; obj = obj; prev = prev'; sw = sw }
          | ok sw' ↦ record { rc = ok tt; obj = obj; prev = prev'; sw = sw' }
        ]
      ]

  unfoldable pub modify_commit : Table O → Entry O → Result (Entry O × Bool)
  unfolding cps_parse_entry_obj commit_modify
  modify_commit t old_entry = do
    (e, npu_modified) ← cps_parse_entry_obj env obj t sw (base.copy old_entry)
    e' ← commit_modify base.commit_modify t old_entry e sw
    ok (e', npu_modified)

  unfoldable pub modify_whole : Table O → ℕ → Handled Ob G O
  unfolding get_entry modify_commit entry_modified
  modify_whole t eid = elim (get_entry t.table_id eid sw) [
    | err x ↦ answer (err (caught x))
    | ok old_entry ↦ elim (modify_commit t old_entry) [
      | err x ↦ answer (err (caught x))
      | ok (e, npu_modified) ↦ entry_modified old_entry e npu_modified
    ]
  ]

  unfoldable pub modify_by_key : OpKey O → Handled Ob G O
  unfolding cps_entry_incr_upd modify_whole
  modify_by_key key = elim key.eid [
    | none ↦ answer (err missing_key)
    | some eid ↦ elim key.part [
      | none ↦ modify_whole key.table eid
      | some part ↦ cps_entry_incr_upd env base obj prev is_rollbk_op key.table sw set part eid
    ]
  ]

  unfoldable pub nas_acl_entry_modify : Handled Ob G O
  unfolding cps_op_key_extract modify_by_key
  nas_acl_entry_modify = elim (cps_op_key_extract env obj sw) [
    | err x ↦ answer (err (caught x))
    | ok key ↦ modify_by_key key
  ]

  -- The commit changes the stored entry, which is then removed.
  unfoldable pub entry_deleted : ℕ → ℕ → Entry O → Handled Ob G O
  unfolding cps_pack_entry put_entry remove_entry_from_table
  entry_deleted table_id eid e =
      let sw1 = put_entry table_id eid e sw in
      elim (filled_prev (cps_pack_entry env e base prev obj)) [
        | err x ↦ record { rc = err (caught x); obj = obj; prev = prev; sw = sw1 }
        | ok prev' ↦ elim (remove_entry_from_table table_id eid sw1) [
          | err x ↦ record { rc = err x; obj = obj; prev = prev'; sw = sw1 }
          | ok sw' ↦ record { rc = ok tt; obj = obj; prev = prev'; sw = sw' }
        ]
      ]

  -- A commit that fails may have changed the stored entry.
  unfoldable pub entry_delete_commit : ℕ → ℕ → Entry O → Handled Ob G O
  unfolding put_entry entry_deleted
  entry_delete_commit table_id eid e =
      let (left, done) = base.commit_delete e in
      elim done [
        | err x ↦ record {
          rc = err (caught x);
          obj = obj;
          prev = prev;
          sw = put_entry table_id eid left sw;
        }
        | ok _ ↦ entry_deleted table_id eid left
      ]

  unfoldable pub delete_whole : Table O → ℕ → Handled Ob G O
  unfolding get_entry entry_delete_commit
  delete_whole t eid = elim (get_entry t.table_id eid sw) [
    | err x ↦ answer (err (caught x))
    | ok e ↦ entry_delete_commit t.table_id eid e
  ]

  unfoldable pub delete_by_key : OpKey O → Handled Ob G O
  unfolding cps_entry_incr_upd delete_whole
  delete_by_key key = elim key.eid [
    | none ↦ answer (err missing_key)
    | some eid ↦ elim key.part [
      | none ↦ delete_whole key.table eid
      | some part ↦ cps_entry_incr_upd env base obj prev is_rollbk_op key.table sw delete part eid
    ]
  ]

  unfoldable pub nas_acl_entry_delete : Handled Ob G O
  unfolding cps_op_key_extract delete_by_key
  nas_acl_entry_delete = elim (cps_op_key_extract env obj sw) [
    | err x ↦ answer (err (caught x))
    | ok key ↦ delete_by_key key
  ]
