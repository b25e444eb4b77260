-- ===== src/CpsEntry/Update.antt =====
-- src/nas_acl_cps_entry.cpp: _cps_entry_incr_upd, a request for one filter or one action of an
-- entry.
use sonic_nas_acl.Base.{ℕ, Bool, false, Option, none, some, [], if◌then◌else◌}
use sonic_nas_acl.Action.{Action}
use sonic_nas_acl.CpsAction.{nas_acl_set_action_attr, nas_acl_fill_action_attr}
use sonic_nas_acl.CpsApi.{CpsApi}
use sonic_nas_acl.CpsEntry.{
  CpsOp, create, delete, EntryBase, Part, match_part, action_part, settled, cps_filter_upd_key_fill,
  cps_action_upd_key_fill,
}
use sonic_nas_acl.CpsEnv.{CpsEnv}
use sonic_nas_acl.CpsFilter.{nas_acl_set_match_attr, nas_acl_fill_match_attr}
use sonic_nas_acl.Env.{BaseObj}
use sonic_nas_acl.Filter.{Filter}
use sonic_nas_acl.NasEntry.{get_filter, get_action, remove_filter, remove_action, commit_modify}
use sonic_nas_acl.Object.{Table, Entry}
use sonic_nas_acl.Request.{Handled, caught}
use sonic_nas_acl.Result.{Result, ok, err, ◌>>=◌}
use sonic_nas_acl.Switch.{Switch, get_entry}
use sonic_nas_acl.Switch.Entries.{save_entry}
use sonic_nas_acl.Types.{MatchType, ActionType}

-- The filter or the action that the entry has before, if the operation needs it.
unfoldable pub old_filter : {O : Type 0} → CpsOp → MatchType → Entry O → Result (Option Filter)
unfolding get_filter
old_filter create ftype e = ok none
old_filter _ ftype e = do f ← get_filter ftype e; ok (some f)

unfoldable pub old_action : {O : Type 0} → CpsOp → ActionType → Entry O → Result (Option Action)
unfolding get_action
old_action create atype e = ok none
old_action _ atype e = do a ← get_action atype e; ok (some a)

module _ {Ob G O : Type 0} ⦃api : CpsApi Ob⦄ ⦃b : BaseObj O⦄ (env : CpsEnv) (obj : Ob) (t : Table O)
    (sw : Switch G O) where
  unfoldable pub change_match : CpsOp → MatchType → Entry O → Result (Entry O)
  unfolding remove_filter nas_acl_set_match_attr
  change_match delete ftype e = ok (remove_filter ftype e)
  change_match _ ftype e = settled (nas_acl_set_match_attr env obj t ftype [] false e)

  unfoldable pub change_action : CpsOp → ActionType → Entry O → Result (Entry O)
  unfolding remove_action nas_acl_set_action_attr
  change_action delete atype e = ok (remove_action atype e)
  change_action _ atype e = settled (nas_acl_set_action_attr env obj sw atype [] false e)

module _ {Ob O : Type 0} ⦃api : CpsApi Ob⦄ (env : CpsEnv) (old_entry : Entry O) where
  -- `prev`, with the key of `obj` already: the keys and the old value. What the calls return is
  -- ignored.
  unfoldable pub prev_match : MatchType → Option Filter → Ob → Result Ob
  unfolding cps_filter_upd_key_fill nas_acl_fill_match_attr
  prev_match ftype none prev = ok (cps_filter_upd_key_fill env prev old_entry ftype).1
  prev_match ftype (some f) prev = do
    (filled, prev') ←
        nas_acl_fill_match_attr env f ftype [] (cps_filter_upd_key_fill env prev old_entry ftype).1
    ok prev'

  unfoldable pub prev_action : ActionType → Option Action → Ob → Result Ob
  unfolding cps_action_upd_key_fill nas_acl_fill_action_attr
  prev_action atype none prev = ok (cps_action_upd_key_fill env prev old_entry atype).1
  prev_action atype (some a) prev = do
    (filled, prev') ←
        nas_acl_fill_action_attr env a atype [] (cps_action_upd_key_fill env prev old_entry atype).1
    ok prev'

module _ {Ob G O : Type 0} ⦃api : CpsApi Ob⦄ ⦃b : BaseObj O⦄ (env : CpsEnv) (base : EntryBase O)
    (obj prev : Ob) (is_rollbk_op : Bool) (t : Table O) (sw : Switch G O) (op : CpsOp) where
  -- The changed entry, and what fills `prev` after the commit.
  unfoldable pub changed_entry : Part → Entry O → Result (Entry O × (Ob → Result Ob))
  unfolding old_filter old_action change_match change_action prev_match prev_action
  changed_entry (match_part ftype) old_entry = do
    f ← old_filter op ftype old_entry
    e ← change_match env obj t sw op ftype (base.copy old_entry)
    ok (e, prev_match env old_entry ftype f)
  changed_entry (action_part atype) old_entry = do
    a ← old_action op atype old_entry
    e ← change_action env obj t sw op atype (base.copy old_entry)
    ok (e, prev_action env old_entry atype a)

  -- After the commit: `prev`, then the store. An exception from filling `prev` leaves the store.
  unfoldable pub entry_updated : (Ob → Result Ob) → Entry O → Handled Ob G O
  unfolding save_entry
  entry_updated fill e = elim (if is_rollbk_op then ok prev else fill (api.copy_key prev obj)) [
    | err x ↦ record { rc = err (caught x); obj = obj; prev = prev; sw = sw }
    | ok prev' ↦ elim (save_entry e sw) [
      | err x ↦ record { rc = err x; obj = obj; prev = prev'; sw = sw }
      | ok sw' ↦ record { rc = ok tt; obj = obj; prev = prev'; sw = sw' }
    ]
  ]

  unfoldable pub change_committed : Part → Entry O → Result (Entry O × (Ob → Result Ob))
  unfolding changed_entry commit_modify
  change_committed part old_entry = do
    (e, fill) ← changed_entry part old_entry
    e' ← commit_modify base.commit_modify t old_entry e sw
    ok (e', fill)

  unfoldable pub cps_entry_incr_upd : Part → ℕ → Handled Ob G O
  unfolding get_entry change_committed entry_updated
  cps_entry_incr_upd part eid = elim (get_entry t.table_id eid sw >>= change_committed part) [
    | err x ↦ record { rc = err (caught x); obj = obj; prev = prev; sw = sw }
    | ok (e, fill) ↦ entry_updated fill e
  ]
