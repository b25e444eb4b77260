-- ===== src/Tests/CpsWitnesses.antt =====
-- The theorems on CPS requests, applied to small objects.
use sonic_nas_acl.Base.{ℕ, ◌≡◌, refl, true, false, some, List, [], ◌∷◌, nat_eq, arith}
use sonic_nas_acl.Action.Layout.{Stores}
use sonic_nas_acl.Action.RoundTrip.{set-get_action}
use sonic_nas_acl.ActionMap.{action_info}
use sonic_nas_acl.ActionMap.Header.{set_dscp_info}
use sonic_nas_acl.Common.{CommonData, Scalar, scalar_data}
use sonic_nas_acl.CpsAction.Reads.{Reads as ActionReads, has_value, read_action-Reads}
use sonic_nas_acl.CpsApi.{named, u32, bin}
use sonic_nas_acl.CpsCounter.Created.{
  created as created_counter, AddsCounter, IsTracked, create_counter-AddsCounter,
}
use sonic_nas_acl.CpsCounter.Taking.{KeepsKey}
use sonic_nas_acl.IdSet.{contains}
use sonic_nas_acl.CpsCounter.Deleted.{Outcome, delete_request-Outcome}
use sonic_nas_acl.CpsCounter.Unused.{unused_counter_deleted}
use sonic_nas_acl.CpsDispatch.{Bases}
use sonic_nas_acl.CpsFilter.Ranges.{match_values-all_in_range, row_attrs}
use sonic_nas_acl.CpsFilter.{read_match, nas_acl_fill_match_attr}
use sonic_nas_acl.CpsFilter.Refilled.{refilled-read_match}
use sonic_nas_acl.CpsFilter.Reads.{Reads as MatchReads, read_match-Reads}
use sonic_nas_acl.CpsKey.{nas_acl_cps_key_get_obj_id}
use sonic_nas_acl.CpsStats.{add_counts}
use sonic_nas_acl.CpsStats.Totals.{add_counts-Totals, Totals}
use sonic_nas_acl.CpsCounter.{nas_acl_counter_create, nas_acl_counter_delete}
use sonic_nas_acl.CpsTable.{nas_acl_table_create, nas_acl_table_delete}
use sonic_nas_acl.CpsTable.Created.{IsSound, Adds, create_table-IsSound}
use sonic_nas_acl.CpsTable.Deleted.{Removes, deleted, delete_table-Removes}
use sonic_nas_acl.CpsTable.Failing.{created, create_failed-Untouched}
use sonic_nas_acl.CpsTable.Taking.{Untouched}
use sonic_nas_acl.CpsUtils.Ranges.{all_in_range}
use sonic_nas_acl.CpsUtils.Read.{nas_acl_copy_data_from_obj}
use sonic_nas_acl.Filter.{Filter, FilterKind, FilterUnion}
use sonic_nas_acl.FilterMap.{filter_info, nas_acl_filter_is_type_valid}
use sonic_nas_acl.FilterMap.Ip.{dscp_info}
use sonic_nas_acl.Map.{find, put}
use sonic_nas_acl.NasTable.{is_empty}
use sonic_nas_acl.Result.{ok, err, duplicate}
use sonic_nas_acl.Object.{is_counter_enabled, counter_id}
use sonic_nas_acl.Switch.{find_table, find_counter, find_entry}
use sonic_nas_acl.Tests.CpsFixtures.{
  drops, request, to_attr, PlainObj, plain_api, numbered_env, consts-HaveSize, one_table,
  one_table-IsSound, accepts, accepts-KeepsId, with_key, blank_obj, table_request, staged_twice,
  dscp_request, first_at, key_of, top_level,
}
use sonic_nas_acl.Tests.Fixtures.{
  Obj, plain_obj, list_gen, counting_ndi, consts, small_switch, small_switch-IsConsistent,
  counter_of, attr_beq,
}
use sonic_nas_acl.Types.{dscp, set_dscp, set_counter, action_beq_iff}

abbrev dscp_value : List CommonData
dscp_value = scalar_data (Scalar.u8 10) ∷ []

set_dscp_row : action_info consts set_dscp ≡ some (set_dscp_info consts)
unfolding action_info
set_dscp_row = refl

set-get_action_example : Stores numbered_env.action_env set_dscp (set_dscp_info consts) dscp_value
unfolding set_dscp_info
set-get_action_example =
    set-get_action numbered_env.action_env set_dscp (set_dscp_info consts) dscp_value set_dscp_row
      ((10, refl), tt)

dscp_row : filter_info consts dscp ≡ some (dscp_info consts)
unfolding filter_info
dscp_row = refl

read_match-Reads_example : MatchReads numbered_env dscp_request dscp (dscp_info consts) []
read_match-Reads_example =
    read_match-Reads numbered_env dscp_request dscp (dscp_info consts) [] consts-HaveSize dscp_row

set_dscp_valued : has_value (set_dscp_info consts).val.data_type ≡ true
unfolding set_dscp_info
set_dscp_valued = refl

read_action-Reads_example : ActionReads numbered_env dscp_request set_dscp (set_dscp_info consts) []
read_action-Reads_example =
    read_action-Reads numbered_env dscp_request set_dscp (set_dscp_info consts) [] consts-HaveSize
      set_dscp_row set_dscp_valued

-- The mask is filled in.
abbrev dscp_and_mask : List CommonData
dscp_and_mask = scalar_data (Scalar.u8 46) ∷ scalar_data (Scalar.u8 63) ∷ []

dscp_copied :
    nas_acl_copy_data_from_obj dscp_request
      (named (dscp_info consts).val.attr_id ∷ [])
      (dscp_info consts).val
      (dscp_info consts).child_list
    ≡ ok dscp_and_mask
unfolding nas_acl_copy_data_from_obj dscp_info first_at
dscp_copied = refl

match_values-all_in_range_example : all_in_range (row_attrs (dscp_info consts)) dscp_and_mask ≡ true
match_values-all_in_range_example =
    match_values-all_in_range consts dscp_request dscp (dscp_info consts) [] dscp_and_mask
      consts-HaveSize refl dscp_row dscp_copied

second_stage_refused :
    (created numbered_env staged_twice blank_obj false one_table accepts).rc ≡ err duplicate
unfolding nas_acl_table_create top_level key_of attr_beq
second_stage_refused = refl

create_failed-Untouched_example :
    Untouched one_table staged_twice blank_obj
      (created numbered_env staged_twice blank_obj false one_table accepts)
create_failed-Untouched_example =
    create_failed-Untouched numbered_env staged_twice blank_obj false one_table accepts duplicate
      second_stage_refused

table_2_created : (created numbered_env table_request blank_obj false one_table accepts).rc ≡ ok tt
unfolding nas_acl_table_create top_level key_of nas_acl_filter_is_type_valid attr_beq
table_2_created = refl

create_table-IsSound_example :
    IsSound (created numbered_env table_request blank_obj false one_table accepts).sw
    × Adds numbered_env table_request blank_obj false one_table accepts
        (created numbered_env table_request blank_obj false one_table accepts).sw
create_table-IsSound_example =
    create_table-IsSound numbered_env table_request blank_obj false one_table accepts
      one_table-IsSound accepts-KeepsId table_2_created

abbrev table_1_key : PlainObj
table_1_key = with_key "BASE_ACL_TABLE_ID" 1 blank_obj

table_1_named : nas_acl_cps_key_get_obj_id table_1_key "BASE_ACL_TABLE_ID" ≡ some 1
unfolding nas_acl_cps_key_get_obj_id key_of
table_1_named = refl

table_1_deleted :
    (deleted numbered_env table_1_key blank_obj false one_table (λ t. false) drops).rc ≡ ok tt
unfolding nas_acl_table_delete key_of find is_empty
table_1_deleted = refl

delete_table-Removes_example :
    IsSound (deleted numbered_env table_1_key blank_obj false one_table (λ t. false) drops).sw
    × Removes one_table 1
        (deleted numbered_env table_1_key blank_obj false one_table (λ t. false) drops).sw
delete_table-Removes_example =
    delete_table-Removes numbered_env table_1_key blank_obj false one_table (λ t. false) drops 1
      one_table-IsSound table_1_named table_1_deleted

abbrev counter_key : PlainObj
counter_key = with_key "BASE_ACL_COUNTER_TABLE_ID" 1 (with_key "BASE_ACL_COUNTER_ID" 6 blank_obj)

delete_request-Outcome_example :
    Outcome numbered_env counter_key blank_obj false small_switch drops
      (nas_acl_counter_delete numbered_env counter_key blank_obj false small_switch drops)
delete_request-Outcome_example =
    delete_request-Outcome numbered_env counter_key blank_obj false small_switch drops
      small_switch-IsConsistent (λ k. refl)

unused_counter_deleted_example :
    (nas_acl_counter_delete numbered_env counter_key blank_obj false small_switch drops).rc ≡ ok tt
unfolding nas_acl_cps_key_get_obj_id key_of find_counter find_entry find is_counter_enabled
    counter_id
unused_counter_deleted_example =
    unused_counter_deleted numbered_env counter_key blank_obj false small_switch drops 1 6
      (counter_of 6 []) small_switch-IsConsistent refl refl refl
      (λ j. ground (arith, action_beq_iff set_counter set_counter)) refl

-- A counter of packets for table 1.
abbrev counter_request : PlainObj
counter_request =
    with_key "BASE_ACL_COUNTER_TABLE_ID" 1
      (request ((named "BASE_ACL_COUNTER_TYPES" ∷ [], to_attr (u32 1)) ∷ []))

small_switch-IsTracked : IsTracked small_switch
unfolding find find_table contains
small_switch-IsTracked = record {
  counters = λ t i c at_t at_i. ground arith;
  tables = λ t x at_t. ground arith;
}

ok-KeepsKey : KeepsKey {O = Obj} ok
ok-KeepsKey k k' h = (ground arith, ground arith, ground arith)

counter_made :
    (created_counter numbered_env counter_request blank_obj false small_switch ok).rc ≡ ok tt
unfolding nas_acl_counter_create top_level key_of find attr_beq put
counter_made = refl

create_counter-AddsCounter_example :
    AddsCounter numbered_env counter_request blank_obj false small_switch ok 1
      (created_counter numbered_env counter_request blank_obj false small_switch ok).sw
unfolding nas_acl_cps_key_get_obj_id key_of
create_counter-AddsCounter_example =
    create_counter-AddsCounter numbered_env counter_request blank_obj false small_switch ok 1
      small_switch-IsConsistent small_switch-IsTracked ok-KeepsKey refl counter_made

abbrev with_totals : PlainObj
with_totals = (plain_api.attr_add blank_obj "BASE_ACL_STATS_NPU_ID_LIST" (u32 0)).1

counts_added :
    add_counts {W = ℕ} (counter_of 5 []) 50 true true (0 ∷ []) blank_obj 3 4
    ≡ ok (with_totals, 3, 4)
unfolding add_counts
counts_added = refl

add_counts-Totals_example : Totals {W = ℕ} (counter_of 5 []) 50 true true (0 ∷ []) 3 4 3 4
add_counts-Totals_example =
    add_counts-Totals {W = ℕ} (counter_of 5 []) 50 true true (0 ∷ []) blank_obj with_totals 3 4 3 4
      (omega arith) (omega arith) counts_added

abbrev bases : Bases Obj
bases = record {
  following_switch_npus = λ t. false;
  table_create = λ rolling_back. accepts;
  table_delete = λ rolling_back. drops;
  counter_create = λ rolling_back k. ok k;
  counter_delete = λ rolling_back. drops;
  entry = λ rolling_back. record {
    commit_create = λ e. ok e;
    commit_modify = λ old e. ok e;
    commit_delete = drops;
    copy = λ e. e;
    set_attr_list = λ e. [];
    mod_attrs = λ old e. [];
  };
}

abbrev dscp_filter : Filter
dscp_filter = record {
  f_info = record {
    filter_type = dscp;
    values_type = some FilterKind.u8;
    value = FilterUnion.u8 46;
    mask = FilterUnion.u8 63;
  };
  ifindex_list = [];
}

dscp_read : read_match numbered_env dscp_request dscp (dscp_info consts) [] ≡ ok dscp_filter
unfolding read_match dscp_info first_at
dscp_read = refl

-- The same value with its mask, in another object.
abbrev dscp_refilled : PlainObj
dscp_refilled = request (
    (
      named "BASE_ACL_ENTRY_MATCH_DSCP_VALUE" ∷ named "BASE_ACL_ENTRY_MATCH_DSCP_VALUE_DATA" ∷ [],
      to_attr (bin (46 ∷ [])),
    )
    ∷ (
      named "BASE_ACL_ENTRY_MATCH_DSCP_VALUE" ∷ named "BASE_ACL_ENTRY_MATCH_DSCP_VALUE_MASK" ∷ [],
      to_attr (bin (63 ∷ [])),
    )
    ∷ [])

dscp_filled :
    nas_acl_fill_match_attr numbered_env dscp_filter dscp [] blank_obj ≡ ok (true, dscp_refilled)
unfolding nas_acl_fill_match_attr dscp_info
dscp_filled = refl

refilled-read_match_example :
    read_match numbered_env dscp_refilled dscp (dscp_info consts) [] ≡ ok dscp_filter
unfolding dscp_info first_at
refilled-read_match_example =
    refilled-read_match numbered_env dscp_request blank_obj dscp_refilled dscp (dscp_info consts) []
      [] dscp_filter consts-HaveSize refl dscp_row refl dscp_read (refl, (refl, tt)) dscp_filled
