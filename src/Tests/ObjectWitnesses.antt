-- ===== src/Tests/ObjectWitnesses.antt =====
-- The theorems on tables, counters, entries, filters and actions, applied to small objects.
use sonic_nas_acl.Base.{
  ℕ, ◌≡◌, refl, true, false, ◌||◌, none, some, List, [], ◌∷◌, nat_eq, ◌==◌, if◌then◌else◌, bool_eq,
}
use sonic_nas_acl.Action.{Action, ActionKind, blank_action}
use sonic_nas_acl.Action.Differ.{action_ne-portlist}
use sonic_nas_acl.Action.Ndi.{action_ne}
use sonic_nas_acl.Common.{CommonData, Scalar, scalar_data}
use sonic_nas_acl.Env.{IfInfo, entry_match}
use sonic_nas_acl.Filter.{Filter, FilterKind, FilterUnion, NdiFilter, blank_filter, is_npu_specific}
use sonic_nas_acl.Filter.Ndi.{copy_filter_ndi, get_npu_list, filter_ne}
use sonic_nas_acl.Filter.Npus.{Matches, filter_ne-Matches}
use sonic_nas_acl.Filter.RoundTrip.{set-get_round_trip}
use sonic_nas_acl.Filter.Layout.{Stores}
use sonic_nas_acl.Filter.Values.{FilterEnv, IpType, IpFrag}
use sonic_nas_acl.FilterMap.{filter_info, nas_acl_filter_is_type_valid}
use sonic_nas_acl.FilterMap.Ip.{dscp_info}
use sonic_nas_acl.IdSet.{contains, add}
use sonic_nas_acl.Map.{Map, find, put}
use sonic_nas_acl.NasCounter.{diff_counter_type}
use sonic_nas_acl.NasCounter.Types.{set_types, set_types_lem, diff_counter_type_lem}
use sonic_nas_acl.NasEntry
use sonic_nas_acl.NasEntry.Compare.{flist_compare}
use sonic_nas_acl.NasEntry.Diff.{flist_compare_lem}
use sonic_nas_acl.NasEntry.Npus.{
  add_filter_lem, add_filter-npus, commit_create-npus, commit_modify-npus,
}
use sonic_nas_acl.Ndi.{checked}
use sonic_nas_acl.NasEntry.Push.{push_create_obj_to_npu}
use sonic_nas_acl.NasEntry.Pushed.{Created, push_create-Created}
use sonic_nas_acl.NasTable.{is_empty, is_filter_allowed}
use sonic_nas_acl.Utl.{nas_acl_utl_ifidx_to_ndi_port}
use sonic_nas_acl.NasTable.Fields.{set_allowed_filters, set_allowed_filters_lem}
use sonic_nas_acl.Object.{
  Table, Entry, counter_type_eq, is_counter_enabled, counter_type_eq, new_entry, new_table, packet,
  byte,
}
use sonic_nas_acl.Result.{ok, ◌>>◌}
use sonic_nas_acl.Tests.Fixtures.{
  counting_ndi, Obj, list_gen, plain_obj, two_npus, consts, counter_of, small_switch,
}
use sonic_nas_acl.Types.{
  MatchType, dscp, in_ports, ttl, redirect_port_list, match_eq, action_eq, match_beq,
  MatchType-discrete,
}

abbrev filter_env : FilterEnv
filter_env = record {
  consts = consts;
  hal = two_npus;
  ip_type_of = λ n. IpType.unlisted;
  ip_frag_of = λ n. IpFrag.unlisted;
}

-- A DSCP value and its mask.
abbrev dscp_data : List CommonData
dscp_data = scalar_data (Scalar.u8 46) ∷ scalar_data (Scalar.u8 63) ∷ []

dscp_row : filter_info consts dscp ≡ some (dscp_info consts)
unfolding filter_info
dscp_row = refl

set-get_round_trip_example : Stores filter_env dscp (dscp_info consts) dscp_data
unfolding dscp_info
set-get_round_trip_example =
    set-get_round_trip filter_env dscp (dscp_info consts) dscp_data dscp_row
      ((46, refl), ((63, refl), tt))

abbrev in_ports_1_11 : Filter
in_ports_1_11 = record {
  f_info = record {
    filter_type = in_ports;
    values_type = some FilterKind.portlist;
    value = FilterUnion.zeroed;
    mask = FilterUnion.zeroed;
  };
  ifindex_list = 1 ∷ 11 ∷ [];
}

abbrev zeroed_ndi_filter : NdiFilter
zeroed_ndi_filter = (blank_filter dscp).f_info

same_in_ports : filter_ne in_ports_1_11 in_ports_1_11 ≡ false
unfolding filter_ne match_beq MatchType-discrete
same_in_ports = refl

filter_ne-Matches_example : Matches in_ports_1_11 in_ports_1_11
filter_ne-Matches_example = filter_ne-Matches in_ports_1_11 in_ports_1_11 same_in_ports

abbrev to_ports_1_2 : Action
to_ports_1_2 = record {
  a_info = record (blank_action redirect_port_list).a_info { values_type = ActionKind.portlist };
  ifindex_list = 1 ∷ 2 ∷ [];
  nas_oid = 0;
  nas2ndi_oid_tbl = [];
}

action_ne-portlist_example :
    action_ne to_ports_1_2 (record to_ports_1_2 { ifindex_list = 3 ∷ [] }) ≡ false
action_ne-portlist_example = action_ne-portlist to_ports_1_2 (3 ∷ []) refl

-- The old lists and the new ones.
abbrev old_filters : Map MatchType Filter
old_filters = (dscp, blank_filter dscp) ∷ (in_ports, in_ports_1_11) ∷ []

abbrev new_filters : Map MatchType Filter
new_filters =
    (ttl, blank_filter ttl) ∷ (in_ports, record in_ports_1_11 { ifindex_list = 1 ∷ [] }) ∷ []

flist_compare_example :
    (find dscp (flist_compare new_filters old_filters).0 ≡ some (blank_filter dscp))
    × (find dscp (flist_compare new_filters old_filters).1 ≡ none)
unfolding find match_beq MatchType-discrete
flist_compare_example =
    flist_compare_lem new_filters old_filters (refl, refl, (refl, refl, tt))
      (refl, refl, (refl, refl, tt)) dscp

-- A table of both NPUs that allows two fields, and an entry of it.
abbrev open_table : Table Obj
open_table = record (new_table {O = Obj}) {
  table_id = 1;
  allowed_filters = dscp ∷ in_ports ∷ [];
  base = record { npus = 0 ∷ 1 ∷ []; dirty = λ a. false; created = true };
}

abbrev plain_entry : Entry Obj
plain_entry = record (new_entry {O = Obj} 1) { entry_id = 7 }

abbrev matching_entry : Entry Obj
matching_entry = (NasEntry.add_filter two_npus open_table in_ports_1_11 true plain_entry).0

filter_added :
    NasEntry.add_filter two_npus open_table in_ports_1_11 true plain_entry ≡ (matching_entry, ok tt)
unfolding NasEntry.add_filter get_npu_list two_npus contains add find put match_beq is_npu_specific
    is_empty nas_acl_utl_ifidx_to_ndi_port
filter_added = refl

add_filter_example :
    (is_filter_allowed in_ports open_table ≡ true)
    × ((j : MatchType)
        → find j matching_entry.flist ≡ (if in_ports == j then some in_ports_1_11 else none))
    × (matching_entry.base.dirty entry_match ≡ true)
add_filter_example =
    add_filter_lem two_npus open_table in_ports_1_11 true plain_entry matching_entry filter_added

add_filter-npus_example :
    (intf : IfInfo) × (nas_acl_utl_ifidx_to_ndi_port two_npus 11 ≡ ok intf)
    × (contains intf.npu_id (0 ∷ 1 ∷ []) ≡ true)
    × (contains intf.npu_id matching_entry.filter_npus ≡ true)
unfolding is_npu_specific contains
add_filter-npus_example =
    add_filter-npus two_npus open_table in_ports_1_11 true plain_entry matching_entry refl
      filter_added 11 refl

-- The entry when its own NPU list leaves out an NPU of the filter.
abbrev short_entry : Entry Obj
short_entry = record matching_entry {
  following_table_npus = false;
  base = record matching_entry.base { npus = 0 ∷ [] };
}

commit_create-npus_example :
    NasEntry.commit_create ok open_table short_entry small_switch
    ≡ (NasEntry.validate_counter_npus short_entry small_switch >> ok short_entry)
unfolding NasEntry.add_filter get_npu_list two_npus contains add is_npu_specific is_empty
    nas_acl_utl_ifidx_to_ndi_port find put match_beq
commit_create-npus_example = commit_create-npus open_table short_entry small_switch ok refl refl

abbrev long_entry : Entry Obj
long_entry = record matching_entry {
  following_table_npus = false;
  base = record matching_entry.base { npus = 0 ∷ 1 ∷ [] };
}

long_entry_modified :
    NasEntry.commit_modify (λ old e. ok e) open_table plain_entry long_entry small_switch
    ≡ ok long_entry
unfolding NasEntry.commit_modify NasEntry.all_contained NasEntry.add_filter get_npu_list two_npus
    contains add is_npu_specific is_empty nas_acl_utl_ifidx_to_ndi_port find put match_beq
    is_counter_enabled
long_entry_modified = refl

commit_modify-npus_example : contains {A = ℕ} 1 (0 ∷ 1 ∷ []) ≡ true
unfolding NasEntry.add_filter get_npu_list two_npus contains add is_npu_specific is_empty
    nas_acl_utl_ifidx_to_ndi_port find put match_beq
commit_modify-npus_example =
    commit_modify-npus open_table long_entry small_switch (λ old e. ok e) plain_entry long_entry
      long_entry_modified refl refl 1 refl

-- Both types are asked for, the packets twice.
set_types_example :
    ((set_types (packet ∷ byte ∷ packet ∷ []) true (counter_of 5 [])).1 ≡ ok tt)
    × ((set_types (packet ∷ byte ∷ packet ∷ []) true (counter_of 5 [])).0.enable_pkt_count
        ≡ contains packet (packet ∷ byte ∷ packet ∷ []))
    × ((set_types (packet ∷ byte ∷ packet ∷ []) true (counter_of 5 [])).0.enable_byte_count
        ≡ contains byte (packet ∷ byte ∷ packet ∷ []))
set_types_example = set_types_lem packet (byte ∷ packet ∷ []) (counter_of 5 []) refl refl

diff_counter_type_example :
    contains byte
      (diff_counter_type
        (counter_of 5 [])
        (record (counter_of 5 []) { enable_byte_count = true })).types_to_be_pushed
    ≡ (true || contains byte [])
diff_counter_type_example =
    diff_counter_type_lem (counter_of 5 []) (record (counter_of 5 []) { enable_byte_count = true })
      byte

fields_valid :
    (nas_acl_filter_is_type_valid consts dscp ≡ true)
    × (nas_acl_filter_is_type_valid consts ttl ≡ true)
unfolding nas_acl_filter_is_type_valid
fields_valid = (refl, refl)

set_allowed_filters_example :
    (t' : Table Obj) × (set_allowed_filters consts (dscp ∷ ttl ∷ []) (new_table {O = Obj}) ≡ ok t')
    × ((f : MatchType) → contains f t'.allowed_filters ≡ contains f (dscp ∷ ttl ∷ []))
unfolding nas_acl_filter_is_type_valid
set_allowed_filters_example =
    set_allowed_filters_lem consts dscp (ttl ∷ []) (new_table {O = Obj}) refl refl refl

-- The entry with a filter on in-ports, in NPU 1 of a table that is installed there.
abbrev installed_table : Table Obj
installed_table = record open_table { ndi_obj_ids = (1, 40) ∷ [] }

abbrev pushed_entry : Entry Obj
pushed_entry = record plain_entry {
  flist = (in_ports, in_ports_1_11) ∷ [];
  ndi_entry_ids = (1, 50) ∷ [];
}

abbrev entry_to_push : Entry Obj
entry_to_push = record plain_entry { flist = (in_ports, in_ports_1_11) ∷ [] }

entry_pushed :
    push_create_obj_to_npu {W = ℕ} two_npus
      (λ i. zeroed_ndi_filter)
      1
      installed_table
      entry_to_push
      small_switch
      50
    ≡ (ok (true, pushed_entry), 51)
unfolding push_create_obj_to_npu two_npus nas_acl_utl_ifidx_to_ndi_port find put copy_filter_ndi
    checked
entry_pushed = refl

push_create-Created_example :
    Created {W = ℕ} two_npus
      (λ i. zeroed_ndi_filter)
      1
      installed_table
      entry_to_push
      pushed_entry
      small_switch
      50
      51
push_create-Created_example =
    push_create-Created {W = ℕ} two_npus (λ i. zeroed_ndi_filter) 1 installed_table entry_to_push
      pushed_entry small_switch 50 51 entry_pushed
