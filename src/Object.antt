-- ===== src/Object.antt =====
-- The objects that the switch stores: nas_acl_table, nas_acl_counter_t and nas_acl_entry, over the
-- type `O` of the base object that each of them extends. A back pointer to a table is the table's
-- id. An entry's fields _counter_id and _enable_counter are read by nothing and left out.
use sonic_nas_acl.Base.{
  ℕ, ℕ_discrete, is_yes, is_yes_iff, Eq, ◌↔◌, ◌≡◌, Bool, true, false, none, some, List, [], nat_eq,
}
use sonic_nas_acl.Action.{Action}
use sonic_nas_acl.Env.{BaseObj}
use sonic_nas_acl.Filter.{Filter}
use sonic_nas_acl.Map.{Map, find}
use sonic_nas_acl.Types.{MatchType, ActionType, action_eq, set_counter}

pub data Stage : Type 0 where
  ingress egress : Stage
  other_stage : ℕ → Stage

pub data CounterType : Type 0 where
  packet byte : CounterType
  other_counter_type : ℕ → CounterType

unfoldable pub CounterType-discrete : Discrete CounterType
unfolding ℕ_discrete
CounterType-discrete = hlevel ℕ_discrete

pub counter_type_beq : CounterType → CounterType → Bool
unfolding CounterType-discrete
counter_type_beq a b = is_yes (CounterType-discrete a b)

pub counter_type_beq_iff : (a b : CounterType) → (counter_type_beq a b ≡ true) ↔ (a ≡ b)
unfolding counter_type_beq
counter_type_beq_iff a b = is_yes_iff (CounterType-discrete a b)

instance abbrev pub counter_type_eq : Eq CounterType
counter_type_eq = record { beq = counter_type_beq; beq_iff = counter_type_beq_iff }

pub record Table (O : Type 0) : Type 0 where
  pub table_id : ℕ
  pub stage : Stage
  pub allowed_filters : List MatchType
  pub priority : ℕ
  pub ndi_obj_ids : Map ℕ ℕ
  pub base : O

pub record Counter (O : Type 0) : Type 0 where
  pub table_id : ℕ
  pub counter_id : ℕ
  pub enable_pkt_count : Bool
  pub enable_byte_count : Bool
  pub following_table_npus : Bool
  pub types_to_be_pushed : List CounterType
  pub refs : List ℕ
  pub ndi_obj_ids : Map ℕ ℕ
  pub base : O

pub record Entry (O : Type 0) : Type 0 where
  pub entry_id : ℕ
  pub table_id : ℕ
  pub priority : ℕ
  pub filter_npus : List ℕ
  pub following_table_npus : Bool
  pub flist : Map MatchType Filter
  pub alist : Map ActionType Action
  pub ndi_entry_ids : Map ℕ ℕ
  pub base : O

module _ {O : Type 0} where
  -- The constructors.
  abbrev pub new_table : ⦃b : BaseObj O⦄ → Table O
  new_table ⦃b⦄ = record {
    table_id = 0;
    stage = ingress;
    allowed_filters = [];
    priority = 0;
    ndi_obj_ids = [];
    base = b.new_obj;
  }

  abbrev pub new_counter : ⦃b : BaseObj O⦄ → ℕ → Counter O
  new_counter ⦃b⦄ t = record {
    table_id = t;
    counter_id = 0;
    enable_pkt_count = false;
    enable_byte_count = false;
    following_table_npus = true;
    types_to_be_pushed = [];
    refs = [];
    ndi_obj_ids = [];
    base = b.new_obj;
  }

  abbrev pub new_entry : ⦃b : BaseObj O⦄ → ℕ → Entry O
  new_entry ⦃b⦄ t = record {
    entry_id = 0;
    table_id = t;
    priority = 0;
    filter_npus = [];
    following_table_npus = true;
    flist = [];
    alist = [];
    ndi_entry_ids = [];
    base = b.new_obj;
  }

  -- nas_acl_entry::counter_id
  unfoldable pub counter_id : Entry O → ℕ
  counter_id e = elim (find set_counter e.alist) [ none ↦ 0 | some a ↦ a.nas_oid ]

  -- nas_acl_entry::is_counter_enabled
  unfoldable pub is_counter_enabled : Entry O → Bool
  is_counter_enabled e = elim (find set_counter e.alist) [ none ↦ false | some _ ↦ true ]
