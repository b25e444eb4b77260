-- ===== src/Tests/CpsFixtures.antt =====
-- CPS objects that satisfy the laws of the library, and requests.
use Prim.Native.String.{String}
use sonic_nas_acl.Base.{
  ℕ, ◌≡◌, refl, Bool, true, false, Option, none, some, List, [], ◌∷◌, ◌++◌, arith, nat_eq, ◌==◌,
  beq_refl, if◌then◌else◌,
}
use sonic_nas_acl.Action.Values.{forward}
use sonic_nas_acl.CpsApi.{
  CpsApi, CpsAttr, CpsVal, bin, u16, u32, u64, Shows, AttrId, named, attr_id_eq, AttrPath,
  is_prefix,
}
use sonic_nas_acl.CpsEnv.{CpsEnv, HaveSize}
use sonic_nas_acl.CpsTable.Created.{IsSound, KeepsId}
use sonic_nas_acl.Filter.Values.{IpType, IpFrag}
use sonic_nas_acl.IdSet.{contains}
use sonic_nas_acl.Map.{find}
use sonic_nas_acl.Object.{Table, ingress, egress, packet, byte}
use sonic_nas_acl.Result.{Result, ok}
use sonic_nas_acl.Switch.{Switch, find_table}
use sonic_nas_acl.Types.{dscp, set_dscp, src_ip, set_tc}
use sonic_nas_acl.Tests.Fixtures.{Obj, two_npus, consts, list_gen, table_1}

pub record PlainObj : Type 0 where
  pub keys : List (AttrId × CpsAttr)
  pub values : List (AttrPath × CpsAttr)

abbrev pub blank_attr : CpsAttr
blank_attr = record { bytes = []; u16 = 0; u32 = 0; u64 = 0 }

abbrev pub to_attr : CpsVal → CpsAttr
to_attr (bin bs) = record blank_attr { bytes = bs }
to_attr (u16 n) = record blank_attr { bytes = 0 ∷ 0 ∷ []; u16 = n }
to_attr (u32 n) = record blank_attr { bytes = 0 ∷ 0 ∷ 0 ∷ 0 ∷ []; u32 = n }
to_attr (u64 n) = record blank_attr { bytes = 0 ∷ 0 ∷ 0 ∷ 0 ∷ 0 ∷ 0 ∷ 0 ∷ 0 ∷ []; u64 = n }

pub shows : (v : CpsVal) → Shows (to_attr v) v
shows (bin bs) = refl
shows (u16 n) = (refl, refl)
shows (u32 n) = (refl, refl)
shows (u64 n) = (refl, refl)

-- The first value at a path or below it.
unfoldable pub first_at : AttrPath → List (AttrPath × CpsAttr) → Option CpsAttr
first_at q [] = none
first_at q ((p, a) ∷ rest) = let later = first_at q rest in if is_prefix q p then some a else later

first_at-append :
    (q p : AttrPath) (a : CpsAttr) (l : List (AttrPath × CpsAttr))
    → first_at q (l ++ (p, a) ∷ [])
      ≡ elim (first_at q l) [ some x ↦ some x | none ↦ if is_prefix q p then some a else none ]
unfolding first_at
first_at-append q p a [] = refl
first_at-append q p a ((r, x) ∷ l) = ground (arith, first_at-append q p a l)

prefix_refl : (p : AttrPath) → is_prefix p p ≡ true
prefix_refl [] = refl
prefix_refl (a ∷ p) = ground (arith, beq_refl a, prefix_refl p)

abbrev added : PlainObj → AttrPath → CpsVal → PlainObj
added ob p v = record ob { values = ob.values ++ (p, to_attr v) ∷ [] }

pub added_get_lem :
    (ob ob' : PlainObj) (p : AttrPath) (v : CpsVal)
    → ◌≡◌ {A = Bool × PlainObj} (true, added ob p v) (true, ob')
    → first_at p ob.values ≡ none
    → (a : CpsAttr) × (first_at p ob'.values ≡ some a) × Shows a v
added_get_lem ob ob' p v h none_there =
    (to_attr v, ground (arith, first_at-append p p (to_attr v) ob.values, prefix_refl p), shows v)

pub added_other_lem :
    (ob ob' : PlainObj) (p q : AttrPath) (v : CpsVal)
    → ◌≡◌ {A = Bool × PlainObj} (true, added ob p v) (true, ob')
    → is_prefix q p ≡ false
    → first_at q ob'.values ≡ first_at q ob.values
added_other_lem ob ob' p q v h apart = ground (arith, first_at-append q p (to_attr v) ob.values)

-- The values that are not inside another one.
unfoldable pub top_level : List (AttrPath × CpsAttr) → List (AttrId × CpsAttr)
top_level [] = []
top_level ((id ∷ [], a) ∷ rest) = (id, a) ∷ top_level rest
top_level ((_, a) ∷ rest) = top_level rest

unfoldable pub key_of : AttrId → List (AttrId × CpsAttr) → Option CpsAttr
key_of id [] = none
key_of id ((i, a) ∷ rest) = let later = key_of id rest in if i == id then some a else later

pub key_set_lem :
    (ob ob' : PlainObj) (id : String) (v : CpsVal)
    → ◌≡◌ {A = Bool × PlainObj}
        (true, record ob { keys = (named id, to_attr v) ∷ ob.keys })
        (true, ob')
    → (a : CpsAttr) × (key_of (named id) ob'.keys ≡ some a) × Shows a v
unfolding key_of
key_set_lem ob ob' id v h = (to_attr v, ground (arith, beq_refl (named id)), shows v)

-- Objects without containers.
instance abbrev pub plain_api : CpsApi PlainObj
plain_api = record {
  e_get = λ ob p. first_at p ob.values;
  e_add = λ ob p v. (true, added ob p v);
  attr_add = λ ob id v. (true, added ob (named id ∷ []) v);
  attrs = λ ob. top_level ob.values;
  inside = λ ob p. none;
  nested = λ a. [];
  unserialize = λ ob p. none;
  serialize = λ m ob p. (false, ob);
  get_key = λ ob id. key_of (named id) ob.keys;
  set_key = λ ob id v. (true, record ob { keys = (named id, to_attr v) ∷ ob.keys });
  copy_key = λ to from. record to { keys = from.keys };
  init_key = λ ob id. (true, record ob { keys = [] });
  key_set = key_set_lem;
  added_get = added_get_lem;
  added_other = added_other_lem;
}

abbrev pub numbered_env : CpsEnv
numbered_env = record {
  filter_env = record {
    consts = consts;
    hal = two_npus;
    ip_type_of = λ n. IpType.unlisted;
    ip_frag_of = λ n. IpFrag.unlisted;
  };
  action_env = record {
    consts = consts;
    hal = two_npus;
    lag_ndi_ids = λ n. none;
    pkt_action_of = λ n. forward;
  };
  match_of = λ n. if n == 13 then dscp else src_ip;
  match_number = λ t. 13;
  action_of = λ n. if n == 19 then set_dscp else set_tc;
  action_number = λ t. 19;
  stage_of = λ n. if n == 2 then egress else ingress;
  stage_number = λ s. 1;
  counter_type_of = λ n. if n == 1 then packet else byte;
  counter_type_number = λ t. 1;
}

pub consts-HaveSize : HaveSize consts
consts-HaveSize = record { mac = λ h. cc; ipv4 = λ h. cc; ipv6 = λ h. cc }

-- Table 1 alone, without entries.
abbrev pub one_table : Switch (List ℕ) Obj
one_table = record {
  tables = (1, table_1) ∷ [];
  table_containers =
      (1, record { entry_id_gen = []; acl_entries = []; counter_id_gen = []; acl_counters = [] })
      ∷ [];
  tableid_gen = 1 ∷ [];
}

pub one_table-IsSound : IsSound one_table
unfolding find_table find contains
one_table-IsSound = record {
  paired = λ j. ground arith;
  exact = λ j. ground arith;
  keyed = λ j x at_j. ground arith;
}

abbrev pub accepts : Table Obj → Result (Table Obj)
accepts t = ok t

-- A delete commit that always succeeds.
abbrev pub drops : {A : Type 0} → A → A × Result (Unit {0})
drops a = (a, ok tt)

pub accepts-KeepsId : KeepsId accepts
accepts-KeepsId t t' h = ground arith

abbrev pub request : List (AttrPath × CpsAttr) → PlainObj
request values = record { keys = []; values = values }

abbrev pub with_key : String → ℕ → PlainObj → PlainObj
with_key id i ob = record ob { keys = (named id, to_attr (u64 i)) ∷ ob.keys }

abbrev pub blank_obj : PlainObj
blank_obj = request []

-- A table of the stage ingress for the match on DSCP.
abbrev pub table_request : PlainObj
table_request = request (
    (named "BASE_ACL_TABLE_STAGE" ∷ [], to_attr (u32 1))
    ∷ (named "BASE_ACL_TABLE_PRIORITY" ∷ [], to_attr (u32 10))
    ∷ (named "BASE_ACL_TABLE_ALLOWED_MATCH_FIELDS" ∷ [], to_attr (u32 13))
    ∷ [])

-- The stage twice.
abbrev pub staged_twice : PlainObj
staged_twice = request (
    (named "BASE_ACL_TABLE_STAGE" ∷ [], to_attr (u32 1))
    ∷ (named "BASE_ACL_TABLE_STAGE" ∷ [], to_attr (u32 2))
    ∷ [])

-- A DSCP to match, without its mask, and one to set.
abbrev pub dscp_request : PlainObj
dscp_request = request (
    (
      named "BASE_ACL_ENTRY_MATCH_DSCP_VALUE" ∷ named "BASE_ACL_ENTRY_MATCH_DSCP_VALUE_DATA" ∷ [],
      to_attr (bin (46 ∷ [])),
    )
    ∷ (named "BASE_ACL_ENTRY_ACTION_NEW_DSCP_VALUE" ∷ [], to_attr (bin (10 ∷ [])))
    ∷ [])
