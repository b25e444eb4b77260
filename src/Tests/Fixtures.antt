-- ===== src/Tests/Fixtures.antt =====
-- An id generator and a base object that satisfy their laws, and a switch with one table, two
-- counters and one entry.
use sonic_nas_acl.Base.{
  ℕ, ◌+◌, ◌≤◌, ◌≡◌, refl, Bool, true, false, ◌||◌, not, some, List, [], ◌∷◌, arith, nat_eq, ◌==◌,
  if◌then◌else◌, is_yes, is_yes_iff, ltb,
}
use sonic_nas_acl.Action.{Action, blank_action}
use sonic_nas_acl.Env.{IdGenerator, BaseObj, Attr, Attr-discrete, Hal, IntType, Consts}
use sonic_nas_acl.IdSet.{contains, add, remove, contains-add, contains-remove}
use sonic_nas_acl.Map.{find}
use sonic_nas_acl.Ndi.{Ndi, done}
use sonic_nas_acl.Object.{
  Table, Counter, Entry, new_table, new_counter, new_entry, counter_id, is_counter_enabled,
}
use sonic_nas_acl.Result.{Result, ok}
use sonic_nas_acl.Switch.{Switch, find_entry, find_counter}
use sonic_nas_acl.Switch.Refs.{IsConsistent}
use sonic_nas_acl.Types.{set_counter, action_eq, action_beq_iff}

abbrev pub sum : List ℕ → ℕ
sum [] = 0
sum (x ∷ xs) = x + sum xs

member_bound : (i : ℕ) (xs : List ℕ) → contains i xs ≡ true → i ≤ sum xs
unfolding contains
member_bound i [] h = cc
member_bound i (x ∷ xs) h = ground (arith, member_bound i xs)

pub next_unused : (xs : List ℕ) → contains (1 + sum xs) xs ≡ false
next_unused xs = ground (arith, member_bound (1 + sum xs) xs)

pub fresh_lem : (limit j : ℕ) → contains j [] ≡ false
unfolding contains
fresh_lem limit j = refl

pub alloc_unused_lem :
    (g g' : List ℕ) (i : ℕ)
    → ◌≡◌ {A = Result (ℕ × List ℕ)} (ok (1 + sum g, (1 + sum g) ∷ g)) (ok (i, g'))
    → contains i g ≡ false
alloc_unused_lem g g' i h = ground (arith, next_unused g)

pub alloc_in_use_lem :
    (g g' : List ℕ) (i j : ℕ)
    → ◌≡◌ {A = Result (ℕ × List ℕ)} (ok (1 + sum g, (1 + sum g) ∷ g)) (ok (i, g'))
    → contains j g' ≡ (i == j || contains j g)
unfolding contains
alloc_in_use_lem g g' i j h = ground arith

-- The ids in use, the next one above their sum.
instance abbrev pub list_gen : IdGenerator (List ℕ)
list_gen = record {
  fresh = λ limit. [];
  alloc_id = λ g. ok (1 + sum g, (1 + sum g) ∷ g);
  reserve_id = λ i g. (not (contains i g), add i g);
  release_id = remove;
  in_use = λ g i. contains i g;
  fresh_unused = fresh_lem;
  alloc_unused = alloc_unused_lem;
  alloc_in_use = alloc_in_use_lem;
  reserve_result = λ i g. refl;
  reserve_in_use = λ i j g. contains-add i j g;
  release_in_use = λ i j g. contains-remove i j g;
}

pub record Obj : Type 0 where
  pub npus : List ℕ
  pub dirty : Attr → Bool
  pub created : Bool

unfoldable pub attr_beq : Attr → Attr → Bool
unfolding Attr-discrete
attr_beq a b = is_yes (Attr-discrete a b)

pub attr_beq_refl : (a : Attr) → attr_beq a a ≡ true
unfolding attr_beq
attr_beq_refl a = (is_yes_iff (Attr-discrete a a)).1 refl

abbrev pub mark : Attr → Obj → Obj
mark a o = record o { dirty = λ b. attr_beq a b || o.dirty b }

pub mark_marks : (a : Attr) (o : Obj) → (mark a o).dirty a ≡ true
mark_marks a o = ground (arith, attr_beq_refl a)

pub mark_keeps : (a b : Attr) (o : Obj) → o.dirty b ≡ true → (mark a o).dirty b ≡ true
mark_keeps a b o h = ground arith

instance abbrev pub plain_obj : BaseObj Obj
plain_obj = record {
  new_obj = record { npus = []; dirty = λ a. false; created = false };
  npu_list = λ o. o.npus;
  set_npu_list = λ l o. record o { npus = l };
  add_npu = λ npu reset o. record o { npus = add npu (if reset then [] else o.npus) };
  reset_npus = λ o. record o { npus = [] };
  is_attr_dirty = λ a o. o.dirty a;
  mark_attr_dirty = mark;
  is_created_in_ndi = λ o. o.created;
  dirty_marked = mark_marks;
  dirty_kept = mark_keeps;
  created_marked = λ a o. refl;
  npus_marked = λ a o. refl;
  npus_set = λ l o. refl;
}

-- Interfaces 1 to 9 are ports of NPU 0 and 11 to 19 are ports of NPU 1.
unfoldable pub two_npus : Hal
two_npus i =
    if ltb i 10
    then some (record { int_type = IntType.port; npu_id = 0; port_id = i })
    else some (record { int_type = IntType.port; npu_id = 1; port_id = i })

abbrev pub consts : Consts
consts = record {
  mac_len = 6;
  ipv4_len = 4;
  ipv6_len = 16;
  max_vlan_id = 4094;
  max_dot1p = 7;
  max_dscp = 63;
}

-- The action that counts with a counter.
abbrev pub count_with : ℕ → Action
count_with i = record (blank_action set_counter) { nas_oid = i }

abbrev pub counting_entry : ℕ → ℕ → Entry Obj
counting_entry eid cid = record (new_entry {O = Obj} 1) {
  entry_id = eid;
  alist = (set_counter, count_with cid) ∷ [];
}

abbrev pub counter_of : ℕ → List ℕ → Counter Obj
counter_of cid refs = record (new_counter {O = Obj} 1) { counter_id = cid; refs = refs }

abbrev pub table_1 : Table Obj
table_1 = record (new_table {O = Obj}) { table_id = 1 }

-- Table 1 with the entry 7, which counts with the counter 5, and the unused counter 6.
abbrev pub small_switch : Switch (List ℕ) Obj
small_switch = record {
  tables = (1, table_1) ∷ [];
  table_containers =
      (
        1,
        record {
          entry_id_gen = 7 ∷ [];
          acl_entries = (7, counting_entry 7 5) ∷ [];
          counter_id_gen = 5 ∷ 6 ∷ [];
          acl_counters = (5, counter_of 5 (7 ∷ [])) ∷ (6, counter_of 6 []) ∷ [];
        },
      )
      ∷ [];
  tableid_gen = 1 ∷ [];
}

pub small_switch-IsConsistent : IsConsistent small_switch
unfolding find_entry find_counter find contains is_counter_enabled counter_id
small_switch-IsConsistent = record {
  exact = λ t cid i. ground (arith, action_beq_iff set_counter set_counter);
  keyed = λ t i e at_i. ground (arith, action_beq_iff set_counter set_counter);
  counted = λ t i e at_i on. ground (arith, action_beq_iff set_counter set_counter);
}

-- NPUs that number what is created in them and accept every call.
instance abbrev pub counting_ndi : Ndi ℕ
counting_ndi = record {
  table_create = λ npu x w. (done w, 1 + w);
  table_delete = λ npu i w. (done tt, w);
  table_set_priority = λ npu i p w. (done tt, w);
  counter_create = λ npu x w. (done w, 1 + w);
  counter_delete = λ npu i w. (done tt, w);
  counter_get_pkt_count = λ npu i w. done 0;
  counter_get_byte_count = λ npu i w. done 0;
  counter_set_pkt_count = λ npu i c w. (done tt, w);
  counter_set_byte_count = λ npu i c w. (done tt, w);
  entry_create = λ npu x w. (done w, 1 + w);
  entry_delete = λ npu i w. (done tt, w);
  entry_set_priority = λ npu i p w. (done tt, w);
}
