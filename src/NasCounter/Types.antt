-- ===== src/NasCounter/Types.antt =====
-- The counter types: which a request enables, and which a modification has changed.
use sonic_nas_acl.Base.{
  ◌≡◌, refl, Bool, true, false, ◌||◌, not, List, [], ◌∷◌, arith, bool_eq, nat_eq, ◌==◌,
}
use sonic_nas_acl.Env.{BaseObj, counter_types}
use sonic_nas_acl.IdSet.{contains, add, contains-add}
use sonic_nas_acl.NasCounter.{set_type, diff_counter_type}
use sonic_nas_acl.Object.{
  Counter, CounterType, packet, byte, other_counter_type, counter_type_eq, counter_type_beq_iff,
}
use sonic_nas_acl.Result.{Result, ok, err}

abbrev pub all_known : List CounterType → Bool
all_known [] = true
all_known (packet ∷ xs) = all_known xs
all_known (byte ∷ xs) = all_known xs
all_known (other_counter_type _ ∷ xs) = false

module _ {O : Type 0} ⦃b : BaseObj O⦄ where
  -- The calls for a request that lists the types; an exception ends it.
  abbrev pub set_types : List CounterType → Bool → Counter O → Counter O × Result (Unit {0})
  set_types [] reset k = (k, ok tt)
  set_types (x ∷ xs) reset k =
      let s = set_type x reset k in
      elim s.1 [ err e ↦ (s.0, err e) | ok _ ↦ set_types xs reset s.0 ]

  set_more :
      (xs : List CounterType) (reset : Bool) (k : Counter O)
      → b.is_attr_dirty counter_types k.base ≡ true
      → all_known xs ≡ true
      → ((set_types xs reset k).1 ≡ ok tt)
        × ((set_types xs reset k).0.enable_pkt_count ≡ (contains packet xs || k.enable_pkt_count))
        × ((set_types xs reset k).0.enable_byte_count ≡ (contains byte xs || k.enable_byte_count))
  unfolding set_type contains
  set_more [] reset k dirty known = (refl, refl, refl)
  set_more (packet ∷ xs) reset k dirty known =
      let (done, p, q) = set_more xs reset (record k { enable_pkt_count = true }) dirty known in
      (
        ground arith,
        ground (
          arith,
          counter_type_beq_iff packet packet,
          counter_type_beq_iff packet byte,
          counter_type_beq_iff byte packet,
          counter_type_beq_iff byte byte,
        ),
        ground (
          arith,
          counter_type_beq_iff packet packet,
          counter_type_beq_iff packet byte,
          counter_type_beq_iff byte packet,
          counter_type_beq_iff byte byte,
        ),
      )
  set_more (byte ∷ xs) reset k dirty known =
      let (done, p, q) = set_more xs reset (record k { enable_byte_count = true }) dirty known in
      (
        ground arith,
        ground (
          arith,
          counter_type_beq_iff packet packet,
          counter_type_beq_iff packet byte,
          counter_type_beq_iff byte packet,
          counter_type_beq_iff byte byte,
        ),
        ground (
          arith,
          counter_type_beq_iff packet packet,
          counter_type_beq_iff packet byte,
          counter_type_beq_iff byte packet,
          counter_type_beq_iff byte byte,
        ),
      )
  set_more (other_counter_type n ∷ xs) reset k dirty known = cc

  -- When a request lists one or more known counter types, set_type is called for each with reset,
  -- and the attribute was not dirty before, then all calls succeed, and packets and bytes are
  -- counted exactly if their type is in the list.
  pub set_types_lem :
      (x : CounterType) (xs : List CounterType) (k : Counter O)
      → b.is_attr_dirty counter_types k.base ≡ false
      → all_known (x ∷ xs) ≡ true
      → ((set_types (x ∷ xs) true k).1 ≡ ok tt)
        × ((set_types (x ∷ xs) true k).0.enable_pkt_count ≡ contains packet (x ∷ xs))
        × ((set_types (x ∷ xs) true k).0.enable_byte_count ≡ contains byte (x ∷ xs))
  unfolding set_type contains
  set_types_lem packet xs k clean known =
      let next : Counter O = record k {
        base = b.mark_attr_dirty counter_types k.base;
        types_to_be_pushed = [];
        enable_byte_count = false;
        enable_pkt_count = true;
      } in
      let (done, p, q) = set_more xs true next (b.dirty_marked counter_types k.base) known in
      (
        ground arith,
        ground (
          arith,
          counter_type_beq_iff packet packet,
          counter_type_beq_iff packet byte,
          counter_type_beq_iff byte packet,
          counter_type_beq_iff byte byte,
        ),
        ground (
          arith,
          counter_type_beq_iff packet packet,
          counter_type_beq_iff packet byte,
          counter_type_beq_iff byte packet,
          counter_type_beq_iff byte byte,
        ),
      )
  set_types_lem byte xs k clean known =
      let next : Counter O = record k {
        base = b.mark_attr_dirty counter_types k.base;
        types_to_be_pushed = [];
        enable_byte_count = true;
        enable_pkt_count = false;
      } in
      let (done, p, q) = set_more xs true next (b.dirty_marked counter_types k.base) known in
      (
        ground arith,
        ground (
          arith,
          counter_type_beq_iff packet packet,
          counter_type_beq_iff packet byte,
          counter_type_beq_iff byte packet,
          counter_type_beq_iff byte byte,
        ),
        ground (
          arith,
          counter_type_beq_iff packet packet,
          counter_type_beq_iff packet byte,
          counter_type_beq_iff byte packet,
          counter_type_beq_iff byte byte,
        ),
      )
  set_types_lem (other_counter_type n) xs k clean known = cc

-- Whether a modification changes the enabling of a type.
abbrev pub is_type_changed : {O : Type 0} → CounterType → Counter O → Counter O → Bool
is_type_changed packet k_orig k = not (k.enable_pkt_count == k_orig.enable_pkt_count)
is_type_changed byte k_orig k = not (k.enable_byte_count == k_orig.enable_byte_count)
is_type_changed (other_counter_type _) k_orig k = false

module _ {O : Type 0} (k_orig k : Counter O) where
  -- After diff_counter_type, a type is to be pushed exactly if it was before or if the two
  -- counters differ in whether they count it.
  pub diff_counter_type_lem :
      (x : CounterType)
      → contains x (diff_counter_type k_orig k).types_to_be_pushed
        ≡ (is_type_changed x k_orig k || contains x k.types_to_be_pushed)
  unfolding diff_counter_type
  diff_counter_type_lem x = ground (
    arith,
    contains-add byte x k.types_to_be_pushed,
    contains-add packet x k.types_to_be_pushed,
    contains-add packet x (add byte k.types_to_be_pushed),
    counter_type_beq_iff packet x,
    counter_type_beq_iff byte x,
  )
