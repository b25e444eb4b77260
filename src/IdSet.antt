-- ===== src/IdSet.antt =====
-- `std::set` and `nas::npu_set_t` as lists.
use sonic_nas_acl.Base.{
  ◌≡◌, Bool, false, ◌&&◌, ◌||◌, not, List, [], ◌∷◌, arith, Eq, ◌==◌, if◌then◌else◌,
}

module _ {ℓ} {A : Type ℓ} ⦃key : Eq A⦄ where
  -- `s.find (a) != s.end ()`, `s.contains (a)`
  unfoldable pub contains : A → List A → Bool
  contains a [] = false
  contains a (x ∷ xs) = x == a || contains a xs

  -- `s.insert (a)`
  unfoldable pub add : A → List A → List A
  add a xs = if contains a xs then xs else a ∷ xs

  -- `s.erase (a)`
  unfoldable pub remove : A → List A → List A
  remove a [] = []
  remove a (x ∷ xs) = let rest = remove a xs in if x == a then rest else x ∷ rest

  pub contains-add : (a b : A) (xs : List A) → contains b (add a xs) ≡ (a == b || contains b xs)
  unfolding add contains
  contains-add a b xs = ground (arith, key.beq_iff a b)

  pub contains-remove :
      (a b : A) (xs : List A) → contains b (remove a xs) ≡ (not (a == b) && contains b xs)
  unfolding remove contains
  contains-remove a b [] = ground arith
  contains-remove a b (x ∷ xs) =
      ground (arith, key.beq_iff a b, key.beq_iff x a, key.beq_iff x b, contains-remove a b xs)
