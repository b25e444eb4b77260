-- ===== src/Map.antt =====
-- `std::map` and `std::unordered_map` as association lists. The order of iteration is that of the
-- list. A lookup after a change is stated for any list, so no lemma needs distinct keys.
use sonic_nas_acl.Base.{
  ◌≡◌, refl, Option, none, some, List, [], ◌∷◌, arith, Eq, ◌==◌, if◌then◌else◌,
}
use sonic_nas_acl.Result.{Result, ok, err, out_of_range}

abbrev pub Map {ℓ} : Type ℓ → Type ℓ → Type ℓ
Map K V = List (K × V)

module _ {ℓ} {K V : Type ℓ} ⦃key : Eq K⦄ where
  -- `m.find (k)`, with `none` for `m.end ()`.
  unfoldable pub find : K → Map K V → Option V
  find k [] = none
  find k ((j, v) ∷ m) = if j == k then some v else find k m

  -- `m.at (k)`
  abbrev pub at : K → Map K V → Result V
  at k m = elim (find k m) [ none ↦ err out_of_range | some v ↦ ok v ]

  -- `m.insert (std::make_pair (k, v))`: a key that is there keeps its value.
  unfoldable pub insert : K → V → Map K V → Map K V
  insert k v [] = (k, v) ∷ []
  insert k v ((j, w) ∷ m) = if j == k then (j, w) ∷ m else (j, w) ∷ insert k v m

  -- `m[k] = v`
  unfoldable pub put : K → V → Map K V → Map K V
  put k v [] = (k, v) ∷ []
  put k v ((j, w) ∷ m) = if j == k then (j, v) ∷ m else (j, w) ∷ put k v m

  -- `m.erase (k)`
  unfoldable pub erase : K → Map K V → Map K V
  erase k [] = []
  erase k ((j, w) ∷ m) = let rest = erase k m in if j == k then rest else (j, w) ∷ rest

  pub find-put :
      (k j : K) (v : V) (m : Map K V) → find j (put k v m) ≡ (if k == j then some v else find j m)
  unfolding find put
  find-put k j v [] = refl
  find-put k j v ((i, w) ∷ m) =
      ground (arith, key.beq_iff k j, key.beq_iff i k, key.beq_iff i j, find-put k j v m)

  pub find-erase :
      (k j : K) (m : Map K V) → find j (erase k m) ≡ (if k == j then none else find j m)
  unfolding find erase
  find-erase k j [] = ground arith
  find-erase k j ((i, w) ∷ m) =
      ground (arith, key.beq_iff k j, key.beq_iff i k, key.beq_iff i j, find-erase k j m)

  pub find-insert :
      (k j : K) (v : V) (m : Map K V)
      → find k m ≡ none
      → find j (insert k v m) ≡ (if k == j then some v else find j m)
  unfolding find insert
  find-insert k j v [] h = refl
  find-insert k j v ((i, w) ∷ m) h =
      ground (arith, key.beq_iff k j, key.beq_iff i k, key.beq_iff i j, find-insert k j v m)
