-- ===== src/CpsStats/Totals.antt =====
-- src/nas_acl_cps_stats.cpp: the totals that a statistics request gives.
use sonic_nas_acl.Base.{
  ℕ, ◌+◌, ◌%◌, ◌^◌, ◌<◌, ◌≡◌, refl, ap, ◌∙◌, Bool, true, false, List, [], ◌∷◌, arith,
}
use native.Mathlib.Nat.{mod-eq_of_lt, mod-add-mod, mod-lt}
use sonic_nas_acl.CpsApi.{CpsApi, u32}
use sonic_nas_acl.CpsStats.{plus_count, add_counts}
use sonic_nas_acl.NasCounter.{get_pkt_count_ndi, get_byte_count_ndi}
use sonic_nas_acl.Ndi.{Ndi}
use sonic_nas_acl.Object.{Counter}
use sonic_nas_acl.Result.{Result, ok, err}

abbrev pub uint64 : ℕ
uint64 = 2 ^ 64

-- What one NPU counts, if it is wanted and can be read.
abbrev pub count_of : Bool → Result ℕ → ℕ
count_of true (ok n) = n
count_of true (err _) = 0
count_of false _ = 0

abbrev pub sum_counts : Bool → (ℕ → Result ℕ) → List ℕ → ℕ
sum_counts wanted read [] = 0
sum_counts wanted read (npu ∷ npus) = count_of wanted (read npu) + sum_counts wanted read npus

below : (n : ℕ) → n < uint64 → n ≡ (n + 0) % uint64
below n h = omega (arith, mod-eq_of_lt {n = n} {m = uint64} h)

bounded : (n : ℕ) → n % uint64 < uint64
bounded n = mod-lt n {m = uint64} (omega arith)

plus_count_lem :
    (total : ℕ) (wanted : Bool) (r : Result ℕ)
    → total < uint64
    → plus_count total wanted r ≡ (total + count_of wanted r) % uint64
unfolding plus_count
plus_count_lem total true (ok n) h = refl
plus_count_lem total true (err x) h = below total h
plus_count_lem total false (ok n) h = below total h
plus_count_lem total false (err x) h = below total h

-- A sum that goes on from a sum that wrapped.
onwards :
    (total c rest : ℕ) → ((total + c) % uint64 + rest) % uint64 ≡ (total + (c + rest)) % uint64
onwards total c rest = mod-add-mod (total + c) uint64 rest ∙ ap (λ x. x % uint64) (omega arith)

module _ {O W : Type 0} ⦃n : Ndi W⦄ (k : Counter O) (w : W) (pkts bytes : Bool) where
  -- Both totals, from where they start.
  abbrev pub Totals : List ℕ → ℕ → ℕ → ℕ → ℕ → Type 0
  Totals npus p q p' q' =
      (p' ≡ (p + sum_counts pkts (λ npu. get_pkt_count_ndi npu k w) npus) % uint64)
      × (q' ≡ (q + sum_counts bytes (λ npu. get_byte_count_ndi npu k w) npus) % uint64)

module _ {Ob O W : Type 0} ⦃api : CpsApi Ob⦄ ⦃n : Ndi W⦄ (k : Counter O) (w : W)
    (pkts bytes : Bool) where
  -- When the loop of a statistics request over the NPUs succeeds from totals below 2^64, each
  -- total is afterwards the sum of its start and the counts that are wanted and can be read at
  -- the NPUs, modulo 2^64; an NPU whose count cannot be read adds 0.
  pub add_counts-Totals :
      (npus : List ℕ) (ob ob' : Ob) (p q p' q' : ℕ)
      → p < uint64
      → q < uint64
      → add_counts k w pkts bytes npus ob p q ≡ ok (ob', p', q')
      → Totals k w pkts bytes npus p q p' q'
  unfolding add_counts
  add_counts-Totals [] ob ob' p q p' q' hp hq done =
      (ground (arith, below p hp), ground (arith, below q hq))
  add_counts-Totals (npu ∷ npus) ob ob' p q p' q' hp hq done =
      let rp = get_pkt_count_ndi npu k w in
      let rq = get_byte_count_ndi npu k w in
      let ep = plus_count_lem p pkts rp hp in
      let eq = plus_count_lem q bytes rq hq in
      let (tp, tq) =
        add_counts-Totals npus (api.attr_add ob "BASE_ACL_STATS_NPU_ID_LIST" (u32 npu)).1 ob'
          (plus_count p pkts rp) (plus_count q bytes rq) p' q'
          (rw ep (bounded (p + count_of pkts rp))) (rw eq (bounded (q + count_of bytes rq)))
          (ground arith) in
      (
        tp ∙ (rw ep (onwards p (count_of pkts rp) _)),
        tq ∙ (rw eq (onwards q (count_of bytes rq) _)),
      )
