-- ===== src/Result.antt =====
-- Results of code that throws. `Error` holds the error codes of sonic/nas_acl_common.h that a
-- `nas::base_exception` carries, the code that an NDI call returned (`ndi`), and what is not a
-- `base_exception`: `std::out_of_range`, and the end of the process by a failed `STD_ASSERT`,
-- an exception that leaves a `noexcept` function, or a read that the language leaves undefined.
use sonic_nas_acl.Base.{ℕ, ◌≡◌, ◌⊎◌, inl, inr, refl, Bool, true, false}

pub data Error : Type 0 where
  mem missing_key missing_attr unsupported duplicate attr_len : Error
  create_only attr_val inconsistent key_val fail : Error
  ndi : ℕ → Error
  out_of_range terminated undefined_behaviour : Error

-- What a call gives: the value that it returns, or the error that it throws.
pub data Result {κ} (B : Type κ) : Type κ where
  err : Error → Result B
  ok : B → Result B

-- `if (!b) throw e;`
abbrev pub guard : Bool → Error → Result (Unit {0})
guard false x = err x
guard true x = ok tt

-- The body of a `noexcept` function.
abbrev pub noexcept_body {κ} : {B : Type κ} → Result B → Result B
noexcept_body (err _) = err terminated
noexcept_body (ok v) = ok v

-- The statements after a call, which an exception skips.
infixl 5 ◌>>=◌
abbrev pub ◌>>=◌ {κ μ} : {B : Type κ} {C : Type μ} → Result B → (B → Result C) → Result C
err x >>= rest = err x
ok v >>= rest = rest v

-- If the whole returns then the call returned.
pub >>=-eq-ok {κ μ} :
    {B : Type κ} {C : Type μ} (call : Result B) (rest : B → Result C) {b : C}
    → (call >>= rest) ≡ ok b
    → (v : B) × (call ≡ ok v) × (rest v ≡ ok b)
>>=-eq-ok (err x) rest done = cc
>>=-eq-ok (ok v) rest done = (v, refl, done)

infixl 5 ◌>>◌
abbrev pub ◌>>◌ {κ} : {C : Type κ} → Result (Unit {0}) → Result C → Result C
check >> rest = check >>= λ _. rest

-- An error that a request answers with a code of its own: not one that ends the process, and not
-- `std::out_of_range`.
abbrev pub is_reported : Error → Bool
is_reported out_of_range = false
is_reported terminated = false
is_reported undefined_behaviour = false
is_reported _ = true

pub Result-cases {κ} :
    {B : Type κ} (call : Result B) → ((x : Error) × (call ≡ err x)) ⊎ ((v : B) × (call ≡ ok v))
Result-cases (err x) = inl (x, refl)
Result-cases (ok v) = inr (v, refl)
