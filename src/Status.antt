-- ===== src/Status.antt =====
-- The error codes of wah.h, and the results of its fallible functions.
use wah.Base.{Bool, true, false, ◌≡◌, refl, ap, ◌⊎◌, inl, inr}

-- `wah_error_t` without WAH_OK.
pub data Error : Type 0 where
  invalid_magic_number invalid_version unexpected_eof malformed too_large out_of_memory : Error
  validation_failed trap stack_overflow memory_out_of_bounds not_found misuse bad_spec : Error
  link_failed exception disabled_feature multi_return unsupported : Error
  fuel_exhausted yielded : Error

-- A function returning `wah_error_t` with out-parameters: an error, or WAH_OK with their values.
pub data Result {ℓ} (Value : Type ℓ) : Type ℓ where
  err : Error → Result Value
  ok : Value → Result Value

-- WAH_ENSURE.
abbrev pub ensure : (condition : Bool) (error : Error) → Result (Unit {0})
ensure false error = err error
ensure true error = ok tt

-- WAH_CHECK: the first error is the result, and what follows goes on with the values.
infixl 5 ◌>>=◌ ◌>>◌
abbrev pub ◌>>=◌ {ℓ κ} :
    {Value : Type ℓ} {Next : Type κ} → Result Value → (Value → Result Next) → Result Next
err error >>= next = err error
ok value >>= next = next value

abbrev pub ◌>>◌ {κ} : {Next : Type κ} → Result (Unit {0}) → Result Next → Result Next
checked >> next = checked >>= λ u. next

pub Result-cases {ℓ} :
    {A : Type ℓ} (r : Result A) → ((a : A) × (r ≡ ok a)) ⊎ ((e : Error) × (r ≡ err e))
Result-cases (ok a) = inl (a, refl)
Result-cases (err e) = inr (e, refl)

abbrev value_or {ℓ} : {A : Type ℓ} → A → Result A → A
value_or a (ok b) = b
value_or a (err e) = a

pub ok-inj {ℓ} : {A : Type ℓ} {a b : A} → ok a ≡ ok b → a ≡ b
ok-inj {A} {a} h = ap (value_or a) h

pub >>=-eq-ok {ℓ κ} :
    {Value : Type ℓ} {Next : Type κ} (r : Result Value) (next : Value → Result Next) {n : Next}
    → (r >>= next) ≡ ok n
    → (v : Value) × (r ≡ ok v) × (next v ≡ ok n)
>>=-eq-ok (err error) next h = cc
>>=-eq-ok (ok v) next h = (v, refl, h)
