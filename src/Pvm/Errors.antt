-- ===== src/Pvm/Errors.antt =====
-- internal/polkavm/exit_reason.go: the ways in which an operation of the machine fails.
use strawberry.Base.{ℕ, Bool, true, false, ◌≡◌, refl}

-- `err != nil`: ErrPanic, ErrOutOfGas, ErrHalt, ErrPageFault with its address, and ErrHostCall with
-- the number that is returned beside it. Texts are left out.
pub data Error : Type 0 where
  panic out_of_gas halt : Error
  page_fault : ℕ → Error
  host_call : ℕ → Error

-- A value, an error, or a run-time panic of the Go program (an index or a slice out of range), which
-- nothing in the repository recovers from.
pub data Result {ℓ} (A : Type ℓ) : Type ℓ where
  ok : A → Result A
  err : Error → Result A
  crash : Result A

infixl 5 ◌>>=◌ ◌>>◌
abbrev pub ◌>>=◌ {ℓ κ} : {A : Type ℓ} {B : Type κ} → Result A → (A → Result B) → Result B
ok a >>= f = f a
err e >>= f = err e
crash >>= f = crash

abbrev pub ◌>>◌ {ℓ} : {B : Type ℓ} → Result (Unit {0}) → Result B → Result B
m >> k = m >>= λ _. k

-- `if bad { return ErrPanicf(…) }`
abbrev pub panic_if : Bool → Result (Unit {0})
panic_if true = err panic
panic_if false = ok tt

-- What a successful sequence consists of.
pub >>=-eq-ok {ℓ κ} :
    {A : Type ℓ} {B : Type κ} (r : Result A) (f : A → Result B) {b : B}
    → (r >>= f) ≡ ok b
    → (a : A) × (r ≡ ok a) × (f a ≡ ok b)
>>=-eq-ok (ok a) f e = (a, refl, e)
>>=-eq-ok (err x) f e = cc
>>=-eq-ok crash f e = cc
