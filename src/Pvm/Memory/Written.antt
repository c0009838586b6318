-- ===== src/Pvm/Memory/Written.antt =====
-- What a successful write has found and changed.
use strawberry.Base.{
  ℕ, zero, suc, ◌%◌, ◌+◌, ◌-◌, ◌^◌, ◌≤◌, ◌≡◌, ◌≢◌, refl, sym, inl, inr, arith, Bool, true, Option,
  none, some, List, length, ltb, IsU64, Bool-cases,
}
use strawberry.Pvm.Errors.{Result, ok, err, crash, panic, ◌>>=◌, >>=-eq-ok}
use strawberry.Pvm.Memory.{
  MemoryAccess, inaccessible, read_only, read_write, is_read_write, Memory, Field, segment,
  set_segment, slice, overwrite, holds_range, find_range, fault_loop, write_range, write,
}

-- The segment f takes the bytes at the address a, and m' has them there.
pub record Written (m m' : Memory) (a : ℕ) (bytes : List ℕ) (f : Field) : Type 0 where
  pub low : 2 ^ 16 ≤ a
  pub found : find_range m a (length bytes) ≡ some f
  pub start : (segment m f).address ≤ a
  pub fits : a - (segment m f).address + length bytes ≤ length (segment m f).contents
  pub whole :
      (a - (segment m f).address + length bytes) % 2 ^ 64 ≡ a - (segment m f).address + length bytes
  pub writable : (segment m f).access ≡ read_write
  pub result :
      m'
      ≡ set_segment m f (record (segment m f) {
        contents = overwrite (segment m f).contents (a - (segment m f).address) bytes;
      })

pub find_range-start :
    (m : Memory) (a n : ℕ) (f : Field) → find_range m a n ≡ some f → (segment m f).address ≤ a
unfolding find_range holds_range
find_range-start m a n Field.ro e = ground arith
find_range-start m a n Field.rw e = ground arith
find_range-start m a n Field.stack e = ground arith
find_range-start m a n Field.args e = ground arith

pub ok-injective {ℓ} : {A : Type ℓ} {x y : A} → ok x ≡ ok y → x ≡ y
ok-injective e = cc

fault-ne-ok :
    (m : Memory) (bad : MemoryAccess → Bool) (page rounds : ℕ)
    → fault_loop m bad page rounds ≢ ok tt
unfolding fault_loop
fault-ne-ok m bad page zero e = cc
fault-ne-ok m bad page (suc rounds) e = ground (arith, fault-ne-ok m bad (page + 1) rounds)

-- A refused access never succeeds.
pub refused {ℓ} : {A : Type ℓ} {x : A} (r : Result (Unit {0})) → (r >>= λ _. err panic) ≢ ok x
refused (ok u) e = cc
refused (err f) e = cc
refused crash e = cc

slice-fits :
    (xs : List ℕ) (lo n : ℕ) {ys : List ℕ}
    → IsU64 lo
    → IsU64 n
    → slice xs lo ((lo + n) % 2 ^ 64) ≡ ok ys
    → (lo + n ≤ length xs) × ((lo + n) % 2 ^ 64 ≡ lo + n)
unfolding slice
slice-fits xs lo n hl hn e = ground arith

is_read_write-eq : (x : MemoryAccess) → is_read_write x ≡ true → x ≡ read_write
is_read_write-eq inaccessible h = cc
is_read_write-eq read_only h = cc
is_read_write-eq read_write h = refl

Written-write_range :
    (m : Memory) {m' : Memory} (a : ℕ) (bytes : List ℕ) (f : Option Field)
    → IsU64 a
    → IsU64 (length bytes)
    → find_range m a (length bytes) ≡ f
    → 2 ^ 16 ≤ a
    → write_range m a bytes f ≡ ok m'
    → (g : Field) × Written m m' a bytes g
unfolding write_range
Written-write_range m a bytes none ha hn found low e = absurd (refused _ e)
Written-write_range m a bytes (some f) ha hn found low e =
    let (ys, cut, rest) = >>=-eq-ok _ _ e in
    let (fits, whole) =
      slice-fits (segment m f).contents (a - (segment m f).address) (length bytes) (omega arith) hn
        cut in
    elim (Bool-cases (is_read_write (segment m f).access)) [
      | inl writable ↦ (
        f,
        record {
          low = low;
          found = found;
          start = find_range-start m a (length bytes) f found;
          fits = fits;
          whole = whole;
          writable = is_read_write-eq _ writable;
          result = ok-injective (sym (rw writable at rest));
        },
      )
      | inr locked ↦ absurd (refused _ (rw locked at rest))
    ]

-- A write that succeeds has found a writable segment that holds the whole range.
pub Written-write :
    (m : Memory) {m' : Memory} (a : ℕ) (bytes : List ℕ)
    → IsU64 a
    → IsU64 (length bytes)
    → write m a bytes ≡ ok m'
    → (g : Field) × Written m m' a bytes g
unfolding write
Written-write m a bytes ha hn e = elim (Bool-cases (ltb a (2 ^ 16))) [
  | inl below ↦ cc (rw below at e)
  | inr above ↦ Written-write_range m a bytes _ ha hn refl (ground (arith, above)) (rw above at e)
]
