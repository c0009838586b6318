-- ===== src/Pvm/Memory/Protects.antt =====
-- What a change of the memory must leave alone.
use strawberry.Base.{
  ℕ, ◌-◌, ◌≡◌, ◌≢◌, refl, ap, ◌∙◌, inl, inr, true, false, Option, none, some, List, length, ltb,
  leb, ◌==◌, add_w, Bool-cases, subst, ◌^◌,
}
use strawberry.Pvm.Errors.{Error, Result, ok, err, >>=-eq-ok}
use strawberry.Pvm.Memory.{
  is_read_write, MemorySegment, Memory, Field, segment, set_segment, write_range, write, sbrk,
  slice,
}
use strawberry.Pvm.Memory.Written.{refused, ok-injective}

-- No segment moves or changes its access, and one that is not writable keeps its bytes; the heap may
-- be replaced.
pub record Protects (m m' : Memory) : Type 0 where
  pub address : (f : Field) → (segment m' f).address ≡ (segment m f).address
  pub access : (f : Field) → (segment m' f).access ≡ (segment m f).access
  pub locked :
      (f : Field)
      → f ≢ Field.rw
      → is_read_write (segment m f).access ≡ false
      → segment m' f ≡ segment m f

pub Protects-refl : (m : Memory) → Protects m m
Protects-refl m = record {
  address = λ f. refl;
  access = λ f. refl;
  locked = λ f other closed. refl;
}

pub Protects-trans : {m n o : Memory} → Protects m n → Protects n o → Protects m o
Protects-trans p q = record {
  address = λ f. q.address f ∙ p.address f;
  access = λ f. q.access f ∙ p.access f;
  locked = λ f other closed.
      q.locked f other (ap is_read_write (p.access f) ∙ closed) ∙ p.locked f other closed;
}

-- A value at the field f, and the old one at every other.
at_field :
    {A : Type 0} (m : Memory) (f g : Field) (s : MemorySegment) (h : MemorySegment → A)
    → h s ≡ h (segment m f)
    → h (segment (set_segment m f s) g) ≡ h (segment m g)
at_field m Field.ro Field.ro s h e = e
at_field m Field.rw Field.rw s h e = e
at_field m Field.stack Field.stack s h e = e
at_field m Field.args Field.args s h e = e
at_field m _ _ s h e = refl

-- Only the field that is set may differ.
untouched :
    (m : Memory) (f g : Field) (s : MemorySegment)
    → is_read_write (segment m f).access ≡ true
    → is_read_write (segment m g).access ≡ false
    → segment (set_segment m f s) g ≡ segment m g
untouched m Field.ro Field.ro s h e = cc
untouched m Field.rw Field.rw s h e = cc
untouched m Field.stack Field.stack s h e = cc
untouched m Field.args Field.args s h e = cc
untouched m _ _ s h e = refl

Protects-set_segment :
    (m : Memory) (f : Field) (s : MemorySegment)
    → s.address ≡ (segment m f).address
    → s.access ≡ (segment m f).access
    → is_read_write (segment m f).access ≡ true
    → Protects m (set_segment m f s)
Protects-set_segment m f s p q open_ = record {
  address = λ g. at_field m f g s (λ t. t.address) p;
  access = λ g. at_field m f g s (λ t. t.access) q;
  locked = λ g other closed. untouched m f g s open_ closed;
}

-- The heap may be replaced by one at the same place with the same access.
Protects-heap :
    (m : Memory) (s : MemorySegment)
    → s.address ≡ m.rw.address
    → s.access ≡ m.rw.access
    → Protects m (record m { rw = s })
Protects-heap m s p q = record {
  address = λ g. at_field m Field.rw g s (λ t. t.address) p;
  access = λ g. at_field m Field.rw g s (λ t. t.access) q;
  locked = λ g other closed. kept g other;
}
  where
    kept : (g : Field) → g ≢ Field.rw → segment (record m { rw = s }) g ≡ segment m g
    kept Field.rw other = absurd (other refl)
    kept _ other = refl

Protects-write_range :
    (m : Memory) {m' : Memory} (a : ℕ) (bytes : List ℕ) (f : Option Field)
    → write_range m a bytes f ≡ ok m'
    → Protects m m'
unfolding write_range
Protects-write_range m a bytes none e = absurd (refused _ e)
Protects-write_range m {m' = m'} a bytes (some f) e =
    let s : MemorySegment = segment m f in
    let (ys, cut, rest) =
      >>=-eq-ok (slice s.contents (a - s.address) (add_w 64 (a - s.address) (length bytes))) _ e in
    elim (Bool-cases (is_read_write (segment m f).access)) [
      | inl writable ↦
          let p = Protects-set_segment m f _ refl refl writable in
          subst (Protects m) (ok-injective (rw writable at rest)) p
      | inr closed ↦ absurd (refused _ (rw closed at rest))
    ]

pub Protects-write :
    (m : Memory) {m' : Memory} (a : ℕ) (bytes : List ℕ) → write m a bytes ≡ ok m' → Protects m m'
unfolding write
Protects-write m a bytes e = elim (Bool-cases (ltb a (2 ^ 16))) [
  | inl below ↦ cc (rw below at e)
  | inr above ↦ Protects-write_range m a bytes _ (rw above at e)
]

err-ok {ℓ} : {A : Type ℓ} {x : Error} {a : A} → err x ≢ ok a
err-ok e = cc

same_memory :
    {x y : ℕ} {m m' : Memory} → ◌≡◌ {A = Result (ℕ × Memory)} (ok (x, m)) (ok (y, m')) → m ≡ m'
same_memory e = ap (λ p. p.1) (ok-injective e)

pub Protects-sbrk : (m m' : Memory) (size top : ℕ) → sbrk m size ≡ ok (top, m') → Protects m m'
unfolding sbrk
Protects-sbrk m m' size top e =
    let current = add_w 64 m.rw.address (length m.rw.contents) in
    let next = add_w 64 current size in
    elim (Bool-cases (size == 0)) [
      | inl t ↦ subst (Protects m) (same_memory (rw t at e)) (Protects-refl m)
      | inr nonzero ↦ elim (Bool-cases (leb m.stack.address next)) [
        | inl t ↦ absurd (err-ok (rw (nonzero, t) at e))
        | inr below ↦ elim (Bool-cases (ltb current next)) [
          | inl t ↦
              subst (Protects m) (same_memory (rw (nonzero, below, t) at e))
                (Protects-heap m _ refl refl)
          | inr f ↦ subst (Protects m) (same_memory (rw (nonzero, below, f) at e)) (Protects-refl m)
        ]
      ]
    ]
