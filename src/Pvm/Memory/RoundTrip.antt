-- ===== src/Pvm/Memory/RoundTrip.antt =====
-- What is written is read back, and nothing else changes.
use strawberry.Base.{
  ℕ, ◌+◌, ◌-◌, ◌%◌, ◌^◌, ◌≤◌, ◌<◌, ◌≡◌, ◌≢◌, refl, ap, ◌∙◌, ◌⊎◌, inl, inr, arith, false, Option,
  none, some, List, add_w, length, ltb, IsU64, le→leb, ltb-false, if◌then◌else◌, take, drop,
}
use strawberry.Pvm.Errors.{ok, err, panic}
use strawberry.Pvm.Memory.{
  is_inaccessible, Memory, Field, MemorySegment, segment, set_segment, slice, overwrite, find_range,
  read_range, read, write,
}
use strawberry.Pvm.Memory.Bytes.{
  length-overwrite, take-drop-overwrite, take-drop-overwrite_before, drop-overwrite_behind,
}
use strawberry.Pvm.Memory.Written.{Written, Written-write, find_range-start}
use strawberry.Pvm.Memory.Resembles.{
  Resembles, find_range-Resembles, fault-Resembles, Written-Resembles,
}

segment-set_segment :
    (m : Memory) (f : Field) {s : MemorySegment} → segment (set_segment m f s) f ≡ s
segment-set_segment m Field.ro = refl
segment-set_segment m _ = refl

slice-eq_ok :
    (xs : List ℕ) (lo n : ℕ)
    → lo + n ≤ length xs
    → (lo + n) % 2 ^ 64 ≡ lo + n
    → slice xs lo ((lo + n) % 2 ^ 64) ≡ ok (take n (drop lo xs))
unfolding slice
slice-eq_ok xs lo n h e =
    rw (e, le→leb lo (lo + n) (omega arith), le→leb (lo + n) (length xs) h, rest lo n) refl
  where
    rest : (lo n : ℕ) → lo + n - lo ≡ n
    rest lo n = omega arith

read_range-eq_ok :
    (m : Memory) (a n : ℕ) (f : Field)
    → a - (segment m f).address + n ≤ length (segment m f).contents
    → (a - (segment m f).address + n) % 2 ^ 64 ≡ a - (segment m f).address + n
    → is_inaccessible (segment m f).access ≡ false
    → read_range m a n (some f)
      ≡ ok (take n (drop (a - (segment m f).address) (segment m f).contents))
unfolding read_range
read_range-eq_ok m a n f fits whole open_ =
    rw (slice-eq_ok (segment m f).contents (a - (segment m f).address) n fits whole, open_)

-- A range that a write has filled reads back as it was written.
pub read-write :
    (m m' : Memory) (a : ℕ) (bytes : List ℕ)
    → IsU64 a
    → IsU64 (length bytes)
    → write m a bytes ≡ ok m'
    → read m' a (length bytes) ≡ ok bytes
unfolding read
read-write m m' a bytes ha hn e =
    let (f, w) = Written-write m a bytes ha hn e in
    let same = Written-Resembles w in
    let (address, access, size) = same f in
    let new = ap (λ x. segment x f) w.result ∙ segment-set_segment m f in
    rw (ltb-false a (2 ^ 16) w.low, find_range-Resembles m m' a (length bytes) same, w.found)
      (read_range-eq_ok m' a (length bytes) f (rw (address, size) w.fits) (rw address w.whole)
          (rw (access, w.writable) refl)
        ∙ ap ok (rw new (take-drop-overwrite (segment m f).contents bytes _ w.fits)))

Field-discrete : Discrete Field
Field-discrete = hlevel

segment-set_segment_ne :
    (m : Memory) (f g : Field) (s : MemorySegment)
    → g ≢ f
    → segment (set_segment m f s) g ≡ segment m g
segment-set_segment_ne m Field.ro Field.ro s h = absurd (h refl)
segment-set_segment_ne m _ _ s h = ground arith

-- The part of a list that a slice at lo has, before or behind the new bytes.
slice-overwrite :
    (xs bytes : List ℕ) (at lo n : ℕ)
    → at + length bytes ≤ length xs
    → (lo + n ≤ at) ⊎ (at + length bytes ≤ lo)
    → slice (overwrite xs at bytes) lo (lo + n) ≡ slice xs lo (lo + n)
unfolding slice
slice-overwrite xs bytes at lo n fits apart =
    rw (length-overwrite xs bytes at fits, plus lo n, part apart)
  where
    plus : (lo n : ℕ) → lo + n - lo ≡ n
    plus lo n = omega arith

    part :
        (lo + n ≤ at) ⊎ (at + length bytes ≤ lo)
        → take n (drop lo (overwrite xs at bytes)) ≡ take n (drop lo xs)
    part (inl before) = take-drop-overwrite_before xs bytes at lo n before fits
    part (inr behind) = ap (take n) (drop-overwrite_behind xs bytes at lo behind fits)

read_range-Resembles :
    (m m' : Memory) (b n : ℕ) (g : Field)
    → Resembles m m'
    → slice
        (segment m' g).contents
        (b - (segment m g).address)
        (add_w 64 (b - (segment m g).address) n)
      ≡ slice
          (segment m g).contents
          (b - (segment m g).address)
          (add_w 64 (b - (segment m g).address) n)
    → read_range m' b n (some g) ≡ read_range m b n (some g)
unfolding read_range
read_range-Resembles m m' b n g same e =
    rw ((same g).0, (same g).1, e, fault-Resembles m m' is_inaccessible b n same)

slice-write_self :
    (m m' : Memory) (a b n : ℕ) (bytes : List ℕ) (f : Field)
    → Written m m' a bytes f
    → b + n < 2 ^ 64
    → (b + n ≤ a) ⊎ (a + length bytes ≤ b)
    → (segment m f).address ≤ b
    → slice
        (segment m' f).contents
        (b - (segment m f).address)
        (add_w 64 (b - (segment m f).address) n)
      ≡ slice
          (segment m f).contents
          (b - (segment m f).address)
          (add_w 64 (b - (segment m f).address) n)
slice-write_self m m' a b n bytes f w hb apart start =
    let first = (segment m f).address in
    let whole : add_w 64 (b - first) n ≡ b - first + n = omega arith in
    rw (ap (λ x. segment x f) w.result ∙ segment-set_segment m f, whole)
      (slice-overwrite (segment m f).contents bytes (a - first) (b - first) n w.fits
        (omega (arith, w.start)))

slice-write :
    (m m' : Memory) (a b n : ℕ) (bytes : List ℕ) (f g : Field)
    → Written m m' a bytes f
    → b + n < 2 ^ 64
    → (b + n ≤ a) ⊎ (a + length bytes ≤ b)
    → (segment m g).address ≤ b
    → slice
        (segment m' g).contents
        (b - (segment m g).address)
        (add_w 64 (b - (segment m g).address) n)
      ≡ slice
          (segment m g).contents
          (b - (segment m g).address)
          (add_w 64 (b - (segment m g).address) n)
slice-write m m' a b n bytes f g w hb apart start = elim (Field-discrete g f) [
  | yes e ↦ rw e (slice-write_self m m' a b n bytes f w hb apart (rw e at start))
  | no e ↦ rw (ap (λ x. segment x g) w.result ∙ segment-set_segment_ne m f g _ e)
]

read_range-write :
    (m m' : Memory) (a b n : ℕ) (bytes : List ℕ) (f : Field) (g : Option Field)
    → Written m m' a bytes f
    → b + n < 2 ^ 64
    → (b + n ≤ a) ⊎ (a + length bytes ≤ b)
    → find_range m b n ≡ g
    → read_range m' b n g ≡ read_range m b n g
unfolding read_range
read_range-write m m' a b n bytes f none w hb apart e =
    rw (fault-Resembles m m' is_inaccessible b n (Written-Resembles w))
read_range-write m m' a b n bytes f (some g) w hb apart e =
    read_range-Resembles m m' b n g (Written-Resembles w)
      (slice-write m m' a b n bytes f g w hb apart (find_range-start m b n g e))

-- A range that shares no byte with the one that was written reads as before, errors included.
pub read-write_apart :
    (m m' : Memory) (a b n : ℕ) (bytes : List ℕ)
    → IsU64 a
    → IsU64 (length bytes)
    → write m a bytes ≡ ok m'
    → b + n < 2 ^ 64
    → (b + n ≤ a) ⊎ (a + length bytes ≤ b)
    → read m' b n ≡ read m b n
unfolding read
read-write_apart m m' a b n bytes ha hn e hb apart =
    let (f, w) = Written-write m a bytes ha hn e in
    let same = Written-Resembles w in
    rw (find_range-Resembles m m' b n same) (
      ap (λ t. if ltb b (2 ^ 16) then err panic else t)
        (read_range-write m m' a b n bytes f (find_range m b n) w hb apart refl))
