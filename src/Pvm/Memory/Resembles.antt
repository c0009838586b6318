-- ===== src/Pvm/Memory/Resembles.antt =====
-- Two memories whose segments differ in their contents alone.
use strawberry.Base.{
  ℕ, zero, suc, ◌+◌, ◌≡◌, refl, sym, subst, arith, Bool, Option, none, some, List, length,
}
use strawberry.Pvm.Memory.{
  MemoryAccess, Memory, Field, segment, set_segment, holds_range, find_range, holds_address,
  find_address, access_of, get_access, fault_loop, fault,
}
use strawberry.Pvm.Memory.Bytes.{length-overwrite}
use strawberry.Pvm.Memory.Written.{Written}

-- The new memory has the old segments but for the contents of one, of the same length.
abbrev pub Resembles : Memory → Memory → Type 0
Resembles m m' =
    (g : Field)
    → ((segment m' g).address ≡ (segment m g).address)
      × ((segment m' g).access ≡ (segment m g).access)
      × (length (segment m' g).contents ≡ length (segment m g).contents)

pub Resembles-set_segment :
    (m : Memory) (f : Field) (xs : List ℕ)
    → length xs ≡ length (segment m f).contents
    → Resembles m (set_segment m f (record (segment m f) { contents = xs }))
Resembles-set_segment m Field.ro xs h Field.ro = ground arith
Resembles-set_segment m _ xs h _ = ground arith

pub find_range-Resembles :
    (m m' : Memory) (a n : ℕ) → Resembles m m' → find_range m' a n ≡ find_range m a n
unfolding find_range holds_range
find_range-Resembles m m' a n r =
    ground (arith, r Field.ro, r Field.rw, r Field.stack, r Field.args)

find_address-Resembles :
    (m m' : Memory) (a : ℕ) → Resembles m m' → find_address m' a ≡ find_address m a
unfolding find_address holds_address
find_address-Resembles m m' a r =
    ground (arith, r Field.ro, r Field.rw, r Field.stack, r Field.args)

access_of-Resembles :
    {m m' : Memory} (f : Option Field) → Resembles m m' → access_of m' f ≡ access_of m f
access_of-Resembles none r = refl
access_of-Resembles (some f) r = (r f).1

get_access-Resembles :
    (m m' : Memory) (page : ℕ) → Resembles m m' → get_access m' page ≡ get_access m page
unfolding get_access
get_access-Resembles m m' page r =
    rw (find_address-Resembles m m' _ r) (access_of-Resembles (find_address m _) r)

fault_loop-Resembles :
    (m m' : Memory) (bad : MemoryAccess → Bool) (page rounds : ℕ)
    → Resembles m m'
    → fault_loop m' bad page rounds ≡ fault_loop m bad page rounds
unfolding fault_loop
fault_loop-Resembles m m' bad page zero r = refl
fault_loop-Resembles m m' bad page (suc rounds) r =
    rw (get_access-Resembles m m' page r, fault_loop-Resembles m m' bad (page + 1) rounds r)

pub fault-Resembles :
    (m m' : Memory) (bad : MemoryAccess → Bool) (a n : ℕ)
    → Resembles m m'
    → fault m' bad a n ≡ fault m bad a n
unfolding fault
fault-Resembles m m' bad a n r = fault_loop-Resembles m m' bad _ _ r

pub Written-Resembles :
    {m m' : Memory} {a : ℕ} {bytes : List ℕ} {f : Field} → Written m m' a bytes f → Resembles m m'
Written-Resembles {m} {a = a} {bytes = bytes} {f = f} w =
    subst (Resembles m) (sym w.result)
      (Resembles-set_segment m f _ (length-overwrite (segment m f).contents bytes _ w.fits))
