-- ===== src/Pvm/Memory.antt =====
-- internal/polkavm/common.go, `Memory`: four segments, and the accesses that they grant.
pub mod Bytes
pub mod Written
pub mod Resembles
pub mod RoundTrip
pub mod Protects
use strawberry.Base.{
  ℕ, zero, suc, ◌+◌, ◌-◌, ◌*◌, ◌/◌, ◌%◌, ◌^◌, Bool, true, false, ◌&&◌, not, Option, none, some,
  List, ◌++◌, length, take, drop, replicate, ltb, leb, ◌==◌, if◌then◌else◌, u64, add_w,
}
use strawberry.Pvm.Errors.{Result, ok, err, crash, panic, page_fault, ◌>>=◌}

pub data MemoryAccess : Type 0 where
  inaccessible read_only read_write : MemoryAccess

abbrev pub is_inaccessible : MemoryAccess → Bool
is_inaccessible inaccessible = true
is_inaccessible _ = false

abbrev pub is_read_write : MemoryAccess → Bool
is_read_write read_write = true
is_read_write _ = false

pub record MemorySegment : Type 0 where
  pub address : ℕ
  pub contents : List ℕ
  pub access : MemoryAccess

pub record Memory : Type 0 where
  pub ro : MemorySegment
  pub rw : MemorySegment
  pub stack : MemorySegment
  pub args : MemorySegment

-- The field that a branch of the source works on.
pub data Field : Type 0 where
  ro rw stack args : Field

abbrev pub segment : Memory → Field → MemorySegment
segment m ro = m.ro
segment m rw = m.rw
segment m stack = m.stack
segment m args = m.args

abbrev pub set_segment : Memory → Field → MemorySegment → Memory
set_segment m ro s = record m { ro = s }
set_segment m rw s = record m { rw = s }
set_segment m stack s = record m { stack = s }
set_segment m args s = record m { args = s }

abbrev pub page_size : ℕ
page_size = 2 ^ 12

-- `data[lo:hi]`, of a slice whose capacity is its length.
unfoldable pub slice : List ℕ → ℕ → ℕ → Result (List ℕ)
slice xs lo hi = if leb lo hi && leb hi (length xs) then ok (take (hi - lo) (drop lo xs)) else crash

-- `copy(data[lo:hi], bytes)` for bytes of the length hi - lo.
unfoldable pub overwrite : List ℕ → ℕ → List ℕ → List ℕ
overwrite xs lo bytes = take lo xs ++ (bytes ++ drop (lo + length bytes) xs)

-- `address >= s.address && address+n <= s.address+uint64(len(s.data))`; the sums wrap around.
unfoldable pub holds_range : MemorySegment → ℕ → ℕ → Bool
holds_range s a n = leb s.address a && leb (add_w 64 a n) (add_w 64 s.address (length s.contents))

-- The chain of tests that `Read` and `Write` share.
unfoldable pub find_range : Memory → ℕ → ℕ → Option Field
find_range m a n =
    if holds_range m.stack a n
    then some stack
    else if holds_range m.rw a n
    then some rw
    else if holds_range m.ro a n
    then some ro
    else if holds_range m.args a n
    then some args
    else none

unfoldable pub holds_address : MemorySegment → ℕ → Bool
holds_address s a = leb s.address a && ltb a (add_w 64 s.address (length s.contents))

-- The chain of tests that `SetAccess` and `GetAccess` share.
unfoldable pub find_address : Memory → ℕ → Option Field
find_address m a =
    if holds_address m.stack a
    then some stack
    else if holds_address m.rw a
    then some rw
    else if holds_address m.ro a
    then some ro
    else if holds_address m.args a
    then some args
    else none

abbrev pub access_of : Memory → Option Field → MemoryAccess
access_of m none = inaccessible
access_of m (some f) = (segment m f).access

unfoldable pub get_access : Memory → ℕ → MemoryAccess
get_access m page = access_of m (find_address m (u64 (page * page_size)))

unfoldable pub set_access : Memory → ℕ → MemoryAccess → Result Memory
set_access m page access =
    let address = u64 (page * page_size) in
    elim (find_address m address) [
      | none ↦ err (page_fault address)
      | some f ↦ ok (set_segment m f (record (segment m f) { access = access }))
    ]

-- `for i := page; …; i++`, with the number of rounds left.
unfoldable pub fault_loop : Memory → (MemoryAccess → Bool) → ℕ → ℕ → Result (Unit {0})
fault_loop m bad page zero = err panic
fault_loop m bad page (suc rounds) =
    if bad (get_access m page)
    then err (page_fault (u64 (page * page_size)))
    else fault_loop m bad (page + 1) rounds

-- The first page of a refused access that is not accessible.
unfoldable pub fault : Memory → (MemoryAccess → Bool) → ℕ → ℕ → Result (Unit {0})
fault m bad a n = fault_loop m bad (a / page_size) (add_w 64 a n / page_size + 1 - a / page_size)

-- `Read` behind the choice of the segment: the slice is taken before the access is tested.
unfoldable pub read_range : Memory → ℕ → ℕ → Option Field → Result (List ℕ)
read_range m a n none = fault m is_inaccessible a n >>= λ _. err panic
read_range m a n (some f) =
    let s = segment m f in
    slice s.contents (a - s.address) (add_w 64 (a - s.address) n) >>= λ bytes.
    if is_inaccessible s.access then (fault m is_inaccessible a n >>= λ _. err panic) else ok bytes

-- `Read(address, data)` for a `data` of the length n; the bytes are those that it is filled with.
unfoldable pub read : Memory → ℕ → ℕ → Result (List ℕ)
read m a n = if ltb a (2 ^ 16) then err panic else read_range m a n (find_range m a n)

unfoldable pub write_range : Memory → ℕ → List ℕ → Option Field → Result Memory
write_range m a bytes none =
    fault m (λ x. not (is_read_write x)) a (length bytes) >>= λ _. err panic
write_range m a bytes (some f) =
    let s = segment m f in
    slice s.contents (a - s.address) (add_w 64 (a - s.address) (length bytes)) >>= λ _.
    if is_read_write s.access
    then ok (set_segment m f (record s { contents = overwrite s.contents (a - s.address) bytes }))
    else (fault m (λ x. not (is_read_write x)) a (length bytes) >>= λ _. err panic)

-- `Write(address, data)`. The new memory holds what the slices that both share hold afterwards.
unfoldable pub write : Memory → ℕ → List ℕ → Result Memory
write m a bytes =
    if ltb a (2 ^ 16) then err panic else write_range m a bytes (find_range m a (length bytes))

-- initialisation.go; `value & (PageSize - 1)` is the remainder by PageSize, a power of two.
unfoldable pub align_to_page : ℕ → ℕ
align_to_page value =
    if value % page_size == 0
    then value
    else let up = add_w 64 value page_size in up - up % page_size

-- `Sbrk(size)`: the heap pointer, and the memory with the new read-write segment.
unfoldable pub sbrk : Memory → ℕ → Result (ℕ × Memory)
sbrk m size =
    let current = add_w 64 m.rw.address (length m.rw.contents) in
    let next = add_w 64 current size in
    if size == 0
    then ok (current, m)
    else if leb m.stack.address next
    then err (page_fault next)
    else if ltb current next
    then (let grown = record (m.rw) { contents = replicate (align_to_page next) 0 } in
        ok (add_w 64 grown.address (length grown.contents), record m { rw = grown }))
    else ok (current, m)
