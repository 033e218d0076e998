-- ===== src/Core/Shared.antt =====
-- crates/bitfold-core/src/shared.rs: `SharedBytes`, a view into a reference-counted buffer. Bytes
-- are only moved here, so a byte is any number; sharing is not observable, since buffers are
-- immutable.
use bitfold.Prelude.{
  ℕ, ◌+◌, ◌≤◌, ◌≡◌, refl, Bool, ◌&&◌, List, Option, none, some, arith, length, take, drop, leb,
  ◌==◌, if◌then◌else◌, length-take, length-drop, take_all, drop-drop, take-drop-take,
}

-- `buffer` is the field `data`.
pub record SharedBytes : Type 0 where
  pub buffer : List ℕ
  pub start : ℕ
  pub len : ℕ

-- `from_vec` and `from_arc` differ in what they own only.
unfoldable pub from_vec : List ℕ → SharedBytes
from_vec v = record { buffer = v; start = 0; len = length v }

unfoldable pub from_arc : List ℕ → SharedBytes
from_arc d = record { buffer = d; start = 0; len = length d }

-- `none` is the panic of an assertion.
unfoldable pub slice : SharedBytes → ℕ → ℕ → Option SharedBytes
slice b start len =
    if leb start b.len && leb (start + len) b.len
    then some (record b { start = b.start + start; len = len })
    else none

-- `&data[start..start + len]`; `IsValid` puts the range inside the buffer.
unfoldable pub as_slice : SharedBytes → List ℕ
as_slice b = take b.len (drop b.start b.buffer)

unfoldable pub is_empty : SharedBytes → Bool
is_empty b = b.len == 0

unfoldable pub into_full_arc : SharedBytes → Option (List ℕ)
into_full_arc b = if b.start == 0 && b.len == length b.buffer then some b.buffer else none

-- The view lies inside its buffer. The fields are private, so every view is made by the functions
-- above.
pub record IsValid (b : SharedBytes) : Type 0 where
  pub within : b.start + b.len ≤ length b.buffer

pub from_vec-IsValid : (v : List ℕ) → IsValid (from_vec v)
unfolding from_vec
from_vec-IsValid v = omega arith

pub as_slice-from_vec : (v : List ℕ) → as_slice (from_vec v) ≡ v
unfolding as_slice from_vec
as_slice-from_vec v = take_all (length v) v (omega arith)

pub len-from_vec : (v : List ℕ) → (from_vec v).len ≡ length v
unfolding from_vec
len-from_vec v = refl

-- `len` is the length of the slice.
pub length-as_slice : {b : SharedBytes} → IsValid b → length (as_slice b) ≡ b.len
unfolding as_slice
length-as_slice {b} h =
    omega (arith, length-take b.len (drop b.start b.buffer), length-drop b.start b.buffer)

-- Slicing a valid view inside its length gives a valid view of that part of its bytes.
pub as_slice-slice :
    {b : SharedBytes} (start len : ℕ)
    → IsValid b
    → start + len ≤ b.len
    → (c : SharedBytes) × (slice b start len ≡ some c)
      × IsValid c
      × (as_slice c ≡ take len (drop start (as_slice b)))
unfolding slice as_slice
as_slice-slice {b} start len v h = (
  record b { start = b.start + start; len = len },
  ground arith,
  omega arith,
  ground (
    arith,
    drop-drop start b.start b.buffer,
    take-drop-take b.len start len (drop b.start b.buffer),
  ),
)
