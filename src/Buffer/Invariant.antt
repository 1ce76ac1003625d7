-- ===== src/Buffer/Invariant.antt =====
-- The representation invariant of `Buffer` (the diagram above the class), and the bytes that it
-- holds: 0 <= readerIndex <= writerIndex <= size.
use evk.Prelude.{
  ℕ, ◌+◌, ◌-◌, ◌≤◌, ◌<◌, ◌≡◌, List, some, arith, length, slice, splice, le→leb, size_mod, sub_size,
  length-slice,
}
use evk.Buffer.{Buffer, load, store, size, writable_bytes, to_slice}

pub record IsValid (b : Buffer) : Type 0 where
  pub stored : length b.buffer ≡ b.capacity
  pub ordered : b.read_index ≤ b.write_index
  pub within : b.write_index ≤ b.capacity
  pub reserved : b.reserved_prepend_size ≤ b.capacity
  pub small : b.capacity < size_mod

-- The unread bytes.
abbrev pub contents : Buffer → List ℕ
contents b = slice b.read_index (b.write_index - b.read_index) b.buffer

pub load_lem : (xs : List ℕ) (i n : ℕ) → i + n ≤ length xs → load xs i n ≡ some (slice i n xs)
unfolding load
load_lem xs i n h = rw (le→leb (i + n) (length xs) h)

pub store_lem :
    (xs : List ℕ) (i : ℕ) (ys : List ℕ)
    → i + length ys ≤ length xs
    → store xs i ys ≡ some (splice xs i ys)
unfolding store
store_lem xs i ys h = rw (le→leb (i + length ys) (length xs) h)

pub size_lem : (b : Buffer) → IsValid b → size b ≡ some (b.write_index - b.read_index)
unfolding size sub_size
size_lem b v = ground arith

pub writable_bytes_lem :
    (b : Buffer) → IsValid b → writable_bytes b ≡ some (b.capacity - b.write_index)
unfolding writable_bytes sub_size
writable_bytes_lem b v = ground arith

pub length-contents : (b : Buffer) → IsValid b → length (contents b) ≡ b.write_index - b.read_index
length-contents b v =
    length-slice b.read_index (b.write_index - b.read_index) b.buffer (omega arith)

pub size-length : (b : Buffer) → IsValid b → size b ≡ some (length (contents b))
size-length b v = rw (size_lem b v, length-contents b v)

pub load-contents :
    (b : Buffer)
    → IsValid b
    → load b.buffer b.read_index (b.write_index - b.read_index) ≡ some (contents b)
load-contents b v = load_lem b.buffer b.read_index (b.write_index - b.read_index) (omega arith)

pub to_slice_lem : (b : Buffer) → IsValid b → to_slice b ≡ some (contents b)
unfolding to_slice
to_slice_lem b v = rw (size_lem b v, load-contents b v)
