-- ===== src/Buffer.antt =====
-- evk/buffer.h and evk/buffer.cc: one block of storage with a read and a write index. Every
-- operation returns the new buffer; `none` is a failed assert or an access outside the storage.
-- A byte is a number; a pointer into the storage is its index, and a returned `Slice` is the bytes
-- that it shows at the return.
pub mod Invariant
pub mod Grow
pub mod Writes
pub mod Reads
pub mod Fd
pub mod Find
pub mod Session
pub mod Endian
pub mod Tests
use evk.Prelude.{
  ℕ, ◌+◌, ◌≡◌, List, [], ◌∷◌, Option, none, some, ◌>>=◌, ◌>>◌, require, length, take, drop, slice,
  splice, get_elem?, ltb, leb, ◌==◌, if◌then◌else◌, add_size, sub_size, double_size,
}

-- `new char[n]`: a block of n bytes, whose contents the program cannot know.
pub record Allocator : Type 0 where
  pub new_chars : ℕ → List ℕ
  pub length-new_chars : (n : ℕ) → length (new_chars n) ≡ n

-- Reading and writing `n` bytes from index `i` on: memcpy, memmove.
unfoldable pub load : List ℕ → ℕ → ℕ → Option (List ℕ)
load storage i n = if leb (i + n) (length storage) then some (slice i n storage) else none

unfoldable pub store : List ℕ → ℕ → List ℕ → Option (List ℕ)
store storage i bytes =
    if leb (i + length bytes) (length storage) then some (splice storage i bytes) else none

pub record Buffer : Type 0 where
  pub buffer : List ℕ
  pub capacity : ℕ
  pub read_index : ℕ
  pub write_index : ℕ
  pub reserved_prepend_size : ℕ

abbrev pub cheap_prepend_size : ℕ
cheap_prepend_size = 8

abbrev pub initial_size : ℕ
initial_size = 1024

-- `length()` and `size()`
unfoldable pub size : Buffer → Option ℕ
size b = do require (leb b.read_index b.write_index); some (sub_size b.write_index b.read_index)

unfoldable pub writable_bytes : Buffer → Option ℕ
writable_bytes b = do
  require (leb b.write_index b.capacity)
  some (sub_size b.capacity b.write_index)

unfoldable pub prependable_bytes : Buffer → ℕ
prependable_bytes b = b.read_index

unfoldable pub swap : Buffer → Buffer → Buffer × Buffer
swap b rhs = (rhs, b)

unfoldable pub truncate : ℕ → Buffer → Buffer
truncate n b =
    if n == 0
    then record b { read_index = b.reserved_prepend_size; write_index = b.reserved_prepend_size }
    else if ltb (add_size b.read_index n) b.write_index
    then record b { write_index = add_size b.read_index n }
    else b

unfoldable pub reset : Buffer → Buffer
unfolding truncate
reset b = truncate 0 b

unfoldable pub skip : ℕ → Buffer → Option Buffer
skip len b = do
  n ← size b
  some (if ltb len n then record b { read_index = add_size b.read_index len } else reset b)

-- `grow`, first branch: a larger block, with the unread bytes behind the reserved ones.
unfoldable pub reallocate : ⦃h : Allocator⦄ → ℕ → Buffer → Option Buffer
reallocate ⦃h⦄ len b = do
  let n = add_size (double_size b.capacity) len
  m ← size b
  bytes ← load b.buffer b.read_index m
  d ← store (h.new_chars n) b.reserved_prepend_size bytes
  some (record b {
    buffer = d;
    capacity = n;
    read_index = b.reserved_prepend_size;
    write_index = add_size m b.reserved_prepend_size;
  })

-- `grow`, second branch: the unread bytes move to the front of the same block.
unfoldable pub compact : ℕ → Buffer → Option Buffer
compact len b = do
  require (ltb b.reserved_prepend_size b.read_index)
  readable ← size b
  bytes ← load b.buffer b.read_index readable
  d ← store b.buffer b.reserved_prepend_size bytes
  let b' = record b {
    buffer = d;
    read_index = b.reserved_prepend_size;
    write_index = add_size b.reserved_prepend_size readable;
  }
  n ← size b'
  require (readable == n)
  w ← writable_bytes b'
  require (leb len w)
  some b'

module _ ⦃h : Allocator⦄ where
  unfoldable pub grow : ℕ → Buffer → Option Buffer
  grow len b = do
    w ← writable_bytes b
    if ltb (add_size w (prependable_bytes b)) (add_size len b.reserved_prepend_size)
        then reallocate len b
        else compact len b

  unfoldable pub reserve : ℕ → Buffer → Option Buffer
  reserve len b =
      if leb (add_size len b.reserved_prepend_size) b.capacity
      then some b
      else grow (add_size len b.reserved_prepend_size) b

  unfoldable pub ensure_writable_bytes : ℕ → Buffer → Option Buffer
  ensure_writable_bytes len b = do
    w ← writable_bytes b
    b' ← if ltb w len then grow len b else some b
    w' ← writable_bytes b'
    require (leb len w')
    some b'

  -- `Write(d, len)` and each `Append`, with the bytes that `d` points to.
  unfoldable pub write : List ℕ → Buffer → Option Buffer
  write d b = do
    b' ← ensure_writable_bytes (length d) b
    buf ← store b'.buffer b'.write_index d
    require (leb (add_size b'.write_index (length d)) b'.capacity)
    some (record b' { buffer = buf; write_index = add_size b'.write_index (length d) })

-- The constructor `Buffer(initial_size, reserved_prepend_size)`.
unfoldable pub init : ⦃h : Allocator⦄ → ℕ → ℕ → Option Buffer
init ⦃h⦄ initial reserved = do
  let cap = add_size reserved initial
  let b : Buffer = record {
    buffer = h.new_chars cap;
    capacity = cap;
    read_index = reserved;
    write_index = reserved;
    reserved_prepend_size = reserved;
  }
  n ← size b
  require (n == 0)
  w ← writable_bytes b
  require (w == initial)
  require (prependable_bytes b == reserved)
  some b

unfoldable pub prepend : List ℕ → Buffer → Option Buffer
prepend d b = do
  require (leb (length d) (prependable_bytes b))
  let at = sub_size b.read_index (length d)
  buf ← store b.buffer at d
  some (record b { buffer = buf; read_index = at })

unfoldable pub unwrite_bytes : ℕ → Buffer → Option Buffer
unwrite_bytes n b = do
  len ← size b
  require (leb n len)
  some (record b { write_index = sub_size b.write_index n })

unfoldable pub write_bytes : ℕ → Buffer → Option Buffer
write_bytes n b = do
  w ← writable_bytes b
  require (leb n w)
  some (record b { write_index = add_size b.write_index n })

-- `ToSlice()` and `ToString()`
unfoldable pub to_slice : Buffer → Option (List ℕ)
to_slice b = do n ← size b; load b.buffer b.read_index n

unfoldable pub next_all : Buffer → Option (List ℕ × Buffer)
next_all b = do n ← size b; result ← load b.buffer b.read_index n; some (result, reset b)

-- `Next(len)` and `NextString(len)`
unfoldable pub next : ℕ → Buffer → Option (List ℕ × Buffer)
next len b = do
  n ← size b
  if ltb len n
      then (do
        result ← load b.buffer b.read_index len
        some (result, record b { read_index = add_size b.read_index len }))
      else next_all b

unfoldable pub read_byte : Buffer → Option (ℕ × Buffer)
read_byte b = do
  n ← size b
  require (leb 1 n)
  if n == 0 then some (0, b) else (do
    c ← get_elem? b.buffer b.read_index
    some (c, record b { read_index = add_size b.read_index 1 }))

unfoldable pub unread_bytes : ℕ → Buffer → Option Buffer
unread_bytes n b = do
  require (ltb n b.read_index)
  some (record b { read_index = sub_size b.read_index n })

-- What readv(2) returns: an error number, or the bytes that it stored in the two blocks.
pub data Readv : Type 0 where
  failed : ℕ → Readv
  received : List ℕ → Readv

abbrev pub extrabuf_size : ℕ
extrabuf_size = 65536

-- The room that the two blocks offer to readv.
unfoldable pub offered : ℕ → ℕ
offered writable = if ltb writable extrabuf_size then writable + extrabuf_size else writable

module _ ⦃h : Allocator⦄ where
  -- `AppendInt8`: the byte of an `int8_t`.
  unfoldable pub append_int8 : ℕ → Buffer → Option Buffer
  append_int8 x b = write (x ∷ []) b

  unfoldable pub to_text : Buffer → Option Buffer
  to_text b = do b' ← append_int8 0 b; unwrite_bytes 1 b'

  -- The rest of the buffer's life is that of `other`.
  unfoldable pub shrink : ℕ → Buffer → Option Buffer
  shrink room b = do
    n ← size b
    other ← init (add_size n room) cheap_prepend_size
    bytes ← to_slice b
    other' ← write bytes other
    some (swap b other').0

  unfoldable pub read_from_fd : Readv → Buffer → Option (Readv × Buffer)
  read_from_fd (failed e) b = do _ ← writable_bytes b; some (failed e, b)
  read_from_fd (received bs) b = do
    writable ← writable_bytes b
    -- what the system call does: it fills the writable bytes first, then `extrabuf`
    buf ← store b.buffer b.write_index (take writable bs)
    let b' = record b { buffer = buf }
    let extra = drop writable bs
    b'' ←
        if leb (length bs) writable
        then some (record b' { write_index = add_size b'.write_index (length bs) })
        else write extra (record b' { write_index = b'.capacity })
    some (received bs, b'')
