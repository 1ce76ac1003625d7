-- ===== src/Buffer/Endian/Laws.antt =====
-- The integers written by the Append and Prepend methods are those that Peek and Read return, and
-- they stand in the buffer in network order, but for 64 bits on a big-endian host.
use evk.Prelude.{
  ℕ, ◌+◌, ◌-◌, ◌^◌, ◌≤◌, ◌<◌, ◌≡◌, refl, sym, ap, subst, ◌∙◌, leb, slice, false, List, ◌++◌,
  reverse, reverse-reverse, some, none, arith, length, take, drop, take_prefix, drop_prefix,
  take-slice, length-append, lt→leb_false, le→leb, size_mod,
}
use evk.Buffer.{Allocator, Buffer}
use evk.Buffer.Invariant.{IsValid, contents, size_lem, load_lem, length-contents}
use evk.Buffer.Writes.{Holds, write-Holds, prepend-Holds}
use evk.Buffer.Reads.{Leaves, skip-Leaves}
use evk.Buffer.Endian.Bytes.{
  le_bytes, le_value, AreBytes, length-le_bytes, le_bytes-AreBytes, le_bytes-le_value,
  le_value-le_bytes, AreBytes-reverse, length-reverse, le_value_bound,
}
use evk.Buffer.Endian.Swap.{bswap_64_lem}
use evk.Buffer.Endian.{
  Endian, little, big, IntType, i8, i16, i32, i64, sizeof, to_memory, from_memory, hton, ntoh,
  bswap_64, to_wire, from_wire, append_int, prepend_int, peek_int, read_int,
}

-- The bytes of `x` in network order, the high byte first.
abbrev pub network : ℕ → ℕ → List ℕ
network n x = reverse (le_bytes n x)

-- The bytes that the methods put into the buffer.
abbrev pub wire : Endian → IntType → ℕ → List ℕ
wire e i32 x = network 4 x
wire e i16 x = network 2 x
wire e i8 x = network 1 x
wire little i64 x = network 8 x
wire big i64 x = le_bytes 8 x

length-network : (n x : ℕ) → length (network n x) ≡ n
length-network n x = length-reverse (le_bytes n x) ∙ length-le_bytes n x

network-AreBytes : (n x : ℕ) → AreBytes (network n x)
network-AreBytes n x = AreBytes-reverse (le_bytes n x) (le_bytes-AreBytes n x)

length-wire : (e : Endian) (t : IntType) (x : ℕ) → length (wire e t x) ≡ sizeof t
length-wire e i32 x = length-network 4 x
length-wire e i16 x = length-network 2 x
length-wire e i8 x = refl
length-wire little i64 x = length-network 8 x
length-wire big i64 x = length-le_bytes 8 x

to_memory-from_memory :
    (e : Endian) (n : ℕ) (cs : List ℕ)
    → length cs ≡ n
    → AreBytes cs
    → to_memory e n (from_memory e cs) ≡ cs
unfolding to_memory from_memory
to_memory-from_memory little n cs l h = le_bytes-le_value n cs l h
to_memory-from_memory big n cs l h =
    ap reverse (le_bytes-le_value n (reverse cs) (length-reverse cs ∙ l) (AreBytes-reverse cs h))
    ∙ reverse-reverse cs

memory-hton : (e : Endian) (n x : ℕ) → to_memory e n (hton e n x) ≡ network n x
unfolding hton to_memory
memory-hton e n x =
    to_memory-from_memory e n (network n x) (length-network n x) (network-AreBytes n x)

ntoh-network : (e : Endian) (n x : ℕ) → x < 256 ^ n → ntoh e n (from_memory e (network n x)) ≡ x
unfolding ntoh
ntoh-network e n x h =
    ap (from_memory big)
      (to_memory-from_memory e n (network n x) (length-network n x) (network-AreBytes n x))
    ∙ (unfold from_memory in ap le_value (reverse-reverse (le_bytes n x)) ∙ le_value-le_bytes n x h)

pub ntoh-hton : (e : Endian) (n x : ℕ) → x < 256 ^ n → ntoh e n (hton e n x) ≡ x
unfolding hton to_memory
ntoh-hton e n x h = ntoh-network e n x h

from_memory-to_memory : (e : Endian) (n x : ℕ) → x < 256 ^ n → from_memory e (to_memory e n x) ≡ x
unfolding from_memory to_memory
from_memory-to_memory little n x h = le_value-le_bytes n x h
from_memory-to_memory big n x h =
    ap le_value (reverse-reverse (le_bytes n x)) ∙ le_value-le_bytes n x h

memory-AreBytes : (e : Endian) (n x : ℕ) → AreBytes (to_memory e n x)
unfolding to_memory
memory-AreBytes little n x = le_bytes-AreBytes n x
memory-AreBytes big n x = network-AreBytes n x

length-memory : (e : Endian) (n x : ℕ) → length (to_memory e n x) ≡ n
unfolding to_memory
length-memory little n x = length-le_bytes n x
length-memory big n x = length-network n x

pub hton-ntoh : (e : Endian) (n x : ℕ) → x < 256 ^ n → hton e n (ntoh e n x) ≡ x
unfolding hton ntoh
hton-ntoh e n x h =
    ap (from_memory e)
      (to_memory-from_memory big n (to_memory e n x) (length-memory e n x) (memory-AreBytes e n x))
    ∙ from_memory-to_memory e n x h

memory_bound :
    (e : Endian) (n : ℕ) (cs : List ℕ) → length cs ≡ n → AreBytes cs → from_memory e cs < 256 ^ n
unfolding from_memory
memory_bound little n cs l h = le_value_bound n cs l h
memory_bound big n cs l h =
    le_value_bound n (reverse cs) (length-reverse cs ∙ l) (AreBytes-reverse cs h)

pub hton_bound : (e : Endian) (n x : ℕ) → hton e n x < 256 ^ n
unfolding hton
hton_bound e n x =
    memory_bound e n (to_memory big n x) (length-memory big n x) (memory-AreBytes big n x)

pub ntoh_bound : (e : Endian) (n x : ℕ) → ntoh e n x < 256 ^ n
unfolding ntoh
ntoh_bound e n x =
    memory_bound big n (to_memory e n x) (length-memory e n x) (memory-AreBytes e n x)

memory-bswap_64 : (e : Endian) (x : ℕ) → to_memory e 8 (bswap_64 x) ≡ wire e i64 x
unfolding to_memory
memory-bswap_64 little x =
    ap (le_bytes 8) (bswap_64_lem x)
    ∙ le_bytes-le_value 8 (network 8 x) (length-network 8 x) (network-AreBytes 8 x)
memory-bswap_64 big x =
    ap (λ y. reverse (le_bytes 8 y)) (bswap_64_lem x)
    ∙ ap reverse (le_bytes-le_value 8 (network 8 x) (length-network 8 x) (network-AreBytes 8 x))
    ∙ reverse-reverse (le_bytes 8 x)

bswap_64-wire : (e : Endian) (x : ℕ) → x < 2 ^ 64 → bswap_64 (from_memory e (wire e i64 x)) ≡ x
unfolding from_memory
bswap_64-wire little x h =
    bswap_64_lem (le_value (network 8 x))
    ∙ ap (λ cs. le_value (reverse cs))
        (le_bytes-le_value 8 (network 8 x) (length-network 8 x) (network-AreBytes 8 x))
    ∙ ap le_value (reverse-reverse (le_bytes 8 x))
    ∙ le_value-le_bytes 8 x h
bswap_64-wire big x h =
    bswap_64_lem (le_value (network 8 x))
    ∙ ap (λ cs. le_value (reverse cs))
        (le_bytes-le_value 8 (network 8 x) (length-network 8 x) (network-AreBytes 8 x))
    ∙ ap le_value (reverse-reverse (le_bytes 8 x))
    ∙ le_value-le_bytes 8 x h

memory-wire :
    (e : Endian) (t : IntType) (x : ℕ)
    → x < 256 ^ sizeof t
    → to_memory e (sizeof t) (to_wire e t x) ≡ wire e t x
unfolding to_wire
memory-wire e i64 x h = memory-bswap_64 e x
memory-wire e i32 x h = memory-hton e 4 x
memory-wire e i16 x h = memory-hton e 2 x
memory-wire little i8 x h = unfold to_memory in refl
memory-wire big i8 x h = unfold to_memory in refl

from_wire-wire :
    (e : Endian) (t : IntType) (x : ℕ)
    → x < 256 ^ sizeof t
    → from_wire e t (from_memory e (wire e t x)) ≡ x
unfolding from_wire
from_wire-wire e i64 x h = bswap_64-wire e x h
from_wire-wire e i32 x h = ntoh-network e 4 x h
from_wire-wire e i16 x h = ntoh-network e 2 x h
from_wire-wire little i8 x h = unfold from_memory in omega arith
from_wire-wire big i8 x h = unfold from_memory in omega arith

module _ (e : Endian) (t : IntType) (x : ℕ) (range : x < 256 ^ sizeof t) (b : Buffer)
    (v : IsValid b) where
  -- AppendInt64 to AppendInt8 put the value behind the unread bytes: high byte first on every host
  -- for 32, 16 and 8 bits; for 64 bits high byte first on a little-endian host, low byte first on a
  -- big-endian one.
  pub append_int-Holds :
      ⦃h : Allocator⦄
      → b.capacity + b.capacity + sizeof t < size_mod
      → (b' : Buffer) × (append_int e t x b ≡ some b') × Holds (contents b ++ wire e t x) b b'
  unfolding append_int
  append_int-Holds fit =
      let (b', run, w, _) = write-Holds (wire e t x) b v (omega (arith, length-wire e t x)) in
      (b', rw (memory-wire e t x range) run, w)

  -- PrependInt64 to PrependInt8 put the same bytes before the unread ones, where there is room.
  pub prepend_int-Holds :
      sizeof t ≤ b.read_index
      → (b' : Buffer) × (prepend_int e t x b ≡ some b') × Holds (wire e t x ++ contents b) b b'
  unfolding prepend_int
  prepend_int-Holds fit =
      let (b', run, w) = prepend-Holds (wire e t x) b v (omega (arith, length-wire e t x)) in
      (b', rw (memory-wire e t x range) run, w)

  module _ (r : List ℕ) (q : contents b ≡ wire e t x ++ r) where
    enough : sizeof t ≤ b.write_index - b.read_index
    enough =
        omega
          (arith, ap length q, length-append (wire e t x) r, length-wire e t x, length-contents b v)

    front : slice b.read_index (sizeof t) b.buffer ≡ wire e t x
    front =
        sym (take-slice (sizeof t) b.read_index (b.write_index - b.read_index) b.buffer enough)
        ∙ ap (take (sizeof t)) q
        ∙ ap (λ n. take n (wire e t x ++ r)) (sym (length-wire e t x))
        ∙ take_prefix (wire e t x) r

    peek_int_lem : peek_int e t b ≡ some x
    unfolding peek_int
    peek_int_lem = rw (
      size_lem b v,
      le→leb _ _ enough,
      load_lem b.buffer b.read_index (sizeof t) (omega (arith, enough)),
      front,
      from_wire-wire e t x range,
    )

  -- A value that stands first is what Peek returns, and what Read returns and drops.
  pub read_int-Leaves :
      (r : List ℕ)
      → contents b ≡ wire e t x ++ r
      → (peek_int e t b ≡ some x) × (b' : Buffer) × (read_int e t b ≡ some (x, b')) × Leaves r b b'
  unfolding read_int
  read_int-Leaves r q =
      let (b', run, l) = skip-Leaves (sizeof t) b v in
      (
        peek_int_lem r q,
        b',
        rw (peek_int_lem r q, run),
        subst (λ d. Leaves d b b')
            (ap (drop (sizeof t)) q
              ∙ ap (λ n. drop n (wire e t x ++ r)) (sym (length-wire e t x))
              ∙ drop_prefix (wire e t x) r)
            l,
      )

-- Peek and Read stop at their assert when too few bytes are unread.
pub read_int_short :
    (e : Endian) (t : IntType) (b : Buffer)
    → IsValid b
    → length (contents b) < sizeof t
    → (peek_int e t b ≡ none) × (read_int e t b ≡ none)
unfolding read_int peek_int
read_int_short e t b v h =
    let l : leb (sizeof t) (b.write_index - b.read_index) ≡ false =
      lt→leb_false (sizeof t) (b.write_index - b.read_index) (omega (arith, length-contents b v)) in
    (rw (size_lem b v, l), rw (size_lem b v, l))
