-- ===== src/Buffer/Endian.antt =====
-- The integers of evk/buffer.h: Append/Prepend/Peek/Read of Int64, Int32, Int16 and Int8.
-- A value is its bit pattern. The byte order of the host is an argument: `htonl`, `ntohl` and the
-- 16-bit ones know it, and `bswap_64` does not.
mod Bytes
mod Swap
pub mod Laws
pub use Bytes.{le_bytes, le_value}
use Prim.Native.Nat.{bit_and, bit_or}
use evk.Prelude.{
  ℕ, ◌*◌, ◌/◌, ◌%◌, ◌^◌, List, [], ◌∷◌, Option, some, none, ◌>>=◌, ◌>>◌, require, leb, reverse,
}
use evk.Buffer.{Allocator, Buffer, size, load, write, prepend, skip}

pub data Endian : Type 0 where
  little big : Endian

-- `int8_t` to `int64_t`
pub data IntType : Type 0 where
  i8 i16 i32 i64 : IntType

abbrev pub sizeof : IntType → ℕ
sizeof i8 = 1
sizeof i16 = 2
sizeof i32 = 4
sizeof i64 = 8

-- The memory of a variable of n bytes that holds `x`, and the value of such memory.
unfoldable pub to_memory : Endian → ℕ → ℕ → List ℕ
to_memory little n x = le_bytes n x
to_memory big n x = reverse (le_bytes n x)

unfoldable pub from_memory : Endian → List ℕ → ℕ
from_memory little bs = le_value bs
from_memory big bs = le_value (reverse bs)

-- The C library's conversions at n bytes: the memory of `hton n x` is `x` with its high byte first.
unfoldable pub hton : Endian → ℕ → ℕ → ℕ
unfolding to_memory from_memory
hton e n x = from_memory e (to_memory big n x)

unfoldable pub ntoh : Endian → ℕ → ℕ → ℕ
unfolding to_memory from_memory
ntoh e n y = from_memory big (to_memory e n y)

-- The macro of that name; `ull` shifts left are modulo 2 ^ 64.
unfoldable pub bswap_64 : ℕ → ℕ
bswap_64 x =
    bit_or
      (bit_or
        (bit_or
          (bit_or
            (bit_or
              (bit_or
                (bit_or (bit_and x 0xff00000000000000 / 2 ^ 56)
                  (bit_and x 0x00ff000000000000 / 2 ^ 40))
                (bit_and x 0x0000ff0000000000 / 2 ^ 24))
              (bit_and x 0x000000ff00000000 / 2 ^ 8))
            (bit_and x 0x00000000ff000000 * 2 ^ 8 % 2 ^ 64))
          (bit_and x 0x0000000000ff0000 * 2 ^ 24 % 2 ^ 64))
        (bit_and x 0x000000000000ff00 * 2 ^ 40 % 2 ^ 64))
      (bit_and x 0x00000000000000ff * 2 ^ 56 % 2 ^ 64)

-- What each method makes of its argument, or of the word that it has copied out of the buffer.
unfoldable pub to_wire : Endian → IntType → ℕ → ℕ
to_wire e i64 x = bswap_64 x
to_wire e i32 x = hton e 4 x
to_wire e i16 x = hton e 2 x
to_wire e i8 x = x

unfoldable pub from_wire : Endian → IntType → ℕ → ℕ
from_wire e i64 y = bswap_64 y
from_wire e i32 y = ntoh e 4 y
from_wire e i16 y = ntoh e 2 y
from_wire e i8 y = y

-- `AppendInt64` to `AppendInt8`
unfoldable pub append_int : ⦃h : Allocator⦄ → Endian → IntType → ℕ → Buffer → Option Buffer
append_int e t x b = write (to_memory e (sizeof t) (to_wire e t x)) b

-- `PrependInt64` to `PrependInt8`
unfoldable pub prepend_int : Endian → IntType → ℕ → Buffer → Option Buffer
prepend_int e t x b = prepend (to_memory e (sizeof t) (to_wire e t x)) b

-- `PeekInt64` to `PeekInt8`
unfoldable pub peek_int : Endian → IntType → Buffer → Option ℕ
peek_int e t b = do
  n ← size b
  require (leb (sizeof t) n)
  bs ← load b.buffer b.read_index (sizeof t)
  some (from_wire e t (from_memory e bs))

-- `ReadInt64` to `ReadInt8`
unfoldable pub read_int : Endian → IntType → Buffer → Option (ℕ × Buffer)
read_int e t b = do result ← peek_int e t b; b' ← skip (sizeof t) b; some (result, b')
