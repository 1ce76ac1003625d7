-- ===== src/Buffer/Endian/Swap.antt =====
-- `bswap_64` reverses the eight bytes of a word.
use Prim.Native.Nat.{bit_and, bit_or}
use evk.Prelude.Bits.{bit_and_field, bit_or_above, bit_and_byte}
use evk.Prelude.{ℕ, ◌+◌, ◌*◌, ◌/◌, ◌%◌, ◌^◌, ◌<◌, ◌≡◌, ap, ap₂, ◌∙◌, arith, reverse}
use evk.Buffer.Endian.Bytes.{le_bytes, le_value}
use evk.Buffer.Endian.{bswap_64}

-- `x & (0xff << k)`
masked : (k x : ℕ) → bit_and x (255 * 2 ^ k) ≡ x / 2 ^ k % 256 * 2 ^ k
masked k x = bit_and_field k 255 x ∙ ap (λ y. y * 2 ^ k) (bit_and_byte (x / 2 ^ k))

-- One more field is joined above those that are there.
join : (k q : ℕ) {r t : ℕ} (s : ℕ) → r ≡ s → t ≡ q * 2 ^ k → s < 2 ^ k → bit_or r t ≡ s + q * 2 ^ k
join k q s p e h = ap₂ bit_or p e ∙ bit_or_above k s q h

pub bswap_64_lem : (x : ℕ) → bswap_64 x ≡ le_value (reverse (le_bytes 8 x))
unfolding bswap_64
bswap_64_lem x =
    join 56 (x % 256) _
      (join 48 (x / 2 ^ 8 % 256) _
        (join 40 (x / 2 ^ 16 % 256) _
          (join 32 (x / 2 ^ 24 % 256) _
            (join 24 (x / 2 ^ 32 % 256) _
              (join 16 (x / 2 ^ 40 % 256) _
                (join 8 (x / 2 ^ 48 % 256) (x / 2 ^ 56 % 256) (omega (arith, masked 56 x))
                  (omega (arith, masked 48 x)) (omega arith))
                (omega (arith, masked 40 x)) (omega arith))
              (omega (arith, masked 32 x)) (omega arith))
            (omega (arith, masked 24 x)) (omega arith))
          (omega (arith, masked 16 x)) (omega arith))
        (omega (arith, masked 8 x)) (omega arith))
      (omega (arith, masked 0 x)) (omega arith)
    ∙ omega arith
