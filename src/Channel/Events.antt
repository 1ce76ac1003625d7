-- ===== src/Channel/Events.antt =====
-- The event masks of evk/channel.cc: what Enable and Disable make of IsReading and IsWriting.
use Prim.Native.Nat.{bit_and, bit_or, min, max}
use evk.Prelude.{ℕ, ◌+◌, ◌*◌, ◌/◌, ◌%◌, ◌≡◌, true, false, arith}
use evk.Prelude.Bits.{bit_and_digit, bit_or_digit, bit_and-zero}
use evk.Channel.{
  is_reading, is_writing, is_none_event, enable_read, enable_write, disable_read, disable_write,
  disable_all, complement,
}

-- The three low digits of a conjunction and of a disjunction.
and_digits :
    (x y : ℕ)
    → (bit_and x y % 2 ≡ min (x % 2) (y % 2))
      × (bit_and x y / 2 % 2 ≡ min (x / 2 % 2) (y / 2 % 2))
      × (bit_and x y / 2 / 2 % 2 ≡ min (x / 2 / 2 % 2) (y / 2 / 2 % 2))
and_digits x y =
    omega (
      arith,
      bit_and_digit x y,
      bit_and_digit (x / 2) (y / 2),
      bit_and_digit (x / 2 / 2) (y / 2 / 2),
    )

or_digits :
    (x y : ℕ)
    → (bit_or x y % 2 ≡ max (x % 2) (y % 2))
      × (bit_or x y / 2 % 2 ≡ max (x / 2 % 2) (y / 2 % 2))
      × (bit_or x y / 2 / 2 % 2 ≡ max (x / 2 / 2 % 2) (y / 2 / 2 % 2))
or_digits x y =
    omega
      (arith, bit_or_digit x y, bit_or_digit (x / 2) (y / 2), bit_or_digit (x / 2 / 2) (y / 2 / 2))

and_three : (x : ℕ) → bit_and x 3 ≡ x % 2 + x / 2 % 2 * 2
and_three x = omega (arith, bit_and_digit x 3, bit_and_digit (x / 2) 1, bit_and-zero (x / 2 / 2))

and_four : (x : ℕ) → bit_and x 4 ≡ x / 2 / 2 % 2 * 4
and_four x = omega (
  arith,
  bit_and_digit x 4,
  bit_and_digit (x / 2) 2,
  bit_and_digit (x / 2 / 2) 1,
  bit_and-zero (x / 2 / 2 / 2),
)

-- Each of the five operations on `events_`, seen through the three tests: it sets or clears its own
-- interest, and leaves the other one as it was.
pub events_lem :
    (e : ℕ)
    → (is_reading (enable_read e) ≡ true)
      × (is_writing (enable_read e) ≡ is_writing e)
      × (is_writing (enable_write e) ≡ true)
      × (is_reading (enable_write e) ≡ is_reading e)
      × (is_reading (disable_read e) ≡ false)
      × (is_writing (disable_read e) ≡ is_writing e)
      × (is_writing (disable_write e) ≡ false)
      × (is_reading (disable_write e) ≡ is_reading e)
      × (is_none_event (disable_all e) ≡ true)
      × (is_reading (disable_all e) ≡ false)
      × (is_writing (disable_all e) ≡ false)
unfolding is_reading is_writing is_none_event enable_read enable_write disable_read disable_write
    disable_all
events_lem e = ground (
  arith,
  and_three e,
  and_four e,
  and_three (bit_or e 3),
  and_four (bit_or e 3),
  or_digits e 3,
  and_three (bit_or e 4),
  and_four (bit_or e 4),
  or_digits e 4,
  and_three (bit_and e (complement 3)),
  and_four (bit_and e (complement 3)),
  and_digits e (complement 3),
  and_three (bit_and e (complement 4)),
  and_four (bit_and e (complement 4)),
  and_digits e (complement 4),
)
