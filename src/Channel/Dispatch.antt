-- ===== src/Channel/Dispatch.antt =====
-- Channel::HandleEvent: which callbacks the bits of `revents` call, and in which order.

use evk.Prelude.{
  ℕ, ◌/◌, ◌%◌, ◌^◌, ◌≡◌, refl, ap, ap₂, List, [], ◌∷◌, ◌++◌, Bool, false, not, ◌&&◌, ◌||◌, arith,
  ◌==◌, if◌then◌else◌,
}
use evk.Prelude.Bits.{bit_and_digit, bit_and_field, bit_and-one}
use evk.Channel.{Channel, Callback, close, error, read, write, call_if, has_any, handle_event}

-- Bit n of a word is set.
abbrev pub bit : ℕ → ℕ → Bool
bit n x = x / 2 ^ n % 2 == 1

-- The callback is set, and the events that came are ones that it is for: a hang-up with nothing left
-- to read; an error or an invalid descriptor; data, urgent data or the peer's half close; room.
abbrev pub fires : Channel → Callback → Bool
fires c close = (bit 4 c.revents && not (bit 0 c.revents)) && c.close_fn
fires c error = (bit 3 c.revents || bit 5 c.revents) && c.error_fn
fires c read = (bit 0 c.revents || (bit 1 c.revents || bit 13 c.revents)) && c.read_fn
fires c write = bit 2 c.revents && c.write_fn

abbrev pub select : (Callback → Bool) → List Callback → List Callback
select p [] = []
select p (c ∷ cs) = if p c then c ∷ select p cs else select p cs

any_one : (x : ℕ) → has_any x 1 ≡ bit 0 x
any_one x = ground (arith, bit_and-one x)

any_four : (x : ℕ) → has_any x 4 ≡ bit 2 x
any_four x = ground (arith, bit_and_field 2 1 x, bit_and-one (x / 4))

any_sixteen : (x : ℕ) → has_any x 16 ≡ bit 4 x
any_sixteen x = ground (arith, bit_and_field 4 1 x, bit_and-one (x / 16))

any_error : (x : ℕ) → has_any x 40 ≡ (bit 3 x || bit 5 x)
any_error x = ground (
  arith,
  bit_and_field 3 5 x,
  bit_and_digit (x / 8) 5,
  bit_and_digit (x / 8 / 2) 2,
  bit_and-one (x / 8 / 2 / 2),
)

any_read : (x : ℕ) → has_any x 8195 ≡ (bit 0 x || (bit 1 x || bit 13 x))
any_read x = ground (
  arith,
  bit_and_digit x 8195,
  bit_and_digit (x / 2) 4097,
  bit_and_field 11 1 (x / 2 / 2),
  bit_and-one (x / 2 / 2 / 2048),
)

-- One callback of the sequence, by what its test means, and those behind it.
call_if_lem :
    (cb : Callback) (fn : Bool) {t t' : Bool} {r r' : List Callback}
    → t ≡ t'
    → r ≡ r'
    → call_if t fn cb ++ r ≡ (if t' && fn then cb ∷ r' else r')
call_if_lem cb fn {t} {t'} {r} {r'} p q = rw (p, q) (joined t')
  where
    joined : (s : Bool) → call_if s fn cb ++ r' ≡ (if s && fn then cb ∷ r' else r')
    joined s = ground arith

-- HandleEvent calls each callback at most once, in the order close, error, read, write, exactly those
-- that `fires` names, and changes nothing of the channel but the mark that it is being handled.
pub handle_event_lem :
    (c : Channel)
    → (((handle_event c).0 ≡ select (fires c) (close ∷ error ∷ read ∷ write ∷ []))
        × ((handle_event c).1 ≡ record c { event_handling = false }))
unfolding handle_event
handle_event_lem c = (
  call_if_lem close c.close_fn (ap₂ (λ h i. h && not i) (any_sixteen c.revents) (any_one c.revents))
      (call_if_lem error c.error_fn (any_error c.revents) (
        call_if_lem read c.read_fn (any_read c.revents)
          (ap (λ t. call_if t c.write_fn write) (any_four c.revents)))),
  refl,
)
