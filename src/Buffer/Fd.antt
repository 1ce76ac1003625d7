-- ===== src/Buffer/Fd.antt =====
-- Buffer::ReadFromFD (evk/buffer.cc): readv into the writable bytes and a block on the stack, and
-- what did not fit is appended.
use evk.Prelude.{
  ℕ, ◌+◌, ◌-◌, ◌≤◌, ◌<◌, ◌≡◌, refl, ap, List, ◌++◌, some, arith, length, take, drop, splice,
  length-splice, length-take, length-drop, slice-splice_extend, append_assoc, take_all,
  take-append-drop, ◌∙◌, add_size_lem, lt→leb_false, le→leb, size_mod,
}
use native.Mathlib.Decide.{dec_le}
use evk.Buffer.{Allocator, Buffer, received, offered, extrabuf_size, read_from_fd}
use evk.Buffer.Invariant.{IsValid, contents, store_lem, writable_bytes_lem}
use evk.Buffer.Writes.{Holds, write-Holds}

-- Received bytes stand in the storage, and the write index, `e`, behind them.
filled : List ℕ → ℕ → Buffer → Buffer
filled d e b = record b { buffer = splice b.buffer b.write_index d; write_index = e }

filled-Holds :
    (d : List ℕ) (e : ℕ) (b : Buffer)
    → IsValid b
    → length d ≤ b.capacity - b.write_index
    → e ≡ b.write_index + length d
    → Holds (contents b ++ d) b (filled d e b)
unfolding filled
filled-Holds d e b v fit p = record {
  valid = record {
    stored = length-splice b.buffer b.write_index d (omega arith) ∙ v.stored;
    ordered = omega arith;
    within = omega arith;
    reserved = v.reserved;
    small = v.small;
  };
  bytes =
      slice-splice_extend b.buffer b.read_index b.write_index d (b.write_index - b.read_index)
        (e - b.read_index) (omega arith) (omega arith) (omega arith);
  prefix = refl;
}

module _ ⦃h : Allocator⦄ (bs : List ℕ) (b : Buffer) (v : IsValid b) where
  -- ReadFromFD appends to the unread bytes all that readv returned, in order, whichever of the two
  -- blocks received it, if readv returned no more than it was offered.
  pub read_from_fd-Holds :
      length bs ≤ offered (b.capacity - b.write_index)
      → b.capacity + b.capacity + extrabuf_size < size_mod
      → (b' : Buffer) × (read_from_fd (received bs) b ≡ some (received bs, b'))
        × Holds (contents b ++ bs) b b'
  unfolding read_from_fd offered
  read_from_fd-Holds few fit = elim (dec_le (length bs) (b.capacity - b.write_index)) [
    | yes l ↦ (
      filled bs (b.write_index + length bs) b,
      unfold filled in
          rw (
            writable_bytes_lem b v,
            take_all (b.capacity - b.write_index) bs l,
            store_lem b.buffer b.write_index bs (omega arith),
            le→leb _ _ l,
            add_size_lem b.write_index (length bs) (omega arith),
          ),
      filled-Holds bs (b.write_index + length bs) b v l refl,
    )
    | no l ↦
        let front : List ℕ = take (b.capacity - b.write_index) bs in
        let extra : List ℕ = drop (b.capacity - b.write_index) bs in
        let n : length front ≡ b.capacity - b.write_index =
          omega (arith, length-take (b.capacity - b.write_index) bs) in
        let f : Holds (contents b ++ front) b (filled front b.capacity b) =
          filled-Holds front b.capacity b v (omega arith) (omega arith) in
        let k : b.capacity + b.capacity + length extra < size_mod =
          ground (arith, length-drop (b.capacity - b.write_index) bs) in
        let (b', run, w, _) =
          write-Holds extra (filled front b.capacity b) f.valid (unfold filled in k) in
        (
          b',
          rw
              (
                writable_bytes_lem b v,
                store_lem b.buffer b.write_index front (omega arith),
                lt→leb_false (length bs) (b.capacity - b.write_index) (omega arith),
              )
              (unfold filled in rw run),
          record {
            valid = w.valid;
            bytes =
                w.bytes
                ∙ ap (λ c. c ++ extra) f.bytes
                ∙ append_assoc (contents b) front extra
                ∙ ap (λ c. contents b ++ c) (take-append-drop _ bs);
            prefix = w.prefix ∙ f.prefix;
          },
        )
  ]
