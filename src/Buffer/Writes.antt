-- ===== src/Buffer/Writes.antt =====
-- The writing half of evk/buffer.h: the constructor, Write and Append, Prepend, WriteBytes,
-- UnwriteBytes, ToText and Shrink, in terms of the unread bytes.
use evk.Prelude.{
  ℕ, ◌+◌, ◌-◌, ◌*◌, ◌≤◌, ◌<◌, ◌≡◌, refl, sym, ap, List, [], ◌∷◌, ◌++◌, some, ◌⊎◌, inl, inr, arith,
  length, take, slice, splice, length-append, length-splice, slice-splice_self, slice-splice_extend,
  slice_zero, take-slice, ◌∙◌, add_size_lem, sub_size_lem, take_prefix, le→leb, eq→==, size_mod,
}
use evk.Buffer.{
  Allocator, Buffer, load, prependable_bytes, cheap_prepend_size, init, write, prepend,
  unwrite_bytes, append_int8, to_text, shrink, swap,
}
use evk.Buffer.Invariant.{
  IsValid, contents, store_lem, size_lem, writable_bytes_lem, length-contents, load-contents,
  to_slice_lem,
}
use evk.Buffer.Grow.{Makes, ensure-Makes}

-- What a call that should leave the bytes `d` unread in `b'` does.
pub record Holds (d : List ℕ) (b b' : Buffer) : Type 0 where
  pub valid : IsValid b'
  pub bytes : contents b' ≡ d
  pub prefix : b'.reserved_prepend_size ≡ b.reserved_prepend_size

module _ ⦃h : Allocator⦄ (d : List ℕ) (b : Buffer) (v : IsValid b) where
  written : Buffer → Buffer
  written b' = record b' {
    buffer = splice b'.buffer b'.write_index d;
    write_index = b'.write_index + length d;
  }

  written-Holds : (b' : Buffer) → Makes (length d) b b' → Holds (contents b ++ d) b (written b')
  unfolding written
  written-Holds b' m = record {
    valid = record {
      stored =
          length-splice b'.buffer b'.write_index d
            (omega (arith, m.valid.stored, m.room, m.valid.within))
          ∙ m.valid.stored;
      ordered = omega (arith, m.valid.ordered);
      within = omega (arith, m.room, m.valid.within);
      reserved = m.valid.reserved;
      small = m.valid.small;
    };
    bytes =
        slice-splice_extend b'.buffer b'.read_index b'.write_index d
          (b'.write_index - b'.read_index) _ (omega (arith, m.valid.ordered))
          (omega (arith, m.valid.ordered))
          (omega (arith, m.valid.ordered, m.valid.within, m.valid.stored, m.room))
        ∙ ap (λ c. c ++ d) m.same;
    prefix = m.prefix;
  }

  -- Write and Append never fail: the bytes stand behind those that were unread, which are kept in
  -- order. The storage is kept, or replaced by one of twice its size and `len` more; then what was
  -- free in it was less than `len` beside the reserved bytes.
  pub write-Holds :
      b.capacity + b.capacity + length d < size_mod
      → (b' : Buffer) × (write d b ≡ some b')
        × Holds (contents b ++ d) b b'
        × ((b'.capacity ≡ b.capacity)
            ⊎ ((b'.capacity ≡ b.capacity + b.capacity + length d)
                × (b.capacity < length (contents b) + length d + b.reserved_prepend_size)))
  unfolding write
  write-Holds fit =
      let (b', run, m) = ensure-Makes (length d) b v fit in
      (
        written b',
        unfold written in
            rw (
              run,
              store_lem b'.buffer b'.write_index d
                  (omega (arith, m.valid.stored, m.room, m.valid.within)),
              add_size_lem b'.write_index (length d)
                  (omega (arith, m.valid.small, m.room, m.valid.within)),
              le→leb (b'.write_index + length d) b'.capacity
                  (omega (arith, m.room, m.valid.within)),
            ),
        written-Holds b' m,
        unfold written in
            elim m.thrift [
              | inl e ↦ inl e
              | inr (e, tight) ↦ inr (e, omega (arith, length-contents b v))
            ],
      )

-- The constructor's asserts hold and the buffer is empty, if the block's size does not wrap.
pub init-Holds :
    ⦃h : Allocator⦄ (initial reserved : ℕ)
    → reserved + initial < size_mod
    → (b : Buffer) × (init initial reserved ≡ some b)
      × IsValid b
      × (contents b ≡ [])
      × (b.capacity ≡ reserved + initial)
      × (b.read_index ≡ reserved)
      × (b.reserved_prepend_size ≡ reserved)
unfolding init prependable_bytes
init-Holds ⦃h⦄ initial reserved fit = (
  b,
  rw (
    add_size_lem reserved initial fit,
    size_lem b valid,
    writable_bytes_lem b valid,
    eq→== (reserved - reserved) 0 (omega arith),
    eq→== (reserved + initial - reserved) initial (omega arith),
    eq→== reserved reserved refl,
  ),
  valid,
  ap (λ n. slice reserved n (h.new_chars (reserved + initial))) (omega arith)
      ∙ slice_zero reserved _,
  refl,
  refl,
  refl,
)
  where
    b : Buffer
    b = record {
      buffer = h.new_chars (reserved + initial);
      capacity = reserved + initial;
      read_index = reserved;
      write_index = reserved;
      reserved_prepend_size = reserved;
    }

    valid : IsValid b
    valid = omega (arith, h.length-new_chars)

-- Prepend, at a length that its assert allows: the bytes stand before the unread ones.
pub prepend-Holds :
    (d : List ℕ) (b : Buffer)
    → IsValid b
    → length d ≤ b.read_index
    → (b' : Buffer) × (prepend d b ≡ some b') × Holds (d ++ contents b) b b'
unfolding prepend prependable_bytes
prepend-Holds d b v fit = (
  record b {
    buffer = splice b.buffer (b.read_index - length d) d;
    read_index = b.read_index - length d;
  },
  rw (
    le→leb (length d) b.read_index fit,
    sub_size_lem b.read_index (length d) (omega arith) fit,
    store_lem b.buffer (b.read_index - length d) d inside,
  ),
  record {
    valid = record {
      stored = length-splice b.buffer (b.read_index - length d) d inside ∙ v.stored;
      ordered = omega arith;
      within = v.within;
      reserved = v.reserved;
      small = v.small;
    };
    bytes =
        slice-splice_self b.buffer (b.read_index - length d) d (b.write_index - b.read_index) _
          b.read_index (omega arith) (omega arith) (omega arith);
    prefix = refl;
  },
)
  where
    inside : b.read_index - length d + length d ≤ length b.buffer
    inside = omega arith

-- UnwriteBytes(n), at an n that its assert allows, drops the last n unread bytes.
pub unwrite_bytes-Holds :
    (n : ℕ) (b : Buffer)
    → IsValid b
    → n ≤ length (contents b)
    → (b' : Buffer) × (unwrite_bytes n b ≡ some b')
      × Holds (take (length (contents b) - n) (contents b)) b b'
      × (b'.buffer ≡ b.buffer)
      × (b'.read_index ≡ b.read_index)
unfolding unwrite_bytes
unwrite_bytes-Holds n b v fit = (
  record b { write_index = b.write_index - n },
  rw (
    size_lem b v,
    le→leb n (b.write_index - b.read_index) (omega (arith, length-contents b v)),
    sub_size_lem b.write_index n (omega arith) (omega (arith, length-contents b v)),
  ),
  record {
    valid = record {
      stored = v.stored;
      ordered = omega (arith, length-contents b v);
      within = omega arith;
      reserved = v.reserved;
      small = v.small;
    };
    bytes =
        ap (λ k. slice b.read_index k b.buffer) (omega (arith, length-contents b v))
        ∙ sym (
            take-slice (length (contents b) - n) b.read_index (b.write_index - b.read_index)
              b.buffer (omega (arith, length-contents b v)));
    prefix = refl;
  },
  refl,
  refl,
)

-- ToText leaves the unread bytes as they are, and a zero byte stands right behind them, so that
-- data() is their text in the style of C.
pub to_text-Holds :
    ⦃h : Allocator⦄ (b : Buffer)
    → IsValid b
    → b.capacity + b.capacity + 1 < size_mod
    → (b' : Buffer) × (to_text b ≡ some b')
      × Holds (contents b) b b'
      × (load b'.buffer b'.read_index (length (contents b) + 1) ≡ some (contents b ++ 0 ∷ []))
unfolding to_text append_int8
to_text-Holds b v fit =
    let (b', run, w, _) = write-Holds (0 ∷ []) b v fit in
    let n : length (contents b') ≡ length (contents b) + 1 =
      ap length w.bytes ∙ length-append (contents b) (0 ∷ []) in
    let (b'', run', u, same, at) = unwrite_bytes-Holds 1 b' w.valid (omega arith) in
    let m : length (contents b) + 1 - 1 ≡ length (contents b) = omega arith in
    let k : length (contents b) + 1 ≡ b'.write_index - b'.read_index =
      omega (arith, length-contents b' w.valid) in
    (
      b'',
      rw (run, run'),
      record {
        valid = u.valid;
        bytes = u.bytes ∙ rw (n, w.bytes, m) (take_prefix (contents b) (0 ∷ []));
        prefix = u.prefix ∙ w.prefix;
      },
      rw (same, at, k) (load-contents b' w.valid ∙ ap some w.bytes),
    )

-- Shrink(room) keeps the unread bytes, in a block of exactly the room asked for and the cheap
-- prepend size; a prepend size of the buffer's own is lost.
pub shrink_lem :
    ⦃h : Allocator⦄ (room : ℕ) (b : Buffer)
    → IsValid b
    → 2 * (cheap_prepend_size + (length (contents b) + room)) + length (contents b) < size_mod
    → (b' : Buffer) × (shrink room b ≡ some b')
      × IsValid b'
      × (contents b' ≡ contents b)
      × (b'.capacity ≡ cheap_prepend_size + (length (contents b) + room))
      × (b'.reserved_prepend_size ≡ cheap_prepend_size)
unfolding shrink swap
shrink_lem room b v fit =
    let (other, run, ov, empty, cap, _, pre) =
      init-Holds (length (contents b) + room) cheap_prepend_size (omega arith) in
    let (b', run', w, thrift) = write-Holds (contents b) other ov (omega arith) in
    (
      b',
      rw (
        size_lem b v,
        ← length-contents b v,
        add_size_lem (length (contents b)) room (omega arith),
        run,
        to_slice_lem b v,
        run',
      ),
      w.valid,
      w.bytes ∙ rw empty refl,
      omega (arith, thrift, ap length empty),
      w.prefix ∙ pre,
    )
