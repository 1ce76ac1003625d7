-- ===== src/Buffer/Grow.antt =====
-- Buffer::grow, EnsureWritableBytes and Reserve: room is made, the unread bytes stay, no assert
-- fails and no byte outside the storage is touched.
use evk.Prelude.{
  ℕ, ◌+◌, ◌-◌, ◌≤◌, ◌<◌, ◌≡◌, refl, List, some, arith, length, splice, length-splice,
  slice-splice_self, append-nil, slice_zero, ◌∙◌, ◌⊎◌, inl, inr, lt→ltb, le→ltb_false, lt→leb_false,
  eq→==, add_size_lem, double_size_lem, le→leb, size_mod,
}
use native.Mathlib.Decide.{dec_lt, dec_le}
use evk.Buffer.{
  Allocator, Buffer, prependable_bytes, reallocate, compact, grow, reserve, ensure_writable_bytes,
}
use evk.Buffer.Invariant.{
  IsValid, contents, store_lem, size_lem, writable_bytes_lem, length-contents, load-contents,
}

-- What making room for `len` bytes does to `b`.
pub record Makes (len : ℕ) (b b' : Buffer) : Type 0 where
  pub valid : IsValid b'
  pub same : contents b' ≡ contents b
  pub room : len ≤ b'.capacity - b'.write_index
  pub prefix : b'.reserved_prepend_size ≡ b.reserved_prepend_size
  -- The block is replaced only if what is free in it, with the reserved bytes left out, is too little.
  pub thrift :
      (b'.capacity ≡ b.capacity)
      ⊎ ((b'.capacity ≡ b.capacity + b.capacity + len)
          × (b.capacity - b.write_index + b.read_index < len + b.reserved_prepend_size))

module _ ⦃h : Allocator⦄ (len : ℕ) (b : Buffer) (v : IsValid b) where
  storage : List ℕ
  storage = h.new_chars (b.capacity + b.capacity + len)

  reallocated : Buffer
  reallocated = record b {
    buffer = splice storage b.reserved_prepend_size (contents b);
    capacity = b.capacity + b.capacity + len;
    read_index = b.reserved_prepend_size;
    write_index = b.write_index - b.read_index + b.reserved_prepend_size;
  }

  module _ (fit : b.capacity + b.capacity + len < size_mod) where
    enough : b.reserved_prepend_size + length (contents b) ≤ length storage
    unfolding storage
    enough = omega (arith, length-contents b v, h.length-new_chars)

    reallocate_lem : reallocate len b ≡ some reallocated
    unfolding reallocate reallocated storage
    reallocate_lem = rw (
      size_lem b v,
      load-contents b v,
      double_size_lem b.capacity (omega arith),
      add_size_lem (b.capacity + b.capacity) len fit,
      store_lem storage b.reserved_prepend_size (contents b) enough,
      add_size_lem (b.write_index - b.read_index) b.reserved_prepend_size (omega arith),
    )

    reallocated-Makes :
        b.capacity - b.write_index + b.read_index < len + b.reserved_prepend_size
        → Makes len b reallocated
    unfolding reallocated storage
    reallocated-Makes tight = record {
      valid = record {
        stored =
            length-splice storage b.reserved_prepend_size (contents b) enough
            ∙ h.length-new_chars _;
        ordered = omega arith;
        within = omega arith;
        reserved = omega arith;
        small = fit;
      };
      same =
          slice-splice_self storage b.reserved_prepend_size (contents b) 0 _
            (b.reserved_prepend_size + length (contents b)) (omega (arith, length-contents b v))
            refl (omega (arith, enough, length-contents b v))
          ∙ rw (slice_zero (b.reserved_prepend_size + length (contents b)) storage)
              (append-nil (contents b));
      room = omega arith;
      prefix = refl;
      thrift = inr (refl, tight);
    }

  compacted : Buffer
  compacted = record b {
    buffer = splice b.buffer b.reserved_prepend_size (contents b);
    read_index = b.reserved_prepend_size;
    write_index = b.reserved_prepend_size + (b.write_index - b.read_index);
  }

  module _ (short : b.capacity - b.write_index < len)
      (loose : len + b.reserved_prepend_size ≤ b.capacity - b.write_index + b.read_index) where
    inside : b.reserved_prepend_size + length (contents b) ≤ length b.buffer
    inside = omega (arith, length-contents b v)

    compacted-Makes : Makes len b compacted
    unfolding compacted
    compacted-Makes = record {
      valid = record {
        stored = length-splice b.buffer b.reserved_prepend_size (contents b) inside ∙ v.stored;
        ordered = omega arith;
        within = omega arith;
        reserved = omega arith;
        small = v.small;
      };
      same =
          slice-splice_self b.buffer b.reserved_prepend_size (contents b) 0 _
            (b.reserved_prepend_size + length (contents b)) (omega (arith, length-contents b v))
            refl (omega (arith, inside, length-contents b v))
          ∙ rw (slice_zero (b.reserved_prepend_size + length (contents b)) b.buffer)
              (append-nil (contents b));
      room = omega arith;
      prefix = refl;
      thrift = inl refl;
    }

    compact_lem : compact len b ≡ some compacted
    unfolding compact compacted
    compact_lem = rw (
      lt→ltb b.reserved_prepend_size b.read_index (omega arith),
      size_lem b v,
      load-contents b v,
      store_lem b.buffer b.reserved_prepend_size (contents b) inside,
      add_size_lem b.reserved_prepend_size (b.write_index - b.read_index) (omega arith),
      size_lem compacted compacted-Makes.valid,
      writable_bytes_lem compacted compacted-Makes.valid,
      eq→== (b.write_index - b.read_index)
          (b.reserved_prepend_size + (b.write_index - b.read_index) - b.reserved_prepend_size)
          (omega arith),
      le→leb len (b.capacity - (b.reserved_prepend_size + (b.write_index - b.read_index)))
          (omega arith),
    )

  -- Room is made by one of the two branches, whenever there is too little.
  pub grow-Makes :
      b.capacity - b.write_index < len
      → b.capacity + b.capacity + len < size_mod
      → (b' : Buffer) × (grow len b ≡ some b') × Makes len b b'
  unfolding grow prependable_bytes
  grow-Makes short fit =
      rw
        (
          writable_bytes_lem b v,
          add_size_lem (b.capacity - b.write_index) b.read_index (omega arith),
          add_size_lem len b.reserved_prepend_size (omega arith),
        )
        (elim (dec_lt (b.capacity - b.write_index + b.read_index) (len + b.reserved_prepend_size)) [
          | yes tight ↦
              rw (lt→ltb _ _ tight) (reallocated, reallocate_lem fit, reallocated-Makes fit tight)
          | no loose ↦
              let l : len + b.reserved_prepend_size ≤ b.capacity - b.write_index + b.read_index =
                omega arith in
              rw (le→ltb_false _ _ l) (compacted, compact_lem short l, compacted-Makes short l)
        ])

  -- EnsureWritableBytes: for every `len`, room for `len` bytes, and its own assert holds.
  pub ensure-Makes :
      b.capacity + b.capacity + len < size_mod
      → (b' : Buffer) × (ensure_writable_bytes len b ≡ some b') × Makes len b b'
  unfolding ensure_writable_bytes
  ensure-Makes fit = elim (dec_lt (b.capacity - b.write_index) len) [
    | yes short ↦
        let (b', run, m) = grow-Makes short fit in
        (
          b',
          rw (
            writable_bytes_lem b v,
            lt→ltb _ _ short,
            run,
            writable_bytes_lem b' m.valid,
            le→leb _ _ m.room,
          ),
          m,
        )
    | no wide ↦
        let l : len ≤ b.capacity - b.write_index = omega arith in
        (
          b,
          rw (writable_bytes_lem b v, le→ltb_false _ _ l, writable_bytes_lem b v, le→leb _ _ l),
          record { valid = v; same = refl; room = l; prefix = refl; thrift = inl refl },
        )
  ]

-- Reserve never fails and keeps the unread bytes; afterwards the storage has `len` bytes beside the
-- reserved ones, and it is replaced only if it had fewer. The size of a new block must not wrap.
pub reserve_lem :
    ⦃h : Allocator⦄ (len : ℕ) (b : Buffer)
    → IsValid b
    → b.capacity + b.capacity + (len + b.reserved_prepend_size) < size_mod
    → (b' : Buffer) × (reserve len b ≡ some b')
      × IsValid b'
      × (contents b' ≡ contents b)
      × (len + b.reserved_prepend_size ≤ b'.capacity)
      × ((b' ≡ b) ⊎ (b.capacity < len + b.reserved_prepend_size))
unfolding reserve
reserve_lem len b v fit = elim (dec_le (len + b.reserved_prepend_size) b.capacity) [
  | yes wide ↦ (
    b,
    rw (add_size_lem len b.reserved_prepend_size (omega arith), le→leb _ _ wide),
    v,
    refl,
    wide,
    inl refl,
  )
  | no tight ↦
      let (b', run, m) = grow-Makes (len + b.reserved_prepend_size) b v (omega arith) fit in
      (
        b',
        rw
            (
              add_size_lem len b.reserved_prepend_size (omega arith),
              lt→leb_false (len + b.reserved_prepend_size) b.capacity (omega arith),
            )
            run,
        m.valid,
        m.same,
        omega (arith, m.room),
        inr (omega arith),
      )
]
