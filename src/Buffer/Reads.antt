-- ===== src/Buffer/Reads.antt =====
-- The reading half of evk/buffer.h: Truncate, Reset, Skip, Retrieve, Next, NextAll, ReadByte and
-- UnreadBytes, in terms of the unread bytes.
use evk.Prelude.{
  ℕ, zero, suc, ◌+◌, ◌-◌, ◌≤◌, ◌<◌, ◌≡◌, refl, sym, ap, subst, List, [], ◌∷◌, none, some, ◌⊎◌, inl,
  inr, arith, length, take, drop, slice, get_elem?, slice_zero, take-slice, drop-slice, take_all,
  drop_all, ◌∙◌, add_size_lem, sub_size_lem, lt→ltb, le→ltb_false, lt→==_zero, lt→leb_false, le→leb,
  size_mod,
}
use native.Mathlib.Decide.{dec_lt}
use evk.Buffer.{Buffer, truncate, reset, skip, next, next_all, read_byte, unread_bytes}
use evk.Buffer.Invariant.{IsValid, contents, load_lem, size_lem, length-contents, load-contents}

-- The bytes `d` are unread in `b'`, and nothing else of `b` has changed.
pub record Leaves (d : List ℕ) (b b' : Buffer) : Type 0 where
  pub valid : IsValid b'
  pub bytes : contents b' ≡ d
  pub storage : b'.buffer ≡ b.buffer
  pub prefix : b'.reserved_prepend_size ≡ b.reserved_prepend_size

pub reset-Leaves : (b : Buffer) → IsValid b → Leaves [] b (reset b)
unfolding reset truncate
reset-Leaves b v = record {
  valid = omega arith;
  bytes =
      ap (λ n. slice b.reserved_prepend_size n b.buffer) {y = 0} (omega arith)
      ∙ slice_zero b.reserved_prepend_size b.buffer;
  storage = refl;
  prefix = refl;
}

-- Truncate(n) keeps the first n unread bytes, or all if there are no more; n must be such that
-- read_index_ + n does not wrap.
pub truncate-Leaves :
    (n : ℕ) (b : Buffer)
    → IsValid b
    → b.read_index + n < size_mod
    → Leaves (take n (contents b)) b (truncate n b)
unfolding truncate reset
truncate-Leaves zero b v fit = reset-Leaves b v
truncate-Leaves (suc n) b v fit = elim (dec_lt (b.read_index + suc n) b.write_index) [
  | yes h ↦
      rw (lt→==_zero (suc n) (omega arith), add_size_lem b.read_index (suc n) fit, lt→ltb _ _ h)
        (record {
          valid = omega arith;
          bytes =
              ap (λ k. slice b.read_index k b.buffer) (omega arith)
              ∙ sym (
                  take-slice (suc n) b.read_index (b.write_index - b.read_index) b.buffer
                    (omega arith));
          storage = refl;
          prefix = refl;
        })
  | no h ↦
      rw
        (
          lt→==_zero (suc n) (omega arith),
          add_size_lem b.read_index (suc n) fit,
          le→ltb_false (b.read_index + suc n) b.write_index (omega arith),
        )
        (record {
          valid = v;
          bytes = sym (take_all (suc n) (contents b) (omega (arith, length-contents b v)));
          storage = refl;
          prefix = refl;
        })
]

advanced : ℕ → Buffer → Buffer
advanced n b = record b { read_index = b.read_index + n }

advanced-Leaves :
    (n : ℕ) (b : Buffer)
    → IsValid b
    → n ≤ length (contents b)
    → Leaves (drop n (contents b)) b (advanced n b)
unfolding advanced
advanced-Leaves n b v fit = record {
  valid = omega (arith, length-contents b v);
  bytes = sym (
      drop-slice n b.read_index (b.write_index - (b.read_index + n)) (b.write_index - b.read_index)
        (b.read_index + n) b.buffer (omega (arith, length-contents b v)) refl);
  storage = refl;
  prefix = refl;
}

-- Skip(len) and Retrieve(len) drop the first `len` unread bytes, or all if there are no more.
pub skip-Leaves :
    (n : ℕ) (b : Buffer)
    → IsValid b
    → (b' : Buffer) × (skip n b ≡ some b') × Leaves (drop n (contents b)) b b'
unfolding skip
skip-Leaves n b v = elim (dec_lt n (b.write_index - b.read_index)) [
  | yes h ↦ (
    advanced n b,
    unfold advanced in rw (size_lem b v, lt→ltb _ _ h, add_size_lem b.read_index n (omega arith)),
    advanced-Leaves n b v (omega (arith, length-contents b v)),
  )
  | no h ↦
      let e : drop n (contents b) ≡ [] =
        drop_all n (contents b) (omega (arith, length-contents b v)) in
      (
        reset b,
        rw (size_lem b v, le→ltb_false n (b.write_index - b.read_index) (omega arith)),
        rw e (reset-Leaves b v),
      )
]

pub next_all-Leaves :
    (b : Buffer) → IsValid b → (next_all b ≡ some (contents b, reset b)) × Leaves [] b (reset b)
unfolding next_all
next_all-Leaves b v = (rw (size_lem b v, load-contents b v), reset-Leaves b v)

-- Next(len) returns the first `len` unread bytes and drops them; if there are fewer it returns and
-- drops them all.
pub next-Leaves :
    (n : ℕ) (b : Buffer)
    → IsValid b
    → (b' : Buffer) × (next n b ≡ some (take n (contents b), b'))
      × Leaves (drop n (contents b)) b b'
unfolding next
next-Leaves n b v = elim (dec_lt n (b.write_index - b.read_index)) [
  | yes h ↦ (
    advanced n b,
    unfold advanced in
        rw (
          size_lem b v,
          lt→ltb _ _ h,
          load_lem b.buffer b.read_index n (omega arith),
          add_size_lem b.read_index n (omega arith),
          take-slice n b.read_index (b.write_index - b.read_index) b.buffer (omega arith),
        ),
    advanced-Leaves n b v (omega (arith, length-contents b v)),
  )
  | no h ↦
      let l : length (contents b) ≤ n = omega (arith, length-contents b v) in
      (
        reset b,
        rw
            (
              size_lem b v,
              le→ltb_false n (b.write_index - b.read_index) (omega arith),
              take_all n (contents b) l,
            )
            (next_all-Leaves b v).0,
        rw (drop_all n (contents b) l) (reset-Leaves b v),
      )
]

get_elem?-slice :
    {A : Type 0} (i n : ℕ) (xs : List A) {x : A} {r : List A}
    → slice i n xs ≡ x ∷ r
    → get_elem? xs i ≡ some x
get_elem?-slice zero zero xs e = cc
get_elem?-slice zero (suc n) [] e = cc
get_elem?-slice zero (suc n) (y ∷ xs) e = cc
get_elem?-slice (suc i) n [] e = cc
get_elem?-slice (suc i) n (y ∷ xs) e = get_elem?-slice i n xs e

-- ReadByte returns the first unread byte and drops it. Its assert stops it on an empty buffer,
-- before the test that would return '\0'.
pub read_byte-Leaves :
    (b : Buffer)
    → IsValid b
    → ((contents b ≡ []) × (read_byte b ≡ none))
      ⊎ ((c : ℕ) × (cs : List ℕ) × (b' : Buffer) × (contents b ≡ c ∷ cs)
          × (read_byte b ≡ some (c, b'))
          × Leaves cs b b')
unfolding read_byte
read_byte-Leaves b v = go (contents b) refl
  where
    go :
        (d : List ℕ)
        → contents b ≡ d
        → ((contents b ≡ []) × (read_byte b ≡ none))
          ⊎ ((c : ℕ) × (cs : List ℕ) × (b' : Buffer) × (contents b ≡ c ∷ cs)
              × (read_byte b ≡ some (c, b'))
              × Leaves cs b b')
    go [] e = inl (
      e,
      rw (
        size_lem b v,
        lt→leb_false 1 (b.write_index - b.read_index)
            (omega (arith, ap length e, length-contents b v)),
      ),
    )
    go (c ∷ cs) e =
        let l : 1 ≤ b.write_index - b.read_index =
          omega (arith, ap length e, length-contents b v) in
        inr (
          c,
          cs,
          advanced 1 b,
          e,
          unfold advanced in
              rw (
                size_lem b v,
                le→leb 1 (b.write_index - b.read_index) l,
                lt→==_zero (b.write_index - b.read_index) l,
                get_elem?-slice b.read_index (b.write_index - b.read_index) b.buffer e,
                add_size_lem b.read_index 1 (omega arith),
              ),
          subst (λ d. Leaves d b (advanced 1 b)) (ap (drop 1) e)
              (advanced-Leaves 1 b v (omega (arith, ap length e))),
        )

-- UnreadBytes takes back a Next or Skip that left bytes behind, if there were bytes before.
pub unread_bytes-next :
    (n : ℕ) (b : Buffer)
    → IsValid b
    → n < length (contents b)
    → 0 < b.read_index
    → (b' : Buffer) × (next n b ≡ some (take n (contents b), b')) × (unread_bytes n b' ≡ some b)
unfolding unread_bytes
unread_bytes-next n b v h pos = (
  advanced n b,
  unfold advanced next in
      rw (
        size_lem b v,
        lt→ltb n (b.write_index - b.read_index) (omega (arith, length-contents b v)),
        load_lem b.buffer b.read_index n (omega (arith, length-contents b v)),
        add_size_lem b.read_index n (omega (arith, length-contents b v)),
        take-slice n b.read_index (b.write_index - b.read_index) b.buffer
            (omega (arith, length-contents b v)),
      ),
  unfold advanced in
      rw
        (
          lt→ltb n (b.read_index + n) (omega arith),
          sub_size_lem (b.read_index + n) n (omega (arith, length-contents b v)) (omega arith),
        )
        (ap (λ i. some (record b { read_index = i })) (omega arith)),
)
