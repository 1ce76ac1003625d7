-- ===== src/Buffer/Find.antt =====
-- Buffer::FindCRLF and FindEOL: std::search for "\r\n" and memchr for '\n' over the unread bytes.
-- A pointer that is returned is the number of bytes before it; `none` is nullptr.
use evk.Prelude.{
  ℕ, zero, suc, eq→==, lt→==_false, ◌≢◌, ◌+◌, ◌-◌, ◌≤◌, ◌<◌, ◌≡◌, refl, sym, ap, ap₂, ◌∙◌, List, [],
  ◌∷◌, ◌++◌, Option, some, none, ◌⊎◌, inl, inr, Bool, true, false, ◌&&◌, ◌==◌, if◌then◌else◌, ◌>>=◌,
  ◌>>◌, require, arith, length, drop, leb, le→leb, drop-slice, Bool-cases,
}
use evk.Buffer.{Buffer, size, load}
use evk.Buffer.Invariant.{IsValid, contents, length-contents, size_lem, load_lem}

abbrev pub crlf : List ℕ
crlf = 13 ∷ 10 ∷ []

-- Whether the bytes begin with a pattern.
unfoldable pub begins : List ℕ → List ℕ → Bool
begins [] xs = true
begins (p ∷ ps) [] = false
begins (p ∷ ps) (x ∷ xs) = (p == x) && begins ps xs

-- std::search: the first place where the pattern stands, and the end if there is none.
unfoldable pub search_for : List ℕ → List ℕ → ℕ
search_for p [] = 0
search_for p (x ∷ xs) = let rest = suc (search_for p xs) in if begins p (x ∷ xs) then 0 else rest

-- memchr
unfoldable pub memchr : ℕ → List ℕ → Option ℕ
memchr c [] = none
memchr c (x ∷ xs) =
    let rest : Option ℕ = elim (memchr c xs) [ none ↦ none | some i ↦ some (suc i) ] in
    if c == x then some 0 else rest

-- `FindCRLF(start)`, with `start` as its distance from data(); `FindCRLF()` is that at 0.
unfoldable pub find_crlf : ℕ → Buffer → Option (Option ℕ)
find_crlf start b = do
  n ← size b
  require (leb start n)
  bytes ← load b.buffer (b.read_index + start) (n - start)
  let at = search_for crlf bytes
  some (if at == length bytes then none else some (start + at))

-- `FindEOL(start)` and `FindEOL()`
unfoldable pub find_eol : ℕ → Buffer → Option (Option ℕ)
find_eol start b = do
  n ← size b
  require (leb start n)
  bytes ← load b.buffer (b.read_index + start) (n - start)
  some (elim (memchr 10 bytes) [ none ↦ none | some i ↦ some (start + i) ])

-- The pattern stands at place i, and at none before it.
pub record FirstAt (p : List ℕ) (i : ℕ) (xs : List ℕ) : Type 0 where
  pub rest : List ℕ
  pub here : drop i xs ≡ p ++ rest
  pub first : (j : ℕ) (s : List ℕ) → j < i → drop j xs ≢ p ++ s

-- The pattern stands nowhere in the bytes.
abbrev pub Absent : List ℕ → List ℕ → Type 0
Absent p xs = (j : ℕ) (s : List ℕ) → j < length xs → drop j xs ≢ p ++ s

begins-true : (p xs : List ℕ) → begins p xs ≡ true → (r : List ℕ) × (xs ≡ p ++ r)
unfolding begins
begins-true [] xs h = (xs, refl)
begins-true (c ∷ p) [] h = cc
begins-true (c ∷ p) (x ∷ xs) h =
    let (r, e) = begins-true p xs (ground arith) in (r, ap₂ ◌∷◌ (ground arith) e)

begins-append : (p r : List ℕ) → begins p (p ++ r) ≡ true
unfolding begins
begins-append [] r = refl
begins-append (c ∷ p) r = rw (eq→== c c refl) (begins-append p r)

misses : (p xs s : List ℕ) → begins p xs ≡ false → xs ≢ p ++ s
misses p xs s h e = cc (sym h ∙ ap (begins p) e ∙ begins-append p s)

FirstAt-cons :
    (p : List ℕ) (x : ℕ) (xs : List ℕ) (i : ℕ)
    → begins p (x ∷ xs) ≡ false
    → FirstAt p i xs
    → FirstAt p (suc i) (x ∷ xs)
FirstAt-cons p x xs i miss f = record { rest = f.rest; here = f.here; first = first }
  where
    first : (j : ℕ) (s : List ℕ) → j < suc i → drop j (x ∷ xs) ≢ p ++ s
    first zero s h e = misses p (x ∷ xs) s miss e
    first (suc j) s h e = f.first j s (omega arith) e

Absent-cons :
    (p : List ℕ) (x : ℕ) (xs : List ℕ) → begins p (x ∷ xs) ≡ false → Absent p xs → Absent p (x ∷ xs)
Absent-cons p x xs miss a zero s h e = misses p (x ∷ xs) s miss e
Absent-cons p x xs miss a (suc j) s h e = a j s (omega arith) e

search_for-cases :
    (p xs : List ℕ)
    → ((search_for p xs ≡ length xs) × Absent p xs)
      ⊎ ((search_for p xs < length xs) × FirstAt p (search_for p xs) xs)
unfolding search_for
search_for-cases p [] = inl (refl, λ j s h e. absurd (omega arith))
search_for-cases p (x ∷ xs) = elim (Bool-cases (begins p (x ∷ xs))) [
  | inl here ↦
      let (r, e) = begins-true p (x ∷ xs) here in
      rw here
        (inr (omega arith, record { rest = r; here = e; first = λ j s h q. absurd (omega arith) }))
  | inr miss ↦ rw miss (elim (search_for-cases p xs) [
    | inl (e, n) ↦ inl (ap suc e, Absent-cons p x xs miss n)
    | inr (l, f) ↦ inr (omega (arith, l), FirstAt-cons p x xs (search_for p xs) miss f)
  ])
]

-- memchr is the search for a pattern of one byte.
memchr-cases :
    (c : ℕ) (xs : List ℕ)
    → ((memchr c xs ≡ none) × Absent (c ∷ []) xs)
      ⊎ ((i : ℕ) × (memchr c xs ≡ some i) × FirstAt (c ∷ []) i xs)
unfolding memchr
memchr-cases c [] = inl (refl, λ j s h e. absurd (omega arith))
memchr-cases c (x ∷ xs) = elim (Bool-cases (c == x)) [
  | inl here ↦ rw here (
      inr (
        0,
        refl,
        record { rest = xs; here = ground arith; first = λ j s h q. absurd (omega arith) },
      ))
  | inr differs ↦
      let miss : begins (c ∷ []) (x ∷ xs) ≡ false = unfold begins in rw differs in
      rw differs (elim (memchr-cases c xs) [
        | inl (e, n) ↦ inl (rw e, Absent-cons (c ∷ []) x xs miss n)
        | inr (i, e, f) ↦ inr (suc i, rw e, FirstAt-cons (c ∷ []) x xs i miss f)
      ])
]

-- What a search from `start` on found: the first place of the pattern, or that there is none.
abbrev pub Found : List ℕ → ℕ → List ℕ → Option (Option ℕ) → Type 0
Found p start d r =
    ((r ≡ some none) × Absent p (drop start d))
    ⊎ ((i : ℕ) × (r ≡ some (some (start + i))) × FirstAt p i (drop start d))

module _ (start : ℕ) (b : Buffer) (v : IsValid b) (within : start ≤ length (contents b)) where
  remaining :
      load b.buffer (b.read_index + start) (b.write_index - b.read_index - start)
      ≡ some (drop start (contents b))
  remaining =
      load_lem b.buffer (b.read_index + start) (b.write_index - b.read_index - start)
        (omega (arith, length-contents b v))
      ∙ ap some (
          sym (
            drop-slice start b.read_index (b.write_index - b.read_index - start)
              (b.write_index - b.read_index) (b.read_index + start) b.buffer
              (omega (arith, length-contents b v)) refl))

  in_range : leb start (b.write_index - b.read_index) ≡ true
  in_range = le→leb start (b.write_index - b.read_index) (omega (arith, length-contents b v))

  -- FindCRLF(start) finds the first CR LF of the unread bytes from `start` on, if there is one.
  pub find_crlf-Found : Found crlf start (contents b) (find_crlf start b)
  unfolding find_crlf
  find_crlf-Found = elim (search_for-cases crlf (drop start (contents b))) [
    | inl (e, n) ↦ inl (
      rw (
        size_lem b v,
        in_range,
        remaining,
        eq→== (search_for crlf (drop start (contents b))) (length (drop start (contents b))) e,
      ),
      n,
    )
    | inr (l, f) ↦ inr (
      search_for crlf (drop start (contents b)),
      rw (size_lem b v, in_range, remaining, lt→==_false _ _ l),
      f,
    )
  ]

  -- FindEOL(start) finds the first '\n' of the unread bytes from `start` on, if there is one.
  pub find_eol-Found : Found (10 ∷ []) start (contents b) (find_eol start b)
  unfolding find_eol
  find_eol-Found = elim (memchr-cases 10 (drop start (contents b))) [
    | inl (e, n) ↦ inl (rw (size_lem b v, in_range, remaining, e), n)
    | inr (i, e, f) ↦ inr (i, rw (size_lem b v, in_range, remaining, e), f)
  ]
