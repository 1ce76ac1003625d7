-- ===== src/TimerQueue/Keys.antt =====
-- The orders of the two sets: by expiration and address, and by address and sequence number.
use evk.Prelude.{ℕ, ◌≡◌, ap, ap₂, Bool, true, false, not, ◌&&◌, ◌||◌, arith, ltb, ◌==◌}
use evk.Prelude.Int.{eq_of_parts}
use evk.Timestamp.{Timestamp, lt}
use evk.SortedSet.{Order, same}

abbrev pub Entry : Type 0
Entry = Timestamp × ℕ

abbrev pub ActiveTimer : Type 0
ActiveTimer = ℕ × ℕ

unfoldable pub entry_lt : Entry → Entry → Bool
entry_lt (t, p) (u, q) = lt t u || (not (lt u t) && ltb p q)

unfoldable pub active_lt : ActiveTimer → ActiveTimer → Bool
active_lt (p, s) (q, r) = ltb p q || (not (ltb q p) && ltb s r)

pub entry_irrefl : (a : Entry) → entry_lt a a ≡ false
unfolding entry_lt lt
entry_irrefl (t, p) = ground arith

pub entry_trans : (a b c : Entry) → entry_lt a b ≡ true → entry_lt b c ≡ true → entry_lt a c ≡ true
unfolding entry_lt lt
entry_trans (t, p) (u, q) (v, r) h g = ground (arith, h, g)

pub same_point : (t u : Timestamp) → lt t u ≡ false → lt u t ≡ false → t ≡ u
unfolding lt
same_point t u h g = ap (λ z. record { ns = z }) (eq_of_parts t.ns u.ns (ground (arith, h, g)))

pub entry_total : (a b : Entry) → entry_lt a b ≡ false → entry_lt b a ≡ false → a ≡ b
unfolding entry_lt
entry_total (t, p) (u, q) h g =
    ap₂ (λ v r. (v, r)) (same_point t u (ground (arith, h)) (ground (arith, g)))
      (ground (arith, h, g))

pub active_irrefl : (a : ActiveTimer) → active_lt a a ≡ false
unfolding active_lt
active_irrefl (p, s) = ground arith

pub active_trans :
    (a b c : ActiveTimer) → active_lt a b ≡ true → active_lt b c ≡ true → active_lt a c ≡ true
unfolding active_lt
active_trans (p, s) (q, r) (k, n) h g = ground (arith, h, g)

pub active_total : (a b : ActiveTimer) → active_lt a b ≡ false → active_lt b a ≡ false → a ≡ b
unfolding active_lt
active_total (p, s) (q, r) h g = ap₂ (λ v r. (v, r)) (ground (arith, h, g)) (ground (arith, h, g))

instance unfoldable pub entry_order : Order Entry
entry_order = record {
  lt = entry_lt;
  irrefl = entry_irrefl;
  trans = entry_trans;
  total = entry_total;
}

instance unfoldable pub active_order : Order ActiveTimer
active_order = record {
  lt = active_lt;
  irrefl = active_irrefl;
  trans = active_trans;
  total = active_total;
}

-- Neither point comes before the other.
abbrev pub same_time : Timestamp → Timestamp → Bool
same_time t u = not (lt t u) && not (lt u t)

pub same_entry :
    (t u : Timestamp) (p q : ℕ) → same ⦃o = entry_order⦄ (t, p) (u, q) ≡ ((p == q) && same_time t u)
unfolding entry_order entry_lt
same_entry t u p q = ground arith

pub same_active : (p q s r : ℕ) → same ⦃o = active_order⦄ (p, s) (q, r) ≡ ((p == q) && (s == r))
unfolding active_order active_lt
same_active p q s r = ground arith

pub same_time_refl : (t : Timestamp) → same_time t t ≡ true
unfolding lt
same_time_refl t = ground arith

pub same_time-eq : (t u : Timestamp) → same_time t u ≡ true → t ≡ u
same_time-eq t u h = same_point t u (ground (arith, h)) (ground (arith, h))
