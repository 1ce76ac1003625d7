-- ===== src/TimerQueue/Timespec.antt =====
-- howlongtimefromnow: the timespec that the timerfd is set to.
use evk.Prelude.{
  ℕ, ◌+◌, ◌*◌, ◌<◌, ◌≡◌, refl, ap, arith, suc, lt→ltb, ◌/◌, ◌%◌, Bool-cases, inl, inr,
  if◌then◌else◌,
}
use evk.Prelude.Int.{ℤ, pos, negsuc, ltb_ℤ, ◌-ℤ◌, quot_ℤ, rem_ℤ}
use evk.Duration.{nanoseconds}
use evk.Timestamp.{Timestamp, since}
use evk.TimerQueue.{how_long}

-- The time that a timer is set to is a timespec that timerfd_settime takes, and not the zero that
-- would disarm it: no field is negative, the nanoseconds are less than a second, and together they are
-- the time until `when`, or 100 microseconds if that is less.
pub how_long_lem :
    (when now : Timestamp)
    → (sec : ℕ) × (nsec : ℕ) × ((how_long when now).0 ≡ pos sec)
      × ((how_long when now).1 ≡ pos nsec)
      × (nsec < 1000000000)
      × (0 < sec + nsec)
      × (pos (sec * 1000000000 + nsec)
          ≡ (if ltb_ℤ (when.ns -ℤ now.ns) (pos 100000) then pos 100000 else when.ns -ℤ now.ns))
unfolding how_long nanoseconds since
how_long_lem when now = go (when.ns -ℤ now.ns)
  where
    go :
        (z : ℤ)
        → (sec : ℕ) × (nsec : ℕ) × (quot_ℤ
              (if ltb_ℤ z (pos 100000) then pos 100000 else z)
              1000000000
            ≡ pos sec)
          × (rem_ℤ (if ltb_ℤ z (pos 100000) then pos 100000 else z) 1000000000 ≡ pos nsec)
          × (nsec < 1000000000)
          × (0 < sec + nsec)
          × (pos (sec * 1000000000 + nsec) ≡ (if ltb_ℤ z (pos 100000) then pos 100000 else z))
    go (pos n) = elim (Bool-cases (ltb_ℤ (pos n) (pos 100000))) [
      | inl h ↦ rw h (0, 100000, refl, refl, omega arith, omega arith, refl)
      | inr h ↦ rw h (
        n / 1000000000,
        n % 1000000000,
        refl,
        refl,
        omega arith,
        ground (arith, h),
        ap pos (omega arith),
      )
    ]
    go (negsuc n) =
        rw (lt→ltb 0 (100000 + suc n) (omega arith))
          (0, 100000, refl, refl, omega arith, omega arith, refl)
