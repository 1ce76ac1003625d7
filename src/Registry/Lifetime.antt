-- ===== src/Registry/Lifetime.antt =====
-- A loop from its constructor to its destructor, whatever it does with other channels in between.
use evk.Prelude.{
  ℕ, List, some, none, ◌≡◌, refl, sym, ap, ◌∙◌, true, false, ◌==◌, eq→==, Bool-cases, inl, inr,
}
use mathlib.Core.Bool.{true≢false}
use evk.Assoc.{find}
use evk.EPoller.{added}
use evk.ServerStatus.{Status, is_stopped}
use evk.Registry.{Epoll, Registry, enables_read, open_loop}
use evk.Registry.InStep.{InStep, is_free, the_same}
use evk.Registry.Commands.{act-Acts}
use evk.Registry.Sequence.{Command, spares, are_legal, legal_behind, run_commands, run_spares}
use evk.Registry.Teardown.{destroy_loop, destroy_loop_fails, still_added}

two : (fd : ℕ → ℕ) (x y : ℕ) → (fd x == fd y) ≡ false → (x == y) ≡ false
two fd x y d = elim (Bool-cases (x == y)) [
  | inl same ↦ absurd (true≢false (sym (eq→== (fd x) (fd y) (ap fd (the_same x y same))) ∙ d))
  | inr apart ↦ apart
]

module _ {K : Type 0} (e : Epoll K) (fd : ℕ → ℕ) where
  -- What the constructor leaves.
  record Opens (wakeup timer : ℕ) (r r1 : Registry K) : Type 0 where
    run : open_loop e fd wakeup timer r ≡ some r1
    inv : InStep e fd r1
    wakeup_added : r1.index wakeup ≡ added
    timer_added : r1.index timer ≡ added

  opens :
      (wakeup timer : ℕ) (r : Registry K)
      → InStep e fd r
      → is_free wakeup (find (fd wakeup) r.channel_map) ≡ true
      → is_free timer (find (fd timer) r.channel_map) ≡ true
      → (fd wakeup == fd timer) ≡ false
      → (r1 : Registry K) × Opens wakeup timer r r1
  unfolding open_loop
  opens wakeup timer r i free free' d =
      let (r0, a) = act-Acts e fd enables_read timer r i free' in
      let still : is_free wakeup (find (fd wakeup) r0.channel_map) ≡ true =
        ap (is_free wakeup) (a.found (fd wakeup)) ∙ rw d free in
      let (r1, b) = act-Acts e fd enables_read wakeup r0 a.inv still in
      let up : r0.index timer ≡ added =
        ap (λ f. f timer) a.index ∙ rw (eq→== timer timer refl) refl in
      (
        r1,
        record {
          run = rw a.run b.run;
          inv = b.inv;
          wakeup_added = ap (λ f. f wakeup) b.index ∙ rw (eq→== wakeup wakeup refl) refl;
          timer_added = still_added e fd enables_read wakeup timer r0 r1 b up;
        },
      )

  -- From a state of the channels in step with epoll, where no other channel holds the descriptors of
  -- the two channels of a new loop, its constructor succeeds; so does any legal sequence of operations
  -- on other channels; and the destructor behind it, of the stopped loop, fails in an assert.
  pub lifetime_fails :
      (status : Status) (wakeup timer : ℕ) (xs : List Command) (r : Registry K)
      → is_stopped status ≡ true
      → InStep e fd r
      → is_free wakeup (find (fd wakeup) r.channel_map) ≡ true
      → is_free timer (find (fd timer) r.channel_map) ≡ true
      → (fd wakeup == fd timer) ≡ false
      → spares wakeup xs ≡ true
      → spares timer xs ≡ true
      → legal_behind e fd (are_legal e fd xs) (open_loop e fd wakeup timer r) ≡ true
      → (r1 : Registry K) × (r2 : Registry K) × (open_loop e fd wakeup timer r ≡ some r1)
        × (run_commands e fd xs r1 ≡ some r2)
        × InStep e fd r2
        × (destroy_loop e fd status wakeup timer r2 ≡ none)
  lifetime_fails status wakeup timer xs r stopped i free free' d s s' legal =
      let (r1, o) = opens wakeup timer r i free free' d in
      let (r2, run, inv, kept) =
        run_spares e fd xs r1 o.inv
          (sym (ap (legal_behind e fd (are_legal e fd xs)) o.run) ∙ legal) in
      let (r3, closed, _, fails) =
        destroy_loop_fails e fd status wakeup timer r2 stopped inv (kept wakeup s ∙ o.wakeup_added)
          (kept timer s' ∙ o.timer_added) (two fd wakeup timer d) in
      (r1, r2, o.run, run, inv, fails)
