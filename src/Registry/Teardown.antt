-- ===== src/Registry/Teardown.antt =====
-- The end of an event loop: ~EventLoop and ~TimerQueue, and the channels that they own.
use evk.Prelude.{
  ℕ, Option, some, none, ◌>>=◌, ◌>>◌, ◌≡◌, refl, ap, ◌∙◌, require, true, false, ◌==◌, eq→==,
  Bool-cases, inl, inr,
}
use evk.Assoc.{find}
use evk.Channel.{disable_all}
use evk.EPoller.{added}
use evk.ServerStatus.{Status, is_stopped}
use evk.Registry.{Epoll, Registry, Act, disables_all, mask_behind, act, remove, destroy_channel}
use evk.Registry.InStep.{InStep, is_added, is_free, free_at}
use evk.Registry.Commands.{Acts, act-Acts, remove-Removes}

module _ {K : Type 0} (e : Epoll K) (fd : ℕ → ℕ) where
  -- `~EventLoop` and its members up to `timer_queue_`, where `wakeup` and `timer` are the channels of
  -- the eventfd and of the timerfd.
  unfoldable pub close_loop : Status → ℕ → ℕ → Registry K → Option (Registry K)
  close_loop status wakeup timer r = do
    require (is_stopped status)
    r1 ← act e fd disables_all wakeup r
    r2 ← act e fd disables_all timer r1
    r3 ← remove e fd timer r2
    destroy_channel e fd timer r3

  -- The same with `wakeup_channel_`.
  unfoldable pub destroy_loop : Status → ℕ → ℕ → Registry K → Option (Registry K)
  destroy_loop status wakeup timer r = do
    r3 ← close_loop status wakeup timer r
    destroy_channel e fd wakeup r3

  pub still_free :
      (c : ℕ) (r : Registry K)
      → InStep e fd r
      → r.index c ≡ added
      → is_free c (find (fd c) r.channel_map) ≡ true
  still_free c r i h = free_at c (find (fd c) r.channel_map) (i.named c ∙ ap is_added h)

  pub still_added :
      (a : Act) (c x : ℕ) (r r' : Registry K)
      → Acts e fd a c r r'
      → r.index x ≡ added
      → r'.index x ≡ added
  still_added a c x r r' k h =
      ap (λ f. f x) k.index
      ∙ elim (Bool-cases (x == c)) [ inl same ↦ rw same refl | inr d ↦ rw d h ]

  closes :
      (status : Status) (wakeup timer : ℕ) (r r1 r2 r3 : Registry K)
      → is_stopped status ≡ true
      → act e fd disables_all wakeup r ≡ some r1
      → act e fd disables_all timer r1 ≡ some r2
      → remove e fd timer r2 ≡ some r3
      → r3.added_to_loop timer ≡ false
      → close_loop status wakeup timer r ≡ some r3
  unfolding close_loop destroy_channel
  closes status wakeup timer r r1 r2 r3 stopped a b c d = rw (stopped, a, b, c, d) refl

  stops :
      (status : Status) (wakeup timer : ℕ) (r r3 : Registry K)
      → close_loop status wakeup timer r ≡ some r3
      → r3.added_to_loop wakeup ≡ true
      → destroy_loop status wakeup timer r ≡ none
  unfolding destroy_loop destroy_channel
  stops status wakeup timer r r3 a b = rw (a, b) refl

  -- The destructor of a stopped event loop, whose channels are in step with epoll and which has
  -- registered the channels of the eventfd and of the timerfd, disables and removes the timer's
  -- channel, and comes as far as the channel of the eventfd, whose Remove it does not call: there the
  -- assert of ~Channel fails.
  pub destroy_loop_fails :
      (status : Status) (wakeup timer : ℕ) (r : Registry K)
      → is_stopped status ≡ true
      → InStep e fd r
      → r.index wakeup ≡ added
      → r.index timer ≡ added
      → (wakeup == timer) ≡ false
      → (r' : Registry K) × (close_loop status wakeup timer r ≡ some r')
        × InStep e fd r'
        × (destroy_loop status wakeup timer r ≡ none)
  destroy_loop_fails status wakeup timer r stopped i w t d =
      let (r1, a1) = act-Acts e fd disables_all wakeup r i (still_free wakeup r i w) in
      let t1 = still_added disables_all wakeup timer r r1 a1 t in
      let (r2, a2) = act-Acts e fd disables_all timer r1 a1.inv (still_free timer r1 a1.inv t1) in
      let t2 = still_added disables_all timer timer r1 r2 a2 t1 in
      let w2 =
        still_added disables_all timer wakeup r1 r2 a2
          (still_added disables_all wakeup wakeup r r1 a1 w) in
      let quiet : r2.events timer ≡ 0 =
        ap (λ f. f timer) a2.events
        ∙ rw (eq→== timer timer refl) (unfold mask_behind disable_all in refl) in
      let (r3, a3) = remove-Removes e fd timer r2 a2.inv t2 quiet in
      let left : r3.added_to_loop timer ≡ false =
        ap (λ f. f timer) a3.forgotten ∙ rw (eq→== timer timer refl) refl in
      let stays : r3.added_to_loop wakeup ≡ true =
        a3.inv.flag wakeup ∙ ap (λ f. is_added (f wakeup)) a3.gone ∙ rw d (ap is_added w2) in
      let closed = closes status wakeup timer r r1 r2 r3 stopped a1.run a2.run a3.run left in
      (r3, closed, a3.inv, stops status wakeup timer r r3 closed stays)
