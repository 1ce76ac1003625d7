-- ===== src/Registry/Commands.antt =====
-- The operations of a channel, one by one and in any sequence.
use evk.Prelude.{
  ℕ, List, [], ◌∷◌, Option, some, none, ◌≡◌, refl, sym, ap, ◌∙◌, true, false, ◌==◌, eq→==,
  if◌then◌else◌, arith,
}
use mathlib.Core.Bool.{false≢true, true≢false}
use evk.Assoc.{find, is_at}
use evk.Channel.{is_none_event}
use evk.EPoller.{
  Index, new, added, deleted, Operation, delete, update_channel, remove_channel, deletes, is_new,
}
use evk.EPoller.Sync.{Fits, operation, update_channel_lem, remove_channel_lem}
use evk.Registry.{
  Epoll, Registry, Act, set_at, mask_behind, polled, update, act, delete_all, remove,
}
use evk.Registry.InStep.{InStep, is_added, watched, is_free, added-InStep, removed-InStep}

found_at : (c : ℕ) (o : Option ℕ) → is_at c o ≡ true → o ≡ some c
unfolding is_at
found_at c none h = absurd (false≢true h)
found_at c (some x) h = ap some (ground (arith, h))

absent_at : (c : ℕ) (o : Option ℕ) → is_free c o ≡ true → is_at c o ≡ false → o ≡ none
unfolding is_at
absent_at c none h n = refl
absent_at c (some x) h n = absurd (true≢false (sym h ∙ n))

module _ {K : Type 0} (e : Epoll K) (fd : ℕ → ℕ) where
  -- What an operation on the mask of `c` leaves.
  pub record Acts (a : Act) (c : ℕ) (r r' : Registry K) : Type 0 where
    pub run : act e fd a c r ≡ some r'
    pub inv : InStep e fd r'
    pub events : r'.events ≡ set_at c (mask_behind a (r.events c)) r.events
    pub index : r'.index ≡ set_at c added r.index
    pub found :
        (f : ℕ) → find f r'.channel_map ≡ (if f == fd c then some c else find f r.channel_map)

  -- UpdateChannel fits the map, and epoll_ctl succeeds.
  record Able (c mask : ℕ) (idx : Index) (r : Registry K) : Type 0 where
    fits : Fits idx c (fd c) r.channel_map
    kernel : K
    run : e.epoll_ctl (operation idx) (fd c) c mask r.kernel ≡ some kernel
    watches :
        (f : ℕ)
        → e.interest kernel f ≡ (if f == fd c then some (c, mask) else e.interest r.kernel f)

  prepare :
      (c mask : ℕ) (idx : Index) (r : Registry K)
      → InStep e fd r
      → is_free c (find (fd c) r.channel_map) ≡ true
      → is_at c (find (fd c) r.channel_map) ≡ is_added idx
      → idx ≡ (if is_added idx then added else new)
      → Able c mask idx r
  prepare c mask new r i free named known =
      let gone = absent_at c (find (fd c) r.channel_map) free named in
      let (k, run, law) =
        e.add_absent (fd c) c mask r.kernel (i.interest (fd c) ∙ ap (watched r.events) gone) in
      record { fits = gone; kernel = k; run = run; watches = law }
  prepare c mask added r i free named known =
      let here = found_at c (find (fd c) r.channel_map) named in
      let (k, run, law) =
        e.modify_present (fd c) c mask r.kernel (c, r.events c)
          (i.interest (fd c) ∙ ap (watched r.events) here) in
      record { fits = here; kernel = k; run = run; watches = law }
  prepare c mask deleted r i free named known = cc

  runs_update :
      (a : Act) (c : ℕ) (r : Registry K) (idx : Index) (map : List (ℕ × ℕ)) (op : Operation) (k : K)
      → update_channel true
          (record {
            channel = c;
            fd = fd c;
            events = mask_behind a (r.events c);
            index = r.index c;
          })
          r.channel_map
        ≡ some (idx, map, op)
      → e.epoll_ctl op (fd c) c (mask_behind a (r.events c)) r.kernel ≡ some k
      → act e fd a c r
        ≡ some (record {
          events = set_at c (mask_behind a (r.events c)) r.events;
          index = set_at c idx r.index;
          added_to_loop = set_at c true r.added_to_loop;
          channel_map = map;
          kernel = k;
        })
  unfolding act update
  runs_update a c r idx map op k u h = rw (eq→== c c refl) (rw (u, h) refl)

  -- An operation on the mask of a channel, at whose descriptor no other is in the map: no assert
  -- fails, epoll_ctl succeeds, and all is in step again.
  pub act-Acts :
      (a : Act) (c : ℕ) (r : Registry K)
      → InStep e fd r
      → is_free c (find (fd c) r.channel_map) ≡ true
      → (r' : Registry K) × Acts a c r r'
  act-Acts a c r i free =
      let mask = mask_behind a (r.events c) in
      let ready = prepare c mask (r.index c) r i free (i.named c) (i.known c) in
      let (map, u, found) =
        update_channel_lem (record { channel = c; fd = fd c; events = mask; index = r.index c })
          r.channel_map ready.fits in
      (
        _,
        record {
          run = runs_update a c r added map (operation (r.index c)) ready.kernel u ready.run;
          inv = added-InStep e fd r i c map ready.kernel mask free found ready.watches;
          events = refl;
          index = refl;
          found = found;
        },
      )

  -- What Remove of `c` leaves.
  pub record Removes (c : ℕ) (r r' : Registry K) : Type 0 where
    pub run : remove e fd c r ≡ some r'
    pub inv : InStep e fd r'
    pub gone : r'.index ≡ set_at c new r.index
    pub forgotten : r'.added_to_loop ≡ set_at c false r.added_to_loop

  runs_remove :
      (c : ℕ) (r : Registry K) (map : List (ℕ × ℕ)) (k : K)
      → r.events c ≡ 0
      → remove_channel (polled e fd c r) r.channel_map ≡ some (new, map, delete ∷ [])
      → e.epoll_ctl delete (fd c) c (r.events c) r.kernel ≡ some k
      → remove e fd c r
        ≡ some (record {
          events = r.events;
          index = set_at c new r.index;
          added_to_loop = set_at c false r.added_to_loop;
          channel_map = map;
          kernel = k;
        })
  unfolding remove delete_all is_none_event
  runs_remove c r map k quiet u h = rw (u, h) (rw quiet refl)

  -- Remove of a channel that is in the map and whose mask is empty: no assert fails, epoll_ctl
  -- succeeds, and all is in step again.
  pub remove-Removes :
      (c : ℕ) (r : Registry K)
      → InStep e fd r
      → r.index c ≡ added
      → r.events c ≡ 0
      → (r' : Registry K) × Removes c r r'
  remove-Removes c r i known quiet =
      let at_c : is_at c (find (fd c) r.channel_map) ≡ true = i.named c ∙ ap is_added known in
      let here = found_at c (find (fd c) r.channel_map) at_c in
      let (k, run, law) =
        e.delete_present (fd c) c (r.events c) r.kernel (c, r.events c)
          (i.interest (fd c) ∙ ap (watched r.events) here) in
      let old : is_new (r.index c) ≡ false = ap is_new known ∙ unfold is_new in refl in
      let deletion : deletes (r.index c) ≡ delete ∷ [] =
        ap deletes known ∙ unfold deletes in refl in
      let (map, u, found) = remove_channel_lem (polled e fd c r) r.channel_map here old quiet in
      (
        _,
        record {
          run = runs_remove c r map k quiet (u ∙ ap (λ ops. some (new, map, ops)) deletion) run;
          inv = removed-InStep e fd r i c map k at_c found law;
          gone = refl;
          forgotten = refl;
        },
      )
