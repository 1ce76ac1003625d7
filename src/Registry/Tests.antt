-- ===== src/Registry/Tests.antt =====
-- The theorems on the channels of a loop, at an epoll instance that is a function from descriptors.
use evk.Prelude.{ℕ, List, [], ◌∷◌, Option, some, none, ◌≡◌, refl, true, false, ◌==◌, if◌then◌else◌}
use evk.Assoc.{find, is_at, erase, is_absent}
use evk.ServerStatus.{stopped, is_stopped}
use evk.Channel.{enable_read, enable_write, disable_all, is_none_event}
use evk.EPoller.{
  update_channel, has_channel, remove_channel, deletes, is_new, Operation, add, modify, delete, new,
  added,
}
use evk.Registry.{
  Epoll, Registry, set_at, act, update, remove, delete_all, open_loop, mask_behind, enables_read,
  enables_write, disables_all,
}
use evk.Registry.InStep.{InStep}
use evk.Registry.Sequence.{
  Command, is_legal, run_command, acts, removes, run_commands, are_legal, run-InStep, legal_behind,
}
use evk.Registry.Teardown.{destroy_loop}
use evk.Registry.Lifetime.{lifetime_fails}

abbrev Table : Type 0
Table = ℕ → Option (ℕ × ℕ)

abbrev if_absent : Option (ℕ × ℕ) → Table → Option Table
if_absent none k = some k
if_absent (some x) k = none

abbrev if_present : Option (ℕ × ℕ) → Table → Option Table
if_present none k = none
if_present (some x) k = some k

abbrev control : Operation → ℕ → ℕ → ℕ → Table → Option Table
control add fd c events k = if_absent (k fd) (set_at fd (some (c, events)) k)
control modify fd c events k = if_present (k fd) (set_at fd (some (c, events)) k)
control delete fd c events k = if_present (k fd) (set_at fd none k)

add_law :
    (fd c events : ℕ) (k : Table)
    → k fd ≡ none
    → (k' : Table) × (control add fd c events k ≡ some k')
      × ((f : ℕ) → k' f ≡ (if f == fd then some (c, events) else k f))
add_law fd c events k h = (set_at fd (some (c, events)) k, rw h refl, λ f. refl)

modify_law :
    (fd c events : ℕ) (k : Table) (x : ℕ × ℕ)
    → k fd ≡ some x
    → (k' : Table) × (control modify fd c events k ≡ some k')
      × ((f : ℕ) → k' f ≡ (if f == fd then some (c, events) else k f))
modify_law fd c events k x h = (set_at fd (some (c, events)) k, rw h refl, λ f. refl)

delete_law :
    (fd c events : ℕ) (k : Table) (x : ℕ × ℕ)
    → k fd ≡ some x
    → (k' : Table) × (control delete fd c events k ≡ some k')
      × ((f : ℕ) → k' f ≡ (if f == fd then none else k f))
delete_law fd c events k x h = (set_at fd none k, rw h refl, λ f. refl)

abbrev table : Epoll Table
table = record {
  epoll_ctl = control;
  interest = λ k fd. k fd;
  add_absent = add_law;
  modify_present = modify_law;
  delete_present = delete_law;
}

-- The channel c has the descriptor of the same number.
abbrev own : ℕ → ℕ
own c = c

abbrev nothing : Registry Table
nothing = record {
  events = λ c. 0;
  index = λ c. new;
  added_to_loop = λ c. false;
  channel_map = [];
  kernel = λ f. none;
}

nothing-InStep : InStep table own nothing
unfolding find is_at
nothing-InStep = record {
  interest = λ f. refl;
  owner = λ f. refl;
  named = λ c. refl;
  known = λ c. refl;
  flag = λ c. refl;
}

-- A connection that reads, writes and goes.
abbrev life : List Command
life =
    acts enables_read 7
    ∷ acts enables_write 7
    ∷ acts enables_read 8
    ∷ acts disables_all 7
    ∷ removes 7
    ∷ []

life_is_legal : are_legal table own life nothing ≡ true
unfolding are_legal is_legal run_command act update remove delete_all update_channel
    evk.EPoller.update has_channel remove_channel deletes is_new mask_behind enable_read
    enable_write disable_all is_none_event find erase is_at is_absent
life_is_legal = refl

run-InStep_example :
    (r : Registry Table) × (run_commands table own life nothing ≡ some r) × InStep table own r
run-InStep_example = run-InStep table own life nothing nothing-InStep life_is_legal

-- The channels 3 of the eventfd and 4 of the timerfd, and the same connections in between.
life_behind :
    legal_behind table own (are_legal table own life) (open_loop table own 3 4 nothing) ≡ true
unfolding open_loop are_legal is_legal run_command act update remove delete_all update_channel
    evk.EPoller.update has_channel remove_channel deletes is_new mask_behind enable_read
    enable_write disable_all is_none_event find erase is_at is_absent
life_behind = refl

lifetime_fails_example :
    (r1 : Registry Table) × (r2 : Registry Table) × (open_loop table own 3 4 nothing ≡ some r1)
    × (run_commands table own life r1 ≡ some r2)
    × InStep table own r2
    × (destroy_loop table own stopped 3 4 r2 ≡ none)
unfolding is_stopped find
lifetime_fails_example =
    lifetime_fails table own stopped 3 4 life nothing refl nothing-InStep refl refl refl refl refl
      life_behind
