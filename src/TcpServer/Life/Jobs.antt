-- ===== src/TcpServer/Life/Jobs.antt =====
-- The jobs of one connection among those that wait, and the phases of its life.
use evk.Prelude.{
  ℕ, ◌≡◌, refl, ap, List, [], ◌∷◌, ◌++◌, Option, some, none, Bool, true, false, not, ◌&&◌, ◌==◌,
  Bool-cases, inl, inr, if◌then◌else◌,
}
use mathlib.Core.Bool.{false≢true}
use evk.Channel.{is_reading}
use evk.TcpConn.{Conn, is_connecting, is_disconnected}
use evk.TcpServer.Life.{Kind, establish, remove, destroy, is_up}

-- The kinds of the jobs that are about the connection.
abbrev pub jobs_of : ℕ → List (Kind × ℕ) → List Kind
jobs_of id [] = []
jobs_of id ((k, x) ∷ js) = let rest = jobs_of id js in if id == x then k ∷ rest else rest

pub jobs_of-append :
    (id : ℕ) (js ks : List (Kind × ℕ)) → jobs_of id (js ++ ks) ≡ jobs_of id js ++ jobs_of id ks
jobs_of-append id [] ks = refl
jobs_of-append id ((k, x) ∷ js) ks = elim (Bool-cases (id == x)) [
  | inl same ↦ rw same (ap (λ r. k ∷ r) (jobs_of-append id js ks))
  | inr apart ↦ rw apart (jobs_of-append id js ks)
]

-- No number yet; taken on; established; closed; out of the map; and destroyed.
pub data Phase : Type 0 where
  unborn made alive closed leaving gone : Phase

abbrev pub is_kind : Kind → Kind → Bool
is_kind establish establish = true
is_kind remove remove = true
is_kind destroy destroy = true
is_kind _ _ = false

-- The one job that waits in each phase.
abbrev pub due : Phase → Option Kind
due made = some establish
due closed = some remove
due leaving = some destroy
due _ = none

abbrev pub is_due : Option Kind → List Kind → Bool
is_due none [] = true
is_due (some d) (k ∷ []) = is_kind d k
is_due _ _ = false

abbrev pub in_map : Phase → Bool
in_map made = true
in_map alive = true
in_map closed = true
in_map _ = false

-- The status and the mask of each phase.
abbrev pub suits : Phase → Conn → Bool
suits unborn c = not (is_up c)
suits made c = is_connecting c.status
suits alive c = is_up c && is_reading c.events
suits _ c = is_disconnected c.status && (c.events == 0)

-- A job that waits is the one that is due, and behind it none waits.
pub due_job :
    (d : Option Kind) (k : Kind) (before behind : List Kind)
    → is_due d (before ++ k ∷ behind) ≡ true
    → (d ≡ some k) × (before ++ behind ≡ [])
due_job none k [] behind h = absurd (false≢true h)
due_job none k (x ∷ before) behind h = absurd (false≢true h)
due_job (some establish) establish [] [] h = (refl, refl)
due_job (some remove) remove [] [] h = (refl, refl)
due_job (some destroy) destroy [] [] h = (refl, refl)
due_job (some d) k [] (x ∷ behind) h = absurd (false≢true h)
due_job (some d) k (x ∷ []) behind h = absurd (false≢true h)
due_job (some d) k (x ∷ y ∷ before) behind h = absurd (false≢true h)
due_job (some establish) remove [] [] h = absurd (false≢true h)
due_job (some establish) destroy [] [] h = absurd (false≢true h)
due_job (some remove) establish [] [] h = absurd (false≢true h)
due_job (some remove) destroy [] [] h = absurd (false≢true h)
due_job (some destroy) establish [] [] h = absurd (false≢true h)
due_job (some destroy) remove [] [] h = absurd (false≢true h)
