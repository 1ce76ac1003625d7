-- ===== src/TcpServer/Life/Phases.antt =====
-- The phase of each connection, and how a step carries the phases on.
use evk.Prelude.{
  ℕ, ◌≡◌, refl, sym, ap, subst, ◌∙◌, List, [], ◌∷◌, ◌++◌, append-nil, some, none, Bool, true, false,
  not, ◌||◌, ◌==◌, eq→==, ltb, arith, Bool-cases, inl, inr,
}
use mathlib.Core.Bool.{false≢true}
use evk.Assoc.{find, is_absent}
use evk.TcpServer.Life.{World, Kind}
use evk.TcpServer.Life.Jobs.{
  jobs_of, jobs_of-append, Phase, unborn, due, is_due, in_map, suits, due_job,
}

abbrev pub is_unborn : Phase → Bool
is_unborn unborn = true
is_unborn _ = false

-- The connection `id` is in the phase `p`.
pub record Lives (p : Phase) (id : ℕ) (w : World) : Type 0 where
  pub waits : is_due (due p) (jobs_of id w.jobs) ≡ true
  pub kept : is_absent (find id w.server.connections) ≡ not (in_map p)
  pub conn : suits p (w.conns id) ≡ true
  pub age : (ltb id w.server.next_conn_id || is_unborn p) ≡ true

abbrev pub Inv : World → Type 0
Inv w = (id : ℕ) → (p : Phase) × Lives p id w

-- Nothing of the connection has changed.
pub record Same (w w' : World) (x : ℕ) : Type 0 where
  pub conn : w'.conns x ≡ w.conns x
  pub jobs : jobs_of x w'.jobs ≡ jobs_of x w.jobs
  pub kept : find x w'.server.connections ≡ find x w.server.connections
  pub age : ltb x w'.server.next_conn_id ≡ ltb x w.server.next_conn_id

pub carried : (w w' : World) (x : ℕ) (p : Phase) → Same w w' x → Lives p x w → Lives p x w'
carried w w' x p s l = record {
  waits = ap (is_due (due p)) s.jobs ∙ l.waits;
  kept = ap is_absent s.kept ∙ l.kept;
  conn = ap (suits p) s.conn ∙ l.conn;
  age = ap (λ b. b || is_unborn p) s.age ∙ l.age;
}

pub the_same : (a b : ℕ) → (a == b) ≡ true → a ≡ b
the_same a b h = ground arith

-- One connection is in a new phase, and the others are as they were.
pub put :
    (w w' : World) (id : ℕ) (q : Phase)
    → Inv w
    → Lives q id w'
    → ((x : ℕ) → (x == id) ≡ false → Same w w' x)
    → Inv w'
put w w' id q i l s x = elim (Bool-cases (x == id)) [
  | inl same ↦ (q, subst (λ y. Lives q y w') (sym (the_same x id same)) l)
  | inr apart ↦ let (p, k) = i x in (p, carried w w' x p (s x apart) k)
]

pub no_jobs : (ws : List Kind) → is_due none ws ≡ true → ws ≡ []
no_jobs [] h = refl
no_jobs (k ∷ ws) h = absurd (false≢true h)

-- The jobs behind the run of one, which leaves the jobs `new`.
module _ (k : Kind) (id : ℕ) (before behind new : List (Kind × ℕ)) where
  pub others_jobs :
      (x : ℕ)
      → (x == id) ≡ false
      → jobs_of x new ≡ []
      → jobs_of x ((before ++ behind) ++ new) ≡ jobs_of x (before ++ (k, id) ∷ behind)
  others_jobs x apart h =
      rw
        (
          jobs_of-append x (before ++ behind) new,
          jobs_of-append x before behind,
          jobs_of-append x before ((k, id) ∷ behind),
          h,
          apart,
          append-nil (jobs_of x before ++ jobs_of x behind),
        )
        refl

  pub own_jobs :
      (p : Phase)
      → is_due (due p) (jobs_of id (before ++ (k, id) ∷ behind)) ≡ true
      → (due p ≡ some k) × (jobs_of id ((before ++ behind) ++ new) ≡ jobs_of id new)
  own_jobs p h =
      let split : jobs_of id (before ++ (k, id) ∷ behind)
          ≡ jobs_of id before ++ k ∷ jobs_of id behind =
        jobs_of-append id before ((k, id) ∷ behind) ∙ rw (eq→== id id refl) refl in
      let (d, nothing) =
        due_job (due p) k (jobs_of id before) (jobs_of id behind)
          (ap (is_due (due p)) (sym split) ∙ h) in
      (
        d,
        rw (jobs_of-append id (before ++ behind) new, jobs_of-append id before behind, nothing)
            refl,
      )
