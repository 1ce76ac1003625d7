-- ===== src/TcpConn/Sending.antt =====
-- Send on any thread, and the tasks that it leaves, against SendInLoop; and the handlers that leave the
-- status as it is.
use evk.Prelude.{
  Bool, Bool-cases, ◌>>=◌, ◌⊎◌, inl, inr, sym, ap, if◌then◌else◌, ℕ, ◌≡◌, refl, ◌∙◌, List, [], ◌∷◌,
  Option, some, none, true, false, arith, length,
}
use mathlib.Core.Option.{some-injective, none-ne-some}
use evk.Buffer.{Allocator, Buffer, to_slice, next_all, reset}
use evk.TcpConn.{
  Conn, Written, wrote, error, Request, Direct, is_connected, sent, keep_rest, watch_output,
  queues_send, queues_send_buffer, send, send_buffer, send_queued_buffer, write_directly,
  send_in_loop, handle_write, after_write, output_empty, shutdown_in_loop,
}

-- The connection and the requests, without the message's buffer.
abbrev pub forget : Conn × Buffer × List Request → Conn × List Request
forget (c, message, rs) = (c, rs)

abbrev beside : Buffer → Conn × List Request → Option (Conn × Buffer × List Request)
beside message (c, rs) = some (c, message, rs)

abbrev nothing_but : Buffer → Conn → Option (Conn × Buffer × List Request)
nothing_but message c = some (c, message, queues_send_buffer ∷ [])

-- Nothing, or a task for the loop.
abbrev pub is_task : List Request → Bool
is_task [] = true
is_task (queues_send m ∷ []) = true
is_task (queues_send_buffer ∷ []) = true
is_task _ = false

module _ ⦃h : Allocator⦄ where
  pub keep_rest_status :
      (d : Direct) (m : List ℕ) (c c' : Conn) (rs : List Request)
      → keep_rest d m c ≡ some (c', rs)
      → c'.status ≡ c.status
  unfolding keep_rest watch_output
  keep_rest_status d m c c' rs e = ground arith

  pub send_status :
      (w : Written) (m : List ℕ) (c c' : Conn) (rs : List Request)
      → send_in_loop w m c ≡ some (c', rs)
      → c'.status ≡ c.status
  unfolding send_in_loop
  send_status w m c c' rs e = ground (
    arith,
    keep_rest_status (write_directly w (length m) c.write_complete_cb) m
        (record c { socket = sent w m c.socket }) c' rs,
    keep_rest_status
        (record { nwrote = 0; remaining = length m; fault_error = false; requests = [] }) m c c' rs,
  )

  pub write_status :
      (w : Written) (c c' : Conn) (rs : List Request)
      → handle_write w c ≡ some (c', rs)
      → c'.status ≡ c.status
  unfolding handle_write after_write output_empty shutdown_in_loop
  write_status (wrote n) c c' rs e = ground arith
  write_status (error n) c c' rs e = ground arith

  -- What a call of Send makes of a connection: nothing but a task for the loop, or what SendInLoop does.
  abbrev pub Passes : Written → Conn → Conn → List Request → Type 0
  Passes w c c' rs =
      ((c' ≡ c) × (is_task rs ≡ true)) ⊎ ((m : List ℕ) × (send_in_loop w m c ≡ some (c', rs)))

  left_alone :
      (w : Written) (c c' : Conn) (rs rs' : List Request)
      → is_task rs ≡ true
      → ◌≡◌ {A = Option (Conn × List Request)} (some (c, rs)) (some (c', rs'))
      → Passes w c c' rs'
  left_alone w c c' rs rs' q e =
      let same = some-injective (c, rs) (c', rs') e in
      inl (
        sym (ap (λ (x : Conn × List Request). x.0) same),
        sym (ap (λ (x : Conn × List Request). is_task x.1) same) ∙ q,
      )

  pub send-Passes :
      (b : Bool) (w : Written) (m : List ℕ) (c c' : Conn) (rs : List Request)
      → send b w m c ≡ some (c', rs)
      → Passes w c c' rs
  unfolding send
  send-Passes b w m c c' rs e = elim (Bool-cases (is_connected c.status)) [
    | inl up ↦ by_thread b (rw up at e)
    | inr down ↦ left_alone w c c' [] rs refl (rw down at e)
  ]
    where
      by_thread :
          (b : Bool)
          → (if b then send_in_loop w m c else some ((c, queues_send m ∷ []))) ≡ some (c', rs)
          → Passes w c c' rs
      by_thread true e = inr (m, e)
      by_thread false e = left_alone w c c' (queues_send m ∷ []) rs refl e

  -- Of the bytes of a message, whatever becomes of its buffer.
  with_buffer :
      (w : Written) (message : Buffer) (m : List ℕ) (c c' : Conn) (rs : List Request)
      → (do
        x ← (do (d, requests) ← send_in_loop w m c; beside message (d, requests))
        some (forget x))
        ≡ some (c', rs)
      → Passes w c c' rs
  with_buffer w message m c c' rs e = inr (m, go (send_in_loop w m c) e)
    where
      go :
          (o : Option (Conn × List Request))
          → (do x ← (do y ← o; beside message y); some (forget x)) ≡ some (c', rs)
          → o ≡ some (c', rs)
      go none e = absurd (none-ne-some _ e)
      go (some y) e = e

  pub buffer-Passes :
      (b : Bool) (w : Written) (message : Buffer) (c c' : Conn) (rs : List Request)
      → (do x ← send_buffer b w message c; some (forget x)) ≡ some (c', rs)
      → Passes w c c' rs
  unfolding send_buffer
  buffer-Passes b w message c c' rs e = elim (Bool-cases (is_connected c.status)) [
    | inl up ↦ by_thread b (to_slice message) (rw up at e)
    | inr down ↦ left_alone w c c' [] rs refl (rw down at e)
  ]
    where
      by_thread :
          (b : Bool) (o : Option (List ℕ))
          → (do
            x ←
                (if b
                  then (do m ← o; y ← send_in_loop w m c; beside (reset message) y)
                  else nothing_but message c)
            some (forget x))
            ≡ some (c', rs)
          → Passes w c c' rs
      by_thread true none e = absurd (none-ne-some _ e)
      by_thread true (some m) e = with_buffer w (reset message) m c c' rs e
      by_thread false o e = left_alone w c c' (queues_send_buffer ∷ []) rs refl e

  pub queued-Passes :
      (w : Written) (message : Buffer) (c c' : Conn) (rs : List Request)
      → (do x ← send_queued_buffer w message c; some (forget x)) ≡ some (c', rs)
      → Passes w c c' rs
  unfolding send_queued_buffer
  queued-Passes w message c c' rs e = go (next_all message) e
    where
      go :
          (o : Option (List ℕ × Buffer))
          → (do x ← (do z ← o; y ← send_in_loop w z.0 c; beside z.1 y); some (forget x))
            ≡ some (c', rs)
          → Passes w c c' rs
      go none e = absurd (none-ne-some _ e)
      go (some (m, behind)) e = with_buffer w behind m c c' rs e

  pub Passes-status :
      (w : Written) (c c' : Conn) (rs : List Request) → Passes w c c' rs → c'.status ≡ c.status
  Passes-status w c c' rs (inl alone) = ap (λ (d : Conn). d.status) alone.0
  Passes-status w c c' rs (inr (m, e)) = send_status w m c c' rs e
