-- ===== src/Memreq/Order.antt =====
-- The life of the queue: commands leave in the order in which they came.
use bsreadrepeater.Base.{
  ◌∷◌, ◌∙◌, append_assoc, inr, Bool-cases, Bytes, ◌++◌, if◌then◌else◌, inl, ℕ, List, append-nil,
  sym, [], ◌≡◌, arith, ap, Outcome, subst,
}
use bsreadrepeater.Memreq.{bsr_memreq_add_cmd, bsr_memreq_handle_event, Shared, Memreq}
use bsreadrepeater.Memreq.Ring.{
  IsValid, add_cmd-IsValid, contents, is_free, handle_event_lem, handle_event-IsValid,
  add_cmd-refuses, add_cmd-takes,
}
use bsreadrepeater.Zmq.{Env, Sock, sent_on}

-- What happens to a `bsr_memreq`: a caller adds a command, or the poller reports events.
pub data Op : Type 0 where
  add_cmd : Bytes → Op
  event : ℕ → Op

module _ (env : Env) where
  unfoldable pub step : Op → Shared → Shared
  step (add_cmd cmd) s = (bsr_memreq_add_cmd env cmd s).1
  step (event events) s = (bsr_memreq_handle_event env events s).1

  unfoldable pub run : List Op → Shared → Shared
  run [] s = s
  run (op ∷ ops) s = run ops (step op s)

  -- The command that an operation puts into the queue, if it does.
  abbrev pub taken : Op → Memreq → List Bytes
  taken (add_cmd cmd) m = if is_free m cmd then cmd ∷ [] else []
  taken (event events) m = []

  unfoldable pub all_taken : List Op → Shared → List Bytes
  all_taken [] s = []
  all_taken (op ∷ ops) s = taken op s.self ++ all_taken ops (step op s)

  pub step-IsValid : (op : Op) (s : Shared) → IsValid s.self → IsValid (step op s).self
  unfolding step
  step-IsValid (add_cmd cmd) s v = add_cmd-IsValid env cmd s v
  step-IsValid (event events) s v = handle_event-IsValid env events s v

  sock-step : (op : Op) (s : Shared) → (step op s).self.sock_out ≡ s.self.sock_out
  unfolding step bsr_memreq_add_cmd bsr_memreq_handle_event
  sock-step (add_cmd cmd) s = ground arith
  sock-step (event events) s = ground arith

  sent-add_cmd :
      (t : Sock) (cmd : Bytes) (s : Shared)
      → sent_on t (bsr_memreq_add_cmd env cmd s).1.log ≡ sent_on t s.log
  unfolding bsr_memreq_add_cmd sent_on
  sent-add_cmd t cmd s = ground arith

  abbrev pub through : Sock → Shared → List Bytes
  through sock s = sent_on sock s.log ++ contents s.self

  through-step :
      (op : Op) (s : Shared)
      → IsValid s.self
      → through s.self.sock_out (step op s) ≡ through s.self.sock_out s ++ taken op s.self
  unfolding step
  through-step (event events) s v = handle_event_lem env events s v ∙ sym (append-nil _)
  through-step (add_cmd cmd) s v = elim (Bool-cases (is_free s.self cmd)) [
    | inl e ↦
        rw (sent-add_cmd s.self.sock_out cmd s, add_cmd-takes env cmd s v e, e)
          (sym (append_assoc _ (contents s.self) (cmd ∷ [])))
    | inr e ↦
        ap (λ (r : Outcome × Shared). through s.self.sock_out r.1) (add_cmd-refuses env cmd s e)
        ∙ rw e (sym (append-nil _))
  ]

  -- For a valid queue, whatever the order of additions and events, and whatever the socket and the poller answer: the
  -- commands that the socket has accepted, followed by those still queued, are those that were there
  -- before, followed by the commands that were taken in, in the order in which they were added.
  pub run_order :
      (ops : List Op) (s : Shared)
      → IsValid s.self
      → through s.self.sock_out (run ops s) ≡ through s.self.sock_out s ++ all_taken ops s
  unfolding run all_taken
  run_order [] s v = sym (append-nil _)
  run_order (op ∷ ops) s v =
      subst
        (λ k. through k (run ops (step op s)) ≡ through k (step op s) ++ all_taken ops (step op s))
        (sock-step op s) (run_order ops (step op s) (step-IsValid op s v))
      ∙ ap (λ t. t ++ all_taken ops (step op s)) (through-step op s v)
      ∙ append_assoc _ (taken op s.self) (all_taken ops (step op s))
