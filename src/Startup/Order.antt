-- ===== src/Startup/Order.antt =====
-- The commands of the file reach the command socket in the order of their lines.
use bsreadrepeater.Base.{
  take, ok, ◌-◌, append_assoc, ◌≡◌, ◌++◌, ◌≤◌, [], List, Bytes, Bool, ◌∷◌, arith, Outcome, length,
  ◌+◌, length-append, false, refl, true, fail, fault, ◌>>◌, length-take, if◌then◌else◌, Action,
  done, >>-eq-ok, append-nil, sym, subst, ◌∙◌,
}
use bsreadrepeater.Startup.{
  Running, sending, read_error, read_bytes, bufcap, reading, receiving, read_in, handle_sending,
  Startup, Input, nothing_found, after_lines, bsr_startupcmd_handle_event, send_lines,
  handle_reading, handle_receiving, Phase, ReadResult, in_phase,
}
use bsreadrepeater.Startup.Lines.{
  line_commands, LinesSent, length-send_lines-le, send_lines-LinesSent,
}
use bsreadrepeater.Zmq.{Sock, sent_on, Env, Log, call, get_events, called, outcome_of}

module _ (env : Env) where
  -- The bytes that an event takes from the file.
  abbrev pub got_in : Phase → ReadResult → Bytes → Bytes
  got_in reading read_error text = []
  got_in reading (read_bytes given) text = take (bufcap - length text) given
  got_in sending r text = []
  got_in receiving r text = []

  abbrev pub got : Input → Startup → Bytes
  got i m = got_in m.state i.from_file m.text

  -- What has been sent and what the file as far as it has been read still has to send, if `future`
  -- follows.
  abbrev pub accounted : Sock → Running → Bytes → List Bytes
  accounted sock s future = sent_on sock s.log ++ line_commands (s.self.text ++ future)

  abbrev Accounts : Running → Bytes → Outcome × Running → Type 0
  Accounts s bytes r =
      (r.1.self.sock_out ≡ s.self.sock_out)
      × ((future : Bytes)
          → accounted s.self.sock_out r.1 future ≡ accounted s.self.sock_out s (bytes ++ future))
      × (length r.1.self.text ≤ bufcap)

  read_in-Accounts :
      (bs : Bytes) (s : Running)
      → length s.self.text + length bs ≤ bufcap
      → Accounts s bs (read_in env bs s)
  unfolding read_in sent_on
  read_in-Accounts [] s h = (ground arith, λ future. ground arith, ground arith)
  read_in-Accounts (b ∷ bs) s h = (
    ground arith,
    λ future. ground (arith, append_assoc s.self.text (b ∷ bs) future),
    ground (arith, length-append s.self.text (b ∷ bs)),
  )

  nothing_found-keeps :
      (s : Running)
      → let d = (nothing_found env s).1 in
        (d.self.sock_out ≡ s.self.sock_out)
        × (d.self.text ≡ s.self.text)
        × (sent_on s.self.sock_out d.log ≡ sent_on s.self.sock_out s.log)
  unfolding nothing_found sent_on
  nothing_found-keeps s = ground arith

  after_lines-Accounts :
      (s : Running) (r : Outcome × Bool × Bytes × Log)
      → LinesSent env s.self.sock_out [] s.self.text s.log r
      → length r.2 ≤ bufcap
      → (after_lines env s r).0 ≡ ok
      → Accounts s [] (after_lines env s r)
  unfolding call sent_on
  after_lines-Accounts s (ok, true, text, log) l h o =
      (ground arith, λ future. ground (arith, l refl future), ground arith)
  after_lines-Accounts s (ok, false, text, log) l h o =
      let now = record s { self = record s.self { text = text }; log = log } in
      let k = nothing_found-keeps now in
      (k.0, λ future. ground (arith, k.1, k.2, l refl future), rw k.1 h)
  after_lines-Accounts s (fail, found, text, log) l h o = cc
  after_lines-Accounts s (fault, found, text, log) l h o = cc

  sending_polled :
      (b can_send : Bool) (s : Running)
      → length s.self.text ≤ bufcap
      → let r =
          ((λ t. (outcome_of b, t)) >> (λ t.
              if can_send
              then after_lines env t (send_lines env t.self.sock_out [] t.self.text t.log)
              else (ok, t)))
            s in
        r.0 ≡ ok → Accounts s [] r
  sending_polled true true s h =
      after_lines-Accounts s _ (send_lines-LinesSent env s.self.sock_out [] s.self.text s.log tt)
        (omega (arith, length-send_lines-le env s.self.sock_out [] s.self.text s.log))
  sending_polled true false s h = λ o. (refl, λ future. refl, h)
  sending_polled false can_send s h = λ o. cc

  sending-Accounts :
      (can_send : Bool) (s : Running)
      → length s.self.text ≤ bufcap
      → (handle_sending env can_send s).0 ≡ ok
      → Accounts s [] (handle_sending env can_send s)
  unfolding handle_sending call sent_on
  sending-Accounts can_send s h =
      sending_polled (env.answer s.log get_events) can_send
        (record s { log = called get_events (env.answer s.log get_events) ∷ s.log }) h

  receiving-Accounts :
      (s : Running) → length s.self.text ≤ bufcap → Accounts s [] (handle_receiving env s)
  unfolding handle_receiving sent_on
  receiving-Accounts s h = (ground arith, λ future. ground arith, ground arith)

  reading-Accounts :
      (r : ReadResult) (s : Running)
      → length s.self.text ≤ bufcap
      → (handle_reading env r s).0 ≡ ok
      → Accounts s (got_in reading r s.self.text) (handle_reading env r s)
  unfolding handle_reading
  reading-Accounts read_error s h o = cc
  reading-Accounts (read_bytes given) s h o =
      read_in-Accounts _ s (omega (arith, length-take (bufcap - length s.self.text) given))

  step-Accounts :
      (p : Phase) (i : Input) (s : Running)
      → length s.self.text ≤ bufcap
      → (in_phase env p i s).0 ≡ ok
      → Accounts s (got_in p i.from_file s.self.text) (in_phase env p i s)
  step-Accounts reading i s h o = reading-Accounts i.from_file s h o
  step-Accounts sending i s h o = sending-Accounts i.can_send s h o
  step-Accounts receiving i s h o = receiving-Accounts s h

  -- Events one after the other, up to the first that fails, and the bytes that they take from the file.
  unfoldable pub run_events : List Input → Action Running
  run_events [] = done
  run_events (i ∷ is) = bsr_startupcmd_handle_event env i >> run_events is

  unfoldable pub all_got : List Input → Running → Bytes
  all_got [] s = []
  all_got (i ∷ is) s = got i s.self ++ all_got is (bsr_startupcmd_handle_event env i s).1

  abbrev Ordered : Sock → Running → Bytes → Running → Type 0
  Ordered sock s bytes t =
      (sent_on sock t.log ++ line_commands t.self.text ≡ accounted sock s bytes)
      × (length t.self.text ≤ bufcap)

  -- Over any sequence of events that return 0, whatever the sizes of the reads and the readiness of
  -- the socket: the commands sent are those of the lines of the file, in order, as far as it has been
  -- read, but for those whose lines are still in the buffer; and the buffer never overflows.
  pub run_events_order :
      (is : List Input) (s : Running)
      → length s.self.text ≤ bufcap
      → (run_events is s).0 ≡ ok
      → let t = (run_events is s).1 in
        (sent_on s.self.sock_out t.log ++ line_commands t.self.text
          ≡ sent_on s.self.sock_out s.log ++ line_commands (s.self.text ++ all_got is s))
        × (length t.self.text ≤ bufcap)
  unfolding run_events all_got bsr_startupcmd_handle_event
  run_events_order [] s h o = (rw append-nil, h)
  run_events_order (i ∷ is) s h o =
      let split = >>-eq-ok (bsr_startupcmd_handle_event env i) (run_events is) s o in
      let a = step-Accounts s.self.state i s h split.0 in
      let d = (in_phase env s.self.state i s).1 in
      let rest = run_events_order is d a.2 (rw split.1 at o) in
      subst
        (λ (r : Outcome × Running). Ordered s.self.sock_out s (got i s.self ++ all_got is d) r.1)
        (sym split.1)
        (
          subst
                (λ k.
                  sent_on k (run_events is d).1.log ++ line_commands (run_events is d).1.self.text
                  ≡ accounted k d (all_got is d))
                a.0 rest.0
              ∙ a.1 (all_got is d),
          rest.1,
        )
