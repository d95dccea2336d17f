-- ===== src/Startup/Owned.antt =====
-- The startup handler keeps its one socket, and neither opens nor closes any.
use bsreadrepeater.Base.{
  Bytes, if◌then◌else◌, ◌∷◌, ◌≡◌, ok, false, fault, Outcome, ◌==◌, ◌++◌, fail, ℕ, [], true, Bool,
  arith, refl, >>-Preserves, Preserves, sym, subst,
}
use bsreadrepeater.Sockets.{IsOpen, sent-IsOpen, closes, call-KeepsOpen, opens}
use bsreadrepeater.Startup.{
  send_lines, is_command, after_line, Running, handle_sending, Input, bsr_startupcmd_handle_event,
  handle_reading, receiving, reading, read_bytes, handle_receiving, read_in, in_phase, ReadResult,
  after_lines, Phase, nothing_found, on_run_log, read_error, sending,
}
use bsreadrepeater.Text.{c_string}
use bsreadrepeater.Zmq.{send_checked, Env, Log, Sock, get_events, call, attempt}

module _ (env : Env) (k sock : Sock) (n : ℕ) where
  abbrev pub IsHolding : Running → Type 0
  IsHolding s = (s.self.sock_out ≡ sock) × IsOpen k n s.log

  send_lines-IsOpen :
      (line text : Bytes) (log : Log)
      → IsOpen k n log
      → IsOpen k n (send_lines env sock line text log).3
  unfolding send_lines send_checked
  send_lines-IsOpen line [] log h = h
  send_lines-IsOpen line (c ∷ rest) log h =
      by_tests (c == b'\n') (is_command (c_string line)) (send_lines-IsOpen [] rest log h)
        (send_lines-IsOpen (line ++ c ∷ []) rest log h)
    where
      after-IsOpen : (r : Outcome × Log) → IsOpen k n r.1 → IsOpen k n (after_line line rest r).3
      after-IsOpen (ok, l) p = p
      after-IsOpen (fail, l) p = p
      after-IsOpen (fault, l) p = p

      by_tests :
          (a b : Bool)
          → IsOpen k n (send_lines env sock [] rest log).3
          → IsOpen k n (send_lines env sock (line ++ c ∷ []) rest log).3
          → IsOpen k n
              (if a
                then (if b
                    then after_line line rest (send_checked env sock (c_string line) log)
                    else send_lines env sock [] rest log)
                else send_lines env sock (line ++ c ∷ []) rest log).3
      by_tests false b p q = q
      by_tests true false p q = p
      by_tests true true p q = after-IsOpen (send_checked env sock (c_string line) log) (
          sent-IsOpen env k sock (c_string line) false (env.send log sock (c_string line) false) n
            log h)

  nothing_found-IsHolding : Preserves IsHolding (nothing_found env)
  unfolding nothing_found call opens closes
  nothing_found-IsHolding s h = ground (arith, h.0, h.1)

  after_lines-IsHolding :
      (s : Running) (r : Outcome × Bool × Bytes × Log)
      → s.self.sock_out ≡ sock
      → IsOpen k n r.3
      → IsHolding (after_lines env s r).1
  unfolding call opens closes
  after_lines-IsHolding s (ok, true, text, log) e h = ground (arith, e, h)
  after_lines-IsHolding s (ok, false, text, log) e h =
      nothing_found-IsHolding (record s { self = record s.self { text = text }; log = log }) (e, h)
  after_lines-IsHolding s (fail, found, text, log) e h = (e, h)
  after_lines-IsHolding s (fault, found, text, log) e h = (e, h)

  reading-IsHolding : (r : ReadResult) → Preserves IsHolding (handle_reading env r)
  unfolding handle_reading read_in call attempt opens closes
  reading-IsHolding read_error s h = ground (arith, h.0, h.1)
  reading-IsHolding (read_bytes given) s h = ground (arith, h.0, h.1)

  sending-IsHolding : (can_send : Bool) → Preserves IsHolding (handle_sending env can_send)
  unfolding handle_sending
  sending-IsHolding can_send =
      >>-Preserves IsHolding (on_run_log (call env get_events)) _
        (λ s h. (h.0, call-KeepsOpen env k get_events refl n s.log h.1)) (polled can_send)
    where
      polled :
          (b : Bool)
          → Preserves IsHolding (λ t.
            if b
            then after_lines env t (send_lines env t.self.sock_out [] t.self.text t.log)
            else (ok, t))
      polled true s h =
          after_lines-IsHolding s (send_lines env s.self.sock_out [] s.self.text s.log) h.0 (
            subst (λ t. IsOpen k n (send_lines env t [] s.self.text s.log).3) (sym h.0)
              (send_lines-IsOpen [] s.self.text s.log h.1))
      polled false s h = h

  receiving-IsHolding : Preserves IsHolding (handle_receiving env)
  unfolding handle_receiving call opens closes
  receiving-IsHolding s h = ground (arith, h.0, h.1)

  phase-IsHolding : (p : Phase) (i : Input) → Preserves IsHolding (in_phase env p i)
  phase-IsHolding reading i = reading-IsHolding i.from_file
  phase-IsHolding sending i = sending-IsHolding i.can_send
  phase-IsHolding receiving i = receiving-IsHolding

  -- Whatever the file gives and the command socket answers, an event on the startup handler leaves its
  -- socket as it is, and every other one too.
  pub handle_event-IsHolding : (i : Input) → Preserves IsHolding (bsr_startupcmd_handle_event env i)
  unfolding bsr_startupcmd_handle_event
  handle_event-IsHolding i s h = phase-IsHolding s.self.state i s h
