-- ===== src/Startup/Bounds.antt =====
-- The buffer of the startup file never holds more than it has room for, however an event ends.
use bsreadrepeater.Base.{
  Bytes, false, length-append, fail, >>-Preserves, ◌-◌, length, true, ◌≤◌, if◌then◌else◌, Outcome,
  Preserves, ◌+◌, ok, [], Bool, fault, length-take, arith, ◌∷◌,
}
use bsreadrepeater.Startup.{
  Phase, handle_sending, reading, sending, Input, nothing_found, send_lines, read_bytes,
  handle_receiving, receiving, after_lines, in_phase, read_error, ReadResult, read_in,
  bsr_startupcmd_handle_event, handle_reading, bufcap, on_run_log, Running,
}
use bsreadrepeater.Startup.Lines.{length-send_lines-le}
use bsreadrepeater.Zmq.{call, get_events, Env, Log}

module _ (env : Env) where
  -- What an event keeps of the buffer.
  abbrev Fits : Running → Type 0
  Fits s = length s.self.text ≤ bufcap

  read_in-Fits :
      (bs : Bytes) (s : Running)
      → length s.self.text + length bs ≤ bufcap
      → Fits (read_in env bs s).1
  unfolding read_in
  read_in-Fits [] s h = ground arith
  read_in-Fits (b ∷ bs) s h = ground (arith, length-append s.self.text (b ∷ bs))

  reading-Fits : (r : ReadResult) → Preserves Fits (handle_reading env r)
  unfolding handle_reading
  reading-Fits read_error s h = ground arith
  reading-Fits (read_bytes given) s h =
      read_in-Fits _ s (omega (arith, length-take (bufcap - length s.self.text) given))

  nothing_found-Fits : Preserves Fits (nothing_found env)
  unfolding nothing_found
  nothing_found-Fits s h = ground arith

  after_lines-Fits :
      (s : Running) (r : Outcome × Bool × Bytes × Log)
      → length r.2 ≤ bufcap
      → Fits (after_lines env s r).1
  after_lines-Fits s (ok, true, text, log) h = ground arith
  after_lines-Fits s (ok, false, text, log) h =
      nothing_found-Fits (record s { self = record s.self { text = text }; log = log }) h
  after_lines-Fits s (fail, found, text, log) h = h
  after_lines-Fits s (fault, found, text, log) h = h

  sending_polled-Fits :
      (can_send : Bool)
      → Preserves Fits (λ t.
        if can_send
        then after_lines env t (send_lines env t.self.sock_out [] t.self.text t.log)
        else (ok, t))
  sending_polled-Fits true s h =
      after_lines-Fits s (send_lines env s.self.sock_out [] s.self.text s.log)
        (omega (arith, length-send_lines-le env s.self.sock_out [] s.self.text s.log))
  sending_polled-Fits false s h = h

  sending-Fits : (can_send : Bool) → Preserves Fits (handle_sending env can_send)
  unfolding handle_sending
  sending-Fits can_send =
      >>-Preserves Fits (on_run_log (call env get_events)) _ (λ s h. h)
        (sending_polled-Fits can_send)

  receiving-Fits : Preserves Fits (handle_receiving env)
  unfolding handle_receiving
  receiving-Fits s h = ground arith

  phase-Fits : (p : Phase) (i : Input) → Preserves Fits (in_phase env p i)
  phase-Fits reading i = reading-Fits i.from_file
  phase-Fits sending i = sending-Fits i.can_send
  phase-Fits receiving i = receiving-Fits

  pub handle_event-Fits : (i : Input) → Preserves Fits (bsr_startupcmd_handle_event env i)
  unfolding bsr_startupcmd_handle_event
  handle_event-Fits i s h = phase-Fits s.self.state i s h
