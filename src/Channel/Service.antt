-- ===== src/Channel/Service.antt =====
-- A source in service, event by event: no fault, no throttling, nothing left unread.
use bsreadrepeater.Base.{
  arith, ◌∙◌, Bool-cases, ◌%◌, inr, fault, ◌∷◌, ok, refl, fail, ℕ, ◌≢◌, inl, Outcome, [], ◌≡◌, List,
  ◌==◌, sym, ==_iff, subst, if_true, if_false, ◌⊎◌,
}
use bsreadrepeater.Channel.{Outside, Ctx}
use bsreadrepeater.Channel.Ready.{Stays, IsReady, part-Stays}
use bsreadrepeater.Channel.Receive.{
  and_receive, check_parts, throttle, bsr_chnhandler_handle_event, recv_error, Received, end_round,
  receive_loop, part,
}
use bsreadrepeater.Split.{Timespec}

module _ {F : Type 0} (w : Outside F) where
  abbrev Handled : Ctx F → Outcome × Ctx F × List Received → Type 0
  Handled c r = Stays w c r.1 × (r.0 ≢ fault) × (r.0 ≡ ok → r.2 ≡ [])

  Stays-trans : {c d e : Ctx F} → Stays w c d → Stays w d e → Stays w c e
  Stays-trans p q = record {
    ready = q.ready;
    addr = q.addr ∙ p.addr;
    socket = q.socket ∙ p.socket;
    events = q.events ∙ p.events;
    count = q.count ∙ p.count;
  }

  Stays-refl : (c : Ctx F) → IsReady c.self → Stays w c c
  Stays-refl c r = record { ready = r; addr = refl; socket = refl; events = refl; count = refl }

  and_receive-Handled :
      (tspoll : Timespec) (k : Ctx F → Outcome × Ctx F × List Received) (rest : List Received)
      (c : Ctx F) (r : Outcome × Ctx F)
      → Stays w c r.1
      → r.0 ≢ fault
      → Handled r.1 (k r.1)
      → Handled c (and_receive w tspoll k rest r)
  and_receive-Handled tspoll k rest c (ok, d) s h next =
      subst (Handled c) (sym (if_false (ok, d, rest) (k d) s.ready.unthrottled))
        (Stays-trans s next.0, next.1, next.2)
  and_receive-Handled tspoll k rest c (fail, d) s h next = (s, λ e. cc, λ e. cc)
  and_receive-Handled tspoll k rest c (fault, d) s h next = absurd (h refl)

  end_round-Handled :
      (tspoll : Timespec) (c : Ctx F)
      → IsReady c.self
      → Stays w c (end_round w tspoll c).1 × ((end_round w tspoll c).0 ≢ fault)
  unfolding end_round throttle check_parts
  end_round-Handled tspoll c r = ground (arith, r)

  receive_loop-Handled :
      (tspoll : Timespec) (inbox : List Received) (c : Ctx F)
      → IsReady c.self
      → Handled c (receive_loop w tspoll inbox c)
  unfolding receive_loop
  receive_loop-Handled tspoll [] c r = let e = end_round-Handled tspoll c r in (e.0, e.1, λ h. refl)
  receive_loop-Handled tspoll (recv_error ∷ rest) c r = (Stays-refl c r, λ e. cc, λ e. cc)
  receive_loop-Handled tspoll (part frame more ∷ rest) c r =
      let p = part-Stays w frame more tspoll c r in
      and_receive-Handled tspoll (receive_loop w tspoll rest) rest c _ p.0 p.1
        (receive_loop-Handled tspoll rest _ p.0.ready)

  handle_event-Handled :
      (tspoll : Timespec) (events : ℕ) (inbox : List Received) (c : Ctx F)
      → IsReady c.self
      → Handled c (bsr_chnhandler_handle_event w tspoll events inbox c)
  unfolding bsr_chnhandler_handle_event
  handle_event-Handled tspoll events inbox c r =
      subst (Handled c) (sym (if_true _ _ ((==_iff c.self.state 1).1 r.in_recv)))
        (elim (Bool-cases (events % 2 == 0)) [
          | inl e ↦ subst (Handled c) (sym (if_true _ _ e)) (Stays-refl c r, λ h. cc, λ h. cc)
          | inr e ↦ subst (Handled c) (sym (if_false _ _ e)) (receive_loop-Handled tspoll inbox c r)
        ])

  -- The handler stays in service, and the event either returns 0 with nothing left unread, or -1.
  abbrev pub Served : Ctx F → Outcome × Ctx F × List Received → Type 0
  Served c r = Stays w c r.1 × ((r.0 ≡ ok) × (r.2 ≡ []) ⊎ (r.0 ≡ fail))

  served : (c : Ctx F) (r : Outcome × Ctx F × List Received) → Handled c r → Served c r
  served c (ok, d, rest) h = (h.0, inl (refl, h.2 refl))
  served c (fail, d, rest) h = (h.0, inr refl)
  served c (fault, d, rest) h = absurd (h.1 refl)

  -- For a source in service, whatever arrives and whatever the sockets answer, an event either returns
  -- 0 with every part that had arrived handled, or returns -1. In both cases it has read and written
  -- inside its objects, and the source is in service again, neither throttled nor disabled, under the
  -- same address, on the same input socket and with the same number of channels, and the list of timed
  -- events is as it was.
  pub handle_event-Served :
      (tspoll : Timespec) (events : ℕ) (inbox : List Received) (c : Ctx F)
      → IsReady c.self
      → Served c (bsr_chnhandler_handle_event w tspoll events inbox c)
  handle_event-Served tspoll events inbox c r =
      served c _ (handle_event-Handled tspoll events inbox c r)
