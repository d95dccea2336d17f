-- ===== src/Channel/Untouched.antt =====
-- Events on a source leave its sockets alone: none is opened, closed or given away.
use bsreadrepeater.Base.{
  Bytes, arith, List, refl, ◌∙◌, ◌≡◌, Bool, if◌then◌else◌, true, false, ok, fault, ◌>>◌, Outcome,
  fail, ap, length, map, ltb, ◌+◌, ◌&&◌, not, ◌∷◌, ℕ, [], ◌%◌, ◌==◌, >>-reaches, exec, Action,
}
use bsreadrepeater.Channel.{Sockout, Outside, Ctx, update}
use bsreadrepeater.Channel.Forward.{forward, forward_one, forward_all}
use bsreadrepeater.Channel.Forward.Induction.{forward_all_induction}
use bsreadrepeater.Channel.Open.{bsr_chnhandler_disable_input}
use bsreadrepeater.Channel.Owned.{outputs_held, IsOwned}
use bsreadrepeater.Channel.Ready.{sock-forward_one, IsReady, entered, part-Stays}
use bsreadrepeater.Channel.Receive.{
  handle_part, and_receive, Received, end_round, receive_loop, check_parts, forward_if_due,
  bsr_chnhandler_handle_event, part, parse_headers, recv_error, throttle, account, unblock,
  finish_message, throttle_input,
}
use bsreadrepeater.Sockets.{closes, opens, one_if}
use bsreadrepeater.Split.{Timespec}
use bsreadrepeater.Zmq.{Sock}

module _ {F : Type 0} (w : Outside F) (k : Sock) where
  pub record IsLogUntouched (c d : Ctx F) : Type 0 where
    pub opened_as : opens k d.log ≡ opens k c.log
    pub closed_as : closes k d.log ≡ closes k c.log
    pub input_as : d.self.sock_inp ≡ c.self.sock_inp

  pub record IsUntouched (c d : Ctx F) : Type 0 where
    pub rest : IsLogUntouched c d
    pub outputs_as : outputs_held k d.self.socks_out ≡ outputs_held k c.self.socks_out

  IsLogUntouched-refl : (c : Ctx F) → IsLogUntouched c c
  IsLogUntouched-refl c = record { opened_as = refl; closed_as = refl; input_as = refl }

  IsLogUntouched-trans :
      {c d e : Ctx F} → IsLogUntouched c d → IsLogUntouched d e → IsLogUntouched c e
  IsLogUntouched-trans p q = record {
    opened_as = q.opened_as ∙ p.opened_as;
    closed_as = q.closed_as ∙ p.closed_as;
    input_as = q.input_as ∙ p.input_as;
  }

  IsUntouched-refl : (c : Ctx F) → IsUntouched c c
  IsUntouched-refl c = record { rest = IsLogUntouched-refl c; outputs_as = refl }

  IsUntouched-trans : {c d e : Ctx F} → IsUntouched c d → IsUntouched d e → IsUntouched c e
  IsUntouched-trans p q = record {
    rest = IsLogUntouched-trans p.rest q.rest;
    outputs_as = q.outputs_as ∙ p.outputs_as;
  }

  forward_one-log :
      (frame : Bytes) (more : Bool) (so : Sockout) (c : Ctx F)
      → IsLogUntouched c (forward_one w frame more so c).2
  unfolding forward_one opens closes
  forward_one-log frame more so c = ground arith

  forward_all-log :
      (frame : Bytes) (more : Bool) (outs : List Sockout) (c : Ctx F)
      → IsLogUntouched c (forward_all w frame more outs c).2
        × (outputs_held k (forward_all w frame more outs c).1 ≡ outputs_held k outs)
  forward_all-log frame more =
      forward_all_induction w frame more
        (λ c outs r. IsLogUntouched c r.2 × (outputs_held k r.1 ≡ outputs_held k outs))
        (λ c. (IsLogUntouched-refl c, refl))
        (λ c so outs h.
          (forward_one-log frame more so c, rw (sock-forward_one w frame more so c) refl))
        (λ c so outs r h s. (
          IsLogUntouched-trans (forward_one-log frame more so c) s.0,
          rw (sock-forward_one w frame more so c, s.1) refl,
        ))

  forward-IsUntouched :
      (frame : Bytes) (more : Bool) (c : Ctx F) → IsUntouched c (forward w frame more c).1
  unfolding forward
  forward-IsUntouched frame more c =
      let f = forward_all-log frame more c.self.socks_out c in
      record {
        rest = record {
          opened_as = f.0.opened_as;
          closed_as = f.0.closed_as;
          input_as = f.0.input_as;
        };
        outputs_as = f.1;
      }

  outputs_held-unblock :
      (tspoll : Timespec) (outs : List Sockout)
      → outputs_held k (map (unblock w tspoll) outs) ≡ outputs_held k outs
  outputs_held-unblock tspoll [] = refl
  outputs_held-unblock tspoll (so ∷ outs) =
      ap (λ x. one_if (so.sock == k) + x) (outputs_held-unblock tspoll outs)

  entered-IsUntouched :
      (frame : Bytes) (tspoll : Timespec) (c : Ctx F)
      → c.self.do_parse_header ≡ false
      → IsUntouched c (entered w frame tspoll c)
  unfolding parse_headers account
  entered-IsUntouched frame tspoll c h = ground arith

  forward_if_due-IsUntouched :
      (frame : Bytes) (more : Bool) (tspoll : Timespec) (c : Ctx F)
      → IsUntouched c (forward_if_due w tspoll frame more c).1
  unfolding forward_if_due
  forward_if_due-IsUntouched frame more tspoll c =
      by_test (ltb 0 c.self.mpmsgc && not c.self.block_current_mpm)
    where
      by_test : (b : Bool) → IsUntouched c (if b then forward w frame more c else (ok, c)).1
      by_test true = forward-IsUntouched frame more c
      by_test false = IsUntouched-refl c

  finish-IsUntouched :
      (more : Bool) (tspoll : Timespec) (c : Ctx F)
      → IsUntouched c (update (λ m. if more then m else finish_message w tspoll m) c).1
  unfolding finish_message
  finish-IsUntouched true tspoll c = IsUntouched-refl c
  finish-IsUntouched false tspoll c = record {
    rest = record { opened_as = refl; closed_as = refl; input_as = refl };
    outputs_as = outputs_held-unblock tspoll c.self.socks_out;
  }

  end_round-IsUntouched : (tspoll : Timespec) (c : Ctx F) → IsUntouched c (end_round w tspoll c).1
  unfolding end_round throttle throttle_input check_parts bsr_chnhandler_disable_input opens closes
  end_round-IsUntouched tspoll c = ground arith

  part-IsUntouched :
      (frame : Bytes) (more : Bool) (tspoll : Timespec) (c : Ctx F)
      → IsReady c.self
      → IsUntouched c ((handle_part w tspoll frame more >> end_round w tspoll) c).1
  unfolding handle_part
  part-IsUntouched frame more tspoll c r =
      >>-reaches (IsUntouched c) (entering >> forwarding >> finishing >> counting)
        (end_round w tspoll) c
        (>>-reaches (IsUntouched c) (entering >> forwarding >> finishing) counting c
          (>>-reaches (IsUntouched c) (entering >> forwarding) finishing c
            (>>-reaches (IsUntouched c) entering forwarding c
              (entered-IsUntouched frame tspoll c r.unparsed)
              (λ d u. IsUntouched-trans u (forward_if_due-IsUntouched frame more tspoll d)))
            (λ d u. IsUntouched-trans u (finish-IsUntouched more tspoll d)))
          (λ d u. IsUntouched-trans u (record {
            rest = record { opened_as = refl; closed_as = refl; input_as = refl };
            outputs_as = refl;
          })))
        (λ d u. IsUntouched-trans u (end_round-IsUntouched tspoll d))
    where
      entering : Action (Ctx F)
      entering = exec (account w tspoll (length frame)) >> parse_headers w tspoll frame

      forwarding : Action (Ctx F)
      forwarding = forward_if_due w tspoll frame more

      finishing : Action (Ctx F)
      finishing = update (λ m. if more then m else finish_message w tspoll m)

      counting : Action (Ctx F)
      counting = update (λ m. record m { more_last = more })

  and_receive-IsUntouched :
      (tspoll : Timespec) (l : Ctx F → Outcome × Ctx F × List Received) (rest : List Received)
      (c : Ctx F) (r : Outcome × Ctx F)
      → IsUntouched c r.1
      → IsUntouched r.1 (l r.1).1
      → IsUntouched c (and_receive w tspoll l rest r).1
  and_receive-IsUntouched tspoll l rest c (ok, d) s next = by_throttling d.self.throttling
    where
      by_throttling : (b : Bool) → IsUntouched c (if b then (ok, d, rest) else l d).1
      by_throttling true = s
      by_throttling false = IsUntouched-trans s next
  and_receive-IsUntouched tspoll l rest c (fail, d) s next = s
  and_receive-IsUntouched tspoll l rest c (fault, d) s next = s

  receive_loop-IsUntouched :
      (tspoll : Timespec) (inbox : List Received) (c : Ctx F)
      → IsReady c.self
      → IsUntouched c (receive_loop w tspoll inbox c).1
  unfolding receive_loop
  receive_loop-IsUntouched tspoll [] c r = end_round-IsUntouched tspoll c
  receive_loop-IsUntouched tspoll (recv_error ∷ rest) c r = IsUntouched-refl c
  receive_loop-IsUntouched tspoll (part frame more ∷ rest) c r =
      let p = (part-Stays w frame more tspoll c r).0 in
      and_receive-IsUntouched tspoll (receive_loop w tspoll rest) rest c
        ((handle_part w tspoll frame more >> end_round w tspoll) c)
        (part-IsUntouched frame more tspoll c r)
        (receive_loop-IsUntouched tspoll rest
          ((handle_part w tspoll frame more >> end_round w tspoll) c).1 p.ready)

  handle_event-IsUntouched :
      (tspoll : Timespec) (events : ℕ) (inbox : List Received) (c : Ctx F)
      → IsReady c.self
      → IsUntouched c (bsr_chnhandler_handle_event w tspoll events inbox c).1
  unfolding bsr_chnhandler_handle_event
  handle_event-IsUntouched tspoll events inbox c r = by_tests (c.self.state == 1) (events % 2 == 0)
    where
      by_tests :
          (a b : Bool)
          → IsUntouched c
              (if a
                then (if b then (fail, c, inbox) else receive_loop w tspoll inbox c)
                else (fail, c, inbox)).1
      by_tests true true = IsUntouched-refl c
      by_tests true false = receive_loop-IsUntouched tspoll inbox c r
      by_tests false b = IsUntouched-refl c

  -- An event neither opens nor closes a socket, and the source holds the same ones after it.
  pub handle_event-IsOwned :
      (tspoll : Timespec) (events : ℕ) (inbox : List Received) (n : ℕ) (c : Ctx F)
      → IsReady c.self
      → IsOwned w k n c
      → IsOwned w k n (bsr_chnhandler_handle_event w tspoll events inbox c).1
  handle_event-IsOwned tspoll events inbox n c r h =
      let u = handle_event-IsUntouched tspoll events inbox c r in
      rw (u.rest.opened_as, u.rest.closed_as, u.rest.input_as, u.outputs_as) h
