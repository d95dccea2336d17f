-- ===== src/Channel/Receive.antt =====
-- `bsr_chnhandler_handle_event`: the loop that receives and handles the parts of messages.
use bsreadrepeater.Base.{
  ◌&&◌, not, Bytes, negsuc, List, add32, ◌∷◌, Action, false, fault, length, map, u64_mod, add64,
  ◌==◌, pos, ◌+◌, exec, ◌>>◌, fail, ltb, ◌%◌, ℕ, if◌then◌else◌, [], ok, ◌*◌, Bool, u32_mod, Outcome,
}
use bsreadrepeater.Channel.{Sockout, Ctx, update, Chnhandler, Outside}
use bsreadrepeater.Channel.Forward.{forward}
use bsreadrepeater.Channel.Headers.{bsr_chnhandler_parse_header_m, bsr_chnhandler_parse_header_d}
use bsreadrepeater.Channel.Open.{bsr_chnhandler_disable_input}
use bsreadrepeater.Ema.{bsr_ema_update}
use bsreadrepeater.Split.{time_delta_mu, Timespec}
use bsreadrepeater.TimedEvents.{bsr_timed_events_add_input_enable}
use bsreadrepeater.Zmq.{alloc}

-- What `zmq_msg_recv` gives: a part and whether more of its message follow, or an error that is not
-- EAGAIN.
pub data Received : Type 0 where
  part : Bytes → Bool → Received
  recv_error : Received

abbrev pub max_parts : ℕ
max_parts = 500

module _ {F : Type 0} (w : Outside F) (tspoll : Timespec) where
  open w use {env, floats}

  -- The counters of a part of `n` bytes.
  unfoldable pub account : ℕ → Ctx F → Ctx F
  account n c =
      let m = c.self in
      let s = c.stats in
      record c {
        self = record m {
          ts_recv_last = tspoll;
          recv_bytes = add64 m.recv_bytes n;
          mpmsglen = add32 m.mpmsglen n;
          received = add64 m.received 1;
          mpc = if m.more_last then m.mpc + 1 else 0;
        };
        stats = record s { recv_bytes = add64 s.recv_bytes n; received = add64 s.received 1 };
      }

  -- The results of the two parsers are not looked at, but a fault in them is one.
  unfoldable pub parse_headers : Bytes → Action (Ctx F)
  parse_headers frame c =
      if c.self.mpc == 0
      then (let c' = record c { self = record c.self { dh_compr = 0 } } in
          if c.self.do_parse_header then bsr_chnhandler_parse_header_m w frame c' else (ok, c'))
      else if c.self.mpc == 1
      then (if c.self.do_parse_header
          then bsr_chnhandler_parse_header_d w frame tspoll c
          else (ok, c))
      else (ok, c)

  unfoldable pub forward_if_due : Bytes → Bool → Action (Ctx F)
  forward_if_due frame more c =
      if ltb 0 c.self.mpmsgc && not c.self.block_current_mpm
      then forward w frame more c
      else (ok, c)

  abbrev pub unblock : Sockout → Sockout
  unblock so = record so { block_current_multipart = false }

  -- The last part of a message.
  unfoldable pub finish_message : Chnhandler F → Chnhandler F
  unfolding bsr_ema_update time_delta_mu
  finish_message m =
      let expected = add32 1 (2 * m.channel_count) in
      let dt = floats.of_micros (floats.of_ℤ (time_delta_mu m.ts_final_part_last tspoll)) in
      let dt_ema = bsr_ema_update floats dt m.msg_dt_ema in
      record m {
        unexpected_frames_count =
            if m.mpc % u32_mod == expected
            then m.unexpected_frames_count
            else add64 m.unexpected_frames_count 1;
        block_current_mpm = false;
        mpmsgc = add64 m.mpmsgc 1;
        socks_out = map unblock m.socks_out;
        mpmsglen_ema = bsr_ema_update floats (floats.of_ℤ (pos m.mpmsglen)) m.mpmsglen_ema;
        mpmsglen = 0;
        ts_final_part_last = tspoll;
        msg_dt_ema = dt_ema;
        throttling = if m.throttling then not (floats.above dt_ema.ema 96 4) else m.throttling;
      }

  -- The body of the loop for a part, up to `more_last = more`.
  unfoldable pub handle_part : Bytes → Bool → Action (Ctx F)
  handle_part frame more =
      exec (account (length frame))
      >> parse_headers frame
      >> forward_if_due frame more
      >> update (λ m. if more then m else finish_message m)
      >> update (λ m. record m { more_last = more })

  -- The throttling of a source that is not switched off yet.
  unfoldable pub throttle_input : Action (Ctx F)
  unfolding bsr_timed_events_add_input_enable bsr_chnhandler_disable_input time_delta_mu
  throttle_input c =
      let m = record c.self { throttling_enable_count = add64 c.self.throttling_enable_count 1 } in
      let c' = record c { self = m } in
      elim (time_delta_mu c.stats.timed_events.ts_init tspoll) [
        | negsuc n ↦ (fail, c')
        | pos tsmu ↦
            (let due = (tsmu + floats.micros_to_0_0099 m.msg_dt_ema.ema) % u64_mod in
              let allocated = env.answer c.log alloc in
              let (o, events) =
                bsr_timed_events_add_input_enable allocated w.junk m.addr_inp due
                  c.stats.timed_events in
              ((λ d. (o, record d { stats = record d.stats { timed_events = events } }))
                  >> bsr_chnhandler_disable_input w)
                c')
      ]

  unfoldable pub throttle : Action (Ctx F)
  throttle c =
      if c.self.throttling
      then (if c.self.input_disabled then (ok, c) else throttle_input c)
      else (ok, c)

  unfoldable pub check_parts : Action (Ctx F)
  check_parts c = if ltb max_parts c.self.mpc then (fail, c) else (ok, c)

  -- The end of a round of the loop.
  unfoldable pub end_round : Action (Ctx F)
  end_round = throttle >> check_parts

  -- After a round: on with the loop `k`, or out of it, with the rest left in the socket.
  abbrev pub and_receive :
      (Ctx F → Outcome × Ctx F × List Received)
      → List Received
      → Outcome × Ctx F
      → Outcome × Ctx F × List Received
  and_receive k rest (ok, c) = let next = k c in if c.self.throttling then (ok, c, rest) else next
  and_receive k rest (fail, c) = (fail, c, rest)
  and_receive k rest (fault, c) = (fault, c, rest)

  -- The loop. The list holds what the calls of `zmq_msg_recv` give until one says EAGAIN; what the
  -- loop leaves of it is still in the socket.
  unfoldable pub receive_loop : List Received → Ctx F → Outcome × Ctx F × List Received
  receive_loop [] c = let (o, c') = end_round c in (o, c', [])
  receive_loop (recv_error ∷ rest) c = (fail, c, rest)
  receive_loop (part frame more ∷ rest) c =
      and_receive (λ d. receive_loop rest d) rest ((handle_part frame more >> end_round) c)

  -- `events & ZMQ_POLLIN` is the lowest bit of `events`.
  unfoldable pub bsr_chnhandler_handle_event :
      ℕ → List Received → Ctx F → Outcome × Ctx F × List Received
  bsr_chnhandler_handle_event events inbox c =
      if c.self.state == 1
      then (if events % 2 == 0 then (fail, c, inbox) else receive_loop inbox c)
      else (fail, c, inbox)
