-- ===== src/Channel/Forward.antt =====
-- The loop of `bsr_chnhandler_handle_event` that hands a part to every output.
pub mod Induction
pub mod Prefix
pub mod Message
use bsreadrepeater.Base.{
  Bytes, List, ◌∷◌, Action, true, fault, length, add64, ◌==◌, ◌>>◌, sub_ℕ, fail, ℕ, if◌then◌else◌,
  [], ok, ◌/◌, Bool, Outcome,
}
use bsreadrepeater.Channel.{Sockout, Ctx, on_log, Chnhandler, Outside}
use bsreadrepeater.Ema.{bsr_ema_ext_update}
use bsreadrepeater.Split.{micros}
use bsreadrepeater.Zmq.{accepted, msg_copy, Log, again, SendResult, call, sent, msg_init, broken}

module _ {F : Type 0} (w : Outside F) where
  open w use {env, floats}

  -- The age of the main header at the moment of the hand-over, in seconds.
  unfoldable pub track_age : Chnhandler F → Log → Chnhandler F
  unfolding bsr_ema_ext_update
  track_age m log =
      let dt = sub_ℕ (micros (env.realtime log)) (m.ts_main_header_last / 1000) in
      record m {
        msg_emit_age = bsr_ema_ext_update floats (floats.of_micros (floats.of_ℤ dt)) m.msg_emit_age;
      }

  -- The socket is busy (EAGAIN): the rest of the message is dropped for this output.
  unfoldable pub busy : Sockout → Ctx F → Sockout × Ctx F
  busy so c =
      let m = c.self in
      let s = c.stats in
      if so.in_multipart
      then (
        record so {
          block_current_multipart = true;
          eagain_multipart = add64 so.eagain_multipart 1;
        },
        record c {
          self = record m { eagain_multipart = add64 m.eagain_multipart 1 };
          stats = record s { eagain_multipart = add64 s.eagain_multipart 1 };
        },
      )
      else (
        record so { block_current_multipart = true; eagain = add64 so.eagain 1 },
        record c {
          self = record m { eagain = add64 m.eagain 1 };
          stats = record s { eagain = add64 s.eagain 1 };
        },
      )

  -- The socket has taken all `n2` bytes.
  unfoldable pub taken : Bool → ℕ → Sockout → Ctx F → Sockout × Ctx F
  taken more n2 so c =
      let m = c.self in
      let s = c.stats in
      (
        record so {
          sent_count = add64 so.sent_count 1;
          sent_bytes = add64 so.sent_bytes n2;
          in_multipart = more;
        },
        record c {
          self = record m { sentok = add64 m.sentok 1; sent_bytes = add64 m.sent_bytes n2 };
          stats = record s { sentok = add64 s.sentok 1; sent_bytes = add64 s.sent_bytes n2 };
        },
      )

  abbrev ended : Outcome → Sockout × Ctx F → Outcome × Sockout × Ctx F
  ended o (so, c) = (o, so, c)

  unfoldable pub after_send :
      Bytes → Bool → SendResult → Sockout → Ctx F → Outcome × Sockout × Ctx F
  unfolding busy taken
  after_send frame more again so c = ended ok (busy so c)
  after_send frame more broken so c = (fail, so, c)
  after_send frame more (accepted n2) so c =
      if n2 == length frame then ended ok (taken more n2 so c) else (fail, so, c)

  -- `zmq_msg_send` and what follows.
  unfoldable pub send_part : Bytes → Bool → Sockout → Ctx F → Outcome × Sockout × Ctx F
  unfolding track_age after_send
  send_part frame more so c =
      let r = env.send c.log so.sock frame more in
      let log' = sent so.sock frame more r ∷ c.log in
      let m = if more then c.self else track_age c.self log' in
      after_send frame more r so (record c { self = m; log = log' })

  abbrev and_send : Bytes → Bool → Sockout → Outcome × Ctx F → Outcome × Sockout × Ctx F
  and_send frame more so (ok, c) = send_part frame more so c
  and_send frame more so (o, c) = (o, so, c)

  -- One round of the loop.
  unfoldable pub forward_one : Bytes → Bool → Sockout → Ctx F → Outcome × Sockout × Ctx F
  unfolding call send_part
  forward_one frame more so c =
      if so.block_current_multipart
      then (ok, so, c)
      else and_send frame more so ((on_log (call env msg_init) >> on_log (call env msg_copy)) c)

  -- After a round: the rest of the loop `k`, or an early return, which leaves the other outputs alone.
  abbrev pub and_rest :
      (Ctx F → Outcome × List Sockout × Ctx F)
      → List Sockout
      → Outcome × Sockout × Ctx F
      → Outcome × List Sockout × Ctx F
  and_rest k outs (ok, so, c) = let (o, outs', c') = k c in (o, so ∷ outs', c')
  and_rest k outs (fail, so, c) = (fail, so ∷ outs, c)
  and_rest k outs (fault, so, c) = (fault, so ∷ outs, c)

  -- The loop over the outputs.
  unfoldable pub forward_all : Bytes → Bool → List Sockout → Ctx F → Outcome × List Sockout × Ctx F
  forward_all frame more [] c = (ok, [], c)
  forward_all frame more (so ∷ outs) c =
      and_rest (λ d. forward_all frame more outs d) outs (forward_one frame more so c)

  -- The loop, with the list put back.
  unfoldable pub forward : Bytes → Bool → Action (Ctx F)
  forward frame more c =
      let (o, outs, c') = forward_all frame more c.self.socks_out c in
      (o, record c' { self = record c'.self { socks_out = outs } })
