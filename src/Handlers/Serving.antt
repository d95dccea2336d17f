-- ===== src/Handlers/Serving.antt =====
-- What the calls on a source keep of it.
use bsreadrepeater.Base.{
  some, add64, fault, false, Action, Preserves, ◌>>◌, none, List, ◌∷◌, ok, Option, arith, ℕ, Bytes,
  ℤ, Outcome, fail, >>-Preserves,
}
use bsreadrepeater.Channel.{update, Sockout, on_log, Ctx, Outside, with_input, update_stats}
use bsreadrepeater.Channel.Open.{
  open_input, bsr_chnhandler_reopen_input, bsr_chnhandler_enable_input,
}
use bsreadrepeater.Channel.Outputs.{
  bsr_chnhandler_remove_out, append_if, bsr_chnhandler_add_out, bsr_chnhandler_remove_nth_out,
  bsr_chnhandler_close_sock, new_output, bind_output, or_close,
}
use bsreadrepeater.Channel.Receive.{bsr_chnhandler_handle_event, Received}
use bsreadrepeater.Channel.Service.{handle_event-Served}
use bsreadrepeater.Handlers.Sound.{IsServing}
use bsreadrepeater.Sockopts.{set_pull_sock_opts}
use bsreadrepeater.Split.{Timespec}
use bsreadrepeater.Zmq.{
  Log, not_opened, push, pull, Sock, poller_add, call, pollin, poller_remove, close, alloc, opened,
  connect,
}

module _ {F : Type 0} (w : Outside F) where
  abbrev pub Serving : Action (Ctx F) → Type 0
  Serving = Preserves (IsServing w)

  on_log-Serving : (l : Action Log) → Serving (on_log l)
  on_log-Serving l c h = h

  appended-Serving :
      (addr : Bytes) (sndhwm sndbuf : ℤ) (r : Outcome × Log) (so : Sockout) (c : Ctx F)
      → IsServing w c
      → IsServing w (append_if w so r c).1
  appended-Serving addr sndhwm sndbuf (ok, log) so c h = (
    record {
      in_recv = h.0.in_recv;
      unparsed = h.0.unparsed;
      unthrottled = h.0.unthrottled;
      enabled = h.0.enabled;
    },
    h.1,
    h.2,
  )
  appended-Serving addr sndhwm sndbuf (fail, log) so c h = h
  appended-Serving addr sndhwm sndbuf (fault, log) so c h = h

  bind_new-Serving :
      (addr : Bytes) (sndhwm sndbuf : ℤ) (s : Option Sock) (c : Ctx F)
      → IsServing w c
      → IsServing w
          (elim s as (λ x. Outcome × Ctx F) [
            | none ↦ (fail, record c { log = not_opened push ∷ c.log })
            | some sock ↦
                append_if w
                  (new_output w sock addr sndhwm sndbuf)
                  (or_close w sock
                    (bind_output w sock addr sndhwm sndbuf (opened push sock ∷ c.log)))
                  c
          ]).1
  bind_new-Serving addr sndhwm sndbuf none c h = h
  bind_new-Serving addr sndhwm sndbuf (some sock) c h =
      appended-Serving addr sndhwm sndbuf _ (new_output w sock addr sndhwm sndbuf) c h

  pub add_out-Serving :
      (addr : Bytes) (sndhwm sndbuf : ℤ) → Serving (bsr_chnhandler_add_out w addr sndhwm sndbuf)
  unfolding bsr_chnhandler_add_out
  add_out-Serving addr sndhwm sndbuf =
      >>-Preserves (IsServing w) (on_log (call w.env alloc)) _ (on_log-Serving (call w.env alloc))
        (λ c h. bind_new-Serving addr sndhwm sndbuf (w.env.socket c.log push) c h)

  pub remove_out-Serving : (addr : Bytes) → Serving (bsr_chnhandler_remove_out w addr)
  unfolding bsr_chnhandler_remove_out bsr_chnhandler_remove_nth_out bsr_chnhandler_close_sock
  remove_out-Serving addr c h = ground (arith, h.0, h.1, h.2)

  pub enable_input-Serving : Serving (bsr_chnhandler_enable_input w)
  unfolding bsr_chnhandler_enable_input
  enable_input-Serving c h = ground (arith, h.0, h.1, h.2)

  socket-Serving :
      (s : Option Sock) (c : Ctx F)
      → IsServing w c
      → IsServing w (record c { self = record c.self { sock_inp = s } })
  socket-Serving s c h = (
    record {
      in_recv = h.0.in_recv;
      unparsed = h.0.unparsed;
      unthrottled = h.0.unthrottled;
      enabled = h.0.enabled;
    },
    h.1,
    h.2,
  )

  self-on_log3 : (l m n : Action Log) → Serving (on_log l >> on_log m >> on_log n)
  self-on_log3 l m n =
      >>-Preserves (IsServing w) (on_log l >> on_log m) (on_log n)
        (>>-Preserves (IsServing w) (on_log l) (on_log m) (on_log-Serving l) (on_log-Serving m))
        (on_log-Serving n)

  open_input-Serving : Serving (open_input w)
  unfolding open_input
  open_input-Serving c h = by_socket (w.env.socket c.log pull)
    where
      by_socket :
          (s : Option Sock)
          → IsServing w
              (elim s as (λ x. Outcome × Ctx F) [
                | none ↦ (
                  fail,
                  record c {
                    self = record c.self { sock_inp = none };
                    log = not_opened pull ∷ c.log;
                  },
                )
                | some sock ↦
                    (on_log (
                          set_pull_sock_opts w.env sock c.self.inp_msgmax c.self.inp_rcvhwm
                            c.self.inp_rcvbuf)
                        >> on_log (call w.env (connect sock c.self.addr_inp))
                        >> on_log (call w.env (poller_add sock pollin)))
                      (record c {
                        self = record c.self { sock_inp = some sock };
                        log = opened pull sock ∷ c.log;
                      })
              ]).1
      by_socket none = socket-Serving none c h
      by_socket (some sock) =
          self-on_log3
            (set_pull_sock_opts w.env sock c.self.inp_msgmax c.self.inp_rcvhwm c.self.inp_rcvbuf)
            (call w.env (connect sock c.self.addr_inp)) (call w.env (poller_add sock pollin))
            (record c {
              self = record c.self { sock_inp = some sock };
              log = opened pull sock ∷ c.log;
            })
            (socket-Serving (some sock) c h)

  -- The parts of `bsr_chnhandler_reopen_input`.
  abbrev pub close_input : Action (Ctx F)
  close_input =
      with_input
        (λ sock. on_log (call w.env (poller_remove sock)) >> on_log (call w.env (close sock)))

  abbrev pub forget_input : Action (Ctx F)
  forget_input = update (λ m. record m { sock_inp = none })

  abbrev pub count_reopened : Action (Ctx F)
  count_reopened =
      update (λ m. record m { more_last = false; input_reopened = add64 m.input_reopened 1 })

  abbrev pub count_all : Action (Ctx F)
  count_all = update_stats (λ s. record s { input_reopened = add64 s.input_reopened 1 })

  close_input-Serving : Serving close_input
  close_input-Serving c h = ground (arith, h.0, h.1, h.2)

  count_reopened-Serving : Serving count_reopened
  count_reopened-Serving c h = (ground (arith, h.0), h.1, h.2)

  pub reopen_input-Serving : Serving (bsr_chnhandler_reopen_input w)
  unfolding bsr_chnhandler_reopen_input
  reopen_input-Serving =
      >>-Preserves (IsServing w) (close_input >> forget_input >> open_input w >> count_reopened)
        count_all
        (>>-Preserves (IsServing w) (close_input >> forget_input >> open_input w) count_reopened
          (>>-Preserves (IsServing w) (close_input >> forget_input) (open_input w)
            (>>-Preserves (IsServing w) close_input forget_input close_input-Serving
              (λ c h. socket-Serving none c h))
            open_input-Serving)
          count_reopened-Serving)
        (λ c h. h)

  -- What an event on a source keeps of it.
  pub event-Serving :
      (tspoll : Timespec) (events : ℕ) (inbox : List Received) (c : Ctx F)
      → IsServing w c
      → IsServing w (bsr_chnhandler_handle_event w tspoll events inbox c).1
  event-Serving tspoll events inbox c h =
      let s = (handle_event-Served w tspoll events inbox c h.0).0 in
      (s.ready, rw s.addr h.1, rw s.events h.2)
