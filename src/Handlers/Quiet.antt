-- ===== src/Handlers/Quiet.antt =====
-- What the commands call of a source sends nothing.
use bsreadrepeater.Base.{
  Bytes, arith, ℕ, Action, ◌≡◌, ℤ, ◌∷◌, Preserves, ◌+◌, [], fail, >>-Preserves, none, fault, ◌>>◌,
  List, Option, Outcome, some, ok,
}
use bsreadrepeater.Channel.{Ctx, Outside, Statistics, Sockout, on_log, update}
use bsreadrepeater.Channel.Open.{
  fresh, init_header, init_pointers, cleanup_bsr_chnhandler, bsr_chnhandler_reopen_input,
  open_input, close_outputs,
}
use bsreadrepeater.Channel.Outputs.{
  bsr_chnhandler_close_sock, bsr_chnhandler_remove_nth_out, bind_output, bsr_chnhandler_remove_out,
  append_if, bsr_chnhandler_add_out, or_close, new_output,
}
use bsreadrepeater.DummySource.{dummy_source_cleanup}
use bsreadrepeater.Handlers.{
  App, dummy_source, source, memreq, Handler, startup, cleanup_struct_handler,
}
use bsreadrepeater.Handlers.Serving.{close_input, forget_input, count_reopened, count_all}
use bsreadrepeater.Memreq.{cleanup_struct_bsr_memreq}
use bsreadrepeater.Sockopts.{
  set_basic_sock_opts, set_keepalive, set_rcvhwm, set_sndhwm, set_pull_sock_opts,
  set_push_sock_opts, set_rcvbuf, set_sndbuf, set_msgmax,
}
use bsreadrepeater.Startup.{cleanup_struct_bsr_startupcmd}
use bsreadrepeater.Zmq.{
  Log, Sock, Request, sent, call, pull, push, poller_add, attempt, connect, opened, not_opened,
  pollin, alloc, close, poller_remove,
}

-- The calls of `zmq_send`.
unfoldable pub sends : Log → ℕ
sends [] = 0
sends (e ∷ log) = let rest = sends log in elim e [ sent sock b more r ↦ rest + 1 | _ ↦ rest ]

module _ {F : Type 0} (w : Outside F) (n : ℕ) where
  abbrev QuietLog : Action Log → Type 0
  QuietLog = Preserves (λ log. sends log ≡ n)

  abbrev pub QuietCtx : Action (Ctx F) → Type 0
  QuietCtx = Preserves (λ c. sends c.log ≡ n)

  abbrev pub QuietApp : Action (App F) → Type 0
  QuietApp = Preserves (λ a. sends a.log ≡ n)

  pub call-QuietLog : (r : Request) → QuietLog (call w.env r)
  unfolding call sends
  call-QuietLog r log h = h

  pub pull_opts-QuietLog :
      (sock : Sock) (msgmax hwm buf : ℤ) → QuietLog (set_pull_sock_opts w.env sock msgmax hwm buf)
  unfolding set_pull_sock_opts set_basic_sock_opts set_keepalive set_msgmax set_rcvhwm set_rcvbuf
      call sends
  pull_opts-QuietLog sock msgmax hwm buf log h = ground (arith, h)

  pub bind_output-QuietLog :
      (sock : Sock) (addr : Bytes) (hwm buf : ℤ) → QuietLog (bind_output w sock addr hwm buf)
  unfolding bind_output set_push_sock_opts set_basic_sock_opts set_keepalive set_sndhwm set_sndbuf
      call sends
  bind_output-QuietLog sock addr hwm buf log h = ground (arith, h)

  pub remove_out-QuietCtx : (addr : Bytes) → QuietCtx (bsr_chnhandler_remove_out w addr)
  unfolding bsr_chnhandler_remove_out bsr_chnhandler_remove_nth_out bsr_chnhandler_close_sock call
      sends
  remove_out-QuietCtx addr c h = ground (arith, h)

  pub init_pointers-QuietCtx :
      (src : Bytes) (msgmax hwm rcv : ℤ) → QuietCtx (init_pointers w src msgmax hwm rcv)
  unfolding init_pointers fresh call sends
  init_pointers-QuietCtx src msgmax hwm rcv c h = ground (arith, h)

  pub init_header-QuietCtx : QuietCtx (init_header w)
  unfolding init_header call sends
  init_header-QuietCtx c h = ground (arith, h)

  pub or_close-quiet :
      (sock : Sock) (r : Outcome × Log) → sends r.1 ≡ n → sends (or_close w sock r).1 ≡ n
  unfolding sends attempt
  or_close-quiet sock (ok, log) h = h
  or_close-quiet sock (fail, log) h = h
  or_close-quiet sock (fault, log) h = h

  pub append_if-quiet :
      (so : Sockout) (r : Outcome × Log) (c : Ctx F)
      → sends r.1 ≡ n
      → sends (append_if w so r c).1.log ≡ n
  append_if-quiet so (ok, log) c h = h
  append_if-quiet so (fail, log) c h = h
  append_if-quiet so (fault, log) c h = h

  pub add_out-QuietCtx :
      (addr : Bytes) (hwm buf : ℤ) → QuietCtx (bsr_chnhandler_add_out w addr hwm buf)
  unfolding bsr_chnhandler_add_out sends
  add_out-QuietCtx addr hwm buf =
      >>-Preserves (λ c. sends c.log ≡ n) (on_log (call w.env alloc)) _
        (λ c h. call-QuietLog alloc c.log h) (λ c h. by_socket c h (w.env.socket c.log push))
    where
      by_socket :
          (c : Ctx F) (h : sends c.log ≡ n) (k : Option Sock)
          → sends
              (elim k as (λ x. Outcome × Ctx F) [
                | none ↦ (fail, record c { log = not_opened push ∷ c.log })
                | some sock ↦
                    append_if w
                      (new_output w sock addr hwm buf)
                      (or_close w sock (bind_output w sock addr hwm buf (opened push sock ∷ c.log)))
                      c
              ]).1.log
            ≡ n
      by_socket c h none = h
      by_socket c h (some sock) =
          append_if-quiet (new_output w sock addr hwm buf)
            (or_close w sock (bind_output w sock addr hwm buf (opened push sock ∷ c.log))) c
            (or_close-quiet sock (bind_output w sock addr hwm buf (opened push sock ∷ c.log))
              (bind_output-QuietLog sock addr hwm buf (opened push sock ∷ c.log) h))

  pub open_input-QuietCtx : QuietCtx (open_input w)
  unfolding open_input sends
  open_input-QuietCtx c h = by_socket (w.env.socket c.log pull)
    where
      by_socket :
          (s : Option Sock)
          → sends
              (elim s as (λ x. Outcome × Ctx F) [
                | none ↦ (
                  fail,
                  record c {
                    self = record c.self { sock_inp = none };
                    log = not_opened pull ∷ c.log;
                  },
                )
                | some sock ↦
                    (on_log (
                          set_pull_sock_opts w.env sock c.self.inp_msgmax c.self.inp_rcvhwm
                            c.self.inp_rcvbuf)
                        >> on_log (call w.env (connect sock c.self.addr_inp))
                        >> on_log (call w.env (poller_add sock pollin)))
                      (record c {
                        self = record c.self { sock_inp = some sock };
                        log = opened pull sock ∷ c.log;
                      })
              ]).1.log
            ≡ n
      by_socket none = h
      by_socket (some sock) =
          >>-Preserves (λ (d : Ctx F). sends d.log ≡ n)
            (on_log (
                set_pull_sock_opts w.env sock c.self.inp_msgmax c.self.inp_rcvhwm c.self.inp_rcvbuf)
              >> on_log (call w.env (connect sock c.self.addr_inp)))
            (on_log (call w.env (poller_add sock pollin)))
            (>>-Preserves (λ (d : Ctx F). sends d.log ≡ n)
              (on_log (
                set_pull_sock_opts w.env sock c.self.inp_msgmax c.self.inp_rcvhwm
                  c.self.inp_rcvbuf))
              (on_log (call w.env (connect sock c.self.addr_inp)))
              (λ d k.
                pull_opts-QuietLog sock c.self.inp_msgmax c.self.inp_rcvhwm c.self.inp_rcvbuf d.log
                  k)
              (λ d k. call-QuietLog (connect sock c.self.addr_inp) d.log k))
            (λ d k. call-QuietLog (poller_add sock pollin) d.log k)
            (record c {
              self = record c.self { sock_inp = some sock };
              log = opened pull sock ∷ c.log;
            })
            h

  pub close_input-QuietCtx : QuietCtx (close_input w)
  unfolding call sends
  close_input-QuietCtx c h = ground (arith, h)

  pub reopen-QuietCtx : QuietCtx (bsr_chnhandler_reopen_input w)
  unfolding bsr_chnhandler_reopen_input
  reopen-QuietCtx =
      >>-Preserves (λ c. sends c.log ≡ n)
        (close_input w >> forget_input w >> open_input w >> count_reopened w) (count_all w)
        (>>-Preserves (λ c. sends c.log ≡ n) (close_input w >> forget_input w >> open_input w)
          (count_reopened w)
          (>>-Preserves (λ c. sends c.log ≡ n) (close_input w >> forget_input w) (open_input w)
            (>>-Preserves (λ c. sends c.log ≡ n) (close_input w) (forget_input w)
              close_input-QuietCtx (λ c h. h))
            open_input-QuietCtx)
          (λ c h. h))
        (λ c h. h)

  pub close_outputs-quiet :
      (outs : List Sockout) (log : Log) → sends log ≡ n → sends (close_outputs w outs log) ≡ n
  unfolding close_outputs attempt sends
  close_outputs-quiet [] log h = h
  close_outputs-quiet (so ∷ outs) log h = close_outputs-quiet outs _ h

  abbrev drop_input : Action (Ctx F)
  drop_input c = elim c.self.sock_inp [
    | none ↦ (ok, c)
    | some sock ↦
        (on_log (attempt w.env (poller_remove sock) >> attempt w.env (close sock))
            >> update (λ m. record m { sock_inp = none }))
          c
  ]

  abbrev drop_outputs : Action (Ctx F)
  drop_outputs c = (
    ok,
    record c {
      self = record c.self { socks_out = [] };
      log = close_outputs w c.self.socks_out c.log;
    },
  )

  pub drop_input-QuietCtx : QuietCtx drop_input
  unfolding attempt sends
  drop_input-QuietCtx c h = ground (arith, h)

  pub cleanup-QuietCtx : QuietCtx (cleanup_bsr_chnhandler w)
  unfolding cleanup_bsr_chnhandler
  cleanup-QuietCtx =
      >>-Preserves (λ c. sends c.log ≡ n)
        (update (λ m. record m { buf = none; chnmap = none; main_header = none }) >> drop_input)
        drop_outputs
        (>>-Preserves (λ c. sends c.log ≡ n)
          (update (λ m. record m { buf = none; chnmap = none; main_header = none })) drop_input
          (λ c h. h) drop_input-QuietCtx)
        (λ c h. close_outputs-quiet c.self.socks_out c.log h)

  pub cleanup-quiet :
      (m : Handler F) (s : Statistics F) (log : Log)
      → sends log ≡ n
      → sends (cleanup_struct_handler w m s log) ≡ n
  unfolding cleanup_struct_handler cleanup_struct_bsr_startupcmd cleanup_struct_bsr_memreq
      dummy_source_cleanup attempt sends
  cleanup-quiet (source m) s log h = cleanup-QuietCtx (record { self = m; stats = s; log = log }) h
  cleanup-quiet (startup m) s log h = ground (arith, h)
  cleanup-quiet (memreq m) s log h = ground (arith, h)
  cleanup-quiet (dummy_source m) s log h = ground (arith, h)
