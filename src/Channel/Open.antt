-- ===== src/Channel/Open.antt =====
-- The life of a source: `bsr_chnhandler_init`, `_connect`, `_reopen_input`, `_disable_input`,
-- `_enable_input` and `cleanup_bsr_chnhandler`.
use bsreadrepeater.Base.{
  none, ok, add64, false, ◌>>◌, Bytes, [], some, true, Action, ℤ, fail, List, ◌∷◌,
}
use bsreadrepeater.Channel.{
  Sockout, update_stats, Ctx, with_input, Outside, Chnhandler, on_log, update,
}
use bsreadrepeater.Ema.{bsr_ema_init, bsr_ema_ext_init, Ema}
use bsreadrepeater.Headers.{MainHeader}
use bsreadrepeater.Sockopts.{set_pull_sock_opts}
use bsreadrepeater.Text.{copy_addr}
use bsreadrepeater.Zmq.{
  alloc, nothing, poller_add, attempt, not_opened, call, Log, poller_remove, poller_modify, pull,
  pollin, connect, close, opened,
}

module _ {F : Type 0} (w : Outside F) where
  open w use {env, floats}

  -- `malloc` or a container constructor, with `NULLRET`.
  abbrev alloc_checked : Action (Ctx F)
  alloc_checked = on_log (call env alloc)

  abbrev header_zero : MainHeader
  header_zero = record { compr = 0; pulse = 0; timestamp = 0 }

  -- The assignments at the start of `bsr_chnhandler_init`, on memory that held `m`.
  unfoldable pub fresh : Bytes → ℤ → ℤ → ℤ → Chnhandler F → Chnhandler F
  unfolding copy_addr
  fresh addr_inp msgmax rcvhwm rcvbuf m = record m {
    sock_inp = none;
    inp_msgmax = msgmax;
    inp_rcvhwm = rcvhwm;
    inp_rcvbuf = rcvbuf;
    addr_inp = copy_addr addr_inp;
    state = 1;
    more_last = false;
    mpc = 0;
    do_parse_header = false;
    mpmsgc = 0;
    mpmsglen = 0;
    printed_compr_unsup = 0;
    received = 0;
    sentok = 0;
    eagain = 0;
    eagain_multipart = 0;
    recv_bytes = 0;
    sent_bytes = 0;
    bsread_errors = 0;
    mhparsed = 0;
    dhparsed = 0;
    dhdecompr = 0;
    json_parse_errors = 0;
    data_header_lz4_count = 0;
    data_header_bslz4_count = 0;
    input_reopened = 0;
    throttling_enable_count = 0;
    timestamp_out_of_range_count = 0;
    unexpected_frames_count = 0;
    input_disabled = false;
    throttling = false;
    block_current_mpm = false;
    socks_out = [];
  }

  abbrev slow_start : Ema F → Ema F
  slow_start e = record e { k = floats.literal 2 2; ema = floats.literal 8 1 }

  -- `bsr_chnhandler_init` up to the last allocation; `c.self` is the memory that it finds. If it ends
  -- in here, some pointers of the handler have not been set.
  unfoldable pub init_pointers : Bytes → ℤ → ℤ → ℤ → Action (Ctx F)
  unfolding fresh call bsr_ema_init bsr_ema_ext_init
  init_pointers addr_inp msgmax rcvhwm rcvbuf =
      update (fresh addr_inp msgmax rcvhwm rcvbuf)
      >> update (λ m. record m {
        mpmsglen_ema = bsr_ema_init floats;
        msg_dt_ema = slow_start (bsr_ema_init floats);
        msg_emit_age = bsr_ema_ext_init floats;
      })
      >> (λ c. update (λ m. record m { ts_final_part_last = env.monotonic c.log }) c)
      >> alloc_checked
      >> update (λ m. record m { buf = some w.junk })
      >> (λ c.
          update
            (λ m. record m {
              last_remember_channels = env.monotonic c.log;
              ts_recv_last = env.monotonic c.log;
            })
            c)
      >> alloc_checked
      >> alloc_checked
      >> update (λ m. record m { chnmap = some [] })

  -- The rest, which begins with the allocation of the main header.
  unfoldable pub init_header : Action (Ctx F)
  unfolding call
  init_header =
      update (λ m. record m { main_header = none })
      >> alloc_checked
      >> update (λ m. record m {
        main_header = some header_zero;
        channel_count = 0;
        ts_main_header_last = 0;
      })

  unfoldable pub bsr_chnhandler_init : Bytes → ℤ → ℤ → ℤ → Action (Ctx F)
  unfolding init_pointers init_header
  bsr_chnhandler_init addr_inp msgmax rcvhwm rcvbuf =
      init_pointers addr_inp msgmax rcvhwm rcvbuf >> init_header

  -- The statements that `_connect` and `_reopen_input` share: a new input socket with its options,
  -- connected and polled.
  unfoldable pub open_input : Action (Ctx F)
  unfolding set_pull_sock_opts call
  open_input c = elim (env.socket c.log pull) [
    | none ↦
        (fail, record c { self = record c.self { sock_inp = none }; log = not_opened pull ∷ c.log })
    | some sock ↦
        (on_log (set_pull_sock_opts env sock c.self.inp_msgmax c.self.inp_rcvhwm c.self.inp_rcvbuf)
            >> on_log (call env (connect sock c.self.addr_inp))
            >> on_log (call env (poller_add sock pollin)))
          (record c {
            self = record c.self { sock_inp = some sock };
            log = opened pull sock ∷ c.log;
          })
  ]

  unfoldable pub bsr_chnhandler_connect : Action (Ctx F)
  unfolding open_input
  bsr_chnhandler_connect = open_input

  unfoldable pub bsr_chnhandler_reopen_input : Action (Ctx F)
  unfolding open_input call
  bsr_chnhandler_reopen_input =
      with_input (λ sock. on_log (call env (poller_remove sock)) >> on_log (call env (close sock)))
      >> update (λ m. record m { sock_inp = none })
      >> open_input
      >> update (λ m. record m { more_last = false; input_reopened = add64 m.input_reopened 1 })
      >> update_stats (λ s. record s { input_reopened = add64 s.input_reopened 1 })

  unfoldable pub bsr_chnhandler_disable_input : Action (Ctx F)
  unfolding call
  bsr_chnhandler_disable_input =
      update (λ m. record m { input_disabled = true })
      >> with_input (λ sock. on_log (call env (poller_modify sock nothing)))

  unfoldable pub bsr_chnhandler_enable_input : Action (Ctx F)
  unfolding call
  bsr_chnhandler_enable_input =
      update (λ m. record m { input_disabled = false })
      >> with_input (λ sock. on_log (call env (poller_modify sock pollin)))

  -- The loop over the outputs in the cleanup; errors are only printed.
  unfoldable pub close_outputs : List Sockout → Log → Log
  unfolding attempt
  close_outputs [] log = log
  close_outputs (so ∷ rest) log =
      close_outputs rest
        ((attempt env (poller_remove so.sock) >> attempt env (close so.sock)) log).1

  -- `cleanup_bsr_chnhandler`, which always returns 0.
  unfoldable pub cleanup_bsr_chnhandler : Action (Ctx F)
  unfolding attempt close_outputs
  cleanup_bsr_chnhandler =
      update (λ m. record m { buf = none; chnmap = none; main_header = none })
      >> (λ c. elim c.self.sock_inp [
        | none ↦ (ok, c)
        | some sock ↦
            (on_log (attempt env (poller_remove sock) >> attempt env (close sock))
                >> update (λ m. record m { sock_inp = none }))
              c
      ])
      >> (λ c. (
        ok,
        record c {
          self = record c.self { socks_out = [] };
          log = close_outputs c.self.socks_out c.log;
        },
      ))
