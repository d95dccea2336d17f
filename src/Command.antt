-- ===== src/Command.antt =====
-- src/bsr_cmdchn.c: the command socket. A command is answered by the branch that its first bytes
-- select; the branches are here and in the modules below.
pub mod Reply
pub mod Dispatch
pub mod Exchange
pub mod Deliver
pub mod Sound
pub mod Events
pub mod Delivered
pub mod Removed
pub mod Answer
pub mod Replies
pub mod Accounted
pub mod AccountedEvents
pub mod AccountedDelivered
use bsreadrepeater.Base.{
  false, ℕ, Bytes, ◌∷◌, min, Option, ◌++◌, none, fail, ok, ◌>>◌, Action, Bool, drop, length, take,
  some, set,
}
use bsreadrepeater.Channel.{Outside}
use bsreadrepeater.Handlers.{App, on_app_log}
use bsreadrepeater.Text.{copy_addr}
use bsreadrepeater.Zmq.{
  poller_add, Sock, sent, attempt, Log, bind, call, opened, not_opened, close, pollin,
  poller_remove, rep,
}

-- `struct bsr_cmdchn`, without the borrowed pointers; `state` is RECV = 1.
pub record Cmdchn : Type 0 where
  pub socket : Option Sock
  pub addr : Bytes

-- The command channel with what the handlers share, and the local array `buf` of the handler.
pub record Session (F : Type 0) : Type 0 where
  pub chn : Cmdchn
  pub app : App F
  pub buf : Bytes
  pub exiting : Bool

-- `N`, the size of `buf`, and what `zmq_recv` may fill of it.
abbrev pub buf_size : ℕ
buf_size = 256

abbrev pub recv_max : ℕ
recv_max = 248

-- What `zmq_recv` gives: a message, whose length is returned also if it did not fit, EFSM, or another
-- error.
pub data CmdReceived : Type 0 where
  message : Bytes → CmdReceived
  wrong_state : CmdReceived
  other_error : CmdReceived

-- The array after `zmq_recv` of a message and `buf[n] = 0`.
unfoldable pub received_into : Bytes → Bytes → Bytes
received_into buf msg =
    set (take recv_max msg ++ drop (min (length msg) recv_max) buf) (length msg) 0

module _ {F : Type 0} where
  abbrev pub on_app : Action (App F) → Action (Session F)
  on_app m s = let (o, a) = m s.app in (o, record s { app = a })

  abbrev pub on_session_log : Action Log → Action (Session F)
  on_session_log m = on_app (on_app_log m)

module _ {F : Type 0} (w : Outside F) where
  open w use {env}

  abbrev pub with_socket : (Sock → Log → Log) → Action (Session F)
  with_socket m s = elim s.chn.socket [
    | none ↦ (ok, s)
    | some sock ↦ (ok, record s { app = record s.app { log = m sock s.app.log } })
  ]

  -- `zmq_send` of a reply, whose result nobody looks at.
  unfoldable pub reply : Bytes → Action (Session F)
  reply text = with_socket (λ sock log. sent sock text false (env.send log sock text false) ∷ log)

  -- `bsr_cmdchn_socket_reopen`: what fails in `bsr_cmdchn_socket_reopen_inner` is printed.
  unfoldable pub bsr_cmdchn_socket_reopen : Action (Session F)
  unfolding call attempt
  bsr_cmdchn_socket_reopen s =
      let closed =
        (with_socket
          (λ sock log. ((attempt env (poller_remove sock) >> attempt env (close sock)) log).1)
          s).1 in
      let log = closed.app.log in
      elim (env.socket log rep) [
        | none ↦ (
          ok,
          record closed {
            chn = record closed.chn { socket = none };
            app = record closed.app { log = not_opened rep ∷ log };
          },
        )
        | some sock ↦ (
          ok,
          record closed {
            chn = record closed.chn { socket = some sock };
            app = record closed.app {
              log =
                  ((call env (bind sock closed.chn.addr) >> call env (poller_add sock pollin))
                    (opened rep sock ∷ log)).1;
            };
          },
        )
      ]

  -- `bsr_cmdchn_init`: the address is copied, and the first call that fails ends it.
  unfoldable pub bsr_cmdchn_init : Bytes → Action (Session F)
  unfolding call copy_addr
  bsr_cmdchn_init addr s = elim (env.socket s.app.log rep) [
    | none ↦ (
      fail,
      record s {
        chn = record { socket = none; addr = copy_addr addr };
        app = record s.app { log = not_opened rep ∷ s.app.log };
      },
    )
    | some sock ↦
        (on_session_log (call env (bind sock addr))
            >> on_session_log (call env (poller_add sock pollin)))
          (record s {
            chn = record { socket = some sock; addr = copy_addr addr };
            app = record s.app { log = opened rep sock ∷ s.app.log };
          })
  ]

  -- `cleanup_bsr_cmdchn`.
  unfoldable pub cleanup_bsr_cmdchn : Action (Session F)
  unfolding attempt
  cleanup_bsr_cmdchn s =
      let closed = (with_socket (λ sock log. (attempt env (close sock) log).1) s).1 in
      (ok, record closed { chn = record closed.chn { socket = none } })
