-- ===== src/Channel/Outputs.antt =====
-- The outputs of a source: `bsr_chnhandler_add_out`, `_close_sock`, `_remove_nth_out`, `_remove_out`
-- and `_outputs_count`.
pub mod Changes
use bsreadrepeater.Base.{
  ℕ, ◌++◌, none, ◌+◌, ok, zero, false, if◌then◌else◌, ◌>>◌, Bytes, fault, suc, Option, [], some,
  Action, ℤ, fail, List, ◌∷◌, Outcome,
}
use bsreadrepeater.Channel.{Sockout, Ctx, Outside, Chnhandler, on_log, update}
use bsreadrepeater.Sockopts.{set_push_sock_opts}
use bsreadrepeater.Text.{copy_addr, addr_cap, strncmp_eq}
use bsreadrepeater.Zmq.{
  bind, alloc, nothing, poller_add, attempt, not_opened, call, Log, Sock, push, poller_remove,
  close, opened,
}

-- `g_list_nth` and `g_list_remove` of the element found there. Each output is in the list once.
abbrev pub nth : ℕ → List Sockout → Option Sockout
nth ix [] = none
nth zero (so ∷ outs) = some so
nth (suc ix) (so ∷ outs) = nth ix outs

abbrev pub remove_nth : ℕ → List Sockout → List Sockout
remove_nth ix [] = []
remove_nth zero (so ∷ outs) = outs
remove_nth (suc ix) (so ∷ outs) = so ∷ remove_nth ix outs

-- The loop of `bsr_chnhandler_remove_out`: the index of the first output with the address, or the
-- number of outputs.
unfoldable pub find_out : Bytes → List Sockout → ℕ
find_out addr [] = 0
find_out addr (so ∷ outs) =
    let rest = find_out addr outs in if strncmp_eq addr_cap addr so.addr then 0 else suc rest

unfoldable pub outputs_count : List Sockout → ℕ
outputs_count [] = 0
outputs_count (so ∷ outs) = outputs_count outs + 1

module _ {F : Type 0} (w : Outside F) where
  open w use {env}

  abbrev pub new_output : Sock → Bytes → ℤ → ℤ → Sockout
  new_output sock addr sndhwm sndbuf = record {
    sock = sock;
    sndhwm = sndhwm;
    sndbuf = sndbuf;
    addr = copy_addr addr;
    in_multipart = false;
    block_current_multipart = false;
    sent_count = 0;
    sent_bytes = 0;
    eagain = 0;
    eagain_multipart = 0;
  }

  -- The calls on a socket that is open; where one fails the `cleanup` attribute closes the socket.
  unfoldable pub bind_output : Sock → Bytes → ℤ → ℤ → Action Log
  unfolding set_push_sock_opts call
  bind_output sock addr sndhwm sndbuf =
      set_push_sock_opts env sock sndhwm sndbuf
      >> call env (bind sock (copy_addr addr))
      >> call env (poller_add sock nothing)

  abbrev pub or_close : Sock → Outcome × Log → Outcome × Log
  or_close sock (ok, log) = (ok, log)
  or_close sock (fail, log) = (fail, (attempt env (close sock) log).1)
  or_close sock (fault, log) = (fault, log)

  abbrev pub append_if : Sockout → Outcome × Log → Ctx F → Outcome × Ctx F
  append_if so (ok, log) c =
      (ok, record c { self = record c.self { socks_out = c.self.socks_out ++ so ∷ [] }; log = log })
  append_if so (o, log) c = (o, record c { log = log })

  unfoldable pub bsr_chnhandler_add_out : Bytes → ℤ → ℤ → Action (Ctx F)
  unfolding bind_output call attempt
  bsr_chnhandler_add_out addr sndhwm sndbuf = on_log (call env alloc) >> (λ c.
      elim (env.socket c.log push) [
        | none ↦ (fail, record c { log = not_opened push ∷ c.log })
        | some sock ↦
            append_if (new_output sock addr sndhwm sndbuf)
              (or_close sock (bind_output sock addr sndhwm sndbuf (opened push sock ∷ c.log))) c
      ])

  unfoldable pub bsr_chnhandler_close_sock : Sock → Action (Ctx F)
  unfolding call
  bsr_chnhandler_close_sock sock =
      on_log (call env (poller_remove sock)) >> on_log (call env (close sock))

  unfoldable pub bsr_chnhandler_remove_nth_out : ℕ → Action (Ctx F)
  unfolding bsr_chnhandler_close_sock
  bsr_chnhandler_remove_nth_out ix c = elim (nth ix c.self.socks_out) [
    | none ↦ (ok, c)
    | some so ↦
        (bsr_chnhandler_close_sock so.sock
            >> update (λ m. record m { socks_out = remove_nth ix m.socks_out }))
          c
  ]

  unfoldable pub bsr_chnhandler_remove_out : Bytes → Action (Ctx F)
  unfolding bsr_chnhandler_remove_nth_out find_out
  bsr_chnhandler_remove_out addr c =
      bsr_chnhandler_remove_nth_out (find_out addr c.self.socks_out) c

module _ {F : Type 0} where
  unfoldable pub bsr_chnhandler_outputs_count : Chnhandler F → ℕ
  unfolding outputs_count
  bsr_chnhandler_outputs_count m = outputs_count m.socks_out
