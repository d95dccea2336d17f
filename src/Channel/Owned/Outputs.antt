-- ===== src/Channel/Owned/Outputs.antt =====
-- The sockets of a source: the calls on its outputs, and the clean-up of both.
use bsreadrepeater.Base.{
  Bytes, refl, none, [], Outcome, >>-Preserves, fault, ◌≢◌, ℕ, Option, ◌>>◌, ◌==◌, ok, ◌∷◌, ◌≡◌,
  fail, some, List, arith, ◌+◌, ℤ,
}
use bsreadrepeater.Channel.{Outside, Sockout, on_log, update, Ctx}
use bsreadrepeater.Channel.Open.{cleanup_bsr_chnhandler, close_outputs}
use bsreadrepeater.Channel.Outputs.{
  bsr_chnhandler_close_sock, bind_output, bsr_chnhandler_add_out, new_output, append_if, find_out,
  remove_nth, bsr_chnhandler_remove_nth_out, bsr_chnhandler_remove_out, nth, or_close,
}
use bsreadrepeater.Channel.Owned.{
  removed, source_held, FoundHeld, on_log-KeepsOwned, outputs_held, IsOwned, dropped-IsOpen,
  KeepsOwned, nth-held, outputs_held-append,
}
use bsreadrepeater.Sockets.{
  IsOpen, opens, set_push_sock_opts-KeepsOpen, one_if, then-KeepsOpen, CloseSucceeds, close-IsOpen,
  call-KeepsOpen, KeepsOpen, not_opened-IsOpen, opened-IsOpen, closes,
}
use bsreadrepeater.Sockopts.{
  set_keepalive, set_push_sock_opts, set_sndbuf, set_basic_sock_opts, set_sndhwm,
}
use bsreadrepeater.Text.{copy_addr}
use bsreadrepeater.Zmq.{
  alloc, not_opened, Sock, push, poller_add, close, attempt, call, bind, Log, nothing,
  poller_remove, opened,
}

module _ {F : Type 0} (w : Outside F) (k : Sock) (c : CloseSucceeds w.env) where
  pub close_outputs-IsOpen :
      (outs : List Sockout) (n : ℕ) (log : Log)
      → IsOpen k (outputs_held k outs + n) log
      → IsOpen k n (close_outputs w outs log)
  unfolding close_outputs
  close_outputs-IsOpen [] n log h = omega (arith, h)
  close_outputs-IsOpen (so ∷ outs) n log h =
      close_outputs-IsOpen outs n _
        (dropped-IsOpen w k c so.sock (outputs_held k outs + n) log (omega (arith, h)))

  -- The clean-up closes whatever the source holds.
  pub cleanup-IsOpen :
      (n : ℕ) (d : Ctx F) → IsOwned w k n d → IsOpen k n (cleanup_bsr_chnhandler w d).1.log
  unfolding cleanup_bsr_chnhandler
  cleanup-IsOpen n d h = by_input d.self.sock_inp refl
    where
      outs : List Sockout
      outs = d.self.socks_out

      by_input :
          (s : Option Sock) → d.self.sock_inp ≡ s → IsOpen k n (cleanup_bsr_chnhandler w d).1.log
      by_input none e = rw e (close_outputs-IsOpen outs n d.log (ground (arith, e, h)))
      by_input (some s) e = rw e (
          close_outputs-IsOpen outs n
            ((attempt w.env (poller_remove s) >> attempt w.env (close s)) d.log).1
            (dropped-IsOpen w k c s (outputs_held k outs + n) d.log (ground (arith, e, h))))

  close_sock-IsOwned :
      (so : Sockout) (ix n : ℕ) (d : Ctx F)
      → outputs_held k d.self.socks_out
        ≡ one_if (so.sock == k) + outputs_held k (remove_nth ix d.self.socks_out)
      → IsOwned w k n d
      → IsOwned w k n
          ((bsr_chnhandler_close_sock w so.sock
              >> update (λ m. record m { socks_out = remove_nth ix m.socks_out }))
            d).1
  unfolding bsr_chnhandler_close_sock call opens closes
  close_sock-IsOwned so ix n d e h = ground (arith, e, h, c (removed w k c so.sock d.log) so.sock)

  pub remove_out-KeepsOwned : (addr : Bytes) → KeepsOwned w k (bsr_chnhandler_remove_out w addr)
  unfolding bsr_chnhandler_remove_out bsr_chnhandler_remove_nth_out
  remove_out-KeepsOwned addr n d h =
      by_found (nth ix d.self.socks_out) (nth-held k ix d.self.socks_out)
    where
      ix : ℕ
      ix = find_out addr d.self.socks_out

      by_found :
          (r : Option Sockout)
          → FoundHeld k ix d.self.socks_out r
          → IsOwned w k n
              (elim r as (λ x. Outcome × Ctx F) [
                | none ↦ (ok, d)
                | some so ↦
                    (bsr_chnhandler_close_sock w so.sock
                        >> update (λ m. record m { socks_out = remove_nth ix m.socks_out }))
                      d
              ]).1
      by_found none e = h
      by_found (some so) e = close_sock-IsOwned so ix n d e h

  bind_output-KeepsOpen :
      (sock : Sock) (addr : Bytes) (hwm buf : ℤ)
      → KeepsOpen w.env k (bind_output w sock addr hwm buf)
  unfolding bind_output
  bind_output-KeepsOpen sock addr hwm buf =
      then-KeepsOpen w.env k
        (set_push_sock_opts w.env sock hwm buf >> call w.env (bind sock (copy_addr addr)))
        (call w.env (poller_add sock nothing))
        (then-KeepsOpen w.env k (set_push_sock_opts w.env sock hwm buf)
          (call w.env (bind sock (copy_addr addr)))
          (set_push_sock_opts-KeepsOpen w.env k sock hwm buf)
          (call-KeepsOpen w.env k (bind sock (copy_addr addr)) refl))
        (call-KeepsOpen w.env k (poller_add sock nothing) refl)

  bind_output_returns :
      (sock : Sock) (addr : Bytes) (hwm buf : ℤ) (log : Log)
      → (bind_output w sock addr hwm buf log).0 ≢ fault
  unfolding bind_output set_push_sock_opts set_basic_sock_opts set_keepalive set_sndhwm set_sndbuf
      call
  bind_output_returns sock addr hwm buf log = ground arith

  -- A new output is held, or closed if it could not be set up.
  bound-IsOwned :
      (sock : Sock) (addr : Bytes) (hwm buf : ℤ) (r : Outcome × Log) (n : ℕ) (d : Ctx F)
      → r.0 ≢ fault
      → IsOpen k (one_if (sock == k) + (source_held k d.self + n)) r.1
      → IsOwned w k n (append_if w (new_output w sock addr hwm buf) (or_close w sock r) d).1
  unfolding attempt
  bound-IsOwned sock addr hwm buf (ok, log) n d f h =
      omega (arith, h, outputs_held-append k d.self.socks_out (new_output w sock addr hwm buf))
  bound-IsOwned sock addr hwm buf (fail, log) n d f h =
      close-IsOpen w.env k c sock (source_held k d.self + n) log h
  bound-IsOwned sock addr hwm buf (fault, log) n d f h = absurd (f refl)

  pub add_out-KeepsOwned :
      (addr : Bytes) (hwm buf : ℤ) → KeepsOwned w k (bsr_chnhandler_add_out w addr hwm buf)
  unfolding bsr_chnhandler_add_out
  add_out-KeepsOwned addr hwm buf n =
      >>-Preserves (IsOwned w k n) (on_log (call w.env alloc)) _
        (on_log-KeepsOwned w k (call w.env alloc) (call-KeepsOpen w.env k alloc refl) n)
        (λ d h. by_socket d h (w.env.socket d.log push))
    where
      by_socket :
          (d : Ctx F) (h : IsOwned w k n d) (s : Option Sock)
          → IsOwned w k n
              (elim s as (λ x. Outcome × Ctx F) [
                | none ↦ (fail, record d { log = not_opened push ∷ d.log })
                | some sock ↦
                    append_if w
                      (new_output w sock addr hwm buf)
                      (or_close w sock (bind_output w sock addr hwm buf (opened push sock ∷ d.log)))
                      d
              ]).1
      by_socket d h none = not_opened-IsOpen w.env k push (source_held k d.self + n) d.log h
      by_socket d h (some sock) =
          bound-IsOwned sock addr hwm buf
            (bind_output w sock addr hwm buf (opened push sock ∷ d.log)) n d
            (bind_output_returns sock addr hwm buf (opened push sock ∷ d.log))
            (bind_output-KeepsOpen sock addr hwm buf
              (one_if (sock == k) + (source_held k d.self + n)) (opened push sock ∷ d.log)
              (opened-IsOpen w.env k push sock (source_held k d.self + n) d.log h))
