-- ===== src/Channel/Owned.antt =====
-- The sockets of a source: which of the open ones its handler holds, and the calls on its input.
pub mod Outputs
use bsreadrepeater.Base.{
  Bytes, ℕ, ◌∷◌, ◌≡◌, some, Action, Outcome, Option, fail, ℤ, >>-Preserves, [], arith, subst, ◌++◌,
  ◌==◌, ◌+◌, List, refl, ◌>>◌, Preserves, suc, zero, none, ok, >>-if_ok,
}
use bsreadrepeater.Channel.{Chnhandler, Ctx, Sockout, on_log, Outside}
use bsreadrepeater.Channel.Open.{
  fresh, init_pointers, open_input, init_header, bsr_chnhandler_reopen_input,
}
use bsreadrepeater.Channel.Outputs.{nth, remove_nth}
use bsreadrepeater.Handlers.Serving.{forget_input, close_input, count_reopened, count_all}
use bsreadrepeater.Sockets.{
  closes, IsOpen, one_if, KeepsOpen, call-KeepsOpen, held_by, set_pull_sock_opts-KeepsOpen,
  opened-IsOpen, not_opened-IsOpen, opens, CloseSucceeds, close-IsOpen,
}
use bsreadrepeater.Sockopts.{set_pull_sock_opts}
use bsreadrepeater.Zmq.{
  pull, not_opened, connect, Sock, poller_add, opened, pollin, Log, call, attempt, close,
  poller_remove, called,
}

abbrev pub outputs_held : Sock → List Sockout → ℕ
outputs_held k [] = 0
outputs_held k (so ∷ outs) = one_if (so.sock == k) + outputs_held k outs

abbrev pub source_held : {F : Type 0} → Sock → Chnhandler F → ℕ
source_held k m = held_by k m.sock_inp + outputs_held k m.socks_out

pub outputs_held-append :
    (k : Sock) (outs : List Sockout) (so : Sockout)
    → outputs_held k (outs ++ so ∷ []) ≡ one_if (so.sock == k) + outputs_held k outs
outputs_held-append k [] so = refl
outputs_held-append k (x ∷ outs) so = omega (arith, outputs_held-append k outs so)

-- What an index finds is what its removal lets go.
abbrev pub FoundHeld : Sock → ℕ → List Sockout → Option Sockout → Type 0
FoundHeld k ix outs none = Unit {0}
FoundHeld k ix outs (some so) =
    outputs_held k outs ≡ one_if (so.sock == k) + outputs_held k (remove_nth ix outs)

pub nth-held : (k : Sock) (ix : ℕ) (outs : List Sockout) → FoundHeld k ix outs (nth ix outs)
nth-held k ix [] = tt
nth-held k zero (so ∷ outs) = refl
nth-held k (suc ix) (so ∷ outs) = behind (nth ix outs) (nth-held k ix outs)
  where
    behind : (r : Option Sockout) → FoundHeld k ix outs r → FoundHeld k (suc ix) (so ∷ outs) r
    behind none h = tt
    behind (some x) h = omega (arith, h)

module _ {F : Type 0} (w : Outside F) (k : Sock) where
  -- The socket has been opened as often as it was closed, but for what the handler holds of it and the
  -- `n` times that others hold it.
  abbrev pub IsOwned : ℕ → Ctx F → Type 0
  IsOwned n c = IsOpen k (source_held k c.self + n) c.log

  abbrev pub KeepsOwned : Action (Ctx F) → Type 0
  KeepsOwned m = (n : ℕ) → Preserves (IsOwned n) m

  then-KeepsOwned : (m l : Action (Ctx F)) → KeepsOwned m → KeepsOwned l → KeepsOwned (m >> l)
  then-KeepsOwned m l p q n = >>-Preserves (IsOwned n) m l (p n) (q n)

  pub on_log-KeepsOwned : (l : Action Log) → KeepsOpen w.env k l → KeepsOwned (on_log l)
  on_log-KeepsOwned l p n c h = p (source_held k c.self + n) c.log h

  pub init_pointers-IsOwned :
      (src : Bytes) (msgmax hwm rcv : ℤ) (n : ℕ) (c : Ctx F)
      → IsOpen k n c.log
      → IsOwned n (init_pointers w src msgmax hwm rcv c).1
  unfolding init_pointers fresh call opens closes
  init_pointers-IsOwned src msgmax hwm rcv n c h = ground (arith, h)

  pub init_pointers-no_input :
      (src : Bytes) (msgmax hwm rcv : ℤ) (c : Ctx F)
      → (init_pointers w src msgmax hwm rcv c).1.self.sock_inp ≡ none
  unfolding init_pointers fresh call
  init_pointers-no_input src msgmax hwm rcv c = ground arith

  pub init_header-KeepsOwned : KeepsOwned (init_header w)
  unfolding init_header call opens closes
  init_header-KeepsOwned n c h = ground (arith, h)

  pub init_header-input : (c : Ctx F) → (init_header w c).1.self.sock_inp ≡ c.self.sock_inp
  unfolding init_header call
  init_header-input c = ground arith

  pub open_input-IsOwned :
      (n : ℕ) (c : Ctx F) → c.self.sock_inp ≡ none → IsOwned n c → IsOwned n (open_input w c).1
  unfolding open_input
  open_input-IsOwned n c e h = by_socket (w.env.socket c.log pull)
    where
      unheld : IsOpen k (outputs_held k c.self.socks_out + n) c.log
      unheld = omega (
        arith,
        subst (λ s. IsOpen k (held_by k s + outputs_held k c.self.socks_out + n) c.log) e h,
      )

      by_socket :
          (s : Option Sock)
          → IsOwned n
              (elim s as (λ x. Outcome × Ctx F) [
                | none ↦ (
                  fail,
                  record c {
                    self = record c.self { sock_inp = none };
                    log = not_opened pull ∷ c.log;
                  },
                )
                | some sock ↦
                    (on_log (
                          set_pull_sock_opts w.env sock c.self.inp_msgmax c.self.inp_rcvhwm
                            c.self.inp_rcvbuf)
                        >> on_log (call w.env (connect sock c.self.addr_inp))
                        >> on_log (call w.env (poller_add sock pollin)))
                      (record c {
                        self = record c.self { sock_inp = some sock };
                        log = opened pull sock ∷ c.log;
                      })
              ]).1
      by_socket none =
          omega (
            arith,
            not_opened-IsOpen w.env k pull (outputs_held k c.self.socks_out + n) c.log unheld,
          )
      by_socket (some sock) =
          then-KeepsOwned
            (on_log (
                set_pull_sock_opts w.env sock c.self.inp_msgmax c.self.inp_rcvhwm c.self.inp_rcvbuf)
              >> on_log (call w.env (connect sock c.self.addr_inp)))
            (on_log (call w.env (poller_add sock pollin)))
            (then-KeepsOwned
              (on_log (
                set_pull_sock_opts w.env sock c.self.inp_msgmax c.self.inp_rcvhwm
                  c.self.inp_rcvbuf))
              (on_log (call w.env (connect sock c.self.addr_inp)))
              (on_log-KeepsOwned
                (set_pull_sock_opts w.env sock c.self.inp_msgmax c.self.inp_rcvhwm
                  c.self.inp_rcvbuf)
                (set_pull_sock_opts-KeepsOpen w.env k sock c.self.inp_msgmax c.self.inp_rcvhwm
                  c.self.inp_rcvbuf))
              (on_log-KeepsOwned (call w.env (connect sock c.self.addr_inp))
                (call-KeepsOpen w.env k (connect sock c.self.addr_inp) refl)))
            (on_log-KeepsOwned (call w.env (poller_add sock pollin))
              (call-KeepsOpen w.env k (poller_add sock pollin) refl))
            n
            (record c {
              self = record c.self { sock_inp = some sock };
              log = opened pull sock ∷ c.log;
            })
            (omega (
              arith,
              opened-IsOpen w.env k pull sock (outputs_held k c.self.socks_out + n) c.log unheld,
            ))

  -- The first half of a reopening: the input is closed and forgotten, or kept if that fails.
  abbrev let_go : Action (Ctx F)
  let_go = close_input w >> forget_input w

  module _ (c : CloseSucceeds w.env) where
    -- The log behind `zmq_poller_remove`.
    abbrev pub removed : Sock → Log → Log
    removed s log = called (poller_remove s) (w.env.answer log (poller_remove s)) ∷ log

    let_go-KeepsOwned : KeepsOwned let_go
    unfolding call opens closes
    let_go-KeepsOwned n d h = by_input d.self.sock_inp refl
      where
        by_input : (s : Option Sock) → d.self.sock_inp ≡ s → IsOwned n (let_go d).1
        by_input none e = ground (arith, e, h)
        by_input (some s) e = ground (arith, e, h, c (removed s d.log) s)

    pub dropped-IsOpen :
        (s : Sock) (n : ℕ) (log : Log)
        → IsOpen k (one_if (s == k) + n) log
        → IsOpen k n ((attempt w.env (poller_remove s) >> attempt w.env (close s)) log).1
    unfolding attempt opens closes
    dropped-IsOpen s n log h = close-IsOpen w.env k c s n (removed s log) h

    -- After the first half of a reopening that returned 0 there is no input.
    let_go-no_input : (d : Ctx F) → (let_go d).0 ≡ ok → (let_go d).1.self.sock_inp ≡ none
    unfolding call
    let_go-no_input d h = ground (arith, h)

    reopened-KeepsOwned : KeepsOwned (let_go >> open_input w)
    reopened-KeepsOwned n d h =
        let g = let_go-KeepsOwned n d h in
        >>-if_ok (IsOwned n) let_go (open_input w) d g
          (λ o. open_input-IsOwned n (let_go d).1 (let_go-no_input d o) g)

    pub reopen-KeepsOwned : KeepsOwned (bsr_chnhandler_reopen_input w)
    unfolding bsr_chnhandler_reopen_input
    reopen-KeepsOwned =
        then-KeepsOwned (let_go >> open_input w >> count_reopened w) (count_all w)
          (then-KeepsOwned (let_go >> open_input w) (count_reopened w) reopened-KeepsOwned
            (λ n d h. h))
          (λ n d h. h)
