-- ===== src/Memreq/Drain.antt =====
-- The queue runs empty.
use bsreadrepeater.Base.{
  Bytes, List, refl, ◌∙◌, true, ap, arith, ◌≡◌, Bool, zero, ◌-◌, ◌<◌, sym, suc, ℕ, get_or, ◌∷◌,
  append-nil, [], false, ◌++◌,
}
use bsreadrepeater.Memreq.{Shared, bsr_memreq_handle_event}
use bsreadrepeater.Memreq.Order.{run, event, through, all_taken, Op, run_order, step}
use bsreadrepeater.Memreq.Ring.{contents, window, IsValid}
use bsreadrepeater.Zmq.{
  Sock, Env, Log, sent_on, recv_reply, call, is_accepted, Request, send_checked,
}

-- As many exchanges with the command socket: it takes a command, and it has replied.
unfoldable pub exchanges : ℕ → List Op
exchanges zero = []
exchanges (suc n) = event 2 ∷ event 1 ∷ exchanges n

module _ (env : Env) where
  -- The calls of the handler succeed.
  abbrev pub Answers : Type 0
  Answers = (log : Log) (r : Request) → env.answer log r ≡ true

  abbrev pub Accepts : Type 0
  Accepts =
      (log : Log) (sock : Sock) (b : Bytes) (more : Bool)
      → is_accepted (env.send log sock b more) ≡ true

  module _ (answers : Answers) (accepts : Accepts) where
    event_sends :
        (s : Shared)
        → s.self.state ≡ 0
        → 0 < s.self.outq_len
        → let t = step env (event 2) s in
          (t.self.state ≡ 1) × (t.self.outq_len ≡ s.self.outq_len - 1)
    unfolding step bsr_memreq_handle_event send_checked call
    event_sends s z l =
        ground (arith, accepts s.log s.self.sock_out (get_or s.self.outq s.self.outq_rp []) false)

    event_receives :
        (s : Shared)
        → s.self.state ≡ 1
        → let t = step env (event 1) s in (t.self.state ≡ 0) × (t.self.outq_len ≡ s.self.outq_len)
    unfolding step bsr_memreq_handle_event send_checked call
    event_receives s z = ground (arith, answers s.log (recv_reply s.self.sock_out))

    drained :
        (n : ℕ) (s : Shared)
        → s.self.state ≡ 0
        → s.self.outq_len ≡ n
        → let t = run env (exchanges n) s in (t.self.state ≡ 0) × (t.self.outq_len ≡ 0)
    unfolding run exchanges
    drained zero s z l = (z, l)
    drained (suc n) s z l =
        let a = event_sends s z (omega (arith, l)) in
        let b = event_receives (step env (event 2) s) a.0 in
        drained n (step env (event 1) (step env (event 2) s)) b.0 (omega (arith, b.1, a.1, l))

  nothing_taken : (n : ℕ) (s : Shared) → all_taken env (exchanges n) s ≡ []
  unfolding all_taken exchanges
  nothing_taken zero s = refl
  nothing_taken (suc n) s = nothing_taken n (step env (event 1) (step env (event 2) s))

  -- If every call succeeds and every command is accepted, a valid queue that waits for no reply is empty
  -- after as many exchanges as it holds commands, a readiness to send and a reply each, and waits for no
  -- reply then. The commands have gone out in their order, behind what had been sent before.
  pub drain_lem :
      (s : Shared)
      → Answers
      → Accepts
      → IsValid s.self
      → s.self.state ≡ 0
      → let t = run env (exchanges s.self.outq_len) s in
        (t.self.outq_len ≡ 0)
        × (t.self.state ≡ 0)
        × (sent_on s.self.sock_out t.log ≡ sent_on s.self.sock_out s.log ++ contents s.self)
  drain_lem s answers accepts v z =
      let n = s.self.outq_len in
      let t = run env (exchanges n) s in
      let d = drained answers accepts n s z refl in
      let e =
        run_order env (exchanges n) s v
        ∙ ap (λ q. through env s.self.sock_out s ++ q) (nothing_taken n s)
        ∙ append-nil _ in
      (
        d.1,
        d.0,
        sym (append-nil _)
            ∙ ap (λ k. sent_on s.self.sock_out t.log ++ window t.self.outq t.self.outq_rp k)
                (sym d.1)
            ∙ e,
      )
