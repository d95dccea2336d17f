-- ===== src/Rep/Opened.antt =====
-- The sockets that the set-up opens, and who holds them.
use bsreadrepeater.Base.{
  Bytes, Preserves, ◌+◌, none, ℕ, ◌==◌, false, Option, ◌≡◌, arith, some, ok, Action, ap, fault,
  fail, refl, >>-eq-ok, ◌>>◌, Outcome, true, ◌∙◌, subst, sym,
}
use bsreadrepeater.Channel.{Outside}
use bsreadrepeater.Command.{Session, on_app, bsr_cmdchn_init}
use bsreadrepeater.Command.Accounted.{IsAccounted}
use bsreadrepeater.Command.Reply.{Format}
use bsreadrepeater.Handlers.{App, startup, memreq}
use bsreadrepeater.Handlers.Owned.{all_held, IsAppOwned, handler_list_add-IsAppOwned}
use bsreadrepeater.JsonCommand.{JsonParser}
use bsreadrepeater.Memreq.{bsr_memreq_init, Memreq, Shared}
use bsreadrepeater.Rep.Setup.{
  call_app, add_startup, add_memreq, Made, then_step, keep_startup, keep_memreq, set_up,
  command_step, Step, handlers_step, make_ctx, make_poller,
}
use bsreadrepeater.Rep.Steps.{then_step-Keeps, make_ctx-Keeps, make_poller-Keeps}
use bsreadrepeater.Sockets.{IsOpen, held_by, closes, one_if, is_close_of, opens, call-KeepsOpen}
use bsreadrepeater.Startup.{bsr_startupcmd_init, Startup, Running}
use bsreadrepeater.Zmq.{Log, Request, call, Sock, alloc, ctx_set}

module _ {F : Type 0} (w : Outside F) (fmt : Format F) (parse : JsonParser) (k : Sock) where
  -- Before the command channel has been made.
  abbrev pub IsUnbound : Session F → Type 0
  IsUnbound s = IsAccounted w fmt parse k s × (s.chn.socket ≡ none)

  call-IsUnbound :
      (r : Request) → is_close_of k r ≡ false → Preserves IsUnbound (on_app (call_app w r))
  call-IsUnbound r e s (o, u) = (
    call-KeepsOpen w.env k r e (all_held k s.app.handlers + held_by k s.chn.socket) s.app.log o,
    u,
  )

  cmdchn_init-IsAccounted :
      (addr : Bytes) (s : Session F)
      → IsUnbound s
      → IsAccounted w fmt parse k (bsr_cmdchn_init w addr s).1
  unfolding bsr_cmdchn_init call opens closes
  cmdchn_init-IsAccounted addr s (o, u) = ground (arith, o, u)

  -- An action on the handlers that keeps account if it returns 0.
  abbrev KeepsIfOk : Action (App F) → Type 0
  KeepsIfOk m = (n : ℕ) (a : App F) → IsAppOwned k n a → (m a).0 ≡ ok → IsAppOwned k n (m a).1

  startup_init-IsOpen :
      (fd : ℕ) (addr : Bytes) (junk : Startup) (n : ℕ) (log : Log)
      → IsOpen k n log
      → let r = bsr_startupcmd_init w.env fd addr junk log in
        r.0 ≡ ok → IsOpen k (one_if (r.1.self.sock_out == k) + n) r.1.log
  unfolding bsr_startupcmd_init call opens closes
  startup_init-IsOpen fd addr junk n log h = ground (arith, h)

  memreq_init-IsOpen :
      (addr : Bytes) (junk : Memreq) (n : ℕ) (log : Log)
      → IsOpen k n log
      → let r = bsr_memreq_init w.env addr junk log in
        r.0 ≡ ok → IsOpen k (one_if (r.1.self.sock_out == k) + n) r.1.log
  unfolding bsr_memreq_init call opens closes
  memreq_init-IsOpen addr junk n log h = ground (arith, h)

  then-KeepsIfOk : (m l : Action (App F)) → KeepsIfOk m → KeepsIfOk l → KeepsIfOk (m >> l)
  then-KeepsIfOk m l p q n a o e =
      let (first, both) = >>-eq-ok m l a e in
      subst (λ (x : Outcome × App F). IsAppOwned k n x.1) (sym both)
        (q n (m a).1 (p n a o first) (ap (λ (x : Outcome × App F). x.0) (sym both) ∙ e))

  alloc-KeepsIfOk : KeepsIfOk (call_app w alloc)
  alloc-KeepsIfOk n a o e = call-KeepsOpen w.env k alloc refl (all_held k a.handlers + n) a.log o

  keep_startup-IsAppOwned :
      (r : Outcome × Running) (n : ℕ) (a : App F)
      → (r.0 ≡ ok
          → IsOpen k (one_if (r.1.self.sock_out == k) + (all_held k a.handlers + n)) r.1.log)
      → (keep_startup w r a).0 ≡ ok
      → IsAppOwned k n (keep_startup w r a).1
  keep_startup-IsAppOwned (ok, r) n a h e =
      handler_list_add-IsAppOwned k (startup r.self) n (record a { log = r.log }) (h refl)
  keep_startup-IsAppOwned (fail, r) n a h e = absurd cc
  keep_startup-IsAppOwned (fault, r) n a h e = absurd cc

  keep_memreq-IsAppOwned :
      (r : Outcome × Shared) (n : ℕ) (a : App F)
      → (r.0 ≡ ok
          → IsOpen k (one_if (r.1.self.sock_out == k) + (all_held k a.handlers + n)) r.1.log)
      → (keep_memreq w r a).0 ≡ ok
      → IsAppOwned k n (keep_memreq w r a).1
  keep_memreq-IsAppOwned (ok, r) n a h e =
      handler_list_add-IsAppOwned k (memreq r.self) n (record a { log = r.log }) (h refl)
  keep_memreq-IsAppOwned (fail, r) n a h e = absurd cc
  keep_memreq-IsAppOwned (fault, r) n a h e = absurd cc

  add_startup-KeepsIfOk :
      (fd : Option ℕ) (addr : Bytes) (junk : Startup) → KeepsIfOk (add_startup w fd addr junk)
  unfolding add_startup
  add_startup-KeepsIfOk none addr junk = λ n a o e. o
  add_startup-KeepsIfOk (some fd) addr junk =
      then-KeepsIfOk (call_app w alloc) _ alloc-KeepsIfOk (λ n a o.
        keep_startup-IsAppOwned (bsr_startupcmd_init w.env fd addr junk a.log) n a
          (startup_init-IsOpen fd addr junk (all_held k a.handlers + n) a.log o))

  add_memreq-KeepsIfOk : (addr : Bytes) (junk : Memreq) → KeepsIfOk (add_memreq w addr junk)
  unfolding add_memreq
  add_memreq-KeepsIfOk addr junk = then-KeepsIfOk (call_app w alloc) _ alloc-KeepsIfOk (λ n a o.
      keep_memreq-IsAppOwned (bsr_memreq_init w.env addr junk a.log) n a
        (memreq_init-IsOpen addr junk (all_held k a.handlers + n) a.log o))

  -- A set-up that has returned 0, with the command handler to be cleaned up.
  abbrev pub IsSetUp : Step w → Type 0
  IsSetUp x = x.0 ≡ ok → IsAccounted w fmt parse k x.2 × (x.1.cmdhandler ≡ true)

  then_step-IsSetUp :
      (l : Made → Session F → Step w) (x : Step w)
      → IsSetUp x
      → ((made : Made) (s : Session F)
          → IsAccounted w fmt parse k s
          → made.cmdhandler ≡ true
          → IsSetUp (l made s))
      → IsSetUp (then_step w l x)
  then_step-IsSetUp l (ok, made, s) h p = p made s (h refl).0 (h refl).1
  then_step-IsSetUp l (fail, made, s) h p = λ e. absurd cc
  then_step-IsSetUp l (fault, made, s) h p = λ e. absurd cc

  command_step-IsSetUp :
      (addr : Bytes) (x : Step w) → IsUnbound x.2 → IsSetUp (then_step w (command_step w addr) x)
  command_step-IsSetUp addr (ok, made, s) u e = (cmdchn_init-IsAccounted addr s u, refl)
  command_step-IsSetUp addr (fail, made, s) u e = absurd cc
  command_step-IsSetUp addr (fault, made, s) u e = absurd cc

  handlers_step-IsSetUp :
      (fd : Option ℕ) (addr : Bytes) (start : Startup) (queue : Memreq) (made : Made)
      (s : Session F)
      → IsAccounted w fmt parse k s
      → made.cmdhandler ≡ true
      → IsSetUp (handlers_step w fd addr start queue made s)
  handlers_step-IsSetUp fd addr start queue made s o m e =
      let first_one = add_startup w fd addr start in
      let second_one = add_memreq w addr queue in
      let held = held_by k s.chn.socket in
      let (first, both) = >>-eq-ok (on_app first_one) (on_app second_one) s e in
      (
        subst (λ (x : Outcome × Session F). IsAccounted w fmt parse k x.1) (sym both)
            (add_memreq-KeepsIfOk addr queue held (first_one s.app).1
              (add_startup-KeepsIfOk fd addr start held s.app o first)
              (ap (λ (x : Outcome × Session F). x.0) (sym both) ∙ e)),
        m,
      )

  pub set_up-IsSetUp :
      (addr : Bytes) (fd : Option ℕ) (start : Startup) (queue : Memreq) (s : Session F)
      → IsUnbound s
      → IsSetUp (set_up w addr fd start queue s)
  unfolding set_up
  set_up-IsSetUp addr fd start queue s u =
      then_step-IsSetUp (handlers_step w fd addr start queue) _
        (command_step-IsSetUp addr _ (
          then_step-Keeps w IsUnbound (make_poller w) (make_ctx w s)
            (make_ctx-Keeps w IsUnbound (call-IsUnbound alloc refl) (call-IsUnbound ctx_set refl) s
              u)
            (make_poller-Keeps w IsUnbound (call-IsUnbound alloc refl)
              (call-IsUnbound ctx_set refl))))
        (handlers_step-IsSetUp fd addr start queue)
