-- ===== src/Handlers/OwnedAdded.antt =====
-- The commands that add a handler keep account of the sockets: what they open the new handler holds.
use bsreadrepeater.Base.{
  Bytes, ◌+◌, ℤ, ◌≢◌, ℕ, Option, fault, Outcome, ◌≡◌, fail, none, ◌∷◌, true, Bool, refl,
  >>-Preserves, >>-if_ok, some, ok, ◌∙◌, if◌then◌else◌, false, arith,
}
use bsreadrepeater.Channel.{Outside, Ctx}
use bsreadrepeater.Channel.Open.{
  init_pointers, fresh, open_input, bsr_chnhandler_connect, init_header,
}
use bsreadrepeater.Channel.Owned.{
  init_pointers-IsOwned, init_pointers-no_input, open_input-IsOwned, init_header-KeepsOwned,
  init_header-input, IsOwned,
}
use bsreadrepeater.DummySource.{DummySource, dummy_source_init}
use bsreadrepeater.Handlers.{
  dummy_source_cmd, new_source, keep_source, dummy_source, handler_list_find_by_input_addr,
  finish_source, source, add_source_cmd, App, Entry, on_app_log, keep_dummy,
}
use bsreadrepeater.Handlers.Find.{opened_source}
use bsreadrepeater.Handlers.Owned.{IsAppOwned, handler_list_add-IsAppOwned, all_held}
use bsreadrepeater.Handlers.OwnedCommands.{KeepsAccount, cleanup_handler-IsOpen}
use bsreadrepeater.Sockets.{IsOpen, opens, closes, call-KeepsOpen, held_by, CloseSucceeds}
use bsreadrepeater.Sockopts.{
  set_rcvhwm, set_basic_sock_opts, set_pull_sock_opts, set_rcvbuf, set_keepalive, set_msgmax,
}
use bsreadrepeater.Zmq.{Sock, call, alloc, called, Log}

module _ {F : Type 0} (w : Outside F) (k : Sock) (c : CloseSucceeds w.env) where
  init_pointers-IsOpen :
      (src : Bytes) (msgmax hwm rcv : ℤ) (n : ℕ) (d : Ctx F)
      → IsOpen k n d.log
      → IsOpen k n (init_pointers w src msgmax hwm rcv d).1.log
  unfolding init_pointers fresh call opens closes
  init_pointers-IsOpen src msgmax hwm rcv n d h = ground (arith, h)

  keep_source-IsAppOwned :
      (r : Outcome × Ctx F) (n : ℕ) (a : App F)
      → r.0 ≢ fault
      → IsOwned w k (all_held k a.handlers + n) r.1
      → IsAppOwned k n (keep_source w r a).1
  keep_source-IsAppOwned (ok, d) n a f o =
      handler_list_add-IsAppOwned k (source d.self) n (record a { stats = d.stats; log = d.log }) o
  keep_source-IsAppOwned (fail, d) n a f o =
      cleanup_handler-IsOpen w k c (source d.self) d.stats (all_held k a.handlers + n) d.log o
  keep_source-IsAppOwned (fault, d) n a f o = absurd (f refl)

  opened_source_returns : (d : Ctx F) → (opened_source w d).0 ≢ fault
  unfolding init_header bsr_chnhandler_connect open_input set_pull_sock_opts set_basic_sock_opts
      set_keepalive set_msgmax set_rcvhwm set_rcvbuf call
  opened_source_returns d = ground arith

  opened_source-IsOwned :
      (n : ℕ) (d : Ctx F)
      → d.self.sock_inp ≡ none
      → IsOwned w k n d
      → IsOwned w k n (opened_source w d).1
  unfolding bsr_chnhandler_connect
  opened_source-IsOwned n d e o =
      let h = init_header-KeepsOwned w k n d o in
      >>-if_ok (IsOwned w k n) (init_header w) (open_input w) d h
        (λ r. open_input-IsOwned w k n (init_header w d).1 (init_header-input w k d ∙ e) h)

  finish_source-IsAppOwned :
      (r : Outcome × Ctx F) (n : ℕ) (a : App F)
      → r.1.self.sock_inp ≡ none
      → IsOwned w k (all_held k a.handlers + n) r.1
      → IsOpen k (all_held k a.handlers + n) r.1.log
      → IsAppOwned k n (finish_source w r a).1
  finish_source-IsAppOwned (ok, d) n a e o l =
      keep_source-IsAppOwned (opened_source w d) n a (opened_source_returns d)
        (opened_source-IsOwned (all_held k a.handlers + n) d e o)
  finish_source-IsAppOwned (fail, d) n a e o l = l
  finish_source-IsAppOwned (fault, d) n a e o l = l

  new_source-KeepsAccount :
      (src : Bytes) (msgmax hwm rcv : ℤ) → KeepsAccount w k (new_source w src msgmax hwm rcv)
  unfolding new_source
  new_source-KeepsAccount src msgmax hwm rcv n a i o =
      >>-Preserves (IsAppOwned k n) (on_app_log (call w.env alloc)) _
        (λ b p. call-KeepsOpen w.env k alloc refl (all_held k b.handlers + n) b.log p)
        (λ b p.
          let d : Ctx F = record { self = w.memory; stats = b.stats; log = b.log } in
          finish_source-IsAppOwned (init_pointers w src msgmax hwm rcv d) n b
            (init_pointers-no_input w k src msgmax hwm rcv d)
            (init_pointers-IsOwned w k src msgmax hwm rcv (all_held k b.handlers + n) d p)
            (init_pointers-IsOpen src msgmax hwm rcv (all_held k b.handlers + n) d p))
        a o

  pub add_source-KeepsAccount :
      (src : Bytes) (msgmax hwm rcv : ℤ) → KeepsAccount w k (add_source_cmd w src msgmax hwm rcv)
  unfolding add_source_cmd
  add_source-KeepsAccount src msgmax hwm rcv n a i o =
      by_found (handler_list_find_by_input_addr src a.handlers)
    where
      by_found :
          (r : Option (Entry F))
          → IsAppOwned k n
              (elim r as (λ x. Outcome × App F) [
                | some e ↦ (ok, a)
                | none ↦ new_source w src msgmax hwm rcv a
              ]).1
      by_found none = new_source-KeepsAccount src msgmax hwm rcv n a i o
      by_found (some e) = o

  dummy_init-IsOpen :
      (n : ℕ) (log : Log)
      → IsOpen k n log
      → let r = dummy_source_init w.env log in IsOpen k (held_by k r.1.sock + n) r.2
  unfolding dummy_source_init call opens closes
  dummy_init-IsOpen n log h = ground (arith, h)

  keep_dummy-IsAppOwned :
      (r : Outcome × DummySource × Log) (n : ℕ) (a : App F)
      → IsOpen k (held_by k r.1.sock + (all_held k a.handlers + n)) r.2
      → IsAppOwned k n (keep_dummy w r a).1
  keep_dummy-IsAppOwned (ok, d, log) n a o =
      handler_list_add-IsAppOwned k (dummy_source d) n (record a { log = log }) o
  keep_dummy-IsAppOwned (fail, d, log) n a o =
      cleanup_handler-IsOpen w k c (dummy_source d) a.stats (all_held k a.handlers + n) log o
  keep_dummy-IsAppOwned (fault, d, log) n a o =
      cleanup_handler-IsOpen w k c (dummy_source d) a.stats (all_held k a.handlers + n) log o

  pub dummy-KeepsAccount : KeepsAccount w k (dummy_source_cmd w)
  unfolding dummy_source_cmd opens closes
  dummy-KeepsAccount n a i o = by_alloc (w.env.answer a.log alloc)
    where
      by_alloc :
          (b : Bool)
          → IsAppOwned k n
              (if b
                then keep_dummy w (dummy_source_init w.env (called alloc true ∷ a.log)) a
                else (fault, record a { log = called alloc false ∷ a.log })).1
      by_alloc true =
          keep_dummy-IsAppOwned (dummy_source_init w.env (called alloc true ∷ a.log)) n a
            (dummy_init-IsOpen (all_held k a.handlers + n) (called alloc true ∷ a.log) o)
      by_alloc false = o
