-- ===== src/Handlers/OwnedCommands.antt =====
-- The commands on a source that is there keep account of the sockets, and what a handler held that is
-- taken away is closed.
use bsreadrepeater.Base.{
  Bytes, fault, List, arith, Action, some, fail, ok, ℕ, Outcome, [], none, Option, ◌∷◌, ◌+◌, ◌≡◌,
  refl,
}
use bsreadrepeater.Channel.{Outside, Statistics, Ctx}
use bsreadrepeater.Channel.Owned.{KeepsOwned}
use bsreadrepeater.Channel.Owned.Outputs.{cleanup-IsOpen}
use bsreadrepeater.DummySource.{dummy_source_cleanup, DummySource}
use bsreadrepeater.Handlers.{
  Entry, cleanup_all, remove_source_cmd, startup, Handler, dummy_source, on_app_log, App, remove_id,
  source, ignore_failure, with_source, for_source, cleanup_struct_handler,
  handler_list_find_by_input_addr, on_source, handler_list_remove, memreq, lookup_id,
}
use bsreadrepeater.Handlers.Owned.{
  at_source, all_held-remove_id, all_held, on_source-IsAppOwned, handler_held, IsAppOwned,
  IsFoundIn, find-IsFoundIn,
}
use bsreadrepeater.Handlers.Sound.{IsSound}
use bsreadrepeater.Memreq.{cleanup_struct_bsr_memreq}
use bsreadrepeater.Sockets.{close-IsOpen, closes, opens, KeepsOpen, CloseSucceeds, IsOpen, held_by}
use bsreadrepeater.Startup.{cleanup_struct_bsr_startupcmd}
use bsreadrepeater.Zmq.{Log, attempt, call, Sock}

module _ {F : Type 0} (w : Outside F) (k : Sock) where
  -- An action on sound handlers that keeps account of the sockets.
  abbrev pub KeepsAccount : Action (App F) → Type 0
  KeepsAccount m = (n : ℕ) (a : App F) → IsSound a → IsAppOwned k n a → IsAppOwned k n (m a).1

  pub on_app_log-KeepsAccount : (l : Action Log) → KeepsOpen w.env k l → KeepsAccount (on_app_log l)
  on_app_log-KeepsAccount l p n a i o = p (all_held k a.handlers + n) a.log o

  module _ (c : CloseSucceeds w.env) where
    ignored-IsAppOwned :
        (n : ℕ) (r : Outcome × App F) → IsAppOwned k n r.1 → IsAppOwned k n (ignore_failure w r).1
    ignored-IsAppOwned n (ok, a) o = o
    ignored-IsAppOwned n (fail, a) o = o
    ignored-IsAppOwned n (fault, a) o = o

    for_source-IsAppOwned :
        (m : Action (Ctx F)) (e : Entry F) (h : Handler F) (n : ℕ) (a : App F)
        → KeepsOwned w k m
        → lookup_id e.id a.handlers ≡ some h
        → IsAppOwned k n a
        → IsAppOwned k n (for_source w m e h a).1
    for_source-IsAppOwned m e (source self) n a p l o =
        ignored-IsAppOwned n (on_source m e self a)
          (on_source-IsAppOwned k w m e self n a (λ N. p N (at_source k self a)) l o)
    for_source-IsAppOwned m e (startup q) n a p l o = o
    for_source-IsAppOwned m e (memreq q) n a p l o = o
    for_source-IsAppOwned m e (dummy_source q) n a p l o = o

    pub with_source-KeepsAccount :
        (src : Bytes) (m : Action (Ctx F)) → KeepsOwned w k m → KeepsAccount (with_source w src m)
    unfolding with_source
    with_source-KeepsAccount src m p n a i o =
        by_found (handler_list_find_by_input_addr src a.handlers)
          (find-IsFoundIn src a.handlers 0 a.next_id i.ids)
      where
        by_found :
            (r : Option (Entry F))
            → IsFoundIn 0 a.handlers r
            → IsAppOwned k n
                (elim r as (λ x. Outcome × App F) [
                  | none ↦ (ok, a)
                  | some e ↦ for_source w m e e.handler a
                ]).1
        by_found none f = o
        by_found (some e) f = for_source-IsAppOwned m e e.handler n a p f.1 o

    cleanup_dummy-IsOpen :
        (d : DummySource) (n : ℕ) (log : Log)
        → IsOpen k (held_by k d.sock + n) log
        → IsOpen k n (dummy_source_cleanup w.env d log).1
    unfolding dummy_source_cleanup attempt call opens closes
    cleanup_dummy-IsOpen d n log o = by_sock d.sock refl
      where
        by_sock : (s : Option Sock) → d.sock ≡ s → IsOpen k n (dummy_source_cleanup w.env d log).1
        by_sock none e = ground (arith, o, e)
        by_sock (some s) e = ground (arith, o, e, c log s)

    pub cleanup_handler-IsOpen :
        (h : Handler F) (s : Statistics F) (n : ℕ) (log : Log)
        → IsOpen k (handler_held k h + n) log
        → IsOpen k n (cleanup_struct_handler w h s log)
    unfolding cleanup_struct_handler cleanup_struct_bsr_startupcmd cleanup_struct_bsr_memreq
        dummy_source_cleanup attempt call opens closes
    cleanup_handler-IsOpen (source m) s n log o =
        cleanup-IsOpen w k c n (record { self = m; stats = s; log = log }) o
    cleanup_handler-IsOpen (startup m) s n log o = close-IsOpen w.env k c m.sock_out n _ o
    cleanup_handler-IsOpen (memreq m) s n log o = close-IsOpen w.env k c m.sock_out n _ o
    cleanup_handler-IsOpen (dummy_source d) s n log o = cleanup_dummy-IsOpen d n log o

    pub cleanup_all-IsOpen :
        (es : List (Entry F)) (s : Statistics F) (n : ℕ) (log : Log)
        → IsOpen k (all_held k es + n) log
        → IsOpen k n (cleanup_all w es s log)
    unfolding cleanup_all
    cleanup_all-IsOpen [] s n log o = omega (arith, o)
    cleanup_all-IsOpen (e ∷ es) s n log o =
        cleanup_all-IsOpen es s n (cleanup_struct_handler w e.handler s log)
          (cleanup_handler-IsOpen e.handler s (all_held k es + n) log (omega (arith, o)))

    pub remove_source-KeepsAccount : (src : Bytes) → KeepsAccount (remove_source_cmd w src)
    unfolding remove_source_cmd handler_list_remove
    remove_source-KeepsAccount src n a i o =
        by_found (handler_list_find_by_input_addr src a.handlers)
          (find-IsFoundIn src a.handlers 0 a.next_id i.ids)
      where
        by_found :
            (r : Option (Entry F))
            → IsFoundIn 0 a.handlers r
            → IsAppOwned k n
                (elim r as (λ x. Outcome × App F) [
                  | none ↦ (ok, a)
                  | some e ↦ handler_list_remove w e a
                ]).1
        by_found none f = o
        by_found (some e) f =
            cleanup_handler-IsOpen e.handler a.stats (all_held k (remove_id e.id a.handlers) + n)
              a.log (omega (arith, o, all_held-remove_id k e.id e.handler a.handlers f.1))
