-- ===== src/Command/Accounted.antt =====
-- Every socket that is open has an owner: what a command does keeps account of them.
use bsreadrepeater.Base.{
  Bytes, Action, >>-Preserves, none, Outcome, List, arith, ◌≡◌, Preserves, refl, ◌∷◌, [], Option,
  ◌>>◌, ℕ, some,
}
use bsreadrepeater.Channel.{Outside}
use bsreadrepeater.Command.{on_app, reply, Session}
use bsreadrepeater.Command.Dispatch.{
  reset_ages, cut_buf, with_one, params, with_two, source_reply, stats_of,
}
use bsreadrepeater.Command.Reply.{Format}
use bsreadrepeater.Command.Sound.{with_one-IsSound, stats_of-Safe, with_two-IsSound, reply-Safe}
use bsreadrepeater.Handlers.{
  Entry, memreq, Handler, source, dummy_source, App, handler_list_find_by_input_addr, set_handler,
  lookup_id, startup,
}
use bsreadrepeater.Handlers.Owned.{IsAppOwned, IsFoundIn, find-IsFoundIn, all_held-same}
use bsreadrepeater.Handlers.OwnedCommands.{KeepsAccount}
use bsreadrepeater.Handlers.Sound.{IsSound}
use bsreadrepeater.JsonCommand.{JsonParser}
use bsreadrepeater.Sockets.{held_by, closes, opens}
use bsreadrepeater.Zmq.{Sock}

module _ {F : Type 0} (w : Outside F) (fmt : Format F) (parse : JsonParser) (k : Sock) where
  -- The socket has been opened as often as it was closed, but for the handlers of the list and the
  -- command channel that hold it now.
  abbrev pub IsAccounted : Session F → Type 0
  IsAccounted s = IsAppOwned k (held_by k s.chn.socket) s.app

  abbrev pub IsSealed : Session F → Type 0
  IsSealed s = IsSound s.app × IsAccounted s

  abbrev pub Sealed : Action (Session F) → Type 0
  Sealed = Preserves IsSealed

  then-Sealed : (m l : Action (Session F)) → Sealed m → Sealed l → Sealed (m >> l)
  then-Sealed = >>-Preserves IsSealed

  pub on_app-Sealed :
      (m : Action (App F)) → Preserves IsSound m → KeepsAccount w k m → Sealed (on_app m)
  on_app-Sealed m p q s (i, o) = (p s.app i, q (held_by k s.chn.socket) s.app i o)

  reply-IsAccounted :
      (text : Bytes) (s : Session F) → IsAccounted s → IsAccounted (reply w text s).1
  unfolding reply opens closes
  reply-IsAccounted text s o = ground (arith, o)

  pub reply-Sealed : (text : Bytes) → Sealed (reply w text)
  reply-Sealed text s (i, o) = (reply-Safe w fmt parse text s i, reply-IsAccounted text s o)

  cut_buf-Sealed : (n : ℕ) (cmd : Bytes) → Sealed (cut_buf w fmt parse n cmd)
  cut_buf-Sealed n cmd s (i, o) = ground (arith, i, o)

  with_one-KeepsAccount :
      (m : Bytes → Action (App F)) (ps : List Bytes)
      → ((a : Bytes) → KeepsAccount w k (m a))
      → KeepsAccount w k (with_one w fmt parse m ps)
  with_one-KeepsAccount m [] p n a i o = o
  with_one-KeepsAccount m (x ∷ []) p n a i o = p x n a i o
  with_one-KeepsAccount m (x ∷ y ∷ ps) p n a i o = o

  with_two-KeepsAccount :
      (m : Bytes → Bytes → Action (App F)) (ps : List Bytes)
      → ((a b : Bytes) → KeepsAccount w k (m a b))
      → KeepsAccount w k (with_two w fmt parse m ps)
  with_two-KeepsAccount m [] p n a i o = o
  with_two-KeepsAccount m (x ∷ []) p n a i o = o
  with_two-KeepsAccount m (x ∷ y ∷ []) p n a i o = p x y n a i o
  with_two-KeepsAccount m (x ∷ y ∷ z ∷ ps) p n a i o = o

  -- A branch with parameters.
  branch-Sealed :
      (n : ℕ) (cmd text : Bytes) (m : Action (App F))
      → Preserves IsSound m
      → KeepsAccount w k m
      → Sealed (cut_buf w fmt parse n cmd >> on_app m >> reply w text)
  branch-Sealed n cmd text m p q =
      then-Sealed (cut_buf w fmt parse n cmd >> on_app m) (reply w text)
        (then-Sealed (cut_buf w fmt parse n cmd) (on_app m) (cut_buf-Sealed n cmd)
          (on_app-Sealed m p q))
        (reply-Sealed text)

  pub one-Sealed :
      (cmd text : Bytes) (m : Bytes → Action (App F))
      → ((a : Bytes) → Preserves IsSound (m a))
      → ((a : Bytes) → KeepsAccount w k (m a))
      → Sealed (
          cut_buf w fmt parse 2 cmd >> on_app (with_one w fmt parse m (params cmd)) >> reply w text)
  one-Sealed cmd text m p q =
      branch-Sealed 2 cmd text (with_one w fmt parse m (params cmd))
        (with_one-IsSound w fmt parse m (params cmd) p) (with_one-KeepsAccount m (params cmd) q)

  pub two-Sealed :
      (cmd text : Bytes) (m : Bytes → Bytes → Action (App F))
      → ((a b : Bytes) → Preserves IsSound (m a b))
      → ((a b : Bytes) → KeepsAccount w k (m a b))
      → Sealed (
          cut_buf w fmt parse 3 cmd >> on_app (with_two w fmt parse m (params cmd)) >> reply w text)
  two-Sealed cmd text m p q =
      branch-Sealed 3 cmd text (with_two w fmt parse m (params cmd))
        (with_two-IsSound w fmt parse m (params cmd) p) (with_two-KeepsAccount m (params cmd) q)

  -- The ages of a source that are read and set back.
  source_reply-IsAccounted :
      (e : Entry F) (h : Handler F) (s : Session F)
      → lookup_id e.id s.app.handlers ≡ some h
      → IsAccounted s
      → IsAccounted (source_reply w fmt parse e h s).1
  source_reply-IsAccounted e (source m) s l o =
      let old : Handler F = source m in
      let new : Handler F = source (reset_ages w fmt parse m) in
      reply-IsAccounted _
        (record s { app = record s.app { handlers = set_handler e.id new s.app.handlers } })
        (rw (all_held-same k e.id old new s.app.handlers l refl) o)
  source_reply-IsAccounted e (startup m) s l o = reply-IsAccounted [] s o
  source_reply-IsAccounted e (memreq m) s l o = reply-IsAccounted [] s o
  source_reply-IsAccounted e (dummy_source m) s l o = reply-IsAccounted [] s o

  stats_of-IsAccounted :
      (ps : List Bytes) (s : Session F)
      → IsSound s.app
      → IsAccounted s
      → IsAccounted (stats_of w fmt parse ps s).1
  stats_of-IsAccounted [] s i o = reply-IsAccounted [] s o
  stats_of-IsAccounted (p ∷ q ∷ ps) s i o = reply-IsAccounted [] s o
  stats_of-IsAccounted (p ∷ []) s i o =
      by_found (handler_list_find_by_input_addr p s.app.handlers)
        (find-IsFoundIn p s.app.handlers 0 s.app.next_id i.ids)
    where
      by_found :
          (r : Option (Entry F))
          → IsFoundIn 0 s.app.handlers r
          → IsAccounted
              (elim r as (λ x. Outcome × Session F) [
                | none ↦ reply w [] s
                | some e ↦ source_reply w fmt parse e e.handler s
              ]).1
      by_found none f = reply-IsAccounted [] s o
      by_found (some e) f = source_reply-IsAccounted e e.handler s f.1 o

  pub stats_of-Sealed : (ps : List Bytes) → Sealed (stats_of w fmt parse ps)
  stats_of-Sealed ps s (i, o) = (stats_of-Safe w fmt parse ps s i, stats_of-IsAccounted ps s i o)
