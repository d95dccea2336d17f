-- ===== src/Command/Sound.antt =====
-- Every message on the command socket, and every event on a handler, keeps the handlers sound.
use bsreadrepeater.Base.{
  false, List, [], none, some, ℕ, Option, arith, Bytes, ok, >>-Preserves, done, ◌∷◌, Preserves,
  Action, Outcome, ◌>>◌, ℤ,
}
use bsreadrepeater.Channel.{Outside}
use bsreadrepeater.Command.{Session, on_app, reply}
use bsreadrepeater.Command.Dispatch.{
  stats_of, source_reply, with_one, with_two, json_branch, cut_buf, reset_ages, run_json,
}
use bsreadrepeater.Command.Reply.{Format}
use bsreadrepeater.Handlers.{
  Handler, add_output_cmd, Entry, startup, reconnect_source_cmd, dummy_source, dummy_source_cmd,
  add_source_cmd, remove_output_cmd, App, handler_list_find_by_input_addr, set_handler, memreq,
  source,
}
use bsreadrepeater.Handlers.Commands.{
  with_source-IsSound, add_source_cmd-IsSound, dummy_source_cmd-IsSound,
}
use bsreadrepeater.Handlers.Lookup.{set_handler-Ascending}
use bsreadrepeater.Handlers.Serving.{reopen_input-Serving, remove_out-Serving, add_out-Serving}
use bsreadrepeater.Handlers.Sound.{
  IsSoundHandler, AllSound-set_handler, IsSound, FoundSound, find_sound,
}
use bsreadrepeater.JsonCommand.{
  CommandKind, JsonParser, parse_json_command, dummy_source_start, zero_command, remove_source,
  JsonCommand, add_source, add_output, exit,
}
use bsreadrepeater.Text.{codes}
use bsreadrepeater.Zmq.{Sock, Log, sent}

module _ {F : Type 0} (w : Outside F) (fmt : Format F) (parse : JsonParser) where
  abbrev pub SoundSession : Session F → Type 0
  SoundSession s = IsSound s.app

  abbrev pub Safe : Action (Session F) → Type 0
  Safe = Preserves SoundSession

  then-Safe : (m k : Action (Session F)) → Safe m → Safe k → Safe (m >> k)
  then-Safe = >>-Preserves SoundSession

  logged : (a : App F) (l : Log) → IsSound a → IsSound (record a { log = l })
  logged a l i = record { handlers_sound = i.handlers_sound; ids = i.ids; calm = i.calm }

  pub reply-Safe : (text : Bytes) → Safe (reply w text)
  unfolding reply
  reply-Safe text s i = by_socket s.chn.socket
    where
      by_socket :
          (k : Option Sock)
          → IsSound
              (elim k as (λ x. Outcome × Session F) [
                | none ↦ (ok, s)
                | some sock ↦ (
                  ok,
                  record s {
                    app = record s.app {
                      log = sent sock text false (w.env.send s.app.log sock text false) ∷ s.app.log;
                    };
                  },
                )
              ]).1.app
      by_socket none = i
      by_socket (some sock) = logged s.app _ i

  pub on_app-Safe : (m : Action (App F)) → Preserves IsSound m → Safe (on_app m)
  on_app-Safe m k s i = k s.app i

  cut_buf-Safe : (k : ℕ) (cmd : Bytes) → Safe (cut_buf w fmt parse k cmd)
  cut_buf-Safe k cmd s i = ground (arith, i)

  pub with_one-IsSound :
      (m : Bytes → Action (App F)) (ps : List Bytes)
      → ((a : Bytes) → Preserves IsSound (m a))
      → Preserves IsSound (with_one w fmt parse m ps)
  with_one-IsSound m [] k a i = i
  with_one-IsSound m (p ∷ []) k a i = k p a i
  with_one-IsSound m (p ∷ q ∷ ps) k a i = i

  pub with_two-IsSound :
      (m : Bytes → Bytes → Action (App F)) (ps : List Bytes)
      → ((a b : Bytes) → Preserves IsSound (m a b))
      → Preserves IsSound (with_two w fmt parse m ps)
  with_two-IsSound m [] k a i = i
  with_two-IsSound m (p ∷ []) k a i = i
  with_two-IsSound m (p ∷ q ∷ []) k a i = k p q a i
  with_two-IsSound m (p ∷ q ∷ r ∷ ps) k a i = i

  pub add_output_cmd-IsSound :
      (src out : Bytes) (hwm buf : ℤ) → Preserves IsSound (add_output_cmd w src out hwm buf)
  unfolding add_output_cmd
  add_output_cmd-IsSound src out hwm buf =
      with_source-IsSound w src _ (add_out-Serving w out hwm buf)

  pub remove_output_cmd-IsSound :
      (src out : Bytes) → Preserves IsSound (remove_output_cmd w src out)
  unfolding remove_output_cmd
  remove_output_cmd-IsSound src out = with_source-IsSound w src _ (remove_out-Serving w out)

  pub reconnect_source_cmd-IsSound : (src : Bytes) → Preserves IsSound (reconnect_source_cmd w src)
  unfolding reconnect_source_cmd
  reconnect_source_cmd-IsSound src = with_source-IsSound w src _ (reopen_input-Serving w)

  -- A branch with parameters: the strings are cut, the command runs, and the reply goes out.
  pub branch-Safe :
      (k : ℕ) (cmd text : Bytes) (m : Action (App F))
      → Preserves IsSound m
      → Safe (cut_buf w fmt parse k cmd >> on_app m >> reply w text)
  branch-Safe k cmd text m p =
      then-Safe (cut_buf w fmt parse k cmd >> on_app m) (reply w text)
        (then-Safe (cut_buf w fmt parse k cmd) (on_app m) (cut_buf-Safe k cmd) (on_app-Safe m p))
        (reply-Safe text)

  pub run_json-IsSound : (c : JsonCommand) → Preserves IsSound (run_json w fmt parse c)
  unfolding run_json
  run_json-IsSound c = by_kind c.kind
    where
      by_kind :
          (k : CommandKind)
          → Preserves IsSound (elim k as (λ x. Action (App F)) [
            | add_source ↦ add_source_cmd w c.source c.msgmax c.rcvhwm c.rcvbuf
            | remove_source ↦ done
            | add_output ↦ add_output_cmd w c.source c.output c.sndhwm c.sndbuf
            | exit ↦ done
            | dummy_source_start ↦ dummy_source_cmd w
          ])
      by_kind add_source = add_source_cmd-IsSound w c.source c.msgmax c.rcvhwm c.rcvbuf
      by_kind remove_source = λ a i. i
      by_kind add_output = add_output_cmd-IsSound c.source c.output c.sndhwm c.sndbuf
      by_kind exit = λ a i. i
      by_kind dummy_source_start = dummy_source_cmd-IsSound w

  pub json_branch-Safe : (cmd : Bytes) → Safe (json_branch w fmt parse cmd)
  unfolding json_branch
  json_branch-Safe cmd = by_parse (parse_json_command parse cmd zero_command)
    where
      by_parse :
          (r : Option JsonCommand)
          → Safe (elim r as (λ x. Action (Session F)) [
            | none ↦ reply w (codes "JSON parse error")
            | some c ↦ on_app (run_json w fmt parse c) >> reply w (codes "received json command")
          ])
      by_parse none = reply-Safe (codes "JSON parse error")
      by_parse (some c) =
          then-Safe _ (reply w (codes "received json command"))
            (on_app-Safe (run_json w fmt parse c) (run_json-IsSound c))
            (reply-Safe (codes "received json command"))

  source_reply-Safe :
      (e : Entry F) (h : Handler F) → IsSoundHandler h → Safe (source_reply w fmt parse e h)
  source_reply-Safe e (source m) k s i = reply-Safe _ (record s { app = a }) reset
    where
      a : App F
      a = record s.app {
        handlers = set_handler e.id (source (reset_ages w fmt parse m)) s.app.handlers;
      }

      reset : IsSound a
      reset = record {
        handlers_sound =
            AllSound-set_handler e.id (source (reset_ages w fmt parse m)) s.app.handlers
              (ground (arith, k.0), k.1) i.handlers_sound;
        ids =
            set_handler-Ascending e.id (source (reset_ages w fmt parse m)) s.app.handlers 0
              s.app.next_id i.ids;
        calm = i.calm;
      }
  source_reply-Safe e (startup m) k s i = reply-Safe [] s i
  source_reply-Safe e (memreq m) k s i = reply-Safe [] s i
  source_reply-Safe e (dummy_source m) k s i = reply-Safe [] s i

  pub stats_of-Safe : (ps : List Bytes) → Safe (stats_of w fmt parse ps)
  stats_of-Safe [] s i = reply-Safe [] s i
  stats_of-Safe (p ∷ q ∷ ps) s i = reply-Safe [] s i
  stats_of-Safe (p ∷ []) s i =
      by_found (handler_list_find_by_input_addr p s.app.handlers)
        (find_sound p s.app.handlers i.handlers_sound)
    where
      by_found :
          (r : Option (Entry F))
          → FoundSound r
          → IsSound
              (elim r as (λ x. Outcome × Session F) [
                | none ↦ reply w [] s
                | some e ↦ source_reply w fmt parse e e.handler s
              ]).1.app
      by_found none k = reply-Safe [] s i
      by_found (some e) k = source_reply-Safe e e.handler k s i
