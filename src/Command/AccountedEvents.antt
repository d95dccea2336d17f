-- ===== src/Command/AccountedEvents.antt =====
-- Whatever arrives in an event, every socket that is open has an owner.
use bsreadrepeater.Base.{
  Bytes, true, inl, ◌≡◌, some, inr, none, ℤ, pos, ◌∷◌, Option, >>-Preserves, done, ◌*◌, refl, arith,
  Action, ◌>>◌, [], List, false,
}
use bsreadrepeater.Channel.{Outside}
use bsreadrepeater.Channel.Open.{bsr_chnhandler_reopen_input}
use bsreadrepeater.Channel.Outputs.{bsr_chnhandler_add_out, bsr_chnhandler_remove_out}
use bsreadrepeater.Channel.Owned.{reopen-KeepsOwned}
use bsreadrepeater.Channel.Owned.Outputs.{remove_out-KeepsOwned, add_out-KeepsOwned}
use bsreadrepeater.Command.{
  Session, received_into, reply, bsr_cmdchn_socket_reopen, on_app, message, wrong_state,
  other_error, CmdReceived,
}
use bsreadrepeater.Command.Accounted.{
  on_app-Sealed, two-Sealed, IsSealed, one-Sealed, reply-Sealed, IsAccounted, Sealed,
  stats_of-Sealed,
}
use bsreadrepeater.Command.Dispatch.{
  text_sndhwm, reconnect_source_text, branch_of, reconnect_source_branch, stats_branch,
  handle_message, add_output_text, json_text, add_source_text, sources_query, run_branch,
  add_source_branch, exit_text, add_output_branch, unknown_text, stats_query, exit_branch,
  remove_source_branch, stats_source_branch, params, source_stats_query, remove_output_branch,
  Branch, remove_output_text, remove_source_text, list_sources_branch, run_json, text_sndbuf,
  json_branch, command_loop, bsr_cmdchn_handle_event,
}
use bsreadrepeater.Command.Events.{reopen-Safe}
use bsreadrepeater.Command.Exchange.{handle_message_lem, as_read}
use bsreadrepeater.Command.Reply.{Format, sources_text, stats_text}
use bsreadrepeater.Command.Sound.{
  remove_output_cmd-IsSound, add_output_cmd-IsSound, run_json-IsSound, reconnect_source_cmd-IsSound,
}
use bsreadrepeater.Handlers.{
  add_output_cmd, remove_output_cmd, App, reconnect_source_cmd, add_source_cmd, remove_source_cmd,
  dummy_source_cmd,
}
use bsreadrepeater.Handlers.Commands.{remove_source_cmd-IsSound, add_source_cmd-IsSound}
use bsreadrepeater.Handlers.OwnedAdded.{add_source-KeepsAccount, dummy-KeepsAccount}
use bsreadrepeater.Handlers.OwnedCommands.{
  KeepsAccount, remove_source-KeepsAccount, with_source-KeepsAccount,
}
use bsreadrepeater.JsonCommand.{
  zero_command, CommandKind, dummy_source_start, default_hwm, remove_source, exit, add_source,
  parse_json_command, JsonCommand, JsonParser, default_msg_max, add_output,
}
use bsreadrepeater.Sockets.{CloseSucceeds, opens, closes}
use bsreadrepeater.Text.{codes}
use bsreadrepeater.Zmq.{Sock, call, poller_remove, attempt, called}

module _ {F : Type 0} (w : Outside F) (fmt : Format F) (parse : JsonParser) (k : Sock)
    (c : CloseSucceeds w.env) where
  add_output-KeepsAccount :
      (src out : Bytes) (hwm buf : ℤ) → KeepsAccount w k (add_output_cmd w src out hwm buf)
  unfolding add_output_cmd
  add_output-KeepsAccount src out hwm buf =
      with_source-KeepsAccount w k c src (bsr_chnhandler_add_out w out hwm buf)
        (add_out-KeepsOwned w k c out hwm buf)

  remove_output-KeepsAccount : (src out : Bytes) → KeepsAccount w k (remove_output_cmd w src out)
  unfolding remove_output_cmd
  remove_output-KeepsAccount src out =
      with_source-KeepsAccount w k c src (bsr_chnhandler_remove_out w out)
        (remove_out-KeepsOwned w k c out)

  reconnect-KeepsAccount : (src : Bytes) → KeepsAccount w k (reconnect_source_cmd w src)
  unfolding reconnect_source_cmd
  reconnect-KeepsAccount src =
      with_source-KeepsAccount w k c src (bsr_chnhandler_reopen_input w) (reopen-KeepsOwned w k c)

  run_json-KeepsAccount : (j : JsonCommand) → KeepsAccount w k (run_json w fmt parse j)
  unfolding run_json
  run_json-KeepsAccount j = by_kind j.kind
    where
      by_kind :
          (x : CommandKind)
          → KeepsAccount w k (elim x as (λ y. Action (App F)) [
            | add_source ↦ add_source_cmd w j.source j.msgmax j.rcvhwm j.rcvbuf
            | remove_source ↦ done
            | add_output ↦ add_output_cmd w j.source j.output j.sndhwm j.sndbuf
            | exit ↦ done
            | dummy_source_start ↦ dummy_source_cmd w
          ])
      by_kind add_source = add_source-KeepsAccount w k c j.source j.msgmax j.rcvhwm j.rcvbuf
      by_kind remove_source = λ n a i o. o
      by_kind add_output = add_output-KeepsAccount j.source j.output j.sndhwm j.sndbuf
      by_kind exit = λ n a i o. o
      by_kind dummy_source_start = dummy-KeepsAccount w k c

  json_branch-Sealed : (cmd : Bytes) → Sealed w fmt parse k (json_branch w fmt parse cmd)
  unfolding json_branch
  json_branch-Sealed cmd = by_parse (parse_json_command parse cmd zero_command)
    where
      by_parse :
          (r : Option JsonCommand)
          → Sealed w fmt parse k (elim r as (λ x. Action (Session F)) [
            | none ↦ reply w (codes "JSON parse error")
            | some j ↦ on_app (run_json w fmt parse j) >> reply w (codes "received json command")
          ])
      by_parse none = reply-Sealed w fmt parse k (codes "JSON parse error")
      by_parse (some j) =
          >>-Preserves (IsSealed w fmt parse k) (on_app (run_json w fmt parse j))
            (reply w (codes "received json command"))
            (on_app-Sealed w fmt parse k (run_json w fmt parse j) (run_json-IsSound w fmt parse j)
              (run_json-KeepsAccount j))
            (reply-Sealed w fmt parse k (codes "received json command"))

  run_branch-Sealed :
      (b : Branch) (cmd : Bytes) → Sealed w fmt parse k (run_branch w fmt parse b cmd)
  unfolding run_branch exit_branch stats_branch stats_source_branch list_sources_branch
      add_source_branch add_output_branch remove_source_branch reconnect_source_branch
      remove_output_branch
  run_branch-Sealed json_text cmd = json_branch-Sealed cmd
  run_branch-Sealed exit_text cmd =
      λ s i. reply-Sealed w fmt parse k (codes "exit") (record s { exiting = true }) i
  run_branch-Sealed stats_query cmd =
      λ s i. reply-Sealed w fmt parse k (stats_text fmt s.app.stats) s i
  run_branch-Sealed source_stats_query cmd = stats_of-Sealed w fmt parse k (params cmd)
  run_branch-Sealed sources_query cmd =
      λ s i. reply-Sealed w fmt parse k (sources_text s.app.handlers) s i
  run_branch-Sealed add_source_text cmd =
      one-Sealed w fmt parse k cmd (codes "add-source: done (rev2)")
        (λ a. add_source_cmd w a default_msg_max default_hwm (pos (1024 * 1024 * 2)))
        (λ a. add_source_cmd-IsSound w a default_msg_max default_hwm (pos (1024 * 1024 * 2)))
        (λ a. add_source-KeepsAccount w k c a default_msg_max default_hwm (pos (1024 * 1024 * 2)))
  run_branch-Sealed add_output_text cmd =
      two-Sealed w fmt parse k cmd (codes "add-output: done")
        (λ a b. add_output_cmd w a b text_sndhwm text_sndbuf)
        (λ a b. add_output_cmd-IsSound w fmt parse a b text_sndhwm text_sndbuf)
        (λ a b. add_output-KeepsAccount a b text_sndhwm text_sndbuf)
  run_branch-Sealed remove_source_text cmd =
      one-Sealed w fmt parse k cmd (codes "done") (remove_source_cmd w)
        (remove_source_cmd-IsSound w) (remove_source-KeepsAccount w k c)
  run_branch-Sealed reconnect_source_text cmd =
      one-Sealed w fmt parse k cmd (codes "done") (reconnect_source_cmd w)
        (reconnect_source_cmd-IsSound w fmt parse) reconnect-KeepsAccount
  run_branch-Sealed remove_output_text cmd =
      two-Sealed w fmt parse k cmd (codes "remove-output: done") (remove_output_cmd w)
        (remove_output_cmd-IsSound w fmt parse) remove_output-KeepsAccount
  run_branch-Sealed unknown_text cmd = reply-Sealed w fmt parse k (codes "Unknown command")

  handle_message-Sealed : (msg : Bytes) → Sealed w fmt parse k (handle_message w fmt parse msg)
  handle_message-Sealed msg s i = elim (handle_message_lem w fmt parse msg s) [
    | inl (l, e) ↦ rw e (
        run_branch-Sealed (branch_of (as_read s.buf msg)) (as_read s.buf msg)
          (record s { buf = received_into s.buf msg }) i)
    | inr (l, e) ↦ rw e i
  ]

  -- The old socket is closed, and the command channel holds the new one, whatever becomes of it.
  reopen-IsAccounted :
      (s : Session F)
      → IsAccounted w fmt parse k s
      → IsAccounted w fmt parse k (bsr_cmdchn_socket_reopen w s).1
  unfolding bsr_cmdchn_socket_reopen call attempt opens closes
  reopen-IsAccounted s o = by_socket s.chn.socket refl
    where
      by_socket :
          (x : Option Sock)
          → s.chn.socket ≡ x
          → IsAccounted w fmt parse k (bsr_cmdchn_socket_reopen w s).1
      by_socket none e = ground (arith, o, e)
      by_socket (some sock) e = ground (
        arith,
        o,
        e,
        c (called (poller_remove sock) (w.env.answer s.app.log (poller_remove sock)) ∷ s.app.log)
            sock,
      )

  reopen-Sealed : Sealed w fmt parse k (bsr_cmdchn_socket_reopen w)
  reopen-Sealed s (i, o) = (reopen-Safe w fmt parse s i, reopen-IsAccounted s o)

  command_loop-Sealed :
      (inbox : List CmdReceived) → Sealed w fmt parse k (command_loop w fmt parse inbox)
  unfolding command_loop
  command_loop-Sealed [] = λ s i. i
  command_loop-Sealed (message msg ∷ rest) =
      >>-Preserves (IsSealed w fmt parse k) (handle_message w fmt parse msg)
        (command_loop w fmt parse rest) (handle_message-Sealed msg) (command_loop-Sealed rest)
  command_loop-Sealed (wrong_state ∷ rest) = reopen-Sealed
  command_loop-Sealed (other_error ∷ rest) =
      >>-Preserves (IsSealed w fmt parse k) (bsr_cmdchn_socket_reopen w)
        (command_loop w fmt parse rest) reopen-Sealed (command_loop-Sealed rest)

  pub cmdchn_event-Sealed :
      (junk : Bytes) (inbox : List CmdReceived)
      → Sealed w fmt parse k (bsr_cmdchn_handle_event w fmt parse junk inbox)
  unfolding bsr_cmdchn_handle_event
  cmdchn_event-Sealed junk inbox s i =
      command_loop-Sealed inbox (record s { buf = junk; exiting = false }) i
