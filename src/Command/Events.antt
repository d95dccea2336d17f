-- ===== src/Command/Events.antt =====
-- Whatever arrives in an event, the handlers stay sound.
use bsreadrepeater.Base.{
  inl, true, >>-Preserves, pos, List, Bytes, ◌∷◌, inr, [], false, ◌*◌, arith, sym, subst, ◌≡◌,
}
use bsreadrepeater.Channel.{Outside}
use bsreadrepeater.Command.{
  wrong_state, message, CmdReceived, other_error, received_into, bsr_cmdchn_socket_reopen, Session,
}
use bsreadrepeater.Command.Dispatch.{
  text_sndbuf, exit_text, remove_output_text, stats_source_branch, remove_source_text,
  handle_message, source_stats_query, reconnect_source_branch, params, Branch, branch_of,
  text_sndhwm, list_sources_branch, add_output_branch, remove_source_branch, run_branch,
  sources_query, add_source_text, reconnect_source_text, bsr_cmdchn_handle_event, stats_branch,
  add_source_branch, json_text, remove_output_branch, add_output_text, command_loop, exit_branch,
  unknown_text, stats_query, with_two, with_one,
}
use bsreadrepeater.Command.Exchange.{handle_message_lem, as_read}
use bsreadrepeater.Command.Reply.{Format, sources_text, stats_text}
use bsreadrepeater.Command.Sound.{
  with_one-IsSound, remove_output_cmd-IsSound, stats_of-Safe, with_two-IsSound, Safe,
  reconnect_source_cmd-IsSound, branch-Safe, json_branch-Safe, SoundSession, reply-Safe,
  add_output_cmd-IsSound,
}
use bsreadrepeater.Handlers.{
  remove_source_cmd, reconnect_source_cmd, add_output_cmd, add_source_cmd, remove_output_cmd,
}
use bsreadrepeater.Handlers.Commands.{remove_source_cmd-IsSound, add_source_cmd-IsSound}
use bsreadrepeater.Handlers.Sound.{IsSound}
use bsreadrepeater.JsonCommand.{default_msg_max, default_hwm, JsonParser}
use bsreadrepeater.Text.{codes}

module _ {F : Type 0} (w : Outside F) (fmt : Format F) (parse : JsonParser) where
  run_branch-Safe : (b : Branch) (cmd : Bytes) → Safe w fmt parse (run_branch w fmt parse b cmd)
  unfolding run_branch exit_branch stats_branch stats_source_branch list_sources_branch
      add_source_branch add_output_branch remove_source_branch reconnect_source_branch
      remove_output_branch
  run_branch-Safe json_text cmd = json_branch-Safe w fmt parse cmd
  run_branch-Safe exit_text cmd =
      λ s i. reply-Safe w fmt parse (codes "exit") (record s { exiting = true }) i
  run_branch-Safe stats_query cmd = λ s i. reply-Safe w fmt parse (stats_text fmt s.app.stats) s i
  run_branch-Safe source_stats_query cmd = stats_of-Safe w fmt parse (params cmd)
  run_branch-Safe sources_query cmd =
      λ s i. reply-Safe w fmt parse (sources_text s.app.handlers) s i
  run_branch-Safe add_source_text cmd =
      branch-Safe w fmt parse 2 cmd (codes "add-source: done (rev2)")
        (with_one w fmt parse
          (λ a. add_source_cmd w a default_msg_max default_hwm (pos (1024 * 1024 * 2)))
          (params cmd))
        (with_one-IsSound w fmt parse
          (λ a. add_source_cmd w a default_msg_max default_hwm (pos (1024 * 1024 * 2))) (params cmd)
          (λ a. add_source_cmd-IsSound w a default_msg_max default_hwm (pos (1024 * 1024 * 2))))
  run_branch-Safe add_output_text cmd =
      branch-Safe w fmt parse 3 cmd (codes "add-output: done")
        (with_two w fmt parse (λ a b. add_output_cmd w a b text_sndhwm text_sndbuf) (params cmd))
        (with_two-IsSound w fmt parse (λ a b. add_output_cmd w a b text_sndhwm text_sndbuf)
          (params cmd) (λ a b. add_output_cmd-IsSound w fmt parse a b text_sndhwm text_sndbuf))
  run_branch-Safe remove_source_text cmd =
      branch-Safe w fmt parse 2 cmd (codes "done")
        (with_one w fmt parse (remove_source_cmd w) (params cmd))
        (with_one-IsSound w fmt parse (remove_source_cmd w) (params cmd)
          (remove_source_cmd-IsSound w))
  run_branch-Safe reconnect_source_text cmd =
      branch-Safe w fmt parse 2 cmd (codes "done")
        (with_one w fmt parse (reconnect_source_cmd w) (params cmd))
        (with_one-IsSound w fmt parse (reconnect_source_cmd w) (params cmd)
          (reconnect_source_cmd-IsSound w fmt parse))
  run_branch-Safe remove_output_text cmd =
      branch-Safe w fmt parse 3 cmd (codes "remove-output: done")
        (with_two w fmt parse (remove_output_cmd w) (params cmd))
        (with_two-IsSound w fmt parse (remove_output_cmd w) (params cmd)
          (remove_output_cmd-IsSound w fmt parse))
  run_branch-Safe unknown_text cmd = reply-Safe w fmt parse (codes "Unknown command")

  handle_message-Safe : (msg : Bytes) → Safe w fmt parse (handle_message w fmt parse msg)
  handle_message-Safe msg s i = elim (handle_message_lem w fmt parse msg s) [
    | inl (l, e) ↦ rw e (
        run_branch-Safe (branch_of (as_read s.buf msg)) (as_read s.buf msg)
          (record s { buf = received_into s.buf msg }) i)
    | inr (l, e) ↦ rw e i
  ]

  -- A new command socket changes the log only.
  pub reopen-app :
      (s : Session F)
      → let a = (bsr_cmdchn_socket_reopen w s).1.app in a ≡ record s.app { log = a.log }
  unfolding bsr_cmdchn_socket_reopen
  reopen-app s = ground arith

  pub reopen-Safe : Safe w fmt parse (bsr_cmdchn_socket_reopen w)
  reopen-Safe s i =
      subst IsSound (sym (reopen-app s))
        (record { handlers_sound = i.handlers_sound; ids = i.ids; calm = i.calm })

  command_loop-Safe : (inbox : List CmdReceived) → Safe w fmt parse (command_loop w fmt parse inbox)
  unfolding command_loop
  command_loop-Safe [] = λ s i. i
  command_loop-Safe (message msg ∷ rest) =
      >>-Preserves (SoundSession w fmt parse) (handle_message w fmt parse msg)
        (command_loop w fmt parse rest) (handle_message-Safe msg) (command_loop-Safe rest)
  command_loop-Safe (wrong_state ∷ rest) = reopen-Safe
  command_loop-Safe (other_error ∷ rest) =
      >>-Preserves (SoundSession w fmt parse) (bsr_cmdchn_socket_reopen w)
        (command_loop w fmt parse rest) reopen-Safe (command_loop-Safe rest)

  pub bsr_cmdchn_handle_event-Safe :
      (junk : Bytes) (inbox : List CmdReceived)
      → Safe w fmt parse (bsr_cmdchn_handle_event w fmt parse junk inbox)
  unfolding bsr_cmdchn_handle_event
  bsr_cmdchn_handle_event-Safe junk inbox s i =
      command_loop-Safe inbox (record s { buf = junk; exiting = false }) i
