-- ===== src/Command/Dispatch.antt =====
-- Which branch of `bsr_cmdchn_handle_event` a command takes, and what the branch does.
use bsreadrepeater.Base.{
  if◌then◌else◌, false, ℕ, Bytes, ◌∷◌, pos, map, none, ℤ, ◌==◌, true, ok, ◌>>◌, ◌*◌, ◌&&◌, done,
  exec, leb, Action, Bool, fault, [], length, take, some, set, List,
}
use bsreadrepeater.Channel.{Chnhandler, Outside}
use bsreadrepeater.Command.{
  on_app, CmdReceived, reply, buf_size, other_error, wrong_state, Session, received_into,
  bsr_cmdchn_socket_reopen, message,
}
use bsreadrepeater.Command.Reply.{stats_text, sources_text, Format, source_stats}
use bsreadrepeater.Handlers.{
  remove_source_cmd, Entry, remove_output_cmd, add_output_cmd, App, source, add_source_cmd,
  reconnect_source_cmd, handler_list_find_by_input_addr, dummy_source_cmd, Handler, set_handler,
}
use bsreadrepeater.JsonCommand.{
  add_source, JsonParser, parse_json_command, default_hwm, default_msg_max, add_output,
  zero_command, JsonCommand, remove_source, dummy_source_start, exit,
}
use bsreadrepeater.Split.{bsr_str_split, Piece}
use bsreadrepeater.Split.Join.{split_texts}
use bsreadrepeater.Text.{starts_with, codes, c_string}
use bsreadrepeater.Zmq.{alloc}

-- The branches in the order of the tests.
pub data Branch : Type 0 where
  json_text exit_text stats_query source_stats_query sources_query : Branch
  add_source_text add_output_text remove_source_text reconnect_source_text : Branch
  remove_output_text unknown_text : Branch

abbrev pub at_least : ℕ → Bytes → Bytes → Bool
at_least k lit buf = leb k (length buf) && starts_with lit buf

abbrev pub exactly : Bytes → Bytes → Bool
exactly lit buf = length buf == length lit && starts_with lit buf

-- The ladder of tests on the `n` bytes of the command.
unfoldable pub branch_of : Bytes → Branch
unfolding starts_with
branch_of buf =
    if at_least 2 (codes "{") buf
    then json_text
    else if exactly (codes "exit") buf
    then exit_text
    else if exactly (codes "stats") buf
    then stats_query
    else if at_least 13 (codes "stats-source") buf
    then source_stats_query
    else if at_least 12 (codes "list-sources") buf
    then sources_query
    else if at_least 11 (codes "add-source,") buf
    then add_source_text
    else if at_least 12 (codes "add-output,") buf
    then add_output_text
    else if at_least 13 (codes "remove-source") buf
    then remove_source_text
    else if at_least 16 (codes "reconnect-source") buf
    then reconnect_source_text
    else if at_least 13 (codes "remove-output") buf
    then remove_output_text
    else unknown_text

-- `*(sm.end[k]) = 0` for each entry of the map.
unfoldable pub zero_ends : List Piece → Bytes → Bytes
zero_ends [] buf = buf
zero_ends (p ∷ ps) buf = zero_ends ps (set buf p.stop 0)

-- The parameters of a text command: the strings behind its first comma.
abbrev pub behind_name : List Bytes → List Bytes
behind_name [] = []
behind_name (name ∷ rest) = map c_string rest

abbrev pub params : Bytes → List Bytes
params cmd = behind_name (split_texts cmd)

-- The values that `add-source` and `add-output` give to the sockets.
abbrev pub text_sndhwm : ℤ
text_sndhwm = pos 140

abbrev pub text_sndbuf : ℤ
text_sndbuf = pos (1024 * 128)

module _ {F : Type 0} (w : Outside F) (fmt : Format F) (parse : JsonParser) where
  open w use {env, floats}

  -- A branch that wants one parameter, or two; a wrong number is only printed.
  abbrev pub with_one : (Bytes → Action (App F)) → List Bytes → Action (App F)
  with_one m (a ∷ []) = m a
  with_one m _ = done

  abbrev pub with_two : (Bytes → Bytes → Action (App F)) → List Bytes → Action (App F)
  with_two m (a ∷ b ∷ []) = m a b
  with_two m _ = done

  unfoldable pub run_json : JsonCommand → Action (App F)
  run_json cmd = elim cmd.kind [
    | add_source ↦ add_source_cmd w cmd.source cmd.msgmax cmd.rcvhwm cmd.rcvbuf
    | remove_source ↦ done
    | add_output ↦ add_output_cmd w cmd.source cmd.output cmd.sndhwm cmd.sndbuf
    | exit ↦ done
    | dummy_source_start ↦ dummy_source_cmd w
  ]

  unfoldable pub json_branch : Bytes → Action (Session F)
  json_branch cmd = elim (parse_json_command parse cmd zero_command) [
    | none ↦ reply w (codes "JSON parse error")
    | some c ↦ on_app (run_json c) >> reply w (codes "received json command")
  ]

  unfoldable pub exit_branch : Action (Session F)
  exit_branch = exec (λ s. record s { exiting = true }) >> reply w (codes "exit")

  unfoldable pub stats_branch : Action (Session F)
  stats_branch s = reply w (stats_text fmt s.app.stats) s

  -- The minimum and the maximum start again after they have been read.
  abbrev pub reset_ages : Chnhandler F → Chnhandler F
  reset_ages m = record m {
    msg_emit_age = record m.msg_emit_age { least = floats.infinity; most = floats.neg_infinity };
  }

  abbrev pub source_reply : Entry F → Handler F → Action (Session F)
  source_reply e (source m) s =
      (on_app
            (λ a. (ok, record a { handlers = set_handler e.id (source (reset_ages m)) a.handlers }))
          >> reply w (fmt.source_json (source_stats floats (env.answer s.app.log alloc) m)))
        s
  source_reply e _ s = reply w [] s

  abbrev pub stats_of : List Bytes → Action (Session F)
  stats_of (a ∷ []) s = elim (handler_list_find_by_input_addr a s.app.handlers) [
    | none ↦ reply w [] s
    | some e ↦ source_reply e e.handler s
  ]
  stats_of _ s = reply w [] s

  unfoldable pub stats_source_branch : Bytes → Action (Session F)
  stats_source_branch cmd = stats_of (params cmd)

  unfoldable pub list_sources_branch : Action (Session F)
  list_sources_branch s = reply w (sources_text s.app.handlers) s

  -- The writes into `buf` of a branch that wants `k` strings, the name among them.
  abbrev pub cut_buf : ℕ → Bytes → Action (Session F)
  cut_buf k cmd = exec (λ s.
      if length (bsr_str_split cmd) == k
      then record s { buf = zero_ends (bsr_str_split cmd) s.buf }
      else s)

  unfoldable pub add_source_branch : Bytes → Action (Session F)
  add_source_branch cmd =
      cut_buf 2 cmd
      >> on_app (
          with_one (λ a. add_source_cmd w a default_msg_max default_hwm (pos (1024 * 1024 * 2)))
            (params cmd))
      >> reply w (codes "add-source: done (rev2)")

  unfoldable pub add_output_branch : Bytes → Action (Session F)
  add_output_branch cmd =
      cut_buf 3 cmd
      >> on_app (with_two (λ a b. add_output_cmd w a b text_sndhwm text_sndbuf) (params cmd))
      >> reply w (codes "add-output: done")

  unfoldable pub remove_source_branch : Bytes → Action (Session F)
  remove_source_branch cmd =
      cut_buf 2 cmd
      >> on_app (with_one (remove_source_cmd w) (params cmd))
      >> reply w (codes "done")

  unfoldable pub reconnect_source_branch : Bytes → Action (Session F)
  reconnect_source_branch cmd =
      cut_buf 2 cmd
      >> on_app (with_one (reconnect_source_cmd w) (params cmd))
      >> reply w (codes "done")

  unfoldable pub remove_output_branch : Bytes → Action (Session F)
  remove_output_branch cmd =
      cut_buf 3 cmd
      >> on_app (with_two (remove_output_cmd w) (params cmd))
      >> reply w (codes "remove-output: done")

  unfoldable pub run_branch : Branch → Bytes → Action (Session F)
  run_branch json_text cmd = json_branch cmd
  run_branch exit_text cmd = exit_branch
  run_branch stats_query cmd = stats_branch
  run_branch source_stats_query cmd = stats_source_branch cmd
  run_branch sources_query cmd = list_sources_branch
  run_branch add_source_text cmd = add_source_branch cmd
  run_branch add_output_text cmd = add_output_branch cmd
  run_branch remove_source_text cmd = remove_source_branch cmd
  run_branch reconnect_source_text cmd = reconnect_source_branch cmd
  run_branch remove_output_text cmd = remove_output_branch cmd
  run_branch unknown_text cmd = reply w (codes "Unknown command")

  -- A message of `n` bytes: `buf[n] = 0` is a write outside of the array from 256 bytes on.
  unfoldable pub handle_message : Bytes → Action (Session F)
  handle_message msg s =
      if leb buf_size (length msg)
      then (fault, s)
      else (let buf = received_into s.buf msg in
          let cmd = take (length msg) buf in
          run_branch (branch_of cmd) cmd (record s { buf = buf }))

  -- The loop over what `zmq_recv` gives until it says EAGAIN.
  unfoldable pub command_loop : List CmdReceived → Action (Session F)
  command_loop [] = done
  command_loop (message msg ∷ rest) = handle_message msg >> command_loop rest
  command_loop (wrong_state ∷ rest) = bsr_cmdchn_socket_reopen w
  command_loop (other_error ∷ rest) = bsr_cmdchn_socket_reopen w >> command_loop rest

  -- `bsr_cmdchn_handle_event` in the state RECV; nothing ever sets the state SEND. `junk` is what `buf`
  -- holds at the start.
  unfoldable pub bsr_cmdchn_handle_event : Bytes → List CmdReceived → Action (Session F)
  bsr_cmdchn_handle_event junk inbox s =
      command_loop inbox (record s { buf = junk; exiting = false })
