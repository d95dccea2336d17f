-- ===== src/Command/Answer.antt =====
-- One reply for each command, as the protocol of the REP socket wants it.
use bsreadrepeater.Base.{
  Bytes, ℕ, fail, >>-Preserves, inl, List, Outcome, fault, Preserves, [], ◌>>◌, ℤ, inr, ◌⊎◌, ◌∷◌,
  false, refl, Action, some, ◌≡◌, ok, arith, ◌≢◌, done, none, Option, true, sym, pos, subst, ◌*◌,
}
use bsreadrepeater.Channel.{Outside}
use bsreadrepeater.Command.{reply, on_app, Session, received_into}
use bsreadrepeater.Command.Dispatch.{
  with_one, cut_buf, with_two, source_reply, json_branch, run_json, reset_ages, stats_of,
  text_sndhwm, source_stats_query, remove_output_branch, list_sources_branch, remove_source_branch,
  reconnect_source_branch, stats_query, json_text, run_branch, add_output_text, handle_message,
  add_output_branch, stats_branch, exit_text, remove_output_text, add_source_text, text_sndbuf,
  branch_of, stats_source_branch, unknown_text, reconnect_source_text, params, remove_source_text,
  add_source_branch, exit_branch, Branch, sources_query,
}
use bsreadrepeater.Command.Exchange.{as_read, handle_message_lem}
use bsreadrepeater.Command.Reply.{Format, source_stats, sources_text, stats_text}
use bsreadrepeater.Handlers.{
  App, add_output_cmd, remove_output_cmd, reconnect_source_cmd, set_handler, Handler,
  handler_list_find_by_input_addr, memreq, dummy_source, add_source_cmd, Entry, startup, source,
  dummy_source_cmd, remove_source_cmd,
}
use bsreadrepeater.Handlers.Quiet.{
  QuietApp, reopen-QuietCtx, remove_out-QuietCtx, add_out-QuietCtx, sends,
}
use bsreadrepeater.Handlers.QuietCommands.{
  with_source-QuietApp, add_source-QuietApp, dummy-QuietApp, remove_source-QuietApp,
}
use bsreadrepeater.JsonCommand.{
  JsonParser, exit, zero_command, add_source, parse_json_command, CommandKind, add_output,
  remove_source, dummy_source_start, JsonCommand, default_hwm, default_msg_max,
}
use bsreadrepeater.Text.{codes}
use bsreadrepeater.Zmq.{Sock, Log, sent, alloc}

module _ {F : Type 0} (w : Outside F) (fmt : Format F) (parse : JsonParser) where
  -- The last call is a `zmq_send` on the socket, of one part, and there were `n` sends before.
  abbrev pub IsReplied : Sock → ℕ → Log → Type 0
  IsReplied sock n log =
      (text : Bytes) × (before : Log) × (log
        ≡ sent sock text false (w.env.send before sock text false) ∷ before)
      × (sends before ≡ n)

  -- One reply after a 0, with the socket as it was, and none after an error.
  abbrev pub IsAnswered : Sock → ℕ → Outcome × Session F → Type 0
  IsAnswered sock n x =
      (x.0 ≡ ok) × (x.1.chn.socket ≡ some sock) × IsReplied sock n x.1.app.log
      ⊎ (x.0 ≢ ok) × (sends x.1.app.log ≡ n)

  module _ (sock : Sock) (n : ℕ) where
    -- Before the reply.
    abbrev Asked : Session F → Type 0
    Asked s = (s.chn.socket ≡ some sock) × (sends s.app.log ≡ n)

    abbrev AnswersOnce : Action (Session F) → Type 0
    AnswersOnce m = (s : Session F) → Asked s → IsAnswered sock n (m s)

    reply-AnswersOnce : (text : Bytes) → AnswersOnce (reply w text)
    unfolding reply
    reply-AnswersOnce text s a = rw a.0 (inl (refl, refl, (text, s.app.log, refl, a.1)))

    after-AnswersOnce :
        (m k : Action (Session F)) → Preserves Asked m → AnswersOnce k → AnswersOnce (m >> k)
    after-AnswersOnce m k p q s a = go (m s) (p s a)
      where
        go : (x : Outcome × Session F) → Asked x.1 → IsAnswered sock n (((λ t. x) >> k) s)
        go (ok, t) b = q t b
        go (fail, t) b = inr ((λ e. cc), b.1)
        go (fault, t) b = inr ((λ e. cc), b.1)

    on_app-Asked : (m : Action (App F)) → QuietApp w n m → Preserves Asked (on_app m)
    on_app-Asked m k s a = (a.0, k s.app a.1)

    cut_buf-Asked : (k : ℕ) (cmd : Bytes) → Preserves Asked (cut_buf w fmt parse k cmd)
    cut_buf-Asked k cmd s a = ground (arith, a.0, a.1)

    branch-AnswersOnce :
        (k : ℕ) (cmd text : Bytes) (m : Action (App F))
        → QuietApp w n m
        → AnswersOnce (cut_buf w fmt parse k cmd >> on_app m >> reply w text)
    branch-AnswersOnce k cmd text m q =
        after-AnswersOnce (cut_buf w fmt parse k cmd >> on_app m) (reply w text)
          (>>-Preserves Asked (cut_buf w fmt parse k cmd) (on_app m) (cut_buf-Asked k cmd)
            (on_app-Asked m q))
          (reply-AnswersOnce text)

    with_one-QuietApp :
        (m : Bytes → Action (App F)) (ps : List Bytes)
        → ((a : Bytes) → QuietApp w n (m a))
        → QuietApp w n (with_one w fmt parse m ps)
    with_one-QuietApp m [] k a i = i
    with_one-QuietApp m (p ∷ []) k a i = k p a i
    with_one-QuietApp m (p ∷ q ∷ ps) k a i = i

    with_two-QuietApp :
        (m : Bytes → Bytes → Action (App F)) (ps : List Bytes)
        → ((a b : Bytes) → QuietApp w n (m a b))
        → QuietApp w n (with_two w fmt parse m ps)
    with_two-QuietApp m [] k a i = i
    with_two-QuietApp m (p ∷ []) k a i = i
    with_two-QuietApp m (p ∷ q ∷ []) k a i = k p q a i
    with_two-QuietApp m (p ∷ q ∷ r ∷ ps) k a i = i

    add_output-QuietApp :
        (src out : Bytes) (hwm buf : ℤ) → QuietApp w n (add_output_cmd w src out hwm buf)
    unfolding add_output_cmd
    add_output-QuietApp src out hwm buf =
        with_source-QuietApp w n src _ (add_out-QuietCtx w n out hwm buf)

    remove_output-QuietApp : (src out : Bytes) → QuietApp w n (remove_output_cmd w src out)
    unfolding remove_output_cmd
    remove_output-QuietApp src out = with_source-QuietApp w n src _ (remove_out-QuietCtx w n out)

    reconnect-QuietApp : (src : Bytes) → QuietApp w n (reconnect_source_cmd w src)
    unfolding reconnect_source_cmd
    reconnect-QuietApp src = with_source-QuietApp w n src _ (reopen-QuietCtx w n)

    run_json-QuietApp : (c : JsonCommand) → QuietApp w n (run_json w fmt parse c)
    unfolding run_json
    run_json-QuietApp c = by_kind c.kind
      where
        by_kind :
            (k : CommandKind)
            → QuietApp w n (elim k as (λ x. Action (App F)) [
              | add_source ↦ add_source_cmd w c.source c.msgmax c.rcvhwm c.rcvbuf
              | remove_source ↦ done
              | add_output ↦ add_output_cmd w c.source c.output c.sndhwm c.sndbuf
              | exit ↦ done
              | dummy_source_start ↦ dummy_source_cmd w
            ])
        by_kind add_source = add_source-QuietApp w n c.source c.msgmax c.rcvhwm c.rcvbuf
        by_kind remove_source = λ a h. h
        by_kind add_output = add_output-QuietApp c.source c.output c.sndhwm c.sndbuf
        by_kind exit = λ a h. h
        by_kind dummy_source_start = dummy-QuietApp w n

    json-AnswersOnce : (cmd : Bytes) → AnswersOnce (json_branch w fmt parse cmd)
    unfolding json_branch
    json-AnswersOnce cmd = by_parse (parse_json_command parse cmd zero_command)
      where
        by_parse :
            (r : Option JsonCommand)
            → AnswersOnce (elim r as (λ x. Action (Session F)) [
              | none ↦ reply w (codes "JSON parse error")
              | some c ↦ on_app (run_json w fmt parse c) >> reply w (codes "received json command")
            ])
        by_parse none = reply-AnswersOnce (codes "JSON parse error")
        by_parse (some c) =
            after-AnswersOnce (on_app (run_json w fmt parse c))
              (reply w (codes "received json command"))
              (on_app-Asked (run_json w fmt parse c) (run_json-QuietApp c))
              (reply-AnswersOnce (codes "received json command"))

    source_reply-AnswersOnce :
        (e : Entry F) (h : Handler F) → AnswersOnce (source_reply w fmt parse e h)
    source_reply-AnswersOnce e (source m) s a =
        reply-AnswersOnce (fmt.source_json (source_stats w.floats (w.env.answer s.app.log alloc) m))
          (record s {
            app = record s.app {
              handlers = set_handler e.id (source (reset_ages w fmt parse m)) s.app.handlers;
            };
          })
          a
    source_reply-AnswersOnce e (startup m) s a = reply-AnswersOnce [] s a
    source_reply-AnswersOnce e (memreq m) s a = reply-AnswersOnce [] s a
    source_reply-AnswersOnce e (dummy_source m) s a = reply-AnswersOnce [] s a

    stats_of-AnswersOnce : (ps : List Bytes) → AnswersOnce (stats_of w fmt parse ps)
    stats_of-AnswersOnce [] s a = reply-AnswersOnce [] s a
    stats_of-AnswersOnce (p ∷ q ∷ ps) s a = reply-AnswersOnce [] s a
    stats_of-AnswersOnce (p ∷ []) s a = by_found (handler_list_find_by_input_addr p s.app.handlers)
      where
        by_found :
            (r : Option (Entry F))
            → IsAnswered sock n (elim r as (λ x. Outcome × Session F) [
              | none ↦ reply w [] s
              | some e ↦ source_reply w fmt parse e e.handler s
            ])
        by_found none = reply-AnswersOnce [] s a
        by_found (some e) = source_reply-AnswersOnce e e.handler s a

    run_branch-AnswersOnce : (b : Branch) (cmd : Bytes) → AnswersOnce (run_branch w fmt parse b cmd)
    unfolding run_branch exit_branch stats_branch stats_source_branch list_sources_branch
        add_source_branch add_output_branch remove_source_branch reconnect_source_branch
        remove_output_branch
    run_branch-AnswersOnce json_text cmd = json-AnswersOnce cmd
    run_branch-AnswersOnce exit_text cmd =
        λ s a. reply-AnswersOnce (codes "exit") (record s { exiting = true }) a
    run_branch-AnswersOnce stats_query cmd =
        λ s a. reply-AnswersOnce (stats_text fmt s.app.stats) s a
    run_branch-AnswersOnce source_stats_query cmd = stats_of-AnswersOnce (params cmd)
    run_branch-AnswersOnce sources_query cmd =
        λ s a. reply-AnswersOnce (sources_text s.app.handlers) s a
    run_branch-AnswersOnce add_source_text cmd =
        branch-AnswersOnce 2 cmd (codes "add-source: done (rev2)")
          (with_one w fmt parse
            (λ a. add_source_cmd w a default_msg_max default_hwm (pos (1024 * 1024 * 2)))
            (params cmd))
          (with_one-QuietApp
            (λ a. add_source_cmd w a default_msg_max default_hwm (pos (1024 * 1024 * 2)))
            (params cmd)
            (λ a. add_source-QuietApp w n a default_msg_max default_hwm (pos (1024 * 1024 * 2))))
    run_branch-AnswersOnce add_output_text cmd =
        branch-AnswersOnce 3 cmd (codes "add-output: done")
          (with_two w fmt parse (λ a b. add_output_cmd w a b text_sndhwm text_sndbuf) (params cmd))
          (with_two-QuietApp (λ a b. add_output_cmd w a b text_sndhwm text_sndbuf) (params cmd)
            (λ a b. add_output-QuietApp a b text_sndhwm text_sndbuf))
    run_branch-AnswersOnce remove_source_text cmd =
        branch-AnswersOnce 2 cmd (codes "done")
          (with_one w fmt parse (remove_source_cmd w) (params cmd))
          (with_one-QuietApp (remove_source_cmd w) (params cmd) (remove_source-QuietApp w n))
    run_branch-AnswersOnce reconnect_source_text cmd =
        branch-AnswersOnce 2 cmd (codes "done")
          (with_one w fmt parse (reconnect_source_cmd w) (params cmd))
          (with_one-QuietApp (reconnect_source_cmd w) (params cmd) reconnect-QuietApp)
    run_branch-AnswersOnce remove_output_text cmd =
        branch-AnswersOnce 3 cmd (codes "remove-output: done")
          (with_two w fmt parse (remove_output_cmd w) (params cmd))
          (with_two-QuietApp (remove_output_cmd w) (params cmd) remove_output-QuietApp)
    run_branch-AnswersOnce unknown_text cmd = reply-AnswersOnce (codes "Unknown command")

  -- Each message on an open command socket, whatever its bytes: if the handler returns 0, it has sent one
  -- part on that socket as its last call and nothing else on any socket; if it does not, it has sent
  -- nothing at all.
  pub handle_message-IsAnswered :
      (msg : Bytes) (s : Session F) (sock : Sock)
      → s.chn.socket ≡ some sock
      → IsAnswered sock (sends s.app.log) (handle_message w fmt parse msg s)
  handle_message-IsAnswered msg s sock h = elim (handle_message_lem w fmt parse msg s) [
    | inl (l, e) ↦ subst (IsAnswered sock (sends s.app.log)) (sym e) (
        run_branch-AnswersOnce sock (sends s.app.log) (branch_of (as_read s.buf msg))
          (as_read s.buf msg) (record s { buf = received_into s.buf msg }) (h, refl))
    | inr (l, e) ↦ subst (IsAnswered sock (sends s.app.log)) (sym e) (inr ((λ q. cc), refl))
  ]
