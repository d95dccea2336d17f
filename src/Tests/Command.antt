-- ===== src/Tests/Command.antt =====
-- Commands: what a message is read as, and sources that come and go.
use bsreadrepeater.Base.{
  ℕ, Bytes, fault, pos, ◌≤◌, ◌∷◌, true, none, ◌≢◌, ap, [], length, ◌⊎◌, ◌≡◌, refl, arith, some, ◌<◌,
  ◌+◌, map,
}
use bsreadrepeater.Channel.{Chnhandler}
use bsreadrepeater.Channel.Open.{bsr_chnhandler_connect, init_header, init_pointers}
use bsreadrepeater.Channel.Ready.{IsReady, is_some}
use bsreadrepeater.Command.{received_into, buf_size, reply, message}
use bsreadrepeater.Command.Answer.{IsAnswered, handle_message-IsAnswered}
use bsreadrepeater.Command.Dispatch.{
  handle_message, run_branch, add_output_text, branch_of, remove_source_text, params,
  remove_source_branch, exit_branch, bsr_cmdchn_handle_event, command_loop,
}
use bsreadrepeater.Command.Exchange.{
  IsParam, as_read, remove_source_one, one_param_roundtrip, write_two, add_output_two,
  handle_message_lem, write_one, no_nul, two_params_roundtrip,
}
use bsreadrepeater.Command.Replies.{replies-eq-messages}
use bsreadrepeater.Handlers.{
  handler_list_find_by_input_addr, source, handler_list_add, new_source, add_source_cmd,
  remove_source_cmd, handler_list_remove,
}
use bsreadrepeater.Handlers.Distinct.{
  find-add_source_long, added, all_fit, add_source_cmd-distinct, source_addrs, find-add_source,
  are_distinct,
}
use bsreadrepeater.Handlers.Find.{add_source_cmd_lem, AddedOrSame}
use bsreadrepeater.Handlers.Quiet.{sends}
use bsreadrepeater.JsonCommand.{JsonParser}
use bsreadrepeater.Split.{bsr_str_split}
use bsreadrepeater.Split.Join.{commas}
use bsreadrepeater.Tests.Setup.{demo, demo_app, demo_session, demo_format}
use bsreadrepeater.Text.{codes, strncmp_eq, starts_with, c_string}

abbrev new_addr : Bytes
new_addr = codes "tcp://n"

add_source_cmd_lem_example :
    AddedOrSame demo new_addr demo_app
      (add_source_cmd demo new_addr (pos 1) (pos 2) (pos 3) demo_app).1
add_source_cmd_lem_example = add_source_cmd_lem demo new_addr (pos 1) (pos 2) (pos 3) demo_app

add_source_cmd-distinct_example :
    are_distinct (source_addrs (added demo new_addr (pos 1) (pos 2) (pos 3) demo_app)) ≡ true
unfolding are_distinct source_addrs
add_source_cmd-distinct_example =
    add_source_cmd-distinct demo new_addr (pos 1) (pos 2) (pos 3) demo_app (omega arith) refl

-- There are two handlers after the command.
two_handlers : length (added demo new_addr (pos 1) (pos 2) (pos 3) demo_app) ≡ 2
unfolding add_source_cmd new_source init_pointers init_header bsr_chnhandler_connect
    handler_list_add handler_list_find_by_input_addr strncmp_eq
two_handlers = refl

changed : added demo new_addr (pos 1) (pos 2) (pos 3) demo_app ≢ demo_app.handlers
changed h = absurd (omega (arith, two_handlers, ap length h))

find-add_source_example :
    (m : Chnhandler ℕ) × IsReady m
    × (is_some m.sock_inp ≡ true)
    × (handler_list_find_by_input_addr new_addr
          (added demo new_addr (pos 1) (pos 2) (pos 3) demo_app)
        ≡ some (record { id = 1; handler = source m }))
find-add_source_example =
    find-add_source demo new_addr (pos 1) (pos 2) (pos 3) demo_app (omega arith) changed

abbrev long_addr : Bytes
long_addr =
    codes "tcp://a23456789b123456789c123456789d123456789e123456789f123456789g123456789h123456789"

find-add_source_long_example :
    let es = added demo long_addr (pos 1) (pos 2) (pos 3) demo_app in
    (all_fit (source_addrs es) ≡ true) × (handler_list_find_by_input_addr long_addr es ≡ none)
unfolding all_fit source_addrs
find-add_source_long_example =
    find-add_source_long demo long_addr (pos 1) (pos 2) (pos 3) demo_app long_addr refl
      (omega arith)

abbrev pub no_parser : JsonParser
no_parser text = none

handle_message_lem_example :
    let cmd = as_read [] (codes "list-sources") in
    (12 < buf_size)
      × (handle_message demo demo_format no_parser (codes "list-sources") demo_session
          ≡ run_branch demo demo_format no_parser
              (branch_of cmd)
              cmd
              (record demo_session { buf = received_into [] (codes "list-sources") }))
    ⊎ (buf_size ≤ 12)
      × (handle_message demo demo_format no_parser (codes "list-sources") demo_session
          ≡ (fault, demo_session))
handle_message_lem_example =
    handle_message_lem demo demo_format no_parser (codes "list-sources") demo_session

param : (a : Bytes) → commas a ≡ 0 → no_nul a ≡ true → IsParam a
param a c n = record { no_comma = c; text = n }

one_param_roundtrip_example :
    (branch_of (write_one remove_source_one new_addr) ≡ remove_source_text)
    × (params (write_one remove_source_one new_addr) ≡ new_addr ∷ [])
unfolding commas no_nul
one_param_roundtrip_example =
    one_param_roundtrip remove_source_one new_addr (param new_addr refl refl)

two_params_roundtrip_example :
    (branch_of (write_two add_output_two new_addr (codes "b")) ≡ add_output_text)
    × (params (write_two add_output_two new_addr (codes "b")) ≡ new_addr ∷ codes "b" ∷ [])
unfolding commas no_nul
two_params_roundtrip_example =
    two_params_roundtrip add_output_two new_addr (codes "b") (param new_addr refl refl)
      (param (codes "b") refl refl)

handle_message-IsAnswered_example :
    IsAnswered demo demo_format no_parser 9
      (sends [])
      (handle_message demo demo_format no_parser (codes "remove-source,tcp://a") demo_session)
handle_message-IsAnswered_example =
    handle_message-IsAnswered demo demo_format no_parser (codes "remove-source,tcp://a")
      demo_session 9 refl

replies-eq-messages_example :
    sends
      (bsr_cmdchn_handle_event demo demo_format no_parser []
        (map message (codes "remove-source,tcp://a" ∷ codes "exit" ∷ []))
        demo_session).1.app.log
    ≡ sends [] + 2
unfolding bsr_cmdchn_handle_event command_loop handle_message received_into branch_of run_branch
    remove_source_branch exit_branch reply remove_source_cmd handler_list_remove
    handler_list_find_by_input_addr strncmp_eq starts_with bsr_str_split c_string
replies-eq-messages_example =
    replies-eq-messages demo demo_format no_parser []
      (codes "remove-source,tcp://a" ∷ codes "exit" ∷ []) demo_session 9 refl refl
