-- ===== src/Tests/Source.antt =====
-- A source at work: events, parts and outputs.
use bsreadrepeater.Base.{ℕ, Bytes, pos, false, Bool, ◌∷◌, true, [], List, ◌≡◌, refl, arith}
use bsreadrepeater.Channel.{Ctx}
use bsreadrepeater.Channel.Forward.{forward_all, forward, forward_one}
use bsreadrepeater.Channel.Forward.Message.{GotPrefix, forward_parts-GotPrefix, forward_parts}
use bsreadrepeater.Channel.Forward.Prefix.{distinct_socks, has_sock, is_blocked_on}
use bsreadrepeater.Channel.Outputs.{bsr_chnhandler_add_out, bsr_chnhandler_remove_out}
use bsreadrepeater.Channel.Outputs.Changes.{remove_out-add_out, has_output}
use bsreadrepeater.Channel.Ready.{IsReady}
use bsreadrepeater.Channel.Receive.{bsr_chnhandler_handle_event, part, Received}
use bsreadrepeater.Channel.Service.{Served, handle_event-Served}
use bsreadrepeater.Tests.Setup.{demo_ctx, demo, demo_time, demo_source}
use bsreadrepeater.Text.{codes, strncmp_eq, copy_addr}
use bsreadrepeater.Zmq.{sent_on}

pub demo-IsReady : IsReady demo_source
demo-IsReady = record { in_recv = refl; unparsed = refl; unthrottled = refl; enabled = refl }

abbrev two_parts : List Received
two_parts = part (1 ∷ 2 ∷ []) true ∷ part (3 ∷ []) false ∷ []

handle_event-Served_example :
    Served demo demo_ctx (bsr_chnhandler_handle_event demo demo_time 1 two_parts demo_ctx)
handle_event-Served_example = handle_event-Served demo demo_time 1 two_parts demo_ctx demo-IsReady

abbrev parts : List (Bytes × Bool)
parts = (1 ∷ 2 ∷ [], true) ∷ (3 ∷ [], false) ∷ []

forward_parts-GotPrefix_example :
    GotPrefix demo 3 ((1 ∷ 2 ∷ []) ∷ (3 ∷ []) ∷ []) demo_ctx (forward_parts demo parts demo_ctx).1
unfolding forward_parts forward forward_all forward_one distinct_socks has_sock is_blocked_on
forward_parts-GotPrefix_example =
    forward_parts-GotPrefix demo parts 3 demo_ctx (refl, refl) refl refl

abbrev with_new : Ctx ℕ
with_new = (bsr_chnhandler_add_out demo (codes "tcp://d") (pos 1) (pos 2) demo_ctx).1

remove_out-add_out_example :
    (bsr_chnhandler_remove_out demo (codes "tcp://d") with_new).1.self.socks_out
    ≡ demo_source.socks_out
unfolding has_output strncmp_eq bsr_chnhandler_add_out bsr_chnhandler_remove_out copy_addr
remove_out-add_out_example =
    remove_out-add_out demo (codes "tcp://d") (pos 1) (pos 2) demo_ctx (omega arith) refl refl refl

-- Both outputs get the two parts.
sent_both : sent_on 2 (forward_parts demo parts demo_ctx).1.log ≡ (1 ∷ 2 ∷ []) ∷ (3 ∷ []) ∷ []
unfolding sent_on forward_parts forward forward_all forward_one
sent_both = refl
