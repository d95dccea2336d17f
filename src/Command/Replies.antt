-- ===== src/Command/Replies.antt =====
-- As many replies as there were messages.
use bsreadrepeater.Base.{
  Bytes, Outcome, arith, length, some, ◌+◌, suc, ok, ◌∷◌, ap, map, [], inl, List, ℕ, false, subst,
  >>-eq-ok, ◌≡◌, ◌∙◌, sym, inr,
}
use bsreadrepeater.Channel.{Outside}
use bsreadrepeater.Command.{message, Session}
use bsreadrepeater.Command.Answer.{handle_message-IsAnswered, IsReplied, IsAnswered}
use bsreadrepeater.Command.Dispatch.{handle_message, command_loop, bsr_cmdchn_handle_event}
use bsreadrepeater.Command.Reply.{Format}
use bsreadrepeater.Handlers.Quiet.{sends}
use bsreadrepeater.JsonCommand.{JsonParser}
use bsreadrepeater.Zmq.{Sock, Log}

module _ {F : Type 0} (w : Outside F) (fmt : Format F) (parse : JsonParser) where
  one_more :
      (sock : Sock) (m : ℕ) (log : Log) → IsReplied w fmt parse sock m log → sends log ≡ m + 1
  unfolding sends
  one_more sock m log (text, before, e, h) = ap sends e ∙ ap (λ k. k + 1) h

  -- After the first message, if it was answered.
  one_then :
      (sock : Sock) (k : ℕ) (ms : List Bytes) (n : ℕ) (x : Outcome × Session F)
      → IsAnswered w fmt parse sock n x
      → x.0 ≡ ok
      → (x.1.chn.socket ≡ some sock
          → sends (command_loop w fmt parse (map message ms) x.1).1.app.log ≡ sends x.1.app.log + k)
      → sends (command_loop w fmt parse (map message ms) x.1).1.app.log ≡ n + suc k
  one_then sock k ms n x a o p = elim a [
    | inl (e, c, r) ↦ omega (arith, p c, one_more sock n x.1.app.log r)
    | inr (ne, q) ↦ absurd (ne o)
  ]

  loop-sends :
      (ms : List Bytes) (t : Session F) (sock : Sock)
      → t.chn.socket ≡ some sock
      → (command_loop w fmt parse (map message ms) t).0 ≡ ok
      → sends (command_loop w fmt parse (map message ms) t).1.app.log ≡ sends t.app.log + length ms
  unfolding command_loop
  loop-sends [] t sock h o = omega arith
  loop-sends (m ∷ ms) t sock h o =
      let q =
        >>-eq-ok (handle_message w fmt parse m) (command_loop w fmt parse (map message ms)) t o in
      subst (λ (r : Outcome × Session F). sends r.1.app.log ≡ sends t.app.log + length (m ∷ ms))
        (sym q.1)
        (one_then sock (length ms) ms (sends t.app.log) (handle_message w fmt parse m t)
          (handle_message-IsAnswered w fmt parse m t sock h) q.0
          (λ c.
            loop-sends ms (handle_message w fmt parse m t).1 sock c
              (subst (λ (r : Outcome × Session F). r.0 ≡ ok) q.1 o)))

  -- An event with any number of messages on an open command socket that ends with a 0 has sent as many
  -- replies as there were messages, and nothing else.
  pub replies-eq-messages :
      (junk : Bytes) (msgs : List Bytes) (s : Session F) (sock : Sock)
      → s.chn.socket ≡ some sock
      → (bsr_cmdchn_handle_event w fmt parse junk (map message msgs) s).0 ≡ ok
      → sends (bsr_cmdchn_handle_event w fmt parse junk (map message msgs) s).1.app.log
        ≡ sends s.app.log + length msgs
  unfolding bsr_cmdchn_handle_event
  replies-eq-messages junk msgs s sock h o =
      loop-sends msgs (record s { buf = junk; exiting = false }) sock h o
