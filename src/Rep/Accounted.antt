-- ===== src/Rep/Accounted.antt =====
-- Who holds the open sockets in every round of the main loop, and that none is left open after it.
use bsreadrepeater.Base.{
  ok, List, suc, refl, fail, zero, ℕ, arith, Outcome, fault, ◌+◌, if◌then◌else◌, false, true, leb,
  Bool,
}
use bsreadrepeater.Channel.{Outside}
use bsreadrepeater.Command.Accounted.{IsSealed, IsAccounted}
use bsreadrepeater.Command.AccountedDelivered.{handlers_handle_msg-Sealed}
use bsreadrepeater.Command.Reply.{Format}
use bsreadrepeater.DummySource.{try_sends, try_send_next, try_again}
use bsreadrepeater.Handlers.Owned.{all_held}
use bsreadrepeater.Handlers.Sound.{IsSound}
use bsreadrepeater.JsonCommand.{JsonParser}
use bsreadrepeater.Rep.{Repeater}
use bsreadrepeater.Rep.Invariant.{run_rounds-Holds, IsKeptByCalls}
use bsreadrepeater.Rep.Loop.{Round, run_rounds}
use bsreadrepeater.Rep.Sound.{IsSound-calls}
use bsreadrepeater.Sockets.{closes, CloseSucceeds, opens, IsOpen, call-KeepsOpen, held_by}
use bsreadrepeater.Zmq.{Env, timers_execute, Sock, Log}

module _ (env : Env) (k sock : Sock) (n : ℕ) where
  try_send_next-IsOpen :
      (ptype : ℕ) (log : Log) → IsOpen k n log → IsOpen k n (try_send_next env sock ptype log).1
  unfolding try_send_next opens closes
  try_send_next-IsOpen ptype log h = ground (arith, h)

  again-IsOpen :
      (l : ℕ → Log → Outcome × ℕ × Log) (ptype : ℕ) (r : Outcome × Log)
      → IsOpen k n r.1
      → ((p : ℕ) (log : Log) → IsOpen k n log → IsOpen k n (l p log).2)
      → IsOpen k n (try_again env sock l ptype r).2
  again-IsOpen l ptype (ok, log) h next = by_test (leb 3 (ptype + 1)) (next (ptype + 1) log h)
    where
      by_test :
          (b : Bool)
          → IsOpen k n (l (ptype + 1) log).2
          → IsOpen k n (if b then (ok, 0, log) else l (ptype + 1) log).2
      by_test true q = h
      by_test false q = q
  again-IsOpen l ptype (fail, log) h next = h
  again-IsOpen l ptype (fault, log) h next = h

  -- A dummy source that sends opens and closes nothing.
  try_sends-IsOpen :
      (rounds ptype : ℕ) (log : Log)
      → IsOpen k n log
      → IsOpen k n (try_sends env sock rounds ptype log).2
  unfolding try_sends
  try_sends-IsOpen zero ptype log h = h
  try_sends-IsOpen (suc rounds) ptype log h =
      again-IsOpen (λ p l. try_sends env sock rounds p l) ptype (try_send_next env sock ptype log)
        (try_send_next-IsOpen ptype log h) (λ p l q. try_sends-IsOpen rounds p l q)

module _ {F : Type 0} (w : Outside F) (fmt : Format F) (parse : JsonParser) (k : Sock)
    (c : CloseSucceeds w.env) where
  IsSealed-calls : IsKeptByCalls w fmt parse (IsSealed w fmt parse k)
  IsSealed-calls =
      let sound = IsSound-calls w fmt parse in
      record {
        calm = λ s i. sound.calm s i.0;
        cleared = λ s i. i;
        measured = λ f h s i. (sound.measured f h s i.0, i.1);
        fired = λ sock ptype s i. (
          sound.fired sock ptype s i.0,
          try_sends-IsOpen w.env k sock (all_held k s.app.handlers + held_by k s.chn.socket) 3 ptype
              s.app.log i.1,
        );
        executed = λ s i. (
          sound.executed s i.0,
          call-KeepsOpen w.env k timers_execute refl
              (all_held k s.app.handlers + held_by k s.chn.socket) s.app.log i.1,
        );
        handled = λ o e a t. handlers_handle_msg-Sealed w fmt parse k c o e a t;
      }

  -- Over any number of rounds of the main loop, whatever arrives and however the calls to the outside
  -- end, `zmq_close` on an open socket excepted, which is taken to succeed: a socket has been opened
  -- as often as it was closed and as handlers of the list and the command channel hold it now.
  pub run_rounds-IsAccounted :
      (is : List Round) (r : Repeater F)
      → IsSound r.session.app
      → IsAccounted w fmt parse k r.session
      → IsAccounted w fmt parse k (run_rounds w fmt parse is r).1.session
  run_rounds-IsAccounted is r s o =
      (run_rounds-Holds w fmt parse (IsSealed w fmt parse k) IsSealed-calls is r (s, o)).1
