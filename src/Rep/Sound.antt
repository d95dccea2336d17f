-- ===== src/Rep/Sound.antt =====
-- What holds of the handlers in every round of the main loop.
use bsreadrepeater.Base.{◌≡◌, ap, List, ◌∙◌}
use bsreadrepeater.Channel.{Outside, Statistics}
use bsreadrepeater.Command.Delivered.{handlers_handle_msg-Safe}
use bsreadrepeater.Command.Reply.{Format}
use bsreadrepeater.Handlers.{App}
use bsreadrepeater.Handlers.Commands.{on_app_log-IsSound}
use bsreadrepeater.Handlers.Sound.{IsSound}
use bsreadrepeater.JsonCommand.{JsonParser}
use bsreadrepeater.Rep.{Repeater}
use bsreadrepeater.Rep.Invariant.{IsKeptByCalls, run_rounds-Holds}
use bsreadrepeater.Rep.Loop.{Round, run_rounds}
use bsreadrepeater.Zmq.{call, Log, timers_execute}

module _ {F : Type 0} (w : Outside F) (fmt : Format F) (parse : JsonParser) where
  logged-IsSound : (a : App F) (l : Log) → IsSound a → IsSound (record a { log = l })
  logged-IsSound a l i = record { handlers_sound = i.handlers_sound; ids = i.ids; calm = i.calm }

  measured-IsSound :
      (f : Statistics F → Statistics F)
      → ((s : Statistics F) → (f s).timed_events ≡ s.timed_events)
      → (a : App F) → IsSound a
      → IsSound (record a { stats = f a.stats })
  measured-IsSound f h a i = record {
    handlers_sound = i.handlers_sound;
    ids = i.ids;
    calm = ap (λ t. t.tree) (h a.stats) ∙ i.calm;
  }

  pub IsSound-calls : IsKeptByCalls w fmt parse (λ s. IsSound s.app)
  IsSound-calls = record {
    calm = λ s i. i.calm;
    cleared = λ s i. i;
    measured = λ f h s i. measured-IsSound f h s.app i;
    fired = λ sock ptype s i. logged-IsSound s.app _ i;
    executed = λ s i. on_app_log-IsSound w (call w.env timers_execute) s.app i;
    handled = λ o e a t. handlers_handle_msg-Safe w fmt parse o e a t;
  }

  -- Over any number of rounds of the main loop, whatever arrives, whichever timers fire and however the
  -- calls to the outside end: no two handlers in the list have the same address in memory; every source
  -- receives, is neither throttled nor disabled and has an input address of less than 80 bytes; the ring
  -- of every command queue is consistent; the buffer of every startup file fits; every dummy source has
  -- its socket; and no timed event is waiting.
  pub run_rounds-IsSound :
      (is : List Round) (r : Repeater F)
      → IsSound r.session.app
      → IsSound (run_rounds w fmt parse is r).1.session.app
  run_rounds-IsSound = run_rounds-Holds w fmt parse (λ s. IsSound s.app) IsSound-calls
