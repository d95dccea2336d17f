-- ===== src/Rep/Due.antt =====
-- The end of a round of the main loop: the inputs whose time has come are enabled again.
use bsreadrepeater.Base.{Bytes, some, ℕ, suc, none, zero}
use bsreadrepeater.Channel.{Outside}
use bsreadrepeater.Channel.Open.{bsr_chnhandler_enable_input}
use bsreadrepeater.Handlers.{with_source}
use bsreadrepeater.Rep.{Repeater, on_repeater_app, on_statistics}
use bsreadrepeater.Split.{Timespec}
use bsreadrepeater.TimedEvents.{TimedEvents, bsr_timed_events_most_recent_key, nnodes, tree_remove}

module _ {F : Type 0} (w : Outside F) (now : Timespec) where
  abbrev pub events_of : Repeater F → TimedEvents
  events_of r = r.session.app.stats.timed_events

  abbrev pub remove_event : ℕ → Repeater F → Repeater F
  remove_event key r =
      (on_statistics
        (λ s. record s {
          timed_events = record s.timed_events { tree = tree_remove key s.timed_events.tree };
        })
        r).1

  -- The input of the source with the address, if there is one. The result of
  -- `bsr_chnhandler_enable_input` is not looked at.
  unfoldable pub enable_source : Bytes → Repeater F → Repeater F
  unfolding bsr_chnhandler_enable_input with_source
  enable_source addr r = (on_repeater_app (with_source w addr (bsr_chnhandler_enable_input w)) r).1

  -- `while (1)`, on fuel: the event is removed, and then its source enabled.
  unfoldable pub enable_due : ℕ → Repeater F → Repeater F
  unfolding bsr_timed_events_most_recent_key enable_source
  enable_due zero r = r
  enable_due (suc fuel) r = elim (bsr_timed_events_most_recent_key (events_of r) now) [
    | none ↦ r
    | some (key, ev) ↦ enable_due fuel (enable_source ev.addr (remove_event key r))
  ]

  -- Each round of the loop removes an entry of the tree, so as many rounds as it has entries are
  -- enough.
  unfoldable pub timed_events_loop : Repeater F → Repeater F
  timed_events_loop r = enable_due (nnodes (events_of r).tree) r
