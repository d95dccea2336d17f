-- ===== src/Rep/Thread.antt =====
-- The thread of src/bsr_rep.c: `bsrep_start`, `bsrep_run_inner_thr`, `bsrep_wait_for_done` and
-- `cleanup_bsrep`.
use bsreadrepeater.Base.{Bool, true, Action, fail, none, if◌then◌else◌, Outcome, ok, List, false}
use bsreadrepeater.Channel.{Outside}
use bsreadrepeater.Command.Reply.{Format}
use bsreadrepeater.JsonCommand.{JsonParser}
use bsreadrepeater.Rep.{Repeater, on_statistics, Bsrep}
use bsreadrepeater.Rep.Loop.{Round, Status, ended, running, returned}
use bsreadrepeater.Rep.Setup.{bsrep_run_inner, Start}
use bsreadrepeater.Stats.{bsr_statistics_cleanup}
use bsreadrepeater.Zmq.{outcome_of}

-- `struct bsrep` with its thread. `thrret` is 0 until the thread has returned.
pub record Process (F : Type 0) : Type 0 where
  pub repeater : Repeater F
  pub thread_created : Bool
  pub thrret : Outcome

module _ {F : Type 0} where
  abbrev update_process : (Bsrep → Bsrep) → Process F → Process F
  update_process f p = record p { repeater = record p.repeater { bsrep = f p.repeater.bsrep } }

  -- With the answers of `pthread_create` and `pthread_setname_np`.
  unfoldable pub bsrep_start : Bool → Bool → Action (Process F)
  bsrep_start created named p =
      if created then (outcome_of named, record p { thread_created = true }) else (fail, p)

  -- With the answer of `pthread_join`. Without a thread it returns 1.
  unfoldable pub bsrep_wait_for_done : Bool → Action (Process F)
  bsrep_wait_for_done joined p =
      if p.thread_created
      then (outcome_of joined, record p { thread_created = false })
      else (fail, p)

  -- The end of `cleanup_bsrep`: the two texts are freed, and the statistics cleaned up.
  unfoldable pub free_bsrep : Process F → Process F
  unfolding bsr_statistics_cleanup
  free_bsrep p =
      let q = update_process (λ b. record b { cmd_addr = none; startup_file = none }) p in
      record q { repeater = (on_statistics bsr_statistics_cleanup q.repeater).1 }

  -- A thread that cannot be joined keeps everything.
  unfoldable pub cleanup_bsrep : Bool → Action (Process F)
  unfolding free_bsrep
  cleanup_bsrep joined p =
      let stopped = update_process (λ b. record b { stop = true }) p in
      if p.thread_created
      then (if joined
          then (ok, free_bsrep (record stopped { thread_created = false }))
          else (fail, stopped))
      else (ok, free_bsrep p)

module _ {F : Type 0} (w : Outside F) (fmt : Format F) (parse : JsonParser) where
  abbrev thread_result : Outcome → Status → Outcome
  thread_result old running = old
  thread_result old ended = ok
  thread_result old (returned o) = o

  -- What the thread has done once the rounds of the list have happened.
  unfoldable pub bsrep_run_inner_thr : Start w fmt parse → List Round → Process F → Process F
  unfolding bsrep_run_inner
  bsrep_run_inner_thr st is p =
      let (s, r) = bsrep_run_inner w fmt parse st is p.repeater in
      record p { repeater = r; thrret = thread_result p.thrret s }
