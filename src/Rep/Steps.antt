-- ===== src/Rep/Steps.antt =====
-- What the steps of the set-up keep.
use bsreadrepeater.Base.{Preserves, ok, fail, Outcome, fault, >>-Preserves}
use bsreadrepeater.Channel.{Outside}
use bsreadrepeater.Command.{Session, on_app}
use bsreadrepeater.Rep.Setup.{and_step, call_app, make_poller, Made, then_step, make_ctx, Step}
use bsreadrepeater.Zmq.{ctx_set, alloc}

module _ {F : Type 0} (w : Outside F) (P : Session F → Type 0) where
  abbrev pub StepKeeps : Step w → Type 0
  StepKeeps x = P x.2

  pub then_step-Keeps :
      (k : Made → Session F → Step w) (x : Step w)
      → StepKeeps x
      → ((made : Made) (s : Session F) → P s → StepKeeps (k made s))
      → StepKeeps (then_step w k x)
  then_step-Keeps k (ok, made, s) i p = p made s i
  then_step-Keeps k (fail, made, s) i p = i
  then_step-Keeps k (fault, made, s) i p = i

  and_step-Keeps :
      (k : Session F → Step w) (made : Made) (x : Outcome × Session F)
      → P x.1
      → ((s : Session F) → P s → StepKeeps (k s))
      → StepKeeps (and_step w k made x)
  and_step-Keeps k made (ok, s) i p = p s i
  and_step-Keeps k made (fail, s) i p = i
  and_step-Keeps k made (fault, s) i p = i

  module _ (allocates : Preserves P (on_app (call_app w alloc)))
      (sets : Preserves P (on_app (call_app w ctx_set))) where
    pub make_ctx-Keeps : (s : Session F) → P s → StepKeeps (make_ctx w s)
    unfolding make_ctx
    make_ctx-Keeps s i = and_step-Keeps _ _ (on_app (call_app w alloc) s) (allocates s i) (λ t j.
        >>-Preserves P (on_app (call_app w ctx_set)) (on_app (call_app w ctx_set)) sets sets t j)

    pub make_poller-Keeps : (made : Made) (s : Session F) → P s → StepKeeps (make_poller w made s)
    unfolding make_poller
    make_poller-Keeps made s i =
        and_step-Keeps _ _ (on_app (call_app w alloc) s) (allocates s i) (λ t j. allocates t j)
