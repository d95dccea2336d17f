-- ===== src/Rep/Idle.antt =====
-- `idle_source_check`: a source that has been silent for long gets a new input socket. The call in the
-- main loop stands behind `if (FALSE && …)`.
use bsreadrepeater.Base.{
  some, ℕ, suc, ◌∷◌, none, List, pos, [], true, false, if◌then◌else◌, Outcome, ◌>>◌, add64, Bool,
  negsuc, ltb, Option, zero, ok, ◌*◌, Action, ℤ,
}
use bsreadrepeater.Channel.{update, Chnhandler, Outside}
use bsreadrepeater.Channel.Open.{bsr_chnhandler_reopen_input}
use bsreadrepeater.Handlers.{Entry, source, on_source}
use bsreadrepeater.Rep.{Repeater, on_repeater_app, update_rep, on_statistics}
use bsreadrepeater.Split.{Timespec, time_delta_mu}

-- `MAX_IDLE_MS` in microseconds.
abbrev pub max_idle_mu : ℕ
max_idle_mu = 120000 * 1000

-- `dt > MAX_IDLE_MS * 1000`
abbrev pub is_idle : ℤ → Bool
is_idle (pos n) = ltb max_idle_mu n
is_idle (negsuc n) = false

-- The first loop, from the start of the list: it stands at the entry of that index, or has met the end
-- of the list before.
unfoldable pub skip_to {ℓ} : {A : Type ℓ} → ℕ → List A → Option (List A)
skip_to zero es = some es
skip_to (suc ix) [] = some []
skip_to (suc ix) (e ∷ []) = none
skip_to (suc ix) (e ∷ f ∷ es) = skip_to ix (f ∷ es)

module _ {F : Type 0} (w : Outside F) (tsnow : Timespec) where
  -- The outcome, whether the source was idle, and the state.
  abbrev pub Visited : Type 0
  Visited = Outcome × Bool × Repeater F

  abbrev pub visited : Bool → Outcome × Repeater F → Visited
  visited b (o, r) = (o, b, r)

  unfoldable pub visit_source : Entry F → Chnhandler F → Repeater F → Visited
  unfolding time_delta_mu bsr_chnhandler_reopen_input
  visit_source e m r =
      if is_idle (time_delta_mu m.ts_recv_last tsnow)
      then visited true (
          on_repeater_app
            (on_source
              (update (λ c. record c { ts_recv_last = tsnow }) >> bsr_chnhandler_reopen_input w) e
              m)
            r)
      else (ok, false, r)

  unfoldable pub visit : Entry F → Repeater F → Visited
  unfolding visit_source
  visit e r = elim e.handler [ source m ↦ visit_source e m r | _ ↦ (ok, false, r) ]

  abbrev pub next_ix : ℕ → Repeater F → Repeater F
  next_ix ix r = record r { bsrep = record r.bsrep { inactive_check_next_ix = ix } }

  -- After an entry that is not the last: on with the loop `k` unless the source was idle.
  abbrev pub and_visit : (Repeater F → Visited) → Visited → Visited
  and_visit k (ok, true, r) = (ok, true, next_ix (add64 r.bsrep.inactive_check_next_ix 1) r)
  and_visit k (ok, false, r) = k (next_ix (add64 r.bsrep.inactive_check_next_ix 1) r)
  and_visit k (o, b, r) = (o, b, r)

  -- After the last entry.
  abbrev pub wrap_visit : Visited → Visited
  wrap_visit (ok, b, r) = (ok, b, next_ix 0 r)
  wrap_visit (o, b, r) = (o, b, r)

  -- The second loop.
  unfoldable pub visit_from : List (Entry F) → Repeater F → Visited
  visit_from [] r = (ok, false, r)
  visit_from (e ∷ []) r = wrap_visit (visit e r)
  visit_from (e ∷ f ∷ es) r = and_visit (λ r'. visit_from (f ∷ es) r') (visit e r)

  abbrev pub end_check : Visited → Outcome × Repeater F
  end_check (ok, true, r) = (ok, r)
  end_check (ok, false, r) = update_rep (λ b. record b { ts_inactive_check_last = tsnow }) r
  end_check (o, b, r) = (o, r)

  -- `now` is the reading of CLOCK_REALTIME.
  unfoldable pub idle_source_check : Timespec → Action (Repeater F)
  unfolding skip_to
  idle_source_check now r =
      let started = (on_statistics (λ s. record s { datetime_idle_check_last = now }) r).1 in
      let es = r.session.app.handlers in
      elim (skip_to r.bsrep.inactive_check_next_ix es) [
        | none ↦ end_check (visit_from es (next_ix 0 started))
        | some rest ↦ end_check (visit_from rest started)
      ]
