-- ===== src/Rep/Checked.antt =====
-- What the idle check does to the handlers and to the place where it goes on next time.
use bsreadrepeater.Base.{
  zero, ◌∷◌, arith, ◌>>◌, List, ok, none, Outcome, ◌<◌, ℕ, >>-Preserves, true, Option,
  if◌then◌else◌, [], some, suc, Bool, Preserves, length, false, ◌≡◌, ◌+◌, refl, u64_mod, add64, ap,
  fault, fail,
}
use bsreadrepeater.Channel.{update, Outside, Chnhandler}
use bsreadrepeater.Channel.Open.{bsr_chnhandler_reopen_input}
use bsreadrepeater.Channel.Ready.{is_some}
use bsreadrepeater.Handlers.{Entry, dummy_source, Handler, memreq, source, startup, on_source}
use bsreadrepeater.Handlers.Commands.{on_source-IsSound}
use bsreadrepeater.Handlers.Serving.{reopen_input-Serving}
use bsreadrepeater.Handlers.Sound.{IsSound, IsServing, IsSoundHandler, AllSound}
use bsreadrepeater.Rep.{on_repeater_app, Repeater, on_statistics}
use bsreadrepeater.Rep.Idle.{
  Visited, is_idle, visit_source, skip_to, visited, visit, and_visit, visit_from, end_check,
  wrap_visit, next_ix, idle_source_check,
}
use bsreadrepeater.Split.{Timespec, time_delta_mu}

left_of : {A : Type 0} → Option (List A) → ℕ
left_of none = 0
left_of (some rest) = length rest

skip_to-length :
    {A : Type 0} (ix : ℕ) (es rest : List A)
    → skip_to ix es ≡ some rest
    → 0 < length es
    → (ix + length rest ≡ length es) × (0 < length rest)
unfolding skip_to left_of
skip_to-length {A} zero es rest h l =
    let k : length es ≡ length rest = ap left_of h in (omega (arith, k), omega (arith, k, l))
skip_to-length {A} (suc ix) [] rest h l = absurd (omega (arith, l))
skip_to-length {A} (suc ix) (e ∷ []) rest h l =
    let k : is_some {A = List A} none ≡ is_some (some rest) = ap is_some h in cc
skip_to-length {A} (suc ix) (e ∷ f ∷ es) rest h l =
    let k = skip_to-length ix (f ∷ es) rest h (omega arith) in (omega (arith, k.0), k.1)

module _ {F : Type 0} (w : Outside F) (tsnow : Timespec) where
  abbrev SoundRep : Repeater F → Type 0
  SoundRep r = IsSound r.session.app

  idle_reopen-Serving :
      Preserves
        (IsServing w)
        (update (λ c. record c { ts_recv_last = tsnow }) >> bsr_chnhandler_reopen_input w)
  idle_reopen-Serving =
      >>-Preserves (IsServing w) (update (λ c. record c { ts_recv_last = tsnow }))
        (bsr_chnhandler_reopen_input w)
        (λ c h. (
          record {
            in_recv = h.0.in_recv;
            unparsed = h.0.unparsed;
            unthrottled = h.0.unthrottled;
            enabled = h.0.enabled;
          },
          h.1,
          h.2,
        ))
        (reopen_input-Serving w)

  -- What a look at an entry keeps: the handlers sound, and `struct bsrep`.
  abbrev Looked : Repeater F → Visited w tsnow → Type 0
  Looked r x = SoundRep x.2 × (x.2.bsrep ≡ r.bsrep)

  visit_source-Looked :
      (e : Entry F) (m : Chnhandler F) (r : Repeater F)
      → IsSoundHandler (source m)
      → SoundRep r
      → Looked r (visit_source w tsnow e m r)
  unfolding visit_source
  visit_source-Looked e m r s i = by_idle (is_idle (time_delta_mu m.ts_recv_last tsnow))
    where
      reopened : Outcome × Repeater F
      reopened =
          on_repeater_app
            (on_source
              (update (λ c. record c { ts_recv_last = tsnow }) >> bsr_chnhandler_reopen_input w) e
              m)
            r

      by_idle : (b : Bool) → Looked r (if b then visited w tsnow true reopened else (ok, false, r))
      by_idle true = (
        on_source-IsSound w
            (update (λ c. record c { ts_recv_last = tsnow }) >> bsr_chnhandler_reopen_input w) e m
            idle_reopen-Serving s r.session.app i,
        refl,
      )
      by_idle false = (i, refl)

  visit-Looked :
      (e : Entry F) (r : Repeater F)
      → IsSoundHandler e.handler
      → SoundRep r
      → Looked r (visit w tsnow e r)
  unfolding visit
  visit-Looked e r s i = by_kind e.handler s
    where
      by_kind :
          (h : Handler F)
          → IsSoundHandler h
          → Looked r (elim h as (λ x. Visited w tsnow) [
            | source m ↦ visit_source w tsnow e m r
            | _ ↦ (ok, false, r)
          ])
      by_kind (source m) s = visit_source-Looked e m r s i
      by_kind (startup m) s = (i, refl)
      by_kind (memreq m) s = (i, refl)
      by_kind (dummy_source m) s = (i, refl)

  -- What the loop over the entries keeps, and where it leaves the index.
  abbrev Left : ℕ → Repeater F → Visited w tsnow → Type 0
  Left n r x = SoundRep x.2 × (x.2.bsrep.inactive_check_next_ix < n)

  wrap-Left :
      (n : ℕ) (r : Repeater F) (x : Visited w tsnow)
      → r.bsrep.inactive_check_next_ix < n
      → Looked r x
      → Left n r (wrap_visit w tsnow x)
  wrap-Left n r (ok, b, t) l k = (k.0, omega (arith, l))
  wrap-Left n r (fail, b, t) l k = (k.0, omega (arith, l, ap (λ y. y.inactive_check_next_ix) k.1))
  wrap-Left n r (fault, b, t) l k = (k.0, omega (arith, l, ap (λ y. y.inactive_check_next_ix) k.1))

  and_visit-Left :
      (n : ℕ) (r : Repeater F) (k : Repeater F → Visited w tsnow) (x : Visited w tsnow)
      → r.bsrep.inactive_check_next_ix + 1 < n
      → n < u64_mod
      → Looked r x
      → ((t : Repeater F)
          → SoundRep t
          → t.bsrep.inactive_check_next_ix ≡ r.bsrep.inactive_check_next_ix + 1
          → Left n r (k t))
      → Left n r (and_visit w tsnow k x)
  and_visit-Left n r k (ok, true, t) l u s p =
      (s.0, omega (arith, l, u, ap (λ y. y.inactive_check_next_ix) s.1))
  and_visit-Left n r k (ok, false, t) l u s p =
      p (next_ix w tsnow (add64 t.bsrep.inactive_check_next_ix 1) t) s.0
        (omega (arith, l, u, ap (λ y. y.inactive_check_next_ix) s.1))
  and_visit-Left n r k (fail, b, t) l u s p =
      (s.0, omega (arith, l, ap (λ y. y.inactive_check_next_ix) s.1))
  and_visit-Left n r k (fault, b, t) l u s p =
      (s.0, omega (arith, l, ap (λ y. y.inactive_check_next_ix) s.1))

  visit_from-Left :
      (es : List (Entry F)) (n : ℕ) (r : Repeater F)
      → AllSound es
      → SoundRep r
      → 0 < length es
      → r.bsrep.inactive_check_next_ix + length es ≡ n
      → n < u64_mod
      → Left n r (visit_from w tsnow es r)
  unfolding visit_from
  visit_from-Left [] n r a s p e u = absurd (omega (arith, p))
  visit_from-Left (x ∷ []) n r a s p e u =
      wrap-Left n r (visit w tsnow x r) (omega (arith, e)) (visit-Looked x r a.0 s)
  visit_from-Left (x ∷ y ∷ es) n r a s p e u =
      and_visit-Left n r (λ t. visit_from w tsnow (y ∷ es) t) (visit w tsnow x r) (omega (arith, e))
        u (visit-Looked x r a.0 s)
        (λ t st et. visit_from-Left (y ∷ es) n t a.1 st (omega arith) (omega (arith, e, et)) u)

  end_check-Left :
      (n : ℕ) (r : Repeater F) (x : Visited w tsnow)
      → Left n r x
      → let t = (end_check w tsnow x).1 in SoundRep t × (t.bsrep.inactive_check_next_ix < n)
  end_check-Left n r (ok, true, t) l = l
  end_check-Left n r (ok, false, t) l = l
  end_check-Left n r (fail, b, t) l = l
  end_check-Left n r (fault, b, t) l = l

  -- The rest of a list of sound handlers.
  abbrev RestSound : Option (List (Entry F)) → Type 0
  RestSound none = Unit {0}
  RestSound (some rest) = AllSound rest

  skip_to-RestSound : (ix : ℕ) (es : List (Entry F)) → AllSound es → RestSound (skip_to ix es)
  unfolding skip_to
  skip_to-RestSound zero es a = a
  skip_to-RestSound (suc ix) [] a = a
  skip_to-RestSound (suc ix) (e ∷ []) a = tt
  skip_to-RestSound (suc ix) (e ∷ f ∷ es) a = skip_to-RestSound ix (f ∷ es) a.1

  -- The idle check keeps the handlers sound, whatever index it starts from, and wherever it ends, the
  -- index that it leaves for the next time is the index of one of the handlers that it has found. The list
  -- of handlers is not empty, and its length is a `uint64_t`.
  pub idle_source_check_lem :
      (now : Timespec) (r : Repeater F)
      → IsSound r.session.app
      → 0 < length r.session.app.handlers
      → length r.session.app.handlers < u64_mod
      → let t = (idle_source_check w tsnow now r).1 in
        IsSound t.session.app × (t.bsrep.inactive_check_next_ix < length r.session.app.handlers)
  unfolding idle_source_check
  idle_source_check_lem now r i p u =
      by_skip (skip_to r.bsrep.inactive_check_next_ix es) refl
        (skip_to-RestSound r.bsrep.inactive_check_next_ix es i.handlers_sound)
    where
      es : List (Entry F)
      es = r.session.app.handlers

      started : Repeater F
      started = (on_statistics (λ s. record s { datetime_idle_check_last = now }) r).1

      sound : SoundRep started
      sound = record { handlers_sound = i.handlers_sound; ids = i.ids; calm = i.calm }

      Ends : Outcome × Repeater F → Type 0
      Ends x = SoundRep x.1 × (x.1.bsrep.inactive_check_next_ix < length es)

      by_skip :
          (x : Option (List (Entry F)))
          → skip_to r.bsrep.inactive_check_next_ix es ≡ x
          → RestSound x
          → Ends (elim x as (λ y. Outcome × Repeater F) [
            | none ↦ end_check w tsnow (visit_from w tsnow es (next_ix w tsnow 0 started))
            | some rest ↦ end_check w tsnow (visit_from w tsnow rest started)
          ])
      by_skip none e a =
          end_check-Left (length es) started (visit_from w tsnow es (next_ix w tsnow 0 started)) (
            visit_from-Left es (length es) (next_ix w tsnow 0 started) i.handlers_sound sound p
              (omega arith) u)
      by_skip (some rest) e a =
          let k = skip_to-length r.bsrep.inactive_check_next_ix es rest e p in
          end_check-Left (length es) started (visit_from w tsnow rest started)
            (visit_from-Left rest (length es) started a sound k.1 k.0 u)
