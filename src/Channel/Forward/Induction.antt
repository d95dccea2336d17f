-- ===== src/Channel/Forward/Induction.antt =====
-- Induction over the loop that hands a part to the outputs.
use bsreadrepeater.Base.{
  fail, ◌∷◌, ok, List, ◌≢◌, refl, Bool, Bytes, ◌≡◌, Outcome, fault, [], subst, ap,
}
use bsreadrepeater.Channel.{Ctx, Sockout, Outside}
use bsreadrepeater.Channel.Forward.{forward_one, forward_all, and_rest}

module _ {F : Type 0} (w : Outside F) (frame : Bytes) (more : Bool) where
  abbrev pub round : Sockout → Ctx F → Outcome × Sockout × Ctx F
  round = forward_one w frame more

  module _ {ℓ} (P : Ctx F → List Sockout → Outcome × List Sockout × Ctx F → Type ℓ)
      (none_left : (c : Ctx F) → P c [] (ok, [], c))
      (stops : (c : Ctx F) (so : Sockout) (outs : List Sockout)
        → (round so c).0 ≢ ok
        → P c (so ∷ outs) ((round so c).0, (round so c).1 ∷ outs, (round so c).2))
      (goes_on : (c : Ctx F) (so : Sockout) (outs : List Sockout)
          (r : Outcome × List Sockout × Ctx F)
        → (round so c).0 ≡ ok
        → P (round so c).2 outs r
        → P c (so ∷ outs) (r.0, (round so c).1 ∷ r.1, r.2)) where
    by_rounds :
        (k : Ctx F → Outcome × List Sockout × Ctx F) (c : Ctx F) (so : Sockout)
        (outs : List Sockout)
        → ((d : Ctx F) → P d outs (k d))
        → (r : Outcome × Sockout × Ctx F) → round so c ≡ r
        → P c (so ∷ outs) (and_rest w k outs r)
    by_rounds k c so outs rest (ok, so', c') e =
        subst
          (λ (r : Outcome × Sockout × Ctx F).
            P c (so ∷ outs) ((k r.2).0, r.1 ∷ (k r.2).1, (k r.2).2))
          e
          (goes_on c so outs (k (round so c).2) (ap (λ (r : Outcome × Sockout × Ctx F). r.0) e)
            (rest (round so c).2))
    by_rounds k c so outs rest (fail, so', c') e =
        subst (λ (r : Outcome × Sockout × Ctx F). P c (so ∷ outs) (r.0, r.1 ∷ outs, r.2)) e
          (stops c so outs (rw e (λ h. cc)))
    by_rounds k c so outs rest (fault, so', c') e =
        subst (λ (r : Outcome × Sockout × Ctx F). P c (so ∷ outs) (r.0, r.1 ∷ outs, r.2)) e
          (stops c so outs (rw e (λ h. cc)))

    pub forward_all_induction :
        (outs : List Sockout) (c : Ctx F) → P c outs (forward_all w frame more outs c)
    unfolding forward_all
    forward_all_induction [] c = none_left c
    forward_all_induction (so ∷ outs) c =
        by_rounds (forward_all w frame more outs) c so outs (λ d. forward_all_induction outs d)
          (round so c) refl
