-- ===== src/Rep/Ends.antt =====
-- When the main loop ends.
use bsreadrepeater.Base.{
  true, List, ℕ, fault, ◌≢◌, u64_mod, ◌<◌, fail, ◌+◌, ok, false, ◌≤◌, [], length, refl, arith, ◌≡◌,
  if◌then◌else◌, Outcome, Bool, ◌∷◌,
}
use bsreadrepeater.Channel.{Outside}
use bsreadrepeater.Command.Reply.{Format}
use bsreadrepeater.JsonCommand.{JsonParser}
use bsreadrepeater.Rep.{Bsrep, Repeater}
use bsreadrepeater.Rep.Frame.{one_round-bsrep}
use bsreadrepeater.Rep.Loop.{
  one_round, is_over, Round, running, and_rounds, at_head, ended, run_rounds, Status,
}

module _ {F : Type 0} (w : Outside F) (fmt : Format F) (parse : JsonParser) where
  -- The counter of the rounds and the limit on it.
  abbrev Counted : ℕ → ℕ → Bsrep → Type 0
  Counted n m b = (b.polls_count ≡ n) × (b.do_polls_max ≡ m)

  abbrev Limits : ℕ → Status × Repeater F → Type 0
  Limits m x = (x.0 ≢ running) × (x.1.bsrep.polls_count ≤ m)

  and_rounds-Limits :
      (m : ℕ) (k : Repeater F → Status × Repeater F) (x : Outcome × Repeater F)
      → x.1.bsrep.polls_count ≤ m
      → Limits m (k x.1)
      → Limits m (and_rounds w fmt parse k x)
  and_rounds-Limits m k (ok, r) l h = h
  and_rounds-Limits m k (fail, r) l h = (λ e. cc, l)
  and_rounds-Limits m k (fault, r) l h = (λ e. cc, l)

  goes_on :
      (b : Bsrep)
      → 0 < b.do_polls_max
      → is_over w fmt parse b ≡ false
      → b.polls_count < b.do_polls_max
  unfolding is_over
  goes_on b p e = ground arith

  rounds-Limits :
      (is : List Round) (r : Repeater F) (n m : ℕ)
      → Counted n m r.bsrep
      → 0 < m
      → m < u64_mod
      → n ≤ m
      → m < n + length is
      → Limits m (run_rounds w fmt parse is r)
  unfolding run_rounds
  rounds-Limits [] r n m c p u l e = absurd (omega (arith, l, e))
  rounds-Limits (i ∷ is) r n m c p u l e = by_test (is_over w fmt parse head.bsrep) refl (λ o.
      let lt : n < m = omega (arith, goes_on head.bsrep (omega (arith, c.1, p)) o, c.0, c.1) in
      let q =
        one_round-bsrep w fmt parse (Counted (n + 1) m) i head (λ b h. h)
          (omega (arith, c.0, lt, u), c.1) in
      and_rounds-Limits m (λ r'. run_rounds w fmt parse is r') (one_round w fmt parse i head)
        (omega (arith, q.0, lt))
        (rounds-Limits is (one_round w fmt parse i head).1 (n + 1) m q p u (omega (arith, lt))
          (omega (arith, e))))
    where
      head : Repeater F
      head = at_head w fmt parse i r

      next : Status × Repeater F
      next =
          and_rounds w fmt parse (λ r'. run_rounds w fmt parse is r') (one_round w fmt parse i head)

      by_test :
          (b : Bool)
          → is_over w fmt parse head.bsrep ≡ b
          → (is_over w fmt parse head.bsrep ≡ false → Limits m next)
          → Limits m (if b then (ended, head) else next)
      by_test true o k = ((λ q. cc), omega (arith, c.0, l))
      by_test false o k = k o

  -- A main loop with a limit on its rounds, the limit being positive and a `uint64_t`, and no more rounds
  -- counted than that, comes to an end, by its tests or with an error, within one round more than the
  -- limit leaves, and it never counts more rounds than the limit.
  pub run_rounds_end :
      (is : List Round) (r : Repeater F)
      → 0 < r.bsrep.do_polls_max
      → r.bsrep.do_polls_max < u64_mod
      → r.bsrep.polls_count ≤ r.bsrep.do_polls_max
      → r.bsrep.do_polls_max < r.bsrep.polls_count + length is
      → let x = run_rounds w fmt parse is r in
        (x.0 ≢ running) × (x.1.bsrep.polls_count ≤ r.bsrep.do_polls_max)
  run_rounds_end is r = rounds-Limits is r r.bsrep.polls_count r.bsrep.do_polls_max (refl, refl)
