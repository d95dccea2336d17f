-- ===== src/DummySource/Rounds.antt =====
-- The loop of `try_sends` ends within three rounds.
use bsreadrepeater.Base.{suc, zero, ◌<◌, fault, ◌∙◌, Outcome, sym, refl, ℕ, fail, ok, ◌≡◌, arith}
use bsreadrepeater.DummySource.{try_again, try_send_next, try_sends}
use bsreadrepeater.Zmq.{Sock, Log, Env}

module _ (env : Env) (sock : Sock) where
  -- What more rounds would do does not matter, and the part that comes next is one of the three.
  abbrev Same : Outcome × ℕ × Log → Outcome × ℕ × Log → Type 0
  Same r r' = (r ≡ r') × (r'.1 < 3)

  last-Same :
      (k : ℕ) (log : Log) → Same (try_sends env sock (suc k) 2 log) (try_sends env sock 1 2 log)
  unfolding try_sends
  last-Same k log = by_send (try_send_next env sock 2 log)
    where
      by_send :
          (r : Outcome × Log)
          → Same
              (try_again env sock (λ p l. try_sends env sock k p l) 2 r)
              (try_again env sock (λ p l. try_sends env sock 0 p l) 2 r)
      by_send (ok, l) = (refl, omega arith)
      by_send (fail, l) = (refl, omega arith)
      by_send (fault, l) = (refl, omega arith)

  second-Same :
      (k : ℕ) (log : Log)
      → Same (try_sends env sock (suc (suc k)) 1 log) (try_sends env sock 2 1 log)
  unfolding try_sends
  second-Same k log = by_send (try_send_next env sock 1 log) (last-Same k)
    where
      by_send :
          (r : Outcome × Log)
          → ((l : Log) → Same (try_sends env sock (suc k) 2 l) (try_sends env sock 1 2 l))
          → Same
              (try_again env sock (λ p l. try_sends env sock (suc k) p l) 1 r)
              (try_again env sock (λ p l. try_sends env sock 1 p l) 1 r)
      by_send (ok, l) s = s l
      by_send (fail, l) s = (refl, omega arith)
      by_send (fault, l) s = (refl, omega arith)

  first-Same :
      (k : ℕ) (log : Log)
      → Same (try_sends env sock (suc (suc (suc k))) 0 log) (try_sends env sock 3 0 log)
  unfolding try_sends
  first-Same k log = by_send (try_send_next env sock 0 log) (second-Same k)
    where
      by_send :
          (r : Outcome × Log)
          → ((l : Log) → Same (try_sends env sock (suc (suc k)) 1 l) (try_sends env sock 2 1 l))
          → Same
              (try_again env sock (λ p l. try_sends env sock (suc (suc k)) p l) 0 r)
              (try_again env sock (λ p l. try_sends env sock 2 p l) 0 r)
      by_send (ok, l) s = s l
      by_send (fail, l) s = (refl, omega arith)
      by_send (fault, l) s = (refl, omega arith)

  -- From each of the three parts of the message, `try_sends` comes to its end within the three rounds
  -- that it is given: more rounds give the same, whatever the socket answers. The part that it will start
  -- with next time is one of the three again.
  pub try_sends_end :
      (k ptype : ℕ) (log : Log)
      → ptype < 3
      → (try_sends env sock (suc (suc (suc k))) ptype log ≡ try_sends env sock 3 ptype log)
        × ((try_sends env sock 3 ptype log).1 < 3)
  try_sends_end k zero log l = first-Same k log
  try_sends_end k (suc zero) log l =
      let a = second-Same (suc k) log in let b = second-Same 1 log in (a.0 ∙ sym b.0, rw b.0 b.1)
  try_sends_end k (suc (suc zero)) log l =
      let a = last-Same (suc (suc k)) log in let b = last-Same 2 log in (a.0 ∙ sym b.0, rw b.0 b.1)
  try_sends_end k (suc (suc (suc n))) log l = absurd (omega (arith, l))
