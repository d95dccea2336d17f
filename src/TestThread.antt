-- ===== src/TestThread.antt =====
-- src/bsr_ctx1.c: the thread of the self test, a source that only waits.
use bsreadrepeater.Base.{
  Bytes, none, fail, [], some, true, Action, if◌then◌else◌, ℕ, false, ◌∷◌, Bool, Outcome, ◌==◌, not,
  ok, List, Option, subst, fault, refl, ◌≢◌, sym, ◌||◌, ◌+◌, ◌≡◌,
}
use bsreadrepeater.Rep.Loop.{Status, running, returned, ended}
use bsreadrepeater.Sockets.{
  is_close_of, call-KeepsOpen, attempt-KeepsOpen, IsOpen, one_if, not_opened-IsOpen, close-IsOpen,
  CloseSucceeds, opened-IsOpen,
}
use bsreadrepeater.Text.{codes}
use bsreadrepeater.Zmq.{
  Log, poller_add, Env, not_opened, close, pollout, ctx_term, alloc, opened, poller_destroy, push,
  attempt, outcome_of, Request, call, Sock,
}

-- `struct ctx1`, without the number of the thread.
pub record Ctx1 : Type 0 where
  pub thread_started : Bool
  pub stop : Bool
  pub ty : ℕ
  pub addr : Bytes
  pub period_ms : ℕ

unfoldable pub ctx1_init : Ctx1 → Ctx1
ctx1_init self = record self {
  addr = codes "tcp://127.0.0.1:32400";
  period_ms = 1000;
  stop = false;
  thread_started = false;
  ty = 1;
}

-- `ctx1_start`, with the answers of `pthread_create` and `pthread_setname_np`.
unfoldable pub ctx1_start : Bool → Bool → Action Ctx1
ctx1_start created named self =
    if created then (outcome_of named, record self { thread_started = true }) else (fail, self)

-- `cleanup_ctx1`, with the answer of `pthread_join`.
unfoldable pub cleanup_ctx1 : Bool → Action Ctx1
cleanup_ctx1 joined self =
    if self.thread_started
    then (outcome_of joined, record self { stop = true; thread_started = not joined })
    else (ok, record self { stop = true })

module _ (env : Env) where
  -- What runs when a variable goes out of scope, once the function returns.
  abbrev then_drop : Request → Status × Log → Status × Log
  then_drop r (running, log) = (running, log)
  then_drop r (s, log) = (s, (attempt env r log).1)

  abbrev and_then : (Log → Status × Log) → Outcome × Log → Status × Log
  and_then k (ok, log) = k log
  and_then k (o, log) = (returned o, log)

  -- The loop. The list holds what each round reads of `stop`; the events are not looked at.
  unfoldable pub wait_for_stop : List Bool → Log → Status × Log
  wait_for_stop [] log = (running, log)
  wait_for_stop (stop ∷ rest) log =
      let next = wait_for_stop rest log in if stop then (ended, log) else next

  unfoldable pub with_push_socket : List Bool → Log → Status × Log
  unfolding call wait_for_stop attempt
  with_push_socket stops log = elim (env.socket log push) [
    | none ↦ (returned fail, not_opened push ∷ log)
    | some sock ↦ then_drop (close sock) (
        and_then (wait_for_stop stops)
          (call env (poller_add sock pollout) (opened push sock ∷ log)))
  ]

  -- `source`: the context, the poller and the socket, closed in the reverse order.
  unfoldable pub idle_source : List Bool → Log → Status × Log
  unfolding call with_push_socket attempt
  idle_source stops = λ log.
      and_then
        (λ l.
          then_drop ctx_term (
            and_then (λ m. then_drop poller_destroy (with_push_socket stops m)) (call env alloc l)))
        (call env alloc log)

  -- `run_inner`: a kind other than 1 ends the thread at once.
  unfoldable pub run_inner : List Bool → Ctx1 → Log → Status × Log
  unfolding idle_source
  run_inner stops self log = if self.ty == 1 then idle_source stops log else (ended, log)

abbrev has_stop : List Bool → Bool
has_stop [] = false
has_stop (stop ∷ rest) = stop || has_stop rest

module _ (env : Env) (k : Sock) (c : CloseSucceeds env) where
  wait_for_stop_lem :
      (stops : List Bool) (log : Log)
      → has_stop stops ≡ true
      → wait_for_stop env stops log ≡ (ended, log)
  unfolding wait_for_stop
  wait_for_stop_lem [] log h = absurd cc
  wait_for_stop_lem (true ∷ rest) log h = refl
  wait_for_stop_lem (false ∷ rest) log h = wait_for_stop_lem rest log h

  -- Over, with the socket open `n` times more than closed.
  abbrev IsOverAt : ℕ → Status × Log → Type 0
  IsOverAt n x = (x.0 ≢ running) × IsOpen k n x.1

  then_drop-IsOverAt :
      (r : Request) (n : ℕ) (x : Status × Log)
      → is_close_of k r ≡ false
      → IsOverAt n x
      → IsOverAt n (then_drop env r x)
  then_drop-IsOverAt r n (running, log) e h = h
  then_drop-IsOverAt r n (ended, log) e h = (h.0, attempt-KeepsOpen env k r e n log h.1)
  then_drop-IsOverAt r n (returned o, log) e h = ((λ q. cc), attempt-KeepsOpen env k r e n log h.1)

  then_close-IsOverAt :
      (s : Sock) (n : ℕ) (x : Status × Log)
      → IsOverAt (one_if (s == k) + n) x
      → IsOverAt n (then_drop env (close s) x)
  unfolding attempt
  then_close-IsOverAt s n (running, log) h = absurd (h.0 refl)
  then_close-IsOverAt s n (ended, log) h = (h.0, close-IsOpen env k c s n log h.1)
  then_close-IsOverAt s n (returned o, log) h = ((λ q. cc), close-IsOpen env k c s n log h.1)

  and_then-IsOverAt :
      (l : Log → Status × Log) (n : ℕ) (x : Outcome × Log)
      → IsOpen k n x.1
      → ((log : Log) → IsOpen k n log → IsOverAt n (l log))
      → IsOverAt n (and_then env l x)
  and_then-IsOverAt l n (ok, log) h p = p log h
  and_then-IsOverAt l n (fail, log) h p = ((λ q. cc), h)
  and_then-IsOverAt l n (fault, log) h p = ((λ q. cc), h)

  with_push_socket-IsOverAt :
      (stops : List Bool) (n : ℕ) (log : Log)
      → has_stop stops ≡ true
      → IsOpen k n log
      → IsOverAt n (with_push_socket env stops log)
  unfolding with_push_socket
  with_push_socket-IsOverAt stops n log e h = by_socket (env.socket log push)
    where
      by_socket :
          (x : Option Sock)
          → IsOverAt n (elim x as (λ y. Status × Log) [
            | none ↦ (returned fail, not_opened push ∷ log)
            | some sock ↦ then_drop env (close sock) (
                and_then env
                  (wait_for_stop env stops)
                  (call env (poller_add sock pollout) (opened push sock ∷ log)))
          ])
      by_socket none = ((λ q. cc), not_opened-IsOpen env k push n log h)
      by_socket (some sock) =
          let m = one_if (sock == k) + n in
          then_close-IsOverAt sock n _ (
            and_then-IsOverAt (wait_for_stop env stops) m
              (call env (poller_add sock pollout) (opened push sock ∷ log))
              (call-KeepsOpen env k (poller_add sock pollout) refl m (opened push sock ∷ log)
                (opened-IsOpen env k push sock n log h))
              (λ l o. subst (IsOverAt m) (sym (wait_for_stop_lem stops l e)) ((λ q. cc), o)))

  -- Once one of the rounds reads that it is to stop, the source of the self test ends, if it had not
  -- failed before, and it has closed what it opened.
  idle_source_ends :
      (stops : List Bool) (n : ℕ) (log : Log)
      → has_stop stops ≡ true
      → IsOpen k n log
      → ((idle_source env stops log).0 ≢ running) × IsOpen k n (idle_source env stops log).1
  unfolding idle_source
  idle_source_ends stops n log e h =
      and_then-IsOverAt _ n (call env alloc log) (call-KeepsOpen env k alloc refl n log h) (λ l o.
        then_drop-IsOverAt ctx_term n _ refl (
          and_then-IsOverAt _ n (call env alloc l) (call-KeepsOpen env k alloc refl n l o) (λ m q.
            then_drop-IsOverAt poller_destroy n (with_push_socket env stops m) refl
              (with_push_socket-IsOverAt stops n m e q))))
