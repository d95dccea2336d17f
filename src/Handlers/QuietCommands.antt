-- ===== src/Handlers/QuietCommands.antt =====
-- The commands send nothing themselves: what goes out is the reply.
use bsreadrepeater.Base.{
  Bytes, ℕ, fail, >>-Preserves, Outcome, fault, true, none, ℤ, if◌then◌else◌, ◌∷◌, false, Option,
  Action, some, ◌≡◌, ok, arith, Bool,
}
use bsreadrepeater.Channel.{Ctx, Outside}
use bsreadrepeater.Channel.Open.{init_pointers, open_input, init_header, bsr_chnhandler_connect}
use bsreadrepeater.DummySource.{DummySource, dummy_source_init}
use bsreadrepeater.Handlers.{
  App, on_source, dummy_source, new_source, on_app_log, Handler, with_source, keep_dummy, Entry,
  source, memreq, add_source_cmd, for_source, finish_source, handler_list_find_by_input_addr,
  handler_list_add, keep_source, ignore_failure, remove_source_cmd, startup, handler_list_remove,
  dummy_source_cmd,
}
use bsreadrepeater.Handlers.Find.{opened_source}
use bsreadrepeater.Handlers.Quiet.{
  QuietApp, init_pointers-QuietCtx, open_input-QuietCtx, cleanup-quiet, call-QuietLog,
  init_header-QuietCtx, QuietCtx, sends,
}
use bsreadrepeater.Zmq.{Log, alloc, call, called}

module _ {F : Type 0} (w : Outside F) (n : ℕ) where
  ignored-quiet : (r : Outcome × App F) → sends r.1.log ≡ n → sends (ignore_failure w r).1.log ≡ n
  ignored-quiet (ok, a) h = h
  ignored-quiet (fail, a) h = h
  ignored-quiet (fault, a) h = h

  pub for_source-QuietApp :
      (m : Action (Ctx F)) (e : Entry F) (h : Handler F)
      → QuietCtx w n m
      → QuietApp w n (for_source w m e h)
  for_source-QuietApp m e (source self) k a h =
      ignored-quiet (on_source m e self a)
        (k (record { self = self; stats = a.stats; log = a.log }) h)
  for_source-QuietApp m e (startup q) k a h = h
  for_source-QuietApp m e (memreq q) k a h = h
  for_source-QuietApp m e (dummy_source q) k a h = h

  pub with_source-QuietApp :
      (src : Bytes) (m : Action (Ctx F)) → QuietCtx w n m → QuietApp w n (with_source w src m)
  unfolding with_source
  with_source-QuietApp src m k a h = by_found (handler_list_find_by_input_addr src a.handlers)
    where
      by_found :
          (r : Option (Entry F))
          → sends
              (elim r as (λ x. Outcome × App F) [
                | none ↦ (ok, a)
                | some e ↦ for_source w m e e.handler a
              ]).1.log
            ≡ n
      by_found none = h
      by_found (some e) = for_source-QuietApp m e e.handler k a h

  pub remove_source-QuietApp : (src : Bytes) → QuietApp w n (remove_source_cmd w src)
  unfolding remove_source_cmd handler_list_remove
  remove_source-QuietApp src a h = by_found (handler_list_find_by_input_addr src a.handlers)
    where
      by_found :
          (r : Option (Entry F))
          → sends
              (elim r as (λ x. Outcome × App F) [
                | none ↦ (ok, a)
                | some e ↦ handler_list_remove w e a
              ]).1.log
            ≡ n
      by_found none = h
      by_found (some e) = cleanup-quiet w n e.handler a.stats a.log h

  keep_source-quiet :
      (r : Outcome × Ctx F) (a : App F) → sends r.1.log ≡ n → sends (keep_source w r a).1.log ≡ n
  unfolding handler_list_add
  keep_source-quiet (ok, c) a h = h
  keep_source-quiet (fail, c) a h = cleanup-quiet w n (source c.self) c.stats c.log h
  keep_source-quiet (fault, c) a h = h

  opened_source-QuietCtx : QuietCtx w n (opened_source w)
  unfolding bsr_chnhandler_connect
  opened_source-QuietCtx =
      >>-Preserves (λ c. sends c.log ≡ n) (init_header w) (open_input w) (init_header-QuietCtx w n)
        (open_input-QuietCtx w n)

  finish_source-quiet :
      (r : Outcome × Ctx F) (a : App F) → sends r.1.log ≡ n → sends (finish_source w r a).1.log ≡ n
  finish_source-quiet (ok, c) a h =
      keep_source-quiet (opened_source w c) a (opened_source-QuietCtx c h)
  finish_source-quiet (fail, c) a h = h
  finish_source-quiet (fault, c) a h = h

  pub new_source-QuietApp :
      (src : Bytes) (msgmax hwm rcv : ℤ) → QuietApp w n (new_source w src msgmax hwm rcv)
  unfolding new_source
  new_source-QuietApp src msgmax hwm rcv =
      >>-Preserves (λ a. sends a.log ≡ n) (on_app_log (call w.env alloc)) _
        (λ a h. call-QuietLog w n alloc a.log h)
        (λ a h.
          let c : Ctx F = record { self = w.memory; stats = a.stats; log = a.log } in
          finish_source-quiet (init_pointers w src msgmax hwm rcv c) a
            (init_pointers-QuietCtx w n src msgmax hwm rcv c h))

  pub add_source-QuietApp :
      (src : Bytes) (msgmax hwm rcv : ℤ) → QuietApp w n (add_source_cmd w src msgmax hwm rcv)
  unfolding add_source_cmd
  add_source-QuietApp src msgmax hwm rcv a h =
      by_found (handler_list_find_by_input_addr src a.handlers)
    where
      by_found :
          (r : Option (Entry F))
          → sends
              (elim r as (λ x. Outcome × App F) [
                | some e ↦ (ok, a)
                | none ↦ new_source w src msgmax hwm rcv a
              ]).1.log
            ≡ n
      by_found none = new_source-QuietApp src msgmax hwm rcv a h
      by_found (some e) = h

  dummy_init-quiet : (log : Log) → sends log ≡ n → sends (dummy_source_init w.env log).2 ≡ n
  unfolding dummy_source_init call sends
  dummy_init-quiet log h = ground (arith, h)

  keep_dummy-quiet :
      (r : Outcome × DummySource × Log) (a : App F)
      → sends r.2 ≡ n
      → sends (keep_dummy w r a).1.log ≡ n
  unfolding handler_list_add
  keep_dummy-quiet (ok, d, log) a h = h
  keep_dummy-quiet (fail, d, log) a h = cleanup-quiet w n (dummy_source d) a.stats log h
  keep_dummy-quiet (fault, d, log) a h = cleanup-quiet w n (dummy_source d) a.stats log h

  pub dummy-QuietApp : QuietApp w n (dummy_source_cmd w)
  unfolding dummy_source_cmd sends
  dummy-QuietApp a h = by_alloc (w.env.answer a.log alloc)
    where
      by_alloc :
          (b : Bool)
          → sends
              (if b
                then keep_dummy w (dummy_source_init w.env (called alloc true ∷ a.log)) a
                else (fault, record a { log = called alloc false ∷ a.log })).1.log
            ≡ n
      by_alloc true =
          keep_dummy-quiet (dummy_source_init w.env (called alloc true ∷ a.log)) a
            (dummy_init-quiet (called alloc true ∷ a.log) h)
      by_alloc false = h
