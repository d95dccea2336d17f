-- ===== src/Handlers/Commands.antt =====
-- Each command keeps the handlers sound.
use bsreadrepeater.Base.{
  ◌<◌, some, refl, ◌≡◌, fault, false, Action, Preserves, ◌>>◌, none, ◌∷◌, ok, if◌then◌else◌, true,
  [], Option, arith, Bytes, ℤ, Outcome, length, fail, Bool, >>-Preserves,
}
use bsreadrepeater.Channel.{Chnhandler, on_log, Ctx, Outside}
use bsreadrepeater.Channel.Open.{
  fresh, init_pointers, open_input, init_header, bsr_chnhandler_connect,
}
use bsreadrepeater.Channel.Ready.{IsReady, is_some}
use bsreadrepeater.DummySource.{dummy_source_init, DummySource}
use bsreadrepeater.Handlers.{
  with_source, remove_source_cmd, memreq, add_source_cmd, keep_source, dummy_source, ignore_failure,
  for_source, handler_list_find_by_input_addr, startup, new_source, Entry, Handler, on_source,
  handler_list_remove, keep_dummy, dummy_source_cmd, App, finish_source, on_app_log, source,
}
use bsreadrepeater.Handlers.Find.{
  init_pointers-IsFresh, opened_source, opened_source-IsFresh, IsFresh,
}
use bsreadrepeater.Handlers.Serving.{Serving}
use bsreadrepeater.Handlers.Sound.{
  handler_list_add-IsSound, IsSound, IsSoundHandler, handler_list_remove-IsSound, FoundSound,
  find_sound, write_source-IsSound,
}
use bsreadrepeater.Sockopts.{set_pull_sock_opts}
use bsreadrepeater.Text.{addr_cap}
use bsreadrepeater.Text.Compare.{length-copy_addr-lt}
use bsreadrepeater.Zmq.{
  Log, not_opened, pull, Sock, poller_add, call, pollin, alloc, called, opened, connect, Env,
}

dummy_source_init-sock :
    (env : Env) (log : Log)
    → (dummy_source_init env log).0 ≡ ok
    → is_some (dummy_source_init env log).1.sock ≡ true
unfolding dummy_source_init call
dummy_source_init-sock env log h = ground arith

module _ {F : Type 0} (w : Outside F) where
  pub on_source-IsSound :
      (m : Action (Ctx F)) (e : Entry F) (self : Chnhandler F)
      → Serving w m
      → IsReady self × (length self.addr_inp < addr_cap)
      → Preserves IsSound (on_source m e self)
  on_source-IsSound m e self k s a i =
      write_source-IsSound w e.id a (m (record { self = self; stats = a.stats; log = a.log })) i
        (k (record { self = self; stats = a.stats; log = a.log }) (s.0, s.1, i.calm))

  ignored : (r : Outcome × App F) → IsSound r.1 → IsSound (ignore_failure w r).1
  ignored (ok, a) i = i
  ignored (fail, a) i = i
  ignored (fault, a) i = i

  for_source-IsSound :
      (m : Action (Ctx F)) (e : Entry F) (h : Handler F)
      → Serving w m
      → IsSoundHandler h
      → Preserves IsSound (for_source w m e h)
  for_source-IsSound m e (source self) k s a i = ignored _ (on_source-IsSound m e self k s a i)
  for_source-IsSound m e (startup q) k s a i = i
  for_source-IsSound m e (memreq q) k s a i = i
  for_source-IsSound m e (dummy_source q) k s a i = i

  pub with_source-IsSound :
      (src : Bytes) (m : Action (Ctx F)) → Serving w m → Preserves IsSound (with_source w src m)
  unfolding with_source
  with_source-IsSound src m k a i =
      by_found (handler_list_find_by_input_addr src a.handlers)
        (find_sound src a.handlers i.handlers_sound)
    where
      by_found :
          (r : Option (Entry F))
          → FoundSound r
          → IsSound
              (elim r as (λ x. Outcome × App F) [
                | none ↦ (ok, a)
                | some e ↦ for_source w m e e.handler a
              ]).1
      by_found none s = i
      by_found (some e) s = for_source-IsSound m e e.handler k s a i

  pub remove_source_cmd-IsSound : (src : Bytes) → Preserves IsSound (remove_source_cmd w src)
  unfolding remove_source_cmd
  remove_source_cmd-IsSound src a i = by_found (handler_list_find_by_input_addr src a.handlers)
    where
      by_found :
          (r : Option (Entry F))
          → IsSound
              (elim r as (λ x. Outcome × App F) [
                | none ↦ (ok, a)
                | some e ↦ handler_list_remove w e a
              ]).1
      by_found none = i
      by_found (some e) = handler_list_remove-IsSound w e a i

  abbrev IsCalm : Ctx F → Type 0
  IsCalm c = c.stats.timed_events.tree ≡ []

  init_pointers-IsCalm :
      (src : Bytes) (msgmax hwm rcv : ℤ) → Preserves IsCalm (init_pointers w src msgmax hwm rcv)
  unfolding init_pointers fresh call
  init_pointers-IsCalm src msgmax hwm rcv c h = ground arith

  init_header-IsCalm : Preserves IsCalm (init_header w)
  unfolding init_header call
  init_header-IsCalm c h = ground arith

  IsCalm-on_log3 : (l m n : Action Log) → Preserves IsCalm (on_log l >> on_log m >> on_log n)
  IsCalm-on_log3 l m n c h = ground arith

  open_input-IsCalm : Preserves IsCalm (open_input w)
  unfolding open_input
  open_input-IsCalm c h = by_socket (w.env.socket c.log pull)
    where
      by_socket :
          (s : Option Sock)
          → IsCalm
              (elim s as (λ x. Outcome × Ctx F) [
                | none ↦ (
                  fail,
                  record c {
                    self = record c.self { sock_inp = none };
                    log = not_opened pull ∷ c.log;
                  },
                )
                | some sock ↦
                    (on_log (
                          set_pull_sock_opts w.env sock c.self.inp_msgmax c.self.inp_rcvhwm
                            c.self.inp_rcvbuf)
                        >> on_log (call w.env (connect sock c.self.addr_inp))
                        >> on_log (call w.env (poller_add sock pollin)))
                      (record c {
                        self = record c.self { sock_inp = some sock };
                        log = opened pull sock ∷ c.log;
                      })
              ]).1
      by_socket none = h
      by_socket (some sock) =
          IsCalm-on_log3
            (set_pull_sock_opts w.env sock c.self.inp_msgmax c.self.inp_rcvhwm c.self.inp_rcvbuf)
            (call w.env (connect sock c.self.addr_inp)) (call w.env (poller_add sock pollin))
            (record c {
              self = record c.self { sock_inp = some sock };
              log = opened pull sock ∷ c.log;
            })
            h

  opened_source-IsCalm : Preserves IsCalm (opened_source w)
  unfolding bsr_chnhandler_connect
  opened_source-IsCalm =
      >>-Preserves IsCalm (init_header w) (open_input w) init_header-IsCalm open_input-IsCalm

  keep_source-IsSound :
      (src : Bytes) (r : Outcome × Ctx F) (a : App F)
      → IsSound a
      → IsCalm r.1
      → (r.0 ≡ ok → IsFresh w src r.1.self)
      → IsSound (keep_source w r a).1
  keep_source-IsSound src (ok, c) a i t h =
      let f = h refl in
      handler_list_add-IsSound (source c.self) (record a { stats = c.stats; log = c.log })
        (
          record {
            in_recv = f.in_recv;
            unparsed = f.unparsed;
            unthrottled = f.unthrottled;
            enabled = f.enabled;
          },
          rw f.addr (length-copy_addr-lt src),
        )
        (record { handlers_sound = i.handlers_sound; ids = i.ids; calm = t })
  keep_source-IsSound src (fail, c) a i t h = record {
    handlers_sound = i.handlers_sound;
    ids = i.ids;
    calm = t;
  }
  keep_source-IsSound src (fault, c) a i t h = record {
    handlers_sound = i.handlers_sound;
    ids = i.ids;
    calm = t;
  }

  finish_source-IsSound :
      (src : Bytes) (r : Outcome × Ctx F) (a : App F)
      → IsSound a
      → IsCalm r.1
      → IsFresh w src r.1.self
      → IsSound (finish_source w r a).1
  finish_source-IsSound src (ok, c) a i t f =
      keep_source-IsSound src (opened_source w c) a i (opened_source-IsCalm c t)
        (λ o. (opened_source-IsFresh w src c f o).0)
  finish_source-IsSound src (fail, c) a i t f = record {
    handlers_sound = i.handlers_sound;
    ids = i.ids;
    calm = t;
  }
  finish_source-IsSound src (fault, c) a i t f = record {
    handlers_sound = i.handlers_sound;
    ids = i.ids;
    calm = t;
  }

  pub on_app_log-IsSound : (l : Action Log) → Preserves IsSound (on_app_log {F = F} l)
  on_app_log-IsSound l a i = record {
    handlers_sound = i.handlers_sound;
    ids = i.ids;
    calm = i.calm;
  }

  new_source-IsSound :
      (src : Bytes) (msgmax hwm rcv : ℤ) → Preserves IsSound (new_source w src msgmax hwm rcv)
  unfolding new_source
  new_source-IsSound src msgmax hwm rcv =
      >>-Preserves IsSound (on_app_log (call w.env alloc)) _ (on_app_log-IsSound (call w.env alloc))
        (λ a i.
          let c : Ctx F = record { self = w.memory; stats = a.stats; log = a.log } in
          finish_source-IsSound src (init_pointers w src msgmax hwm rcv c) a i
            (init_pointers-IsCalm src msgmax hwm rcv c i.calm)
            (init_pointers-IsFresh w src msgmax hwm rcv c))

  pub add_source_cmd-IsSound :
      (src : Bytes) (msgmax hwm rcv : ℤ) → Preserves IsSound (add_source_cmd w src msgmax hwm rcv)
  unfolding add_source_cmd
  add_source_cmd-IsSound src msgmax hwm rcv a i =
      by_found (handler_list_find_by_input_addr src a.handlers)
    where
      by_found :
          (r : Option (Entry F))
          → IsSound
              (elim r as (λ x. Outcome × App F) [
                | some e ↦ (ok, a)
                | none ↦ new_source w src msgmax hwm rcv a
              ]).1
      by_found none = new_source-IsSound src msgmax hwm rcv a i
      by_found (some e) = i

  kept_dummy :
      (r : Outcome × DummySource × Log) (a : App F)
      → (r.0 ≡ ok → is_some r.1.sock ≡ true)
      → IsSound a
      → IsSound (keep_dummy w r a).1
  kept_dummy (ok, d, log) a h i =
      handler_list_add-IsSound (dummy_source d) (record a { log = log }) (h refl)
        (record { handlers_sound = i.handlers_sound; ids = i.ids; calm = i.calm })
  kept_dummy (fail, d, log) a h i = record {
    handlers_sound = i.handlers_sound;
    ids = i.ids;
    calm = i.calm;
  }
  kept_dummy (fault, d, log) a h i = record {
    handlers_sound = i.handlers_sound;
    ids = i.ids;
    calm = i.calm;
  }

  pub dummy_source_cmd-IsSound : Preserves IsSound (dummy_source_cmd w)
  unfolding dummy_source_cmd
  dummy_source_cmd-IsSound a i = by_alloc (w.env.answer a.log alloc)
    where
      by_alloc :
          (b : Bool)
          → IsSound
              (if b
                then keep_dummy w (dummy_source_init w.env (called alloc true ∷ a.log)) a
                else (fault, record a { log = called alloc false ∷ a.log })).1
      by_alloc true = kept_dummy _ a (dummy_source_init-sock w.env (called alloc true ∷ a.log)) i
      by_alloc false = record { handlers_sound = i.handlers_sound; ids = i.ids; calm = i.calm }
