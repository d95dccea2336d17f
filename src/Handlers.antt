-- ===== src/Handlers.antt =====
-- src/bsr_cmdchn.c: `struct Handler` and `struct HandlerList`.
pub mod Find
pub mod Distinct
pub mod Lookup
pub mod Sound
pub mod Serving
pub mod Commands
pub mod Quiet
pub mod QuietCommands
pub mod Owned
pub mod OwnedCommands
pub mod OwnedAdded
use bsreadrepeater.Base.{
  ◌==◌, Bool, none, ◌∷◌, ◌>>◌, ◌++◌, fail, false, if◌then◌else◌, Action, ◌+◌, ℕ, Bytes, Option,
  some, Outcome, List, [], fault, ok, ℤ, true,
}
use bsreadrepeater.Channel.{Outside, Statistics, Ctx, Chnhandler}
use bsreadrepeater.Channel.Open.{
  cleanup_bsr_chnhandler, init_pointers, bsr_chnhandler_reopen_input, init_header,
  bsr_chnhandler_connect,
}
use bsreadrepeater.Channel.Outputs.{bsr_chnhandler_add_out, bsr_chnhandler_remove_out}
use bsreadrepeater.DummySource.{dummy_source_cleanup, DummySource, dummy_source_init}
use bsreadrepeater.Memreq.{Memreq, cleanup_struct_bsr_memreq}
use bsreadrepeater.Startup.{cleanup_struct_bsr_startupcmd, Startup}
use bsreadrepeater.Text.{strncmp_eq, addr_cap}
use bsreadrepeater.Zmq.{call, Log, called, alloc}

-- `struct Handler` by its kind. The command handler stands outside of the list, on the stack.
pub data Handler (F : Type 0) : Type 0 where
  source : Chnhandler F → Handler F
  startup : Startup → Handler F
  memreq : Memreq → Handler F
  dummy_source : DummySource → Handler F

-- A handler on the heap; the number stands for its address, which the poller keeps as user data.
pub record Entry (F : Type 0) : Type 0 where
  pub id : ℕ
  pub handler : Handler F

-- What the handlers share: the list, the statistics and the log of the calls. `next_id` is the address
-- that the next `malloc` gives.
pub record App (F : Type 0) : Type 0 where
  pub handlers : List (Entry F)
  pub next_id : ℕ
  pub stats : Statistics F
  pub log : Log

module _ {F : Type 0} where
  -- `strncmp(handler->addr_inp, addr, ADDR_CAP) == 0` of a source.
  abbrev pub is_input : Bytes → Handler F → Bool
  is_input addr (source m) = strncmp_eq addr_cap m.addr_inp addr
  is_input addr _ = false

  -- `handler_list_find_by_input_addr_2`, and `handler_list_find_by_input_addr`, which returns the
  -- source inside of the handler: the first source with the address.
  unfoldable pub handler_list_find_by_input_addr : Bytes → List (Entry F) → Option (Entry F)
  handler_list_find_by_input_addr addr [] = none
  handler_list_find_by_input_addr addr (e ∷ es) =
      let rest = handler_list_find_by_input_addr addr es in
      if is_input addr e.handler then some e else rest

  -- `g_list_remove` of a handler.
  unfoldable pub remove_id : ℕ → List (Entry F) → List (Entry F)
  remove_id id [] = []
  remove_id id (e ∷ es) = let rest = remove_id id es in if e.id == id then es else e ∷ rest

  -- A handler is written through its pointer.
  unfoldable pub set_handler : ℕ → Handler F → List (Entry F) → List (Entry F)
  set_handler id h [] = []
  set_handler id h (e ∷ es) =
      let rest = set_handler id h es in
      if e.id == id then record e { handler = h } ∷ es else e ∷ rest

  -- The handler behind a pointer; `none` once it has been freed.
  unfoldable pub lookup_id : ℕ → List (Entry F) → Option (Handler F)
  lookup_id id [] = none
  lookup_id id (e ∷ es) = let rest = lookup_id id es in if e.id == id then some e.handler else rest

  abbrev pub on_app_log : Action Log → Action (App F)
  on_app_log m a = let (o, l) = m a.log in (o, record a { log = l })

  -- `handler_list_add`.
  unfoldable pub handler_list_add : Handler F → Action (App F)
  handler_list_add h a = (
    ok,
    record a {
      handlers = a.handlers ++ record { id = a.next_id; handler = h } ∷ [];
      next_id = a.next_id + 1;
    },
  )

  -- A call on a source in the list.
  abbrev pub write_source : ℕ → App F → Outcome × Ctx F → Outcome × App F
  write_source id a (o, c) = (
    o,
    record a { handlers = set_handler id (source c.self) a.handlers; stats = c.stats; log = c.log },
  )

  abbrev pub on_source : Action (Ctx F) → Entry F → Chnhandler F → Action (App F)
  on_source m e self a =
      write_source e.id a (m (record { self = self; stats = a.stats; log = a.log }))

module _ {F : Type 0} (w : Outside F) where
  open w use {env}

  -- `cleanup_struct_Handler`; what fails in it is printed.
  unfoldable pub cleanup_struct_handler : Handler F → Statistics F → Log → Log
  unfolding cleanup_bsr_chnhandler cleanup_struct_bsr_startupcmd dummy_source_cleanup
      cleanup_struct_bsr_memreq
  cleanup_struct_handler (source m) s log =
      (cleanup_bsr_chnhandler w (record { self = m; stats = s; log = log })).1.log
  cleanup_struct_handler (startup m) s log =
      (cleanup_struct_bsr_startupcmd env (record { self = m; log = log })).1.log
  cleanup_struct_handler (memreq m) s log = (cleanup_struct_bsr_memreq env m log).1
  cleanup_struct_handler (dummy_source m) s log = (dummy_source_cleanup env m log).1

  -- `handler_list_remove`.
  unfoldable pub handler_list_remove : Entry F → Action (App F)
  handler_list_remove e a = (
    ok,
    record a {
      handlers = remove_id e.id a.handlers;
      log = cleanup_struct_handler e.handler a.stats a.log;
    },
  )

  -- `cleanup_struct_HandlerList`, which returns -1 in any case.
  unfoldable pub cleanup_all : List (Entry F) → Statistics F → Log → Log
  cleanup_all [] s log = log
  cleanup_all (e ∷ es) s log = cleanup_all es s (cleanup_struct_handler e.handler s log)

  unfoldable pub cleanup_struct_handler_list : Action (App F)
  cleanup_struct_handler_list a =
      (fail, record a { handlers = []; log = cleanup_all a.handlers a.stats a.log })

  -- The part of `add-source` that makes the handler. A failure before the last allocation of the init
  -- leaves pointers unset that the clean-up then frees.
  abbrev pub keep_source : Outcome × Ctx F → App F → Outcome × App F
  keep_source (ok, c) a =
      handler_list_add (source c.self) (record a { stats = c.stats; log = c.log })
  keep_source (fail, c) a =
      (ok, record a { stats = c.stats; log = cleanup_struct_handler (source c.self) c.stats c.log })
  keep_source (fault, c) a = (fault, record a { stats = c.stats; log = c.log })

  abbrev pub finish_source : Outcome × Ctx F → App F → Outcome × App F
  finish_source (ok, c) a = keep_source ((init_header w >> bsr_chnhandler_connect w) c) a
  finish_source (o, c) a = (fault, record a { stats = c.stats; log = c.log })

  -- The body of the two `add-source` commands.
  unfoldable pub new_source : Bytes → ℤ → ℤ → ℤ → Action (App F)
  unfolding call
  new_source src msgmax hwm rcv = on_app_log (call env alloc) >> (λ a.
      finish_source
        (init_pointers w src msgmax hwm rcv
          (record { self = w.memory; stats = a.stats; log = a.log }))
        a)

  unfoldable pub add_source_cmd : Bytes → ℤ → ℤ → ℤ → Action (App F)
  add_source_cmd src msgmax hwm rcv a = elim (handler_list_find_by_input_addr src a.handlers) [
    | some e ↦ (ok, a)
    | none ↦ new_source src msgmax hwm rcv a
  ]

  -- Failures of the call on the source are only printed.
  abbrev pub ignore_failure : Outcome × App F → Outcome × App F
  ignore_failure (fail, a) = (ok, a)
  ignore_failure (o, a) = (o, a)

  abbrev pub for_source : Action (Ctx F) → Entry F → Handler F → Action (App F)
  for_source m e (source self) a = ignore_failure (on_source m e self a)
  for_source m e _ a = (ok, a)

  -- The commands that look a source up and call one of its functions.
  unfoldable pub with_source : Bytes → Action (Ctx F) → Action (App F)
  with_source src m a = elim (handler_list_find_by_input_addr src a.handlers) [
    | none ↦ (ok, a)
    | some e ↦ for_source m e e.handler a
  ]

  unfoldable pub add_output_cmd : Bytes → Bytes → ℤ → ℤ → Action (App F)
  add_output_cmd src out hwm buf = with_source src (bsr_chnhandler_add_out w out hwm buf)

  unfoldable pub remove_output_cmd : Bytes → Bytes → Action (App F)
  remove_output_cmd src out = with_source src (bsr_chnhandler_remove_out w out)

  unfoldable pub reconnect_source_cmd : Bytes → Action (App F)
  reconnect_source_cmd src = with_source src (bsr_chnhandler_reopen_input w)

  unfoldable pub remove_source_cmd : Bytes → Action (App F)
  remove_source_cmd src a = elim (handler_list_find_by_input_addr src a.handlers) [
    | none ↦ (ok, a)
    | some e ↦ handler_list_remove e a
  ]

  abbrev pub keep_dummy : Outcome × DummySource × Log → App F → Outcome × App F
  keep_dummy (ok, d, log) a = handler_list_add (dummy_source d) (record a { log = log })
  keep_dummy (o, d, log) a =
      (ok, record a { log = cleanup_struct_handler (dummy_source d) a.stats log })

  -- The handler is written by `memset` before its pointer is checked.
  unfoldable pub dummy_source_cmd : Action (App F)
  dummy_source_cmd a =
      if env.answer a.log alloc
      then keep_dummy (dummy_source_init env (called alloc true ∷ a.log)) a
      else (fault, record a { log = called alloc false ∷ a.log })
