-- ===== src/Handlers/Sound.antt =====
-- What holds of the handlers between two events, and that each command keeps it.
use bsreadrepeater.Base.{
  ℕ, length, arith, Bytes, ◌≤◌, List, true, ◌==◌, ◌<◌, Option, Bool-cases, ◌≡◌, inl, some, Outcome,
  inr, [], none, ◌++◌, ◌∷◌,
}
use bsreadrepeater.Channel.{Ctx, Outside}
use bsreadrepeater.Channel.Ready.{IsReady, is_some}
use bsreadrepeater.Handlers.{
  set_handler, write_source, dummy_source, handler_list_add, source, startup, is_input, Handler,
  handler_list_find_by_input_addr, Entry, App, handler_list_remove, remove_id, memreq, lookup_id,
}
use bsreadrepeater.Handlers.Lookup.{
  Ascending, set_handler-Ascending, append-Ascending, remove_id-Ascending,
}
use bsreadrepeater.Memreq.Ring.{IsValid}
use bsreadrepeater.Startup.{bufcap}
use bsreadrepeater.Text.{addr_cap}

module _ {F : Type 0} where
  abbrev pub IsSoundHandler : Handler F → Type 0
  IsSoundHandler (source m) = IsReady m × (length m.addr_inp < addr_cap)
  IsSoundHandler (startup m) = length m.text ≤ bufcap
  IsSoundHandler (memreq m) = IsValid m
  IsSoundHandler (dummy_source d) = is_some d.sock ≡ true

  abbrev pub AllSound : List (Entry F) → Type 0
  AllSound [] = Unit {0}
  AllSound (e ∷ es) = IsSoundHandler e.handler × AllSound es

  -- Each handler is as its own operations keep it, no address of a handler is in the list twice or will
  -- be given out again, and no timed event is waiting.
  pub record IsSound (a : App F) : Type 0 where
    pub handlers_sound : AllSound a.handlers
    pub ids : Ascending 0 a.next_id a.handlers
    pub calm : a.stats.timed_events.tree ≡ []

  pub AllSound-set_handler :
      (id : ℕ) (h : Handler F) (es : List (Entry F))
      → IsSoundHandler h
      → AllSound es
      → AllSound (set_handler id h es)
  unfolding set_handler
  AllSound-set_handler id h [] s a = a
  AllSound-set_handler id h (e ∷ es) s a = elim (Bool-cases (e.id == id)) [
    | inl eq ↦ rw eq (s, a.1)
    | inr ne ↦ rw ne (a.0, AllSound-set_handler id h es s a.1)
  ]

  AllSound-append :
      (es : List (Entry F)) (e : Entry F)
      → AllSound es
      → IsSoundHandler e.handler
      → AllSound (es ++ e ∷ [])
  AllSound-append [] e a s = (s, tt)
  AllSound-append (x ∷ es) e a s = (a.0, AllSound-append es e a.1 s)

  AllSound-remove_id : (id : ℕ) (es : List (Entry F)) → AllSound es → AllSound (remove_id id es)
  unfolding remove_id
  AllSound-remove_id id [] a = a
  AllSound-remove_id id (e ∷ es) a = elim (Bool-cases (e.id == id)) [
    | inl eq ↦ rw eq a.1
    | inr ne ↦ rw ne (a.0, AllSound-remove_id id es a.1)
  ]

  -- What a look-up finds.
  abbrev pub FoundSound : Option (Entry F) → Type 0
  FoundSound none = Unit {0}
  FoundSound (some e) = IsSoundHandler e.handler

  pub find_sound :
      (addr : Bytes) (es : List (Entry F))
      → AllSound es
      → FoundSound (handler_list_find_by_input_addr addr es)
  unfolding handler_list_find_by_input_addr
  find_sound addr [] a = tt
  find_sound addr (e ∷ es) a = elim (Bool-cases (is_input addr e.handler)) [
    | inl eq ↦ rw eq a.0
    | inr ne ↦ rw ne (find_sound addr es a.1)
  ]

  abbrev pub HandlerSound : Option (Handler F) → Type 0
  HandlerSound none = Unit {0}
  HandlerSound (some h) = IsSoundHandler h

  pub lookup_id_sound :
      (id : ℕ) (es : List (Entry F)) → AllSound es → HandlerSound (lookup_id id es)
  unfolding lookup_id
  lookup_id_sound id [] a = tt
  lookup_id_sound id (e ∷ es) a = elim (Bool-cases (e.id == id)) [
    | inl eq ↦ rw eq a.0
    | inr ne ↦ rw ne (lookup_id_sound id es a.1)
  ]

  pub handler_list_add-IsSound :
      (h : Handler F) (a : App F) → IsSoundHandler h → IsSound a → IsSound (handler_list_add h a).1
  unfolding handler_list_add
  handler_list_add-IsSound h a s i = record {
    handlers_sound = AllSound-append a.handlers _ i.handlers_sound s;
    ids = append-Ascending a.handlers h 0 a.next_id (omega arith) i.ids;
    calm = i.calm;
  }

module _ {F : Type 0} (w : Outside F) where
  pub handler_list_remove-IsSound :
      (e : Entry F) (a : App F) → IsSound a → IsSound (handler_list_remove w e a).1
  unfolding handler_list_remove
  handler_list_remove-IsSound e a i = record {
    handlers_sound = AllSound-remove_id e.id a.handlers i.handlers_sound;
    ids = remove_id-Ascending e.id a.handlers 0 a.next_id i.ids;
    calm = i.calm;
  }

  -- What a call on a source keeps.
  abbrev pub IsServing : Ctx F → Type 0
  IsServing c =
      IsReady c.self × (length c.self.addr_inp < addr_cap) × (c.stats.timed_events.tree ≡ [])

  pub write_source-IsSound :
      (id : ℕ) (a : App F) (r : Outcome × Ctx F)
      → IsSound a
      → IsServing r.1
      → IsSound (write_source id a r).1
  write_source-IsSound id a r i s = record {
    handlers_sound =
        AllSound-set_handler id (source r.1.self) a.handlers (s.0, s.1) i.handlers_sound;
    ids = set_handler-Ascending id (source r.1.self) a.handlers 0 a.next_id i.ids;
    calm = s.2;
  }
