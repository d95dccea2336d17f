-- ===== src/Handlers/Owned.antt =====
-- The sockets of the handlers in the list.
use bsreadrepeater.Base.{
  Bytes, ◌==◌, List, ◌≡◌, Option, arith, if◌then◌else◌, false, [], ◌≤◌, refl, Bool, ==_refl, true,
  ◌++◌, if_true, ◌+◌, Action, ◌∷◌, ℕ, none, some,
}
use bsreadrepeater.Channel.{Outside, Chnhandler, Ctx}
use bsreadrepeater.Channel.Owned.{source_held, IsOwned}
use bsreadrepeater.Handlers.{
  Handler, memreq, set_handler, App, handler_list_find_by_input_addr, source, dummy_source,
  remove_id, on_source, is_input, Entry, handler_list_add, startup, lookup_id,
}
use bsreadrepeater.Handlers.Lookup.{Ascending}
use bsreadrepeater.Sockets.{IsOpen, held_by, one_if}
use bsreadrepeater.Zmq.{Sock}

module _ {F : Type 0} (k : Sock) where
  abbrev pub handler_held : Handler F → ℕ
  handler_held (source m) = source_held k m
  handler_held (startup m) = one_if (m.sock_out == k)
  handler_held (memreq m) = one_if (m.sock_out == k)
  handler_held (dummy_source d) = held_by k d.sock

  abbrev pub all_held : List (Entry F) → ℕ
  all_held [] = 0
  all_held (e ∷ es) = handler_held e.handler + all_held es

  -- The socket has been opened as often as it was closed, but for what the handlers hold of it and the
  -- `n` times that others hold it.
  abbrev pub IsAppOwned : ℕ → App F → Type 0
  IsAppOwned n a = IsOpen k (all_held a.handlers + n) a.log

  all_held-append :
      (es : List (Entry F)) (e : Entry F)
      → all_held (es ++ e ∷ []) ≡ handler_held e.handler + all_held es
  all_held-append [] e = refl
  all_held-append (x ∷ es) e = omega (arith, all_held-append es e)

  pub all_held-remove_id :
      (id : ℕ) (h : Handler F) (es : List (Entry F))
      → lookup_id id es ≡ some h
      → all_held es ≡ handler_held h + all_held (remove_id id es)
  unfolding lookup_id remove_id
  all_held-remove_id id h [] l = absurd cc
  all_held-remove_id id h (e ∷ es) l = grind (arith, l, all_held-remove_id id h es)

  pub all_held-set_handler :
      (id : ℕ) (old new : Handler F) (es : List (Entry F))
      → lookup_id id es ≡ some old
      → all_held (set_handler id new es) ≡ handler_held new + all_held (remove_id id es)
  unfolding lookup_id set_handler remove_id
  all_held-set_handler id old new [] l = absurd cc
  all_held-set_handler id old new (e ∷ es) l = grind (arith, l, all_held-set_handler id old new es)

  -- A handler that is written back with the sockets that it had.
  pub all_held-same :
      (id : ℕ) (old new : Handler F) (es : List (Entry F))
      → lookup_id id es ≡ some old
      → handler_held new ≡ handler_held old
      → all_held (set_handler id new es) ≡ all_held es
  all_held-same id old new es l h =
      omega (arith, h, all_held-remove_id id old es l, all_held-set_handler id old new es l)

  pub handler_list_add-IsAppOwned :
      (h : Handler F) (n : ℕ) (a : App F)
      → IsOpen k (handler_held h + (all_held a.handlers + n)) a.log
      → IsAppOwned n (handler_list_add h a).1
  unfolding handler_list_add
  handler_list_add-IsAppOwned h n a o =
      omega (arith, o, all_held-append a.handlers (record { id = a.next_id; handler = h }))

  abbrev pub at_source : Chnhandler F → App F → Ctx F
  at_source self a = record { self = self; stats = a.stats; log = a.log }

  -- A call on a source that keeps account of its sockets.
  pub on_source-IsAppOwned :
      (w : Outside F) (m : Action (Ctx F)) (e : Entry F) (self : Chnhandler F) (n : ℕ) (a : App F)
      → ((N : ℕ) → IsOwned w k N (at_source self a) → IsOwned w k N (m (at_source self a)).1)
      → lookup_id e.id a.handlers ≡ some (source self)
      → IsAppOwned n a
      → IsAppOwned n (on_source m e self a).1
  on_source-IsAppOwned w m e self n a p l o =
      let others = all_held (remove_id e.id a.handlers) + n in
      let c : Ctx F = at_source self a in
      omega (
        arith,
        p others (omega (arith, o, all_held-remove_id e.id (source self) a.handlers l)),
        all_held-set_handler e.id (source self) (source (m c).1.self) a.handlers l,
      )

module _ {F : Type 0} where
  -- What a look-up by address finds is what stands behind its pointer.
  abbrev pub IsFoundIn : ℕ → List (Entry F) → Option (Entry F) → Type 0
  IsFoundIn lo es none = Unit {0}
  IsFoundIn lo es (some e) = (lo ≤ e.id) × (lookup_id e.id es ≡ some e.handler)

  IsFoundIn-behind :
      (e : Entry F) (es : List (Entry F)) (lo : ℕ) (r : Option (Entry F))
      → lo ≤ e.id
      → IsFoundIn (e.id + 1) es r
      → IsFoundIn lo (e ∷ es) r
  unfolding lookup_id
  IsFoundIn-behind e es lo none l f = tt
  IsFoundIn-behind e es lo (some x) l f = ground (arith, f, l)

  pub find-IsFoundIn :
      (addr : Bytes) (es : List (Entry F)) (lo hi : ℕ)
      → Ascending lo hi es
      → IsFoundIn lo es (handler_list_find_by_input_addr addr es)
  unfolding handler_list_find_by_input_addr lookup_id
  find-IsFoundIn addr [] lo hi a = tt
  find-IsFoundIn addr (e ∷ es) lo hi a = by_test (is_input addr e.handler) (
      IsFoundIn-behind e es lo (handler_list_find_by_input_addr addr es) a.0
        (find-IsFoundIn addr es (e.id + 1) hi a.2))
    where
      by_test :
          (b : Bool)
          → IsFoundIn lo (e ∷ es) (handler_list_find_by_input_addr addr es)
          → IsFoundIn lo (e ∷ es) (if b then some e else handler_list_find_by_input_addr addr es)
      by_test true f = (a.0, if_true _ _ (==_refl e.id))
      by_test false f = f
