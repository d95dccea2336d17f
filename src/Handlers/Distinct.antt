-- ===== src/Handlers/Distinct.antt =====
-- The addresses of the sources: no two are the same, and each can be found again.
use bsreadrepeater.Base.{
  none, [], ◌≡◌, Bytes, Bool, some, ◌++◌, List, ◌||◌, if◌then◌else◌, not, ◌&&◌, refl, ◌∷◌, false,
  true, arith, sym, inr, ◌≢◌, ◌<◌, append_assoc, ℤ, ap, ℕ, ◌∙◌, length, inl, ◌≤◌, ltb,
}
use bsreadrepeater.Channel.{Outside, Chnhandler}
use bsreadrepeater.Channel.Ready.{IsReady, is_some}
use bsreadrepeater.Handlers.{
  source, handler_list_find_by_input_addr, Entry, startup, memreq, Handler, dummy_source, is_input,
  add_source_cmd, App,
}
use bsreadrepeater.Handlers.Find.{add_source_cmd_lem}
use bsreadrepeater.Text.{strncmp_eq, addr_cap, copy_addr}
use bsreadrepeater.Text.Compare.{
  strncmp_eq_comm, copy_addr_fits, strncmp_eq_refl, length-copy_addr-lt, strncmp_eq_long,
}

module _ {F : Type 0} where
  abbrev addr_of : Handler F → List Bytes
  addr_of (source m) = m.addr_inp ∷ []
  addr_of _ = []

  -- The addresses of the sources, in the order of the list.
  unfoldable pub source_addrs : List (Entry F) → List Bytes
  source_addrs [] = []
  source_addrs (e ∷ es) = addr_of e.handler ++ source_addrs es

-- No address occurs twice, and each fits into its array of 80 bytes.
-- Whether an address compares equal to one of those given, and whether no two of those do.
unfoldable pub is_taken : Bytes → List Bytes → Bool
is_taken a [] = false
is_taken a (b ∷ bs) = strncmp_eq addr_cap b a || is_taken a bs

unfoldable pub are_distinct : List Bytes → Bool
unfolding is_taken
are_distinct [] = true
are_distinct (a ∷ rest) = not (is_taken a rest) && are_distinct rest

is_taken-append :
    (a : Bytes) (xs ys : List Bytes) → is_taken a (xs ++ ys) ≡ (is_taken a xs || is_taken a ys)
unfolding is_taken
is_taken-append a [] ys = refl
is_taken-append a (x ∷ xs) ys = ground (arith, is_taken-append a xs ys)

-- An address that compares equal to none of those given can be put behind them.
distinct-append :
    (xs : List Bytes) (a : Bytes)
    → is_taken a xs ≡ false
    → are_distinct xs ≡ true
    → are_distinct (xs ++ a ∷ []) ≡ true
unfolding is_taken are_distinct
distinct-append [] a n d = refl
distinct-append (x ∷ xs) a n d =
    ground
      (arith, is_taken-append x xs (a ∷ []), strncmp_eq_comm addr_cap x a, distinct-append xs a)

module _ {F : Type 0} where
  find_none :
      (a : Bytes) (es : List (Entry F))
      → handler_list_find_by_input_addr a es ≡ none
      → is_taken a (source_addrs es) ≡ false
  unfolding handler_list_find_by_input_addr is_taken source_addrs
  find_none a [] h = refl
  find_none a (e ∷ es) h = by_kind (find_none a es) e.handler h
    where
      by_kind :
          (handler_list_find_by_input_addr a es ≡ none → is_taken a (source_addrs es) ≡ false)
          → (k : Handler F)
          → (if is_input a k then some e else handler_list_find_by_input_addr a es) ≡ none
          → is_taken a (addr_of k ++ source_addrs es) ≡ false
      by_kind rest (source m) h = ground (arith, rest)
      by_kind rest (startup m) h = rest h
      by_kind rest (memreq m) h = rest h
      by_kind rest (dummy_source m) h = rest h

  source_addrs-append :
      (xs ys : List (Entry F)) → source_addrs (xs ++ ys) ≡ source_addrs xs ++ source_addrs ys
  unfolding source_addrs
  source_addrs-append [] ys = refl
  source_addrs-append (x ∷ xs) ys =
      ap (λ t. addr_of x.handler ++ t) (source_addrs-append xs ys)
      ∙ sym (append_assoc (addr_of x.handler) (source_addrs xs) (source_addrs ys))

  -- The address of a source that has been put behind the others.
  addrs-added :
      (es : List (Entry F)) (id : ℕ) (m : Chnhandler F)
      → source_addrs (es ++ record { id = id; handler = source m } ∷ [])
        ≡ source_addrs es ++ m.addr_inp ∷ []
  unfolding source_addrs
  addrs-added es id m = source_addrs-append es (record { id = id; handler = source m } ∷ [])

  pub find_last :
      (a : Bytes) (es : List (Entry F)) (e : Entry F)
      → handler_list_find_by_input_addr a es ≡ none
      → is_input a e.handler ≡ true
      → handler_list_find_by_input_addr a (es ++ e ∷ []) ≡ some e
  unfolding handler_list_find_by_input_addr
  find_last a [] e n h = rw h
  find_last a (x ∷ es) e n h = ground (arith, find_last a es e)

module _ {F : Type 0} (w : Outside F) where
  abbrev pub added : Bytes → ℤ → ℤ → ℤ → App F → List (Entry F)
  added src msgmax hwm rcv a = (add_source_cmd w src msgmax hwm rcv a).1.handlers

  -- `add-source` with an address of less than 80 bytes keeps the addresses of the sources apart from
  -- each other, whichever calls in it fail.
  pub add_source_cmd-distinct :
      (src : Bytes) (msgmax hwm rcv : ℤ) (a : App F)
      → length src < addr_cap
      → are_distinct (source_addrs a.handlers) ≡ true
      → are_distinct (source_addrs (added src msgmax hwm rcv a)) ≡ true
  add_source_cmd-distinct src msgmax hwm rcv a fits d =
      elim (add_source_cmd_lem w src msgmax hwm rcv a) [
        | inl e ↦ rw e d
        | inr (m, new) ↦
            rw (new.last, addrs-added a.handlers a.next_id m, new.addr, copy_addr_fits src fits)
              (distinct-append (source_addrs a.handlers) src (find_none src a.handlers new.absent)
                d)
      ]

  -- After `add-source` with an address of less than 80 bytes that changed the list of handlers, a
  -- look-up of the address finds the handler that has been added, and it is a source in service with an
  -- input socket.
  pub find-add_source :
      (src : Bytes) (msgmax hwm rcv : ℤ) (a : App F)
      → length src < addr_cap
      → added src msgmax hwm rcv a ≢ a.handlers
      → (m : Chnhandler F) × IsReady m
        × (is_some m.sock_inp ≡ true)
        × (handler_list_find_by_input_addr src (added src msgmax hwm rcv a)
            ≡ some (record { id = a.next_id; handler = source m }))
  find-add_source src msgmax hwm rcv a fits changed =
      elim (add_source_cmd_lem w src msgmax hwm rcv a) [
        | inl e ↦ absurd (changed e)
        | inr (m, new) ↦ (
          m,
          new.ready,
          new.connected,
          rw new.last (
              find_last src a.handlers (record { id = a.next_id; handler = source m }) new.absent
                (rw (new.addr, copy_addr_fits src fits) (strncmp_eq_refl addr_cap src))),
        )
      ]

-- Each address has less than 80 bytes, as it has in the array of a source.
unfoldable pub all_fit : List Bytes → Bool
all_fit [] = true
all_fit (a ∷ rest) = ltb (length a) addr_cap && all_fit rest

all_fit-append :
    (xs : List Bytes) (a : Bytes)
    → all_fit xs ≡ true
    → length a < addr_cap
    → all_fit (xs ++ a ∷ []) ≡ true
unfolding all_fit
all_fit-append [] a h l = ground arith
all_fit-append (x ∷ xs) a h l = ground (arith, all_fit-append xs a)

module _ {F : Type 0} where
  find_long :
      (a : Bytes) (es : List (Entry F))
      → addr_cap ≤ length a
      → all_fit (source_addrs es) ≡ true
      → handler_list_find_by_input_addr a es ≡ none
  unfolding handler_list_find_by_input_addr all_fit source_addrs
  find_long a [] l h = refl
  find_long a (e ∷ es) l h = by_kind (find_long a es l) e.handler h
    where
      by_kind :
          (all_fit (source_addrs es) ≡ true → handler_list_find_by_input_addr a es ≡ none)
          → (k : Handler F) → all_fit (addr_of k ++ source_addrs es) ≡ true
          → (if is_input a k then some e else handler_list_find_by_input_addr a es) ≡ none
      by_kind rest (source m) h = ground (arith, rest, strncmp_eq_long m.addr_inp a)
      by_kind rest (startup m) h = rest h
      by_kind rest (memreq m) h = rest h
      by_kind rest (dummy_source m) h = rest h

module _ {F : Type 0} (w : Outside F) where
  -- Every address in the list keeps fitting into its array when `add-source` runs, and a look-up of an
  -- address of 80 bytes or more then finds nothing, even if `add-source` has just added it.
  pub find-add_source_long :
      (src : Bytes) (msgmax hwm rcv : ℤ) (a : App F) (b : Bytes)
      → all_fit (source_addrs a.handlers) ≡ true
      → addr_cap ≤ length b
      → (all_fit (source_addrs (added w src msgmax hwm rcv a)) ≡ true)
        × (handler_list_find_by_input_addr b (added w src msgmax hwm rcv a) ≡ none)
  find-add_source_long src msgmax hwm rcv a b h l = (fit, find_long b _ l fit)
    where
      fit : all_fit (source_addrs (added w src msgmax hwm rcv a)) ≡ true
      fit = elim (add_source_cmd_lem w src msgmax hwm rcv a) [
        | inl e ↦ rw e h
        | inr (m, new) ↦
            rw (new.last, addrs-added a.handlers a.next_id m, new.addr)
              (all_fit-append (source_addrs a.handlers) (copy_addr src) h (length-copy_addr-lt src))
      ]
