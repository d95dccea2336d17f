-- ===== src/Handlers/Find.antt =====
-- Sources by their address: what `add-source` adds, and what a look-up then finds.
use bsreadrepeater.Base.{
  Option, true, false, Bytes, ◌∷◌, ◌>>◌, fail, arith, Outcome, ◌++◌, ok, some, inr, inl, ◌≡◌, ◌⊎◌,
  Action, fault, Bool-cases, none, ℤ, [], refl, ◌∙◌, ℕ, >>-eq-ok, subst, ap, sym, List,
}
use bsreadrepeater.Channel.{Chnhandler, Ctx, Outside, on_log}
use bsreadrepeater.Channel.Open.{
  open_input, init_header, fresh, init_pointers, bsr_chnhandler_connect,
}
use bsreadrepeater.Channel.Ready.{IsReady, is_some}
use bsreadrepeater.Handlers.{
  handler_list_find_by_input_addr, handler_list_add, add_source_cmd, Entry, new_source, source, App,
  keep_source, finish_source,
}
use bsreadrepeater.Sockopts.{set_pull_sock_opts}
use bsreadrepeater.Text.{copy_addr}
use bsreadrepeater.Zmq.{
  call, called, alloc, Log, pull, opened, connect, Sock, poller_add, pollin, not_opened,
}

module _ {F : Type 0} (w : Outside F) where
  -- A source as `bsr_chnhandler_init` leaves it, but for its socket.
  pub record IsFresh (src : Bytes) (m : Chnhandler F) : Type 0 where
    pub addr : m.addr_inp ≡ copy_addr src
    pub in_recv : m.state ≡ 1
    pub unparsed : m.do_parse_header ≡ false
    pub unthrottled : m.throttling ≡ false
    pub enabled : m.input_disabled ≡ false
    pub no_outputs : m.socks_out ≡ []

  pub init_pointers-IsFresh :
      (src : Bytes) (msgmax hwm rcv : ℤ) (c : Ctx F)
      → IsFresh src (init_pointers w src msgmax hwm rcv c).1.self
  unfolding init_pointers fresh call
  init_pointers-IsFresh src msgmax hwm rcv c = ground arith

  abbrev pub opened_source : Action (Ctx F)
  opened_source = init_header w >> bsr_chnhandler_connect w

  init_header-IsFresh :
      (src : Bytes) (c : Ctx F) → IsFresh src c.self → IsFresh src (init_header w c).1.self
  unfolding init_header call
  init_header-IsFresh src c f = ground arith

  self-on_log :
      (l m n : Action Log) (c : Ctx F) → ((on_log l >> on_log m >> on_log n) c).1.self ≡ c.self
  self-on_log l m n c = ground arith

  open_input-IsFresh :
      (src : Bytes) (c : Ctx F)
      → IsFresh src c.self
      → (open_input w c).0 ≡ ok
      → IsFresh src (open_input w c).1.self × (is_some (open_input w c).1.self.sock_inp ≡ true)
  unfolding open_input
  open_input-IsFresh src c f = by_socket (w.env.socket c.log pull)
    where
      Good : Outcome × Ctx F → Type 0
      Good r = r.0 ≡ ok → IsFresh src r.1.self × (is_some r.1.self.sock_inp ≡ true)

      by_socket :
          (s : Option Sock)
          → Good (elim s as (λ x. Outcome × Ctx F) [
            | none ↦ (
              fail,
              record c { self = record c.self { sock_inp = none }; log = not_opened pull ∷ c.log },
            )
            | some sock ↦
                (on_log (
                      set_pull_sock_opts w.env sock c.self.inp_msgmax c.self.inp_rcvhwm
                        c.self.inp_rcvbuf)
                    >> on_log (call w.env (connect sock c.self.addr_inp))
                    >> on_log (call w.env (poller_add sock pollin)))
                  (record c {
                    self = record c.self { sock_inp = some sock };
                    log = opened pull sock ∷ c.log;
                  })
          ])
      by_socket none = λ h. cc
      by_socket (some sock) = λ h.
          subst (λ m. IsFresh src m × (is_some m.sock_inp ≡ true))
            (sym (
              self-on_log
                (set_pull_sock_opts w.env sock c.self.inp_msgmax c.self.inp_rcvhwm
                  c.self.inp_rcvbuf)
                (call w.env (connect sock c.self.addr_inp)) (call w.env (poller_add sock pollin))
                (record c {
                  self = record c.self { sock_inp = some sock };
                  log = opened pull sock ∷ c.log;
                })))
            (
              record {
                addr = f.addr;
                in_recv = f.in_recv;
                unparsed = f.unparsed;
                unthrottled = f.unthrottled;
                enabled = f.enabled;
                no_outputs = f.no_outputs;
              },
              refl,
            )

  pub opened_source-IsFresh :
      (src : Bytes) (c : Ctx F)
      → IsFresh src c.self
      → (opened_source c).0 ≡ ok
      → IsFresh src (opened_source c).1.self × (is_some (opened_source c).1.self.sock_inp ≡ true)
  unfolding bsr_chnhandler_connect
  opened_source-IsFresh src c f h =
      let split = >>-eq-ok (init_header w) (open_input w) c h in
      subst (λ (r : Outcome × Ctx F). IsFresh src r.1.self × (is_some r.1.self.sock_inp ≡ true))
        (sym split.1)
        (open_input-IsFresh src (init_header w c).1 (init_header-IsFresh src c f)
          (ap (λ (r : Outcome × Ctx F). r.0) (sym split.1) ∙ h))

  -- The source that has been added, and where.
  pub record Added (src : Bytes) (id : ℕ) (before after : List (Entry F)) (m : Chnhandler F)
      : Type 0 where
    pub ready : IsReady m
    pub connected : is_some m.sock_inp ≡ true
    pub addr : m.addr_inp ≡ copy_addr src
    pub no_outputs : m.socks_out ≡ []
    pub absent : handler_list_find_by_input_addr src before ≡ none
    pub last : after ≡ before ++ record { id = id; handler = source m } ∷ []

  abbrev pub AddedOrSame : Bytes → App F → App F → Type 0
  AddedOrSame src a b =
      (b.handlers ≡ a.handlers) ⊎ ((m : Chnhandler F) × Added src a.next_id a.handlers b.handlers m)

  keep_source-AddedOrSame :
      (src : Bytes) (r : Outcome × Ctx F) (a : App F)
      → handler_list_find_by_input_addr src a.handlers ≡ none
      → (r.0 ≡ ok → IsFresh src r.1.self × (is_some r.1.self.sock_inp ≡ true))
      → AddedOrSame src a (keep_source w r a).1
  unfolding handler_list_add
  keep_source-AddedOrSame src (ok, c) a n h =
      let f = h refl in
      inr (
        c.self,
        record {
          ready = record {
            in_recv = f.0.in_recv;
            unparsed = f.0.unparsed;
            unthrottled = f.0.unthrottled;
            enabled = f.0.enabled;
          };
          connected = f.1;
          addr = f.0.addr;
          no_outputs = f.0.no_outputs;
          absent = n;
          last = refl;
        },
      )
  keep_source-AddedOrSame src (fail, c) a n h = inl refl
  keep_source-AddedOrSame src (fault, c) a n h = inl refl

  finish_source-AddedOrSame :
      (src : Bytes) (r : Outcome × Ctx F) (a : App F)
      → handler_list_find_by_input_addr src a.handlers ≡ none
      → IsFresh src r.1.self
      → AddedOrSame src a (finish_source w r a).1
  finish_source-AddedOrSame src (ok, c) a n f =
      keep_source-AddedOrSame src (opened_source c) a n (opened_source-IsFresh src c f)
  finish_source-AddedOrSame src (fail, c) a n f = inl refl
  finish_source-AddedOrSame src (fault, c) a n f = inl refl

  new_source-AddedOrSame :
      (src : Bytes) (msgmax hwm rcv : ℤ) (a : App F)
      → handler_list_find_by_input_addr src a.handlers ≡ none
      → AddedOrSame src a (new_source w src msgmax hwm rcv a).1
  unfolding new_source call
  new_source-AddedOrSame src msgmax hwm rcv a n = elim (Bool-cases (w.env.answer a.log alloc)) [
    | inl e ↦ rw e (
        finish_source-AddedOrSame src
          (init_pointers w src msgmax hwm rcv
            (record { self = w.memory; stats = a.stats; log = called alloc true ∷ a.log }))
          (record a { log = called alloc true ∷ a.log }) n
          (init_pointers-IsFresh src msgmax hwm rcv _))
    | inr e ↦ rw e (inl refl)
  ]

  -- `add-source` either leaves the list of handlers alone, or no source had the address and it puts one
  -- new handler behind the others: a source in service under the address, cut to 79 bytes, with no
  -- outputs.
  pub add_source_cmd_lem :
      (src : Bytes) (msgmax hwm rcv : ℤ) (a : App F)
      → AddedOrSame src a (add_source_cmd w src msgmax hwm rcv a).1
  unfolding add_source_cmd
  add_source_cmd_lem src msgmax hwm rcv a =
      by_found (handler_list_find_by_input_addr src a.handlers) refl
    where
      by_found :
          (r : Option (Entry F))
          → handler_list_find_by_input_addr src a.handlers ≡ r
          → AddedOrSame src a
              (elim r as (λ x. Outcome × App F) [
                | some e ↦ (ok, a)
                | none ↦ new_source w src msgmax hwm rcv a
              ]).1
      by_found (some e) h = inl refl
      by_found none h = new_source-AddedOrSame src msgmax hwm rcv a h
