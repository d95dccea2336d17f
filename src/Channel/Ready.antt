-- ===== src/Channel/Ready.antt =====
-- A handler in service: what `bsr_chnhandler_init` and `_connect` set up and events keep.
use bsreadrepeater.Base.{
  arith, Bool, ◌≡◌, true, Option, ◌≢◌, none, fault, Bytes, false, some, List, ◌∙◌, Bool-cases, not,
  inl, ◌&&◌, ◌>>◌, ltb, inr, ok, length,
}
use bsreadrepeater.Channel.{Outside, Sockout, Chnhandler, Ctx}
use bsreadrepeater.Channel.Forward.{forward_one, forward_all, forward}
use bsreadrepeater.Channel.Forward.Induction.{forward_all_induction}
use bsreadrepeater.Channel.Receive.{
  finish_message, handle_part, check_parts, throttle, parse_headers, end_round, account,
  forward_if_due,
}
use bsreadrepeater.Split.{Timespec}

abbrev pub is_some {ℓ} : {A : Type ℓ} → Option A → Bool
is_some none = false
is_some (some a) = true

pub record IsReady {F : Type 0} (m : Chnhandler F) : Type 0 where
  pub in_recv : m.state ≡ 1
  pub unparsed : m.do_parse_header ≡ false
  pub unthrottled : m.throttling ≡ false
  pub enabled : m.input_disabled ≡ false

module _ {F : Type 0} (w : Outside F) where
  -- What an event keeps of the handler and of the statistics.
  pub record Keeps (c d : Ctx F) : Type 0 where
    pub ready : IsReady c.self → IsReady d.self
    pub addr : d.self.addr_inp ≡ c.self.addr_inp
    pub socket : d.self.sock_inp ≡ c.self.sock_inp
    pub events : d.stats.timed_events ≡ c.stats.timed_events
    pub count : d.self.channel_count ≡ c.self.channel_count
    pub message : d.self.mpmsgc ≡ c.self.mpmsgc
    pub blocked : d.self.block_current_mpm ≡ c.self.block_current_mpm

  Keeps-refl : (c : Ctx F) → Keeps c c
  Keeps-refl c = ground arith

  Keeps-trans : {c d e : Ctx F} → Keeps c d → Keeps d e → Keeps c e
  Keeps-trans p q = record {
    ready = λ r. q.ready (p.ready r);
    addr = q.addr ∙ p.addr;
    socket = q.socket ∙ p.socket;
    events = q.events ∙ p.events;
    count = q.count ∙ p.count;
    message = q.message ∙ p.message;
    blocked = q.blocked ∙ p.blocked;
  }

  forward_one-Keeps :
      (frame : Bytes) (more : Bool) (so : Sockout) (c : Ctx F)
      → Keeps c (forward_one w frame more so c).2 × ((forward_one w frame more so c).0 ≢ fault)
  unfolding forward_one
  forward_one-Keeps frame more so c = ground arith

  pub sock-forward_one :
      (frame : Bytes) (more : Bool) (so : Sockout) (c : Ctx F)
      → (forward_one w frame more so c).1.sock ≡ so.sock
  unfolding forward_one
  sock-forward_one frame more so c = ground arith

  pub forward_all-Keeps :
      (frame : Bytes) (more : Bool) (outs : List Sockout) (c : Ctx F)
      → Keeps c (forward_all w frame more outs c).2 × ((forward_all w frame more outs c).0 ≢ fault)
  unfolding forward_all
  forward_all-Keeps frame more =
      forward_all_induction w frame more (λ c outs r. Keeps c r.2 × (r.0 ≢ fault))
        (λ c. (Keeps-refl c, λ e. cc)) (λ c so outs h. forward_one-Keeps frame more so c)
        (λ c so outs r h k. (Keeps-trans (forward_one-Keeps frame more so c).0 k.0, k.1))

  pub forward-Keeps :
      (frame : Bytes) (more : Bool) (c : Ctx F)
      → Keeps c (forward w frame more c).1 × ((forward w frame more c).0 ≢ fault)
  unfolding forward
  forward-Keeps frame more c =
      let k = forward_all-Keeps frame more c.self.socks_out c in
      (Keeps-trans k.0 (ground arith), k.1)

  -- What a whole event keeps: the handler stays in service, and neither the scheduled events nor the
  -- number of channels change.
  pub record Stays (c d : Ctx F) : Type 0 where
    pub ready : IsReady d.self
    pub addr : d.self.addr_inp ≡ c.self.addr_inp
    pub socket : d.self.sock_inp ≡ c.self.sock_inp
    pub events : d.stats.timed_events ≡ c.stats.timed_events
    pub count : d.self.channel_count ≡ c.self.channel_count

  pub forward_if_due-Keeps :
      (frame : Bytes) (more : Bool) (tspoll : Timespec) (c : Ctx F)
      → Keeps c (forward_if_due w tspoll frame more c).1
        × ((forward_if_due w tspoll frame more c).0 ≢ fault)
  unfolding forward_if_due
  forward_if_due-Keeps frame more tspoll c =
      elim (Bool-cases (ltb 0 c.self.mpmsgc && not c.self.block_current_mpm)) [
        | inl e ↦ rw e (forward-Keeps frame more c)
        | inr e ↦ rw e (Keeps-refl c, λ h. cc)
      ]

  -- The handler when a part reaches the outputs.
  abbrev pub entered : Bytes → Timespec → Ctx F → Ctx F
  entered frame tspoll c = (parse_headers w tspoll frame (account w tspoll (length frame) c)).1

  entered-Keeps :
      (frame : Bytes) (tspoll : Timespec) (c : Ctx F)
      → c.self.do_parse_header ≡ false
      → Keeps c (entered frame tspoll c)
        × ((parse_headers w tspoll frame (account w tspoll (length frame) c)).0 ≡ ok)
  unfolding parse_headers account
  entered-Keeps frame tspoll c h = ground arith

  pub part-Stays :
      (frame : Bytes) (more : Bool) (tspoll : Timespec) (c : Ctx F)
      → IsReady c.self
      → Stays c ((handle_part w tspoll frame more >> end_round w tspoll) c).1
        × (((handle_part w tspoll frame more >> end_round w tspoll) c).0 ≢ fault)
  unfolding handle_part end_round throttle check_parts finish_message
  part-Stays frame more tspoll c r =
      let e = entered-Keeps frame tspoll c r.unparsed in
      let k = forward_if_due-Keeps frame more tspoll (entered frame tspoll c) in
      let both = Keeps-trans e.0 k.0 in let ready = both.ready r in ground (arith, e.1, ready)
