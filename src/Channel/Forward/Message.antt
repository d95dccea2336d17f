-- ===== src/Channel/Forward/Message.antt =====
-- What each output gets of a message: the parts from the first on, without a gap.
use bsreadrepeater.Base.{
  done, Bytes, >>-eq-ok, inr, take, length, ℕ, Bool, [], false, append_assoc, ◌∙◌, append-nil, ap,
  ok, ◌>>◌, ◌≤◌, ◌≡◌, ◌∷◌, ◌⊎◌, suc, arith, sym, inl, map, Action, List, ◌++◌, refl, true,
}
use bsreadrepeater.Channel.{Ctx, Outside, Sockout}
use bsreadrepeater.Channel.Forward.{forward}
use bsreadrepeater.Channel.Forward.Prefix.{
  is_blocked_on, distinct_socks, Serves, Fed, has_sock, forward_all-Serves,
}
use bsreadrepeater.Rep.Requeue.{refused}
use bsreadrepeater.Startup.Order.{got}
use bsreadrepeater.Zmq.{Sock, sent_on}

module _ {F : Type 0} (w : Outside F) where
  -- The parts of a message, each with its flag for more, go to the outputs one after the other.
  unfoldable pub forward_parts : List (Bytes × Bool) → Action (Ctx F)
  forward_parts [] = done
  forward_parts ((frame, more) ∷ parts) = forward w frame more >> forward_parts parts

  abbrev pub frames : List (Bytes × Bool) → List Bytes
  frames parts = map (λ (p : Bytes × Bool). p.0) parts

  forward-Serves :
      (frame : Bytes) (more : Bool) (t : Sock) (c : Ctx F)
      → let r = forward w frame more c in
        Serves w frame more t c c.self.socks_out (r.0, r.1.self.socks_out, r.1)
  unfolding forward
  forward-Serves frame more t c =
      let s = forward_all-Serves w frame more t c.self.socks_out c in
      record { socks = s.socks; distinct = s.distinct; others = s.others; fed = s.fed }

  -- An output in service: its socket is in the list, and in it once.
  abbrev pub IsOutput : Sock → List Sockout → Type 0
  IsOutput t outs = (distinct_socks outs ≡ true) × (has_sock t outs ≡ true)

  -- What a socket has got of the parts: `n` of them, and all unless it has refused one.
  abbrev pub GotPrefix : Sock → List Bytes → Ctx F → Ctx F → Type 0
  GotPrefix t parts c d =
      (n : ℕ) × (n ≤ length parts)
      × (sent_on t d.log ≡ sent_on t c.log ++ take n parts)
      × ((is_blocked_on t d.self.socks_out ≡ true)
          ⊎ (is_blocked_on t d.self.socks_out ≡ false) × (n ≡ length parts))

  forward-IsOutput :
      (frame : Bytes) (more : Bool) (t : Sock) (c : Ctx F)
      → IsOutput t c.self.socks_out
      → IsOutput t (forward w frame more c).1.self.socks_out
  forward-IsOutput frame more t c h =
      let s = forward-Serves frame more t c in (s.distinct ∙ h.0, s.socks t ∙ h.1)

  blocked-parts :
      (parts : List (Bytes × Bool)) (t : Sock) (c : Ctx F)
      → IsOutput t c.self.socks_out
      → is_blocked_on t c.self.socks_out ≡ true
      → (forward_parts parts c).0 ≡ ok
      → let d = (forward_parts parts c).1 in
        (sent_on t d.log ≡ sent_on t c.log) × (is_blocked_on t d.self.socks_out ≡ true)
  unfolding forward_parts
  blocked-parts [] t c h b o = (refl, b)
  blocked-parts ((frame, more) ∷ parts) t c h b o =
      let split = >>-eq-ok (forward w frame more) (forward_parts parts) c o in
      let d = (forward w frame more c).1 in
      let s = (forward-Serves frame more t c).fed split.0 h.0 h.1 in
      let still = still_blocked b s in
      let rest =
        blocked-parts parts t d (forward-IsOutput frame more t c h) still.0 (rw split.1 at o) in
      rw split.1 (rest.0 ∙ still.1, rest.1)
    where
      still_blocked :
          {b b' : Bool} {old new : List Bytes}
          → b ≡ true
          → Fed frame b b' old new
          → (b' ≡ true) × (new ≡ old)
      still_blocked h (inl e) = e
      still_blocked h (inr e) = ground (arith, h, e.0)

  -- While the parts of a message are handed to the outputs without a failure, an output that was open
  -- and whose socket is in the list once gets the parts from the first on, in order and without a gap,
  -- up to where its socket refuses one; if it is still open at the end, it has got all of them.
  pub forward_parts-GotPrefix :
      (parts : List (Bytes × Bool)) (t : Sock) (c : Ctx F)
      → IsOutput t c.self.socks_out
      → is_blocked_on t c.self.socks_out ≡ false
      → (forward_parts parts c).0 ≡ ok
      → GotPrefix t (frames parts) c (forward_parts parts c).1
  unfolding forward_parts
  forward_parts-GotPrefix [] t c h b o = (0, omega arith, sym (append-nil _), inr (b, refl))
  forward_parts-GotPrefix ((frame, more) ∷ parts) t c h b o =
      let split = >>-eq-ok (forward w frame more) (forward_parts parts) c o in
      let d = (forward w frame more c).1 in
      let i = forward-IsOutput frame more t c h in
      elim ((forward-Serves frame more t c).fed split.0 h.0 h.1) [
        | inl refused ↦
            (let rest = blocked-parts parts t d i refused.0 (rw split.1 at o) in
              rw split.1 (0, omega arith, rest.0 ∙ refused.1 ∙ sym (append-nil _), inl rest.1))
        | inr accepts ↦
            (let (n, le, got, end) =
                forward_parts-GotPrefix parts t d i accepts.1 (rw split.1 at o) in
              rw split.1 (
                suc n,
                omega (arith, le),
                got
                    ∙ ap (λ l. l ++ take n (frames parts)) accepts.2
                    ∙ append_assoc _ (frame ∷ []) _,
                elim end [ inl e ↦ inl e | inr e ↦ inr (e.0, omega (arith, e.1)) ],
              ))
      ]
