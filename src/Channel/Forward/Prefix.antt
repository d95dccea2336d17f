-- ===== src/Channel/Forward/Prefix.antt =====
-- What the loop over the outputs does to one of them, found by its socket.
use bsreadrepeater.Base.{
  refl, Bool, Bytes, true, if◌then◌else◌, ◌&&◌, ==_refl, arith, List, [], ◌==◌, ◌++◌, ◌||◌, not,
  ◌⊎◌, ok, false, ◌∷◌, ◌≡◌, Outcome, inr, Bool-cases, inl, ==_iff,
}
use bsreadrepeater.Channel.{Sockout, Ctx, Outside}
use bsreadrepeater.Channel.Forward.{forward_one, forward_all}
use bsreadrepeater.Channel.Forward.Induction.{forward_all_induction}
use bsreadrepeater.Channel.Ready.{sock-forward_one}
use bsreadrepeater.Zmq.{sent_on, Sock}

-- `t` is the socket of one of the outputs, and no two outputs share a socket.
unfoldable pub has_sock : Sock → List Sockout → Bool
has_sock t [] = false
has_sock t (so ∷ outs) = so.sock == t || has_sock t outs

unfoldable pub distinct_socks : List Sockout → Bool
distinct_socks [] = true
distinct_socks (so ∷ outs) = not (has_sock so.sock outs) && distinct_socks outs

-- Whether the output on the socket drops what is left of the message.
unfoldable pub is_blocked_on : Sock → List Sockout → Bool
is_blocked_on t [] = false
is_blocked_on t (so ∷ outs) =
    if so.sock == t then so.block_current_multipart else is_blocked_on t outs

-- What a part does to an output: nothing if it is blocked; otherwise its socket takes the part and it
-- stays open, or the socket refuses and it is blocked.
abbrev pub Fed : Bytes → Bool → Bool → List Bytes → List Bytes → Type 0
Fed frame b b' old new =
    (b' ≡ true) × (new ≡ old) ⊎ (b ≡ false) × (b' ≡ false) × (new ≡ old ++ frame ∷ [])

module _ {F : Type 0} (w : Outside F) (frame : Bytes) (more : Bool) where
  one-others :
      (t : Sock) (so : Sockout) (c : Ctx F)
      → (so.sock == t) ≡ false
      → sent_on t (forward_one w frame more so c).2.log ≡ sent_on t c.log
  unfolding forward_one sent_on
  one-others t so c h = ground arith

  one-Fed :
      (so : Sockout) (c : Ctx F)
      → (forward_one w frame more so c).0 ≡ ok
      → let r = forward_one w frame more so c in
        Fed frame so.block_current_multipart r.1.block_current_multipart
          (sent_on so.sock c.log)
          (sent_on so.sock r.2.log)
  unfolding forward_one sent_on
  one-Fed so c h = ground (arith, ==_refl so.sock)

  pub record Serves (t : Sock) (c : Ctx F) (outs : List Sockout)
      (r : Outcome × List Sockout × Ctx F) : Type 0 where
    pub socks : (u : Sock) → has_sock u r.1 ≡ has_sock u outs
    pub distinct : distinct_socks r.1 ≡ distinct_socks outs
    pub others : has_sock t outs ≡ false → sent_on t r.2.log ≡ sent_on t c.log
    pub fed :
        r.0 ≡ ok
        → distinct_socks outs ≡ true
        → has_sock t outs ≡ true
        → Fed frame
            (is_blocked_on t outs)
            (is_blocked_on t r.1)
            (sent_on t c.log)
            (sent_on t r.2.log)

  here :
      (t : Sock) (c : Ctx F) (so : Sockout) (outs : List Sockout)
      (r : Outcome × List Sockout × Ctx F)
      → (forward_one w frame more so c).0 ≡ ok
      → Serves t (forward_one w frame more so c).2 outs r
      → (so.sock == t) ≡ true
      → r.0 ≡ ok
      → distinct_socks (so ∷ outs) ≡ true
      → Fed frame
          (is_blocked_on t (so ∷ outs))
          (is_blocked_on t ((forward_one w frame more so c).1 ∷ r.1))
          (sent_on t c.log)
          (sent_on t r.2.log)
  unfolding distinct_socks is_blocked_on
  here t c so outs r o s e p d =
      rw (sock-forward_one w frame more so c, e, s.others absent, ← (==_iff so.sock t).0 e)
        (one-Fed so c o)
    where
      absent : has_sock t outs ≡ false
      absent = rw (← (==_iff so.sock t).0 e) (ground arith)

  pub forward_all-Serves :
      (t : Sock) (outs : List Sockout) (c : Ctx F)
      → Serves t c outs (forward_all w frame more outs c)
  unfolding has_sock distinct_socks is_blocked_on
  forward_all-Serves t =
      forward_all_induction w frame more (Serves t)
        (λ c. record { socks = λ u. refl; distinct = refl; others = λ h. refl; fed = λ o d h. cc })
        (λ c so outs h. record {
          socks = λ u. rw (sock-forward_one w frame more so c) refl;
          distinct = rw (sock-forward_one w frame more so c) refl;
          others = λ g. one-others t so c (ground arith);
          fed = λ o d g. absurd (h o);
        })
        (λ c so outs r o s. record {
          socks = λ u. rw (sock-forward_one w frame more so c, s.socks u) refl;
          distinct = rw (sock-forward_one w frame more so c, s.socks so.sock, s.distinct) refl;
          others = λ g. ground (arith, one-others t so c, s.others);
          fed = λ p d g. elim (Bool-cases (so.sock == t)) [
            | inl e ↦ here t c so outs r o s e p d
            | inr e ↦
                rw (sock-forward_one w frame more so c, e, ← one-others t so c e)
                  (s.fed p (ground arith) (ground arith))
          ];
        })
