-- ===== src/Channel/Outputs/Changes.antt =====
-- What adding and removing an output does to the list of outputs.
use bsreadrepeater.Base.{
  fail, ◌≢◌, ◌||◌, ok, fault, inl, ◌∙◌, false, ◌∷◌, inr, Outcome, Option, [], ℕ, ◌⊎◌, true, sym,
  List, ℤ, ◌≡◌, Bool, refl, none, ◌++◌, Bytes, arith, some, if◌then◌else◌, ◌>>◌, ◌<◌, length, ap,
}
use bsreadrepeater.Channel.{Outside, Ctx, Sockout, Chnhandler}
use bsreadrepeater.Channel.Outputs.{
  find_out, bsr_chnhandler_remove_nth_out, nth, remove_nth, bsr_chnhandler_close_sock, new_output,
  bsr_chnhandler_remove_out, or_close, append_if, bsr_chnhandler_add_out, bind_output,
}
use bsreadrepeater.Sockopts.{set_push_sock_opts}
use bsreadrepeater.Text.{addr_cap, strncmp_eq}
use bsreadrepeater.Text.Compare.{strncmp_eq_refl, copy_addr_fits}
use bsreadrepeater.Zmq.{Sock, Log, call, alloc, not_opened, push, opened, called, outcome_of}

-- The list without the first output whose address compares equal.
unfoldable pub remove_first : Bytes → List Sockout → List Sockout
remove_first addr [] = []
remove_first addr (so ∷ outs) =
    if strncmp_eq addr_cap addr so.addr then outs else so ∷ remove_first addr outs

unfoldable pub has_output : Bytes → List Sockout → Bool
has_output addr [] = false
has_output addr (so ∷ outs) = strncmp_eq addr_cap addr so.addr || has_output addr outs

remove_nth-find_out :
    (addr : Bytes) (outs : List Sockout)
    → remove_nth (find_out addr outs) outs ≡ remove_first addr outs
unfolding find_out remove_first
remove_nth-find_out addr [] = refl
remove_nth-find_out addr (so ∷ outs) = ground (arith, remove_nth-find_out addr outs)

nth-find_out :
    (addr : Bytes) (outs : List Sockout)
    → nth (find_out addr outs) outs ≡ none
    → remove_first addr outs ≡ outs
unfolding find_out remove_first
nth-find_out addr [] h = refl
nth-find_out addr (so ∷ outs) h = ground (arith, nth-find_out addr outs)

remove_first-append :
    (addr : Bytes) (outs : List Sockout) (so : Sockout)
    → has_output addr outs ≡ false
    → strncmp_eq addr_cap addr so.addr ≡ true
    → remove_first addr (outs ++ so ∷ []) ≡ outs
unfolding remove_first has_output
remove_first-append addr [] so h e = rw e refl
remove_first-append addr (x ∷ outs) so h e = ground (arith, remove_first-append addr outs so)

module _ {F : Type 0} (w : Outside F) where
  remove_nth_out-cases :
      (ix : ℕ) (c : Ctx F) (r : Option Sockout)
      → nth ix c.self.socks_out ≡ r
      → let d = bsr_chnhandler_remove_nth_out w ix c in
        ((d.0 ≡ ok) × (nth ix c.self.socks_out ≡ none) × (d.1.self.socks_out ≡ c.self.socks_out))
        ⊎ ((d.0 ≡ ok) × (d.1.self.socks_out ≡ remove_nth ix c.self.socks_out))
        ⊎ ((d.0 ≡ fail) × (d.1.self.socks_out ≡ c.self.socks_out))
  unfolding bsr_chnhandler_remove_nth_out bsr_chnhandler_close_sock call
  remove_nth_out-cases ix c none h = inl (ground (arith, h))
  remove_nth_out-cases ix c (some so) h = inr (ground (arith, h))

  pub remove_out_lem :
      (addr : Bytes) (c : Ctx F)
      → let d = bsr_chnhandler_remove_out w addr c in
        (d.0 ≡ ok) × (d.1.self.socks_out ≡ remove_first addr c.self.socks_out)
        ⊎ (d.0 ≡ fail) × (d.1.self.socks_out ≡ c.self.socks_out)
  unfolding bsr_chnhandler_remove_out
  remove_out_lem addr c = elim (remove_nth_out-cases (find_out addr c.self.socks_out) c _ refl) [
    | inl (o, n, e) ↦ inl (o, e ∙ sym (nth-find_out addr c.self.socks_out n))
    | inr (inl (o, e)) ↦ inl (o, e ∙ remove_nth-find_out addr c.self.socks_out)
    | inr (inr f) ↦ inr f
  ]

  -- What `add_out` does: a new output behind the others, all of whose calls succeeded, or a failure
  -- after which a socket that had been opened has been closed.
  abbrev pub Extends : Bytes → ℤ → ℤ → Ctx F → Outcome × Ctx F → Type 0
  Extends addr sndhwm sndbuf c d =
      ((sock : Sock) × (d.0 ≡ ok)
        × (d.1.self ≡ record c.self {
          socks_out = c.self.socks_out ++ new_output w sock addr sndhwm sndbuf ∷ [];
        }))
      ⊎ ((d.0 ≡ fail) × (d.1.self ≡ c.self))

  bind_output-ends :
      (sock : Sock) (addr : Bytes) (sndhwm sndbuf : ℤ) (log : Log)
      → (bind_output w sock addr sndhwm sndbuf log).0 ≢ fault
  unfolding bind_output set_push_sock_opts call
  bind_output-ends sock addr sndhwm sndbuf log = ground arith

  bound-Extends :
      (addr : Bytes) (sndhwm sndbuf : ℤ) (c : Ctx F) (sock : Sock) (l : Outcome × Log)
      → l.0 ≢ fault
      → Extends addr sndhwm sndbuf c
          (append_if w (new_output w sock addr sndhwm sndbuf) (or_close w sock l) c)
  bound-Extends addr sndhwm sndbuf c sock (ok, log) h = inl (sock, refl, refl)
  bound-Extends addr sndhwm sndbuf c sock (fail, log) h = inr (refl, refl)
  bound-Extends addr sndhwm sndbuf c sock (fault, log) h = absurd (h refl)

  add_out_bound :
      (addr : Bytes) (sndhwm sndbuf : ℤ) (c : Ctx F) (s : Option Sock)
      → Extends addr sndhwm sndbuf c (elim s as (λ x. Outcome × Ctx F) [
        | none ↦ (fail, record c { log = not_opened push ∷ c.log })
        | some sock ↦
            append_if w
              (new_output w sock addr sndhwm sndbuf)
              (or_close w sock (bind_output w sock addr sndhwm sndbuf (opened push sock ∷ c.log)))
              c
      ])
  add_out_bound addr sndhwm sndbuf c none = inr (refl, refl)
  add_out_bound addr sndhwm sndbuf c (some sock) =
      bound-Extends addr sndhwm sndbuf c sock _ (bind_output-ends sock addr sndhwm sndbuf _)

  add_out-Extends :
      (addr : Bytes) (sndhwm sndbuf : ℤ) (c : Ctx F)
      → Extends addr sndhwm sndbuf c (bsr_chnhandler_add_out w addr sndhwm sndbuf c)
  unfolding bsr_chnhandler_add_out call
  add_out-Extends addr sndhwm sndbuf c = by_alloc (w.env.answer c.log alloc)
    where
      by_alloc :
          (b : Bool)
          → Extends addr sndhwm sndbuf c (
              ((λ (d : Ctx F). (outcome_of b, record d { log = called alloc b ∷ d.log }))
                  >> (λ (d : Ctx F). elim (w.env.socket d.log push) as (λ x. Outcome × Ctx F) [
                    | none ↦ (fail, record d { log = not_opened push ∷ d.log })
                    | some sock ↦
                        append_if w
                          (new_output w sock addr sndhwm sndbuf)
                          (or_close w sock
                            (bind_output w sock addr sndhwm sndbuf (opened push sock ∷ d.log)))
                          d
                  ]))
                c)
      by_alloc true =
          add_out_bound addr sndhwm sndbuf (record c { log = called alloc true ∷ c.log }) _
      by_alloc false = inr (refl, refl)

  -- An output with an address of less than 80 bytes, which no output had before, is added and removed
  -- again: when both calls return 0, the list of outputs is what it was.
  pub remove_out-add_out :
      (addr : Bytes) (sndhwm sndbuf : ℤ) (c : Ctx F)
      → length addr < addr_cap
      → has_output addr c.self.socks_out ≡ false
      → (bsr_chnhandler_add_out w addr sndhwm sndbuf c).0 ≡ ok
      → (bsr_chnhandler_remove_out w addr (bsr_chnhandler_add_out w addr sndhwm sndbuf c).1).0 ≡ ok
      → (bsr_chnhandler_remove_out w addr
          (bsr_chnhandler_add_out w addr sndhwm sndbuf c).1).1.self.socks_out
        ≡ c.self.socks_out
  remove_out-add_out addr sndhwm sndbuf c fits unused first second =
      elim (remove_out_lem addr (bsr_chnhandler_add_out w addr sndhwm sndbuf c).1) [
        | inl (o, e) ↦ elim (add_out-Extends addr sndhwm sndbuf c) [
          | inl (sock, o', e') ↦
              e
              ∙ ap (λ (m : Chnhandler F). remove_first addr m.socks_out) e'
              ∙ remove_first-append addr c.self.socks_out (new_output w sock addr sndhwm sndbuf)
                  unused
                  (ap (strncmp_eq addr_cap addr) (copy_addr_fits addr fits)
                    ∙ strncmp_eq_refl addr_cap addr)
          | inr (o', e') ↦ absurd (ok_fail (sym first ∙ o'))
        ]
        | inr (o, e) ↦ absurd (ok_fail (sym second ∙ o))
      ]
    where
      ok_fail : ok ≡ fail → ⊥
      ok_fail h = cc
