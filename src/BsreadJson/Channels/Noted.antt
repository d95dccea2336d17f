-- ===== src/BsreadJson/Channels/Noted.antt =====
-- What a data header leaves in the map of the channels.
use bsreadrepeater.Base.{
  Bytes, if◌then◌else◌, [], false, ap, subst, true, ◌≡◌, inl, ◌∷◌, refl, arith, Bool-cases, inr,
  some, Bool, add32, ◌<◌, sym, ◌⊎◌, ◌∙◌, u64_mod, none, ◌+◌, ℕ, List, Option, ◌%◌,
}
use bsreadrepeater.BsreadJson.{Rapidjson}
use bsreadrepeater.BsreadJson.Channels.{
  set_channel, find_channel, channel_name, note_all, seen, emaemv_update, seen_again, note_channel,
  seen_first,
}
use bsreadrepeater.BsreadJson.Document.{eq_of_same_text, same_text_refl}
use bsreadrepeater.Ema.{FloatOps}
use bsreadrepeater.Headers.{ChannelMap, ChannelInfo, MainHeader}
use bsreadrepeater.JsonCommand.{same_text}

module _ {F : Type 0} where
  find-set :
      (name : Bytes) (info : ChannelInfo F) (m : ChannelMap F)
      → find_channel name (set_channel name info m) ≡ some info
  unfolding find_channel set_channel
  find-set name info [] = rw (same_text_refl name) refl
  find-set name info ((k, v) ∷ m) = elim (Bool-cases (same_text name k)) [
    | inl e ↦ rw (e, e) refl
    | inr e ↦ rw (e, e) (find-set name info m)
  ]

  find-set_ne :
      (x name : Bytes) (info : ChannelInfo F) (m : ChannelMap F)
      → same_text x name ≡ false
      → find_channel x (set_channel name info m) ≡ find_channel x m
  unfolding find_channel set_channel
  find-set_ne x name info [] h = rw h refl
  find-set_ne x name info ((k, v) ∷ m) h = elim (Bool-cases (same_text name k)) [
    | inl e ↦
        (let n : same_text x k ≡ false =
            subst (λ y. same_text x y ≡ false) (eq_of_same_text name k e) h in
          rw (e, n) refl)
    | inr e ↦ rw e (ap (λ r. if same_text x k then some v else r) (find-set_ne x name info m h))
  ]

module _ {F : Type 0} (fl : FloatOps F) (now : ℕ) (mh : MainHeader) where
  abbrev pub headers_of : Option (ChannelInfo F) → ℕ
  headers_of none = 0
  headers_of (some e) = e.dhcount

  -- An entry that this header has written, after `d` headers with the channel and `c` elements of this
  -- one.
  abbrev pub IsNoted : ℕ → ℕ → Option (ChannelInfo F) → Type 0
  IsNoted d c none = ⊥
  IsNoted d c (some e) =
      (e.ts_last_event ≡ now)
      × (e.bsread_last_pulse ≡ mh.pulse)
      × (e.bsread_last_timestamp ≡ mh.timestamp)
      × (e.dhcount ≡ (d + c) % u64_mod)

  seen-IsNoted : (r : Option (ChannelInfo F)) → IsNoted (headers_of r) 1 (some (seen fl now mh r))
  unfolding seen seen_first seen_again emaemv_update
  seen-IsNoted none = (refl, refl, refl, refl)
  seen-IsNoted (some e) = (refl, refl, refl, refl)

  IsNoted-add :
      (d c k : ℕ) (r r' : Option (ChannelInfo F))
      → IsNoted d c r
      → IsNoted (headers_of r) k r'
      → IsNoted d (c + k) r'
  IsNoted-add d c k (some e) none h g = g
  IsNoted-add d c k none r' h g = absurd h
  IsNoted-add d c k (some e) (some e') h g = (g.0, g.1, g.2, omega (arith, h.3, g.3))

  module _ {V : Type 0} (j : Rapidjson V) (x : Bytes) where
    -- How often the header has the channel.
    abbrev is_named : Option Bytes → Bool
    is_named none = false
    is_named (some name) = same_text x name

    unfoldable pub occurrences : List V → ℕ
    unfolding channel_name same_text
    occurrences [] = 0
    occurrences (v ∷ vs) =
        let rest = occurrences vs in
        if is_named (channel_name fl now mh j v) then rest + 1 else rest

    -- The entry of the channel, before and after.
    abbrev pub Change : ℕ → Option (ChannelInfo F) → Option (ChannelInfo F) → Type 0
    Change c r r' = (c ≡ 0) × (r' ≡ r) ⊎ (0 < c) × IsNoted (headers_of r) c r'

    Change-step :
        (c : ℕ) (r r1 r' : Option (ChannelInfo F))
        → r1 ≡ some (seen fl now mh r)
        → Change c r1 r'
        → Change (c + 1) r r'
    Change-step c r r1 r' e (inl (z, q)) = inr (
      omega arith,
      subst (λ i. IsNoted (headers_of r) i r') (omega (arith, z))
          (subst (IsNoted (headers_of r) 1) (sym (q ∙ e)) (seen-IsNoted r)),
    )
    Change-step c r r1 r' e (inr (l, g)) = inr (
      omega arith,
      subst (λ i. IsNoted (headers_of r) i r') (omega arith)
          (IsNoted-add (headers_of r) 1 c r1 r'
            (subst (IsNoted (headers_of r) 1) (sym e) (seen-IsNoted r)) g),
    )

    note_self :
        (name : Bytes) (m : ChannelMap F)
        → same_text x name ≡ true
        → find_channel x (note_channel fl now mh name m) ≡ some (seen fl now mh (find_channel x m))
    unfolding note_channel
    note_self name m h =
        subst
          (λ y.
            find_channel x (set_channel y (seen fl now mh (find_channel y m)) m)
            ≡ some (seen fl now mh (find_channel x m)))
          (eq_of_same_text x name h) (find-set x (seen fl now mh (find_channel x m)) m)

    note_other :
        (name : Bytes) (m : ChannelMap F)
        → same_text x name ≡ false
        → find_channel x (note_channel fl now mh name m) ≡ find_channel x m
    unfolding note_channel
    note_other name m h = find-set_ne x name (seen fl now mh (find_channel name m)) m h

    -- For any channel, the elements of a data header that bear its name: if there is none, its entry in
    -- the map stays as it was; otherwise the channel has an entry, with the time of this header and the
    -- pulse and the timestamp of the main header, and its count of headers, which wraps at 2 ^ 64, has grown
    -- by the number of those elements.
    pub note_all-Change :
        (vs : List V) (n : ℕ) (m : ChannelMap F)
        → Change
            (occurrences vs)
            (find_channel x m)
            (find_channel x (note_all fl now mh j vs (n, m)).1)
    unfolding note_all occurrences
    note_all-Change [] n m = inl (refl, refl)
    note_all-Change (v ∷ vs) n m =
        by_name (channel_name fl now mh j v) (λ k m'. note_all-Change vs k m')
      where
        Next : Option Bytes → Type 0
        Next r =
            Change (if is_named r then occurrences vs + 1 else occurrences vs) (find_channel x m) (
              find_channel x
                (elim r as (λ y. ℕ × ChannelMap F) [
                  | none ↦ note_all fl now mh j vs (n, m)
                  | some name ↦ note_all fl now mh j vs (add32 n 1, note_channel fl now mh name m)
                ]).1)

        by_name :
            (r : Option Bytes)
            → ((k : ℕ) (m' : ChannelMap F)
                → Change
                    (occurrences vs)
                    (find_channel x m')
                    (find_channel x (note_all fl now mh j vs (k, m')).1))
            → Next r
        by_name none p = p n m
        by_name (some name) p = elim (Bool-cases (same_text x name)) [
          | inl e ↦ rw e (
              Change-step (occurrences vs) (find_channel x m)
                (find_channel x (note_channel fl now mh name m))
                (find_channel x
                  (note_all fl now mh j vs (add32 n 1, note_channel fl now mh name m)).1)
                (note_self name m e) (p (add32 n 1) (note_channel fl now mh name m)))
          | inr e ↦ rw e (
              subst
                (λ r. Change (occurrences vs) r (
                  find_channel x
                    (note_all fl now mh j vs (add32 n 1, note_channel fl now mh name m)).1))
                (note_other name m e) (p (add32 n 1) (note_channel fl now mh name m)))
        ]
