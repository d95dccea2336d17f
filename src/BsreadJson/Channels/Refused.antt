-- ===== src/BsreadJson/Channels/Refused.antt =====
-- What `json_parse_data_header` does with a text: accept it, refuse it, or end with an exception.
use bsreadrepeater.Base.{
  Bytes, negsuc, ◌++◌, [], if◌then◌else◌, List, ◌∷◌, ◌⊎◌, false, ℕ, Bool, Option, add32, inr, some,
  true, ◌≡◌, ◌<◌, refl, inl, pos, none, ap, arith, sym, subst,
}
use bsreadrepeater.BsreadJson.{Rapidjson}
use bsreadrepeater.BsreadJson.Channels.{
  channel_name, note_all, note_channels, data_channels, data_result, note_channel, data_htype,
  json_parse_data_header,
}
use bsreadrepeater.BsreadJson.Document.{HasText, eq_of_same_text, same_text_refl}
use bsreadrepeater.Ema.{FloatOps}
use bsreadrepeater.Headers.{ChannelMap, DataParsed, MainHeader}
use bsreadrepeater.JsonCommand.{same_text}
use bsreadrepeater.Text.{codes, c_string}

-- A look-up and a test with what each branch knows.
member_cases :
    {A R : Type 0} (P : R → Type 0) (x : Option A) (d : R) (f : A → R)
    → (x ≡ none → P d)
    → ((a : A) → x ≡ some a → P (f a))
    → P (elim x as (λ y. R) [ none ↦ d | some a ↦ f a ])
member_cases P none d f r k = r refl
member_cases P (some a) d f r k = k a refl

test_cases :
    {R : Type 0} (P : R → Type 0) (b : Bool) (t e : R)
    → (b ≡ true → P t)
    → (b ≡ false → P e)
    → P (if b then t else e)
test_cases P true t e p q = p refl
test_cases P false t e p q = q refl

module _ {F : Type 0} (fl : FloatOps F) (now : ℕ) (mh : MainHeader) {V : Type 0} (j : Rapidjson V)
    (has_room : ChannelMap F → Bytes → Bool) where
  open j use {parse_json, is_object, find_member, get_string, get_array}

  -- The text is a data header with these elements in its array of channels.
  pub record IsDataHeader (text : Bytes) (vs : List V) : Type 0 where
    pub doc : V
    pub channels : V
    pub parsed : parse_json text ≡ some doc
    pub object : is_object doc ≡ true
    pub htype : HasText j doc (codes "htype") (codes "bsr_d-1.1")
    pub member : find_member doc (codes "channels") ≡ some channels
    pub array : get_array channels ≡ some vs

  -- All elements have been noted, from a count and a map on.
  abbrev pub IsAccepted : List V → ℕ × ChannelMap F → DataParsed F → Type 0
  IsAccepted vs r p = p ≡ record {
    code = pos 0;
    channel_count = (note_all fl now mh j vs r).0;
    channel_map = some (note_all fl now mh j vs r).1;
  }

  -- The elements before one have been noted; that one has a name, for which there is no memory, and has
  -- been counted only.
  abbrev pub IsThrown : List V → ℕ × ChannelMap F → DataParsed F → Type 0
  IsThrown vs r p =
      (before : List V) × (v : V) × (rest : List V) × (name : Bytes) × (vs ≡ before ++ v ∷ rest)
      × (channel_name fl now mh j v ≡ some name)
      × (has_room (note_all fl now mh j before r).1 name ≡ false)
      × (p ≡ record {
        code = negsuc 0;
        channel_count = add32 (note_all fl now mh j before r).0 1;
        channel_map = some (note_all fl now mh j before r).1;
      })

  -- One of the errors 1, 2 and 3, with nothing counted or written.
  abbrev pub IsRefused : ChannelMap F → DataParsed F → Type 0
  IsRefused m p =
      (k : ℕ) × (0 < k)
      × (k < 4)
      × (p ≡ record { code = pos k; channel_count = 0; channel_map = some m })

  -- One more element in front.
  cons-IsThrown :
      (v : V) (vs : List V) (r s : ℕ × ChannelMap F) (p : DataParsed F)
      → ((us : List V) → note_all fl now mh j (v ∷ us) r ≡ note_all fl now mh j us s)
      → IsAccepted vs s p ⊎ IsThrown vs s p
      → IsAccepted (v ∷ vs) r p ⊎ IsThrown (v ∷ vs) r p
  cons-IsThrown v vs r s p e (inl a) = inl (rw (e vs) a)
  cons-IsThrown v vs r s p e (inr (before, u, rest, name, q, n, h, a)) =
      inr (v ∷ before, u, rest, name, ap (λ xs. v ∷ xs) q, n, rw (e before) h, rw (e before) a)

  -- How the loop ends, from a count and a map on.
  abbrev HasEnded : List V → ℕ × ChannelMap F → DataParsed F → Type 0
  HasEnded vs r p = IsAccepted vs r p ⊎ IsThrown vs r p

  note_channels-HasEnded :
      (vs : List V) (n : ℕ) (m : ChannelMap F)
      → HasEnded vs (n, m) (note_channels fl now mh j has_room vs (n, m))
  unfolding note_channels note_all
  note_channels-HasEnded [] n m = inl refl
  note_channels-HasEnded (v ∷ vs) n m =
      by_name (λ k c. note_channels-HasEnded vs k c) (channel_name fl now mh j v) refl
    where
      loop : List V → ℕ × ChannelMap F → DataParsed F
      loop = note_channels fl now mh j has_room

      by_room :
          ((k : ℕ) (c : ChannelMap F)
            → HasEnded vs (k, c) (note_channels fl now mh j has_room vs (k, c)))
          → (name : Bytes) → channel_name fl now mh j v ≡ some name
          → (b : Bool) → has_room m name ≡ b
          → HasEnded (v ∷ vs) (n, m) (loop (v ∷ vs) (n, m))
      by_room ends name e true h =
          subst (HasEnded (v ∷ vs) (n, m)) (sym (rw (note_channels, e, h) refl)) (
            cons-IsThrown v vs (n, m) (add32 n 1, note_channel fl now mh name m)
              (loop vs (add32 n 1, note_channel fl now mh name m)) (λ us. rw (note_all, e) refl)
              (ends (add32 n 1) (note_channel fl now mh name m)))
      by_room ends name e false h = inr ([], v, vs, name, refl, e, h, rw (note_channels, e, h) refl)

      by_name :
          ((k : ℕ) (c : ChannelMap F)
            → HasEnded vs (k, c) (note_channels fl now mh j has_room vs (k, c)))
          → (x : Option Bytes) → channel_name fl now mh j v ≡ x
          → HasEnded (v ∷ vs) (n, m) (loop (v ∷ vs) (n, m))
      by_name ends none e = subst (HasEnded (v ∷ vs) (n, m)) (sym (rw (note_channels, e) refl)) (
          cons-IsThrown v vs (n, m) (n, m) (loop vs (n, m)) (λ us. rw (note_all, e) refl)
            (ends n m))
      by_name ends (some name) e = by_room ends name e (has_room m name) refl

  module _ (m : ChannelMap F) (text : Bytes) where
    -- What can be said of a text and of what the parser makes of it.
    abbrev pub IsReadOrRefused : DataParsed F → Type 0
    IsReadOrRefused p =
        ((vs : List V) × IsDataHeader text vs × (IsAccepted vs (0, m) p ⊎ IsThrown vs (0, m) p))
        ⊎ ((vs : List V) → ¬ IsDataHeader text vs) × IsRefused m p

    refused_by :
        (k : ℕ)
        → 0 < k
        → k < 4
        → ((vs : List V) → ¬ IsDataHeader text vs)
        → IsReadOrRefused (data_result fl now mh j (pos k) (some m))
    refused_by k l u n = inr (n, (k, l, u, refl))

    channels_cases :
        (doc : V)
        → parse_json text ≡ some doc
        → is_object doc ≡ true
        → HasText j doc (codes "htype") (codes "bsr_d-1.1")
        → IsReadOrRefused (data_channels fl now mh j has_room doc (some m))
    unfolding data_channels
    channels_cases doc p o t =
        member_cases IsReadOrRefused (find_member doc (codes "channels")) _ _
          (λ e.
            refused_by 3 (omega arith) (omega arith)
              (λ vs i. let q = i.parsed in let r = i.member in cc))
          (λ v f.
            member_cases IsReadOrRefused (get_array v) _ _
              (λ e.
                refused_by 3 (omega arith) (omega arith)
                  (λ vs i. let q = i.parsed in let r = i.member in let s = i.array in cc))
              (λ vs a. inl (
                vs,
                record {
                  doc = doc;
                  channels = v;
                  parsed = p;
                  object = o;
                  htype = t;
                  member = f;
                  array = a;
                },
                note_channels-HasEnded vs 0 m,
              )))

    htype_cases :
        (doc : V)
        → parse_json text ≡ some doc
        → is_object doc ≡ true
        → IsReadOrRefused (data_htype fl now mh j has_room doc (some m))
    unfolding data_htype
    htype_cases doc p o =
        member_cases IsReadOrRefused (find_member doc (codes "htype")) _ _
          (λ e.
            refused_by 2 (omega arith) (omega arith)
              (λ vs i. let q = i.parsed in let (v, u, f, t, s) = i.htype in cc))
          (λ v f.
            member_cases IsReadOrRefused (get_string v) _ _
              (λ e.
                refused_by 2 (omega arith) (omega arith)
                  (λ vs i. let q = i.parsed in let (v', u, f', t, s) = i.htype in cc))
              (λ u t.
                test_cases IsReadOrRefused (same_text (codes "bsr_d-1.1") (c_string u)) _ _
                  (λ b.
                    channels_cases doc p o
                      (v, u, f, t, sym (eq_of_same_text (codes "bsr_d-1.1") (c_string u) b)))
                  (λ b. refused_by 2 (omega arith) (omega arith) (λ vs i.
                    let q = i.parsed in
                    let (v', u', f', t', s) = i.htype in
                    let e : c_string u ≡ codes "bsr_d-1.1" = cc in
                    let r = same_text_refl (codes "bsr_d-1.1") in cc))))

  -- Whatever the text, with a map of channels. A data header: either all elements of its array are noted,
  -- from the map as it was and a count of 0, and 0 is returned, or -1 is returned where memory for a
  -- named channel is missing: the elements before it have been noted, and it has been counted. Any
  -- other text: the error 1, 2 or 3, a count of 0 and the map as it was.
  pub data_header-IsReadOrRefused :
      (text : Bytes) (m : ChannelMap F)
      → IsReadOrRefused m text (json_parse_data_header fl now mh j has_room text (some m))
  unfolding json_parse_data_header
  data_header-IsReadOrRefused text m =
      member_cases (IsReadOrRefused m text) (parse_json text) _ _
        (λ e. refused_by m text 1 (omega arith) (omega arith) (λ vs i. let q = i.parsed in cc))
        (λ doc p.
          test_cases (IsReadOrRefused m text) (is_object doc) _ _ (htype_cases m text doc p) (λ o.
            refused_by m text 1 (omega arith) (omega arith)
              (λ vs i. let q = i.parsed in let r = i.object in cc)))
