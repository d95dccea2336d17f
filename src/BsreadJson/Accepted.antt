-- ===== src/BsreadJson/Accepted.antt =====
-- Which texts `json_parse_main_header` accepts, and what it reads from them.
use bsreadrepeater.Base.{
  Bytes, inl, ◌⊎◌, ℕ, ◌≡◌, u64_mod, some, Option, none, true, ◌%◌, ◌≢◌, ◌+◌, ℤ, pos, ◌*◌, inr, ap,
  sym, ◌↔◌, ◌∙◌, refl, subst, suc,
}
use bsreadrepeater.BsreadJson.{
  Rapidjson, result, same_literal, compr_of, main_htype, main_pulse, json_parse_main_header,
  main_compr, main_time,
}
use bsreadrepeater.BsreadJson.Document.{
  HasText, HasNumber, HasNoText, taken_of, found_of, eq_of_same_text, passed_of,
}
use bsreadrepeater.Headers.{MainHeader, MainParsed}
use bsreadrepeater.JsonCommand.{same_text}
use bsreadrepeater.Text.{c_string, codes}

-- The names of the compressions, with the codes that the handlers use.
abbrev IsCode : Bytes → ℕ → Type 0
IsCode s c =
    (s ≡ codes "none") × (c ≡ 0)
    ⊎ (s ≡ codes "bitshuffle_lz4") × (c ≡ 1)
    ⊎ (s ≡ codes "lz4") × (c ≡ 2)

-- An error is not 0.
refused : {k : ℕ} (d h : MainHeader) → result (pos (suc k)) d ≢ result (pos 0) h
refused {k} d h e = number (ap code_of e)
  where
    code_of : Option MainParsed → ℤ
    code_of none = pos 0
    code_of (some p) = p.code

    number : pos (suc k) ≢ pos 0
    number q = cc

absent : (h : MainHeader) → none ≢ result (pos 0) h
absent h e = cc

header_eq : (d h : MainHeader) → result (pos 0) d ≡ result (pos 0) h → d ≡ h
header_eq d h e = ap header_of e
  where
    header_of : Option MainParsed → MainHeader
    header_of none = d
    header_of (some p) = p.header

-- A header that is returned with another compression.
compression_eq :
    (d h : MainHeader) (c : ℕ)
    → result (pos 0) (record d { compr = c }) ≡ result (pos 0) h
    → (h.pulse ≡ d.pulse) × (h.timestamp ≡ d.timestamp) × (h.compr ≡ c)
compression_eq d h c e =
    let q = sym (header_eq (record d { compr = c }) h e) in
    (ap (λ x. x.pulse) q, ap (λ x. x.timestamp) q, ap (λ x. x.compr) q)

compr_of-IsCode :
    (cs : Bytes) (d h : MainHeader)
    → compr_of cs d ≡ result (pos 0) h
    → (h.pulse ≡ d.pulse) × (h.timestamp ≡ d.timestamp) × IsCode (c_string cs) h.compr
unfolding compr_of
compr_of-IsCode cs d h e = elim (taken_of (same_literal (codes "none") cs) _ _ e) [
  | inl (t, f) ↦
      (let (p, s, c) = compression_eq d h 0 f in
        (p, s, inl (sym (eq_of_same_text (codes "none") (c_string cs) t), c)))
  | inr (t, f) ↦ elim (taken_of (same_literal (codes "bitshuffle_lz4") cs) _ _ f) [
    | inl (u, g) ↦
        (let (p, s, c) = compression_eq d h 1 g in
          (p, s, inr (inl (sym (eq_of_same_text (codes "bitshuffle_lz4") (c_string cs) u), c))))
    | inr (u, g) ↦
        (let (v, k) = passed_of (same_literal (codes "lz4") cs) _ _ (refused d h) g in
          let (p, s, c) = compression_eq d h 2 k in
          (p, s, inr (inr (sym (eq_of_same_text (codes "lz4") (c_string cs) v), c))))
  ]
]

IsCode-compr_of :
    (cs : Bytes) (d : MainHeader) (c : ℕ)
    → IsCode (c_string cs) c
    → compr_of cs d ≡ result (pos 0) (record d { compr = c })
unfolding compr_of same_text
IsCode-compr_of cs d c (inl (e, n)) = rw (e, n) refl
IsCode-compr_of cs d c (inr (inl (e, n))) = rw (e, n) refl
IsCode-compr_of cs d c (inr (inr (e, n))) = rw (e, n) refl

module _ {V : Type 0} (j : Rapidjson V) where
  open j use {parse_json, is_object, find_member, get_string, get_uint64, get_array}

  -- A document without a text `dh_compression` has the code 0.
  abbrev pub IsCompression : V → ℕ → Type 0
  IsCompression doc c =
      HasNoText j doc (codes "dh_compression") × (c ≡ 0)
      ⊎ ((s : Bytes) × HasText j doc (codes "dh_compression") s × IsCode s c)

  -- The text is a main header, and `h` is what it says.
  pub record IsMainHeader (text : Bytes) (h : MainHeader) : Type 0 where
    pub doc : V
    pub gt : V
    pub sec : ℕ
    pub ns : ℕ
    pub parsed : parse_json text ≡ some doc
    pub object : is_object doc ≡ true
    pub htype : HasText j doc (codes "htype") (codes "bsr_m-1.1")
    pub pulse : HasNumber j doc (codes "pulse_id") h.pulse
    pub time : find_member doc (codes "global_timestamp") ≡ some gt
    pub time_object : is_object gt ≡ true
    pub seconds : HasNumber j gt (codes "sec") sec
    pub nanoseconds : HasNumber j gt (codes "ns") ns
    pub timestamp : h.timestamp ≡ (sec * 1000000000 + ns) % u64_mod
    pub compression : IsCompression doc h.compr

  -- What the code below a point has left as it was there, and the compression.
  abbrev IsKept : V → MainHeader → MainHeader → Type 0
  IsKept doc d h = (h.pulse ≡ d.pulse) × (h.timestamp ≡ d.timestamp) × IsCompression doc h.compr

  main_compr-IsKept :
      (doc : V) (d h : MainHeader)
      → d.compr ≡ 0
      → main_compr j doc d ≡ result (pos 0) h
      → IsKept doc d h
  unfolding main_compr
  main_compr-IsKept doc d h z e = by_member (find_member doc (codes "dh_compression")) refl e
    where
      same :
          result (pos 0) d ≡ result (pos 0) h
          → HasNoText j doc (codes "dh_compression")
          → IsKept doc d h
      same q n =
          let r = sym (header_eq d h q) in
          (ap (λ x. x.pulse) r, ap (λ x. x.timestamp) r, inl (n, ap (λ x. x.compr) r ∙ z))

      by_text :
          (v : V) (t : Option Bytes)
          → find_member doc (codes "dh_compression") ≡ some v
          → get_string v ≡ t
          → (elim t as (λ y. Option MainParsed) [
            | none ↦ result (pos 0) d
            | some cs ↦ compr_of cs d
          ])
            ≡ result (pos 0) h
          → IsKept doc d h
      by_text v none m s q = same q (inr (v, m, s))
      by_text v (some cs) m s q =
          let (p, t, c) = compr_of-IsCode cs d h q in
          (p, t, inr (c_string cs, (v, cs, m, s, refl), c))

      by_member :
          (m : Option V)
          → find_member doc (codes "dh_compression") ≡ m
          → (elim m as (λ y. Option MainParsed) [
            | none ↦ result (pos 0) d
            | some v ↦ elim (get_string v) as (λ y. Option MainParsed) [
              | none ↦ result (pos 0) d
              | some cs ↦ compr_of cs d
            ]
          ])
            ≡ result (pos 0) h
          → IsKept doc d h
      by_member none m q = same q (inl m)
      by_member (some v) m q = by_text v (get_string v) m refl q

  main_time-IsKept :
      (doc gt : V) (d h : MainHeader)
      → d.compr ≡ 0
      → main_time j doc gt d ≡ result (pos 0) h
      → (sec : ℕ) × (ns : ℕ) × HasNumber j gt (codes "sec") sec
        × HasNumber j gt (codes "ns") ns
        × IsKept doc (record d { timestamp = (sec * 1000000000 + ns) % u64_mod }) h
  unfolding main_time
  main_time-IsKept doc gt d h z e =
      let wrong = refused d h in
      let (s, s_found, e1) = found_of (find_member gt (codes "sec")) _ _ (absent h) e in
      let (sec, s_number, e2) = found_of (get_uint64 s) _ _ wrong e1 in
      let (n, n_found, e3) = found_of (find_member gt (codes "ns")) _ _ (absent h) e2 in
      let (ns, n_number, e4) = found_of (get_uint64 n) _ _ wrong e3 in
      (
        sec,
        ns,
        (s, s_found, s_number),
        (n, n_found, n_number),
        main_compr-IsKept doc (record d { timestamp = (sec * 1000000000 + ns) % u64_mod }) h z e4,
      )

  parse-IsMainHeader :
      (text : Bytes) (h : MainHeader)
      → json_parse_main_header j text ≡ result (pos 0) h
      → IsMainHeader text h
  unfolding json_parse_main_header main_htype main_pulse
  parse-IsMainHeader text h e =
      let start : MainHeader = record { compr = 0; pulse = 0; timestamp = 0 } in
      let (doc, parsed, e1) = found_of (parse_json text) _ _ (refused start h) e in
      let (object, e2) = passed_of (is_object doc) _ _ (refused start h) e1 in
      let (t, t_found, e3) = found_of (find_member doc (codes "htype")) _ _ (refused start h) e2 in
      let (u, u_text, e4) = found_of (get_string t) _ _ (refused start h) e3 in
      let (same, e5) = passed_of (same_literal (codes "bsr_m-1.1") u) _ _ (refused start h) e4 in
      let (p, p_found, e6) =
        found_of (find_member doc (codes "pulse_id")) _ _ (refused start h) e5 in
      let (n, p_number, e7) = found_of (get_uint64 p) _ _ (refused start h) e6 in
      let pulsed : MainHeader = record { compr = 0; pulse = n; timestamp = 0 } in
      let (gt, g_found, e8) =
        found_of (find_member doc (codes "global_timestamp")) _ _ (refused pulsed h) e7 in
      let (g_object, e9) = passed_of (is_object gt) _ _ (refused pulsed h) e8 in
      let (sec, ns, has_sec, has_ns, (same_pulse, time, compression)) =
        main_time-IsKept doc gt pulsed h refl e9 in
      record {
        doc = doc;
        gt = gt;
        sec = sec;
        ns = ns;
        parsed = parsed;
        object = object;
        htype =
            (t, u, t_found, u_text, sym (eq_of_same_text (codes "bsr_m-1.1") (c_string u) same));
        pulse = (p, p_found, p_number ∙ ap some (sym same_pulse));
        time = g_found;
        time_object = g_object;
        seconds = has_sec;
        nanoseconds = has_ns;
        timestamp = time;
        compression = compression;
      }

  IsCompression-main_compr :
      (doc : V) (d : MainHeader) (c : ℕ)
      → d.compr ≡ 0
      → IsCompression doc c
      → main_compr j doc d ≡ result (pos 0) (record d { compr = c })
  unfolding main_compr
  IsCompression-main_compr doc d c z (inl (inl m, n)) =
      rw (main_compr, m) (ap (λ x. result (pos 0) (record d { compr = x })) (z ∙ sym n))
  IsCompression-main_compr doc d c z (inl (inr (v, m, s), n)) =
      rw (main_compr, m, s) (ap (λ x. result (pos 0) (record d { compr = x })) (z ∙ sym n))
  IsCompression-main_compr doc d c z (inr (s, (v, u, m, t, e), k)) =
      rw (main_compr, m, t) (IsCode-compr_of u d c (subst (λ x. IsCode x c) (sym e) k))

  IsMainHeader-parse :
      (text : Bytes) (h : MainHeader)
      → IsMainHeader text h
      → json_parse_main_header j text ≡ result (pos 0) h
  unfolding json_parse_main_header main_htype main_pulse main_time same_text
  IsMainHeader-parse text h i =
      let (t, u, t_found, u_text, u_same) = i.htype in
      let (p, p_found, p_number) = i.pulse in
      let (s, s_found, s_number) = i.seconds in
      let (n, n_found, n_number) = i.nanoseconds in
      rw
        (
          json_parse_main_header, i.parsed, i.object, main_htype, t_found, u_text, u_same,
          main_pulse, p_found, p_number, i.time, i.time_object, main_time, s_found, s_number,
          n_found, n_number,
        )
        (IsCompression-main_compr i.doc
            (record {
              compr = 0;
              pulse = h.pulse;
              timestamp = (i.sec * 1000000000 + i.ns) % u64_mod;
            })
            h.compr refl i.compression
          ∙ ap (λ x. result (pos 0) (record { compr = h.compr; pulse = h.pulse; timestamp = x }))
              (sym i.timestamp))

  -- Whatever the text: `json_parse_main_header` returns 0 with a header exactly if the text is a main
  -- header, with that pulse and that compression, and with the timestamp in nanoseconds, which wraps at 64
  -- bits.
  pub main_header-IsMainHeader :
      (text : Bytes) (h : MainHeader)
      → (json_parse_main_header j text ≡ result (pos 0) h) ↔ IsMainHeader text h
  main_header-IsMainHeader text h = (parse-IsMainHeader text h, IsMainHeader-parse text h)
