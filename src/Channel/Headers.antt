-- ===== src/Channel/Headers.antt =====
-- `bsr_chnhandler_parse_header_m` and `bsr_chnhandler_parse_header_d`.
use bsreadrepeater.Base.{
  Bytes, ◌∷◌, Action, true, false, Option, zero, fault, none, length, some, u64_mod, add64, drop,
  take, ◌==◌, pos, ◌+◌, ◌>>◌, ltb, ℤ, ◌%◌, ℕ, if◌then◌else◌, ◌++◌, [], ok, ◌*◌, Bool, suc, u32_mod,
  Outcome,
}
use bsreadrepeater.Channel.{Ctx, Chnhandler, Outside}
use bsreadrepeater.Headers.{MainParsed}
use bsreadrepeater.Hex.{to_hex}
use bsreadrepeater.Split.{Timespec, micros}

-- `DECOMP_BUF_MAX`.
abbrev pub decomp_buf_max : ℕ
decomp_buf_max = 131072

abbrev pub hex_bytes : ℕ
hex_bytes = 16

-- The bytes of an unsigned number, the highest first; `none` if some of them are missing.
unfoldable pub read_be : ℕ → ℕ → Bytes → Option ℕ
read_be zero acc bs = some acc
read_be (suc n) acc [] = none
read_be (suc n) acc (b ∷ bs) = read_be n (acc * 256 + b) bs

abbrev pub is_zero : ℤ → Bool
is_zero (pos zero) = true
is_zero _ = false

-- The handler together with `jsstr` and `jslen`: the text that is going to be parsed.
pub record Decoding (F : Type 0) : Type 0 where
  pub self : Chnhandler F
  pub text : Bytes

module _ {F : Type 0} (w : Outside F) where
  open w use {parser, codecs}

  -- A text that does not parse is counted, and the first 29 are printed with `hex_bytes` bytes in hex.
  unfoldable pub count_parse_error : Bytes → Action (Ctx F)
  unfolding to_hex
  count_parse_error frame c =
      let errors = add64 c.self.json_parse_errors 1 in
      let c' = record c { self = record c.self { json_parse_errors = errors } } in
      if ltb errors 30
      then elim (to_hex frame hex_bytes) [ none ↦ (fault, c') | some text ↦ (ok, c') ]
      else (ok, c')

  -- What the parser has given goes into the handler.
  abbrev main_parsed : Bytes → MainParsed → Action (Ctx F)
  main_parsed frame p c =
      let c' = record c { self = record c.self { main_header = some p.header } } in
      if is_zero p.code
      then (
        ok,
        record c' {
          self = record c'.self {
            mhparsed = add64 c.self.mhparsed 1;
            dh_compr = p.header.compr;
            ts_main_header_last = p.header.timestamp;
          };
        },
      )
      else count_parse_error frame c'

  unfoldable pub bsr_chnhandler_parse_header_m : Bytes → Action (Ctx F)
  unfolding count_parse_error
  bsr_chnhandler_parse_header_m frame c = elim c.self.main_header [
    | none ↦ (fault, c)
    | some old ↦ elim (parser.main frame) [ none ↦ (fault, c) | some p ↦ main_parsed frame p c ]
  ]

  -- A decompressor has failed: the first ten times it is printed.
  abbrev unsupported : Decoding F → Decoding F
  unsupported d =
      if ltb d.self.printed_compr_unsup 10
      then record d {
        self = record d.self { printed_compr_unsup = d.self.printed_compr_unsup + 1 };
      }
      else d

  -- The bytes `out` at the start of `self->buf`, of which the parser is then given `len`, an `int`.
  unfoldable pub decoded : Bytes → ℕ → Action (Decoding F)
  decoded out len d = elim d.self.buf [
    | none ↦ (fault, d)
    | some buf ↦
        if ltb decomp_buf_max (length out)
        then (fault, d)
        else if ltb decomp_buf_max (len % u32_mod)
        then (fault, d)
        else (let now = out ++ drop (length out) buf in
            (
              ok,
              record {
                self = record d.self { buf = some now; dhdecompr = add64 d.self.dhdecompr 1 };
                text = take (len % u32_mod) now;
              },
            ))
  ]

  unfoldable pub decode_bslz4 : Bytes → Action (Decoding F)
  unfolding decoded read_be
  decode_bslz4 frame d =
      let d' = record d {
        self = record d.self { data_header_bslz4_count = add64 d.self.data_header_bslz4_count 1 };
      } in
      if d.self.dh_compr == 1
      then elim (read_be 8 0 frame) [
        | none ↦ (fault, d')
        | some aa ↦ elim (read_be 4 0 (drop 8 frame)) [
          | none ↦ (fault, d')
          | some bb ↦ elim (codecs.bshuf_decompress_lz4 (drop 12 frame)) [
            | none ↦ (ok, unsupported d')
            | some out ↦ decoded out aa d'
          ]
        ]
      ]
      else (ok, d)

  unfoldable pub decode_lz4 : Bytes → Action (Decoding F)
  unfolding decoded read_be
  decode_lz4 frame d =
      let d' = record d {
        self = record d.self { data_header_lz4_count = add64 d.self.data_header_lz4_count 1 };
      } in
      if d.self.dh_compr == 2
      then elim (read_be 4 0 frame) [
        | none ↦ (fault, d')
        | some b ↦ elim (codecs.lz4_decompress_safe (drop 4 frame) decomp_buf_max) [
          | none ↦ (ok, unsupported d')
          | some out ↦ decoded out b d'
        ]
      ]
      else (ok, d)

  -- The part of `_parse_header_d` behind the decompression.
  unfoldable pub parse_channels : Bytes → Bytes → Timespec → Action (Ctx F)
  unfolding count_parse_error
  parse_channels frame text tspoll c = elim c.self.main_header [
    | none ↦ (fault, c)
    | some h ↦
        (let parsed = parser.channels text (micros tspoll % u64_mod) c.self.chnmap h in
          let c' = record c {
            self = record c.self {
              last_remember_channels = tspoll;
              chnmap = parsed.channel_map;
              channel_count = parsed.channel_count;
            };
          } in
          if is_zero parsed.code
          then (ok, record c' { self = record c'.self { dhparsed = add64 c.self.dhparsed 1 } })
          else count_parse_error frame c')
  ]

  abbrev with_decoded : Bytes → Timespec → Ctx F → Outcome × Decoding F → Outcome × Ctx F
  with_decoded frame tspoll c (ok, d) =
      parse_channels frame d.text tspoll (record c { self = d.self })
  with_decoded frame tspoll c (o, d) = (o, record c { self = d.self })

  unfoldable pub bsr_chnhandler_parse_header_d : Bytes → Timespec → Action (Ctx F)
  unfolding decode_bslz4 decode_lz4 parse_channels
  bsr_chnhandler_parse_header_d frame tspoll c =
      with_decoded frame tspoll c
        ((decode_bslz4 frame >> decode_lz4 frame) (record { self = c.self; text = frame }))
