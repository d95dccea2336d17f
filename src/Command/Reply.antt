-- ===== src/Command/Reply.antt =====
-- The texts that the command socket answers with.
use bsreadrepeater.Base.{
  if◌then◌else◌, zero, ◌+◌, ℕ, Bytes, ◌∷◌, pos, suc, map, ◌++◌, ltb, ◌%◌, ◌/◌, Bool, [], List,
}
use bsreadrepeater.Channel.{Chnhandler, Sockout, Statistics}
use bsreadrepeater.Ema.{FloatOps}
use bsreadrepeater.Handlers.{Entry, source}
use bsreadrepeater.Text.{codes}

-- `PRIu64`: at most twenty digits.
unfoldable pub decimal : ℕ → ℕ → Bytes → Bytes
decimal zero n acc = acc
decimal (suc fuel) n acc =
    let next = decimal fuel (n / 10) ((b'0' + n % 10) ∷ acc) in
    if ltb n 10 then (b'0' + n) ∷ acc else next

abbrev pub u64_text : ℕ → Bytes
u64_text n = decimal 20 n []

-- `struct stats_source_out_pub`, without the address, which is not written out.
pub record OutputStats : Type 0 where
  pub sent_count : ℕ
  pub sent_bytes : ℕ
  pub eagain : ℕ
  pub eagain_multipart : ℕ

-- `struct stats_source_pub`.
pub record SourceStats (F : Type 0) : Type 0 where
  pub received : ℕ
  pub mhparsed : ℕ
  pub dhparsed : ℕ
  pub json_parse_errors : ℕ
  pub dhdecompr : ℕ
  pub data_header_lz4_count : ℕ
  pub data_header_bslz4_count : ℕ
  pub sentok : ℕ
  pub recv_bytes : ℕ
  pub sent_bytes : ℕ
  pub bsread_errors : ℕ
  pub input_reopened : ℕ
  pub throttling_enable_count : ℕ
  pub timestamp_out_of_range_count : ℕ
  pub unexpected_frames_count : ℕ
  pub mpmsglen_ema : F
  pub mpmsglen_emv : F
  pub msg_dt_ema : F
  pub msg_dt_emv : F
  pub msg_emit_age_ema : F
  pub msg_emit_age_emv : F
  pub msg_emit_age_min : F
  pub msg_emit_age_max : F
  pub outputs : List OutputStats

abbrev output_stats : Sockout → OutputStats
output_stats so = record {
  sent_count = so.sent_count;
  sent_bytes = so.sent_bytes;
  eagain = so.eagain;
  eagain_multipart = so.eagain_multipart;
}

module _ {F : Type 0} where
  -- The struct as the `stats-source` branch fills it, from all zero; the list of outputs stays empty if
  -- its `malloc` fails.
  unfoldable pub source_stats : FloatOps F → Bool → Chnhandler F → SourceStats F
  source_stats fl allocated m =
      let zero_f = fl.of_ℤ (pos 0) in
      record {
        received = m.received;
        mhparsed = m.mhparsed;
        dhparsed = m.dhparsed;
        json_parse_errors = m.json_parse_errors;
        dhdecompr = m.dhdecompr;
        data_header_lz4_count = m.data_header_lz4_count;
        data_header_bslz4_count = m.data_header_bslz4_count;
        sentok = m.sentok;
        recv_bytes = m.recv_bytes;
        sent_bytes = m.sent_bytes;
        bsread_errors = m.bsread_errors;
        input_reopened = 0;
        throttling_enable_count = 0;
        timestamp_out_of_range_count = 0;
        unexpected_frames_count = 0;
        mpmsglen_ema = zero_f;
        mpmsglen_emv = zero_f;
        msg_dt_ema = m.msg_dt_ema.ema;
        msg_dt_emv = m.msg_dt_ema.emv;
        msg_emit_age_ema = m.msg_emit_age.ema;
        msg_emit_age_emv = m.msg_emit_age.emv;
        msg_emit_age_min = m.msg_emit_age.least;
        msg_emit_age_max = m.msg_emit_age.most;
        outputs = if allocated then map output_stats m.socks_out else [];
      }

-- What the C library prints of values that this model does not compute with.
pub record Format (F : Type 0) : Type 0 where
  -- `%7.0f`
  pub fixed : F → Bytes
  pub sqrt : F → F
  -- `gmtime_r` and `strftime` with `%Y-%m-%dT%H:%M:%SZ`
  pub utc : ℕ → Bytes
  -- `stats_source_to_json`
  pub source_json : SourceStats F → Bytes

abbrev line : Bytes → ℕ → Bytes
line label n = label ++ u64_text n ++ b'\n' ∷ []

-- The part of the reply to `list-sources` for the outputs of a source.
unfoldable pub outputs_text : List Sockout → Bytes
outputs_text [] = []
outputs_text (so ∷ outs) = codes " Out: " ++ so.addr ++ codes "\n" ++ outputs_text outs

module _ {F : Type 0} where
  -- The reply to `stats`.
  unfoldable pub stats_text : Format F → Statistics F → Bytes
  unfolding decimal
  stats_text fmt s =
      line (codes "received ") s.received
      ++ line (codes "sent ") s.sentok
      ++ line (codes "recv bytes ") s.recv_bytes
      ++ line (codes "sent bytes ") s.sent_bytes
      ++ line (codes "small buf ") s.recv_buf_too_small
      ++ line (codes "busy ") s.eagain
      ++ line (codes "busy mp ") s.eagain_multipart
      ++ codes "poll avg "
      ++ fmt.fixed s.poll_wait_ema
      ++ codes " var "
      ++ fmt.fixed (fmt.sqrt s.poll_wait_emv)
      ++ codes "\n"
      ++ codes "process avg "
      ++ fmt.fixed s.process_ema
      ++ codes " var "
      ++ fmt.fixed (fmt.sqrt s.process_emv)
      ++ codes "\n"
      ++ codes "idle check last "
      ++ fmt.utc s.datetime_idle_check_last.sec
      ++ codes "\n"
      ++ line (codes "input reopened ") s.input_reopened

  -- The reply to `list-sources`.
  unfoldable pub sources_text : List (Entry F) → Bytes
  unfolding outputs_text
  sources_text [] = []
  sources_text (e ∷ es) =
      elim e.handler [ source m ↦ m.addr_inp ++ codes "\n" ++ outputs_text m.socks_out | _ ↦ [] ]
      ++ sources_text es
