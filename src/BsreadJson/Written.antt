-- ===== src/BsreadJson/Written.antt =====
-- The rest of src/bsr_json.cpp: the texts that it writes, `json_parse`, which nothing calls, and
-- `now_us`.
use bsreadrepeater.Base.{
  Bytes, ok, ◌%◌, map, none, ◌/◌, [], take, ◌*◌, List, ◌+◌, ◌∷◌, u64_mod, ◌++◌, ℕ, some, Outcome,
  Option, fault, fail, if◌then◌else◌, Bool,
}
use bsreadrepeater.BsreadJson.{Rapidjson}
use bsreadrepeater.Command.Reply.{u64_text, SourceStats, OutputStats}
use bsreadrepeater.Headers.{ChannelMap}
use bsreadrepeater.JsonCommand.{same_text}
use bsreadrepeater.Split.{Timespec}
use bsreadrepeater.Text.{c_string, codes}

-- The values in the reply to `stats-source`: 64-bit numbers, finite floats, null, and an array of
-- objects that hold such values.
pub data Leaf (F : Type 0) : Type 0 where
  u64 : ℕ → Leaf F
  f32 : F → Leaf F
  null : Leaf F

pub data Value (F : Type 0) : Type 0 where
  leaf : Leaf F → Value F
  objects : List (List (Bytes × Leaf F)) → Value F

abbrev output_object : {F : Type 0} → OutputStats → List (Bytes × Leaf F)
output_object v =
    (codes "sent_count", u64 v.sent_count)
    ∷ (codes "sent_bytes", u64 v.sent_bytes)
    ∷ (codes "eagain", u64 v.eagain)
    ∷ (codes "eagain_multipart", u64 v.eagain_multipart)
    ∷ []

module _ {F : Type 0} (is_finite : F → Bool) where
  -- `MEMU64` and `MEMF32`: a float that is infinite or not a number is written as null.
  abbrev memu64 : Bytes → ℕ → Bytes × Value F
  memu64 name n = (name, leaf (u64 n))

  abbrev memf32 : Bytes → F → Bytes × Value F
  memf32 name x = (name, leaf (if is_finite x then f32 x else null))

  -- The document that `stats_source_to_json` builds.
  unfoldable pub stats_document : SourceStats F → List (Bytes × Value F)
  stats_document s =
      memu64 (codes "received") s.received
      ∷ memu64 (codes "mhparsed") s.mhparsed
      ∷ memu64 (codes "dhparsed") s.dhparsed
      ∷ memu64 (codes "json_parse_errors") s.json_parse_errors
      ∷ memu64 (codes "dhdecompr") s.dhdecompr
      ∷ memu64 (codes "sentok") s.sentok
      ∷ memu64 (codes "recv_bytes") s.recv_bytes
      ∷ memu64 (codes "sent_bytes") s.sent_bytes
      ∷ memu64 (codes "bsread_errors") s.bsread_errors
      ∷ memu64 (codes "input_reopened") s.input_reopened
      ∷ memu64 (codes "throttling_enable_count") s.throttling_enable_count
      ∷ memu64 (codes "timestamp_out_of_range_count") s.timestamp_out_of_range_count
      ∷ memu64 (codes "unexpected_frames_count") s.unexpected_frames_count
      ∷ memf32 (codes "mpmsglen_ema") s.mpmsglen_ema
      ∷ memf32 (codes "mpmsglen_emv") s.mpmsglen_emv
      ∷ memf32 (codes "msg_dt_ema") s.msg_dt_ema
      ∷ memf32 (codes "msg_dt_emv") s.msg_dt_emv
      ∷ memf32 (codes "msg_emit_age_ema") s.msg_emit_age_ema
      ∷ memf32 (codes "msg_emit_age_emv") s.msg_emit_age_emv
      ∷ memf32 (codes "msg_emit_age_min") s.msg_emit_age_min
      ∷ memf32 (codes "msg_emit_age_max") s.msg_emit_age_max
      ∷ (codes "outputs", objects (map output_object s.outputs))
      ∷ []

  -- With rapidjson's writer, whose text is appended.
  unfoldable pub stats_source_to_json :
      (List (Bytes × Value F) → Option Bytes) → SourceStats F → Bytes → Outcome × Bytes
  unfolding stats_document
  stats_source_to_json write s out = elim (write (stats_document s)) [
    | none ↦ (fail, out)
    | some text ↦ (ok, out ++ c_string text)
  ]

-- The line for a channel; `fixed` is `%.0f`. The map is walked in the order of the list.
unfoldable pub channel_map_str : {F : Type 0} → (F → Bytes) → (F → F) → ChannelMap F → Bytes → Bytes
channel_map_str fixed sqrt [] out = out
channel_map_str fixed sqrt ((name, v) ∷ rest) out = channel_map_str fixed sqrt rest (
    out
    ++ codes "name: "
    ++ c_string name
    ++ codes "  dhcount: "
    ++ u64_text v.dhcount
    ++ codes "  dt ema: "
    ++ fixed v.ema
    ++ codes " / "
    ++ fixed (sqrt v.emv)
    ++ codes "  pulse: "
    ++ u64_text v.bsread_last_pulse
    ++ codes "  ts: "
    ++ u64_text v.bsread_last_timestamp
    ++ codes "\n")

-- `now_us`, of a reading of the monotonic clock.
unfoldable pub now_us : Timespec → ℕ
now_us t = (t.sec * 1000000 + t.nsec / 1000) % u64_mod

-- What `json_parse` asks of rapidjson besides: the member of a document, which the library asserts to
-- be there, and the members of an object, `none` for a value of another type.
pub record Browse (V : Type 0) : Type 0 where
  pub member : V → Bytes → Option V
  pub members : V → Option (List (Bytes × V))

module _ {V : Type 0} (j : Rapidjson V) (b : Browse V) where
  -- `snprintf` into 128 bytes.
  abbrev channel_line : Bytes → Bytes
  channel_line name = take 127 (codes "CHANNEL: " ++ c_string name ++ codes "\n")

  unfoldable pub log_names : List (Bytes × V) → Bytes → Bytes
  log_names [] log = log
  log_names ((name, v) ∷ rest) log = log_names rest (
      if same_text (codes "name") name
      then elim (j.get_string v) [ none ↦ log | some s ↦ log ++ channel_line s ]
      else log)

  unfoldable pub log_channels : List V → Bytes → Bytes
  unfolding log_names
  log_channels [] log = log
  log_channels (v ∷ rest) log =
      log_channels rest (elim (b.members v) [ none ↦ log | some ms ↦ log_names ms log ])

  unfoldable pub json_parse : Bytes → Bytes → Outcome × Bytes
  unfolding log_channels
  json_parse text log = elim (j.parse_json text) [
    | none ↦ (fail, log)
    | some doc ↦ elim (b.member doc (codes "channels")) [
      | none ↦ (fault, log)
      | some v ↦ elim (j.get_array v) [ none ↦ (ok, log) | some a ↦ (ok, log_channels a log) ]
    ]
  ]
