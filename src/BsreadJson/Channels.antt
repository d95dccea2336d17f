-- ===== src/BsreadJson/Channels.antt =====
-- The channels of a data header, `json_parse_data_header`.
pub mod Noted
pub mod Refused
use bsreadrepeater.Base.{
  Bytes, Option, if◌then◌else◌, [], none, ◌∷◌, some, ◌-◌, pos, ℕ, u64_mod, add64, List, ◌%◌, ℤ, ◌+◌,
  add32, Bool, negsuc,
}
use bsreadrepeater.BsreadJson.{Rapidjson, json_parse_main_header}
use bsreadrepeater.Ema.{FloatOps}
use bsreadrepeater.Headers.{ChannelMap, ChannelInfo, MainHeader, DataParsed, HeaderParser}
use bsreadrepeater.JsonCommand.{same_text}
use bsreadrepeater.Text.{codes, c_string}

-- `unordered_map::find` and the assignment to an entry.
unfoldable pub find_channel : {F : Type 0} → Bytes → ChannelMap F → Option (ChannelInfo F)
unfolding same_text
find_channel name [] = none
find_channel name ((k, v) ∷ m) =
    let rest = find_channel name m in if same_text name k then some v else rest

unfoldable pub set_channel : {F : Type 0} → Bytes → ChannelInfo F → ChannelMap F → ChannelMap F
unfolding same_text
set_channel name info [] = (name, info) ∷ []
set_channel name info ((k, v) ∷ m) =
    let rest = set_channel name info m in if same_text name k then (k, info) ∷ m else (k, v) ∷ rest

module _ {F : Type 0} (fl : FloatOps F) (now : ℕ) (mh : MainHeader) where
  -- `emaemv::update`, with its constant of 0.05.
  unfoldable pub emaemv_update : F → ChannelInfo F → ChannelInfo F
  emaemv_update x e =
      let k = fl.literal 5 2 in
      let d = fl.sub x e.ema in
      record e {
        ema = fl.add e.ema (fl.mul k d);
        emv = fl.mul (fl.sub (fl.of_ℤ (pos 1)) k) (fl.add e.emv (fl.mul (fl.mul k d) d));
      }

  -- A channel that the map has; the difference of the times wraps.
  unfoldable pub seen_again : ChannelInfo F → ChannelInfo F
  unfolding emaemv_update
  seen_again e =
      let dt = (now + u64_mod - e.ts_last_event % u64_mod) % u64_mod in
      record (emaemv_update (fl.of_ℤ (pos dt)) e) {
        ts_last_event = now;
        dhcount = add64 e.dhcount 1;
        bsread_last_timestamp = mh.timestamp;
        bsread_last_pulse = mh.pulse;
      }

  unfoldable pub seen_first : ChannelInfo F
  seen_first = record {
    ts_last_event = now;
    dhcount = 1;
    ema = fl.of_ℤ (pos 0);
    emv = fl.of_ℤ (pos 0);
    bsread_last_timestamp = mh.timestamp;
    bsread_last_pulse = mh.pulse;
  }

  -- The entry of a channel after it has been met.
  unfoldable pub seen : Option (ChannelInfo F) → ChannelInfo F
  unfolding seen_again seen_first
  seen none = seen_first
  seen (some e) = seen_again e

  unfoldable pub note_channel : Bytes → ChannelMap F → ChannelMap F
  unfolding seen find_channel set_channel
  note_channel name m = set_channel name (seen (find_channel name m)) m

  module _ {V : Type 0} (j : Rapidjson V) where
    open j use {parse_json, is_object, find_member, get_string, get_array}

    -- The name of a channel, if the element is an object with a name that is a text.
    unfoldable pub channel_name : V → Option Bytes
    unfolding c_string
    channel_name v =
        if is_object v
        then elim (find_member v (codes "name")) [
          | none ↦ none
          | some x ↦ elim (get_string x) [ none ↦ none | some s ↦ some (c_string s) ]
        ]
        else none

    -- The loop over the elements, as it goes if no allocation fails: the count and the map.
    unfoldable pub note_all : List V → ℕ × ChannelMap F → ℕ × ChannelMap F
    unfolding channel_name note_channel
    note_all [] r = r
    note_all (v ∷ vs) (n, m) = elim (channel_name v) [
      | none ↦ note_all vs (n, m)
      | some name ↦ note_all vs (add32 n 1, note_channel name m)
    ]

    abbrev pub data_result : ℤ → Option (ChannelMap F) → DataParsed F
    data_result code chnmap = record { code = code; channel_count = 0; channel_map = chnmap }

    -- `has_room` says whether the memory for a name and its entry in the map can be had; a name is counted
    -- first, and without memory an exception leaves the loop.
    module _ (has_room : ChannelMap F → Bytes → Bool) where
      unfoldable pub note_channels : List V → ℕ × ChannelMap F → DataParsed F
      unfolding channel_name note_channel
      note_channels [] (n, m) = record { code = pos 0; channel_count = n; channel_map = some m }
      note_channels (v ∷ vs) (n, m) = elim (channel_name v) [
        | none ↦ note_channels vs (n, m)
        | some name ↦
            (let rest = note_channels vs (add32 n 1, note_channel name m) in
              if has_room m name
              then rest
              else record { code = negsuc 0; channel_count = add32 n 1; channel_map = some m })
      ]

      unfoldable pub data_channels : V → Option (ChannelMap F) → DataParsed F
      unfolding note_channels
      data_channels doc chnmap = elim (find_member doc (codes "channels")) [
        | none ↦ data_result (pos 3) chnmap
        | some v ↦ elim (get_array v) [
          | none ↦ data_result (pos 3) chnmap
          | some a ↦ elim chnmap [
            | none ↦ data_result (pos 0) none
            | some m ↦ note_channels a (0, m)
          ]
        ]
      ]

      unfoldable pub data_htype : V → Option (ChannelMap F) → DataParsed F
      unfolding data_channels same_text c_string
      data_htype doc chnmap = elim (find_member doc (codes "htype")) [
        | none ↦ data_result (pos 2) chnmap
        | some t ↦ elim (get_string t) [
          | none ↦ data_result (pos 2) chnmap
          | some s ↦
              if same_text (codes "bsr_d-1.1") (c_string s)
              then data_channels doc chnmap
              else data_result (pos 2) chnmap
        ]
      ]

      unfoldable pub json_parse_data_header : Bytes → Option (ChannelMap F) → DataParsed F
      unfolding data_htype
      json_parse_data_header text chnmap = elim (parse_json text) [
        | none ↦ data_result (pos 1) chnmap
        | some doc ↦ if is_object doc then data_htype doc chnmap else data_result (pos 1) chnmap
      ]

-- The two parsers as the handlers call them.
unfoldable pub header_parser :
    {F V : Type 0} → FloatOps F → Rapidjson V → (ChannelMap F → Bytes → Bool) → HeaderParser F
unfolding json_parse_main_header json_parse_data_header
header_parser fl j has_room = record {
  main = λ text. json_parse_main_header j text;
  channels = λ text now m mh. json_parse_data_header fl now mh j has_room text m;
}
