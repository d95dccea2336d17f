-- ===== src/Tests/Json.antt =====
-- The headers of a message, read by a parser that takes a text for an object all of whose members are
-- that text, but for `htype`.
use bsreadrepeater.Base.{
  Bytes, if◌then◌else◌, [], true, length, some, ltb, ◌∷◌, ok, refl, ◌≡◌, get_or, ℕ, negsuc, ◌↔◌,
  Bool, none, not, ◌==◌, pos,
}
use bsreadrepeater.BsreadJson.{json_parse_main_header, Rapidjson, compr_of, result}
use bsreadrepeater.BsreadJson.Accepted.{main_header-IsMainHeader, IsMainHeader}
use bsreadrepeater.BsreadJson.Channels.{
  json_parse_data_header, find_channel, note_all, channel_name, note_channels,
}
use bsreadrepeater.BsreadJson.Channels.Noted.{occurrences, Change, note_all-Change}
use bsreadrepeater.BsreadJson.Channels.Refused.{IsReadOrRefused, data_header-IsReadOrRefused}
use bsreadrepeater.BsreadJson.Written.{
  null, channel_map_str, log_channels, Browse, log_names, leaf, json_parse, stats_document,
}
use bsreadrepeater.Command.Dispatch.{reset_ages}
use bsreadrepeater.Command.Reply.{source_stats, decimal}
use bsreadrepeater.Headers.{MainHeader, ChannelMap}
use bsreadrepeater.JsonCommand.{same_text}
use bsreadrepeater.Tests.Command.{no_parser}
use bsreadrepeater.Tests.Setup.{demo_floats, demo_source, demo, demo_format}
use bsreadrepeater.Text.{codes, c_string}

abbrev demo_json : Rapidjson Bytes
demo_json = record {
  parse_json = λ text. some text;
  is_object = λ v. true;
  find_member = λ v name. if ltb (length name) 5 then some v else some (codes "bsr_d-1.1");
  get_string = λ v. some v;
  get_uint64 = λ v. some (length v);
  get_array = λ v. some (codes "c" ∷ codes "d" ∷ codes "c" ∷ []);
}

abbrev demo_mh : MainHeader
demo_mh = record { compr = 0; pulse = 7; timestamp = 9 }

-- Documents that say their names: a main header of a compressed message.
abbrev demo_main : Rapidjson Bytes
demo_main = record {
  parse_json = λ text. some text;
  is_object = λ v. true;
  find_member = λ v name. some name;
  get_string = λ v. some (if length v == 5 then codes "bsr_m-1.1" else codes "lz4");
  get_uint64 = λ v. some (length v);
  get_array = λ v. none;
}

abbrev demo_header : MainHeader
demo_header = record { compr = 2; pulse = 8; timestamp = 3000000002 }

reads_main : json_parse_main_header demo_main (codes "text") ≡ result (pos 0) demo_header
unfolding json_parse_main_header compr_of c_string same_text
reads_main = refl

main_header-IsMainHeader_example :
    (json_parse_main_header demo_main (codes "text") ≡ result (pos 0) demo_header)
    ↔ IsMainHeader demo_main (codes "text") demo_header
main_header-IsMainHeader_example = main_header-IsMainHeader demo_main (codes "text") demo_header

-- The channel `c` is in the header twice.
note_all-Change_example :
    Change demo_floats 100 demo_mh demo_json
      (codes "c")
      (occurrences demo_floats 100 demo_mh demo_json
        (codes "c")
        (codes "c" ∷ codes "d" ∷ codes "c" ∷ []))
      (find_channel (codes "c") [])
      (find_channel
        (codes "c")
        (note_all demo_floats 100 demo_mh demo_json
          (codes "c" ∷ codes "d" ∷ codes "c" ∷ [])
          (0, [])).1)
note_all-Change_example =
    note_all-Change demo_floats 100 demo_mh demo_json (codes "c")
      (codes "c" ∷ codes "d" ∷ codes "c" ∷ []) 0 []

-- There is no memory for the channel `d`.
abbrev no_d : ChannelMap ℕ → Bytes → Bool
no_d m name = not (same_text (codes "d") name)

ends_at_d :
    let p =
      json_parse_data_header demo_floats 100 demo_mh demo_json no_d (codes "text") (some []) in
    (p.code ≡ negsuc 0) × (p.channel_count ≡ 2)
unfolding json_parse_data_header note_channels channel_name c_string same_text
ends_at_d = (refl, refl)

data_header-IsReadOrRefused_example :
    IsReadOrRefused demo_floats 100 demo_mh demo_json no_d []
      (codes "text")
      (json_parse_data_header demo_floats 100 demo_mh demo_json no_d (codes "text") (some []))
data_header-IsReadOrRefused_example =
    data_header-IsReadOrRefused demo_floats 100 demo_mh demo_json no_d (codes "text") []

abbrev demo_browse : Browse Bytes
demo_browse = record {
  member = λ v name. some v;
  members = λ v. some ((codes "type", codes "int32") ∷ (codes "name", v) ∷ []);
}

-- The names of the channels go into the log in the order of the array.
logs_names :
    json_parse demo_json demo_browse (codes "text") (codes "> ")
    ≡ (ok, codes "> CHANNEL: c\nCHANNEL: d\nCHANNEL: c\n")
unfolding json_parse log_channels log_names c_string same_text
logs_names = refl

-- A maximum that has not been set yet is infinite, and is written as null.
writes_null :
    get_or
      (stats_document
        (λ x. ltb x demo_floats.infinity)
        (source_stats demo_floats true (reset_ages demo demo_format no_parser demo_source)))
      19
      (codes "", leaf null)
    ≡ (codes "msg_emit_age_min", leaf null)
unfolding stats_document source_stats
writes_null = refl

writes_channels :
    channel_map_str {F = ℕ}
      (λ x. codes "0")
      (λ x. x)
      ((
        codes "c",
        record {
          ts_last_event = 1;
          dhcount = 12;
          ema = 0;
          emv = 0;
          bsread_last_pulse = 7;
          bsread_last_timestamp = 9;
        },
      )
        ∷ [])
      []
    ≡ codes "name: c  dhcount: 12  dt ema: 0 / 0  pulse: 7  ts: 9\n"
unfolding channel_map_str c_string decimal
writes_channels = refl
