-- ===== src/BsreadJson.antt =====
-- src/bsr_json.cpp: the two JSON headers of a bsread message. rapidjson is a parameter.
pub mod Channels
pub mod Accepted
pub mod Document
pub mod Written
use bsreadrepeater.Base.{
  Bytes, Bool, Option, if◌then◌else◌, ◌*◌, none, ◌%◌, u64_mod, ℕ, List, some, ℤ, pos, ◌+◌,
}
use bsreadrepeater.Headers.{MainHeader, MainParsed}
use bsreadrepeater.JsonCommand.{same_text}
use bsreadrepeater.Text.{c_string, codes}

-- What the program asks of rapidjson. `parse` gives `none` on a parse error; `get_string`, `get_uint64`
-- and `get_array` give `none` for a value of another type.
pub record Rapidjson (V : Type 0) : Type 0 where
  pub parse_json : Bytes → Option V
  pub is_object : V → Bool
  pub find_member : V → Bytes → Option V
  pub get_string : V → Option Bytes
  pub get_uint64 : V → Option ℕ
  pub get_array : V → Option (List V)

-- `strcmp` with a literal.
abbrev pub same_literal : Bytes → Bytes → Bool
same_literal lit s = same_text lit (c_string s)

abbrev pub result : ℤ → MainHeader → Option MainParsed
result code h = some (record { code = code; header = h })

unfoldable pub compr_of : Bytes → MainHeader → Option MainParsed
unfolding same_text c_string
compr_of cs h =
    if same_literal (codes "none") cs
    then result (pos 0) (record h { compr = 0 })
    else if same_literal (codes "bitshuffle_lz4") cs
    then result (pos 0) (record h { compr = 1 })
    else if same_literal (codes "lz4") cs
    then result (pos 0) (record h { compr = 2 })
    else result (pos 7) h

module _ {V : Type 0} (j : Rapidjson V) where
  open j use {parse_json, is_object, find_member, get_string, get_uint64, get_array}

  unfoldable pub main_compr : V → MainHeader → Option MainParsed
  unfolding compr_of
  main_compr doc h = elim (find_member doc (codes "dh_compression")) [
    | none ↦ result (pos 0) h
    | some v ↦ elim (get_string v) [ none ↦ result (pos 0) h | some cs ↦ compr_of cs h ]
  ]

  -- The members of `global_timestamp` are compared with the end of the members of the document: one that
  -- is missing is read behind the end, which is `none`.
  unfoldable pub main_time : V → V → MainHeader → Option MainParsed
  unfolding main_compr
  main_time doc gt h = elim (find_member gt (codes "sec")) [
    | none ↦ none
    | some s ↦ elim (get_uint64 s) [
      | none ↦ result (pos 6) h
      | some sec ↦ elim (find_member gt (codes "ns")) [
        | none ↦ none
        | some n ↦ elim (get_uint64 n) [
          | none ↦ result (pos 6) h
          | some ns ↦ main_compr doc (record h { timestamp = (sec * 1000000000 + ns) % u64_mod })
        ]
      ]
    ]
  ]

  unfoldable pub main_pulse : V → MainHeader → Option MainParsed
  unfolding main_time
  main_pulse doc h = elim (find_member doc (codes "pulse_id")) [
    | none ↦ result (pos 2) h
    | some p ↦ elim (get_uint64 p) [
      | none ↦ result (pos 5) h
      | some pulse ↦ elim (find_member doc (codes "global_timestamp")) [
        | none ↦ result (pos 2) (record h { pulse = pulse })
        | some gt ↦
            if is_object gt
            then main_time doc gt (record h { pulse = pulse })
            else result (pos 5) (record h { pulse = pulse })
      ]
    ]
  ]

  unfoldable pub main_htype : V → MainHeader → Option MainParsed
  unfolding main_pulse same_text c_string
  main_htype doc h = elim (find_member doc (codes "htype")) [
    | none ↦ result (pos 2) h
    | some t ↦ elim (get_string t) [
      | none ↦ result (pos 3) h
      | some s ↦ if same_literal (codes "bsr_m-1.1") s then main_pulse doc h else result (pos 4) h
    ]
  ]

  -- `json_parse_main_header`. What it returns and what it has written, if it does not read behind the end
  -- of the members.
  unfoldable pub json_parse_main_header : Bytes → Option MainParsed
  unfolding main_htype
  json_parse_main_header text =
      let zero_header : MainHeader = record { compr = 0; pulse = 0; timestamp = 0 } in
      elim (parse_json text) [
        | none ↦ result (pos 1) zero_header
        | some doc ↦
            if is_object doc then main_htype doc zero_header else result (pos 2) zero_header
      ]
