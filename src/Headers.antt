-- ===== src/Headers.antt =====
-- The interface to bsread headers: the structs of bsr_json.h and bsr_pod.h that the handlers keep,
-- and the parsers and decompressors that they call.
use bsreadrepeater.Base.{ℕ, Bytes, Option, ℤ, List}

-- `struct bsread_main_header`.
pub record MainHeader : Type 0 where
  pub compr : ℕ
  pub pulse : ℕ
  pub timestamp : ℕ

-- `struct channel_info` of src/bsr_json.cpp.
pub record ChannelInfo (F : Type 0) : Type 0 where
  pub ts_last_event : ℕ
  pub dhcount : ℕ
  pub ema : F
  pub emv : F
  pub bsread_last_pulse : ℕ
  pub bsread_last_timestamp : ℕ

-- `struct channel_map`: the channels by name.
abbrev pub ChannelMap : Type 0 → Type 0
ChannelMap F = List (Bytes × ChannelInfo F)

-- What a parser returns, with what it wrote through its pointers.
pub record MainParsed : Type 0 where
  pub code : ℤ
  pub header : MainHeader

pub record DataParsed (F : Type 0) : Type 0 where
  pub code : ℤ
  pub channel_count : ℕ
  pub channel_map : Option (ChannelMap F)

pub record HeaderParser (F : Type 0) : Type 0 where
  -- `json_parse_main_header`; `none` is an access outside of an object
  pub main : Bytes → Option MainParsed
  -- `json_parse_data_header`, at a time in microseconds, with the map, if any, and the main header
  pub channels : Bytes → ℕ → Option (ChannelMap F) → MainHeader → DataParsed F

-- The bytes that a decompressor writes; `none` is a negative result.
pub record Codecs : Type 0 where
  pub bshuf_decompress_lz4 : Bytes → Option Bytes
  pub lz4_decompress_safe : Bytes → ℕ → Option Bytes
