-- ===== src/JsonCommand.antt =====
-- src/bsr_json_commands.cpp: commands as JSON objects. rapidjson is a parameter: a text that parses
-- gives an object, of which the program asks the members.
pub mod Misread
use bsreadrepeater.Base.{
  Bytes, ℤ, ◌&&◌, ℕ, true, none, ◌∷◌, take, some, Option, Bool, ◌==◌, ◌*◌, false, if◌then◌else◌,
  pos, [],
}
use bsreadrepeater.Text.{codes}

-- A member of the object: what `HasMember`, `IsString` and `IsInt` distinguish.
pub data Member : Type 0 where
  absent : Member
  string : Bytes → Member
  int : ℤ → Member
  other : Member

abbrev pub Document : Type 0
Document = Bytes → Member

abbrev pub JsonParser : Type 0
JsonParser = Bytes → Option Document

-- `enum bsr_json_command_kind`.
pub data CommandKind : Type 0 where
  add_source remove_source add_output exit dummy_source_start : CommandKind

-- `struct bsr_json_command`: the kind and the members of the union, each where it is used. A text in a
-- field is at most as long as the field, SOURCE_ADDR_MAX.
pub record JsonCommand : Type 0 where
  pub kind : CommandKind
  pub source : Bytes
  pub output : Bytes
  pub msgmax : ℤ
  pub rcvhwm : ℤ
  pub rcvbuf : ℤ
  pub sndhwm : ℤ
  pub sndbuf : ℤ

abbrev pub source_addr_max : ℕ
source_addr_max = 128

abbrev pub default_msg_max : ℤ
default_msg_max = pos (1024 * 1024 * 20)

abbrev pub default_hwm : ℤ
default_hwm = pos 200

abbrev pub default_rcvbuf : ℤ
default_rcvbuf = pos (1024 * 1024 * 2)

abbrev pub default_sndbuf : ℤ
default_sndbuf = pos (1024 * 1024 * 2)

-- `struct bsr_json_command cmd = {0}`: the kind with the number 0 is ADD_SOURCE.
abbrev pub zero_command : JsonCommand
zero_command = record {
  kind = add_source;
  source = [];
  output = [];
  msgmax = pos 0;
  rcvhwm = pos 0;
  rcvbuf = pos 0;
  sndhwm = pos 0;
  sndbuf = pos 0;
}

-- An optional integer member.
unfoldable pub int_or : Member → ℤ → ℤ
int_or (int v) d = v
int_or _ d = d

unfoldable pub string_of : Member → Option Bytes
string_of (string s) = some s
string_of _ = none

abbrev pub field_text : Bytes → Bytes
field_text s = take source_addr_max s

unfoldable pub extract_add_source : Document → JsonCommand → Option JsonCommand
unfolding int_or string_of
extract_add_source doc cmd = elim (string_of (doc (codes "source"))) [
  | none ↦ none
  | some src ↦ some (record cmd {
    kind = add_source;
    source = field_text src;
    msgmax = int_or (doc (codes "msgmax")) default_msg_max;
    rcvhwm = int_or (doc (codes "rcvhwm")) default_hwm;
    rcvbuf = int_or (doc (codes "rcvbuf")) default_rcvbuf;
  })
]

unfoldable pub extract_add_output : Document → JsonCommand → Option JsonCommand
unfolding int_or string_of
extract_add_output doc cmd = elim (string_of (doc (codes "source"))) [
  | none ↦ none
  | some src ↦ elim (string_of (doc (codes "output"))) [
    | none ↦ none
    | some out ↦ some (record cmd {
      kind = add_output;
      source = field_text src;
      output = field_text out;
      sndhwm = int_or (doc (codes "sndhwm")) default_hwm;
      sndbuf = int_or (doc (codes "sndbuf")) default_sndbuf;
    })
  ]
]

unfoldable pub same_text : Bytes → Bytes → Bool
same_text [] [] = true
same_text (x ∷ a) (y ∷ b) = x == y && same_text a b
same_text _ _ = false

-- The ladder over the text of `kind`; `none` is -1.
unfoldable pub extract_kind : Bytes → Document → JsonCommand → Option JsonCommand
unfolding extract_add_source extract_add_output same_text
extract_kind kind doc cmd =
    if same_text (codes "add-source") kind
    then extract_add_source doc cmd
    else if same_text (codes "add-output") kind
    then extract_add_output doc cmd
    else if same_text (codes "remove-source") kind
    then some cmd
    else if same_text (codes "exit") kind
    then some cmd
    else if same_text (codes "dummy-source-start") kind
    then some (record cmd { kind = dummy_source_start })
    else none

unfoldable pub extract_command : Document → JsonCommand → Option JsonCommand
unfolding extract_kind
extract_command doc cmd = elim (doc (codes "kind")) [
  | absent ↦ none
  | string kind ↦ extract_kind kind doc cmd
  | int v ↦ some cmd
  | other ↦ some cmd
]

unfoldable pub parse_json_command : JsonParser → Bytes → JsonCommand → Option JsonCommand
unfolding extract_command
parse_json_command parse str cmd = elim (parse str) [
  | none ↦ none
  | some doc ↦ extract_command doc cmd
]
