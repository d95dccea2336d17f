-- ===== src/JsonCommand/Misread.antt =====
-- JSON commands that the ladder over `kind` leaves as they were.
use bsreadrepeater.Base.{◌⊎◌, ℤ, inr, Option, ap, some, inl, none, ◌≡◌}
use bsreadrepeater.JsonCommand.{
  int, Member, Document, absent, extract_kind, other, string, extract_command, JsonCommand,
  same_text,
}
use bsreadrepeater.Text.{codes}

-- A `kind` that is there and is taken for the first kind of the enum.
abbrev pub IsMisread : Member → Type 0
IsMisread m =
    (m ≡ string (codes "exit"))
    ⊎ (m ≡ string (codes "remove-source"))
    ⊎ ((v : ℤ) × (m ≡ int v))
    ⊎ (m ≡ other)

abbrev by_member : Document → JsonCommand → Member → Option JsonCommand
by_member doc cmd m = elim m [
  | absent ↦ none
  | string kind ↦ extract_kind kind doc cmd
  | int v ↦ some cmd
  | other ↦ some cmd
]

pub extract_command-IsMisread :
    (doc : Document) (cmd : JsonCommand)
    → IsMisread (doc (codes "kind"))
    → extract_command doc cmd ≡ some cmd
unfolding extract_command extract_kind same_text
extract_command-IsMisread doc cmd k = elim k [
  | inl e ↦ ap (by_member doc cmd) e
  | inr (inl e) ↦ ap (by_member doc cmd) e
  | inr (inr (inl (v, e))) ↦ ap (by_member doc cmd) e
  | inr (inr (inr e)) ↦ ap (by_member doc cmd) e
]
