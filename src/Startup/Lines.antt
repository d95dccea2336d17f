-- ===== src/Startup/Lines.antt =====
-- What the startup file means: its lines, but for empty ones and comments.
use bsreadrepeater.Base.{
  ◌∙◌, ℕ, ◌==◌, append-nil, ap, Bool, ◌∷◌, ok, [], Outcome, Bytes, append_assoc, ◌++◌,
  if◌then◌else◌, false, List, ◌≡◌, Bool-cases, inl, inr, arith, ==_refl, ◌+◌, length, ◌≤◌,
  length-append,
}
use bsreadrepeater.BsreadJson.Channels.{seen}
use bsreadrepeater.Startup.{send_lines, is_command, after_line}
use bsreadrepeater.Text.{c_string}
use bsreadrepeater.Zmq.{Sock, Env, Log, sent_on, send_checked}

-- The commands in the whole lines of a text, of which `line` has been read.
unfoldable pub commands_from : Bytes → Bytes → List Bytes
commands_from line [] = []
commands_from line (c ∷ rest) =
    let new = commands_from [] rest in
    let same = commands_from (line ++ c ∷ []) rest in
    if c == b'\n' then (if is_command (c_string line) then c_string line ∷ new else new) else same

abbrev pub line_commands : Bytes → List Bytes
line_commands = commands_from []

module _ (env : Env) where
  -- What the loop over the buffer sends are the first commands of the buffer, and the rest is left,
  -- whatever `future` the file still has.
  abbrev pub LinesSent : Sock → Bytes → Bytes → Log → Outcome × Bool × Bytes × Log → Type 0
  LinesSent sock line text log r =
      r.0 ≡ ok
      → (future : Bytes)
      → sent_on sock r.3 ++ line_commands (r.2 ++ future)
        ≡ sent_on sock log ++ commands_from line (text ++ future)

  -- An open line without a newline is read again from its start.
  abbrev pub NoNewline : Bytes → Type 0
  NoNewline [] = Unit {0}
  NoNewline (c ∷ line) = ((c == b'\n') ≡ false) × NoNewline line

  reread :
      (seen line rest : Bytes)
      → NoNewline line
      → commands_from seen (line ++ rest) ≡ commands_from (seen ++ line) rest
  unfolding commands_from
  reread seen [] rest h = rw append-nil
  reread seen (c ∷ line) rest h = rw h.0 (reread (seen ++ c ∷ []) line rest h.1 ∙ rw append_assoc)

  NoNewline-append :
      (line : Bytes) (c : ℕ) → NoNewline line → (c == b'\n') ≡ false → NoNewline (line ++ c ∷ [])
  NoNewline-append [] c h e = (e, tt)
  NoNewline-append (x ∷ line) c h e = (h.0, NoNewline-append line c h.1 e)

  after_line-sends :
      (sock : Sock) (line rest : Bytes) (log : Log)
      → (after_line line rest (send_checked env sock (c_string line) log)).0 ≡ ok
      → let r = after_line line rest (send_checked env sock (c_string line) log) in
        (r.2 ≡ rest) × (sent_on sock r.3 ≡ sent_on sock log ++ c_string line ∷ [])
  unfolding send_checked sent_on
  after_line-sends sock line rest log h = ground (arith, ==_refl sock)

  pub send_lines-LinesSent :
      (sock : Sock) (line text : Bytes) (log : Log)
      → NoNewline line
      → LinesSent sock line text log (send_lines env sock line text log)
  unfolding send_lines commands_from
  send_lines-LinesSent sock line [] log h =
      λ o future. ap (λ t. sent_on sock log ++ t) (reread [] line future h)
  send_lines-LinesSent sock line (c ∷ rest) log h = elim (Bool-cases (c == b'\n')) [
    | inl e ↦ elim (Bool-cases (is_command (c_string line))) [
      | inl command ↦
          rw (e, command)
            λ o future.
              (let s = after_line-sends sock line rest log o in
                rw (s.0, s.1)
                  (append_assoc _ (c_string line ∷ []) (line_commands (rest ++ future))))
      | inr blank ↦ rw (e, blank) (send_lines-LinesSent sock [] rest log tt)
    ]
    | inr e ↦
        rw e (send_lines-LinesSent sock (line ++ c ∷ []) rest log (NoNewline-append line c h e))
  ]

  -- The buffer does not grow.
  pub length-send_lines-le :
      (sock : Sock) (line text : Bytes) (log : Log)
      → length (send_lines env sock line text log).2 ≤ length line + length text
  unfolding send_lines
  length-send_lines-le sock line [] log = omega arith
  length-send_lines-le sock line (c ∷ rest) log = ground (
    arith,
    length-send_lines-le sock [] rest log,
    length-send_lines-le sock (line ++ c ∷ []) rest log,
    length-append line (c ∷ []),
    length-append line (0 ∷ rest),
  )
