-- ===== src/Rep.antt =====
-- src/bsr_rep.c: the main loop. This file has its state; the loop, its set-up and the idle check are
-- in the modules below.
pub mod Queue
pub mod Idle
pub mod Due
pub mod Loop
pub mod Setup
pub mod Invariant
pub mod Sound
pub mod Accounted
pub mod Opened
pub mod Closed
pub mod Frame
pub mod Ends
pub mod Exit
pub mod Later
pub mod Requeue
pub mod Checked
pub mod Steps
pub mod Started
pub mod Thread
use bsreadrepeater.Base.{
  not, Bytes, some, ℕ, none, length, if◌then◌else◌, Outcome, Bool, Option, ok, fail, leb, Action,
  true, false,
}
use bsreadrepeater.Channel.{Statistics}
use bsreadrepeater.Command.{on_app, Session}
use bsreadrepeater.Handlers.{App}
use bsreadrepeater.Split.{Timespec}
use bsreadrepeater.Text.{copied}

-- `struct bsrep`, without its statistics, which stand in `Session.app`, and without the thread's
-- numbers. `none` is NULL.
pub record Bsrep : Type 0 where
  pub cmd_addr : Option Bytes
  pub startup_file : Option Bytes
  pub stop : Bool
  pub do_polls_min : ℕ
  pub do_polls_max : ℕ
  pub polls_count : ℕ
  pub ts_inactive_check_last : Timespec
  pub inactive_check_next_ix : ℕ

-- The loop's state: `struct bsrep`, the command channel with what the handlers share, and the global
-- `ptype` of the dummy sources.
pub record Repeater (F : Type 0) : Type 0 where
  pub bsrep : Bsrep
  pub session : Session F
  pub ptype : ℕ

abbrev pub maxstr : ℕ
maxstr = 128

-- What a `malloc` of 128 bytes gives: the memory from its last byte on, or nothing.
abbrev pub Allocation : Type 0
Allocation = Option Bytes

abbrev has_memory : Allocation → Bool
has_memory none = false
has_memory (some behind) = true

-- The text in the memory after `strncpy` of 127 bytes: one of 127 bytes gets no NUL.
abbrev pub stored : Allocation → Bytes → Bytes
stored none text = text
stored (some behind) text = copied 127 behind text

-- `bsrep_init` on a zeroed struct, with the answers of its two `malloc` calls. It returns 1 for a text
-- that is too long, which is an error like -1 to its caller.
unfoldable pub bsrep_init :
    Timespec → Bytes → Option Bytes → Allocation → Allocation → Bsrep → Outcome × Bsrep
unfolding copied
bsrep_init now cmd_addr startup_file first second self =
    let timed = record self { inactive_check_next_ix = 0; ts_inactive_check_last = now } in
    let addressed = record timed { cmd_addr = some (stored first cmd_addr) } in
    if leb maxstr (length cmd_addr)
    then (fail, timed)
    else if not (has_memory first)
    then (fail, record timed { cmd_addr = none })
    else elim startup_file [
      | none ↦ (ok, addressed)
      | some file ↦
          if leb maxstr (length file)
          then (fail, addressed)
          else if not (has_memory second)
          then (fail, record addressed { startup_file = none })
          else (ok, record addressed { startup_file = some (stored second file) })
    ]

module _ {F : Type 0} where
  abbrev pub on_session : Action (Session F) → Action (Repeater F)
  on_session m r = let (o, s) = m r.session in (o, record r { session = s })

  abbrev pub on_repeater_app : Action (App F) → Action (Repeater F)
  on_repeater_app m = on_session (on_app m)

  abbrev pub update_rep : (Bsrep → Bsrep) → Action (Repeater F)
  update_rep f r = (ok, record r { bsrep = f r.bsrep })

  abbrev pub on_statistics : (Statistics F → Statistics F) → Action (Repeater F)
  on_statistics f = on_repeater_app (λ a. (ok, record a { stats = f a.stats }))
