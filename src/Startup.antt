-- ===== src/Startup.antt =====
-- src/bsr_startupcmd.c: the commands of the startup file, sent one by one to the command socket.
pub mod Lines
pub mod Order
pub mod Owned
pub mod Bounds
use bsreadrepeater.Base.{
  ℕ, not, ◌==◌, fail, negsuc, pos, ℤ, ltb, ◌>>◌, Bool, ◌∷◌, ok, [], some, Outcome, Bytes, ◌++◌,
  true, if◌then◌else◌, false, none, Option, take, Action, length, ◌-◌,
}
use bsreadrepeater.Channel.Open.{fresh}
use bsreadrepeater.Text.{c_string, copy_addr}
use bsreadrepeater.Zmq.{
  pollin, Sock, Env, Log, not_opened, pollout, poller_modify, connect, req, poller_remove,
  send_checked, nothing, poller_add_fd, get_events, recv_reply, call, opened, close,
  poller_remove_fd, attempt, poller_add, poller_modify_fd,
}

-- `BUFCAP`, which `bsr_startupcmd_init` compares with the size of the array once more.
abbrev pub bufcap : ℕ
bufcap = 256

-- `enum State`.
pub data Phase : Type 0 where
  reading sending receiving : Phase

-- `struct bsr_startupcmd`. `rp` never leaves the start of `buf`; `text` holds the bytes from there to
-- `wp`, so its length is `wp - buf`. `fd` is `none` for -1.
pub record Startup : Type 0 where
  pub cmdaddr : Bytes
  pub fd : Option ℕ
  pub sock_out : Sock
  pub text : Bytes
  pub state : Phase

-- The handler with the log of the calls.
pub record Running : Type 0 where
  pub self : Startup
  pub log : Log

-- What the operating system gives in an event: the result of `read`, which is at most as long as
-- asked for, and whether the socket is ready to send.
pub data ReadResult : Type 0 where
  read_error : ReadResult
  read_bytes : Bytes → ReadResult

pub record Input : Type 0 where
  pub from_file : ReadResult
  pub can_send : Bool

abbrev pub on_run_log : Action Log → Action Running
on_run_log m s = let (o, l) = m s.log in (o, record s { log = l })

abbrev pub update_run : (Startup → Startup) → Action Running
update_run f s = (ok, record s { self = f s.self })

abbrev fd_number : Option ℕ → ℤ
fd_number none = negsuc 0
fd_number (some n) = pos n

-- A line is sent if it is not empty and no comment; `clen` is its length up to a NUL.
abbrev pub is_command : Bytes → Bool
is_command [] = false
is_command (c ∷ line) = not (c == b'#')

-- A refused `zmq_send` returns before the `memmove`; the newline has been overwritten.
abbrev pub after_line : Bytes → Bytes → Outcome × Log → Outcome × Bool × Bytes × Log
after_line line rest (ok, log) = (ok, true, rest, log)
after_line line rest (o, log) = (o, true, line ++ 0 ∷ rest, log)

module _ (env : Env) where
  -- The loop over the buffer: the bytes of the open line, and those from `p1` to `wp`. The result says
  -- whether a command was found, and what the buffer holds then.
  unfoldable pub send_lines : Sock → Bytes → Bytes → Log → Outcome × Bool × Bytes × Log
  send_lines sock line [] log = (ok, false, line, log)
  send_lines sock line (c ∷ rest) log =
      let skip = send_lines sock [] rest log in
      let grow = send_lines sock (line ++ c ∷ []) rest log in
      if c == b'\n'
      then (if is_command (c_string line)
          then after_line line rest (send_checked env sock (c_string line) log)
          else skip)
      else grow

  -- After the loop found no command.
  unfoldable pub nothing_found : Action Running
  unfolding call attempt
  nothing_found s = elim s.self.fd [
    | none ↦ on_run_log (call env (poller_remove s.self.sock_out)) s
    | some fd ↦
        if ltb (length s.self.text) bufcap
        then (update_run (λ m. record m { state = reading })
              >> on_run_log (call env (poller_modify s.self.sock_out nothing))
              >> on_run_log (call env (poller_modify_fd (pos fd) pollin)))
            s
        else (on_run_log (call env (poller_remove s.self.sock_out))
              >> on_run_log (call env (poller_remove_fd (pos fd))))
            s
  ]

  abbrev pub after_lines : Running → Outcome × Bool × Bytes × Log → Outcome × Running
  after_lines s (ok, found, text, log) =
      let s' = record s { self = record s.self { text = text }; log = log } in
      if found
      then (update_run (λ m. record m { state = receiving })
            >> on_run_log (call env (poller_modify s.self.sock_out pollin)))
          s'
      else nothing_found s'
  after_lines s (o, found, text, log) =
      (o, record s { self = record s.self { text = text }; log = log })

  -- `read` has returned these bytes.
  unfoldable pub read_in : Bytes → Action Running
  unfolding call attempt
  read_in [] s =
      (on_run_log (attempt env (poller_remove_fd (fd_number s.self.fd)))
          >> update_run (λ m. record m { fd = none }))
        s
  read_in (b ∷ bs) s =
      (update_run (λ m. record m { text = m.text ++ b ∷ bs; state = sending })
          >> on_run_log (call env (poller_modify_fd (fd_number s.self.fd) nothing))
          >> on_run_log (call env (poller_modify s.self.sock_out pollout)))
        s

  -- READING: `read` is asked for as many bytes as there is room for.
  unfoldable pub handle_reading : ReadResult → Action Running
  unfolding attempt
  handle_reading read_error s =
      (on_run_log (attempt env (poller_remove_fd (fd_number s.self.fd)))
          >> update_run (λ m. record m { fd = none })
          >> (λ t. (fail, t)))
        s
  handle_reading (read_bytes given) s = read_in (take (bufcap - length s.self.text) given) s

  unfoldable pub handle_sending : Bool → Action Running
  unfolding nothing_found call
  handle_sending can_send = on_run_log (call env get_events) >> (λ s.
      if can_send then after_lines s (send_lines s.self.sock_out [] s.self.text s.log) else (ok, s))

  unfoldable pub handle_receiving : Action Running
  unfolding call
  handle_receiving s =
      (on_run_log (call env (recv_reply s.self.sock_out))
          >> on_run_log (call env (poller_modify s.self.sock_out pollout))
          >> update_run (λ m. record m { state = sending }))
        s

  abbrev pub in_phase : Phase → Input → Action Running
  in_phase reading i = handle_reading i.from_file
  in_phase sending i = handle_sending i.can_send
  in_phase receiving i = handle_receiving

  unfoldable pub bsr_startupcmd_handle_event : Input → Action Running
  bsr_startupcmd_handle_event i s = in_phase s.self.state i s

  -- `bsr_startupcmd_init` on memory that held `m`, with an open file.
  unfoldable pub bsr_startupcmd_init : ℕ → Bytes → Startup → Log → Outcome × Running
  unfolding call copy_addr
  bsr_startupcmd_init fd cmdaddr m log =
      let fresh = record m {
        state = reading;
        fd = some fd;
        cmdaddr = copy_addr cmdaddr;
        text = [];
      } in
      elim (env.socket log req) [
        | none ↦ (fail, record { self = fresh; log = not_opened req ∷ log })
        | some sock ↦
            (on_run_log (call env (connect sock (copy_addr cmdaddr)))
                >> on_run_log (call env (poller_add sock nothing))
                >> on_run_log (call env (poller_add_fd (pos fd) pollin)))
              (record { self = record fresh { sock_out = sock }; log = opened req sock ∷ log })
      ]

  -- `cleanup_struct_bsr_startupcmd`; errors are only printed.
  unfoldable pub cleanup_struct_bsr_startupcmd : Action Running
  unfolding attempt
  cleanup_struct_bsr_startupcmd s =
      (on_run_log (attempt env (poller_remove_fd (fd_number s.self.fd)))
          >> update_run (λ m. record m { fd = some 0 })
          >> on_run_log (attempt env (poller_remove s.self.sock_out))
          >> on_run_log (attempt env (close s.self.sock_out)))
        s
