-- ===== src/Entry.antt =====
-- src/main.c: the entry point, with the life of the repeater's thread around it.
pub mod Closed
use bsreadrepeater.Base.{
  Bytes, take, [], fail, Outcome, ◌==◌, ℕ, Option, not, Bool, List, ltb, ok, Action, some,
  if◌then◌else◌, ◌>>◌, exec, ◌∷◌, none, ◌&&◌, true, ◌+◌, false, length, refl, arith, ◌≡◌,
}
use bsreadrepeater.Channel.{Outside}
use bsreadrepeater.Command.Reply.{Format}
use bsreadrepeater.JsonCommand.{JsonParser}
use bsreadrepeater.Rep.{Bsrep, bsrep_init, Allocation}
use bsreadrepeater.Rep.Loop.{Round}
use bsreadrepeater.Rep.Setup.{Start}
use bsreadrepeater.Rep.Thread.{
  bsrep_wait_for_done, bsrep_start, bsrep_run_inner_thr, cleanup_bsrep, Process, free_bsrep,
}
use bsreadrepeater.Sockopts.Single.{req_rep_single}
use bsreadrepeater.Split.{Timespec}
use bsreadrepeater.TestThread.{ctx1_start, Ctx1, ctx1_init, cleanup_ctx1}
use bsreadrepeater.Text.{codes, strncmp_eq}
use bsreadrepeater.Zmq.{Log}

-- What the system answers to the calls that main.c leads to: the clock and the two `malloc` calls of
-- `bsrep_init`, the creation and the naming of the thread, and the joins of `bsrep_wait_for_done` and
-- of `cleanup_bsrep`.
pub record Host : Type 0 where
  pub clock : Timespec
  pub first : Allocation
  pub second : Allocation
  pub created : Bool
  pub named : Bool
  pub joined : Bool
  pub joined_late : Bool

-- The two local arrays, which `strncpy` fills up to their last byte.
abbrev pub cmd_addr_of : Bytes → Bytes
cmd_addr_of arg = take 127 arg

-- Without a second argument the array holds the empty string, and a pointer to it is passed on.
unfoldable pub startup_file_of : List Bytes → Bytes
startup_file_of [] = []
startup_file_of (arg ∷ args) = take 255 arg

abbrev default_addr : Bytes
default_addr = codes "tcp://127.0.0.1:4242"

-- The check of the linked libzmq.
unfoldable pub has_zmq : ℕ → ℕ → Bool → Bool
has_zmq major minor draft = major == 4 && not (ltb minor 3) && draft

-- What `main` does with its arguments.
pub data Choice : Type 0 where
  print_version refuse self_test serve : Choice

-- `strcmp` with a literal, which compares the NUL too.
abbrev is_text : Bytes → Bytes → Bool
is_text lit arg = strncmp_eq (length lit + 1) lit arg

abbrev asks_for_version : List Bytes → Bool
asks_for_version (name ∷ arg ∷ []) = is_text (codes "--version") arg
asks_for_version _ = false

abbrev asks_for_test : List Bytes → Bool
asks_for_test (name ∷ arg ∷ args) = is_text (codes "test") arg
asks_for_test _ = false

-- `main`, with the version of libzmq and whether it has the draft functions.
unfoldable pub choose : List Bytes → ℕ → ℕ → Bool → Choice
unfolding has_zmq
choose argv major minor draft =
    if asks_for_version argv
    then print_version
    else if has_zmq major minor draft
    then (if asks_for_test argv then self_test else serve)
    else refuse

module _ {F : Type 0} (w : Outside F) (fmt : Format F) (parse : JsonParser) (h : Host) where
  abbrev pub init_process : Bytes → Option Bytes → Action (Process F)
  init_process addr file p =
      let (o, b) = bsrep_init h.clock addr file h.first h.second p.repeater.bsrep in
      (o, record p { repeater = record p.repeater { bsrep = b } })

  abbrev pub run_if_created : Start w fmt parse → List Round → Process F → Process F
  run_if_created st is p = if p.thread_created then bsrep_run_inner_thr w fmt parse st is p else p

  -- `bsrep_start`, with what the thread does from then on until it is joined.
  abbrev pub start_process : Start w fmt parse → List Round → Action (Process F)
  start_process st is p =
      let (o, q) = bsrep_start h.created h.named p in (o, run_if_created st is q)

  abbrev pub clean_process : Outcome × Process F → Outcome × Process F
  clean_process (o, p) = (o, (cleanup_bsrep h.joined_late p).1)

  -- The repeater from `bsrep_init` to the end of its scope, on a zeroed struct.
  unfoldable pub lifetime :
      Bytes → Option Bytes → (Bsrep → Bsrep) → Start w fmt parse → List Round → Action (Process F)
  unfolding bsrep_start bsrep_wait_for_done cleanup_bsrep bsrep_run_inner_thr bsrep_init
  lifetime addr file prepare st is p = clean_process (
      (init_process addr file
          >> exec
              (λ q. record q { repeater = record q.repeater { bsrep = prepare q.repeater.bsrep } })
          >> start_process st is
          >> bsrep_wait_for_done h.joined)
        p)

  -- `main_inner`. Without an argument it prints how it is called.
  unfoldable pub main_inner : List Bytes → Start w fmt parse → List Round → Action (Process F)
  unfolding lifetime startup_file_of
  main_inner [] st is p = (ok, p)
  main_inner (name ∷ []) st is p = (ok, p)
  main_inner (name ∷ addr ∷ args) st is p =
      lifetime (cmd_addr_of addr) (some (startup_file_of args)) (λ b. b) st is p

  abbrev check_polls : Outcome × Process F → Outcome
  check_polls (ok, p) = if p.repeater.bsrep.polls_count == 2 then ok else fail
  check_polls (o, p) = o

  -- `test_simple_start_and_shutdown`.
  unfoldable pub test_simple_start_and_shutdown :
      Start w fmt parse → List Round → Process F → Outcome
  unfolding lifetime
  test_simple_start_and_shutdown st is p =
      check_polls (lifetime default_addr none (λ b. record b { do_polls_max = 2 }) st is p)

  -- The exit status says whether the thread could be made and joined, and nothing of what the thread
  -- returned: it is the same for every way in which the main loop goes.
  main_inner_status :
      (argv : List Bytes) (st st' : Start w fmt parse) (is is' : List Round) (p : Process F)
      → (main_inner argv st is p).0 ≡ (main_inner argv st' is' p).0
  unfolding main_inner lifetime bsrep_start bsrep_wait_for_done bsrep_run_inner_thr bsrep_init
  main_inner_status [] st st' is is' p = refl
  main_inner_status (name ∷ []) st st' is is' p = refl
  main_inner_status (name ∷ addr ∷ args) st st' is is' p = ground arith

  -- However `main_inner` goes, if a thread that was not waited for can be joined then no thread is left,
  -- and both texts of the repeater have been freed.
  main_inner_ends :
      (name addr : Bytes) (args : List Bytes) (st : Start w fmt parse) (is : List Round)
      (p : Process F)
      → p.thread_created ≡ false
      → h.joined_late ≡ true
      → let q = (main_inner (name ∷ addr ∷ args) st is p).1 in
        (q.thread_created ≡ false)
        × (q.repeater.bsrep.cmd_addr ≡ none)
        × (q.repeater.bsrep.startup_file ≡ none)
  unfolding main_inner lifetime bsrep_start bsrep_wait_for_done bsrep_run_inner_thr bsrep_init
      cleanup_bsrep free_bsrep
  main_inner_ends name addr args st is p c j = ground (arith, c, j)

-- What `test_receive` has: the thread of the test, the repeater, and the calls of `req_rep_single`,
-- which go to a context of their own.
pub record SelfTest (F : Type 0) : Type 0 where
  pub ctx1 : Ctx1
  pub process : Process F
  pub requests : Log

module _ {F : Type 0} (w : Outside F) (fmt : Format F) (parse : JsonParser) (h : Host) where
  abbrev on_ctx1 : Action Ctx1 → Action (SelfTest F)
  on_ctx1 m t = let (o, x) = m t.ctx1 in (o, record t { ctx1 = x })

  abbrev on_process : Action (Process F) → Action (SelfTest F)
  on_process m t = let (o, p) = m t.process in (o, record t { process = p })

  abbrev on_requests : Action Log → Action (SelfTest F)
  on_requests m t = let (o, l) = m t.requests in (o, record t { requests = l })

  abbrev ask_for_rounds : Process F → Process F
  ask_for_rounds p = record p {
    repeater = record p.repeater { bsrep = record p.repeater.bsrep { do_polls_min = 20 } };
  }

  -- The repeater in its scope, which it leaves without a wait: the clean-up stops and joins it.
  unfoldable pub receive_scope : Start w fmt parse → List Round → Action (SelfTest F)
  unfolding bsrep_start cleanup_bsrep bsrep_run_inner_thr bsrep_init req_rep_single
  receive_scope st is t =
      let (o, u) =
        (on_process (exec ask_for_rounds)
            >> on_process (init_process w fmt parse h default_addr none)
            >> on_process (start_process w fmt parse h st is)
            >> on_requests (req_rep_single w.env default_addr (codes "blabla") 6))
          t in
      (o, record u { process = (cleanup_bsrep h.joined_late u.process).1 })

  -- `test_receive`, with what `pthread_create`, `pthread_setname_np` and `pthread_join` answer for the
  -- thread of the test. What that thread does is `run_inner`, on a context of its own.
  unfoldable pub test_receive :
      Bool → Bool → Bool → Start w fmt parse → List Round → Action (SelfTest F)
  unfolding receive_scope ctx1_init ctx1_start cleanup_ctx1
  test_receive created named joined st is t =
      let (o, u) =
        (on_ctx1 (exec ctx1_init) >> on_ctx1 (ctx1_start created named) >> receive_scope st is) t in
      (o, record u { ctx1 = (cleanup_ctx1 joined u.ctx1).1 })

  -- If both threads can be joined, none is left when `test_receive` returns, on whatever path, and the
  -- thread of the test has been told to stop.
  test_receive_ends :
      (created named : Bool) (st : Start w fmt parse) (is : List Round) (t : SelfTest F)
      → t.process.thread_created ≡ false
      → h.joined_late ≡ true
      → let u = (test_receive created named true st is t).1 in
        (u.process.thread_created ≡ false) × (u.ctx1.thread_started ≡ false) × (u.ctx1.stop ≡ true)
  unfolding test_receive receive_scope ctx1_init ctx1_start cleanup_ctx1 bsrep_start cleanup_bsrep
      bsrep_run_inner_thr bsrep_init free_bsrep
  test_receive_ends created named st is t c j = ground (arith, c, j)
