-- ===== src/Lib.antt =====
-- bsreadrepeater receives multipart messages of data sources over ZeroMQ and passes each on to any
-- number of outputs. This library models its C code and proves what its components promise.
--
-- The program and its model
--
-- A main loop (src/bsr_rep.c) waits on one poller and calls the handler that an event belongs to.
-- The handlers share a list of handlers, statistics with the timed events, and the poller. A command
-- socket adds and removes sources and outputs; two further handlers send commands to that socket, one
-- from the startup file and one from a queue in memory. The loop runs in a thread, which main.c starts
-- and waits for.
--
--   * Channel: src/bsr_chnhandler.c, one source. Open: init, connect, reopen, disable, enable,
--     cleanup. Outputs: add and remove. Headers: the two bsread header frames. Forward: a part goes
--     to each output. Receive: the handler of an event. Ready and Service, Outputs/Changes,
--     Forward/Induction, Forward/Prefix, Forward/Message, Owned, Owned/Outputs and Untouched: proofs.
--   * Command: src/bsr_cmdchn.c, the command socket. Reply: the texts of its answers. Dispatch: the
--     test of a message's first bytes, and each branch. Deliver: the dispatch over the kinds of
--     handlers. Exchange, Sound, Events, Delivered, Removed, Answer, Replies, Accounted,
--     AccountedEvents and AccountedDelivered: proofs.
--   * Handlers: src/bsr_cmdchn.c, the list of handlers, with what the commands do to it. Find and
--     Distinct: proofs on the addresses of the sources. Lookup, Sound, Serving, Commands,
--     Quiet, QuietCommands, Owned, OwnedCommands and OwnedAdded: proofs on the list as a whole, on
--     what the commands send and on the sockets that the handlers hold.
--   * Rep: src/bsr_rep.c, the main loop. Setup: before and after it. Loop: its rounds. Due: the
--     timed events at the end of a round. Idle and Queue: the idle check and remove_and_add_source.
--     Thread: the thread around it. Invariant: what its rounds keep, for the proofs in Sound and
--     Accounted. Steps: the same for the set-up. Frame, Ends, Exit, Later, Requeue, Checked, Started,
--     Opened and Closed: proofs.
--   * Memreq: src/bsr_memreq.c, the queue of commands, a ring of twelve slots of 256 bytes. Ring:
--     its invariant. Order and Drain: runs of additions and events.
--   * Startup: src/bsr_startupcmd.c, the commands of the startup file. Lines: what a file means.
--     Order, Bounds and Owned: runs of events.
--   * TimedEvents: src/bsr_timed_events.c, with its GTree as the list of the entries in order.
--   * Stats: src/bsr_stats.c. Rep/Setup also has src/bsr_poller.c.
--   * BsreadJson: the parsers of src/bsr_json.cpp for the two headers, on an interface to rapidjson.
--     Channels: the data header, and the two parsers as the interface of Headers. Document:
--     what a document holds. Accepted, Channels/Noted and Channels/Refused: proofs. Written: the rest of src/bsr_json.cpp.
--   * JsonCommand: src/bsr_json_commands.cpp, on the members of a parsed document.
--   * DummySource: src/bsr_dummy_source.c. Ema: src/bsr_ema.c. Sockopts: src/bsr_sockhelp.c,
--     its end in Sockopts/Single. Split: src/bsr_str.c. Hex: src/hex.c.
--   * Entry: src/main.c. Entry/Closed: proofs on main_inner. TestThread: src/bsr_ctx1.c.
--   * Sockets: how often a socket has been opened and closed, read off the log of the calls.
--   * Headers: the structs and the interface of src/bsr_json.cpp and of the decompressors.
--   * Zmq: the calls into libzmq. Text: C strings. Base: numbers, lists and results.
--   * Tests: concrete runs, and the theorems of the list at concrete inputs.
--
-- How the code is represented
--
-- A function of the source is a definition with its name in small letters. A struct is a record; a
-- list of GLib is a list; a pointer that may be NULL is an Option. A function that changes state is
-- an action: it takes the state and gives back an outcome and the new state. The outcome is ok for a
-- return of 0, fail for -1, and fault where the code would read or write outside of its objects.
-- `>>` runs the second action only after an ok, as the code's NZRET does. Unsigned counters wrap at
-- 2 ^ 64 or 2 ^ 32; signed values of the interface are integers.
--
-- libzmq, the operating system, malloc, the clocks, the float operations, rapidjson and the two
-- decompressors are not part of the repository and are parameters. An answer of libzmq may depend on
-- every call made before: the calls made so far, newest first, are a log that is part of the state.
-- What arrives in an event is a list that is given with the event. The definitions have no
-- assumption on any of these, and the theorems hold for all of them, but for the conditions that
-- they state. Loops recurse on the list that they go through; decimal digits are printed on fuel of
-- 20, which is the number of digits of 2 ^ 64. The loop over the timed events has as fuel the number
-- of entries of the tree, of which each round removes one. The main loop goes through a list of
-- rounds, which say what the poller, the clocks and the other thread do in each; a list that comes to
-- its end leaves the loop running. A handler on the heap has an address that is given out once, and a
-- use of one that has been freed is a fault.
--
-- The thread of the repeater shares with the one that started it only the flag that stops it, which
-- the rounds read, and what it leaves when it has returned; so it is run where it is created.
--
-- Not modelled: the printing of diagnostics and statistics, and the copies of bitshuffle, LZ4 and
-- rapidjson. In src/bsr_cmdchn.c the state SEND, which nothing sets, is left out.
pub mod Base
pub mod Text
pub mod Split
pub mod Zmq
pub mod Sockopts
pub mod Memreq
pub mod Ema
pub mod TimedEvents
pub mod Hex
pub mod Headers
pub mod Channel
pub mod Startup
pub mod JsonCommand
pub mod BsreadJson
pub mod DummySource
pub mod Handlers
pub mod Command
pub mod Stats
pub mod Rep
pub mod Tests
pub mod Sockets
pub mod TestThread
pub mod Entry
