-- ===== src/Stats.antt =====
-- src/bsr_stats.c: the statistics that the handlers share.
pub mod Elapsed
use bsreadrepeater.Base.{u32_mod, ℕ, ◌+◌, pos, if◌then◌else◌, ◌%◌, ◌-◌, u64_mod, ltb, ◌*◌, ◌/◌}
use bsreadrepeater.Channel.{Statistics}
use bsreadrepeater.Ema.{FloatOps}
use bsreadrepeater.Rep.Later.{later}
use bsreadrepeater.Split.{Timespec}
use bsreadrepeater.TimedEvents.{bsr_timed_events_init, bsr_timed_events_cleanup}

-- The milliseconds of a time, and `dt` of two of them in `uint64_t`.
abbrev pub millis : Timespec → ℕ
millis t = t.sec * 1000 + t.nsec / 1000000

abbrev pub u32_max : ℕ
u32_max = u32_mod - 1

module _ {F : Type 0} where
  -- `bsr_statistics_init`, whose two readings of the clock are `now` and `later`. It leaves
  -- `recv_bytes`, `sent_bytes`, the averages of `process` and `datetime_idle_check_last` as they were.
  unfoldable pub bsr_statistics_init :
      FloatOps F → Timespec → Timespec → Statistics F → Statistics F
  unfolding bsr_timed_events_init
  bsr_statistics_init fl now later s = record s {
    last_print_ts = now;
    received = 0;
    sentok = 0;
    eagain = 0;
    eagain_multipart = 0;
    recv_buf_too_small = 0;
    poll_wait_ema = fl.of_ℤ (pos 0);
    poll_wait_emv = fl.of_ℤ (pos 0);
    input_reopened = 0;
    evs_max = 0;
    poll_evs_total = 0;
    timed_events = bsr_timed_events_init later;
  }

  -- The difference wraps in `uint64_t`, and is then cut to what `uint32_t` holds.
  unfoldable pub bsr_statistics_ms_since_last_print : Timespec → Statistics F → ℕ
  bsr_statistics_ms_since_last_print now s =
      let dt = (millis now % u64_mod + u64_mod - millis s.last_print_ts % u64_mod) % u64_mod in
      if ltb u32_max dt then u32_max else dt

  -- `bsr_statistics_print_now`, but for what it prints.
  unfoldable pub bsr_statistics_print_now : Timespec → Statistics F → Statistics F
  bsr_statistics_print_now now s = record s { last_print_ts = now }

  -- `bsr_statistics_cleanup`, which ends the list of timed events.
  unfoldable pub bsr_statistics_cleanup : Statistics F → Statistics F
  unfolding bsr_timed_events_cleanup
  bsr_statistics_cleanup s = record s { timed_events = bsr_timed_events_cleanup s.timed_events }
