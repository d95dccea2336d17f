-- ===== src/Stats/Elapsed.antt =====
-- The time since the last print.
use bsreadrepeater.Base.{
  min, if◌then◌else◌, u64_mod, ◌<◌, arith, ◌≡◌, ◌+◌, ◌≤◌, ltb, ◌∙◌, ℕ, ◌%◌, ◌-◌,
}
use bsreadrepeater.Channel.{Statistics}
use bsreadrepeater.Split.{Timespec}
use bsreadrepeater.Stats.{
  millis, bsr_statistics_print_now, bsr_statistics_ms_since_last_print, u32_max,
}

-- On a clock that has not gone back and has not reached 2 ^ 64 milliseconds, the time since the last
-- print is the difference of the two readings in milliseconds, or the largest `uint32_t` if it is more.
-- Right after a print at that time it is 0.
pub ms_since_last_print_lem :
    {F : Type 0} (now : Timespec) (s : Statistics F)
    → millis s.last_print_ts ≤ millis now
    → millis now < u64_mod
    → (bsr_statistics_ms_since_last_print now s ≡ min (millis now - millis s.last_print_ts) u32_max)
      × (bsr_statistics_ms_since_last_print now (bsr_statistics_print_now now s) ≡ 0)
unfolding bsr_statistics_ms_since_last_print bsr_statistics_print_now
ms_since_last_print_lem now s l u = (
  difference (millis now) (millis s.last_print_ts) l u,
  difference (millis now) (millis now) (omega arith) u ∙ omega arith,
)
  where
    difference :
        (a b : ℕ)
        → b ≤ a
        → a < u64_mod
        → (if ltb u32_max ((a % u64_mod + u64_mod - b % u64_mod) % u64_mod)
            then u32_max
            else (a % u64_mod + u64_mod - b % u64_mod) % u64_mod)
          ≡ min (a - b) u32_max
    difference a b l u = ground arith
