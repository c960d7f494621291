-- ===== src/LoadMonitor.antt =====
-- parser-api/src/load_monitor.rs: the monitor of e621's rate limit, and the gate that spaces the
-- requests. A `u32` counter wraps; times are milliseconds. The atomics are read and written one
-- after the other, and the locks are never poisoned.
pub mod Budget
pub mod Spacing
use e621_feed.Base.{
  ℕ, ◌+◌, ◌-◌, ◌*◌, ◌%◌, ◌^◌, Bool, true, false, if◌then◌else◌, ltb, leb, nat_beq, min, max,
}

pub data Priority : Type 0 where
  live prefetch backfill : Priority

abbrev pub is_live : Priority → Bool
is_live live = true
is_live prefetch = false
is_live backfill = false

-- The settings of `[runtime]` that the gate reads, each a u64.
pub record RuntimeConfig : Type 0 where
  pub live_rps_delay_ms : ℕ
  pub prefetch_rps_delay_ms : ℕ
  pub backfill_rps_delay_ms : ℕ
  pub backfill_live_window_ms : ℕ

unfoldable pub base_delay_ms_from : Priority → RuntimeConfig → ℕ
base_delay_ms_from live runtime = runtime.live_rps_delay_ms
base_delay_ms_from prefetch runtime = runtime.prefetch_rps_delay_ms
base_delay_ms_from backfill runtime = runtime.backfill_rps_delay_ms

abbrev pub unknown_remaining : ℕ
unknown_remaining = 2 ^ 32 - 1

pub record E621LoadMonitor : Type 0 where
  pub last_remaining : ℕ
  pub reset_at : ℕ
  pub sent_since_update : ℕ
  pub last_live_pass : ℕ

abbrev pub new_monitor : ℕ → E621LoadMonitor
new_monitor now = record {
  last_remaining = unknown_remaining;
  reset_at = 0;
  sent_since_update = 0;
  last_live_pass = now;
}

unfoldable pub observe_remaining : E621LoadMonitor → ℕ → E621LoadMonitor
observe_remaining m remaining = record m { last_remaining = remaining; sent_since_update = 0 }

unfoldable pub observe_reset : E621LoadMonitor → ℕ → E621LoadMonitor
observe_reset m reset_ts = record m { reset_at = reset_ts }

unfoldable pub record_pass : E621LoadMonitor → Priority → ℕ → E621LoadMonitor
record_pass m priority now = record m {
  last_live_pass = if is_live priority then now else m.last_live_pass;
  sent_since_update = (m.sent_since_update + 1) % 2 ^ 32;
}

unfoldable pub estimated_remaining : E621LoadMonitor → ℕ
estimated_remaining m =
    if nat_beq m.last_remaining unknown_remaining
    then unknown_remaining
    else m.last_remaining - m.sent_since_update

unfoldable pub ms_since_last_live : E621LoadMonitor → ℕ → ℕ
ms_since_last_live m now = now - m.last_live_pass

-- `clamp(50, 2000)`.
abbrev clamp_extra : ℕ → ℕ
clamp_extra n = min (max n 50) 2000

unfoldable pub live_window_extra : E621LoadMonitor → Priority → RuntimeConfig → ℕ → ℕ
unfolding ms_since_last_live
live_window_extra m priority runtime now =
    if is_live priority
    then 0
    else if ltb (ms_since_last_live m now) runtime.backfill_live_window_ms
    then clamp_extra (runtime.backfill_live_window_ms - ms_since_last_live m now)
    else 0

unfoldable pub budget_multiplier : ℕ → ℕ
budget_multiplier remaining =
    if nat_beq remaining unknown_remaining
    then 2
    else if ltb 200 remaining
    then 1
    else if ltb 100 remaining
    then 2
    else if ltb 50 remaining
    then 3
    else 5

-- What `wait` computes before it takes the lock. The u64 arithmetic wraps.
unfoldable pub effective_delay : E621LoadMonitor → Priority → RuntimeConfig → ℕ → ℕ
effective_delay m priority runtime now =
    (base_delay_ms_from priority runtime * budget_multiplier (estimated_remaining m)
      + live_window_extra m priority runtime now)
    % 2 ^ 64

-- `AdaptiveGateInner` beside the monitor.
pub record Gate : Type 0 where
  pub monitor : E621LoadMonitor
  pub next_available : ℕ

-- One call of `wait`: it computes its delay at `asked` from the monitor as it is `seen` then, has
-- the lock at `locked`, goes on `overslept` later than it could, and is recorded `late` after that.
pub record Turn : Type 0 where
  pub priority : Priority
  pub seen : E621LoadMonitor
  pub asked : ℕ
  pub locked : ℕ
  pub overslept : ℕ
  pub late : ℕ

-- `sleep` ends no earlier than the gate is free.
abbrev pub woken : Gate → Turn → ℕ
woken g t = max t.locked g.next_available + t.overslept

unfoldable pub wait : RuntimeConfig → Gate → Turn → Gate
wait runtime g t = record {
  monitor = record_pass g.monitor t.priority (woken g t + t.late);
  next_available = woken g t + effective_delay t.seen t.priority runtime t.asked;
}
