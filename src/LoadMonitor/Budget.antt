-- ===== src/LoadMonitor/Budget.antt =====
-- The estimate of the remaining requests, and the delay that it leads to.
use e621_feed.Base.{
  ℕ, ◌⊎◌, ◌+◌, ◌-◌, ◌*◌, ◌%◌, ◌^◌, ◌≤◌, ◌<◌, ◌≡◌, ◌≢◌, refl, true, false, List, [], ◌∷◌, arith,
  length,
}
use native.Mathlib.Nat.{mul-le-mul_left}
use e621_feed.LoadMonitor.{
  Priority, E621LoadMonitor, observe_remaining, record_pass, estimated_remaining, unknown_remaining,
  budget_multiplier, effective_delay, base_delay_ms_from, live_window_extra, RuntimeConfig, is_live,
}

-- Requests that pass, each with its time.
abbrev pub passes : E621LoadMonitor → List (Priority × ℕ) → E621LoadMonitor
passes m [] = m
passes m ((p, now) ∷ ps) = passes (record_pass m p now) ps

passes_count :
    (m : E621LoadMonitor) (ps : List (Priority × ℕ))
    → m.sent_since_update + length ps < 2 ^ 32
    → ((passes m ps).sent_since_update ≡ m.sent_since_update + length ps)
      × ((passes m ps).last_remaining ≡ m.last_remaining)
unfolding record_pass
passes_count m [] h = (omega arith, refl)
passes_count m ((p, now) ∷ ps) h =
    let (sent, remaining) = passes_count (record_pass m p now) ps (omega arith) in
    (omega arith, remaining)

-- After e621 has stated its budget, the estimate is that budget less the requests that passed
-- since, and 0 if more passed, for every sequence of fewer than 2 ^ 32 requests.
pub estimated_remaining-passes :
    (m : E621LoadMonitor) (remaining : ℕ) (ps : List (Priority × ℕ))
    → remaining ≢ unknown_remaining
    → length ps < 2 ^ 32
    → estimated_remaining (passes (observe_remaining m remaining) ps) ≡ remaining - length ps
unfolding estimated_remaining observe_remaining
estimated_remaining-passes m remaining ps known few =
    ground (arith, passes_count (observe_remaining m remaining) ps (omega arith))

-- A smaller known budget never asks for a smaller factor, and every factor is from 1 to 5.
pub budget_multiplier_mono :
    (a b : ℕ)
    → a ≤ b
    → b < unknown_remaining
    → (1 ≤ budget_multiplier b)
      × (budget_multiplier b ≤ budget_multiplier a)
      × (budget_multiplier a ≤ 5)
unfolding budget_multiplier
budget_multiplier_mono a b h known = ground arith

budget_multiplier-le : (remaining : ℕ) → budget_multiplier remaining ≤ 5
unfolding budget_multiplier
budget_multiplier-le remaining = ground arith

live_window_extra-cases :
    (m : E621LoadMonitor) (p : Priority) (runtime : RuntimeConfig) (now : ℕ)
    → let extra = live_window_extra m p runtime now in
      (extra ≤ 2000)
      × ((is_live p ≡ false) ⊎ (extra ≡ 0))
      × ((is_live p ≡ true)
          ⊎ (runtime.backfill_live_window_ms ≤ now - m.last_live_pass)
          ⊎ (50 ≤ extra))
unfolding live_window_extra
live_window_extra-cases m p runtime now = (ground arith, ground arith, ground arith)

-- With a base delay that cannot overflow, a live request waits for its base delay times the factor
-- and no more. Any other waits for at most 2 seconds more than that, and for at least 50
-- milliseconds more while a live request passed within the window.
pub effective_delay_bounds :
    (m : E621LoadMonitor) (p : Priority) (runtime : RuntimeConfig) (now : ℕ)
    → base_delay_ms_from p runtime < 2 ^ 61
    → let least = base_delay_ms_from p runtime * budget_multiplier (estimated_remaining m) in
      let delay = effective_delay m p runtime now in
      (least ≤ delay)
      × (delay ≤ least + 2000)
      × ((is_live p ≡ false) ⊎ (delay ≡ least))
      × ((is_live p ≡ true)
          ⊎ (runtime.backfill_live_window_ms ≤ now - m.last_live_pass)
          ⊎ (least + 50 ≤ delay))
unfolding effective_delay
effective_delay_bounds m p runtime now small =
    let base = base_delay_ms_from p runtime in
    let factor = budget_multiplier (estimated_remaining m) in
    let extra = live_window_extra m p runtime now in
    let (most, live_case, window_case) = live_window_extra-cases m p runtime now in
    let product : base * factor ≤ base * 5 =
      mul-le-mul_left base (budget_multiplier-le (estimated_remaining m)) in
    let exact : (base * factor + extra) % 2 ^ 64 ≡ base * factor + extra = omega arith in
    (omega arith, omega arith, ground arith, ground arith)
