-- ===== src/LoadMonitor/Spacing.antt =====
-- The gate spaces the requests.
use e621_feed.Base.{◌+◌, ◌≤◌, List, [], ◌∷◌, arith}
use e621_feed.LoadMonitor.{Gate, Turn, RuntimeConfig, wait, woken, effective_delay}

unfoldable pub run : RuntimeConfig → Gate → List Turn → Gate
run runtime g [] = g
run runtime g (t ∷ ts) = run runtime (wait runtime g t) ts

next_available_grows :
    (runtime : RuntimeConfig) (g : Gate) (ts : List Turn)
    → g.next_available ≤ (run runtime g ts).next_available
unfolding run wait
next_available_grows runtime g [] = omega arith
next_available_grows runtime g (t ∷ ts) =
    omega (arith, next_available_grows runtime (wait runtime g t) ts)

-- Whatever requests of whatever priority come between two, and however the sleeps end, the later
-- one goes through no earlier than the earlier one did and its effective delay after that.
pub wait_spaced :
    (runtime : RuntimeConfig) (g : Gate) (t u : Turn) (ts : List Turn)
    → woken g t + effective_delay t.seen t.priority runtime t.asked
      ≤ woken (run runtime (wait runtime g t) ts) u
unfolding wait
wait_spaced runtime g t u ts = omega (arith, next_available_grows runtime (wait runtime g t) ts)
