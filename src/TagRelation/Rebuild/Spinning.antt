-- ===== src/TagRelation/Rebuild/Spinning.antt =====
-- What happens while the database does not answer.
use e621_feed.Base.{
  ℕ, zero, suc, ◌≡◌, refl, ap, ◌∙◌, true, false, List, [], ◌∷◌, ◌++◌, arith, nat_eq, list_eq,
  pair_eq,
}
use e621_feed.TagRelation.Rebuild.{Shared, Event, loading, spawns, leaves, works, step, run}

-- One failed load, from the thread's wait for the database to the next thread's.
abbrev pub failed_round : List Event
failed_round = works 0 false ∷ works 0 true ∷ works 0 true ∷ leaves ∷ spawns ∷ works 0 true ∷ []

abbrev pub rounds : ℕ → List Event
rounds zero = []
rounds (suc n) = failed_round ++ rounds n

-- A thread that loads, with no other waiting.
pub record IsAlone (s : Shared) : Type 0 where
  pub loads : s.threads ≡ loading ∷ []
  pub flagged : s.rebuilding ≡ true
  pub clean : s.dirty ≡ false
  pub nobody : (s.spawning ≡ 0) × (s.leaving ≡ 0)
  pub warm : s.cold ≡ false

failed_round_returns : (s : Shared) → IsAlone s → run s failed_round ≡ s
unfolding run
failed_round_returns s v = ground arith

run-append : (es fs : List Event) (s : Shared) → run s (es ++ fs) ≡ run (run s es) fs
unfolding run
run-append [] fs s = refl
run-append (e ∷ es) fs s = run-append es fs (step s e)

-- A thread whose load fails gives up the flag, sees its own dirty mark and starts the next thread,
-- which loads at once: any number of failed loads follow each other, without a cooldown and with
-- nobody asking, and leave the shared state as it was.
pub failed_loads_spin : (n : ℕ) (s : Shared) → IsAlone s → run s (rounds n) ≡ s
unfolding run
failed_loads_spin zero s v = refl
failed_loads_spin (suc n) s v =
    run-append failed_round (rounds n) s
    ∙ (ap (λ r. run r (rounds n)) (failed_round_returns s v) ∙ failed_loads_spin n s v)
