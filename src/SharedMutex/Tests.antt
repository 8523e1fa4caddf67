-- ===== src/SharedMutex/Tests.antt =====
-- Runs of the mutex, and the theorems after a reader and a writer have called.
use dev_essential.Base.{
  ◌≢◌, ◌≤◌, ◌+◌, ◌-◌, ◌^◌, ℕ, ◌≡◌, refl, true, false, some, [], ◌∷◌, arith, get_elem?,
}
use dev_essential.SharedMutex.{
  waits_cond1, waits_cond2, acquired, nobody, one_cond1, one_cond2, drain, lock, try_lock, unlock,
  lock_shared, try_lock_shared, unlock_shared,
}
use dev_essential.SharedMutex.Threads.{
  Pc, outside, drain_asleep, drain_awake, writing, reading, System, move, Reach, start, later,
  call_lock, call_shared, call_unlock_shared, resume_drain, no_notice, notify_cond2,
}
use dev_essential.SharedMutex.Safety.{
  mutual_exclusion, IsSound, Reach-IsSound, can_run, sleeper_awaits,
}

methods : Unit {0}
unfolding drain lock try_lock unlock lock_shared try_lock_shared unlock_shared
methods = tt

calls :
    (lock 0 ≡ (2 ^ 31, acquired))
    × (lock 3 ≡ (2 ^ 31 + 3, waits_cond2))
    × (lock (2 ^ 31) ≡ (2 ^ 31, waits_cond1))
    × (try_lock 0 ≡ (2 ^ 31, true))
    × (try_lock 1 ≡ (1, false))
    × (lock_shared 4 ≡ (5, acquired))
    × (lock_shared (2 ^ 31 + 4) ≡ (2 ^ 31 + 4, waits_cond1))
    × (lock_shared (2 ^ 31 - 1) ≡ (2 ^ 31 - 1, waits_cond1))
    × (try_lock_shared (2 ^ 31) ≡ (2 ^ 31, false))
    × (unlock_shared (2 ^ 31 + 1) ≡ (2 ^ 31, one_cond2))
    × (unlock_shared (2 ^ 31 - 1) ≡ (2 ^ 31 - 2, one_cond1))
    × (unlock_shared 0 ≡ (0, nobody))
unfolding methods
calls = (refl, refl, refl, refl, refl, refl, refl, refl, refl, refl, refl, refl)

-- The first thread reads.
abbrev one_reads : System
one_reads = record { flag = 1; threads = reading ∷ outside ∷ [] }

-- The second one wants to write, and sleeps.
abbrev one_drains : System
one_drains = record { flag = 2 ^ 31 + 1; threads = reading ∷ drain_asleep ∷ [] }

-- The first one has gone, and woken it.
abbrev one_woken : System
one_woken = record { flag = 2 ^ 31; threads = outside ∷ drain_awake ∷ [] }

abbrev one_writes : System
one_writes = record { flag = 2 ^ 31; threads = outside ∷ writing ∷ [] }

reads_first : Reach 2 one_reads
unfolding methods
reads_first = later start (move [] (outside ∷ []) call_shared no_notice)

drains_then : Reach 2 one_drains
unfolding methods
drains_then = later reads_first (move (reading ∷ []) [] call_lock no_notice)

woken_then : Reach 2 one_woken
unfolding methods
woken_then = later drains_then (
    move [] (drain_asleep ∷ []) call_unlock_shared
      (notify_cond2 (outside ∷ []) [] drain_asleep refl))

writes_last : Reach 2 one_writes
unfolding methods
writes_last = later woken_then (move (outside ∷ []) [] resume_drain no_notice)

mutual_exclusion_example : (outside ≢ writing) × (outside ≢ reading)
mutual_exclusion_example =
    mutual_exclusion (omega arith) writes_last 1 0 outside (omega arith) refl refl

sleeper_awaits_example :
    (j : ℕ) × (q : Pc) × (get_elem? (reading ∷ drain_asleep ∷ []) j ≡ some q) × (1 ≤ can_run q)
sleeper_awaits_example = sleeper_awaits (omega arith) drains_then 1 drain_asleep refl (omega arith)

Reach-IsSound_example : IsSound one_drains
Reach-IsSound_example = Reach-IsSound (omega arith) drains_then
