-- ===== src/SharedMutex/Threads.antt =====
-- Threads that share the mutex. Each step is one piece of code under `mtx`, or a wake-up.
use dev_essential.Base.{ℕ, zero, suc, ◌+◌, List, [], ◌∷◌, ◌++◌, map, if◌then◌else◌, ◌≡◌}
use dev_essential.SharedMutex.{
  Notice, nobody, all_cond1, one_cond1, one_cond2, Outcome, waits_cond1, waits_cond2, acquired,
  drain, lock, try_lock, unlock, lock_shared, try_lock_shared, unlock_shared,
}

-- Where a thread stands: outside, in a call, asleep or woken, or holding the mutex.
pub data Pc : Type 0 where
  outside : Pc
  lock_asleep : Pc
  lock_awake : Pc
  drain_asleep : Pc
  drain_awake : Pc
  writing : Pc
  shared_asleep : Pc
  shared_awake : Pc
  reading : Pc

pub record System : Type 0 where
  pub flag : ℕ
  pub threads : List Pc

abbrev pub after_lock : Outcome → Pc
after_lock waits_cond1 = lock_asleep
after_lock waits_cond2 = drain_asleep
after_lock acquired = writing

abbrev pub after_shared : Outcome → Pc
after_shared waits_cond1 = shared_asleep
after_shared waits_cond2 = shared_asleep
after_shared acquired = reading

-- A thread that holds the mutex releases it as it took it; one that tries and fails stays outside.
pub data Move (f : ℕ) : Pc → ℕ → Pc → Notice → Type 0 where
  call_lock : Move f outside (lock f).0 (after_lock (lock f).1) nobody
  resume_lock : Move f lock_awake (lock f).0 (after_lock (lock f).1) nobody
  resume_drain : Move f drain_awake (drain f).0 (after_lock (drain f).1) nobody
  call_try_lock : Move f outside (try_lock f).0 (if (try_lock f).1 then writing else outside) nobody
  call_unlock : Move f writing (unlock f).0 outside (unlock f).1
  call_shared : Move f outside (lock_shared f).0 (after_shared (lock_shared f).1) nobody
  resume_shared : Move f shared_awake (lock_shared f).0 (after_shared (lock_shared f).1) nobody
  call_try_shared :
      Move f outside
        (try_lock_shared f).0
        (if (try_lock_shared f).1 then reading else outside)
        nobody
  call_unlock_shared : Move f reading (unlock_shared f).0 outside (unlock_shared f).1

abbrev pub wake_cond1 : Pc → Pc
wake_cond1 lock_asleep = lock_awake
wake_cond1 shared_asleep = shared_awake
wake_cond1 p = p

abbrev pub wake_cond2 : Pc → Pc
wake_cond2 drain_asleep = drain_awake
wake_cond2 p = p

unfoldable pub count : (Pc → ℕ) → List Pc → ℕ
count w [] = 0
count w (p ∷ ps) = w p + count w ps

abbrev pub at_cond1 : Pc → ℕ
at_cond1 lock_asleep = 1
at_cond1 shared_asleep = 1
at_cond1 p = 0

abbrev pub at_cond2 : Pc → ℕ
at_cond2 drain_asleep = 1
at_cond2 p = 0

-- notify_one wakes one of the threads that wait, if there is one.
pub data Notified : Notice → List Pc → List Pc → Type 0 where
  no_notice : {ps : List Pc} → Notified nobody ps ps
  notify_all : {ps : List Pc} → Notified all_cond1 ps (map wake_cond1 ps)
  notify_cond1 :
      (before after : List Pc) (p : Pc)
      → at_cond1 p ≡ 1
      → Notified one_cond1 (before ++ p ∷ after) (before ++ wake_cond1 p ∷ after)
  nobody_at_cond1 : {ps : List Pc} → count at_cond1 ps ≡ 0 → Notified one_cond1 ps ps
  notify_cond2 :
      (before after : List Pc) (p : Pc)
      → at_cond2 p ≡ 1
      → Notified one_cond2 (before ++ p ∷ after) (before ++ wake_cond2 p ∷ after)
  nobody_at_cond2 : {ps : List Pc} → count at_cond2 ps ≡ 0 → Notified one_cond2 ps ps

-- Any thread moves, or wakes for no reason.
pub data Step : System → System → Type 0 where
  move :
      {f f' : ℕ} {p p' : Pc} {notice : Notice} {ps : List Pc} (before after : List Pc)
      → Move f p f' p' notice
      → Notified notice (before ++ p' ∷ after) ps
      → Step
          (record { flag = f; threads = before ++ p ∷ after })
          (record { flag = f'; threads = ps })
  spurious1 :
      {f : ℕ} (before after : List Pc) (p : Pc)
      → Step
          (record { flag = f; threads = before ++ p ∷ after })
          (record { flag = f; threads = before ++ wake_cond1 p ∷ after })
  spurious2 :
      {f : ℕ} (before after : List Pc) (p : Pc)
      → Step
          (record { flag = f; threads = before ++ p ∷ after })
          (record { flag = f; threads = before ++ wake_cond2 p ∷ after })

abbrev pub all_outside : ℕ → List Pc
all_outside zero = []
all_outside (suc n) = outside ∷ all_outside n

pub data Reach (n : ℕ) : System → Type 0 where
  start : Reach n (record { flag = 0; threads = all_outside n })
  later : {s t : System} → Reach n s → Step s t → Reach n t
