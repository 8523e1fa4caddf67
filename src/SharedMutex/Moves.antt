-- ===== src/SharedMutex/Moves.antt =====
-- Every piece of code under `mtx` keeps the agreement of the flag and the threads.
use dev_essential.Base.{ℕ, arith}
use dev_essential.SharedMutex.{
  Notice, drain, lock, try_lock, unlock, lock_shared, try_lock_shared, unlock_shared,
}
use dev_essential.SharedMutex.Threads.{
  Pc, Move, call_lock, resume_lock, resume_drain, call_try_lock, call_unlock, call_shared,
  resume_shared, call_try_shared, call_unlock_shared,
}
use dev_essential.SharedMutex.Invariant.{Tally, one, plus, IsTally, notified, Agrees}

pub Move-Agrees :
    {f f' : ℕ} {p p' : Pc} {n : Notice} (t : Tally)
    → Move f p f' p' n
    → IsTally t
    → Agrees f (plus (one p) t)
    → Agrees f' (notified n (plus (one p') t))
unfolding drain lock try_lock unlock lock_shared try_lock_shared unlock_shared
Move-Agrees t call_lock k a = ground arith
Move-Agrees t resume_lock k a = ground arith
Move-Agrees t resume_drain k a = ground arith
Move-Agrees t call_try_lock k a = ground arith
Move-Agrees t call_unlock k a = ground arith
Move-Agrees t call_shared k a = ground arith
Move-Agrees t resume_shared k a = ground arith
Move-Agrees t call_try_shared k a = ground arith
Move-Agrees t call_unlock_shared k a = ground arith
