-- ===== src/SharedMutex.antt =====
-- `shared_mutex` of src/concurrency/shared_mutex.cpp, under threads that lock and unlock it. `flag`
-- is the bit pattern of the int32_t: its sign bit marks a writer, the other bits count the readers.
pub mod Threads
pub mod Invariant
pub mod Moves
pub mod Safety
mod Tests
use dev_essential.Base.{
  ℕ, ◌+◌, ◌-◌, ◌*◌, ◌/◌, ◌%◌, ◌^◌, Bool, true, false, not, ◌&&◌, ◌||◌, ltb, ◌==◌, if◌then◌else◌,
}

abbrev pub write_lock_active : ℕ
write_lock_active = 2 ^ 31

abbrev pub max_readers : ℕ
max_readers = 2 ^ 31 - 1

-- `flag & write_lock_active` as a truth value, and `flag & max_readers`.
abbrev pub has_writer : ℕ → Bool
has_writer flag = flag / 2 ^ 31 % 2 == 1

abbrev pub readers_of : ℕ → ℕ
readers_of flag = flag % 2 ^ 31

-- `flag |= write_lock_active`
abbrev pub set_writer : ℕ → ℕ
set_writer flag = 2 ^ 31 + flag % 2 ^ 31

-- `flag &= ~max_readers; flag |= readers`
abbrev pub set_readers : ℕ → ℕ → ℕ
set_readers flag readers = flag / 2 ^ 31 % 2 * 2 ^ 31 + readers

-- Whom an operation wakes: a thread that waits at `cond1`, or at `cond2`.
pub data Notice : Type 0 where
  nobody : Notice
  all_cond1 : Notice
  one_cond1 : Notice
  one_cond2 : Notice

-- How a piece of code that runs under `mtx` ends: it waits or goes on.
pub data Outcome : Type 0 where
  waits_cond1 : Outcome
  waits_cond2 : Outcome
  acquired : Outcome

-- The second loop of `lock`.
unfoldable pub drain : ℕ → ℕ × Outcome
drain flag = if not (readers_of flag == 0) then (flag, waits_cond2) else (flag, acquired)

-- `lock`, from its first loop on.
unfoldable pub lock : ℕ → ℕ × Outcome
unfolding drain
lock flag = if has_writer flag then (flag, waits_cond1) else drain (set_writer flag)

unfoldable pub try_lock : ℕ → ℕ × Bool
try_lock flag = if flag == 0 then (write_lock_active, true) else (flag, false)

unfoldable pub unlock : ℕ → ℕ × Notice
unlock flag = (0, all_cond1)

unfoldable pub lock_shared : ℕ → ℕ × Outcome
lock_shared flag =
    if has_writer flag || readers_of flag == max_readers
    then (flag, waits_cond1)
    else (set_readers flag (readers_of flag + 1), acquired)

unfoldable pub try_lock_shared : ℕ → ℕ × Bool
try_lock_shared flag =
    if not (has_writer flag) && not (readers_of flag == max_readers)
    then (set_readers flag (readers_of flag + 1), true)
    else (flag, false)

-- `readers` is -1 where there are none: nothing is done then.
unfoldable pub unlock_shared : ℕ → ℕ × Notice
unlock_shared flag =
    if readers_of flag == 0
    then (flag, nobody)
    else (let readers = readers_of flag - 1 in
        let flag' = set_readers flag readers in
        if has_writer flag'
        then (flag', (if readers == 0 then one_cond2 else nobody))
        else (flag', (if readers == max_readers - 1 then one_cond1 else nobody)))
