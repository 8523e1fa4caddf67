-- ===== src/SharedMutex/Safety.antt =====
-- What holds whenever threads lock and unlock in any order.
use dev_essential.Base.{
  ℕ, zero, suc, ◌+◌, ◌-◌, ◌^◌, ◌≤◌, ◌<◌, List, [], ◌∷◌, ◌++◌, ◌≡◌, refl, ◌⊎◌, inl, inr, arith,
  get_elem?, some, ◌≢◌, ap, ◌∙◌,
}
use mathlib.Core.Path.{subst}
use native.Mathlib.Decide.{dec_lt}
use dev_essential.SharedMutex.Threads.{
  Pc, writing, reading, drain_awake, wake_cond1, wake_cond2, at_cond1, at_cond2, System, Step, move,
  spurious1, spurious2, all_outside, Reach, start, later, count,
}
use dev_essential.SharedMutex.Invariant.{
  Tally, one, plus, tally, tally_middle, tally-IsTally, tally-Notified, IsTally, Agrees, reads,
  writes, owns, count-tally, no_threads,
}
use dev_essential.SharedMutex.Moves.{Move-Agrees}

pub IsSound : System → Type 0
IsSound s = Agrees s.flag (tally s.threads)

wake1-Agrees :
    (f : ℕ) (p : Pc) (t : Tally)
    → Agrees f (plus (one p) t)
    → Agrees f (plus (one (wake_cond1 p)) t)
wake1-Agrees f p t a = ground arith

wake2-Agrees :
    (f : ℕ) (p : Pc) (t : Tally)
    → Agrees f (plus (one p) t)
    → Agrees f (plus (one (wake_cond2 p)) t)
wake2-Agrees f p t a = ground arith

pub Step-IsSound : {s t : System} → Step s t → IsSound s → IsSound t
unfolding IsSound
Step-IsSound (move {f} {f'} {p} {p'} {notice} before after m woken) a =
    rw (tally-Notified woken, tally_middle before after p')
      (Move-Agrees (tally (before ++ after)) m (tally-IsTally (before ++ after))
        (subst (Agrees f) (tally_middle before after p) a))
Step-IsSound (spurious1 {f} before after p) a =
    rw (tally_middle before after (wake_cond1 p)) (
      wake1-Agrees f p (tally (before ++ after)) (subst (Agrees f) (tally_middle before after p) a))
Step-IsSound (spurious2 {f} before after p) a =
    rw (tally_middle before after (wake_cond2 p)) (
      wake2-Agrees f p (tally (before ++ after)) (subst (Agrees f) (tally_middle before after p) a))

none_inside : (n : ℕ) → tally (all_outside n) ≡ record no_threads { all = n }
unfolding tally
none_inside zero = refl
none_inside (suc n) = ground (arith, none_inside n)

outside-IsSound : (n : ℕ) → n < 2 ^ 31 - 1 → IsSound (record { flag = 0; threads = all_outside n })
unfolding IsSound
outside-IsSound n few = rw (none_inside n) (ground arith)

-- However fewer than 2 ^ 31 - 1 threads are scheduled, woken and notified, the flag holds the number
-- of readers and whether a writer has set its bit; at most one has, none writes beside a reader, and
-- a thread sleeps only while what it waits for has not come.
pub Reach-IsSound : {n : ℕ} {s : System} → n < 2 ^ 31 - 1 → Reach n s → IsSound s
Reach-IsSound {n} few start = outside-IsSound n few
Reach-IsSound few (later r step) = Step-IsSound step (Reach-IsSound few r)

count_at : (w : Pc → ℕ) (ps : List Pc) (i : ℕ) (p : Pc) → get_elem? ps i ≡ some p → w p ≤ count w ps
unfolding count
count_at w [] i p at_i = ground arith
count_at w (q ∷ ps) zero p at_i = ground arith
count_at w (q ∷ ps) (suc i) p at_i = omega (arith, count_at w ps i p at_i)

count_two :
    (w : Pc → ℕ) (ps : List Pc) (i j : ℕ) (p q : Pc)
    → i < j
    → get_elem? ps i ≡ some p
    → get_elem? ps j ≡ some q
    → w p + w q ≤ count w ps
unfolding count
count_two w [] i j p q below at_i at_j = ground arith
count_two w (r ∷ ps) i zero p q below at_i at_j = omega arith
count_two w (r ∷ ps) zero (suc j) p q below at_i at_j = ground (arith, count_at w ps j q at_j)
count_two w (r ∷ ps) (suc i) (suc j) p q below at_i at_j =
    omega (arith, count_two w ps i j p q (omega arith) at_i at_j)

count_find :
    (w : Pc → ℕ) (ps : List Pc)
    → 1 ≤ count w ps
    → (i : ℕ) × (p : Pc) × (get_elem? ps i ≡ some p) × (1 ≤ w p)
unfolding count
count_find w [] some_there = absurd (omega arith)
count_find w (p ∷ ps) some_there = elim (dec_lt 0 (w p)) [
  | yes here ↦ (0, p, refl, here)
  | no other ↦ let (i, q, at_i, has) = count_find w ps (omega arith) in (suc i, q, at_i, has)
]

order : (i j : ℕ) → i ≢ j → (i < j) ⊎ (j < i)
order i j apart = ground arith

-- In every reachable state of fewer than 2 ^ 31 - 1 threads: while a thread holds the mutex for
-- itself, no other holds it, for itself or shared.
pub mutual_exclusion :
    {n : ℕ} {s : System}
    → n < 2 ^ 31 - 1
    → Reach n s
    → (i j : ℕ) (p : Pc) → i ≢ j
    → get_elem? s.threads i ≡ some writing
    → get_elem? s.threads j ≡ some p
    → (p ≢ writing) × (p ≢ reading)
unfolding IsSound
mutual_exclusion {n} {s} few r i j p apart at_i at_j = (
  λ also. elim (order i j apart) [
    | inl below ↦ absurd (
        omega (
          arith,
          counts.3,
          counts.4,
          k.some_own,
          a.single,
          count_two writes s.threads i j writing writing below at_i (at_j ∙ ap some also),
        ))
    | inr above ↦ absurd (
        omega (
          arith,
          counts.3,
          k.some_own,
          a.single,
          count_two writes s.threads j i writing writing above (at_j ∙ ap some also) at_i,
        ))
  ],
  λ reads_too.
      let one_writes = count_at writes s.threads i writing at_i in
      let one_reads = count_at reads s.threads j reading (at_j ∙ ap some reads_too) in
      elim a.apart [
        | inl none_write ↦ absurd (omega (arith, counts.3, one_writes, none_write))
        | inr none_read ↦ absurd (omega (arith, counts.2, one_reads, none_read))
      ],
)
  where
    a : Agrees s.flag (tally s.threads)
    a = Reach-IsSound few r

    k : IsTally (tally s.threads)
    k = tally-IsTally s.threads

    counts :
        (count at_cond1 s.threads ≡ (tally s.threads).sleepers1)
        × (count at_cond2 s.threads ≡ (tally s.threads).sleepers2)
        × (count reads s.threads ≡ (tally s.threads).readers)
        × (count writes s.threads ≡ (tally s.threads).writers)
        × (count owns s.threads ≡ (tally s.threads).owners)
    counts = count-tally s.threads

-- A thread that holds the mutex, or a writer that is awake.
abbrev pub can_run : Pc → ℕ
can_run writing = 1
can_run reading = 1
can_run drain_awake = 1
can_run p = 0

owners_run : (ps : List Pc) → count owns ps + count reads ps ≤ count at_cond2 ps + count can_run ps
unfolding count
owners_run [] = omega arith
owners_run (p ∷ ps) = ground (arith, owners_run ps)

-- In every reachable state of fewer than 2 ^ 31 - 1 threads: while a thread sleeps, some thread
-- holds the mutex or is a woken writer, so no wake-up is lost for good.
pub sleeper_awaits :
    {n : ℕ} {s : System}
    → n < 2 ^ 31 - 1
    → Reach n s
    → (i : ℕ) (p : Pc) → get_elem? s.threads i ≡ some p
    → 1 ≤ at_cond1 p + at_cond2 p
    → (j : ℕ) × (q : Pc) × (get_elem? s.threads j ≡ some q) × (1 ≤ can_run q)
unfolding IsSound
sleeper_awaits {n} {s} few r i p at_i sleeps = count_find can_run s.threads (
    someone (tally s.threads) (count-tally s.threads) (Reach-IsSound few r)
      (tally-IsTally s.threads))
  where
    someone :
        (t : Tally)
        → (count at_cond1 s.threads ≡ t.sleepers1)
          × (count at_cond2 s.threads ≡ t.sleepers2)
          × (count reads s.threads ≡ t.readers)
          × (count writes s.threads ≡ t.writers)
          × (count owns s.threads ≡ t.owners)
        → Agrees s.flag t
        → IsTally t
        → 1 ≤ count can_run s.threads
    someone t counts a k = ground (
      arith,
      owners_run s.threads,
      count_at at_cond1 s.threads i p at_i,
      count_at at_cond2 s.threads i p at_i,
    )
