-- ===== src/SharedMutex/Invariant.antt =====
-- What the flag says of the threads, by how many stand where.
use dev_essential.Base.{
  ℕ, ◌+◌, ◌-◌, ◌/◌, ◌%◌, ◌^◌, ◌≤◌, ◌<◌, List, [], ◌∷◌, ◌++◌, map, ◌≡◌, refl, ◌⊎◌, arith,
}
use dev_essential.SharedMutex.{Notice, nobody, all_cond1, one_cond1, one_cond2}
use dev_essential.SharedMutex.Threads.{
  Pc, drain_asleep, drain_awake, writing, reading, at_cond1, at_cond2, wake_cond1, wake_cond2,
  Notified, no_notice, notify_all, notify_cond1, nobody_at_cond1, notify_cond2, nobody_at_cond2,
  count,
}

abbrev pub reads : Pc → ℕ
reads reading = 1
reads p = 0

abbrev pub writes : Pc → ℕ
writes writing = 1
writes p = 0

-- A thread that has set the writer's bit.
abbrev pub owns : Pc → ℕ
owns drain_asleep = 1
owns drain_awake = 1
owns writing = 1
owns p = 0

-- How many threads stand where.
pub record Tally : Type 0 where
  pub all : ℕ
  pub readers : ℕ
  pub owners : ℕ
  pub writers : ℕ
  pub sleepers1 : ℕ
  pub sleepers2 : ℕ

abbrev pub one : Pc → Tally
one p = record {
  all = 1;
  readers = reads p;
  owners = owns p;
  writers = writes p;
  sleepers1 = at_cond1 p;
  sleepers2 = at_cond2 p;
}

abbrev pub plus : Tally → Tally → Tally
plus s t = record {
  all = s.all + t.all;
  readers = s.readers + t.readers;
  owners = s.owners + t.owners;
  writers = s.writers + t.writers;
  sleepers1 = s.sleepers1 + t.sleepers1;
  sleepers2 = s.sleepers2 + t.sleepers2;
}

abbrev pub no_threads : Tally
no_threads = record { all = 0; readers = 0; owners = 0; writers = 0; sleepers1 = 0; sleepers2 = 0 }

unfoldable pub tally : List Pc → Tally
tally [] = no_threads
tally (p ∷ ps) = plus (one p) (tally ps)

pub record IsTally (t : Tally) : Type 0 where
  pub some_read : t.readers ≤ t.all
  pub some_own : t.writers + t.sleepers2 ≤ t.owners

pub tally-IsTally : (ps : List Pc) → IsTally (tally ps)
unfolding tally
tally-IsTally [] = omega arith
tally-IsTally (p ∷ ps) = ground (arith, tally-IsTally ps)

pub tally_middle :
    (before after : List Pc) (p : Pc)
    → tally (before ++ p ∷ after) ≡ plus (one p) (tally (before ++ after))
unfolding tally
tally_middle [] after p = refl
tally_middle (q ∷ before) after p = ground (arith, tally_middle before after p)

pub count-tally :
    (ps : List Pc)
    → (count at_cond1 ps ≡ (tally ps).sleepers1)
      × (count at_cond2 ps ≡ (tally ps).sleepers2)
      × (count reads ps ≡ (tally ps).readers)
      × (count writes ps ≡ (tally ps).writers)
      × (count owns ps ≡ (tally ps).owners)
unfolding tally count
count-tally [] = (refl, refl, refl, refl, refl)
count-tally (p ∷ ps) = ground (arith, count-tally ps)

abbrev pub notified : Notice → Tally → Tally
notified nobody t = t
notified all_cond1 t = record t { sleepers1 = 0 }
notified one_cond1 t = record t { sleepers1 = t.sleepers1 - 1 }
notified one_cond2 t = record t { sleepers2 = t.sleepers2 - 1 }

tally-map_wake : (ps : List Pc) → tally (map wake_cond1 ps) ≡ record (tally ps) { sleepers1 = 0 }
unfolding tally
tally-map_wake [] = refl
tally-map_wake (p ∷ ps) = ground (arith, tally-map_wake ps)

-- A notice changes the tally as its name says.
pub tally-Notified :
    {n : Notice} {ps qs : List Pc} → Notified n ps qs → tally qs ≡ notified n (tally ps)
tally-Notified no_notice = refl
tally-Notified (notify_all {ps}) = tally-map_wake ps
tally-Notified (notify_cond1 before after p waits) =
    rw (tally_middle before after p, tally_middle before after (wake_cond1 p)) (ground arith)
tally-Notified (nobody_at_cond1 {ps} nobody_waits) = ground (arith, count-tally ps)
tally-Notified (notify_cond2 before after p waits) =
    rw (tally_middle before after p, tally_middle before after (wake_cond2 p)) (ground arith)
tally-Notified (nobody_at_cond2 {ps} nobody_waits) = ground (arith, count-tally ps)

-- The flag holds the numbers of readers and of owners; at most one thread owns the writer's bit,
-- and none writes beside a reader; a thread sleeps only while what it waits for has not come.
pub record Agrees (f : ℕ) (t : Tally) : Type 0 where
  pub few : t.all < 2 ^ 31 - 1
  pub counted : f % 2 ^ 31 ≡ t.readers
  pub marked : f / 2 ^ 31 ≡ t.owners
  pub single : t.owners ≤ 1
  pub apart : (t.writers ≡ 0) ⊎ (t.readers ≡ 0)
  pub held1 : (t.sleepers1 ≡ 0) ⊎ (t.owners ≡ 1)
  pub held2 : (t.sleepers2 ≡ 0) ⊎ (1 ≤ t.readers)
