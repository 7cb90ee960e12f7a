-- ===== src/Scheduler/Cover.antt =====
-- src/scheduler/scheduler.cpp, `run` after `stop`: which worker has yet to look at which queue.
use qc.Base.{ℕ, ◌+◌, ◌%◌, ◌≤◌, ◌<◌, ◌≡◌, ◌≢◌, Bool, true, false, none, length}
use qc.Scheduler.{Scheduler}
use qc.Scheduler.Worker.{
  Worker, looping, pick_own, take_own, pick_global, take_global, pick_steal, take_steal, picked,
  pool_check, pool_take, resuming, settling, exited, null_call, assertion,
}

-- A queue of tasks: that of a thread, or the one of all threads.
pub data Queue : Type 0 where
  own : (thread_idx : ℕ) → Queue
  global : Queue

module _ {F : Type 0} where
  abbrev pub size : Scheduler F → Queue → ℕ
  size s (own q) = length (s.thread_tasks q)
  size s global = length s.global_tasks

  abbrev pub Known : Scheduler F → Queue → Type 0
  Known s (own q) = q < s.threads_count
  Known s global = Unit

  -- Worker `k` will look at the queue again before it leaves `run`, or take a task first.
  abbrev pub Covers : Scheduler F → ℕ → Worker F → Queue → Type 0
  Covers s k (take_own true) r = 0 < size s (own k)
  Covers s k (pick_global true) r = r ≢ own k
  Covers s k (take_global true) r = 0 < size s global
  Covers s k (pick_steal true i) r =
      (j : ℕ) × (i ≤ j)
      × (j < s.threads_count)
      × ((k + 1 + j) % s.threads_count ≢ k)
      × (r ≡ own ((k + 1 + j) % s.threads_count))
  Covers s k (take_steal true x) r = 0 < size s (own x)
  Covers s k (picked true none) r = ⊥
  Covers s k exited r = ⊥
  Covers s k _ r = Unit

  -- The worker has seen that the scheduler stopped.
  abbrev pub drains : Worker F → Bool
  drains looping = false
  drains (pick_own d) = d
  drains (take_own d) = d
  drains (pick_global d) = d
  drains (take_global d) = d
  drains (pick_steal d i) = d
  drains (take_steal d x) = d
  drains (picked d t) = d
  drains (pool_check d f) = d
  drains (pool_take d f) = d
  drains (resuming d c) = d
  drains (settling d c) = d
  drains exited = true
  drains null_call = false
  drains assertion = false

  pub running-Covers :
      (s : Scheduler F) (k : ℕ) (v : Worker F) (r : Queue) → drains v ≡ false → Covers s k v r
  running-Covers s k looping r e = tt
  running-Covers s k (pick_own d) r e = tt
  running-Covers s k (take_own false) r e = tt
  running-Covers s k (take_own true) r e = cc
  running-Covers s k (pick_global false) r e = tt
  running-Covers s k (pick_global true) r e = cc
  running-Covers s k (take_global false) r e = tt
  running-Covers s k (take_global true) r e = cc
  running-Covers s k (pick_steal false i) r e = tt
  running-Covers s k (pick_steal true i) r e = cc
  running-Covers s k (take_steal false x) r e = tt
  running-Covers s k (take_steal true x) r e = cc
  running-Covers s k (picked false t) r e = tt
  running-Covers s k (picked true t) r e = cc
  running-Covers s k (pool_check d f) r e = tt
  running-Covers s k (pool_take d f) r e = tt
  running-Covers s k (resuming d c) r e = tt
  running-Covers s k (settling d c) r e = tt
  running-Covers s k exited r e = cc
  running-Covers s k null_call r e = tt
  running-Covers s k assertion r e = tt
