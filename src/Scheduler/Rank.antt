-- ===== src/Scheduler/Rank.antt =====
-- src/scheduler/scheduler.cpp, `run` after `stop`: how far a worker is from the end of its loop.
use qc.Base.{
  ℕ, ◌+◌, ◌-◌, ◌*◌, ◌≤◌, Bool, true, false, none, some, if◌then◌else◌, sum, arith, length,
}
use qc.Coroutine.{is_finished}
use qc.Scheduler.{Scheduler}
use qc.Scheduler.Worker.{
  Worker, looping, pick_own, take_own, pick_global, take_global, pick_steal, take_steal, picked,
  pool_check, pool_take, resuming, settling, exited, null_call, assertion,
}

abbrev pub behind : ℕ → Bool → ℕ
behind n true = 0
behind n false = n + 5

module _ {F : Type 0} where
  abbrev pub queued : Scheduler F → ℕ
  queued s = sum s.threads_count (λ j. length (s.thread_tasks j)) + length s.global_tasks

  -- A worker that has not left `run`, nor called through a null pointer, nor failed an assertion.
  abbrev pub is_live : Worker F → Bool
  is_live exited = false
  is_live null_call = false
  is_live assertion = false
  is_live _ = true

  -- A step that puts a suspended coroutine back in a queue.
  abbrev pub requeues : Scheduler F → Worker F → ℕ
  requeues s (settling d c) = if is_finished (s.coros c).status then 0 else 1
  requeues s _ = 0

  -- With `n` threads: more than the steps to the end of `run` if no further task is taken.
  unfoldable pub rank : ℕ → Worker F → ℕ
  rank n looping = n + 5
  rank n (pick_own d) = behind n d + n + 4
  rank n (take_own d) = behind n d + 2
  rank n (pick_global d) = behind n d + n + 3
  rank n (take_global d) = behind n d + 2
  rank n (pick_steal d i) = behind n d + (n - i) + 2
  rank n (take_steal d x) = behind n d + 2
  rank n (picked d none) = behind n d + 1
  rank n (picked d (some t)) = n + 10
  rank n (pool_check d f) = n + 9
  rank n (pool_take d f) = n + 8
  rank n (resuming d c) = n + 7
  rank n (settling d c) = n + 6
  rank n exited = 0
  rank n null_call = 0
  rank n assertion = 0

  pub rank_bound : (n : ℕ) (v : Worker F) → rank n v ≤ 2 * n + 10
  unfolding rank
  rank_bound n (pick_own true) = omega arith
  rank_bound n (pick_own false) = omega arith
  rank_bound n (take_own true) = omega arith
  rank_bound n (take_own false) = omega arith
  rank_bound n (pick_global true) = omega arith
  rank_bound n (pick_global false) = omega arith
  rank_bound n (take_global true) = omega arith
  rank_bound n (take_global false) = omega arith
  rank_bound n (pick_steal true i) = omega arith
  rank_bound n (pick_steal false i) = omega arith
  rank_bound n (take_steal true x) = omega arith
  rank_bound n (take_steal false x) = omega arith
  rank_bound n (picked true none) = omega arith
  rank_bound n (picked false none) = omega arith
  rank_bound n (picked d (some t)) = omega arith
  rank_bound n looping = omega arith
  rank_bound n (pool_check d f) = omega arith
  rank_bound n (pool_take d f) = omega arith
  rank_bound n (resuming d c) = omega arith
  rank_bound n (settling d c) = omega arith
  rank_bound n exited = omega arith
  rank_bound n null_call = omega arith
  rank_bound n assertion = omega arith
