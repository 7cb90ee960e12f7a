-- ===== src/Scheduler/Steady.antt =====
-- src/scheduler/scheduler.cpp, `run`: what a step of a worker leaves of the scheduler as it was, and
-- when the worker enters its second loop.
use qc.Base.{ℕ, ◌≡◌, true, false, none, some, arith}
use qc.Coroutine.{Outcome}
use qc.Scheduler.{Scheduler}
use qc.Scheduler.Worker.{
  Worker, looping, pick_own, take_own, pick_global, take_global, pick_steal, take_steal, picked,
  pool_check, pool_take, resuming, settling, exited, null_call, assertion, work,
}
use qc.Scheduler.Cover.{drains}

module _ {F : Type 0} (k : ℕ) (s : Scheduler F) where
  -- The step leaves the number of threads and the flag, and the worker does not enter the second loop
  -- while the flag is off.
  abbrev pub IsSteady : Worker F → Scheduler F × Worker F → Type 0
  IsSteady v r =
      (r.0.threads_count ≡ s.threads_count)
      × (r.0.stopped ≡ s.stopped)
      × (s.stopped ≡ false → drains v ≡ false → drains r.1 ≡ false)

  pub work-IsSteady : (v : Worker F) (o : Outcome) → IsSteady v (work k s v o)
  unfolding work
  work-IsSteady looping o = ground arith
  work-IsSteady (pick_own d) o = ground arith
  work-IsSteady (take_own d) o = ground arith
  work-IsSteady (pick_global d) o = ground arith
  work-IsSteady (take_global d) o = ground arith
  work-IsSteady (pick_steal d i) o = ground arith
  work-IsSteady (take_steal d x) o = ground arith
  work-IsSteady (picked true none) o = ground arith
  work-IsSteady (picked false none) o = ground arith
  work-IsSteady (picked d (some t)) o = ground arith
  work-IsSteady (pool_check d f) o = ground arith
  work-IsSteady (pool_take d f) o = ground arith
  work-IsSteady (resuming d c) o = ground arith
  work-IsSteady (settling true c) o = ground arith
  work-IsSteady (settling false c) o = ground arith
  work-IsSteady exited o = ground arith
  work-IsSteady null_call o = ground arith
  work-IsSteady assertion o = ground arith
