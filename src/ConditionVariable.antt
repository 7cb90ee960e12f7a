-- ===== src/ConditionVariable.antt =====
-- src/thread/conditionvariable.cpp and include/qc/thread/conditionvariable.h, and the wait of an idle
-- worker in src/scheduler/scheduler.cpp.
pub mod Timeout
mod Tests
use qc.Base.{Option, none, some, ℕ, ◌+◌, ◌*◌, ◌%◌, ◌^◌, ◌≤◌, ◌<◌, ◌≡◌, Bool, true, false, ◌==◌}
use qc.Thread.{abstime, billion}
use qc.Locks.{LockSystem, Mutex, mutex_lockable, Guarded, scope, unscope}

-- The condition variables of pthread. `wait` and `timedwait` have the mutex of the caller back when they
-- return, whatever other threads did to it meanwhile. `timedwait` is called at a time, in nanoseconds,
-- with the time to wait until; it gives its result and the time at which it returns. If that time is
-- past at the call, the result is the error ETIMEDOUT, which is not 0.
pub record CondSystem (locks : LockSystem) : Type 1 where
  pub Cond : Type 0
  pub init : Cond
  pub signal : Cond → Cond
  pub broadcast : Cond → Cond
  pub wait : Cond → locks.Lock → locks.Lock
  pub timedwait : Cond → locks.Lock → ℕ → ℕ × ℕ → ℕ × ℕ × locks.Lock
  pub etimedout : ℕ
  pub etimedout_error : (etimedout == 0) ≡ false
  pub wait_holds : (c : Cond) (l : locks.Lock) → locks.held l ≡ 1 → locks.held (wait c l) ≡ 1
  pub timedwait_holds :
      (c : Cond) (l : locks.Lock) (now : ℕ) (t : ℕ × ℕ)
      → locks.held l ≡ 1
      → locks.held (timedwait c l now t).2 ≡ 1
  pub timedwait_past :
      (c : Cond) (l : locks.Lock) (now tv_sec tv_nsec : ℕ)
      → tv_nsec < billion
      → tv_sec * billion + tv_nsec ≤ now
      → (timedwait c l now (tv_sec, tv_nsec)).0 ≡ etimedout

pub record ConditionVariable (Cond : Type 0) : Type 0 where
  pub m_cond : Cond

module _ (locks : LockSystem) (sys : CondSystem locks) where
  open sys use {Cond, init, signal, broadcast, wait, timedwait}

  abbrev pub new_condition_variable : ConditionVariable Cond
  new_condition_variable = record { m_cond = init }

  unfoldable pub wait_untimed : ConditionVariable Cond → Mutex locks.Lock → Mutex locks.Lock
  wait_untimed v m = record { m_mutex = wait v.m_cond m.m_mutex }

  -- Whether the variable was notified, when the call returns, and the mutex.
  unfoldable pub wait_for :
      ConditionVariable Cond → Mutex locks.Lock → ℕ → ℕ → Bool × ℕ × Mutex locks.Lock
  wait_for v m now nanoseconds =
      let (rt, later, l) = timedwait v.m_cond m.m_mutex now (abstime nanoseconds) in
      (rt == 0, later, record { m_mutex = l })

  -- `waitFor` with a duration in milliseconds, which goes on as a uint64_t.
  unfoldable pub wait_for_milliseconds :
      ConditionVariable Cond → Mutex locks.Lock → ℕ → ℕ → Bool × ℕ × Mutex locks.Lock
  unfolding wait_for
  wait_for_milliseconds v m now ms = wait_for v m now (ms * 1000000 % 2 ^ 64)

  -- A worker without a task: the ScopedLock on `m_cv_mutex`, `waitFor`, and the end of the lock, with the
  -- time after it. There is none while another worker has the mutex.
  unfoldable pub idle_wait :
      ConditionVariable Cond
      → ℕ
      → ℕ
      → Guarded (Mutex locks.Lock)
      → Option (ℕ × Guarded (Mutex locks.Lock))
  unfolding wait_for_milliseconds
  idle_wait v now k g = elim (scope (mutex_lockable locks) k g) [
    | none ↦ none
    | some g' ↦
        let (notified, later, m) = wait_for_milliseconds v g'.mutex now 100 in
        some (later, unscope (mutex_lockable locks) k (record g' { mutex = m }))
  ]

  abbrev pub notify_one : ConditionVariable Cond → ConditionVariable Cond
  notify_one v = record { m_cond = signal v.m_cond }

  abbrev pub notify_all : ConditionVariable Cond → ConditionVariable Cond
  notify_all v = record { m_cond = broadcast v.m_cond }
