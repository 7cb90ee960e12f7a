-- ===== src/ConditionVariable/Timeout.antt =====
-- src/thread/conditionvariable.cpp: how long a wait with a time limit lasts, and that of an idle worker.
use qc.Base.{ℕ, suc, ◌*◌, ◌%◌, ◌^◌, ◌≤◌, ◌≡◌, ap, ◌∙◌, refl, false, some, ◌==◌, update, arith}
use native.Mathlib.Nat.{mod-le}
use qc.Thread.{abstime}
use qc.Thread.Deadline.{abstime_lem}
use qc.Locks.{LockSystem, Mutex, mutex_lockable, lock_mutex, Guarded, scope, unscope}
use qc.ConditionVariable.{CondSystem, ConditionVariable, wait_for, wait_for_milliseconds, idle_wait}

module _ (locks : LockSystem) (sys : CondSystem locks) where
  open sys use {Cond, timedwait, etimedout_error, timedwait_past, timedwait_holds, wait_holds}

  abbrev held : Mutex locks.Lock → ℕ
  held m = locks.held m.m_mutex

  wait_for_past :
      (v : ConditionVariable Cond) (m : Mutex locks.Lock) (now nanoseconds : ℕ)
      → nanoseconds ≤ now
      → held m ≡ 1
      → ((wait_for locks sys v m now nanoseconds).0 ≡ false)
        × (held (wait_for locks sys v m now nanoseconds).2 ≡ 1)
  unfolding wait_for
  wait_for_past v m now nanoseconds h mine =
      let t = abstime nanoseconds in
      let lem = abstime_lem nanoseconds now h in
      let past = timedwait_past v.m_cond m.m_mutex now t.0 t.1 lem.1 lem.2 in
      (ap (λ r. r == 0) past ∙ etimedout_error, timedwait_holds v.m_cond m.m_mutex now t mine)

  -- `waitFor` with a duration in milliseconds, called with its mutex held at a time that is at least as
  -- long after 1970 as the duration, says that the time is over, notified or not; the caller has its
  -- mutex, as before.
  pub wait_for_milliseconds_lem :
      (v : ConditionVariable Cond) (m : Mutex locks.Lock) (now ms : ℕ)
      → ms * 1000000 ≤ now
      → held m ≡ 1
      → ((wait_for_milliseconds locks sys v m now ms).0 ≡ false)
        × (held (wait_for_milliseconds locks sys v m now ms).2 ≡ 1)
  unfolding wait_for_milliseconds
  wait_for_milliseconds_lem v m now ms h mine =
      wait_for_past v m now (ms * 1000000 % 2 ^ 64)
        (omega (arith, h, mod-le (ms * 1000000) (2 ^ 64))) mine

  -- A worker that has `m_cv_mutex`.
  abbrev waiting : ℕ → Guarded (Mutex locks.Lock) → Mutex locks.Lock → Guarded (Mutex locks.Lock)
  waiting k g m = record { mutex = m; guards = update g.guards k (suc (g.guards k)) }

  scope_free :
      (k : ℕ) (g : Guarded (Mutex locks.Lock)) (l : locks.Lock)
      → locks.lock g.mutex.m_mutex ≡ some l
      → scope (mutex_lockable locks) k g ≡ some (waiting k g (record { m_mutex = l }))
  unfolding scope lock_mutex
  scope_free k g l took = rw (scope, lock_mutex, took) refl

  unscope_free :
      (k : ℕ) (g : Guarded (Mutex locks.Lock))
      → held g.mutex ≡ 1
      → held (unscope (mutex_lockable locks) k g).mutex ≡ 0
  unfolding unscope
  unscope_free k g mine = locks.unlock_frees g.mutex.m_mutex mine

  -- An idle worker that finds `m_cv_mutex` free is done with its wait, and leaves the mutex
  -- free.
  pub idle_lem :
      (v : ConditionVariable Cond) (now k : ℕ) (g : Guarded (Mutex locks.Lock))
      → 100000000 ≤ now
      → held g.mutex ≡ 0
      → (later : ℕ) × (g' : Guarded (Mutex locks.Lock)) × (idle_wait locks sys v now k g
          ≡ some (later, g'))
        × (held g'.mutex ≡ 0)
  unfolding idle_wait
  idle_lem v now k g late free =
      let (l, took) = locks.lock_succeeds g.mutex.m_mutex free in
      let m : Mutex locks.Lock = record { m_mutex = l } in
      let r = wait_for_milliseconds locks sys v m now 100 in
      let lem =
        wait_for_milliseconds_lem v m now 100 (omega (arith, late))
          (locks.lock_takes g.mutex.m_mutex l took).1 in
      let g' : Guarded (Mutex locks.Lock) = unscope (mutex_lockable locks) k (waiting k g r.2) in
      (r.1, g', rw (idle_wait, scope_free k g l took) refl, unscope_free k (waiting k g r.2) lem.1)
