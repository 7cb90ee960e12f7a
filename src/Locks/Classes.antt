-- ===== src/Locks/Classes.antt =====
-- include/qc/thread/mutex.h: which of the lock classes are exclusive.
use qc.Base.{refl, Option-cases, inl, inr, arith}
use qc.Locks.{
  LockSystem, Exclusive, null_mutex, null_lockable, new_mutex, lock_mutex, mutex_lockable,
  new_spin_lock, lock_spin, spin_lockable,
}

module _ (sys : LockSystem) where
  pub mutex-Exclusive : Exclusive (mutex_lockable sys) (new_mutex sys)
  unfolding lock_mutex
  mutex-Exclusive = record {
    held = λ m. sys.held m.m_mutex;
    new_free = sys.init_free;
    lock_takes = λ m m' e. elim (Option-cases (sys.lock m.m_mutex)) [
      | inl waits ↦ absurd (ground arith)
      | inr (l, took) ↦ ground (arith, sys.lock_takes m.m_mutex l took)
    ];
    lock_succeeds = λ m free.
        let (l, took) = sys.lock_succeeds m.m_mutex free in
        (record { m_mutex = l }, rw (lock_mutex, took) refl);
    unlock_frees = λ m taken. sys.unlock_frees m.m_mutex taken;
  }

  pub spin-Exclusive : Exclusive (spin_lockable sys) (new_spin_lock sys)
  unfolding lock_spin
  spin-Exclusive = record {
    held = λ m. sys.held m.m_mutex;
    new_free = sys.init_free;
    lock_takes = λ m m' e. elim (Option-cases (sys.lock m.m_mutex)) [
      | inl waits ↦ absurd (ground arith)
      | inr (l, took) ↦ ground (arith, sys.lock_takes m.m_mutex l took)
    ];
    lock_succeeds = λ m free.
        let (l, took) = sys.lock_succeeds m.m_mutex free in
        (record { m_mutex = l }, rw (lock_spin, took) refl);
    unlock_frees = λ m taken. sys.unlock_frees m.m_mutex taken;
  }

-- A NullMutex is given out while it is held.
null-Exclusive : ¬ (Exclusive null_lockable null_mutex)
null-Exclusive x =
    let taken = x.lock_takes null_mutex null_mutex refl in absurd (omega (arith, taken.0, taken.1))
