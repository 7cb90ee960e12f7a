-- ===== src/Locks.antt =====
-- include/qc/thread/mutex.h and include/qc/thread/scopedlock.h: the lock classes over the locks of
-- pthread, and the objects that hold a lock while they live.
pub mod Scoped
pub mod Classes
pub mod Shared
pub mod Tests
use qc.Base.{ℕ, suc, ◌+◌, ◌-◌, ◌≤◌, ◌<◌, ◌≡◌, Option, none, some, update}

-- A mutex or a spin lock of pthread. `lock` gives `none` while the caller has to wait; `held` is 1 for
-- a lock that a thread holds and 0 for a free one.
pub record LockSystem : Type 1 where
  pub Lock : Type 0
  pub init : Lock
  pub lock : Lock → Option Lock
  pub unlock : Lock → Lock
  pub held : Lock → ℕ
  pub init_free : held init ≡ 0
  pub lock_takes : (l m : Lock) → lock l ≡ some m → (held l ≡ 0) × (held m ≡ 1)
  pub lock_succeeds : (l : Lock) → held l ≡ 0 → (m : Lock) × (lock l ≡ some m)
  pub unlock_frees : (l : Lock) → held l ≡ 1 → held (unlock l) ≡ 0

-- A read-write lock of pthread, with the numbers of its holders.
pub record RwLockSystem : Type 1 where
  pub RwLock : Type 0
  pub init : RwLock
  pub rdlock : RwLock → Option RwLock
  pub wrlock : RwLock → Option RwLock
  pub unlock : RwLock → RwLock
  pub readers : RwLock → ℕ
  pub writers : RwLock → ℕ
  pub init_free : (readers init ≡ 0) × (writers init ≡ 0)
  pub rdlock_takes :
      (l m : RwLock)
      → rdlock l ≡ some m
      → (writers l ≡ 0) × (writers m ≡ 0) × (readers m ≡ suc (readers l))
  pub wrlock_takes :
      (l m : RwLock)
      → wrlock l ≡ some m
      → (readers l ≡ 0) × (writers l ≡ 0) × (readers m ≡ 0) × (writers m ≡ 1)
  pub wrlock_succeeds :
      (l : RwLock) → readers l ≡ 0 → writers l ≡ 0 → (m : RwLock) × (wrlock l ≡ some m)
  pub unlock_read :
      (l : RwLock)
      → writers l ≡ 0
      → 0 < readers l
      → (writers (unlock l) ≡ 0) × (suc (readers (unlock l)) ≡ readers l)
  pub unlock_write :
      (l : RwLock) → writers l ≡ 1 → (writers (unlock l) ≡ 0) × (readers (unlock l) ≡ readers l)

-- What the template parameter of ScopedLock has to have, and that of ReadLock and WriteLock.
pub record Lockable (M : Type 0) : Type 0 where
  pub lock : M → Option M
  pub unlock : M → M

pub record SharedLockable (M : Type 0) : Type 0 where
  pub readlock : M → Option M
  pub writelock : M → Option M
  pub unlock : M → M

-- What ScopedLock relies on for its lock to be one thread's: a new lock is free, only a free one is
-- given out, and it is free again after `unlock`.
pub record Exclusive {M : Type 0} (l : Lockable M) (new : M) : Type 0 where
  pub held : M → ℕ
  pub new_free : held new ≡ 0
  pub lock_takes : (m m' : M) → l.lock m ≡ some m' → (held m ≡ 0) × (held m' ≡ 1)
  pub lock_succeeds : (m : M) → held m ≡ 0 → (m' : M) × (l.lock m ≡ some m')
  pub unlock_frees : (m : M) → held m ≡ 1 → held (l.unlock m) ≡ 0

pub record Mutex (Lock : Type 0) : Type 0 where
  pub m_mutex : Lock

pub record SpinLock (Lock : Type 0) : Type 0 where
  pub m_mutex : Lock

pub record RwMutex (RwLock : Type 0) : Type 0 where
  pub m_lock : RwLock

-- NullMutex and NullRWMutex have no member; their operations do nothing.
pub data NullMutex : Type 0 where
  null_mutex : NullMutex

abbrev pub null_lockable : Lockable NullMutex
null_lockable = record { lock = λ m. some m; unlock = λ m. m }

abbrev pub null_shared : SharedLockable NullMutex
null_shared = record { readlock = λ m. some m; writelock = λ m. some m; unlock = λ m. m }

-- Mutex, and SpinLock over the spin locks of pthread.
module _ (sys : LockSystem) where
  abbrev pub new_mutex : Mutex sys.Lock
  new_mutex = record { m_mutex = sys.init }

  unfoldable pub lock_mutex : Mutex sys.Lock → Option (Mutex sys.Lock)
  lock_mutex m = elim (sys.lock m.m_mutex) [ none ↦ none | some l ↦ some (record { m_mutex = l }) ]

  abbrev pub mutex_lockable : Lockable (Mutex sys.Lock)
  mutex_lockable = record {
    lock = lock_mutex;
    unlock = λ m. record { m_mutex = sys.unlock m.m_mutex };
  }

  abbrev pub new_spin_lock : SpinLock sys.Lock
  new_spin_lock = record { m_mutex = sys.init }

  unfoldable pub lock_spin : SpinLock sys.Lock → Option (SpinLock sys.Lock)
  lock_spin m = elim (sys.lock m.m_mutex) [ none ↦ none | some l ↦ some (record { m_mutex = l }) ]

  abbrev pub spin_lockable : Lockable (SpinLock sys.Lock)
  spin_lockable = record {
    lock = lock_spin;
    unlock = λ m. record { m_mutex = sys.unlock m.m_mutex };
  }

module _ (sys : RwLockSystem) where
  abbrev pub new_rw_mutex : RwMutex sys.RwLock
  new_rw_mutex = record { m_lock = sys.init }

  unfoldable pub locked : Option sys.RwLock → Option (RwMutex sys.RwLock)
  locked none = none
  locked (some l) = some (record { m_lock = l })

  abbrev pub rw_shared : SharedLockable (RwMutex sys.RwLock)
  rw_shared = record {
    readlock = λ m. locked (sys.rdlock m.m_lock);
    writelock = λ m. locked (sys.wrlock m.m_lock);
    unlock = λ m. record { m_lock = sys.unlock m.m_lock };
  }

-- A mutex and how many ScopedLock objects on it each thread has.
pub record Guarded (M : Type 0) : Type 0 where
  pub mutex : M
  pub guards : ℕ → ℕ

-- A mutex and the ReadLock and WriteLock objects on it of each thread.
pub record SharedGuarded (M : Type 0) : Type 0 where
  pub mutex : M
  pub reads : ℕ → ℕ
  pub writes : ℕ → ℕ

-- The constructors, which return once the lock is theirs, and the destructors, in thread `k`.
module _ {M : Type 0} (l : Lockable M) where
  unfoldable pub scope : ℕ → Guarded M → Option (Guarded M)
  scope k g = elim (l.lock g.mutex) [
    | none ↦ none
    | some m ↦ some (record { mutex = m; guards = update g.guards k (suc (g.guards k)) })
  ]

  unfoldable pub unscope : ℕ → Guarded M → Guarded M
  unscope k g = record { mutex = l.unlock g.mutex; guards = update g.guards k (g.guards k - 1) }

module _ {M : Type 0} (l : SharedLockable M) where
  unfoldable pub read_scope : ℕ → SharedGuarded M → Option (SharedGuarded M)
  read_scope k g = elim (l.readlock g.mutex) [
    | none ↦ none
    | some m ↦ some (record g { mutex = m; reads = update g.reads k (suc (g.reads k)) })
  ]

  unfoldable pub write_scope : ℕ → SharedGuarded M → Option (SharedGuarded M)
  write_scope k g = elim (l.writelock g.mutex) [
    | none ↦ none
    | some m ↦ some (record g { mutex = m; writes = update g.writes k (suc (g.writes k)) })
  ]

  unfoldable pub read_unscope : ℕ → SharedGuarded M → SharedGuarded M
  read_unscope k g = record g { mutex = l.unlock g.mutex; reads = update g.reads k (g.reads k - 1) }

  unfoldable pub write_unscope : ℕ → SharedGuarded M → SharedGuarded M
  write_unscope k g = record g {
    mutex = l.unlock g.mutex;
    writes = update g.writes k (g.writes k - 1);
  }
