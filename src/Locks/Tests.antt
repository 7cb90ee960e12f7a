-- ===== src/Locks/Tests.antt =====
-- The theorems about locks at numbers that count the holders.
use qc.Base.{
  ℕ, zero, suc, ◌+◌, ◌-◌, ◌≤◌, ◌<◌, ◌≡◌, ◌↔◌, refl, Option, none, some, sum, update, arith,
}
use qc.Locks.{LockSystem, RwLockSystem, RwMutex, SharedGuarded}
use qc.Locks.Shared
use qc.Locks.Shared.{free_again}

abbrev pub lock_free : ℕ → Option ℕ
lock_free zero = some 1
lock_free (suc n) = none

-- A mutex as the number of its holders.
abbrev pub flag : LockSystem
flag = record {
  Lock = ℕ;
  init = 0;
  lock = lock_free;
  unlock = λ _. 0;
  held = λ l. l;
  init_free = refl;
  lock_takes = takes;
  lock_succeeds = succeeds;
  unlock_frees = λ l h. refl;
}
  where
    takes : (l m : ℕ) → lock_free l ≡ some m → (l ≡ 0) × (m ≡ 1)
    takes zero m e = ground arith
    takes (suc n) m e = cc

    succeeds : (l : ℕ) → l ≡ 0 → (m : ℕ) × (lock_free l ≡ some m)
    succeeds zero e = (1, refl)
    succeeds (suc n) e = absurd (omega arith)

-- A read-write lock as the numbers of its readers and writers.
abbrev for_read : ℕ × ℕ → Option (ℕ × ℕ)
for_read (r, zero) = some (suc r, 0)
for_read (r, suc w) = none

abbrev for_write : ℕ × ℕ → Option (ℕ × ℕ)
for_write (zero, zero) = some (0, 1)
for_write (zero, suc w) = none
for_write (suc r, w) = none

abbrev release : ℕ × ℕ → ℕ × ℕ
release (r, zero) = (r - 1, 0)
release (r, suc w) = (r, w)

abbrev counts : RwLockSystem
counts = record {
  RwLock = ℕ × ℕ;
  init = (0, 0);
  rdlock = for_read;
  wrlock = for_write;
  unlock = release;
  readers = λ l. l.0;
  writers = λ l. l.1;
  init_free = (refl, refl);
  rdlock_takes = reads;
  wrlock_takes = writes;
  wrlock_succeeds = succeeds;
  unlock_read = read_ends;
  unlock_write = write_ends;
}
  where
    reads : (l m : ℕ × ℕ) → for_read l ≡ some m → (l.1 ≡ 0) × (m.1 ≡ 0) × (m.0 ≡ suc l.0)
    reads (r, zero) m e = ground arith
    reads (r, suc w) m e = cc

    writes : (l m : ℕ × ℕ) → for_write l ≡ some m → (l.0 ≡ 0) × (l.1 ≡ 0) × (m.0 ≡ 0) × (m.1 ≡ 1)
    writes (zero, zero) m e = ground arith
    writes (zero, suc w) m e = cc
    writes (suc r, w) m e = cc

    succeeds : (l : ℕ × ℕ) → l.0 ≡ 0 → l.1 ≡ 0 → (m : ℕ × ℕ) × (for_write l ≡ some m)
    succeeds (zero, zero) a b = ((0, 1), refl)
    succeeds (zero, suc w) a b = absurd (omega arith)
    succeeds (suc r, w) a b = absurd (omega arith)

    read_ends : (l : ℕ × ℕ) → l.1 ≡ 0 → 0 < l.0 → ((release l).1 ≡ 0) × (suc (release l).0 ≡ l.0)
    read_ends (r, zero) e p = ground arith
    read_ends (r, suc w) e p = absurd (omega arith)

    write_ends : (l : ℕ × ℕ) → l.1 ≡ 1 → ((release l).1 ≡ 0) × ((release l).0 ≡ l.0)
    write_ends (r, zero) e = absurd (omega arith)
    write_ends (r, suc w) e = (omega arith, refl)

abbrev one_write : SharedGuarded (RwMutex (ℕ × ℕ))
one_write = record {
  mutex = record { m_lock = (0, 1) };
  reads = λ _. 0;
  writes = update (λ _. 0) 0 1;
}
