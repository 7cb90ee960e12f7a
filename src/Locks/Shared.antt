-- ===== src/Locks/Shared.antt =====
-- include/qc/thread/scopedlock.h: ReadLock and WriteLock objects of any threads on one RWMutex. A call
-- of pthread_rwlock_rdlock or pthread_rwlock_wrlock by a thread that would wait for itself may fail, which
-- RWMutex does not look at; no thread makes such a call here.
use qc.Base.{
  ℕ, suc, ◌+◌, ◌-◌, ◌≤◌, ◌<◌, ◌≡◌, refl, subst, some, update, sum, sum-update, sum_zero_below,
  le-sum, inl, inr, arith, dec_lt, Option-cases,
}
use qc.Locks.{
  RwLockSystem, RwMutex, SharedGuarded, new_rw_mutex, locked, rw_shared, read_scope, write_scope,
  read_unscope, write_unscope,
}

module _ (sys : RwLockSystem) (n : ℕ) where
  open sys use {
    RwLock, rdlock, wrlock, readers, writers, init_free, rdlock_takes, wrlock_takes,
    wrlock_succeeds, unlock_read, unlock_write,
  }

  abbrev Lock : Type 0
  Lock = SharedGuarded (RwMutex RwLock)

  -- What `n` threads may come to that make and destroy ReadLock and WriteLock objects, where no thread
  -- makes a ReadLock while it has a WriteLock, or a WriteLock while it has either.
  pub data Scopes : Lock → Type 0 where
    opened : Scopes (record { mutex = new_rw_mutex sys; reads = λ _. 0; writes = λ _. 0 })
    reading :
        {g h : Lock} (k : ℕ)
        → k < n
        → g.writes k ≡ 0
        → Scopes g
        → read_scope (rw_shared sys) k g ≡ some h
        → Scopes h
    writing :
        {g h : Lock} (k : ℕ)
        → k < n
        → g.reads k ≡ 0
        → g.writes k ≡ 0
        → Scopes g
        → write_scope (rw_shared sys) k g ≡ some h
        → Scopes h
    read_ends :
        {g : Lock} (k : ℕ)
        → k < n
        → 0 < g.reads k
        → Scopes g
        → Scopes (read_unscope (rw_shared sys) k g)
    write_ends :
        {g : Lock} (k : ℕ)
        → k < n
        → 0 < g.writes k
        → Scopes g
        → Scopes (write_unscope (rw_shared sys) k g)

  record Inv (g : Lock) : Type 0 where
    readers_sum : readers g.mutex.m_lock ≡ sum n g.reads
    writers_sum : writers g.mutex.m_lock ≡ sum n g.writes
    one_writer : sum n g.writes ≤ 1
    apart : 0 < sum n g.writes → sum n g.reads ≡ 0

  sum_at : (f : ℕ → ℕ) (k a : ℕ) → k < n → sum n (update f k a) + f k ≡ sum n f + a
  sum_at f k a lk = sum-update (λ x. x) n f k a lk

  read_scope-Inv :
      (k : ℕ) (g h : Lock) → k < n → read_scope (rw_shared sys) k g ≡ some h → Inv g → Inv h
  unfolding read_scope locked
  read_scope-Inv k g h lk e inv = elim (Option-cases (rdlock g.mutex.m_lock)) [
    | inl waits ↦ absurd (ground arith)
    | inr (m, took) ↦
        let h' : Lock = record g {
          mutex = record { m_lock = m };
          reads = update g.reads k (suc (g.reads k));
        } in
        let same : h' ≡ h = ground arith in
        let grow = sum_at g.reads k (suc (g.reads k)) lk in
        let law = rdlock_takes g.mutex.m_lock m took in
        subst Inv same (record {
          readers_sum = omega (arith, grow, law.2, inv.readers_sum);
          writers_sum = omega (arith, law.0, law.1, inv.writers_sum);
          one_writer = inv.one_writer;
          apart = λ p. absurd (omega (arith, p, law.0, inv.writers_sum));
        })
  ]

  write_scope-Inv :
      (k : ℕ) (g h : Lock) → k < n → write_scope (rw_shared sys) k g ≡ some h → Inv g → Inv h
  unfolding write_scope locked
  write_scope-Inv k g h lk e inv = elim (Option-cases (wrlock g.mutex.m_lock)) [
    | inl waits ↦ absurd (ground arith)
    | inr (m, took) ↦
        let h' : Lock = record g {
          mutex = record { m_lock = m };
          writes = update g.writes k (suc (g.writes k));
        } in
        let same : h' ≡ h = ground arith in
        let grow = sum_at g.writes k (suc (g.writes k)) lk in
        let law = wrlock_takes g.mutex.m_lock m took in
        subst Inv same (record {
          readers_sum = omega (arith, law.0, law.2, inv.readers_sum);
          writers_sum = omega (arith, grow, law.1, law.3, inv.writers_sum);
          one_writer = omega (arith, grow, law.1, inv.writers_sum);
          apart = λ _. omega (arith, law.0, inv.readers_sum);
        })
  ]

  read_unscope-Inv :
      (k : ℕ) (g : Lock) → k < n → 0 < g.reads k → Inv g → Inv (read_unscope (rw_shared sys) k g)
  unfolding read_unscope
  read_unscope-Inv k g lk open_one inv =
      let shrink = sum_at g.reads k (g.reads k - 1) lk in
      let below = le-sum n g.reads k lk in
      let none_writes : sum n g.writes ≡ 0 = elim (dec_lt 0 (sum n g.writes)) [
        | yes p ↦ absurd (omega (arith, inv.apart p, below, open_one))
        | no p ↦ omega (arith, p)
      ] in
      let law =
        unlock_read g.mutex.m_lock (omega (arith, none_writes, inv.writers_sum))
          (omega (arith, inv.readers_sum, below, open_one)) in
      record {
        readers_sum = omega (arith, law.1, shrink, open_one, below, inv.readers_sum);
        writers_sum = omega (arith, law.0, none_writes);
        one_writer = inv.one_writer;
        apart = λ p. absurd (omega (arith, p, none_writes));
      }

  write_unscope-Inv :
      (k : ℕ) (g : Lock) → k < n → 0 < g.writes k → Inv g → Inv (write_unscope (rw_shared sys) k g)
  unfolding write_unscope
  write_unscope-Inv k g lk open_one inv =
      let shrink = sum_at g.writes k (g.writes k - 1) lk in
      let below = le-sum n g.writes k lk in
      let law =
        unlock_write g.mutex.m_lock
          (omega (arith, inv.writers_sum, inv.one_writer, below, open_one)) in
      record {
        readers_sum = omega (arith, law.1, inv.readers_sum);
        writers_sum = omega (arith, law.0, shrink, open_one, below, inv.one_writer);
        one_writer = omega (arith, shrink, inv.one_writer);
        apart = λ p. inv.apart (omega (arith, p, shrink));
      }

  Scopes-Inv : {g : Lock} → Scopes g → Inv g
  Scopes-Inv opened =
      let zero_sum = sum_zero_below n (λ _. 0) (λ i li. refl) in
      record {
        readers_sum = omega (arith, init_free.0, zero_sum);
        writers_sum = omega (arith, init_free.1, zero_sum);
        one_writer = omega (arith, zero_sum);
        apart = λ _. zero_sum;
      }
  Scopes-Inv (reading {g} {h} k lk a r e) = read_scope-Inv k g h lk e (Scopes-Inv r)
  Scopes-Inv (writing {g} {h} k lk a b r e) = write_scope-Inv k g h lk e (Scopes-Inv r)
  Scopes-Inv (read_ends {g} k lk p r) = read_unscope-Inv k g lk p (Scopes-Inv r)
  Scopes-Inv (write_ends {g} k lk p r) = write_unscope-Inv k g lk p (Scopes-Inv r)

  -- Once every ReadLock and WriteLock on an RWMutex is destroyed the mutex is free: the constructor of
  -- a WriteLock returns at once.
  pub free_again :
      {g : Lock}
      → Scopes g
      → ((i : ℕ) → i < n → (g.reads i ≡ 0) × (g.writes i ≡ 0))
      → (k : ℕ) → (h : Lock) × (write_scope (rw_shared sys) k g ≡ some h)
  unfolding write_scope locked
  free_again {g} r none_left k =
      let inv = Scopes-Inv r in
      let (m, took) =
        wrlock_succeeds g.mutex.m_lock
          (omega (arith, inv.readers_sum, sum_zero_below n g.reads (λ i li. (none_left i li).0)))
          (omega
            (arith, inv.writers_sum, sum_zero_below n g.writes (λ i li. (none_left i li).1))) in
      (
        record g { mutex = record { m_lock = m }; writes = update g.writes k (suc (g.writes k)) },
        rw (write_scope, locked, took) refl,
      )
