-- ===== src/Semaphore.antt =====
-- src/thread/semaphore.cpp: the class Semaphore over the semaphores of the system.
pub mod Accounting
pub mod Tests
use qc.Base.{
  ℕ, suc, ◌+◌, ◌-◌, ◌%◌, ◌^◌, ◌≤◌, ◌<◌, ◌≡◌, Bool, true, false, Option, none, some, ltb,
  if◌then◌else◌,
}

-- The semaphores of the system. `sem_init` and `sem_post` give `none` for an error, and `sem_wait` while
-- the caller has to wait.
pub record System : Type 1 where
  pub Sem : Type 0
  pub sem_init : ℕ → Option Sem
  pub sem_wait : Sem → Option Sem
  pub sem_post : Sem → Option Sem
  pub value : Sem → ℕ
  pub value_max : ℕ
  pub init_value : (n : ℕ) (s : Sem) → sem_init n ≡ some s → value s ≡ n
  pub init_succeeds : (n : ℕ) → n ≤ value_max → (s : Sem) × (sem_init n ≡ some s)
  pub wait_value : (s t : Sem) → sem_wait s ≡ some t → suc (value t) ≡ value s
  pub wait_succeeds : (s : Sem) → 0 < value s → (t : Sem) × (sem_wait s ≡ some t)
  pub post_value : (s t : Sem) → sem_post s ≡ some t → value t ≡ suc (value s)
  pub post_succeeds : (s : Sem) → value s < value_max → (t : Sem) × (sem_post s ≡ some t)

abbrev pub word : ℕ
word = 2 ^ 32

-- The members; `m_count` is a uint32_t.
pub record Semaphore (Sem : Type 0) : Type 0 where
  pub m_sem : Sem
  pub m_count : ℕ

-- A call returns, or throws a `std::logic_error`.
pub data Result (A : Type 0) : Type 0 where
  returned threw : (a : A) → Result A

module _ (sys : System) where
  open sys use {Sem, sem_init, sem_wait, sem_post}

  -- The constructor; `junk` is what `m_count`, which it leaves unset, happens to hold. `none` throws.
  unfoldable pub construct : ℕ → ℕ → Option (Semaphore Sem)
  construct count junk = if ltb count 0 then none else elim (sem_init count) [
    | none ↦ none
    | some m ↦ some (record { m_sem = m; m_count = junk })
  ]

  -- `wait` in its two steps: the count, and the wait, where `none` is a caller that waits.
  unfoldable pub wait_begin : Semaphore Sem → Semaphore Sem
  wait_begin s = record s { m_count = (s.m_count + 1) % word }

  unfoldable pub wait_end : Semaphore Sem → Option (Semaphore Sem)
  wait_end s = elim (sem_wait s.m_sem) [ none ↦ none | some m ↦ some (record s { m_sem = m }) ]

  -- `notify` in its two steps.
  unfoldable pub notify_begin : Semaphore Sem → Semaphore Sem
  notify_begin s = record s { m_count = (s.m_count + (word - 1)) % word }

  unfoldable pub notify_end : Semaphore Sem → Result (Semaphore Sem)
  notify_end s = elim (sem_post s.m_sem) [
    | none ↦ threw s
    | some m ↦ returned (record s { m_sem = m })
  ]
