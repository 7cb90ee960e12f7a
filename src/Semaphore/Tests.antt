-- ===== src/Semaphore/Tests.antt =====
-- The theorem about semaphores at a counter.
use qc.Base.{
  ℕ, zero, suc, ◌+◌, ◌-◌, ◌*◌, ◌%◌, ◌^◌, ◌≤◌, ◌<◌, ◌≡◌, ◌↔◌, refl, Option, none, some, arith, ltb,
  if◌then◌else◌,
}
use qc.Semaphore.{
  System, Semaphore, word, construct, wait_begin, wait_end, notify_begin, notify_end,
}
use qc.Semaphore.Accounting.{Uses, made, begins, passes, notifies, posts, waits_balance}

abbrev pub take_one : ℕ → Option ℕ
take_one zero = none
take_one (suc n) = some n

-- A semaphore as a number, with values up to 2^31 - 1.
abbrev pub counter : System
counter = record {
  Sem = ℕ;
  sem_init = λ n. if ltb n (2 ^ 31) then some n else none;
  sem_wait = take_one;
  sem_post = λ n. if ltb n (2 ^ 31 - 1) then some (suc n) else none;
  value = λ n. n;
  value_max = 2 ^ 31 - 1;
  init_value = λ n s e. ground arith;
  init_succeeds = λ n le. (n, ground arith);
  wait_value = taken;
  wait_succeeds = takes;
  post_value = λ s t e. ground arith;
  post_succeeds = λ s lt. (suc s, ground arith);
}
  where
    taken : (s t : ℕ) → take_one s ≡ some t → suc t ≡ s
    taken zero t e = cc
    taken (suc n) t e = ground arith

    takes : (s : ℕ) → 0 < s → (t : ℕ) × (take_one s ≡ some t)
    takes zero lt = absurd (omega arith)
    takes (suc n) lt = (n, refl)

-- A call of `notify`, then a call of `wait`, on a semaphore made with 0.
abbrev spent : Semaphore ℕ
spent = record { m_sem = 0; m_count = 9 }

spent-Uses : Uses counter 0 9 spent 1 1 1 1
unfolding construct wait_begin wait_end notify_begin notify_end
spent-Uses =
    passes
      (posts {t = record { m_sem = 1; m_count = 9 }}
        (notifies (begins (made {s = record { m_sem = 0; m_count = 9 }} refl))) (omega arith) refl)
      (omega arith) refl

waits_balance_example :
    (spent.m_count ≡ (9 + 1 + 1 * (word - 1)) % word)
    × (1 ≤ 0 + 1)
    × ((wait_end counter spent ≡ none) ↔ (1 ≡ 0 + 1))
waits_balance_example = waits_balance counter (omega arith) spent-Uses
