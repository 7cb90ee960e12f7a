-- ===== src/Thread/BirthTests.antt =====
-- The theorems about the construction of a thread at concrete values.
use qc.Base.{ℕ, zero, suc, ◌≤◌, ◌≡◌, refl, none, some, arith, codes}
use qc.Semaphore.{Semaphore, construct}
use qc.Semaphore.Tests.{counter}
use qc.Thread.Handshake.{
  Maker, Birth, CallEnd, prepare, create, make, run, Reach, prepared, creates, makes, runs,
}
use qc.Thread.Level.{Carries}
use qc.Thread.Ready.{constructed_lem}
use qc.Thread.Returns.{alone, conclude, constructor_returns}

abbrev zero_sem : Semaphore ℕ
zero_sem = record { m_sem = 0; m_count = 0 }

abbrev created : Birth ℕ ℕ
created = create 0 (prepare (some 5) (codes "io") zero_sem)

created-Reach : Reach counter (some 5) (codes "io") zero_sem 77 created
unfolding prepare
created-Reach = creates 0 prepared refl

abbrev waits : Birth ℕ ℕ
waits = make counter created created.maker

waits-Reach : Reach counter (some 5) (codes "io") zero_sem 77 waits
unfolding create prepare
waits-Reach = makes created-Reach (λ e. cc)

abbrev called : Birth ℕ ℕ
called = alone counter 77 7 waits

alone-Reach :
    (n : ℕ) (s : Birth ℕ ℕ)
    → Reach counter (some 5) (codes "io") zero_sem 77 s
    → Reach counter (some 5) (codes "io") zero_sem 77 (alone counter 77 n s)
unfolding alone
alone-Reach zero s r = r
alone-Reach (suc n) s r =
    alone-Reach n (run counter 77 CallEnd.returns s s.body) (runs CallEnd.returns r)

ready : Birth ℕ ℕ
ready = make counter called called.maker

ready-Reach : Reach counter (some 5) (codes "io") zero_sem 77 ready
unfolding ready alone run make create prepare qc.Semaphore.wait_begin qc.Semaphore.wait_end
    qc.Semaphore.notify_begin qc.Semaphore.notify_end
ready-Reach = makes (alone-Reach 7 waits waits-Reach) (λ e. cc)

constructed_lem_example :
    (ready.m_tid ≡ some 77)
    × (ready.t_name ≡ ready.m_name)
    × (ready.m_cb ≡ none)
    × Carries (some 5) ready.body
unfolding ready alone run make create prepare qc.Semaphore.wait_begin qc.Semaphore.wait_end
    qc.Semaphore.notify_begin qc.Semaphore.notify_end
constructed_lem_example = constructed_lem counter (some 5) (codes "io") 77 refl ready-Reach refl

constructor_returns_example :
    (n : ℕ) × (n ≤ 7)
    × ((conclude counter 77 (alone counter 77 n created)).maker ≡ Maker.constructed)
unfolding create prepare
constructor_returns_example =
    constructor_returns counter 77 (some 5) (codes "io") (omega arith) refl created-Reach refl
      (λ e. cc)
