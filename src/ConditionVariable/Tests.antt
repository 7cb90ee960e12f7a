-- ===== src/ConditionVariable/Tests.antt =====
-- The theorem about waits at a condition variable that no one notifies.
use qc.Base.{ℕ, ◌+◌, ◌*◌, ◌≡◌, refl, false, leb, if◌then◌else◌, arith}
use qc.Thread.{billion}
use qc.Locks.{Mutex}
use qc.Locks.Tests.{flag}
use qc.ConditionVariable.{CondSystem, ConditionVariable, wait_for_milliseconds}
use qc.ConditionVariable.Timeout.{wait_for_milliseconds_lem}

abbrev lonely : CondSystem flag
lonely = record {
  Cond = ℕ;
  init = 0;
  signal = λ c. c;
  broadcast = λ c. c;
  wait = λ c l. l;
  timedwait =
      λ c l now t. (110, (if leb (t.0 * billion + t.1) now then now else t.0 * billion + t.1), l);
  etimedout = 110;
  etimedout_error = refl;
  wait_holds = λ c l h. h;
  timedwait_holds = λ c l now t h. h;
  timedwait_past = λ c l now tv_sec tv_nsec small h. ground arith;
}

abbrev variable : ConditionVariable ℕ
variable = record { m_cond = 0 }

abbrev mine : Mutex ℕ
mine = record { m_mutex = 1 }

-- The wait of 100 ms of an idle worker.
wait_for_milliseconds_lem_example :
    ((wait_for_milliseconds flag lonely variable mine 1700000000000000000 100).0 ≡ false)
    × ((wait_for_milliseconds flag lonely variable mine 1700000000000000000 100).2.m_mutex ≡ 1)
wait_for_milliseconds_lem_example =
    wait_for_milliseconds_lem flag lonely variable mine 1700000000000000000 100 (omega arith) refl
