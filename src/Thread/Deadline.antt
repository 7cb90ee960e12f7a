-- ===== src/Thread/Deadline.antt =====
-- src/thread/conditionvariable.cpp: the time that `wait_for` computes.
use qc.Base.{ℕ, ◌+◌, ◌*◌, ◌≤◌, ◌<◌, ◌≡◌, arith}
use qc.Thread.{abstime, billion}

-- The seconds and nanoseconds make up the time asked for, with less than a second of nanoseconds. It
-- is no later than any current time, as pthread_cond_timedwait counts it, that is not below the time
-- asked for.
pub abstime_lem :
    (nanoseconds now : ℕ)
    → nanoseconds ≤ now
    → ((abstime nanoseconds).0 * billion + (abstime nanoseconds).1 ≡ nanoseconds)
      × ((abstime nanoseconds).1 < billion)
      × ((abstime nanoseconds).0 * billion + (abstime nanoseconds).1 ≤ now)
unfolding abstime
abstime_lem nanoseconds now h = ground arith
