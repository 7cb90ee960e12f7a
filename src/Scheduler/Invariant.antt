-- ===== src/Scheduler/Invariant.antt =====
-- src/scheduler/scheduler.cpp: the steps of all threads, and the invariant on where coroutines are and
-- in which status.
use qc.Base.{
  ℕ, ◌+◌, ◌≤◌, ◌<◌, ◌≡◌, ◌⊎◌, true, false, none, some, List, [], ◌∷◌, ◌++◌, ◌==◌, if◌then◌else◌,
  update, sum,
}
use qc.Coroutine.{Outcome, throws_unknown, is_resumable, is_finished}
use qc.Scheduler.{Task, call_task, Scheduler, place, stop}
use qc.Scheduler.Worker.{Worker, take_steal, picked, resuming, settling, assertion, work}

-- The scheduler with its workers, and the tasks of calls of `execute` that have seen the scheduler
-- running and have not yet put their task in a queue.
pub record Crew (F : Type 0) : Type 0 where
  pub sched : Scheduler F
  pub workers : ℕ → Worker F
  pub in_flight : List (Task F)

-- A step of a worker, or of a thread that calls `schedule` with a callback, or of one that calls
-- `stop`. No callback throws anything but a `std::exception`, no task with a coroutine comes from outside,
-- and the scheduler is not started again.
pub data Step {F : Type 0} (s : Crew F) : Crew F → Type 0 where
  works :
      (k : ℕ) (o : Outcome)
      → k < s.sched.threads_count
      → (o ≡ throws_unknown → ⊥)
      → Step s (record {
        sched = (work k s.sched (s.workers k) o).0;
        workers = update s.workers k (work k s.sched (s.workers k) o).1;
        in_flight = s.in_flight;
      })
  admit :
      (f : F) (idx : ℕ)
      → s.sched.stopped ≡ false
      → Step s (record s { in_flight = call_task f idx ∷ s.in_flight })
  deliver :
      (xs : List (Task F)) (t : Task F) (ys : List (Task F))
      → s.in_flight ≡ xs ++ t ∷ ys
      → Step s (record s { sched = place t s.sched; in_flight = xs ++ ys })
  stops : Step s (record s { sched = (stop s.sched).0 })

abbrev pub is_ref : ℕ → ℕ → ℕ
is_ref c k = if k == c then 1 else 0

module _ {F : Type 0} where
  abbrev pub task_ref : ℕ → Task F → ℕ
  task_ref c t = elim t.coro [ none ↦ 0 | some k ↦ is_ref c k ]

  unfoldable pub refs_in : ℕ → List (Task F) → ℕ
  refs_in c [] = 0
  refs_in c (t ∷ ts) = task_ref c t + refs_in c ts

  abbrev pub held : ℕ → Worker F → ℕ
  held c (picked d (some t)) = task_ref c t
  held c (resuming d k) = is_ref c k
  held c (settling d k) = is_ref c k
  held c _ = 0

unfoldable pub in_pool : ℕ → List ℕ → ℕ
in_pool c [] = 0
in_pool c (k ∷ ks) = is_ref c k + in_pool c ks

module _ {F : Type 0} where
  abbrev pub refs : ℕ → Scheduler F → (ℕ → Worker F) → ℕ
  refs c s w =
      sum s.threads_count (λ j. refs_in c (s.thread_tasks j))
      + sum s.threads_count (λ j. held c (w j))
      + in_pool c s.coro_pool

  abbrev pub Ready : Scheduler F → ℕ → Type 0
  Ready s c = is_resumable (s.coros c).status ≡ true

  -- What a worker may rely on where it stands.
  abbrev pub Holds : Scheduler F → Worker F → Type 0
  Holds s (take_steal d idx) = idx < s.threads_count
  Holds s (picked d (some t)) = (c : ℕ) → 0 < task_ref c t → Ready s c
  Holds s (resuming d c) = Ready s c
  Holds s (settling d c) = Ready s c ⊎ (is_finished (s.coros c).status ≡ true)
  Holds s assertion = ⊥
  Holds s _ = Unit

pub record Inv {F : Type 0} (s : Scheduler F) (w : ℕ → Worker F) (flying : List (Task F))
    : Type 0 where
  pub calls : (c : ℕ) → refs_in c s.global_tasks + refs_in c flying ≡ 0
  pub single : (c : ℕ) → refs c s w ≤ 1
  pub known : (c : ℕ) → 0 < refs c s w → c < s.fresh
  pub ready : (c j : ℕ) → j < s.threads_count → 0 < refs_in c (s.thread_tasks j) → Ready s c
  pub pooled : (c : ℕ) → 0 < in_pool c s.coro_pool → is_finished (s.coros c).status ≡ true
  pub holding : (j : ℕ) → j < s.threads_count → Holds s (w j)
