-- ===== src/Scheduler/Late.antt =====
-- src/scheduler/scheduler.cpp, `execute`: a task that comes to its queue after the workers have left.
use qc.Base.{◌≡◌, List, ◌++◌}
use qc.Scheduler.{Task, Scheduler}
use qc.Scheduler.Invariant.{Crew, Step}
use qc.Scheduler.Cover.{Queue, own, global}

-- The states that the program may yet come to, if the scheduler is not started again.
pub data Later {F : Type 0} (s : Crew F) : Crew F → Type 0 where
  at_once : Later s s
  one_more : {t u : Crew F} → Later s t → Step t u → Later s u

module _ {F : Type 0} where
  abbrev pub tasks_of : Scheduler F → Queue → List (Task F)
  tasks_of s (own q) = s.thread_tasks q
  tasks_of s global = s.global_tasks

  -- The second list is the first with more behind it.
  abbrev Grown : List (Task F) → List (Task F) → Type 0
  Grown xs zs = (ys : List (Task F)) × (zs ≡ xs ++ ys)
