-- ===== src/Scheduler.antt =====
-- src/scheduler/scheduler.cpp: the queues and workers of the scheduler. A queue is a list whose
-- operations are atomic; LockFreeQueue is about the queue itself.
pub mod Worker
pub mod Invariant
pub mod Preserve
pub mod PreserveCoros
pub mod Steps
pub mod Safety
pub mod Weight
pub mod Balance
pub mod Conservation
pub mod Race
pub mod Cover
pub mod Keep
pub mod Sweep
pub mod Steady
pub mod Drain
pub mod Rank
pub mod Fall
pub mod Winding
pub mod Late
pub mod Life
pub mod Joining
pub mod Entering
mod Tests
mod EndTests
use qc.Base.{
  ℕ, suc, ◌+◌, ◌-◌, ◌%◌, ◌^◌, ◌≡◌, Bool, true, false, not, ◌&&◌, Option, none, some, List, [], ◌∷◌,
  ◌++◌, ◌==◌, ltb, if◌then◌else◌, update,
}
use qc.Coroutine.{Coroutine, Locals, Status}

-- A task has a callback or a coroutine, by its address; `none` is a null pointer.
pub record Task (F : Type 0) : Type 0 where
  pub cb : Option F
  pub coro : Option ℕ
  pub thread_idx : ℕ

-- size_t -1
abbrev pub no_thread : ℕ
no_thread = 2 ^ 64 - 1

abbrev pub call_task : {F : Type 0} → F → ℕ → Task F
call_task f idx = record { cb = some f; coro = none; thread_idx = idx }

abbrev pub coro_task : {F : Type 0} → ℕ → Task F
coro_task c = record { cb = none; coro = some c; thread_idx = no_thread }

-- The members of the scheduler, the coroutine objects by address (`fresh` is the next one), the
-- process-wide coroutine counter, and the thread-local variables of the workers.
pub record Scheduler (F : Type 0) : Type 0 where
  pub stopped : Bool
  pub threads_count : ℕ
  pub thread_tasks : ℕ → List (Task F)
  pub global_tasks : List (Task F)
  pub coro_pool : List ℕ
  pub coros : ℕ → Coroutine F
  pub fresh : ℕ
  pub coro_id : ℕ
  pub locals : ℕ → Locals

abbrev pub is_empty {ℓ} : {A : Type ℓ} → List A → Bool
is_empty [] = true
is_empty (x ∷ xs) = false

abbrev pub has_own_queue : ℕ → ℕ → Bool
has_own_queue n idx = not (idx == no_thread) && ltb idx n

module _ {F : Type 0} where
  -- The queue that `execute` puts a task in.
  unfoldable pub place : Task F → Scheduler F → Scheduler F
  place t s =
      if has_own_queue s.threads_count t.thread_idx
      then record s {
        thread_tasks = update s.thread_tasks t.thread_idx (s.thread_tasks t.thread_idx ++ t ∷ []);
      }
      else record s { global_tasks = s.global_tasks ++ t ∷ [] }

  -- A task that comes after `stop` is dropped with an error in the log.
  unfoldable pub execute : Task F → Scheduler F → Scheduler F
  unfolding place
  execute t s = if s.stopped then s else place t s

  -- The members as the constructor leaves them. `l` and `f` fill what nothing has set yet.
  abbrev pub new_scheduler : ℕ → Locals → F → Scheduler F
  new_scheduler thread_count l f = record {
    stopped = true;
    threads_count = thread_count;
    thread_tasks = λ _. [];
    global_tasks = [];
    coro_pool = [];
    coros = λ _. record { id = 0; status = Status.init; cb = f; stk_size = 0 };
    fresh = 0;
    coro_id = 0;
    locals = λ _. l;
  }

  -- The constructor, which asserts that there is a thread.
  unfoldable pub construct : ℕ → Locals → F → Option (Scheduler F)
  construct thread_count l f =
      if thread_count == 0 then none else some (new_scheduler thread_count l f)

  -- `start` and `stop`: the new state, and whether the threads are made or joined.
  unfoldable pub start : Scheduler F → Scheduler F × Bool
  start s = (record s { stopped = false }, s.stopped)

  unfoldable pub stop : Scheduler F → Scheduler F × Bool
  stop s = (record s { stopped = true }, not s.stopped)
