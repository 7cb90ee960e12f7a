-- ===== src/Scheduler/Worker.antt =====
-- One worker thread: `run`, with `pickTask` and `getIdleCoroutine` inlined, one operation of a queue
-- a step. A run of a callback, up to its next switch back to the thread, is one step.
use qc.Base.{
  ℕ, suc, ◌+◌, ◌%◌, Bool, true, false, Option, none, some, [], ◌∷◌, ◌++◌, ◌==◌, ltb, if◌then◌else◌,
  update,
}
use qc.Coroutine.{Outcome, construct, resume, reset, is_finished}
use qc.Scheduler.{Task, coro_task, Scheduler, is_empty}

-- Where a worker stands. `drain` is true in the second loop of `run`, after the scheduler stopped.
pub data Worker (F : Type 0) : Type 0 where
  looping : Worker F
  pick_own : (drain : Bool) → Worker F
  take_own : (drain : Bool) → Worker F
  pick_global : (drain : Bool) → Worker F
  take_global : (drain : Bool) → Worker F
  pick_steal : (drain : Bool) (i : ℕ) → Worker F
  take_steal : (drain : Bool) (steal_idx : ℕ) → Worker F
  picked : (drain : Bool) (task : Option (Task F)) → Worker F
  pool_check : (drain : Bool) (cb : F) → Worker F
  pool_take : (drain : Bool) (cb : F) → Worker F
  resuming : (drain : Bool) (coro : ℕ) → Worker F
  settling : (drain : Bool) (coro : ℕ) → Worker F
  exited : Worker F
  null_call : Worker F  -- a call through a null pointer
  assertion : Worker F  -- a failed assertion

module _ {F : Type 0} where
  abbrev pub again : Bool → Worker F
  again false = looping
  again true = pick_own true

  -- What is done with the task that `pickTask` returned. Without one the first loop waits on the
  -- condition variable, with a time limit, and the second ends.
  abbrev pub begin_task : Scheduler F → Bool → Option (Task F) → Scheduler F × Worker F
  begin_task s false none = (s, looping)
  begin_task s true none = (s, exited)
  begin_task s d (some t) = elim t.cb [
    | some f ↦ (s, pool_check d f)
    | none ↦ elim t.coro [ some c ↦ (s, resuming d c) | none ↦ (s, null_call) ]
  ]

  -- The front task of the queue of a thread.
  abbrev pub take_from : ℕ → Scheduler F → Bool → Scheduler F × Worker F
  take_from k s d = elim (s.thread_tasks k) [
    | [] ↦ (s, picked d none)
    | t ∷ ts ↦ (record s { thread_tasks = update s.thread_tasks k ts }, picked d (some t))
  ]

  abbrev pub take_any : Scheduler F → Bool → Scheduler F × Worker F
  take_any s d = elim s.global_tasks [
    | [] ↦ (s, picked d none)
    | t ∷ ts ↦ (record s { global_tasks = ts }, picked d (some t))
  ]

  abbrev pub steal_from : ℕ → Scheduler F → Bool → ℕ → Scheduler F × Worker F
  steal_from k s d i =
      let idx = (k + 1 + i) % s.threads_count in
      if ltb i s.threads_count
      then (if idx == k
          then (s, pick_steal d (suc i))
          else (if is_empty (s.thread_tasks idx)
              then (s, pick_steal d (suc i))
              else (s, take_steal d idx)))
      else (s, picked d none)

  -- A new coroutine, where the pool is empty.
  abbrev pub new_coro : ℕ → Scheduler F → Bool → F → Scheduler F × Worker F
  new_coro k s d f =
      let (co, l, id) = construct f 0 s.coro_id (s.locals k) in
      (
        record s {
          coros = update s.coros s.fresh co;
          fresh = suc s.fresh;
          coro_id = id;
          locals = update s.locals k l;
        },
        resuming d s.fresh,
      )

  -- A coroutine of the pool, made ready for the callback.
  abbrev pub reuse_coro : Scheduler F → Bool → F → Scheduler F × Worker F
  reuse_coro s d f = elim s.coro_pool [
    | [] ↦ (s, null_call)
    | c ∷ cs ↦ elim (reset f (s.coros c)) [
      | none ↦ (s, assertion)
      | some co ↦ (record s { coro_pool = cs; coros = update s.coros c co }, resuming d c)
    ]
  ]

  abbrev pub resume_coro : ℕ → Scheduler F → Bool → ℕ → Outcome → Scheduler F × Worker F
  resume_coro k s d c o = elim (resume o (s.coros c) (s.locals k)) [
    | none ↦ (s, assertion)
    | some (co, l) ↦
        (record s { coros = update s.coros c co; locals = update s.locals k l }, settling d c)
  ]

  -- After `resume`: a finished coroutine goes to the pool, any other back to the worker's queue.
  abbrev pub settle : ℕ → Scheduler F → Bool → ℕ → Scheduler F × Worker F
  settle k s d c =
      if is_finished (s.coros c).status
      then (record s { coro_pool = s.coro_pool ++ c ∷ [] }, again d)
      else (
        record s { thread_tasks = update s.thread_tasks k (s.thread_tasks k ++ coro_task c ∷ []) },
        again d,
      )

  -- The next step of worker `k`; the outcome is read where a callback runs.
  unfoldable pub work : ℕ → Scheduler F → Worker F → Outcome → Scheduler F × Worker F
  work k s looping o = (s, pick_own s.stopped)  -- `while (!m_stopped)`: on to the second loop, or round
  work k s (pick_own d) o =
      if is_empty (s.thread_tasks k) then (s, pick_global d) else (s, take_own d)
  work k s (take_own d) o = take_from k s d
  work k s (pick_global d) o =
      if is_empty s.global_tasks then (s, pick_steal d 0) else (s, take_global d)
  work k s (take_global d) o = take_any s d
  work k s (pick_steal d i) o = steal_from k s d i
  work k s (take_steal d idx) o = take_from idx s d
  work k s (picked d t) o = begin_task s d t
  work k s (pool_check d f) o =
      if is_empty s.coro_pool then new_coro k s d f else (s, pool_take d f)
  work k s (pool_take d f) o = reuse_coro s d f
  work k s (resuming d c) o = resume_coro k s d c o
  work k s (settling d c) o = settle k s d c
  work k s exited o = (s, exited)
  work k s null_call o = (s, null_call)
  work k s assertion o = (s, assertion)
