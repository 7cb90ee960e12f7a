-- ===== src/Scheduler/Weight.antt =====
-- src/scheduler/scheduler.cpp: weights of the callbacks of tasks. A weight that is 1 for one callback and
-- 0 for the others counts the tasks that have it.
use qc.Base.{
  length, ℕ, ◌+◌, ◌≡◌, ◌≢◌, refl, ap, inl, inr, Bool, true, false, none, some, List, [], ◌∷◌, ◌++◌,
  if◌then◌else◌, sum, arith, Option-cases,
}
use qc.Coroutine.{
  Coroutine, Locals, enter, run_callback, yield, finish, reset, resume, Outcome, yields, returns,
  throws, throws_unknown, is_finished,
}
use qc.Scheduler.{Task, Scheduler}
use qc.Scheduler.Worker.{
  Worker, picked, pool_check, pool_take, resuming, settling, null_call, assertion,
}
use qc.Scheduler.Invariant.{task_ref, refs_in, held}

module _ {F : Type 0} where
  pub reset-cb : (f : F) (co co' : Coroutine F) → reset f co ≡ some co' → co'.cb ≡ f
  unfolding reset
  reset-cb f co co' e = ground arith

  pub resume-cb :
      (o : Outcome) (co : Coroutine F) (l : Locals) (r : Coroutine F × Locals)
      → resume o co l ≡ some r
      → r.0.cb ≡ co.cb
  unfolding resume enter run_callback yield finish
  resume-cb yields co l r e = ground arith
  resume-cb returns co l r e = ground arith
  resume-cb throws co l r e = ground arith
  resume-cb throws_unknown co l r e = ground arith

module _ {F : Type 0} (φ : F → ℕ) where
  -- The weight of the callback of a task, where `g` says which callback the coroutine at an address has.
  abbrev pub task_weight : (ℕ → F) → Task F → ℕ
  task_weight g t = elim t.cb [ some f ↦ φ f | none ↦ elim t.coro [ some c ↦ φ (g c) | none ↦ 0 ] ]

  unfoldable pub load : (ℕ → F) → List (Task F) → ℕ
  load g [] = 0
  load g (t ∷ ts) = task_weight g t + load g ts

  -- The weight of what a worker has in hand.
  abbrev pub busy : (ℕ → F) → Worker F → ℕ
  busy g (picked d (some t)) = task_weight g t
  busy g (pool_check d f) = φ f
  busy g (pool_take d f) = φ f
  busy g (resuming d c) = φ (g c)
  busy g (settling d c) = φ (g c)
  busy g _ = 0

  abbrev pub total :
      (ℕ → F) → ℕ → (ℕ → List (Task F)) → List (Task F) → (ℕ → Worker F) → List (Task F) → ℕ
  total g n tasks global w flying =
      sum n (λ j. load g (tasks j)) + sum n (λ j. busy g (w j)) + load g global + load g flying

  abbrev pub callbacks : Scheduler F → ℕ → F
  callbacks s c = (s.coros c).cb

  -- All the tasks in queues, with workers, and with calls of `execute`.
  abbrev pub outstanding : Scheduler F → (ℕ → Worker F) → List (Task F) → ℕ
  outstanding s w flying =
      total (callbacks s) s.threads_count s.thread_tasks s.global_tasks w flying

  unfoldable pub weigh : List F → ℕ
  weigh [] = 0
  weigh (f ∷ fs) = φ f + weigh fs

  pub load-append : (g : ℕ → F) (xs ys : List (Task F)) → load g (xs ++ ys) ≡ load g xs + load g ys
  unfolding load
  load-append g [] ys = omega arith
  load-append g (t ∷ xs) ys = omega (arith, load-append g xs ys)

  pub load_nothing : (g : ℕ → F) (ts : List (Task F)) → length ts ≡ 0 → load g ts ≡ 0
  unfolding load
  load_nothing g [] e = refl
  load_nothing g (t ∷ ts) e = absurd (omega arith)

  module _ (c : ℕ) (g h : ℕ → F) (off : (b : ℕ) → b ≢ c → h b ≡ g b) where
    task_weight-off : (t : Task F) → task_ref c t ≡ 0 → task_weight h t ≡ task_weight g t
    task_weight-off t z = elim (Option-cases t.cb) [
      | inr (f, e) ↦ rw (e, task_weight) refl
      | inl e ↦ elim (Option-cases t.coro) [
        | inl q ↦ rw (e, q, task_weight) refl
        | inr (b, q) ↦ rw (e, q, task_weight) (ap φ (off b (ground arith)))
      ]
    ]

    pub load-off : (ts : List (Task F)) → refs_in c ts ≡ 0 → load h ts ≡ load g ts
    unfolding load refs_in
    load-off [] z = refl
    load-off (t ∷ ts) z =
        omega (arith, task_weight-off t (omega (arith, z)), load-off ts (omega (arith, z)))

    pub busy-off : (v : Worker F) → held c v ≡ 0 → busy h v ≡ busy g v
    busy-off (picked d (some t)) z = task_weight-off t z
    busy-off (resuming d b) z = ap φ (off b (ground arith))
    busy-off (settling d b) z = ap φ (off b (ground arith))
    busy-off _ z = refl

-- The callbacks of the tasks that come to their end: a worker finds the coroutine at its end.
abbrev pub finishes : {F : Type 0} → Scheduler F → Worker F → List F
finishes s (settling d c) = if is_finished (s.coros c).status then (s.coros c).cb ∷ [] else []
finishes s _ = []

-- A worker that has called through a null pointer, or that an assertion stopped.
abbrev pub has_failed : {F : Type 0} → Worker F → Bool
has_failed null_call = true
has_failed assertion = true
has_failed _ = false
