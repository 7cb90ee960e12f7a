-- ===== src/Scheduler/Fall.antt =====
-- src/scheduler/scheduler.cpp, `run` after `stop`: every step brings a worker nearer to the end
-- of its loop, or takes a task.
use qc.Base.{
  ℕ, suc, ◌+◌, ◌%◌, ◌<◌, ◌≡◌, ◌⊎◌, refl, ap, inl, inr, Bool, true, false, Option, none, some, List,
  [], ◌∷◌, ◌++◌, ◌==◌, ltb, update, sum, sum-update, arith, Bool-cases, Option-cases, length,
  length-append,
}
use qc.Coroutine.{reset, resume, Outcome, is_finished}
use qc.Scheduler.{Task, Scheduler, is_empty, coro_task}
use qc.Scheduler.Worker.{
  Worker, looping, pick_own, take_own, pick_global, take_global, pick_steal, take_steal, picked,
  pool_check, pool_take, resuming, settling, exited, null_call, assertion, again, begin_task,
  take_from, take_any, steal_from, reuse_coro, resume_coro, settle, work,
}
use qc.Scheduler.Invariant.{Holds}
use qc.Scheduler.Rank.{queued, is_live, requeues, behind, rank}

module _ {F : Type 0} (k : ℕ) (s : Scheduler F) (lk : k < s.threads_count) where
  -- The worker goes on in rank and puts back what it puts back, or it takes a task from a queue.
  abbrev pub Falls : Worker F → Scheduler F × Worker F → Type 0
  Falls v r =
      ((queued r.0 ≡ queued s + requeues s v) × (rank s.threads_count r.1 < rank s.threads_count v))
      ⊎ ((suc (queued r.0) ≡ queued s)
          × (requeues s v ≡ 0)
          × (rank s.threads_count r.1 < rank s.threads_count v + (s.threads_count + 9)))

  queue-update :
      (j : ℕ) (ts : List (Task F))
      → j < s.threads_count
      → sum s.threads_count (λ i. length (update s.thread_tasks j ts i)) + length (s.thread_tasks j)
        ≡ sum s.threads_count (λ i. length (s.thread_tasks i)) + length ts
  queue-update j ts lj = sum-update length s.threads_count s.thread_tasks j ts lj

  take-Falls :
      (j : ℕ) (d : Bool) (v : Worker F) (ts : List (Task F))
      → j < s.threads_count
      → s.thread_tasks j ≡ ts
      → requeues s v ≡ 0
      → rank s.threads_count v ≡ behind s.threads_count d + 2
      → Falls v (take_from j s d)
  unfolding rank
  take-Falls j d v [] lj e z b = rw (e, take_from) (inl (omega (arith, z), omega (arith, b)))
  take-Falls j d v (t ∷ ts) lj e z b =
      rw (e, take_from)
        (inr (omega (arith, queue-update j ts lj, ap length e), z, omega (arith, b)))

  any-Falls :
      (d : Bool) (v : Worker F) (ts : List (Task F))
      → s.global_tasks ≡ ts
      → requeues s v ≡ 0
      → rank s.threads_count v ≡ behind s.threads_count d + 2
      → Falls v (take_any s d)
  unfolding rank
  any-Falls d v [] e z b = rw (e, take_any) (inl (omega (arith, z, ap length e), omega (arith, b)))
  any-Falls d v (t ∷ ts) e z b =
      rw (e, take_any) (inr (omega (arith, ap length e), z, omega (arith, b)))

  begin-Falls : (d : Bool) (t : Option (Task F)) → Falls (picked d t) (begin_task s d t)
  unfolding rank
  begin-Falls false none = inl (omega arith, omega arith)
  begin-Falls true none = inl (omega arith, omega arith)
  begin-Falls d (some t) = begun t.cb t.coro refl refl
    where
      begun :
          (cb : Option F) (coro : Option ℕ)
          → t.cb ≡ cb
          → t.coro ≡ coro
          → Falls (picked d (some t)) (begin_task s d (some t))
      begun (some f) coro e g = rw (e, begin_task) (inl (omega arith, omega arith))
      begun none (some c) e g = rw (e, g, begin_task) (inl (omega arith, omega arith))
      begun none none e g = rw (e, g, begin_task) (inl (omega arith, omega arith))

  reuse-Falls :
      (d : Bool) (f : F) (cs : List ℕ) → s.coro_pool ≡ cs → Falls (pool_take d f) (reuse_coro s d f)
  unfolding rank
  reuse-Falls d f [] e = rw (e, reuse_coro) (inl (omega arith, omega arith))
  reuse-Falls d f (c ∷ cs) e = elim (Option-cases (reset f (s.coros c))) [
    | inl g ↦ rw (e, g, reuse_coro) (inl (omega arith, omega arith))
    | inr (co, g) ↦ rw (e, g, reuse_coro) (inl (omega arith, omega arith))
  ]

  resume-Falls : (d : Bool) (c : ℕ) (o : Outcome) → Falls (resuming d c) (resume_coro k s d c o)
  unfolding rank
  resume-Falls d c o = elim (Option-cases (resume o (s.coros c) (s.locals k))) [
    | inl g ↦ rw (g, resume_coro) (inl (omega arith, omega arith))
    | inr (r, g) ↦ rw (g, resume_coro) (inl (omega arith, omega arith))
  ]

  again-rank : (d : Bool) → rank {F = F} s.threads_count (again d) < s.threads_count + 6
  unfolding rank
  again-rank false = omega arith
  again-rank true = omega arith

  settle-Falls : (d : Bool) (c : ℕ) → Falls (settling d c) (settle k s d c)
  unfolding rank
  settle-Falls d c = elim (Bool-cases (is_finished (s.coros c).status)) [
    | inl g ↦ rw (g, settle) (inl (omega arith, again-rank d))
    | inr g ↦
        rw (g, settle)
          (inl (
            omega (
              arith,
              queue-update k (s.thread_tasks k ++ coro_task c ∷ []) lk,
              length-append (s.thread_tasks k) (coro_task c ∷ []),
            ),
            again-rank d,
          ))
  ]

  steal-Falls : (d : Bool) (i : ℕ) → Falls (pick_steal d i) (steal_from k s d i)
  unfolding rank
  steal-Falls d i =
      let idx = (k + 1 + i) % s.threads_count in
      elim (Bool-cases (ltb i s.threads_count)) [
        | inr e ↦ rw (e, steal_from) (inl (omega arith, omega arith))
        | inl e ↦
            let onward : Falls (pick_steal d i) (s, pick_steal d (suc i)) =
              inl (omega arith, ground arith) in
            elim (Bool-cases (idx == k)) [
              | inl f ↦ rw (e, f, steal_from) onward
              | inr f ↦ elim (Bool-cases (is_empty (s.thread_tasks idx))) [
                | inl g ↦ rw (e, f, g, steal_from) onward
                | inr g ↦ rw (e, f, g, steal_from) (inl (omega arith, ground arith))
              ]
            ]
      ]

  pub work-Falls :
      (v : Worker F) (o : Outcome)
      → s.stopped ≡ true
      → Holds s v
      → is_live v ≡ true
      → Falls v (work k s v o)
  unfolding work rank
  work-Falls looping o e h live = rw e (inl (omega arith, omega arith))
  work-Falls (pick_own d) o e h live = elim (Bool-cases (is_empty (s.thread_tasks k))) [
    | inl g ↦ rw g (inl (omega arith, omega arith))
    | inr g ↦ rw g (inl (omega arith, omega arith))
  ]
  work-Falls (take_own d) o e h live =
      take-Falls k d (take_own d) (s.thread_tasks k) lk refl refl refl
  work-Falls (pick_global d) o e h live = elim (Bool-cases (is_empty s.global_tasks)) [
    | inl g ↦ rw g (inl (omega arith, omega arith))
    | inr g ↦ rw g (inl (omega arith, omega arith))
  ]
  work-Falls (take_global d) o e h live = any-Falls d (take_global d) s.global_tasks refl refl refl
  work-Falls (pick_steal d i) o e h live = steal-Falls d i
  work-Falls (take_steal d x) o e h live =
      take-Falls x d (take_steal d x) (s.thread_tasks x) h refl refl refl
  work-Falls (picked d t) o e h live = begin-Falls d t
  work-Falls (pool_check d f) o e h live = elim (Bool-cases (is_empty s.coro_pool)) [
    | inl g ↦ rw g (inl (omega arith, omega arith))
    | inr g ↦ rw g (inl (omega arith, omega arith))
  ]
  work-Falls (pool_take d f) o e h live = reuse-Falls d f s.coro_pool refl
  work-Falls (resuming d c) o e h live = resume-Falls d c o
  work-Falls (settling d c) o e h live = settle-Falls d c
  work-Falls exited o e h live = cc
  work-Falls null_call o e h live = cc
  work-Falls assertion o e h live = cc
