-- ===== src/Scheduler/Steps.antt =====
-- src/scheduler/scheduler.cpp, `run`: the invariant over each step of a worker.
use qc.Base.{
  ℕ, suc, ◌+◌, ◌%◌, ◌<◌, ◌≡◌, ◌≢◌, refl, ap, ◌∙◌, inl, inr, Bool, true, false, Option, none, some,
  List, [], ◌∷◌, ◌==◌, update, arith, ltb, Bool-cases,
}
use qc.Coroutine.{Outcome, throws_unknown, is_finished, construct}
use qc.Scheduler.{Task, Scheduler, is_empty}
use qc.Scheduler.Worker.{
  Worker, looping, pick_own, take_own, pick_global, take_global, pick_steal, take_steal, picked,
  pool_check, pool_take, resuming, settling, exited, null_call, assertion, work, take_from,
  take_any, steal_from, begin_task, new_coro, reuse_coro, resume_coro, settle, again,
}
use qc.Coroutine.Lifecycle.{resume_lem, finished-reset}
use native.Mathlib.Nat.{mod-lt}
use qc.Scheduler.Invariant.{held, in_pool, Ready, Holds, Inv}
use qc.Scheduler.Preserve.{pure-Inv, take-Inv, global-Inv, new-Inv}
use qc.Scheduler.PreserveCoros.{reuse-Inv, resume-Inv, settle_pool-Inv, settle_queue-Inv}

again-Holds : {F : Type 0} (s : Scheduler F) (d : Bool) → Holds s (again d)
again-Holds s false = tt
again-Holds s true = tt

module _ {F : Type 0} {s : Scheduler F} {w : ℕ → Worker F} {flying : List (Task F)}
    (inv : Inv s w flying) (k : ℕ) (lt : k < s.threads_count) where
  -- The state after a step that makes `r` of the scheduler and of worker `k`.
  abbrev After : Scheduler F × Worker F → Type 0
  After r = Inv r.0 (update w k r.1) flying

  none_at : (v : Worker F) → w k ≡ v → ((c : ℕ) → held c v ≡ 0) → (c : ℕ) → held c (w k) ≡ 0
  none_at v e z c = ap (held c) e ∙ z c

  -- A step of a worker that holds nothing, or lets go, and changes nothing else.
  free-After : (v : Worker F) → ((c : ℕ) → held c v ≡ 0) → Holds s v → After (s, v)
  free-After v z h = pure-Inv inv k lt v (λ c. omega (arith, z c)) h

  take-After :
      (j : ℕ) (d : Bool) (ts : List (Task F))
      → j < s.threads_count
      → s.thread_tasks j ≡ ts
      → ((c : ℕ) → held c (w k) ≡ 0)
      → After (take_from j s d)
  take-After j d [] lj e z = rw (e, take_from) (free-After (picked d none) (λ c. refl) tt)
  take-After j d (t ∷ ts) lj e z = rw (e, take_from) (take-Inv inv k lt d j t ts lj e z)

  any-After :
      (d : Bool) (ts : List (Task F))
      → s.global_tasks ≡ ts
      → ((c : ℕ) → held c (w k) ≡ 0)
      → After (take_any s d)
  any-After d [] e z = rw (e, take_any) (free-After (picked d none) (λ c. refl) tt)
  any-After d (t ∷ ts) e z = rw (e, take_any) (global-Inv inv k lt d t ts e z)

  begin_some-After :
      (d : Bool) (t : Task F) (cb : Option F) (coro : Option ℕ)
      → t.cb ≡ cb
      → t.coro ≡ coro
      → w k ≡ picked d (some t)
      → Holds s (picked d (some t))
      → After (begin_task s d (some t))
  begin_some-After d t (some f) coro b q e h =
      rw (b, begin_task) (free-After (pool_check d f) (λ c. refl) tt)
  begin_some-After d t none none b q e h =
      rw (b, q, begin_task) (free-After null_call (λ c. refl) tt)
  begin_some-After d t none (some c) b q e h =
      rw (b, q, begin_task)
        (pure-Inv inv k lt (resuming d c) (λ a. rw (e, q) (omega arith))
          (h c (rw q (ground arith))))

  begin-After :
      (d : Bool) (t : Option (Task F))
      → w k ≡ picked d t
      → Holds s (picked d t)
      → After (begin_task s d t)
  begin-After false none e h = free-After looping (λ c. refl) tt
  begin-After true none e h = free-After exited (λ c. refl) tt
  begin-After d (some t) e h = begin_some-After d t t.cb t.coro refl refl e h

  steal-After : (d : Bool) (i : ℕ) → After (steal_from k s d i)
  steal-After d i =
      let idx = (k + 1 + i) % s.threads_count in
      let onward : After (s, pick_steal d (suc i)) =
        free-After (pick_steal d (suc i)) (λ c. refl) tt in
      elim (Bool-cases (ltb i s.threads_count)) [
        | inr e ↦ rw (e, steal_from) (free-After (picked d none) (λ c. refl) tt)
        | inl e ↦ elim (Bool-cases (idx == k)) [
          | inl f ↦ rw (e, f, steal_from) onward
          | inr f ↦ elim (Bool-cases (is_empty (s.thread_tasks idx))) [
            | inl g ↦ rw (e, f, g, steal_from) onward
            | inr g ↦
                rw (e, f, g, steal_from)
                  (free-After (take_steal d idx) (λ c. refl) (mod-lt (k + 1 + i) (omega arith)))
          ]
        ]
      ]

  reuse-After :
      (d : Bool) (f : F) (cs : List ℕ)
      → s.coro_pool ≡ cs
      → ((c : ℕ) → held c (w k) ≡ 0)
      → After (reuse_coro s d f)
  unfolding in_pool
  reuse-After d f [] e z = rw (e, reuse_coro) (free-After null_call (λ c. refl) tt)
  reuse-After d f (c ∷ cs) e z =
      let ready =
        finished-reset (s.coros c) (s.locals k) f Outcome.yields
          (inv.pooled c (rw e (ground arith))) in
      rw (e, ready.0, reuse_coro) (reuse-Inv inv k lt d c cs _ e z refl)

  resume-After :
      (d : Bool) (c : ℕ) (o : Outcome)
      → o ≢ throws_unknown
      → w k ≡ resuming d c
      → Ready s c
      → After (resume_coro k s d c o)
  resume-After d c o known e r =
      rw (resume_lem, r, resume_coro) (resume-Inv inv k lt d c _ _ e (ground arith))

  settle-After :
      (d : Bool) (c : ℕ) → w k ≡ settling d c → Holds s (settling d c) → After (settle k s d c)
  settle-After d c e h = elim (Bool-cases (is_finished (s.coros c).status)) [
    | inl f ↦
        rw (f, settle)
          (settle_pool-Inv inv k lt d c (again d) e (λ b. ground arith) (again-Holds s d) f)
    | inr f ↦
        rw (f, settle)
          (settle_queue-Inv inv k lt d c (again d) e (λ b. ground arith) (again-Holds s d)
            (ground arith))
  ]

  new-After : (d : Bool) (f : F) → ((c : ℕ) → held c (w k) ≡ 0) → After (new_coro k s d f)
  unfolding construct
  new-After d f z = new-Inv inv k lt d _ _ _ z refl

  pool-After :
      (d : Bool) (f : F) (o : Outcome) → w k ≡ pool_check d f → After (work k s (pool_check d f) o)
  unfolding work
  pool-After d f o e = elim (Bool-cases (is_empty s.coro_pool)) [
    | inl g ↦ rw g (new-After d f (none_at (pool_check d f) e (λ c. refl)))
    | inr g ↦ rw g (free-After (pool_take d f) (λ c. refl) tt)
  ]

  pub work-Inv :
      (v : Worker F) (o : Outcome) → o ≢ throws_unknown → w k ≡ v → Holds s v → After (work k s v o)
  unfolding work
  work-Inv looping o known e h = free-After (pick_own s.stopped) (λ c. refl) tt
  work-Inv (pick_own d) o known e h = elim (Bool-cases (is_empty (s.thread_tasks k))) [
    | inl g ↦ rw g (free-After (pick_global d) (λ c. refl) tt)
    | inr g ↦ rw g (free-After (take_own d) (λ c. refl) tt)
  ]
  work-Inv (take_own d) o known e h =
      take-After k d (s.thread_tasks k) lt refl (none_at (take_own d) e (λ c. refl))
  work-Inv (pick_global d) o known e h = elim (Bool-cases (is_empty s.global_tasks)) [
    | inl g ↦ rw g (free-After (pick_steal d 0) (λ c. refl) tt)
    | inr g ↦ rw g (free-After (take_global d) (λ c. refl) tt)
  ]
  work-Inv (take_global d) o known e h =
      any-After d s.global_tasks refl (none_at (take_global d) e (λ c. refl))
  work-Inv (pick_steal d i) o known e h = steal-After d i
  work-Inv (take_steal d idx) o known e h =
      take-After idx d (s.thread_tasks idx) h refl (none_at (take_steal d idx) e (λ c. refl))
  work-Inv (picked d t) o known e h = begin-After d t e h
  work-Inv (pool_check d f) o known e h = pool-After d f o e
  work-Inv (pool_take d f) o known e h =
      reuse-After d f s.coro_pool refl (none_at (pool_take d f) e (λ c. refl))
  work-Inv (resuming d c) o known e h = resume-After d c o known e h
  work-Inv (settling d c) o known e h = settle-After d c e h
  work-Inv exited o known e h = free-After exited (λ c. refl) tt
  work-Inv null_call o known e h = free-After null_call (λ c. refl) tt
  work-Inv assertion o known e h = absurd h
