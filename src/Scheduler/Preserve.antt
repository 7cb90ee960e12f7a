-- ===== src/Scheduler/Preserve.antt =====
-- src/scheduler/scheduler.cpp: the invariant over steps that only move tasks, or make a coroutine.
use qc.Base.{
  ℕ, suc, ◌+◌, ◌≤◌, ◌<◌, ◌≡◌, refl, Bool, true, some, List, [], ◌∷◌, ◌++◌, update, update-elim, sum,
  sum-update, le-sum, arith,
}
use qc.Coroutine.{Coroutine, Locals, is_resumable}
use qc.Scheduler.{Task, Scheduler}
use qc.Scheduler.Worker.{Worker, take_steal, picked, resuming, settling, assertion}
use qc.Scheduler.Invariant.{is_ref, task_ref, refs_in, held, refs, Ready, Holds, Inv}

pub refs_in-append :
    {F : Type 0} (c : ℕ) (xs : List (Task F)) (t : Task F) (ys : List (Task F))
    → refs_in c (xs ++ t ∷ ys) ≡ refs_in c (xs ++ ys) + task_ref c t
unfolding refs_in
refs_in-append c [] t ys = omega arith
refs_in-append c (x ∷ xs) t ys = omega (arith, refs_in-append c xs t ys)

pub refs_in_last :
    {F : Type 0} (c : ℕ) (xs : List (Task F)) (t : Task F)
    → refs_in c (xs ++ t ∷ []) ≡ refs_in c xs + task_ref c t
unfolding refs_in
refs_in_last c [] t = omega arith
refs_in_last c (x ∷ xs) t = omega (arith, refs_in_last c xs t)

module _ {F : Type 0} {s : Scheduler F} {w : ℕ → Worker F} {flying : List (Task F)}
    (inv : Inv s w flying) (k : ℕ) (lt : k < s.threads_count) where
  open inv use {calls, single, known, ready, pooled, holding}

  pub held-update :
      (c : ℕ) (v : Worker F)
      → sum s.threads_count (λ j. held c (update w k v j)) + held c (w k)
        ≡ sum s.threads_count (λ j. held c (w j)) + held c v
  held-update c v = sum-update (held c) s.threads_count w k v lt

  -- A step that changes only where worker `k` stands.
  pub pure-Inv :
      (v : Worker F) → ((c : ℕ) → held c v ≤ held c (w k)) → Holds s v → Inv s (update w k v) flying
  pure-Inv v same h = record {
    calls = calls;
    single = λ c. omega (arith, single c, refs_same c);
    known = λ c p. known c (omega (arith, refs_same c));
    ready = ready;
    pooled = pooled;
    holding = λ j lj. update-elim (Holds s) w k v j (λ _. h) (λ _. holding j lj);
  }
    where
      refs_same : (c : ℕ) → refs c s (update w k v) ≤ refs c s w
      refs_same c = omega (arith, held-update c v, same c)

  pub queue-update :
      (c j : ℕ) (ts : List (Task F))
      → j < s.threads_count
      → sum s.threads_count (λ i. refs_in c (update s.thread_tasks j ts i))
          + refs_in c (s.thread_tasks j)
        ≡ sum s.threads_count (λ i. refs_in c (s.thread_tasks i)) + refs_in c ts
  queue-update c j ts lj = sum-update (refs_in c) s.threads_count s.thread_tasks j ts lj

  -- The front task of a queue goes to the worker.
  pub take-Inv :
      (d : Bool) (j : ℕ) (t : Task F) (ts : List (Task F))
      → j < s.threads_count
      → s.thread_tasks j ≡ t ∷ ts
      → ((c : ℕ) → held c (w k) ≡ 0)
      → Inv
          (record s { thread_tasks = update s.thread_tasks j ts })
          (update w k (picked d (some t)))
          flying
  unfolding refs_in
  take-Inv d j t ts lj e z = record {
    calls = calls;
    single = λ c. omega (arith, single c, refs_same c);
    known = λ c p. known c (omega (arith, refs_same c));
    ready = λ c i li.
        update-elim (λ q. 0 < refs_in c q → Ready s c) s.thread_tasks j ts i
          (λ _ p. ready c j lj (omega (arith, front c))) (λ _. ready c i li);
    pooled = pooled;
    holding = λ i li.
        update-elim (Holds s) w k (picked d (some t)) i
          (λ _ c p. ready c j lj (omega (arith, front c))) (λ _. holding i li);
  }
    where
      front : (c : ℕ) → refs_in c (s.thread_tasks j) ≡ task_ref c t + refs_in c ts
      front c = rw e refl

      refs_same :
          (c : ℕ)
          → refs c
              (record s { thread_tasks = update s.thread_tasks j ts })
              (update w k (picked d (some t)))
            ≡ refs c s w
      refs_same c =
          omega (arith, held-update c (picked d (some t)), queue-update c j ts lj, front c, z c)

  -- No task of the global queue has a coroutine, so its front leaves every count as it was.
  pub global-Inv :
      (d : Bool) (t : Task F) (ts : List (Task F))
      → s.global_tasks ≡ t ∷ ts
      → ((c : ℕ) → held c (w k) ≡ 0)
      → Inv (record s { global_tasks = ts }) (update w k (picked d (some t))) flying
  unfolding refs_in
  global-Inv d t ts e z = record {
    calls = λ c. omega (arith, calls c, front c);
    single = λ c. omega (arith, single c, refs_same c);
    known = λ c p. known c (omega (arith, refs_same c));
    ready = ready;
    pooled = pooled;
    holding = λ i li.
        update-elim (Holds s) w k (picked d (some t)) i
          (λ _ c p. absurd (omega (arith, calls c, front c))) (λ _. holding i li);
  }
    where
      front : (c : ℕ) → refs_in c s.global_tasks ≡ task_ref c t + refs_in c ts
      front c = rw e refl

      refs_same :
          (c : ℕ)
          → refs c (record s { global_tasks = ts }) (update w k (picked d (some t))) ≡ refs c s w
      refs_same c = omega (arith, held-update c (picked d (some t)), calls c, front c, z c)

  -- A new coroutine, at a fresh address, which nothing refers to.
  pub new-Inv :
      (d : Bool) (co : Coroutine F) (id : ℕ) (ls : ℕ → Locals)
      → ((c : ℕ) → held c (w k) ≡ 0)
      → is_resumable co.status ≡ true
      → Inv
          (record s {
            coros = update s.coros s.fresh co;
            fresh = suc s.fresh;
            coro_id = id;
            locals = ls;
          })
          (update w k (resuming d s.fresh))
          flying
  new-Inv d co id ls z r = record {
    calls = calls;
    single = λ c. ground (arith, single c, known c, refs_new c);
    known = λ c p. ground (arith, known c, refs_new c);
    ready = λ c i li p. ground (
      arith,
      ready c i li p,
      below c (omega (arith, le-sum s.threads_count (λ j. refs_in c (s.thread_tasks j)) i li)),
    );
    pooled = λ c p. ground (arith, pooled c p, below c (omega arith));
    holding = λ i li.
        update-elim (Holds s') w k (resuming d s.fresh) i (λ _. ground arith)
          (λ _. keep (w i) (λ c. le-sum s.threads_count (λ j. held c (w j)) i li) (holding i li));
  }
    where
      s' : Scheduler F
      s' = record s {
        coros = update s.coros s.fresh co;
        fresh = suc s.fresh;
        coro_id = id;
        locals = ls;
      }

      below : (c : ℕ) → 0 < refs c s w → c < s.fresh
      below c p = known c p

      keep :
          (v : Worker F)
          → ((c : ℕ) → held c v ≤ sum s.threads_count (λ j. held c (w j)))
          → Holds s v
          → Holds s' v
      keep (take_steal d idx) b h = h
      keep (picked d (some t)) b h = λ c p. ground (arith, h c p, known c (omega (arith, b c)))
      keep (resuming d c) b h = ground (arith, known c (ground (arith, b c)))
      keep (settling d c) b h = ground (arith, known c (ground (arith, b c)))
      keep assertion b h = h
      keep _ b h = tt

      refs_new :
          (c : ℕ) → refs c s' (update w k (resuming d s.fresh)) ≡ refs c s w + is_ref c s.fresh
      refs_new c = omega (arith, held-update c (resuming d s.fresh), z c)
