-- ===== src/Scheduler/PreserveCoros.antt =====
-- src/scheduler/scheduler.cpp: the invariant over steps that change a coroutine, or move one between
-- a worker and the pool.
use qc.Base.{
  ℕ, ◌+◌, ◌≤◌, ◌<◌, ◌≡◌, ◌≢◌, refl, ap, subst, if_neg, ℕ_discrete, ◌⊎◌, Bool, true, some, List, [],
  ◌∷◌, ◌++◌, update, update-elim, sum, le-sum, arith,
}
use qc.Coroutine.{Coroutine, Locals, is_resumable, is_finished}
use qc.Scheduler.{Task, coro_task, Scheduler}
use qc.Scheduler.Worker.{Worker, looping, take_steal, picked, resuming, settling, assertion}
use qc.Scheduler.Invariant.{is_ref, refs_in, held, in_pool, refs, Ready, Holds, Inv}
use qc.Scheduler.Preserve.{held-update, queue-update, refs_in_last}

in_pool-append :
    (c : ℕ) (ks : List ℕ) (k : ℕ) → in_pool c (ks ++ k ∷ []) ≡ in_pool c ks + is_ref c k
unfolding in_pool
in_pool-append c [] k = omega arith
in_pool-append c (x ∷ ks) k = omega (arith, in_pool-append c ks k)

module _ {F : Type 0} {s : Scheduler F} {w : ℕ → Worker F} {flying : List (Task F)}
    (inv : Inv s w flying) (k : ℕ) (lt : k < s.threads_count) where
  open inv use {calls, single, known, ready, pooled, holding}

  -- The statuses of the other coroutines stay: what a worker relies on that does not hold `c`.
  Holds-update :
      (c : ℕ) (co : Coroutine F) (ls : ℕ → Locals) (v : Worker F)
      → held c v ≡ 0
      → Holds s v
      → Holds (record s { coros = update s.coros c co; locals = ls }) v
  Holds-update c co ls (take_steal d idx) z h = h
  Holds-update c co ls (picked d (some t)) z h = λ b p. ground (arith, h b p)
  Holds-update c co ls (resuming d b) z h = ground arith
  Holds-update c co ls (settling d b) z h = ground arith
  Holds-update c co ls assertion z h = h
  Holds-update c co ls _ z h = tt

  two_workers :
      (c i : ℕ)
      → i < s.threads_count
      → k ≢ i
      → held c (w i) + held c (w k) ≤ sum s.threads_count (λ j. held c (w j))
  two_workers c i li ne =
      let others : held c (w i) ≤ sum s.threads_count (λ j. held c (update w k looping j)) =
        subst (λ x. x ≤ sum s.threads_count (λ j. held c (update w k looping j)))
          (ap (held c) (if_neg (ℕ_discrete k i) ne looping (w i)))
          (le-sum s.threads_count (λ j. held c (update w k looping j)) i li) in
      omega (arith, held-update inv k lt c looping)

  -- A coroutine of the pool is made ready for the worker.
  pub reuse-Inv :
      (d : Bool) (c : ℕ) (cs : List ℕ) (co : Coroutine F)
      → s.coro_pool ≡ c ∷ cs
      → ((b : ℕ) → held b (w k) ≡ 0)
      → is_resumable co.status ≡ true
      → Inv
          (record s { coro_pool = cs; coros = update s.coros c co })
          (update w k (resuming d c))
          flying
  unfolding in_pool
  reuse-Inv d c cs co e z r = record {
    calls = calls;
    single = λ b. omega (arith, single b, refs_same b);
    known = λ b p. known b (omega (arith, refs_same b));
    ready = λ b i li p. ground (
      arith,
      ready b i li p,
      single b,
      front b,
      le-sum s.threads_count (λ j. refs_in b (s.thread_tasks j)) i li,
    );
    pooled = λ b p. ground (arith, pooled b, single b, front b);
    holding = λ i li.
        update-elim (Holds (record s { coros = update s.coros c co })) w k (resuming d c) i
          (λ _. ground arith)
          (λ _.
            Holds-update c co s.locals (w i)
              (ground (arith, single c, front c, le-sum s.threads_count (λ j. held c (w j)) i li))
              (holding i li));
  }
    where
      front : (b : ℕ) → in_pool b s.coro_pool ≡ is_ref b c + in_pool b cs
      front b = rw e refl

      refs_same :
          (b : ℕ)
          → refs b
              (record s { coro_pool = cs; coros = update s.coros c co })
              (update w k (resuming d c))
            ≡ refs b s w
      refs_same b = omega (arith, held-update inv k lt b (resuming d c), front b, z b)

  -- The worker runs the coroutine that it holds.
  pub resume-Inv :
      (d : Bool) (c : ℕ) (co : Coroutine F) (ls : ℕ → Locals)
      → w k ≡ resuming d c
      → (is_resumable co.status ≡ true) ⊎ (is_finished co.status ≡ true)
      → Inv
          (record s { coros = update s.coros c co; locals = ls })
          (update w k (settling d c))
          flying
  resume-Inv d c co ls e r = record {
    calls = calls;
    single = λ b. omega (arith, single b, refs_same b);
    known = λ b p. known b (omega (arith, refs_same b));
    ready = λ b i li p. ground (
      arith,
      ready b i li p,
      single b,
      mine b,
      le-sum s.threads_count (λ j. refs_in b (s.thread_tasks j)) i li,
      le-sum s.threads_count (λ j. held b (w j)) k lt,
    );
    pooled = λ b p.
        ground
          (arith, pooled b p, single b, mine b, le-sum s.threads_count (λ j. held b (w j)) k lt);
    holding = λ i li.
        update-elim (Holds (record s { coros = update s.coros c co; locals = ls })) w k
          (settling d c) i (λ _. ground arith)
          (λ ne.
            Holds-update c co ls (w i) (ground (arith, single c, mine c, two_workers c i li ne))
              (holding i li));
  }
    where
      mine : (b : ℕ) → held b (w k) ≡ is_ref b c
      mine b = rw e refl

      refs_same :
          (b : ℕ)
          → refs b
              (record s { coros = update s.coros c co; locals = ls })
              (update w k (settling d c))
            ≡ refs b s w
      refs_same b = omega (arith, held-update inv k lt b (settling d c), mine b)

  -- A finished coroutine goes to the pool.
  pub settle_pool-Inv :
      (d : Bool) (c : ℕ) (v : Worker F)
      → w k ≡ settling d c
      → ((b : ℕ) → held b v ≡ 0)
      → Holds s v
      → is_finished (s.coros c).status ≡ true
      → Inv (record s { coro_pool = s.coro_pool ++ c ∷ [] }) (update w k v) flying
  settle_pool-Inv d c v e z hv f = record {
    calls = calls;
    single = λ b. omega (arith, single b, refs_same b);
    known = λ b p. known b (omega (arith, refs_same b));
    ready = ready;
    pooled = λ b p. ground (arith, pooled b, in_pool-append b s.coro_pool c);
    holding = λ i li. update-elim (Holds s) w k v i (λ _. hv) (λ _. holding i li);
  }
    where
      refs_same :
          (b : ℕ)
          → refs b (record s { coro_pool = s.coro_pool ++ c ∷ [] }) (update w k v) ≡ refs b s w
      refs_same b =
          let mine : held b (w k) ≡ is_ref b c = rw e refl in
          omega (arith, held-update inv k lt b v, mine, in_pool-append b s.coro_pool c, z b)

  -- Any other goes to the end of the worker's queue.
  pub settle_queue-Inv :
      (d : Bool) (c : ℕ) (v : Worker F)
      → w k ≡ settling d c
      → ((b : ℕ) → held b v ≡ 0)
      → Holds s v
      → is_resumable (s.coros c).status ≡ true
      → Inv
          (record s {
            thread_tasks = update s.thread_tasks k (s.thread_tasks k ++ coro_task c ∷ []);
          })
          (update w k v)
          flying
  settle_queue-Inv d c v e z hv r = record {
    calls = calls;
    single = λ b. omega (arith, single b, refs_same b);
    known = λ b p. known b (omega (arith, refs_same b));
    ready = λ b i li.
        update-elim (λ q. 0 < refs_in b q → Ready s b) s.thread_tasks k
          (s.thread_tasks k ++ coro_task c ∷ []) i
          (λ _ p. ground (arith, ready b k lt, refs_in_last b (s.thread_tasks k) (coro_task c)))
          (λ _. ready b i li);
    pooled = pooled;
    holding = λ i li. update-elim (Holds s) w k v i (λ _. hv) (λ _. holding i li);
  }
    where
      refs_same :
          (b : ℕ)
          → refs b
              (record s {
                thread_tasks = update s.thread_tasks k (s.thread_tasks k ++ coro_task c ∷ []);
              })
              (update w k v)
            ≡ refs b s w
      refs_same b =
          let mine : held b (w k) ≡ is_ref b c = rw e refl in
          omega (
            arith,
            held-update inv k lt b v,
            mine,
            queue-update inv k lt b k (s.thread_tasks k ++ coro_task c ∷ []) lt,
            refs_in_last b (s.thread_tasks k) (coro_task c),
            z b,
          )
