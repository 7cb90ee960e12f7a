-- ===== src/Scheduler/Safety.antt =====
-- src/scheduler/scheduler.cpp: the states that are reachable from `start`.
use qc.Base.{
  ◌==◌, if◌then◌else◌, ℕ, zero, suc, ◌<◌, ◌≡◌, ◌≢◌, refl, subst, inl, inr, Bool, true, false, none,
  some, List, [], ◌∷◌, ◌++◌, update, update-elim, sum, sum_eq_zero, sum-update, arith, Bool-cases,
}
use qc.Coroutine.{Locals}
use qc.Scheduler.{Task, Scheduler, place, has_own_queue, new_scheduler, construct, start, stop}
use qc.Scheduler.Worker.{Worker, looping, assertion}
use qc.Scheduler.Invariant.{
  Crew, Step, works, admit, deliver, stops, task_ref, refs_in, in_pool, Ready, Holds, Inv,
}
use qc.Scheduler.Preserve.{refs_in-append, refs_in_last}
use qc.Scheduler.Steps.{work-Inv}

-- The scheduler after its constructor and `start`: every worker is about to enter its loop.
pub data Reach {F : Type 0} : Crew F → Type 0 where
  started :
      (n : ℕ) (l : Locals) (f : F) {s : Scheduler F}
      → construct n l f ≡ some s
      → Reach (record { sched = (start s).0; workers = λ _. looping; in_flight = [] })
  later : {s t : Crew F} → Reach s → Step s t → Reach t

abbrev pub CrewInv : {F : Type 0} → Crew F → Type 0
CrewInv s = Inv s.sched s.workers s.in_flight

pub made_of {ℓ} : {A : Type ℓ} (b : Bool) (x s : A) → (if b then none else some x) ≡ some s → x ≡ s
made_of true x s e = cc
made_of false x s e = cc

module _ {F : Type 0} where
  pub started-Inv :
      (n : ℕ) (l : Locals) (f : F) (s : Scheduler F)
      → construct n l f ≡ some s
      → Inv (start s).0 (λ _. looping) []
  unfolding construct start refs_in in_pool
  started-Inv zero l f s e = cc
  started-Inv (suc n) l f s e =
      let made : new_scheduler (suc n) l f ≡ s = made_of (suc n == 0) _ s e in
      subst (λ x. Inv (start x).0 (λ _. looping) []) made
        (record {
          calls = λ c. omega arith;
          single = λ c. omega (arith, sum_eq_zero (suc n) (λ _. 0) (λ _. refl));
          known = λ c p. omega (arith, sum_eq_zero (suc n) (λ _. 0) (λ _. refl));
          ready = λ c j h p. absurd (omega arith);
          pooled = λ c p. absurd (omega arith);
          holding = λ j h. tt;
        })

  -- A task that waits to be put in a queue has no coroutine.
  place-Inv :
      {s : Scheduler F} {w : ℕ → Worker F} (xs : List (Task F)) (t : Task F) (ys : List (Task F))
      → Inv s w (xs ++ t ∷ ys)
      → Inv (place t s) w (xs ++ ys)
  unfolding place refs_in
  place-Inv {s} {w} xs t ys inv = elim (Bool-cases (has_own_queue s.threads_count t.thread_idx)) [
    | inl g ↦ rw g (record {
      calls = λ c. omega (arith, inv.calls c, refs_in-append c xs t ys);
      single = λ c. omega (arith, inv.single c, same c (ground arith));
      known = λ c p. inv.known c (omega (arith, same c (ground arith)));
      ready = λ c j h.
          update-elim (λ q. 0 < refs_in c q → Ready s c) s.thread_tasks t.thread_idx
            (s.thread_tasks t.thread_idx ++ t ∷ []) j
            (λ e p.
              inv.ready c t.thread_idx (ground arith)
                (omega (arith, none_in c, refs_in_last c (s.thread_tasks t.thread_idx) t)))
            (λ _. inv.ready c j h);
      pooled = inv.pooled;
      holding = inv.holding;
    })
    | inr g ↦ rw g (record {
      calls = λ c.
          omega (arith, inv.calls c, refs_in-append c xs t ys, refs_in_last c s.global_tasks t);
      single = inv.single;
      known = inv.known;
      ready = inv.ready;
      pooled = inv.pooled;
      holding = inv.holding;
    })
  ]
    where
      none_in : (c : ℕ) → task_ref c t ≡ 0
      none_in c = omega (arith, inv.calls c, refs_in-append c xs t ys)

      same :
          (c : ℕ)
          → t.thread_idx < s.threads_count
          → sum s.threads_count (λ i.
            refs_in c
              (update s.thread_tasks t.thread_idx (s.thread_tasks t.thread_idx ++ t ∷ []) i))
            ≡ sum s.threads_count (λ i. refs_in c (s.thread_tasks i))
      same c h = omega (
        arith,
        none_in c,
        sum-update (refs_in c) s.threads_count s.thread_tasks t.thread_idx
            (s.thread_tasks t.thread_idx ++ t ∷ []) h,
        refs_in_last c (s.thread_tasks t.thread_idx) t,
      )

  pub Step-Inv : {s t : Crew F} → Step s t → CrewInv s → CrewInv t
  unfolding stop refs_in
  Step-Inv {s} (works k o lt known) inv =
      work-Inv inv k lt (s.workers k) o known refl (inv.holding k lt)
  Step-Inv (admit f idx e) inv = record {
    calls = λ c. omega (arith, inv.calls c);
    single = inv.single;
    known = inv.known;
    ready = inv.ready;
    pooled = inv.pooled;
    holding = inv.holding;
  }
  Step-Inv {s} (deliver xs t ys e) inv = place-Inv xs t ys (subst (Inv s.sched s.workers) e inv)
  Step-Inv stops inv = record {
    calls = inv.calls;
    single = inv.single;
    known = inv.known;
    ready = inv.ready;
    pooled = inv.pooled;
    holding = inv.holding;
  }

  pub Reach-Inv : {s : Crew F} → Reach s → CrewInv s
  Reach-Inv (started n l f {s} e) = started-Inv n l f s e
  Reach-Inv (later r st) = Step-Inv st (Reach-Inv r)

  -- No worker ever fails an assertion: every coroutine that a worker resumes is RADY or SUSP, and
  -- every coroutine that it resets is not RUNN. Callbacks throw nothing but a `std::exception`.
  pub assertion_unreachable :
      {s : Crew F} → Reach s → (k : ℕ) → k < s.sched.threads_count → s.workers k ≢ assertion
  assertion_unreachable {s} r k h e = subst (Holds s.sched) e ((Reach-Inv r).holding k h)
