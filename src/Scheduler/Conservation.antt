-- ===== src/Scheduler/Conservation.antt =====
-- src/scheduler/scheduler.cpp: the callbacks of the tasks taken on and finished in a run from `start`.
use qc.Base.{
  zero, ℕ, suc, ◌+◌, ◌<◌, ◌≡◌, ◌≢◌, ◌⊎◌, refl, ap, sym, subst, ◌∙◌, inl, inr, true, false, some,
  List, [], ◌∷◌, ◌++◌, ◌==◌, sum-update, sum_eq_zero, update-elim, arith, Bool-cases,
}
use qc.Coroutine.{Locals, Outcome}
use qc.Scheduler.{new_scheduler, stop, Task, Scheduler, place, has_own_queue, construct, start}
use qc.Scheduler.Worker.{Worker, looping, null_call, assertion, work}
use qc.Scheduler.Invariant.{Crew, Step, works, admit, deliver, stops, Holds}
use qc.Scheduler.Safety.{CrewInv, Step-Inv, started-Inv, made_of}
use qc.Scheduler.Weight.{load, outstanding, weigh, load-append, finishes, has_failed}
use qc.Scheduler.Balance.{work-Balance}
use qc.Scheduler.Steady.{work-IsSteady}

module _ {F : Type 0} where
  -- The callbacks of the tasks that a step takes on, and of those that it finishes.
  abbrev pub admitted : {s t : Crew F} → Step s t → List F
  admitted (works k o lt known) = []
  admitted (admit f idx e) = f ∷ []
  admitted (deliver xs t ys e) = []
  admitted stops = []

  abbrev pub finished : {s t : Crew F} → Step s t → List F
  finished {s} (works k o lt known) = finishes s.sched (s.workers k)
  finished (admit f idx e) = []
  finished (deliver xs t ys e) = []
  finished stops = []

  abbrev NoneFailed : Crew F → Type 0
  NoneFailed s = (k : ℕ) → k < s.sched.threads_count → has_failed (s.workers k) ≡ false

  work-has_failed :
      (k : ℕ) (s : Scheduler F) (v : Worker F) (o : Outcome)
      → has_failed v ≡ true
      → has_failed (work k s v o).1 ≡ true
  unfolding work
  work-has_failed k s null_call o e = refl
  work-has_failed k s assertion o e = refl
  work-has_failed k s _ o e = cc

  -- A worker that has failed stays so.
  Step-NoneFailed : {s t : Crew F} → Step s t → NoneFailed t → NoneFailed s
  unfolding stop place
  Step-NoneFailed {s} (works k o lk known) ok j lj = elim (Bool-cases (has_failed (s.workers j))) [
    | inr e ↦ e
    | inl e ↦
        let count = (work-IsSteady k s.sched (s.workers k) o).0 in
        let still =
          update-elim (λ v. has_failed v ≡ true) s.workers k (work k s.sched (s.workers k) o).1 j
            (λ q.
              work-has_failed k s.sched (s.workers k) o
                (subst (λ i. has_failed (s.workers i) ≡ true) (sym q) e))
            (λ _. e) in
        let fine = ok j (omega (arith, lj, count)) in cc
  ]
  Step-NoneFailed (admit f idx e) ok j lj = ok j lj
  Step-NoneFailed {s} (deliver xs t ys e) ok j lj = ok j (ground arith)
  Step-NoneFailed stops ok j lj = ok j lj

  failed_cases : (v : Worker F) → has_failed v ≡ true → (v ≡ null_call) ⊎ (v ≡ assertion)
  failed_cases null_call e = inl refl
  failed_cases assertion e = inr refl
  failed_cases _ e = cc

  null_call-NoneFailed :
      {s : Crew F}
      → CrewInv s
      → ((k : ℕ) → k < s.sched.threads_count → s.workers k ≢ null_call)
      → NoneFailed s
  null_call-NoneFailed {s} inv ok k lk = elim (Bool-cases (has_failed (s.workers k))) [
    | inr e ↦ e
    | inl e ↦ elim (failed_cases (s.workers k) e) [
      | inl q ↦ absurd (ok k lk q)
      | inr q ↦ absurd (subst (Holds s.sched) q (inv.holding k lk))
    ]
  ]

module _ {F : Type 0} (φ : F → ℕ) where
  -- The weight of the tasks in queues, with workers, and with calls of `execute`.
  abbrev pub pending : Crew F → ℕ
  pending s = outstanding φ s.sched s.workers s.in_flight

  place-Balance :
      (s : Scheduler F) (w : ℕ → Worker F) (xs : List (Task F)) (t : Task F) (ys : List (Task F))
      → outstanding φ (place t s) w (xs ++ ys) ≡ outstanding φ s w (xs ++ t ∷ ys)
  unfolding place load
  place-Balance s w xs t ys =
      let g : ℕ → F = λ c. (s.coros c).cb in
      let before = load-append φ g xs (t ∷ ys) in
      let after = load-append φ g xs ys in
      elim (Bool-cases (has_own_queue s.threads_count t.thread_idx)) [
        | inl q ↦ rw q (
            omega (
              arith,
              before,
              after,
              load-append φ g (s.thread_tasks t.thread_idx) (t ∷ []),
              sum-update (load φ g) s.threads_count s.thread_tasks t.thread_idx
                  (s.thread_tasks t.thread_idx ++ t ∷ []) (ground arith),
            ))
        | inr q ↦ rw q (omega (arith, before, after, load-append φ g s.global_tasks (t ∷ [])))
      ]

  Step-Balance :
      {s t : Crew F}
      → CrewInv s
      → NoneFailed t
      → (st : Step s t) → pending t + weigh φ (finished st) ≡ pending s + weigh φ (admitted st)
  unfolding stop weigh load
  Step-Balance {s} inv ok (works k o lt known) =
      let r = work k s.sched (s.workers k) o in
      let at = update-elim (λ v. v ≡ r.1) s.workers k r.1 k (λ _. refl) (λ ne. absurd (ne refl)) in
      let count = (work-IsSteady k s.sched (s.workers k) o).0 in
      omega (
        arith,
        work-Balance φ inv k lt (s.workers k) o refl (inv.holding k lt)
            (sym (ap has_failed at) ∙ ok k (omega (arith, lt, count))),
      )
  Step-Balance {s} inv ok (admit f idx e) = omega arith
  Step-Balance {s} inv ok (deliver xs t ys e) =
      omega (arith, place-Balance s.sched s.workers xs t ys, ap (outstanding φ s.sched s.workers) e)
  Step-Balance inv ok stops = refl

  weigh-append : (xs ys : List F) → weigh φ (xs ++ ys) ≡ weigh φ xs + weigh φ ys
  unfolding weigh
  weigh-append [] ys = omega arith
  weigh-append (x ∷ xs) ys = omega (arith, weigh-append xs ys)

-- A run from the start, with the callbacks of the tasks taken on and of those finished so far.
pub data Ledger {F : Type 0} : Crew F → List F → List F → Type 0 where
  opened :
      (n : ℕ) (l : Locals) (f : F) {s : Scheduler F}
      → construct n l f ≡ some s
      → Ledger (record { sched = (start s).0; workers = λ _. looping; in_flight = [] }) [] []
  entry :
      {s t : Crew F} {a b : List F}
      → Ledger s a b
      → (st : Step s t) → Ledger t (a ++ admitted st) (b ++ finished st)

module _ {F : Type 0} where
  pub Ledger-Inv : {s : Crew F} {a b : List F} → Ledger s a b → CrewInv s
  Ledger-Inv (opened n l f {s} e) = started-Inv n l f s e
  Ledger-Inv (entry r st) = Step-Inv st (Ledger-Inv r)

  opened-pending :
      (φ : F → ℕ) (n : ℕ) (l : Locals) (f : F) (s : Scheduler F)
      → construct n l f ≡ some s
      → pending φ (record { sched = (start s).0; workers = λ _. looping; in_flight = [] }) ≡ 0
  unfolding construct start load
  opened-pending φ zero l f s e = cc
  opened-pending φ (suc n) l f s e =
      let made : new_scheduler (suc n) l f ≡ s = made_of (suc n == 0) _ s e in
      subst
        (λ x.
          pending φ (record { sched = (start x).0; workers = λ _. looping; in_flight = [] }) ≡ 0)
        made (omega (arith, sum_eq_zero (suc n) (λ _. 0) (λ _. refl)))

  accounted :
      (φ : F → ℕ) {s : Crew F} {a b : List F}
      → Ledger s a b
      → NoneFailed s
      → weigh φ a ≡ weigh φ b + pending φ s
  unfolding weigh
  accounted φ (opened n l f {s} e) ok = omega (arith, opened-pending φ n l f s e)
  accounted φ (entry {s} {t} {a} {b} r st) ok = omega (
    arith,
    accounted φ r (Step-NoneFailed st ok),
    Step-Balance φ (Ledger-Inv r) ok st,
    weigh-append φ a (admitted st),
    weigh-append φ b (finished st),
  )

  -- In every run from `start`, with no second one, in which only callbacks are scheduled from outside, they throw nothing but a
  -- `std::exception`, and no worker has called through a null pointer: each callback was taken on as often
  -- as a task with it has come to its end, or is in a queue, with a worker, or with a call of `execute`
  -- that has yet to queue it. (A task with a coroutine has the callback of that.)
  pub conserved :
      (φ : F → ℕ) {s : Crew F} {submitted completed : List F}
      → Ledger s submitted completed
      → ((k : ℕ) → k < s.sched.threads_count → s.workers k ≢ null_call)
      → weigh φ submitted ≡ weigh φ completed + pending φ s
  conserved φ r ok = accounted φ r (null_call-NoneFailed (Ledger-Inv r) ok)
