-- ===== src/Scheduler/Winding.antt =====
-- src/scheduler/scheduler.cpp: runs of the workers after `stop`.
use qc.Base.{
  ℕ, suc, ◌+◌, ◌*◌, ◌≤◌, ◌<◌, ◌≡◌, refl, sym, ap, subst, ◌∙◌, inl, inr, true, update, sum,
  sum-update, sum_bound, arith,
}
use native.Mathlib.Nat.{mul-suc, mul-add}
use qc.Coroutine.{Outcome, throws_unknown}
use qc.Scheduler.{Scheduler}
use qc.Scheduler.Worker.{Worker, work}
use qc.Scheduler.Invariant.{Crew, works}
use qc.Scheduler.Safety.{Reach, Reach-Inv, CrewInv, Step-Inv}
use qc.Scheduler.Steady.{work-IsSteady}
use qc.Scheduler.Rank.{queued, is_live, requeues, rank, rank_bound}
use qc.Scheduler.Fall.{Falls, work-Falls}

-- Steps of workers that have not left `run`: how many, and how many of them put a coroutine back.
pub data Winding {F : Type 0} (s : Crew F) : Crew F → ℕ → ℕ → Type 0 where
  rest : Winding s s 0 0
  wind :
      {t : Crew F} {m y : ℕ}
      → Winding s t m y
      → (k : ℕ) (o : Outcome) → k < t.sched.threads_count
      → (o ≡ throws_unknown → ⊥)
      → is_live (t.workers k) ≡ true
      → Winding s
          (record {
            sched = (work k t.sched (t.workers k) o).0;
            workers = update t.workers k (work k t.sched (t.workers k) o).1;
            in_flight = t.in_flight;
          })
          (suc m)
          (y + requeues t.sched (t.workers k))

module _ {F : Type 0} where
  unfoldable pub potential : ℕ → Scheduler F → (ℕ → Worker F) → ℕ
  potential n s w = (n + 9) * queued s + sum n (λ j. rank n (w j))

  pub fall_potential :
      (s : Scheduler F) (w : ℕ → Worker F) (k : ℕ) (lk : k < s.threads_count)
      → (r : Scheduler F × Worker F) → Falls k s lk (w k) r
      → suc (potential s.threads_count r.0 (update w k r.1))
        ≤ potential s.threads_count s w + (s.threads_count + 9) * requeues s (w k)
  unfolding potential
  fall_potential s w k lk r (inl (q, f)) =
      let c = s.threads_count + 9 in
      omega (
        arith,
        f,
        sum-update (rank s.threads_count) s.threads_count w k r.1 lk,
        ap (λ x. c * x) q ∙ mul-add c (queued s) (requeues s (w k)),
      )
  fall_potential s w k lk r (inr (q, z, f)) =
      let c = s.threads_count + 9 in
      omega (
        arith,
        f,
        sum-update (rank s.threads_count) s.threads_count w k r.1 lk,
        sym (mul-suc c (queued r.0)) ∙ ap (λ x. c * x) q,
      )

  pub record Ending (n : ℕ) (s : Crew F) : Type 0 where
    pub inv : CrewInv s
    pub flag : s.sched.stopped ≡ true
    pub count : s.sched.threads_count ≡ n

  pub Winding-Ending : {n : ℕ} {s t : Crew F} {m y : ℕ} → Winding s t m y → Ending n s → Ending n t
  Winding-Ending rest e = e
  Winding-Ending (wind {t} r k o lk known live) e =
      let e' = Winding-Ending r e in
      let (count, flag, _) = work-IsSteady k t.sched (t.workers k) o in
      record {
        inv = Step-Inv (works k o lk known) e'.inv;
        flag = flag ∙ e'.flag;
        count = count ∙ e'.count;
      }

  Winding-potential :
      {n : ℕ} {s t : Crew F} {m y : ℕ}
      → Winding s t m y
      → Ending n s
      → m + potential n t.sched t.workers ≤ potential n s.sched s.workers + (n + 9) * y
  Winding-potential rest e = omega arith
  Winding-potential {n} {s} (wind {t} {m} {y} r k o lk known live) e =
      let e' = Winding-Ending r e in
      let fall =
        fall_potential t.sched t.workers k lk (work k t.sched (t.workers k) o)
          (work-Falls k t.sched lk (t.workers k) o e'.flag (e'.inv.holding k lk) live) in
      let fall' =
        subst
          (λ x.
            suc (
              potential x (work k t.sched (t.workers k) o).0
                (update t.workers k (work k t.sched (t.workers k) o).1))
            ≤ potential x t.sched t.workers + (x + 9) * requeues t.sched (t.workers k))
          e'.count fall in
      omega
        (arith, fall', Winding-potential r e, mul-add (n + 9) y (requeues t.sched (t.workers k)))

  -- Once the scheduler stopped, the workers take only so many steps until each has left `run` or
  -- failed (a call through a null pointer, an assertion): at most `n + 9` for each queued task and each
  -- time that a suspended coroutine is put back, and `2 * n + 10` for each of the `n` workers.
  -- Nothing is put in a queue from outside, and callbacks throw nothing but a `std::exception`.
  pub Winding-bound :
      {s t : Crew F} {steps requeued : ℕ}
      → Reach s
      → s.sched.stopped ≡ true
      → Winding s t steps requeued
      → steps
        ≤ (s.sched.threads_count + 9) * (queued s.sched + requeued)
          + s.sched.threads_count * (2 * s.sched.threads_count + 10)
  unfolding potential
  Winding-bound {s} {requeued} r e w =
      let n = s.sched.threads_count in
      omega (
        arith,
        Winding-potential w (record { inv = Reach-Inv r; flag = e; count = refl }),
        sum_bound (2 * n + 10) n (λ j. rank n (s.workers j)) (λ j. rank_bound n (s.workers j)),
        mul-add (n + 9) (queued s.sched) requeued,
      )
