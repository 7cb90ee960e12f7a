-- ===== src/Scheduler/Drain.antt =====
-- src/scheduler/scheduler.cpp, `stop` and the second loop of `run`: the tasks left when every worker
-- has come to the end of `run`.
use qc.Base.{
  ℕ, zero, suc, ◌+◌, ◌<◌, ◌≡◌, ◌≢◌, List, refl, sym, subst, ap, ◌∙◌, inl, inr, true, false, none,
  some, ◌==◌, update, update-elim, ℕ_discrete, if_pos, sum_zero_below, dec_lt, arith,
}
use qc.Coroutine.{Locals}
use qc.Scheduler.{Task, Scheduler, new_scheduler, construct, start, stop, place}
use qc.Scheduler.Worker.{
  Worker, looping, take_own, pick_global, take_global, pick_steal, take_steal, picked, exited,
  null_call, work,
}
use qc.Scheduler.Invariant.{Crew, Step, works, admit, deliver, stops}
use qc.Scheduler.Safety.{made_of}
use qc.Scheduler.Weight.{load_nothing, busy, outstanding, callbacks, load, weigh}
use qc.Scheduler.Conservation.{Ledger, opened, entry, conserved}
use qc.Scheduler.Cover.{Queue, own, global, size, Known, Covers, drains, running-Covers}
use qc.Scheduler.Sweep.{work-Keeps}
use qc.Scheduler.Keep.{Keeps}
use qc.Scheduler.Steady.{work-IsSteady}

module _ {F : Type 0} where
  -- A task is put in a queue before `stop` is called.
  abbrev pub IsPrompt : {s t : Crew F} → Step s t → Type 0
  IsPrompt {s} (works k o lt known) = Unit
  IsPrompt {s} (admit f idx e) = Unit
  IsPrompt {s} (deliver xs t ys e) = s.sched.stopped ≡ false
  IsPrompt {s} stops = Unit

  -- Every step of the run is so.
  abbrev pub Timely : {s : Crew F} {a b : List F} → Ledger s a b → Type 0
  Timely (opened n l f e) = Unit
  Timely (entry r st) = Timely r × IsPrompt st

  abbrev IsCovered : Scheduler F → (ℕ → Worker F) → Type 0
  IsCovered s w =
      (q : Queue) → Known s q → 0 < size s q → (k : ℕ) × (k < s.threads_count) × Covers s k (w k) q

  record Watched (s : Scheduler F) (w : ℕ → Worker F) : Type 0 where
    some_thread : 0 < s.threads_count
    first_loop : s.stopped ≡ false → (k : ℕ) → k < s.threads_count → drains (w k) ≡ false
    cover : IsCovered s w

  -- Worker `k` moves, and covers what it covered.
  moved-IsCovered :
      (s : Scheduler F) (w : ℕ → Worker F) (k : ℕ) (v : Worker F)
      → ((q : Queue) → Known s q → 0 < size s q → Covers s k (w k) q → Covers s k v q)
      → IsCovered s w
      → IsCovered s (update w k v)
  moved-IsCovered s w k v keep cover q known p =
      let (j, lj, c) = cover q known p in
      (
        j,
        lj,
        update-elim (λ u. Covers s j u q) w k v j
            (λ e.
              subst (λ i. Covers s i v q) e
                (keep q known p (subst (λ i. Covers s i (w i) q) (sym e) c)))
            (λ _. c),
      )

  kept-IsCovered :
      (s : Scheduler F) (w : ℕ → Worker F) (k : ℕ) (r : Scheduler F × Worker F)
      → k < r.0.threads_count
      → Keeps k s (w k) r
      → IsCovered s w
      → IsCovered r.0 (update w k r.1)
  kept-IsCovered s w k r lk (inl all) cover q known p =
      (k, lk, subst (λ u. Covers r.0 k u q) (sym (if_pos (ℕ_discrete k k) refl r.1 (w k))) (all q))
  kept-IsCovered s w k r lk (inr (same, keep)) cover q known p =
      subst (λ x. IsCovered x (update w k r.1)) (sym same) (moved-IsCovered s w k r.1 keep cover) q
        known p

  work-Watched :
      {s : Scheduler F} {w : ℕ → Worker F} (k : ℕ)
      → k < s.threads_count
      → (r : Scheduler F × Worker F)
      → (r.0.threads_count ≡ s.threads_count)
        × (r.0.stopped ≡ s.stopped)
        × (s.stopped ≡ false → drains (w k) ≡ false → drains r.1 ≡ false)
      → Keeps k s (w k) r
      → Watched s w
      → Watched r.0 (update w k r.1)
  work-Watched {s} {w} k lk r (count, flag, second) kept inv = record {
    some_thread = omega (arith, inv.some_thread);
    first_loop = λ e j lj.
        update-elim (λ v. drains v ≡ false) w k r.1 j
          (λ _. second (sym flag ∙ e) (inv.first_loop (sym flag ∙ e) k lk))
          (λ _. inv.first_loop (sym flag ∙ e) j (omega arith));
    cover = kept-IsCovered s w k r (omega (arith, lk, count)) kept inv.cover;
  }

  -- With a worker still in its first loop every queue is covered.
  running-Watched :
      (s : Scheduler F) (w : ℕ → Worker F)
      → 0 < s.threads_count
      → ((k : ℕ) → k < s.threads_count → drains (w k) ≡ false)
      → Watched s w
  running-Watched s w one first = record {
    some_thread = one;
    first_loop = λ _. first;
    cover = λ q _ _. (0, one, running-Covers s 0 (w 0) q (first 0 one));
  }

  pub place_steady :
      (s : Scheduler F) (t : Task F)
      → ((place t s).threads_count ≡ s.threads_count) × ((place t s).stopped ≡ s.stopped)
  unfolding place
  place_steady s t = ground arith

  opened-Watched :
      (n : ℕ) (l : Locals) (f : F) (s : Scheduler F)
      → construct n l f ≡ some s
      → Watched (start s).0 (λ _. looping)
  unfolding construct start
  opened-Watched zero l f s e = cc
  opened-Watched (suc n) l f s e =
      let made : new_scheduler (suc n) l f ≡ s = made_of (suc n == 0) _ s e in
      subst (λ x. Watched (start x).0 (λ _. looping)) made
        (running-Watched _ (λ _. looping) (omega arith) (λ k lk. refl))

  stopped-Covers :
      (s : Scheduler F) (k : ℕ) (v : Worker F) (q : Queue)
      → Covers s k v q
      → Covers (record s { stopped = true }) k v q
  stopped-Covers s k (take_own true) q c = c
  stopped-Covers s k (pick_global true) q c = c
  stopped-Covers s k (take_global true) q c = c
  stopped-Covers s k (pick_steal true i) q c = c
  stopped-Covers s k (take_steal true x) q c = c
  stopped-Covers s k (picked true none) q c = c
  stopped-Covers s k exited q c = c
  stopped-Covers s k _ q c = tt

  stopped-IsCovered :
      (s : Scheduler F) (w : ℕ → Worker F)
      → IsCovered s w
      → IsCovered (record s { stopped = true }) w
  stopped-IsCovered s w cover (own x) known p =
      let (k, lk, c) = cover (own x) known p in (k, lk, stopped-Covers s k (w k) (own x) c)
  stopped-IsCovered s w cover global known p =
      let (k, lk, c) = cover global known p in (k, lk, stopped-Covers s k (w k) global c)

  Step-Watched :
      {s t : Crew F} (st : Step s t)
      → IsPrompt st
      → Watched s.sched s.workers
      → Watched t.sched t.workers
  unfolding stop
  Step-Watched {s} (works k o lk known) p inv =
      work-Watched k lk (work k s.sched (s.workers k) o) (work-IsSteady k s.sched (s.workers k) o)
        (work-Keeps k s.sched lk (s.workers k) o) inv
  Step-Watched (admit f idx e) p inv = inv
  Step-Watched {s} (deliver xs t ys e) p inv =
      let (count, flag) = place_steady s.sched t in
      running-Watched (place t s.sched) s.workers (omega (arith, inv.some_thread, count))
        (λ k lk. inv.first_loop p k (omega (arith, lk, count)))
  Step-Watched {s} stops p inv = record {
    some_thread = inv.some_thread;
    first_loop = λ e. cc;
    cover = stopped-IsCovered s.sched s.workers inv.cover;
  }

  Timely-Watched :
      {s : Crew F} {a b : List F} (r : Ledger s a b) → Timely r → Watched s.sched s.workers
  Timely-Watched (opened n l f {s} e) p = opened-Watched n l f s e
  Timely-Watched (entry r st) (p, q) = Step-Watched st q (Timely-Watched r p)

  abbrev pub AllExited : Crew F → Type 0
  AllExited s = (k : ℕ) → k < s.sched.threads_count → s.workers k ≡ exited

  no_cover :
      (s : Crew F)
      → Watched s.sched s.workers
      → AllExited s
      → (q : Queue) → Known s.sched q
      → size s.sched q ≡ 0
  no_cover s inv out q known = elim (dec_lt 0 (size s.sched q)) [
    | yes p ↦
        let (k, lk, c) = inv.cover q known p in
        absurd (subst (λ v. Covers s.sched k v q) (out k lk) c)
    | no p ↦ omega arith
  ]

  -- The queues are empty, and no worker has a task.
  exited-outstanding :
      (φ : F → ℕ) (s : Crew F)
      → Watched s.sched s.workers
      → AllExited s
      → outstanding φ s.sched s.workers s.in_flight ≡ load φ (callbacks φ s.sched) s.in_flight
  exited-outstanding φ s inv out =
      let g = callbacks φ s.sched in
      omega (
        arith,
        sum_zero_below s.sched.threads_count (λ j. load φ g (s.sched.thread_tasks j))
            (λ j lj. load_nothing φ g (s.sched.thread_tasks j) (no_cover s inv out (own j) lj)),
        sum_zero_below s.sched.threads_count (λ j. busy φ g (s.workers j))
            (λ j lj. ap (busy φ g) (out j lj)),
        load_nothing φ g s.sched.global_tasks (no_cover s inv out global tt),
      )

  -- In a run from `start`, with no second one, in which each task was put in its queue before `stop`, only
  -- callbacks are scheduled from outside, and they throw nothing but a `std::exception`: once every worker
  -- has left `run`, each queue is empty, and each callback was taken on as often as a task with it has come to its end, or is
  -- with a call of `execute` that has yet to queue it.
  pub drained :
      (φ : F → ℕ) {s : Crew F} {submitted completed : List F} (r : Ledger s submitted completed)
      → Timely r
      → ((k : ℕ) → k < s.sched.threads_count → s.workers k ≡ exited)
      → (q : Queue) → Known s.sched q
      → (size s.sched q ≡ 0)
        × (weigh φ submitted ≡ weigh φ completed + load φ (callbacks φ s.sched) s.in_flight)
  drained φ {s} r p out q known =
      let inv = Timely-Watched r p in
      let whole : (k : ℕ) → k < s.sched.threads_count → s.workers k ≢ null_call =
        λ k lk e. let left = out k lk in cc in
      (
        no_cover s inv out q known,
        omega (arith, conserved φ r whole, exited-outstanding φ s inv out),
      )
