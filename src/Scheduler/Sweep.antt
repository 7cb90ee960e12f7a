-- ===== src/Scheduler/Sweep.antt =====
-- src/scheduler/scheduler.cpp, `run` after `stop`: which queues a worker will yet look at
-- after any step, in its round over the queues above all.
use qc.Base.{
  ℕ, suc, ◌+◌, ◌-◌, ◌%◌, ◌<◌, ◌≡◌, ◌≢◌, refl, sym, subst, ap, ◌∙◌, inl, inr, Bool, true, false,
  none, ◌==◌, ltb, ==_iff, dec_lt, arith, Bool-cases,
}
use native.Mathlib.Nat.{mod-eq_of_lt, add-mod_left}
use qc.Coroutine.{Outcome}
use qc.Scheduler.{Scheduler, is_empty}
use qc.Scheduler.Worker.{
  Worker, looping, pick_own, take_own, pick_global, take_global, pick_steal, take_steal, picked,
  pool_check, pool_take, resuming, settling, exited, null_call, assertion, steal_from, work,
}
use qc.Scheduler.Cover.{Queue, own, global, size, Known, Covers}
use qc.Scheduler.Keep.{
  Keeps, moves, take-Keeps, any-Keeps, begin-Keeps, reuse-Keeps, resume-Keeps, settle-Keeps,
  empty-length, not_empty-length,
}

module _ {F : Type 0} (k : ℕ) (s : Scheduler F) where
  -- Every queue but the worker's own comes up in its round over the queues.
  round_reaches :
      (x : ℕ)
      → x < s.threads_count
      → k < s.threads_count
      → x ≢ k
      → Covers s k (pick_steal true 0) (own x)
  round_reaches x lx lk ne = elim (dec_lt k x) [
    | yes after ↦
        let e : (k + 1 + (x - (k + 1))) % s.threads_count ≡ x =
          ap (λ z. z % s.threads_count) (omega arith) ∙ mod-eq_of_lt lx in
        (x - (k + 1), omega arith, omega arith, λ f. ne (sym e ∙ f), ap own (sym e))
    | no before ↦
        let e : (k + 1 + (s.threads_count + x - (k + 1))) % s.threads_count ≡ x =
          ap (λ z. z % s.threads_count) (omega arith)
          ∙ add-mod_left s.threads_count x
          ∙ mod-eq_of_lt lx in
        (
          s.threads_count + x - (k + 1),
          omega arith,
          omega arith,
          λ f. ne (sym e ∙ f),
          ap own (sym e),
        )
  ]

  -- The worker passes a queue that is empty, or its own.
  onward :
      (i : ℕ)
      → ((q : Queue)
          → 0 < size s q
          → (k + 1 + i) % s.threads_count ≢ k
          → q ≡ own ((k + 1 + i) % s.threads_count)
          → ⊥)
      → (q : Queue) → 0 < size s q
      → Covers s k (pick_steal true i) q
      → Covers s k (pick_steal true (suc i)) q
  onward i h q p (j, le, lt, ne, c) = elim (dec_lt i j) [
    | yes later ↦ (j, later, lt, ne, c)
    | no same ↦
        let e : j ≡ i = omega arith in
        absurd (
          h q p (λ f. ne (ap (λ x. (k + 1 + x) % s.threads_count) e ∙ f))
            (c ∙ ap (λ x. own ((k + 1 + x) % s.threads_count)) e))
  ]

  steal-Keeps : (d : Bool) (i : ℕ) → Keeps k s (pick_steal d i) (steal_from k s d i)
  steal-Keeps false i = elim (Bool-cases (ltb i s.threads_count)) [
    | inr e ↦ rw (e, steal_from) (inl (λ q. tt))
    | inl e ↦ elim (Bool-cases ((k + 1 + i) % s.threads_count == k)) [
      | inl f ↦ rw (e, f, steal_from) (inl (λ q. tt))
      | inr f ↦ elim (Bool-cases (is_empty (s.thread_tasks ((k + 1 + i) % s.threads_count)))) [
        | inl g ↦ rw (e, f, g, steal_from) (inl (λ q. tt))
        | inr g ↦ rw (e, f, g, steal_from) (inl (λ q. tt))
      ]
    ]
  ]
  steal-Keeps true i = elim (Bool-cases (ltb i s.threads_count)) [
    | inr e ↦
        rw (e, steal_from)
          (moves k s (pick_steal true i) (picked true none)
            (λ q p (j, le, lt, ne, c). absurd (ground arith)))
    | inl e ↦ elim (Bool-cases ((k + 1 + i) % s.threads_count == k)) [
      | inl f ↦
          rw (e, f, steal_from)
            (moves k s (pick_steal true i) (pick_steal true (suc i))
              (onward i (λ q p ne c. ne ((==_iff _ k).0 f))))
      | inr f ↦ elim (Bool-cases (is_empty (s.thread_tasks ((k + 1 + i) % s.threads_count)))) [
        | inl g ↦
            rw (e, f, g, steal_from)
              (moves k s (pick_steal true i) (pick_steal true (suc i))
                (onward i (λ q p ne c. absurd (omega (arith, empty-length _ g, ap (size s) c, p)))))
        | inr g ↦
            rw (e, f, g, steal_from)
              (moves k s (pick_steal true i) (take_steal true ((k + 1 + i) % s.threads_count))
                (λ q p c. not_empty-length _ g))
      ]
    ]
  ]

  -- After its own queue the worker goes on to that of all threads, and then round the others.
  own-Keeps : (d : Bool) (o : Outcome) → Keeps k s (pick_own d) (work k s (pick_own d) o)
  unfolding work
  own-Keeps false o = elim (Bool-cases (is_empty (s.thread_tasks k))) [
    | inl g ↦ rw g (inl (λ q. tt))
    | inr g ↦ rw g (inl (λ q. tt))
  ]
  own-Keeps true o = elim (Bool-cases (is_empty (s.thread_tasks k))) [
    | inl g ↦ rw g (
        moves k s (pick_own true) (pick_global true)
          (λ q p c f. omega (arith, p, empty-length _ g, ap (size s) f)))
    | inr g ↦ rw g (moves k s (pick_own true) (take_own true) (λ q p c. not_empty-length _ g))
  ]

  rounds :
      k < s.threads_count
      → is_empty s.global_tasks ≡ true
      → (q : Queue) → Known s q
      → 0 < size s q
      → q ≢ own k
      → Covers s k (pick_steal true 0) q
  rounds lk e (own x) known p ne = round_reaches x known lk (λ f. ne (ap own f))
  rounds lk e global known p ne = absurd (omega (arith, empty-length _ e, p))

  global-Keeps :
      k < s.threads_count
      → (d : Bool) (o : Outcome) → Keeps k s (pick_global d) (work k s (pick_global d) o)
  unfolding work
  global-Keeps lk false o = elim (Bool-cases (is_empty s.global_tasks)) [
    | inl g ↦ rw g (inl (λ q. tt))
    | inr g ↦ rw g (inl (λ q. tt))
  ]
  global-Keeps lk true o = elim (Bool-cases (is_empty s.global_tasks)) [
    | inl g ↦ rw g (inr (refl, rounds lk g))
    | inr g ↦ rw g (moves k s (pick_global true) (take_global true) (λ q p c. not_empty-length _ g))
  ]

  pub work-Keeps : k < s.threads_count → (v : Worker F) (o : Outcome) → Keeps k s v (work k s v o)
  unfolding work
  work-Keeps lk looping o = inl (λ q. tt)
  work-Keeps lk (pick_own d) o = own-Keeps d o
  work-Keeps lk (take_own d) o =
      take-Keeps k s k d (take_own d) (s.thread_tasks k) refl
        (λ e q c. subst (λ b. Covers s k (take_own b) q) e c)
  work-Keeps lk (pick_global d) o = global-Keeps lk d o
  work-Keeps lk (take_global d) o =
      any-Keeps k s d (take_global d) s.global_tasks refl
        (λ e q c. subst (λ b. Covers s k (take_global b) q) e c)
  work-Keeps lk (pick_steal d i) o = steal-Keeps d i
  work-Keeps lk (take_steal d x) o =
      take-Keeps k s x d (take_steal d x) (s.thread_tasks x) refl
        (λ e q c. subst (λ b. Covers s k (take_steal b x) q) e c)
  work-Keeps lk (picked d t) o = begin-Keeps k s d t
  work-Keeps lk (pool_check d f) o = elim (Bool-cases (is_empty s.coro_pool)) [
    | inl g ↦ rw g (inl (λ q. tt))
    | inr g ↦ rw g (inl (λ q. tt))
  ]
  work-Keeps lk (pool_take d f) o = reuse-Keeps k s d f (pool_take d f) s.coro_pool refl
  work-Keeps lk (resuming d c) o = resume-Keeps k s d c (resuming d c) o
  work-Keeps lk (settling d c) o = settle-Keeps k s d c (settling d c)
  work-Keeps lk exited o = moves k s exited exited (λ q p c. c)
  work-Keeps lk null_call o = inl (λ q. tt)
  work-Keeps lk assertion o = inl (λ q. tt)
