-- ===== src/Scheduler/Keep.antt =====
-- src/scheduler/scheduler.cpp, `run` after `stop`: which queues a worker will yet look at after a step
-- that moves it, takes a task or puts one back.
use qc.Base.{
  ℕ, ◌<◌, ◌≡◌, refl, ap, inl, inr, ◌⊎◌, Bool, true, false, Option, none, some, List, [], ◌∷◌,
  length, arith, Bool-cases, Option-cases,
}
use qc.Coroutine.{Outcome, reset, resume, is_finished}
use qc.Scheduler.{Task, Scheduler, is_empty}
use qc.Scheduler.Worker.{
  Worker, picked, exited, begin_task, take_from, reuse_coro, resume_coro, settle,
}
use qc.Scheduler.Cover.{Queue, own, global, size, Known, Covers}

module _ {F : Type 0} where
  -- After a step of worker `k` it covers every queue, or it has changed no queue and covers each that
  -- it covered and that is not empty.
  abbrev pub Keeps : ℕ → Scheduler F → Worker F → Scheduler F × Worker F → Type 0
  Keeps k s v r =
      ((q : Queue) → Covers r.0 k r.1 q)
      ⊎ ((r.0 ≡ s) × ((q : Queue) → Known s q → 0 < size s q → Covers s k v q → Covers s k r.1 q))

module _ {ℓ} {A : Type ℓ} where
  pub empty-length : (xs : List A) → is_empty xs ≡ true → length xs ≡ 0
  empty-length [] e = refl
  empty-length (x ∷ xs) e = cc

  pub not_empty-length : (xs : List A) → is_empty xs ≡ false → 0 < length xs
  not_empty-length [] e = cc
  not_empty-length (x ∷ xs) e = omega arith

module _ {F : Type 0} (k : ℕ) (s : Scheduler F) where
  -- A step that moves the worker and changes no queue.
  pub moves :
      (v u : Worker F)
      → ((q : Queue) → 0 < size s q → Covers s k v q → Covers s k u q)
      → Keeps k s v (s, u)
  moves v u f = inr (refl, λ q known. f q)

  pub take-Keeps :
      (x : ℕ) (d : Bool) (v : Worker F)
      → (ts : List (Task F)) → s.thread_tasks x ≡ ts
      → (d ≡ true → (q : Queue) → Covers s k v q → 0 < size s (own x))
      → Keeps k s v (take_from x s d)
  take-Keeps x false v [] e h = rw (e, take_from) (moves v (picked false none) (λ q p c. tt))
  take-Keeps x true v [] e h =
      rw (e, take_from)
        (moves v (picked true none) (λ q p c. let z = h refl q c in omega (arith, z, ap length e)))
  take-Keeps x false v (t ∷ ts) e h = rw (e, take_from) (inl (λ q. tt))
  take-Keeps x true v (t ∷ ts) e h = rw (e, take_from) (inl (λ q. tt))

  -- `take_any` with its list apart.
  abbrev pub any_of : Bool → List (Task F) → Scheduler F × Worker F
  any_of d [] = (s, picked d none)
  any_of d (t ∷ ts) = (record s { global_tasks = ts }, picked d (some t))

  pub any-Keeps :
      (d : Bool) (v : Worker F) (ts : List (Task F))
      → s.global_tasks ≡ ts
      → (d ≡ true → (q : Queue) → Covers s k v q → 0 < size s global)
      → Keeps k s v (any_of d ts)
  any-Keeps false v [] e h = moves v (picked false none) (λ q p c. tt)
  any-Keeps true v [] e h =
      moves v (picked true none) (λ q p c. let z = h refl q c in omega (arith, z, ap length e))
  any-Keeps false v (t ∷ ts) e h = inl (λ q. tt)
  any-Keeps true v (t ∷ ts) e h = inl (λ q. tt)

  pub begin-Keeps : (d : Bool) (t : Option (Task F)) → Keeps k s (picked d t) (begin_task s d t)
  begin-Keeps false none = inl (λ q. tt)
  begin-Keeps true none = moves (picked true none) exited (λ q p c. c)
  begin-Keeps d (some t) = begun t.cb t.coro refl refl
    where
      begun :
          (cb : Option F) (coro : Option ℕ)
          → t.cb ≡ cb
          → t.coro ≡ coro
          → Keeps k s (picked d (some t)) (begin_task s d (some t))
      begun (some f) coro e g = rw (e, begin_task) (inl (λ q. tt))
      begun none (some c) e g = rw (e, g, begin_task) (inl (λ q. tt))
      begun none none e g = rw (e, g, begin_task) (inl (λ q. tt))

  pub reuse-Keeps :
      (d : Bool) (f : F) (v : Worker F) (cs : List ℕ)
      → s.coro_pool ≡ cs
      → Keeps k s v (reuse_coro s d f)
  reuse-Keeps d f v [] e = rw (e, reuse_coro) (inl (λ q. tt))
  reuse-Keeps d f v (c ∷ cs) e = elim (Option-cases (reset f (s.coros c))) [
    | inl g ↦ rw (e, g, reuse_coro) (inl (λ q. tt))
    | inr (co, g) ↦ rw (e, g, reuse_coro) (inl (λ q. tt))
  ]

  pub resume-Keeps :
      (d : Bool) (c : ℕ) (v : Worker F) (o : Outcome) → Keeps k s v (resume_coro k s d c o)
  resume-Keeps d c v o = elim (Option-cases (resume o (s.coros c) (s.locals k))) [
    | inl g ↦ rw (g, resume_coro) (inl (λ q. tt))
    | inr (r, g) ↦ rw (g, resume_coro) (inl (λ q. tt))
  ]

  pub settle-Keeps : (d : Bool) (c : ℕ) (v : Worker F) → Keeps k s v (settle k s d c)
  settle-Keeps false c v = elim (Bool-cases (is_finished (s.coros c).status)) [
    | inl g ↦ rw (g, settle) (inl (λ q. tt))
    | inr g ↦ rw (g, settle) (inl (λ q. tt))
  ]
  settle-Keeps true c v = elim (Bool-cases (is_finished (s.coros c).status)) [
    | inl g ↦ rw (g, settle) (inl (λ q. tt))
    | inr g ↦ rw (g, settle) (inl (λ q. tt))
  ]
