-- ===== src/Scheduler/Joining.antt =====
-- src/scheduler/scheduler.cpp: what `start` and `stop` make of the threads.
use qc.Base.{
  ℕ, zero, suc, ◌+◌, ◌<◌, ◌≡◌, refl, ap, ◌∙◌, Bool, true, false, Option, none, some, List, [], ◌∷◌,
  length, All, arith, ◌==◌, inl, inr, Bool-cases,
}
use qc.Thread.{State, Call, Thread, construct, join, destroy}
use qc.Scheduler.Life.{
  Life, new_life, resize, make_threads, start_threads, join_threads, destroy_threads, stop_threads,
  end_threads, may_destroy,
}

-- A thread that is created, joined, and not detached.
abbrev pub JoinedOnce : List Thread → Type 0
JoinedOnce = All (λ t. t.calls ≡ (Call.pthread_create, 0) ∷ (Call.pthread_join, 0) ∷ [])

abbrev fresh : Thread
fresh = record {
  state = State.running;
  calls = (Call.pthread_create, 0) ∷ [];
  ended = false;
  freed = false;
}

abbrev over : Bool → Thread
over b = record {
  state = State.joined;
  calls = (Call.pthread_create, 0) ∷ (Call.pthread_join, 0) ∷ [];
  ended = b;
  freed = false;
}

make_step :
    (creates : ℕ → ℕ) (i : ℕ) (t : Option Thread) (ts : List (Option Thread))
    → creates i ≡ 0
    → make_threads creates i (t ∷ ts)
      ≡ (some fresh ∷ (make_threads creates (suc i) ts).0, (make_threads creates (suc i) ts).1)
unfolding make_threads construct
make_step creates i t ts e = rw (make_threads, construct, e) refl

make_fails :
    (creates : ℕ → ℕ) (i : ℕ) (t : Option Thread) (ts : List (Option Thread))
    → (creates i == 0) ≡ false
    → make_threads creates i (t ∷ ts) ≡ (t ∷ ts, true)
unfolding make_threads construct
make_fails creates i t ts e = rw (make_threads, construct, e) refl

abbrev with_first :
    Bool → Option (List (Option Thread) × Bool) → Option (List (Option Thread) × Bool)
with_first b none = none
with_first b (some (us, thrown)) = some (some (over b) ∷ us, thrown)

join_step :
    (ended : ℕ → Bool) (joins : ℕ → ℕ) (i : ℕ) (ts : List (Option Thread))
    → joins i ≡ 0
    → join_threads joins i (end_threads ended i (some fresh ∷ ts))
      ≡ with_first (ended i) (join_threads joins (suc i) (end_threads ended (suc i) ts))
unfolding join_threads end_threads join
join_step ended joins i ts e = elim (Bool-cases (ended i)) [
  | inl f ↦ rw (end_threads, f) (rw (join_threads, join, e) refl)
  | inr f ↦ rw (end_threads, f) (rw (join_threads, join, e) refl)
]

module _ (ended : ℕ → Bool) (creates joins : ℕ → ℕ) (created : (i : ℕ) → creates i ≡ 0)
    (joined : (i : ℕ) → joins i ≡ 0) where
  Round : ℕ → ℕ → Type 0
  Round n i =
      (us : List (Option Thread)) × ((make_threads creates i (resize n [])).1 ≡ false)
      × (join_threads joins i (end_threads ended i (make_threads creates i (resize n [])).0)
          ≡ some (us, false))
      × (length (destroy_threads us) ≡ n)
      × JoinedOnce (destroy_threads us)

  round : (n i : ℕ) → Round n i
  unfolding Round construct join destroy make_threads resize join_threads destroy_threads
      end_threads
  round zero i = ([], refl, refl, refl, tt)
  round (suc n) i =
      let (us, ok, joins_all, count, once) = round n (suc i) in
      let made = make_step creates i none (resize n []) (created i) in
      (
        some (over (ended i)) ∷ us,
        ap (λ r. r.1) made ∙ ok,
        ap (λ r. join_threads joins i (end_threads ended i r.0)) made
            ∙ join_step ended joins i (make_threads creates (suc i) (resize n [])).0 (joined i)
            ∙ ap (with_first (ended i)) joins_all,
        omega (arith, count),
        (refl, once),
      )

  -- With calls of pthread that succeed, and whichever threads have ended by the time of `stop`: `start`
  -- makes `n` threads and `stop` joins each of them once, destroys them, and leaves a scheduler that
  -- may be destroyed, or started again.
  pub start_stop :
      (n : ℕ)
      → (t : Life) × ((start_threads n creates new_life).1 ≡ false)
        × (stop_threads joins (record (start_threads n creates new_life).0 {
          threads = end_threads ended 0 (start_threads n creates new_life).0.threads;
        })
            ≡ some (t, false))
        × (t.threads ≡ [])
        × (length t.gone ≡ n)
        × JoinedOnce t.gone
        × (may_destroy t ≡ true)
  unfolding Round start_threads stop_threads
  start_stop n =
      let (us, ok, joins_all, count, once) = round n 0 in
      (
        record { stopped = true; threads = []; gone = destroy_threads us },
        ok,
        rw (stop_threads, joins_all) refl,
        refl,
        count,
        once,
        refl,
      )

module _ (ended : ℕ → Bool) (creates joins : ℕ → ℕ) (joined : (i : ℕ) → joins i ≡ 0) where
  abbrev Broken : ℕ → ℕ → Type 0
  Broken n i =
      ((make_threads creates i (resize n [])).1 ≡ true)
      × (join_threads joins i (end_threads ended i (make_threads creates i (resize n [])).0) ≡ none)

  broken :
      (k n i : ℕ)
      → k < n
      → ((j : ℕ) → j < k → creates (i + j) ≡ 0)
      → (creates (i + k) == 0) ≡ false
      → Broken n i
  unfolding construct join make_threads resize join_threads end_threads
  broken k zero i lt made fails = absurd (omega arith)
  broken zero (suc n) i lt made fails =
      let made_none =
        make_fails creates i none (resize n []) (ap (λ x. creates x == 0) (omega arith) ∙ fails) in
      (ap (λ r. r.1) made_none, ap (λ r. join_threads joins i (end_threads ended i r.0)) made_none)
  broken (suc k) (suc n) i lt made fails =
      let made_first : creates i ≡ 0 = ap creates (omega arith) ∙ made 0 (omega arith) in
      let (thrown, null) =
        broken k n (suc i) (omega (arith, lt))
          (λ j lj. ap creates (omega arith) ∙ made (suc j) (omega (arith, lj)))
          (ap (λ x. creates x == 0) (omega arith) ∙ fails) in
      let made_one = make_step creates i none (resize n []) made_first in
      (
        ap (λ r. r.1) made_one ∙ thrown,
        ap (λ r. join_threads joins i (end_threads ended i r.0)) made_one
            ∙ join_step ended joins i (make_threads creates (suc i) (resize n [])).0 (joined i)
            ∙ ap (with_first (ended i)) null,
      )

  -- If pthread_create fails for a thread of a scheduler that has not been started before, `start`
  -- throws and leaves the scheduler marked as running: it may not be destroyed, and `stop`, whose
  -- joins succeed, calls through a null pointer.
  pub failed_start :
      (n k : ℕ)
      → k < n
      → ((j : ℕ) → j < k → creates j ≡ 0)
      → (creates k == 0) ≡ false
      → ((start_threads n creates new_life).1 ≡ true)
        × (may_destroy (start_threads n creates new_life).0 ≡ false)
        × (stop_threads joins (record (start_threads n creates new_life).0 {
          threads = end_threads ended 0 (start_threads n creates new_life).0.threads;
        })
            ≡ none)
  unfolding start_threads stop_threads
  failed_start n k lt made fails =
      let (thrown, null) =
        broken k n 0 lt (λ j lj. ap creates (omega arith) ∙ made j lj)
          (ap (λ x. creates x == 0) (omega arith) ∙ fails) in
      (thrown, refl, rw (stop_threads, null) refl)
