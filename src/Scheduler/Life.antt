-- ===== src/Scheduler/Life.antt =====
-- src/scheduler/scheduler.cpp: `start`, `stop` and the destructor, with the threads that they make,
-- join and destroy.
use qc.Base.{
  ℕ, zero, suc, Bool, true, false, Option, none, some, List, [], ◌∷◌, ◌++◌, length, if◌then◌else◌,
}
use qc.Thread.{State, Thread, returned, threw, construct, join, destroy}

-- `m_stopped`, and `m_threads`, where `none` is a null pointer; `gone` has the threads destroyed so far.
pub record Life : Type 0 where
  pub stopped : Bool
  pub threads : List (Option Thread)
  pub gone : List Thread

abbrev pub new_life : Life
new_life = record { stopped = true; threads = []; gone = [] }

-- `resize` of a vector of pointers.
unfoldable pub resize : ℕ → List (Option Thread) → List (Option Thread)
resize zero ts = []
resize (suc n) [] = none ∷ resize n []
resize (suc n) (t ∷ ts) = t ∷ resize n ts

-- The loop of `start` from thread `i` on, with the results of pthread_create, and whether a
-- constructor throws. A pointer that is not null, from a stop that threw, is written over.
unfoldable pub make_threads : (ℕ → ℕ) → ℕ → List (Option Thread) → List (Option Thread) × Bool
unfolding construct
make_threads rts i [] = ([], false)
make_threads rts i (t ∷ ts) =
    let (rest, thrown) = make_threads rts (suc i) ts in
    elim (construct (rts i)) [ threw u ↦ (t ∷ ts, true) | returned u ↦ (some u ∷ rest, thrown) ]

-- The new state, and whether `start` throws.
unfoldable pub start_threads : ℕ → (ℕ → ℕ) → Life → Life × Bool
unfolding resize make_threads
start_threads n rts s =
    if s.stopped
    then (let (ts, thrown) = make_threads rts 0 (resize n s.threads) in
        (record s { stopped = false; threads = ts }, thrown))
    else (s, false)

-- The loop of `stop`, with the results of pthread_join. `none` is a call through a null pointer.
unfoldable pub join_threads :
    (ℕ → ℕ) → ℕ → List (Option Thread) → Option (List (Option Thread) × Bool)
unfolding join
join_threads rts i [] = some ([], false)
join_threads rts i (none ∷ ts) = none
join_threads rts i (some t ∷ ts) =
    let rest = join_threads rts (suc i) ts in
    elim (join (rts i) t) [
      | threw u ↦ some (some u ∷ ts, true)
      | returned u ↦ elim rest [ none ↦ none | some (us, thrown) ↦ some (some u ∷ us, thrown) ]
    ]

-- `clear` destroys the threads.
unfoldable pub destroy_threads : List (Option Thread) → List Thread
unfolding destroy
destroy_threads [] = []
destroy_threads (none ∷ ts) = destroy_threads ts
destroy_threads (some t ∷ ts) = destroy 0 t ∷ destroy_threads ts

-- The new state, and whether `stop` throws.
unfoldable pub stop_threads : (ℕ → ℕ) → Life → Option (Life × Bool)
unfolding join_threads destroy_threads
stop_threads rts s = if s.stopped then some (s, false) else elim (join_threads rts 0 s.threads) [
  | none ↦ none
  | some (ts, true) ↦ some (record s { stopped = true; threads = ts }, true)
  | some (ts, false) ↦
      some (record s { stopped = true; threads = []; gone = s.gone ++ destroy_threads ts }, false)
]

abbrev pub get_thread_count : Life → ℕ
get_thread_count s = length s.threads

-- The destructor asserts that the scheduler is stopped.
abbrev pub may_destroy : Life → Bool
may_destroy s = s.stopped

-- The last assignment of `run` in the threads that have ended by then.
unfoldable pub end_threads : (ℕ → Bool) → ℕ → List (Option Thread) → List (Option Thread)
end_threads ended i [] = []
end_threads ended i (none ∷ ts) = none ∷ end_threads ended (suc i) ts
end_threads ended i (some t ∷ ts) =
    let rest = end_threads ended (suc i) ts in
    (if ended i then some (record t { state = State.terminated; ended = true }) else some t) ∷ rest
