-- ===== src/Scheduler/Entering.antt =====
-- src/scheduler/scheduler.cpp: the start of `run` in a thread of the scheduler, up to its first loop, and
-- the names of these threads.
use qc.Base.{
  ℕ, ◌≤◌, ◌<◌, ◌≡◌, Bool, true, false, Option, none, some, List, [], ◌∷◌, ◌++◌, ◌==◌, if◌then◌else◌,
  codes, arith,
}
use qc.Scheduler.{no_thread}

-- The thread-local variables of a thread: `t_scheduler`, by address, `t_threadIdx`, and whether
-- `t_main_ctx` is set.
pub record ThreadLocals : Type 0 where
  pub t_scheduler : Option ℕ
  pub t_thread_idx : ℕ
  pub has_main : Bool

abbrev pub new_locals : ThreadLocals
new_locals = record { t_scheduler = none; t_thread_idx = no_thread; has_main = false }

-- A failed assertion is `none`.
unfoldable pub enter_run : ℕ → ℕ → ThreadLocals → Option ThreadLocals
enter_run this idx l =
    let l' = record l { t_scheduler = some this; t_thread_idx = idx } in
    if l'.t_thread_idx == no_thread then none else some (record l' { has_main = true })

-- `m_name + "_" + std::to_string(i)`
unfoldable pub worker_name : (ℕ → List ℕ) → List ℕ → ℕ → List ℕ
worker_name decimal name i = name ++ (codes "_" ++ decimal i)

cancel : (xs ys zs : List ℕ) → xs ++ ys ≡ xs ++ zs → ys ≡ zs
cancel [] ys zs e = e
cancel (x ∷ xs) ys zs e = cancel xs ys zs (cc e)

-- Each thread that `start` makes passes the assertion of `run` and then finds its scheduler, the index of
-- its own queue and the context to yield to; two of them have different names and indices.
pub enter_run_lem :
    (decimal : ℕ → List ℕ) (name : List ℕ) (this n i j : ℕ)
    → n ≤ no_thread
    → i < n
    → ((a b : ℕ) → decimal a ≡ decimal b → a ≡ b)
    → (enter_run this i new_locals
        ≡ some (record { t_scheduler = some this; t_thread_idx = i; has_main = true }))
      × (worker_name decimal name i ≡ worker_name decimal name j → i ≡ j)
unfolding enter_run worker_name
enter_run_lem decimal name this n i j small li differ =
    (ground arith, λ e. differ i j (cancel (codes "_") _ _ (cancel name _ _ e)))
