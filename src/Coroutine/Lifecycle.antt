-- ===== src/Coroutine/Lifecycle.antt =====
-- src/coroutine/coroutine.cpp: the life of one coroutine under any sequence of resumes.
use qc.Base.{
  ℕ, zero, suc, ◌<◌, ◌^◌, ◌≡◌, ◌≢◌, refl, true, false, Option, none, some, List, [], ◌∷◌, arith,
  if◌then◌else◌,
}
use qc.Coroutine.{
  Coroutine, Locals, Status, Outcome, yields, returns, throws, throws_unknown, is_resumable,
  is_finished, construct, destruct, enter, resume, reset, coroutine_id, ◌>>=◌,
}

-- The status in which a run of the callback leaves the coroutine.
abbrev pub status_after : Outcome → Status
status_after yields = Status.susp
status_after returns = Status.dead
status_after throws = Status.ecpt
status_after throws_unknown = Status.runn

-- `n` yields, then the outcomes given.
abbrev pub yielding : ℕ → List Outcome → List Outcome
yielding zero os = os
yielding (suc n) os = yields ∷ yielding n os

ended : (o : Outcome) → o ≢ yields → is_resumable (status_after o) ≡ false
ended o h = ground arith

module _ {F : Type 0} where
  -- `resume` asserts unless the coroutine is RADY or SUSP; otherwise it comes back with the status
  -- that the callback's outcome gives and no current coroutine, all else unchanged.
  pub resume_lem :
      (o : Outcome) (co : Coroutine F) (l : Locals)
      → resume o co l ≡ (
          if is_resumable co.status
          then some (record co { status = status_after o }, record l { cur_coro = none })
          else none)
  unfolding resume
  resume_lem yields co l = ground arith
  resume_lem o co l = ground arith

  -- Resume once for each outcome.
  unfoldable pub drive : List Outcome → Coroutine F → Locals → Option (Coroutine F × Locals)
  drive [] co l = some (co, l)
  drive (o ∷ os) co l = resume o co l >>= λ (co', l'). drive os co' l'

  -- A coroutine that is ready, or suspended, and yields `n` times before its callback ends takes
  -- exactly `n + 1` resumes: these succeed and leave the status of the end, and one more asserts.
  pub drive-yielding :
      (n : ℕ) (o p : Outcome) (os : List Outcome) (co : Coroutine F) (l : Locals)
      → o ≢ yields
      → is_resumable co.status ≡ true
      → (drive (yielding n (o ∷ [])) co l
          ≡ some (record co { status = status_after o }, record l { cur_coro = none }))
        × (drive (yielding n (o ∷ p ∷ os)) co l ≡ none)
  unfolding drive
  drive-yielding zero o p os co l end ready =
      (rw (resume_lem, ready), rw (resume_lem, ready) (rw (resume_lem, ended o end)))
  drive-yielding (suc n) o p os co l end ready =
      rw (resume_lem, ready) (drive-yielding n o p os _ _ end refl)

  -- Once the callback has thrown something that is not a `std::exception` the coroutine is stuck:
  -- it can be neither resumed, nor reset, nor destroyed.
  pub unknown_exception_stuck :
      (co co' : Coroutine F) (l l' : Locals)
      → resume throws_unknown co l ≡ some (co', l')
      → (o : Outcome) (cb : F)
      → (resume o co' l' ≡ none) × (reset cb co' ≡ none) × (destruct co' l' ≡ none)
  unfolding resume reset destruct
  unknown_exception_stuck co co' l l' e o cb = ground arith

  -- A finished coroutine can be used again for another callback, with its id and its stack, and
  -- runs as a new one does; and it can be destroyed.
  pub finished-reset :
      (co : Coroutine F) (l : Locals) (cb : F) (o : Outcome)
      → is_finished co.status ≡ true
      → (reset cb co ≡ some (record co { cb = cb; status = Status.rady }))
        × (resume o co l ≡ none)
        × (destruct co l ≢ none)
  unfolding reset destruct resume
  finished-reset co l cb o h = ground arith

  -- Inside its callback a coroutine is the current one, so log events carry its id.
  pub enter-coroutine_id :
      (co co' : Coroutine F) (l l' : Locals)
      → co.id < 2 ^ 32
      → enter co l ≡ some (co', l')
      → coroutine_id l' ≡ co'.id
  unfolding enter coroutine_id
  enter-coroutine_id co co' l l' lt e = ground arith

  -- A coroutine that is made, driven to its end and destroyed on one thread leaves the thread's count
  -- as it was.
  pub construct-destruct :
      (cb : F) (size id n : ℕ) (o : Outcome) (l : Locals)
      → l.coro_count < 2 ^ 64
      → o ≢ yields
      → o ≢ throws_unknown
      → (let (co, l', id') = construct cb size id l in
          drive (yielding n (o ∷ [])) co l' >>= λ (co', l''). destruct co' l'')
        ≡ some (record { cur_coro = none; coro_count = l.coro_count })
  unfolding construct destruct
  construct-destruct cb size id n o l lt a b =
      let (co, l', id') = construct cb size id l in
      rw ((drive-yielding n o o [] co l' a refl).0) (ground arith)
