-- ===== src/Locking/Threads.antt =====
-- Threads that make calls of the configuration and of the log: each step takes or releases one lock.
use qc.Base.{ℕ, suc, ◌<◌, ◌≡◌, Bool, true, false, List, [], ◌∷◌, In, length, update, sum}
use qc.Locking.{Mode, LockName, Act, Call, acts, in_turn}

-- Two threads may have a lock at once if both have it shared.
unfoldable pub compatible : Mode → Mode → Bool
compatible Mode.shared Mode.shared = true
compatible Mode.shared Mode.exclusive = false
compatible Mode.exclusive m = false

abbrev pub Holding : Type 0
Holding = Mode × LockName

-- The locks that a thread holds, the last one first, and what it has yet to do.
pub record Runner : Type 0 where
  pub held : List Holding
  pub rest : List Act

abbrev pub Runners : Type 0
Runners = ℕ → Runner

module _ (n : ℕ) where
  -- No thread, the caller included, has the lock in a mode that keeps `m` out. (RWMutex does not look at the
  -- error that pthread may give to a caller that has the lock itself; here such a caller waits.)
  abbrev pub Grantable : Runners → Mode → LockName → Type 0
  Grantable s m k =
      (j : ℕ) → j < n → (h : Holding) → In h (s j).held → h.1 ≡ k → compatible m h.0 ≡ true

  -- Lock objects are destroyed in the reverse order of their construction.
  pub data Step : Runners → Runners → Type 0 where
    takes :
        {s : Runners} (i : ℕ) (m : Mode) (k : LockName) (rest : List Act)
        → i < n
        → (s i).rest ≡ Act.take m k ∷ rest
        → Grantable s m k
        → Step s (update s i (record { held = (m, k) ∷ (s i).held; rest = rest }))
    releases :
        {s : Runners} (i : ℕ) (m : Mode) (k : LockName) (held : List Holding) (rest : List Act)
        → i < n
        → (s i).rest ≡ Act.release m k ∷ rest
        → (s i).held ≡ (m, k) ∷ held
        → Step s (update s i (record { held = held; rest = rest }))

  -- What threads may come to in so many steps.
  pub data Run (s : Runners) : Runners → ℕ → Type 0 where
    begun : Run s s 0
    further : {t u : Runners} {k : ℕ} → Run s t k → Step t u → Run s u (suc k)

  -- How often the threads have yet to take or release a lock.
  unfoldable pub left : Runners → ℕ
  left s = sum n (λ i. length (s i).rest)

-- Each thread at the start of the calls that it makes.
abbrev pub starting : (ℕ → List Call) → Runners
starting calls i = record { held = []; rest = in_turn acts (calls i) }
