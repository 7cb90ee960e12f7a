-- ===== src/Locking/Order.antt =====
-- The order in which the operations of the configuration and of the log take their locks.
use qc.Base.{
  ℕ, ◌+◌, ◌≤◌, ◌<◌, ◌≡◌, ◌⊎◌, inl, inr, refl, sym, subst, List, [], ◌∷◌, ◌++◌, In, arith, ap,
}
use mathlib.Core.List.{append_assoc}
use qc.Locking.{Mode, LockName, Act, within, in_turn}
use qc.Locking.Threads.{Holding}

-- The registry comes first, then variables, the manager, loggers and appenders.
unfoldable pub rank : LockName → ℕ
rank LockName.registry = 0
rank (LockName.variable v) = 1
rank LockName.manager = 2
rank (LockName.logger l) = 3
rank (LockName.appender a) = 4

pub rank-le : (k : LockName) → rank k ≤ 4
unfolding rank
rank-le LockName.registry = omega arith
rank-le (LockName.variable v) = omega arith
rank-le LockName.manager = omega arith
rank-le (LockName.logger l) = omega arith
rank-le (LockName.appender a) = omega arith

-- A lock is taken above all that are held, or shared again.
abbrev pub Fits : Mode → LockName → List Holding → Type 0
Fits m k held =
    (h : Holding)
    → In h held
    → (rank h.1 < rank k) ⊎ ((h.0 ≡ Mode.shared) × (m ≡ Mode.shared) × (h.1 ≡ k))

-- With these locks held, the acts take each lock in order, and release the last one each time.
unfoldable pub Fine : List Holding → List Act → Type 0
Fine held [] = held ≡ []
Fine held (Act.take m k ∷ rest) = Fits m k held × Fine ((m, k) ∷ held) rest
Fine held (Act.release m k ∷ rest) =
    (below : List Holding) × (held ≡ (m, k) ∷ below) × Fine below rest

-- Acts that can stand wherever all locks held are below a rank.
pub record Above (b : ℕ) (xs : List Act) : Type 0 where
  pub stands :
      (held : List Holding) (rest : List Act)
      → ((h : Holding) → In h held → rank h.1 < b)
      → Fine held rest
      → Fine held (xs ++ rest)

pub nothing : {b : ℕ} → Above b []
nothing = record { stands = λ held rest low f. f }

pub both : {b : ℕ} {xs ys : List Act} → Above b xs → Above b ys → Above b (xs ++ ys)
both {b} {xs} {ys} f g = record {
  stands = λ held rest low r.
      subst (Fine held) (sym (append_assoc xs ys rest))
        (f.stands held (ys ++ rest) low (g.stands held rest low r));
}

pub lower : {a b : ℕ} {xs : List Act} → a ≤ b → Above b xs → Above a xs
lower le f = record {
  stands = λ held rest low r. f.stands held rest (λ h m. omega (arith, low h m)) r;
}

pub in_turn-Above :
    {A : Type 0} {b : ℕ} {f : A → List Act} (xs : List A)
    → ((x : A) → Above b (f x))
    → Above b (in_turn f xs)
in_turn-Above [] g = nothing
in_turn-Above (x ∷ xs) g = both (g x) (in_turn-Above xs g)

block :
    (m : Mode) (k : LockName) (body : List Act) (held : List Holding) (rest : List Act)
    → Fits m k held
    → Fine ((m, k) ∷ held) (body ++ (Act.release m k ∷ rest))
    → Fine held (within m k body ++ rest)
unfolding Fine
block m k body held rest fit r =
    (fit, subst (Fine ((m, k) ∷ held)) (sym (append_assoc body (Act.release m k ∷ []) rest)) r)

under :
    (b : ℕ) (m : Mode) (k : LockName) (held : List Holding)
    → b ≤ rank k + 1
    → ((h : Holding) → In h held → rank h.1 < b)
    → (h : Holding) → In h ((m, k) ∷ held)
    → rank h.1 < rank k + 1
unfolding In
under b m k held le low h (inl e) = subst (λ (x : Holding). rank x.1 < rank k + 1) e (omega arith)
under b m k held le low h (inr i) = omega (arith, low h i)

pub scoped :
    {b : ℕ} (m : Mode) (k : LockName) {body : List Act}
    → b ≤ rank k
    → Above (rank k + 1) body
    → Above b (within m k body)
unfolding Fine
scoped {b} m k {body} le f = record {
  stands = λ held rest low r.
      block m k body held rest (λ h i. inl (omega (arith, low h i)))
        (f.stands ((m, k) ∷ held) (Act.release m k ∷ rest) (under b m k held (omega arith) low)
          (held, refl, r));
}

shared-Fits :
    (k : LockName) (held : List Holding)
    → ((h : Holding) → In h held → rank h.1 < rank k)
    → Fits Mode.shared k ((Mode.shared, k) ∷ held)
unfolding In
shared-Fits k held low h (inl e) = inr (ap (λ x. x.0) (sym e), refl, ap (λ x. x.1) (sym e))
shared-Fits k held low h (inr i) = inl (low h i)

-- The second of two ReadLock objects on one mutex.
pub twice :
    (k : LockName) {body : List Act}
    → Above (rank k + 1) body
    → Above (rank k) (within Mode.shared k (within Mode.shared k body))
unfolding Fine
twice k {body} f = record {
  stands = λ held rest low r.
      let m = Mode.shared in
      let once = under (rank k) m k held (omega arith) low in
      block m k (within m k body) held rest (λ h i. inl (low h i))
        (block m k body ((m, k) ∷ held) (Act.release m k ∷ rest) (shared-Fits k held low) (
          f.stands ((m, k) ∷ ((m, k) ∷ held)) (Act.release m k ∷ (Act.release m k ∷ rest))
            (under (rank k + 1) m k ((m, k) ∷ held) (omega arith) once)
            ((m, k) ∷ held, refl, (held, refl, r))));
}
