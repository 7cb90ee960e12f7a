-- ===== src/Locks/Scoped.antt =====
-- include/qc/thread/scopedlock.h: ScopedLock objects of any threads on one lock.
use qc.Base.{
  ℕ, suc, ◌+◌, ◌-◌, ◌≤◌, ◌<◌, ◌≡◌, ◌↔◌, refl, sym, subst, ◌∙◌, none, some, update, sum, sum-update,
  sum_zero_below, le-sum, inl, inr, arith, dec_lt, Option-cases,
}
use qc.Locks.{Lockable, Exclusive, Guarded, scope, unscope}

module _ {M : Type 0} (l : Lockable M) (new : M) (x : Exclusive l new) (n : ℕ) where
  open x use {held, new_free, lock_takes, lock_succeeds, unlock_frees}

  -- What `n` threads may come to that make and destroy ScopedLock objects.
  pub data Scopes : Guarded M → Type 0 where
    opened : Scopes (record { mutex = new; guards = λ _. 0 })
    enters : {g h : Guarded M} (k : ℕ) → k < n → Scopes g → scope l k g ≡ some h → Scopes h
    leaves : {g : Guarded M} (k : ℕ) → k < n → 0 < g.guards k → Scopes g → Scopes (unscope l k g)

  record Inv (g : Guarded M) : Type 0 where
    guards_sum : held g.mutex ≡ sum n g.guards
    one_guard : sum n g.guards ≤ 1

  sum_at : (f : ℕ → ℕ) (k a : ℕ) → k < n → sum n (update f k a) + f k ≡ sum n f + a
  sum_at f k a lk = sum-update (λ x. x) n f k a lk

  scope-Inv : (k : ℕ) (g h : Guarded M) → k < n → scope l k g ≡ some h → Inv g → Inv h
  unfolding scope
  scope-Inv k g h lk e inv = elim (Option-cases (l.lock g.mutex)) [
    | inl waits ↦ absurd (ground arith)
    | inr (m, took) ↦
        let h' : Guarded M = record { mutex = m; guards = update g.guards k (suc (g.guards k)) } in
        let same : h' ≡ h = ground arith in
        let grow = sum_at g.guards k (suc (g.guards k)) lk in
        let law = lock_takes g.mutex m took in
        subst Inv same (record {
          guards_sum = omega (arith, grow, law.0, law.1, inv.guards_sum);
          one_guard = omega (arith, grow, law.0, inv.guards_sum);
        })
  ]

  unscope-Inv : (k : ℕ) (g : Guarded M) → k < n → 0 < g.guards k → Inv g → Inv (unscope l k g)
  unfolding unscope
  unscope-Inv k g lk open_one inv =
      let shrink = sum_at g.guards k (g.guards k - 1) lk in
      let below = le-sum n g.guards k lk in
      let law =
        unlock_frees g.mutex (omega (arith, inv.guards_sum, inv.one_guard, below, open_one)) in
      record {
        guards_sum = omega (arith, law, shrink, open_one, below, inv.one_guard);
        one_guard = omega (arith, shrink, inv.one_guard);
      }

  Scopes-Inv : {g : Guarded M} → Scopes g → Inv g
  Scopes-Inv opened =
      let zero_sum = sum_zero_below n (λ _. 0) (λ i li. refl) in
      record { guards_sum = omega (arith, new_free, zero_sum); one_guard = omega (arith, zero_sum) }
  Scopes-Inv (enters {g} {h} k lk r e) = scope-Inv k g h lk e (Scopes-Inv r)
  Scopes-Inv (leaves {g} k lk p r) = unscope-Inv k g lk p (Scopes-Inv r)

  -- At any time at most one ScopedLock on an exclusive lock lives, over all threads; and the constructor of
  -- another one waits exactly while one does.
  pub one_scope :
      {g : Guarded M}
      → Scopes g
      → (k : ℕ) → (sum n g.guards ≤ 1) × ((scope l k g ≡ none) ↔ (sum n g.guards ≡ 1))
  unfolding scope
  one_scope {g} r k =
      let inv = Scopes-Inv r in
      (
        inv.one_guard,
        elim (Option-cases (l.lock g.mutex)) [
          | inl waits ↦ (
            λ _. elim (dec_lt 0 (sum n g.guards)) [
              | yes p ↦ omega (arith, p, inv.one_guard)
              | no p ↦
                  let (m, took) = lock_succeeds g.mutex (omega (arith, inv.guards_sum, p)) in
                  absurd (cc (sym waits ∙ took))
            ],
            λ _. rw (scope, waits) refl,
          )
          | inr (m, took) ↦ (
            λ h. absurd (ground arith),
            λ h. absurd (omega (arith, (lock_takes g.mutex m took).0, inv.guards_sum, h)),
          )
        ],
      )
