-- ===== src/Semaphore/Accounting.antt =====
-- src/thread/semaphore.cpp: what the calls of any number of threads make of a semaphore.
use qc.Base.{
  ℕ, suc, ◌+◌, ◌-◌, ◌*◌, ◌%◌, ◌≤◌, ◌<◌, ◌≡◌, ◌↔◌, refl, sym, ap, subst, ◌∙◌, none, some, arith,
  Option, dec_lt, Option-cases, inl, inr,
}
use native.Mathlib.Nat.{mod-add-mod, mod-eq_of_lt}
use qc.Semaphore.{
  System, Semaphore, word, returned, construct, wait_begin, wait_end, notify_begin, notify_end,
}

module _ (sys : System) where
  open sys use {
    Sem, sem_init, sem_wait, sem_post, value, init_value, wait_succeeds, wait_value, post_value,
  }

  -- A semaphore of count `n` after `begun` calls of `wait`, of which `passed` have come through the
  -- system's wait, and `notified` calls of `notify`, of which `posted` have posted.
  pub data Uses (n junk : ℕ) : Semaphore Sem → ℕ → ℕ → ℕ → ℕ → Type 0 where
    made : {s : Semaphore Sem} → construct sys n junk ≡ some s → Uses n junk s 0 0 0 0
    begins :
        {s : Semaphore Sem} {b p c q : ℕ}
        → Uses n junk s b p c q
        → Uses n junk (wait_begin sys s) (suc b) p c q
    passes :
        {s t : Semaphore Sem} {b p c q : ℕ}
        → Uses n junk s b p c q
        → p < b
        → wait_end sys s ≡ some t
        → Uses n junk t b (suc p) c q
    notifies :
        {s : Semaphore Sem} {b p c q : ℕ}
        → Uses n junk s b p c q
        → Uses n junk (notify_begin sys s) b p (suc c) q
    posts :
        {s t : Semaphore Sem} {b p c q : ℕ}
        → Uses n junk s b p c q
        → q < c
        → notify_end sys s ≡ returned t
        → Uses n junk t b p c (suc q)

  Ledger : ℕ → ℕ → Semaphore Sem → ℕ → ℕ → ℕ → ℕ → Type 0
  Ledger n junk s b p c q =
      (value s.m_sem + p ≡ n + q) × (s.m_count ≡ (junk + b + c * (word - 1)) % word)

  construct-Ledger :
      (n junk : ℕ) (s : Semaphore Sem)
      → junk < word
      → construct sys n junk ≡ some s
      → Ledger n junk s 0 0 0 0
  unfolding construct Ledger
  construct-Ledger n junk s small h = elim (Option-cases (sem_init n)) [
    | inl e ↦ absurd (ground arith)
    | inr (m, e) ↦
        let h' : ◌≡◌ {A = Option (Semaphore Sem)} (some (record { m_sem = m; m_count = junk }))
            (some s) =
          ground arith in
        subst (λ x. Ledger n junk x 0 0 0 0) (some_inj h')
          (
            omega (arith, init_value n m e),
            sym (ap (λ x. x % word) (omega arith) ∙ mod-eq_of_lt small),
          )
  ]
    where
      some_inj : {x y : Semaphore Sem} → some x ≡ some y → x ≡ y
      some_inj e = cc

  pub wait_end_fields :
      (s t : Semaphore Sem)
      → wait_end sys s ≡ some t
      → (sem_wait s.m_sem ≡ some t.m_sem) × (t.m_count ≡ s.m_count)
  unfolding wait_end
  wait_end_fields s t e = elim (Option-cases (sem_wait s.m_sem)) [
    | inl none_yet ↦ absurd (ground arith)
    | inr (m, took) ↦ (ground arith, ground arith)
  ]

  pub notify_end_fields :
      (s t : Semaphore Sem)
      → notify_end sys s ≡ returned t
      → (sem_post s.m_sem ≡ some t.m_sem) × (t.m_count ≡ s.m_count)
  unfolding notify_end
  notify_end_fields s t e = elim (Option-cases (sem_post s.m_sem)) [
    | inl failed ↦ absurd (ground arith)
    | inr (m, done) ↦ (ground arith, ground arith)
  ]

  count_down :
      (m b c : ℕ)
      → m ≡ (b + c * (word - 1)) % word
      → (m + (word - 1)) % word ≡ (b + suc c * (word - 1)) % word
  count_down m b c e =
      ap (λ x. (x + (word - 1)) % word) e
      ∙ mod-add-mod (b + c * (word - 1)) word (word - 1)
      ∙ ap (λ x. x % word) (omega arith)

  Uses-Ledger :
      {n junk : ℕ} {s : Semaphore Sem} {b p c q : ℕ}
      → junk < word
      → Uses n junk s b p c q
      → Ledger n junk s b p c q
  unfolding Ledger wait_begin wait_end notify_begin notify_end
  Uses-Ledger {n} {junk} {s} small (made e) = construct-Ledger n junk s small e
  Uses-Ledger {n} {junk} small (begins {s} {b} {p} {c} {q} u) =
      let l = Uses-Ledger small u in
      (
        l.0,
        ap (λ x. (x + 1) % word) l.1
            ∙ mod-add-mod (junk + b + c * (word - 1)) word 1
            ∙ ap (λ x. x % word) (omega arith),
      )
  Uses-Ledger {n} {junk} small (passes {s} {t} {b} {p} {c} {q} u lt e) =
      let l = Uses-Ledger small u in
      let f = wait_end_fields s t e in
      (omega (arith, l.0, wait_value s.m_sem t.m_sem f.0), f.1 ∙ l.1)
  Uses-Ledger {n} {junk} small (notifies {s} {b} {p} {c} {q} u) =
      let l = Uses-Ledger small u in (l.0, count_down s.m_count (junk + b) c l.1)
  Uses-Ledger {n} {junk} small (posts {s} {t} {b} {p} {c} {q} u lt e) =
      let l = Uses-Ledger small u in
      let f = notify_end_fields s t e in
      (omega (arith, l.0, post_value s.m_sem t.m_sem f.0), f.1 ∙ l.1)

  -- After any calls of any threads: `m_count` is what it held at first, up by one for each call of
  -- `wait` and down by one for each of `notify`, modulo 2^32; no more calls of `wait` have passed than
  -- the first count and the posts allow; and a caller waits only if that many have.
  pub waits_balance :
      {n junk : ℕ} {s : Semaphore Sem} {begun passed notified posted : ℕ}
      → junk < word
      → Uses n junk s begun passed notified posted
      → (s.m_count ≡ (junk + begun + notified * (word - 1)) % word)
        × (passed ≤ n + posted)
        × ((wait_end sys s ≡ none) ↔ (passed ≡ n + posted))
  unfolding Ledger wait_end
  waits_balance {s} small u =
      let l = Uses-Ledger small u in
      (
        l.1,
        omega (arith, l.0),
        elim (Option-cases (sem_wait s.m_sem)) [
          | inl e ↦ (
            λ _. elim (dec_lt 0 (value s.m_sem)) [
              | yes v ↦ let (t, took) = wait_succeeds s.m_sem v in absurd (cc (sym e ∙ took))
              | no v ↦ omega (arith, l.0)
            ],
            λ _. rw (wait_end, e) refl,
          )
          | inr (m, e) ↦ (
            λ h. absurd (ground arith),
            λ h. absurd (omega (arith, l.0, wait_value s.m_sem m e, h)),
          )
        ],
      )
