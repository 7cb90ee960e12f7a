-- ===== src/Locking/Invariant.antt =====
-- Threads that make calls of the configuration and of the log: who has which lock.
use qc.Base.{
  ℕ, zero, suc, ◌<◌, ◌≡◌, ◌⊎◌, inl, inr, refl, sym, subst, ap, ◌∙◌, true, false, List, [], ◌∷◌, In,
  update, update-elim, ℕ_discrete, arith,
}
use qc.Locking.{Mode, LockName, Act, Call}
use qc.Locking.Order.{Fine}
use qc.Locking.Calls.{calls-Fine}
use qc.Locking.Threads.{
  compatible, Holding, Runner, Runners, Grantable, Step, takes, releases, Run, begun, further,
  starting,
}

LockName-discrete : Discrete LockName
LockName-discrete = hlevel ℕ_discrete

compatible-cases : (a b : Mode) → (compatible a b ≡ true) ⊎ (compatible a b ≡ false)
unfolding compatible
compatible-cases Mode.shared Mode.shared = inl refl
compatible-cases Mode.shared Mode.exclusive = inr refl
compatible-cases Mode.exclusive b = inr refl

compatible-eq : (a b : Mode) → compatible a b ≡ true → a ≡ b
unfolding compatible
compatible-eq Mode.shared Mode.shared e = refl
compatible-eq Mode.shared Mode.exclusive e = absurd (cc)
compatible-eq Mode.exclusive b e = absurd (cc)

tail-eq : {x : Holding} {xs ys : List Holding} → x ∷ xs ≡ x ∷ ys → xs ≡ ys
tail-eq e = cc

-- A lock that someone has keeps another mode out.
abbrev pub Blocks : Mode → LockName → Holding → Type 0
Blocks m k h = (h.1 ≡ k) × (compatible m h.0 ≡ false)

scan_held :
    (m : Mode) (k : LockName) (held : List Holding)
    → ((h : Holding) → In h held → h.1 ≡ k → compatible m h.0 ≡ true)
      ⊎ ((h : Holding) × In h held × Blocks m k h)
unfolding In
scan_held m k [] = inl (λ h i. absurd i)
scan_held m k (g ∷ held) = elim (scan_held m k held) [
  | inr (h, i, b) ↦ inr (h, inr i, b)
  | inl free ↦ elim (LockName-discrete g.1 k) [
    | no other ↦ inl (λ h i. elim i [
      | inl e ↦ λ same. absurd (other (ap (λ x. x.1) e ∙ same))
      | inr i' ↦ free h i'
    ])
    | yes same ↦ elim (compatible-cases m g.0) [
      | inr no_room ↦ inr (g, inl refl, (same, no_room))
      | inl room ↦ inl (λ h i. elim i [
        | inl e ↦ λ _. subst (λ (x : Holding). compatible m x.0 ≡ true) e room
        | inr i' ↦ free h i'
      ])
    ]
  ]
]

module _ (n : ℕ) where
  abbrev pub Blocker : Runners → ℕ → Mode → LockName → Type 0
  Blocker s b m k = (j : ℕ) × (j < b) × ((h : Holding) × In h (s j).held × Blocks m k h)

  pub scan : (s : Runners) (m : Mode) (k : LockName) (b : ℕ) → Grantable b s m k ⊎ Blocker s b m k
  scan s m k zero = inl (λ j l. absurd (omega arith))
  scan s m k (suc b) = elim (scan s m k b) [
    | inr (j, l, found) ↦ inr (j, omega arith, found)
    | inl free ↦ elim (scan_held m k (s b).held) [
      | inr found ↦ inr (b, omega arith, found)
      | inl none_here ↦ inl (λ j l. elim (ℕ_discrete b j) [
        | yes e ↦
            subst (λ x. (h : Holding) → In h (s x).held → h.1 ≡ k → compatible m h.0 ≡ true) e
              none_here
        | no ne ↦ free j (omega arith)
      ])
    ]
  ]

  -- Every thread goes on in order, and all that have one lock have it in one mode.
  pub record Inv (s : Runners) : Type 0 where
    pub fine : (i : ℕ) → i < n → Fine (s i).held (s i).rest
    pub alike :
        (i j : ℕ)
        → i < n
        → j < n
        → (h g : Holding) → In h (s i).held
        → In g (s j).held
        → h.1 ≡ g.1
        → h.0 ≡ g.0

  -- With the lock `(m, k)` new in thread `i`, what is held by any thread.
  taken :
      (s : Runners) (i : ℕ) (m : Mode) (k : LockName) (rest : List Act) (j : ℕ) (h : Holding)
      → In h (update s i (record { held = (m, k) ∷ (s i).held; rest = rest }) j).held
      → ((m, k) ≡ h) ⊎ In h (s j).held
  unfolding In
  taken s i m k rest j h =
      let r : Runner = record { held = (m, k) ∷ (s i).held; rest = rest } in
      update-elim (λ (x : Runner). In h x.held → ((m, k) ≡ h) ⊎ In h (s j).held) s i r j
        (λ e m'. elim m' [ inl new ↦ inl new | inr old ↦ inr (subst (λ x. In h (s x).held) e old) ])
        (λ _ old. inr old)

  kept :
      (s : Runners) (i : ℕ) (m : Mode) (k : LockName) (held : List Holding) (rest : List Act)
      (j : ℕ) (h : Holding)
      → (s i).held ≡ (m, k) ∷ held
      → In h (update s i (record { held = held; rest = rest }) j).held
      → In h (s j).held
  unfolding In
  kept s i m k held rest j h top =
      let r : Runner = record { held = held; rest = rest } in
      update-elim (λ (x : Runner). In h x.held → In h (s j).held) s i r j
        (λ e old. subst (λ x. In h (s x).held) e (subst (In h) (sym top) (inr old))) (λ _ old. old)

  pub Step-Inv : {s t : Runners} → Step n s t → Inv s → Inv t
  unfolding Fine
  Step-Inv {s} (takes i m k rest li e free) inv = record {
    fine = λ j lj.
        update-elim (λ (x : Runner). Fine x.held x.rest) s i
          (record { held = (m, k) ∷ (s i).held; rest = rest }) j
          (λ _. (subst (Fine (s i).held) e (inv.fine i li)).1) (λ _. inv.fine j lj);
    alike = λ a b la lb h g ih ig same. elim (taken s i m k rest a h ih) [
      | inl new ↦ elim (taken s i m k rest b g ig) [
        | inl new' ↦ ap (λ x. x.0) (sym new ∙ new')
        | inr old' ↦
            ap (λ x. x.0) (sym new)
            ∙ compatible-eq m g.0 (free b lb g old' (sym same ∙ ap (λ x. x.1) (sym new)))
      ]
      | inr old ↦ elim (taken s i m k rest b g ig) [
        | inl new' ↦
            sym (compatible-eq m h.0 (free a la h old (same ∙ ap (λ x. x.1) (sym new'))))
            ∙ ap (λ x. x.0) new'
        | inr old' ↦ inv.alike a b la lb h g old old' same
      ]
    ];
  }
  Step-Inv {s} (releases i m k held rest li e top) inv =
      let r : Runner = record { held = held; rest = rest } in
      let (below, eq, f) = subst (Fine (s i).held) e (inv.fine i li) in
      record {
        fine = λ j lj.
            update-elim (λ (x : Runner). Fine x.held x.rest) s i r j
              (λ _. subst (λ x. Fine x rest) (tail-eq (sym eq ∙ top)) f) (λ _. inv.fine j lj);
        alike = λ a b la lb h g ih ig.
            inv.alike a b la lb h g (kept s i m k held rest a h top ih)
              (kept s i m k held rest b g top ig);
      }

  pub starting-Inv : (calls : ℕ → List Call) → Inv (starting calls)
  unfolding In
  starting-Inv calls = record {
    fine = λ i l. calls-Fine (calls i);
    alike = λ i j li lj h g ih. absurd ih;
  }

  pub Run-Inv : {s t : Runners} {k : ℕ} → Run n s t k → Inv s → Inv t
  Run-Inv begun inv = inv
  Run-Inv (further r st) inv = Step-Inv st (Run-Inv r inv)
