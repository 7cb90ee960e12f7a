-- ===== src/Thread/Ready.antt =====
-- src/thread/thread.cpp: what has happened in the new thread when the constructor returns.
use qc.Base.{
  ℕ, ◌+◌, ◌≤◌, ◌≡◌, ◌≢◌, refl, sym, ap, subst, true, Option, none, some, List, [], ◌∷◌, ◌==◌, arith,
  Option-cases, Bool-cases, inl, inr,
}
use qc.Semaphore.{System, Semaphore, wait_begin, wait_end, notify_begin, notify_end}
use qc.Semaphore.Accounting.{wait_end_fields}
use qc.Thread.Handshake.{
  Maker, Body, Birth, CallEnd, or_none, prepare, create, set_name, set_thread_idx, make, post,
  call_back, run, Reach, prepared, creates, makes, runs, renames, reindexes,
}
use qc.Thread.Level.{
  level, Carries, is_posted, is_constructed, is_begun, posted-level, not_crashed-level,
  posted-bound,
}

module _ {F : Type 0} (sys : System) (cb : Option F) (name : List ℕ) (tid : ℕ) where
  open sys use {Sem, sem_wait, sem_post, value, post_value, wait_value}

  pub record Inv (s : Birth F Sem) (b : Body F) : Type 0 where
    pub pointer : 2 ≤ level b → s.t_thread ≡ true
    pub named : 3 ≤ level b → s.t_name ≡ s.m_name
    pub identified : 4 ≤ level b → s.m_tid ≡ some tid
    pub taken : 6 ≤ level b → s.m_cb ≡ none
    pub kept : level b ≤ 5 → s.m_cb ≡ cb
    pub first_name : level b ≤ 7 → s.m_name ≡ or_none name
    pub carried : Carries cb b
    pub passed : s.maker ≡ Maker.constructed → 8 ≤ level b
    pub unmade : s.maker ≡ Maker.creating → level b ≡ 0
    pub begun : is_begun s.maker ≡ true → 1 ≤ level b
    pub balance : level b ≤ 10 → value s.m_sem.m_sem + is_constructed s.maker ≡ is_posted b

  abbrev pub After : Birth F Sem → Type 0
  After s = Inv s s.body

  post-Inv : (s : Birth F Sem) (c : Option F) → Inv s (Body.posting c) → After (post sys s c)
  unfolding notify_end
  post-Inv s c inv = elim (Option-cases (sem_post s.m_sem.m_sem)) [
    | inl e ↦ rw (e, post, notify_end) (ground arith)
    | inr (m, e) ↦ rw (e, post, notify_end) (ground (arith, post_value s.m_sem.m_sem m e))
  ]

  call_back-Inv :
      (s : Birth F Sem) (o : CallEnd F) (c : Option F)
      → Inv s (Body.calling c)
      → After (call_back sys s c o)
  call_back-Inv s CallEnd.returns (some f) inv = ground arith
  call_back-Inv s CallEnd.throws (some f) inv = ground arith
  call_back-Inv s o none inv = ground arith

  pub run-Inv :
      (s : Birth F Sem) (o : CallEnd F) (b : Body F)
      → s.body ≡ b
      → Inv s b
      → After (run sys tid o s b)
  unfolding run set_thread_idx notify_begin
  run-Inv s o Body.unborn e inv = subst (Inv s) (sym e) inv
  run-Inv s o Body.entering e inv = ground arith
  run-Inv s o Body.naming e inv = ground arith
  run-Inv s o Body.identifying e inv = ground arith
  run-Inv s o Body.indexing e inv = ground arith
  run-Inv s o Body.taking e inv = ground arith
  run-Inv s o (Body.announcing c) e inv = ground arith
  run-Inv s o (Body.posting c) e inv = post-Inv s c inv
  run-Inv s o (Body.calling c) e inv = call_back-Inv s o c inv
  run-Inv s o Body.ending e inv = ground arith
  run-Inv s o Body.ended e inv = subst (Inv s) (sym e) inv
  run-Inv s o Body.crashed e inv = subst (Inv s) (sym e) inv

  make-Inv :
      (s : Birth F Sem) (m : Maker)
      → s.maker ≡ m
      → s.body ≢ Body.crashed
      → After s
      → After (make sys s m)
  unfolding make wait_begin
  make-Inv s Maker.creating e ok inv = inv
  make-Inv s Maker.failed e ok inv = inv
  make-Inv s Maker.constructed e ok inv = inv
  make-Inv s Maker.counting e ok inv = record {
    pointer = inv.pointer;
    named = inv.named;
    identified = inv.identified;
    taken = inv.taken;
    kept = inv.kept;
    first_name = inv.first_name;
    carried = inv.carried;
    passed = λ h. cc;
    unmade = λ h. cc;
    begun = λ _. inv.begun (ap is_begun e);
    balance = λ le. omega (arith, inv.balance le, ap is_constructed e);
  }
  make-Inv s Maker.waiting e ok inv = elim (Option-cases (wait_end sys s.m_sem)) [
    | inl empty ↦ rw (make, empty) inv
    | inr (m, took) ↦
        let balanced = inv.balance (not_crashed-level s.body ok) in
        let lower = wait_value s.m_sem.m_sem m.m_sem (wait_end_fields sys s.m_sem m took).0 in
        rw (make, took)
          (record {
            pointer = inv.pointer;
            named = inv.named;
            identified = inv.identified;
            taken = inv.taken;
            kept = inv.kept;
            first_name = inv.first_name;
            carried = inv.carried;
            passed = λ _.
                posted-level s.body
                  (omega (arith, balanced, posted-bound s.body, ap is_constructed e, lower));
            unmade = λ h. cc;
            begun = λ _. inv.begun (ap is_begun e);
            balance = λ le. omega (arith, balanced, ap is_constructed e, lower);
          })
  ]

  unborn-posted : (b : Body F) → level b ≡ 0 → is_posted b ≡ 0
  unborn-posted b u = ground (arith, posted-level b, posted-bound b)

  create-Inv :
      (s : Birth F Sem) (rt : ℕ)
      → s.maker ≡ Maker.creating
      → level s.body ≡ 0
      → After s
      → After (create rt s)
  unfolding create
  create-Inv s rt e u inv = elim (Bool-cases (rt == 0)) [
    | inl z ↦ rw z (record {
      pointer = λ h. absurd (omega arith);
      named = λ h. absurd (omega arith);
      identified = λ h. absurd (omega arith);
      taken = λ h. absurd (omega arith);
      kept = λ _. inv.kept (omega (arith, u));
      first_name = λ _. inv.first_name (omega (arith, u));
      carried = tt;
      passed = λ h. cc;
      unmade = λ h. cc;
      begun = λ _. omega arith;
      balance = λ _.
          omega
            (arith, inv.balance (omega (arith, u)), unborn-posted s.body u, ap is_constructed e);
    })
    | inr z ↦ rw z (record {
      pointer = inv.pointer;
      named = inv.named;
      identified = inv.identified;
      taken = inv.taken;
      kept = inv.kept;
      first_name = inv.first_name;
      carried = inv.carried;
      passed = λ h. cc;
      unmade = λ h. cc;
      begun = λ h. cc;
      balance = λ le. omega (arith, inv.balance le, ap is_constructed e);
    })
  ]

  set_name-Inv :
      (s : Birth F Sem) (c : Option F) (n : List ℕ)
      → s.body ≡ Body.calling c
      → After s
      → After (set_name n s)
  unfolding set_name
  set_name-Inv s c [] e inv = inv
  set_name-Inv s c (x ∷ xs) e inv = rw (inv.pointer (omega (arith, ap level e))) (record {
    pointer = λ _. refl;
    named = λ _. refl;
    identified = inv.identified;
    taken = inv.taken;
    kept = inv.kept;
    first_name = λ h. absurd (omega (arith, ap level e));
    carried = inv.carried;
    passed = inv.passed;
    unmade = inv.unmade;
    begun = inv.begun;
    balance = inv.balance;
  })

  pub Reach-Inv :
      {sem : Semaphore Sem} {s : Birth F Sem}
      → value sem.m_sem ≡ 0
      → Reach sys cb name sem tid s
      → After s
  unfolding prepare set_thread_idx
  Reach-Inv z prepared = ground arith
  Reach-Inv z (creates {s} rt r e) = let inv = Reach-Inv z r in create-Inv s rt e (inv.unmade e) inv
  Reach-Inv z (makes {s} r ok) = make-Inv s s.maker refl ok (Reach-Inv z r)
  Reach-Inv z (runs {s} o r) = run-Inv s o s.body refl (Reach-Inv z r)
  Reach-Inv z (renames {s} {f} n r e) = set_name-Inv s f n e (Reach-Inv z r)
  Reach-Inv z (reindexes {s} idx r e) = let inv = Reach-Inv z r in ground arith

  -- When the constructor returns, its semaphore being made with 0, the new thread has set the id of
  -- the thread, its name is that of the Thread, and it has taken the callback out of the Thread: the
  -- callback that it calls is the one given.
  pub constructed_lem :
      {sem : Semaphore Sem} {s : Birth F Sem}
      → value sem.m_sem ≡ 0
      → Reach sys cb name sem tid s
      → s.maker ≡ Maker.constructed
      → (s.m_tid ≡ some tid) × (s.t_name ≡ s.m_name) × (s.m_cb ≡ none) × Carries cb s.body
  constructed_lem z r e =
      let inv = Reach-Inv z r in
      let far = inv.passed e in
      (
        inv.identified (omega (arith, far)),
        inv.named (omega (arith, far)),
        inv.taken (omega (arith, far)),
        inv.carried,
      )
