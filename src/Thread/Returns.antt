-- ===== src/Thread/Returns.antt =====
-- src/thread/thread.cpp: the constructor of a Thread comes to its end.
use qc.Base.{
  ℕ, zero, suc, ◌+◌, ◌-◌, ◌≤◌, ◌<◌, ◌≡◌, ◌≢◌, refl, ap, ◌∙◌, true, Option, List, arith, dec_lt,
}
use qc.Semaphore.{System, Semaphore, wait_begin, wait_end, notify_end}
use qc.Thread.Handshake.{Maker, Body, Birth, CallEnd, make, post, run, set_thread_idx, Reach}
use qc.Thread.Level.{level, is_begun, is_constructed, is_posted, not_crashed-level}
use qc.Thread.Ready.{Inv, Reach-Inv, run-Inv}

module _ {F : Type 0} (sys : System) (tid : ℕ) where
  open sys use {Sem, sem_wait, sem_post, value, value_max, post_succeeds, wait_succeeds}

  -- Steps of the new thread alone; then the two steps of the constructor.
  unfoldable pub alone : ℕ → Birth F Sem → Birth F Sem
  alone zero s = s
  alone (suc n) s = alone n (run sys tid CallEnd.returns s s.body)

  abbrev pub conclude : Birth F Sem → Birth F Sem
  conclude s = let t = make sys s s.maker in make sys t t.maker

  module _ (cb : Option F) (name : List ℕ) (room : 0 < value_max) where
    post-level :
        (s : Birth F Sem) (c : Option F)
        → is_constructed s.maker ≡ 0
        → Inv sys cb name tid s (Body.posting c)
        → (level (post sys s c).body ≡ 8) × ((post sys s c).maker ≡ s.maker)
    unfolding notify_end
    post-level s c m inv =
        let (t, e) = post_succeeds s.m_sem.m_sem (omega (arith, inv.balance (omega arith), room)) in
        rw (post, notify_end, e) (refl, refl)

    run-level :
        (s : Birth F Sem) (b : Body F)
        → is_constructed s.maker ≡ 0
        → 1 ≤ level b
        → level b ≤ 7
        → Inv sys cb name tid s b
        → (level (run sys tid CallEnd.returns s b).body ≡ suc (level b))
          × ((run sys tid CallEnd.returns s b).maker ≡ s.maker)
    unfolding run set_thread_idx
    run-level s Body.unborn m lo hi inv = absurd (omega arith)
    run-level s Body.entering m lo hi inv = (refl, refl)
    run-level s Body.naming m lo hi inv = (refl, refl)
    run-level s Body.identifying m lo hi inv = (refl, refl)
    run-level s Body.indexing m lo hi inv = (refl, refl)
    run-level s Body.taking m lo hi inv = (refl, refl)
    run-level s (Body.announcing c) m lo hi inv = (refl, refl)
    run-level s (Body.posting c) m lo hi inv = post-level s c m inv
    run-level s (Body.calling c) m lo hi inv = absurd (omega arith)
    run-level s Body.ending m lo hi inv = absurd (omega arith)
    run-level s Body.ended m lo hi inv = absurd (omega arith)
    run-level s Body.crashed m lo hi inv = absurd (omega arith)

    posted_at : (b : Body F) → 8 ≤ level b → level b ≤ 10 → is_posted b ≡ 1
    posted_at (Body.calling c) lo hi = refl
    posted_at Body.ending lo hi = refl
    posted_at Body.ended lo hi = refl
    posted_at Body.crashed lo hi = absurd (omega arith)
    posted_at Body.unborn lo hi = absurd (omega arith)
    posted_at Body.entering lo hi = absurd (omega arith)
    posted_at Body.naming lo hi = absurd (omega arith)
    posted_at Body.identifying lo hi = absurd (omega arith)
    posted_at Body.indexing lo hi = absurd (omega arith)
    posted_at Body.taking lo hi = absurd (omega arith)
    posted_at (Body.announcing c) lo hi = absurd (omega arith)
    posted_at (Body.posting c) lo hi = absurd (omega arith)

    abbrev Posted : Birth F Sem → Type 0
    Posted s = (8 ≤ level s.body) × (level s.body ≤ 10) × Inv sys cb name tid s s.body

    make_waits :
        (s : Birth F Sem)
        → value s.m_sem.m_sem ≡ 1
        → (make sys s Maker.waiting).maker ≡ Maker.constructed
    unfolding make wait_end
    make_waits s v =
        let (t, e) = wait_succeeds s.m_sem.m_sem (omega (arith, v)) in rw (make, wait_end, e) refl

    one_left : (s : Birth F Sem) → is_constructed s.maker ≡ 0 → Posted s → value s.m_sem.m_sem ≡ 1
    one_left s m (lo, hi, inv) = omega (arith, inv.balance hi, posted_at s.body lo hi, m)

    Maker_stays : (s : Birth F Sem) → s.maker ≡ Maker.constructed → make sys s s.maker ≡ s
    unfolding make
    Maker_stays s e = ap (make sys s) e

    conclude_from :
        (s : Birth F Sem) (m : Maker)
        → s.maker ≡ m
        → is_begun m ≡ true
        → Posted s
        → (conclude s).maker ≡ Maker.constructed
    unfolding make wait_begin
    conclude_from s Maker.creating e b p = cc
    conclude_from s Maker.failed e b p = cc
    conclude_from s Maker.constructed e b p =
        ap (λ t. (make sys t t.maker).maker) (Maker_stays s e)
        ∙ ap (λ t. t.maker) (Maker_stays s e)
        ∙ e
    conclude_from s Maker.waiting e b p =
        let done = make_waits s (one_left s (ap is_constructed e) p) in
        ap (λ m. let t = make sys s m in (make sys t t.maker).maker) e
        ∙ ap (λ t. t.maker) (Maker_stays (make sys s Maker.waiting) done)
        ∙ done
    conclude_from s Maker.counting e b p =
        ap (λ m. let t = make sys s m in (make sys t t.maker).maker) e
        ∙ make_waits (make sys s Maker.counting) (one_left s (ap is_constructed e) p)

    alone_reaches :
        (n : ℕ) (s : Birth F Sem)
        → is_constructed s.maker ≡ 0
        → is_begun s.maker ≡ true
        → 1 ≤ level s.body
        → level s.body + n ≡ 8
        → Inv sys cb name tid s s.body
        → (conclude (alone n s)).maker ≡ Maker.constructed
    unfolding alone
    alone_reaches zero s m b lo at inv =
        conclude_from s s.maker refl b (omega (arith, at), omega (arith, at), inv)
    alone_reaches (suc n) s m b lo at inv =
        let (l, k) = run-level s s.body m lo (omega (arith, at)) inv in
        alone_reaches n (run sys tid CallEnd.returns s s.body) (ap is_constructed k ∙ m)
          (ap is_begun k ∙ b) (omega (arith, l)) (omega (arith, l, at))
          (run-Inv sys cb name tid s CallEnd.returns s.body refl inv)

    not_constructed : (m : Maker) → m ≢ Maker.constructed → is_constructed m ≡ 0
    not_constructed Maker.constructed ne = absurd (ne refl)
    not_constructed Maker.creating ne = refl
    not_constructed Maker.counting ne = refl
    not_constructed Maker.waiting ne = refl
    not_constructed Maker.failed ne = refl

    -- From every state after pthread_create the constructor returns once the new thread, running alone, has taken at most
    -- seven steps, if no exception has left `run`: the thread gives the semaphore what the constructor waits for.
    pub constructor_returns :
        {sem : Semaphore Sem} {s : Birth F Sem}
        → value sem.m_sem ≡ 0
        → Reach sys cb name sem tid s
        → is_begun s.maker ≡ true
        → s.body ≢ Body.crashed
        → (n : ℕ) × (n ≤ 7) × ((conclude (alone n s)).maker ≡ Maker.constructed)
    unfolding alone
    constructor_returns {s} z r b ok =
        let inv = Reach-Inv sys cb name tid z r in
        elim (dec_lt (level s.body) 8) [
          | yes early ↦ (
            8 - level s.body,
            omega (arith, inv.begun b),
            alone_reaches (8 - level s.body) s
                (not_constructed s.maker (λ h. absurd (omega (arith, inv.passed h, early)))) b
                (inv.begun b) (omega (arith, early)) inv,
          )
          | no late ↦ (
            0,
            omega arith,
            conclude_from s s.maker refl b (omega (arith, late), not_crashed-level s.body ok, inv),
          )
        ]
