-- ===== src/LockFreeQueue/Destruction.antt =====
-- include/qc/thread/lockfreequeue.h: the destructor.
use qc.Base.{
  ℕ, zero, suc, ◌+◌, ◌≤◌, ◌<◌, ◌≡◌, refl, sym, ap, subst, ◌∙◌, inl, inr, true, false, Option, none,
  some, List, [], ◌∷◌, ℕ_discrete, Bool-cases, dec_lt, length, if◌then◌else◌, arith,
}
use qc.LockFreeQueue.Machine.{Shared, Pc, idle, deq_delete, delete, System}
use qc.LockFreeQueue.Invariant.{Ghost, Shape, owned}
use qc.LockFreeQueue.History.{Run}
use qc.LockFreeQueue.Contents.{Chain, Contents}
use qc.LockFreeQueue.Accounting.{Run-Accounted}

-- The loop of the destructor, with fuel: `none` if that runs out, or if a deleted node is met. `tmp` is
-- what head holds.
unfoldable pub destroy : {A : Type 0} → ℕ → Shared A → Option ℕ → Option (Shared A)
destroy zero m tmp = none
destroy (suc n) m none = some m
destroy (suc n) m (some a) =
    let rest = destroy n (delete m a) (m.cell a).next in if m.deleted a then none else rest

Chain-delete :
    {A : Type 0} (m : Shared A) (a b : ℕ) (vs : List (Option A))
    → Chain m b vs
    → Chain (delete m a) b vs
Chain-delete m a b [] c = c
Chain-delete m a b (v ∷ vs) (x, e, d, c) = (x, e, d, Chain-delete m a x vs c)

module _ {A : Type 0} (g : Ghost) where
  delete-Shape : (m : Shared A) (a : ℕ) → Shape g m → Shape g (delete m a)
  delete-Shape m a sh = record {
    head_at = sh.head_at;
    tail_at = sh.tail_at;
    ordered = sh.ordered;
    inside = sh.inside;
    lag = sh.lag;
    linked = sh.linked;
    ended = sh.ended;
    distinct = sh.distinct;
    known = sh.known;
  }

  -- The nodes from a place on are deleted, and no other is brought back.
  abbrev Destroyed : ℕ → Shared A → Shared A → Type 0
  Destroyed k m m' =
      ((a : ℕ) → m.deleted a ≡ true → m'.deleted a ≡ true)
      × ((j : ℕ) → k ≤ j → j < g.size → m'.deleted (g.at j) ≡ true)

  destroy-Chain :
      (vs : List (Option A)) (m : Shared A) (k : ℕ)
      → Shape g m
      → Chain m (g.at k) vs
      → k < g.size
      → ((j : ℕ) → k ≤ j → j < g.size → m.deleted (g.at j) ≡ false)
      → (m' : Shared A) × (destroy (suc (suc (length vs))) m (some (g.at k)) ≡ some m')
        × Destroyed k m m'
  unfolding destroy
  destroy-Chain [] m k sh c h live = (
    delete m (g.at k),
    rw (live k (omega arith) h, c) refl,
    (
      (λ a e. ground arith),
      λ j le lt. let q : k ≡ j = ground (arith, sh.linked k) in ground (arith, q),
    ),
  )
  destroy-Chain (v ∷ vs) m k sh (b, e, d, c) h live =
      let next : (k + 1 < g.size) × (b ≡ g.at (k + 1)) = ground (arith, sh.linked k, sh.ended k) in
      let c' : Chain (delete m (g.at k)) (g.at (k + 1)) vs =
        subst (λ x. Chain (delete m (g.at k)) x vs) next.1 (Chain-delete m (g.at k) b vs c) in
      let (m', f, keep_gone) =
        destroy-Chain vs (delete m (g.at k)) (k + 1) (delete-Shape m (g.at k) sh) c' next.0
          (λ j le lt. ground (arith, live j, sh.distinct k j)) in
      (
        m',
        rw (live k (omega arith) h, e ∙ ap some next.1) f,
        (
          (λ a x. keep_gone.0 a (ground arith)),
          λ j le lt. elim (ℕ_discrete k j) [
            | yes q ↦ keep_gone.0 (g.at j) (ground arith)
            | no ne ↦ keep_gone.1 j (omega (arith, ne)) lt
          ],
        ),
      )

-- When no thread is in a call, the destructor, with fuel for the nodes that are left, ends: it meets no
-- node that is deleted already, and after it every node that was ever made is deleted.
pub destroy_lem :
    {A : Type 0} {s : System A} {linked taken : List (Option A)}
    → Run s linked taken
    → ((j : ℕ) → s.pc j ≡ idle)
    → (vs : List (Option A)) → Contents s.mem vs
    → (m : Shared A) × (destroy (suc (suc (length vs))) s.mem (some s.mem.head) ≡ some m)
      × ((a : ℕ) → a < s.mem.fresh → m.deleted a ≡ true)
destroy_lem {A} {s} run still vs c =
    let (g, inv, fr, ac) = Run-Accounted run in
    let sh = inv.shape in
    let live : (j : ℕ) → g.first ≤ j → j < g.size → s.mem.deleted (g.at j) ≡ false = λ j le lt.
      elim (Bool-cases (s.mem.deleted (g.at j))) [
        | inr f ↦ f
        | inl d ↦
            let (k, q, lk) = fr.behind (g.at j) d in
            absurd (ground (arith, sh.distinct j k, sh.ordered, sh.inside))
      ] in
    let (m, e, gone) =
      destroy-Chain g vs s.mem g.first sh (subst (λ a. Chain s.mem a vs) sh.head_at c)
        (omega (arith, sh.ordered, sh.inside)) live in
    (
      m,
      ap (λ a. destroy (suc (suc (length vs))) s.mem (some a)) sh.head_at ∙ e,
      λ a lt. elim (ac.placed a lt) [
        | inl (j, o) ↦
            absurd (
              let h : owned {A = A} idle ≡ some a = subst (λ p. owned p ≡ some a) (still j) o in cc)
        | inr (k, q, lk) ↦ ap m.deleted q ∙ elim (dec_lt k g.first) [
          | no late ↦ gone.1 k (omega (arith, late)) lk
          | yes early ↦ elim (ac.left k early) [
            | inl d ↦ gone.0 (g.at k) d
            | inr (j, r, f) ↦
                absurd
                  (let h : ◌≡◌ {A = Pc A} idle (deq_delete (g.at k) r) = sym (still j) ∙ f in cc)
          ]
        ]
      ],
    )
