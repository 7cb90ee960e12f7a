-- ===== src/LockFreeQueue/Contents.antt =====
-- include/qc/thread/lockfreequeue.h: the queue as a list: the data after the dummy node, followed from `head` by `next` to null.
use mathlib.Core.List.{append-nil}
use qc.Base.{
  ℕ, ◌+◌, ◌<◌, ◌≡◌, refl, sym, subst, ◌∙◌, Option, none, some, List, [], ◌∷◌, ◌++◌, arith,
}
use qc.LockFreeQueue.Machine.{
  Shared, Pc, enq_link, enq_swing, deq_move, deq_delete, Move, allocate, delete, new_node,
  load_tail, link_done, move_done, help_done, swing_done, deq_help_done, delete_head, set_next,
}
use qc.LockFreeQueue.Invariant.{Ghost, Shape, Local, Owned, owned}

abbrev pub Chain : {A : Type 0} → Shared A → ℕ → List (Option A) → Type 0
Chain m a [] = (m.cell a).next ≡ none
Chain m a (v ∷ vs) = (b : ℕ) × ((m.cell a).next ≡ some b) × ((m.cell b).datum ≡ v) × Chain m b vs

abbrev pub Contents : {A : Type 0} → Shared A → List (Option A) → Type 0
Contents m vs = Chain m m.head vs

-- The values that a step puts in and takes out: at the compare-exchange that links a node, and at
-- the one that moves head.
abbrev pub put_by : {A : Type 0} → Pc A → Pc A → List (Option A)
put_by (enq_link v n t) (enq_swing w k u) = v ∷ []
put_by _ _ = []

abbrev pub taken_by : {A : Type 0} → Pc A → Pc A → List (Option A)
taken_by (deq_move h x r) (deq_delete k q) = r ∷ []
taken_by _ _ = []

pub Chain-unique :
    {A : Type 0} (m : Shared A) (a : ℕ) (vs ws : List (Option A))
    → Chain m a vs
    → Chain m a ws
    → vs ≡ ws
Chain-unique m a [] [] c d = refl
Chain-unique m a [] (w ∷ ws) c (b, e, q, d) = cc
Chain-unique m a (v ∷ vs) [] (b, e, q, c) d = cc
Chain-unique m a (v ∷ vs) (w ∷ ws) (b, e, q, c) (b', e', q', d) =
    let same : b ≡ b' = cc in cc (Chain-unique m b vs ws c (subst (λ x. Chain m x ws) (sym same) d))

module _ {A : Type 0} {g : Ghost} {m : Shared A} (sh : Shape g m) where
  open sh use {head_at, ordered, inside, linked, ended, distinct, known}

  -- Cells on the chain that stay as they are.
  Chain-keep :
      (m' : Shared A)
      → ((i : ℕ) → i < g.size → m'.cell (g.at i) ≡ m.cell (g.at i))
      → (i : ℕ) (a : ℕ) (vs : List (Option A)) → a ≡ g.at i
      → i < g.size
      → Chain m a vs
      → Chain m' a vs
  Chain-keep m' keep i a [] q h c = ground (arith, keep i h)
  Chain-keep m' keep i a (v ∷ vs) q h (b, e, d, c) =
      let next : (i + 1 < g.size) × (b ≡ g.at (i + 1)) = ground (arith, linked i, ended i) in
      (
        b,
        ground (arith, keep i h),
        ground (arith, keep (i + 1) next.0),
        Chain-keep m' keep (i + 1) b vs next.1 next.0 c,
      )

  Chain-link :
      (n t : ℕ) (v : Option A)
      → Owned g m n
      → (m.cell n).datum ≡ v
      → (m.cell t).next ≡ none
      → (k : ℕ) → t ≡ g.at k
      → k + 1 ≡ g.size
      → (i a : ℕ) (vs : List (Option A)) → a ≡ g.at i
      → i < g.size
      → Chain m a vs
      → Chain (set_next m t n) a (vs ++ v ∷ [])
  Chain-link n t v own d z k qk ek i a [] q h c = (
    n,
    ground (arith, linked i),
    ground (arith, own.apart k),
    ground (arith, own.apart k, own.unlinked),
  )
  Chain-link n t v own d z k qk ek i a (w ∷ vs) q h (b, e, f, c) =
      let next : (i + 1 < g.size) × (b ≡ g.at (i + 1)) = ground (arith, linked i, ended i) in
      (b, ground arith, ground arith, Chain-link n t v own d z k qk ek (i + 1) b vs next.1 next.0 c)

  Chain-move :
      (h x : ℕ) (r : Option A) (vs : List (Option A))
      → (m.cell h).next ≡ some x
      → (m.cell x).datum ≡ r
      → Chain m h vs
      → (ws : List (Option A)) × Chain m x ws × (vs ≡ r ∷ ws)
  Chain-move h x r [] e d c = cc
  Chain-move h x r (v ∷ vs) e d (b, e', f, c) =
      let same : b ≡ x = cc in (vs, subst (λ y. Chain m y vs) same c, cc)

  tail-Contents :
      (x : ℕ) (vs : List (Option A)) → Contents m vs → Contents (record m { tail = x }) vs
  tail-Contents x vs c =
      Chain-keep (record m { tail = x }) (λ i h. refl) g.first m.head vs head_at (omega arith) c

  -- A move puts its value at the end, takes the one at the front, or leaves the queue as it is.
  pub Move-Contents :
      {p p' : Pc A} {m' : Shared A} (mv : Move m p m' p')
      → Local g m p
      → ((n : ℕ) → owned p ≡ some n → Owned g m n)
      → (vs : List (Option A)) → Contents m vs
      → (ws : List (Option A)) × Contents m' ws × (vs ++ put_by p p' ≡ taken_by p p' ++ ws)
  Move-Contents (new_node v) l own vs c = (
    vs,
    Chain-keep (allocate m v) (λ i h. ground (arith, known i)) g.first m.head vs head_at
        (omega arith) c,
    append-nil vs,
  )
  Move-Contents (link_done {v} {n} {t} e) l own vs c =
      let (d, place) = l in
      let (i, q, le) = place in
      (
        vs ++ v ∷ [],
        Chain-link n t v (own n refl) d e i q (ground (arith, linked i)) g.first m.head vs head_at
            (omega arith) c,
        refl,
      )
  Move-Contents (move_done {h} {x} {r} e) l own vs c =
      let (i, q, qx, le, lt, f) = l in
      let (ws, c', d) =
        Chain-move h x r vs (ground (arith, linked i)) (sym f) (subst (λ y. Chain m y vs) e c) in
      (
        ws,
        Chain-keep (record m { head = x }) (λ i h. refl) (i + 1) x ws qx (omega arith) c',
        append-nil vs ∙ d,
      )
  Move-Contents (help_done {x} e) l own vs c = (vs, tail-Contents x vs c, append-nil vs)
  Move-Contents (swing_done {n} e) l own vs c = (vs, tail-Contents n vs c, append-nil vs)
  Move-Contents (deq_help_done {x} e) l own vs c = (vs, tail-Contents x vs c, append-nil vs)
  Move-Contents (delete_head {h}) l own vs c = (
    vs,
    Chain-keep (delete m h) (λ i h. refl) g.first m.head vs head_at (omega arith) c,
    append-nil vs,
  )
  Move-Contents load_tail l own vs c = (vs, c, append-nil vs)
  Move-Contents mv l own vs c = (vs, c, append-nil vs)
