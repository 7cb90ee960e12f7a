-- ===== src/LockFreeQueue/Accounting.antt =====
-- include/qc/thread/lockfreequeue.h: where every node is that was ever made.
use qc.Base.{
  ℕ, ◌<◌, ◌≡◌, refl, sym, ap, subst, ◌∙◌, ◌⊎◌, inl, inr, true, Option, some, List, update,
  update-elim, ℕ_discrete, dec_lt, arith,
}
use qc.LockFreeQueue.Machine.{
  Shared, Pc, deq_delete, Move, new_node, link_done, move_done, delete_head, System,
}
use qc.LockFreeQueue.Invariant.{Ghost, Shape, Inv, Extends, owned}
use qc.LockFreeQueue.Moves.{advance, Move-Extends}
use qc.LockFreeQueue.Preserve.{Move-Inv, init-Inv}
use qc.LockFreeQueue.History.{Run, begin, after}
use qc.LockFreeQueue.Deletion.{Freed, Move-Freed}

-- Where every node is: in the hands of the thread that made it, or on the chain; and one that head has
-- left is deleted, or in the hands of the thread that is about to delete it.
pub record Accounted {A : Type 0} (g : Ghost) (m : Shared A) (pc : ℕ → Pc A) : Type 0 where
  pub placed :
      (a : ℕ)
      → a < m.fresh
      → ((j : ℕ) × (owned (pc j) ≡ some a)) ⊎ ((k : ℕ) × (a ≡ g.at k) × (k < g.size))
  pub left :
      (k : ℕ)
      → k < g.first
      → (m.deleted (g.at k) ≡ true) ⊎ ((j : ℕ) × (r : Option A) × (pc j ≡ deq_delete (g.at k) r))

-- A node in the hands of a thread stays there, or is linked.
Move-owned :
    {A : Type 0} {m m' : Shared A} {p p' : Pc A} (g : Ghost) (mv : Move m p m' p')
    → (a : ℕ) → owned p ≡ some a
    → (owned p' ≡ some a) ⊎ ((a ≡ (advance g mv).at g.size) × (g.size < (advance g mv).size))
unfolding advance
Move-owned g (link_done {n} e) a o = inr (ground arith)
Move-owned g mv a o = inl (ground arith)

Move-fresh :
    {A : Type 0} {m m' : Shared A} {p p' : Pc A}
    → Move m p m' p'
    → (a : ℕ) → a < m'.fresh
    → (a < m.fresh) ⊎ (owned p' ≡ some a)
Move-fresh {m} (new_node v) a h = elim (dec_lt a m.fresh) [
  | yes below ↦ inl below
  | no last ↦ inr (ap some (let q : m.fresh ≡ a = omega arith in q))
]
Move-fresh mv a h = inl h

Move-kept :
    {A : Type 0} {m m' : Shared A} {p p' : Pc A}
    → Move m p m' p'
    → (a : ℕ) → m.deleted a ≡ true
    → m'.deleted a ≡ true
Move-kept (delete_head {h} {r}) a e = ground arith
Move-kept mv a e = e

-- The thread that is about to delete a node deletes it with its next step.
Move-delete :
    {A : Type 0} {m m' : Shared A} {p p' : Pc A}
    → Move m p m' p'
    → (a : ℕ) (r : Option A) → p ≡ deq_delete a r
    → m'.deleted a ≡ true
Move-delete (delete_head {h} {r}) a q e = ground arith
Move-delete mv a q e = absurd (ground arith)

-- Where head moves, the thread that moves it comes to delete the node that head leaves.
Move-left :
    {A : Type 0} {g : Ghost} {m m' : Shared A} {p p' : Pc A} (sh : Shape g m) (mv : Move m p m' p')
    → (k : ℕ) → k < (advance g mv).first
    → (k < g.first) ⊎ ((k ≡ g.first) × ((r : Option A) × (p' ≡ deq_delete (g.at k) r)))
unfolding advance
Move-left {g} sh (move_done {h} {x} {r} e) k h' = elim (dec_lt k g.first) [
  | yes below ↦ inl below
  | no last ↦
      let q : k ≡ g.first = omega arith in
      inr (q, (r, ap (λ z. deq_delete z r) (sym e ∙ sh.head_at ∙ ap g.at (sym q))))
]
Move-left sh mv k h = inl h

module _ {A : Type 0} {g : Ghost} {m : Shared A} {pc : ℕ → Pc A} (inv : Inv g m pc)
    (ac : Accounted g m pc) (i : ℕ) where
  open inv use {shape}
  open ac use {placed, left}

  -- A fact about one thread that the step of thread `i` keeps, or makes true of `i`.
  still_some :
      {p : Pc A} (P : Pc A → Type 0) (Q : Type 0)
      → (j : ℕ) → P (pc j)
      → (P (pc i) → P p ⊎ Q)
      → ((k : ℕ) × P (update pc i p k)) ⊎ Q
  still_some {p} P Q j h moved = elim (ℕ_discrete i j) [
    | no ne ↦ inl (j, update-elim P pc i p j (λ e. absurd (ne e)) (λ _. h))
    | yes e ↦ elim (moved (subst (λ k. P (pc k)) (sym e) h)) [
      | inl u ↦ inl (i, update-elim P pc i p i (λ _. u) (λ ne. absurd (ne refl)))
      | inr q ↦ inr q
    ]
  ]

  Move-Accounted :
      {p : Pc A} {m' : Shared A} (mv : Move m (pc i) m' p)
      → Accounted (advance g mv) m' (update pc i p)
  Move-Accounted {p} {m'} mv = record {
    placed = λ a h. elim (Move-fresh mv a h) [
      | inr o ↦
          inl (i, update-elim (λ q. owned q ≡ some a) pc i p i (λ _. o) (λ ne. absurd (ne refl)))
      | inl old ↦ elim (placed a old) [
        | inr (k, q, lt) ↦ inr (k, q ∙ sym (ex.same k lt), omega (arith, ex.grows))
        | inl (j, o) ↦
            elim (still_some {p = p} (λ q. owned q ≡ some a)
              ((a ≡ (advance g mv).at g.size) × (g.size < (advance g mv).size)) j o
              (Move-owned g mv a)) [ inl kept ↦ inl kept | inr (q, lt) ↦ inr (g.size, q, lt) ]
      ]
    ];
    left = λ k h. elim (Move-left shape mv k h) [
      | inl lt ↦ elim (left k lt) [
        | inl d ↦ inl (ap m'.deleted (at_same k lt) ∙ Move-kept mv (g.at k) d)
        | inr (j, r, e) ↦
            elim (still_some {p = p}
              (λ q. (x : Option A) × (q ≡ deq_delete ((advance g mv).at k) x))
              (m'.deleted ((advance g mv).at k) ≡ true) j
              (r, e ∙ ap (λ a. deq_delete a r) (sym (at_same k lt)))
              (λ (x, f). inr (Move-delete mv ((advance g mv).at k) x f))) [
                | inl (x, y) ↦ inr (x, y.0, y.1)
                | inr d ↦ inl d
              ]
      ]
      | inr (q, u) ↦
          let y =
            update-elim (λ z. (x : Option A) × (z ≡ deq_delete ((advance g mv).at k) x)) pc i p i
              (λ _. (
                u.0,
                u.1
                    ∙ ap (λ a. deq_delete a u.0)
                        (sym (ex.same k (omega (arith, q, shape.ordered, shape.inside)))),
              ))
              (λ ne. absurd (ne refl)) in
          inr (i, y.0, y.1)
    ];
  }
    where
      ex : Extends g m (advance g mv) m'
      ex = Move-Extends shape mv

      at_same : (k : ℕ) → k < g.first → (advance g mv).at k ≡ g.at k
      at_same k lt = ex.same k (omega (arith, shape.ordered, shape.inside))

pub Run-Accounted :
    {A : Type 0} {s : System A} {linked taken : List (Option A)}
    → Run s linked taken
    → (g : Ghost) × Inv g s.mem s.pc × Freed g s.mem s.pc × Accounted g s.mem s.pc
Run-Accounted {A} begin = (
  _,
  init-Inv A,
  record { behind = λ a e. cc; pending = λ j h r e. cc; once = λ i j h r q e f. cc },
  record {
    placed = λ a h. inr (0, omega (arith, h), omega arith);
    left = λ k h. absurd (omega (arith, h));
  },
)
Run-Accounted (after r i mv) =
    let (g, inv, fr, ac) = Run-Accounted r in
    (advance g mv, Move-Inv inv i mv, Move-Freed inv fr i mv, Move-Accounted inv ac i mv)
