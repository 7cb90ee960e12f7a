-- ===== src/LockFreeQueue/Deletion.antt =====
-- include/qc/thread/lockfreequeue.h: which nodes `dequeue` has deleted.
use qc.Base.{
  ℕ, ◌≤◌, ◌<◌, ◌≡◌, ◌≢◌, refl, sym, ap, subst, ◌∙◌, ◌⊎◌, inl, inr, true, false, Option, List,
  update, update-elim, ℕ_discrete, arith,
}
use qc.LockFreeQueue.Machine.{Shared, Pc, deq_delete, Move, move_done, delete_head, System}
use qc.LockFreeQueue.Invariant.{Ghost, Local, Inv, Extends}
use qc.LockFreeQueue.Moves.{advance, Move-Extends}
use qc.LockFreeQueue.Preserve.{Move-Inv, init-Inv}
use qc.LockFreeQueue.History.{Run, begin, after}

pub record Freed {A : Type 0} (g : Ghost) (m : Shared A) (pc : ℕ → Pc A) : Type 0 where
  pub behind : (a : ℕ) → m.deleted a ≡ true → (k : ℕ) × (a ≡ g.at k) × (k < g.first)
  pub pending : (j h : ℕ) (r : Option A) → pc j ≡ deq_delete h r → m.deleted h ≢ true
  pub once : (i j h : ℕ) (r q : Option A) → pc i ≡ deq_delete h r → pc j ≡ deq_delete h q → i ≡ j

-- Only the thread that stands at the `delete` deletes, and only the node that it holds.
Move-deleted :
    {A : Type 0} {m m' : Shared A} {p p' : Pc A}
    → Move m p m' p'
    → (a : ℕ) → m'.deleted a ≡ true
    → (m.deleted a ≡ true) ⊎ ((r : Option A) × (p ≡ deq_delete a r))
Move-deleted (delete_head {h} {r}) a e = elim (ℕ_discrete h a) [
  | yes q ↦ inr (r, ap (λ x. deq_delete x r) q)
  | no ne ↦ inl (ground arith)
]
Move-deleted mv a e = inl e

-- A thread comes to the `delete` by moving head off its node.
Move-pending :
    {A : Type 0} {m m' : Shared A} {p p' : Pc A}
    → Move m p m' p'
    → (h : ℕ) (r : Option A) → p' ≡ deq_delete h r
    → (m.head ≡ h) × (m'.deleted ≡ m.deleted)
Move-pending (move_done e) h r q = (ground arith, refl)
Move-pending mv h r q = ground arith

module _ {A : Type 0} {g : Ghost} {m : Shared A} {pc : ℕ → Pc A} (inv : Inv g m pc)
    (fr : Freed g m pc) (i : ℕ) where
  open inv use {shape, local}
  open fr use {behind, pending, once}

  -- The place of the node that a thread is about to delete.
  deleting :
      (j h : ℕ) (r : Option A) → pc j ≡ deq_delete h r → (k : ℕ) × (h ≡ g.at k) × (k < g.first)
  deleting j h r e = subst (Local g m) e (local j)

  not_head : (k : ℕ) → k < g.first → m.head ≢ g.at k
  not_head k h e =
      ground (arith, shape.distinct k g.first, shape.head_at, shape.ordered, shape.inside)

  pub Move-Freed :
      {p : Pc A} {m' : Shared A} (mv : Move m (pc i) m' p) → Freed (advance g mv) m' (update pc i p)
  Move-Freed {p} {m'} mv = record {
    behind = λ a e. gone a (Move-deleted mv a e);
    pending = λ j h r.
        update-elim (λ q. q ≡ deq_delete h r → m'.deleted h ≢ true) pc i p j
          (λ _ e d.
            let (top, same) = Move-pending mv h r e in
            let (k, q, lt) = behind h (subst (λ f. f h ≡ true) same d) in not_head k lt (top ∙ q))
          (λ ne e d. still j h r ne e (Move-deleted mv h d));
    once = λ j k h r q.
        update-elim (λ u. u ≡ deq_delete h r → update pc i p k ≡ deq_delete h q → j ≡ k) pc i p j
          (λ e mine.
            update-elim (λ u. u ≡ deq_delete h q → j ≡ k) pc i p k (λ f _. sym e ∙ f)
              (λ ne its. absurd (apart k h r q mine its)))
          (λ ne its.
            update-elim (λ u. u ≡ deq_delete h q → j ≡ k) pc i p k
              (λ f mine. absurd (apart j h q r mine its)) (λ _. once j k h r q its));
  }
    where
      ex : Extends g m (advance g mv) m'
      ex = Move-Extends shape mv

      gone :
          (a : ℕ)
          → (m.deleted a ≡ true) ⊎ ((r : Option A) × (pc i ≡ deq_delete a r))
          → (k : ℕ) × (a ≡ (advance g mv).at k) × (k < (advance g mv).first)
      gone a (inl d) =
          let (k, q, lt) = behind a d in
          (
            k,
            q ∙ sym (ex.same k (omega (arith, shape.ordered, shape.inside))),
            omega (arith, ex.forward),
          )
      gone a (inr (r, e)) =
          let (k, q, lt) = deleting i a r e in
          (
            k,
            q ∙ sym (ex.same k (omega (arith, shape.ordered, shape.inside))),
            omega (arith, ex.forward),
          )

      still :
          (j h : ℕ) (r : Option A)
          → i ≢ j
          → pc j ≡ deq_delete h r
          → ¬ ((m.deleted h ≡ true) ⊎ ((q : Option A) × (pc i ≡ deq_delete h q)))
      still j h r ne e (inl d) = pending j h r e d
      still j h r ne e (inr (q, f)) = ne (once i j h q r f e)

      apart : (j h : ℕ) (r q : Option A) → p ≡ deq_delete h r → pc j ≡ deq_delete h q → ⊥
      apart j h r q mine its =
          let (top, same) = Move-pending mv h r mine in
          let (k, e, lt) = deleting j h q its in not_head k lt (top ∙ e)

pub Run-Freed :
    {A : Type 0} {s : System A} {linked taken : List (Option A)}
    → Run s linked taken
    → (g : Ghost) × Inv g s.mem s.pc × Freed g s.mem s.pc
Run-Freed {A} begin = (
  _,
  init-Inv A,
  record { behind = λ a e. cc; pending = λ j h r e. cc; once = λ i j h r q e f. cc },
)
Run-Freed (after r i mv) =
    let (g, inv, fr) = Run-Freed r in (advance g mv, Move-Inv inv i mv, Move-Freed inv fr i mv)

-- A thread that is about to delete a node holds one that is not deleted, and no other thread is
-- about to delete the same node: no node is deleted twice.
pub delete_once :
    {A : Type 0} {s : System A} {linked taken : List (Option A)}
    → Run s linked taken
    → (i h : ℕ) (ret : Option A) → s.pc i ≡ deq_delete h ret
    → (s.mem.deleted h ≡ false) × ((j : ℕ) (q : Option A) → s.pc j ≡ deq_delete h q → i ≡ j)
delete_once {s} r i h ret e =
    let (g, inv, fr) = Run-Freed r in
    (ground (arith, fr.pending i h ret e), λ j q f. fr.once i j h ret q e f)

-- Head and tail always point to nodes that are not deleted.
pub ends_live :
    {A : Type 0} {s : System A} {linked taken : List (Option A)}
    → Run s linked taken
    → (s.mem.deleted s.mem.head ≡ false) × (s.mem.deleted s.mem.tail ≡ false)
ends_live {s} r =
    let (g, inv, fr) = Run-Freed r in
    let live : (k : ℕ) → g.first ≤ k → k < g.size → s.mem.deleted (g.at k) ≢ true = λ k le lt d.
      let (j, e, lj) = fr.behind (g.at k) d in ground (arith, inv.shape.distinct k j) in
    (
      ground (arith, inv.shape.head_at, inv.shape.ordered, inv.shape.inside, live g.first),
      ground (arith, inv.shape.tail_at, inv.shape.ordered, inv.shape.inside, live g.last),
    )
