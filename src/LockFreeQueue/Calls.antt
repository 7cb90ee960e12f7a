-- ===== src/LockFreeQueue/Calls.antt =====
-- include/qc/thread/lockfreequeue.h: whole calls from reachable states, with no other thread in
-- between, and a call that another overtakes.
use mathlib.Core.List.{append-nil}
use mathlib.Core.Path.{subst₂}
use qc.Base.{ℕ, ◌≡◌, ◌≢◌, sym, ap, subst, ◌∙◌, true, Option, none, List, [], ◌∷◌, ◌++◌}
use qc.LockFreeQueue.Machine.{
  Shared, idle, deq_next, dequeued, dequeue, load_head, load_deq_tail, System,
}
use qc.LockFreeQueue.Contents.{Contents}
use qc.LockFreeQueue.History.{Run, Run-Inv}
use qc.LockFreeQueue.Alone.{
  stay, go, Alone, Solo-Alone, enqueue-Solo, dequeue-Solo, dequeue-Solo_empty,
}

-- From every reachable state, `enqueue(v)` run alone returns, having linked exactly `v`.
pub enqueue_returns :
    {A : Type 0} {s : System A} {linked taken : List (Option A)}
    → Run s linked taken
    → (i : ℕ) → s.pc i ≡ idle
    → (v : Option A) → (m : Shared A) × Alone i s m idle (linked ++ v ∷ []) taken
enqueue_returns {s} {linked} {taken} r i e v =
    let (g, inv) = Run-Inv r in
    let (m, so) = enqueue-Solo inv.shape v in
    (m, subst (Alone i s m idle (linked ++ v ∷ [])) (append-nil taken) (Solo-Alone r i e so))

-- From every reachable state whose queue is not empty, `dequeue()` run alone returns the front value,
-- having taken exactly that.
pub dequeue_returns :
    {A : Type 0} {s : System A} {linked taken : List (Option A)}
    → Run s linked taken
    → (i : ℕ) → s.pc i ≡ idle
    → (v : Option A) (vs : List (Option A)) → Contents s.mem (v ∷ vs)
    → (m : Shared A) × Alone i s m (dequeued v) linked (taken ++ v ∷ [])
dequeue_returns {s} {linked} {taken} r i e v vs c =
    let (g, inv) = Run-Inv r in
    let (m, so, d) = dequeue-Solo inv.shape v vs c in
    (
      m,
      subst (λ l. Alone i s m (dequeued v) l (taken ++ v ∷ [])) (append-nil linked)
          (Solo-Alone r i e so),
    )

-- From every reachable state whose queue is empty, `dequeue()` run alone returns null and changes
-- nothing.
pub dequeue_returns_null :
    {A : Type 0} {s : System A} {linked taken : List (Option A)}
    → Run s linked taken
    → (i : ℕ) → s.pc i ≡ idle
    → Contents s.mem []
    → Alone i s s.mem (dequeued none) linked taken
dequeue_returns_null {s} {linked} {taken} r i e c =
    let (g, inv) = Run-Inv r in
    subst₂ (Alone i s s.mem (dequeued none)) (append-nil linked) (append-nil taken)
      (Solo-Alone r i e (dequeue-Solo_empty inv.shape c))

-- Whenever two threads are idle and the queue is not empty, one thread can come to read `next` of a
-- node that the other has deleted: nothing in `dequeue` keeps a node alive while it is read.
pub use_after_delete :
    {A : Type 0} {s : System A} {linked taken : List (Option A)}
    → Run s linked taken
    → (i j : ℕ) → i ≢ j
    → s.pc i ≡ idle
    → s.pc j ≡ idle
    → (v : Option A) (vs : List (Option A)) → Contents s.mem (v ∷ vs)
    → (t : System A) × Run t linked (taken ++ v ∷ [])
      × ((h tail : ℕ) × (t.pc j ≡ deq_next h tail) × (t.mem.deleted h ≡ true))
use_after_delete {s} {linked} {taken} r i j ne ei ej v vs c =
    let (t, rt, em, ej', others) =
      Solo-Alone r j ej (go (go (go stay dequeue) load_head) load_deq_tail) in
    let (g, inv) = Run-Inv rt in
    let (m, so, d) = dequeue-Solo inv.shape v vs (subst (λ x. Contents x (v ∷ vs)) (sym em) c) in
    let (u, ru, um, ui, still) = Solo-Alone rt i (others i (λ e. ne (sym e)) ∙ ei) so in
    (
      u,
      subst₂ (Run u) (append-nil (linked ++ []) ∙ append-nil linked)
          (ap (λ l. l ++ v ∷ []) (append-nil taken)) ru,
      (
        s.mem.head,
        s.mem.tail,
        still j ne ∙ ej',
        subst (λ x. x.deleted s.mem.head ≡ true) (sym um)
            (subst (λ x. m.deleted x.head ≡ true) em d),
      ),
    )
