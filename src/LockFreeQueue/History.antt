-- ===== src/LockFreeQueue/History.antt =====
-- include/qc/thread/lockfreequeue.h: runs of the queue with their history.
use mathlib.Core.List.{append_assoc}
use qc.Base.{
  ℕ, ◌≤◌, ◌≡◌, ◌≢◌, refl, sym, ap, subst, ◌∙◌, Option, none, List, [], ◌++◌, update, arith,
}
use qc.LockFreeQueue.Machine.{
  Shared, Pc, new_node, deq_next, empty_next, null_read, Move, System, Step, pick, init,
}
use qc.LockFreeQueue.Invariant.{Ghost, Local, Inv, Extends}
use qc.LockFreeQueue.Moves.{advance, Move-Extends}
use qc.LockFreeQueue.Preserve.{Move-Inv, init-Inv}
use qc.LockFreeQueue.Contents.{Contents, put_by, taken_by, Move-Contents}

-- A reachable state of any number of threads, with the values linked and the values taken so far, oldest first.
pub data Run {A : Type 0} : System A → List (Option A) → List (Option A) → Type 0 where
  begin : Run (init A) [] []
  after :
      {s : System A} {linked taken : List (Option A)} {m : Shared A} {p : Pc A}
      → Run s linked taken
      → (i : ℕ) → Move s.mem (s.pc i) m p
      → Run
          (record { mem = m; pc = update s.pc i p })
          (linked ++ put_by (s.pc i) p)
          (taken ++ taken_by (s.pc i) p)

pub Run-Inv :
    {A : Type 0} {s : System A} {linked taken : List (Option A)}
    → Run s linked taken
    → (g : Ghost) × Inv g s.mem s.pc
Run-Inv {A} begin = (_, init-Inv A)
Run-Inv (after r i mv) = let (g, inv) = Run-Inv r in (advance g mv, Move-Inv inv i mv)

-- Whatever the threads do, the values linked so far are the values taken so far followed by the
-- values in the queue: first in, first out, nothing lost, nothing made up, nothing taken twice.
pub Run-fifo :
    {A : Type 0} {s : System A} {linked taken : List (Option A)}
    → Run s linked taken
    → (vs : List (Option A)) × Contents s.mem vs × (linked ≡ taken ++ vs)
Run-fifo begin = ([], refl, refl)
Run-fifo (after {s} {linked} {taken} {m} {p} r i mv) =
    let (g, inv) = Run-Inv r in
    let (vs, c, e) = Run-fifo r in
    let (ws, c', d) = Move-Contents inv.shape mv (inv.local i) (inv.making i) vs c in
    (
      ws,
      c',
      ap (λ l. l ++ put_by (s.pc i) p) e
          ∙ append_assoc taken vs (put_by (s.pc i) p)
          ∙ ap (λ l. taken ++ l) d
          ∙ sym (append_assoc taken (taken_by (s.pc i) p) ws),
    )

-- In every reachable state a step of any thread acts on the list that the queue holds as the
-- operation does: linking appends the value of the call, moving head removes the front value, which
-- is the one that the call will return, and every other step leaves the list as it is.
pub list_refinement :
    {A : Type 0} {s : System A} {linked taken : List (Option A)}
    → Run s linked taken
    → (i : ℕ) {m : Shared A} {p : Pc A} → Move s.mem (s.pc i) m p
    → (vs : List (Option A)) → Contents s.mem vs
    → (ws : List (Option A)) × Contents m ws × (vs ++ put_by (s.pc i) p ≡ taken_by (s.pc i) p ++ ws)
list_refinement r i mv vs c =
    let (g, inv) = Run-Inv r in Move-Contents inv.shape mv (inv.local i) (inv.making i) vs c

-- No thread ever reads `next->data` through a null `next`.
pub null_read_unreachable :
    {A : Type 0} {s : System A} {linked taken : List (Option A)}
    → Run s linked taken
    → (i : ℕ) → s.pc i ≢ null_read
null_read_unreachable {s} r i e = let (g, inv) = Run-Inv r in subst (Local g s.mem) e (inv.local i)

-- `empty` answers true only if the queue was empty when it read `next`.
pub empty_true :
    {A : Type 0} {s : System A} {linked taken : List (Option A)}
    → Run s linked taken
    → (i h : ℕ) → s.pc i ≡ empty_next h h
    → (s.mem.cell h).next ≡ none
    → Contents s.mem []
empty_true {s} r i h e z =
    let (g, inv) = Run-Inv r in
    let (k, j, q, q', le, lt, lu) = subst (Local g s.mem) e (inv.local i) in
    let sh = inv.shape in ground (arith, sh.head_at, sh.linked k, sh.ordered, sh.inside)

-- What a thread sees after any number of steps of all threads.
pub data Later {A : Type 0} (s : System A) : System A → Type 0 where
  now : Later s s
  then : {t u : System A} → Later s t → Step t u → Later s u

Extends-refl : {A : Type 0} (g : Ghost) (m : Shared A) → Extends g m g m
Extends-refl g m = record {
  same = λ i h. refl;
  grows = omega arith;
  forward = omega arith;
  onward = omega arith;
  data_kept = λ a h. refl;
}

Extends-trans :
    {A : Type 0} {g g' g'' : Ghost} {m m' m'' : Shared A}
    → m.fresh ≤ m'.fresh
    → Extends g m g' m'
    → Extends g' m' g'' m''
    → Extends g m g'' m''
Extends-trans f x y = record {
  same = λ i h. y.same i (omega (arith, x.grows)) ∙ x.same i h;
  grows = omega (arith, x.grows, y.grows);
  forward = omega (arith, x.forward, y.forward);
  onward = omega (arith, x.onward, y.onward);
  data_kept = λ a h. y.data_kept a (omega arith) ∙ x.data_kept a h;
}

fresh_grows : {A : Type 0} {m m' : Shared A} {p p' : Pc A} → Move m p m' p' → m.fresh ≤ m'.fresh
fresh_grows (new_node v) = omega arith
fresh_grows mv = omega arith

Later-Extends :
    {A : Type 0} {g : Ghost} {s t : System A}
    → Inv g s.mem s.pc
    → Later s t
    → (g' : Ghost) × Inv g' t.mem t.pc × Extends g s.mem g' t.mem × (s.mem.fresh ≤ t.mem.fresh)
Later-Extends {g} {s} inv now = (g, inv, Extends-refl g s.mem, omega arith)
Later-Extends inv (then l (pick i mv)) =
    let (g', inv', ex, f) = Later-Extends inv l in
    (
      advance g' mv,
      Move-Inv inv' i mv,
      Extends-trans f ex (Move-Extends inv'.shape mv),
      omega (arith, fresh_grows mv),
    )

-- `dequeue` returns null only if the queue was empty when it read `next`: it read null there, and
-- head is still where the call first saw it, whatever the other threads did in between.
pub dequeue_empty :
    {A : Type 0} {s t : System A} {linked taken : List (Option A)}
    → Run s linked taken
    → (i h tail : ℕ) → s.pc i ≡ deq_next h tail
    → (s.mem.cell h).next ≡ none
    → Later s t
    → h ≡ t.mem.head
    → Contents s.mem []
dequeue_empty {s} {t} r i h tail e z l same_head =
    let (g, inv) = Run-Inv r in
    let (g', inv', ex, f) = Later-Extends inv l in
    let (k, j, q, q', le, lt, lu) = subst (Local g s.mem) e (inv.local i) in
    let sh = inv.shape in
    let sh' = inv'.shape in
    let back : k ≡ g'.first = ground (
      arith,
      sh'.distinct k g'.first,
      sh'.head_at,
      sh'.ordered,
      sh'.inside,
      ex.same k,
      ex.grows,
      sh.ordered,
      sh.inside,
    ) in
    ground (arith, sh.head_at, ex.forward)
