-- ===== src/LockFreeQueue/Preserve.antt =====
-- include/qc/thread/lockfreequeue.h: the invariant over the steps of all threads.
use qc.Base.{ℕ, ◌+◌, ◌<◌, ◌≡◌, ◌≢◌, refl, none, some, update, update-elim, arith}
use qc.LockFreeQueue.Machine.{
  Shared, Pc, enq_tail, enq_next, enq_check, enq_link, enq_help, enq_swing, deq_tail, deq_next,
  deq_check, deq_help, deq_read, deq_move, deq_delete, empty_tail, empty_next, Move, new_node,
  load_tail, link_done, System, pick, Reach, start, later, init,
}
use qc.LockFreeQueue.Invariant.{Ghost, Shape, Local, Owned, owned, Extends, Inv}
use qc.LockFreeQueue.Moves.{advance, Move-Shape, Move-Extends, Move-Local}

module _ {A : Type 0} {g g' : Ghost} {m m' : Shared A} (sh : Shape g m)
    (ex : Extends g m g' m') where
  open sh use {ordered, inside, known}
  open ex use {same, grows, forward, onward, data_kept}

  -- What a thread knows stays true while others move.
  pub Local-mono :
      (p : Pc A) → ((n : ℕ) → owned p ≡ some n → n < m.fresh) → Local g m p → Local g' m' p
  Local-mono (enq_tail v n) own l = ground (arith, data_kept n, own n)
  Local-mono (enq_next v n t) own (d, (i, q, le)) =
      (ground (arith, data_kept n, own n), (i, ground (arith, same i), omega arith))
  Local-mono (enq_check v n t none) own (d, (i, q, le)) =
      (ground (arith, data_kept n, own n), (i, ground (arith, same i), omega arith))
  Local-mono (enq_check v n t (some x)) own (d, (i, q, qx, le, lt)) = (
    ground (arith, data_kept n, own n),
    (i, ground (arith, same i), ground (arith, same (i + 1)), omega arith, omega arith),
  )
  Local-mono (enq_link v n t) own (d, (i, q, le)) =
      (ground (arith, data_kept n, own n), (i, ground (arith, same i), omega arith))
  Local-mono (enq_help v n t x) own (d, (i, q, qx, le, lt)) = (
    ground (arith, data_kept n, own n),
    (i, ground (arith, same i), ground (arith, same (i + 1)), omega arith, omega arith),
  )
  Local-mono (enq_swing v n t) own (i, q, qx, le, lt) =
      (i, ground (arith, same i), ground (arith, same (i + 1)), omega arith, omega arith)
  Local-mono (deq_tail h) own (i, q, le) = (i, ground (arith, same i), omega arith)
  Local-mono (deq_next h t) own (i, j, q, r, le, lt, lu) =
      (i, j, ground (arith, same i), ground (arith, same j), omega arith, lt, omega arith)
  Local-mono (deq_check h t none) own (i, q, r, le) =
      (i, ground (arith, same i), ground (arith, same i), omega arith)
  Local-mono (deq_check h t (some x)) own (i, j, q, r, le, lt, lu, qx, lv) = (
    i,
    j,
    ground (arith, same i),
    ground (arith, same j),
    omega arith,
    lt,
    omega arith,
    ground (arith, same (i + 1)),
    omega arith,
  )
  Local-mono (deq_help t x) own (i, q, qx, le, lt) =
      (i, ground (arith, same i), ground (arith, same (i + 1)), omega arith, omega arith)
  Local-mono (deq_read h x) own (i, q, qx, le, lt) =
      (i, ground (arith, same i), ground (arith, same (i + 1)), omega arith, omega arith)
  Local-mono (deq_move h x r) own (i, q, qx, le, lt, d) = (
    i,
    ground (arith, same i),
    ground (arith, same (i + 1)),
    omega arith,
    omega arith,
    ground (arith, data_kept x, known (i + 1)),
  )
  Local-mono (deq_delete h r) own (i, q, lt) = (i, ground (arith, same i), omega arith)
  Local-mono (empty_tail h) own (i, q, le) = (i, ground (arith, same i), omega arith)
  Local-mono (empty_next h t) own (i, j, q, r, le, lt, lu) =
      (i, j, ground (arith, same i), ground (arith, same j), omega arith, lt, omega arith)
  Local-mono Pc.idle own l = tt
  Local-mono Pc.deq_head own l = tt
  Local-mono (Pc.dequeued r) own l = tt
  Local-mono (Pc.told b) own l = tt
  Local-mono Pc.null_read own l = l

-- The thread that moves keeps its node until it links it; a new node is at a fresh address.
module _ {A : Type 0} {g : Ghost} {m : Shared A} (sh : Shape g m) where
  open sh use {inside, known}

  Move-Owned :
      {p p' : Pc A} {m' : Shared A} (mv : Move m p m' p')
      → Local g m p
      → ((n : ℕ) → owned p ≡ some n → Owned g m n)
      → (n : ℕ) → owned p' ≡ some n
      → Owned (advance g mv) m' n
  unfolding advance
  Move-Owned (new_node v) l own n e = record {
    made = ground arith;
    apart = λ i h. ground (arith, known i);
    unlinked = ground arith;
  }
  Move-Owned load_tail l own n e = own n e
  Move-Owned mv l own n e = ground (arith, own n)

  -- A node of another thread.
  Move-Owned_other :
      {p p' : Pc A} {m' : Shared A} (mv : Move m p m' p')
      → Local g m p
      → (n : ℕ) → Owned g m n
      → owned p ≢ some n
      → Owned (advance g mv) m' n
  unfolding advance
  Move-Owned_other (new_node v) l n o e = record {
    made = omega (arith, o.made);
    apart = λ i h. o.apart i h;
    unlinked = ground (arith, o.unlinked, o.made);
  }
  Move-Owned_other (link_done {n = k} {t} e) l n o ne =
      let (d, place) = l in
      let (i, q, le) = place in
      record {
        made = omega (arith, o.made);
        apart = λ j h. ground (arith, o.apart j);
        unlinked = ground (arith, o.unlinked, o.apart i);
      }
  Move-Owned_other mv l n o e = record { made = o.made; apart = o.apart; unlinked = o.unlinked }

  -- A node that the mover holds after its step was its own, or is new.
  Move-owned_from :
      {p p' : Pc A} {m' : Shared A}
      → Move m p m' p'
      → (n : ℕ) → owned p' ≡ some n
      → n < m.fresh
      → owned p ≡ some n
  Move-owned_from load_tail n e lt = e
  Move-owned_from mv n e lt = ground arith

module _ {A : Type 0} {g : Ghost} {m : Shared A} {pc : ℕ → Pc A} (inv : Inv g m pc) (i : ℕ) where
  open inv use {shape, local, making, alone}

  -- A move of thread `i`.
  pub Move-Inv :
      {p : Pc A} {m' : Shared A} (mv : Move m (pc i) m' p) → Inv (advance g mv) m' (update pc i p)
  Move-Inv {p} {m'} mv = record {
    shape = Move-Shape shape (local i) (making i) mv;
    local = λ j.
        update-elim (Local g' m') pc i p j (λ _. Move-Local shape (local i) mv)
          (λ _. Local-mono shape ex (pc j) (λ n e. (making j n e).made) (local j));
    making = λ j n.
        update-elim (λ q. owned q ≡ some n → Owned g' m' n) pc i p j
          (λ _. Move-Owned shape mv (local i) (making i) n)
          (λ ne e.
            Move-Owned_other shape mv (local i) n (making j n e) (λ f. ne (alone i j n f e)));
    alone = λ j k n.
        update-elim (λ q. owned q ≡ some n → owned (update pc i p k) ≡ some n → j ≡ k) pc i p j
          (λ e mine.
            update-elim (λ q. owned q ≡ some n → j ≡ k) pc i p k (λ f _. ground arith)
              (λ ne its. absurd (ne (alone i k n (from n k mine its) its))))
          (λ ne its.
            update-elim (λ q. owned q ≡ some n → j ≡ k) pc i p k
              (λ f mine. absurd (ne (alone i j n (from n j mine its) its))) (λ _. alone j k n its));
  }
    where
      g' : Ghost
      g' = advance g mv

      ex : Extends g m g' m'
      ex = Move-Extends shape mv

      from : (n k : ℕ) → owned p ≡ some n → owned (pc k) ≡ some n → owned (pc i) ≡ some n
      from n k mine its = Move-owned_from shape mv n mine (making k n its).made

-- A reachable state with the chain that it has built.
pub init-Inv :
    (A : Type 0)
    → Inv (record { at = λ _. 0; size = 1; first = 0; last = 0 }) (init A).mem (init A).pc
init-Inv A = record {
  shape = record {
    head_at = refl;
    tail_at = refl;
    ordered = omega arith;
    inside = omega arith;
    lag = omega arith;
    linked = λ i h. absurd (omega arith);
    ended = λ i h. refl;
    distinct = λ i j h k e. omega arith;
    known = λ i h. omega arith;
  };
  local = λ _. tt;
  making = λ j n e. cc;
  alone = λ i j n e f. cc;
}

pub Reach-Inv : {A : Type 0} {s : System A} → Reach s → (g : Ghost) × Inv g s.mem s.pc
Reach-Inv {A} start = (_, init-Inv A)
Reach-Inv (later r (pick i mv)) = let (g, inv) = Reach-Inv r in (advance g mv, Move-Inv inv i mv)
