-- ===== src/LockFreeQueue/Moves.antt =====
-- include/qc/thread/lockfreequeue.h: the shape of the chain, and the local facts of the thread that
-- moves, over one move.
use qc.Base.{ℕ, suc, ◌+◌, ◌≤◌, ◌<◌, ◌≡◌, refl, Option, none, some, update, arith}
use qc.LockFreeQueue.Machine
use qc.LockFreeQueue.Machine.{
  Shared, Pc, Move, new_node, link_done, help_done, swing_done, deq_help_done, move_done, load_tail,
  load_next, load_head, load_deq_tail, load_deq_next, read_datum, empty, load_empty_tail,
  check_last, check_behind, check_stale, link_failed, found_empty, found_behind, found_next,
  found_null, found_stale, deq_help_failed, help_failed, delete_head,
}
use qc.LockFreeQueue.Invariant.{Ghost, Shape, Local, Owned, owned, Extends}

-- How a move changes the chain: a link adds a node, the other exchanges move one end.
unfoldable pub advance :
    {A : Type 0} {m m' : Shared A} {p p' : Pc A} → Ghost → Move m p m' p' → Ghost
advance g (link_done {n} e) = record g { at = update g.at g.size n; size = suc g.size }
advance g (help_done e) = record g { last = suc g.last }
advance g (swing_done e) = record g { last = suc g.last }
advance g (deq_help_done e) = record g { last = suc g.last }
advance g (move_done e) = record g { first = suc g.first }
advance g _ = g

module _ {A : Type 0} {g : Ghost} {m : Shared A} (sh : Shape g m) where
  open sh use {head_at, tail_at, ordered, inside, lag, linked, ended, distinct, known}

  -- A compare-exchange of tail that succeeds starts at the place of tail.
  at_tail : (t i : ℕ) → m.tail ≡ t → t ≡ g.at i → i ≤ g.last → i ≡ g.last
  at_tail t i e q h = ground (arith, distinct i g.last)

  at_head : (h i : ℕ) → m.head ≡ h → h ≡ g.at i → i ≤ g.first → i ≡ g.first
  at_head h i e q le = ground (arith, distinct i g.first)

  -- A node on the chain with no successor is the last one.
  at_end : (i : ℕ) → i < g.size → (m.cell (g.at i)).next ≡ none → i + 1 ≡ g.size
  at_end i h e = ground (arith, linked i)

  at_link :
      (i x : ℕ)
      → i < g.size
      → (m.cell (g.at i)).next ≡ some x
      → (i + 1 < g.size) × (x ≡ g.at (i + 1))
  at_link i x h e = ground (arith, linked i, ended i)

  pub allocate-Shape : (v : Option A) → Shape g (Machine.allocate m v)
  allocate-Shape v = record {
    head_at = head_at;
    tail_at = tail_at;
    ordered = ordered;
    inside = inside;
    lag = lag;
    linked = λ i h. ground (arith, linked i, known i);
    ended = λ i h. ground (arith, ended i, known i);
    distinct = distinct;
    known = λ i h. omega (arith, known i h);
  }

  link-Shape :
      (n t i : ℕ)
      → Owned g m n
      → t ≡ g.at i
      → i ≤ g.last
      → i + 1 ≡ g.size
      → Shape (record g { at = update g.at g.size n; size = suc g.size }) (Machine.set_next m t n)
  link-Shape n t i own q le end = record {
    head_at = ground arith;
    tail_at = ground arith;
    ordered = ordered;
    inside = ground arith;
    lag = omega arith;
    linked = λ j h. ground (arith, linked j, distinct i j);
    ended = λ j h. ground (arith, own.apart i, own.unlinked);
    distinct = λ j k hj hk e. ground (arith, distinct j k, own.apart j, own.apart k);
    known = λ j h. ground (arith, known j, own.made);
  }

  tail-Shape :
      (t x i : ℕ)
      → m.tail ≡ t
      → t ≡ g.at i
      → i ≤ g.last
      → x ≡ g.at (i + 1)
      → i + 1 < g.size
      → Shape (record g { last = suc g.last }) (record m { tail = x })
  tail-Shape t x i e q le qx lt = record {
    head_at = head_at;
    tail_at = ground (arith, at_tail t i e q le);
    ordered = omega arith;
    inside = omega (arith, at_tail t i e q le);
    lag = omega arith;
    linked = linked;
    ended = ended;
    distinct = distinct;
    known = known;
  }

  head-Shape :
      (h x i : ℕ)
      → m.head ≡ h
      → h ≡ g.at i
      → i ≤ g.first
      → x ≡ g.at (i + 1)
      → i < g.last
      → Shape (record g { first = suc g.first }) (record m { head = x })
  head-Shape h x i e q le qx lt = record {
    head_at = ground (arith, at_head h i e q le);
    tail_at = tail_at;
    ordered = omega (arith, at_head h i e q le);
    inside = inside;
    lag = lag;
    linked = linked;
    ended = ended;
    distinct = distinct;
    known = known;
  }

  pub Move-Shape :
      {p p' : Pc A} {m' : Shared A}
      → Local g m p
      → ((n : ℕ) → owned p ≡ some n → Owned g m n)
      → (mv : Move m p m' p') → Shape (advance g mv) m'
  unfolding advance
  Move-Shape l own (new_node v) = allocate-Shape v
  Move-Shape l own (link_done {n} {t} e) =
      let (d, place) = l in
      let (i, q, le) = place in
      link-Shape n t i (own n refl) q le (at_end i (omega arith) (ground arith))
  Move-Shape l own (help_done {t} {x} e) =
      let (d, place) = l in let (i, q, qx, le, lt) = place in tail-Shape t x i e q le qx lt
  Move-Shape l own (swing_done {n} {t} e) =
      let (i, q, qx, le, lt) = l in tail-Shape t n i e q le qx lt
  Move-Shape l own (deq_help_done {t} {x} e) =
      let (i, q, qx, le, lt) = l in tail-Shape t x i e q le qx lt
  Move-Shape l own (move_done {h} {x} e) =
      let (i, q, qx, le, lt, r) = l in head-Shape h x i e q le qx lt
  Move-Shape l own (delete_head) = record {
    head_at = head_at;
    tail_at = tail_at;
    ordered = ordered;
    inside = inside;
    lag = lag;
    linked = linked;
    ended = ended;
    distinct = distinct;
    known = known;
  }
  Move-Shape l own _ = sh

  pub Move-Extends :
      {p p' : Pc A} {m' : Shared A} → (mv : Move m p m' p') → Extends g m (advance g mv) m'
  unfolding advance
  Move-Extends load_tail = record {
    same = λ i h. refl;
    grows = omega arith;
    forward = omega arith;
    onward = omega arith;
    data_kept = λ a h. refl;
  }
  Move-Extends mv = record {
    same = λ i h. ground arith;
    grows = omega arith;
    forward = omega arith;
    onward = omega arith;
    data_kept = λ a h. ground arith;
  }

  enq_checked :
      (v : Option A) (n t : ℕ) (x : Option ℕ)
      → Local g m (Machine.enq_next v n t)
      → (m.cell t).next ≡ x
      → Local g m (Machine.enq_check v n t x)
  enq_checked v n t none l e = l
  enq_checked v n t (some x) (d, place) e =
      let (i, q, le) = place in
      let (lt, qx) = at_link i x (omega arith) (ground arith) in (d, (i, q, qx, le, lt))

  deq_checked :
      (h t : ℕ) (x : Option ℕ)
      → Local g m (Machine.deq_next h t)
      → (m.cell h).next ≡ x
      → Local g m (Machine.deq_check h t x)
  deq_checked h t none (i, j, q, r, le, lt, lu) e =
      let end = at_end i (omega arith) (ground arith) in (i, q, ground arith, le)
  deq_checked h t (some x) (i, j, q, r, le, lt, lu) e =
      let (lv, qx) = at_link i x (omega arith) (ground arith) in (i, j, q, r, le, lt, lu, qx, lv)

  pub Move-Local :
      {p p' : Pc A} {m' : Shared A}
      → Local g m p
      → (mv : Move m p m' p') → Local (advance g mv) m' p'
  unfolding advance
  Move-Local l (new_node v) = ground arith
  Move-Local l load_tail = (l, (g.last, tail_at, omega arith))
  Move-Local l (load_next {v} {n} {t}) = enq_checked v n t _ l refl
  Move-Local l (check_last e) = l
  Move-Local l (check_behind e) = l
  Move-Local l (check_stale {x = none} e) = l.0
  Move-Local l (check_stale {x = some x} e) = l.0
  Move-Local l (link_done {n} {t} e) =
      let (d, place) = l in
      let (i, q, le) = place in
      let end = at_end i (omega arith) (ground arith) in
      (i, ground arith, ground arith, le, omega arith)
  Move-Local l link_failed = l.0
  Move-Local l (help_done e) = l.0
  Move-Local l (help_failed) = l.0
  Move-Local l load_head = (g.first, head_at, omega arith)
  Move-Local l load_deq_tail =
      let (i, q, le) = l in (i, g.last, q, tail_at, le, omega arith, omega arith)
  Move-Local l (load_deq_next {h} {t}) = deq_checked h t _ l refl
  Move-Local l (found_behind e d) =
      let (i, j, q, r, le, lt, lu, qx, lv) = l in (i, ground arith, qx, omega arith, lv)
  Move-Local l (found_next e d) =
      let (i, j, q, r, le, lt, lu, qx, lv) = l in (i, q, qx, le, ground arith)
  Move-Local l (found_null e d) = ground arith
  Move-Local l read_datum = let (i, q, r, le, lt) = l in (i, q, r, le, lt, refl)
  Move-Local l (move_done e) =
      let (i, q, r, le, lt, d) = l in (i, q, omega (arith, at_head _ i e q le))
  Move-Local l empty = (g.first, head_at, omega arith)
  Move-Local l load_empty_tail =
      let (i, q, le) = l in (i, g.last, q, tail_at, le, omega arith, omega arith)
  Move-Local l _ = tt
