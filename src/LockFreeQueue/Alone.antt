-- ===== src/LockFreeQueue/Alone.antt =====
-- include/qc/thread/lockfreequeue.h: an operation that runs with no other thread in between.
use mathlib.Core.List.{append_assoc, append-nil}
use mathlib.Core.Path.{subst₂}
use qc.Base.{
  ℕ, ◌+◌, ◌≡◌, ◌≢◌, refl, sym, ap, subst, ◌∙◌, true, Option, none, some, List, [], ◌∷◌, ◌++◌,
  update, update-elim, arith, dec_lt,
}
use qc.LockFreeQueue.Machine.{
  Shared, Pc, idle, enq_tail, enq_next, enq_check, deq_head, deq_next, deq_check, dequeued, Move,
  new_node, load_tail, load_next, check_last, check_behind, help_done, link_done, swing_done,
  dequeue, load_head, load_deq_tail, load_deq_next, found_empty, found_behind, found_next,
  read_datum, move_done, delete_head, deq_help_done, allocate, System,
}
use qc.LockFreeQueue.Invariant.{Ghost, Shape}
use qc.LockFreeQueue.Moves.{allocate-Shape}
use qc.LockFreeQueue.Contents.{Contents, put_by, taken_by}
use qc.LockFreeQueue.History.{Run, after}

-- Steps of one thread from one place to another, with what they put in and take out.
pub data Solo {A : Type 0} (m : Shared A) (p : Pc A)
    : Shared A → Pc A → List (Option A) → List (Option A) → Type 0 where
  stay : Solo m p m p [] []
  go :
      {m' m'' : Shared A} {p' p'' : Pc A} {put taken : List (Option A)}
      → Solo m p m' p' put taken
      → Move m' p' m'' p''
      → Solo m p m'' p'' (put ++ put_by p' p'') (taken ++ taken_by p' p'')

-- A later state in which thread `i` stands at `p` and no other thread has moved.
abbrev pub Alone :
    {A : Type 0} → ℕ → System A → Shared A → Pc A → List (Option A) → List (Option A) → Type 0
Alone {A} i s m p linked taken =
    (t : System A) × Run t linked taken
    × (t.mem ≡ m)
    × (t.pc i ≡ p)
    × ((k : ℕ) → i ≢ k → t.pc k ≡ s.pc k)

update_self {ℓ} : {A : Type ℓ} (f : ℕ → A) (i : ℕ) (a : A) → update f i a i ≡ a
update_self f i a = update-elim (λ x. x ≡ a) f i a i (λ _. refl) (λ ne. absurd (ne refl))

update_other {ℓ} : {A : Type ℓ} (f : ℕ → A) (i k : ℕ) (a : A) → i ≢ k → update f i a k ≡ f k
update_other f i k a ne = update-elim (λ x. x ≡ f k) f i a k (λ e. absurd (ne e)) (λ _. refl)

pub Solo-Alone :
    {A : Type 0} {s : System A} {linked taken : List (Option A)} {p : Pc A}
    {put out : List (Option A)} {m : Shared A} {q : Pc A}
    → Run s linked taken
    → (i : ℕ) → s.pc i ≡ p
    → Solo s.mem p m q put out
    → Alone i s m q (linked ++ put) (taken ++ out)
Solo-Alone {s} {linked} {taken} r i e stay =
    (s, subst₂ (Run s) (sym (append-nil linked)) (sym (append-nil taken)) r, refl, e, λ k _. refl)
Solo-Alone {s} {linked} {taken} r i e (go {m'} {m''} {p'} {p''} {put} {taken = out} so mv) =
    let (t, run, em, ep, others) = Solo-Alone r i e so in
    let mv' : Move t.mem (t.pc i) m'' p'' = subst₂ (λ a b. Move a b m'' p'') (sym em) (sym ep) mv in
    (
      record { mem = m''; pc = update t.pc i p'' },
      subst₂ (Run _) (append_assoc linked put _ ∙ ap (λ x. linked ++ (put ++ put_by x p'')) ep)
          (append_assoc taken out _ ∙ ap (λ x. taken ++ (out ++ taken_by x p'')) ep)
          (after run i mv'),
      refl,
      update_self t.pc i p'',
      λ k ne. update_other t.pc i k p'' ne ∙ others k ne,
    )

-- The loads of `next`, where its value is known.
next_as :
    {A : Type 0} {m : Shared A} {v : Option A} {n t : ℕ} (x : Option ℕ)
    → (m.cell t).next ≡ x
    → Move m (enq_next v n t) m (enq_check v n t x)
next_as {m} {v} {n} {t} x e = subst (λ y. Move m (enq_next v n t) m (enq_check v n t y)) e load_next

deq_next_as :
    {A : Type 0} {m : Shared A} {h t : ℕ} (x : Option ℕ)
    → (m.cell h).next ≡ x
    → Move m (deq_next h t) m (deq_check h t x)
deq_next_as {m} {h} {t} x e = subst (λ y. Move m (deq_next h t) m (deq_check h t y)) e load_deq_next

module _ {A : Type 0} {m : Shared A} {p : Pc A} where
  -- `enqueue` from the head of its loop, where tail is at the last node.
  enqueue_at_end :
      (m' : Shared A) (v : Option A) (n : ℕ)
      → Solo m p m' (enq_tail v n) [] []
      → (m'.cell m'.tail).next ≡ none
      → (m'' : Shared A) × Solo m p m'' idle (v ∷ []) []
  enqueue_at_end m' v n so e = (
    _,
    go (go (go (go (go so load_tail) (next_as none e)) (check_last refl)) (link_done e))
        (swing_done refl),
  )

  -- Where tail is one node behind, `enqueue` helps it on first.
  enqueue_behind :
      (m' : Shared A) (v : Option A) (n x : ℕ)
      → Solo m p m' (enq_tail v n) [] []
      → (m'.cell m'.tail).next ≡ some x
      → (m'.cell x).next ≡ none
      → (m'' : Shared A) × Solo m p m'' idle (v ∷ []) []
  enqueue_behind m' v n x so e z =
      enqueue_at_end (record m' { tail = x }) v n
        (go (go (go (go so load_tail) (next_as (some x) e)) (check_behind refl)) (help_done refl)) z

  dequeue_front :
      (m' : Shared A) (x : ℕ)
      → Solo m p m' deq_head [] []
      → m'.head ≢ m'.tail
      → (m'.cell m'.head).next ≡ some x
      → (m'' : Shared A) × Solo m p m'' (dequeued (m'.cell x).datum) [] ((m'.cell x).datum ∷ [])
        × (m''.deleted m'.head ≡ true)
  dequeue_front m' x so ne e = (
    _,
    go
        (go
          (go
            (go (go (go (go so load_head) load_deq_tail) (deq_next_as (some x) e))
              (found_next refl ne))
            read_datum)
          (move_done refl))
        delete_head,
    update_self m'.deleted m'.head true,
  )

  dequeue_behind :
      (m' : Shared A) (x : ℕ)
      → Solo m p m' deq_head [] []
      → m'.head ≡ m'.tail
      → m'.head ≢ x
      → (m'.cell m'.head).next ≡ some x
      → (m'' : Shared A) × Solo m p m'' (dequeued (m'.cell x).datum) [] ((m'.cell x).datum ∷ [])
        × (m''.deleted m'.head ≡ true)
  dequeue_behind m' x so q ne e =
      dequeue_front (record m' { tail = x }) x
        (go
          (go (go (go (go so load_head) load_deq_tail) (deq_next_as (some x) e))
            (found_behind refl q))
          (deq_help_done refl))
        ne e

  dequeue_null :
      (m' : Shared A)
      → Solo m p m' deq_head [] []
      → m'.head ≡ m'.tail
      → (m'.cell m'.head).next ≡ none
      → Solo m p m' (dequeued none) [] []
  dequeue_null m' so q e =
      go (go (go (go so load_head) load_deq_tail) (deq_next_as none e)) (found_empty refl q)

module _ {A : Type 0} {g : Ghost} {m : Shared A} (sh : Shape g m) where
  open sh use {head_at, tail_at, ordered, inside, lag, linked, ended, distinct, known}

  pub enqueue-Solo : (v : Option A) → (m' : Shared A) × Solo m idle m' idle (v ∷ []) []
  enqueue-Solo v = elim (dec_lt (g.last + 1) g.size) [
    | yes behind ↦
        enqueue_behind (allocate m v) v m.fresh (g.at (g.last + 1)) (go stay (new_node v))
          (ground (arith, sh'.linked g.last, sh'.tail_at)) (sh'.ended (g.last + 1) (omega arith))
    | no end ↦
        enqueue_at_end (allocate m v) v m.fresh (go stay (new_node v))
          (ground (arith, sh'.ended g.last, sh'.tail_at))
  ]
    where
      sh' : Shape g (allocate m v)
      sh' = allocate-Shape sh v

  pub dequeue-Solo :
      (v : Option A) (vs : List (Option A))
      → Contents m (v ∷ vs)
      → (m' : Shared A) × Solo m idle m' (dequeued v) [] (v ∷ []) × (m'.deleted m.head ≡ true)
  dequeue-Solo v vs (x, e, d, c) =
      subst
        (λ u.
          (m' : Shared A) × Solo m idle m' (dequeued u) [] (u ∷ []) × (m'.deleted m.head ≡ true))
        d
        (elim (dec_lt g.first g.last) [
          | yes front ↦
              dequeue_front m x (go stay dequeue) (ground (arith, distinct g.first g.last)) e
          | no behind ↦
              dequeue_behind m x (go stay dequeue) (ground arith)
                (ground (arith, ended g.first, linked g.first, distinct g.first (g.first + 1))) e
        ])

  pub dequeue-Solo_empty : Contents m [] → Solo m idle m (dequeued none) [] []
  dequeue-Solo_empty e = dequeue_null m (go stay dequeue) (ground (arith, linked g.first)) e
