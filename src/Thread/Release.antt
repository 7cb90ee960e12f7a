-- ===== src/Thread/Release.antt =====
-- src/thread/thread.cpp: how often a thread of the system is joined or detached.
use qc.Base.{
  ℕ, ◌+◌, ◌≡◌, ◌≢◌, refl, sym, ap, ◌∙◌, subst, Bool, true, false, none, some, List, [], ◌∷◌, ◌++◌,
  ◌==◌, if◌then◌else◌, inl, inr, Bool-cases, arith,
}
use qc.Thread.{
  State, Call, Thread, Result, returned, threw, called, checked, construct, join, detach, destroy,
  finish,
}

abbrev pub release : Call → ℕ → ℕ
release Call.pthread_create rt = 0
release Call.pthread_join rt = if rt == 0 then 1 else 0
release Call.pthread_detach rt = if rt == 0 then 1 else 0

-- The successful calls that release the thread.
unfoldable pub releases : List (Call × ℕ) → ℕ
releases [] = 0
releases ((c, rt) ∷ rest) = release c rt + releases rest

releases_last :
    (cs : List (Call × ℕ)) (c : Call) (rt : ℕ)
    → releases (cs ++ (c, rt) ∷ []) ≡ releases cs + release c rt
unfolding releases
releases_last [] c rt = omega arith
releases_last ((d, r) ∷ cs) c rt = omega (arith, releases_last cs c rt)

abbrev pub after : Result → Thread
after (returned t) = t
after (threw t) = t

-- The states of a thread whose owner calls `join` and `detach` as it likes, in any order with the end
-- of `run`, but for an end of `run` after `detach`. A call of pthread_join succeeds only once the
-- thread has ended.
pub data Orderly : Thread → Type 0 where
  made : {t : Thread} → construct 0 ≡ returned t → Orderly t
  joins :
      {t : Thread} (rt : ℕ)
      → Orderly t
      → ((rt == 0) ≡ true → t.ended ≡ true)
      → Orderly (after (join rt t))
  detaches : {t : Thread} (rt : ℕ) → Orderly t → Orderly (after (detach rt t))
  ends :
      {t u : Thread}
      → Orderly t
      → t.ended ≡ false
      → t.state ≢ State.detached
      → finish t ≡ some u
      → Orderly u

-- What a state says of the releases and of the end of `run`.
abbrev Agrees : State → ℕ → Bool → Type 0
Agrees State.init n e = ⊥
Agrees State.running n e = (n ≡ 0) × (e ≡ false)
Agrees State.joined n e = (n ≡ 1) × (e ≡ true)
Agrees State.detached n e = n ≡ 1
Agrees State.terminated n e = (n ≡ 0) × (e ≡ true)

abbrev Agree : Thread → Type 0
Agree t = Agrees t.state (releases t.calls) t.ended × (t.freed ≡ false)

abbrev thread : State → List (Call × ℕ) → Bool → Bool → Thread
thread s cs e f = record { state = s; calls = cs; ended = e; freed = f }

-- A call that may fail, in a state that nothing has released the thread in.
call-Agree :
    (c : Call) (next s : State) (cs : List (Call × ℕ)) (e : Bool) (rt : ℕ)
    → ((rt == 0) ≡ false → release c rt ≡ 0)
    → ((rt == 0) ≡ true → Agrees next (releases cs + release c rt) e)
    → Agrees s (releases cs) e
    → Agree (after (checked rt next (called c rt (thread s cs e false))))
call-Agree c next s cs e rt fails succeeds a = elim (Bool-cases (rt == 0)) [
  | inl z ↦ rw z (subst (λ n. Agrees next n e) (sym (releases_last cs c rt)) (succeeds z), refl)
  | inr z ↦ rw z (
    subst (λ n. Agrees s n e) (sym (releases_last cs c rt))
        (subst (λ n. Agrees s n e) (omega (arith, fails z)) a),
    refl,
  )
]

join-Agree :
    (s : State) (cs : List (Call × ℕ)) (e : Bool) (rt : ℕ)
    → ((rt == 0) ≡ true → e ≡ true)
    → Agrees s (releases cs) e
    → Agree (after (join rt (thread s cs e false)))
unfolding join
join-Agree State.init cs e rt w a = absurd a
join-Agree State.running cs e rt w a =
    call-Agree Call.pthread_join State.joined State.running cs e rt (λ z. rw z refl)
      (λ z. (rw z (omega (arith, a.0)), w z)) a
join-Agree State.joined cs e rt w a = (a, refl)
join-Agree State.detached cs e rt w a = (a, refl)
join-Agree State.terminated cs e rt w a =
    call-Agree Call.pthread_join State.joined State.terminated cs e rt (λ z. rw z refl)
      (λ z. (rw z (omega (arith, a.0)), a.1)) a

detach-Agree :
    (s : State) (cs : List (Call × ℕ)) (e : Bool) (rt : ℕ)
    → Agrees s (releases cs) e
    → Agree (after (detach rt (thread s cs e false)))
unfolding detach
detach-Agree State.init cs e rt a = absurd a
detach-Agree State.running cs e rt a =
    call-Agree Call.pthread_detach State.detached State.running cs e rt (λ z. rw z refl)
      (λ z. rw z (omega (arith, a.0))) a
detach-Agree State.joined cs e rt a = (a, refl)
detach-Agree State.detached cs e rt a = (a, refl)
detach-Agree State.terminated cs e rt a = (a, refl)

ends-Agree :
    (s : State) (cs : List (Call × ℕ)) (e : Bool) (u : Thread)
    → e ≡ false
    → s ≢ State.detached
    → finish (thread s cs e false) ≡ some u
    → Agrees s (releases cs) e
    → Agree u
unfolding finish
ends-Agree State.init cs e u ne nd h a = absurd a
ends-Agree State.running cs e u ne nd h a =
    subst Agree (let g : thread State.terminated cs true false ≡ u = cc in g) ((a.0, refl), refl)
ends-Agree State.joined cs e u ne nd h a = absurd (let g = a.1 in cc)
ends-Agree State.detached cs e u ne nd h a = absurd (nd refl)
ends-Agree State.terminated cs e u ne nd h a = absurd (let g = a.1 in cc)

Orderly-Agree : {t : Thread} → Orderly t → Agree t
unfolding construct releases
Orderly-Agree (made e) =
    subst Agree
      (let g : thread State.running ((Call.pthread_create, 0) ∷ []) false false ≡ _ = cc in g)
      ((refl, refl), refl)
Orderly-Agree (joins {t} rt r w) =
    let a = Orderly-Agree r in whole t a.1 (join-Agree t.state t.calls t.ended rt w a.0)
  where
    whole :
        (t : Thread)
        → t.freed ≡ false
        → Agree (after (join rt (thread t.state t.calls t.ended false)))
        → Agree (after (join rt t))
    whole t f h = subst (λ b. Agree (after (join rt (thread t.state t.calls t.ended b)))) (sym f) h
Orderly-Agree (detaches {t} rt r) =
    let a = Orderly-Agree r in
    subst (λ b. Agree (after (detach rt (thread t.state t.calls t.ended b)))) (sym a.1)
      (detach-Agree t.state t.calls t.ended rt a.0)
Orderly-Agree (ends {t} {u} r ne nd h) =
    let a = Orderly-Agree r in
    ends-Agree t.state t.calls t.ended u ne nd
      (subst (λ b. finish (thread t.state t.calls t.ended b) ≡ some u) a.1 h) a.0

destroyed :
    (s : State) (cs : List (Call × ℕ)) (e f : Bool)
    → Agrees s (releases cs) e
    → releases (destroy 0 (thread s cs e f)).calls ≡ 1
unfolding destroy
destroyed State.init cs e f a = absurd a
destroyed State.running cs e f a = omega (arith, releases_last cs Call.pthread_detach 0, a.0)
destroyed State.joined cs e f a = a.0
destroyed State.detached cs e f a = a
destroyed State.terminated cs e f a = omega (arith, releases_last cs Call.pthread_join 0, a.0)

-- When the object is destroyed, the thread has been released exactly once, if the destructor's own
-- call succeeds; not so if `run` ends after `detach`.
pub destroy-releases : {t : Thread} → Orderly t → releases (destroy 0 t).calls ≡ 1
destroy-releases {t} r = destroyed t.state t.calls t.ended t.freed (Orderly-Agree r).0

-- If `run` ends after `detach`, the destructor joins a thread that is already detached: it is released
-- twice.
detach-finish :
    (t u v : Thread)
    → Orderly t
    → t.state ≡ State.running
    → detach 0 t ≡ returned u
    → finish u ≡ some v
    → releases (destroy 0 v).calls ≡ 2
unfolding detach finish destroy
detach-finish t u v r s d f =
    let a = (Orderly-Agree r) in
    let zero_so_far : releases t.calls ≡ 0 =
      (subst (λ s. Agrees s (releases t.calls) t.ended) s a.0).0 in
    let u_is : called Call.pthread_detach 0 (record t { state = State.detached }) ≡ u =
      (let g =
          subst
            (λ s.
              (elim s as (λ _. Result) [
                | State.detached ↦ returned t
                | State.joined ↦ threw t
                | State.terminated ↦ threw t
                | _ ↦ checked 0 State.detached (called Call.pthread_detach 0 t)
              ])
              ≡ returned u)
            s d in
        cc) in
    let v_is : record u { state = State.terminated; ended = true } ≡ v =
      (let g =
          subst
            (λ b.
              (if b then none else some (record u { state = State.terminated; ended = true }))
              ≡ some v)
            (ap (λ x. x.freed) (sym u_is) ∙ a.1) f in
        cc) in
    let calls_are : v.calls ≡ t.calls ++ (Call.pthread_detach, 0) ∷ [] =
      ap (λ x. x.calls) (sym v_is) ∙ ap (λ x. x.calls) (sym u_is) in
    subst (λ x. releases (destroy 0 x).calls ≡ 2) v_is
      (releases_last u.calls Call.pthread_join 0
        ∙ omega (
          arith,
          ap (λ x. releases x.calls) (sym u_is),
          releases_last t.calls Call.pthread_detach 0,
          zero_so_far,
        ))

-- A thread that is destroyed while it runs is detached, and the last assignment of its `run`, still to
-- come, is to the destroyed object.
pub destroy_running :
    {t : Thread}
    → Orderly t
    → t.state ≡ State.running
    → (t.ended ≡ false) × (finish (destroy 0 t) ≡ none)
unfolding finish destroy
destroy_running {t} r s =
    ((subst (λ s. Agrees s (releases t.calls) t.ended) s (Orderly-Agree r).0).1, rw s refl)
