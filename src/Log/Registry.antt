-- ===== src/Log/Registry.antt =====
-- src/log/manager.cpp: the loggers of names, over any number of calls of getLogger.
use qc.Base.{
  same, same_refl, same_eq, ℕ, suc, ◌<◌, ◌≡◌, ◌↔◌, ◌⊎◌, refl, sym, ap, ◌∙◌, subst, false, none,
  some, List, [], ◌∷◌, inl, inr, Bool-cases, Option-cases, if◌then◌else◌, update, arith,
}
use qc.Log.Logger.{new_logger, set_valid}
use qc.Log.Manager.{Manager, lookup, get_logger, new_manager, root_name}

-- The manager after `getLogger` for each name in turn.
unfoldable pub ask : List (List ℕ) → Manager → Manager
ask [] m = m
ask (n ∷ ns) m = ask ns (get_logger n m).1

-- Names have loggers of their own, and these are in the store.
unfoldable pub Sound : Manager → Type 0
Sound m =
    ((n k : List ℕ) (a : ℕ) → lookup n m.loggers ≡ some a → lookup k m.loggers ≡ some a → n ≡ k)
    × ((n : List ℕ) (a : ℕ) → lookup n m.loggers ≡ some a → a < m.fresh)

abbrev pub added : List ℕ → Manager → Manager
added name m = record m {
  loggers = (name, m.fresh) ∷ m.loggers;
  store = update m.store m.fresh (set_valid false (new_logger name));
  fresh = suc m.fresh;
}

pub get_logger_found :
    (name : List ℕ) (m : Manager) (a : ℕ)
    → lookup name m.loggers ≡ some a
    → get_logger name m ≡ (a, m)
unfolding get_logger
get_logger_found name m a e =
    ap (λ r. elim r [ some a ↦ (a, m) | none ↦ (m.fresh, added name m) ]) e

pub get_logger_new :
    (name : List ℕ) (m : Manager)
    → lookup name m.loggers ≡ none
    → get_logger name m ≡ (m.fresh, added name m)
unfolding get_logger
get_logger_new name m e = ap (λ r. elim r [ some a ↦ (a, m) | none ↦ (m.fresh, added name m) ]) e

-- After `getLogger` the name has the logger that it returned.
pub get_logger-lookup :
    (name : List ℕ) (m : Manager)
    → lookup name (get_logger name m).1.loggers ≡ some (get_logger name m).0
get_logger-lookup name m = elim (Option-cases (lookup name m.loggers)) [
  | inl e ↦ rw (get_logger_new name m e) (rw (same_refl name) refl)
  | inr (a, e) ↦ rw (get_logger_found name m a e) e
]

-- A name that has a logger keeps it, and that logger stays as it is.
keeps :
    (name k : List ℕ) (m : Manager) (a : ℕ)
    → lookup name m.loggers ≡ some a
    → lookup name (get_logger k m).1.loggers ≡ some a
keeps name k m a h = elim (Option-cases (lookup k m.loggers)) [
  | inr (b, e) ↦ rw (get_logger_found k m b e) h
  | inl e ↦ elim (Bool-cases (same name k)) [
    | inl f ↦ absurd (let g = same_eq name k f in cc)
    | inr f ↦ rw (get_logger_new k m e) (rw f h)
  ]
]

ask-keeps :
    (ns : List (List ℕ)) (name : List ℕ) (m : Manager) (a : ℕ)
    → lookup name m.loggers ≡ some a
    → lookup name (ask ns m).loggers ≡ some a
unfolding ask
ask-keeps [] name m a h = h
ask-keeps (n ∷ ns) name m a h = ask-keeps ns name (get_logger n m).1 a (keeps name n m a h)

-- Whatever names are asked for in between, a name gets the same logger again.
get_logger-again :
    (ns : List (List ℕ)) (name : List ℕ) (m : Manager)
    → (get_logger name (ask ns (get_logger name m).1)).0 ≡ (get_logger name m).0
get_logger-again ns name m =
    ap (λ r. r.0)
      (get_logger_found name (ask ns (get_logger name m).1) (get_logger name m).0
        (ask-keeps ns name (get_logger name m).1 (get_logger name m).0 (get_logger-lookup name m)))

lookup-added :
    (n name : List ℕ) (m : Manager) (a : ℕ)
    → lookup n (added name m).loggers ≡ some a
    → ((n ≡ name) × (a ≡ m.fresh)) ⊎ (lookup n m.loggers ≡ some a)
lookup-added n name m a h = elim (Bool-cases (same n name)) [
  | inl e ↦ inl (
    same_eq n name e,
    let g = subst (λ b. (if b then some m.fresh else lookup n m.loggers) ≡ some a) e h in cc,
  )
  | inr e ↦ inr (subst (λ b. (if b then some m.fresh else lookup n m.loggers) ≡ some a) e h)
]

pub Sound-added : (name : List ℕ) (m : Manager) → Sound m → Sound (added name m)
unfolding Sound
Sound-added name m s = (
  λ n k a h h'. elim (lookup-added n name m a h) [
    | inl (e, f) ↦ elim (lookup-added k name m a h') [
      | inl (e', f') ↦ e ∙ sym e'
      | inr l' ↦ absurd (omega (arith, s.1 k a l'))
    ]
    | inr l ↦ elim (lookup-added k name m a h') [
      | inl (e', f') ↦ absurd (omega (arith, s.1 n a l))
      | inr l' ↦ s.0 n k a l l'
    ]
  ],
  λ n a h. elim (lookup-added n name m a h) [
    | inl (e, f) ↦ omega arith
    | inr l ↦ omega (arith, s.1 n a l)
  ],
)

pub get_logger-Sound : (name : List ℕ) (m : Manager) → Sound m → Sound (get_logger name m).1
get_logger-Sound name m s = elim (Option-cases (lookup name m.loggers)) [
  | inl e ↦ rw (get_logger_new name m e) (Sound-added name m s)
  | inr (a, e) ↦ rw (get_logger_found name m a e) s
]

ask-Sound : (ns : List (List ℕ)) (m : Manager) → Sound m → Sound (ask ns m)
unfolding ask
ask-Sound [] m s = s
ask-Sound (n ∷ ns) m s = ask-Sound ns (get_logger n m).1 (get_logger-Sound n m s)

only_root : (n : List ℕ) (a : ℕ) → lookup n new_manager.loggers ≡ some a → (n ≡ root_name) × (a ≡ 0)
unfolding new_manager
only_root n a h = elim (Bool-cases (same n root_name)) [
  | inl e ↦
      (same_eq n root_name e, let g = subst (λ b. (if b then some 0 else none) ≡ some a) e h in cc)
  | inr e ↦ absurd (let g = subst (λ b. (if b then some 0 else none) ≡ some a) e h in cc)
]

pub new_manager-Sound : Sound new_manager
unfolding Sound new_manager
new_manager-Sound = (
  λ n k a h h'. (only_root n a h).0 ∙ sym (only_root k a h').0,
  λ n a h. omega (arith, (only_root n a h).1),
)

-- In a manager that has only been asked for loggers, two names get one logger only if they are equal.
pub get_logger_distinct :
    (ns : List (List ℕ)) (n k : List ℕ)
    → let m = ask ns new_manager in
      ((get_logger n m).0 ≡ (get_logger k (get_logger n m).1).0) ↔ (n ≡ k)
unfolding Sound ask
get_logger_distinct ns n k =
    let m : Manager = ask ns new_manager in
    let m' : Manager = (get_logger n m).1 in
    let s : Sound (get_logger k m').1 =
      get_logger-Sound k m' (get_logger-Sound n m (ask-Sound ns new_manager new_manager-Sound)) in
    let l : lookup n (get_logger k m').1.loggers ≡ some (get_logger n m).0 =
      keeps n k m' (get_logger n m).0 (get_logger-lookup n m) in
    (
      λ e.
          distinct (get_logger k m').1 s n k (get_logger n m).0 (get_logger k m').0 l
            (get_logger-lookup k m') e,
      λ e. subst (λ k. (get_logger n m).0 ≡ (get_logger k m').0) e (sym (get_logger-again [] n m)),
    )
  where
    distinct :
        (m : Manager)
        → Sound m
        → (n k : List ℕ) (a b : ℕ) → lookup n m.loggers ≡ some a
        → lookup k m.loggers ≡ some b
        → a ≡ b
        → n ≡ k
    distinct m s n k a b h h' e = s.0 n k a h (h' ∙ ap some (sym e))
