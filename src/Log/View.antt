-- ===== src/Log/View.antt =====
-- src/log/manager.cpp: the manager as a map from names to loggers, and from patterns to layouts.
use qc.Base.{
  ℕ, ◌≡◌, ◌≢◌, refl, sym, ap, ◌∙◌, subst, if_pos, if_neg, ℕ_discrete, true, false, Option, none,
  some, List, [], ◌∷◌, ◌<◌, same, same_refl, same_eq, inl, inr, Bool-cases, Option-cases,
  if◌then◌else◌, update, arith,
}
use qc.Log.Layout.{FormatItem, init}
use qc.Log.Logger.{Logger, new_logger, set_valid}
use qc.Log.Manager.{Manager, lookup, get_logger, get_layout, new_manager, root_name}
use qc.Log.Registry.{
  Sound, get_logger_found, get_logger_new, get_logger-lookup, new_manager-Sound, get_logger-Sound,
}

abbrev pub stored : Manager → Option ℕ → Option Logger
stored m none = none
stored m (some a) = some (m.store a)

abbrev pub find_logger : List ℕ → Manager → Option Logger
find_logger name m = stored m (lookup name m.loggers)

-- The logger that `getLogger` gives for a name.
abbrev pub logger_or_new : List ℕ → Manager → Logger
logger_or_new name m = (get_logger name m).1.store (get_logger name m).0

-- A change to the logger of a name, through the pointer that `getLogger` returns.
abbrev pub put_logger : ℕ → Logger → Manager → Manager
put_logger a l m = record m { store = update m.store a l }

-- The cache of layouts has, under each pattern, what the pattern reads as.
unfoldable pub Cached : List (List ℕ × List FormatItem) → Type 0
Cached [] = Unit
Cached ((p, its) ∷ rest) = (its ≡ (init p).0) × Cached rest

lookup-Cached :
    (p : List ℕ) (ls : List (List ℕ × List FormatItem)) (its : List FormatItem)
    → Cached ls
    → lookup p ls ≡ some its
    → its ≡ (init p).0
unfolding Cached
lookup-Cached p [] its c e = cc
lookup-Cached p ((q, js) ∷ rest) its c e = elim (Bool-cases (same p q)) [
  | inl f ↦
      let g = subst (λ b. (if b then some js else lookup p rest) ≡ some its) f e in
      let h : js ≡ its = cc in sym h ∙ c.0 ∙ ap (λ x. (init x).0) (sym (same_eq p q f))
  | inr f ↦
      lookup-Cached p rest its c.1
        (subst (λ b. (if b then some js else lookup p rest) ≡ some its) f e)
]

-- `getLayout` gives what the pattern reads as, and changes the cache only.
pub get_layout-Cached :
    (p : List ℕ) (m : Manager)
    → Cached m.layouts
    → (ls : List (List ℕ × List FormatItem)) × (get_layout p m
        ≡ ((init p).0, record m { layouts = ls }))
      × Cached ls
unfolding get_layout Cached
get_layout-Cached p m c = elim (Option-cases (lookup p m.layouts)) [
  | inl e ↦ (
    (p, (init p).0) ∷ m.layouts,
    ap
        (λ r. elim r [
          | some its ↦ (its, m)
          | none ↦ ((init p).0, record m { layouts = (p, (init p).0) ∷ m.layouts })
        ])
        e,
    (refl, c),
  )
  | inr (its, e) ↦ (
    m.layouts,
    ap
          (λ r. elim r [
            | some its ↦ (its, m)
            | none ↦ ((init p).0, record m { layouts = (p, (init p).0) ∷ m.layouts })
          ])
          e
        ∙ ap (λ x. (x, m)) (lookup-Cached p m.layouts its c e),
    c,
  )
]

-- What holds of a manager that is changed through its own operations.
pub record Good (m : Manager) : Type 0 where
  pub sound : Sound m
  pub cached : Cached m.layouts
  pub named : (n : List ℕ) (l : Logger) → find_logger n m ≡ some l → l.name ≡ n

new_manager-named : (n : List ℕ) (l : Logger) → find_logger n new_manager ≡ some l → l.name ≡ n
unfolding new_manager
new_manager-named n l h = elim (Bool-cases (same n root_name)) [
  | inl e ↦
      let g = subst (λ b. stored new_manager (if b then some 0 else none) ≡ some l) e h in
      let q : root_name ≡ l.name = (cc) in sym q ∙ sym (same_eq n root_name e)
  | inr e ↦
      absurd
        (let g = subst (λ b. stored new_manager (if b then some 0 else none) ≡ some l) e h in cc)
]

pub new_manager-Good : Good new_manager
unfolding Cached new_manager
new_manager-Good = record {
  sound = new_manager-Sound;
  cached = (refl, tt);
  named = new_manager-named;
}

find_at :
    (name : List ℕ) (m : Manager) (a : ℕ)
    → lookup name m.loggers ≡ some a
    → find_logger name m ≡ some (m.store a)
find_at name m a e = ap (stored m) e

lookup_other :
    (name k : List ℕ) (m : Manager)
    → same k name ≡ false
    → lookup k (get_logger name m).1.loggers ≡ lookup k m.loggers
lookup_other name k m ne = elim (Option-cases (lookup name m.loggers)) [
  | inl e ↦ rw (get_logger_new name m e) (rw ne refl)
  | inr (a, e) ↦ rw (get_logger_found name m a e) refl
]

store_old :
    (name : List ℕ) (m : Manager) (b : ℕ) → b < m.fresh → (get_logger name m).1.store b ≡ m.store b
store_old name m b lt = elim (Option-cases (lookup name m.loggers)) [
  | inl e ↦ rw (get_logger_new name m e) (
      if_neg (ℕ_discrete m.fresh b) (λ q. omega arith) (set_valid false (new_logger name))
        (m.store b))
  | inr (a, e) ↦ rw (get_logger_found name m a e) refl
]

-- After a change to the logger of a name, that name has the changed logger, all others have theirs.
pub put_logger-here :
    (name : List ℕ) (l : Logger) (m : Manager)
    → find_logger name (put_logger (get_logger name m).0 l (get_logger name m).1) ≡ some l
put_logger-here name l m =
    find_at name (put_logger (get_logger name m).0 l (get_logger name m).1) (get_logger name m).0
      (get_logger-lookup name m)
    ∙ ap some (
        if_pos (ℕ_discrete (get_logger name m).0 (get_logger name m).0) refl l
          ((get_logger name m).1.store (get_logger name m).0))

pub put_logger-there :
    (name k : List ℕ) (l : Logger) (m : Manager)
    → Sound m
    → same k name ≡ false
    → find_logger k (put_logger (get_logger name m).0 l (get_logger name m).1) ≡ find_logger k m
unfolding Sound
put_logger-there name k l m s ne =
    let m' : Manager = (get_logger name m).1 in
    let a : ℕ = (get_logger name m).0 in
    elim (Option-cases (lookup k m.loggers)) [
      | inl e ↦
          ap (stored (put_logger a l m')) (lookup_other name k m ne ∙ e) ∙ ap (stored m) (sym e)
      | inr (b, e) ↦
          let apart : a ≢ b = λ q.
            let clash =
              (get_logger-Sound name m s).0 k name b (lookup_other name k m ne ∙ e)
                (get_logger-lookup name m ∙ ap some q) in
            absurd (
              let g : true ≡ false =
                sym (same_refl name) ∙ ap (λ x. same x name) (sym clash) ∙ ne in
              cc) in
          ap (stored (put_logger a l m')) (lookup_other name k m ne ∙ e)
          ∙ ap some (if_neg (ℕ_discrete a b) apart l (m'.store b) ∙ store_old name m b (s.1 k b e))
          ∙ ap (stored m) (sym e)
    ]

pub put_logger-Sound : (a : ℕ) (l : Logger) (m : Manager) → Sound m → Sound (put_logger a l m)
unfolding Sound
put_logger-Sound a l m s = s

pub logger_or_new-name : (name : List ℕ) (m : Manager) → Good m → (logger_or_new name m).name ≡ name
logger_or_new-name name m g = elim (Option-cases (lookup name m.loggers)) [
  | inl e ↦
      ap (λ (r : ℕ × Manager). (r.1.store r.0).name) (get_logger_new name m e)
      ∙ ap (λ (x : Logger). x.name)
          (if_pos (ℕ_discrete m.fresh m.fresh) refl (set_valid false (new_logger name))
            (m.store m.fresh))
  | inr (a, e) ↦
      ap (λ (r : ℕ × Manager). (r.1.store r.0).name) (get_logger_found name m a e)
      ∙ g.named name (m.store a) (find_at name m a e)
]

-- A change to the logger of a name that keeps its name, with another cache of layouts.
pub put_logger-Good :
    (name : List ℕ) (l : Logger) (ls : List (List ℕ × List FormatItem)) (m : Manager)
    → Good m
    → Cached ls
    → l.name ≡ name
    → Good (record (put_logger (get_logger name m).0 l (get_logger name m).1) { layouts = ls })
unfolding Sound
put_logger-Good name l ls m g c e = record {
  sound = get_logger-Sound name m g.sound;
  cached = c;
  named = λ n k h. elim (Bool-cases (same n name)) [
    | inl f ↦
        let q : n ≡ name = same_eq n name f in
        let r : some l ≡ some k =
          sym (put_logger-here name l m)
          ∙ ap (λ x. find_logger x (put_logger (get_logger name m).0 l (get_logger name m).1))
              (sym q)
          ∙ h in
        let t : l ≡ k = cc in ap (λ (x : Logger). x.name) (sym t) ∙ e ∙ sym q
    | inr f ↦ g.named n k (sym (put_logger-there name n l m g.sound f) ∙ h)
  ];
}
