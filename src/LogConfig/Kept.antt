-- ===== src/LogConfig/Kept.antt =====
-- src/log/manager.cpp and src/config/log_config.cpp: what getLogger and a change of the configuration leave
-- as it was.
use qc.Base.{
  update, if_pos, if_neg, ℕ_discrete, ℕ, ◌≡◌, refl, sym, ap, ◌∙◌, subst, false, some, List, [], ◌∷◌,
  ◌>>=◌, inl, inr, Bool-cases, Option-cases, same,
}
use qc.Log.Manager.{Manager, lookup, get_logger, root_name}
use qc.Log.View.{
  Good, Cached, find_logger, logger_or_new, logger_or_new-name, put_logger, put_logger-here,
  put_logger-there, put_logger-Good,
}
use qc.Log.Registry.{get_logger-Sound}
use qc.Config.Converters.Insertion.{DistinctKeys}
use qc.LogConfig.{FileSystem, Configs, drop_config, drop_configs, on_change}
use qc.LogConfig.Setup.{Defaults, get_logger-Defaults}
use qc.LogConfig.Listener.{AllLevels, load_configs-Leaves}
use qc.LogConfig.Change.{from_found, logger_or_new-from_found}

pub Defaults-trans : {a b c : Manager} → Defaults a b → Defaults b c → Defaults a c
Defaults-trans d e = record {
  level = e.level ∙ d.level;
  pattern = e.pattern ∙ d.pattern;
  layout = e.layout ∙ d.layout;
}

pub stay : (m : Manager) → Defaults m m
stay m = record { level = refl; pattern = refl; layout = refl }

-- A logger that is put where it was.
update_self : {A : Type 0} (f : ℕ → A) (a b : ℕ) → update f a (f a) b ≡ f b
update_self f a b = elim (ℕ_discrete a b) [
  | yes e ↦ if_pos (ℕ_discrete a b) e (f a) (f b) ∙ ap f e
  | no ne ↦ if_neg (ℕ_discrete a b) ne (f a) (f b)
]

put_logger_self :
    (k : List ℕ) (a : ℕ) (m : Manager)
    → find_logger k (put_logger a (m.store a) m) ≡ find_logger k m
put_logger_self k a m = elim (Option-cases (lookup k m.loggers)) [
  | inl e ↦ rw e refl
  | inr (b, e) ↦ rw e (ap some (update_self m.store a b))
]

pub get_logger-Good : (name : List ℕ) (m : Manager) → Good m → Good (get_logger name m).1
get_logger-Good name m g =
    let m1 = (get_logger name m).1 in
    let c : Cached m1.layouts = subst Cached (sym (get_logger-Defaults name m).1) g.cached in
    let put =
      put_logger-Good name (logger_or_new name m) m1.layouts m g c (logger_or_new-name name m g) in
    record {
      sound = get_logger-Sound name m g.sound;
      cached = c;
      named = λ n l h. put.named n l (put_logger_self n (get_logger name m).0 m1 ∙ h);
    }

-- What `getLogger` leaves of another name, and of the one asked for.
pub get_logger-there :
    (name k : List ℕ) (m : Manager)
    → Good m
    → same k name ≡ false
    → find_logger k (get_logger name m).1 ≡ find_logger k m
get_logger-there name k m g q =
    sym (put_logger_self k (get_logger name m).0 (get_logger name m).1)
    ∙ put_logger-there name k (logger_or_new name m) m g.sound q

pub get_logger-here :
    (name : List ℕ) (m : Manager)
    → find_logger name (get_logger name m).1 ≡ some (from_found name (find_logger name m))
get_logger-here name m =
    sym (put_logger_self name (get_logger name m).0 (get_logger name m).1)
    ∙ put_logger-here name (logger_or_new name m) m
    ∙ ap some (logger_or_new-from_found name m)

module _ (fs : FileSystem) where
  drop_config-Defaults :
      (new_val : Configs fs) (name : List ℕ) (m : Manager)
      → Defaults m (drop_config fs new_val name m)
  unfolding drop_config
  drop_config-Defaults new_val name m = elim (Bool-cases (same name root_name)) [
    | inl f ↦ rw f (stay m)
    | inr f ↦ elim (Option-cases (lookup name new_val)) [
      | inr (c, e) ↦ rw (f, e) (stay m)
      | inl e ↦
          let d = (get_logger-Defaults name m).0 in
          rw (f, e) (record { level = d.level; pattern = d.pattern; layout = d.layout })
    ]
  ]

  drop_configs-Defaults :
      (new_val old_val : Configs fs) (m : Manager) → Defaults m (drop_configs fs new_val old_val m)
  unfolding drop_configs
  drop_configs-Defaults new_val [] m = stay m
  drop_configs-Defaults new_val ((name, c) ∷ rest) m =
      Defaults-trans (drop_config-Defaults new_val name m)
        (drop_configs-Defaults new_val rest (drop_config fs new_val name m))

  pub on_change-Defaults :
      (address : ℕ) (old_val new_val : Configs fs) (m m' : Manager)
      → DistinctKeys new_val
      → AllLevels fs old_val
      → AllLevels fs new_val
      → Good m
      → on_change fs address old_val new_val m ≡ some m'
      → Defaults m m'
  unfolding on_change
  on_change-Defaults address old_val new_val m m' un t s g h =
      let (m1, e, g1, d, h1) = load_configs-Leaves fs address old_val new_val m un s t g in
      let last : drop_configs fs new_val old_val m1 ≡ m' =
        cc (sym (ap (λ r. r >>= λ x. some (drop_configs fs new_val old_val x)) e) ∙ h) in
      subst (Defaults m) last (Defaults-trans d (drop_configs-Defaults new_val old_val m1))
