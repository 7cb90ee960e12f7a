-- ===== src/LogConfig/Listener.antt =====
-- src/config/log_config.cpp: the listener of `logs`, over the old and the new values.
use qc.Base.{
  ℕ, ◌≡◌, refl, sym, ap, ◌∙◌, subst, Bool, true, false, Option, none, some, List, [], ◌∷◌,
  if◌then◌else◌, ◌>>=◌, inl, inr, Bool-cases, Option-cases, same, same_refl, same_eq,
}
use qc.Log.Logger.{Logger}
use qc.Log.Manager.{Manager, lookup, root_name}
use qc.Log.View.{Good, find_logger}
use qc.Config.Converters.Insertion.{DistinctKeys}
use qc.LogConfig.{LogConfig, FileSystem, Configs, load_config, load_configs}
use qc.LogConfig.Configured.{equal_config, same_config-equal_config, configured, LevelsSet}
use qc.LogConfig.Setup.{configured_same, Defaults, setup_logger-configured}

module _ (fs : FileSystem) where
  unfoldable pub AllLevels : Configs fs → Type 0
  AllLevels [] = Unit
  AllLevels ((name, config) ∷ rest) = LevelsSet config × AllLevels rest

  lookup-AllLevels :
      (vals : Configs fs) (k : List ℕ) (c : LogConfig)
      → AllLevels vals
      → lookup k vals ≡ some c
      → LevelsSet c
  unfolding AllLevels
  lookup-AllLevels [] k c s e = absurd (let h : none ≡ some c = e in cc)
  lookup-AllLevels ((name, config) ∷ rest) k c s e = elim (Bool-cases (same k name)) [
    | inl f ↦
        let h : some config ≡ some c =
          subst (λ b. (if b then some config else lookup k rest) ≡ some c) f e in
        let q : config ≡ c = cc in subst LevelsSet q s.0
    | inr f ↦
        lookup-AllLevels rest k c s.1
          (subst (λ b. (if b then some config else lookup k rest) ≡ some c) f e)
  ]

  module _ (address : ℕ) (old_val : Configs fs) where
    -- What the name `k` has after its configuration is loaded, by its old configuration.
    abbrev pub renewed : Option LogConfig → List ℕ → LogConfig → Manager → Option Logger
    renewed none k config m = some (configured fs address k config m)
    renewed (some old) k config m =
        if equal_config config old then find_logger k m else some (configured fs address k config m)

    abbrev pub loaded : Bool → Option LogConfig → List ℕ → Manager → Option Logger
    loaded true c k m = find_logger k m
    loaded false none k m = find_logger k m
    loaded false (some config) k m = renewed (lookup k old_val) k config m

    -- What a step leaves: success, a good manager, the defaults, and what each name has.
    abbrev Leaves : Option Manager → Manager → (List ℕ → Option Logger) → Type 0
    Leaves r m has =
        (m' : Manager) × (r ≡ some m')
        × Good m'
        × Defaults m m'
        × ((k : List ℕ) → find_logger k m' ≡ has k)

    stays : (m : Manager) → Good m → Leaves (some m) m (λ k. find_logger k m)
    stays m g = (m, refl, g, record { level = refl; pattern = refl; layout = refl }, λ k. refl)

    -- Where the setup is run, the name has its new logger and all others theirs.
    abbrev set_up : List ℕ → LogConfig → Manager → List ℕ → Option Logger
    set_up name config m k =
        if same k name then some (configured fs address k config m) else find_logger k m

    -- One turn, by the test of the name and the old configuration.
    abbrev turned : Bool → Option LogConfig → List ℕ → LogConfig → Manager → List ℕ → Option Logger
    turned true o name config m k = find_logger k m
    turned false none name config m k = set_up name config m k
    turned false (some old) name config m k =
        if equal_config config old then find_logger k m else set_up name config m k

    load_config-Leaves :
        (name : List ℕ) (config : LogConfig) (m : Manager)
        → Good m
        → LevelsSet config
        → AllLevels old_val
        → Leaves
            (load_config fs address old_val name config m)
            m
            (turned (same name root_name) (lookup name old_val) name config m)
    unfolding load_config
    load_config-Leaves name config m g s t = elim (Bool-cases (same name root_name)) [
      | inl f ↦ rw f (stays m g)
      | inr f ↦ elim (Option-cases (lookup name old_val)) [
        | inl e ↦ rw (f, e) (setup_logger-configured fs address name config m g s)
        | inr (old, e) ↦ elim (Bool-cases (equal_config config old)) [
          | inl q ↦
              rw
                (
                  f,
                  e,
                  same_config-equal_config config old s (lookup-AllLevels old_val name old t e),
                  q,
                )
                (stays m g)
          | inr q ↦
              rw
                (
                  f,
                  e,
                  same_config-equal_config config old s (lookup-AllLevels old_val name old t e),
                  q,
                )
                (setup_logger-configured fs address name config m g s)
        ]
      ]
    ]

    turned_there :
        (b : Bool) (o : Option LogConfig) (name : List ℕ) (config : LogConfig) (m : Manager)
        (k : List ℕ)
        → same k name ≡ false
        → turned b o name config m k ≡ find_logger k m
    turned_there true o name config m k f = refl
    turned_there false none name config m k f = rw f refl
    turned_there false (some old) name config m k f = elim (Bool-cases (equal_config config old)) [
      | inl q ↦ rw q refl
      | inr q ↦ rw (q, f) refl
    ]

    turned_here :
        (b : Bool) (o : Option LogConfig) (name : List ℕ) (config : LogConfig) (m : Manager)
        → lookup name old_val ≡ o
        → turned b o name config m name ≡ loaded b (some config) name m
    turned_here true o name config m e = refl
    turned_here false none name config m e = rw (e, same_refl name) refl
    turned_here false (some old) name config m e = rw (e, same_refl name) refl

    loaded-none : (b : Bool) (k : List ℕ) (m : Manager) → loaded b none k m ≡ find_logger k m
    loaded-none true k m = refl
    loaded-none false k m = refl

    configured-Defaults :
        (k : List ℕ) (c : LogConfig) (m m1 : Manager)
        → Defaults m m1
        → configured fs address k c m1 ≡ configured fs address k c m
    configured-Defaults k c m m1 d = configured_same fs address k c m k m1 refl d

    renewed-Defaults :
        (o : Option LogConfig) (k : List ℕ) (c : LogConfig) (m m1 : Manager)
        → find_logger k m1 ≡ find_logger k m
        → Defaults m m1
        → renewed o k c m1 ≡ renewed o k c m
    renewed-Defaults none k c m m1 e d = ap some (configured-Defaults k c m m1 d)
    renewed-Defaults (some old) k c m m1 e d =
        ap (λ x. if equal_config c old then x else some (configured fs address k c m1)) e
        ∙ ap (λ x. if equal_config c old then find_logger k m else some x)
            (configured-Defaults k c m m1 d)

    loaded-Defaults :
        (b : Bool) (o : Option LogConfig) (k : List ℕ) (m m1 : Manager)
        → find_logger k m1 ≡ find_logger k m
        → Defaults m m1
        → loaded b o k m1 ≡ loaded b o k m
    loaded-Defaults true o k m m1 e d = e
    loaded-Defaults false none k m m1 e d = e
    loaded-Defaults false (some c) k m m1 e d = renewed-Defaults (lookup k old_val) k c m m1 e d

    Defaults-trans : {m m1 m2 : Manager} → Defaults m m1 → Defaults m1 m2 → Defaults m m2
    Defaults-trans d e = record {
      level = e.level ∙ d.level;
      pattern = e.pattern ∙ d.pattern;
      layout = e.layout ∙ d.layout;
    }

    pub load_configs-Leaves :
        (new_val : Configs fs) (m : Manager)
        → DistinctKeys new_val
        → AllLevels new_val
        → AllLevels old_val
        → Good m
        → Leaves
            (load_configs fs address old_val new_val m)
            m
            (λ k. loaded (same k root_name) (lookup k new_val) k m)
    unfolding load_configs DistinctKeys AllLevels
    load_configs-Leaves [] m u s t g = (
      m,
      refl,
      g,
      record { level = refl; pattern = refl; layout = refl },
      λ k. sym (loaded-none (same k root_name) k m),
    )
    load_configs-Leaves ((name, config) ∷ rest) m u s t g =
        let (m1, e1, g1, d1, h1) = load_config-Leaves name config m g s.0 t in
        let (m2, e2, g2, d2, h2) = load_configs-Leaves rest m1 u.1 s.1 t g1 in
        (
          m2,
          ap (λ r. r >>= load_configs fs address old_val rest) e1 ∙ e2,
          g2,
          Defaults-trans d1 d2,
          λ k. h2 k ∙ elim (Bool-cases (same k name)) [
            | inr f ↦ rw f (
                loaded-Defaults (same k root_name) (lookup k rest) k m m1
                  (h1 k
                    ∙ turned_there (same name root_name) (lookup name old_val) name config m k f)
                  d1)
            | inl f ↦ rw f (
                ap (λ o. loaded (same k root_name) o k m1)
                  (ap (λ x. lookup x rest) (same_eq k name f) ∙ u.0)
                ∙ loaded-none (same k root_name) k m1
                ∙ h1 k
                ∙ subst
                    (λ x.
                      turned (same name root_name) (lookup name old_val) name config m x
                      ≡ loaded (same x root_name) (some config) x m)
                    (sym (same_eq k name f))
                    (turned_here (same name root_name) (lookup name old_val) name config m refl))
          ],
        )
