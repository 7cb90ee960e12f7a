-- ===== src/LogConfig/Codec/Refusal.antt =====
-- include/qc/config/log_config.h: nodes that a decoder refuses, and nodes that lack a level.
use qc.Base.{ℕ, ◌≡◌, refl, ap, ◌∙◌, subst, Option, none, some, List, ◌>>=◌, codes}
use qc.Log.Manager.{Manager, lookup}
use qc.Config.Node.{Yaml}
use qc.LogConfig.{LogConfig, FileSystem, setup_logger}
use qc.LogConfig.Codec.{read_text, read_appenders, decode_appender, decode_config}

-- What holds of a result, if there is one.
abbrev Holds : {A : Type 0} → (A → Type 0) → Option A → Type 0
Holds P none = Unit
Holds P (some a) = P a

Holds-bind :
    {A B : Type 0} (P : B → Type 0) (o : Option A) (f : A → Option B)
    → ((a : A) → Holds P (f a))
    → Holds P (o >>= f)
Holds-bind P none f h = tt
Holds-bind P (some a) f h = h a

module _ (yaml : Yaml) where
  open yaml use {Node, entries, get, as_text, get_entries}

  -- The key of a map that is missing.
  abbrev pub Lacks : Node → List ℕ → Type 0
  Lacks node k = (es : List (List ℕ × Node)) × (entries node ≡ some es) × (lookup k es ≡ none)

  get-Lacks : (node : Node) (k : List ℕ) → Lacks node k → get node k ≡ some none
  get-Lacks node k (es, e, f) = get_entries node k es e ∙ ap some f

  pub data Refused (node : Node) : Type 0 where
    no_map : entries node ≡ none → Refused node
    no_type : Lacks node (codes "type") → Refused node
    no_filename :
        (t : Node)
        → get node (codes "type") ≡ some (some t)
        → as_text t ≡ some (codes "FileAppender")
        → Lacks node (codes "filename")
        → Refused node

  -- An appender is refused that is no map, one without a type, and one of a type FileAppender without
  -- a filename.
  pub decode_appender-none : (node : Node) → Refused node → decode_appender yaml node ≡ none
  unfolding decode_appender
  decode_appender-none node (Refused.no_map e) = rw e refl
  decode_appender-none node (Refused.no_type l) =
      rw ((let (es, e0, f0) = l in e0), get-Lacks node (codes "type") l) refl
  decode_appender-none node (Refused.no_filename t e f l) =
      rw ((let (es, e0, f0) = l in e0), e, f, get-Lacks node (codes "filename") l) refl

  -- A configuration that is decoded from a map without a level has a level that nothing has set, which
  -- setupLogger reads: there is no result.
  pub setup_logger-decode_config :
      (other : ℕ) (node : Node) (config : LogConfig)
      → Lacks node (codes "level")
      → decode_config yaml other node ≡ some config
      → (fs : FileSystem) (address : ℕ) (name : List ℕ) (m : Manager)
      → setup_logger fs address name config m ≡ none
  unfolding decode_config setup_logger
  setup_logger-decode_config other node config l e fs address name m =
      let has_none : LogConfig → Type 0 = λ c. c.level ≡ none in
      let unset : config.level ≡ none = subst (Holds has_none) e (
        rw (get-Lacks node (codes "level") l) (
          Holds-bind has_none (get node (codes "pattern")) _ (λ p.
            Holds-bind has_none (read_text yaml p) _ (λ s.
              Holds-bind has_none (get node (codes "appenders")) _
                (λ n. Holds-bind has_none (read_appenders yaml other n) _ (λ as'. refl)))))) in
      rw unset refl
