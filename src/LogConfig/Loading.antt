-- ===== src/LogConfig/Loading.antt =====
-- src/config/log_config.cpp with include/qc/config/config.h: the variable `logs`, from the nodes that are
-- loaded to the loggers that its listener sets up.
use qc.Base.{
  ℕ, ◌≡◌, refl, sym, subst, true, false, Option, none, some, List, [], ◌∷◌, ◌>>=◌, All, inl, inr,
  Bool-cases, Option-cases, same,
}
use qc.Log.Manager.{Manager, lookup, get_logger, new_manager, root_name}
use qc.Log.View.{find_logger}
use qc.Config.{Values, ConfigVar, Calls, from_node, set_value}
use qc.Config.Converters.Insertion.{DistinctKeys}
use qc.LogConfig.{FileSystem, Configs, on_change}
use qc.LogConfig.Listener.{AllLevels}
use qc.LogConfig.History.{Changes, started, asks, next_change, Settled, configured_always}

-- A node for `logs` is loaded, or the program asks for a logger.
pub data Happening (N : Type 0) : Type 0 where
  loaded : (node : N) → Happening N
  asked : (name : List ℕ) → Happening N

module _ (fs : FileSystem) {L N : Type 0} (ops : Values (Configs fs) L N) (address : ℕ) where
  open ops use {equal, listener_throws, convert}

  -- The calls of the listener, one after the other.
  unfoldable pub run_calls : Calls ops → Manager → Option Manager
  run_calls [] m = some m
  run_calls ((cb, old_val, new_val) ∷ calls) m = do
    m' ← on_change fs address old_val new_val m
    run_calls calls m'

  -- What happens to the variable and to the manager, in order.
  unfoldable pub happen :
      List (Happening N)
      → ConfigVar (Configs fs) L
      → Manager
      → Option (ConfigVar (Configs fs) L × Manager)
  unfolding run_calls
  happen [] v m = some (v, m)
  happen (loaded node ∷ rest) v m = do
    m' ← run_calls (from_node ops node v).1 m
    happen rest (from_node ops node v).0 m'
  happen (asked name ∷ rest) v m = happen rest v (get_logger name m).1

  -- A node is refused by the conversion, or its names are distinct and its levels set.
  abbrev pub ProperValue : Option (Configs fs) → Type 0
  ProperValue none = Unit
  ProperValue (some val) = DistinctKeys val × AllLevels fs val

  abbrev pub Proper : Happening N → Type 0
  Proper (loaded node) = ProperValue (convert node)
  Proper (asked name) = Unit

  module _ (cb : L)
      (calm : (old_val new_val : Configs fs) → listener_throws cb old_val new_val ≡ false) where
    abbrev Listened : ConfigVar (Configs fs) L → Manager → Type 0
    Listened v m = (v.cb ≡ some cb) × Changes fs v.value m

    -- `fromNode` where the conversion throws, where the value is equal, and where it is new.
    from_node_refused :
        (node : N) (v : ConfigVar (Configs fs) L)
        → convert node ≡ none
        → from_node ops node v ≡ (v, [])
    unfolding from_node
    from_node_refused node v e = rw (from_node, e) refl

    from_node_equal :
        (node : N) (v : ConfigVar (Configs fs) L) (x : Configs fs)
        → convert node ≡ some x
        → equal v.value x ≡ true
        → from_node ops node v ≡ (v, [])
    unfolding from_node set_value
    from_node_equal node v x e q = rw (from_node, e) (rw (set_value, q) refl)

    from_node_new :
        (node : N) (v : ConfigVar (Configs fs) L) (x : Configs fs)
        → convert node ≡ some x
        → equal v.value x ≡ false
        → v.cb ≡ some cb
        → from_node ops node v ≡ (record v { value = x }, (cb, v.value, x) ∷ [])
    unfolding from_node set_value
    from_node_new node v x e q has =
        rw (from_node, e)
          (rw (set_value, q, has, calm v.value x)
            (λ j. (record { name = v.name; value = x; cb = has j }, (cb, v.value, x) ∷ [])))

    abbrev Heard : ConfigVar (Configs fs) L × Calls ops → Manager → Type 0
    Heard r m = (m' : Manager) × (run_calls r.1 m ≡ some m') × Listened r.0 m'

    loaded-Listened :
        (node : N) (v : ConfigVar (Configs fs) L) (m : Manager)
        → ProperValue (convert node)
        → Listened v m
        → Heard (from_node ops node v) m
    unfolding run_calls
    loaded-Listened node v m p l = elim (Option-cases (convert node)) [
      | inl e ↦ subst (λ r. Heard r m) (sym (from_node_refused node v e)) (m, refl, l)
      | inr (x, e) ↦ elim (Bool-cases (equal v.value x)) [
        | inl q ↦ subst (λ r. Heard r m) (sym (from_node_equal node v x e q)) (m, refl, l)
        | inr q ↦
            let proper : ProperValue (some x) = subst ProperValue e p in
            let (m', f, c) = next_change fs address x l.1 proper.0 proper.1 in
            subst (λ r. Heard r m) (sym (from_node_new node v x e q l.0)) (m', rw f refl, (l.0, c))
      ]
    ]

    happen-Listened :
        (hs : List (Happening N)) (v : ConfigVar (Configs fs) L) (m : Manager)
        → All Proper hs
        → Listened v m
        → (v' : ConfigVar (Configs fs) L) × (m' : Manager) × (happen hs v m ≡ some (v', m'))
          × Listened v' m'
    unfolding happen
    happen-Listened [] v m p l = (v, m, refl, l)
    happen-Listened (loaded node ∷ hs) v m p l =
        let (m1, e, l1) = loaded-Listened node v m p.0 l in
        let (v', m', f, l') = happen-Listened hs (from_node ops node v).0 m1 p.1 l1 in
        (v', m', rw e f, l')
    happen-Listened (asked name ∷ hs) v m p l =
        happen-Listened hs v (get_logger name m).1 p.1 (l.0, asks name l.1)

  -- Whatever nodes are loaded for logs, each refused or with distinct names and with levels, and whatever
  -- loggers are asked for in between, all of it succeeds; afterwards every name in the value of the
  -- variable but the root's has the logger that its configuration describes, with the defaults of a new
  -- manager, and any other name but the root's has no logger or one that is not valid. The listener does
  -- not throw, and the value is empty at first.
  pub loads_configure :
      (cb : L) (v : ConfigVar (Configs fs) L) (hs : List (Happening N)) (k : List ℕ)
      → ((old_val new_val : Configs fs) → listener_throws cb old_val new_val ≡ false)
      → v.cb ≡ some cb
      → v.value ≡ []
      → All Proper hs
      → same k root_name ≡ false
      → (v' : ConfigVar (Configs fs) L) × (m' : Manager) × (happen hs v new_manager ≡ some (v', m'))
        × Settled fs k (lookup k v'.value) (find_logger k m')
  loads_configure cb v hs k calm has empty p r =
      let (v', m', e, l) =
        happen-Listened cb calm hs v new_manager p
          (has, subst (λ x. Changes fs x new_manager) (sym empty) started) in
      (v', m', e, configured_always fs k l.1 r)
