-- ===== src/Log/Statement.antt =====
-- include/qc/macro.h: what a log statement writes.
use qc.Base.{
  ℕ, suc, ◌≡◌, refl, sym, ap, ◌∙◌, Bool, true, false, none, some, List, [], ◌∷◌, ◌++◌, codes, leb,
  inl, inr, Bool-cases, if◌then◌else◌,
}
use mathlib.Core.List.{append-nil, append_assoc}
use qc.Log.{Level, value, Event, new_event}
use qc.Log.Layout.{Platform}
use qc.Log.Logger.{Logger, Output}
use qc.Log.Manager.{close_warp}
use qc.Log.Delivery.{Laid, shares, log-shares, passes_at}
use qc.Log.Macro.{Site, event_of, stream, log_level, assert_that}

abbrev pub concat : List (List ℕ) → List ℕ
concat [] = []
concat (text ∷ rest) = text ++ concat rest

stream_lem :
    (texts : List (List ℕ)) (e : Event) → stream texts e ≡ record e { ss = e.ss ++ concat texts }
unfolding stream
stream_lem [] e = ap (λ s. record e { ss = s }) (sym (append-nil e.ss))
stream_lem (text ∷ rest) e =
    stream_lem rest (record e { ss = e.ss ++ text })
    ∙ ap (λ s. record e { ss = s }) (append_assoc e.ss text (concat rest))

module _ (p : Platform) (err : Event) where
  close_warp-valid :
      (n : ℕ) (root l : Logger) (e : Event) (w : Output)
      → l.valid ≡ some true
      → Laid l.appenders
      → close_warp p err (suc n) root l e w ≡ some (some (w ++ shares p l.appenders e))
  unfolding close_warp
  close_warp-valid n root l e w v h = rw (close_warp, log-shares p l e w v h) refl

  pub log_level-shares :
      (n : ℕ) (root l : Logger) (m level : Level) (site : Site) (texts : List (List ℕ)) (w : Output)
      → l.valid ≡ some true
      → l.level ≡ some m
      → Laid l.appenders
      → log_level p err (suc n) root l level site (stream texts) w
        ≡ some (
            some (
              w
              ++ (if leb (value m) (value level)
                  then shares p l.appenders (record (event_of site level l) { ss = concat texts })
                  else [])))
  unfolding log_level new_event
  log_level-shares n root l m level site texts w v lv h =
      elim (Bool-cases (leb (value m) (value level))) [
        | inl f ↦
            rw (log_level, passes_at p l m level lv, f)
              (close_warp-valid n root l (stream texts (event_of site level l)) w v h
                ∙ ap (λ e. some (some (w ++ shares p l.appenders e)))
                    (stream_lem texts (event_of site level l)))
        | inr f ↦
            rw (log_level, passes_at p l m level lv, f)
              (ap (λ x. some (some x)) (sym (append-nil w)))
      ]

  -- A failed assertion is logged as an error by the root logger, and ends the program unless NDEBUG is
  -- set.
  assert_that_fails :
      (n : ℕ) (root : Logger) (m : Level) (ndebug : Bool) (text trace : List ℕ) (site : Site)
      (w : Output)
      → root.valid ≡ some true
      → root.level ≡ some m
      → Laid root.appenders
      → assert_that p err (suc n) root ndebug false text site trace w
        ≡ some (
            some (
              w
                  ++ (if leb (value m) (value Level.error)
                      then shares p root.appenders (record (event_of site Level.error root) {
                        ss = concat (
                            codes "ASSERTION: "
                            ∷ (text ++ codes "\n")
                            ∷ codes "Backtrace: \n"
                            ∷ trace
                            ∷ []);
                      })
                      else []),
              if ndebug then false else true,
            ))
  unfolding assert_that new_event
  assert_that_fails n root m ndebug text trace site w v lv h =
      ap
        (λ x. elim x [
          | none ↦ none
          | some none ↦ some none
          | some (some o) ↦ some (some (o, if ndebug then false else true))
        ])
        (log_level-shares n root root m Level.error site
          (codes "ASSERTION: " ∷ (text ++ codes "\n") ∷ codes "Backtrace: \n" ∷ trace ∷ []) w v lv
          h)
