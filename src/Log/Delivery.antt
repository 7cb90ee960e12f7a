-- ===== src/Log/Delivery.antt =====
-- src/log/logger.cpp, src/log/appender.cpp, src/log/warp.cpp: which events are written where.
use qc.Base.{
  ℕ, zero, suc, ◌≡◌, refl, sym, ap, ◌∙◌, Bool, true, false, none, some, List, [], ◌∷◌, ◌++◌, ◌==◌,
  leb, inl, inr, Bool-cases, Option-cases, if◌then◌else◌, arith,
}
use mathlib.Core.List.{append-nil, append_assoc}
use qc.Log.{Level, at_least, value, Event}
use qc.Log.Layout.{FormatItem, Platform, layout}
use qc.Log.Logger.{
  Appender, Logger, Output, has_layout, add_appender, remove, del_appender, append_log, log_all,
  log,
}
use qc.Log.Manager.{passes, close_warp}

-- Every appender has a layout.
unfoldable pub Laid : List Appender → Type 0
Laid [] = Unit
Laid (a ∷ rest) = (has_layout a ≡ true) × Laid rest

-- What an appender is to write of an event.
abbrev pub share : Platform → Appender → Event → Output
share p a e = elim a.layout [
  | none ↦ []
  | some its ↦
      if at_least e.level a.level
      then (if a.is_open then (a.sink, layout p its e) ∷ [] else [])
      else []
]

unfoldable pub shares : Platform → List Appender → Event → Output
shares p [] e = []
shares p (a ∷ rest) e = share p a e ++ shares p rest e

Laid-append : (xs ys : List Appender) → Laid xs → Laid ys → Laid (xs ++ ys)
unfolding Laid
Laid-append [] ys h k = k
Laid-append (x ∷ xs) ys h k = (h.0, Laid-append xs ys h.1 k)

added_has :
    (a : Appender) (b : Bool) (its : List FormatItem)
    → has_layout a ≡ b
    → has_layout (if b then a else record a { layout = some its }) ≡ true
added_has a true its e = e
added_has a false its e = refl

-- With a layout of its own, a logger whose appenders all have one still has after `addAppender`.
pub add_appender-Laid :
    (a : Appender) (l : Logger) (its : List FormatItem)
    → l.layout ≡ some its
    → Laid l.appenders
    → Laid (add_appender a l).appenders
unfolding add_appender Laid
add_appender-Laid a l its e h = elim (Bool-cases (has_layout a)) [
  | inl f ↦ rw f (Laid-append l.appenders (a ∷ []) h (f, tt))
  | inr f ↦ rw (f, e) (Laid-append l.appenders (record a { layout = some its } ∷ []) h (refl, tt))
]

-- An appender that is not in the list, as one that its caller owns alone, is not removed: nothing is.
unfoldable pub Absent : ℕ → List Appender → Type 0
Absent address [] = Unit
Absent address (a ∷ rest) = ((a.address == address) ≡ false) × Absent address rest

remove-Absent : (address : ℕ) (xs : List Appender) → Absent address xs → remove address xs ≡ xs
unfolding remove Absent
remove-Absent address [] h = refl
remove-Absent address (x ∷ xs) h = rw h.0 (ap (λ r. x ∷ r) (remove-Absent address xs h.1))

-- `delAppender` takes over a pointer that owns its appender alone, so that the list has none at that
-- address; then it changes nothing.
pub del_appender-Absent :
    (a : Appender) (l : Logger) → Absent a.address l.appenders → del_appender a l ≡ l
unfolding del_appender
del_appender-Absent a l h = rw (remove-Absent a.address l.appenders h) refl

module _ (p : Platform) where
  one_share :
      (a : Appender) (e : Event) (w : Output)
      → has_layout a ≡ true
      → append_log p a e w ≡ some (w ++ share p a e)
  unfolding append_log
  one_share a e w h = elim (Option-cases a.layout) [
    | inl f ↦ absurd (ground arith)
    | inr (its, f) ↦ elim (Bool-cases (at_least e.level a.level)) [
      | inr g ↦ rw (f, g) (ap some (sym (append-nil w)))
      | inl g ↦ elim (Bool-cases a.is_open) [
        | inl k ↦ rw (f, g, k) refl
        | inr k ↦ rw (f, g, k) (ap some (sym (append-nil w)))
      ]
    ]
  ]

  log_all-Laid :
      (xs : List Appender) (e : Event) (w : Output)
      → Laid xs
      → log_all p xs e w ≡ some (w ++ shares p xs e)
  unfolding log_all Laid shares
  log_all-Laid [] e w h = ap some (sym (append-nil w))
  log_all-Laid (x ∷ xs) e w h =
      rw (log_all, one_share x e w h.0)
        (log_all-Laid xs e (w ++ share p x e) h.1
          ∙ ap some (append_assoc w (share p x e) (shares p xs e)))

  -- A valid logger whose appenders have layouts writes an event once to each open appender of a level
  -- not above the event's, in the order in which they were added.
  pub log-shares :
      (l : Logger) (e : Event) (w : Output)
      → l.valid ≡ some true
      → Laid l.appenders
      → log p l e w ≡ some (true, w ++ shares p l.appenders e)
  unfolding log
  log-shares l e w v h =
      ap
        (λ b. elim b [
          | none ↦ none
          | some false ↦ some (false, w)
          | some true ↦ elim (log_all p l.appenders e w) [ none ↦ none | some w' ↦ some (true, w') ]
        ])
        v
      ∙ ap (λ r. elim r [ none ↦ none | some w' ↦ some (true, w') ])
          (log_all-Laid l.appenders e w h)

  pub log_invalid :
      (l : Logger) (e : Event) (w : Output) → l.valid ≡ some false → log p l e w ≡ some (false, w)
  unfolding log
  log_invalid l e w v = rw v refl

  pub passes_at :
      (l : Logger) (m lvl : Level)
      → l.level ≡ some m
      → passes l lvl ≡ some (leb (value m) (value lvl))
  unfolding passes
  passes_at l m lvl e = rw e refl

  -- If the root logger itself is not valid, and its level lets errors pass, the destructor never
  -- returns: whatever depth of recursion is allowed, it is used up.
  pub close_warp_diverges :
      (n : ℕ) (err : Event) (root l : Logger) (e : Event) (w : Output) (lvl : Level)
      → l.valid ≡ some false
      → root.valid ≡ some false
      → root.level ≡ some lvl
      → leb (value lvl) (value Level.error) ≡ true
      → close_warp p err n root l e w ≡ some none
  unfolding close_warp
  close_warp_diverges zero err root l e w lvl iv rv rl f = refl
  close_warp_diverges (suc n) err root l e w lvl iv rv rl f =
      rw (close_warp, log_invalid l e w iv, passes_at root lvl Level.error rl, f)
        (rw (close_warp_diverges n err root root err w lvl rv rv rl f) refl)
