-- ===== src/LogConfig/Equality.antt =====
-- include/qc/config/log_config.h: what the comparison of two configurations finds.
use qc.Base.{
  ℕ, ◌≡◌, refl, sym, ap, ◌∙◌, Bool, true, false, ◌&&◌, ◌==◌, ==_iff, Option, none, some, List, [],
  ◌∷◌, if◌then◌else◌, length, same, same_eq, arith,
}
use qc.Log.{Level, value}
use qc.LogConfig.{AppenderConfig, LogConfig}
use qc.LogConfig.Configured.{equal_level, equal_appender, equal_members, equal_config}

and-left : (a b : Bool) → (a && b) ≡ true → a ≡ true
and-left true b h = refl
and-left false b h = cc

and-right : (a b : Bool) → (a && b) ≡ true → b ≡ true
and-right true b h = h
and-right false b h = cc

-- The enumerator of a value.
level_at : ℕ → Level
level_at n =
    if n == 0
    then Level.unknow
    else if n == 1
    then Level.debug
    else if n == 2
    then Level.info
    else if n == 3
    then Level.warn
    else if n == 4
    then Level.error
    else Level.fatal

level_at-value : (a : Level) → level_at (value a) ≡ a
unfolding level_at
level_at-value Level.unknow = refl
level_at-value Level.debug = refl
level_at-value Level.info = refl
level_at-value Level.warn = refl
level_at-value Level.error = refl
level_at-value Level.fatal = refl

equal_level-eq : (a b : Option Level) → equal_level a b ≡ true → a ≡ b
equal_level-eq none b h = absurd (cc)
equal_level-eq (some a) none h = absurd (cc)
equal_level-eq (some a) (some b) h =
    ap some
      (sym (level_at-value a) ∙ ap level_at ((==_iff (value a) (value b)).0 h) ∙ level_at-value b)

equal_appender-eq : (a b : AppenderConfig) → equal_appender a b ≡ true → a ≡ b
equal_appender-eq a b h =
    let rest = and-right (same a.type b.type) _ h in
    let texts = and-right (equal_level a.level b.level) _ rest in
    let types = same_eq a.type b.type (and-left (same a.type b.type) _ h) in
    let levels = equal_level-eq a.level b.level (and-left (equal_level a.level b.level) _ rest) in
    let patterns = same_eq a.pattern b.pattern (and-left (same a.pattern b.pattern) _ texts) in
    let files = same_eq a.filename b.filename (and-right (same a.pattern b.pattern) _ texts) in
    λ j. record { type = types j; level = levels j; pattern = patterns j; filename = files j }

equal_members-eq :
    (xs ys : List AppenderConfig) → length xs ≡ length ys → equal_members xs ys ≡ true → xs ≡ ys
equal_members-eq [] [] l h = refl
equal_members-eq [] (y ∷ ys) l h = absurd (omega (arith, l))
equal_members-eq (x ∷ xs) [] l h = absurd (omega (arith, l))
equal_members-eq (x ∷ xs) (y ∷ ys) l h =
    ap (λ z. z ∷ xs) (equal_appender-eq x y (and-left (equal_appender x y) _ h))
    ∙ ap (λ zs. y ∷ zs)
        (equal_members-eq xs ys (omega (arith, l)) (and-right (equal_appender x y) _ h))

-- Where `operator==` finds no difference there is none.
pub equal_config-eq : (a b : LogConfig) → equal_config a b ≡ true → a ≡ b
equal_config-eq a b h =
    let rest = and-right (equal_level a.level b.level) _ h in
    let lists = and-right (same a.pattern b.pattern) _ rest in
    let levels = equal_level-eq a.level b.level (and-left (equal_level a.level b.level) _ h) in
    let patterns = same_eq a.pattern b.pattern (and-left (same a.pattern b.pattern) _ rest) in
    let sizes = and-left (length a.appenders == length b.appenders) _ lists in
    let members =
      equal_members-eq a.appenders b.appenders
        ((==_iff (length a.appenders) (length b.appenders)).0 sizes)
        (and-right (length a.appenders == length b.appenders) _ lists) in
    λ j. record { level = levels j; pattern = patterns j; appenders = members j }
