-- ===== src/Thread/Level.antt =====
-- src/thread/thread.cpp: the places of `run` in their order.
use qc.Base.{ℕ, ◌≤◌, ◌≡◌, ◌≢◌, refl, Bool, true, false, Option, arith}
use qc.Thread.Handshake.{Maker, Body}

module _ {F : Type 0} where
  abbrev pub level : Body F → ℕ
  level Body.unborn = 0
  level Body.entering = 1
  level Body.naming = 2
  level Body.identifying = 3
  level Body.indexing = 4
  level Body.taking = 5
  level (Body.announcing cb) = 6
  level (Body.posting cb) = 7
  level (Body.calling cb) = 8
  level Body.ending = 9
  level Body.ended = 10
  level Body.crashed = 11

  abbrev pub Carries : Option F → Body F → Type 0
  Carries cb (Body.announcing c) = c ≡ cb
  Carries cb (Body.posting c) = c ≡ cb
  Carries cb (Body.calling c) = c ≡ cb
  Carries cb _ = Unit

  abbrev pub is_posted : Body F → ℕ
  is_posted (Body.calling c) = 1
  is_posted Body.ending = 1
  is_posted Body.ended = 1
  is_posted _ = 0

abbrev pub is_constructed : Maker → ℕ
is_constructed Maker.constructed = 1
is_constructed _ = 0

abbrev pub is_begun : Maker → Bool
is_begun Maker.creating = false
is_begun Maker.failed = false
is_begun _ = true

module _ {F : Type 0} where
  pub posted-level : (b : Body F) → is_posted b ≡ 1 → 8 ≤ level b
  posted-level (Body.calling c) e = omega arith
  posted-level Body.ending e = omega arith
  posted-level Body.ended e = omega arith
  posted-level Body.unborn e = absurd (omega arith)
  posted-level Body.entering e = absurd (omega arith)
  posted-level Body.naming e = absurd (omega arith)
  posted-level Body.identifying e = absurd (omega arith)
  posted-level Body.indexing e = absurd (omega arith)
  posted-level Body.taking e = absurd (omega arith)
  posted-level (Body.announcing c) e = absurd (omega arith)
  posted-level (Body.posting c) e = absurd (omega arith)
  posted-level Body.crashed e = absurd (omega arith)

  pub not_crashed-level : (b : Body F) → b ≢ Body.crashed → level b ≤ 10
  not_crashed-level (Body.calling c) e = omega arith
  not_crashed-level Body.ending e = omega arith
  not_crashed-level Body.ended e = omega arith
  not_crashed-level Body.unborn e = omega arith
  not_crashed-level Body.entering e = omega arith
  not_crashed-level Body.naming e = omega arith
  not_crashed-level Body.identifying e = omega arith
  not_crashed-level Body.indexing e = omega arith
  not_crashed-level Body.taking e = omega arith
  not_crashed-level (Body.announcing c) e = omega arith
  not_crashed-level (Body.posting c) e = omega arith
  not_crashed-level Body.crashed e = absurd (e refl)

  pub posted-bound : (b : Body F) → is_posted b ≤ 1
  posted-bound (Body.calling c) = omega arith
  posted-bound Body.ending = omega arith
  posted-bound Body.ended = omega arith
  posted-bound Body.unborn = omega arith
  posted-bound Body.entering = omega arith
  posted-bound Body.naming = omega arith
  posted-bound Body.identifying = omega arith
  posted-bound Body.indexing = omega arith
  posted-bound Body.taking = omega arith
  posted-bound (Body.announcing c) = omega arith
  posted-bound (Body.posting c) = omega arith
  posted-bound Body.crashed = omega arith
