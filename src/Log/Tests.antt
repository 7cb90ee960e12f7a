-- ===== src/Log/Tests.antt =====
-- The theorems about logging at concrete values.
use qc.Base.{ℕ, ◌≡◌, refl, true, some, List, [], ◌∷◌}
use qc.Log.{Level, Event}
use qc.Log.Layout.{text, tab, Platform, finished, para_error, out_of_bounds, init}
use qc.Log.Layout.RoundTrip.{
  Piece, print, items, last_items, Printable, read-print, read-print_open,
}
use qc.Log.Logger.{Appender, Logger, console_appender, new_logger, set_valid, set_level}
use qc.Log.Macro.{Site}

abbrev echo : Platform
echo = record { decimal = λ n. n ∷ []; local_time = λ f t. f }

-- "id=%T%d{%H}." in two pieces
abbrev two_pieces : List Piece
two_pieces =
    record { before = b'i' ∷ b'd' ∷ b'=' ∷ []; letter = b'T'; para = [] }
    ∷ record { before = []; letter = b'd'; para = b'%' ∷ b'H' ∷ [] }
    ∷ []

read-print_example :
    init (print two_pieces (b'.' ∷ [])) ≡ items two_pieces (last_items (b'.' ∷ []), finished)
unfolding Printable print
read-print_example =
    read-print two_pieces (b'.' ∷ []) ((refl, (refl, (refl, tt))), refl, (tt, (refl, tt), tt))
      (refl, tt)

read-print_open_example :
    (init (print two_pieces (b'a' ∷ b'%' ∷ b'd' ∷ b'{' ∷ []))
      ≡ items two_pieces (text (b'a' ∷ []) ∷ [], out_of_bounds))
    × (init (print two_pieces (b'a' ∷ b'%' ∷ b'd' ∷ b'{' ∷ b'x' ∷ b'y' ∷ []))
        ≡ items two_pieces (text (b'a' ∷ []) ∷ [], para_error))
unfolding Printable print
read-print_open_example =
    read-print_open two_pieces (b'a' ∷ []) b'd' b'x' (b'y' ∷ [])
      ((refl, (refl, (refl, tt))), refl, (tt, (refl, tt), tt))
      ((refl, (refl, (refl, tt))), refl, (tt, (refl, tt), tt)) (refl, tt) (refl, tt)

abbrev to_console : Appender
to_console = record (console_appender 4 Level.info) { layout = some (tab ∷ []) }

abbrev service : Logger
service = record (new_logger (b's' ∷ [])) { appenders = to_console ∷ []; layout = some (tab ∷ []) }

abbrev warning : Event
warning = record {
  filename = b'f' ∷ [];
  level = Level.warn;
  line = 1;
  thread_id = 2;
  thread_name = [];
  coroutine_id = 0;
  elapse = 0;
  time = 9;
  name = b's' ∷ [];
  ss = b'm' ∷ [];
}

abbrev here : Site
here = record {
  file = b'f' ∷ [];
  line = 1;
  thread_id = 2;
  thread_name = [];
  coroutine_id = 0;
  now = 9;
}

abbrev root_logger : Logger
root_logger = set_level Level.debug (set_valid true service)

abbrev name_a : List ℕ
name_a = b'a' ∷ []

abbrev name_b : List ℕ
name_b = b'b' ∷ []
