-- ===== src/Log/Layout.antt =====
-- src/log/layout.cpp: a pattern is read into items once, and each item writes its part of an event.
-- What is left of the pattern stands for the index `i` of the source.
pub mod Reading
pub mod RoundTrip
use qc.Base.{
  ℕ, zero, suc, Bool, true, false, Option, none, some, List, [], ◌∷◌, ◌++◌, ◌==◌, if◌then◌else◌,
  length,
}
use qc.Log.{Level, Event}

-- The derived classes of FormatItem with their members.
pub data FormatItem : Type 0 where
  text : (str : List ℕ) → FormatItem
  date_time : (time : List ℕ) → FormatItem
  name level file_name line elapse thread_id thread_name coroutine_id content : FormatItem
  new_line percent tab : FormatItem

-- "%Y-%m-%d %H:%M:%S"
abbrev pub default_time : List ℕ
default_time =
    b'%' ∷ b'Y' ∷ b'-' ∷ b'%' ∷ b'm' ∷ b'-' ∷ b'%' ∷ b'd' ∷ b' ' ∷ b'%' ∷ b'H' ∷ b':' ∷ b'%' ∷ b'M'
    ∷ b':' ∷ b'%' ∷ b'S' ∷ []

-- "<error format>"
abbrev pub error_format : List ℕ
error_format =
    b'<' ∷ b'e' ∷ b'r' ∷ b'r' ∷ b'o' ∷ b'r' ∷ b' ' ∷ b'f' ∷ b'o' ∷ b'r' ∷ b'm' ∷ b'a' ∷ b't' ∷ b'>'
    ∷ []

-- The constructor of DateTimeFormatItem.
abbrev pub new_date_time : List ℕ → FormatItem
new_date_time [] = date_time default_time
new_date_time (c ∷ cs) = date_time (c ∷ cs)

-- item_factory_map
unfoldable pub item_factory : ℕ → List ℕ → Option FormatItem
item_factory c s =
    if c == b'o'
    then some (text s)
    else if c == b'c'
    then some name
    else if c == b'p'
    then some level
    else if c == b'f'
    then some file_name
    else if c == b'l'
    then some line
    else if c == b'd'
    then some (new_date_time s)
    else if c == b'r'
    then some elapse
    else if c == b'T'
    then some thread_id
    else if c == b'N'
    then some thread_name
    else if c == b'C'
    then some coroutine_id
    else if c == b'm'
    then some content
    else if c == b'n'
    then some new_line
    else if c == b'%'
    then some percent
    else if c == b't'
    then some tab
    else none

-- The item for a letter, or the text that stands for an error.
unfoldable pub make_item : ℕ → List ℕ → FormatItem
unfolding item_factory
make_item c para = elim (item_factory c para) [ some it ↦ it | none ↦ text error_format ]

-- The search for a character: what comes before it, and what after, if it is found.
unfoldable pub find : ℕ → List ℕ → List ℕ × Option (List ℕ)
find c [] = ([], none)
find c (x ∷ xs) =
    let (before, after) = find c xs in if x == c then ([], some xs) else (x ∷ before, after)

-- How `init` ends: at the end of the pattern, by its `return`, or by a read past the terminating null
-- character. `out_of_fuel` is the model's own.
pub data Ending : Type 0 where
  finished para_error out_of_bounds out_of_fuel : Ending

-- The parameter in braces after a letter, and the rest of the pattern; `}` is looked for from the
-- second character on.
pub data Para : Type 0 where
  parameter : (str : List ℕ) (rest : List ℕ) → Para
  unclosed past_end : Para

unfoldable pub read_para : List ℕ → Para
unfolding find
read_para [] = parameter [] []
read_para (b ∷ p) =
    if b == b'{'
    then elim p [
      | [] ↦ past_end
      | x ∷ q ↦
          let (before, after) = find b'}' q in
          elim after [ some rest ↦ parameter (x ∷ before) rest | none ↦ unclosed ]
    ]
    else parameter [] (b ∷ p)

pub data Status : Type 0 where
  scan create : Status

abbrev pub item_then : FormatItem → List FormatItem × Ending → List FormatItem × Ending
item_then it (its, e) = (it ∷ its, e)

-- The loop of `init`: the items from here on and how it ends. One round takes one unit of fuel.
unfoldable pub init_loop : ℕ → Status → List ℕ → List FormatItem × Ending
unfolding make_item find read_para
init_loop n status [] = ([], finished)
init_loop zero status (c ∷ cs) = ([], out_of_fuel)
init_loop (suc n) Status.scan (c ∷ cs) =
    let (before, after) = find b'%' (c ∷ cs) in
    elim after [
      | some rest ↦ item_then (text before) (init_loop n Status.create rest)
      | none ↦ (text before ∷ [], finished)
    ]
init_loop (suc n) Status.create (c ∷ cs) = elim (read_para cs) [
  | parameter str rest ↦ item_then (make_item c str) (init_loop n Status.scan rest)
  | unclosed ↦ ([], para_error)
  | past_end ↦ ([], out_of_bounds)
]

-- The constructor of Layout, with the characters of the pattern for fuel.
unfoldable pub init : List ℕ → List FormatItem × Ending
unfolding init_loop
init pattern = init_loop (length pattern) Status.scan pattern

abbrev pub level_to_string : Level → List ℕ
level_to_string Level.debug = b'D' ∷ b'E' ∷ b'B' ∷ b'U' ∷ b'G' ∷ []
level_to_string Level.info = b'I' ∷ b'N' ∷ b'F' ∷ b'O' ∷ []
level_to_string Level.warn = b'W' ∷ b'A' ∷ b'R' ∷ b'N' ∷ []
level_to_string Level.error = b'E' ∷ b'R' ∷ b'R' ∷ b'O' ∷ b'R' ∷ []
level_to_string Level.fatal = b'F' ∷ b'A' ∷ b'T' ∷ b'A' ∷ b'L' ∷ []
level_to_string Level.unknow = b'U' ∷ b'N' ∷ b'K' ∷ b'N' ∷ b'O' ∷ b'W' ∷ b'N' ∷ []

-- What the C++ library writes: a number, and a time by `localtime_r` and `strftime` into 64 bytes.
pub record Platform : Type 0 where
  pub decimal : ℕ → List ℕ
  pub local_time : List ℕ → ℕ → List ℕ

module _ (platform : Platform) where
  open platform use {decimal, local_time}

  -- The `format` of each class.
  unfoldable pub format_item : FormatItem → Event → List ℕ
  format_item (text str) e = str
  format_item (date_time time) e = local_time time e.time
  format_item name e = e.name
  format_item level e = level_to_string e.level
  format_item file_name e = e.filename
  format_item line e = decimal e.line
  format_item elapse e = decimal e.elapse
  format_item thread_id e = decimal e.thread_id
  format_item thread_name e = e.thread_name
  format_item coroutine_id e = decimal e.coroutine_id
  format_item content e = e.ss
  format_item new_line e = b'\n' ∷ []
  format_item percent e = b'%' ∷ []
  format_item tab e = b'\t' ∷ []

  unfoldable pub layout : List FormatItem → Event → List ℕ
  unfolding format_item
  layout [] e = []
  layout (it ∷ its) e = format_item it e ++ layout its e
