-- ===== src/Sds/Quote.antt =====
-- `sdscatrepr`, which writes a string in quotes, and `sdssplitargs`, which splits a line into
-- arguments, of sds.c. Strings are their bytes here: sdscatlen appends. The line ends with the
-- terminator 0, which is also what is read behind the end of the list.
pub mod Inverse
use project.Prelude.{
  ℕ, zero, suc, ◌+◌, ◌-◌, ◌*◌, ◌/◌, ◌%◌, Bool, true, false, not, ◌&&◌, ◌||◌, Option, none, some,
  List, [], ◌∷◌, ◌++◌, leb, ◌==◌, if◌then◌else◌, length, drop, get_or,
}
use project.Sds.{Bytes}

-- isprint in the C locale.
abbrev pub is_print : ℕ → Bool
is_print c = leb 32 c && leb c 126

-- A digit of `%02x`.
pub hex_char : ℕ → ℕ
hex_char n = if leb n 9 then b'0' + n else b'a' + (n - 10)

-- One round of sdscatrepr.
pub repr_char : ℕ → Bytes
unfolding hex_char
repr_char c =
    if c == b'\\' || c == b'"'
    then b'\\' ∷ c ∷ []
    else if c == 10
    then b'\\' ∷ b'n' ∷ []
    else if c == 13
    then b'\\' ∷ b'r' ∷ []
    else if c == 9
    then b'\\' ∷ b't' ∷ []
    else if c == 7
    then b'\\' ∷ b'a' ∷ []
    else if c == 8
    then b'\\' ∷ b'b' ∷ []
    else if is_print c
    then c ∷ []
    else b'\\' ∷ b'x' ∷ hex_char (c / 16) ∷ hex_char (c % 16) ∷ []

pub repr_loop : Bytes → Bytes
unfolding repr_char
repr_loop [] = []
repr_loop (c ∷ p) = repr_char c ++ repr_loop p

-- sdscatrepr.
pub cat_repr : Bytes → Bytes → Bytes
unfolding repr_loop
cat_repr s p = s ++ (b'"' ∷ (repr_loop p ++ b'"' ∷ []))

pub is_hex_digit : ℕ → Bool
is_hex_digit c = leb b'0' c && leb c b'9' || leb b'a' c && leb c b'f' || leb b'A' c && leb c b'F'

pub hex_digit_to_int : ℕ → ℕ
hex_digit_to_int c =
    if leb b'0' c && leb c b'9'
    then c - b'0'
    else if leb b'a' c && leb c b'f'
    then c - b'a' + 10
    else if leb b'A' c && leb c b'F'
    then c - b'A' + 10
    else 0

-- isspace in the C locale.
abbrev pub is_space : ℕ → Bool
is_space c = c == 32 || leb 9 c && leb c 13

-- The byte that stands for an escape.
pub escaped : ℕ → ℕ
escaped c =
    if c == b'n'
    then 10
    else if c == b'r'
    then 13
    else if c == b't'
    then 9
    else if c == b'b'
    then 8
    else if c == b'a'
    then 7
    else c

abbrev pub at : Bytes → ℕ → ℕ
at p i = get_or p i 0

-- `inq`, `insq`, or neither.
pub data Quoting : Type 0 where
  double : Quoting
  single : Quoting
  bare : Quoting

-- What a round of the loop over a token does: goes on behind some bytes with the token so far, ends
-- the token, or fails.
pub data Round : Type 0 where
  more : Quoting → Bytes → Bytes → Round
  done : Bytes → Bytes → Round
  err : Round

-- `if (*p) p++` behind each round.
pub step_on : Bytes → Bytes
step_on [] = []
step_on (c ∷ p) = if c == 0 then c ∷ p else p

-- A closing quote must be followed by a space or nothing at all.
pub close : Bytes → Bytes → Round
unfolding step_on
close p current =
    if not (at p 1 == 0) && not (is_space (at p 1)) then err else done (step_on p) current

pub double_round : Bytes → Bytes → Round
unfolding is_hex_digit hex_digit_to_int escaped close step_on
double_round p current =
    if at p 0 == b'\\' && at p 1 == b'x' && is_hex_digit (at p 2) && is_hex_digit (at p 3)
    then more double (drop 4 p)
        (current ++ (hex_digit_to_int (at p 2) * 16 + hex_digit_to_int (at p 3)) ∷ [])
    else if at p 0 == b'\\' && not (at p 1 == 0)
    then more double (drop 2 p) (current ++ escaped (at p 1) ∷ [])
    else if at p 0 == b'"'
    then close p current
    else if at p 0 == 0
    then err
    else more double (drop 1 p) (current ++ at p 0 ∷ [])

pub single_round : Bytes → Bytes → Round
unfolding close step_on
single_round p current =
    if at p 0 == b'\\' && at p 1 == 39
    then more single (drop 2 p) (current ++ 39 ∷ [])
    else if at p 0 == 39
    then close p current
    else if at p 0 == 0
    then err
    else more single (drop 1 p) (current ++ at p 0 ∷ [])

pub bare_round : Bytes → Bytes → Round
unfolding step_on
bare_round p current =
    if at p 0 == 32 || at p 0 == 10 || at p 0 == 13 || at p 0 == 9 || at p 0 == 0
    then done (step_on p) current
    else if at p 0 == b'"'
    then more double (drop 1 p) current
    else if at p 0 == 39
    then more single (drop 1 p) current
    else more bare (drop 1 p) (current ++ at p 0 ∷ [])

unfoldable pub round : Quoting → Bytes → Bytes → Round
unfolding double_round single_round bare_round
round double p current = double_round p current
round single p current = single_round p current
round bare p current = bare_round p current

-- `while(!done)`: the rest of the line and the token. Each round consumes a byte, or ends.
unfoldable pub token : ℕ → Quoting → Bytes → Bytes → Option (Bytes × Bytes)
token zero q p current = none
token (suc fuel) q p current = elim (round q p current) [
  | more q' p' current' ↦ token fuel q' p' current'
  | done p' current' ↦ some (p', current')
  | err ↦ none
]

pub skip_blanks : Bytes → Bytes
skip_blanks [] = []
skip_blanks (c ∷ p) = if not (c == 0) && is_space c then skip_blanks p else c ∷ p

-- The loop over the tokens.
pub args_loop : ℕ → Bytes → List Bytes → Option (List Bytes)
unfolding skip_blanks
args_loop zero p vector = none
args_loop (suc fuel) p vector =
    let p' = skip_blanks p in
    elim (at p' 0 == 0) [
      | true ↦ some vector
      | false ↦ elim (token (length p' + 1) bare p' []) [
        | none ↦ none
        | some (p'', current) ↦ args_loop fuel p'' (vector ++ current ∷ [])
      ]
    ]

-- sdssplitargs; `none` is NULL.
unfoldable pub split_args : Bytes → Option (List Bytes)
unfolding args_loop
split_args line = args_loop (length line + 1) line []
