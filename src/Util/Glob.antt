-- ===== src/Util/Glob.antt =====
-- `stringmatchlen` of util.c, the matching of glob patterns. A pattern or string is the list of the
-- bytes from the pointer on with the terminator behind them, and its length is a C int, which the
-- source may bring below 0. `none` is a read behind the terminator, or a loop that goes on there.
pub mod Literal
use project.Prelude.{
  ℕ, zero, suc, ◌+◌, ◌-◌, Bool, true, false, not, ◌&&◌, ◌||◌, Option, none, some, List, [], ◌∷◌,
  ◌++◌, ltb, leb, ◌==◌, if◌then◌else◌, length, drop, get_elem?, get_or,
}
use project.Prelude.Int.{ℤ, pos, negsuc, ltb_ℤ}
use project.Util.{Bytes, tolower}

abbrev pub dec : ℤ → ℤ
dec (pos zero) = negsuc 0
dec (pos (suc n)) = pos n
dec (negsuc n) = negsuc (suc n)

abbrev pub is_zero : ℤ → Bool
is_zero (pos zero) = true
is_zero (pos (suc n)) = false
is_zero (negsuc n) = false

-- A char as an int.
pub char_value : ℕ → ℤ
char_value c = if ltb c 128 then pos c else negsuc (255 - c)

pub same_char : Bool → ℕ → ℕ → Bool
unfolding tolower
same_char nocase a c = if nocase then tolower a == tolower c else a == c

pub between : ℤ → ℤ → ℤ → Bool
between lo c hi = not (ltb_ℤ c lo) && not (ltb_ℤ hi c)

-- The range `start`-`end` of a class; the ends are swapped where they are the wrong way round.
pub in_range : Bool → ℕ → ℕ → ℕ → Bool
unfolding char_value tolower between
in_range nocase start end' c =
    let swap = ltb_ℤ (char_value end') (char_value start) in
    let lo = if swap then end' else start in
    let hi = if swap then start else end' in
    if nocase
    then between (char_value (tolower lo)) (char_value (tolower c)) (char_value (tolower hi))
    else between (char_value lo) (char_value c) (char_value hi)

-- A round of the loop over a class: goes on, or stops with the pattern behind the class.
pub data ClassStep : Type 0 where
  further : Bytes → ℤ → Bool → ClassStep
  stop : Bytes → ℤ → Bool → ClassStep
  class_fault : ClassStep

-- A round that reads the string's byte, `none` where the pointer is behind the terminator, and tests
-- it.
pub class_char : Option ℕ → Bytes → ℤ → Bool → (ℕ → Bool) → ClassStep
class_char none p len matched test = class_fault
class_char (some c) p len matched test = further p len (matched || test c)

pub class_step : Bool → Option ℕ → Bytes → ℤ → Bool → ClassStep
unfolding class_char same_char in_range
class_step nocase c [] len matched = class_fault
class_step nocase c (a ∷ p) len matched =
    if a == b'\\'
    then elim p [
      | [] ↦ class_fault
      | b ∷ p' ↦ class_char c p' (dec (dec len)) matched (λ k. b == k)
    ]
    else if a == b']'
    then stop p (dec len) matched
    else if is_zero len
    then stop (a ∷ p) len matched
    else if get_or p 0 0 == b'-' && ltb_ℤ (pos 2) len
    then class_char c (drop 2 p) (dec (dec (dec len))) matched (in_range nocase a (get_or p 1 0))
    else class_char c p (dec len) matched (same_char nocase a)

pub class_loop : ℕ → Bool → Option ℕ → Bytes → ℤ → Bool → Option (Bytes × ℤ × Bool)
unfolding class_step
class_loop zero nocase c p len matched = none
class_loop (suc fuel) nocase c p len matched = elim (class_step nocase c p len matched) [
  | further p' len' matched' ↦ class_loop fuel nocase c p' len' matched'
  | stop p' len' matched' ↦ some (p', len', matched')
  | class_fault ↦ none
]

-- `while (pattern[1] == '*')`: the pattern from its last star of a row on.
pub last_star : Bytes → ℤ → Bytes × ℤ
last_star [] len = ([], len)
last_star (a ∷ p) len = if get_or p 0 0 == b'*' then last_star p (dec len) else (a ∷ p, len)

-- `while(*pattern == '*')`
pub skip_stars : Bytes → ℤ → ℤ
skip_stars [] len = len
skip_stars (a ∷ p) len = if a == b'*' then skip_stars p (dec len) else len

-- What a round of the loop over the pattern comes to: both pointers moved on, an answer, or a star
-- with the pattern behind it.
pub data Step : Type 0 where
  next : Bytes → ℤ → Bytes → ℤ → Step
  answer : Bool → Step
  star : Bytes → ℤ → Step
  fault : Step

-- The case of a class, `p` and `len` behind the `[`.
pub match_class : Bool → Bytes → ℤ → Bytes → ℤ → Step
unfolding class_loop
match_class nocase p len s slen =
    let negated = get_or p 0 0 == b'^' in
    let p' = if negated then drop 1 p else p in
    let len' = if negated then dec len else len in
    elim (class_loop (length p + 1) nocase (get_elem? s 0) p' len' false) [
      | none ↦ fault
      | some (p'', len'', matched) ↦
          if (if negated then not matched else matched)
          then next p'' len'' (drop 1 s) (dec slen)
          else answer false
    ]

-- The default case, where the first byte of the pattern stands for itself.
pub match_char : Bool → Bytes → ℤ → Bytes → ℤ → Step
unfolding same_char
match_char nocase [] len s slen = fault
match_char nocase (a ∷ p) len [] slen = fault
match_char nocase (a ∷ p) len (c ∷ s) slen =
    if same_char nocase a c then next p (dec len) s (dec slen) else answer false

pub match_step : Bool → Bytes → ℤ → Bytes → ℤ → Step
unfolding last_star match_class match_char
match_step nocase [] len s slen = fault
match_step nocase (a ∷ p) len s slen =
    if a == b'*'
    then (let (p', len') = last_star (a ∷ p) len in star (drop 1 p') (dec len'))
    else if a == b'?'
    then (if is_zero slen then answer false else next p (dec len) (drop 1 s) (dec slen))
    else if a == b'['
    then match_class nocase p (dec len) s slen
    else if a == b'\\' && ltb_ℤ (pos 1) len
    then match_char nocase p (dec len) s slen
    else match_char nocase (a ∷ p) len s slen

-- `while(stringLen)`: the pattern behind the star is tried at each place of the string. Where the
-- pointer is behind the terminator and the pattern does not match there, the loop goes on over
-- places that are not the string's: `none`.
pub star_loop : (Bytes → ℤ → Option Bool) → Bytes → ℤ → Option Bool
star_loop try [] slen =
    if is_zero slen
    then some false
    else elim (try [] slen) [ none ↦ none | some true ↦ some true | some false ↦ none ]
star_loop try (c ∷ s) slen = if is_zero slen then some false else elim (try (c ∷ s) slen) [
  | none ↦ none
  | some true ↦ some true
  | some false ↦ star_loop try s (dec slen)
]

-- The loop over the pattern. Each round passes a byte of it.
pub match_loop : ℕ → Bool → Bytes → ℤ → Bytes → ℤ → Option Bool
unfolding match_step star_loop skip_stars
match_loop zero nocase p len s slen = none
match_loop (suc fuel) nocase p len s slen = elim (is_zero len) [
  | true ↦ some (is_zero slen)
  | false ↦ elim (match_step nocase p len s slen) [
    | fault ↦ none
    | answer b ↦ some b
    | star p' len' ↦ elim (is_zero len') [
      | true ↦ some true
      | false ↦ star_loop (match_loop fuel nocase p' len') s slen
    ]
    | next p' len' s' slen' ↦ elim (is_zero slen') [
      | true ↦ some (is_zero (skip_stars p' len'))
      | false ↦ match_loop fuel nocase p' len' s' slen'
    ]
  ]
]

-- stringmatchlen on strings with their terminators, as sds strings have them, and stringmatch.
unfoldable pub string_match_len : Bytes → Bytes → Bool → Option Bool
unfolding match_loop
string_match_len pattern string nocase =
    match_loop (length pattern + 2) nocase (pattern ++ 0 ∷ []) (pos (length pattern))
      (string ++ 0 ∷ []) (pos (length string))
