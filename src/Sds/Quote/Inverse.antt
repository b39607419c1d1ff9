-- ===== src/Sds/Quote/Inverse.antt =====
-- Writing a string with `sdscatrepr` and splitting the line with `sdssplitargs`, of sds.c.
use project.Prelude.{
  ℕ, zero, suc, ◌+◌, ◌*◌, ◌/◌, ◌%◌, ◌≤◌, ◌<◌, ◌≡◌, refl, ◌≢◌, true, false, ◌||◌, some, List, [],
  ◌∷◌, ◌++◌, ◌==◌, length, arith, ap, sym, ◌∙◌, Bool-cases, inl, inr, length-append,
}
use mathlib.Core.List.{append_assoc, append-nil}
use project.Sds.{Bytes}
use project.Sds.Quote.{
  is_print, hex_char, repr_char, repr_loop, cat_repr, is_hex_digit, hex_digit_to_int, escaped, at,
  Quoting, double, bare, more, done, step_on, close, double_round, bare_round, round, token,
  skip_blanks, args_loop, split_args,
}

hex_char_lem :
    (n : ℕ) → n < 16 → (is_hex_digit (hex_char n) ≡ true) × (hex_digit_to_int (hex_char n) ≡ n)
unfolding is_hex_digit hex_digit_to_int hex_char
hex_char_lem n h = ground arith

-- The three forms of an encoded byte, read inside double quotes.
read_escape :
    (e : ℕ) (r cur : Bytes)
    → e ≢ b'x'
    → e ≢ 0
    → round double (b'\\' ∷ e ∷ r) cur ≡ more double r (cur ++ escaped e ∷ [])
unfolding double_round round
read_escape e r cur nx nz = ground arith

read_plain :
    (c : ℕ) (r cur : Bytes)
    → c ≢ b'\\'
    → c ≢ b'"'
    → c ≢ 0
    → round double (c ∷ r) cur ≡ more double r (cur ++ c ∷ [])
unfolding double_round round
read_plain c r cur nb nq nz = ground arith

read_hex :
    (h l : ℕ) (r cur : Bytes)
    → is_hex_digit h ≡ true
    → is_hex_digit l ≡ true
    → round double (b'\\' ∷ b'x' ∷ h ∷ l ∷ r) cur
      ≡ more double r (cur ++ (hex_digit_to_int h * 16 + hex_digit_to_int l) ∷ [])
unfolding round
read_hex h l r cur eh el = rw (double_round, eh, el)

module _ (c : ℕ) (r cur : Bytes) where
  abbrev Reads : Type 0
  Reads = round double (repr_char c ++ r) cur ≡ more double r (cur ++ c ∷ [])

  from_escape : (e : ℕ) → repr_char c ≡ b'\\' ∷ e ∷ [] → e ≢ b'x' → e ≢ 0 → escaped e ≡ c → Reads
  from_escape e form nx nz same =
      rw form (read_escape e r cur nx nz ∙ ap (λ b. more double r (cur ++ b ∷ [])) same)

  from_hex :
      c < 256 → repr_char c ≡ b'\\' ∷ b'x' ∷ hex_char (c / 16) ∷ hex_char (c % 16) ∷ [] → Reads
  from_hex small form =
      let hi = hex_char_lem (c / 16) (omega arith) in
      let lo = hex_char_lem (c % 16) (omega arith) in
      let value : hex_digit_to_int (hex_char (c / 16)) * 16 + hex_digit_to_int (hex_char (c % 16))
          ≡ c =
        omega (arith, hi.1, lo.1) in
      rw form (
        read_hex (hex_char (c / 16)) (hex_char (c % 16)) r cur hi.0 lo.0
        ∙ ap (λ b. more double r (cur ++ b ∷ [])) value)

  from_letter : (e : ℕ) → repr_char c ≡ b'\\' ∷ e ∷ [] → b'a' ≤ e → e < b'x' → escaped e ≡ c → Reads
  from_letter e form lo hi same = from_escape e form (omega arith) (omega arith) same

  -- Reading the encoding of a byte gives the byte.
  read_repr : c < 256 → Reads
  unfolding repr_char escaped
  read_repr small = elim (Bool-cases (c == b'\\' || c == b'"')) [
    | inl t ↦ from_escape c (ground arith) (ground arith) (ground arith) (ground arith)
    | inr t ↦ elim (Bool-cases (c == 10)) [
      | inl t₁ ↦ from_letter b'n' (ground arith) (omega arith) (omega arith) (ground arith)
      | inr t₁ ↦ elim (Bool-cases (c == 13)) [
        | inl t₂ ↦ from_letter b'r' (ground arith) (omega arith) (omega arith) (ground arith)
        | inr t₂ ↦ elim (Bool-cases (c == 9)) [
          | inl t₃ ↦ from_letter b't' (ground arith) (omega arith) (omega arith) (ground arith)
          | inr t₃ ↦ elim (Bool-cases (c == 7)) [
            | inl t₄ ↦ from_letter b'a' (ground arith) (omega arith) (omega arith) (ground arith)
            | inr t₄ ↦ elim (Bool-cases (c == 8)) [
              | inl t₅ ↦ from_letter b'b' (ground arith) (omega arith) (omega arith) (ground arith)
              | inr t₅ ↦ elim (Bool-cases (is_print c)) [
                | inl t₆ ↦
                    let form : repr_char c ≡ c ∷ [] = ground arith in
                    rw form (read_plain c r cur (ground arith) (ground arith) (ground arith))
                | inr t₆ ↦ from_hex small (ground arith)
              ]
            ]
          ]
        ]
      ]
    ]
  ]

length-repr_char : (c : ℕ) → 1 ≤ length (repr_char c)
unfolding repr_char
length-repr_char c = ground arith

-- All bytes of a string.
abbrev pub AllBytes : Bytes → Type 0
AllBytes [] = Unit
AllBytes (c ∷ p) = (c < 256) × AllBytes p

token_more :
    (fuel : ℕ) (q : Quoting) (p cur : Bytes) (q' : Quoting) (p' cur' : Bytes)
    → round q p cur ≡ more q' p' cur'
    → token (suc fuel) q p cur ≡ token fuel q' p' cur'
unfolding token
token_more fuel q p cur q' p' cur' e = ground (arith, e)

token_done :
    (fuel : ℕ) (q : Quoting) (p cur p' cur' : Bytes)
    → round q p cur ≡ done p' cur'
    → token (suc fuel) q p cur ≡ some (p', cur')
unfolding token
token_done fuel q p cur p' cur' e = ground (arith, e)

close_lem : (cur : Bytes) → round double (b'"' ∷ []) cur ≡ done [] cur
unfolding round double_round close step_on
close_lem cur = refl

-- The token behind the opening quote, with any fuel that the bytes ask for.
token-repr_loop :
    (p : Bytes) (fuel : ℕ) (cur : Bytes)
    → AllBytes p
    → length (repr_loop p) < fuel
    → token fuel double (repr_loop p ++ b'"' ∷ []) cur ≡ some ([], cur ++ p)
unfolding repr_loop
token-repr_loop p zero cur all h = absurd (omega arith)
token-repr_loop [] (suc fuel) cur all h =
    token_done fuel double (b'"' ∷ []) cur [] cur (close_lem cur)
    ∙ ap (λ x. some ([], x)) (sym (append-nil cur))
token-repr_loop (c ∷ p) (suc fuel) cur (small, all) h =
    let l = length-append (repr_char c) (repr_loop p) in
    let rest : Bytes = repr_loop p ++ b'"' ∷ [] in
    let assoc : (repr_char c ++ repr_loop p) ++ b'"' ∷ [] ≡ repr_char c ++ rest =
      append_assoc (repr_char c) (repr_loop p) (b'"' ∷ []) in
    ap (λ x. token (suc fuel) double x cur) assoc
    ∙ token_more fuel double (repr_char c ++ rest) cur double rest (cur ++ c ∷ [])
        (read_repr c rest cur small)
    ∙ token-repr_loop p fuel (cur ++ c ∷ []) all (omega (arith, l, length-repr_char c))
    ∙ ap (λ x. some ([], x)) (append_assoc cur (c ∷ []) p)

quoted : Bytes → Bytes
quoted p = b'"' ∷ (repr_loop p ++ b'"' ∷ [])

-- The token of a quoted string, from its opening quote.
token-quoted :
    (p : Bytes) → AllBytes p → token (length (quoted p) + 1) bare (quoted p) [] ≡ some ([], p)
unfolding quoted
token-quoted p all =
    let rest : Bytes = repr_loop p ++ b'"' ∷ [] in
    let n : length rest + 1 + 1 ≡ suc (suc (length rest)) = omega arith in
    let n' : length (b'"' ∷ rest) + 1 ≡ suc (suc (length rest)) = omega arith in
    let open_quote : round bare (b'"' ∷ rest) [] ≡ more double rest [] =
      unfold round bare_round in refl in
    ap (λ f. token f bare (b'"' ∷ rest) []) n'
    ∙ token_more (suc (length rest)) bare (b'"' ∷ rest) [] double rest [] open_quote
    ∙ token-repr_loop p (suc (length rest)) [] all
        (omega (arith, length-append (repr_loop p) (b'"' ∷ [])))

args_loop-token :
    (fuel : ℕ) (p p' cur : Bytes) (vector : List Bytes)
    → (at (skip_blanks p) 0 == 0) ≡ false
    → token (length (skip_blanks p) + 1) bare (skip_blanks p) [] ≡ some (p', cur)
    → args_loop (suc fuel) p vector ≡ args_loop fuel p' (vector ++ cur ∷ [])
unfolding args_loop
args_loop-token fuel p p' cur vector some_left e = ground (arith, some_left, e)

-- A string that sdscatrepr writes to an empty one is split by sdssplitargs into one argument, the
-- string.
pub split_args-cat_repr : (p : Bytes) → AllBytes p → split_args (cat_repr [] p) ≡ some (p ∷ [])
unfolding split_args cat_repr
split_args-cat_repr p all =
    let line : Bytes = quoted p in
    let n : length line + 1 ≡ suc (length line) = omega arith in
    let same : skip_blanks line ≡ line = unfold quoted skip_blanks in refl in
    let some_left : (at (skip_blanks line) 0 == 0) ≡ false = unfold quoted skip_blanks in refl in
    let t : token (length (skip_blanks line) + 1) bare (skip_blanks line) [] ≡ some ([], p) =
      rw same (token-quoted p all) in
    let last : args_loop (length line) [] (p ∷ []) ≡ some (p ∷ []) =
      unfold args_loop skip_blanks quoted in refl in
    unfold quoted in
    ap (λ f. args_loop f line []) n ∙ args_loop-token (length line) line [] p [] some_left t ∙ last
