-- ===== src/Util/Glob/Literal.antt =====
-- `stringmatchlen` of util.c with a pattern in which every byte stands for itself.
use project.Prelude.{
  ℕ, zero, suc, ◌+◌, ◌<◌, ◌≡◌, refl, ◌≢◌, Bool, true, false, ◌&&◌, some, [], ◌∷◌, ◌++◌,
  if◌then◌else◌, arith, length, ◌∙◌, map, ◌↔◌,
}
use project.Prelude.Int.{ℤ, pos}
use project.Util.{Bytes, tolower}
use project.Util.Glob.{
  match_loop, match_step, same_char, string_match_len, skip_stars, match_char, is_zero, next,
  answer,
}

abbrev pub IsPlain : ℕ → Type 0
IsPlain a = (a ≢ 0) × (a ≢ b'*') × (a ≢ b'?') × (a ≢ b'[') × (a ≢ b'\\')

abbrev pub AllPlain : Bytes → Type 0
AllPlain [] = Unit
AllPlain (a ∷ p) = IsPlain a × AllPlain p

-- The text with its letters in lower case, where case is not to count.
abbrev pub folded : Bool → Bytes → Bytes
folded true s = map tolower s
folded false s = s

-- Equality of texts, as the loop finds it.
same_text : Bool → Bytes → Bytes → Bool
same_text nocase [] [] = true
same_text nocase [] (c ∷ s) = false
same_text nocase (a ∷ p) [] = false
same_text nocase (a ∷ p) (c ∷ s) = same_char nocase a c && same_text nocase p s

plain_step :
    (nocase : Bool) (a : ℕ) (p : Bytes) (len : ℤ) (c : ℕ) (s : Bytes) (slen : ℤ)
    → IsPlain a
    → match_step nocase (a ∷ p) len (c ∷ s) slen ≡ match_char nocase (a ∷ p) len (c ∷ s) slen
unfolding match_step
plain_step nocase a p len c s slen plain = ground arith

-- A byte of the pattern is not the terminator of the string.
at_end :
    (nocase : Bool) (a : ℕ) (p : Bytes) (len slen : ℤ)
    → IsPlain a
    → match_step nocase (a ∷ p) len (0 ∷ []) slen ≡ answer false
unfolding match_char same_char tolower
at_end nocase a p len slen plain = plain_step nocase a p len 0 [] slen plain ∙ ground arith

at_char :
    (nocase : Bool) (a : ℕ) (p : Bytes) (n c : ℕ) (s : Bytes) (m : ℕ)
    → IsPlain a
    → match_step nocase (a ∷ p) (pos (suc n)) (c ∷ s) (pos (suc m))
      ≡ (if same_char nocase a c then next p (pos n) s (pos m) else answer false)
unfolding match_char
at_char nocase a p n c s m plain = plain_step nocase a p (pos (suc n)) c s (pos (suc m)) plain

no_stars : (p : Bytes) → AllPlain p → skip_stars (p ++ 0 ∷ []) (pos (length p)) ≡ pos (length p)
unfolding skip_stars
no_stars [] all = refl
no_stars (a ∷ p) all = ground arith

same_text-nil : (nocase : Bool) (p : Bytes) → is_zero (pos (length p)) ≡ same_text nocase p []
unfolding same_text
same_text-nil nocase [] = refl
same_text-nil nocase (a ∷ p) = refl

match_loop-same_text :
    (nocase : Bool) (p s : Bytes) (fuel : ℕ)
    → AllPlain p
    → length p < fuel
    → match_loop fuel nocase (p ++ 0 ∷ []) (pos (length p)) (s ++ 0 ∷ []) (pos (length s))
      ≡ some (same_text nocase p s)
unfolding match_loop same_text
match_loop-same_text nocase p s zero all h = absurd (omega arith)
match_loop-same_text nocase [] [] (suc fuel) all h = refl
match_loop-same_text nocase [] (c ∷ s) (suc fuel) all h = refl
match_loop-same_text nocase (a ∷ p) [] (suc fuel) (plain, all) h =
    ground (arith, at_end nocase a (p ++ 0 ∷ []) (pos (suc (length p))) (pos 0) plain)
match_loop-same_text nocase (a ∷ p) (c ∷ []) (suc fuel) (plain, all) h = ground (
  arith,
  at_char nocase a (p ++ 0 ∷ []) (length p) c (0 ∷ []) 0 plain,
  no_stars p all,
  same_text-nil nocase p,
)
match_loop-same_text nocase (a ∷ p) (c ∷ d ∷ s) (suc fuel) (plain, all) h =
    let ih = match_loop-same_text nocase p (d ∷ s) fuel all (omega arith) in
    ground (
      arith,
      ih,
      at_char nocase a (p ++ 0 ∷ []) (length p) c (d ∷ s ++ 0 ∷ []) (suc (length s)) plain,
    )

same_text-true :
    (nocase : Bool) (p s : Bytes)
    → (same_text nocase p s ≡ true) ↔ (folded nocase p ≡ folded nocase s)
unfolding same_text same_char
same_text-true true [] [] = (λ h. refl, λ h. refl)
same_text-true false [] [] = (λ h. refl, λ h. refl)
same_text-true true [] (c ∷ s) = (λ h. cc, λ h. cc)
same_text-true false [] (c ∷ s) = (λ h. cc, λ h. cc)
same_text-true true (a ∷ p) [] = (λ h. cc, λ h. cc)
same_text-true false (a ∷ p) [] = (λ h. cc, λ h. cc)
same_text-true true (a ∷ p) (c ∷ s) =
    let ih = same_text-true true p s in (λ h. ground (arith, ih, h), λ h. ground (arith, ih, h))
same_text-true false (a ∷ p) (c ∷ s) =
    let ih = same_text-true false p s in (λ h. ground (arith, ih, h), λ h. ground (arith, ih, h))

-- A pattern of bytes that stand for themselves gets an answer with every text, and matches those
-- that are equal to it, up to the case of letters where case is not to count, and no other.
pub string_match_len-folded :
    (nocase : Bool) (p s : Bytes)
    → AllPlain p
    → (b : Bool) × (string_match_len p s nocase ≡ some b)
      × ((b ≡ true) ↔ (folded nocase p ≡ folded nocase s))
unfolding string_match_len
string_match_len-folded nocase p s all = (
  same_text nocase p s,
  match_loop-same_text nocase p s (length p + 2) all (omega arith),
  same_text-true nocase p s,
)
