-- ===== src/Sds/Split/Tokens.antt =====
-- The tokens of `sdssplitlen` of sds.c: the separator stands between them and in none of them.
use project.Prelude.{
  ℕ, zero, suc, ◌+◌, ◌≤◌, ◌<◌, ◌≡◌, refl, true, false, some, List, [], ◌∷◌, ◌++◌, leb, length,
  length-append, length-drop, take, drop, arith, ap, sym, ◌∙◌, subst, Bool-cases, inl, inr, leb→le,
  leb→lt,
}
use mathlib.Core.List.{append_assoc}
use project.Sds.{Bytes}
use project.Sds.Split.{starts_with, split_loop, split_len}
use project.Sds.Split.Join.{join, join-split_loop}

-- The separator stands somewhere in the text.
abbrev pub IsIn : Bytes → Bytes → Type 0
IsIn sep t = (a : Bytes) × (b : Bytes) × (a ++ (sep ++ b) ≡ t)

-- No token has the separator.
abbrev pub NoneHas : Bytes → List Bytes → Type 0
NoneHas sep [] = Unit {0}
NoneHas sep (t ∷ ts) = ¬ IsIn sep t × NoneHas sep ts

starts_with-append : (sep b : Bytes) → starts_with sep (sep ++ b) ≡ true
unfolding starts_with
starts_with-append [] b = refl
starts_with-append (c ∷ sep) b = ground (arith, starts_with-append sep b)

tails : (a c x s : Bytes) → a ++ x ≡ c ++ s → length a ≡ length c → x ≡ s
tails [] [] x s e l = e
tails [] (d ∷ c) x s e l = absurd (omega arith)
tails (d ∷ a) [] x s e l = absurd (omega arith)
tails (d ∷ a) (d' ∷ c) x s e l = tails a c x s (ground arith) (omega arith)

-- No separator starts in the bytes that were passed.
abbrev Passed : Bytes → Bytes → Bytes → Type 0
Passed sep current s = (a b : Bytes) → a ++ (sep ++ b) ≡ current ++ s → length current ≤ length a

module _ (sep : Bytes) (some_sep : 0 < length sep) where
  Passed-further :
      (current s : Bytes)
      → length sep ≤ length s
      → starts_with sep s ≡ false
      → Passed sep current s
      → Passed sep (current ++ take 1 s) (drop 1 s)
  Passed-further current [] fits other passed a b e = absurd (omega arith)
  Passed-further current (c ∷ s) fits other passed a b e =
      let e' : a ++ (sep ++ b) ≡ current ++ (c ∷ s) = e ∙ append_assoc current (c ∷ []) s in
      let far = passed a b e' in
      elim (Bool-cases (leb (length a) (length current))) [
        | inl here ↦
            let same = tails a current (sep ++ b) (c ∷ s) e' (ground arith) in
            cc (
              sym (subst (λ x. starts_with sep x ≡ false) (sym same) other)
              ∙ starts_with-append sep b)
        | inr later ↦ omega (arith, length-append current (c ∷ []), leb→lt _ _ later)
      ]

  token_clear : (current s : Bytes) → Passed sep current s → ¬ IsIn sep current
  token_clear current s passed (a, b, e) =
      let e' : a ++ (sep ++ (b ++ s)) ≡ current ++ s =
        ap (λ x. a ++ x) (sym (append_assoc sep b s))
        ∙ sym (append_assoc a (sep ++ b) s)
        ∙ ap (λ x. x ++ s) e in
      omega
        (arith, passed a (b ++ s) e', ap length e, length-append a (sep ++ b), length-append sep b)

  last_clear :
      (current s : Bytes) → length s < length sep → Passed sep current s → ¬ IsIn sep (current ++ s)
  last_clear current s short passed (a, b, e) = omega (
    arith,
    passed a b e,
    ap length e,
    length-append a (sep ++ b),
    length-append sep b,
    length-append current s,
  )

  split_loop-NoneHas :
      (fuel : ℕ) (current s : Bytes)
      → length s < fuel
      → Passed sep current s
      → NoneHas sep (split_loop fuel sep current s)
  unfolding split_loop
  split_loop-NoneHas zero current s enough passed = absurd (omega arith)
  split_loop-NoneHas (suc fuel) current s enough passed =
      elim (Bool-cases (leb (length sep) (length s))) [
        | inr short ↦ rw (split_loop, short) (last_clear current s (leb→lt _ _ short) passed, tt)
        | inl long ↦
            let fits = leb→le (length sep) (length s) long in
            elim (Bool-cases (starts_with sep s)) [
              | inl here ↦
                  rw (split_loop, long, here)
                    (
                      token_clear current s passed,
                      split_loop-NoneHas fuel [] (drop (length sep) s)
                          (omega (arith, length-drop (length sep) s)) (λ a b e. omega arith),
                    )
              | inr other ↦
                  rw (split_loop, long, other)
                    (split_loop-NoneHas fuel (current ++ take 1 s) (drop 1 s)
                      (omega (arith, length-drop 1 s)) (Passed-further current s fits other passed))
            ]
      ]

-- A string that is not empty, split by a separator that is not empty, gives tokens which with the
-- separator between them are the string, and none of which has the separator in it.
pub split_len-NoneHas :
    (s sep : Bytes)
    → 0 < length sep
    → 0 < length s
    → (ts : List Bytes) × (split_len s sep ≡ some ts) × (join sep ts ≡ s) × NoneHas sep ts
unfolding split_len
split_len-NoneHas s sep h h' = (
  split_loop (length s + 1) sep [] s,
  ground arith,
  join-split_loop (length s + 1) sep [] s,
  split_loop-NoneHas sep h (length s + 1) [] s (omega arith) (λ a b e. omega arith),
)
