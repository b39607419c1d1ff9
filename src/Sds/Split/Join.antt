-- ===== src/Sds/Split/Join.antt =====
-- The tokens of `sdssplitlen` of sds.c, put together again.
use project.Prelude.{
  ℕ, zero, suc, ◌≡◌, refl, true, List, [], ◌∷◌, ◌++◌, leb, length, take, drop, arith, ap, sym, ◌∙◌,
  Bool-cases, inl, inr, take-append-drop,
}
use mathlib.Core.List.{append_assoc}
use project.Sds.{Bytes}
use project.Sds.Split.{starts_with, split_loop}

starts_with-take : (sep s : Bytes) → starts_with sep s ≡ true → take (length sep) s ≡ sep
unfolding starts_with
starts_with-take [] s h = refl
starts_with-take (c ∷ sep) [] h = absurd (cc)
starts_with-take (c ∷ sep) (b ∷ s) h = ground (arith, starts_with-take sep s)

starts_with_split : (sep s : Bytes) → starts_with sep s ≡ true → sep ++ drop (length sep) s ≡ s
starts_with_split sep s h =
    ap (λ x. x ++ drop (length sep) s) (sym (starts_with-take sep s h))
    ∙ take-append-drop (length sep) s

-- The tokens with the separator between them.
unfoldable pub join : Bytes → List Bytes → Bytes
join sep [] = []
join sep (t ∷ []) = t
join sep (t ∷ u ∷ ts) = t ++ (sep ++ join sep (u ∷ ts))

split_loop-cons :
    (fuel : ℕ) (sep current s : Bytes)
    → (t : Bytes) × (ts : List Bytes) × (split_loop fuel sep current s ≡ t ∷ ts)
unfolding split_loop
split_loop-cons zero sep current s = (current ++ s, [], refl)
split_loop-cons (suc fuel) sep current s = elim (Bool-cases (leb (length sep) (length s))) [
  | inr short ↦ (current ++ s, [], ground (arith, short))
  | inl long ↦ elim (Bool-cases (starts_with sep s)) [
    | inl here ↦ (current, split_loop fuel sep [] (drop (length sep) s), ground (arith, long, here))
    | inr further ↦
        let (t, ts, e) = split_loop-cons fuel sep (current ++ take 1 s) (drop 1 s) in
        (t, ts, ground (arith, long, further, e))
  ]
]

join-cons :
    (sep current : Bytes) (ts : List Bytes) (t : Bytes) (us : List Bytes)
    → ts ≡ t ∷ us
    → join sep (current ∷ ts) ≡ current ++ (sep ++ join sep ts)
unfolding join
join-cons sep current ts t us e = rw e

pub join-split_loop :
    (fuel : ℕ) (sep current s : Bytes) → join sep (split_loop fuel sep current s) ≡ current ++ s
unfolding split_loop join
join-split_loop zero sep current s = refl
join-split_loop (suc fuel) sep current s = elim (Bool-cases (leb (length sep) (length s))) [
  | inr short ↦ rw (short, split_loop)
  | inl long ↦ elim (Bool-cases (starts_with sep s)) [
    | inl here ↦
        let rest : Bytes = drop (length sep) s in
        let (t, ts, e) = split_loop-cons fuel sep [] rest in
        rw (long, here, split_loop)
          (join-cons sep current (split_loop fuel sep [] rest) t ts e
            ∙ ap (λ x. current ++ (sep ++ x)) (join-split_loop fuel sep [] rest)
            ∙ ap (λ x. current ++ x) (starts_with_split sep s here))
    | inr further ↦
        rw (long, further, split_loop)
          (join-split_loop fuel sep (current ++ take 1 s) (drop 1 s)
            ∙ append_assoc current (take 1 s) (drop 1 s)
            ∙ ap (λ x. current ++ x) (take-append-drop 1 s))
  ]
]
