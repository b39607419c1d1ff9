-- ===== src/Dict/Iterator/Places.antt =====
-- The places that the rounds of `dictNext` of dict.c come to.
use project.Prelude.{
  ℕ, zero, suc, ◌+◌, ◌-◌, ◌≤◌, ◌<◌, ◌≡◌, refl, Bool, true, false, not, ◌&&◌, Option, none, some,
  List, [], ◌∷◌, ◌++◌, ltb, if◌then◌else◌, length, drop, get_or, arith, ap, ◌∙◌, Bool-cases, inl,
  inr, ltb→lt, ltb→le, Option-cases,
}
use mathlib.Core.List.{append_assoc}
use project.Dict.{DictType, Chain, Dict, bucket, is_rehashing}
use project.Dict.Rehash.{IsValid}
use project.Dict.Chains.{entries}
use project.Dict.Iterator.{
  DictIterator, Place, at_chain, at_end, table_at, advance, take_entry, advance_loop,
}

-- The index that comes next.
abbrev pub first_index : Option ℕ → ℕ
first_index none = 0
first_index (some i) = i + 1

module _ {ℓ} {K V : Type ℓ} where
  entries-drop :
      (bs : List (Chain K V)) (i : ℕ)
      → i < length bs
      → entries (drop i bs) ≡ get_or bs i [] ++ entries (drop (i + 1) bs)
  unfolding entries
  entries-drop [] i h = absurd (omega arith)
  entries-drop (c ∷ bs) zero h = refl
  entries-drop (c ∷ bs) (suc i) h =
      let e : suc i + 1 ≡ suc (i + 1) = omega arith in rw e (entries-drop bs i (omega arith))

  entries_end : (bs : List (Chain K V)) (i : ℕ) → length bs ≤ i → entries (drop i bs) ≡ []
  unfolding entries
  entries_end [] zero h = refl
  entries_end [] (suc i) h = refl
  entries_end (c ∷ bs) zero h = absurd (omega arith)
  entries_end (c ∷ bs) (suc i) h = entries_end bs i (omega arith)

  -- The entries behind the chain at an index of one of the tables.
  unfoldable pub tail : Dict K V → Bool → ℕ → Chain K V
  tail d true i = entries (drop i d.ht1.buckets)
  tail d false i =
      entries (drop i d.ht0.buckets) ++ (if is_rehashing d then entries d.ht1.buckets else [])

  -- The rounds that are left.
  pub rounds : Dict K V → Bool → ℕ → ℕ
  rounds d true i = d.ht1.size - i
  rounds d false i = d.ht0.size - i + (if is_rehashing d then d.ht1.size + 1 else 0)

  place : Dict K V → DictIterator K V → Bool → ℕ → Place K V
  place d it second i =
      if ltb i (table_at d second).size
      then at_chain (record it { table = second; index = some i }) (bucket (table_at d second) i)
      else if is_rehashing d && not second
      then at_chain (record it { table = true; index = some 0 }) (bucket d.ht1 0)
      else at_end (record it { table = second; index = some i })

  advance-place :
      (d : Dict K V) (it : DictIterator K V)
      → advance d it ≡ place d it it.table (first_index it.index)
  unfolding advance place
  advance-place d it = elim (Option-cases it.index) [ inl e ↦ rw e | inr (i, e) ↦ rw e ]

module _ {ℓ} {K V : Type ℓ} ⦃type : DictType K⦄ where
  -- What a round comes to: a chain that comes next, or the end with nothing left.
  data Placed (d : Dict K V) (it : DictIterator K V) (second : Bool) (i : ℕ) : Type ℓ where
    chain :
        (second' : Bool) (j : ℕ) (c : Chain K V)
        → place d it second i ≡ at_chain (record it { table = second'; index = some j }) c
        → tail d second i ≡ c ++ tail d second' (j + 1)
        → rounds d second' (j + 1) < rounds d second i
        → Placed d it second i
    end :
        (it' : DictIterator K V)
        → place d it second i ≡ at_end it'
        → it'.safe ≡ it.safe
        → it'.index ≡ some i
        → tail d second i ≡ []
        → Placed d it second i

  placed :
      (d : Dict K V) (it : DictIterator K V) (second : Bool) (i : ℕ)
      → IsValid d
      → Placed d it second i
  unfolding place tail rounds
  placed d it true i v = elim (Bool-cases (ltb i d.ht1.size)) [
    | inl inside ↦
        let lt = ltb→lt i d.ht1.size inside in
        chain true i (bucket d.ht1 i) (rw inside)
          (entries-drop d.ht1.buckets i (omega (arith, v.second.sized))) (omega arith)
    | inr past ↦
        end (record it { table = true; index = some i }) (ground (arith, past)) refl refl
          (entries_end d.ht1.buckets i (omega (arith, v.second.sized, ltb→le i d.ht1.size past)))
  ]
  placed d it false i v = elim (Bool-cases (ltb i d.ht0.size)) [
    | inl inside ↦
        let lt = ltb→lt i d.ht0.size inside in
        chain false i (bucket d.ht0 i) (rw inside)
          (ap (λ x. x ++ (if is_rehashing d then entries d.ht1.buckets else []))
              (entries-drop d.ht0.buckets i (omega (arith, v.first.sized)))
            ∙ append_assoc (bucket d.ht0 i) (entries (drop (i + 1) d.ht0.buckets))
                (if is_rehashing d then entries d.ht1.buckets else []))
          (omega arith)
    | inr past ↦
        let gone =
          entries_end d.ht0.buckets i (omega (arith, v.first.sized, ltb→le i d.ht0.size past)) in
        elim (Option-cases d.rehashidx) [
          | inl idle ↦
              end (record it { table = false; index = some i }) (ground (arith, past, idle)) refl
                refl (ground (arith, gone, idle))
          | inr (x, moving) ↦
              let some_chain : 0 < length d.ht1.buckets =
                omega (arith, v.second.sized, (v.moving x moving).1) in
              let first = entries-drop d.ht1.buckets 0 some_chain in
              chain true 0 (bucket d.ht1 0) (ground (arith, past, moving))
                (ground (arith, gone, moving, first)) (ground (arith, moving))
        ]
  ]

  -- The entries that an iterator has not given yet, behind the chain that it stands in.
  unfoldable pub behind : Dict K V → DictIterator K V → Chain K V
  behind d it = tail d it.table (first_index it.index)

  -- What the rounds up to the next entry come to.
  pub record Given (d : Dict K V) (it : DictIterator K V) (left : Chain K V)
      (it' : DictIterator K V) (given : Option (K × V)) : Type ℓ where
    pub at_entry : it'.entry ≡ given
    pub same_safe : it'.safe ≡ it.safe
    pub started : (j : ℕ) × (it'.index ≡ some j)
    pub rest : left ≡ (elim given [ none ↦ [] | some e ↦ e ∷ (it'.next_entry ++ behind d it') ])

  abbrev pub Walked : ℕ → Dict K V → DictIterator K V → Type ℓ
  Walked fuel d it =
      (it' : DictIterator K V) × (given : Option (K × V)) × (advance_loop fuel d it
        ≡ some (it', given))
      × Given d it (behind d it) it' given

  advance_skip :
      (fuel : ℕ) (d : Dict K V) (it it' : DictIterator K V)
      → advance d it ≡ at_chain it' []
      → advance_loop (suc fuel) d it ≡ advance_loop fuel d (record it' { entry = none })
  unfolding advance_loop
  advance_skip fuel d it it' e = ground (arith, e)

  advance_take :
      (fuel : ℕ) (d : Dict K V) (it it' : DictIterator K V) (e : K × V) (c : Chain K V)
      → advance d it ≡ at_chain it' (e ∷ c)
      → advance_loop (suc fuel) d it ≡ some (take_entry it' e c, some e)
  unfolding advance_loop
  advance_take fuel d it it' e c h = ground (arith, h)

  advance_stop :
      (fuel : ℕ) (d : Dict K V) (it it' : DictIterator K V)
      → advance d it ≡ at_end it'
      → advance_loop (suc fuel) d it ≡ some (record it' { entry = none }, none)
  unfolding advance_loop
  advance_stop fuel d it it' h = ground (arith, h)

  walk_chain :
      (fuel : ℕ) (d : Dict K V) (it : DictIterator K V) (second : Bool) (j : ℕ) (c : Chain K V)
      → Walked fuel d (record it { table = second; index = some j; entry = none })
      → advance d it ≡ at_chain (record it { table = second; index = some j }) c
      → behind d it ≡ c ++ tail d second (j + 1)
      → Walked (suc fuel) d it
  unfolding behind
  walk_chain fuel d it second j [] (it', given, e, g) h left = (
    it',
    given,
    advance_skip fuel d it (record it { table = second; index = some j }) h ∙ e,
    record {
      at_entry = g.at_entry;
      same_safe = g.same_safe;
      started = g.started;
      rest = left ∙ g.rest;
    },
  )
  walk_chain fuel d it second j (e ∷ c) w h left = (
    take_entry (record it { table = second; index = some j }) e c,
    some e,
    advance_take fuel d it (record it { table = second; index = some j }) e c h,
    record { at_entry = refl; same_safe = refl; started = (j, refl); rest = left },
  )

  pub walk :
      (fuel : ℕ) (d : Dict K V) (it : DictIterator K V)
      → IsValid d
      → rounds d it.table (first_index it.index) < fuel
      → Walked fuel d it
  unfolding behind
  walk zero d it v h = absurd (omega arith)
  walk (suc fuel) d it v h = elim (placed d it it.table (first_index it.index) v) [
    | chain second j c e left less ↦
        let it₁ : DictIterator K V = record it { table = second; index = some j; entry = none } in
        walk_chain fuel d it second j c (walk fuel d it₁ v (omega arith)) (advance-place d it ∙ e)
          left
    | end it' e safe started left ↦ (
      record it' { entry = none },
      none,
      advance_stop fuel d it it' (advance-place d it ∙ e),
      record {
        at_entry = refl;
        same_safe = safe;
        started = (first_index it.index, started);
        rest = left;
      },
    )
  ]

  pub rounds-lt :
      (d : Dict K V) (second : Bool) (i : ℕ) → rounds d second i < d.ht0.size + d.ht1.size + 2
  unfolding rounds
  rounds-lt d true i = omega arith
  rounds-lt d false i = ground arith
