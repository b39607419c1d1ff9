-- ===== src/Dict/Iterator.antt =====
-- The iterators of dict.c. The fingerprint of an unsafe one is left out: it is made of addresses.
pub mod Places
pub mod Walk
use project.Prelude.{
  ℕ, zero, suc, ◌+◌, ◌-◌, Bool, true, false, not, ◌&&◌, Option, none, some, [], ◌∷◌, ltb,
  if◌then◌else◌,
}
use project.Dict.{Chain, Table, Dict, bucket, is_rehashing}

-- dictIterator: `index` is `none` for -1, and `next_entry` holds the chain behind `entry`.
pub record DictIterator {ℓ} (K V : Type ℓ) : Type ℓ where
  pub table : Bool
  pub index : Option ℕ
  pub safe : Bool
  pub entry : Option (K × V)
  pub next_entry : Chain K V

-- Where a round finds its entry: the iterator before it, and the chain, or the end.
pub data Place {ℓ} (K V : Type ℓ) : Type ℓ where
  at_chain : DictIterator K V → Chain K V → Place K V
  at_end : DictIterator K V → Place K V

module _ {ℓ} {K V : Type ℓ} where
  -- dictGetIterator and dictGetSafeIterator.
  unfoldable pub get_iterator : Bool → DictIterator K V
  get_iterator safe = record {
    table = false;
    index = none;
    safe = safe;
    entry = none;
    next_entry = [];
  }

  abbrev pub table_at : Dict K V → Bool → Table K V
  table_at d second = if second then d.ht1 else d.ht0

  -- The next index; past the first table of two the iterator goes over to the second.
  pub advance : Dict K V → DictIterator K V → Place K V
  advance d it =
      let i : ℕ = elim (it.index) [ none ↦ 0 | some i ↦ i + 1 ] in
      if ltb i (table_at d it.table).size
      then at_chain (record it { index = some i }) (bucket (table_at d it.table) i)
      else if is_rehashing d && not it.table
      then at_chain (record it { table = true; index = some 0 }) (bucket d.ht1 0)
      else at_end (record it { index = some i })

  abbrev pub take_entry : DictIterator K V → K × V → Chain K V → DictIterator K V
  take_entry it e c = record it { entry = some e; next_entry = c }

  -- The rounds of dictNext from a place with no entry: up to the next chain that is not empty.
  pub advance_loop : ℕ → Dict K V → DictIterator K V → Option (DictIterator K V × Option (K × V))
  unfolding advance
  advance_loop zero d it = none
  advance_loop (suc fuel) d it = elim (advance d it) [
    | at_end it' ↦ some (record it' { entry = none }, none)
    | at_chain it' [] ↦ advance_loop fuel d (record it' { entry = none })
    | at_chain it' (e ∷ c) ↦ some (take_entry it' e c, some e)
  ]

  -- A safe iterator counts itself when it starts, so that no step of rehashing is made under it.
  pub start : Dict K V → DictIterator K V → Dict K V
  start d it = elim (it.index) [
    | some i ↦ d
    | none ↦ if it.safe && not it.table then record d { iterators = d.iterators + 1 } else d
  ]

  -- dictNext: the dictionary, the iterator and the entry.
  pub next : Dict K V → DictIterator K V → Option (Dict K V × DictIterator K V × Option (K × V))
  unfolding advance_loop start
  next d it =
      let fuel = d.ht0.size + d.ht1.size + 2 in
      elim (it.entry) [
        | none ↦ elim (advance_loop fuel (start d it) it) [
          | none ↦ none
          | some (it', e) ↦ some (start d it, it', e)
        ]
        | some e ↦ elim (it.next_entry) [
          | e' ∷ c ↦ some (d, take_entry it e' c, some e')
          | [] ↦ elim (advance_loop fuel d (record it { entry = none })) [
            | none ↦ none
            | some (it', e') ↦ some (d, it', e')
          ]
        ]
      ]

  -- dictReleaseIterator, of the dictionary.
  pub release_iterator : Dict K V → DictIterator K V → Dict K V
  release_iterator d it = elim (it.index) [
    | none ↦ if it.safe && it.table then record d { iterators = d.iterators - 1 } else d
    | some i ↦ if it.safe then record d { iterators = d.iterators - 1 } else d
  ]

  -- A caller's loop over dictNext: the entries that it gives, in order, and the dictionary after
  -- the iterator is released.
  unfoldable pub iterate : ℕ → Dict K V → DictIterator K V → Option (Dict K V × Chain K V)
  unfolding next release_iterator
  iterate zero d it = none
  iterate (suc fuel) d it = elim (next d it) [
    | none ↦ none
    | some (d', it', none) ↦ some (release_iterator d' it', [])
    | some (d', it', some e) ↦ elim (iterate fuel d' it') [
      | none ↦ none
      | some (d'', es) ↦ some (d'', e ∷ es)
    ]
  ]
