-- ===== src/Dict/Iterator/Walk.antt =====
-- What a whole iteration with `dictNext` of dict.c visits.
use project.Prelude.{
  ℕ, zero, suc, ◌+◌, ◌-◌, ◌<◌, ◌≡◌, refl, Bool, true, false, Option, none, some, [], ◌∷◌, ◌++◌,
  if◌then◌else◌, length, arith, ap, sym, ◌∙◌, Bool-cases, inl, inr,
}
use project.Dict.{DictType, Chain, Dict, is_rehashing, no_table}
use project.Dict.Rehash.{IsValid}
use project.Dict.Chains.{entries}
use project.Dict.Iterator.{
  DictIterator, get_iterator, take_entry, advance_loop, start, next, release_iterator, iterate,
}
use project.Dict.Iterator.Places.{first_index, tail, behind, rounds, Given, walk, rounds-lt}

module _ {ℓ} {K V : Type ℓ} ⦃type : DictType K⦄ where
  -- The dictionary after a safe iterator is released.
  released : Dict K V → Bool → Dict K V
  released d safe = if safe then record d { iterators = d.iterators - 1 } else d

  release-released :
      (d : Dict K V) (it : DictIterator K V) (i : ℕ)
      → it.index ≡ some i
      → release_iterator d it ≡ released d it.safe
  unfolding release_iterator released
  release-released d it i e = rw e

  iterate_more :
      (fuel : ℕ) (d d' d'' : Dict K V) (it it' : DictIterator K V) (e : K × V) (es : Chain K V)
      → next d it ≡ some (d', it', some e)
      → iterate fuel d' it' ≡ some (d'', es)
      → iterate (suc fuel) d it ≡ some (d'', e ∷ es)
  unfolding iterate
  iterate_more fuel d d' d'' it it' e es h h' = ground (arith, h, h')

  iterate_end :
      (fuel : ℕ) (d d' : Dict K V) (it it' : DictIterator K V)
      → next d it ≡ some (d', it', none)
      → iterate (suc fuel) d it ≡ some (release_iterator d' it', [])
  unfolding iterate
  iterate_end fuel d d' it it' h = ground (arith, h)

  next_in_chain :
      (d : Dict K V) (it : DictIterator K V) (e e' : K × V) (c : Chain K V)
      → it.entry ≡ some e
      → it.next_entry ≡ e' ∷ c
      → next d it ≡ some (d, take_entry it e' c, some e')
  unfolding next
  next_in_chain d it e e' c h h' = ground (arith, h, h')

  next_chains :
      (d : Dict K V) (it it' : DictIterator K V) (e : K × V) (given : Option (K × V))
      → it.entry ≡ some e
      → it.next_entry ≡ []
      → advance_loop (d.ht0.size + d.ht1.size + 2) d (record it { entry = none })
        ≡ some (it', given)
      → next d it ≡ some (d, it', given)
  unfolding next
  next_chains d it it' e given h h' h'' = ground (arith, h, h', h'')

  -- Behind a call of `next`, where the iteration from an entry on gives what is left.
  iterate-Given :
      (fuel : ℕ) (d d₀ : Dict K V) (it it' : DictIterator K V) (given : Option (K × V))
      (left : Chain K V)
      → next d₀ it ≡ some (d, it', given)
      → Given d it left it' given
      → ((e : K × V)
          → given ≡ some e
          → iterate fuel d it' ≡ some (released d it'.safe, it'.next_entry ++ behind d it'))
      → iterate (suc fuel) d₀ it ≡ some (released d it.safe, left)
  iterate-Given fuel d d₀ it it' none left h g more =
      iterate_end fuel d₀ d it it' h
      ∙ ap (λ x. some (x, [])) (release-released d it' g.started.0 g.started.1)
      ∙ ap (λ b. some (released d b, [])) g.same_safe
      ∙ ap (λ x. some (released d it.safe, x)) (sym g.rest)
  iterate-Given fuel d d₀ it it' (some e) left h g more =
      iterate_more fuel d₀ d (released d it'.safe) it it' e (it'.next_entry ++ behind d it') h
        (more e refl)
      ∙ ap (λ b. some (released d b, e ∷ (it'.next_entry ++ behind d it'))) g.same_safe
      ∙ ap (λ x. some (released d it.safe, x)) (sym g.rest)

  shorter :
      (d : Dict K V) (it it' : DictIterator K V) (given : Option (K × V)) (e : K × V)
      (left : Chain K V) (fuel : ℕ)
      → Given d it left it' given
      → given ≡ some e
      → length left < suc fuel
      → length (it'.next_entry ++ behind d it') < fuel
  shorter d it it' none e left fuel g h l = absurd (cc)
  shorter d it it' (some e') e left fuel g h l = omega (arith, ap length g.rest)

  -- From an entry on, the iteration gives what is left.
  iterate_left :
      (fuel : ℕ) (d : Dict K V) (it : DictIterator K V) (i : ℕ) (e : K × V) (c : Chain K V)
      → IsValid d
      → it.index ≡ some i
      → it.entry ≡ some e
      → it.next_entry ≡ c
      → length (it.next_entry ++ behind d it) < fuel
      → iterate fuel d it ≡ some (released d it.safe, it.next_entry ++ behind d it)
  iterate_left zero d it i e c v hi he hc h = absurd (omega arith)
  iterate_left (suc fuel) d it i e (e' ∷ c) v hi he hc h =
      let it' : DictIterator K V = take_entry it e' c in
      let l : length (it.next_entry ++ behind d it) ≡ suc (length (c ++ behind d it)) =
        ap (λ x. length (x ++ behind d it)) hc in
      let ih = iterate_left fuel d it' i e' c v hi refl refl (unfold behind in omega (arith, l)) in
      iterate-Given fuel d d it it' (some e') (it.next_entry ++ behind d it)
        (next_in_chain d it e e' c he hc)
        (record {
          at_entry = refl;
          same_safe = refl;
          started = (i, hi);
          rest = unfold behind in ap (λ x. x ++ tail d it.table (first_index it.index)) hc;
        })
        (λ e₁ h₁. ih)
  iterate_left (suc fuel) d it i e [] v hi he hc h =
      let it₀ : DictIterator K V = record it { entry = none } in
      let (it', given, e₁, g) =
        walk (d.ht0.size + d.ht1.size + 2) d it₀ v (rounds-lt d it.table (first_index it.index)) in
      let left : it.next_entry ++ behind d it ≡ behind d it₀ =
        unfold behind in ap (λ x. x ++ tail d it.table (first_index it.index)) hc in
      let g' : Given d it (it.next_entry ++ behind d it) it' given = record {
        at_entry = g.at_entry;
        same_safe = g.same_safe;
        started = g.started;
        rest = left ∙ g.rest;
      } in
      iterate-Given fuel d d it it' given (it.next_entry ++ behind d it)
        (next_chains d it it' e given he hc e₁) g'
        (λ e₂ h₂.
          iterate_left fuel d it' g.started.0 e₂ it'.next_entry v g.started.1 (g.at_entry ∙ h₂) refl
            (shorter d it it' given e₂ (it.next_entry ++ behind d it) fuel g' h₂ h))

  next_first :
      (d d₁ : Dict K V) (it it' : DictIterator K V) (given : Option (K × V))
      → it.entry ≡ none
      → start d it ≡ d₁
      → d₁.ht0 ≡ d.ht0
      → d₁.ht1 ≡ d.ht1
      → advance_loop (d₁.ht0.size + d₁.ht1.size + 2) d₁ it ≡ some (it', given)
      → next d it ≡ some (d₁, it', given)
  unfolding next
  next_first d d₁ it it' given h e e₀ e₁ w =
      let w' : advance_loop (d.ht0.size + d.ht1.size + 2) d₁ it ≡ some (it', given) =
        ap (λ t. advance_loop (t.size + d.ht1.size + 2) d₁ it) (sym e₀)
        ∙ ap (λ t. advance_loop (d₁.ht0.size + t.size + 2) d₁ it) (sym e₁)
        ∙ w in
      ground (arith, h, e, w')

  from_start :
      (fuel : ℕ) (d d₁ : Dict K V) (safe : Bool)
      → start d (get_iterator safe) ≡ d₁
      → d₁.ht0 ≡ d.ht0
      → d₁.ht1 ≡ d.ht1
      → IsValid d₁
      → length (tail d₁ false 0) < fuel
      → iterate fuel d (get_iterator safe) ≡ some (released d₁ safe, tail d₁ false 0)
  from_start zero d d₁ safe e e₀ e₁ v h = absurd (omega arith)
  from_start (suc fuel) d d₁ safe e e₀ e₁ v h =
      let it : DictIterator K V = get_iterator safe in
      let start_entry : it.entry ≡ none = unfold get_iterator in refl in
      let same_safe : it.safe ≡ safe = unfold get_iterator in refl in
      let few : rounds d₁ it.table (first_index it.index) < d₁.ht0.size + d₁.ht1.size + 2 =
        rounds-lt d₁ it.table (first_index it.index) in
      let (it', given, w, g) = walk (d₁.ht0.size + d₁.ht1.size + 2) d₁ it v few in
      let left : behind d₁ it ≡ tail d₁ false 0 = unfold behind get_iterator in refl in
      let h' : length (behind d₁ it) < suc fuel = rw left h in
      iterate-Given fuel d₁ d it it' given (behind d₁ it)
        (next_first d d₁ it it' given start_entry e e₀ e₁ w) g
        (λ e₂ h₂.
          iterate_left fuel d₁ it' g.started.0 e₂ it'.next_entry v g.started.1 (g.at_entry ∙ h₂)
            refl (shorter d₁ it it' given e₂ (behind d₁ it) fuel g h₂ h'))
      ∙ ap (λ b. some (released d₁ b, behind d₁ it)) same_safe
      ∙ ap (λ x. some (released d₁ safe, x)) left

  all_entries :
      (d : Dict K V) → IsValid d → tail d false 0 ≡ entries d.ht0.buckets ++ entries d.ht1.buckets
  unfolding tail entries
  all_entries d v = elim (Bool-cases (is_rehashing d)) [
    | inl moving ↦ rw moving
    | inr idle ↦ let gone : d.ht1 ≡ no_table = v.idle idle in rw (idle, gone)
  ]

  counted-IsValid : (d : Dict K V) (n : ℕ) → IsValid d → IsValid (record d { iterators = n })
  counted-IsValid d n v = record {
    first = v.first;
    second = v.second;
    once = v.once;
    idle = v.idle;
    moving = v.moving;
    clear = v.clear;
  }

  -- An iteration over a valid dictionary, safe or not, with more rounds than there are entries,
  -- gives the entries of the first table and then those of the second, each of them once, and
  -- leaves the dictionary as it was when the iterator is released.
  pub iterate-entries :
      (safe : Bool) (d : Dict K V) (fuel : ℕ)
      → IsValid d
      → length (entries d.ht0.buckets ++ entries d.ht1.buckets) < fuel
      → iterate fuel d (get_iterator safe)
        ≡ some (d, entries d.ht0.buckets ++ entries d.ht1.buckets)
  iterate-entries false d fuel v h =
      from_start fuel d d false (unfold start get_iterator in refl) refl refl v
        (rw (all_entries d v) h)
      ∙ unfold released in ap (λ x. some (d, x)) (all_entries d v)
  iterate-entries true d fuel v h =
      let d₁ : Dict K V = record d { iterators = d.iterators + 1 } in
      let e : tail d₁ false 0 ≡ entries d.ht0.buckets ++ entries d.ht1.buckets =
        all_entries d₁ (counted-IsValid d (d.iterators + 1) v) in
      let n : d.iterators + 1 - 1 ≡ d.iterators = omega arith in
      from_start fuel d d₁ true (unfold start get_iterator in refl) refl refl
        (counted-IsValid d (d.iterators + 1) v) (rw e h)
      ∙ unfold released in
        ap (λ m. some (record d { iterators = m }, tail d₁ false 0)) n ∙ ap (λ x. some (d, x)) e
