-- ===== src/Dict/Find.antt =====
-- `dictRehash` and `dictFind` of dict.c, seen as operations on the map from keys to entries.
use project.Prelude.{
  ℕ, zero, suc, ◌≡◌, refl, Bool, false, ◌&&◌, Option, none, some, [], arith, ◌∙◌, Bool-cases, inl,
  inr, ◌==◌, Option-cases, ==→eq, if◌then◌else◌, suc,
}
use project.Dict.{
  DictType, Dict, rehash_step, rehash, rehash_once, find_in, find, is_rehashing, find_chain, bucket,
  index,
}
use project.Dict.Chains.{nil_of_length}
use project.Dict.Rehash.{IsValid, Kept, rehash_step-Kept}

module _ {ℓ} {K V : Type ℓ} ⦃type : DictType K⦄ where
  pub Kept-refl : (d : Dict K V) → IsValid d → Kept d d
  Kept-refl d v = record { valid = v; reads = λ q. refl; iterators = refl }

  pub Kept-trans : (a b c : Dict K V) → Kept a b → Kept b c → Kept a c
  Kept-trans a b c k l = record {
    valid = l.valid;
    reads = λ q. l.reads q ∙ k.reads q;
    iterators = l.iterators ∙ k.iterators;
  }

  rehash-suc :
      (n i : ℕ) (d d' : Dict K V) (more : Bool)
      → d.rehashidx ≡ some i
      → rehash_step d i ≡ some (d', more)
      → rehash (suc n) d ≡ (if more then rehash n d' else some (d', false))
  unfolding rehash
  rehash-suc n i d d' more e step = ground arith

  Kept-rehash :
      (n : ℕ) (d : Dict K V)
      → IsValid d
      → (o : Option ℕ) → d.rehashidx ≡ o
      → (d' : Dict K V) × (more : Bool) × (rehash n d ≡ some (d', more)) × Kept d d'
  unfolding rehash
  Kept-rehash zero d v o e = (d, is_rehashing d, refl, Kept-refl d v)
  Kept-rehash (suc n) d v none e = (d, false, rw e, Kept-refl d v)
  Kept-rehash (suc n) d v (some i) e =
      let (d', more, step, k) = rehash_step-Kept d i v e in
      let (d'', more', rest, k') = Kept-rehash n d' k.valid d'.rehashidx refl in
      elim (Bool-cases more) [
        | inl again ↦
            (d'', more', rehash-suc n i d d' more e step ∙ rw again rest, Kept-trans d d' d'' k k')
        | inr done ↦ (d', false, rehash-suc n i d d' more e step ∙ rw done, k)
      ]

  -- Any number of rounds on a valid dictionary meets no fault, leaves a valid dictionary, and every
  -- key is read as before.
  pub rehash-Kept :
      (n : ℕ) (d : Dict K V)
      → IsValid d
      → (d' : Dict K V) × (more : Bool) × (rehash n d ≡ some (d', more)) × Kept d d'
  rehash-Kept n d v = Kept-rehash n d v d.rehashidx refl

  pub Kept-rehash_once :
      (d : Dict K V) → IsValid d → (d' : Dict K V) × (rehash_once d ≡ some d') × Kept d d'
  unfolding rehash_once
  Kept-rehash_once d v = elim (Bool-cases (is_rehashing d && (d.iterators == 0))) [
    | inl step ↦ let (d', more, e, k) = rehash-Kept 1 d v in (d', rw (step, e), k)
    | inr idle ↦ (d, rw idle, Kept-refl d v)
  ]

  -- A dictionary without a table reads no key.
  pub find_in-none : (d : Dict K V) (q : K) → IsValid d → d.ht0.size ≡ 0 → find_in d q ≡ none
  unfolding find_in find_chain
  find_in-none d q v h =
      let no_chain : bucket d.ht0 (index d.ht0 q) ≡ [] =
        nil_of_length d.ht0.buckets (index d.ht0 q) (v.first.sized ∙ h) in
      elim (Option-cases d.rehashidx) [
        | inl idle ↦ ground (arith, no_chain, idle)
        | inr (i, e) ↦ absurd (let pos = (v.moving i e).0 in omega arith)
      ]

  -- On a valid dictionary `find` meets no fault and answers what its tables hold for the key; the
  -- step of rehashing that it may make leaves a valid dictionary in which every key is read as
  -- before.
  pub find-Kept :
      (d : Dict K V) (k : K)
      → IsValid d
      → (d' : Dict K V) × (find d k ≡ some (d', find_in d k)) × Kept d d'
  unfolding find
  find-Kept d k v = elim (Bool-cases (d.ht0.size == 0)) [
    | inl none_yet ↦
        let absent = find_in-none d k v (==→eq d.ht0.size 0 none_yet) in
        (d, rw (none_yet, absent), Kept-refl d v)
    | inr table ↦
        let (d', e, kept) = Kept-rehash_once d v in (d', rw (table, e, ← kept.reads k), kept)
  ]
