-- ===== src/Dict/Update.antt =====
-- Insertion and replacement of redis-2.6.16/src/dict.c. An entry carries its value from the start,
-- where the source fills it in behind dictAddRaw. Its memory is asked of the page pool of
-- memory_aggregator.c, and what happens there happens to the insertion. The dictionary's chains are
-- lists, so that two entries at one address are not seen in them. Calls of the type's destructors
-- are left out; `none` is a fault. `can_resize` is the global dict_can_resize.
pub mod Entries
pub mod Written
pub mod Add
pub mod Apart
pub mod Replace
mod Tests
use project.Prelude.{
  ℕ, ◌+◌, ◌-◌, ◌≡◌, Bool, true, false, not, Option, none, some, List, [], ◌∷◌, ◌++◌, ◌==◌,
  if◌then◌else◌, length, set,
}
use project.Aggregator.{Ptr, null, Pool, Run, ok, fault, Answer, ◌>>=◌, alloc_entry_random}
use project.Dict.{
  DictType, Chain, Table, Dict, index, bucket, is_rehashing, no_table, rehash_once,
  expand_if_needed, find_in, find,
}

module _ {ℓ} {K V : Type ℓ} where
  -- `entry->next = ht->table[index]; ht->table[index] = entry; ht->used++`
  pub link_entry : Table K V → ℕ → K × V → Table K V
  link_entry t i e = record t { buckets = set t.buckets i (e ∷ bucket t i); used = t.used + 1 }

module _ {ℓ} {K V : Type ℓ} ⦃type : DictType K⦄ where
  -- The table is expanded if needed; `none` is -1, where the key is there.
  pub key_index : Bool → Dict K V → K → Dict K V × Option ℕ
  unfolding expand_if_needed find_in
  key_index can_resize d k = elim (expand_if_needed can_resize d) [
    | none ↦ (d, none)
    | some d' ↦ (
      d',
      elim (find_in d' k) [
        | some v ↦ none
        | none ↦ some (index (if is_rehashing d' then d'.ht1 else d'.ht0) k)
      ],
    )
  ]

  -- `ht = dictIsRehashing(d) ? &d->ht[1] : &d->ht[0]`
  pub link_in : Dict K V → ℕ → K × V → Dict K V
  unfolding link_entry
  link_in d i e =
      if is_rehashing d
      then record d { ht1 = link_entry d.ht1 i e }
      else record d { ht0 = link_entry d.ht0 i e }

  -- dictSetVal on the first entry of a chain that has the key.
  pub set_chain : K → V → Chain K V → Option (Chain K V)
  set_chain k v [] = none
  set_chain k v (e ∷ c) =
      if type.compare_keys k e.0
      then some ((e.0, v) ∷ c)
      else elim (set_chain k v c) [ none ↦ none | some c' ↦ some (e ∷ c') ]

  -- The entry that dictFind leads to gets its value.
  pub set_val : Dict K V → K → V → Option (Dict K V)
  unfolding set_chain
  set_val d k v =
      let i = index d.ht0 k in
      let j = index d.ht1 k in
      elim (set_chain k v (bucket d.ht0 i)) [
        | some c ↦ some (record d { ht0 = record (d.ht0) { buckets = set d.ht0.buckets i c } })
        | none ↦
            if is_rehashing d
            then elim (set_chain k v (bucket d.ht1 j)) [
              | some c ↦
                  some (record d { ht1 = record (d.ht1) { buckets = set d.ht1.buckets j c } })
              | none ↦ none
            ]
            else none
      ]

-- sizeof(dictEntry): a key, a value and a pointer, of 8 bytes each.
abbrev pub entry_size : ℕ
entry_size = 24

-- The insertions use the page pool of the aggregator, with what rand() returns and what mmap and
-- malloc answer.
module _ {K V : Type 0} ⦃type : DictType K⦄ (rand : ℕ) (a : Answer) where
  -- The part of dictAddRaw behind the allocation. A write through a NULL entry is a fault.
  pub place_new : Dict K V → ℕ → K × V → Ptr → Pool → Run (Dict K V × Ptr)
  unfolding link_in
  place_new d i e entry s = if entry == null then fault else ok (link_in d i e, entry) s

  -- dictAddRaw: the dictionary, and the address of the new entry or NULL. `none` from the rehashing
  -- is a fault.
  pub add_raw : Bool → Dict K V → K → V → Pool → Run (Dict K V × Ptr)
  unfolding rehash_once key_index place_new
  add_raw can_resize d k v s = elim (rehash_once d) [
    | none ↦ fault
    | some d₁ ↦
        let (d₂, slot) = key_index can_resize d₁ k in
        elim slot [
          | none ↦ ok (d₂, null) s
          | some i ↦ alloc_entry_random rand entry_size a s >>= place_new d₂ i (k, v)
        ]
  ]

  -- dictAdd: the dictionary, and whether the key was added.
  pub add : Bool → Dict K V → K → V → Pool → Run (Dict K V × Bool)
  unfolding add_raw
  add can_resize d k v s = add_raw can_resize d k v s >>= λ r s'. ok (r.0, not (r.1 == null)) s'

  -- dictReplace: whether the key is new. A write through the NULL of dictFind is a fault.
  pub replace : Bool → Dict K V → K → V → Pool → Run (Dict K V × Bool)
  unfolding add find set_val
  replace can_resize d k v s = add can_resize d k v s >>= λ r s'.
      if r.1 then ok r s' else elim (find r.0 k) [
        | none ↦ fault
        | some (d₂, found) ↦ elim (set_val d₂ k v) [ none ↦ fault | some d₃ ↦ ok (d₃, false) s' ]
      ]
