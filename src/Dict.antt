-- ===== src/Dict.antt =====
-- The hash table with incremental rehashing of redis-2.6.16/src/dict.c and dict.h. The `dictType`
-- of a dictionary is an instance argument: its hash function and its comparison of keys, with what
-- a hash table asks of them. A chain is the list of its entries; duplication and destruction of
-- keys and values are the type's callbacks, and are left out.
pub mod Mask
pub mod Chains
pub mod Tables
pub mod Rehash
pub mod Find
pub mod Expand
pub mod Update
pub mod Hash
pub mod Iterator
mod Tests
use project.Prelude.{
  ℕ, zero, suc, ◌+◌, ◌-◌, ◌*◌, ◌/◌, ◌%◌, ◌^◌, ◌≡◌, Bool, true, false, ◌&&◌, ◌||◌, Option, none,
  some, List, [], ◌∷◌, ltb, leb, ◌==◌, if◌then◌else◌, length, get_or, set, drop, replicate, bit_and,
}

pub record DictType {ℓ} (K : Type ℓ) : Type ℓ where
  pub compare_keys : K → K → Bool
  pub hash_key : K → ℕ
  pub compare_refl : (a : K) → compare_keys a a ≡ true
  pub compare_symm : (a b : K) → compare_keys a b ≡ true → compare_keys b a ≡ true
  pub compare_trans :
      (a b c : K) → compare_keys a b ≡ true → compare_keys b c ≡ true → compare_keys a c ≡ true
  pub hash-compare : (a b : K) → compare_keys a b ≡ true → hash_key a ≡ hash_key b

abbrev pub Chain {ℓ} : Type ℓ → Type ℓ → Type ℓ
Chain K V = List (K × V)

-- dictht: `buckets` is empty where `table` is NULL.
pub record Table {ℓ} (K V : Type ℓ) : Type ℓ where
  pub buckets : List (Chain K V)
  pub size : ℕ
  pub sizemask : ℕ
  pub used : ℕ

-- `rehashidx` is `none` for -1.
pub record Dict {ℓ} (K V : Type ℓ) : Type ℓ where
  pub ht0 : Table K V
  pub ht1 : Table K V
  pub rehashidx : Option ℕ
  pub iterators : ℕ

-- DICT_HT_INITIAL_SIZE
abbrev pub initial_size : ℕ
initial_size = 4

abbrev pub long_max : ℕ
long_max = 0x7fff_ffff_ffff_ffff

module _ {ℓ} {K V : Type ℓ} where
  abbrev pub no_table : Table K V
  no_table = record { buckets = []; size = 0; sizemask = 0; used = 0 }

  pub create : Dict K V
  create = record { ht0 = no_table; ht1 = no_table; rehashidx = none; iterators = 0 }

  abbrev pub is_rehashing : Dict K V → Bool
  is_rehashing d = elim (d.rehashidx) [ none ↦ false | some i ↦ true ]

  abbrev pub bucket : Table K V → ℕ → Chain K V
  bucket t i = get_or t.buckets i []

-- The loop doubles from the initial size; sizes below 2^63 take at most 62 rounds.
pub next_power_loop : ℕ → ℕ → ℕ → ℕ
next_power_loop zero i size = i
next_power_loop (suc fuel) i size =
    let rest = next_power_loop fuel (i * 2) size in if leb size i then i else rest

pub next_power : ℕ → ℕ
unfolding next_power_loop
next_power size = if leb long_max size then long_max else next_power_loop 62 initial_size size

module _ {ℓ} {K V : Type ℓ} where
  pub empty_table : ℕ → Table K V
  empty_table realsize = record {
    buckets = replicate realsize [];
    size = realsize;
    sizemask = realsize - 1;
    used = 0;
  }

  -- `none` is DICT_ERR.
  pub expand : Dict K V → ℕ → Option (Dict K V)
  unfolding empty_table
  expand d size =
      if is_rehashing d || ltb size d.ht0.used
      then none
      else if d.ht0.size == 0
      then some (record d { ht0 = empty_table (next_power size) })
      else some (record d { ht1 = empty_table (next_power size); rehashidx = some 0 })

  -- `used/size > dict_force_resize_ratio`, with the ratio 5.
  pub expand_if_needed : Bool → Dict K V → Option (Dict K V)
  unfolding expand
  expand_if_needed can_resize d =
      if is_rehashing d
      then some d
      else if d.ht0.size == 0
      then expand d initial_size
      else if leb d.ht0.size d.ht0.used && (can_resize || ltb 5 (d.ht0.used / d.ht0.size))
      then expand d ((if ltb d.ht0.used d.ht0.size then d.ht0.size else d.ht0.used) * 2)
      else some d

  -- dictResize: to the smallest power of two that holds all entries. `minimal` is a C int, which is
  -- negative from 2^31 on.
  pub resize : Bool → Dict K V → Option (Dict K V)
  unfolding expand
  resize can_resize d =
      if can_resize
      then (if is_rehashing d
          then none
          else let minimal = d.ht0.used % 2 ^ 32 in
            expand d
              (if ltb minimal initial_size || leb (2 ^ 31) minimal then initial_size else minimal))
      else none

  -- `while(table[rehashidx] == NULL) rehashidx++` over the buckets from `i` on; reading past the
  -- last one is a fault, `none`.
  pub next_chain : List (Chain K V) → ℕ → Option (ℕ × Chain K V)
  next_chain [] i = none
  next_chain ([] ∷ bs) i = next_chain bs (i + 1)
  next_chain ((e ∷ c) ∷ bs) i = some (i, e ∷ c)

module _ {ℓ} {K V : Type ℓ} ⦃type : DictType K⦄ where
  abbrev pub index : Table K V → K → ℕ
  index t k = bit_and (type.hash_key k) t.sizemask

  -- Each entry goes to the front of its chain in the second table.
  pub push_entry : Table K V → K × V → Table K V
  push_entry t e =
      let h = index t e.0 in
      record t { buckets = set t.buckets h (e ∷ bucket t h); used = t.used + 1 }

  pub move_chain : Chain K V → Table K V → Table K V
  unfolding push_entry
  move_chain [] t = t
  move_chain (e ∷ c) t = move_chain c (push_entry t e)

  -- One round of dictRehash: the dictionary, and whether more is to be done. The count of the
  -- first table falls by one for each entry moved.
  pub rehash_step : Dict K V → ℕ → Option (Dict K V × Bool)
  unfolding next_chain move_chain
  rehash_step d i =
      if d.ht0.used == 0
      then some (record d { ht0 = d.ht1; ht1 = no_table; rehashidx = none }, false)
      else if leb d.ht0.size i
      then none
      else elim (next_chain (drop i d.ht0.buckets) i) [
        | none ↦ none
        | some (j, c) ↦ some (
          record d {
            ht0 = record (d.ht0) { buckets = set d.ht0.buckets j []; used = d.ht0.used - length c };
            ht1 = move_chain c d.ht1;
            rehashidx = some (j + 1);
          },
          true,
        )
      ]

  -- dictRehash with `n` rounds.
  pub rehash : ℕ → Dict K V → Option (Dict K V × Bool)
  unfolding rehash_step
  rehash zero d = some (d, is_rehashing d)
  rehash (suc n) d = elim (d.rehashidx) [
    | none ↦ some (d, false)
    | some i ↦ elim (rehash_step d i) [
      | none ↦ none
      | some (d', more) ↦ let rest = rehash n d' in if more then rest else some (d', false)
    ]
  ]

  -- `if (dictIsRehashing(d)) _dictRehashStep(d)`
  pub rehash_once : Dict K V → Option (Dict K V)
  unfolding rehash
  rehash_once d =
      if is_rehashing d && (d.iterators == 0)
      then elim (rehash 1 d) [ none ↦ none | some (d', more) ↦ some d' ]
      else some d

  pub find_chain : K → Chain K V → Option V
  find_chain k [] = none
  find_chain k (e ∷ c) = if type.compare_keys k e.0 then some e.1 else find_chain k c

  -- The search of one table, and of the second where the first has nothing.
  pub find_in : Dict K V → K → Option V
  unfolding find_chain
  find_in d k = elim (find_chain k (bucket d.ht0 (index d.ht0 k))) [
    | some v ↦ some v
    | none ↦ if is_rehashing d then find_chain k (bucket d.ht1 (index d.ht1 k)) else none
  ]

  -- dictFind and dictFetchValue: the dictionary after the step of rehashing, and the value. `none`
  -- is a fault.
  pub find : Dict K V → K → Option (Dict K V × Option V)
  unfolding rehash_once find_in
  find d k =
      if d.ht0.size == 0
      then some (d, none)
      else elim (rehash_once d) [ none ↦ none | some d' ↦ some (d', find_in d' k) ]
