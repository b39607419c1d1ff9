-- ===== src/Dict/Tests.antt =====
-- Runs of the dictionary of dict.c, and its theorems at a dictionary that is half rehashed.
use project.Prelude.{
  length, ◌++◌, map, ℕ, zero, suc, ◌≡◌, refl, Bool, some, [], ◌∷◌, arith, ◌==◌, none, true, ◌<◌, ap,
  if◌then◌else◌, ◌≢◌, ◌+◌, ◌≤◌,
}
use project.Dict.{
  DictType, Table, Dict, index, bucket, rehash, rehash_step, find_in, find, no_table,
  expand_if_needed, create,
}
use project.Dict.Chains.{count, total}
use project.Dict.Rehash.{IsValid, Kept, rehash_step-Kept}
use project.Dict.Tables.{no_table-IsTable}
use project.Dict.Expand.{expand_if_needed-Kept}
use project.Util.{tolower}
use project.Dict.Iterator.{get_iterator, iterate}
use project.Dict.Iterator.Walk.{iterate-entries}
use project.Dict.Chains.{entries}
use project.Dict.Find.{rehash-Kept, find-Kept}

-- Integer keys with the identity hash function.
pub identity_hash : DictType ℕ
identity_hash = record {
  compare_keys = λ a b. a == b;
  hash_key = λ a. a;
  compare_refl = ground arith;
  compare_symm = ground arith;
  compare_trans = ground arith;
  hash-compare = ground arith;
}

instance abbrev pub int_keys : DictType ℕ
int_keys = identity_hash

-- Four chains of which the second is on its way to a table of eight.
abbrev small_table : Table ℕ ℕ
small_table = record {
  buckets = [] ∷ ((1, 10) ∷ (5, 50) ∷ []) ∷ [] ∷ [] ∷ [];
  size = 4;
  sizemask = 3;
  used = 2;
}

abbrev large_table : Table ℕ ℕ
large_table = record {
  buckets = ((8, 80) ∷ []) ∷ [] ∷ [] ∷ [] ∷ [] ∷ [] ∷ [] ∷ [] ∷ [];
  size = 8;
  sizemask = 7;
  used = 1;
}

abbrev pub half_way : Dict ℕ ℕ
half_way = record { ht0 = small_table; ht1 = large_table; rehashidx = some 1; iterators = 0 }

abbrev key_is : ℕ → ℕ → ℕ
key_is a q = if q == a then 1 else 0

nil_past : (i : ℕ) → bucket large_table (suc i) ≡ []
nil_past zero = refl
nil_past (suc zero) = refl
nil_past (suc (suc zero)) = refl
nil_past (suc (suc (suc zero))) = refl
nil_past (suc (suc (suc (suc zero)))) = refl
nil_past (suc (suc (suc (suc (suc zero))))) = refl
nil_past (suc (suc (suc (suc (suc (suc zero)))))) = refl
nil_past (suc (suc (suc (suc (suc (suc (suc i))))))) = refl

small_count : (q i : ℕ) → count q (bucket small_table i) ≤ key_is 1 q + key_is 5 q
unfolding count identity_hash
small_count q zero = ground arith
small_count q (suc zero) = ground arith
small_count q (suc (suc zero)) = ground arith
small_count q (suc (suc (suc zero))) = ground arith
small_count q (suc (suc (suc (suc i)))) = ground arith

large_count : (q i : ℕ) → count q (bucket large_table i) ≤ key_is 8 q
unfolding count identity_hash
large_count q zero = ground arith
large_count q (suc i) = rw (nil_past i) (omega arith)

small_placed : (i q : ℕ) → index small_table q ≢ i → count q (bucket small_table i) ≡ 0
unfolding count identity_hash
small_placed zero q ne = refl
small_placed (suc zero) q ne =
    let n1 : q ≢ 1 = λ e. ne (ap (index small_table) e) in
    let n5 : q ≢ 5 = λ e. ne (ap (index small_table) e) in ground arith
small_placed (suc (suc zero)) q ne = refl
small_placed (suc (suc (suc zero))) q ne = refl
small_placed (suc (suc (suc (suc i)))) q ne = refl

large_placed : (i q : ℕ) → index large_table q ≢ i → count q (bucket large_table i) ≡ 0
unfolding count identity_hash
large_placed zero q ne = let n8 : q ≢ 8 = λ e. ne (ap (index large_table) e) in ground arith
large_placed (suc i) q ne = rw (nil_past i)

counted_small : 2 ≡ total small_table.buckets
unfolding total
counted_small = refl

counted_large : 1 ≡ total large_table.buckets
unfolding total
counted_large = refl

pub half_way-IsValid : IsValid half_way
half_way-IsValid = record {
  first = record { sized = refl; masked = refl; counted = counted_small; placed = small_placed };
  second = record { sized = refl; masked = refl; counted = counted_large; placed = large_placed };
  once = λ q i j. ground (arith, small_count q i, large_count q j);
  idle = λ h. cc;
  moving = λ i h. (omega arith, omega arith);
  clear = λ i h j lt. let e : 1 ≡ i = cc in let e' : j ≡ 0 = omega arith in rw e';
}

rehash_step-Kept_example :
    (d' : Dict ℕ ℕ) × (more : Bool) × (rehash_step half_way 1 ≡ some (d', more)) × Kept half_way d'
rehash_step-Kept_example = rehash_step-Kept half_way 1 half_way-IsValid refl

rehash-Kept_example :
    (d' : Dict ℕ ℕ) × (more : Bool) × (rehash 100 half_way ≡ some (d', more)) × Kept half_way d'
rehash-Kept_example = rehash-Kept 100 half_way half_way-IsValid

find-Kept_example :
    (d' : Dict ℕ ℕ) × (find half_way 5 ≡ some (d', find_in half_way 5)) × Kept half_way d'
find-Kept_example = find-Kept half_way 5 half_way-IsValid

reads_old_and_new : (find_in half_way 5 ≡ some 50) × (find_in half_way 8 ≡ some 80)
unfolding find_in identity_hash
reads_old_and_new = (refl, refl)

-- The first table alone, with nothing being moved, and the empty dictionary.
abbrev idle_dict : Dict ℕ ℕ
idle_dict = record { ht0 = small_table; ht1 = no_table; rehashidx = none; iterators = 0 }

idle_dict-IsValid : IsValid idle_dict
unfolding count
idle_dict-IsValid = record {
  first = half_way-IsValid.first;
  second = no_table-IsTable;
  once = λ q i j. ground (arith, small_count q i);
  idle = λ h. refl;
  moving = λ i h. cc;
  clear = λ i h. cc;
}

create-IsValid : IsValid (create {K = ℕ} {V = ℕ})
unfolding create count
create-IsValid = record {
  first = no_table-IsTable;
  second = no_table-IsTable;
  once = λ q i j. omega arith;
  idle = λ h. refl;
  moving = λ i h. cc;
  clear = λ i h. cc;
}

expand_if_needed-Kept_example :
    (d' : Dict ℕ ℕ) × (expand_if_needed true create ≡ some d') × Kept create d' × (0 < d'.ht0.size)
expand_if_needed-Kept_example = expand_if_needed-Kept true create create-IsValid

-- A whole iteration under a safe iterator visits both tables, and takes back its count.
iterated :
    iterate 9 half_way (get_iterator true) ≡ some (half_way, (1, 10) ∷ (5, 50) ∷ (8, 80) ∷ [])
unfolding iterate get_iterator
iterated = refl

lowered : map tolower (b'K' ∷ b'e' ∷ b'y' ∷ []) ≡ map tolower (b'k' ∷ b'E' ∷ b'y' ∷ [])
unfolding tolower
lowered = refl

three_entries : length (entries half_way.ht0.buckets ++ entries half_way.ht1.buckets) < 9
unfolding entries
three_entries = omega arith

iterate-entries_example :
    iterate 9 half_way (get_iterator true)
    ≡ some (half_way, entries half_way.ht0.buckets ++ entries half_way.ht1.buckets)
iterate-entries_example = iterate-entries true half_way 9 half_way-IsValid three_entries

pub half_way_absent : find_in half_way 9 ≡ none
unfolding find_in identity_hash
half_way_absent = refl
