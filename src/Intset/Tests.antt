-- ===== src/Intset/Tests.antt =====
-- The checks of `main` in intset.c, and the theorems at small sets.
use project.Prelude.{◌^◌, ℕ, ◌≤◌, ◌+◌, some, ◌≡◌, refl, true, arith, ◌↔◌, ◌<◌, zero, suc}
use project.Prelude.Int.{pos, negsuc}
use project.Intset.Bytes.{load, store, move, InRange}
use project.Intset.{
  Intset, new, get, add, remove, find, search, value_encoding, get_at, random, blob_len, insert_at,
  upgrade_and_add, delete_at, get_encoded, upgrade_loop,
}
use project.Intset.Search.{Searched, search-Searched}
use project.Intset.Shape.{IsValid, Contains, new-IsValid, get-upgrade_loop}
use project.Intset.Add.{Added, add-Added}
use project.Intset.Remove.{RemovedBy, remove-RemovedBy, find-Contains}

runs : Unit {0}
unfolding new get add remove find search value_encoding get_at random blob_len insert_at
    upgrade_and_add delete_at load store move
runs = tt

abbrev empty : Intset
empty = new (λ a. 0)

abbrev adds : Intset
adds = (add (add (add (add empty (pos 5)).0 (pos 6)).0 (pos 4)).0 (pos 4)).0

basic_adding : get_at adds 0 ≡ some (pos 4)
unfolding runs
basic_adding = refl

-- From 16 to 32 bits, with a negative value in front.
upgraded : Intset
unfolding runs
upgraded = (add (add empty (pos 32)).0 (negsuc 65534)).0

upgrade_keeps : (find upgraded (pos 32) ≡ true) × (find upgraded (negsuc 65534) ≡ true)
unfolding runs upgraded
upgrade_keeps = (refl, refl)

abbrev five : Intset
five = (add empty (pos 5)).0

add-Added_example : Added empty (pos 5) (add empty (pos 5))
unfolding new
add-Added_example = add-Added empty (pos 5) (new-IsValid _) (omega arith) (omega arith)

five-IsValid : IsValid five
unfolding runs
five-IsValid = add-Added_example.3

five_few : five.length < 2 ^ 30
unfolding runs
five_few = omega arith

search-Searched_example : Searched five (pos 5) (search five (pos 5))
search-Searched_example = search-Searched five (pos 5) five-IsValid.sorted five_few

remove-RemovedBy_example : RemovedBy five (pos 5) (remove five (pos 5))
unfolding runs
remove-RemovedBy_example = remove-RemovedBy five (pos 5) five-IsValid (omega arith) (omega arith)

find-Contains_example : (find five (pos 7) ≡ true) ↔ Contains five (pos 7)
find-Contains_example = find-Contains five (pos 7) five-IsValid (omega arith) five_few

-- The set {32}, with its encoding set to 32 bits and its bytes still those of 16 bits.
abbrev widened : Intset
widened = record { encoding = 4; length = 1; contents = store 2 (λ a. 0) 0 (pos 32); room = 8 }

widened-fits : (i : ℕ) → i < 1 → InRange 4 (get_encoded widened i 2)
unfolding runs get_encoded
widened-fits zero lt = omega arith
widened-fits (suc i) lt = absurd (omega arith)

get-upgrade_loop_example :
    ((i : ℕ) → i < 1 → get_encoded (upgrade_loop 1 0 2 widened) (i + 0) 4 ≡ get_encoded widened i 2)
    × ((j : ℕ) → 1 + 0 ≤ j → get_encoded (upgrade_loop 1 0 2 widened) j 4 ≡ get_encoded widened j 4)
get-upgrade_loop_example = get-upgrade_loop 1 0 2 widened (omega arith) widened-fits
