-- ===== src/Aggregator/Tests.antt =====
-- Runs of the page pool of memory_aggregator.c, and its theorems at small pools.
use project.Prelude.{ℕ, ◌+◌, ◌≤◌, ◌≡◌, refl, none, some, List, [], ◌∷◌, arith, inl, ◌⊎◌}
use project.Prelude.Int.{pos}
use project.Aggregator.{
  Ptr, PageState, write, Pool, ok, fault, done, Answer, alloc_page, init_page_pool, alloc_entry,
  set_page_pool_size,
}
use project.Aggregator.Links.{
  Cells, Pushed, Filled, alloc_page-IsPool, init_page_pool-Filled, answers_of,
}
use project.Aggregator.Entry.{HasRoom, advance, alloc_entry-room}
use project.Aggregator.Owned.{BothOwned, alloc_entry-apart}
use project.Aggregator.Exhausted.{StaleEntry, alloc_entry-stale, alloc_entry-fault}
use project.Aggregator.Links.{IsPool}

abbrev empty : Pool
empty = record { nodes = λ p. none; page_pool = 0; free_page_count = 0; page_pool_size = 2 }

abbrev two_pages : List (ℕ × Ptr)
two_pages = (0x4000, 8) ∷ (0x8000, 16) ∷ []

init_page_pool-Filled_example :
    (s' : Pool) × (init_page_pool (answers_of two_pages) empty ≡ ok done s')
    × Filled empty two_pages [] s'
init_page_pool-Filled_example = init_page_pool-Filled two_pages empty refl refl (ground arith)

alloc_page-IsPool_example :
    (s' : Pool) × (alloc_page (record { mapped = some 0x4000; fresh = 8 }) empty ≡ ok done s')
    × Pushed empty 0x4000 8 [] s'
alloc_page-IsPool_example = alloc_page-IsPool 0x4000 8 empty [] refl refl (omega arith) refl

-- The pool of two pages, with the offsets of the head and of the page behind it.
abbrev head_page : ℕ → PageState
head_page o = record { p_page = 0x8000; current_offset = o; prev = 8; next = 8 }

abbrev second_page : ℕ → PageState
second_page o = record { p_page = 0x4000; current_offset = o; prev = 16; next = 0 }

abbrev pool : ℕ → ℕ → Pool
pool a b = record {
  nodes = write (write (λ p. none) 8 (some (second_page b))) 16 (some (head_page a));
  page_pool = 16;
  free_page_count = 2;
  page_pool_size = 2;
}

abbrev cells : ℕ → ℕ → Cells
cells a b = (16, head_page a) ∷ (8, second_page b) ∷ []

abbrev answer : Ptr → Answer
answer p = record { mapped = some 0xc000; fresh = p }

cells-IsPool : (a b : ℕ) → IsPool (pool a b).nodes 16 (cells a b)
cells-IsPool a b =
    (refl, omega arith, refl, refl, (omega arith, tt), (refl, omega arith, refl, refl, tt, refl))

second-HasRoom : HasRoom 24 1 (pool 48 24) (cells 48 24) 8 (second_page 24)
second-HasRoom = record {
  pool = cells-IsPool 48 24;
  counted = omega arith;
  at = refl;
  room = omega arith;
  mapped = omega arith;
}

alloc_entry-room_example :
    (alloc_entry 24 (pos 1) (answer 24) (pool 48 24)
      ≡ ok 0x4018 (advance (pool 48 24) 8 (second_page 24) 24))
    × IsPool (advance (pool 48 24) 8 (second_page 24) 24).nodes 16 (cells 48 48)
alloc_entry-room_example =
    alloc_entry-room 24 1 (answer 24) (pool 48 24) (cells 48 24) 8 (second_page 24) second-HasRoom

alloc_entry-apart_example :
    ((0x8018 ≤ 0x4018) ⊎ (0x4018 + 24 ≤ 0x8000))
    × BothOwned 0x8000 24 0x4018 24 (advance (pool 48 24) 8 (second_page 24) 24)
alloc_entry-apart_example =
    alloc_entry-apart 24 1 (answer 24) (pool 48 24) _ (cells 48 24) 8 (second_page 24) 0x8000 24
      0x4018 second-HasRoom (omega arith) (omega arith) alloc_entry-room_example.0

alloc_entry-stale_example :
    StaleEntry 0x4000 0xc000 24 24 (alloc_entry 24 (pos 1) (answer 24) (pool 48 4080))
alloc_entry-stale_example =
    alloc_entry-stale 24 0xc000 24 (pool 48 4080) 8 (second_page 4080) (omega arith) (omega arith)
      refl 0 (cells 48 4080) (cells-IsPool 48 4080) refl (omega arith) (inl refl)

alloc_entry-fault_example : alloc_entry 24 (pos 0) (answer 24) (pool 4080 48) ≡ fault
alloc_entry-fault_example =
    alloc_entry-fault 24 0xc000 24 (pool 4080 48) 16 (head_page 4080) (omega arith) (omega arith)
      refl (8, second_page 48) [] (cells-IsPool 4080 48) (omega arith) (omega arith)

thousand_requests : (set_page_pool_size 1000 empty).page_pool_size ≡ 6
unfolding set_page_pool_size
thousand_requests = refl
