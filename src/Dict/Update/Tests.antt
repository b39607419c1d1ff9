-- ===== src/Dict/Update/Tests.antt =====
-- The insertions of dict.c at a dictionary that is half rehashed and a pool of one page.
use project.Prelude.{none, some, [], ◌∷◌, ◌==◌, if◌then◌else◌}
use project.Aggregator.{PageState, Pool, Answer}
use project.Aggregator.Links.{Cells}
use project.Dict.{Dict}
use project.Dict.Tests.{int_keys}

abbrev page : PageState
page = record { p_page = 0x8000; current_offset = 48; prev = 0; next = 0 }

abbrev pool : Pool
pool = record {
  nodes = λ p. if p == 16 then some page else none;
  page_pool = 16;
  free_page_count = 1;
  page_pool_size = 1;
}

abbrev cells : Cells
cells = (16, page) ∷ []

abbrev answer : Answer
answer = record { mapped = none; fresh = 0 }
