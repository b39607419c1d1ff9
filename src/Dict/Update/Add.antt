-- ===== src/Dict/Update/Add.antt =====
-- `dictAdd` and `dictReplace` of dict.c.
use project.Prelude.{
  ℕ, ◌+◌, ◌≡◌, ◌≢◌, ◌%◌, ◌==◌, Bool, true, false, Option, none, some, if◌then◌else◌, arith,
}
use project.Aggregator.{Ptr, PageState, Pool, ok, null, Answer}
use project.Aggregator.Links.{Cells}
use project.Aggregator.Entry.{HasRoom, advance, alloc_entry_random-room}
use project.Dict.{DictType, Dict, index, is_rehashing, find_in, rehash_once, expand_if_needed}
use project.Dict.Update.{entry_size, key_index, link_in, place_new, add_raw}
use project.Dict.Update.Written.{Written}

module _ {ℓ} {A : Type ℓ} where
  abbrev pub is_none : Option A → Bool
  is_none none = true
  is_none (some a) = false

  -- The first value, or else the second.
  abbrev pub or_else : Option A → A → A
  or_else none b = b
  or_else (some a) b = a

module _ {ℓ} {K V : Type ℓ} ⦃type : DictType K⦄ where
  pub slot : Dict K V → K → ℕ
  slot d k = index (if is_rehashing d then d.ht1 else d.ht0) k

-- The pool where an insertion finds room for its entry: the page that rand() leads to has 24 bytes.
pub record HasEntryRoom (rand : ℕ) (s : Pool) (cs : Cells) (q : Ptr) (n : PageState) : Type 0 where
  pub pages : s.page_pool_size ≢ 0
  pub has : HasRoom entry_size (rand % s.page_pool_size) s cs q n
  pub mapped : n.p_page ≢ 0

-- The pool after an insertion: the entry is taken only where the key is new.
abbrev pub pool_after : Bool → Pool → Ptr → PageState → Pool
pool_after true s q n = advance s q n entry_size
pool_after false s q n = s

module _ {K V : Type 0} ⦃type : DictType K⦄ (rand : ℕ) (a : Answer) where
  key_index_absent :
      (can_resize : Bool) (d₁ d₂ : Dict K V) (k : K)
      → expand_if_needed can_resize d₁ ≡ some d₂
      → find_in d₂ k ≡ none
      → key_index can_resize d₁ k ≡ (d₂, some (slot d₂ k))
  unfolding key_index slot
  key_index_absent can_resize d₁ d₂ k grow new = ground (arith, grow, new)

  -- A new key: the entry is the first free byte of the page that rand() leads to.
  pub add_raw_absent :
      (can_resize : Bool) (d d₁ d₂ : Dict K V) (k : K) (v : V) (s : Pool) (cs : Cells) (q : Ptr)
      → (n : PageState) → HasEntryRoom rand s cs q n
      → rehash_once d ≡ some d₁
      → expand_if_needed can_resize d₁ ≡ some d₂
      → find_in d₂ k ≡ none
      → add_raw rand a can_resize d k v s
        ≡ ok (link_in d₂ (slot d₂ k) (k, v), n.p_page + n.current_offset) (advance s q n entry_size)
  unfolding add_raw place_new
  add_raw_absent can_resize d d₁ d₂ k v s cs q n room step grow new =
      let entry = alloc_entry_random-room rand entry_size a s cs q n room.pages room.has in
      let some_entry : (n.p_page + n.current_offset == null) ≡ false =
        ground (arith, room.mapped) in
      ground (arith, step, key_index_absent can_resize d₁ d₂ k grow new, entry, some_entry)
