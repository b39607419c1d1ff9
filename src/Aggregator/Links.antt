-- ===== src/Aggregator/Links.antt =====
-- The shape of the page pool that memory_aggregator.c builds, and how `alloc_page` and
-- `init_page_pool` build it.
use project.Prelude.{
  ℕ, ◌+◌, ◌%◌, ◌≡◌, refl, ◌∙◌, ◌≢◌, Option, none, some, List, [], ◌∷◌, length, arith,
}
use project.Aggregator.{
  Ptr, null, PageState, Nodes, write, Pool, ok, Answer, done, page_size, alloc_page, init_loop,
  init_page_pool,
}

-- A pool as the list of its pages: where each struct is, and what it holds.
abbrev pub Cells : Type 0
Cells = List (Ptr × PageState)

abbrev pub Avoids : Ptr → Cells → Type 0
Avoids p [] = Unit {0}
Avoids p ((q, _) ∷ cs) = (p ≢ q) × Avoids p cs

-- From `p` the `next` pointers lead through `cs` to NULL, and `prev` leads back.
abbrev pub Links : Nodes → Ptr → Ptr → Cells → Type 0
Links h prev p [] = p ≡ null
Links h prev p ((q, s) ∷ cs) =
    (p ≡ q) × (q ≢ null) × (h q ≡ some s) × (s.prev ≡ prev) × Avoids q cs × Links h q s.next cs

-- The head's `prev` is not NULL: it is the second page, the same as its `next`.
abbrev pub IsPool : Nodes → Ptr → Cells → Type 0
IsPool h p [] = p ≡ null
IsPool h p ((q, s) ∷ cs) =
    (p ≡ q) × (q ≢ null) × (h q ≡ some s) × (s.prev ≡ s.next) × Avoids q cs × Links h q s.next cs

-- A struct outside the cells may change.
pub Links-write :
    (h : Nodes) (prev p r : Ptr) (c : Option PageState) (cs : Cells)
    → Avoids r cs
    → Links h prev p cs
    → Links (write h r c) prev p cs
Links-write h prev p r c [] out l = l
Links-write h prev p r c ((q, s) ∷ cs) out l =
    (l.0, l.1, ground arith, l.3, l.4, Links-write h q s.next r c cs out.1 l.5)

pub Avoids-of_none :
    (h : Nodes) (prev p r : Ptr) (cs : Cells) → h r ≡ none → Links h prev p cs → Avoids r cs
Avoids-of_none h prev p r [] e l = tt
Avoids-of_none h prev p r ((q, s) ∷ cs) e l = (
  λ same. let e' : h q ≡ none = subst_none same in ground arith,
  Avoids-of_none h q s.next r cs e l.5,
)
  where
    subst_none : r ≡ q → h q ≡ none
    subst_none same = rw (← same) e

-- What a new page does to the cells: it comes first, and the old head points back to it.
unfoldable pub push_cell : Ptr → ℕ → Ptr → Cells → Cells
push_cell fresh page head [] =
    (fresh, record { p_page = page; current_offset = 0; prev = head; next = head }) ∷ []
push_cell fresh page head ((q, s) ∷ cs) =
    (fresh, record { p_page = page; current_offset = 0; prev = head; next = head })
    ∷ (q, record s { prev = fresh })
    ∷ cs

-- The new head is in place, and the rest of the heap is as before.
pub record Pushed (s : Pool) (page fresh : ℕ) (cs : Cells) (s' : Pool) : Type 0 where
  pub shape : IsPool s'.nodes s'.page_pool (push_cell fresh page s.page_pool cs)
  pub head : s'.page_pool ≡ fresh
  pub count : s'.free_page_count ≡ s.free_page_count + 1
  pub size : s'.page_pool_size ≡ s.page_pool_size
  pub elsewhere : (r : Ptr) → r ≢ fresh → Avoids r cs → s'.nodes r ≡ s.nodes r

-- Given an aligned page and an unused struct, `alloc_page` returns 0 and puts the page at the head.
pub alloc_page-IsPool :
    (page fresh : ℕ) (s : Pool) (cs : Cells)
    → IsPool s.nodes s.page_pool cs
    → s.nodes fresh ≡ none
    → fresh ≢ null
    → page % page_size ≡ 0
    → (s' : Pool) × (alloc_page (record { mapped = some page; fresh = fresh }) s ≡ ok done s')
      × Pushed s page fresh cs s'
unfolding alloc_page push_cell
alloc_page-IsPool page fresh s [] pool unused ne aligned = (
  record s {
    nodes = write s.nodes fresh (
        some
          (record { p_page = page; current_offset = 0; prev = s.page_pool; next = s.page_pool }));
    page_pool = fresh;
    free_page_count = s.free_page_count + 1;
  },
  ground arith,
  record { shape = ground arith; head = refl; count = refl; size = refl; elsewhere = ground arith },
)
alloc_page-IsPool page fresh s ((q, n) ∷ cs) pool unused ne aligned =
    let node : PageState = record {
      p_page = page;
      current_offset = 0;
      prev = s.page_pool;
      next = s.page_pool;
    } in
    let apart : fresh ≢ q = λ e. let e' : s.nodes q ≡ none = rw (← e) unused in ground arith in
    let out : Avoids fresh cs = Avoids-of_none s.nodes q n.next fresh cs unused pool.5 in
    let h : Nodes = write s.nodes fresh (some node) in
    let h' : Nodes = write h s.page_pool (some (record n { prev = fresh })) in
    (
      record s {
        nodes = write h' fresh (some node);
        page_pool = fresh;
        free_page_count = s.free_page_count + 1;
      },
      ground arith,
      record {
        shape = (
          refl,
          ne,
          ground arith,
          refl,
          (apart, out),
          (
            pool.0,
            pool.1,
            ground arith,
            refl,
            pool.4,
            Links-write _ q n.next fresh _ cs out (
                Links-write _ q n.next s.page_pool _ cs (rw pool.0 pool.4)
                  (Links-write _ q n.next fresh _ cs out pool.5)),
          ),
        );
        head = refl;
        count = refl;
        size = refl;
        elsewhere = ground arith;
      },
    )

-- The cells after the pages of `answers` are pushed on `cs`.
abbrev pub push_all : List (ℕ × Ptr) → Ptr → Cells → Cells
push_all [] head cs = cs
push_all ((page, fresh) ∷ rest) head cs = push_all rest fresh (push_cell fresh page head cs)

abbrev pub Differs : Ptr → List (ℕ × Ptr) → Type 0
Differs p [] = Unit {0}
Differs p ((_, q) ∷ rest) = (q ≢ p) × Differs p rest

-- Each page is aligned, and each struct is new.
abbrev pub AreFresh : Nodes → List (ℕ × Ptr) → Type 0
AreFresh h [] = Unit {0}
AreFresh h ((page, fresh) ∷ rest) =
    (h fresh ≡ none)
    × (fresh ≢ null)
    × (page % page_size ≡ 0)
    × Differs fresh rest
    × AreFresh h rest

abbrev pub answers_of : List (ℕ × Ptr) → List Answer
answers_of [] = []
answers_of ((page, fresh) ∷ rest) = record { mapped = some page; fresh = fresh } ∷ answers_of rest

AreFresh-same :
    (h h' : Nodes) (p : Ptr) (pages : List (ℕ × Ptr))
    → ((r : Ptr) → r ≢ p → h r ≡ none → h' r ≡ none)
    → Differs p pages
    → AreFresh h pages
    → AreFresh h' pages
AreFresh-same h h' p [] same d f = tt
AreFresh-same h h' p ((page, q) ∷ rest) same d f =
    (same q d.0 f.0, f.1, f.2, f.3, AreFresh-same h h' p rest same d.1 f.4)

-- A struct that is not there is not one of the pool's.
pub Avoids-pool : (h : Nodes) (p r : Ptr) (cs : Cells) → h r ≡ none → IsPool h p cs → Avoids r cs
Avoids-pool h p r [] e l = tt
Avoids-pool h p r ((q, s) ∷ cs) e l = (
  λ same. let e' : h q ≡ none = rw (← same) e in ground arith,
  Avoids-of_none h q s.next r cs e l.5,
)

-- The state after all pages are pushed.
pub record Filled (s : Pool) (pages : List (ℕ × Ptr)) (cs : Cells) (s' : Pool) : Type 0 where
  pub shape : IsPool s'.nodes s'.page_pool (push_all pages s.page_pool cs)
  pub count : s'.free_page_count ≡ s.free_page_count + length pages
  pub size : s'.page_pool_size ≡ s.page_pool_size

init_loop-Filled :
    (pages : List (ℕ × Ptr)) (s : Pool) (cs : Cells)
    → IsPool s.nodes s.page_pool cs
    → AreFresh s.nodes pages
    → (s' : Pool) × (init_loop (length pages) (answers_of pages) s ≡ ok done s')
      × Filled s pages cs s'
unfolding init_loop
init_loop-Filled [] s cs pool f =
    (s, refl, record { shape = pool; count = omega arith; size = refl })
init_loop-Filled ((page, fresh) ∷ rest) s cs pool f =
    let (s₁, e₁, p₁) = alloc_page-IsPool page fresh s cs pool f.0 f.1 f.2 in
    let cs₁ : Cells = push_cell fresh page s.page_pool cs in
    let keep : (r : Ptr) → r ≢ fresh → s.nodes r ≡ none → s₁.nodes r ≡ none =
      λ r ne e. p₁.elsewhere r ne (Avoids-pool s.nodes s.page_pool r cs e pool) ∙ e in
    let (s₂, e₂, p₂) =
      init_loop-Filled rest s₁ cs₁ p₁.shape
        (AreFresh-same s.nodes s₁.nodes fresh rest keep f.3 f.4) in
    (
      s₂,
      rw (e₁, init_loop) e₂,
      record {
        shape = rw p₁.head at p₂.shape;
        count = omega (arith, p₂.count, p₁.count);
        size = p₂.size ∙ p₁.size;
      },
    )

-- From an empty pool, `init_page_pool` fills it with `page_pool_size` pages when every mapping
-- succeeds: the pages stand in the pool in the reverse order of their allocation.
pub init_page_pool-Filled :
    (pages : List (ℕ × Ptr)) (s : Pool)
    → s.page_pool ≡ null
    → s.page_pool_size ≡ length pages
    → AreFresh s.nodes pages
    → (s' : Pool) × (init_page_pool (answers_of pages) s ≡ ok done s') × Filled s pages [] s'
unfolding init_page_pool
init_page_pool-Filled pages s empty size f = simp size (init_loop-Filled pages s [] empty f)
