-- ===== src/Ziplist/Overread.antt =====
-- __ziplistInsert in front of an entry whose length field shrinks.
use project.Prelude.{
  ℕ, zero, suc, ◌+◌, ◌-◌, ◌%◌, ◌^◌, ◌≤◌, ◌<◌, ◌≡◌, refl, ◌∙◌, ap, sym, ◌⊎◌, inl, inr, true, false,
  some, none, List, [], ◌∷◌, ◌++◌, length, get_elem?, ◌==◌, leb, arith,
}
use native.Mathlib.Nat.{mod-eq_of_lt}
use project.Prelude.Int.{negsuc}
use project.Prelude.Options.{◌>>=◌}
use project.Rdb.{Bytes, little_endian}
use project.Sds.{overlay, memcpy, realloc}
use project.Sds.Buffer.{length-overlay, length-realloc}
use project.Ziplist.{
  prev_encode_length_force_large, encode_length, zip_end, uint, prev_len_byte_diff,
  decode_prevlensize, prev_encode_length_size,
}
use project.Ziplist.Blob.{
  ziplist_bytes, resize, put_bytes, required, prevlen_at, memmove, insert_before, make_space,
  insert,
}
use project.Ziplist.Encoding.{length-little_endian}
use project.Ziplist.Layout.{Node, node_size, node_bytes, prev_field, head, payload}
use project.Ziplist.Places.{offset, seen, length-ziplist}
use project.Ziplist.Nodes
use project.Ziplist.Nodes.{IsZiplist, entries, last_size, header}

get_elem?-realloc :
    (junk : ℕ → ℕ) (n i : ℕ) (buf : Bytes)
    → i < n
    → i < length buf
    → get_elem? (realloc junk n buf) i ≡ get_elem? buf i
unfolding realloc
get_elem?-realloc junk n i [] h h' = absurd (omega arith)
get_elem?-realloc junk zero i (b ∷ buf) h h' = absurd (omega arith)
get_elem?-realloc junk (suc n) zero (b ∷ buf) h h' = refl
get_elem?-realloc junk (suc n) (suc i) (b ∷ buf) h h' =
    get_elem?-realloc junk n i buf (omega arith) (omega arith)

get_elem?-overlay :
    (buf : Bytes) (i : ℕ) (t : Bytes) (j : ℕ)
    → (j < i) ⊎ (i + length t ≤ j)
    → get_elem? (overlay buf i t) j ≡ get_elem? buf j
unfolding overlay
get_elem?-overlay [] i t j out = refl
get_elem?-overlay (b ∷ buf) zero [] j out = refl
get_elem?-overlay (b ∷ buf) zero (c ∷ t) zero out = absurd (omega arith)
get_elem?-overlay (b ∷ buf) zero (c ∷ t) (suc j) out =
    get_elem?-overlay buf zero t j (inr (omega arith))
get_elem?-overlay (b ∷ buf) (suc i) t zero out = refl
get_elem?-overlay (b ∷ buf) (suc i) t (suc j) out = get_elem?-overlay buf i t j (omega arith)

-- A resized ziplist has the size asked for, and keeps the bytes behind the first field and in front
-- of the new end marker.
resized :
    (junk : ℕ → ℕ) (zl : Bytes) (n i : ℕ)
    → 4 ≤ i
    → i + 1 < n
    → n ≤ length zl
    → (zl' : Bytes) × (resize junk zl n ≡ some zl')
      × (length zl' ≡ n)
      × (get_elem? zl' i ≡ get_elem? zl i)
unfolding resize put_bytes memcpy
resized junk zl n i lo hi shrinks =
    let r = realloc junk n zl in
    let w = little_endian 4 n in
    let lw = length-little_endian 4 n in
    let lr = length-realloc junk n zl in
    let lo₁ = length-overlay r 0 w in
    let fits : leb (0 + length w) (length r) ≡ true = ground (arith, lw, lr) in
    let fits' : leb (n - 1 + 1) (length (overlay r 0 w)) ≡ true = ground (arith, lo₁, lr) in
    (
      overlay (overlay r 0 w) (n - 1) (zip_end ∷ []),
      rw (fits, ◌>>=◌, fits') refl,
      length-overlay (overlay r 0 w) (n - 1) (zip_end ∷ []) ∙ lo₁ ∙ lr,
      get_elem?-overlay (overlay r 0 w) (n - 1) (zip_end ∷ []) i (inl (omega arith))
          ∙ get_elem?-overlay r 0 w i (inr (omega arith))
          ∙ get_elem?-realloc junk n i zl (omega arith) (omega arith),
    )

-- The move reads to the end of the bytes that there were.
move_fault :
    (zl : Bytes) (p total : ℕ)
    → length zl + 2 ≡ total
    → p + 5 < total
    → total < 2 ^ 32
    → insert_before zl p total 2 (negsuc 3) ≡ none
unfolding insert_before memmove
move_fault zl p total len inside small =
    let count : (total + 0 + 2 ^ 64 - (p + 1 + 4)) % 2 ^ 64 ≡ total - p - 5 = omega arith in
    let outside : leb (p + 4 - 0 + (total - p - 5)) (length zl) ≡ false = ground arith in
    rw (count, outside, ◌>>=◌) refl

-- Space for an entry of two bytes, where four are given up.
space_fault :
    (junk : ℕ → ℕ) (zl : Bytes) (p b : ℕ)
    → 4 ≤ p
    → p + 7 ≤ length zl
    → length zl < 2 ^ 32
    → get_elem? zl p ≡ some b
    → (b == zip_end) ≡ false
    → make_space junk zl p (length zl) 2 (negsuc 3) ≡ none
unfolding make_space
space_fault junk zl p b lo hi small first inner =
    let fewer : uint (length zl + 2 + 0 - 4) ≡ length zl - 2 =
      mod-eq_of_lt (omega arith) ∙ omega arith in
    let (zl', e, l, kept) = resized junk zl (length zl - 2) p lo (omega arith) (omega arith) in
    rw
      (
        fewer,
        e,
        ◌>>=◌,
        kept ∙ first,
        ◌>>=◌,
        inner,
        move_fault zl' p (length zl) (omega arith) (omega arith) small,
        ◌>>=◌,
      )
      refl

-- A node whose length field takes five bytes.
abbrev pub wide : Bytes → Node
wide w = record { large = true; text = w }

head_some : (w : Bytes) → 0 < length (head w)
unfolding head encode_length
head_some w = ground arith

-- How such a node starts.
wide_node :
    (prev : ℕ) (w rest : Bytes)
    → (x : Bytes) × (node_bytes prev (wide w) ++ rest ≡ 254 ∷ x)
      × (prev_len_byte_diff (node_bytes prev (wide w) ++ rest) 2 ≡ some (negsuc 3))
      × (6 ≤ node_size prev (wide w))
unfolding node_bytes prev_field prev_encode_length_force_large node_size prev_len_byte_diff
    decode_prevlensize prev_encode_length_size
wide_node prev w rest = (
  (little_endian 4 prev ++ (head w ++ payload w)) ++ rest,
  refl,
  refl,
  omega (arith, length-little_endian 4 prev, head_some w),
)

-- In front of a node whose length field takes five bytes, though the entry in front has a length for
-- one byte, an entry of two bytes is inserted: the ziplist is cut by two bytes before the rest is
-- moved, and the move reads behind its end.
pub insert-fault :
    (junk : ℕ → ℕ) {zl : Bytes} (ns ms : List Node) (w s : Bytes)
    (z : IsZiplist zl (ns ++ wide w ∷ ms))
    → z.total < 2 ^ 32 - 32
    → required (last_size 0 ns) s ≡ 2
    → insert junk zl (offset ns) s ≡ none
unfolding insert prevlen_at
insert-fault junk {zl} ns ms w s z small two =
    let prev = last_size 0 ns in
    let n = wide w in
    let p : ℕ = offset ns in
    let at = seen ns n ms z small in
    let (x, e, diff, least) = wide_node prev w at.rest in
    let total =
      ap ziplist_bytes z.layout
      ∙ Nodes.ziplist_bytes-header z.total z.tail z.count (entries 0 (ns ++ n ∷ ms) ++ zip_end ∷ [])
          z.small
      ∙ ap some (sym (length-ziplist z)) in
    let fault =
      space_fault junk zl p at.byte (omega arith) (omega (arith, at.within))
        (omega (arith, at.bounded)) at.first at.inner in
    rw
      (
        total, ◌>>=◌, at.first, ◌>>=◌, at.inner, at.dropped, at.reads.parsed, ◌>>=◌,
        at.reads.prevrawlen, two, diff, ◌>>=◌, fault, ◌>>=◌,
      )
      refl
