-- ===== src/Ziplist/Nodes.antt =====
-- A ziplist of given nodes: the header, the entries and the end marker.
use mathlib.Core.List.{append_assoc, append-nil}
use project.Prelude.{
  ℕ, ◌+◌, ◌^◌, ◌≤◌, ◌<◌, ◌≡◌, refl, ◌∙◌, ap, sym, ◌⊎◌, some, List, [], ◌∷◌, ◌++◌, length,
  length-append, arith,
}
use project.Prelude.Options.{◌>>=◌}
use project.Rdb.{Bytes, little_endian}
use project.Rdb.Integer.{read_little-little_endian}
use project.Sds.{memcpy}
use project.Ziplist.{zip_end}
use project.Ziplist.Blob.{
  ziplist_bytes, tail_offset, ziplist_length, put_bytes, put_tail_offset, put_length,
}
use project.Ziplist.Encoding.{length-little_endian}
use project.Ziplist.Memory.{drop_at, memcpy_at}
use project.Ziplist.Layout.{Node, node_size, node_bytes, length-node_bytes}

unfoldable pub entries : ℕ → List Node → Bytes
entries prev [] = []
entries prev (n ∷ ns) = node_bytes prev n ++ entries (node_size prev n) ns

-- The size of the last node.
unfoldable pub last_size : ℕ → List Node → ℕ
last_size prev [] = prev
last_size prev (n ∷ ns) = last_size (node_size prev n) ns

unfoldable pub header : ℕ → ℕ → ℕ → Bytes
header total tail count = little_endian 4 total ++ (little_endian 4 tail ++ little_endian 2 count)

pub length-header : (t l c : ℕ) → length (header t l c) ≡ 10
unfolding header
length-header t l c = omega (
  arith,
  length-append (little_endian 4 t) (little_endian 4 l ++ little_endian 2 c),
  length-append (little_endian 4 l) (little_endian 2 c),
  length-little_endian 4 t,
  length-little_endian 4 l,
  length-little_endian 2 c,
)

module _ (t l c : ℕ) (x : Bytes) where
  pub header_shape :
      header t l c ++ x ≡ little_endian 4 t ++ (little_endian 4 l ++ (little_endian 2 c ++ x))
  unfolding header
  header_shape =
      append_assoc (little_endian 4 t) (little_endian 4 l ++ little_endian 2 c) x
      ∙ ap (λ y. little_endian 4 t ++ y) (append_assoc (little_endian 4 l) (little_endian 2 c) x)

  header_shape_two :
      header t l c ++ x ≡ (little_endian 4 t ++ little_endian 4 l) ++ (little_endian 2 c ++ x)
  header_shape_two =
      header_shape
      ∙ sym (append_assoc (little_endian 4 t) (little_endian 4 l) (little_endian 2 c ++ x))

  two_words : length (little_endian 4 t ++ little_endian 4 l) ≡ 8
  two_words = omega (
    arith,
    length-append (little_endian 4 t) (little_endian 4 l),
    length-little_endian 4 t,
    length-little_endian 4 l,
  )

  pub ziplist_bytes-header : t < 2 ^ 32 → ziplist_bytes (header t l c ++ x) ≡ some t
  unfolding ziplist_bytes
  ziplist_bytes-header small = rw header_shape (
      rw
        (read_little-little_endian 4 t (little_endian 4 l ++ (little_endian 2 c ++ x)) small, ◌>>=◌)
        refl)

  pub tail_offset-header : l < 2 ^ 32 → tail_offset (header t l c ++ x) ≡ some l
  unfolding tail_offset
  tail_offset-header small =
      rw
        (
          header_shape,
          drop_at (little_endian 4 t) (little_endian 4 l ++ (little_endian 2 c ++ x)) 4
              (sym (length-little_endian 4 t)),
          read_little-little_endian 4 l (little_endian 2 c ++ x) small,
          ◌>>=◌,
        )
        refl

  pub ziplist_length-header : c < 2 ^ 16 → ziplist_length (header t l c ++ x) ≡ some c
  unfolding ziplist_length
  ziplist_length-header small =
      rw
        (
          header_shape_two,
          drop_at (little_endian 4 t ++ little_endian 4 l) (little_endian 2 c ++ x) 8
              (sym two_words),
          read_little-little_endian 2 c x small,
          ◌>>=◌,
        )
        refl

module _ (t l c n : ℕ) (x : Bytes) where
  pub put_bytes-header : put_bytes n (header t l c ++ x) ≡ some (header n l c ++ x)
  unfolding put_bytes
  put_bytes-header =
      ap (λ z. memcpy z 0 (little_endian 4 n)) (header_shape t l c x)
      ∙ memcpy_at [] (little_endian 4 t) (little_endian 4 l ++ (little_endian 2 c ++ x))
          (little_endian 4 n) 0 refl (length-little_endian 4 t ∙ sym (length-little_endian 4 n))
      ∙ ap some (sym (header_shape n l c x))

  pub put_tail_offset-header : put_tail_offset n (header t l c ++ x) ≡ some (header t n c ++ x)
  unfolding put_tail_offset
  put_tail_offset-header =
      ap (λ z. memcpy z 4 (little_endian 4 n)) (header_shape t l c x)
      ∙ memcpy_at (little_endian 4 t) (little_endian 4 l) (little_endian 2 c ++ x)
          (little_endian 4 n) 4 (sym (length-little_endian 4 t))
          (length-little_endian 4 l ∙ sym (length-little_endian 4 n))
      ∙ ap some (sym (header_shape t n c x))

  pub put_length-header : put_length n (header t l c ++ x) ≡ some (header t l n ++ x)
  unfolding put_length
  put_length-header =
      ap (λ z. memcpy z 8 (little_endian 2 n)) (header_shape_two t l c x)
      ∙ memcpy_at (little_endian 4 t ++ little_endian 4 l) (little_endian 2 c) x (little_endian 2 n)
          8 (sym (two_words t l c x)) (length-little_endian 2 c ∙ sym (length-little_endian 2 n))
      ∙ ap some (sym (header_shape_two t l n x))

-- The bytes of a ziplist that holds the nodes. A count of 65535 says nothing.
pub record IsZiplist (zl : Bytes) (ns : List Node) : Type 0 where
  pub count : ℕ
  pub tail : ℕ
  pub total : ℕ
  pub layout : zl ≡ header total tail count ++ (entries 0 ns ++ zip_end ∷ [])
  pub sized : total ≡ length (entries 0 ns) + 11
  pub at_last : tail + last_size 0 ns ≡ length (entries 0 ns) + 10
  pub counted : (count ≡ length ns) ⊎ (count ≡ 65535)
  pub count_small : count < 2 ^ 16
  pub small : total < 2 ^ 32

pub entries-append :
    (prev : ℕ) (ns ms : List Node)
    → entries prev (ns ++ ms) ≡ entries prev ns ++ entries (last_size prev ns) ms
unfolding entries last_size
entries-append prev [] ms = refl
entries-append prev (n ∷ ns) ms =
    ap (λ x. node_bytes prev n ++ x) (entries-append (node_size prev n) ns ms)
    ∙ sym (
        append_assoc (node_bytes prev n) (entries (node_size prev n) ns)
          (entries (last_size (node_size prev n) ns) ms))

pub last_size-append :
    (prev : ℕ) (ns ms : List Node) → last_size prev (ns ++ ms) ≡ last_size (last_size prev ns) ms
unfolding last_size
last_size-append prev [] ms = refl
last_size-append prev (n ∷ ns) ms = last_size-append (node_size prev n) ns ms

pub entries-one : (prev : ℕ) (n : Node) → entries prev (n ∷ []) ≡ node_bytes prev n
unfolding entries
entries-one prev n = append-nil (node_bytes prev n)

-- The last node and what stands in front of it.
pub split_last :
    (prev : ℕ) (n : Node) (ns : List Node)
    → (front : Bytes) × (prev' : ℕ) × (m : Node) × (entries prev (n ∷ ns)
        ≡ front ++ node_bytes prev' m)
      × (last_size prev (n ∷ ns) ≡ node_size prev' m)
      × (prev' ≤ prev + length front)
unfolding entries last_size
split_last prev n [] = ([], prev, n, entries-one prev n, refl, omega arith)
split_last prev n (n' ∷ ns) =
    let (front, prev', m, e, l, b) = split_last (node_size prev n) n' ns in
    (
      node_bytes prev n ++ front,
      prev',
      m,
      ap (λ x. node_bytes prev n ++ x) e
          ∙ sym (append_assoc (node_bytes prev n) front (node_bytes prev' m)),
      l,
      omega (arith, length-append (node_bytes prev n) front, length-node_bytes prev n),
    )

pub length-one : (prev : ℕ) (n : Node) → length (entries prev (n ∷ [])) ≡ node_size prev n
length-one prev n = ap length (entries-one prev n) ∙ length-node_bytes prev n
