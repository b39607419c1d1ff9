-- ===== src/Ziplist/Places.antt =====
-- What stands at the offset of a node, and at the end.
use mathlib.Core.List.{append_assoc}
use project.Prelude.{
  ℕ, ◌+◌, ◌-◌, ◌^◌, ◌≤◌, ◌<◌, ◌≡◌, refl, ◌∙◌, ap, sym, false, some, List, [], ◌∷◌, ◌++◌, length,
  length-append, drop, get_elem?, ◌==◌, arith,
}
use project.Rdb.{Bytes}
use project.Ziplist.{zip_end}
use project.Ziplist.Memory.{drop_at, get_elem?_at}
use project.Ziplist.Layout.{
  Node, node_size, node_bytes, Reads, node_reads, node_first, length-node_bytes, length-le-payload,
}
use project.Ziplist.Nodes
use project.Ziplist.Nodes.{IsZiplist, entries, last_size, header}

-- The texts are shorter than the node.
pub text_small : (prev : ℕ) (n : Node) → node_size prev n < 2 ^ 32 - 32 → length n.text < 2 ^ 32
unfolding node_size
text_small prev n h = omega (arith, length-le-payload n.text)

pub node_some : (prev : ℕ) (n : Node) → 0 < node_size prev n
node_some prev n =
    let (b, x, e, inner) = node_first prev n [] in
    omega (arith, ap length e, length-append (node_bytes prev n) [], length-node_bytes prev n)

pub last_size-le : (prev : ℕ) (ns : List Node) → last_size prev ns ≤ prev + length (entries prev ns)
unfolding last_size entries
last_size-le prev [] = omega arith
last_size-le prev (n ∷ ns) = omega (
  arith,
  last_size-le (node_size prev n) ns,
  length-append (node_bytes prev n) (entries (node_size prev n) ns),
  length-node_bytes prev n,
)

-- The offset of the node behind `ns`.
abbrev pub offset : List Node → ℕ
offset ns = length (entries 0 ns) + 10

-- The node `n` behind `ns`, in the bytes.
pub record Seen (zl : Bytes) (ns : List Node) (n : Node) : Type 0 where
  pub rest : Bytes
  pub dropped : drop (offset ns) zl ≡ node_bytes (last_size 0 ns) n ++ rest
  pub byte : ℕ
  pub first : get_elem? zl (offset ns) ≡ some byte
  pub inner : (byte == zip_end) ≡ false
  pub reads : Reads (last_size 0 ns) n rest
  pub within : length (entries 0 ns) + node_size (last_size 0 ns) n + 11 ≤ length zl
  pub bounded : length zl < 2 ^ 32 - 32

pub length-ziplist : {zl : Bytes} {ns : List Node} (z : IsZiplist zl ns) → length zl ≡ z.total
length-ziplist {zl} {ns} z =
    ap length z.layout
    ∙ omega (
      arith,
      length-append (header z.total z.tail z.count) (entries 0 ns ++ zip_end ∷ []),
      Nodes.length-header z.total z.tail z.count,
      length-append (entries 0 ns) (zip_end ∷ []),
      z.sized,
    )

-- The bytes in front of an entry, or of the end.
module _ (H E x : Bytes) (lH : length H ≡ 10) where
  dropped_at : drop (length E + 10) (H ++ (E ++ x)) ≡ x
  dropped_at =
      ap (drop (length E + 10)) (sym (append_assoc H E x))
      ∙ drop_at (H ++ E) x (length E + 10) (omega (arith, length-append H E))

first_at :
    (H E : Bytes) (b : ℕ) (x : Bytes)
    → length H ≡ 10
    → get_elem? (H ++ (E ++ b ∷ x)) (length E + 10) ≡ some b
first_at H E b x lH =
    ap (λ y. get_elem? y (length E + 10)) (sym (append_assoc H E (b ∷ x)))
    ∙ get_elem?_at (H ++ E) b x (length E + 10) (omega (arith, length-append H E))

pub at_end :
    {zl : Bytes} {ns : List Node} → IsZiplist zl ns → get_elem? zl (offset ns) ≡ some zip_end
at_end {ns = ns} z =
    ap (λ y. get_elem? y (offset ns)) z.layout
    ∙ first_at (header z.total z.tail z.count) (entries 0 ns) zip_end []
        (Nodes.length-header z.total z.tail z.count)

pub seen :
    {zl : Bytes} (ns : List Node) (n : Node) (ms : List Node) (z : IsZiplist zl (ns ++ n ∷ ms))
    → z.total < 2 ^ 32 - 32
    → Seen zl ns n
seen {zl} ns n ms z small =
    let prev = last_size 0 ns in
    let E = entries 0 ns in
    let H = header z.total z.tail z.count in
    let lH = Nodes.length-header z.total z.tail z.count in
    let N = node_bytes prev n in
    let after = entries (node_size prev n) ms in
    let rest = after ++ zip_end ∷ [] in
    let inside : entries 0 (ns ++ n ∷ ms) ≡ E ++ (N ++ after) =
      Nodes.entries-append 0 ns (n ∷ ms) ∙ unfold entries in refl in
    let shape : zl ≡ H ++ (E ++ (N ++ rest)) =
      z.layout ∙ ap (λ y. H ++ (y ++ zip_end ∷ [])) inside ∙ simp append_assoc in
    let sizes : length E + node_size prev n + 11 ≤ z.total = omega (
      arith,
      z.sized,
      ap length inside,
      length-append E (N ++ after),
      length-append N after,
      length-node_bytes prev n,
    ) in
    let (b, x, e, inner) = node_first prev n rest in
    record {
      rest = rest;
      dropped = ap (drop (offset ns)) shape ∙ dropped_at H E (N ++ rest) lH;
      byte = b;
      first =
          ap (λ y. get_elem? y (offset ns)) (shape ∙ ap (λ y. H ++ (E ++ y)) e)
          ∙ first_at H E b x lH;
      inner = inner;
      reads =
          node_reads prev n rest (omega (arith, last_size-le 0 ns))
            (text_small prev n (omega arith));
      within = omega (arith, length-ziplist z);
      bounded = omega (arith, length-ziplist z);
    }
