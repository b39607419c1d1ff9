-- ===== src/Ziplist/Contents.antt =====
-- A ziplist read as the list of its texts.
use mathlib.Core.Option
use mathlib.Core.List.{append_assoc, append-nil}
use project.Prelude.{
  ℕ, zero, suc, ◌+◌, ◌-◌, ◌^◌, ◌≤◌, ◌<◌, ◌≡◌, refl, ◌∙◌, ap, sym, subst, inl, inr, some, none,
  Option, List, [], ◌∷◌, ◌++◌, length, length-append, map, drop, get_elem?, ltb, ltb→lt, ltb→le,
  if◌then◌else◌, arith, Bool-cases,
}
use project.Prelude.Int.{ℤ, pos}
use project.Prelude.Options.{◌>>=◌}
use project.Rdb.{Bytes}
use project.Util.{ll2string}
use project.Util.Decimal.{IsLongLong}
use project.Ziplist.Shown.{shown, shown-meaning, meaning-ll2string}
use project.Ziplist.{zip_end}
use project.Ziplist.Blob.{new, push_tail, ziplist_length, put_length}
use project.Ziplist.Visit.{Value, number, get, index, next, prev, len}
use project.Ziplist.Layout.{Node, node_size, node_bytes, meaning, length-node_bytes}
use project.Ziplist.Nodes
use project.Ziplist.Nodes.{IsZiplist, entries, last_size, header}
use project.Ziplist.Places.{offset, length-ziplist, node_some}
use project.Ziplist.Write.{plain}
use project.Ziplist.Push.{push_tail-IsZiplist}
use project.Ziplist.Walk.{
  index-node, index-behind, get-node, next-node, prev-node, count_loop-length,
}

-- ziplistGet at what ziplistIndex finds.
abbrev pub read_index : Bytes → ℕ → Option (Option Value)
read_index zl i = index zl (pos i) >>= λ at. elim at [ none ↦ some none | some p ↦ get (drop p zl) ]

-- What a node stands for.
abbrev pub node_meaning : Node → Value
node_meaning n = meaning n.text

pub split_at :
    (ns : List Node) (i : ℕ)
    → i < length ns
    → (front : List Node) × (n : Node) × (back : List Node) × (ns ≡ front ++ n ∷ back)
      × (length front ≡ i)
      × (get_elem? ns i ≡ some n)
split_at [] i h = absurd (omega arith)
split_at (n ∷ ns) zero h = ([], n, ns, refl, refl, refl)
split_at (n ∷ ns) (suc i) h =
    let (front, m, back, e, l, g) = split_at ns i (omega arith) in
    (n ∷ front, m, back, ap (λ x. n ∷ x) e, ap suc l, g)

pub get_elem?-none : (ns : List Node) (i : ℕ) → length ns ≤ i → get_elem? ns i ≡ none
get_elem?-none [] i h = refl
get_elem?-none (n ∷ ns) zero h = absurd (omega arith)
get_elem?-none (n ∷ ns) (suc i) h = get_elem?-none ns i (omega arith)

-- What is read at an index is what the node there stands for, and nothing where there is none.
pub read_index-get_elem? :
    {zl : Bytes} (ns : List Node) (i : ℕ)
    → IsZiplist zl ns
    → length zl < 2 ^ 32 - 32
    → read_index zl i ≡ some (Option.map node_meaning (get_elem? ns i))
read_index-get_elem? {zl} ns i z bound = elim (Bool-cases (ltb i (length ns))) [
  | inl inside ↦
      let (front, n, back, e, l, g) = split_at ns i (ltb→lt i (length ns) inside) in
      let z' = subst (IsZiplist zl) e z in
      let at : index zl (pos i) ≡ some (some (offset front)) =
        rw l at (index-node bound front n back z') in
      rw (at, ◌>>=◌, get-node bound front n back z', g) refl
  | inr outside ↦
      let high = ltb→le i (length ns) outside in
      rw (index-behind bound ns i z high, ◌>>=◌, get_elem?-none ns i high) refl
]

-- From a node ziplistNext goes to the one behind it, and ziplistPrev back.
pub next-prev :
    {zl : Bytes} (ns : List Node) (n m : Node) (ms : List Node)
    → IsZiplist zl (ns ++ n ∷ m ∷ ms)
    → length zl < 2 ^ 32 - 32
    → (next zl (offset ns) ≡ some (some (offset (ns ++ n ∷ []))))
      × (prev zl (offset (ns ++ n ∷ [])) ≡ some (some (offset ns)))
next-prev ns n m ms z bound = (next-node bound ns n m ms z, prev-node bound ns n m ms z)

pub length-le-entries : (prev : ℕ) (ns : List Node) → length ns ≤ length (entries prev ns)
unfolding entries
length-le-entries prev [] = omega arith
length-le-entries prev (n ∷ ns) = omega (
  arith,
  length-le-entries (node_size prev n) ns,
  node_some prev n,
  length-node_bytes prev n,
  length-append (node_bytes prev n) (entries (node_size prev n) ns),
)

-- The header with the count put right.
recounted :
    {zl : Bytes} {ns : List Node} (z : IsZiplist zl ns)
    → length ns < 65535
    → IsZiplist (header z.total z.tail (length ns) ++ (entries 0 ns ++ zip_end ∷ [])) ns
recounted {ns = ns} z few = record {
  count = length ns;
  tail = z.tail;
  total = z.total;
  layout = refl;
  sized = z.sized;
  at_last = z.at_last;
  counted = inl refl;
  count_small = omega arith;
  small = z.small;
}

-- The count that the loop finds is stored where it is small.
restored :
    {zl : Bytes} {ns : List Node} (z : IsZiplist zl ns)
    → (zl' : Bytes) × ((if ltb (length ns) 65535 then put_length (length ns) zl else some zl)
        ≡ some zl')
      × IsZiplist zl' ns
restored {zl} {ns} z = elim (Bool-cases (ltb (length ns) 65535)) [
  | inl few ↦ (
    header z.total z.tail (length ns) ++ (entries 0 ns ++ zip_end ∷ []),
    rw few (
        ap (put_length (length ns)) z.layout
        ∙ Nodes.put_length-header z.total z.tail z.count (length ns)
            (entries 0 ns ++ zip_end ∷ [])),
    recounted z (ltb→lt (length ns) 65535 few),
  )
  | inr many ↦ (zl, rw many refl, z)
]

-- ziplistLen is the number of nodes, also where the count in the header says nothing, and leaves a
-- ziplist of the same nodes.
pub len-length :
    {zl : Bytes} (ns : List Node)
    → IsZiplist zl ns
    → length zl < 2 ^ 32 - 32
    → (zl' : Bytes) × (len zl ≡ some (length ns, zl')) × IsZiplist zl' ns
unfolding len entries
len-length {zl} ns z bound =
    let header_count : ziplist_length zl ≡ some z.count =
      ap ziplist_length z.layout
      ∙ Nodes.ziplist_length-header z.total z.tail z.count (entries 0 ns ++ zip_end ∷ [])
          z.count_small in
    elim (Bool-cases (ltb z.count 65535)) [
      | inl low ↦
          let known : z.count ≡ length ns = omega (arith, z.counted, ltb→lt z.count 65535 low) in
          (zl, rw (header_count, ◌>>=◌, low) (ap (λ k. some (k, zl)) known), z)
      | inr high ↦
          let (zl', e, z') = restored z in
          let run =
            count_loop-length bound (length zl) [] ns 0 z
              (omega (arith, length-le-entries 0 ns, length-ziplist z, z.sized)) in
          let zero_plus : 0 + length ns ≡ length ns = omega arith in
          (zl', rw (header_count, ◌>>=◌, high, run, ◌>>=◌, zero_plus, e, ◌>>=◌) refl, z')
    ]

-- The texts of a list pushed to the tail, one after the other.
unfoldable pub push_all : (ℕ → ℕ) → Bytes → List Bytes → Option Bytes
push_all junk zl [] = some zl
push_all junk zl (s ∷ ss) = push_tail junk zl s >>= λ zl'. push_all junk zl' ss

-- The empty ziplist.
pub new-IsZiplist : IsZiplist new []
unfolding new entries last_size
new-IsZiplist = record {
  count = 0;
  tail = 10;
  total = 11;
  layout = sym (Nodes.header_shape 11 10 0 (zip_end ∷ []));
  sized = refl;
  at_last = refl;
  counted = inl refl;
  count_small = omega arith;
  small = omega arith;
}

-- The size of a ziplist of the nodes.
abbrev pub blob_size : List Node → ℕ
blob_size ns = length (entries 0 ns) + 11

blob_size-le :
    (ns : List Node) (n : Node) (ms : List Node)
    → blob_size ns + node_size (last_size 0 ns) n ≤ blob_size (ns ++ n ∷ ms)
unfolding entries
blob_size-le ns n ms =
    let prev = last_size 0 ns in
    let after = entries (node_size prev n) ms in
    omega (
      arith,
      ap length (Nodes.entries-append 0 ns (n ∷ ms)),
      length-append (entries 0 ns) (node_bytes prev n ++ after),
      length-append (node_bytes prev n) after,
      length-node_bytes prev n,
    )

pub push_all-IsZiplist :
    (junk : ℕ → ℕ) (ss : List Bytes) (zl : Bytes) (ns : List Node)
    → IsZiplist zl ns
    → blob_size (ns ++ map plain ss) < 2 ^ 32 - 32
    → (zl' : Bytes) × (push_all junk zl ss ≡ some zl') × IsZiplist zl' (ns ++ map plain ss)
unfolding push_all
push_all-IsZiplist junk [] zl ns z small = (zl, refl, subst (IsZiplist zl) (sym (append-nil ns)) z)
push_all-IsZiplist junk (s ∷ ss) zl ns z small =
    let room = blob_size-le ns (plain s) (map plain ss) in
    let (zl₁, e, z₁) = push_tail-IsZiplist junk s z (omega (arith, z.sized)) in
    let group = append_assoc ns (plain s ∷ []) (map plain ss) in
    let (zl', e', z') = push_all-IsZiplist junk ss zl₁ (ns ++ plain s ∷ []) z₁ (rw group small) in
    (zl', rw (e, ◌>>=◌) e', subst (IsZiplist zl') group z')

-- The node of a text that was pushed.
get_elem?-plain :
    (ss : List Bytes) (i : ℕ)
    → Option.map node_meaning (get_elem? (map plain ss) i) ≡ Option.map meaning (get_elem? ss i)
get_elem?-plain [] i = refl
get_elem?-plain (s ∷ ss) zero = refl
get_elem?-plain (s ∷ ss) (suc i) = get_elem?-plain ss i

-- What is read for a text that may be there: an integer's digits or a string are the text, and the
-- text that ll2string writes for a long long is read as that integer.
pub record IsReadAs (s : Option Bytes) (o : Option Value) : Type 0 where
  pub same : Option.map shown o ≡ s
  pub integer : (v : ℤ) → IsLongLong v → s ≡ some (ll2string 32 v) → o ≡ some (number v)

meaning-IsReadAs : (s : Option Bytes) → IsReadAs s (Option.map meaning s)
meaning-IsReadAs none = record { same = refl; integer = λ v r e. cc }
meaning-IsReadAs (some s) = record {
  same = ap some (shown-meaning s);
  integer = λ v r e. ap (Option.map meaning) e ∙ ap some (meaning-ll2string v r);
}

-- Texts pushed to a new ziplist, of a size below 2^32 - 32, are read back by their index: a string
-- as the text, an integer whose digits are the text, and each text that ll2string writes for a long
-- long as that integer. Behind the last one nothing is read.
pub read_index-push_all :
    (junk : ℕ → ℕ) (ss : List Bytes) (i : ℕ)
    → blob_size (map plain ss) < 2 ^ 32 - 32
    → (zl : Bytes) × (push_all junk new ss ≡ some zl)
      × (o : Option Value) × (read_index zl i ≡ some o)
      × IsReadAs (get_elem? ss i) o
read_index-push_all junk ss i small =
    let (zl, e, z) = push_all-IsZiplist junk ss new [] new-IsZiplist small in
    (
      zl,
      e,
      Option.map meaning (get_elem? ss i),
      read_index-get_elem? (map plain ss) i z (omega (arith, length-ziplist z, z.sized))
          ∙ ap some (get_elem?-plain ss i),
      meaning-IsReadAs (get_elem? ss i),
    )
