-- ===== src/Ziplist/Push.antt =====
-- ziplistPush at the tail.
use mathlib.Core.List.{append_assoc}
use project.Prelude.{
  ℕ, zero, suc, ◌+◌, ◌-◌, ◌^◌, ◌<◌, ◌≡◌, refl, ◌∙◌, ap, sym, ◌⊎◌, inl, inr, some, List, [], ◌∷◌,
  ◌++◌, length, length-append, drop, get_elem?, ltb, arith, ltb→lt, Bool-cases,
}
use native.Mathlib.Nat.{mod-eq_of_lt}
use project.Prelude.Int.{pos}
use project.Prelude.Options.{◌>>=◌}
use project.Rdb.{Bytes}
use project.Ziplist.{zip_end, uint}
use project.Ziplist.Blob.{
  ziplist_bytes, resize, prevlen_at, make_space, write_entry, insert, push_tail,
}
use project.Ziplist.Memory.{drop_at, get_elem?_at}
use project.Ziplist.Layout.{Node, node_size, node_bytes, node_reads, node_first, length-node_bytes}
use project.Ziplist.Nodes
use project.Ziplist.Nodes.{IsZiplist, entries, last_size, header}
use project.Ziplist.Places.{text_small, node_some}
use project.Ziplist.Write.{plain, required_size, counted_one, resize_grow, write_entry-header}

-- The field for the entry in front, at the tail.
prevlen_at_node :
    (t l c : ℕ) (front : Bytes) (prev : ℕ) (n : Node) (rest : Bytes) (p : ℕ)
    → l < 2 ^ 32
    → l ≡ length front + 10
    → prev < 2 ^ 32
    → node_size prev n < 2 ^ 32 - 32
    → prevlen_at (header t l c ++ (front ++ (node_bytes prev n ++ rest))) p zip_end
      ≡ some (node_size prev n)
unfolding prevlen_at
prevlen_at_node t l c front prev n rest p small at prev_small size =
    let (b, x, e, inner) = node_first prev n rest in
    let r = node_reads prev n rest prev_small (text_small prev n size) in
    let H = header t l c in
    let at' : l ≡ length (H ++ front) =
      omega (arith, length-append H front, Nodes.length-header t l c) in
    let assoc = sym (append_assoc H front (node_bytes prev n ++ rest)) in
    let first : get_elem? (H ++ (front ++ (node_bytes prev n ++ rest))) l ≡ some b =
      ap (λ z. get_elem? z l) (assoc ∙ ap (λ z. (H ++ front) ++ z) e)
      ∙ get_elem?_at (H ++ front) b x l at' in
    let dropped : drop l (H ++ (front ++ (node_bytes prev n ++ rest))) ≡ node_bytes prev n ++ rest =
      ap (drop l) assoc ∙ drop_at (H ++ front) (node_bytes prev n ++ rest) l at' in
    rw
      (
        Nodes.tail_offset-header t l c (front ++ (node_bytes prev n ++ rest)) small,
        ◌>>=◌,
        first,
        ◌>>=◌,
        inner,
        dropped,
      )
      (r.raw ∙ ap some (mod-eq_of_lt (omega arith)))

prevlen_at_empty :
    {zl : Bytes} (z : IsZiplist zl []) (p : ℕ) → prevlen_at zl p zip_end ≡ some (last_size 0 [])
unfolding entries last_size prevlen_at
prevlen_at_empty z p =
    let H = header z.total z.tail z.count in
    let at : z.tail ≡ 10 = omega (arith, z.at_last) in
    let first : get_elem? (H ++ zip_end ∷ []) z.tail ≡ some zip_end =
      get_elem?_at H zip_end [] z.tail
        (omega (arith, Nodes.length-header z.total z.tail z.count)) in
    let found = Nodes.tail_offset-header z.total z.tail z.count (zip_end ∷ []) (omega arith) in
    ap (λ y. prevlen_at y p zip_end) z.layout ∙ rw (found, ◌>>=◌, first, ◌>>=◌) refl

pub prevlen_at_tail :
    {zl : Bytes} {ns : List Node} (z : IsZiplist zl ns) (p : ℕ)
    → z.total < 2 ^ 32 - 32
    → prevlen_at zl p zip_end ≡ some (last_size 0 ns)
prevlen_at_tail {ns = []} z p small = prevlen_at_empty z p
prevlen_at_tail {ns = n ∷ ns} z p small =
    let (front, prev, m, e, l, le) = Nodes.split_last 0 n ns in
    let sizes = length-append front (node_bytes prev m) in
    let whole = ap length e in
    let own = length-node_bytes prev m in
    let body : entries 0 (n ∷ ns) ++ zip_end ∷ [] ≡ front ++ (node_bytes prev m ++ zip_end ∷ []) =
      ap (λ y. y ++ zip_end ∷ []) e ∙ append_assoc front (node_bytes prev m) (zip_end ∷ []) in
    ap (λ y. prevlen_at y p zip_end) (z.layout ∙ ap (λ y. header z.total z.tail z.count ++ y) body)
    ∙ prevlen_at_node z.total z.tail z.count front prev m (zip_end ∷ []) p
        (omega (arith, z.at_last, z.sized)) (omega (arith, z.at_last, z.sized))
        (omega (arith, z.at_last, z.sized)) (omega (arith, z.at_last, z.sized))
    ∙ ap some (sym l)

-- At the tail no entry is moved, and the tail is set.
make_space_tail :
    (junk : ℕ → ℕ) (t l c : ℕ) (e : Bytes) (p req : ℕ)
    → t ≡ length e + 11
    → p ≡ length e + 10
    → 0 < req
    → t + req < 2 ^ 32
    → (m : Bytes) × (length m ≡ req)
      × (make_space junk (header t l c ++ (e ++ zip_end ∷ [])) p t req (pos 0)
          ≡ some (header (t + req) p c ++ (e ++ (m ++ zip_end ∷ []))))
unfolding make_space
make_space_tail junk t l c e p zero te pe some_byte small = absurd (omega arith)
make_space_tail junk t l c e p (suc k) te pe some_byte small =
    let n : ℕ = t + suc k in
    let (J, lJ, grown) =
      resize_grow junk t l c (e ++ zip_end ∷ []) n k
        (omega (arith, length-append e (zip_end ∷ []))) in
    let shape : (e ++ zip_end ∷ []) ++ (J ++ zip_end ∷ []) ≡ e ++ ((zip_end ∷ J) ++ zip_end ∷ []) =
      simp append_assoc in
    let fits : uint (t + suc k + 0 - 0) ≡ n = mod-eq_of_lt (omega arith) ∙ omega arith in
    let H = header n l c in
    let first : get_elem? (H ++ (e ++ ((zip_end ∷ J) ++ zip_end ∷ []))) p ≡ some zip_end =
      ap (λ y. get_elem? y p) (sym (append_assoc H e ((zip_end ∷ J) ++ zip_end ∷ [])))
      ∙ get_elem?_at (H ++ e) zip_end (J ++ zip_end ∷ []) p
          (omega (arith, length-append H e, Nodes.length-header n l c)) in
    let grown' : resize junk (header t l c ++ (e ++ zip_end ∷ [])) n
        ≡ some (H ++ (e ++ ((zip_end ∷ J) ++ zip_end ∷ []))) =
      grown ∙ ap (λ y. some (H ++ y)) shape in
    (
      zip_end ∷ J,
      ap suc lJ,
      rw
          (
            fits,
            grown',
            ◌>>=◌,
            first,
            ◌>>=◌,
            Nodes.put_tail_offset-header n l c p (e ++ ((zip_end ∷ J) ++ zip_end ∷ [])),
            ◌>>=◌,
          )
          refl,
    )

pub count_kept :
    (c n : ℕ)
    → c < 2 ^ 16
    → (c ≡ n) ⊎ (c ≡ 65535)
    → ((counted_one c ≡ suc n) ⊎ (counted_one c ≡ 65535)) × (counted_one c < 2 ^ 16)
count_kept c n small h = elim (Bool-cases (ltb c 65535)) [
  | inl low ↦ rw low (inl (omega (arith, h, ltb→lt c 65535 low)), omega (arith, ltb→lt c 65535 low))
  | inr high ↦ rw high (inr (ground arith), small)
]

-- A ziplist as it is laid out with one more node.
pushed :
    (ns : List Node) (n : Node) (t c : ℕ)
    → t ≡ length (entries 0 ns) + 11
    → (c ≡ length ns) ⊎ (c ≡ 65535)
    → c < 2 ^ 16
    → t + node_size (last_size 0 ns) n < 2 ^ 32 - 32
    → IsZiplist
        (header (t + node_size (last_size 0 ns) n) (t - 1) (counted_one c)
          ++ (entries 0 ns ++ (node_bytes (last_size 0 ns) n ++ zip_end ∷ [])))
        (ns ++ n ∷ [])
pushed ns n t c te cc csmall small =
    let prev = last_size 0 ns in
    let kept = count_kept c (length ns) csmall cc in
    let grown : entries 0 (ns ++ n ∷ []) ≡ entries 0 ns ++ node_bytes prev n =
      Nodes.entries-append 0 ns (n ∷ []) ∙ ap (λ y. entries 0 ns ++ y) (Nodes.entries-one prev n) in
    let long : length (entries 0 (ns ++ n ∷ [])) ≡ length (entries 0 ns) + node_size prev n =
      ap length grown
      ∙ length-append (entries 0 ns) (node_bytes prev n)
      ∙ ap (λ k. length (entries 0 ns) + k) (length-node_bytes prev n) in
    let last : last_size 0 (ns ++ n ∷ []) ≡ node_size prev n =
      Nodes.last_size-append 0 ns (n ∷ []) ∙ unfold last_size in refl in
    let many : length (ns ++ n ∷ []) ≡ suc (length ns) = length-append ns (n ∷ []) ∙ omega arith in
    record {
      count = counted_one c;
      tail = t - 1;
      total = t + node_size prev n;
      layout =
          ap (λ y. header (t + node_size prev n) (t - 1) (counted_one c) ++ y)
            (sym (append_assoc (entries 0 ns) (node_bytes prev n) (zip_end ∷ []))
              ∙ ap (λ y. y ++ zip_end ∷ []) (sym grown));
      sized = omega arith;
      at_last = omega arith;
      counted = rw many kept.0;
      count_small = kept.1;
      small = omega arith;
    }

-- Pushing a text to the tail of a ziplist of nodes gives a ziplist of these nodes and the text, where
-- the size stays below 2 ^ 32 - 32.
pub push_tail-IsZiplist :
    (junk : ℕ → ℕ) {zl : Bytes} {ns : List Node} (s : Bytes) (z : IsZiplist zl ns)
    → z.total + node_size (last_size 0 ns) (plain s) < 2 ^ 32 - 32
    → (zl' : Bytes) × (push_tail junk zl s ≡ some zl') × IsZiplist zl' (ns ++ plain s ∷ [])
unfolding push_tail insert
push_tail-IsZiplist junk {zl} {ns} s z small =
    let prev = last_size 0 ns in
    let E = entries 0 ns in
    let t = z.total in
    let p = t - 1 in
    let fits = text_small prev (plain s) (omega arith) in
    let req = required_size prev s fits in
    let total =
      ap ziplist_bytes z.layout
      ∙ Nodes.ziplist_bytes-header t z.tail z.count (E ++ zip_end ∷ []) z.small in
    let H = header t z.tail z.count in
    let first : get_elem? zl p ≡ some zip_end =
      ap (λ y. get_elem? y p) (z.layout ∙ sym (append_assoc H E (zip_end ∷ [])))
      ∙ get_elem?_at (H ++ E) zip_end [] p
          (omega (arith, length-append H E, Nodes.length-header t z.tail z.count, z.sized)) in
    let (m, lm, space) =
      make_space_tail junk t z.tail z.count E p (node_size prev (plain s)) z.sized
        (omega (arith, z.sized)) (node_some prev (plain s)) (omega arith) in
    let written =
      write_entry-header (t + node_size prev (plain s)) p z.count E m (zip_end ∷ []) prev s p fits
        z.count_small lm (omega (arith, z.sized)) in
    (
      header (t + node_size prev (plain s)) p (counted_one z.count)
          ++ (E ++ (node_bytes prev (plain s) ++ zip_end ∷ [])),
      rw (total, ◌>>=◌, first, ◌>>=◌, prevlen_at_tail z p (omega arith), ◌>>=◌, req)
          (ap
              (λ y. make_space junk y p t (node_size prev (plain s)) (pos 0) >>= λ zl'.
                write_entry zl' p prev s)
              z.layout
            ∙ rw (space, ◌>>=◌) written),
      pushed ns (plain s) t z.count z.sized z.counted z.count_small small,
    )
