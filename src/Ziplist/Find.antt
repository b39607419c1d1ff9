-- ===== src/Ziplist/Find.antt =====
-- ziplistFind on a ziplist of given nodes.
use mathlib.Core.Option
use mathlib.Core.List.{append_assoc, append-nil}
use project.Prelude.{
  ℕ, zero, suc, ◌+◌, ◌-◌, ◌^◌, ◌<◌, ◌≡◌, refl, ◌∙◌, ap, sym, subst, Bool, inl, inr, true, false,
  some, none, Option, List, [], ◌∷◌, ◌++◌, length, length-take, take, drop, ◌==◌, leb, leb→le,
  if◌then◌else◌, arith, Bool-cases, Option-cases,
}
use project.Prelude.Int.{ℤ}
use project.Prelude.Options.{◌>>=◌}
use project.Rdb.{Bytes}
use project.Ziplist.{is_str, try_encoding, load_integer}
use project.Ziplist.Visit.{
  Value, text, number, same_bytes, same_int, same_entry, read_payload, parts, find_loop, find,
}
use project.Ziplist.Layout.{Node, node_bytes, meaning}
use project.Ziplist.Texts.{meaning_of}
use project.Ziplist.Nodes.{IsZiplist, entries, last_size}
use project.Ziplist.Places.{offset, at_end, length-ziplist}
use project.Ziplist.Contents.{length-le-entries}
use project.Ziplist.Walk.{at_node, offset-snoc, regroup}

-- Equal strings, or equal integers.
unfoldable pub same_value : Value → Value → Bool
same_value (text a) (text b) = same_bytes a b
same_value (number v) (number w) = same_int v w
same_value (text a) (number w) = false
same_value (number v) (text b) = false

pub same_bytes→eq : (a b : Bytes) → same_bytes a b ≡ true → a ≡ b
unfolding same_bytes
same_bytes→eq [] [] h = refl
same_bytes→eq [] (c ∷ b) h = cc
same_bytes→eq (d ∷ a) [] h = cc
same_bytes→eq (d ∷ a) (c ∷ b) h = elim (Bool-cases (d == c)) [
  | inl e ↦ ground (arith, e, same_bytes→eq a b (rw e at h))
  | inr e ↦ cc (rw e at h)
]

same_bytes_length : (a b : Bytes) → (length a == length b) ≡ false → same_bytes a b ≡ false
unfolding same_bytes
same_bytes_length [] [] h = cc
same_bytes_length [] (c ∷ b) h = refl
same_bytes_length (d ∷ a) [] h = refl
same_bytes_length (d ∷ a) (c ∷ b) h = ground (arith, same_bytes_length a b)

-- The first node that is compared and holds what `s` stands for; `skip` nodes between two that are
-- compared are left out, and `count` in front of the first one.
unfoldable pub position : Bytes → ℕ → ℕ → List Node → Option ℕ
position s skip count [] = none
position s skip count (n ∷ ns) =
    let rest = position s skip (if count == 0 then skip else count - 1) ns in
    if (if count == 0 then same_value (meaning n.text) (meaning s) else false)
    then some 0
    else Option.map suc rest

-- A string that is read is the text, and an integer that is read its value.
read_string :
    (len : ℕ) (q w : Bytes) (o : Option (ℤ × ℕ))
    → (if leb len (length q) then some (text (take len q)) else none) ≡ some (meaning_of o w)
    → (o ≡ none) × (take len q ≡ w) × (leb len (length q) ≡ true)
read_string len q w none h = elim (Bool-cases (leb len (length q))) [
  | inl inside ↦
      let e : some (text (take len q)) ≡ some (text w) = rw inside at h in (refl, cc, inside)
  | inr outside ↦ cc (rw outside at h)
]
read_string len q w (some (v, c)) h = elim (Bool-cases (leb len (length q))) [
  | inl inside ↦ cc (rw inside at h)
  | inr outside ↦ cc (rw outside at h)
]

read_number :
    (l : Option ℤ) (w : Bytes) (o : Option (ℤ × ℕ))
    → (l >>= λ v. some (number v)) ≡ some (meaning_of o w)
    → (v : ℤ) × (c : ℕ) × (o ≡ some (v, c)) × (l ≡ some v)
read_number none w o h = cc
read_number (some v) w none h = cc
read_number (some v) w (some (v', c)) h = (v, c, cc, refl)

-- A text against a string: the bytes are compared where the lengths are equal.
same_string :
    (w s : Bytes)
    → try_encoding w ≡ none
    → (if length w == length s then some (same_bytes w s) else some false)
      ≡ some (same_value (text w) (meaning s))
unfolding meaning same_value
same_string w s plain = elim (Option-cases (try_encoding s)) [
  | inl e ↦ elim (Bool-cases (length w == length s)) [
    | inl long ↦ rw (e, long) refl
    | inr other ↦ rw (e, other) (ap some (sym (same_bytes_length w s other)))
  ]
  | inr (c, e) ↦
      let differ : same_bytes w s ≡ false = elim (Bool-cases (same_bytes w s)) [
        | inl same ↦ cc (sym (rw (same_bytes→eq w s same) at plain) ∙ e)
        | inr other ↦ other
      ] in
      elim (Bool-cases (length w == length s)) [
        | inl long ↦ rw (e, long, differ) refl
        | inr other ↦ rw (e, other) refl
      ]
]

same_number :
    (v : ℤ) (l : Option ℤ) (s : Bytes)
    → l ≡ some v
    → elim (try_encoding s) [ none ↦ some false | some (w, e) ↦ l >>= λ u. some (same_int u w) ]
      ≡ some (same_value (number v) (meaning s))
unfolding meaning same_value
same_number v l s loaded = elim (Option-cases (try_encoding s)) [
  | inl e ↦ rw e refl
  | inr (c, e) ↦ rw (e, loaded) refl
]

-- The entry of a text is compared by what it stands for.
same_entry-meaning :
    (code len : ℕ) (q w s : Bytes)
    → read_payload code len q ≡ some (meaning w)
    → same_entry code len q s ≡ some (same_value (meaning w) (meaning s))
unfolding read_payload same_entry meaning
same_entry-meaning code len q w s h = elim (Bool-cases (is_str code)) [
  | inl string ↦
      let (plain, e, inside) = read_string len q w (try_encoding w) (rw string at h) in
      let long : len ≡ length w =
        sym (ap length (sym e) ∙ length-take len q ∙ omega (arith, leb→le len (length q) inside)) in
      let shown : meaning w ≡ text w = ap (λ o. meaning_of o w) plain in
      rw (string, inside, e, long)
        (same_string w s plain ∙ ap (λ m. some (same_value m (meaning s))) (sym shown))
  | inr int ↦
      let (v, c, e, loaded) = read_number (load_integer q code) w (try_encoding w) (rw int at h) in
      let shown : meaning w ≡ number v = ap (λ o. meaning_of o w) e in
      rw int (
        same_number v (load_integer q code) s loaded
        ∙ ap (λ m. some (same_value m (meaning s))) (sym shown))
]

drop_nil : (a : ℕ) → drop {A = ℕ} a [] ≡ []
drop_nil zero = refl
drop_nil (suc a) = refl

drop-suc : (k a : ℕ) (c : ℕ) (x : Bytes) → k ≡ suc a → drop k (c ∷ x) ≡ drop a x
drop-suc zero a c x e = absurd (omega arith)
drop-suc (suc k) a c x e = ap (λ j. drop j x) (omega arith)

drop_add : (a b : ℕ) (x : Bytes) → drop (a + b) x ≡ drop b (drop a x)
drop_add zero b x = ap (λ k. drop k x) (omega arith)
drop_add (suc a) b [] = drop_nil (suc a + b) ∙ sym (drop_nil b)
drop_add (suc a) b (c ∷ x) = drop-suc (suc a + b) (a + b) c x (omega arith) ∙ drop_add a b x

-- The offset of a position behind `ns`.
abbrev pub offset_at : List Node → List Node → ℕ → ℕ
offset_at ns ms i = offset (ns ++ take i ms)

shift :
    (ns : List Node) (n : Node) (ms : List Node) (o : Option ℕ)
    → Option.map (offset_at (ns ++ n ∷ []) ms) o
      ≡ Option.map (offset_at ns (n ∷ ms)) (Option.map suc o)
shift ns n ms none = refl
shift ns n ms (some i) = ap (λ x. some (offset x)) (append_assoc ns (n ∷ []) (take i ms))

module _ {zl : Bytes} (bound : length zl < 2 ^ 32 - 32) (s : Bytes) (skip : ℕ) where
  find_loop-position :
      (fuel : ℕ) (ns ms : List Node) (count : ℕ)
      → IsZiplist zl (ns ++ ms)
      → length ms < fuel
      → find_loop fuel zl (offset ns) s skip count
        ≡ some (Option.map (offset_at ns ms) (position s skip count ms))
  unfolding find_loop position
  find_loop-position zero ns ms count z enough = absurd (omega arith)
  find_loop-position (suc fuel) ns [] count z enough =
      rw (at_end (subst (IsZiplist zl) (append-nil ns) z), ◌>>=◌) refl
  find_loop-position (suc fuel) ns (n ∷ ms) count z enough =
      let at = at_node bound ns n ms z in
      let r = at.reads in
      let same = same_value (meaning n.text) (meaning s) in
      let found : same_entry r.e.encoding r.e.len (drop (offset ns + r.e.headersize) zl) s
          ≡ some same =
        ap (λ y. same_entry r.e.encoding r.e.len y s)
          (drop_add (offset ns) r.e.headersize zl ∙ ap (drop r.e.headersize) at.dropped)
        ∙ same_entry-meaning r.e.encoding r.e.len
            (drop r.e.headersize (node_bytes (last_size 0 ns) n ++ at.rest)) n.text s r.value in
      let ahead : offset ns + r.e.headersize + r.e.len ≡ offset (ns ++ n ∷ []) =
        omega (arith, r.total, offset-snoc ns n) in
      let none_left : offset_at ns (n ∷ ms) 0 ≡ offset ns = ap offset (append-nil ns) in
      let part : parts (drop (offset ns) zl) ≡ some (r.e.encoding, r.e.len, r.e.headersize) =
        ap parts at.dropped ∙ r.partial in
      elim (Bool-cases (count == 0)) [
        | inl now ↦
            let ih =
              find_loop-position fuel (ns ++ n ∷ []) ms skip (regroup ns n ms z) (omega arith) in
            elim (Bool-cases same) [
              | inl hit ↦
                  rw (at.first, ◌>>=◌, at.inner, part, ◌>>=◌, now, found, ◌>>=◌, hit)
                    (ap (λ k. some (some k)) (sym none_left))
              | inr miss ↦
                  rw (at.first, ◌>>=◌, at.inner, part, ◌>>=◌, now, found, ◌>>=◌, miss, ahead)
                    (ih ∙ ap some (shift ns n ms (position s skip skip ms)))
            ]
        | inr later ↦
            let ih =
              find_loop-position fuel (ns ++ n ∷ []) ms (count - 1) (regroup ns n ms z)
                (omega arith) in
            rw (at.first, ◌>>=◌, at.inner, part, ◌>>=◌, later, ahead)
              (ih ∙ ap some (shift ns n ms (position s skip (count - 1) ms)))
      ]

-- ziplistFind from the first entry on finds the first node that is compared and holds the value of
-- the text, and NULL where there is none.
pub find-position :
    {zl : Bytes} (ns : List Node) (s : Bytes) (skip : ℕ)
    → IsZiplist zl ns
    → length zl < 2 ^ 32 - 32
    → find zl 10 s skip ≡ some (Option.map (offset_at [] ns) (position s skip 0 ns))
unfolding find entries
find-position {zl} ns s skip z bound =
    find_loop-position bound s skip (length zl) [] ns 0 z
      (omega (arith, length-le-entries 0 ns, length-ziplist z, z.sized))
