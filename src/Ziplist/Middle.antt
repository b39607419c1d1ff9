-- ===== src/Ziplist/Middle.antt =====
-- ziplistInsert in front of an entry whose length field keeps its size.
use mathlib.Core.List.{append_assoc}
use native.Mathlib.Nat.{mod-eq_of_lt}
use project.Prelude.{
  ℕ, ◌+◌, ◌-◌, ◌^◌, ◌<◌, ◌≡◌, refl, ◌∙◌, ap, sym, inl, inr, Bool, true, false, some, [], ◌∷◌, ◌++◌,
  length, length-append, drop, get_elem?, ◌==◌, if◌then◌else◌, ltb, arith, Bool-cases,
}
use project.Prelude.Int.{pos, sub_ℕ}
use project.Prelude.Options.{◌>>=◌}
use project.Rdb.{Bytes, little_endian}
use project.Sds.{memcpy}
use project.Ziplist.{
  zip_end, uint, big_len, prev_len_byte_diff, decode_prevlensize, prev_encode_length,
  prev_encode_length_size, prev_encode_length_force_large,
}
use project.Ziplist.Blob.{put_tail_offset, size_sub, memmove, insert_before}
use project.Ziplist.Encoding.{length-little_endian}
use project.Ziplist.Memory.{drop_at, get_elem?_at, memcpy_at, memmove_at}
use project.Ziplist.Layout.{
  Node, node_size, node_bytes, node_reads, prev_field, prev_field_read, head, payload,
  length-node_bytes,
}
use project.Ziplist.Nodes
use project.Ziplist.Nodes.{IsZiplist, entries, last_size, header}
use project.Ziplist.Places.{text_small}
use project.Ziplist.Write.{prev_sized}

-- The length field of `n` holds `prev` and `req` in the same number of bytes.
abbrev pub Keeps : ℕ → ℕ → Node → Type 0
Keeps prev req n = length (prev_field n.large prev) ≡ prev_encode_length_size req

-- Then the field is written as it is for the new length.
field_kept :
    (large : Bool) (prev req : ℕ)
    → length (prev_field large prev) ≡ prev_encode_length_size req
    → prev_encode_length req ≡ prev_field large req
unfolding prev_field prev_encode_length prev_encode_length_size prev_encode_length_force_large
field_kept false prev req h = refl
field_kept true prev req h = elim (Bool-cases (ltb req big_len)) [
  | inl short ↦ absurd (ground (arith, length-little_endian 4 prev, rw short at h))
  | inr long ↦ rw long refl
]

field_size :
    (large : Bool) (prev req : ℕ)
    → length (prev_field large prev) ≡ prev_encode_length_size req
    → length (prev_field large req) ≡ length (prev_field large prev)
unfolding prev_field
field_size large prev req h =
    ap length (sym (field_kept large prev req h)) ∙ sym (prev_sized req) ∙ sym h

pub size_kept : (prev req : ℕ) (n : Node) → Keeps prev req n → node_size req n ≡ node_size prev n
unfolding node_size
size_kept prev req n h = omega (arith, field_size n.large prev req h)

-- A tail offset is a 32-bit field.
wrapped : (t l c : ℕ) → header t (l + 2 ^ 32) c ≡ header t l c
unfolding header little_endian
wrapped t l c = ground arith

no_difference : (k : ℕ) → sub_ℕ k k ≡ pos 0
no_difference k = ground arith

-- No difference of the sizes.
pub same_field :
    (prev req : ℕ) (n : Node) (rest : Bytes)
    → Keeps prev req n
    → prev < 2 ^ 32
    → prev_len_byte_diff (node_bytes prev n ++ rest) req ≡ some (pos 0)
unfolding prev_len_byte_diff node_bytes
same_field prev req n rest h small =
    let f = prev_field n.large prev in
    let behind = (head n.text ++ payload n.text) ++ rest in
    let size : decode_prevlensize (node_bytes prev n ++ rest) ≡ some (length f) =
      ap decode_prevlensize (append_assoc f (head n.text ++ payload n.text) rest)
      ∙ (prev_field_read n.large prev behind small).1 in
    rw (size, ◌>>=◌, h) (ap some (no_difference (prev_encode_length_size req)))

first_of : (x : Bytes) → (b : ℕ) × (y : Bytes) × (x ++ zip_end ∷ [] ≡ b ∷ y)
first_of [] = (zip_end, [], refl)
first_of (b ∷ x) = (b, x ++ zip_end ∷ [], refl)

-- The tail offset is set anew to what it is, where the next entry is not the tail.
tail_again :
    (T l c : ℕ) (Y : Bytes) (b : ℕ)
    → (if b == zip_end
        then some (header T l c ++ Y)
        else put_tail_offset (l + 0 + 2 ^ 32 - 0) (header T l c ++ Y))
      ≡ some (header T l c ++ Y)
tail_again T l c Y b = elim (Bool-cases (b == zip_end)) [
  | inl end ↦ rw end refl
  | inr more ↦
      let e : l + 0 + 2 ^ 32 - 0 ≡ l + 2 ^ 32 = omega arith in
      rw (more, e)
        (Nodes.put_tail_offset-header T l c (l + 2 ^ 32) Y
          ∙ ap (λ h. some (h ++ Y)) (wrapped T l c))
]

module _ (T l c : ℕ) (E : Bytes) (prev req : ℕ) (n : Node) (after space : Bytes) (p curlen : ℕ)
    (h : Keeps prev req n) (at : p ≡ length E + 10) (room : length space ≡ req)
    (total : curlen ≡ length E + node_size prev n + length after + 11)
    (small : curlen + req < 2 ^ 32 - 32) (low : l + req < 2 ^ 32) where
  -- Where the rest is moved to, behind `req` bytes of what there was.
  module _ (o old : Bytes) (e : (node_bytes prev n ++ after) ++ space ≡ o ++ old)
      (lo : length o ≡ req) (lold : length old ≡ length (node_bytes prev n ++ after)) where
    move_back :
        memmove
          (header T l c ++ (E ++ ((node_bytes prev n ++ after) ++ (space ++ zip_end ∷ []))))
          (p + req)
          (p + 0 - 0)
          (size_sub (curlen + 0) (p + 1 + 0))
        ≡ some (((header T l c ++ E) ++ o) ++ ((node_bytes prev n ++ after) ++ zip_end ∷ []))
    move_back =
        let H = header T l c in
        let lH = Nodes.length-header T l c in
        let X = node_bytes prev n ++ after in
        memmove_at (H ++ (E ++ (X ++ (space ++ zip_end ∷ [])))) ((H ++ E) ++ o) old (zip_end ∷ [])
          (H ++ E) X (space ++ zip_end ∷ []) (p + req) (p + 0 - 0)
          (size_sub (curlen + 0) (p + 1 + 0))
          (ap (λ y. H ++ (E ++ y))
              (sym (append_assoc X space (zip_end ∷ [])) ∙ ap (λ y. y ++ zip_end ∷ []) e)
            ∙ simp append_assoc)
          (sym (append_assoc H E (X ++ (space ++ zip_end ∷ []))))
          (omega (arith, length-append (H ++ E) o, length-append H E, lH))
          (omega (arith, length-append H E, lH))
          (omega (arith, length-append (node_bytes prev n) after, length-node_bytes prev n)) lold

    write_field :
        memcpy
          (((header T l c ++ E) ++ o) ++ ((node_bytes prev n ++ after) ++ zip_end ∷ []))
          (p + req)
          (prev_encode_length (uint req))
        ≡ some (header T l c ++ (E ++ (o ++ (node_bytes req n ++ (after ++ zip_end ∷ [])))))
    unfolding node_bytes
    write_field =
        let H = header T l c in
        let f = prev_field n.large prev in
        let f' = prev_encode_length req in
        let body = head n.text ++ payload n.text in
        let rest = after ++ zip_end ∷ [] in
        let kept = field_kept n.large prev req h in
        let small_req : uint req ≡ req = mod-eq_of_lt (omega arith) in
        ap
          (λ k.
            memcpy (((H ++ E) ++ o) ++ (((f ++ body) ++ after) ++ zip_end ∷ [])) (p + req)
              (prev_encode_length k))
          small_req
        ∙ ap (λ y. memcpy (((H ++ E) ++ o) ++ y) (p + req) f')
            (append_assoc (f ++ body) after (zip_end ∷ []) ∙ append_assoc f body rest)
        ∙ memcpy_at ((H ++ E) ++ o) f (body ++ rest) f' (p + req)
            (omega (arith, length-append (H ++ E) o, length-append H E, Nodes.length-header T l c))
            (sym (field_size n.large prev req h) ∙ ap length (sym kept))
        ∙ ap (λ g. some (((H ++ E) ++ o) ++ (g ++ (body ++ rest)))) kept
        ∙ ap some (simp append_assoc)

    -- The rest is moved back by `req` bytes, and the next entry gets the new length in front.
    pub moved :
        insert_before
          (header T l c ++ (E ++ ((node_bytes prev n ++ after) ++ (space ++ zip_end ∷ []))))
          p
          curlen
          req
          (pos 0)
        ≡ some (header T (l + req) c ++ (E ++ (o ++ (node_bytes req n ++ (after ++ zip_end ∷ [])))))
    unfolding insert_before
    moved =
        let H' = header T (l + req) c in
        let rest = after ++ zip_end ∷ [] in
        let N' = node_bytes req n in
        let Y = E ++ (o ++ (N' ++ rest)) in
        let found = Nodes.tail_offset-header T l c Y (omega arith) in
        let put = Nodes.put_tail_offset-header T l c (l + req) Y in
        let found' = Nodes.tail_offset-header T (l + req) c Y low in
        let same = size_kept prev req n h in
        let r = node_reads req n rest (omega arith) (text_small req n (omega arith)) in
        let (b, y, first) = first_of after in
        let shape : H' ++ Y ≡ ((H' ++ E) ++ o) ++ (N' ++ rest) = simp append_assoc in
        let shape' : H' ++ Y ≡ (((H' ++ E) ++ o) ++ N') ++ rest = simp append_assoc in
        let len : p + req ≡ length ((H' ++ E) ++ o) = omega (
          arith,
          length-append (H' ++ E) o,
          length-append H' E,
          Nodes.length-header T (l + req) c,
        ) in
        let dropped : drop (p + req) (H' ++ Y) ≡ N' ++ rest =
          ap (drop (p + req)) shape ∙ drop_at ((H' ++ E) ++ o) (N' ++ rest) (p + req) len in
        let whole : uint (r.e.headersize + r.e.len) ≡ node_size req n =
          ap uint r.total ∙ mod-eq_of_lt (omega arith) in
        let seen_byte : get_elem? (H' ++ Y) (p + req + node_size req n) ≡ some b =
          ap (λ z. get_elem? z (p + req + node_size req n))
            (shape' ∙ ap (λ z. (((H' ++ E) ++ o) ++ N') ++ z) first)
          ∙ get_elem?_at (((H' ++ E) ++ o) ++ N') b y (p + req + node_size req n) (
              omega (
                arith,
                length-append ((H' ++ E) ++ o) N',
                length-append (H' ++ E) o,
                length-append H' E,
                Nodes.length-header T (l + req) c,
                length-node_bytes req n,
              )) in
        rw
          (
            move_back, ◌>>=◌, write_field, ◌>>=◌, found, ◌>>=◌, put, ◌>>=◌, dropped, r.parsed,
            ◌>>=◌, whole, seen_byte, ◌>>=◌, found', ◌>>=◌,
          )
          (tail_again T (l + req) c Y b)
