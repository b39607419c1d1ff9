-- ===== src/Ziplist/Write.antt =====
-- The steps of __ziplistInsert on given bytes: growth, and the entry written.
use mathlib.Core.List.{append_assoc, append-nil}
use project.Prelude.{
  ℕ, zero, suc, ◌+◌, ◌-◌, ◌^◌, ◌<◌, ◌≡◌, refl, ◌∙◌, ap, sym, inl, inr, false, some, [], ◌∷◌, ◌++◌,
  length, length-append, if◌then◌else◌, ltb, arith, Bool-cases,
}
use project.Prelude.Options.{◌>>=◌}
use project.Rdb.{Bytes}
use project.Sds.{memcpy, realloc}
use project.Ziplist.{
  zip_end, prev_encode_length_force_large, prev_encode_length, prev_encode_length_size,
  encode_length, encode_length_size, try_encoding,
}
use project.Ziplist.Blob.{resize, choice, required, incr_length, write_entry}
use project.Ziplist.Encoding.{length-little_endian}
use project.Ziplist.Memory.{memcpy_at, realloc_grow, length-realloc_new}
use project.Ziplist.Layout.{Node, node_size, node_bytes, head, payload, prev_field}
use project.Ziplist.Texts.{IsRead-try_encoding}
use project.Ziplist.Nodes

-- Bytes cut in two.
pub cut :
    (x : Bytes) (a b : ℕ)
    → length x ≡ a + b
    → (y : Bytes) × (z : Bytes) × (x ≡ y ++ z) × (length y ≡ a) × (length z ≡ b)
cut x zero b e = ([], x, refl, refl, omega arith)
cut [] (suc a) b e = absurd (omega arith)
cut (c ∷ x) (suc a) b e =
    let (y, z, eq, l, r) = cut x a b (omega arith) in (c ∷ y, z, ap (λ w. c ∷ w) eq, ap suc l, r)

abbrev pub plain : Bytes → Node
plain s = record { large = false; text = s }

-- The field for the last length takes as many bytes as are asked for.
pub prev_sized : (prev : ℕ) → prev_encode_length_size prev ≡ length (prev_field false prev)
unfolding prev_encode_length_force_large prev_encode_length_size prev_encode_length prev_field
prev_sized prev = ground (arith, length-little_endian 4 prev)

pub required_size :
    (prev : ℕ) (s : Bytes) → length s < 2 ^ 32 → required prev s ≡ node_size prev (plain s)
unfolding required node_size head payload
required_size prev s fits =
    let r = IsRead-try_encoding (try_encoding s) s refl fits in
    omega (arith, r.sized, r.head_size, prev_sized prev)

abbrev pub counted_one : ℕ → ℕ
counted_one c = if ltb c 65535 then c + 1 else c

-- The count goes up, and stays at 65535.
incr_length-header :
    (t l c : ℕ) (x : Bytes)
    → c < 2 ^ 16
    → incr_length (Nodes.header t l c ++ x) 1 ≡ some (Nodes.header t l (counted_one c) ++ x)
unfolding incr_length
incr_length-header t l c x small = elim (Bool-cases (ltb c 65535)) [
  | inl low ↦
      rw (Nodes.ziplist_length-header t l c x small, ◌>>=◌, low)
        (Nodes.put_length-header t l c (c + 1) x)
  | inr high ↦ rw (Nodes.ziplist_length-header t l c x small, ◌>>=◌, high) refl
]

-- A ziplist that grows has new bytes and the end marker behind what it had.
pub resize_grow :
    (junk : ℕ → ℕ) (t l c : ℕ) (x : Bytes) (n k : ℕ)
    → n ≡ length x + k + 11
    → (J : Bytes) × (length J ≡ k)
      × (resize junk (Nodes.header t l c ++ x) n
          ≡ some (Nodes.header n l c ++ (x ++ (J ++ zip_end ∷ []))))
unfolding resize
resize_grow junk t l c x n k e =
    let H = Nodes.header t l c in
    let H' = Nodes.header n l c in
    let fresh = realloc junk (suc k) [] in
    let grown =
      realloc_grow junk (H ++ x) n (suc k)
        (omega (arith, length-append H x, Nodes.length-header t l c)) in
    let (J, last, eq, lJ, ll) = cut fresh k 1 (omega (arith, length-realloc_new junk (suc k))) in
    let put = Nodes.put_bytes-header t l c n (x ++ fresh) in
    let shape : H' ++ (x ++ (J ++ last)) ≡ (H' ++ (x ++ J)) ++ (last ++ []) =
      simp (append_assoc, append-nil) in
    let shape' : (H' ++ (x ++ J)) ++ (zip_end ∷ [] ++ []) ≡ H' ++ (x ++ (J ++ zip_end ∷ [])) =
      simp (append_assoc, append-nil) in
    (
      J,
      lJ,
      rw (grown, append_assoc H x fresh, put, ◌>>=◌)
          (ap (λ z. memcpy (H' ++ (x ++ z)) (n - 1) (zip_end ∷ [])) eq
            ∙ ap (λ z. memcpy z (n - 1) (zip_end ∷ [])) shape
            ∙ memcpy_at (H' ++ (x ++ J)) last [] (zip_end ∷ []) (n - 1)
                (omega
                  (arith, length-append H' (x ++ J), length-append x J, Nodes.length-header n l c))
                ll
            ∙ ap some shape'),
    )

-- The entry is written over bytes of its size, and counted.
pub write_entry-header :
    (t l c : ℕ) (front old rest : Bytes) (prev : ℕ) (s : Bytes) (p : ℕ)
    → length s < 2 ^ 32
    → c < 2 ^ 16
    → length old ≡ node_size prev (plain s)
    → p ≡ length front + 10
    → write_entry (Nodes.header t l c ++ (front ++ (old ++ rest))) p prev s
      ≡ some (Nodes.header t l (counted_one c) ++ (front ++ (node_bytes prev (plain s) ++ rest)))
unfolding write_entry node_size node_bytes head payload prev_field
write_entry-header t l c front old rest prev s p fits small size at =
    let o = try_encoding s in
    let r = IsRead-try_encoding o s refl fits in
    let f = prev_field false prev in
    let h = encode_length (choice o).1 (length s) in
    let H = Nodes.header t l c in
    let lH = Nodes.length-header t l c in
    let b = payload s in
    let (o₁, o', e₁, l₁, l') = cut old (length f) (length h + length b) (omega arith) in
    let (o₂, o₃, e₂, l₂, l₃) = cut o' (length h) (length b) l' in
    let shape : H ++ (front ++ (old ++ rest)) ≡ (H ++ front) ++ (o₁ ++ (o₂ ++ (o₃ ++ rest))) =
      ap (λ z. H ++ (front ++ (z ++ rest))) (e₁ ∙ ap (λ z. o₁ ++ z) e₂) ∙ simp append_assoc in
    let at₁ : p ≡ length (H ++ front) = omega (arith, length-append H front, lH) in
    let at₂ : p + prev_encode_length_size prev ≡ length ((H ++ front) ++ f) =
      omega (arith, length-append (H ++ front) f, prev_sized prev) in
    let at₃ : p + prev_encode_length_size prev + encode_length_size (choice o).1 (length s)
        ≡ length (((H ++ front) ++ f) ++ h) =
      omega (arith, length-append ((H ++ front) ++ f) h, r.head_size) in
    let write₁ = memcpy_at (H ++ front) o₁ (o₂ ++ (o₃ ++ rest)) f p at₁ l₁ in
    let write₂ =
      memcpy_at ((H ++ front) ++ f) o₂ (o₃ ++ rest) h (p + prev_encode_length_size prev) at₂ l₂ in
    let write₃ =
      memcpy_at (((H ++ front) ++ f) ++ h) o₃ rest b
        (p + prev_encode_length_size prev + encode_length_size (choice o).1 (length s)) at₃ l₃ in
    let result : (((H ++ front) ++ f) ++ h) ++ (b ++ rest)
        ≡ H ++ (front ++ ((f ++ (h ++ b)) ++ rest)) =
      simp append_assoc in
    rw
      (
        shape,
        write₁,
        ◌>>=◌,
        sym (append_assoc (H ++ front) f (o₂ ++ (o₃ ++ rest))),
        write₂,
        ◌>>=◌,
        r.written,
        ◌>>=◌,
        sym (append_assoc ((H ++ front) ++ f) h (o₃ ++ rest)),
        write₃,
        ◌>>=◌,
        result,
      )
      (incr_length-header t l c (front ++ ((f ++ (h ++ b)) ++ rest)) small)
