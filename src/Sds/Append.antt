-- ===== src/Sds/Append.antt =====
-- Creating, copying and extending the strings of sds.c.
use project.Prelude.{
  ℕ, zero, suc, ◌+◌, ◌-◌, ◌%◌, ◌^◌, ◌≤◌, ◌<◌, ◌≡◌, refl, false, Option, none, some, [], ◌∷◌, ◌++◌,
  ltb, leb, if◌then◌else◌, length, take, get_or, replicate, arith, ap, sym, ◌∙◌, length-append,
  length-take, Bool-cases, inl, inr, length-replicate, subst, ltb→lt, ltb→le,
}
use project.Sds.{Bytes, Sds, memcpy, new_len, clear, make_room_for, grow_zero, cat_len, cpy_len}
use project.Sds.Buffer.{IsSds, Holds, Holds-memcpy}
use project.Sds.Room.{max_string, length-content, size_of_int_small, make_room_for-HasRoom}

-- The same with a length and a string that are equal to these.
pub Holds_congr :
    (s : Sds) (n : ℕ) (x y : Bytes) → Holds s x → s.len ≡ n → x ≡ y → Holds (record s { len = n }) y
Holds_congr s n x y h e e' = subst (λ m. Holds (record s { len = m }) y) e (subst (Holds s) e' h)

cat_len_run :
    (junk : ℕ → ℕ) (s : Sds) (t buf' : Bytes)
    → s.len + length t < 2 ^ 31
    → length t ≤ (make_room_for junk s (length t)).free
    → (make_room_for junk s (length t)).free < 2 ^ 31
    → memcpy (make_room_for junk s (length t)).buf s.len (t ++ 0 ∷ []) ≡ some buf'
    → cat_len junk s t
      ≡ some (record {
        len = s.len + length t;
        free = (make_room_for junk s (length t)).free - length t;
        buf = buf';
      })
unfolding cat_len
cat_len_run junk s t buf' small room fits e =
    let free : ℕ = (make_room_for junk s (length t)).free in
    let m₁ : (s.len + length t) % 2 ^ 32 ≡ s.len + length t = omega arith in
    let m₂ : (free + (2 ^ 64 - length t)) % 2 ^ 32 ≡ free - length t = omega arith in
    rw (size_of_int_small s.len (omega arith), e, size_of_int_small free fits, m₁, m₂)

-- Appending bytes to a string in shape, up to the longest one, meets no fault and gives a string in
-- shape that holds the two in a row.
pub cat_len-Holds :
    (junk : ℕ → ℕ) (s : Sds) (x t : Bytes)
    → Holds s x
    → length x + length t ≤ max_string
    → (s' : Sds) × (cat_len junk s t ≡ some s') × Holds s' (x ++ t)
cat_len-Holds junk s x t h fits =
    let l = length-content s x h in
    let r = make_room_for-HasRoom junk s (length t) h.valid (omega (arith, l)) in
    let s₁ : Sds = make_room_for junk s (length t) in
    let (buf', e, held) =
      Holds-memcpy s₁.buf s.len t (s₁.free - length t)
        (omega (arith, r.valid.allocated, r.same_len, r.room))
        (omega (arith, r.valid.small, r.same_len, r.room)) in
    (
      record { len = s.len + length t; free = s₁.free - length t; buf = buf' },
      cat_len_run junk s t buf' (omega (arith, l)) r.room (omega (arith, r.valid.small)) e,
      record { valid = held.valid; reads = held.reads ∙ ap (λ y. y ++ t) (r.same_bytes ∙ h.reads) },
    )

cpy_len_run :
    (junk : ℕ → ℕ) (s s₁ : Sds) (t buf' : Bytes)
    → IsSds s
    → IsSds s₁
    → length t ≤ s₁.len + s₁.free
    → s₁ ≡ (if ltb (s.free + s.len) (length t) then make_room_for junk s (length t - s.len) else s)
    → memcpy s₁.buf 0 (t ++ 0 ∷ []) ≡ some buf'
    → cpy_len junk s t
      ≡ some (record { len = length t; free = s₁.len + s₁.free - length t; buf = buf' })
unfolding cpy_len
cpy_len_run junk s s₁ t buf' v v₁ room same e =
    let m₁ : length t % 2 ^ 32 ≡ length t = omega (arith, v₁.small) in
    let m₂ : (s₁.free + s₁.len + (2 ^ 64 - length t)) % 2 ^ 32 ≡ s₁.len + s₁.free - length t =
      omega (arith, v₁.small) in
    rw (
      size_of_int_small s.len (omega (arith, v.small)),
      size_of_int_small s.free (omega (arith, v.small)),
      ← same,
      e,
      size_of_int_small s₁.free (omega (arith, v₁.small)),
      size_of_int_small s₁.len (omega (arith, v₁.small)),
      m₁,
      m₂,
    )

copied :
    (junk : ℕ → ℕ) (s s₁ : Sds) (t : Bytes)
    → IsSds s
    → IsSds s₁
    → length t ≤ s₁.len + s₁.free
    → s₁ ≡ (if ltb (s.free + s.len) (length t) then make_room_for junk s (length t - s.len) else s)
    → (s' : Sds) × (cpy_len junk s t ≡ some s') × Holds s' t
copied junk s s₁ t v v₁ room same =
    let z : 0 + length t ≡ length t = omega arith in
    let (buf', e, held) =
      Holds-memcpy s₁.buf 0 t (s₁.len + s₁.free - length t) (omega (arith, v₁.allocated, room))
        (omega (arith, v₁.small, room)) in
    (
      record { len = length t; free = s₁.len + s₁.free - length t; buf = buf' },
      cpy_len_run junk s s₁ t buf' v v₁ room same e,
      Holds_congr (record { len = 0 + length t; free = s₁.len + s₁.free - length t; buf = buf' })
          (length t) t t held z refl,
    )

-- Copying bytes over a string in shape, up to the longest one, meets no fault and gives a string in
-- shape that holds the bytes.
pub cpy_len-Holds :
    (junk : ℕ → ℕ) (s : Sds) (t : Bytes)
    → IsSds s
    → length t ≤ max_string
    → (s' : Sds) × (cpy_len junk s t ≡ some s') × Holds s' t
cpy_len-Holds junk s t v fits = elim (Bool-cases (ltb (s.free + s.len) (length t))) [
  | inl short ↦
      let less = ltb→lt (s.free + s.len) (length t) short in
      let r = make_room_for-HasRoom junk s (length t - s.len) v (omega arith) in
      copied junk s (make_room_for junk s (length t - s.len)) t v r.valid
        (omega (arith, r.same_len, r.room)) (rw short)
  | inr enough ↦
      copied junk s s t v v (omega (arith, ltb→le (s.free + s.len) (length t) enough)) (rw enough)
]

replicate_end : (n : ℕ) → replicate {A = ℕ} (n + 1) 0 ≡ replicate n 0 ++ 0 ∷ []
replicate_end n = let e : n + 1 ≡ suc n = omega arith in rw e (go n)
  where
    go : (n : ℕ) → replicate {A = ℕ} (suc n) 0 ≡ replicate n 0 ++ 0 ∷ []
    go zero = refl
    go (suc n) = ap (λ x. 0 ∷ x) (go n)

grow_zero_run :
    (junk : ℕ → ℕ) (s s₁ : Sds) (len n : ℕ) (buf' : Bytes)
    → IsSds s
    → IsSds s₁
    → s₁.len ≡ s.len
    → len ≤ s₁.len + s₁.free
    → leb len s.len ≡ false
    → n ≡ len - s.len
    → s₁ ≡ make_room_for junk s n
    → memcpy s₁.buf s.len (replicate n 0 ++ 0 ∷ []) ≡ some buf'
    → grow_zero junk s len ≡ some (record { len = len; free = s₁.len + s₁.free - len; buf = buf' })
unfolding grow_zero
grow_zero_run junk s s₁ len n buf' v v₁ same_len room more ne same e =
    let m₁ : len % 2 ^ 32 ≡ len = omega (arith, v₁.small) in
    let m₂ : (s₁.len + s₁.free + (2 ^ 64 - len)) % 2 ^ 32 ≡ s₁.len + s₁.free - len =
      omega (arith, v₁.small) in
    rw (
      size_of_int_small s.len (omega (arith, v.small)),
      more,
      ← ne,
      ← same,
      replicate_end n,
      e,
      size_of_int_small s₁.free (omega (arith, v₁.small)),
      size_of_int_small s₁.len (omega (arith, v₁.small)),
      m₁,
      m₂,
    )

-- Growing a string in shape to a longer one, up to the longest one, meets no fault and gives a
-- string in shape with zeros behind what it held.
pub grow_zero-Holds :
    (junk : ℕ → ℕ) (s : Sds) (x : Bytes) (len : ℕ)
    → Holds s x
    → length x < len
    → len ≤ max_string
    → (s' : Sds) × (grow_zero junk s len ≡ some s') × Holds s' (x ++ replicate (len - length x) 0)
grow_zero-Holds junk s x len h more fits =
    let l = length-content s x h in
    let n : ℕ = len - s.len in
    let r = make_room_for-HasRoom junk s n h.valid (omega (arith, l)) in
    let s₁ : Sds = make_room_for junk s n in
    let zeros : Bytes = replicate n 0 in
    let z : length zeros ≡ n = length-replicate n 0 in
    let full : s.len + length zeros ≡ len = omega (arith, z, l) in
    let (buf', e, held) =
      Holds-memcpy s₁.buf s.len zeros (s₁.len + s₁.free - len)
        (omega (arith, r.valid.allocated, r.same_len, r.room, z))
        (omega (arith, r.valid.small, r.same_len, r.room, z)) in
    (
      record { len = len; free = s₁.len + s₁.free - len; buf = buf' },
      grow_zero_run junk s s₁ len n buf' h.valid r.valid r.same_len
          (omega (arith, r.same_len, r.room)) (ground (arith, l)) refl refl e,
      Holds_congr (record { len = s.len + length zeros; free = s₁.len + s₁.free - len; buf = buf' })
          len (take s.len s₁.buf ++ zeros) (x ++ replicate (len - length x) 0) held full
          (ap (λ y. y ++ zeros) (r.same_bytes ∙ h.reads)
            ∙ ap (λ m. x ++ replicate (len - m) 0) (sym l)),
    )

-- Emptying a string in shape meets no fault and gives the empty one, with all its bytes free.
pub clear-Holds :
    (s : Sds)
    → IsSds s
    → (s' : Sds) × (clear s ≡ some s') × Holds s' [] × (s'.free ≡ s.len + s.free)
clear-Holds s v =
    let (buf', e, held) =
      Holds-memcpy s.buf 0 [] (s.len + s.free) (omega (arith, v.allocated))
        (omega (arith, v.small)) in
    let m : (s.free + s.len) % 2 ^ 32 ≡ s.len + s.free = omega (arith, v.small) in
    (record { len = 0; free = s.len + s.free; buf = buf' }, unfold clear in rw (e, m), held, refl)

take_all : (n : ℕ) (x : Bytes) → length x ≡ n → take n (x ++ 0 ∷ []) ≡ x
take_all zero [] h = refl
take_all zero (b ∷ x) h = absurd (omega arith)
take_all (suc n) [] h = absurd (omega arith)
take_all (suc n) (b ∷ x) h = ap (λ y. b ∷ y) (take_all n x (omega arith))

end_byte : (n : ℕ) (x : Bytes) → length x ≡ n → get_or (x ++ 0 ∷ []) n 1 ≡ 0
end_byte zero [] h = refl
end_byte zero (b ∷ x) h = absurd (omega arith)
end_byte (suc n) [] h = absurd (omega arith)
end_byte (suc n) (b ∷ x) h = end_byte n x (omega arith)

fresh :
    (n : ℕ) (x : Bytes)
    → length x ≡ n
    → n < 2 ^ 31
    → Holds (record { len = n % 2 ^ 32; free = 0; buf = x ++ 0 ∷ [] }) x
fresh n x e small =
    let m : n % 2 ^ 32 ≡ n = omega arith in
    subst (λ k. Holds (record { len = k; free = 0; buf = x ++ 0 ∷ [] }) x) (sym m)
      (record {
        valid = record {
          allocated = omega (arith, length-append x (0 ∷ []));
          terminated = end_byte n x e;
          small = omega arith;
        };
        reads = take_all n x e;
      })

-- A new string holds the first `n` bytes given, or `n` zeros where none are.
pub new_len-Holds :
    (init : Option Bytes) (n : ℕ)
    → n ≤ max_string
    → ((x : Bytes) → init ≡ some x → n ≤ length x)
    → Holds (new_len init n) (elim init [ none ↦ replicate n 0 | some x ↦ take n x ])
unfolding new_len
new_len-Holds none n fits enough = fresh n (replicate n 0) (length-replicate n 0) (omega arith)
new_len-Holds (some x) n fits enough =
    fresh n (take n x) (omega (arith, length-take n x, enough x refl)) (omega arith)
