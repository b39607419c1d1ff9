-- ===== src/Sds/Room.antt =====
-- `sdsMakeRoomFor` of sds.c.
use project.Prelude.{
  ℕ, ◌+◌, ◌-◌, ◌%◌, ◌^◌, ◌≤◌, ◌<◌, ◌≡◌, refl, false, leb, length, take, arith, ap, sym, ◌∙◌,
  length-take, Bool-cases, inl, inr, subst, leb→le, leb→lt,
}
use project.Sds.{Bytes, Sds, size_of_int, grown_length, realloc, make_room_for}
use project.Sds.Buffer.{IsSds, Holds, length-realloc, take-realloc, get_or-realloc}

-- The longest string of the server: 512 MB.
abbrev pub max_string : ℕ
max_string = 2 ^ 29

pub length-content : (s : Sds) (x : Bytes) → Holds s x → length x ≡ s.len
length-content s x h = omega (arith, ap length h.reads, length-take s.len s.buf, h.valid.allocated)

-- What make_room_for gives.
pub record HasRoom (s s' : Sds) (addlen : ℕ) : Type 0 where
  pub valid : IsSds s'
  pub same_len : s'.len ≡ s.len
  pub same_bytes : take s.len s'.buf ≡ take s.len s.buf
  pub room : addlen ≤ s'.free

pub size_of_int_small : (i : ℕ) → i < 2 ^ 31 → size_of_int i ≡ i
size_of_int_small i h = ground arith

grown_length_bounds :
    (len addlen : ℕ)
    → len + addlen ≤ max_string
    → (len + addlen ≤ grown_length len addlen) × (grown_length len addlen < 2 ^ 31)
unfolding grown_length
grown_length_bounds len addlen h = ground arith

grown : (ℕ → ℕ) → Sds → ℕ → Sds
grown junk s n = record { len = s.len; free = n - s.len; buf = realloc junk (n + 1) s.buf }

make_room_for-grown :
    (junk : ℕ → ℕ) (s : Sds) (addlen : ℕ)
    → IsSds s
    → s.len + addlen ≤ max_string
    → leb addlen s.free ≡ false
    → make_room_for junk s addlen ≡ grown junk s (grown_length s.len addlen)
unfolding make_room_for grown
make_room_for-grown junk s addlen v fits less =
    let n : ℕ = grown_length s.len addlen in
    let b = grown_length_bounds s.len addlen fits in
    let m₁ : (n + (2 ^ 64 - s.len)) % 2 ^ 32 ≡ n - s.len = omega (arith, b) in
    let m₂ : (n + 1) % 2 ^ 64 ≡ n + 1 = omega (arith, b) in
    rw (
      size_of_int_small s.len (omega (arith, v.small)),
      size_of_int_small s.free (omega (arith, v.small)),
      less,
      m₁,
      m₂,
    )

grown-HasRoom :
    (junk : ℕ → ℕ) (s : Sds) (n addlen : ℕ)
    → IsSds s
    → s.len + addlen ≤ n
    → s.free < addlen
    → n < 2 ^ 31
    → HasRoom s (grown junk s n) addlen
unfolding grown
grown-HasRoom junk s n addlen v enough less small = record {
  valid = record {
    allocated = omega (arith, length-realloc junk (n + 1) s.buf);
    terminated =
        get_or-realloc junk (n + 1) s.len 1 s.buf (omega arith) (omega (arith, v.allocated))
        ∙ v.terminated;
    small = omega arith;
  };
  same_len = refl;
  same_bytes = take-realloc junk (n + 1) s.len s.buf (omega arith) (omega (arith, v.allocated));
  room = omega arith;
}

pub make_room_for-HasRoom :
    (junk : ℕ → ℕ) (s : Sds) (addlen : ℕ)
    → IsSds s
    → s.len + addlen ≤ max_string
    → HasRoom s (make_room_for junk s addlen) addlen
make_room_for-HasRoom junk s addlen v fits = elim (Bool-cases (leb addlen s.free)) [
  | inl enough ↦
      let e : make_room_for junk s addlen ≡ s =
        unfold make_room_for in rw (size_of_int_small s.free (omega (arith, v.small)), enough) in
      subst (λ s'. HasRoom s s' addlen) (sym e)
        (record {
          valid = v;
          same_len = refl;
          same_bytes = refl;
          room = leb→le addlen s.free enough;
        })
  | inr less ↦
      let b = grown_length_bounds s.len addlen fits in
      subst (λ s'. HasRoom s s' addlen) (sym (make_room_for-grown junk s addlen v fits less))
        (grown-HasRoom junk s (grown_length s.len addlen) addlen v b.0 (leb→lt addlen s.free less)
          b.1)
]

-- Making room keeps the string, up to the longest one, and gives the room.
pub make_room_for-Holds :
    (junk : ℕ → ℕ) (s : Sds) (x : Bytes) (addlen : ℕ)
    → Holds s x
    → length x + addlen ≤ max_string
    → Holds (make_room_for junk s addlen) x × (addlen ≤ (make_room_for junk s addlen).free)
make_room_for-Holds junk s x addlen h fits =
    let l = length-content s x h in
    let r = make_room_for-HasRoom junk s addlen h.valid (omega (arith, l)) in
    (record { valid = r.valid; reads = rw r.same_len (r.same_bytes ∙ h.reads) }, r.room)
