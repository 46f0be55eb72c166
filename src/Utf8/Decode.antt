-- ===== src/Utf8/Decode.antt =====
-- mbtowc reads back what wctomb writes.
use small_lib_c.Base.{
  ℕ, suc, ◌+◌, ◌-◌, ◌*◌, ◌/◌, ◌%◌, ◌^◌, ◌≤◌, ◌<◌, ◌≡◌, refl, subst, ap, ◌∙◌, ◌≢◌, bit_and, true,
  false, some, List, [], ◌∷◌, ltb, ◌==◌, arith, length, Bool-cases, inl, inr,
}
use small_lib_c.Base.Bits.{bit_or-disjoint, bit_and-low, bit_and-shifted}
use small_lib_c.Base.Int.{pos}
use small_lib_c.Memory.{Memory, ok, load-some}
use small_lib_c.Memory.Region.{Mapped, BytesAt}
use small_lib_c.Strings.Copy.Written.{written, written-BytesAt}
use small_lib_c.Utf8.{wctomb, read_tail, lead, read_rest, mbtowc}
use small_lib_c.Utf8.Encode.{encoded, wctomb-encoded}

-- The mask of the bits above the k lowest of a byte.
pub mask_lem : (k j x : ℕ) → bit_and x ((2 ^ j - 1) * 2 ^ k) ≡ x / 2 ^ k % 2 ^ j * 2 ^ k
mask_lem k j x =
    bit_and-shifted k x (2 ^ j - 1) ∙ ap (λ (t : ℕ). t * 2 ^ k) (bit_and-low j (x / 2 ^ k))

read_tail-step :
    (k s res x : ℕ) (m : Memory)
    → x < 64
    → m s ≡ some (128 + x)
    → read_tail (suc k) s res m ≡ read_tail k (s + 1) (res * 2 ^ 6 + x) m
unfolding read_tail
read_tail-step k s res x m h e =
    let mark : bit_and (128 + x) 192 ≡ 128 = mask_lem 6 2 (128 + x) ∙ omega arith in
    let low : bit_and (128 + x) 63 ≡ x = bit_and-low 6 (128 + x) ∙ omega arith in
    rw (load-some s m e, mark, low, bit_or-disjoint 6 res x h) refl

lead_two : (x : ℕ) → x < 32 → lead (192 + x) ≡ some (2, x)
unfolding lead
lead_two x h =
    let t1 : ltb (192 + x) 128 ≡ false = ground arith in
    let mark : bit_and (192 + x) 224 ≡ 192 = mask_lem 5 3 (192 + x) ∙ omega arith in
    let low : bit_and (192 + x) 31 ≡ x = bit_and-low 5 (192 + x) ∙ omega arith in
    rw (t1, mark, low) refl

lead_three : (x : ℕ) → x < 16 → lead (224 + x) ≡ some (3, x)
unfolding lead
lead_three x h =
    let t1 : ltb (224 + x) 128 ≡ false = ground arith in
    let no_two : bit_and (224 + x) 224 ≡ 224 = mask_lem 5 3 (224 + x) ∙ omega arith in
    let mark : bit_and (224 + x) 240 ≡ 224 = mask_lem 4 4 (224 + x) ∙ omega arith in
    let low : bit_and (224 + x) 15 ≡ x = bit_and-low 4 (224 + x) ∙ omega arith in
    rw (t1, no_two, mark, low) refl

lead_four : (x : ℕ) → x < 8 → lead (240 + x) ≡ some (4, x)
unfolding lead
lead_four x h =
    let t1 : ltb (240 + x) 128 ≡ false = ground arith in
    let no_two : bit_and (240 + x) 224 ≡ 224 = mask_lem 5 3 (240 + x) ∙ omega arith in
    let no_three : bit_and (240 + x) 240 ≡ 240 = mask_lem 4 4 (240 + x) ∙ omega arith in
    let mark : bit_and (240 + x) 248 ≡ 240 = mask_lem 3 5 (240 + x) ∙ omega arith in
    let low : bit_and (240 + x) 7 ≡ x = bit_and-low 3 (240 + x) ∙ omega arith in
    rw (t1, no_two, no_three, mark, low) refl

-- One lemma for each length, on the bytes.
module _ (m : Memory) (s n : ℕ) (live : s ≢ 0) where
  some_s : (s == 0) ≡ false
  some_s = ground arith

  one_byte :
      (wc : ℕ) → 0 < wc → wc < 0x80 → m s ≡ some wc → 1 ≤ n → mbtowc s n m ≡ ok (pos 1, some wc) m
  unfolding mbtowc read_rest read_tail lead
  one_byte wc lo hi h room =
      let t1 : (n == 0) ≡ false = ground arith in
      let t2 : (wc == 0) ≡ false = ground arith in
      let t3 : ltb wc 128 ≡ true = ground arith in
      let t4 : ltb n 1 ≡ false = ground arith in rw (some_s, t1, load-some s m h, t2, t3, t4) refl

  two_bytes :
      (x y : ℕ)
      → x < 32
      → y < 64
      → BytesAt m s ((192 + x) ∷ (128 + y) ∷ [])
      → 2 ≤ n
      → mbtowc s n m ≡ ok (pos 2, some (x * 2 ^ 6 + y)) m
  unfolding mbtowc read_rest read_tail
  two_bytes x y hx hy h room =
      let t1 : (n == 0) ≡ false = ground arith in
      let t2 : (192 + x == 0) ≡ false = ground arith in
      let t4 : ltb n 2 ≡ false = ground arith in
      rw
        (
          some_s,
          t1,
          load-some s m h.0,
          t2,
          lead_two x hx,
          t4,
          read_tail-step 0 (s + 1) x y m hy h.1.0,
        )
        refl

  three_bytes :
      (x y z : ℕ)
      → x < 16
      → y < 64
      → z < 64
      → BytesAt m s ((224 + x) ∷ (128 + y) ∷ (128 + z) ∷ [])
      → 3 ≤ n
      → mbtowc s n m ≡ ok (pos 3, some ((x * 2 ^ 6 + y) * 2 ^ 6 + z)) m
  unfolding mbtowc read_rest read_tail
  three_bytes x y z hx hy hz h room =
      let t1 : (n == 0) ≡ false = ground arith in
      let t2 : (224 + x == 0) ≡ false = ground arith in
      let t4 : ltb n 3 ≡ false = ground arith in
      rw
        (
          some_s,
          t1,
          load-some s m h.0,
          t2,
          lead_three x hx,
          t4,
          read_tail-step 1 (s + 1) x y m hy h.1.0,
          read_tail-step 0 (s + 1 + 1) (x * 2 ^ 6 + y) z m hz h.1.1.0,
        )
        refl

  four_bytes :
      (x y z w : ℕ)
      → x < 8
      → y < 64
      → z < 64
      → w < 64
      → BytesAt m s ((240 + x) ∷ (128 + y) ∷ (128 + z) ∷ (128 + w) ∷ [])
      → 4 ≤ n
      → mbtowc s n m ≡ ok (pos 4, some (((x * 2 ^ 6 + y) * 2 ^ 6 + z) * 2 ^ 6 + w)) m
  unfolding mbtowc read_rest read_tail
  four_bytes x y z w hx hy hz hw h room =
      let t1 : (n == 0) ≡ false = ground arith in
      let t2 : (240 + x == 0) ≡ false = ground arith in
      let t4 : ltb n 4 ≡ false = ground arith in
      rw
        (
          some_s,
          t1,
          load-some s m h.0,
          t2,
          lead_four x hx,
          t4,
          read_tail-step 2 (s + 1) x y m hy h.1.0,
          read_tail-step 1 (s + 1 + 1) (x * 2 ^ 6 + y) z m hz h.1.1.0,
          read_tail-step 0 (s + 1 + 1 + 1) ((x * 2 ^ 6 + y) * 2 ^ 6 + z) w m hw h.1.1.1.0,
        )
        refl

  mbtowc-encoded :
      (wc : ℕ)
      → 0 < wc
      → wc ≤ 0x10FFFF
      → BytesAt m s (encoded wc)
      → length (encoded wc) ≤ n
      → mbtowc s n m ≡ ok (pos (length (encoded wc)), some wc) m
  mbtowc-encoded wc lo hi h room = elim (Bool-cases (ltb wc 0x80)) [
    | inl y1 ↦
        let e : encoded wc ≡ wc ∷ [] = rw y1 refl in
        rw e (
          one_byte wc lo (ground (arith, y1)) (subst (λ t. BytesAt m s t) e h).0
            (subst (λ (t : List ℕ). length t ≤ n) e room))
    | inr n1 ↦ elim (Bool-cases (ltb wc 0x800)) [
      | inl y2 ↦
          let e : encoded wc ≡ (192 + wc / 2 ^ 6) ∷ (128 + wc % 64) ∷ [] = rw (n1, y2) refl in
          let whole : wc / 2 ^ 6 * 2 ^ 6 + wc % 64 ≡ wc = omega arith in
          rw e (
            two_bytes (wc / 2 ^ 6) (wc % 64) (ground (arith, y2)) (omega arith)
              (subst (λ t. BytesAt m s t) e h) (subst (λ (t : List ℕ). length t ≤ n) e room)
            ∙ ap (λ t. ok (pos 2, some t) m) whole)
      | inr n2 ↦ elim (Bool-cases (ltb wc 0x10000)) [
        | inl y3 ↦
            let e : encoded wc
                ≡ (224 + wc / 2 ^ 12) ∷ (128 + wc / 2 ^ 6 % 64) ∷ (128 + wc % 64) ∷ [] =
              rw (n1, n2, y3) refl in
            let whole : (wc / 2 ^ 12 * 2 ^ 6 + wc / 2 ^ 6 % 64) * 2 ^ 6 + wc % 64 ≡ wc =
              omega arith in
            rw e (
              three_bytes (wc / 2 ^ 12) (wc / 2 ^ 6 % 64) (wc % 64) (ground (arith, y3))
                (omega arith) (omega arith) (subst (λ t. BytesAt m s t) e h)
                (subst (λ (t : List ℕ). length t ≤ n) e room)
              ∙ ap (λ t. ok (pos 3, some t) m) whole)
        | inr n3 ↦
            let e : encoded wc
                ≡ (240 + wc / 2 ^ 18)
                  ∷ (128 + wc / 2 ^ 12 % 64)
                  ∷ (128 + wc / 2 ^ 6 % 64)
                  ∷ (128 + wc % 64)
                  ∷ [] =
              rw (n1, n2, n3) refl in
            let whole : ((wc / 2 ^ 18 * 2 ^ 6 + wc / 2 ^ 12 % 64) * 2 ^ 6 + wc / 2 ^ 6 % 64) * 2 ^ 6
                  + wc % 64
                ≡ wc =
              omega arith in
            rw e (
              four_bytes (wc / 2 ^ 18) (wc / 2 ^ 12 % 64) (wc / 2 ^ 6 % 64) (wc % 64) (omega arith)
                (omega arith) (omega arith) (omega arith) (subst (λ t. BytesAt m s t) e h)
                (subst (λ (t : List ℕ). length t ≤ n) e room)
              ∙ ap (λ t. ok (pos 4, some t) m) whole)
      ]
    ]
  ]

-- For a code from 1 to 0x10FFFF and room for four bytes, wctomb writes the code's encoding and
-- returns its length, and mbtowc, given at least as many bytes, reads the code back and returns the
-- same length.
pub mbtowc-wctomb :
    (m : Memory) (s n wc : ℕ)
    → s ≢ 0
    → Mapped m s 4
    → 0 < wc
    → wc ≤ 0x10FFFF
    → length (encoded wc) ≤ n
    → (wctomb s (pos wc) m ≡ ok (pos (length (encoded wc))) (written m s (encoded wc)))
      × (mbtowc s n (written m s (encoded wc))
          ≡ ok (pos (length (encoded wc)), some wc) (written m s (encoded wc)))
mbtowc-wctomb m s n wc live there lo hi room = (
  wctomb-encoded m s there wc live hi,
  mbtowc-encoded (written m s (encoded wc)) s n live wc lo hi (written-BytesAt m s (encoded wc))
      room,
)
