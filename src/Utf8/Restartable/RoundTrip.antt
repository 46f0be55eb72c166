-- ===== src/Utf8/Restartable/RoundTrip.antt =====
-- mbrtowc of src/c/wchar/mbrtowc.c reads back what wcrtomb of src/c/wchar/wcrtomb.c writes.
use small_lib_c.Base.{
  ℕ, ◌+◌, ◌*◌, ◌/◌, ◌%◌, ◌^◌, ◌≤◌, ◌<◌, ◌≡◌, refl, sym, ◌∙◌, ap, subst, true, false, ◌&&◌, ◌||◌,
  some, List, [], ◌∷◌, ◌++◌, ltb, leb, length, Bool-cases, inl, inr, arith, ◌⊎◌,
}
use small_lib_c.Utf8.Encode.{encoded}
use small_lib_c.Utf8.Restartable.{decoded, expected, fill_bytes, is_code, read_on, mbrtowc, wcrtomb}
use small_lib_c.Utf8.Restartable.Codes.{
  or_low, continue_mark, continue_byte, code_two, code_three, code_four,
}

read_two :
    (x y : ℕ) (t : List ℕ)
    → 2 ≤ x
    → x < 32
    → y < 64
    → mbrtowc [] (some ((192 + x) ∷ (128 + y) ∷ t)) ≡ decoded (x * 64 + y) 2
unfolding mbrtowc read_on expected fill_bytes is_code
read_two x y t lo hx hy =
    let no_ascii : ltb (192 + x) 128 ≡ false = ground arith in
    let no_overlong : ltb (192 + x) 194 ≡ false = ground (arith, lo) in
    let two : ltb (192 + x) 224 ≡ true = ground (arith, hx) in
    let good : is_code 2 (x * 64 + y) ≡ true = ground (arith, hx, hy) in
    rw
      (
        mbrtowc,
        no_ascii,
        no_overlong,
        read_on,
        expected,
        two,
        fill_bytes,
        continue_mark y hy,
        code_two x y hx hy,
        good,
      )
      refl

-- A code of Unicode that is not half of a pair.
abbrev pub IsScalar : ℕ → Type 0
IsScalar wc = (wc ≤ 0x10FFFF) × ((wc < 0xD800) ⊎ (0xDFFF < wc))

no_surrogate : (wc : ℕ) → IsScalar wc → (ltb 0x10FFFF wc || leb 0xD800 wc && leb wc 0xDFFF) ≡ false
no_surrogate wc (top, inl lt) = ground (arith, top, lt)
no_surrogate wc (top, inr gt) = ground (arith, top, gt)

read_three :
    (x y z : ℕ) (t : List ℕ)
    → x < 16
    → y < 64
    → z < 64
    → 0x800 ≤ x * 4096 + y * 64 + z
    → IsScalar (x * 4096 + y * 64 + z)
    → mbrtowc [] (some ((224 + x) ∷ (128 + y) ∷ (128 + z) ∷ t)) ≡ decoded (x * 4096 + y * 64 + z) 3
unfolding mbrtowc read_on expected fill_bytes is_code
read_three x y z t hx hy hz lo scalar =
    let no_ascii : ltb (224 + x) 128 ≡ false = ground arith in
    let no_overlong : ltb (224 + x) 194 ≡ false = ground arith in
    let no_two : ltb (224 + x) 224 ≡ false = ground arith in
    let three : ltb (224 + x) 240 ≡ true = ground (arith, hx) in
    let long : ltb (x * 4096 + y * 64 + z) 0x800 ≡ false = ground (arith, lo) in
    let good : is_code 3 (x * 4096 + y * 64 + z) ≡ true =
      rw (is_code, no_surrogate (x * 4096 + y * 64 + z) scalar, long) refl in
    rw
      (
        mbrtowc,
        no_ascii,
        no_overlong,
        read_on,
        expected,
        no_two,
        three,
        fill_bytes,
        continue_mark y hy,
        continue_mark z hz,
        code_three x y z hx hy hz,
        good,
      )
      refl

read_four :
    (x y z w : ℕ) (t : List ℕ)
    → x < 5
    → y < 64
    → z < 64
    → w < 64
    → 0x10000 ≤ x * 262144 + y * 4096 + z * 64 + w
    → IsScalar (x * 262144 + y * 4096 + z * 64 + w)
    → mbrtowc [] (some ((240 + x) ∷ (128 + y) ∷ (128 + z) ∷ (128 + w) ∷ t))
      ≡ decoded (x * 262144 + y * 4096 + z * 64 + w) 4
unfolding mbrtowc read_on expected fill_bytes is_code
read_four x y z w t hx hy hz hw lo scalar =
    let no_ascii : ltb (240 + x) 128 ≡ false = ground arith in
    let no_overlong : ltb (240 + x) 194 ≡ false = ground arith in
    let no_two : ltb (240 + x) 224 ≡ false = ground arith in
    let no_three : ltb (240 + x) 240 ≡ false = ground arith in
    let four : ltb (240 + x) 245 ≡ true = ground (arith, hx) in
    let long : ltb (x * 262144 + y * 4096 + z * 64 + w) 0x10000 ≡ false = ground (arith, lo) in
    let good : is_code 4 (x * 262144 + y * 4096 + z * 64 + w) ≡ true =
      rw (is_code, no_surrogate (x * 262144 + y * 4096 + z * 64 + w) scalar, long) refl in
    rw
      (
        mbrtowc,
        no_ascii,
        no_overlong,
        read_on,
        expected,
        no_two,
        no_three,
        four,
        fill_bytes,
        continue_mark y hy,
        continue_mark z hz,
        continue_mark w hw,
        code_four x y z w (omega (arith, hx)) hy hz hw,
        good,
      )
      refl

no_half : (wc : ℕ) → IsScalar wc → (leb 0xD800 wc && leb wc 0xDFFF) ≡ false
no_half wc (top, inl lt) = ground (arith, lt)
no_half wc (top, inr gt) = ground (arith, gt)

wcrtomb-encoded : (wc : ℕ) → IsScalar wc → wcrtomb wc ≡ some (encoded wc)
unfolding wcrtomb
wcrtomb-encoded wc scalar = elim (Bool-cases (ltb wc 0x80)) [
  | inl y ↦ rw (wcrtomb, encoded, y) refl
  | inr n ↦ elim (Bool-cases (ltb wc 0x800)) [
    | inl y ↦
        let a = or_low 6 3 192 (wc / 2 ^ 6) refl (ground (arith, y)) in
        rw (wcrtomb, encoded, n, y, a, continue_byte wc) refl
    | inr m ↦ elim (Bool-cases (ltb wc 0x10000)) [
      | inl y ↦
          let a = or_low 5 7 224 (wc / 2 ^ 12) refl (ground (arith, y)) in
          rw
            (
              wcrtomb,
              encoded,
              n,
              m,
              y,
              no_half wc scalar,
              a,
              continue_byte (wc / 2 ^ 6),
              continue_byte wc,
            )
            refl
      | inr k ↦
          let a = or_low 4 15 240 (wc / 2 ^ 18) refl (omega (arith, scalar.0)) in
          let in_range : leb wc 0x10FFFF ≡ true = ground (arith, scalar.0) in
          rw
            (
              wcrtomb,
              encoded,
              n,
              m,
              k,
              in_range,
              a,
              continue_byte (wc / 2 ^ 12),
              continue_byte (wc / 2 ^ 6),
              continue_byte wc,
            )
            refl
    ]
  ]
]

read_encoded :
    (wc : ℕ) (t : List ℕ)
    → IsScalar wc
    → mbrtowc [] (some (encoded wc ++ t)) ≡ decoded wc (length (encoded wc))
unfolding mbrtowc
read_encoded wc t scalar = elim (Bool-cases (ltb wc 0x80)) [
  | inl y ↦ rw (encoded, y) (rw (mbrtowc, y) refl)
  | inr n ↦ elim (Bool-cases (ltb wc 0x800)) [
    | inl y ↦
        let is : wc / 2 ^ 6 * 64 + wc % 64 ≡ wc = omega arith in
        rw (encoded, n, y)
          (read_two (wc / 2 ^ 6) (wc % 64) t (ground (arith, n)) (ground (arith, y)) (omega arith)
            ∙ ap (λ c. decoded c 2) is)
    | inr m ↦ elim (Bool-cases (ltb wc 0x10000)) [
      | inl y ↦
          let is : wc / 2 ^ 12 * 4096 + wc / 2 ^ 6 % 64 * 64 + wc % 64 ≡ wc = omega arith in
          rw (encoded, n, m, y)
            (read_three (wc / 2 ^ 12) (wc / 2 ^ 6 % 64) (wc % 64) t (ground (arith, y))
                (omega arith) (omega arith) (ground (arith, m, is)) (subst IsScalar (sym is) scalar)
              ∙ ap (λ c. decoded c 3) is)
      | inr k ↦
          let is : wc / 2 ^ 18 * 262144 + wc / 2 ^ 12 % 64 * 4096 + wc / 2 ^ 6 % 64 * 64 + wc % 64
              ≡ wc =
            omega arith in
          rw (encoded, n, m, k)
            (read_four (wc / 2 ^ 18) (wc / 2 ^ 12 % 64) (wc / 2 ^ 6 % 64) (wc % 64) t
                (omega (arith, scalar.0)) (omega arith) (omega arith) (omega arith)
                (ground (arith, k, is)) (subst IsScalar (sym is) scalar)
              ∙ ap (λ c. decoded c 4) is)
    ]
  ]
]

-- wcrtomb writes a code of Unicode that is not half of a pair as wctomb does, and mbrtowc reads the code
-- and the number of its bytes from them, whatever follows.
pub mbrtowc-wcrtomb :
    (wc : ℕ) (t : List ℕ)
    → IsScalar wc
    → (wcrtomb wc ≡ some (encoded wc))
      × (mbrtowc [] (some (encoded wc ++ t)) ≡ decoded wc (length (encoded wc)))
mbrtowc-wcrtomb wc t scalar = (wcrtomb-encoded wc scalar, read_encoded wc t scalar)
