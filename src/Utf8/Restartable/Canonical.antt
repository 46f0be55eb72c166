-- ===== src/Utf8/Restartable/Canonical.antt =====
-- mbrtowc of src/c/wchar/mbrtowc.c reads no bytes but those that wcrtomb writes.
use small_lib_c.Base.{
  ℕ, suc, ◌+◌, ◌-◌, ◌*◌, ◌%◌, ◌≤◌, ◌<◌, ◌≡◌, refl, sym, ◌∙◌, ap, ap₂, subst, Bool, true, ◌&&◌, some,
  List, [], ◌∷◌, ◌++◌, ltb, take, Bool-cases, inl, inr, arith,
}
use small_lib_c.Utf8.Encode.{encoded}
use small_lib_c.Utf8.Restartable.{
  decoded, invalid, expected, complete, fill_bytes, code_of, is_code, finish_code, read_on, mbrtowc,
  wcrtomb,
}
use small_lib_c.Utf8.Restartable.RoundTrip.{IsScalar, mbrtowc-wcrtomb}
use small_lib_c.Utf8.Restartable.Codes.{code_two, code_three, code_four}
use small_lib_c.Utf8.Restartable.Forms.{
  wc_of, count_of, continuation_of, fill_next, finish_lem, is_code-IsScalar, list_two, encoded_two,
  encoded_three, encoded_four,
}

abbrev pub all_bytes : List ℕ → Bool
all_bytes [] = true
all_bytes (b ∷ s) = ltb b 256 && all_bytes s

-- What is read of the bytes of s: those that wcrtomb writes for the code.
abbrev Canonical : (s : List ℕ) (wc n : ℕ) → Type 0
Canonical s wc n = IsScalar wc × (take n s ≡ encoded wc)

-- A byte that is missing: it is a continuation, and others may follow.
next_byte :
    (expect k : ℕ) (kept s : List ℕ) (consumed wc n : ℕ)
    → all_bytes s ≡ true
    → finish_code expect (fill_bytes (suc k) kept s consumed) ≡ decoded wc n
    → (b : ℕ) × (s' : List ℕ) × (s ≡ b ∷ s')
      × (b ≡ 128 + b % 64)
      × (all_bytes s' ≡ true)
      × (finish_code expect (fill_bytes k (kept ++ b ∷ []) s' (consumed + 1)) ≡ decoded wc n)
next_byte expect k kept s consumed wc n bytes e =
    let (b, s', is, mark, rest) = fill_next expect k kept s consumed wc n e in
    let both : all_bytes (b ∷ s') ≡ true = subst (λ l. all_bytes l ≡ true) is bytes in
    (b, s', is, continuation_of b (ground (arith, both)) mark, ground (arith, both), rest)

module _ (a : ℕ) (s : List ℕ) (wc n : ℕ) (bytes : all_bytes s ≡ true) where
  -- All the bytes of a sequence, the code of which is in its canonical form.
  whole :
      (expect size : ℕ) (front rest form : List ℕ) (code : ℕ)
      → a ∷ s ≡ front ++ rest
      → take size (front ++ rest) ≡ front
      → front ≡ form
      → code_of form ≡ code
      → (is_code expect code ≡ true → encoded code ≡ form)
      → finish_code expect (complete front size) ≡ decoded wc n
      → Canonical (a ∷ s) wc n
  whole expect size front rest form code is taken same value canonical e =
      let (good, at, count) = finish_lem expect size front wc n e in
      let value' : code_of front ≡ code = ap code_of same ∙ value in
      let good' : is_code expect code ≡ true = ap (is_code expect) (sym value') ∙ good in
      (
        subst IsScalar (sym (at ∙ value')) (is_code-IsScalar expect code good'),
        ap₂ take count is
            ∙ taken
            ∙ same
            ∙ sym (canonical good')
            ∙ ap (λ c. encoded c) (sym (at ∙ value')),
      )

  two_bytes :
      0xC2 ≤ a
      → a < 0xE0
      → finish_code 2 (fill_bytes 1 (a ∷ []) s 1) ≡ decoded wc n
      → Canonical (a ∷ s) wc n
  unfolding fill_bytes
  two_bytes lo hi e =
      let (b, t, is, form, more, last) = next_byte 2 0 (a ∷ []) s 1 wc n bytes e in
      whole 2 2 (a ∷ b ∷ []) t ((192 + (a - 192)) ∷ (128 + b % 64) ∷ []) ((a - 192) * 64 + b % 64)
        (ap (λ l. a ∷ l) is) refl (list_two (omega (arith, lo)) form)
        (code_two (a - 192) (b % 64) (omega (arith, hi)) (omega arith))
        (λ good.
          encoded_two (a - 192) (b % 64) (omega (arith, lo)) (omega (arith, hi)) (omega arith))
        last

  three_bytes :
      0xE0 ≤ a
      → a < 0xF0
      → finish_code 3 (fill_bytes 2 (a ∷ []) s 1) ≡ decoded wc n
      → Canonical (a ∷ s) wc n
  unfolding fill_bytes
  three_bytes lo hi e =
      let (b, s1, is1, form1, more1, rest1) = next_byte 3 1 (a ∷ []) s 1 wc n bytes e in
      let (c, s2, is2, form2, more2, last) = next_byte 3 0 (a ∷ b ∷ []) s1 2 wc n more1 rest1 in
      let x = a - 224 in
      whole 3 3 (a ∷ b ∷ c ∷ []) s2 ((224 + x) ∷ (128 + b % 64) ∷ (128 + c % 64) ∷ [])
        (x * 4096 + b % 64 * 64 + c % 64) (ap (λ l. a ∷ l) (is1 ∙ ap (λ l. b ∷ l) is2)) refl
        (ap₂ (λ p q. p ∷ q) (omega (arith, lo)) (list_two form1 form2))
        (code_three x (b % 64) (c % 64) (omega (arith, hi)) (omega arith) (omega arith))
        (encoded_three x (b % 64) (c % 64) (omega (arith, hi)) (omega arith) (omega arith)) last

  four_bytes :
      0xF0 ≤ a
      → a < 0xF5
      → finish_code 4 (fill_bytes 3 (a ∷ []) s 1) ≡ decoded wc n
      → Canonical (a ∷ s) wc n
  unfolding fill_bytes
  four_bytes lo hi e =
      let (b, s1, is1, form1, more1, rest1) = next_byte 4 2 (a ∷ []) s 1 wc n bytes e in
      let (c, s2, is2, form2, more2, rest2) = next_byte 4 1 (a ∷ b ∷ []) s1 2 wc n more1 rest1 in
      let (d, s3, is3, form3, more3, last) = next_byte 4 0 (a ∷ b ∷ c ∷ []) s2 3 wc n more2 rest2 in
      let x = a - 240 in
      whole 4 4 (a ∷ b ∷ c ∷ d ∷ []) s3
        ((240 + x) ∷ (128 + b % 64) ∷ (128 + c % 64) ∷ (128 + d % 64) ∷ [])
        (x * 262144 + b % 64 * 4096 + c % 64 * 64 + d % 64)
        (ap (λ l. a ∷ l) (is1 ∙ ap (λ l. b ∷ l) (is2 ∙ ap (λ l. c ∷ l) is3))) refl
        (ap₂ (λ p q. p ++ q) (list_two (omega (arith, lo)) form1) (list_two form2 form3))
        (code_four x (b % 64) (c % 64) (d % 64) (omega (arith, hi)) (omega arith) (omega arith)
          (omega arith))
        (encoded_four x (b % 64) (c % 64) (d % 64) (omega arith) (omega arith) (omega arith)) last

  longer : 0xC2 ≤ a → read_on a (a ∷ []) s 1 ≡ decoded wc n → Canonical (a ∷ s) wc n
  unfolding read_on expected
  longer lo e = elim (Bool-cases (ltb a 0xE0)) [
    | inl y ↦
        let is : read_on a (a ∷ []) s 1 ≡ finish_code 2 (fill_bytes 1 (a ∷ []) s 1) =
          rw (read_on, expected, y) refl in
        two_bytes lo (ground (arith, y)) (sym is ∙ e)
    | inr m ↦ elim (Bool-cases (ltb a 0xF0)) [
      | inl y ↦
          let is : read_on a (a ∷ []) s 1 ≡ finish_code 3 (fill_bytes 2 (a ∷ []) s 1) =
            rw (read_on, expected, m, y) refl in
          three_bytes (ground (arith, m)) (ground (arith, y)) (sym is ∙ e)
      | inr k ↦ elim (Bool-cases (ltb a 0xF5)) [
        | inl y ↦
            let is : read_on a (a ∷ []) s 1 ≡ finish_code 4 (fill_bytes 3 (a ∷ []) s 1) =
              rw (read_on, expected, m, k, y) refl in
            four_bytes (ground (arith, k)) (ground (arith, y)) (sym is ∙ e)
        | inr j ↦
            let is : read_on a (a ∷ []) s 1 ≡ invalid = rw (read_on, expected, m, k, j) refl in
            absurd (omega (arith, ap count_of (sym is ∙ e)))
      ]
    ]
  ]

-- A code that mbrtowc reads from the first of some bytes, none being kept, is one of Unicode and not half of
-- a pair, and the bytes that it takes are those that wcrtomb writes for the code: no longer form is
-- read.
pub mbrtowc-Canonical :
    (s : List ℕ) (wc n : ℕ)
    → all_bytes s ≡ true
    → mbrtowc [] (some s) ≡ decoded wc n
    → IsScalar wc × (wcrtomb wc ≡ some (take n s))
unfolding mbrtowc
mbrtowc-Canonical [] wc n bytes e = absurd (omega (arith, ap count_of e))
mbrtowc-Canonical (a ∷ s) wc n bytes e = elim (Bool-cases (ltb a 0x80)) [
  | inl y ↦
      let is : mbrtowc [] (some (a ∷ s)) ≡ decoded a 1 = rw (mbrtowc, y) refl in
      let back = sym e ∙ is in
      let one : encoded a ≡ a ∷ [] = rw (encoded, y) refl in
      let at : wc ≡ a = ap wc_of back in
      let count : n ≡ 1 = omega (arith, ap count_of back) in
      let small : a < 0x80 = ground (arith, y) in
      let scalar : IsScalar wc = (omega (arith, at, small), inl (omega (arith, at, small))) in
      (
        scalar,
        (mbrtowc-wcrtomb wc [] scalar).0
            ∙ ap (λ c. some (encoded c)) at
            ∙ ap some one
            ∙ ap (λ k. some (take k (a ∷ s))) (sym count),
      )
  | inr m ↦ elim (Bool-cases (ltb a 0xC2)) [
    | inl y ↦
        let is : mbrtowc [] (some (a ∷ s)) ≡ invalid = rw (mbrtowc, m, y) refl in
        absurd (omega (arith, ap count_of (sym is ∙ e)))
    | inr k ↦
        let is : mbrtowc [] (some (a ∷ s)) ≡ read_on a (a ∷ []) s 1 = rw (mbrtowc, m, k) refl in
        let (scalar, same) =
          longer a s wc n (ground (arith, bytes)) (ground (arith, k)) (sym is ∙ e) in
        (scalar, (mbrtowc-wcrtomb wc [] scalar).0 ∙ ap some (sym same))
  ]
]
