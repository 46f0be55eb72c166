-- ===== src/Utf8/Restartable/Forms.antt =====
-- The bytes of a code that mbrtowc of src/c/wchar/mbrtowc.c reads, one by one.
use small_lib_c.Base.{
  ℕ, suc, ◌+◌, ◌*◌, ◌/◌, ◌%◌, ◌≤◌, ◌<◌, ◌≡◌, refl, sym, ◌∙◌, ap, ap₂, bit_and, true, false, List,
  [], ◌∷◌, ◌++◌, ltb, ◌==◌, Bool-cases, inl, inr, arith, ==_iff,
}
use small_lib_c.Utf8.Decode.{mask_lem}
use small_lib_c.Utf8.Encode.{encoded}
use small_lib_c.Utf8.Restartable.{
  Reading, decoded, incomplete, invalid, reset, complete, fill_bytes, code_of, is_code, finish_code,
}
use small_lib_c.Utf8.Restartable.RoundTrip.{IsScalar}

abbrev pub wc_of : Reading → ℕ
wc_of (decoded wc consumed) = wc
wc_of (incomplete kept) = 0
wc_of invalid = 0
wc_of reset = 0

abbrev pub count_of : Reading → ℕ
count_of (decoded wc consumed) = suc consumed
count_of (incomplete kept) = 0
count_of invalid = 0
count_of reset = 0

-- A byte of the mark of a continuation.
pub continuation_of : (b : ℕ) → b < 256 → bit_and b 192 == 128 ≡ true → b ≡ 128 + b % 64
continuation_of b lt e =
    let mark : b / 64 % 4 * 64 ≡ 128 = sym (mask_lem 6 2 b) ∙ (==_iff (bit_and b 192) 128).0 e in
    omega (arith, mark, lt)

-- A byte that is missing, where a code is read.
pub fill_next :
    (expect k : ℕ) (kept s : List ℕ) (consumed wc n : ℕ)
    → finish_code expect (fill_bytes (suc k) kept s consumed) ≡ decoded wc n
    → (b : ℕ) × (s' : List ℕ) × (s ≡ b ∷ s')
      × (bit_and b 192 == 128 ≡ true)
      × (finish_code expect (fill_bytes k (kept ++ b ∷ []) s' (consumed + 1)) ≡ decoded wc n)
unfolding fill_bytes
fill_next expect k kept [] consumed wc n e = absurd (omega (arith, ap count_of e))
fill_next expect k kept (b ∷ s) consumed wc n e = elim (Bool-cases (bit_and b 192 == 128)) [
  | inl y ↦
      let same : finish_code expect (fill_bytes (suc k) kept (b ∷ s) consumed)
          ≡ finish_code expect (fill_bytes k (kept ++ b ∷ []) s (consumed + 1)) =
        rw (fill_bytes, y) refl in
      (b, s, refl, y, sym same ∙ e)
  | inr m ↦
      let same : finish_code expect (fill_bytes (suc k) kept (b ∷ s) consumed) ≡ invalid =
        rw (fill_bytes, m) refl in
      absurd (omega (arith, ap count_of (sym same ∙ e)))
]

-- The code of all the bytes.
pub finish_lem :
    (expect consumed : ℕ) (bytes : List ℕ) (wc n : ℕ)
    → finish_code expect (complete bytes consumed) ≡ decoded wc n
    → (is_code expect (code_of bytes) ≡ true) × (wc ≡ code_of bytes) × (n ≡ consumed)
finish_lem expect consumed bytes wc n e = elim (Bool-cases (is_code expect (code_of bytes))) [
  | inl y ↦
      let same : finish_code expect (complete bytes consumed) ≡ decoded (code_of bytes) consumed =
        rw (finish_code, y) refl in
      let back = sym e ∙ same in (y, ap wc_of back, omega (arith, ap count_of back))
  | inr m ↦
      let same : finish_code expect (complete bytes consumed) ≡ invalid =
        rw (finish_code, m) refl in
      absurd (omega (arith, ap count_of (sym same ∙ e)))
]

pub is_code-IsScalar : (expect wc : ℕ) → is_code expect wc ≡ true → IsScalar wc
unfolding is_code
is_code-IsScalar expect wc e = elim (Bool-cases (ltb wc 0xD800)) [
  | inl y ↦ (ground (arith, e), inl (ground (arith, y)))
  | inr m ↦ (ground (arith, e), inr (ground (arith, e, m)))
]

pub list_two : {a b c d : ℕ} → a ≡ c → b ≡ d → a ∷ b ∷ [] ≡ c ∷ d ∷ []
list_two e f = ap₂ (λ x y. x ∷ y ∷ []) e f

pub encoded_two :
    (x y : ℕ) → 2 ≤ x → x < 32 → y < 64 → encoded (x * 64 + y) ≡ (192 + x) ∷ (128 + y) ∷ []
encoded_two x y lo hx hy =
    let a : ltb (x * 64 + y) 0x80 ≡ false = ground (arith, lo) in
    let b : ltb (x * 64 + y) 0x800 ≡ true = ground (arith, hx, hy) in
    rw (encoded, a, b) (list_two (omega (arith, hy)) (omega (arith, hy)))

pub encoded_three :
    (x y z : ℕ)
    → x < 16
    → y < 64
    → z < 64
    → is_code 3 (x * 4096 + y * 64 + z) ≡ true
    → encoded (x * 4096 + y * 64 + z) ≡ (224 + x) ∷ (128 + y) ∷ (128 + z) ∷ []
unfolding is_code
encoded_three x y z hx hy hz e =
    let a : ltb (x * 4096 + y * 64 + z) 0x80 ≡ false = ground (arith, e) in
    let b : ltb (x * 4096 + y * 64 + z) 0x800 ≡ false = ground (arith, e) in
    let c : ltb (x * 4096 + y * 64 + z) 0x10000 ≡ true = ground (arith, hx, hy, hz) in
    rw (encoded, a, b, c)
      (ap₂ (λ p q. p ∷ q) (omega (arith, hy, hz))
        (list_two (omega (arith, hy, hz)) (omega (arith, hz))))

pub encoded_four :
    (x y z w : ℕ)
    → y < 64
    → z < 64
    → w < 64
    → is_code 4 (x * 262144 + y * 4096 + z * 64 + w) ≡ true
    → encoded (x * 262144 + y * 4096 + z * 64 + w)
      ≡ (240 + x) ∷ (128 + y) ∷ (128 + z) ∷ (128 + w) ∷ []
unfolding is_code
encoded_four x y z w hy hz hw e =
    let a : ltb (x * 262144 + y * 4096 + z * 64 + w) 0x80 ≡ false = ground (arith, e) in
    let b : ltb (x * 262144 + y * 4096 + z * 64 + w) 0x800 ≡ false = ground (arith, e) in
    let c : ltb (x * 262144 + y * 4096 + z * 64 + w) 0x10000 ≡ false = ground (arith, e) in
    rw (encoded, a, b, c)
      (ap₂ (λ p q. p ++ q) (list_two (omega (arith, hy, hz, hw)) (omega (arith, hy, hz, hw)))
        (list_two (omega (arith, hz, hw)) (omega (arith, hw))))
