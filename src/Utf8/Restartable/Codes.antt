-- ===== src/Utf8/Restartable/Codes.antt =====
-- The code of a sequence of bytes in src/c/wchar/mbrtowc.c, by the bits of the bytes.
use small_lib_c.Base.{
  ℕ, ◌+◌, ◌*◌, ◌%◌, ◌^◌, ◌<◌, ◌≡◌, refl, sym, ◌∙◌, ap, subst, bit_and, bit_or, [], ◌∷◌, arith,
}
use small_lib_c.Base.Bits.{bit_or-disjoint, bit_and-low}
use small_lib_c.Utf8.Decode.{mask_lem}
use small_lib_c.Utf8.Restartable.{code_of}

pub or_low : (k q n r : ℕ) → n ≡ q * 2 ^ k → r < 2 ^ k → bit_or n r ≡ n + r
or_low k q n r e lt = subst (λ m. bit_or m r ≡ m + r) (sym e) (bit_or-disjoint k q r lt)

pub continue_mark : (y : ℕ) → y < 64 → bit_and (128 + y) 192 ≡ 128
continue_mark y lt = mask_lem 6 2 (128 + y) ∙ omega (arith, lt)

pub continue_low : (y : ℕ) → y < 64 → bit_and (128 + y) 63 ≡ y
continue_low y lt = bit_and-low 6 (128 + y) ∙ omega (arith, lt)

pub continue_byte : (x : ℕ) → bit_or 128 (bit_and x 63) ≡ 128 + x % 64
continue_byte x = ap (bit_or 128) (bit_and-low 6 x) ∙ or_low 6 2 128 (x % 64) refl (omega arith)

-- The code of a sequence, by the bits of its bytes.
pub code_two : (x y : ℕ) → x < 32 → y < 64 → code_of ((192 + x) ∷ (128 + y) ∷ []) ≡ x * 64 + y
unfolding code_of
code_two x y hx hy =
    let low : bit_and (192 + x) 31 ≡ x = bit_and-low 5 (192 + x) ∙ omega (arith, hx) in
    rw (code_of, low, continue_low y hy) (or_low 6 x (x * 2 ^ 6) y refl hy)

pub code_three :
    (x y z : ℕ)
    → x < 16
    → y < 64
    → z < 64
    → code_of ((224 + x) ∷ (128 + y) ∷ (128 + z) ∷ []) ≡ x * 4096 + y * 64 + z
unfolding code_of
code_three x y z hx hy hz =
    let low : bit_and (224 + x) 15 ≡ x = bit_and-low 4 (224 + x) ∙ omega (arith, hx) in
    let high : bit_or (x * 2 ^ 12) (y * 2 ^ 6) ≡ x * 4096 + y * 64 =
      or_low 12 x (x * 2 ^ 12) (y * 2 ^ 6) refl (omega (arith, hy)) in
    rw (code_of, low, continue_low y hy, continue_low z hz, high)
      (or_low 6 (x * 64 + y) (x * 4096 + y * 64) z (omega arith) hz)

pub code_four :
    (x y z w : ℕ)
    → x < 8
    → y < 64
    → z < 64
    → w < 64
    → code_of ((240 + x) ∷ (128 + y) ∷ (128 + z) ∷ (128 + w) ∷ [])
      ≡ x * 262144 + y * 4096 + z * 64 + w
unfolding code_of
code_four x y z w hx hy hz hw =
    let low : bit_and (240 + x) 7 ≡ x = bit_and-low 3 (240 + x) ∙ omega (arith, hx) in
    let high : bit_or (x * 2 ^ 18) (y * 2 ^ 12) ≡ x * 262144 + y * 4096 =
      or_low 18 x (x * 2 ^ 18) (y * 2 ^ 12) refl (omega (arith, hy)) in
    let mid : bit_or (x * 262144 + y * 4096) (z * 2 ^ 6) ≡ x * 262144 + y * 4096 + z * 64 =
      or_low 12 (x * 64 + y) (x * 262144 + y * 4096) (z * 2 ^ 6) (omega arith)
        (omega (arith, hz)) in
    rw (code_of, low, continue_low y hy, continue_low z hz, continue_low w hw, high, mid)
      (or_low 6 (x * 4096 + y * 64 + z) (x * 262144 + y * 4096 + z * 64) w (omega arith) hw)
