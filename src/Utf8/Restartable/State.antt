-- ===== src/Utf8/Restartable/State.antt =====
-- mbrtowc of src/c/wchar/mbrtowc.c: the bytes that are kept between calls.
use small_lib_c.Base.{
  ℕ, zero, suc, ◌+◌, ◌-◌, ◌≤◌, ◌<◌, ◌≡◌, refl, sym, ◌∙◌, bit_and, Bool, true, ◌&&◌, false, Option,
  none, some, List, [], ◌∷◌, ◌++◌, ltb, ◌==◌, if◌then◌else◌, length, length-append, Bool-cases,
  Option-cases, inl, inr, arith, some_value,
}
use small_lib_c.Utf8.Restartable.{
  Reading, decoded, incomplete, invalid, reset, expected, fill_bytes, is_code, code_of, finish_code,
  read_on, mbrtowc,
}

-- Continuation bytes.
abbrev pub all_continue : List ℕ → Bool
all_continue [] = true
all_continue (b ∷ s) = bit_and b 0xC0 == 0x80 && all_continue s

-- Bytes that can be kept: none, or a first byte and continuation bytes, fewer than it announces.
pub data Partial : List ℕ → Type 0 where
  none_kept : Partial []
  begun :
      (first : ℕ) (rest : List ℕ) (expect : ℕ)
      → 0xC2 ≤ first
      → expected first ≡ some expect
      → suc (length rest) < expect
      → all_continue rest ≡ true
      → Partial (first ∷ rest)

pub data KeepsPartial : Reading → Type 0 where
  keeps : {kept : List ℕ} → Partial kept → KeepsPartial (incomplete kept)
  is_decoded : {wc consumed : ℕ} → KeepsPartial (decoded wc consumed)
  is_invalid : KeepsPartial invalid
  is_reset : KeepsPartial reset

all_continue-append :
    (s : List ℕ) (b : ℕ)
    → all_continue s ≡ true
    → bit_and b 0xC0 == 0x80 ≡ true
    → all_continue (s ++ b ∷ []) ≡ true
all_continue-append [] b h e = rw e refl
all_continue-append (c ∷ s) b h e =
    let here : bit_and c 0xC0 == 0x80 ≡ true = ground (arith, h) in
    let there : all_continue s ≡ true = ground (arith, h) in
    rw (here, all_continue-append s b there e) refl

tested : (wc consumed : ℕ) (b : Bool) → KeepsPartial (if b then decoded wc consumed else invalid)
tested wc consumed true = is_decoded
tested wc consumed false = is_invalid

pub expected_bound : (first expect : ℕ) → expected first ≡ some expect → 2 ≤ expect
unfolding expected
expected_bound first expect e = ground (arith, e)

module _ (first expect : ℕ) (two_at_least : 0xC2 ≤ first)
    (announced : expected first ≡ some expect) where
  fill_bytes-Partial :
      (missing : ℕ) (rest s : List ℕ) (consumed : ℕ)
      → suc (length rest) + missing ≡ expect
      → all_continue rest ≡ true
      → KeepsPartial (finish_code expect (fill_bytes missing (first ∷ rest) s consumed))
  unfolding fill_bytes
  fill_bytes-Partial zero rest s consumed e h =
      tested (code_of (first ∷ rest)) consumed (is_code expect (code_of (first ∷ rest)))
  fill_bytes-Partial (suc k) rest [] consumed e h =
      keeps (begun first rest expect two_at_least announced (omega (arith, e)) h)
  fill_bytes-Partial (suc k) rest (b ∷ s) consumed e h =
      elim (Bool-cases (bit_and b 0xC0 == 0x80)) [
        | inl y ↦
            rw (fill_bytes, y)
              (fill_bytes-Partial k (rest ++ b ∷ []) s (consumed + 1)
                (omega (arith, e, length-append rest (b ∷ []))) (all_continue-append rest b h y))
        | inr n ↦ rw (fill_bytes, n) is_invalid
      ]

read_on-Partial :
    (first : ℕ) (rest s : List ℕ) (consumed : ℕ)
    → 0xC2 ≤ first
    → ((expect : ℕ) → expected first ≡ some expect → suc (length rest) < expect)
    → all_continue rest ≡ true
    → KeepsPartial (read_on first (first ∷ rest) s consumed)
unfolding read_on
read_on-Partial first rest s consumed lo room h = elim (Option-cases (expected first)) [
  | inl none_there ↦ rw (read_on, none_there) is_invalid
  | inr (expect, e) ↦
      let more = room expect e in
      rw (read_on, e)
        (fill_bytes-Partial first expect lo e (expect - suc (length rest)) rest s consumed
          (omega (arith, more)) h)
]

-- The bytes that mbrtowc keeps, where it returns -2, are none, or a first byte of 0xC2 or above and
-- continuation bytes, fewer in all than the first one announces; that holds behind every call if it
-- does before it.
pub mbrtowc-Partial :
    (kept : List ℕ) (o : Option (List ℕ)) → Partial kept → KeepsPartial (mbrtowc kept o)
unfolding mbrtowc
mbrtowc-Partial kept none p = is_reset
mbrtowc-Partial [] (some []) p = keeps p
mbrtowc-Partial (first ∷ kept) (some []) p = keeps p
mbrtowc-Partial [] (some (b ∷ s)) p = elim (Bool-cases (ltb b 0x80)) [
  | inl y ↦ rw (mbrtowc, y) is_decoded
  | inr n ↦ elim (Bool-cases (ltb b 0xC2)) [
    | inl y ↦ rw (mbrtowc, n, y) is_invalid
    | inr k ↦
        rw (mbrtowc, n, k)
          (read_on-Partial b [] s 1 (ground (arith, k))
            (λ expect e. omega (arith, expected_bound b expect e)) refl)
  ]
]
mbrtowc-Partial (first ∷ rest) (some (b ∷ s)) (begun _ _ expect lo e lt h) =
    read_on-Partial first rest (b ∷ s) 0 lo (λ other e'. omega (arith, lt, some_value (sym e ∙ e')))
      h
