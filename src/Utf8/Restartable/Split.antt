-- ===== src/Utf8/Restartable/Split.antt =====
-- mbrtowc of src/c/wchar/mbrtowc.c: a sequence of bytes that is read in parts.
use small_lib_c.Base.{
  ℕ, zero, suc, ◌+◌, ◌-◌, ◌<◌, ◌≡◌, refl, sym, ◌∙◌, ap, bit_and, Bool, true, false, some, List, [],
  ◌∷◌, ◌++◌, ltb, ◌==◌, if◌then◌else◌, length, length-append, Bool-cases, Option-cases, inl, inr,
  arith, some_value,
}
use small_lib_c.Utf8.Restartable.{
  Reading, decoded, incomplete, invalid, reset, expected, fill_bytes, is_code, code_of, finish_code,
  read_on, mbrtowc,
}
use small_lib_c.Utf8.Restartable.State.{Partial, begun, expected_bound}

-- A reading that n bytes were in front of.
abbrev pub behind : (n : ℕ) → Reading → Reading
behind n (decoded wc consumed) = decoded wc (n + consumed)
behind n (incomplete kept) = incomplete kept
behind n invalid = invalid
behind n reset = reset

-- A call with n bytes, and where it keeps them a second one with the rest.
abbrev pub then_read : (n : ℕ) → Reading → (rest : List ℕ) → Reading
then_read n (incomplete kept) rest = behind n (mbrtowc kept (some rest))
then_read n (decoded wc consumed) rest = decoded wc consumed
then_read n invalid rest = invalid
then_read n reset rest = reset

behind_none : (r : Reading) → r ≡ behind 0 r
behind_none (decoded wc consumed) = ap (decoded wc) (omega arith)
behind_none (incomplete kept) = refl
behind_none invalid = refl
behind_none reset = refl

shift_tested :
    (n wc consumed : ℕ) (b : Bool)
    → (if b then decoded wc (n + consumed) else invalid)
      ≡ behind n (if b then decoded wc consumed else invalid)
shift_tested n wc consumed true = refl
shift_tested n wc consumed false = refl

keep_tested :
    (n wc consumed : ℕ) (rest : List ℕ) (b : Bool)
    → (if b then decoded wc consumed else invalid)
      ≡ then_read n (if b then decoded wc consumed else invalid) rest
keep_tested n wc consumed rest true = refl
keep_tested n wc consumed rest false = refl

shift_filled :
    (expect missing : ℕ) (kept s : List ℕ) (n consumed : ℕ)
    → finish_code expect (fill_bytes missing kept s (n + consumed))
      ≡ behind n (finish_code expect (fill_bytes missing kept s consumed))
unfolding fill_bytes
shift_filled expect zero kept s n consumed =
    shift_tested n (code_of kept) consumed (is_code expect (code_of kept))
shift_filled expect (suc k) kept [] n consumed = refl
shift_filled expect (suc k) kept (b ∷ s) n consumed = elim (Bool-cases (bit_and b 0xC0 == 0x80)) [
  | inl y ↦
      let moved : n + consumed + 1 ≡ n + (consumed + 1) = omega arith in
      rw (fill_bytes, y)
        (ap (λ c. finish_code expect (fill_bytes k (kept ++ b ∷ []) s c)) moved
          ∙ shift_filled expect k (kept ++ b ∷ []) s n (consumed + 1))
  | inr k' ↦ rw (fill_bytes, k') refl
]

module _ (first expect : ℕ) (announced : expected first ≡ some expect) where
  -- Bytes that are there, read behind those that are kept.
  read_kept :
      (rest : List ℕ) (b : ℕ) (t : List ℕ) (missing n : ℕ)
      → suc (length rest) + missing ≡ expect
      → finish_code expect (fill_bytes missing (first ∷ rest) (b ∷ t) n)
        ≡ behind n (mbrtowc (first ∷ rest) (some (b ∷ t)))
  unfolding mbrtowc read_on
  read_kept rest b t missing n e =
      let left : expect - suc (length rest) ≡ missing = omega (arith, e) in
      let moved : n ≡ n + 0 = omega arith in
      rw (mbrtowc, read_on, announced, left)
        (ap (λ c. finish_code expect (fill_bytes missing (first ∷ rest) (b ∷ t) c)) moved
          ∙ shift_filled expect missing (first ∷ rest) (b ∷ t) n 0)

  fill_bytes-append :
      (missing : ℕ) (rest s t : List ℕ) (consumed : ℕ)
      → suc (length rest) + missing ≡ expect
      → finish_code expect (fill_bytes missing (first ∷ rest) (s ++ t) consumed)
        ≡ then_read
            (consumed + length s)
            (finish_code expect (fill_bytes missing (first ∷ rest) s consumed))
            t
  unfolding fill_bytes mbrtowc
  fill_bytes-append zero rest s t consumed e =
      keep_tested (consumed + length s) (code_of (first ∷ rest)) consumed t
        (is_code expect (code_of (first ∷ rest)))
  fill_bytes-append (suc k) rest [] [] consumed e = refl
  fill_bytes-append (suc k) rest [] (b ∷ t) consumed e =
      read_kept rest b t (suc k) consumed e
      ∙ ap (λ n. behind n (mbrtowc (first ∷ rest) (some (b ∷ t)))) (omega arith)
  fill_bytes-append (suc k) rest (b ∷ s) t consumed e = elim (Bool-cases (bit_and b 0xC0 == 0x80)) [
    | inl y ↦
        let moved : consumed + 1 + length s ≡ consumed + suc (length s) = omega arith in
        rw (fill_bytes, y)
          (fill_bytes-append k (rest ++ b ∷ []) s t (consumed + 1)
              (omega (arith, e, length-append rest (b ∷ [])))
            ∙ ap
                (λ n.
                  then_read n
                    (finish_code expect (fill_bytes k (first ∷ (rest ++ b ∷ [])) s (consumed + 1)))
                    t)
                moved)
    | inr k' ↦ rw (fill_bytes, k') refl
  ]

read_on-append :
    (first : ℕ) (rest s t : List ℕ) (consumed : ℕ)
    → ((expect : ℕ) → expected first ≡ some expect → suc (length rest) < expect)
    → read_on first (first ∷ rest) (s ++ t) consumed
      ≡ then_read (consumed + length s) (read_on first (first ∷ rest) s consumed) t
unfolding read_on
read_on-append first rest s t consumed room = elim (Option-cases (expected first)) [
  | inl none_there ↦ rw (read_on, none_there) refl
  | inr (expect, e) ↦
      let more = room expect e in
      rw (read_on, e)
        (fill_bytes-append first expect e (expect - suc (length rest)) rest s t consumed
          (omega (arith, more)))
]

-- mbrtowc reads a sequence of bytes in two calls as in one: where the first call returns -2, a second
-- one with the rest goes on from the bytes that were kept, and reads the code that one call with all
-- the bytes reads, or finds the same error.
pub mbrtowc-append :
    (kept s t : List ℕ)
    → Partial kept
    → mbrtowc kept (some (s ++ t)) ≡ then_read (length s) (mbrtowc kept (some s)) t
unfolding mbrtowc
mbrtowc-append kept [] t p = behind_none (mbrtowc kept (some t))
mbrtowc-append [] (b ∷ s) t p = elim (Bool-cases (ltb b 0x80)) [
  | inl y ↦ rw (mbrtowc, y) refl
  | inr n ↦ elim (Bool-cases (ltb b 0xC2)) [
    | inl y ↦ rw (mbrtowc, n, y) refl
    | inr k ↦
        let moved : 1 + length s ≡ suc (length s) = omega arith in
        rw (mbrtowc, n, k)
          (read_on-append b [] s t 1 (λ expect e. omega (arith, expected_bound b expect e))
            ∙ ap (λ m. then_read m (read_on b (b ∷ []) s 1) t) moved)
  ]
]
mbrtowc-append (first ∷ rest) (b ∷ s) t (begun _ _ expect lo e lt h) =
    read_on-append first rest (b ∷ s) t 0 (λ other e'. omega (arith, lt, some_value (sym e ∙ e')))
    ∙ ap (λ m. then_read m (read_on first (first ∷ rest) (b ∷ s) 0) t) (omega arith)
