-- ===== src/Utf8/Sequences/Back.antt =====
-- mbsrtowcs of src/c/wchar/mbsrtowcs.c takes back the bytes that wcsrtombs of
-- src/c/wchar/wcsrtombs.c writes.
use small_lib_c.Base.{
  ℕ, zero, suc, ◌+◌, ◌-◌, ◌≤◌, ◌<◌, ◌≡◌, ◌≢◌, refl, ◌∙◌, ap, none, some, List, [], ◌∷◌, ◌++◌, ltb,
  length, length-append, take, drop, arith, Bool-cases, inl, inr,
}
use mathlib.Core.List.{append_assoc}
use small_lib_c.Utf8.Encode.{encoded}
use small_lib_c.Utf8.Restartable.{decoded, mbrtowc}
use small_lib_c.Utf8.Restartable.RoundTrip.{IsScalar, mbrtowc-wcrtomb}
use small_lib_c.Utf8.Sequences.{ended, written_first, mbsrtowcs_loop, mbsrtowcs, wcsrtombs}

-- A wide string of codes of Unicode.
pub data Scalars : List ℕ → Type 0 where
  no_code : Scalars []
  one_more : {wc : ℕ} {ws : List ℕ} → wc ≢ 0 → IsScalar wc → Scalars ws → Scalars (wc ∷ ws)

abbrev pub encoded_all : List ℕ → List ℕ
encoded_all [] = []
encoded_all (wc ∷ ws) = encoded wc ++ encoded_all ws

encoded_bound : (wc : ℕ) → (1 ≤ length (encoded wc)) × (length (encoded wc) ≤ 4)
encoded_bound wc = elim (Bool-cases (ltb wc 0x80)) [
  | inl y ↦ rw (encoded, y) (omega arith, omega arith)
  | inr n ↦ elim (Bool-cases (ltb wc 0x800)) [
    | inl y ↦ rw (encoded, n, y) (omega arith, omega arith)
    | inr m ↦ elim (Bool-cases (ltb wc 0x10000)) [
      | inl y ↦ rw (encoded, n, m, y) (omega arith, omega arith)
      | inr k ↦ rw (encoded, n, m, k) (omega arith, omega arith)
    ]
  ]
]

take_front :
    (n : ℕ) (xs ys : List ℕ) → length xs ≤ n → take n (xs ++ ys) ≡ xs ++ take (n - length xs) ys
take_front n [] ys le = ap (λ m. take m ys) (omega arith)
take_front zero (x ∷ xs) ys le = absurd (omega (arith, le))
take_front (suc n) (x ∷ xs) ys le =
    let same : n - length xs ≡ suc n - suc (length xs) = omega arith in
    ap (λ zs. x ∷ zs) (take_front n xs ys (omega (arith, le)) ∙ ap (λ m. xs ++ take m ys) same)

drop_front : (xs ys : List ℕ) → drop (length xs) (xs ++ ys) ≡ ys
drop_front [] ys = refl
drop_front (x ∷ xs) ys = drop_front xs ys

wcsrtombs-encoded : (ws : List ℕ) → Scalars ws → wcsrtombs none ws ≡ ended (encoded_all ws)
unfolding wcsrtombs
wcsrtombs-encoded [] s = refl
wcsrtombs-encoded (wc ∷ ws) (one_more nonzero scalar s) =
    rw (wcsrtombs, (mbrtowc-wcrtomb wc [] scalar).0, wcsrtombs-encoded ws s) refl

loop_back :
    (ws : List ℕ) (fuel : ℕ)
    → Scalars ws
    → length (encoded_all ws) + 1 < fuel
    → mbsrtowcs_loop fuel [] none (encoded_all ws ++ 0 ∷ []) ≡ ended ws
unfolding mbsrtowcs_loop mbrtowc
loop_back ws zero s enough = absurd (omega (arith, enough))
loop_back [] (suc k) s enough = refl
loop_back (zero ∷ ws) (suc k) (one_more nonzero scalar s) enough = absurd (nonzero refl)
loop_back (suc c ∷ ws) (suc k) (one_more nonzero scalar s) enough =
    let wc = suc c in
    let (lo, hi) = encoded_bound wc in
    let rest = encoded_all ws ++ 0 ∷ [] in
    let front : (encoded wc ++ encoded_all ws) ++ 0 ∷ [] ≡ encoded wc ++ rest =
      append_assoc (encoded wc) (encoded_all ws) (0 ∷ []) in
    let more = take (4 - length (encoded wc)) rest in
    let start : take 4 (encoded wc ++ rest) ≡ encoded wc ++ more =
      take_front 4 (encoded wc) rest hi in
    let read : mbrtowc [] (some (take 4 (encoded wc ++ rest))) ≡ decoded wc (length (encoded wc)) =
      ap (λ xs. mbrtowc [] (some xs)) start ∙ (mbrtowc-wcrtomb wc more scalar).1 in
    let others =
      loop_back ws k s (omega (arith, enough, lo, length-append (encoded wc) (encoded_all ws))) in
    ap (mbsrtowcs_loop (suc k) [] none) front
    ∙ rw (mbsrtowcs_loop, read)
        (ap (λ xs. written_first (wc ∷ []) (mbsrtowcs_loop k [] none xs))
            (drop_front (encoded wc) rest)
          ∙ ap (written_first (wc ∷ [])) others)

-- For a wide string of codes of Unicode, without a terminator among them and without a limit: wcsrtombs
-- writes the bytes of each code in turn, and mbsrtowcs reads the same codes from them.
pub mbsrtowcs-wcsrtombs :
    (ws : List ℕ)
    → Scalars ws
    → (bytes : List ℕ) × (wcsrtombs none ws ≡ ended bytes) × (mbsrtowcs [] none bytes ≡ ended ws)
unfolding mbsrtowcs
mbsrtowcs-wcsrtombs ws s = (
  encoded_all ws,
  wcsrtombs-encoded ws s,
  loop_back ws (length (encoded_all ws) + 2) s (omega arith),
)
