-- ===== src/Utf8/Sequences/Cut.antt =====
-- wcsrtombs of src/c/wchar/wcsrtombs.c into a buffer with a limit.
use small_lib_c.Base.{
  ℕ, ◌-◌, ◌≤◌, ◌<◌, ◌≡◌, refl, ap, subst, some, List, [], ◌∷◌, ◌++◌, ltb, ◌==◌, length,
  length-append, arith, Bool-cases, inl, inr,
}
use mathlib.Core.List.{append-nil}
use small_lib_c.Utf8.Encode.{encoded}
use small_lib_c.Utf8.Restartable.RoundTrip.{mbrtowc-wcrtomb}
use small_lib_c.Utf8.Sequences.{
  Converted, ended, stopped, written_first, lacks_room, is_full, put_code, wcsrtombs,
}
use small_lib_c.Utf8.Sequences.Back.{Scalars, one_more, encoded_all}

-- The whole wide string in the buffer with its terminator, or as many of its codes as are written, and
-- the others left, where it does not fit.
pub data Cut (n : ℕ) (ws : List ℕ) : Converted → Type 0 where
  whole : length (encoded_all ws) < n → Cut n ws (ended (encoded_all ws))
  front_of :
      (front rest : List ℕ)
      → front ++ rest ≡ ws
      → length (encoded_all front) ≤ n
      → n ≤ length (encoded_all ws)
      → Cut n ws (stopped (encoded_all front) rest)

cut_first :
    (n wc : ℕ) (ws : List ℕ) {r : Converted}
    → length (encoded wc) ≤ n
    → Cut (n - length (encoded wc)) ws r
    → Cut n (wc ∷ ws) (written_first (encoded wc) r)
cut_first n wc ws le (whole lt) =
    whole (omega (arith, le, lt, length-append (encoded wc) (encoded_all ws)))
cut_first n wc ws le (front_of front rest e fits full) =
    front_of (wc ∷ front) rest (ap (λ xs. wc ∷ xs) e)
      (omega (arith, le, fits, length-append (encoded wc) (encoded_all front)))
      (omega (arith, le, full, length-append (encoded wc) (encoded_all ws)))

cut_code :
    (n wc : ℕ) (ws : List ℕ) (r : Converted)
    → Cut (n - length (encoded wc)) ws r
    → Cut n (wc ∷ ws) (put_code (some n) ws (encoded wc) wc r)
cut_code n wc ws r rest = elim (Bool-cases (ltb n (length (encoded wc)))) [
  | inl y ↦
      let lt : n < length (encoded wc) = ground (arith, y) in
      rw (put_code, lacks_room, y)
        (front_of [] (wc ∷ ws) refl (omega arith)
          (omega (arith, lt, length-append (encoded wc) (encoded_all ws))))
  | inr m ↦ elim (Bool-cases (n == length (encoded wc))) [
    | inl y ↦
        let same : n ≡ length (encoded wc) = ground (arith, y) in
        rw (put_code, lacks_room, is_full, m, y)
          (subst (λ out. Cut n (wc ∷ ws) (stopped out ws)) (append-nil (encoded wc))
            (front_of (wc ∷ []) ws refl (omega (arith, same, length-append (encoded wc) []))
              (omega (arith, same, length-append (encoded wc) (encoded_all ws)))))
    | inr k ↦ rw (put_code, lacks_room, is_full, m, k) (cut_first n wc ws (ground (arith, m)) rest)
  ]
]

-- For a wide string of codes of Unicode and a buffer of n bytes: wcsrtombs writes the whole text with its
-- terminator where that fits, and otherwise whole codes from the front on, which fit, and leaves `*src`
-- at the code behind them.
pub wcsrtombs-Cut : (n : ℕ) (ws : List ℕ) → Scalars ws → Cut n ws (wcsrtombs (some n) ws)
unfolding wcsrtombs
wcsrtombs-Cut n [] s = elim (Bool-cases (ltb n 1)) [
  | inl y ↦ rw (wcsrtombs, y) (front_of [] [] refl (omega arith) (ground (arith, y)))
  | inr m ↦ rw (wcsrtombs, m) (whole (ground (arith, m)))
]
wcsrtombs-Cut n (wc ∷ ws) (one_more nonzero scalar s) =
    rw (wcsrtombs, (mbrtowc-wcrtomb wc [] scalar).0)
      (cut_code n wc ws (wcsrtombs (some (n - length (encoded wc))) ws)
        (wcsrtombs-Cut (n - length (encoded wc)) ws s))
