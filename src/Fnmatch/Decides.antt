-- ===== src/Fnmatch/Decides.antt =====
-- fnmatch_internal of src/c/fnmatch/fnmatch.c decides whether a string matches the items of a
-- pattern.
use small_lib_c.Base.{
  ℕ, zero, suc, ◌+◌, ◌≤◌, ◌<◌, ◌≡◌, refl, ap, Bool, true, false, not, ◌&&◌, some, List, [], ◌∷◌,
  ◌==◌, Bool-cases, ◌⊎◌, inl, inr, arith, length,
}
use small_lib_c.Fnmatch.{flag, fnm_nomatch, fnm_noescape}
use small_lib_c.Fnmatch.Match.{
  Verdict, skip_stars, bracket_end, star, bracket, next_byte, fnmatch_internal, status, fnmatch,
}
use small_lib_c.Fnmatch.Meaning.{Item, read_bracket, read_byte, read_items, Matches, glob}
use small_lib_c.Fnmatch.Shorter.{bracket_end-shorter, skip_stars-shorter}
use small_lib_c.Fnmatch.Items.{
  Answers, matched, unmatched, literal_lem, question_lem, star_lem, star_end_lem, closed_lem,
  escape_lem,
}

list-cases : (s : List ℕ) → (s ≡ []) ⊎ ((x : ℕ) × (t : List ℕ) × (s ≡ x ∷ t))
list-cases [] = inl refl
list-cases (x ∷ s) = inr (x, s, refl)

module _ (flags : ℕ) where
  -- A byte of the pattern, where shorter patterns are decided.
  module _ (read : List ℕ → List Item) (go : List ℕ → List ℕ → Bool → Verdict) (p : List ℕ)
      (ends : read [] ≡ [])
      (shorter : (q : List ℕ)
        → length q ≤ length p
        → (s : List ℕ) (is_start : Bool)
        → Answers (Matches flags (read q) s is_start) (go q s is_start)) where
    bracket_lem :
        (s : List ℕ) (is_start : Bool)
        → Answers
            (Matches flags (read_bracket flags read p) s is_start)
            (bracket flags go p s is_start)
    unfolding bracket read_bracket
    bracket_lem s is_start = elim (list-cases (bracket_end p)) [
      | inl e ↦
          rw (e, bracket, read_bracket)
            (literal_lem flags (read p) go p (shorter p (omega arith)) b'[' s is_start)
      | inr (b, after, e) ↦
          rw (e, bracket, read_bracket)
            (closed_lem flags (read after) go p after
              (shorter after (
                let le = bracket_end-shorter p in
                let same = ap length e in omega (arith, le, same)))
              s is_start)
    ]

    skipped_lem :
        (q : List ℕ)
        → length q ≤ length p
        → (s : List ℕ) (is_start : Bool)
        → Answers (Matches flags (Item.many ∷ read q) s is_start) (star flags go q s is_start)
    skipped_lem [] le s is_start = rw ends (star_end_lem flags go s is_start)
    skipped_lem (c ∷ q) le s is_start =
        star_lem flags (read (c ∷ q)) go c q (shorter (c ∷ q) le) s is_start

    next_byte_lem :
        (c : ℕ) (s : List ℕ) (is_start : Bool)
        → Answers
            (Matches flags (read_byte flags read c p) s is_start)
            (next_byte flags go c p s is_start)
    unfolding next_byte read_byte
    next_byte_lem c s is_start = elim (Bool-cases (not (flag flags fnm_noescape) && c == b'\\')) [
      | inl y ↦ rw y (escape_lem flags read go p shorter s is_start)
      | inr n ↦ elim (Bool-cases (c == b'[')) [
        | inl y ↦ rw (n, y) (bracket_lem s is_start)
        | inr m ↦ elim (Bool-cases (c == b'?')) [
          | inl y ↦
              rw (n, m, y) (question_lem flags (read p) go p (shorter p (omega arith)) s is_start)
          | inr l ↦ elim (Bool-cases (c == b'*')) [
            | inl y ↦ rw (n, m, l, y) (skipped_lem (skip_stars p) (skip_stars-shorter p) s is_start)
            | inr k ↦
                rw (n, m, l, k)
                  (literal_lem flags (read p) go p (shorter p (omega arith)) c s is_start)
          ]
        ]
      ]
    ]

  read_nil : (k : ℕ) → 0 < k → read_items flags k [] ≡ []
  unfolding read_items
  read_nil zero lt = absurd (omega arith)
  read_nil (suc k) lt = refl

  fnmatch_internal_lem :
      (k : ℕ) (p s : List ℕ) (is_start : Bool)
      → length p < k
      → Answers
          (Matches flags (read_items flags k p) s is_start)
          (fnmatch_internal flags k p s is_start)
  unfolding fnmatch_internal read_items
  fnmatch_internal_lem zero p s is_start lt = absurd (omega arith)
  fnmatch_internal_lem (suc k) [] [] is_start lt = matched refl
  fnmatch_internal_lem (suc k) [] (x ∷ s) is_start lt =
      let more : (suc (length s) == 0) ≡ false = ground arith in
      rw more (unmatched (λ e. ground (arith, e)))
  fnmatch_internal_lem (suc k) (c ∷ p) s is_start lt =
      next_byte_lem (read_items flags k) (fnmatch_internal flags k) p
        (read_nil k (omega (arith, lt)))
        (λ q le s' st. fnmatch_internal_lem k q s' st (omega (arith, lt, le))) c s is_start

  verdict :
      {P : Type 0} {v : Verdict}
      → Answers P v
      → (status v ≡ some 0) × P ⊎ (status v ≡ some fnm_nomatch) × ¬ P
  unfolding status
  verdict (matched m) = inl (refl, m)
  verdict (unmatched n) = inr (refl, n)

  -- fnmatch returns 0 for a string that matches what its pattern reads as, and FNM_NOMATCH for one
  -- that does not: it returns for every pattern, string and flags.
  pub fnmatch-Matches :
      (pattern string : List ℕ)
      → (fnmatch pattern string flags ≡ some 0) × Matches flags (glob flags pattern) string true
        ⊎ (fnmatch pattern string flags ≡ some fnm_nomatch)
          × ¬ Matches flags (glob flags pattern) string true
  unfolding fnmatch
  fnmatch-Matches pattern string =
      verdict (fnmatch_internal_lem (length pattern + 1) pattern string true (omega arith))
