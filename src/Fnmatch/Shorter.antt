-- ===== src/Fnmatch/Shorter.antt =====
-- The searches of src/c/fnmatch/fnmatch.c for the end of a bracket or of some stars go forwards.
use small_lib_c.Base.{
  ℕ, zero, suc, ◌≤◌, ◌&&◌, List, [], ◌∷◌, ◌==◌, Bool-cases, inl, inr, arith, length, drop,
  length-drop,
}
use small_lib_c.Fnmatch.{head}
use small_lib_c.Fnmatch.Bracket.{close_class, begins_class, end_loop, leads, scan_end}
use small_lib_c.Fnmatch.Match.{skip_stars, negates, set_start, bracket_end}

-- What a search for an end leaves is no longer.
close_class-shorter : (t : ℕ) (s : List ℕ) → length (close_class t s) ≤ length s
unfolding close_class
close_class-shorter t [] = omega arith
close_class-shorter t (c ∷ s) =
    let rest = close_class-shorter t s in
    elim (Bool-cases (c == t && head s == b']')) [
      | inl y ↦ rw y (omega arith)
      | inr n ↦ rw n (omega (arith, rest))
    ]

end_loop-shorter : (k : ℕ) (s : List ℕ) → length (end_loop k s) ≤ length s
unfolding end_loop
end_loop-shorter zero s = omega arith
end_loop-shorter (suc k) [] = omega arith
end_loop-shorter (suc k) (c ∷ s) =
    let e = close_class (head s) (drop 1 s) in
    let behind = end_loop-shorter k (drop 2 e) in
    let rest = end_loop-shorter k s in
    elim (Bool-cases (c == b']')) [
      | inl y ↦ rw y (omega arith)
      | inr n ↦ elim (Bool-cases (begins_class (c ∷ s))) [
        | inl o ↦
            rw (n, o)
              (omega (
                arith,
                behind,
                length-drop 2 e,
                close_class-shorter (head s) (drop 1 s),
                length-drop 1 s,
              ))
        | inr m ↦ rw (n, m) (omega (arith, rest))
      ]
    ]

pub bracket_end-shorter : (p : List ℕ) → length (bracket_end p) ≤ length p
unfolding bracket_end scan_end
bracket_end-shorter p =
    let q = set_start p in
    let start = set_start-shorter p in
    elim (Bool-cases (leads q)) [
      | inl y ↦ rw y (omega (arith, start, end_loop-shorter (length q) (drop 1 q), length-drop 1 q))
      | inr n ↦ rw n (omega (arith, start, end_loop-shorter (length q) q))
    ]
  where
    set_start-shorter : (p : List ℕ) → length (set_start p) ≤ length p
    set_start-shorter p = elim (Bool-cases (negates p)) [
      | inl y ↦ rw y (omega (arith, length-drop 1 p))
      | inr n ↦ rw n (omega arith)
    ]

pub skip_stars-shorter : (p : List ℕ) → length (skip_stars p) ≤ length p
unfolding skip_stars
skip_stars-shorter [] = omega arith
skip_stars-shorter (c ∷ p) =
    let rest = skip_stars-shorter p in
    elim (Bool-cases (c == b'*')) [
      | inl y ↦ rw y (omega (arith, rest))
      | inr n ↦ rw n (omega arith)
    ]
