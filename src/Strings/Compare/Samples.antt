-- ===== src/Strings/Compare/Samples.antt =====
-- Runs of the comparisons, and the theorems at concrete strings.
use small_lib_c.Base.{
  ℕ, ◌≡◌, refl, ◌↔◌, Bool, true, [], ◌∷◌, arith, if◌then◌else◌, length, take, map,
}
use small_lib_c.Base.Int.{ℤ, pos}
use small_lib_c.Memory.{Memory, ok, load}
use small_lib_c.Memory.Region.{holding}
use small_lib_c.Strings.Compare.{strcmp, strcoll, memcmp, bcmp, strcasecmp, strncasecmp}
use small_lib_c.Strings.Compare.Order.{Orders}
use small_lib_c.Strings.Compare.Text.{strcmp-Orders}
use small_lib_c.Strings.Compare.Blocks.{memcmp-Orders}
use small_lib_c.Strings.Compare.Case.{small_letter, strcasecmp-Orders}

-- "ab" at 10 and "aC" at 13.
abbrev two_strings : Memory
two_strings = holding 10 (b'a' ∷ b'b' ∷ 0 ∷ b'a' ∷ b'C' ∷ 0 ∷ [])

strcmp_run : strcmp 3 10 13 two_strings ≡ ok (pos 31) two_strings
unfolding strcmp load
strcmp_run = refl

strcasecmp_run : strcasecmp 3 13 10 two_strings ≡ ok (pos 1) two_strings
unfolding strcasecmp load
strcasecmp_run = refl

strcmp-Orders_example :
    (r : ℤ) × (strcmp 3 10 13 two_strings ≡ ok r two_strings)
    × (strcoll 3 10 13 two_strings ≡ ok r two_strings)
    × Orders (b'a' ∷ b'b' ∷ []) (b'a' ∷ b'C' ∷ []) r
strcmp-Orders_example =
    strcmp-Orders two_strings 3 10 13 (b'a' ∷ b'b' ∷ []) (b'a' ∷ b'C' ∷ []) (ground arith)
      (ground arith) (omega arith)

memcmp-Orders_example :
    (r : ℤ) × (b : Bool) × (memcmp (length {A = ℕ} (b'b' ∷ 0 ∷ [])) 11 14 two_strings
      ≡ ok r two_strings)
    × Orders (b'b' ∷ 0 ∷ []) (b'C' ∷ 0 ∷ []) r
    × (bcmp (length {A = ℕ} (b'b' ∷ 0 ∷ [])) 11 14 two_strings
        ≡ ok (if b then 0 else 1) two_strings)
    × ((b ≡ true) ↔ (r ≡ pos 0))
memcmp-Orders_example =
    memcmp-Orders two_strings 11 14 (b'b' ∷ 0 ∷ []) (b'C' ∷ 0 ∷ []) (ground arith) (ground arith)
      refl

strcasecmp-Orders_example :
    ((r : ℤ) × (strcasecmp 3 10 13 two_strings ≡ ok r two_strings)
      × Orders (map small_letter (b'a' ∷ b'b' ∷ [])) (map small_letter (b'a' ∷ b'C' ∷ [])) r)
    × ((r : ℤ) × (strncasecmp 1 10 13 two_strings ≡ ok r two_strings)
        × Orders
            (map small_letter (take 1 (b'a' ∷ b'b' ∷ [])))
            (map small_letter (take 1 (b'a' ∷ b'C' ∷ [])))
            r)
strcasecmp-Orders_example =
    strcasecmp-Orders two_strings 3 1 10 13 (b'a' ∷ b'b' ∷ []) (b'a' ∷ b'C' ∷ []) (ground arith)
      (ground arith) (omega arith)
