-- ===== src/Utf8/Encode.antt =====
-- What wctomb writes.
use small_lib_c.Base.{
  ℕ, ◌+◌, ◌*◌, ◌/◌, ◌%◌, ◌^◌, ◌≤◌, ◌<◌, ◌≡◌, refl, ◌≢◌, bit_and, true, false, some, List, [], ◌∷◌,
  ltb, leb, ◌==◌, if◌then◌else◌, arith, length, Bool-cases, inl, inr,
}
use small_lib_c.Base.Bits.{bit_or-disjoint, bit_and-low}
use small_lib_c.Base.Int.{pos}
use small_lib_c.Memory.{Memory, ok, store-some, write}
use small_lib_c.Memory.Region.{Mapped, first_cell, Mapped-write, Mapped-tail}
use small_lib_c.Strings.Copy.Written.{written}
use small_lib_c.Utf8.{marked, wctomb}

-- The encoding of a code.
abbrev pub encoded : ℕ → List ℕ
encoded wc =
    if ltb wc 0x80
    then wc ∷ []
    else if ltb wc 0x800
    then (192 + wc / 2 ^ 6) ∷ (128 + wc % 64) ∷ []
    else if ltb wc 0x10000
    then (224 + wc / 2 ^ 12) ∷ (128 + wc / 2 ^ 6 % 64) ∷ (128 + wc % 64) ∷ []
    else (240 + wc / 2 ^ 18)
      ∷ (128 + wc / 2 ^ 12 % 64)
      ∷ (128 + wc / 2 ^ 6 % 64)
      ∷ (128 + wc % 64)
      ∷ []

marked_lem :
    (k q bits : ℕ) → bits < 2 ^ k → 2 ^ k ≤ 256 → marked (q * 2 ^ k) bits ≡ q * 2 ^ k + bits
unfolding marked
marked_lem k q bits h room =
    let byte : bits % 256 ≡ bits = omega arith in rw byte (bit_or-disjoint k q bits h)

continuation : (x : ℕ) → marked 128 (bit_and x 63) ≡ 128 + x % 64
continuation x = rw (bit_and-low 6 x) (marked_lem 6 2 (x % 64) (omega arith) (omega arith))

-- Four stores in a row.
module _ (m : Memory) (s : ℕ) (room : Mapped m s 4) where
  abbrev m1 : ℕ → Memory
  m1 a = write m s a

  first : (a : ℕ) → (old : ℕ) × (m s ≡ some old)
  first a = first_cell m s 3 room

  second : (a : ℕ) → (old : ℕ) × (m1 a (s + 1) ≡ some old)
  second a = first_cell (m1 a) (s + 1) 2 (Mapped-write m (s + 1) 3 s a (Mapped-tail m s 3 room))

  third : (a b : ℕ) → (old : ℕ) × (write (m1 a) (s + 1) b (s + 1 + 1) ≡ some old)
  third a b = first_cell (write (m1 a) (s + 1) b) (s + 1 + 1) 1 (
      Mapped-write (m1 a) (s + 1 + 1) 2 (s + 1) b
        (Mapped-write m (s + 1 + 1) 2 s a (λ x lo hi. room x (omega arith) (omega arith))))

  fourth :
      (a b c : ℕ)
      → (old : ℕ) × (write (write (m1 a) (s + 1) b) (s + 1 + 1) c (s + 1 + 1 + 1) ≡ some old)
  fourth a b c = first_cell (write (write (m1 a) (s + 1) b) (s + 1 + 1) c) (s + 1 + 1 + 1) 0 (
      Mapped-write (write (m1 a) (s + 1) b) (s + 1 + 1 + 1) 1 (s + 1 + 1) c (
        Mapped-write (m1 a) (s + 1 + 1 + 1) 1 (s + 1) b
          (Mapped-write m (s + 1 + 1 + 1) 1 s a (λ x lo hi. room x (omega arith) (omega arith)))))

  places : (s + 2 ≡ s + 1 + 1) × (s + 3 ≡ s + 1 + 1 + 1)
  places = (omega arith, omega arith)

  -- wctomb writes the encoding of a code up to 0x10FFFF and returns its length.
  pub wctomb-encoded :
      (wc : ℕ)
      → s ≢ 0
      → wc ≤ 0x10FFFF
      → wctomb s (pos wc) m ≡ ok (pos (length (encoded wc))) (written m s (encoded wc))
  unfolding wctomb written
  wctomb-encoded wc live top =
      let some_s : (s == 0) ≡ false = ground arith in
      let (e2, e3) = places in
      elim (Bool-cases (ltb wc 0x80)) [
        | inl y1 ↦ rw (some_s, y1, store-some s wc m (first wc).1) refl
        | inr n1 ↦ elim (Bool-cases (ltb wc 0x800)) [
          | inl y2 ↦
              let a = marked_lem 6 3 (wc / 2 ^ 6) (ground (arith, y2)) (omega arith) in
              let w1 = store-some s (192 + wc / 2 ^ 6) m (first (192 + wc / 2 ^ 6)).1 in
              let w2 =
                store-some (s + 1) (128 + wc % 64) (m1 (192 + wc / 2 ^ 6))
                  (second (192 + wc / 2 ^ 6)).1 in
              rw (some_s, n1, y2, a, continuation wc, w1, w2) refl
          | inr n2 ↦ elim (Bool-cases (ltb wc 0x10000)) [
            | inl y3 ↦
                let a = marked_lem 5 7 (wc / 2 ^ 12) (ground (arith, y3)) (omega arith) in
                let b1 = 224 + wc / 2 ^ 12 in
                let b2 = 128 + wc / 2 ^ 6 % 64 in
                let b3 = 128 + wc % 64 in
                let w1 = store-some s b1 m (first b1).1 in
                let w2 = store-some (s + 1) b2 (m1 b1) (second b1).1 in
                let w3 = store-some (s + 1 + 1) b3 (write (m1 b1) (s + 1) b2) (third b1 b2).1 in
                rw
                  (
                    some_s,
                    n1,
                    n2,
                    y3,
                    a,
                    continuation (wc / 2 ^ 6),
                    continuation wc,
                    e2,
                    w1,
                    w2,
                    w3,
                  )
                  refl
            | inr n3 ↦
                let a = marked_lem 4 15 (wc / 2 ^ 18) (ground arith) (omega arith) in
                let in_range : leb wc 0x10FFFF ≡ true = ground arith in
                let b1 = 240 + wc / 2 ^ 18 in
                let b2 = 128 + wc / 2 ^ 12 % 64 in
                let b3 = 128 + wc / 2 ^ 6 % 64 in
                let b4 = 128 + wc % 64 in
                let w1 = store-some s b1 m (first b1).1 in
                let w2 = store-some (s + 1) b2 (m1 b1) (second b1).1 in
                let w3 = store-some (s + 1 + 1) b3 (write (m1 b1) (s + 1) b2) (third b1 b2).1 in
                let w4 =
                  store-some (s + 1 + 1 + 1) b4 (write (write (m1 b1) (s + 1) b2) (s + 1 + 1) b3)
                    (fourth b1 b2 b3).1 in
                rw
                  (
                    some_s,
                    n1,
                    n2,
                    n3,
                    in_range,
                    a,
                    continuation (wc / 2 ^ 12),
                    continuation (wc / 2 ^ 6),
                    continuation wc,
                    e2,
                    e3,
                    w1,
                    w2,
                    w3,
                    w4,
                  )
                  refl
          ]
        ]
      ]
