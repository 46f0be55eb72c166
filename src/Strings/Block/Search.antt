-- ===== src/Strings/Block/Search.antt =====
-- memchr and memccpy stop at the first byte that is looked for.
use small_lib_c.Base.{
  ◌∙◌, ap₂, sym, ℕ, suc, ◌+◌, ◌%◌, ◌≤◌, ◌≡◌, refl, ap, Option, none, some, List, [], ◌∷◌, ◌⊎◌,
  arith, ◌==◌, if◌then◌else◌, length, Bool-cases, inl, inr,
}
use mathlib.Core.Option
use mathlib.Core.Path.{fun_ext}
use small_lib_c.Memory.{Memory, ok, load, load-some, store-some, write, write_self}
use small_lib_c.Memory.Region.{
  BytesAt, Mapped, BytesAt-write, Mapped-write, Mapped-tail, first_cell,
}
use small_lib_c.Strings.Block.Move.{moved, moved_none, moved_up_step}
use small_lib_c.Strings.Block.{find_byte, memchr, copy_until, memccpy}

-- The position of the first `c`.
unfoldable pub index_of : ℕ → List ℕ → Option ℕ
index_of c [] = none
index_of c (b ∷ bs) = if b == c then some 0 else Option.map (λ i. i + 1) (index_of c bs)

module _ (m : Memory) (c : ℕ) where
  pub find_byte-index_of :
      (p : ℕ) (bs : List ℕ)
      → BytesAt m p bs
      → find_byte (length bs) p c m ≡ ok (Option.map (λ i. p + i) (index_of c bs)) m
  unfolding find_byte index_of load
  find_byte-index_of p [] h = refl
  find_byte-index_of p (b ∷ bs) h = ground (arith, find_byte-index_of (p + 1) bs)

-- For a block in memory, memchr returns the address of the first byte equal to the low byte of `c`,
-- or null if there is none, and leaves the memory as it is.
pub memchr-index_of :
    (m : Memory) (s c : ℕ) (bs : List ℕ)
    → BytesAt m s bs
    → memchr s c (length bs) m ≡ ok (Option.map (λ i. s + i) (index_of (c % 256) bs)) m
unfolding memchr
memchr-index_of m s c bs h = find_byte-index_of m (c % 256) s bs h

-- The number of bytes up to and with the first `c`, or all of them.
abbrev pub copied : ℕ → List ℕ → ℕ
copied c bs = elim (index_of c bs) [ none ↦ length bs | some i ↦ i + 1 ]

copied-cons :
    (c b : ℕ) (bs : List ℕ) → copied c (b ∷ bs) ≡ (if b == c then 1 else suc (copied c bs))
unfolding index_of
copied-cons c b bs = ground arith

copied-le : (c : ℕ) (bs : List ℕ) → copied c bs ≤ length bs
unfolding index_of
copied-le c [] = omega arith
copied-le c (b ∷ bs) = ground (arith, copied-le c bs)

map_shift :
    (d : ℕ) (o : Option ℕ)
    → Option.map (λ i. d + 1 + (i + 1)) o
      ≡ Option.map (λ i. d + (i + 1)) (Option.map (λ (i : ℕ). i + 1) o)
map_shift d none = refl
map_shift d (some i) = ap some (omega arith)

copy_until-moved :
    (ch d s : ℕ) (bs : List ℕ) (m : Memory)
    → BytesAt m s bs
    → Mapped m d (length bs)
    → (d + length bs ≤ s) ⊎ (s + length bs ≤ d)
    → copy_until (length bs) d s ch m
      ≡ ok (Option.map (λ i. d + (i + 1)) (index_of ch bs)) (moved m d s (copied ch bs))
unfolding copy_until index_of
copy_until-moved ch d s [] m hs md apart = ap (ok none) (fun_ext (moved_none m d s))
copy_until-moved ch d s (b ∷ bs) m hs md apart =
    let (old, to) = first_cell m d (length bs) md in
    let m' : Memory = write m d b in
    let rest =
      copy_until-moved ch (d + 1) (s + 1) bs m' (BytesAt-write m (s + 1) d b bs (omega arith) hs.1)
        (Mapped-write m (d + 1) (length bs) d b (Mapped-tail m d (length bs) md)) (omega arith) in
    let shape = copied-cons ch b bs in
    let room = copied-le ch bs in
    elim (Bool-cases (b == ch)) [
      | inl e ↦
          let one : copied ch (b ∷ bs) ≡ 1 = ground arith in
          rw (load-some s m hs.0, store-some d b m to, load-some d m' (write_self m d b), e)
            (ap (ok (some (d + 1))) (
              fun_ext (λ a.
                moved_none m' (d + 1) (s + 1) a ∙ moved_up_step m 0 d s b a hs.0 (omega arith))
              ∙ ap (moved m d s) (sym one)))
      | inr e ↦
          let more : copied ch (b ∷ bs) ≡ suc (copied ch bs) = ground arith in
          rw (load-some s m hs.0, store-some d b m to, load-some d m' (write_self m d b), e, rest)
            (ap₂ ok (map_shift d (index_of ch bs)) (
              fun_ext (λ a. moved_up_step m (copied ch bs) d s b a hs.0 (omega arith))
              ∙ ap (moved m d s) (sym more)))
    ]

-- For a block in memory and a region of its length that does not overlap it, memccpy copies the
-- bytes up to and with the first one equal to the low byte of `c`, and returns the address after
-- that byte's copy; if there is none it copies the block and returns null. Nothing else is changed.
pub memccpy-index_of :
    (m : Memory) (dest src c : ℕ) (bs : List ℕ)
    → BytesAt m src bs
    → Mapped m dest (length bs)
    → (dest + length bs ≤ src) ⊎ (src + length bs ≤ dest)
    → memccpy dest src c (length bs) m
      ≡ ok
          (Option.map (λ i. dest + (i + 1)) (index_of (c % 256) bs))
          (moved m dest src (copied (c % 256) bs))
unfolding memccpy
memccpy-index_of m dest src c bs hs md apart = copy_until-moved (c % 256) dest src bs m hs md apart
