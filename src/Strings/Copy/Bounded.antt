-- ===== src/Strings/Copy/Bounded.antt =====
-- strncpy, strncat, wcsncpy and wcsncat.
use small_lib_c.Base.{
  ℕ, zero, suc, ◌+◌, ◌-◌, ◌≤◌, ◌<◌, ◌≡◌, refl, sym, ap, ap₂, ◌∙◌, ◌⊎◌, false, List, [], ◌∷◌, ◌++◌,
  ◌==◌, arith, length, take, replicate,
}
use small_lib_c.Memory.{Memory, ok, load-some, store-some, write}
use small_lib_c.Memory.Region.{
  Mapped, StringAt, first_cell, Mapped-write, Mapped-tail, StringAt-write,
}
use small_lib_c.Strings.Copy.{copy_at_most, pad, strncpy, wcsncpy, strncat, wcsncat}
use small_lib_c.Strings.Copy.Written.{written, written-append, Mapped-written}
use small_lib_c.Strings.Copy.Text.{to_end_lem, last_zero, written-zero}

copy_at_most-written :
    (n d s : ℕ) (bs : List ℕ) (m : Memory)
    → StringAt m s bs
    → Mapped m d (length (take n bs))
    → (d + length (take n bs) ≤ s) ⊎ (s + suc (length bs) ≤ d)
    → copy_at_most n d s m ≡ ok (n - length bs, d + length (take n bs)) (written m d (take n bs))
unfolding copy_at_most written
copy_at_most-written zero d s bs m h room apart =
    ap₂ (λ (t u : ℕ). ok (t, u) m) (omega arith) (omega arith)
copy_at_most-written (suc n) d s [] m h room apart =
    rw (load-some s m h) (ap₂ (λ (t u : ℕ). ok (t, u) m) (omega arith) (omega arith))
copy_at_most-written (suc n) d s (b ∷ bs) m h room apart =
    let (old, to) = first_cell m d (length (take n bs)) room in
    let live : (b == 0) ≡ false = ground (arith, h.1) in
    rw (load-some s m h.0, live, store-some d b m to)
      (copy_at_most-written n (d + 1) (s + 1) bs (write m d b)
          (StringAt-write m (s + 1) d b bs (omega arith) h.2)
          (Mapped-write m (d + 1) (length (take n bs)) d b
            (Mapped-tail m d (length (take n bs)) room))
          (omega arith)
        ∙ ap₂ (λ (t u : ℕ). ok (t, u) (written (write m d b) (d + 1) (take n bs))) (omega arith)
            (omega arith))

pad-written :
    (n d : ℕ) (m : Memory) → Mapped m d n → pad n d m ≡ ok tt (written m d (replicate n 0))
unfolding pad written
pad-written zero d m room = refl
pad-written (suc n) d m room =
    let (old, to) = first_cell m d n room in
    rw (store-some d 0 m to)
      (pad-written n (d + 1) (write m d 0) (Mapped-write m (d + 1) n d 0 (Mapped-tail m d n room)))

length-take-replicate : (n : ℕ) (bs : List ℕ) → length (take n bs) + (n - length bs) ≡ n
length-take-replicate zero bs = omega arith
length-take-replicate (suc n) [] = omega arith
length-take-replicate (suc n) (b ∷ bs) = omega (arith, length-take-replicate n bs)

-- Where the string and the n cells at `dest` do not overlap, strncpy and wcsncpy write the first n
-- characters of the string and then zeros, n cells in all, and return `dest`.
pub strncpy-written :
    (dest src n : ℕ) (bs : List ℕ) (m : Memory)
    → StringAt m src bs
    → Mapped m dest n
    → (dest + n ≤ src) ⊎ (src + suc (length bs) ≤ dest)
    → (strncpy dest src n m ≡ ok dest (written m dest (take n bs ++ replicate (n - length bs) 0)))
      × (wcsncpy dest src n m ≡ ok dest (written m dest (take n bs ++ replicate (n - length bs) 0)))
unfolding strncpy wcsncpy
strncpy-written dest src n bs m h room apart =
    let sum = length-take-replicate n bs in
    let first : Mapped m dest (length (take n bs)) = λ a lo hi. room a lo (omega (arith, sum)) in
    let copied = copy_at_most-written n dest src bs m h first (omega (arith, sum)) in
    let tail : Mapped m (dest + length (take n bs)) (n - length bs) =
      λ a lo hi. room a (omega arith) (omega (arith, sum)) in
    let padded =
      pad-written (n - length bs) (dest + length (take n bs)) (written m dest (take n bs))
        (Mapped-written m dest (take n bs) (dest + length (take n bs)) (n - length bs) tail) in
    let whole =
      ap (ok dest) (sym (written-append m dest (take n bs) (replicate (n - length bs) 0))) in
    (rw (copied, padded) whole, rw (copied, padded) whole)

-- Where the second string and the cells behind the first do not overlap, strncat and wcsncat write
-- the first n characters of the second string and a zero from the first one's zero on, change
-- nothing else and return `dest`.
pub strncat-written :
    (fuel dest src n : ℕ) (old bs : List ℕ) (m : Memory)
    → StringAt m dest old
    → StringAt m src bs
    → Mapped m (dest + length old) (suc (length (take n bs)))
    → (dest + length old + length (take n bs) ≤ src) ⊎ (src + suc (length bs) ≤ dest + length old)
    → length old < fuel
    → (strncat fuel dest src n m ≡ ok dest (written m (dest + length old) (take n bs ++ 0 ∷ [])))
      × (wcsncat fuel dest src n m ≡ ok dest (written m (dest + length old) (take n bs ++ 0 ∷ [])))
unfolding strncat wcsncat
strncat-written fuel dest src n old bs m first second room apart enough =
    let end = to_end_lem fuel dest old m first enough in
    let d = dest + length old in
    let copied =
      copy_at_most-written n (dest + length old) src bs m second
        (λ a lo hi. room a lo (omega arith)) apart in
    let (last, here) = last_zero m (dest + length old) (take n bs) room in
    let zeroed =
      store-some (dest + length old + length (take n bs)) 0
        (written m (dest + length old) (take n bs)) here in
    let whole = ap (ok dest) (written-zero m (dest + length old) (take n bs)) in
    (rw (end, copied, zeroed) whole, rw (end, copied, zeroed) whole)
