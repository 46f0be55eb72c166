-- ===== src/Strings/Copy/Text.antt =====
-- strcpy, strcat, wcscpy and wcscat.
use small_lib_c.Base.{
  ℕ, zero, suc, ◌+◌, ◌≤◌, ◌<◌, ◌≡◌, refl, sym, ap, ◌∙◌, ◌⊎◌, false, some, List, [], ◌∷◌, ◌++◌, ◌==◌,
  arith, length,
}
use small_lib_c.Memory.{Memory, ok, load-some, store-some, write}
use small_lib_c.Memory.Region.{
  Mapped, StringAt, first_cell, Mapped-write, Mapped-tail, StringAt-write,
}
use small_lib_c.Strings.Copy.{copy_string, strcpy, wcscpy, to_end, strcat, copy_nonzero, wcscat}
use small_lib_c.Strings.Copy.Written.{written, written-append, Mapped-written}

copy_string-written :
    (k d s : ℕ) (bs : List ℕ) (m : Memory)
    → StringAt m s bs
    → Mapped m d (suc (length bs))
    → (d + suc (length bs) ≤ s) ⊎ (s + suc (length bs) ≤ d)
    → length bs < k
    → copy_string k d s m ≡ ok tt (written m d (bs ++ 0 ∷ []))
unfolding copy_string written
copy_string-written zero d s bs m h room apart enough = absurd (omega arith)
copy_string-written (suc k) d s [] m h room apart enough =
    let (old, to) = first_cell m d 0 room in rw (load-some s m h, store-some d 0 m to) refl
copy_string-written (suc k) d s (b ∷ bs) m h room apart enough =
    let (old, to) = first_cell m d (suc (length bs)) room in
    let live : (b == 0) ≡ false = ground (arith, h.1) in
    rw (load-some s m h.0, store-some d b m to, live)
      (copy_string-written k (d + 1) (s + 1) bs (write m d b)
        (StringAt-write m (s + 1) d b bs (omega arith) h.2)
        (Mapped-write m (d + 1) (suc (length bs)) d b (Mapped-tail m d (suc (length bs)) room))
        (omega arith) (omega arith))

-- Where strings and regions do not overlap, strcpy and wcscpy copy the string with its zero to
-- `dest`, change nothing else and return `dest`.
pub strcpy-written :
    (fuel dest src : ℕ) (bs : List ℕ) (m : Memory)
    → StringAt m src bs
    → Mapped m dest (suc (length bs))
    → (dest + suc (length bs) ≤ src) ⊎ (src + suc (length bs) ≤ dest)
    → length bs < fuel
    → (strcpy fuel dest src m ≡ ok dest (written m dest (bs ++ 0 ∷ [])))
      × (wcscpy fuel dest src m ≡ ok dest (written m dest (bs ++ 0 ∷ [])))
unfolding strcpy wcscpy
strcpy-written fuel dest src bs m h room apart enough =
    let e = copy_string-written fuel dest src bs m h room apart enough in (rw e refl, rw e refl)

pub to_end_lem :
    (k p : ℕ) (bs : List ℕ) (m : Memory)
    → StringAt m p bs
    → length bs < k
    → to_end k p m ≡ ok (p + length bs) m
unfolding to_end
to_end_lem zero p bs m h enough = absurd (omega arith)
to_end_lem (suc k) p [] m h enough = rw (load-some p m h) (ap (λ t. ok t m) (omega arith))
to_end_lem (suc k) p (b ∷ bs) m h enough =
    let live : (b == 0) ≡ false = ground (arith, h.1) in
    rw (load-some p m h.0, live)
      (to_end_lem k (p + 1) bs m h.2 (omega arith) ∙ ap (λ t. ok t m) (omega arith))

copy_nonzero-written :
    (k d s : ℕ) (bs : List ℕ) (m : Memory)
    → StringAt m s bs
    → Mapped m d (suc (length bs))
    → (d + suc (length bs) ≤ s) ⊎ (s + suc (length bs) ≤ d)
    → length bs < k
    → copy_nonzero k d s m ≡ ok (d + length bs) (written m d bs)
unfolding copy_nonzero written
copy_nonzero-written zero d s bs m h room apart enough = absurd (omega arith)
copy_nonzero-written (suc k) d s [] m h room apart enough =
    rw (load-some s m h) (ap (λ t. ok t m) (omega arith))
copy_nonzero-written (suc k) d s (b ∷ bs) m h room apart enough =
    let (old, to) = first_cell m d (suc (length bs)) room in
    let live : (b == 0) ≡ false = ground (arith, h.1) in
    rw (load-some s m h.0, live, store-some d b m to)
      (copy_nonzero-written k (d + 1) (s + 1) bs (write m d b)
          (StringAt-write m (s + 1) d b bs (omega arith) h.2)
          (Mapped-write m (d + 1) (suc (length bs)) d b (Mapped-tail m d (suc (length bs)) room))
          (omega arith) (omega arith)
        ∙ ap (λ t. ok t (written (write m d b) (d + 1) bs)) (omega arith))

pub last_zero :
    (m : Memory) (d : ℕ) (bs : List ℕ)
    → Mapped m d (suc (length bs))
    → (old : ℕ) × (written m d bs (d + length bs) ≡ some old)
last_zero m d bs room =
    let there = Mapped-written m d bs d (suc (length bs)) room in
    first_cell (written m d bs) (d + length bs) 0 (λ a lo hi. there a (omega arith) (omega arith))

pub written-zero :
    (m : Memory) (d : ℕ) (bs : List ℕ)
    → write (written m d bs) (d + length bs) 0 ≡ written m d (bs ++ 0 ∷ [])
unfolding written
written-zero m d bs = sym (written-append m d bs (0 ∷ []))

-- Where the second string and the end of the first do not overlap, strcat and wcscat write the
-- second string with its zero from the first one's zero on, change nothing else and return `dest`.
pub strcat-written :
    (fuel dest src : ℕ) (old bs : List ℕ) (m : Memory)
    → StringAt m dest old
    → StringAt m src bs
    → Mapped m (dest + length old) (suc (length bs))
    → (dest + length old + suc (length bs) ≤ src) ⊎ (src + suc (length bs) ≤ dest + length old)
    → length old < fuel
    → length bs < fuel
    → (strcat fuel dest src m ≡ ok dest (written m (dest + length old) (bs ++ 0 ∷ [])))
      × (wcscat fuel dest src m ≡ ok dest (written m (dest + length old) (bs ++ 0 ∷ [])))
unfolding strcat wcscat
strcat-written fuel dest src old bs m first second room apart enough_first enough =
    let end = to_end_lem fuel dest old m first enough_first in
    let (last, here) = last_zero m (dest + length old) bs room in
    (
      rw (end, copy_string-written fuel (dest + length old) src bs m second room apart enough) refl,
      rw
          (
            end,
            copy_nonzero-written fuel (dest + length old) src bs m second room apart enough,
            store-some (dest + length old + length bs) 0 (written m (dest + length old) bs) here,
          )
          (ap (ok dest) (written-zero m (dest + length old) bs)),
    )
