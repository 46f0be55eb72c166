-- ===== src/Strings/Find/First.antt =====
-- strlen and wcslen, and the first occurrence of a character.
use small_lib_c.Base.{
  ℕ, zero, suc, ◌+◌, ◌%◌, ◌<◌, ◌≡◌, refl, subst, ap, ◌∙◌, true, false, Option, none, some, List, [],
  ◌∷◌, ◌++◌, ◌==◌, arith, Bool-cases, inl, inr, length,
}
use mathlib.Core.Option
use small_lib_c.Memory.{Memory, ok, load-some}
use small_lib_c.Memory.Region.{StringAt}
use small_lib_c.Strings.Block.Search.{index_of}
use small_lib_c.Strings.Find.{
  count_to_zero, strlen, wcslen_loop, wcslen, find_char, strchr, find_before_end, index, wcschr,
}

abbrev pub as_address : (s : ℕ) → Option ℕ → Option ℕ
as_address s o = Option.map (λ (i : ℕ). s + i) o

count_to_zero_lem :
    (k s n : ℕ) (bs : List ℕ) (m : Memory)
    → StringAt m (s + n) bs
    → length bs < k
    → count_to_zero k s n m ≡ ok (n + length bs) m
unfolding count_to_zero
count_to_zero_lem zero s n bs m h enough = absurd (omega arith)
count_to_zero_lem (suc k) s n [] m h enough =
    rw (load-some (s + n) m h) (ap (λ t. ok t m) (omega arith))
count_to_zero_lem (suc k) s n (b ∷ bs) m h enough =
    let live : (b == 0) ≡ false = ground (arith, h.1) in
    let next : s + n + 1 ≡ s + (n + 1) = omega arith in
    rw (load-some (s + n) m h.0, live)
      (count_to_zero_lem k s (n + 1) bs m (subst (λ q. StringAt m q bs) next h.2) (omega arith)
        ∙ ap (λ t. ok t m) (omega arith))

wcslen_loop_lem :
    (k s n : ℕ) (bs : List ℕ) (m : Memory)
    → StringAt m s bs
    → length bs < k
    → wcslen_loop k s n m ≡ ok (n + length bs) m
unfolding wcslen_loop
wcslen_loop_lem zero s n bs m h enough = absurd (omega arith)
wcslen_loop_lem (suc k) s n [] m h enough = rw (load-some s m h) (ap (λ t. ok t m) (omega arith))
wcslen_loop_lem (suc k) s n (b ∷ bs) m h enough =
    let live : (b == 0) ≡ false = ground (arith, h.1) in
    rw (load-some s m h.0, live)
      (wcslen_loop_lem k (s + 1) (n + 1) bs m h.2 (omega arith) ∙ ap (λ t. ok t m) (omega arith))

-- On a string in memory strlen and wcslen return its length, without a fault and within one round
-- more than its length.
pub strlen-length :
    (fuel s : ℕ) (bs : List ℕ) (m : Memory)
    → StringAt m s bs
    → length bs < fuel
    → (strlen fuel s m ≡ ok (length bs) m) × (wcslen fuel s m ≡ ok (length bs) m)
unfolding strlen wcslen
strlen-length fuel s bs m h enough =
    let here : s ≡ s + 0 = omega arith in
    let whole : 0 + length bs ≡ length bs = omega arith in
    (
      count_to_zero_lem fuel s 0 bs m (subst (λ q. StringAt m q bs) here h) enough
          ∙ ap (λ t. ok t m) whole,
      wcslen_loop_lem fuel s 0 bs m h enough ∙ ap (λ t. ok t m) whole,
    )

as_address-suc :
    (s : ℕ) (o : Option ℕ) → as_address (s + 1) o ≡ as_address s (Option.map (λ (i : ℕ). i + 1) o)
as_address-suc s none = refl
as_address-suc s (some i) = ap some (omega arith)

find_char_lem :
    (k s c : ℕ) (bs : List ℕ) (m : Memory)
    → StringAt m s bs
    → length bs < k
    → find_char k s c m ≡ ok (as_address s (index_of c (bs ++ 0 ∷ []))) m
unfolding find_char index_of
find_char_lem zero s c bs m h enough = absurd (omega arith)
find_char_lem (suc k) s c [] m h enough =
    let here : s ≡ s + 0 = omega arith in
    elim (Bool-cases (0 == c)) [
      | inl y ↦ rw (load-some s m h, y) (ap (λ t. ok (some t) m) here)
      | inr n ↦ rw (load-some s m h, n) refl
    ]
find_char_lem (suc k) s c (b ∷ bs) m h enough =
    let here : s ≡ s + 0 = omega arith in
    let live : (b == 0) ≡ false = ground (arith, h.1) in
    elim (Bool-cases (b == c)) [
      | inl y ↦ rw (load-some s m h.0, y) (ap (λ t. ok (some t) m) here)
      | inr n ↦
          rw (load-some s m h.0, n, live)
            (find_char_lem k (s + 1) c bs m h.2 (omega arith)
              ∙ ap (λ t. ok t m) (as_address-suc s (index_of c (bs ++ 0 ∷ []))))
    ]

find_before_end_lem :
    (k s c : ℕ) (bs : List ℕ) (m : Memory)
    → StringAt m s bs
    → length bs < k
    → find_before_end k s c (c == 0) m ≡ ok (as_address s (index_of c (bs ++ 0 ∷ []))) m
unfolding find_before_end index_of
find_before_end_lem zero s c bs m h enough = absurd (omega arith)
find_before_end_lem (suc k) s c [] m h enough =
    let here : s ≡ s + 0 = omega arith in
    elim (Bool-cases (c == 0)) [
      | inl y ↦
          let y' : (0 == c) ≡ true = ground (arith, y) in
          rw (load-some s m h, y, y') (ap (λ t. ok (some t) m) here)
      | inr n ↦ let n' : (0 == c) ≡ false = ground (arith, n) in rw (load-some s m h, n, n') refl
    ]
find_before_end_lem (suc k) s c (b ∷ bs) m h enough =
    let here : s ≡ s + 0 = omega arith in
    let live : (b == 0) ≡ false = ground (arith, h.1) in
    elim (Bool-cases (b == c)) [
      | inl y ↦ rw (load-some s m h.0, live, y) (ap (λ t. ok (some t) m) here)
      | inr n ↦
          rw (load-some s m h.0, live, n)
            (find_before_end_lem k (s + 1) c bs m h.2 (omega arith)
              ∙ ap (λ t. ok t m) (as_address-suc s (index_of c (bs ++ 0 ∷ []))))
    ]

-- On a string in memory strchr, wcschr and index return the address of the first character that is
-- looked for, the zero at the end being one, and null if there is none; strchr looks for the low
-- byte of its argument, index is given one byte.
pub strchr-index_of :
    (fuel s c : ℕ) (bs : List ℕ) (m : Memory)
    → StringAt m s bs
    → length bs < fuel
    → (strchr fuel s c m ≡ ok (as_address s (index_of (c % 256) (bs ++ 0 ∷ []))) m)
      × (wcschr fuel s c m ≡ ok (as_address s (index_of c (bs ++ 0 ∷ []))) m)
      × (index fuel s (c % 256) m ≡ ok (as_address s (index_of (c % 256) (bs ++ 0 ∷ []))) m)
unfolding strchr wcschr index
strchr-index_of fuel s c bs m h enough =
    let low : c % 256 % 256 ≡ c % 256 = omega arith in
    (
      find_char_lem fuel s (c % 256) bs m h enough,
      find_before_end_lem fuel s c bs m h enough,
      rw low (find_before_end_lem fuel s (c % 256) bs m h enough),
    )
