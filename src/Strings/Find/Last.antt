-- ===== src/Strings/Find/Last.antt =====
-- The last occurrence of a character: strrchr, rindex and wcsrchr.
use small_lib_c.Base.{
  ℕ, zero, suc, ◌+◌, ◌%◌, ◌<◌, ◌≡◌, refl, ap, ◌∙◌, Bool, true, false, Option, none, some, List, [],
  ◌∷◌, ◌++◌, ◌==◌, if◌then◌else◌, arith, length,
}
use small_lib_c.Memory.{Memory, ok, load-some}
use small_lib_c.Memory.Region.{StringAt}
use small_lib_c.Strings.Find.{find_last, strrchr, rindex, find_last_before_end, wcsrchr}

-- `later` if there is one.
abbrev pub or_else : Option ℕ → (later : Option ℕ) → Option ℕ
or_else first none = first
or_else first (some i) = some i

-- The address of the last `c` of a list that stands at `s`.
unfoldable pub last_address : (s c : ℕ) → List ℕ → Option ℕ
last_address s c [] = none
last_address s c (b ∷ bs) = or_else (if b == c then some s else none) (last_address (s + 1) c bs)

or_else_assoc : (a b c : Option ℕ) → or_else (or_else a b) c ≡ or_else a (or_else b c)
or_else_assoc a b none = refl
or_else_assoc a b (some i) = refl

or_else-if :
    (t : Bool) (s : ℕ) (last : Option ℕ)
    → (if t then some s else last) ≡ or_else last (if t then some s else none)
or_else-if true s last = refl
or_else-if false s last = refl

find_last_lem :
    (k s c : ℕ) (last : Option ℕ) (bs : List ℕ) (m : Memory)
    → StringAt m s bs
    → length bs < k
    → find_last k s c last m ≡ ok (or_else last (last_address s c (bs ++ 0 ∷ []))) m
unfolding find_last last_address
find_last_lem zero s c last bs m h enough = absurd (omega arith)
find_last_lem (suc k) s c last [] m h enough =
    rw (load-some s m h) (ap (λ t. ok t m) (or_else-if (0 == c) s last))
find_last_lem (suc k) s c last (b ∷ bs) m h enough =
    let live : (b == 0) ≡ false = ground (arith, h.1) in
    rw (load-some s m h.0, live)
      (find_last_lem k (s + 1) c (if b == c then some s else last) bs m h.2 (omega arith)
        ∙ ap (λ t. ok (or_else t (last_address (s + 1) c (bs ++ 0 ∷ []))) m)
            (or_else-if (b == c) s last)
        ∙ ap (λ t. ok t m)
            (or_else_assoc last (if b == c then some s else none)
              (last_address (s + 1) c (bs ++ 0 ∷ []))))

find_last_before_end_lem :
    (k s c : ℕ) (last : Option ℕ) (bs : List ℕ) (m : Memory)
    → StringAt m s bs
    → length bs < k
    → find_last_before_end k s c last m ≡ ok (or_else last (last_address s c (bs ++ 0 ∷ []))) m
unfolding find_last_before_end last_address
find_last_before_end_lem zero s c last bs m h enough = absurd (omega arith)
find_last_before_end_lem (suc k) s c last [] m h enough =
    let same : (c == 0) ≡ (0 == c) = ground arith in
    rw (load-some s m h, same) (ap (λ t. ok t m) (or_else-if (0 == c) s last))
find_last_before_end_lem (suc k) s c last (b ∷ bs) m h enough =
    let live : (b == 0) ≡ false = ground (arith, h.1) in
    rw (load-some s m h.0, live)
      (find_last_before_end_lem k (s + 1) c (if b == c then some s else last) bs m h.2 (omega arith)
        ∙ ap (λ t. ok (or_else t (last_address (s + 1) c (bs ++ 0 ∷ []))) m)
            (or_else-if (b == c) s last)
        ∙ ap (λ t. ok t m)
            (or_else_assoc last (if b == c then some s else none)
              (last_address (s + 1) c (bs ++ 0 ∷ []))))

or_else-none : (o : Option ℕ) → or_else none o ≡ o
or_else-none none = refl
or_else-none (some i) = refl

-- On a string in memory strrchr, rindex and wcsrchr return the address of the last character that
-- is looked for, the zero at the end being one, and null if there is none; the first two look for
-- the low byte of their argument.
pub strrchr-last_address :
    (fuel s c : ℕ) (bs : List ℕ) (m : Memory)
    → StringAt m s bs
    → length bs < fuel
    → (strrchr fuel s c m ≡ ok (last_address s (c % 256) (bs ++ 0 ∷ [])) m)
      × (rindex fuel s c m ≡ ok (last_address s (c % 256) (bs ++ 0 ∷ [])) m)
      × (wcsrchr fuel s c m ≡ ok (last_address s c (bs ++ 0 ∷ [])) m)
unfolding strrchr rindex wcsrchr
strrchr-last_address fuel s c bs m h enough =
    let byte =
      find_last_lem fuel s (c % 256) none bs m h enough
      ∙ ap (λ t. ok t m) (or_else-none (last_address s (c % 256) (bs ++ 0 ∷ []))) in
    (
      byte,
      byte,
      find_last_before_end_lem fuel s c none bs m h enough
          ∙ ap (λ t. ok t m) (or_else-none (last_address s c (bs ++ 0 ∷ []))),
    )
