-- ===== src/Strings/Span/Length.antt =====
-- The spans as lengths of prefixes.
use small_lib_c.Base.{
  ℕ, zero, suc, ◌+◌, ◌<◌, ◌≡◌, refl, ap, ap₂, ◌∙◌, Bool, true, false, not, ◌||◌, none, some, List,
  [], ◌∷◌, ◌==◌, ltb, if◌then◌else◌, arith, Bool-cases, inl, inr, length,
}
use small_lib_c.Memory.{Memory, ok, load-some}
use small_lib_c.Memory.Region.{StringAt}
use small_lib_c.Strings.Span.{
  in_set, span_loop, strspn, wcsspn_loop, wcsspn, break_loop, strcspn, strpbrk, wcspbrk,
  wcscspn_loop, wcscspn,
}

unfoldable pub member : ℕ → List ℕ → Bool
member c [] = false
member c (b ∷ bs) = c == b || member c bs

-- The length of the longest prefix whose elements all pass.
unfoldable pub prefix_length : (ℕ → Bool) → List ℕ → ℕ
prefix_length test [] = 0
prefix_length test (b ∷ bs) = if test b then suc (prefix_length test bs) else 0

in_set-member :
    (k set c : ℕ) (bs : List ℕ) (m : Memory)
    → StringAt m set bs
    → length bs < k
    → in_set k set c m ≡ ok (member c bs) m
unfolding in_set member
in_set-member zero set c bs m h enough = absurd (omega arith)
in_set-member (suc k) set c [] m h enough = rw (load-some set m h) refl
in_set-member (suc k) set c (b ∷ bs) m h enough =
    let live : (b == 0) ≡ false = ground (arith, h.1) in
    elim (Bool-cases (c == b)) [
      | inl y ↦ rw (load-some set m h.0, live, y) refl
      | inr n ↦
          rw (load-some set m h.0, live, n) (in_set-member k (set + 1) c bs m h.2 (omega arith))
    ]

module _ (fuel set : ℕ) (cs : List ℕ) (m : Memory) (set_at : StringAt m set cs)
    (set_fuel : length cs < fuel) where
  abbrev accepted : ℕ → Bool
  accepted c = member c cs

  abbrev rejected : ℕ → Bool
  rejected c = not (member c cs)

  span_loop_lem :
      (k p : ℕ) (bs : List ℕ)
      → StringAt m p bs
      → length bs < k
      → span_loop k fuel p set m ≡ ok (p + prefix_length accepted bs) m
  unfolding span_loop prefix_length
  span_loop_lem zero p bs h enough = absurd (omega arith)
  span_loop_lem (suc k) p [] h enough = rw (load-some p m h) (ap (λ t. ok t m) (omega arith))
  span_loop_lem (suc k) p (b ∷ bs) h enough =
      let live : (b == 0) ≡ false = ground (arith, h.1) in
      elim (Bool-cases (member b cs)) [
        | inl y ↦
            rw (load-some p m h.0, live, in_set-member fuel set b cs m set_at set_fuel, y)
              (span_loop_lem k (p + 1) bs h.2 (omega arith) ∙ ap (λ t. ok t m) (omega arith))
        | inr n ↦
            rw (load-some p m h.0, live, in_set-member fuel set b cs m set_at set_fuel, n)
              (ap (λ t. ok t m) (omega arith))
      ]

  wcsspn_loop_lem :
      (k p count : ℕ) (bs : List ℕ)
      → StringAt m p bs
      → length bs < k
      → wcsspn_loop k fuel p set count m ≡ ok (count + prefix_length accepted bs) m
  unfolding wcsspn_loop prefix_length
  wcsspn_loop_lem zero p count bs h enough = absurd (omega arith)
  wcsspn_loop_lem (suc k) p count [] h enough =
      rw (load-some p m h) (ap (λ t. ok t m) (omega arith))
  wcsspn_loop_lem (suc k) p count (b ∷ bs) h enough =
      let live : (b == 0) ≡ false = ground (arith, h.1) in
      elim (Bool-cases (member b cs)) [
        | inl y ↦
            rw (load-some p m h.0, live, in_set-member fuel set b cs m set_at set_fuel, y)
              (wcsspn_loop_lem k (p + 1) (count + 1) bs h.2 (omega arith)
                ∙ ap (λ t. ok t m) (omega arith))
        | inr n ↦
            rw (load-some p m h.0, live, in_set-member fuel set b cs m set_at set_fuel, n)
              (ap (λ t. ok t m) (omega arith))
      ]

  break_loop_lem :
      (k p : ℕ) (bs : List ℕ)
      → StringAt m p bs
      → length bs < k
      → break_loop k fuel p set m
        ≡ ok (p + prefix_length rejected bs, ltb (prefix_length rejected bs) (length bs)) m
  unfolding break_loop prefix_length
  break_loop_lem zero p bs h enough = absurd (omega arith)
  break_loop_lem (suc k) p [] h enough =
      rw (load-some p m h) (ap (λ (t : ℕ). ok (t, false) m) (omega arith))
  break_loop_lem (suc k) p (b ∷ bs) h enough =
      let live : (b == 0) ≡ false = ground (arith, h.1) in
      elim (Bool-cases (member b cs)) [
        | inl y ↦
            let some_left : true ≡ ltb 0 (suc (length bs)) = ground arith in
            rw (load-some p m h.0, live, in_set-member fuel set b cs m set_at set_fuel, y)
              (ap₂ (λ (t : ℕ) (u : Bool). ok (t, u) m) (omega arith) some_left)
        | inr n ↦
            let place : p + 1 + prefix_length rejected bs ≡ p + suc (prefix_length rejected bs) =
              omega arith in
            let test : ltb (prefix_length rejected bs) (length bs)
                ≡ ltb (suc (prefix_length rejected bs)) (suc (length bs)) =
              ground arith in
            rw (load-some p m h.0, live, in_set-member fuel set b cs m set_at set_fuel, n)
              (break_loop_lem k (p + 1) bs h.2 (omega arith)
                ∙ ap (λ (t : ℕ). ok (t, ltb (prefix_length rejected bs) (length bs)) m) place
                ∙ ap (λ t. ok (p + suc (prefix_length rejected bs), t) m) test)
      ]

  wcscspn_loop_lem :
      (k p count : ℕ) (bs : List ℕ)
      → StringAt m p bs
      → length bs < k
      → wcscspn_loop k fuel p set count m ≡ ok (count + prefix_length rejected bs) m
  unfolding wcscspn_loop prefix_length
  wcscspn_loop_lem zero p count bs h enough = absurd (omega arith)
  wcscspn_loop_lem (suc k) p count [] h enough =
      rw (load-some p m h) (ap (λ t. ok t m) (omega arith))
  wcscspn_loop_lem (suc k) p count (b ∷ bs) h enough =
      let live : (b == 0) ≡ false = ground (arith, h.1) in
      elim (Bool-cases (member b cs)) [
        | inl y ↦
            rw (load-some p m h.0, live, in_set-member fuel set b cs m set_at set_fuel, y)
              (ap (λ t. ok t m) (omega arith))
        | inr n ↦
            rw (load-some p m h.0, live, in_set-member fuel set b cs m set_at set_fuel, n)
              (wcscspn_loop_lem k (p + 1) (count + 1) bs h.2 (omega arith)
                ∙ ap (λ t. ok t m) (omega arith))
      ]

-- On two strings in memory strspn and wcsspn return the length of the longest prefix of the first
-- whose characters are all in the second.
pub strspn-prefix_length :
    (k fuel s accept : ℕ) (bs cs : List ℕ) (m : Memory)
    → StringAt m s bs
    → StringAt m accept cs
    → length bs < k
    → length cs < fuel
    → (strspn k fuel s accept m ≡ ok (prefix_length (λ c. member c cs) bs) m)
      × (wcsspn k fuel s accept m ≡ ok (prefix_length (λ c. member c cs) bs) m)
unfolding strspn wcsspn
strspn-prefix_length k fuel s accept bs cs m h set_at enough set_fuel = (
  rw (span_loop_lem fuel accept cs m set_at set_fuel k s bs h enough)
      (ap (λ t. ok t m) (omega arith)),
  wcsspn_loop_lem fuel accept cs m set_at set_fuel k s 0 bs h enough
      ∙ ap (λ t. ok t m) (omega arith),
)

-- On two strings in memory strcspn and wcscspn return the length of the longest prefix of the first
-- none of whose characters is in the second; strpbrk and wcspbrk return the address behind it, and
-- null where it is the whole string.
pub strcspn-strpbrk :
    (k fuel s reject : ℕ) (bs cs : List ℕ) (m : Memory)
    → StringAt m s bs
    → StringAt m reject cs
    → length bs < k
    → length cs < fuel
    → (strcspn k fuel s reject m ≡ ok (prefix_length (λ c. not (member c cs)) bs) m)
      × (wcscspn k fuel s reject m ≡ ok (prefix_length (λ c. not (member c cs)) bs) m)
      × (strpbrk k fuel s reject m
          ≡ ok
              (if ltb (prefix_length (λ c. not (member c cs)) bs) (length bs)
                then some (s + prefix_length (λ c. not (member c cs)) bs)
                else none)
              m)
      × (wcspbrk k fuel s reject m
          ≡ ok
              (if ltb (prefix_length (λ c. not (member c cs)) bs) (length bs)
                then some (s + prefix_length (λ c. not (member c cs)) bs)
                else none)
              m)
unfolding strcspn strpbrk wcspbrk wcscspn
strcspn-strpbrk k fuel s reject bs cs m h set_at enough set_fuel =
    let e = break_loop_lem fuel reject cs m set_at set_fuel k s bs h enough in
    (
      rw e (ap (λ t. ok t m) (omega arith)),
      wcscspn_loop_lem fuel reject cs m set_at set_fuel k s 0 bs h enough
          ∙ ap (λ t. ok t m) (omega arith),
      rw e refl,
      rw e refl,
    )
