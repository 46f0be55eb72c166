-- ===== src/Strings/Substring/Place.antt =====
-- strstr and wcsstr return the first place of one string in another.
use small_lib_c.Base.{
  ℕ, zero, suc, ◌+◌, ◌≤◌, ◌<◌, ◌≡◌, refl, ap, ◌∙◌, Bool, true, false, ◌&&◌, Option, none, some,
  List, [], ◌∷◌, ◌==◌, arith, Bool-cases, inl, inr, length, drop,
}
use small_lib_c.Memory.{Memory, ok, load-some}
use small_lib_c.Memory.Region.{StringAt}
use small_lib_c.Strings.Find.First.{as_address}
use small_lib_c.Strings.Substring.{begins_with, strstr_loop, strstr, wcsstr}

-- A string begins with another.
abbrev pub is_prefix : List ℕ → List ℕ → Bool
is_prefix [] xs = true
is_prefix (y ∷ ys) [] = false
is_prefix (y ∷ ys) (x ∷ xs) = x == y && is_prefix ys xs

-- The first place of ys in xs, if any.
pub data FirstPlace (ys xs : List ℕ) : Option ℕ → Type 0 where
  at_place :
      (i : ℕ)
      → i ≤ length xs
      → is_prefix ys (drop i xs) ≡ true
      → ((j : ℕ) → j < i → is_prefix ys (drop j xs) ≡ false)
      → FirstPlace ys xs (some i)
  nowhere : ((j : ℕ) → is_prefix ys (drop j xs) ≡ false) → FirstPlace ys xs none

begins_with-is_prefix :
    (k h n : ℕ) (xs ys : List ℕ) (m : Memory)
    → StringAt m h xs
    → StringAt m n ys
    → length ys < k
    → begins_with k h n m ≡ ok (is_prefix ys xs) m
unfolding begins_with
begins_with-is_prefix zero h n xs ys m hx hy enough = absurd (omega (arith, enough))
begins_with-is_prefix (suc k) h n xs [] m hx hy enough = rw (begins_with, load-some n m hy) refl
begins_with-is_prefix (suc k) h n [] (y ∷ ys) m hx hy enough =
    let live : (y == 0) ≡ false = ground (arith, hy.1) in
    let differs : (0 == y) ≡ false = ground (arith, hy.1) in
    rw (begins_with, load-some n m hy.0, live, load-some h m hx, differs) refl
begins_with-is_prefix (suc k) h n (x ∷ xs) (y ∷ ys) m hx hy enough =
    let live : (y == 0) ≡ false = ground (arith, hy.1) in
    elim (Bool-cases (x == y)) [
      | inl e ↦
          rw (begins_with, load-some n m hy.0, live, load-some h m hx.0, e)
            (begins_with-is_prefix k (h + 1) (n + 1) xs ys m hx.2 hy.2 (omega (arith, enough)))
      | inr d ↦ rw (begins_with, load-some n m hy.0, live, load-some h m hx.0, d) refl
    ]

abbrev after_one : Option ℕ → Option ℕ
after_one none = none
after_one (some i) = some (suc i)

FirstPlace-suc :
    (ys xs : List ℕ) (x : ℕ) {r : Option ℕ}
    → is_prefix ys (x ∷ xs) ≡ false
    → FirstPlace ys xs r
    → FirstPlace ys (x ∷ xs) (after_one r)
FirstPlace-suc ys xs x no_match (at_place i inside here before) =
    at_place (suc i) (omega (arith, inside)) here earlier
  where
    earlier : (j : ℕ) → j < suc i → is_prefix ys (drop j (x ∷ xs)) ≡ false
    earlier zero lt = no_match
    earlier (suc j) lt = before j (omega (arith, lt))
FirstPlace-suc ys xs x no_match (nowhere none_there) = nowhere all_places
  where
    all_places : (j : ℕ) → is_prefix ys (drop j (x ∷ xs)) ≡ false
    all_places zero = no_match
    all_places (suc j) = none_there j

as_address-after_one : (s : ℕ) (r : Option ℕ) → as_address (s + 1) r ≡ as_address s (after_one r)
as_address-after_one s none = refl
as_address-after_one s (some i) = ap some (omega arith)

module _ (fuel needle y : ℕ) (ys : List ℕ) (m : Memory) (needle_at : StringAt m needle (y ∷ ys))
    (enough : length (y ∷ ys) < fuel) where
  no_place : (j : ℕ) → is_prefix (y ∷ ys) (drop j []) ≡ false
  no_place zero = refl
  no_place (suc j) = refl

  strstr_loop_lem :
      (k h : ℕ) (xs : List ℕ)
      → StringAt m h xs
      → length xs < k
      → (r : Option ℕ) × (strstr_loop k fuel h needle m ≡ ok (as_address h r) m)
        × FirstPlace (y ∷ ys) xs r
  unfolding strstr_loop
  strstr_loop_lem zero h xs hx more = absurd (omega (arith, more))
  strstr_loop_lem (suc k) h [] hx more =
      (none, rw (strstr_loop, load-some h m hx) refl, nowhere no_place)
  strstr_loop_lem (suc k) h (x ∷ xs) hx more =
      let live : (x == 0) ≡ false = ground (arith, hx.1) in
      let test = begins_with-is_prefix fuel h needle (x ∷ xs) (y ∷ ys) m hx needle_at enough in
      elim (Bool-cases (is_prefix (y ∷ ys) (x ∷ xs))) [
        | inl e ↦
            let here : h ≡ h + 0 = omega arith in
            (
              some 0,
              rw (strstr_loop, load-some h m hx.0, live, test, e) (ap (λ a. ok (some a) m) here),
              at_place 0 (omega arith) e (λ j lt. absurd (omega (arith, lt))),
            )
        | inr d ↦
            let (r, runs, first) = strstr_loop_lem k (h + 1) xs hx.2 (omega (arith, more)) in
            (
              after_one r,
              rw (strstr_loop, load-some h m hx.0, live, test, d)
                  (runs ∙ ap (λ o. ok o m) (as_address-after_one h r)),
              FirstPlace-suc (y ∷ ys) xs x d first,
            )
      ]

-- For two strings in memory, with fuel above their lengths, strstr and wcsstr return the address of the
-- first place at which the second stands in the first, or null where it stands nowhere in it; an
-- empty string stands at the start. The memory is left as it is.
pub strstr-FirstPlace :
    (k fuel haystack needle : ℕ) (xs ys : List ℕ) (m : Memory)
    → StringAt m haystack xs
    → StringAt m needle ys
    → length xs < k
    → length ys < fuel
    → (r : Option ℕ) × (strstr k fuel haystack needle m ≡ ok (as_address haystack r) m)
      × (wcsstr k fuel haystack needle m ≡ ok (as_address haystack r) m)
      × FirstPlace ys xs r
unfolding strstr wcsstr
strstr-FirstPlace k fuel haystack needle xs [] m hx hy more enough =
    let here : haystack ≡ haystack + 0 = omega arith in
    let start = ap (λ a. ok (some a) m) here in
    (
      some 0,
      rw (strstr, load-some needle m hy) start,
      rw (wcsstr, load-some needle m hy) start,
      at_place 0 (omega arith) refl (λ j lt. absurd (omega (arith, lt))),
    )
strstr-FirstPlace k fuel haystack needle xs (y ∷ ys) m hx hy more enough =
    let live : (y == 0) ≡ false = ground (arith, hy.1) in
    let (r, runs, first) = strstr_loop_lem fuel needle y ys m hy enough k haystack xs hx more in
    (
      r,
      rw (strstr, load-some needle m hy.0, live) runs,
      rw (wcsstr, load-some needle m hy.0, live) runs,
      first,
    )
