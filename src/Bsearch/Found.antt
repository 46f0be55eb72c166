-- ===== src/Bsearch/Found.antt =====
-- bsearch finds an element that is equal to the key, if there is one.
use small_lib_c.Base.{
  ℕ, zero, suc, ◌+◌, ◌-◌, ◌*◌, ◌/◌, ◌%◌, ◌^◌, ◌≤◌, ◌<◌, ◌≡◌, refl, ◌≢◌, ltb, arith, Bool-cases, inl,
  inr,
}
use small_lib_c.Base.Int.{ℤ, pos, negsuc}
use small_lib_c.Bsearch.{Search, found, missing, bsearch_loop, bsearch}

abbrev pub Negative : ℤ → Type 0
Negative z = (n : ℕ) × (z ≡ negsuc n)

abbrev pub Positive : ℤ → Type 0
Positive z = (n : ℕ) × (z ≡ pos (suc n))

-- What a finished search says of the n elements, `cmp i` being the comparison of the key with the
-- element i.
pub data Searched (cmp : ℕ → ℤ) (base size n : ℕ) : Search → Type 0 where
  hit : (i : ℕ) → i < n → cmp i ≡ pos 0 → Searched cmp base size n (found (base + i * size))
  miss : ((i : ℕ) → i < n → cmp i ≢ pos 0) → Searched cmp base size n missing

-- A key that is less than an element is less than the later ones, and one that is greater than an
-- element is greater than the earlier ones.
abbrev pub Sorted : (cmp : ℕ → ℤ) (n : ℕ) → Type 0
Sorted cmp n =
    ((i j : ℕ) → i ≤ j → j < n → Negative (cmp i) → Negative (cmp j))
    × ((i j : ℕ) → i ≤ j → j < n → Positive (cmp j) → Positive (cmp i))

data Signs (z : ℤ) : Type 0 where
  below : (n : ℕ) → z ≡ negsuc n → Signs z
  equal : z ≡ pos 0 → Signs z
  above : (n : ℕ) → z ≡ pos (suc n) → Signs z

signs : (z : ℤ) → Signs z
signs (negsuc n) = below n refl
signs (pos zero) = equal refl
signs (pos (suc n)) = above n refl

module _ (compar : ℕ → ℕ → ℤ) (key base size n : ℕ) (small : n ≤ 2 ^ 31) where
  abbrev cmp : ℕ → ℤ
  cmp i = compar key (base + i * size)

  loop_lem :
      (k l u : ℕ)
      → Sorted cmp n
      → l ≤ u
      → u ≤ n
      → u - l < k
      → ((i : ℕ) → i < l → Positive (cmp i))
      → ((i : ℕ) → u ≤ i → i < n → Negative (cmp i))
      → Searched cmp base size n (bsearch_loop compar key base size k l u)
  unfolding bsearch_loop
  loop_lem zero l u sorted lu un fuel lo hi = absurd (omega arith)
  loop_lem (suc k) l u sorted lu un fuel lo hi = elim (Bool-cases (ltb l u)) [
    | inr n1 ↦
        rw (bsearch_loop, n1)
          (miss (λ i h e. elim (Bool-cases (ltb i l)) [
            | inl y ↦ let (p, q) = lo i (ground (arith, y)) in absurd (ground (arith, q, e))
            | inr z ↦ let (p, q) = hi i (ground (arith, z, n1)) h in absurd (ground (arith, q, e))
          ]))
    | inl y1 ↦
        let lt : l < u = ground (arith, y1) in
        let middle : (l + u) % 2 ^ 32 / 2 ≡ (l + u) / 2 = omega arith in
        let idx = (l + u) % 2 ^ 32 / 2 in
        elim (signs (cmp idx)) [
          | equal e ↦ rw (bsearch_loop, y1, e) (hit idx (omega (arith, middle)) e)
          | below a e ↦
              rw (bsearch_loop, y1, e)
                (loop_lem k l idx sorted (omega (arith, middle)) (omega (arith, middle))
                  (omega (arith, middle)) lo (λ i h h'. sorted.0 idx i h h' (a, e)))
          | above a e ↦
              rw (bsearch_loop, y1, e)
                (loop_lem k (idx + 1) u sorted (omega (arith, middle)) un (omega (arith, middle))
                  (λ i h. sorted.1 i idx (omega (arith, middle)) (omega (arith, middle)) (a, e)) hi)
        ]
  ]

  -- On at most 2 ^ 31 elements in order, and with fuel for as many rounds, bsearch returns: the
  -- address of an element equal to the key, or null, and then no element is equal to the key.
  pub bsearch-Searched :
      (fuel : ℕ)
      → Sorted cmp n
      → n < fuel
      → Searched cmp base size n (bsearch compar fuel key base n size)
  unfolding bsearch
  bsearch-Searched fuel sorted enough =
      loop_lem fuel 0 n sorted (omega arith) (omega arith) (omega arith)
        (λ i h. absurd (omega arith)) (λ i h h'. absurd (omega arith))
