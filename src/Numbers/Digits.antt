-- ===== src/Numbers/Digits.antt =====
-- The digit loop computes the value of the digits, or finds that it passes the limit.
use small_lib_c.Ctype.{isdigit, isalpha, isupper, islower}
use small_lib_c.Base.{
  ◌⊎◌, ℕ, zero, suc, ◌+◌, ◌*◌, ◌/◌, ◌%◌, ◌^◌, ◌≤◌, ◌<◌, ◌≡◌, refl, sym, ap, ◌∙◌, ◌≢◌, Bool, true,
  false, ◌&&◌, ◌||◌, some, List, [], ◌∷◌, ◌++◌, ltb, ltb→lt, leb, ◌==◌, if◌then◌else◌, arith,
  Bool-cases, Option-cases, subst, inl, inr, length,
}
use native.Mathlib.Nat.{mod-eq_of_lt, mod-lt, mul-le-mul_right, le-mul_of_pos_right, div-add-mod'}
use mathlib.Core.Option.{some-injective}
use small_lib_c.Memory.{Memory, ok, load-some}
use small_lib_c.Memory.Region.{BytesAt}
use small_lib_c.Numbers.{
  isupper, isalpha, isdigit, as_int, Any, no_digits, digits, too_large, scan, digit_value, advance,
  accumulate,
}

-- The value of a list of digits after those that gave `acc`.
unfoldable pub value_from : (base acc : ℕ) → List ℕ → ℕ
value_from base acc [] = acc
value_from base acc (d ∷ ds) = value_from base (acc * base + d) ds

abbrev pub AllBelow : ℕ → List ℕ → Type 0
AllBelow base [] = Unit
AllBelow base (d ∷ ds) = (d < base) × AllBelow base ds

pub value_from-le : (base acc : ℕ) (ds : List ℕ) → 1 ≤ base → acc ≤ value_from base acc ds
unfolding value_from
value_from-le base acc [] h = omega arith
value_from-le base acc (d ∷ ds) h =
    omega (arith, value_from-le base (acc * base + d) ds h, le-mul_of_pos_right {m = base} acc h)

abbrev within : (limit base acc d : ℕ) → Bool
within limit base acc d = ltb (limit / base) acc || acc == limit / base && ltb (limit % base) d

next_multiple : (a b : ℕ) → suc a * b ≡ a * b + b
next_multiple a b = grind arith

within_lem :
    (limit base acc d : ℕ)
    → 1 ≤ base
    → d < base
    → within limit base acc d ≡ ltb limit (acc * base + d)
within_lem limit base acc d h hd =
    let whole = div-add-mod' limit base in
    let small = mod-lt limit {m = base} h in
    elim (Bool-cases (ltb (limit / base) acc)) [
      | inl y ↦
          let step : suc (limit / base) * base ≤ acc * base =
            mul-le-mul_right base (ltb→lt _ _ y) in
          ground (arith, y, whole, small, next_multiple (limit / base) base, step)
      | inr n ↦ elim (Bool-cases (acc == limit / base)) [
        | inl y ↦
            let e : acc ≡ limit / base = ground (arith, y) in
            let same : acc * base ≡ limit / base * base = ap (λ (t : ℕ). t * base) e in
            ground (arith, whole, same, n, y)
        | inr m ↦
            let lt : acc < limit / base = ground (arith, n, m) in
            let step : suc acc * base ≤ limit / base * base = mul-le-mul_right base lt in
            ground (arith, whole, small, next_multiple acc base, step, n, m)
      ]
    ]

-- What the loop makes of the digits.
unfoldable pub advance_all : (limit base : ℕ) → List ℕ → ℕ × Any → ℕ × Any
advance_all limit base [] st = st
advance_all limit base (d ∷ ds) st = advance_all limit base ds (advance limit base d st)

advance_all-too_large :
    (limit base : ℕ) (ds : List ℕ) (acc : ℕ)
    → advance_all limit base ds (acc, too_large) ≡ (acc, too_large)
unfolding advance_all advance
advance_all-too_large limit base [] acc = refl
advance_all-too_large limit base (d ∷ ds) acc = advance_all-too_large limit base ds acc

clipped :
    (limit base d acc : ℕ)
    → limit < 2 ^ 64
    → 1 ≤ base
    → d < base
    → ◌≡◌ {A = ℕ × Any}
        (if within limit base acc d then (acc, too_large) else ((acc * base + d) % 2 ^ 64, digits))
        (if ltb limit (acc * base + d) then (acc, too_large) else (acc * base + d, digits))
clipped limit base d acc small h hd = elim (Bool-cases (ltb limit (acc * base + d))) [
  | inl y ↦ rw (within_lem limit base acc d h hd, y)
  | inr n ↦
      let fits : (acc * base + d) % 2 ^ 64 ≡ acc * base + d = mod-eq_of_lt (ground (arith, n)) in
      rw (within_lem limit base acc d h hd, n, fits)
]

advance-digits :
    (limit base d acc : ℕ) (any : Any)
    → any ≢ too_large
    → limit < 2 ^ 64
    → 1 ≤ base
    → d < base
    → advance limit base d (acc, any)
      ≡ (if ltb limit (acc * base + d) then (acc, too_large) else (acc * base + d, digits))
unfolding advance
advance-digits limit base d acc no_digits started small h hd = clipped limit base d acc small h hd
advance-digits limit base d acc digits started small h hd = clipped limit base d acc small h hd
advance-digits limit base d acc too_large started small h hd = absurd (started refl)

abbrev pub after : Any → List ℕ → Any
after any [] = any
after any (d ∷ ds) = digits

pub no_digits-ne : no_digits ≢ too_large
no_digits-ne e = cc

digits-ne : digits ≢ too_large
digits-ne e = cc

after-digits : (ds : List ℕ) → after digits ds ≡ digits
after-digits [] = refl
after-digits (d ∷ ds) = refl

pub advance_all-value :
    (limit base : ℕ) (ds : List ℕ) (acc : ℕ) (any : Any)
    → any ≢ too_large
    → limit < 2 ^ 64
    → 1 ≤ base
    → AllBelow base ds
    → value_from base acc ds ≤ limit
    → advance_all limit base ds (acc, any) ≡ (value_from base acc ds, after any ds)
unfolding advance_all value_from
advance_all-value limit base [] acc any started small h all fits = refl
advance_all-value limit base (d ∷ ds) acc any started small h all fits =
    let low : ltb limit (acc * base + d) ≡ false =
      ground (arith, fits, value_from-le base (acc * base + d) ds h) in
    rw
      (
        advance-digits limit base d acc any started small h all.0,
        low,
        advance_all-value limit base ds (acc * base + d) digits digits-ne small h all.1 fits,
      )
      (ap (λ t. (value_from base (acc * base + d) ds, t)) (after-digits ds))

pub advance_all-over :
    (limit base : ℕ) (ds : List ℕ) (acc : ℕ) (any : Any)
    → any ≢ too_large
    → limit < 2 ^ 64
    → 1 ≤ base
    → AllBelow base ds
    → acc ≤ limit
    → limit < value_from base acc ds
    → (advance_all limit base ds (acc, any)).1 ≡ too_large
unfolding advance_all value_from
advance_all-over limit base [] acc any started small h all low over = absurd (omega arith)
advance_all-over limit base (d ∷ ds) acc any started small h all low over =
    elim (Bool-cases (ltb limit (acc * base + d))) [
      | inl y ↦
          rw
            (
              advance_all,
              advance-digits limit base d acc any started small h all.0,
              y,
              advance_all-too_large limit base ds acc,
            )
            refl
      | inr n ↦
          rw (advance_all, advance-digits limit base d acc any started small h all.0, n)
            (advance_all-over limit base ds (acc * base + d) digits digits-ne small h all.1
              (ground (arith, n)) over)
    ]

-- The byte of a digit and its worth: '0' is the byte 48, 'A' the byte 65 and worth 10, 'a' the byte 97
-- and worth 10, and the others follow them.
abbrev pub Worth : (c d : ℕ) → Type 0
Worth c d =
    ((d < 10) × (c ≡ 48 + d))
    ⊎ ((10 ≤ d) × (d < 36) × (c + 10 ≡ 65 + d))
    ⊎ ((10 ≤ d) × (d < 36) × (c + 10 ≡ 97 + d))

Worth-value : (c d : ℕ) → Worth c d → digit_value (as_int c) ≡ some d
unfolding digit_value isdigit isalpha isupper islower
Worth-value c d w = ground arith

value-Worth : (c d : ℕ) → c < 256 → digit_value (as_int c) ≡ some d → Worth c d
unfolding digit_value isdigit isalpha isupper islower
value-Worth c d byte e = ground arith

-- What is left of a text is a digit of the base, or it is not.
abbrev pub IsDigit : (base c d : ℕ) → Type 0
IsDigit base c d = Worth c d × (d < base)

abbrev pub NoDigit : (base c : ℕ) → Type 0
NoDigit base c = (c < 256) × ((d : ℕ) → Worth c d → base ≤ d)

-- A text of digits with their values.
abbrev pub Digits : (base : ℕ) → (cs ds : List ℕ) → Type 0
Digits base [] [] = Unit
Digits base [] (d ∷ ds) = ⊥
Digits base (c ∷ cs) [] = ⊥
Digits base (c ∷ cs) (d ∷ ds) = IsDigit base c d × Digits base cs ds

pub Digits-AllBelow : (base : ℕ) (cs ds : List ℕ) → Digits base cs ds → AllBelow base ds
Digits-AllBelow base [] [] h = tt
Digits-AllBelow base [] (d ∷ ds) h = absurd h
Digits-AllBelow base (c ∷ cs) [] h = absurd h
Digits-AllBelow base (c ∷ cs) (d ∷ ds) h = (h.0.1, Digits-AllBelow base cs ds h.1)

accumulate-stop :
    (k limit base c s : ℕ) (st : ℕ × Any) (m : Memory)
    → NoDigit base c
    → accumulate (suc k) limit base (as_int c) s st m ≡ ok (scan st.0 st.1 s) m
unfolding accumulate
accumulate-stop k limit base c s (acc, any) m none_left =
    elim (Option-cases (digit_value (as_int c))) [
      | inl e ↦ rw (accumulate, e)
      | inr (d, e) ↦
          let high : leb base d ≡ true =
            ground (arith, none_left.1 d (value-Worth c d none_left.0 e)) in
          rw (accumulate, e, high)
    ]

accumulate-step :
    (k limit base c d e s : ℕ) (st : ℕ × Any) (m : Memory)
    → IsDigit base c d
    → m s ≡ some e
    → accumulate (suc k) limit base (as_int c) s st m
      ≡ accumulate k limit base (as_int e) (s + 1) (advance limit base d st) m
unfolding accumulate
accumulate-step k limit base c d e s (acc, any) m digit next =
    let low : leb base d ≡ false = ground (arith, digit.1) in
    rw (accumulate, Worth-value c d digit.0, low, load-some s m next)

pub first_of :
    (m : Memory) (p : ℕ) (cs : List ℕ) (stop : ℕ)
    → BytesAt m p (cs ++ stop ∷ [])
    → (e : ℕ) × (m p ≡ some e)
first_of m p [] stop at = (stop, at.0)
first_of m p (c ∷ cs) stop at = (c, at.0)

-- The loop reads the digits up to the first character that is none.
pub accumulate_lem :
    (fuel limit base : ℕ) (cs ds : List ℕ) (stop p : ℕ) (st : ℕ × Any) (m : Memory) (c : ℕ)
    → Digits base cs ds
    → NoDigit base stop
    → BytesAt m p (cs ++ stop ∷ [])
    → m p ≡ some c
    → length cs < fuel
    → accumulate fuel limit base (as_int c) (p + 1) st m
      ≡ ok
          (scan
            (advance_all limit base ds st).0
            (advance_all limit base ds st).1
            (p + length cs + 1))
          m
unfolding advance_all
accumulate_lem (suc k) limit base [] [] stop p st m c h ends at here enough =
    let same : stop ≡ c = some-injective _ _ (sym at.0 ∙ here) in
    let place : p + 0 + 1 ≡ p + 1 = omega arith in
    rw place (accumulate-stop k limit base c (p + 1) st m (subst (λ t. NoDigit base t) same ends))
accumulate_lem (suc k) limit base (c' ∷ cs) (d ∷ ds) stop p st m c h ends at here enough =
    let same : c' ≡ c = some-injective _ _ (sym at.0 ∙ here) in
    let (e, next) = first_of m (p + 1) cs stop at.1 in
    let place : p + 1 + length cs + 1 ≡ p + suc (length cs) + 1 = omega arith in
    accumulate-step k limit base c d e (p + 1) st m (subst (λ t. IsDigit base t d) same h.0) next
    ∙ accumulate_lem k limit base cs ds stop (p + 1) (advance limit base d st) m e h.1 ends at.1
        next (omega arith)
    ∙ ap
        (λ t.
          ok
            (scan (advance_all limit base ds (advance limit base d st)).0
              (advance_all limit base ds (advance limit base d st)).1 t)
            m)
        place
accumulate_lem zero limit base cs ds stop p st m c h ends at here enough = absurd (omega arith)
accumulate_lem (suc k) limit base [] (d ∷ ds) stop p st m c h ends at here enough = absurd h
accumulate_lem (suc k) limit base (c' ∷ cs) [] stop p st m c h ends at here enough = absurd h
