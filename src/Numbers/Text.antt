-- ===== src/Numbers/Text.antt =====
-- The text in front of the digits: white space, a sign, and the prefix of a base.
use small_lib_c.Base.{
  ℕ, zero, suc, ◌+◌, ◌<◌, ◌≡◌, refl, sym, ap, ◌∙◌, ◌≢◌, ◌⊎◌, subst, Bool, true, false, ◌&&◌, ◌||◌,
  some, List, [], ◌∷◌, ◌++◌, ◌==◌, if◌then◌else◌, arith, Bool-cases, inl, inr, length,
}
use mathlib.Core.Option.{some-injective}
use small_lib_c.Memory.{Memory, ok, load-some}
use small_lib_c.Memory.Region.{BytesAt}
use small_lib_c.Ctype.{isspace}
use small_lib_c.Numbers.Digits.{Worth}
use small_lib_c.Numbers.{as_int, skip_space, read_sign, read_prefix}

abbrev pub AllSpace : List ℕ → Type 0
AllSpace [] = Unit
AllSpace (c ∷ cs) = (isspace (as_int c) ≡ true) × AllSpace cs

-- The sign's text.
pub data Sign : List ℕ → Bool → Type 0 where
  unsigned : Sign [] false
  minus : Sign (b'-' ∷ []) true
  plus : Sign (b'+' ∷ []) false

abbrev pub IsX : ℕ → Type 0
IsX e = (e ≡ b'x') ⊎ (e ≡ b'X')

-- The prefix's text and the base of the digits, `c` and `e` being the two characters after the
-- prefix.
pub data Prefix (given c e : ℕ) : List ℕ → (base : ℕ) → Type 0 where
  as_given : given ≢ 0 → (given ≡ 16 → c ≡ b'0' → IsX e → ⊥) → Prefix given c e [] given
  hexadecimal : (x : ℕ) → (given ≡ 0) ⊎ (given ≡ 16) → IsX x → Prefix given c e (b'0' ∷ x ∷ []) 16
  octal : given ≡ 0 → c ≡ b'0' → (IsX e → ⊥) → Prefix given c e [] 8
  decimal : given ≡ 0 → c ≢ b'0' → Prefix given c e [] 10

pub BytesAt-right :
    (m : Memory) (p : ℕ) (xs ys : List ℕ) → BytesAt m p (xs ++ ys) → BytesAt m (p + length xs) ys
BytesAt-right m p [] ys h = subst (λ q. BytesAt m q ys) (omega arith) h
BytesAt-right m p (x ∷ xs) ys h =
    subst (λ q. BytesAt m q ys) (omega arith) (BytesAt-right m (p + 1) xs ys h.1)

-- A digit is no white space and no sign.
pub digit-space : (c d : ℕ) → Worth c d → isspace (as_int c) ≡ false
unfolding isspace
digit-space c d h = ground arith

digit-sign : (c d : ℕ) → Worth c d → ((as_int c == b'-') ≡ false) × ((as_int c == b'+') ≡ false)
digit-sign c d h = (ground arith, ground arith)

pub skip_space_lem :
    (fuel : ℕ) (sp : List ℕ) (c p : ℕ) (m : Memory)
    → AllSpace sp
    → isspace (as_int c) ≡ false
    → BytesAt m p (sp ++ c ∷ [])
    → length sp < fuel
    → skip_space fuel p m ≡ ok (as_int c, p + length sp + 1) m
unfolding skip_space
skip_space_lem zero sp c p m spaces ends at enough = absurd (omega arith)
skip_space_lem (suc k) [] c p m spaces ends at enough =
    let place : p + 1 ≡ p + 0 + 1 = omega arith in
    rw (load-some p m at.0, ends) (ap (λ t. ok (as_int c, t) m) place)
skip_space_lem (suc k) (b ∷ sp) c p m spaces ends at enough =
    let place : p + 1 + length sp + 1 ≡ p + suc (length sp) + 1 = omega arith in
    rw (load-some p m at.0, spaces.0)
      (skip_space_lem k sp c (p + 1) m spaces.1 ends at.1 (omega arith)
        ∙ ap (λ t. ok (as_int c, t) m) place)

BytesAt-first :
    (m : Memory) (p : ℕ) (xs : List ℕ) (c : ℕ) (ys : List ℕ)
    → BytesAt m p (xs ++ c ∷ ys)
    → BytesAt m p (xs ++ c ∷ [])
BytesAt-first m p [] c ys h = (h.0, tt)
BytesAt-first m p (x ∷ xs) c ys h = (h.0, BytesAt-first m (p + 1) xs c ys h.1)

pub read_sign_lem :
    (sg : List ℕ) (neg : Bool) (c d f p : ℕ) (m : Memory)
    → Sign sg neg
    → Worth c d
    → BytesAt m p (sg ++ c ∷ [])
    → m p ≡ some f
    → read_sign (as_int f) (p + 1) m ≡ ok (neg, as_int c, p + length sg + 1) m
unfolding read_sign
read_sign_lem sg neg c d f p m unsigned digit at here =
    let same : c ≡ f = some-injective _ _ (sym at.0 ∙ here) in
    let (t1, t2) = digit-sign f d (subst (λ t. Worth t d) same digit) in
    let place : p + 1 ≡ p + 0 + 1 = omega arith in
    rw (t1, t2, same) (ap (λ t. ok (false, as_int f, t) m) place)
read_sign_lem sg neg c d f p m minus digit at here =
    let same : b'-' ≡ f = some-injective _ _ (sym at.0 ∙ here) in
    rw (sym same, load-some (p + 1) m at.1.0) refl
read_sign_lem sg neg c d f p m plus digit at here =
    let same : b'+' ≡ f = some-injective _ _ (sym at.0 ∙ here) in
    rw (sym same, load-some (p + 1) m at.1.0) refl

x_test : (e : ℕ) → IsX e → (e == b'x' || e == b'X') ≡ true
x_test e h = ground arith

not_x_test : (e : ℕ) → (IsX e → ⊥) → (e == b'x' || e == b'X') ≡ false
not_x_test e h = elim (Bool-cases (e == b'x' || e == b'X')) [
  | inl y ↦ absurd (h (ground (arith, y)))
  | inr n ↦ n
]

plain_prefix :
    (given c e p : ℕ) (m : Memory)
    → ((given ≡ 0) ⊎ (given ≡ 16) → c ≡ b'0' → IsX e → ⊥)
    → m (p + 1) ≡ some e
    → read_prefix given (as_int c) (p + 1) m
      ≡ ok (if given == 0 then if as_int c == b'0' then 8 else 10 else given, as_int c, p + 1) m
unfolding read_prefix
plain_prefix given c e p m no_prefix next =
    elim (Bool-cases ((given == 0 || given == 16) && as_int c == b'0')) [
      | inl y ↦
          let x_false = not_x_test e (no_prefix (ground (arith, y)) (ground (arith, y))) in
          rw (y, load-some (p + 1) m next, x_false) refl
      | inr n ↦ rw n refl
    ]

x_prefix :
    (given c x p : ℕ) (m : Memory)
    → (given ≡ 0) ⊎ (given ≡ 16)
    → IsX x
    → m (p + 1) ≡ some x
    → m (p + 1 + 1) ≡ some c
    → read_prefix given (as_int b'0') (p + 1) m ≡ ok (16, as_int c, p + 1 + 2) m
unfolding read_prefix
x_prefix given c x p m bases an_x next after_x =
    let test : ((given == 0 || given == 16) && true) ≡ true = ground arith in
    rw (test, load-some (p + 1) m next, x_test x an_x, load-some (p + 1 + 1) m after_x) refl

at_zero : {A : Type 0} (f : ℕ → A) (p : ℕ) → f (p + 1) ≡ f (p + 0 + 1)
at_zero f p = ap f (omega arith)

pub read_prefix_lem :
    (given : ℕ) (pre : List ℕ) (base c e f p : ℕ) (m : Memory)
    → Prefix given c e pre base
    → BytesAt m p (pre ++ c ∷ e ∷ [])
    → m p ≡ some f
    → read_prefix given (as_int f) (p + 1) m ≡ ok (base, as_int c, p + length pre + 1) m
read_prefix_lem given pre base c e f p m (as_given some_base other) at here =
    let same : c ≡ f = some-injective _ _ (sym at.0 ∙ here) in
    let test : (given == 0) ≡ false = ground arith in
    rw⁻¹ same (
      plain_prefix given c e p m (λ bases. other (ground arith)) at.1.0
      ∙ rw test (at_zero (λ t. ok (given, as_int c, t) m) p))
read_prefix_lem given pre base c e f p m (hexadecimal x bases an_x) at here =
    let same : b'0' ≡ f = some-injective _ _ (sym at.0 ∙ here) in
    let place : p + 1 + 2 ≡ p + 2 + 1 = omega arith in
    rw⁻¹ same
      (x_prefix given c x p m bases an_x at.1.0 at.1.1.0 ∙ ap (λ t. ok (16, as_int c, t) m) place)
read_prefix_lem given pre base c e f p m (octal none_given zero_first other) at here =
    let same : c ≡ f = some-injective _ _ (sym at.0 ∙ here) in
    rw⁻¹ same (
      plain_prefix given c e p m (λ bases first. other) at.1.0
      ∙ rw (none_given, zero_first) (at_zero (λ t. ok (8, as_int b'0', t) m) p))
read_prefix_lem given pre base c e f p m (decimal none_given nonzero) at here =
    let same : c ≡ f = some-injective _ _ (sym at.0 ∙ here) in
    let test : (as_int c == b'0') ≡ false = ground arith in
    rw⁻¹ same (
      plain_prefix given c e p m (λ bases first. absurd (nonzero first)) at.1.0
      ∙ rw (none_given, test) (at_zero (λ t. ok (10, as_int c, t) m) p))
