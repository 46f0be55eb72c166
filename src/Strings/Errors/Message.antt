-- ===== src/Strings/Errors/Message.antt =====
-- What strerror says of known and unknown codes.
use Prim.Native.String.{String}
use mathlib.Core.Option.{Option, some-injective}
use native.Mathlib.Nat.{pow-suc}
use small_lib_c.Base.{
  sym, ◌≢◌, ◌-◌, ℕ, zero, suc, ◌+◌, ◌*◌, ◌/◌, ◌%◌, ◌^◌, ◌≤◌, ◌<◌, ◌≡◌, refl, ap, ◌∙◌, subst, Bool,
  true, ◌&&◌, none, some, List, [], ◌∷◌, ◌++◌, map, leb, ◌==◌, if◌then◌else◌, arith, Bool-cases,
  inl, inr, length, take, get_elem?,
}
use small_lib_c.Base.Int.{ℤ, pos, negsuc, abs, is_negative}
use small_lib_c.Numbers.Digits.{value_from, AllBelow}
use small_lib_c.Strings.Errors.{
  magnitude, codes, messages, resolve_err_text, util_strcpy, push_digits, unsigned_digits,
  format_unknown, strerror,
}

take-all : (n : ℕ) (xs : List ℕ) → length xs ≤ n → take n xs ≡ xs
take-all zero [] h = refl
take-all zero (x ∷ xs) h = absurd (omega arith)
take-all (suc n) [] h = refl
take-all (suc n) (x ∷ xs) h = ap (λ t. x ∷ t) (take-all n xs (omega arith))

abbrev all_short : List String → Bool
all_short [] = true
all_short (s ∷ ss) = leb (length (codes s)) 255 && all_short ss

short_at :
    (ss : List String) (n : ℕ) (s : String)
    → all_short ss ≡ true
    → get_elem? ss n ≡ some s
    → length (codes s) ≤ 255
short_at [] n s h e = absurd (ground arith)
short_at (t ∷ ts) zero s h e =
    let same : t ≡ s = some-injective _ _ e in
    subst (λ u. length (codes u) ≤ 255) same (ground arith)
short_at (t ∷ ts) (suc n) s h e = short_at ts n s (ground arith) e

all_messages_short : all_short messages ≡ true
all_messages_short = refl

-- For a code that has a message strerror returns the whole message.
pub strerror-known :
    (errnum : ℤ) (text : String)
    → resolve_err_text errnum ≡ some text
    → strerror errnum ≡ some (codes text)
unfolding strerror util_strcpy resolve_err_text
strerror-known (pos n) text e =
    rw e (ap some (take-all 255 (codes text) (short_at messages n text all_messages_short e)))
strerror-known (negsuc n) text e = absurd (ground arith)

-- The digits that are pushed, on top of those that are there.
push_digits-value :
    (k val : ℕ) (ds : List ℕ)
    → val < 10 ^ k
    → AllBelow 10 ds
    → (es : List ℕ) × (push_digits k val (map (λ (d : ℕ). d + 48) ds) ≡ map (λ (d : ℕ). d + 48) es)
      × (value_from 10 0 es ≡ value_from 10 val ds)
      × AllBelow 10 es
unfolding push_digits value_from
push_digits-value zero val ds h all = (ds, refl, ap (λ v. value_from 10 v ds) (omega arith), all)
push_digits-value (suc k) val ds h all = elim (Bool-cases (val == 0)) [
  | inl y ↦
      let none_left : 0 ≡ val = ground (arith, y) in
      rw y (ds, refl, ap (λ v. value_from 10 v ds) none_left, all)
  | inr n ↦
      let small : val / 10 < 10 ^ k = omega (arith, pow-suc 10 k) in
      let (es, e, v, below) =
        push_digits-value k (val / 10) ((val % 10) ∷ ds) small (omega arith, all) in
      let whole : val / 10 * 10 + val % 10 ≡ val = omega arith in
      rw n (es, e, v ∙ ap (λ t. value_from 10 t ds) whole, below)
]

push_digits-length : (k val : ℕ) (ds : List ℕ) → length (push_digits k val ds) ≤ k + length ds
unfolding push_digits
push_digits-length zero val ds = omega arith
push_digits-length (suc k) val ds = elim (Bool-cases (val == 0)) [
  | inl y ↦ rw y (omega arith)
  | inr n ↦ rw n (omega (arith, push_digits-length k (val / 10) ((val % 10 + 48) ∷ ds)))
]

-- The decimal text of a number.
abbrev Decimal : (val : ℕ) → List ℕ → Type 0
Decimal val text =
    (es : List ℕ) × (text ≡ map (λ (d : ℕ). d + 48) es)
    × (value_from 10 0 es ≡ val)
    × AllBelow 10 es

digits-Decimal : (val : ℕ) → val < 10 ^ 10 → Decimal val (unsigned_digits val)
unfolding unsigned_digits value_from
digits-Decimal val h = elim (Bool-cases (val == 0)) [
  | inl y ↦
      let none_left : 0 ≡ val = ground (arith, y) in
      rw y (0 ∷ [], refl, none_left, (omega arith, tt))
  | inr n ↦ rw n (push_digits-value 10 val [] h tt)
]

digits-length : (val : ℕ) → length (unsigned_digits val) ≤ 10
unfolding unsigned_digits
digits-length val = elim (Bool-cases (val == 0)) [
  | inl y ↦ rw y (omega arith)
  | inr n ↦ rw n (omega (arith, push_digits-length 10 val []))
]

-- The text of an unknown code, or none.
abbrev pub Described : ℤ → Option (List ℕ) → Type 0
Described errnum none = errnum ≡ negsuc (2 ^ 31 - 1)
Described errnum (some text) =
    (ds : List ℕ) × (text
      ≡ (codes "Unknown error: " ++ (if is_negative errnum then b'-' ∷ [] else []))
        ++ map (λ (d : ℕ). d + 48) ds)
    × (value_from 10 0 ds ≡ abs errnum)
    × AllBelow 10 ds
    × (errnum ≢ negsuc (2 ^ 31 - 1))

magnitude_pos : (n : ℕ) → magnitude (pos n) ≡ some (abs (pos n))
unfolding magnitude
magnitude_pos n = ground arith

magnitude_negative : (n : ℕ) → n ≢ 2 ^ 31 - 1 → magnitude (negsuc n) ≡ some (abs (negsuc n))
unfolding magnitude
magnitude_negative n h = ground arith

strerror_int_min : strerror (negsuc (2 ^ 31 - 1)) ≡ none
unfolding strerror format_unknown resolve_err_text magnitude
strerror_int_min = refl

-- For an `int` that has no message, strerror returns "Unknown error: ", a minus if it is negative, and
-- the decimal digits of its magnitude, except for INT_MIN, and only for INT_MIN its behaviour is not
-- defined.
pub strerror-unknown :
    (errnum : ℤ)
    → resolve_err_text errnum ≡ none
    → abs errnum ≤ 2 ^ 31
    → Described errnum (strerror errnum)
unfolding strerror format_unknown resolve_err_text
strerror-unknown (pos n) e h =
    let (ds, text, value, below) = digits-Decimal (abs (pos n)) (omega arith) in
    let whole =
      take-all 240 (unsigned_digits (abs (pos n))) (omega (arith, digits-length (abs (pos n)))) in
    rw (e, magnitude_pos n) (ds, rw (whole, text) refl, value, below, λ e. cc)
strerror-unknown (negsuc n) e h = elim (Bool-cases (n == 2 ^ 31 - 1)) [
  | inl y ↦
      let at : n ≡ 2 ^ 31 - 1 = ground (arith, y) in
      subst (λ (k : ℕ). Described (negsuc k) (strerror (negsuc k))) (sym at)
        (rw strerror_int_min refl)
  | inr k ↦
      let (ds, text, value, below) = digits-Decimal (abs (negsuc n)) (omega arith) in
      let whole =
        take-all 239 (unsigned_digits (abs (negsuc n)))
          (omega (arith, digits-length (abs (negsuc n)))) in
      let other : n ≢ 2 ^ 31 - 1 = ground (arith, k) in
      rw (magnitude_negative n other)
        (ds, rw (whole, text) refl, value, below, λ e. absurd (omega (arith, ap abs e, other)))
]
