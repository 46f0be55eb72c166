-- ===== src/Numbers.antt =====
-- Numbers from text: src/c/stdlib/strtoull.c, strtoll.c, strtoul.c, strtol.c and atoll.c. `errno` and
-- what `endptr` points to are parts of the result; `endptr` is not null. `long` has 32 bits.
pub mod Digits
pub mod Text
pub mod Grammar
pub mod Unsigned
pub mod Signed
mod Samples
use small_lib_c.Base.{
  ℕ, zero, suc, ◌+◌, ◌-◌, ◌*◌, ◌/◌, ◌%◌, ◌^◌, Bool, true, false, ◌&&◌, ◌||◌, Option, none, some,
  ltb, leb, ◌==◌, if◌then◌else◌,
}
use small_lib_c.Base.Int.{ℤ, pos, negsuc, neg, ltb_ℤ}
use small_lib_c.Memory.{Cmd, out_of_fuel, pure, ◌>>=◌, load}
use small_lib_c.Ctype.{isspace, isdigit, isalpha, isupper}
use small_lib_c.Runtime.{signed_of}

-- The `int` pattern of a `char`, which is signed.
abbrev pub as_int : ℕ → ℕ
as_int c = if ltb c 128 then c else c + (2 ^ 32 - 256)

-- `do { c = *s++; } while(isspace(c));`: the character and the address after it.
pub skip_space : (fuel s : ℕ) → Cmd (ℕ × ℕ)
skip_space zero s = λ _. out_of_fuel
skip_space (suc k) s = do
  c ← load s
  if isspace (as_int c) then skip_space k (s + 1) else pure (as_int c, s + 1)

-- The sign, the character after it and the address after that.
pub read_sign : (c s : ℕ) → Cmd (Bool × ℕ × ℕ)
read_sign c s =
    if c == b'-'
    then (do d ← load s; pure (true, as_int d, s + 1))
    else if c == b'+'
    then (do d ← load s; pure (false, as_int d, s + 1))
    else pure (false, c, s)

-- The base, the first character of the digits and the address after it.
pub read_prefix : (base c s : ℕ) → Cmd (ℕ × ℕ × ℕ)
read_prefix base c s =
    let chosen = if base == 0 then if c == b'0' then 8 else 10 else base in
    if (base == 0 || base == 16) && c == b'0'
    then (do
      x ← load s
      if x == b'x' || x == b'X'
          then (do d ← load (s + 1); pure (16, as_int d, s + 2))
          else pure (chosen, c, s))
    else pure (chosen, c, s)

-- The variable `any`: 0, 1 and -1.
pub data Any : Type 0 where
  no_digits : Any
  digits : Any
  too_large : Any

pub record Scan : Type 0 where
  pub acc : ℕ
  pub any : Any
  pub s : ℕ

abbrev pub scan : (acc : ℕ) → Any → (s : ℕ) → Scan
scan acc any s = record { acc = acc; any = any; s = s }

-- `c - '0'` and `c - ('A' - 10)` or `c - ('a' - 10)`; `none` is the first break.
pub digit_value : ℕ → Option ℕ
digit_value c =
    if isdigit c
    then some (c - 48)
    else if isalpha c
    then some (c - (if isupper c then 55 else 87))
    else none

-- The body of the loop for a digit; `limit` is ULLONG_MAX, or the magnitude that strtoll allows.
pub advance : (limit base d : ℕ) → ℕ × Any → ℕ × Any
advance limit base d (acc, too_large) = (acc, too_large)
advance limit base d (acc, no_digits) =
    if ltb (limit / base) acc || acc == limit / base && ltb (limit % base) d
    then (acc, too_large)
    else ((acc * base + d) % 2 ^ 64, digits)
advance limit base d (acc, digits) =
    if ltb (limit / base) acc || acc == limit / base && ltb (limit % base) d
    then (acc, too_large)
    else ((acc * base + d) % 2 ^ 64, digits)

pub accumulate : (fuel limit base c s : ℕ) → ℕ × Any → Cmd Scan
accumulate zero limit base c s (acc, any) = λ _. out_of_fuel
accumulate (suc k) limit base c s (acc, any) = elim (digit_value c) [
  | none ↦ pure (scan acc any s)
  | some d ↦ if leb base d then pure (scan acc any s) else (do
    e ← load s
    accumulate k limit base (as_int e) (s + 1) (advance limit base d (acc, any)))
]

-- What a call leaves: the value, where `*endptr` points, and whether it set `errno` to ERANGE.
pub record Parsed (A : Type 0) : Type 0 where
  pub value : A
  pub endptr : ℕ
  pub erange : Bool

abbrev pub parsed : {A : Type 0} → A → (endptr : ℕ) → (erange : Bool) → Parsed A
parsed v e r = record { value = v; endptr = e; erange = r }

-- The scan that both 64 bit functions make, `limit` being a function of the sign.
pub scan_number : (fuel : ℕ) (limit : Bool → ℕ) (nptr base : ℕ) → Cmd (Bool × Scan)
scan_number fuel limit nptr base = do
  (c, s) ← skip_space fuel nptr
  (neg, c, s) ← read_sign c s
  (base, c, s) ← read_prefix base c s
  r ← accumulate fuel (limit neg) base c s (0, no_digits)
  pure (neg, r)

pub end_of : (nptr : ℕ) → Scan → ℕ
end_of nptr r = elim r.any [ no_digits ↦ nptr | digits ↦ r.s - 1 | too_large ↦ r.s - 1 ]

-- `acc = -acc` for a negative number.
pub finish_unsigned : (nptr : ℕ) (neg : Bool) → Scan → Parsed ℕ
finish_unsigned nptr neg r = elim r.any [
  | too_large ↦ parsed (2 ^ 64 - 1) (end_of nptr r) true
  | no_digits ↦ parsed (if neg then (2 ^ 64 - r.acc) % 2 ^ 64 else r.acc) (end_of nptr r) false
  | digits ↦ parsed (if neg then (2 ^ 64 - r.acc) % 2 ^ 64 else r.acc) (end_of nptr r) false
]

pub strtoull : (fuel nptr base : ℕ) → Cmd (Parsed ℕ)
strtoull fuel nptr base = do
  (neg, r) ← scan_number fuel (λ _. 2 ^ 64 - 1) nptr base
  pure (finish_unsigned nptr neg r)

abbrev pub signed_limit : Bool → ℕ
signed_limit neg = if neg then 2 ^ 63 else 2 ^ 63 - 1

pub finish_signed : (nptr : ℕ) (neg : Bool) → Scan → Parsed ℤ
finish_signed nptr neg r = elim r.any [
  | too_large ↦ parsed (signed_of 64 (if neg then 2 ^ 63 else 2 ^ 63 - 1)) (end_of nptr r) true
  | no_digits ↦
      parsed (signed_of 64 (if neg then (2 ^ 64 - r.acc) % 2 ^ 64 else r.acc)) (end_of nptr r) false
  | digits ↦
      parsed (signed_of 64 (if neg then (2 ^ 64 - r.acc) % 2 ^ 64 else r.acc)) (end_of nptr r) false
]

pub strtoll : (fuel nptr base : ℕ) → Cmd (Parsed ℤ)
strtoll fuel nptr base = do
  (neg, r) ← scan_number fuel signed_limit nptr base
  pure (finish_signed nptr neg r)

pub atoll : (fuel nptr : ℕ) → Cmd ℤ
atoll fuel nptr = do r ← strtoll fuel nptr 10; pure r.value

abbrev pub long_max : ℤ
long_max = pos (2 ^ 31 - 1)

abbrev pub long_min : ℤ
long_min = negsuc (2 ^ 31 - 1)

pub clamp_long : Parsed ℤ → Parsed ℤ
clamp_long r =
    if ltb_ℤ long_max r.value
    then parsed long_max r.endptr true
    else if ltb_ℤ r.value long_min
    then parsed long_min r.endptr true
    else r

pub strtol : (fuel nptr base : ℕ) → Cmd (Parsed ℤ)
strtol fuel nptr base = do r ← strtoll fuel nptr base; pure (clamp_long r)

pub clamp_unsigned_long : Parsed ℕ → Parsed ℕ
clamp_unsigned_long r = if ltb (2 ^ 32 - 1) r.value then parsed (2 ^ 32 - 1) r.endptr true else r

pub strtoul : (fuel nptr base : ℕ) → Cmd (Parsed ℕ)
strtoul fuel nptr base = do r ← strtoull fuel nptr base; pure (clamp_unsigned_long r)
