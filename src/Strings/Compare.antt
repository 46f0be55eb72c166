-- ===== src/Strings/Compare.antt =====
-- Comparison: strcmp, strcoll, strncmp, memcmp of src/c/string, bcmp, strcasecmp and strncasecmp of
-- src/c/strings. A loop over a string takes fuel.
pub mod Order
pub mod Text
pub mod Blocks
pub mod Case
mod Samples
use small_lib_c.Base.{ℕ, zero, suc, ◌+◌, Bool, true, false, ◌&&◌, leb, ltb, ◌==◌, if◌then◌else◌}
use small_lib_c.Base.Int.{ℤ, sub_ℕ, pos}
use small_lib_c.Memory.{Cmd, out_of_fuel, pure, ◌>>=◌, load}

-- `*(const unsigned char *)s1 - *(const unsigned char *)s2`
pub byte_difference : (s1 s2 : ℕ) → Cmd ℤ
byte_difference s1 s2 = do a ← load s1; b ← load s2; pure (sub_ℕ a b)

unfoldable pub strcmp : (fuel s1 s2 : ℕ) → Cmd ℤ
unfolding byte_difference
strcmp zero s1 s2 = λ _. out_of_fuel
strcmp (suc k) s1 s2 = do
  a ← load s1
  if a == 0
      then byte_difference s1 s2
      else do b ← load s2; if a == b then strcmp k (s1 + 1) (s2 + 1) else byte_difference s1 s2

unfoldable pub strcoll : (fuel s1 s2 : ℕ) → Cmd ℤ
unfolding byte_difference
strcoll zero s1 s2 = λ _. out_of_fuel
strcoll (suc k) s1 s2 = do
  a ← load s1
  if a == 0
      then byte_difference s1 s2
      else do b ← load s2; if a == b then strcoll k (s1 + 1) (s2 + 1) else byte_difference s1 s2

unfoldable pub strncmp : (n s1 s2 : ℕ) → Cmd ℤ
strncmp zero s1 s2 = pure (pos 0)
strncmp (suc n) s1 s2 = do
  a ← load s1
  b ← load s2
  if a == b
      then (if a == 0 then pure (pos 0) else strncmp n (s1 + 1) (s2 + 1))
      else pure (sub_ℕ a b)

unfoldable pub memcmp : (n p1 p2 : ℕ) → Cmd ℤ
memcmp zero p1 p2 = pure (pos 0)
memcmp (suc n) p1 p2 = do
  a ← load p1
  b ← load p2
  if a == b then memcmp n (p1 + 1) (p2 + 1) else pure (sub_ℕ a b)

unfoldable pub bcmp : (n p1 p2 : ℕ) → Cmd ℕ
bcmp zero p1 p2 = pure 0
bcmp (suc n) p1 p2 = do
  a ← load p1
  b ← load p2
  if a == b then bcmp n (p1 + 1) (p2 + 1) else pure 1

-- `if(c >= 'A' && c <= 'Z') c += 32;` on an `unsigned char`
unfoldable pub fold_case : ℕ → ℕ
fold_case c = if leb b'A' c && leb c b'Z' then c + 32 else c

pub strcasecmp_loop : (fuel p1 p2 : ℕ) → Cmd ℤ
unfolding fold_case
strcasecmp_loop zero p1 p2 = λ _. out_of_fuel
strcasecmp_loop (suc k) p1 p2 = do
  a ← load p1
  b ← load p2
  if fold_case a == fold_case b
      then (if fold_case a == 0 then pure (pos 0) else strcasecmp_loop k (p1 + 1) (p2 + 1))
      else pure (sub_ℕ (fold_case a) (fold_case b))

unfoldable pub strcasecmp : (fuel s1 s2 : ℕ) → Cmd ℤ
unfolding strcasecmp_loop
strcasecmp k s1 s2 = if s1 == s2 then pure (pos 0) else strcasecmp_loop k s1 s2

unfoldable pub strncasecmp : (n s1 s2 : ℕ) → Cmd ℤ
unfolding fold_case
strncasecmp zero s1 s2 = pure (pos 0)
strncasecmp (suc n) s1 s2 = do
  a ← load s1
  b ← load s2
  if fold_case a == fold_case b
      then (if fold_case a == 0 then pure (pos 0) else strncasecmp n (s1 + 1) (s2 + 1))
      else pure (sub_ℕ (fold_case a) (fold_case b))
