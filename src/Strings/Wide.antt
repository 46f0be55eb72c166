-- ===== src/Strings/Wide.antt =====
-- Wide blocks and comparisons: src/c/wchar/wmemcpy.c, wmemmove.c, wmemset.c, wmemchr.c, wmemcmp.c,
-- wcscmp.c, wcsncmp.c and wcscoll.c. A cell is a code of the signed `wchar_t` that is not negative.
pub mod Blocks
pub mod Order
use small_lib_c.Base.{
  ℕ, zero, suc, ◌+◌, ◌-◌, Bool, true, false, Option, none, some, ltb, ◌==◌, if◌then◌else◌,
}
use small_lib_c.Base.Int.{ℤ, pos, negsuc}
use small_lib_c.Memory.{Cmd, out_of_fuel, pure, ◌>>=◌, ◌>>◌, load}
use small_lib_c.Strings.Block.{copy_up, copy_down, fill, find_byte}

pub wmemcpy : (dest src n : ℕ) → Cmd ℕ
wmemcpy dest src n = do copy_up n dest src; pure dest

pub wmemmove : (dest src n : ℕ) → Cmd ℕ
wmemmove dest src n =
    if ltb dest src
    then (do copy_up n dest src; pure dest)
    else if ltb src dest
    then (do copy_down n (dest + n) (src + n); pure dest)
    else pure dest

pub wmemset : (s c n : ℕ) → Cmd ℕ
wmemset s c n = do fill n s c; pure s

pub wmemchr : (s c n : ℕ) → Cmd (Option ℕ)
wmemchr s c n = find_byte n s c

-- `if(*s1 < *s2) return -1; if(*s1 > *s2) return 1; return 0;`
pub wide_order : (s1 s2 : ℕ) → Cmd ℤ
wide_order s1 s2 = do
  a ← load s1
  b ← load s2
  pure (if ltb a b then negsuc 0 else if ltb b a then pos 1 else pos 0)

pub wcscmp : (fuel s1 s2 : ℕ) → Cmd ℤ
wcscmp zero s1 s2 = λ _. out_of_fuel
wcscmp (suc k) s1 s2 = do
  a ← load s1
  if a == 0
      then wide_order s1 s2
      else do b ← load s2; if a == b then wcscmp k (s1 + 1) (s2 + 1) else wide_order s1 s2

pub wcscoll : (fuel s1 s2 : ℕ) → Cmd ℤ
wcscoll fuel s1 s2 = wcscmp fuel s1 s2

-- The loop for `n > 1`, from `n - 1` down.
pub wcsncmp_loop : (n s1 s2 : ℕ) → Cmd ℤ
wcsncmp_loop zero s1 s2 = wide_order s1 s2
wcsncmp_loop (suc n) s1 s2 = do
  a ← load s1
  if a == 0
      then wide_order s1 s2
      else do b ← load s2; if a == b then wcsncmp_loop n (s1 + 1) (s2 + 1) else wide_order s1 s2

pub wcsncmp : (n s1 s2 : ℕ) → Cmd ℤ
wcsncmp zero s1 s2 = pure (pos 0)
wcsncmp (suc n) s1 s2 = wcsncmp_loop n s1 s2

pub wmemcmp : (n s1 s2 : ℕ) → Cmd ℤ
wmemcmp zero s1 s2 = pure (pos 0)
wmemcmp (suc n) s1 s2 = do
  a ← load s1
  b ← load s2
  if a == b then wmemcmp n (s1 + 1) (s2 + 1) else pure (if ltb a b then negsuc 0 else pos 1)
