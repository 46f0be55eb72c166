-- ===== src/Strings/Substring.antt =====
-- A string in another: src/c/string/strstr.c and src/c/wchar/wcsstr.c. `fuel` is for the needle.
pub mod Place
mod Samples
use small_lib_c.Base.{ℕ, zero, suc, ◌+◌, Bool, true, false, Option, none, some, ◌==◌, if◌then◌else◌}
use small_lib_c.Memory.{Cmd, out_of_fuel, pure, ◌>>=◌, load}

-- `while(*n && *h == *n) { h++; n++; }`, and whether `n` is at its end then.
unfoldable pub begins_with : (fuel h n : ℕ) → Cmd Bool
begins_with zero h n = λ _. out_of_fuel
begins_with (suc k) h n = do
  c ← load n
  if c == 0
      then pure true
      else (do d ← load h; if d == c then begins_with k (h + 1) (n + 1) else pure false)

unfoldable pub strstr_loop : (k fuel haystack needle : ℕ) → Cmd (Option ℕ)
strstr_loop zero fuel haystack needle = λ _. out_of_fuel
strstr_loop (suc k) fuel haystack needle = do
  c ← load haystack
  if c == 0 then pure none else (do
    found ← begins_with fuel haystack needle
    if found then pure (some haystack) else strstr_loop k fuel (haystack + 1) needle)

unfoldable pub strstr : (k fuel haystack needle : ℕ) → Cmd (Option ℕ)
strstr k fuel haystack needle = do
  c ← load needle
  if c == 0 then pure (some haystack) else strstr_loop k fuel haystack needle

unfoldable pub wcsstr : (k fuel haystack needle : ℕ) → Cmd (Option ℕ)
wcsstr k fuel haystack needle = do
  c ← load needle
  if c == 0 then pure (some haystack) else strstr_loop k fuel haystack needle
