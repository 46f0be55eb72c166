-- ===== src/Strings/Copy.antt =====
-- Copies of strings: src/c/string/strcpy.c, strncpy.c, strcat.c and strncat.c, src/c/wchar/wcscpy.c,
-- wcsncpy.c, wcscat.c and wcsncat.c. A loop over a string takes fuel.
pub mod Written
pub mod Text
pub mod Bounded
mod Samples
use small_lib_c.Base.{ℕ, zero, suc, ◌+◌, Bool, true, false, ◌==◌, if◌then◌else◌}
use small_lib_c.Memory.{Cmd, out_of_fuel, pure, ◌>>=◌, ◌>>◌, load, store}

-- `while((*dest++ = *src++)) ;`
pub copy_string : (fuel d s : ℕ) → Cmd (Unit {0})
copy_string zero d s = λ _. out_of_fuel
copy_string (suc k) d s = do
  c ← load s
  store d c
  if c == 0 then pure tt else copy_string k (d + 1) (s + 1)

pub strcpy : (fuel dest src : ℕ) → Cmd ℕ
strcpy fuel dest src = do copy_string fuel dest src; pure dest

pub wcscpy : (fuel dest src : ℕ) → Cmd ℕ
wcscpy fuel dest src = do copy_string fuel dest src; pure dest

-- `while(*ptr) ptr++;`
pub to_end : (fuel ptr : ℕ) → Cmd ℕ
to_end zero ptr = λ _. out_of_fuel
to_end (suc k) ptr = do c ← load ptr; if c == 0 then pure ptr else to_end k (ptr + 1)

pub strcat : (fuel dest src : ℕ) → Cmd ℕ
strcat fuel dest src = do ptr ← to_end fuel dest; copy_string fuel ptr src; pure dest

-- `while(*src != L'\0') { *ptr = *src; ptr++; src++; }`
pub copy_nonzero : (fuel d s : ℕ) → Cmd ℕ
copy_nonzero zero d s = λ _. out_of_fuel
copy_nonzero (suc k) d s = do
  c ← load s
  if c == 0 then pure d else (do store d c; copy_nonzero k (d + 1) (s + 1))

pub wcscat : (fuel dest src : ℕ) → Cmd ℕ
wcscat fuel dest src = do
  ptr ← to_end fuel dest
  end ← copy_nonzero fuel ptr src
  store end 0
  pure dest

-- At most n characters before the zero: how many more there may be, and where the next one goes.
pub copy_at_most : (n d s : ℕ) → Cmd (ℕ × ℕ)
copy_at_most zero d s = pure (0, d)
copy_at_most (suc n) d s = do
  c ← load s
  if c == 0 then pure (suc n, d) else (do store d c; copy_at_most n (d + 1) (s + 1))

-- `for(; i < n; i++) dest[i] = '\0';`
pub pad : (n d : ℕ) → Cmd (Unit {0})
pad zero d = pure tt
pad (suc n) d = do store d 0; pad n (d + 1)

pub strncpy : (dest src n : ℕ) → Cmd ℕ
strncpy dest src n = do (left, d) ← copy_at_most n dest src; pad left d; pure dest

pub wcsncpy : (dest src n : ℕ) → Cmd ℕ
wcsncpy dest src n = do (left, d) ← copy_at_most n dest src; pad left d; pure dest

pub strncat : (fuel dest src n : ℕ) → Cmd ℕ
strncat fuel dest src n = do
  ptr ← to_end fuel dest
  (_, d) ← copy_at_most n ptr src
  store d 0
  pure dest

pub wcsncat : (fuel dest src n : ℕ) → Cmd ℕ
wcsncat fuel dest src n = do
  ptr ← to_end fuel dest
  (_, d) ← copy_at_most n ptr src
  store d 0
  pure dest
