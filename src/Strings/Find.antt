-- ===== src/Strings/Find.antt =====
-- Length and character searches: src/c/string/strlen.c, strchr.c and strrchr.c, src/c/strings/index.c
-- and rindex.c, src/c/wchar/wcslen.c, wcschr.c and wcsrchr.c. A loop takes fuel; null is `none`.
pub mod First
pub mod Last
mod Samples
use small_lib_c.Base.{
  ℕ, zero, suc, ◌+◌, ◌%◌, Bool, true, false, Option, none, some, ◌==◌, if◌then◌else◌,
}
use small_lib_c.Memory.{Cmd, out_of_fuel, pure, ◌>>=◌, load}

-- `while(s[length] != '\0') length++;`, from a length on.
pub count_to_zero : (fuel s length : ℕ) → Cmd ℕ
count_to_zero zero s length = λ _. out_of_fuel
count_to_zero (suc k) s length = do
  c ← load (s + length)
  if c == 0 then pure length else count_to_zero k s (length + 1)

pub strlen : (fuel s : ℕ) → Cmd ℕ
strlen fuel s = count_to_zero fuel s 0

-- `while(*s != L'\0') { len++; s++; }`
pub wcslen_loop : (fuel s len : ℕ) → Cmd ℕ
wcslen_loop zero s len = λ _. out_of_fuel
wcslen_loop (suc k) s len = do
  c ← load s
  if c == 0 then pure len else wcslen_loop k (s + 1) (len + 1)

pub wcslen : (fuel s : ℕ) → Cmd ℕ
wcslen fuel s = wcslen_loop fuel s 0

-- `while(*s != (char)c) { if(!*s++) return 0; } return s;`
pub find_char : (fuel s c : ℕ) → Cmd (Option ℕ)
find_char zero s c = λ _. out_of_fuel
find_char (suc k) s c = do
  a ← load s
  if a == c then pure (some s) else if a == 0 then pure none else find_char k (s + 1) c

pub strchr : (fuel s c : ℕ) → Cmd (Option ℕ)
strchr fuel s c = find_char fuel s (c % 256)

-- The loops of index and wcschr end at the zero, which is looked at apart: `at_end` says whether it
-- is what is looked for.
pub find_before_end : (fuel s c : ℕ) → (at_end : Bool) → Cmd (Option ℕ)
find_before_end zero s c at_end = λ _. out_of_fuel
find_before_end (suc k) s c at_end = do
  a ← load s
  if a == 0
      then pure (if at_end then some s else none)
      else if a == c
      then pure (some s)
      else find_before_end k (s + 1) c at_end

pub index : (fuel s c : ℕ) → Cmd (Option ℕ)
index fuel s c = find_before_end fuel s (c % 256) (c == 0)

pub wcschr : (fuel s c : ℕ) → Cmd (Option ℕ)
wcschr fuel s c = find_before_end fuel s c (c == 0)

-- `do { if(*s == (char)c) last = s; } while(*s++);`
pub find_last : (fuel s c : ℕ) → (last : Option ℕ) → Cmd (Option ℕ)
find_last zero s c last = λ _. out_of_fuel
find_last (suc k) s c last = do
  a ← load s
  let last = if a == c then some s else last
  if a == 0 then pure last else find_last k (s + 1) c last

pub strrchr : (fuel s c : ℕ) → Cmd (Option ℕ)
strrchr fuel s c = find_last fuel s (c % 256) none

pub rindex : (fuel s c : ℕ) → Cmd (Option ℕ)
rindex fuel s c = find_last fuel s (c % 256) none

pub find_last_before_end : (fuel s c : ℕ) → (last : Option ℕ) → Cmd (Option ℕ)
find_last_before_end zero s c last = λ _. out_of_fuel
find_last_before_end (suc k) s c last = do
  a ← load s
  if a == 0
      then pure (if c == 0 then some s else last)
      else find_last_before_end k (s + 1) c (if a == c then some s else last)

pub wcsrchr : (fuel s c : ℕ) → Cmd (Option ℕ)
wcsrchr fuel s c = find_last_before_end fuel s c none
