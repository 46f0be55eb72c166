-- ===== src/Strings/Span.antt =====
-- Spans: src/c/string/strspn.c, strcspn.c and strpbrk.c, src/c/wchar/wcsspn.c, wcscspn.c and
-- wcspbrk.c. `fuel` is for the set of characters.
pub mod Length
mod Samples
use small_lib_c.Base.{
  ℕ, zero, suc, ◌+◌, ◌-◌, Bool, true, false, not, Option, none, some, ◌==◌, if◌then◌else◌,
}
use small_lib_c.Memory.{Cmd, out_of_fuel, pure, ◌>>=◌, load}

-- Whether the inner loop meets the character before the end of the set.
pub in_set : (fuel set c : ℕ) → Cmd Bool
in_set zero set c = λ _. out_of_fuel
in_set (suc k) set c = do
  a ← load set
  if a == 0 then pure false else if c == a then pure true else in_set k (set + 1) c

-- The outer loop of strspn and wcsspn: on to the first character that is not in the set.
pub span_loop : (k fuel p accept : ℕ) → Cmd ℕ
span_loop zero fuel p accept = λ _. out_of_fuel
span_loop (suc k) fuel p accept = do
  c ← load p
  if c == 0 then pure p else (do
    found ← in_set fuel accept c
    if found then span_loop k fuel (p + 1) accept else pure p)

-- `p - s`
pub strspn : (k fuel s accept : ℕ) → Cmd ℕ
strspn k fuel s accept = do p ← span_loop k fuel s accept; pure (p - s)

-- wcsspn counts.
pub wcsspn_loop : (k fuel s accept count : ℕ) → Cmd ℕ
wcsspn_loop zero fuel s accept count = λ _. out_of_fuel
wcsspn_loop (suc k) fuel s accept count = do
  c ← load s
  if c == 0 then pure count else (do
    found ← in_set fuel accept c
    if not found then pure count else wcsspn_loop k fuel (s + 1) accept (count + 1))

pub wcsspn : (k fuel s accept : ℕ) → Cmd ℕ
wcsspn k fuel s accept = wcsspn_loop k fuel s accept 0

-- The outer loop of strcspn and strpbrk: on to the first character that is in the set, or the end.
pub break_loop : (k fuel p reject : ℕ) → Cmd (ℕ × Bool)
break_loop zero fuel p reject = λ _. out_of_fuel
break_loop (suc k) fuel p reject = do
  c ← load p
  if c == 0 then pure (p, false) else (do
    found ← in_set fuel reject c
    if found then pure (p, true) else break_loop k fuel (p + 1) reject)

pub strcspn : (k fuel s reject : ℕ) → Cmd ℕ
strcspn k fuel s reject = do (p, _) ← break_loop k fuel s reject; pure (p - s)

pub strpbrk : (k fuel s accept : ℕ) → Cmd (Option ℕ)
strpbrk k fuel s accept = do
  (p, found) ← break_loop k fuel s accept
  pure (if found then some p else none)

pub wcspbrk : (k fuel s accept : ℕ) → Cmd (Option ℕ)
wcspbrk k fuel s accept = do
  (p, found) ← break_loop k fuel s accept
  pure (if found then some p else none)

pub wcscspn_loop : (k fuel s reject count : ℕ) → Cmd ℕ
wcscspn_loop zero fuel s reject count = λ _. out_of_fuel
wcscspn_loop (suc k) fuel s reject count = do
  c ← load s
  if c == 0 then pure count else (do
    found ← in_set fuel reject c
    if found then pure count else wcscspn_loop k fuel (s + 1) reject (count + 1))

pub wcscspn : (k fuel s reject : ℕ) → Cmd ℕ
wcscspn k fuel s reject = wcscspn_loop k fuel s reject 0
