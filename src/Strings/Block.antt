-- ===== src/Strings/Block.antt =====
-- The functions on blocks of n bytes: src/c/string/memcpy.c, memmove.c, memset.c, memchr.c,
-- src/c/strings/bcopy.c, bzero.c and src/c/memory/memccpy.c. Each loop recurs on the count that the code counts down.
pub mod Move
pub mod Search
mod Samples
use small_lib_c.Base.{
  ℕ, zero, suc, ◌+◌, ◌-◌, ◌%◌, Bool, true, false, Option, none, some, ltb, ◌==◌, if◌then◌else◌,
}
use small_lib_c.Base.Int.{ℤ, sub_ℕ, pos}
use small_lib_c.Memory.{Cmd, pure, ◌>>=◌, ◌>>◌, load, store}

-- `while(n--) *d++ = *s++;`
pub copy_up : (n d s : ℕ) → Cmd (Unit {0})
copy_up zero d s = pure tt
copy_up (suc n) d s = do c ← load s; store d c; copy_up n (d + 1) (s + 1)

-- `while(n--) *--d = *--s;`
pub copy_down : (n d s : ℕ) → Cmd (Unit {0})
copy_down zero d s = pure tt
copy_down (suc n) d s = do c ← load (s - 1); store (d - 1) c; copy_down n (d - 1) (s - 1)

unfoldable pub memcpy : (dest src n : ℕ) → Cmd ℕ
unfolding copy_up
memcpy dest src n = do copy_up n dest src; pure dest

unfoldable pub memmove : (dest src count : ℕ) → Cmd ℕ
unfolding copy_up copy_down
memmove dest src count =
    if dest == src
    then pure dest
    else if ltb dest src
    then (do copy_up count dest src; pure dest)
    else (do copy_down count (dest + count) (src + count); pure dest)

-- `while(n--) *lastd-- = *lasts--;`
copy_last : (n d s : ℕ) → Cmd (Unit {0})
copy_last zero d s = pure tt
copy_last (suc n) d s = do c ← load s; store d c; copy_last n (d - 1) (s - 1)

-- For n = 0 the code's `s + (n - 1)` is not used.
unfoldable pub bcopy : (src dest n : ℕ) → Cmd (Unit {0})
unfolding copy_up copy_last
bcopy src dest n =
    if ltb dest src then copy_up n dest src else copy_last n (dest + (n - 1)) (src + (n - 1))

pub fill : (n p c : ℕ) → Cmd (Unit {0})
fill zero p c = pure tt
fill (suc n) p c = do store p c; fill n (p + 1) c

unfoldable pub memset : (s c n : ℕ) → Cmd ℕ
unfolding fill
memset s c n = do fill n s (c % 256); pure s

unfoldable pub bzero : (s n : ℕ) → Cmd (Unit {0})
unfolding fill
bzero s n = fill n s 0

-- A null pointer is `none`.
pub find_byte : (n p c : ℕ) → Cmd (Option ℕ)
find_byte zero p c = pure none
find_byte (suc n) p c = do b ← load p; if b == c then pure (some p) else find_byte n (p + 1) c

unfoldable pub memchr : (s c n : ℕ) → Cmd (Option ℕ)
unfolding find_byte
memchr s c n = find_byte n s (c % 256)

-- `for(i = 0; i < n; i++) { d[i] = s[i]; if(d[i] == ch) return d + i + 1; }`
pub copy_until : (n d s ch : ℕ) → Cmd (Option ℕ)
copy_until zero d s ch = pure none
copy_until (suc n) d s ch = do
  c ← load s
  store d c
  b ← load d
  if b == ch then pure (some (d + 1)) else copy_until n (d + 1) (s + 1) ch

unfoldable pub memccpy : (dest src c n : ℕ) → Cmd (Option ℕ)
unfolding copy_until
memccpy dest src c n = copy_until n dest src (c % 256)
