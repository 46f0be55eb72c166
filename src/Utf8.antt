-- ===== src/Utf8.antt =====
-- Multibyte characters: src/c/stdlib/wctomb.c, mbtowc.c and mblen.c. What a call stores through
-- `pwc`, which is not null, is part of its result.
pub mod Encode
pub mod Decode
pub mod Restartable
pub mod Sequences
mod Samples
use small_lib_c.Base.{
  ℕ, zero, suc, ◌+◌, ◌-◌, ◌*◌, ◌/◌, ◌%◌, ◌^◌, bit_and, bit_or, Bool, true, false, Option, none,
  some, ltb, leb, ◌==◌, if◌then◌else◌,
}
use small_lib_c.Base.Int.{ℤ, pos, negsuc}
use small_lib_c.Memory.{Cmd, pure, ◌>>=◌, ◌>>◌, load, store}

-- `(char)mark | ((char)(bits))`
pub marked : (mark bits : ℕ) → ℕ
marked mark bits = bit_or mark (bits % 256)

-- A negative `wchar_t` passes the first test, and its low byte is written.
pub wctomb : (s : ℕ) → ℤ → Cmd ℤ
wctomb s (negsuc n) = if s == 0 then pure (pos 0) else (do store s (255 - n % 256); pure (pos 1))
wctomb s (pos wc) =
    if s == 0
    then pure (pos 0)
    else if ltb wc 0x80
    then (do store s wc; pure (pos 1))
    else if ltb wc 0x800
    then (do
      store s (marked 0xC0 (wc / 2 ^ 6))
      store (s + 1) (marked 0x80 (bit_and wc 0x3F))
      pure (pos 2))
    else if ltb wc 0x10000
    then (do
      store s (marked 0xE0 (wc / 2 ^ 12))
      store (s + 1) (marked 0x80 (bit_and (wc / 2 ^ 6) 0x3F))
      store (s + 2) (marked 0x80 (bit_and wc 0x3F))
      pure (pos 3))
    else if leb wc 0x10FFFF
    then (do
      store s (marked 0xF0 (wc / 2 ^ 18))
      store (s + 1) (marked 0x80 (bit_and (wc / 2 ^ 12) 0x3F))
      store (s + 2) (marked 0x80 (bit_and (wc / 2 ^ 6) 0x3F))
      store (s + 3) (marked 0x80 (bit_and wc 0x3F))
      pure (pos 4))
    else pure (negsuc 0)

-- The loop over the bytes after the first: `none` for a byte that is no continuation.
pub read_tail : (count s res : ℕ) → Cmd (Option ℕ)
read_tail zero s res = pure (some res)
read_tail (suc k) s res = do
  c ← load s
  if bit_and c 0xC0 == 0x80
      then read_tail k (s + 1) (bit_or (res * 2 ^ 6) (bit_and c 0x3F))
      else pure none

-- The length that the first byte announces, and its bits.
pub lead : ℕ → Option (ℕ × ℕ)
lead c =
    if ltb c 0x80
    then some (1, c)
    else if bit_and c 0xE0 == 0xC0
    then some (2, bit_and c 0x1F)
    else if bit_and c 0xF0 == 0xE0
    then some (3, bit_and c 0x0F)
    else if bit_and c 0xF8 == 0xF0
    then some (4, bit_and c 0x07)
    else none

abbrev invalid : ℤ × Option ℕ
invalid = (negsuc 0, none)

pub read_rest : (s n len res : ℕ) → Cmd (ℤ × Option ℕ)
read_rest s n len res = if ltb n len then pure invalid else (do
  r ← read_tail (len - 1) (s + 1) res
  pure (elim r [ none ↦ invalid | some wc ↦ (pos len, some wc) ]))

pub mbtowc : (s n : ℕ) → Cmd (ℤ × Option ℕ)
mbtowc s n = if s == 0 then pure (pos 0, none) else if n == 0 then pure invalid else (do
  c ← load s
  if c == 0
      then pure (pos 0, some 0)
      else elim (lead c) [ none ↦ pure invalid | some (len, res) ↦ read_rest s n len res ])

pub mblen : (s n : ℕ) → Cmd ℤ
mblen s n = do r ← mbtowc s n; pure r.0
