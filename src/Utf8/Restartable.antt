-- ===== src/Utf8/Restartable.antt =====
-- src/c/wchar/mbrtowc.c and wcrtomb.c. The n bytes at `s` are a list; the state is the list of the bytes
-- that a call before has kept, `__count` of them.
pub mod State
pub mod Split
pub mod Codes
pub mod RoundTrip
pub mod Forms
pub mod Canonical
mod Samples
use small_lib_c.Base.{
  ℕ, zero, suc, ◌+◌, ◌-◌, ◌*◌, ◌/◌, ◌^◌, bit_and, bit_or, Bool, true, false, not, ◌&&◌, ◌||◌,
  Option, none, some, List, [], ◌∷◌, ◌++◌, ltb, leb, ◌==◌, if◌then◌else◌, length,
}

-- What a call does: a code and the bytes that it has read, of which it returns the number, or 0 for the code
-- 0; -2 with the bytes that it keeps; -1 with errno set and no byte kept; 0 for a null string.
pub data Reading : Type 0 where
  decoded : (wc consumed : ℕ) → Reading
  incomplete : (kept : List ℕ) → Reading
  invalid : Reading
  reset : Reading

-- The length that a first byte announces.
unfoldable pub expected : (first : ℕ) → Option ℕ
expected first =
    if ltb first 0xE0
    then some 2
    else if ltb first 0xF0
    then some 3
    else if ltb first 0xF5
    then some 4
    else none

-- The loop over the bytes that are missing.
pub data Filled : Type 0 where
  complete : (bytes : List ℕ) (consumed : ℕ) → Filled
  short : (kept : List ℕ) → Filled
  broken : Filled

unfoldable pub fill_bytes : (missing : ℕ) (kept s : List ℕ) (consumed : ℕ) → Filled
fill_bytes zero kept s consumed = complete kept consumed
fill_bytes (suc k) kept [] consumed = short kept
fill_bytes (suc k) kept (b ∷ s) consumed =
    let rest = fill_bytes k (kept ++ b ∷ []) s (consumed + 1) in
    if bit_and b 0xC0 == 0x80 then rest else broken

unfoldable pub code_of : List ℕ → ℕ
code_of (a ∷ b ∷ []) = bit_or (bit_and a 0x1F * 2 ^ 6) (bit_and b 0x3F)
code_of (a ∷ b ∷ c ∷ []) =
    bit_or (bit_or (bit_and a 0x0F * 2 ^ 12) (bit_and b 0x3F * 2 ^ 6)) (bit_and c 0x3F)
code_of (a ∷ b ∷ c ∷ d ∷ []) =
    bit_or
      (bit_or (bit_or (bit_and a 0x07 * 2 ^ 18) (bit_and b 0x3F * 2 ^ 12)) (bit_and c 0x3F * 2 ^ 6))
      (bit_and d 0x3F)
code_of p = 0

-- The tests of the code.
unfoldable pub is_code : (expect res : ℕ) → Bool
is_code expect res =
    not (ltb 0x10FFFF res || leb 0xD800 res && leb res 0xDFFF)
    && not (expect == 3 && ltb res 0x800)
    && not (expect == 4 && ltb res 0x10000)

abbrev pub finish_code : (expect : ℕ) → Filled → Reading
finish_code expect (complete bytes consumed) =
    if is_code expect (code_of bytes) then decoded (code_of bytes) consumed else invalid
finish_code expect (short kept) = incomplete kept
finish_code expect broken = invalid

-- The bytes behind the first.
unfoldable pub read_on : (first : ℕ) (kept s : List ℕ) (consumed : ℕ) → Reading
read_on first kept s consumed = elim (expected first) [
  | none ↦ invalid
  | some expect ↦ finish_code expect (fill_bytes (expect - length kept) kept s consumed)
]

unfoldable pub mbrtowc : (kept : List ℕ) → Option (List ℕ) → Reading
mbrtowc kept none = reset
mbrtowc kept (some []) = incomplete kept
mbrtowc [] (some (b ∷ s)) =
    if ltb b 0x80 then decoded b 1 else if ltb b 0xC2 then invalid else read_on b (b ∷ []) s 1
mbrtowc (first ∷ kept) (some (b ∷ s)) = read_on first (first ∷ kept) (b ∷ s) 0

-- The bytes that a code is written as, where it is one: `val` is the code as an uint32_t.
unfoldable pub wcrtomb : (val : ℕ) → Option (List ℕ)
wcrtomb val =
    if ltb val 0x80
    then some (val ∷ [])
    else if ltb val 0x800
    then some (bit_or 0xC0 (val / 2 ^ 6) ∷ bit_or 0x80 (bit_and val 0x3F) ∷ [])
    else if ltb val 0x10000
    then (if leb 0xD800 val && leb val 0xDFFF
        then none
        else some (
            bit_or 0xE0 (val / 2 ^ 12)
            ∷ bit_or 0x80 (bit_and (val / 2 ^ 6) 0x3F)
            ∷ bit_or 0x80 (bit_and val 0x3F)
            ∷ []))
    else if leb val 0x10FFFF
    then some (
        bit_or 0xF0 (val / 2 ^ 18)
        ∷ bit_or 0x80 (bit_and (val / 2 ^ 12) 0x3F)
        ∷ bit_or 0x80 (bit_and (val / 2 ^ 6) 0x3F)
        ∷ bit_or 0x80 (bit_and val 0x3F)
        ∷ [])
    else none
