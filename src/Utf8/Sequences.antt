-- ===== src/Utf8/Sequences.antt =====
-- src/c/wchar/mbsrtowcs.c and wcsrtombs.c. A wide string is the list of its codes, a string that of its
-- bytes, each before the terminator, and the state is the list of the bytes that are kept.
pub mod Back
pub mod Cut
mod Samples
use small_lib_c.Base.{
  ℕ, zero, suc, ◌+◌, ◌-◌, Bool, true, false, Option, none, some, List, [], ◌∷◌, ◌++◌, ltb, ◌==◌,
  if◌then◌else◌, length, take, drop,
}
use small_lib_c.Utf8.Restartable.{Reading, decoded, incomplete, invalid, reset, mbrtowc, wcrtomb}

-- What is written, with its terminator behind it, and `*src` is null; what is written, and what is left at
-- `*src`; -1 with errno set; or the end of the fuel. With a null `dst`, `*src` stays as it was.
pub data Converted : Type 0 where
  ended : (out : List ℕ) → Converted
  stopped : (out rest : List ℕ) → Converted
  failed : Converted
  unfinished : Converted

abbrev pub written_first : List ℕ → Converted → Converted
written_first out (ended more) = ended (out ++ more)
written_first out (stopped more rest) = stopped (out ++ more) rest
written_first out failed = failed
written_first out unfinished = unfinished

-- The places that are left at `dst`, or none for a null pointer, which takes any number.
abbrev pub lacks_room : (room : Option ℕ) → (needed : ℕ) → Bool
lacks_room none needed = false
lacks_room (some n) needed = ltb n needed

abbrev pub is_full : (room : Option ℕ) → (used : ℕ) → Bool
is_full none used = false
is_full (some n) used = n == used

abbrev pub less_room : (room : Option ℕ) → (used : ℕ) → Option ℕ
less_room none used = none
less_room (some n) used = some (n - used)

-- The loop, with the bytes from `s` on, the terminator included.
unfoldable pub mbsrtowcs_loop :
    (fuel : ℕ) (kept : List ℕ) (room : Option ℕ) (s : List ℕ) → Converted
mbsrtowcs_loop zero kept room s = unfinished
mbsrtowcs_loop (suc k) kept room s =
    let next : Converted = elim (mbrtowc kept (some (take 4 s))) [
      | decoded zero consumed ↦ ended []
      | decoded (suc wc) consumed ↦
          written_first (suc wc ∷ []) (mbsrtowcs_loop k [] (less_room room 1) (drop consumed s))
      | incomplete kept' ↦ failed
      | invalid ↦ failed
      | reset ↦ ended []
    ] in
    if lacks_room room 1 then stopped [] s else next

unfoldable pub mbsrtowcs : (kept : List ℕ) (room : Option ℕ) (s : List ℕ) → Converted
mbsrtowcs kept room s = mbsrtowcs_loop (length s + 2) kept room (s ++ 0 ∷ [])

-- The bytes of a code, and where there is room for more the rest.
abbrev pub put_code : (room : Option ℕ) (left : List ℕ) → List ℕ → (wc : ℕ) → Converted → Converted
put_code room ws bytes wc rest =
    if lacks_room room (length bytes)
    then stopped [] (wc ∷ ws)
    else if is_full room (length bytes)
    then stopped bytes ws
    else written_first bytes rest

unfoldable pub wcsrtombs : (room : Option ℕ) (ws : List ℕ) → Converted
wcsrtombs room [] = if lacks_room room 1 then stopped [] [] else ended []
wcsrtombs room (wc ∷ ws) = elim (wcrtomb wc) [
  | none ↦ failed
  | some bytes ↦ put_code room ws bytes wc (wcsrtombs (less_room room (length bytes)) ws)
]
