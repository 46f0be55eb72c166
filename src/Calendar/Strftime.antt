-- ===== src/Calendar/Strftime.antt =====
-- strftime of src/c/time/strftime.c: a text in a buffer of `maxsize` bytes. The format is the list of its
-- bytes before the terminator.
use small_lib_c.Base.{
  ◌≤◌, arith, ◌≡◌, ℕ, zero, suc, ◌+◌, ◌-◌, Bool, true, false, ◌||◌, Option, List, [], ◌∷◌, ◌++◌,
  ltb, leb, ◌==◌, if◌then◌else◌, length,
}
pub mod Room
pub mod Bounds
mod Samples
use small_lib_c.Calendar.{Tm}
use small_lib_c.Calendar.Zone.{TzDb}
use small_lib_c.Calendar.Directives.{Segment, byte, string, undefined, directive}

-- The bytes written: those that are returned by their number, those that are left where there is no
-- room and 0 is returned; a write behind the buffer; or no defined behaviour of another kind.
pub data Formatted : Type 0 where
  written : List ℕ → Formatted
  no_room : List ℕ → Formatted
  overrun : Formatted
  unknown : Formatted

-- `if(!append_…) return 0;`
abbrev pub unless_full : Formatted → (List ℕ → Formatted) → Formatted
unless_full (written s) rest = rest s
unless_full (no_room s) rest = no_room s
unless_full overrun rest = overrun
unless_full unknown rest = unknown

-- `strchr(format, '%') != NULL`
unfoldable pub has_directive : (format : List ℕ) → Bool
has_directive [] = false
has_directive (c ∷ format) = c == b'%' || has_directive format

module _ (maxsize : ℕ) where
  -- The buffer with the bytes `s` after a write that ends before the byte `behind`.
  unfoldable pub store : (behind : ℕ) → (s : List ℕ) → Formatted
  store behind s = if leb behind maxsize then written s else overrun

  -- append_char and append_str; strcpy writes the terminator too.
  unfoldable pub append : Segment → (s : List ℕ) → Formatted
  append (byte c) s =
      if ltb (length s) maxsize then store (length s + 1) (s ++ c ∷ []) else no_room s
  append (string str) s =
      if ltb (length str) (maxsize - length s)
      then store (length s + length str + 1) (s ++ str)
      else no_room s
  append undefined s = unknown

  -- A write inside the buffer.
  pub store-inside : (behind : ℕ) (s : List ℕ) → behind ≤ maxsize → store behind s ≡ written s
  unfolding store
  store-inside behind s h = ground arith

  unfoldable pub append_all : List Segment → (s : List ℕ) → Formatted
  append_all [] s = written s
  append_all (piece ∷ pieces) s = unless_full (append piece s) (append_all pieces)

  -- The end of the format.
  unfoldable pub terminate : (s : List ℕ) → Formatted
  terminate s = if ltb (length s) maxsize then store (length s + 1) s else no_room s

  module _ (db : Option TzDb) (tm : Tm) where
    -- The loop over the format, behind a `%` or not.
    unfoldable pub format_loop :
        (in_directive : Bool) → (format : List ℕ) → (s : List ℕ) → Formatted
    format_loop false [] s = terminate s
    format_loop true [] s = unless_full (store (length s + 1) (s ++ b'%' ∷ [])) terminate
    format_loop false (c ∷ format) s =
        let behind = format_loop true format s in
        let plain =
          unless_full (store (length s + 1) (s ++ c ∷ [])) (λ s'. format_loop false format s') in
        if ltb (length s + 1) maxsize then (if c == b'%' then behind else plain) else no_room s
    format_loop true (c ∷ format) s =
        let again = format_loop true format s in
        let rest =
          unless_full (append_all (directive db tm c) s) (λ s'. format_loop false format s') in
        if c == b'E' || c == b'O' then again else rest

    unfoldable pub strftime : (format : List ℕ) → Formatted
    strftime format =
        let whole : Formatted =
          if ltb maxsize (length format + 1)
          then no_room []
          else store (length format + 1) format in
        if maxsize == 0
        then no_room []
        else if has_directive format
        then format_loop false format []
        else whole
