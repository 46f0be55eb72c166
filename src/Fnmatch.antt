-- ===== src/Fnmatch.antt =====
-- src/c/fnmatch/fnmatch.c: a glob pattern against a string. A string is the list of its bytes before
-- the terminator, and a pointer into it what is left from there on.
pub mod Bracket
pub mod Match
pub mod Meaning
mod Shorter
mod Items
pub mod Decides
pub mod Sets
pub mod Glob
mod Samples
use small_lib_c.Base.{
  ℕ, zero, suc, ◌-◌, Bool, true, false, not, ◌&&◌, ◌||◌, Option, none, some, List, [], ◌∷◌, ltb,
  leb, ◌==◌, if◌then◌else◌, drop, xor,
}
use small_lib_c.Base.{bit_and}

-- `FNM_NOMATCH`, `FNM_NOESCAPE`, `FNM_PATHNAME`, `FNM_PERIOD`.
abbrev pub fnm_nomatch : ℕ
fnm_nomatch = 1

abbrev pub fnm_noescape : ℕ
fnm_noescape = 1

abbrev pub fnm_pathname : ℕ
fnm_pathname = 2

abbrev pub fnm_period : ℕ
fnm_period = 4

abbrev pub flag : (flags bit : ℕ) → Bool
flag flags bit = not (bit_and flags bit == 0)

-- The byte at a pointer, the terminator included.
abbrev pub head : List ℕ → ℕ
head [] = 0
head (c ∷ s) = c
