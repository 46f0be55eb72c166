-- ===== src/Regex.antt =====
-- Regular expressions: src/c/regex/regex_internal.h and the constants of include/regex.h. A pattern
-- and a subject are lists of their bytes, without the zero that ends them. An `int` index in which
-- -1 stands for nothing is an Option.
pub mod Compile
pub mod Parse
pub mod Bracket
pub mod Nfa
pub mod Exec
pub mod Marks
pub mod Graph
pub mod Closure
pub mod Steps
pub mod Scan
pub mod Search
pub mod Language
pub mod Walk
pub mod Placed
pub mod Assemble
pub mod Correct
pub mod Linked
pub mod Literal
pub mod WellFormed
pub mod Returned
pub mod Matching
mod Samples
pub mod Built
use small_lib_c.Base.{ℕ, zero, suc, Bool, true, false, not, Option, List, [], ◌∷◌, bit_and, ◌==◌}

pub data Error : Type 0 where
  nomatch badpat ecollate ectype eescape esubreg ebrack eparen ebrace badbr erange espace badrpt :
      Error

-- What `err` holds. `undefined` stands for what C leaves undefined, a read through null or outside
-- an array or a signed overflow, and `out_of_fuel` is no behaviour of the code.
pub data Status : Type 0 where
  no_error : Status
  error : Error → Status
  undefined : Status
  out_of_fuel : Status

abbrev pub failed : Status → Bool
failed no_error = false
failed (error e) = true
failed undefined = true
failed out_of_fuel = true

pub data AstOp : Type 0 where
  empty char any bol eol bracket backref concat alt star group group_end : AstOp

pub record Node : Type 0 where
  pub op : AstOp
  pub v1 : ℕ
  pub v2 : ℕ
  pub left : Option ℕ
  pub right : Option ℕ

-- `REG_EXTENDED`, `REG_ICASE`, `REG_NOSUB`, `REG_NEWLINE`; `REG_NOTBOL`, `REG_NOTEOL`.
abbrev pub reg_extended : ℕ
reg_extended = 1

abbrev pub reg_icase : ℕ
reg_icase = 2

abbrev pub reg_nosub : ℕ
reg_nosub = 4

abbrev pub reg_newline : ℕ
reg_newline = 8

abbrev pub reg_notbol : ℕ
reg_notbol = 1

abbrev pub reg_noteol : ℕ
reg_noteol = 2

abbrev pub has_flag : ℕ → ℕ → Bool
has_flag flags bit = not (bit_and flags bit == 0)

-- `s[i]`, with the zero behind the last byte.
abbrev pub char_at : List ℕ → ℕ → ℕ
char_at [] i = 0
char_at (c ∷ s) zero = c
char_at (c ∷ s) (suc i) = char_at s i
