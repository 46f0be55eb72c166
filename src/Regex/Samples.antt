-- ===== src/Regex/Samples.antt =====
-- Runs of the compiler and of the matcher of src/c/regex, and the theorems at concrete inputs.
use small_lib_c.Base.{
  subst, arith, ℕ, zero, suc, ◌≡◌, ◌≢◌, refl, [], ◌∷◌, Bool, true, some, none, get_elem?,
}
use small_lib_c.Base.Text.{codes}
use small_lib_c.Regex.{AstOp, Node, undefined}
use small_lib_c.Regex.Parse.{Program, Compiled, compiled, refused}
use small_lib_c.Regex.Exec.{Answer, found, failure, Allocations}
use small_lib_c.Regex.Search.{Leftmost}
use small_lib_c.Regex.Language.{Expr, Spells, Denotes}
use small_lib_c.Regex.Returned.{Returned, regcomp-Returned}
use small_lib_c.Regex.Correct.{PoolsFit}
use small_lib_c.Regex.Matching.{Plain, regexec-Leftmost}
use small_lib_c.Regex.Compile.{reserve, emit, join, finish}
use small_lib_c.Regex.Parse.{
  open_group, close_group, bre_group, parse_bre_escape, parse_bre_atom, parse_bre_piece,
  compile_bre, check_end, store_program, regcomp,
}
use small_lib_c.Regex.Parse.Brackets.{
  class_end, class_item, bracket_item, bracket_loop, parse_bracket,
}
use small_lib_c.Regex.Bracket.{fold, find_close, in_range, eval_items, eval_bracket}
use small_lib_c.Regex.Nfa.{
  patch, new_inst, build_concat, build_alt, build_star, build_group, build_node, build_nfa,
}
use small_lib_c.Regex.Exec.{
  spans, push_thread, record_match, at_bol, at_eol, add_save, dispatch, enter, visit, add_thread,
  takes, step_plain, step_thread, step_threads, scan, first_round, search_at, report, search,
  automaton, run, regexec,
}
use Prim.Native.String.{String}

abbrev plenty : Allocations
plenty = record { grants = λ _. true; has_marks = true; has_lists = true }

abbrev program_of : Compiled → Program
program_of (compiled p) = p
program_of (refused e) = record { nodes = []; root = 0; text = []; nsub = 0; cflags = 0 }

abbrev match_text : (pattern subject : String) (cflags : ℕ) → Answer
match_text pattern subject cflags = elim (regcomp (λ _. true) true (some (codes pattern)) cflags) [
  | compiled p ↦ regexec plenty (some p) (some (codes subject)) 3 0
  | refused e ↦ failure e
]

-- The program of "a[b-d]*".
abbrev sample : Program
sample = record {
  nodes =
      record { op = AstOp.char; v1 = 97; v2 = 0; left = none; right = none }
      ∷ record { op = AstOp.bracket; v1 = 1; v2 = 5; left = none; right = none }
      ∷ record { op = AstOp.star; v1 = 0; v2 = 0; left = some 1; right = none }
      ∷ record { op = AstOp.concat; v1 = 0; v2 = 0; left = some 0; right = some 2 }
      ∷ [];
  root = 3;
  text = codes "a[b-d]*";
  nsub = 0;
  cflags = 0;
}

sample_compiled : regcomp (λ _. true) true (some (codes "a[b-d]*")) 0 ≡ compiled sample
unfolding reserve emit join finish class_end class_item bracket_item bracket_loop parse_bracket
    open_group close_group bre_group parse_bre_escape parse_bre_atom parse_bre_piece compile_bre
    check_end store_program regcomp
sample_compiled = refl

sample_found :
    regexec plenty (some sample) (some (codes "xacdx")) 1 0 ≡ found (some ((some 1, some 4) ∷ []))
unfolding fold find_close in_range eval_items eval_bracket patch new_inst build_concat build_alt
    build_star build_group build_node build_nfa spans push_thread record_match at_bol at_eol
    add_save dispatch enter visit add_thread takes step_plain step_thread step_threads scan
    first_round search_at report search automaton run regexec
sample_found = refl

-- A bracket that regcomp takes and regexec reads past the end of.
abbrev stray : Compiled
stray = regcomp (λ _. true) true (some (codes "[]--[:]")) 0

stray_undefined : match_text "[]--[:]" "x" 0 ≡ failure undefined
unfolding reserve emit join finish class_end class_item bracket_item bracket_loop parse_bracket
    open_group close_group bre_group parse_bre_escape parse_bre_atom parse_bre_piece compile_bre
    check_end store_program regcomp fold find_close in_range eval_items eval_bracket patch new_inst
    build_concat build_alt build_star build_group build_node build_nfa spans push_thread
    record_match at_bol at_eol add_save dispatch enter visit add_thread takes step_plain step_thread
    step_threads scan first_round search_at report search automaton run regexec
stray_undefined = refl

sample_Plain : Plain sample
unfolding fold find_close in_range eval_items eval_bracket
sample_Plain = record {
  no_backref = λ i n e. no_backref i n e;
  decided = λ i n e b. decided i n e b;
}
  where
    no_backref : (i : ℕ) (n : Node) → get_elem? sample.nodes i ≡ some n → n.op ≢ AstOp.backref
    no_backref zero n e = ground (arith, e)
    no_backref (suc zero) n e = ground (arith, e)
    no_backref (suc (suc zero)) n e = ground (arith, e)
    no_backref (suc (suc (suc zero))) n e = ground (arith, e)
    no_backref (suc (suc (suc (suc i)))) n e = absurd (ground (arith, e))

    decided :
        (i : ℕ) (n : Node)
        → get_elem? sample.nodes i ≡ some n
        → n.op ≡ AstOp.bracket
        → (c : ℕ) → (b : Bool) × (eval_bracket sample.text 0 n.v1 n.v2 c ≡ some b)
    decided zero n e b c = absurd (ground (arith, e, b))
    decided (suc zero) n e b c =
        let same : record { op = AstOp.bracket; v1 = 1; v2 = 5; left = none; right = none } ≡ n =
          ground (arith, e) in
        subst (λ x. (b : Bool) × (eval_bracket sample.text 0 x.v1 x.v2 c ≡ some b)) same (_, refl)
    decided (suc (suc zero)) n e b c = absurd (ground (arith, e, b))
    decided (suc (suc (suc zero))) n e b c = absurd (ground (arith, e, b))
    decided (suc (suc (suc (suc i)))) n e b c = absurd (ground (arith, e))

regcomp-Returned_example :
    Returned (λ _. true) true (codes "ab") 0 (regcomp (λ _. true) true (some (codes "ab")) 0)
regcomp-Returned_example = regcomp-Returned (λ _. true) true (codes "ab") 0

sample_pools : PoolsFit plenty sample
unfolding patch new_inst build_concat build_alt build_star build_group build_node build_nfa
    automaton
sample_pools = (omega arith, omega arith)

regexec-Leftmost_example :
    (r : Expr) × Spells sample.nodes (some 3) r
    × Leftmost
        (Denotes (codes "a[b-d]*") (codes "xacdx") 0 0 r)
        5
        0
        1
        (regexec plenty (some sample) (some (codes "xacdx")) 1 0)
regexec-Leftmost_example =
    regexec-Leftmost (λ _. true) true (codes "a[b-d]*") 0 sample sample_compiled sample_Plain plenty
      (record { nodes = λ n. refl; marks = refl; lists = refl }) sample_pools (codes "xacdx") 1 0
      (omega arith)
