-- ===== src/Regex/Placed.antt =====
-- Where the instructions of an expression lie in an automaton of src/c/regex/regexec.c.
use small_lib_c.Base.{ℕ, ◌+◌, ◌*◌, ◌≤◌, ◌≡◌, List, Option, none, some, arith, get_elem?}
use small_lib_c.Regex.Nfa.{Opcode, Inst, inst}
use small_lib_c.Regex.Language.{Expr}

module _ (nfa : List Inst) (lo : ℕ) where
  -- An instruction and the link to it.
  pub record InstAt (link : Option ℕ) (x : Inst) : Type 0 where
    pub at : ℕ
    pub above : lo ≤ at
    pub linked : link ≡ some at
    pub there : get_elem? nfa at ≡ some x

  -- The instructions from `entry` on are those of an expression, before `out`.
  abbrev pub Built : Expr → (entry out : Option ℕ) → Type 0
  Built Expr.empty entry out = entry ≡ out
  Built Expr.any entry out = InstAt entry (inst Opcode.any 0 0 out none)
  Built Expr.bol entry out = InstAt entry (inst Opcode.bol 0 0 out none)
  Built Expr.eol entry out = InstAt entry (inst Opcode.eol 0 0 out none)
  Built (Expr.char c) entry out = InstAt entry (inst Opcode.char c 0 out none)
  Built (Expr.bracket s e) entry out = InstAt entry (inst Opcode.bracket s e out none)
  Built (Expr.concat l r) entry out = (m : Option ℕ) × Built l entry m × Built r m out
  Built (Expr.alt l r) entry out =
      (a : Option ℕ) × (b : Option ℕ) × InstAt entry (inst Opcode.split 0 0 a b)
      × Built l a out
      × Built r b out
  Built (Expr.star l) entry out =
      (body : Option ℕ) × InstAt entry (inst Opcode.split 0 0 body out) × Built l body entry
  Built (Expr.group n l) entry out =
      (a : Option ℕ) × InstAt entry (inst Opcode.save (n * 2) 0 a none) × Built l a out
  Built (Expr.group_end n) entry out = InstAt entry (inst Opcode.save (n * 2 + 1) 0 out none)

-- The same instructions from `lo'` on are in another automaton.
abbrev pub Carries : (lo' : ℕ) → (nfa nfa' : List Inst) → Type 0
Carries lo' nfa nfa' =
    (p : ℕ) (x : Inst) → lo' ≤ p → get_elem? nfa p ≡ some x → get_elem? nfa' p ≡ some x

module _ (lo lo' : ℕ) (nfa nfa' : List Inst) (low : lo ≤ lo') (carries : Carries lo' nfa nfa') where
  InstAt-carried : {link : Option ℕ} {x : Inst} → InstAt nfa lo' link x → InstAt nfa' lo link x
  InstAt-carried a = record {
    at = a.at;
    above = omega (arith, low, a.above);
    linked = a.linked;
    there = carries a.at _ a.above a.there;
  }

  pub Built-carried :
      (r : Expr) (entry out : Option ℕ) → Built nfa lo' r entry out → Built nfa' lo r entry out
  Built-carried Expr.empty entry out b = b
  Built-carried Expr.any entry out b = InstAt-carried b
  Built-carried Expr.bol entry out b = InstAt-carried b
  Built-carried Expr.eol entry out b = InstAt-carried b
  Built-carried (Expr.char c) entry out b = InstAt-carried b
  Built-carried (Expr.bracket s e) entry out b = InstAt-carried b
  Built-carried (Expr.concat l r) entry out (m, bl, br) =
      (m, Built-carried l entry m bl, Built-carried r m out br)
  Built-carried (Expr.alt l r) entry out (a, b, x, bl, br) =
      (a, b, InstAt-carried x, Built-carried l a out bl, Built-carried r b out br)
  Built-carried (Expr.star l) entry out (body, x, bl) =
      (body, InstAt-carried x, Built-carried l body entry bl)
  Built-carried (Expr.group n l) entry out (a, x, bl) =
      (a, InstAt-carried x, Built-carried l a out bl)
  Built-carried (Expr.group_end n) entry out b = InstAt-carried b
