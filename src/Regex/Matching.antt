-- ===== src/Regex/Matching.antt =====
-- regcomp and regexec of src/c/regex together: what a compiled pattern spells, and what it finds.
use small_lib_c.Base.{
  ◌^◌, get-inside, subst, ℕ, zero, suc, ◌+◌, ◌≤◌, ◌<◌, ◌≡◌, ◌≢◌, refl, List, Bool, Option, none,
  some, ◌⊎◌, inl, inr, arith, length, get_elem?,
}
use small_lib_c.Regex.{AstOp, Node}
use small_lib_c.Regex.Bracket.{eval_bracket}
use small_lib_c.Regex.Parse.{Program, Compiled, compiled, regcomp}
use small_lib_c.Regex.Exec.{run, Allocations, regexec}
use small_lib_c.Regex.Search.{Leftmost}
use small_lib_c.Regex.Language.{Expr, NodeAt, Spells, Denotes}
use small_lib_c.Regex.Assemble.{depth, SettledIn}
use small_lib_c.Regex.Correct.{Granted, PoolsFit, run-Leftmost}
use small_lib_c.Regex.Linked.{Below, Below-mono, NodeOk}
use small_lib_c.Regex.WellFormed.{WellFormed, Compiles, done, turned_down, regcomp-WellFormed}

-- A bracket of a pattern is read within the pattern, whatever byte is asked for.
abbrev pub Decided : (pat : List ℕ) → (cflags start end : ℕ) → Type 0
Decided pat cflags start end = (c : ℕ) → (b : Bool) × (eval_bracket pat cflags start end c ≡ some b)

module _ (p : Program) where
  -- A program without back references, whose brackets are read within the pattern.
  pub record Plain : Type 0 where
    pub no_backref : (i : ℕ) (n : Node) → get_elem? p.nodes i ≡ some n → n.op ≢ AstOp.backref
    pub decided :
        (i : ℕ) (n : Node)
        → get_elem? p.nodes i ≡ some n
        → n.op ≡ AstOp.bracket
        → Decided p.text p.cflags n.v1 n.v2

  abbrev rank : Option ℕ → ℕ
  rank none = 0
  rank (some i) = suc i

  Below-rank : (i : ℕ) (link : Option ℕ) → Below i link → rank link ≤ i
  Below-rank i none b = omega arith
  Below-rank i (some j) b = omega arith

  -- The expression from a link on.
  record Spelled (link : Option ℕ) : Type 0 where
    pub expr : Expr
    pub spells : Spells p.nodes link expr
    pub settled : SettledIn p.text p.cflags (p.nsub + 1) expr
    pub shallow : depth expr ≤ rank link

  module _ (ok : WellFormed p) (plain : Plain) (i : ℕ) (n : Node)
      (there : get_elem? p.nodes i ≡ some n) (left : Spelled n.left) (right : Spelled n.right) where
    abbrev this : (op : AstOp) → n.op ≡ op → NodeAt p.nodes (some i) op
    this op e = record { at = i; node = n; linked = refl; there = there; is_op = e }

    links : NodeOk i p.nsub n
    links = ok.linked i n there

    placed : n.op ≡ AstOp.group ⊎ n.op ≡ AstOp.group_end → n.v1 < p.nsub + 1
    placed which = let fits = links.group in ground (arith, fits, which)

    spell_node : (op : AstOp) → n.op ≡ op → Spelled (some i)
    spell_node AstOp.empty e = record {
      expr = Expr.empty;
      spells = inr (this AstOp.empty e);
      settled = tt;
      shallow = omega arith;
    }
    spell_node AstOp.char e = record {
      expr = Expr.char n.v1;
      spells = (this AstOp.char e, refl);
      settled = tt;
      shallow = omega arith;
    }
    spell_node AstOp.any e = record {
      expr = Expr.any;
      spells = this AstOp.any e;
      settled = tt;
      shallow = omega arith;
    }
    spell_node AstOp.bol e = record {
      expr = Expr.bol;
      spells = this AstOp.bol e;
      settled = tt;
      shallow = omega arith;
    }
    spell_node AstOp.eol e = record {
      expr = Expr.eol;
      spells = this AstOp.eol e;
      settled = tt;
      shallow = omega arith;
    }
    spell_node AstOp.bracket e = record {
      expr = Expr.bracket n.v1 n.v2;
      spells = (this AstOp.bracket e, refl, refl);
      settled = plain.decided i n there e;
      shallow = omega arith;
    }
    spell_node AstOp.backref e = absurd (plain.no_backref i n there e)
    spell_node AstOp.concat e = record {
      expr = Expr.concat left.expr right.expr;
      spells = (this AstOp.concat e, left.spells, right.spells);
      settled = (left.settled, right.settled);
      shallow = grind (
        arith,
        left.shallow,
        right.shallow,
        Below-rank i n.left links.left,
        Below-rank i n.right links.right,
      );
    }
    spell_node AstOp.alt e = record {
      expr = Expr.alt left.expr right.expr;
      spells = (this AstOp.alt e, left.spells, right.spells);
      settled = (left.settled, right.settled);
      shallow = grind (
        arith,
        left.shallow,
        right.shallow,
        Below-rank i n.left links.left,
        Below-rank i n.right links.right,
      );
    }
    spell_node AstOp.star e = record {
      expr = Expr.star left.expr;
      spells = (this AstOp.star e, left.spells);
      settled = left.settled;
      shallow = omega (arith, left.shallow, Below-rank i n.left links.left);
    }
    spell_node AstOp.group e = record {
      expr = Expr.group n.v1 left.expr;
      spells = (this AstOp.group e, refl, left.spells);
      settled = (placed (inl e), left.settled);
      shallow = omega (arith, left.shallow, Below-rank i n.left links.left);
    }
    spell_node AstOp.group_end e = record {
      expr = Expr.group_end n.v1;
      spells = (this AstOp.group_end e, refl);
      settled = placed (inr e);
      shallow = omega arith;
    }

  spell :
      (ok : WellFormed p) (plain : Plain) (k : ℕ) (link : Option ℕ)
      → rank link ≤ k
      → Below (length p.nodes) link
      → Spelled link
  spell ok plain k none le below = record {
    expr = Expr.empty;
    spells = inl refl;
    settled = tt;
    shallow = omega arith;
  }
  spell ok plain zero (some i) le below = absurd (omega arith)
  spell ok plain (suc k) (some i) le below =
      let (n, there) = get-inside p.nodes i below in
      let o = ok.linked i n there in
      spell_node ok plain i n there
        (spell ok plain k n.left (omega (arith, le, Below-rank i n.left o.left))
          (Below-mono n.left (omega (arith, below)) o.left))
        (spell ok plain k n.right (omega (arith, le, Below-rank i n.right o.right))
          (Below-mono n.right (omega (arith, below)) o.right))
        n.op refl

compiled_program :
    (pat : List ℕ) (cflags : ℕ) (p : Program) {c : Compiled}
    → c ≡ compiled p
    → Compiles pat cflags c
    → (p.text ≡ pat) × (p.cflags ≡ cflags) × WellFormed p
compiled_program pat cflags p e (done q text flags ok) =
    let same : q ≡ p = cc in
    subst (λ x. (x.text ≡ pat) × (x.cflags ≡ cflags) × WellFormed x) same (text, flags, ok)
compiled_program pat cflags p e (turned_down x f y) = absurd (cc)

-- A program that regcomp returns, without back references and with its brackets read within the
-- pattern, spells an expression; and regexec on a string shows the leftmost stretch that the expression
-- matches there, and the longest of those, or says that it matches none. A bracket stands for the bytes
-- that eval_bracket takes. It needs the memory it asks for, thread lists and pools whose sizes a size_t
-- of 32 bits holds, and a string shorter than 2 ^ 27, for which the int that counts the steps is enough.
pub regexec-Leftmost :
    (grants : ℕ → Bool) (has_room : Bool) (pat : List ℕ) (cflags : ℕ) (p : Program)
    → regcomp grants has_room (some pat) cflags ≡ compiled p
    → Plain p
    → (a : Allocations) → Granted a
    → PoolsFit a p
    → (string : List ℕ) (nmatch eflags : ℕ) → length string < 2 ^ 27
    → (r : Expr) × Spells p.nodes (some p.root) r
      × Leftmost
          (Denotes pat string cflags eflags r)
          (length string)
          cflags
          nmatch
          (regexec a (some p) (some string) nmatch eflags)
unfolding regexec
regexec-Leftmost grants has_room pat cflags p e plain a granted pools string nmatch eflags short =
    let (text, flags, ok) =
      compiled_program pat cflags p e (regcomp-WellFormed pat cflags grants has_room) in
    let s = spell p ok plain (suc p.root) (some p.root) (omega arith) ok.root_there in
    (
      s.expr,
      s.spells,
      subst
          (λ x.
            Leftmost (Denotes x string cflags eflags s.expr) (length string) cflags nmatch
              (run a p string nmatch eflags))
          text
          (subst
            (λ x.
              Leftmost (Denotes p.text string x eflags s.expr) (length string) x nmatch
                (run a p string nmatch eflags))
            flags
            (run-Leftmost a granted p string nmatch eflags s.expr s.spells s.settled
              (omega (arith, s.shallow, ok.root_there)) pools short)),
    )
