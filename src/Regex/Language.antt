-- ===== src/Regex/Language.antt =====
-- What a pattern means: the trees that the nodes of src/c/regex/regcomp.c spell, and the stretches of
-- a subject that a tree matches.
use small_lib_c.Base.{
  ℕ, suc, ◌-◌, ◌<◌, ◌≡◌, ◌≢◌, List, true, false, Option, none, some, ◌⊎◌, length, get_elem?, ◌≢◌,
}
use small_lib_c.Regex.{AstOp, Node, char_at, has_flag, reg_newline, reg_notbol, reg_noteol}
use small_lib_c.Regex.Bracket.{fold, eval_bracket}

-- A pattern without back references.
pub data Expr : Type 0 where
  empty any bol eol : Expr
  char : ℕ → Expr
  bracket : (start end : ℕ) → Expr
  concat alt : Expr → Expr → Expr
  star : Expr → Expr
  group : ℕ → Expr → Expr
  group_end : ℕ → Expr

module _ (nodes : List Node) where
  -- The node at a place.
  pub record NodeAt (link : Option ℕ) (op : AstOp) : Type 0 where
    pub at : ℕ
    pub node : Node
    pub linked : link ≡ some at
    pub there : get_elem? nodes at ≡ some node
    pub is_op : node.op ≡ op

  -- The nodes from `link` on spell an expression.
  abbrev pub Spells : Option ℕ → Expr → Type 0
  Spells link Expr.empty = (link ≡ none) ⊎ NodeAt link AstOp.empty
  Spells link Expr.any = NodeAt link AstOp.any
  Spells link Expr.bol = NodeAt link AstOp.bol
  Spells link Expr.eol = NodeAt link AstOp.eol
  Spells link (Expr.char c) = (n : NodeAt link AstOp.char) × (n.node.v1 ≡ c)
  Spells link (Expr.bracket s e) =
      (n : NodeAt link AstOp.bracket) × (n.node.v1 ≡ s) × (n.node.v2 ≡ e)
  Spells link (Expr.concat l r) =
      (n : NodeAt link AstOp.concat) × Spells n.node.left l × Spells n.node.right r
  Spells link (Expr.alt l r) =
      (n : NodeAt link AstOp.alt) × Spells n.node.left l × Spells n.node.right r
  Spells link (Expr.star l) = (n : NodeAt link AstOp.star) × Spells n.node.left l
  Spells link (Expr.group k l) =
      (n : NodeAt link AstOp.group) × (n.node.v1 ≡ k) × Spells n.node.left l
  Spells link (Expr.group_end k) = (n : NodeAt link AstOp.group_end) × (n.node.v1 ≡ k)

-- Any number of stretches in a row.
pub data Many (P : ℕ → ℕ → Type 0) : ℕ → ℕ → Type 0 where
  finished : {i j : ℕ} → i ≡ j → Many P i j
  further : {i j k : ℕ} → P i k → Many P k j → Many P i j

module _ (pat str : List ℕ) (cflags eflags : ℕ) where
  -- A byte of the subject that satisfies a condition.
  pub record Byte (P : ℕ → Type 0) (i j : ℕ) : Type 0 where
    pub inside : i < length str
    pub ends : j ≡ suc i
    pub fits : P (char_at str i)

  abbrev pub AfterNewline : ℕ → Type 0
  AfterNewline i = (has_flag cflags reg_newline ≡ true) × (0 < i) × (char_at str (i - 1) ≡ 10)

  abbrev pub BeforeNewline : ℕ → Type 0
  BeforeNewline i = (has_flag cflags reg_newline ≡ true) × (i < length str) × (char_at str i ≡ 10)

  abbrev pub LineStart : ℕ → Type 0
  LineStart i = (i ≡ 0) × (has_flag eflags reg_notbol ≡ false) ⊎ AfterNewline i

  abbrev pub LineEnd : ℕ → Type 0
  LineEnd i = (i ≡ length str) × (has_flag eflags reg_noteol ≡ false) ⊎ BeforeNewline i

  -- An expression matches the bytes from i to j.
  abbrev pub Denotes : Expr → ℕ → ℕ → Type 0
  Denotes Expr.empty i j = i ≡ j
  Denotes Expr.any i j = Byte (λ c. (has_flag cflags reg_newline ≡ false) ⊎ (c ≢ 10)) i j
  Denotes Expr.bol i j = (i ≡ j) × LineStart i
  Denotes Expr.eol i j = (i ≡ j) × LineEnd i
  Denotes (Expr.char x) i j = Byte (λ c. fold cflags c ≡ fold cflags x) i j
  Denotes (Expr.bracket s e) i j = Byte (λ c. eval_bracket pat cflags s e c ≡ some true) i j
  Denotes (Expr.concat l r) i j = (k : ℕ) × Denotes l i k × Denotes r k j
  Denotes (Expr.alt l r) i j = Denotes l i j ⊎ Denotes r i j
  Denotes (Expr.star l) i j = Many (Denotes l) i j
  Denotes (Expr.group n l) i j = Denotes l i j
  Denotes (Expr.group_end n) i j = i ≡ j
