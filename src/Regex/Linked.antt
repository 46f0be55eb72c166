-- ===== src/Regex/Linked.antt =====
-- The nodes that src/c/regex/regcomp.c emits: each links to earlier ones.
pub mod Copy
pub mod Bounds
pub mod Bracket
pub mod Braces
pub mod Groups
pub mod Atoms
pub mod Loops
pub mod Extended
use small_lib_c.Base.{
  get-append, ℕ, zero, suc, ◌+◌, ◌*◌, ◌≤◌, ◌<◌, ◌≡◌, ◌≢◌, refl, sym, ◌∙◌, ap, subst, List, [], ◌∷◌,
  ◌++◌, Bool, true, false, Option, none, some, ◌⊎◌, inl, inr, arith, length, length-append,
  get_elem?, ltb, leb, ◌==◌, ==_iff, Bool-cases, if◌then◌else◌,
}
use small_lib_c.Regex.{AstOp, Node, Status, no_error, error, undefined, out_of_fuel, failed, espace}
use small_lib_c.Regex.Compile.{Ctx, reserve, emit, copy_children, copy_ast, copy_whole, stop}

-- A link to a node before place i.
abbrev pub Below : ℕ → Option ℕ → Type 0
Below i none = Unit {0}
Below i (some j) = j < i

-- The group that a node names.
abbrev pub group_of : Node → ℕ
group_of n = elim n.op [
  | AstOp.backref ↦ n.v1
  | AstOp.group ↦ n.v1
  | AstOp.group_end ↦ n.v1
  | _ ↦ 0
]

-- The node at place i of a pattern with g groups.
pub record NodeOk (i g : ℕ) (n : Node) : Type 0 where
  pub left : Below i n.left
  pub right : Below i n.right
  pub group : group_of n ≤ g

abbrev pub Linked : ℕ → List Node → Type 0
Linked g prog = (i : ℕ) (n : Node) → get_elem? prog i ≡ some n → NodeOk i g n

pub Below-mono : {i k : ℕ} (link : Option ℕ) → i ≤ k → Below i link → Below k link
Below-mono none le h = tt
Below-mono (some j) le h = omega arith

pub Linked-mono : {g h : ℕ} (prog : List Node) → g ≤ h → Linked g prog → Linked h prog
Linked-mono prog le l i n e =
    let o = l i n e in record { left = o.left; right = o.right; group = omega (arith, o.group, le) }

node-append_inv :
    (xs : List Node) (y : Node) (i : ℕ) {n : Node}
    → get_elem? (xs ++ y ∷ []) i ≡ some n
    → (get_elem? xs i ≡ some n) ⊎ (i ≡ length xs) × (y ≡ n)
node-append_inv [] y zero e = inr (refl, ground (arith, e))
node-append_inv [] y (suc i) e = absurd (ground (arith, e))
node-append_inv (x ∷ xs) y zero e = inl e
node-append_inv (x ∷ xs) y (suc i) e = elim (node-append_inv xs y i e) [
  | inl old ↦ inl old
  | inr (here, same) ↦ inr (omega (arith, here), same)
]

module _ (limit : ℕ) where
  -- A context without an error, at a position up to `limit`.
  pub record Good (c : Ctx) : Type 0 where
    pub fine : c.err ≡ no_error
    pub inside : c.pos ≤ limit
    pub linked : Linked c.group_id c.prog

  -- What a step from c to d keeps, d being at position `lo` or behind.
  pub record Grown (lo : ℕ) (c d : Ctx) : Type 0 where
    pub good : Good d
    pub behind : lo ≤ d.pos
    pub keeps : (i : ℕ) (n : Node) → get_elem? c.prog i ≡ some n → get_elem? d.prog i ≡ some n
    pub longer : length c.prog ≤ length d.prog
    pub groups : c.group_id ≤ d.group_id
    pub stack : d.group_stack ≡ c.group_stack

  -- An error of the code, or what it does not define: the fuel has not run out.
  pub record Failed (d : Ctx) : Type 0 where
    pub fails : failed d.err ≡ true
    pub fuelled : d.err ≢ out_of_fuel

  -- With the node that d returns.
  pub record Returns (lo : ℕ) (c d : Ctx) : Type 0 where
    pub grown : Grown lo c d
    pub returned : d.ret < length d.prog

  abbrev pub Outcome : ℕ → Ctx → Ctx → Type 0
  Outcome lo c d = Failed d ⊎ Returns lo c d

  pub Grown-trans : {lo hi : ℕ} {c d e : Ctx} → Grown lo c d → Grown hi d e → Grown hi c e
  Grown-trans g h = record {
    good = h.good;
    behind = h.behind;
    keeps = λ i n at. h.keeps i n (g.keeps i n at);
    longer = omega (arith, g.longer, h.longer);
    groups = omega (arith, g.groups, h.groups);
    stack = h.stack ∙ g.stack;
  }

  module _ (grants : ℕ → Bool) where
    pub emit-failed :
        (c : Ctx) (op : AstOp) (v1 v2 : ℕ) (left right : Option ℕ)
        → failed c.err ≡ true
        → emit grants c op v1 v2 left right ≡ c
    unfolding emit
    emit-failed c op v1 v2 left right e = rw e refl

    -- A node that is emitted, at an unchanged position.
    pub record Emitted (c d : Ctx) : Type 0 where
      pub result : Returns c.pos c d
      pub same_pos : d.pos ≡ c.pos
      pub same_id : d.group_id ≡ c.group_id

    pub emit_lem :
        (c : Ctx) (op : AstOp) (v1 v2 : ℕ) (left right : Option ℕ)
        → Good c
        → NodeOk
            (length c.prog)
            c.group_id
            (record { op = op; v1 = v1; v2 = v2; left = left; right = right })
        → Failed (emit grants c op v1 v2 left right) ⊎ Emitted c (emit grants c op v1 v2 left right)
    unfolding emit reserve
    emit_lem c op v1 v2 left right g ok =
        let running : failed c.err ≡ false = ap failed g.fine in
        elim (Bool-cases (ltb (length c.prog) c.cap)) [
          | inl y ↦ rw (running, y, running) (inr (appended c.cap))
          | inr n ↦ elim (Bool-cases (grants (if c.cap == 0 then 16 else c.cap * 2))) [
            | inl y ↦
                rw (running, n, y, running) (inr (appended (if c.cap == 0 then 16 else c.cap * 2)))
            | inr z ↦ rw (running, n, z) (inl (record { fails = refl; fuelled = cc }))
          ]
        ]
      where
        node : Node
        node = record { op = op; v1 = v1; v2 = v2; left = left; right = right }

        appended :
            (cap : ℕ)
            → Emitted c (record c { cap = cap; prog = c.prog ++ node ∷ []; ret = length c.prog })
        appended cap = record {
          result = record {
            grown = record {
              good = record {
                fine = g.fine;
                inside = g.inside;
                linked = λ i n e. elim (node-append_inv c.prog node i e) [
                  | inl old ↦ g.linked i n old
                  | inr (here, same) ↦
                      subst (λ x. NodeOk i c.group_id x) same
                        (subst (λ x. NodeOk x c.group_id node) (sym here) ok)
                ];
              };
              behind = omega arith;
              keeps = λ i n e. get-append c.prog (node ∷ []) i e;
              longer = omega (arith, length-append c.prog (node ∷ []));
              groups = omega arith;
              stack = refl;
            };
            returned = omega (arith, length-append c.prog (node ∷ []));
          };
          same_pos = refl;
          same_id = refl;
        }
