-- ===== src/Regex/Assemble/Whole.antt =====
-- build_nfa of src/c/regex/regexec.c on a whole expression.
use small_lib_c.Base.{
  ℕ, zero, suc, ◌+◌, ◌*◌, ◌<◌, ◌≡◌, ◌≢◌, refl, ap, List, Bool, true, false, Option, none, some, inl,
  inr, arith, length,
}
use small_lib_c.Regex.{AstOp, Node, no_error, failed}
use small_lib_c.Regex.Nfa.{
  Opcode, Inst, inst, save, backref, Build, new_inst, build_node, build_nfa,
}
use small_lib_c.Regex.Exec.{Env, takes}
use small_lib_c.Regex.Graph.{InRange}
use small_lib_c.Regex.Language.{Expr, NodeAt}
use small_lib_c.Regex.Placed.{InstAt, Built}
use small_lib_c.Regex.Assemble.{InRange-mono, AllOk, Builds}
use small_lib_c.Regex.Assemble.Nodes.{
  leaf, concat_lem, alt_lem, star_lem, group_lem, read_node, plain_ok, BuildSpec,
}

module _ (env : Env) (nodes : List Node) (grants : ℕ → Bool)
    (granted : (n : ℕ) → grants n ≡ true) where
  same_build :
      (b : Build) (out : Option ℕ)
      → b.err ≡ no_error
      → AllOk env b.nfa
      → InRange (length b.nfa) out
      → Builds env b Expr.empty out (b, out)
  same_build b out ok good range = record {
    fine = ok;
    keeps = λ p x low e. e;
    longer = omega arith;
    built = refl;
    in_range = range;
    good = good;
  }

  -- A node that becomes one instruction, whose exit is `out`.
  one_inst :
      (k : ℕ) (op : AstOp) (link : Option ℕ) (n : NodeAt nodes link op) (r : Expr) (b : Build)
      (out : Option ℕ) (code : Opcode) (v1 v2 : ℕ)
      → build_node grants (build_nfa grants nodes k) b n.node out
        ≡ new_inst grants b (inst code v1 v2 out none)
      → ((nfa : List Inst) (lo : ℕ) (e : Option ℕ)
          → InstAt nfa lo e (inst code v1 v2 out none)
          → Built nfa lo r e out)
      → b.err ≡ no_error
      → AllOk env b.nfa
      → InRange (length b.nfa) out
      → code ≢ backref
      → (code ≡ save → v1 < env.nmatch * 2)
      → ((c : ℕ) → (v : Bool) × (takes env (inst code v1 v2 out none) c ≡ some v))
      → Builds env b r out (build_nfa grants nodes (suc k) b link out)
  one_inst k op link n r b out code v1 v2 laid placed ok good range plain place decides =
      read_node env nodes grants granted k (build_nfa grants nodes k) op link n r b out ok (
        rw laid (
          leaf env nodes grants granted r b out (inst code v1 v2 out none) placed ok good (
            plain_ok env nodes grants granted (length b.nfa + 1) code v1 v2 out none
              (InRange-mono out (omega arith) range) tt plain place decides)))

  -- With fuel above the depth of an expression build_nfa lays it out.
  pub build_nfa-Builds : (k : ℕ) → BuildSpec env nodes grants granted k (build_nfa grants nodes k)
  unfolding build_nfa takes build_node
  build_nfa-Builds zero r b link out spells settled deep ok good range = absurd (omega arith)
  build_nfa-Builds (suc k) Expr.empty b link out (inl e) settled deep ok good range =
      let running : failed b.err ≡ false = ap failed ok in
      rw (e, running) (same_build b out ok good range)
  build_nfa-Builds (suc k) Expr.empty b link out (inr n) settled deep ok good range =
      read_node env nodes grants granted k (build_nfa grants nodes k) AstOp.empty link n Expr.empty
        b out ok (rw (build_node, n.is_op) (same_build b out ok good range))
  build_nfa-Builds (suc k) Expr.any b link out n settled deep ok good range =
      one_inst k AstOp.any link n Expr.any b out Opcode.any 0 0 (rw (build_node, n.is_op) refl)
        (λ nfa lo e x. x) ok good range (cc) (cc) (λ c. (_, refl))
  build_nfa-Builds (suc k) Expr.bol b link out n settled deep ok good range =
      one_inst k AstOp.bol link n Expr.bol b out Opcode.bol 0 0 (rw (build_node, n.is_op) refl)
        (λ nfa lo e x. x) ok good range (cc) (cc) (λ c. (_, refl))
  build_nfa-Builds (suc k) Expr.eol b link out n settled deep ok good range =
      one_inst k AstOp.eol link n Expr.eol b out Opcode.eol 0 0 (rw (build_node, n.is_op) refl)
        (λ nfa lo e x. x) ok good range (cc) (cc) (λ c. (_, refl))
  build_nfa-Builds (suc k) (Expr.char c) b link out (n, e) settled deep ok good range =
      one_inst k AstOp.char link n (Expr.char c) b out Opcode.char c 0
        (rw (build_node, n.is_op, e) refl) (λ nfa lo e x. x) ok good range (cc) (cc)
        (λ c. (_, refl))
  build_nfa-Builds (suc k) (Expr.bracket s t) b link out (n, e, e') settled deep ok good range =
      one_inst k AstOp.bracket link n (Expr.bracket s t) b out Opcode.bracket s t
        (rw (build_node, n.is_op, e, e') refl) (λ nfa lo e x. x) ok good range (cc) (cc) (settled)
  build_nfa-Builds (suc k) (Expr.group_end g) b link out (n, e) settled deep ok good range =
      one_inst k AstOp.group_end link n (Expr.group_end g) b out Opcode.save (g * 2 + 1) 0
        (rw (build_node, n.is_op, e) refl) (λ nfa lo e x. x) ok good range (cc) (λ _. omega arith)
        (λ c. (_, refl))
  build_nfa-Builds (suc k) (Expr.concat l r) b link out (n, sl, sr) settled deep ok good range =
      read_node env nodes grants granted k (build_nfa grants nodes k) AstOp.concat link n
        (Expr.concat l r) b out ok
        (rw (build_node, n.is_op)
          (concat_lem env nodes grants granted k (build_nfa grants nodes k) (build_nfa-Builds k) b
            n.node out ok good range l r sl sr settled (omega arith)))
  build_nfa-Builds (suc k) (Expr.alt l r) b link out (n, sl, sr) settled deep ok good range =
      read_node env nodes grants granted k (build_nfa grants nodes k) AstOp.alt link n
        (Expr.alt l r) b out ok
        (rw (build_node, n.is_op)
          (alt_lem env nodes grants granted k (build_nfa grants nodes k) (build_nfa-Builds k) b
            n.node out ok good range l r sl sr settled (omega arith)))
  build_nfa-Builds (suc k) (Expr.star l) b link out (n, sl) settled deep ok good range =
      read_node env nodes grants granted k (build_nfa grants nodes k) AstOp.star link n
        (Expr.star l) b out ok
        (rw (build_node, n.is_op)
          (star_lem env nodes grants granted k (build_nfa grants nodes k) (build_nfa-Builds k) b
            n.node out ok good range l sl settled (omega arith)))
  build_nfa-Builds (suc k) (Expr.group g l) b link out (n, e, sl) settled deep ok good range =
      read_node env nodes grants granted k (build_nfa grants nodes k) AstOp.group link n
        (Expr.group g l) b out ok
        (rw (build_node, n.is_op)
          (group_lem env nodes grants granted k (build_nfa grants nodes k) (build_nfa-Builds k) b
            n.node out ok good range g l e sl settled (omega arith)))
