-- ===== src/Regex/Assemble.antt =====
-- build_nfa of src/c/regex/regexec.c lays out the expression that its nodes spell.
pub mod Nodes
pub mod Whole
use small_lib_c.Base.{
  get-append, get-last, ℕ, zero, suc, ◌+◌, ◌*◌, ◌≤◌, ◌<◌, ◌≡◌, ◌≢◌, refl, sym, ◌∙◌, ap, subst, max,
  List, [], ◌∷◌, ◌++◌, Bool, true, false, Option, none, some, ◌⊎◌, inl, inr, arith, length,
  length-append, length-set, get_elem?, set, ltb, ◌==◌, ==_iff, Bool-cases, if◌then◌else◌,
}
use small_lib_c.Regex.{AstOp, Node, Status, no_error, failed}
use small_lib_c.Regex.Bracket.{eval_bracket}
use small_lib_c.Regex.Nfa.{
  Opcode, Inst, inst, save, backref, Build, new_inst, patch, set_out1, build_concat, build_alt,
  build_star, build_group, build_node, build_nfa,
}
use small_lib_c.Regex.Exec.{Env, takes}
use small_lib_c.Regex.Graph.{InRange}
use small_lib_c.Regex.Language.{Expr, NodeAt, Spells}
use small_lib_c.Regex.Placed.{InstAt, Built, Carries, Built-carried}

-- The longest way from the root of an expression to a leaf.
abbrev pub depth : Expr → ℕ
depth (Expr.concat l r) = suc (max (depth l) (depth r))
depth (Expr.alt l r) = suc (max (depth l) (depth r))
depth (Expr.star l) = suc (depth l)
depth (Expr.group n l) = suc (depth l)
depth _ = 0

pub get-append_inv :
    (xs : List Inst) (x y : Inst) (p : ℕ)
    → get_elem? (xs ++ x ∷ []) p ≡ some y
    → (get_elem? xs p ≡ some y) ⊎ (x ≡ y)
get-append_inv [] x y zero e = inr (ground (arith, e))
get-append_inv [] x y (suc p) e = absurd (ground (arith, e))
get-append_inv (a ∷ xs) x y zero e = inl e
get-append_inv (a ∷ xs) x y (suc p) e = get-append_inv xs x y p e

pub InRange-mono : {n m : ℕ} (q : Option ℕ) → n ≤ m → InRange n q → InRange m q
InRange-mono none le h = tt
InRange-mono (some q) le h = omega arith

module _ (pat : List ℕ) (cflags nmatch : ℕ) where
  -- An expression whose brackets read nothing behind the pattern and whose groups have a place.
  abbrev pub SettledIn : Expr → Type 0
  SettledIn (Expr.bracket s e) = (c : ℕ) → (b : Bool) × (eval_bracket pat cflags s e c ≡ some b)
  SettledIn (Expr.concat l r) = SettledIn l × SettledIn r
  SettledIn (Expr.alt l r) = SettledIn l × SettledIn r
  SettledIn (Expr.star l) = SettledIn l
  SettledIn (Expr.group n l) = (n < nmatch) × SettledIn l
  SettledIn (Expr.group_end n) = n < nmatch
  SettledIn _ = Unit {0}

module _ (env : Env) where
  abbrev pub Settled : Expr → Type 0
  Settled = SettledIn env.pat env.cflags env.nmatch

  -- An instruction of an automaton of n instructions.
  pub record InstOk (n : ℕ) (x : Inst) : Type 0 where
    pub first : InRange n x.out1
    pub second : InRange n x.out2
    pub plain : x.op ≢ backref
    pub place : x.op ≡ save → x.v1 < env.nmatch * 2
    pub decides : (c : ℕ) → (b : Bool) × (takes env x c ≡ some b)

  abbrev pub AllOk : List Inst → Type 0
  AllOk nfa = (p : ℕ) (x : Inst) → get_elem? nfa p ≡ some x → InstOk (length nfa) x

  pub InstOk-mono : {n m : ℕ} {x : Inst} → n ≤ m → InstOk n x → InstOk m x
  InstOk-mono le o = record {
    first = InRange-mono _ le o.first;
    second = InRange-mono _ le o.second;
    plain = o.plain;
    place = o.place;
    decides = o.decides;
  }

  -- What laying out an expression before `out` promises.
  pub record Builds (b : Build) (r : Expr) (out : Option ℕ) (res : Build × Option ℕ) : Type 0 where
    pub fine : res.0.err ≡ no_error
    pub keeps : Carries 0 b.nfa res.0.nfa
    pub longer : length b.nfa ≤ length res.0.nfa
    pub built : Built res.0.nfa (length b.nfa) r res.1 out
    pub in_range : InRange (length res.0.nfa) res.1
    pub good : AllOk res.0.nfa

  module _ (grants : ℕ → Bool) (granted : (n : ℕ) → grants n ≡ true) where
    -- An instruction more.
    pub record Added (b : Build) (x : Inst) (res : Build × Option ℕ) : Type 0 where
      pub fine : res.0.err ≡ no_error
      pub nfa : res.0.nfa ≡ b.nfa ++ x ∷ []
      pub entry : res.1 ≡ some (length b.nfa)

    pub new_inst-Added : (b : Build) (x : Inst) → b.err ≡ no_error → Added b x (new_inst grants b x)
    unfolding new_inst
    new_inst-Added b x ok =
        let running : failed b.err ≡ false = ap failed ok in
        elim (Bool-cases (ltb (length b.nfa) b.cap)) [
          | inl y ↦ rw (running, y) (record { fine = ok; nfa = refl; entry = refl })
          | inr n ↦
              rw (running, n, granted (if b.cap == 0 then 64 else b.cap * 2))
                (record { fine = ok; nfa = refl; entry = refl })
        ]

    module _ (b : Build) (x : Inst) (res : Build × Option ℕ) (a : Added b x res) where
      pub added_length : length res.0.nfa ≡ length b.nfa + 1
      added_length = ap length a.nfa ∙ length-append b.nfa (x ∷ [])

      pub added_keeps : Carries 0 b.nfa res.0.nfa
      added_keeps p y low e = rw a.nfa (get-append b.nfa (x ∷ []) p e)

      pub added_at : InstAt res.0.nfa (length b.nfa) res.1 x
      added_at = record {
        at = length b.nfa;
        above = omega arith;
        linked = a.entry;
        there = rw a.nfa (get-last b.nfa x);
      }

      pub added_range : InRange (length res.0.nfa) res.1
      added_range = rw (a.entry, added_length) (omega arith)

      pub added_ok : AllOk b.nfa → InstOk (length b.nfa + 1) x → AllOk res.0.nfa
      added_ok good ok p y e = elim (get-append_inv b.nfa x y p (rw a.nfa at e)) [
        | inl old ↦ InstOk-mono (omega (arith, added_length)) (good p y old)
        | inr same ↦ rw added_length (subst (λ z. InstOk (length b.nfa + 1) z) same ok)
      ]
