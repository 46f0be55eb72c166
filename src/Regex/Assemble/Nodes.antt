-- ===== src/Regex/Assemble/Nodes.antt =====
-- build_nfa of src/c/regex/regexec.c, node by node.
use small_lib_c.Base.{
  get-last, get-set_same, get-set_other, ℕ, suc, ◌+◌, ◌*◌, ◌≤◌, ◌<◌, ◌≡◌, ◌≢◌, refl, sym, ◌∙◌, ap,
  subst, List, Bool, true, false, Option, none, some, inl, inr, arith, length, length-set,
  get_elem?, set, ◌==◌, ==_iff, Bool-cases,
}
use small_lib_c.Regex.{AstOp, Node, no_error, failed}
use small_lib_c.Regex.Nfa.{
  Opcode, Inst, inst, save, backref, Build, new_inst, patch, set_out1, build_concat, build_alt,
  build_star, build_group, build_node, build_nfa,
}
use small_lib_c.Regex.Exec.{Env, takes}
use small_lib_c.Regex.Graph.{InRange}
use small_lib_c.Regex.Language.{Expr, NodeAt, Spells}
use small_lib_c.Regex.Marks.{get_elem?-lt}
use small_lib_c.Regex.Placed.{InstAt, Built, Carries, Built-carried}
use small_lib_c.Regex.Assemble.{
  depth, InRange-mono, Settled, InstOk, AllOk, Builds, new_inst-Added, added_length, added_keeps,
  added_at, added_range, added_ok,
}

-- The patched instruction and the others.
module _ (nfa : List Inst) (s : ℕ) (x : Inst) (body : Option ℕ)
    (at_s : get_elem? nfa s ≡ some x) where
  patch-set : patch nfa s body ≡ set nfa s (set_out1 x body)
  unfolding patch
  patch-set = rw (patch, at_s) refl

  patch_self : get_elem? (patch nfa s body) s ≡ some (set_out1 x body)
  patch_self = rw patch-set (get-set_same nfa s (set_out1 x body) at_s)

  patch-ne : (i : ℕ) → s ≢ i → get_elem? (patch nfa s body) i ≡ get_elem? nfa i
  patch-ne i apart = rw patch-set (get-set_other nfa s i (set_out1 x body) apart)

  length-patch : length (patch nfa s body) ≡ length nfa
  length-patch = rw patch-set (length-set nfa s (set_out1 x body))

module _ (env : Env) (nodes : List Node) (grants : ℕ → Bool)
    (granted : (n : ℕ) → grants n ≡ true) where
  abbrev pub Bld : Type 0
  Bld = Build → Option ℕ → (out : Option ℕ) → Build × Option ℕ

  abbrev pub BuildSpec : ℕ → Bld → Type 0
  BuildSpec k bld =
      (r : Expr) (b : Build) (link out : Option ℕ)
      → Spells nodes link r
      → Settled env r
      → depth r < k
      → b.err ≡ no_error
      → AllOk env b.nfa
      → InRange (length b.nfa) out
      → Builds env b r out (bld b link out)

  -- An expression of one instruction.
  pub leaf :
      (r : Expr) (b : Build) (out : Option ℕ) (x : Inst)
      → ((nfa : List Inst) (lo : ℕ) (e : Option ℕ) → InstAt nfa lo e x → Built nfa lo r e out)
      → b.err ≡ no_error
      → AllOk env b.nfa
      → InstOk env (length b.nfa + 1) x
      → Builds env b r out (new_inst grants b x)
  leaf r b out x placed ok good good_x =
      let res = new_inst grants b x in
      let a = new_inst-Added env grants granted b x ok in
      record {
        fine = a.fine;
        keeps = added_keeps env grants granted b x res a;
        longer = omega (arith, added_length env grants granted b x res a);
        built = placed _ _ _ (added_at env grants granted b x res a);
        in_range = added_range env grants granted b x res a;
        good = added_ok env grants granted b x res a good good_x;
      }

  -- What is known of an automaton, and of every longer one.
  abbrev Lasting : (List Inst → Type 0) → Type 0
  Lasting Q = (nfa nfa' : List Inst) → Carries 0 nfa nfa' → Q nfa → Q nfa'

  record Extends (b c : Build) : Type 0 where
    fine : c.err ≡ no_error
    keeps : Carries 0 b.nfa c.nfa
    longer : length b.nfa ≤ length c.nfa
    good : AllOk env c.nfa

  Built-lasting :
      (lo : ℕ) (r : Expr) (entry out : Option ℕ) → Lasting (λ nfa. Built nfa lo r entry out)
  Built-lasting lo r entry out nfa nfa' carries =
      Built-carried lo lo nfa nfa' (omega arith) (λ q y low. carries q y (omega arith)) r entry out

  -- One more instruction behind those that are laid out.
  before :
      (Q : List Inst → Type 0) (r : Expr) (b c : Build) (out : Option ℕ) (x : Inst)
      → Lasting Q
      → Extends b c
      → Q c.nfa
      → ((nfa : List Inst) (e : Option ℕ)
          → InstAt nfa (length b.nfa) e x
          → Q nfa
          → Built nfa (length b.nfa) r e out)
      → InstOk env (length c.nfa + 1) x
      → Builds env b r out (new_inst grants c x)
  before Q r b c out x lasting ext known placed good_x =
      let res = new_inst grants c x in
      let a = new_inst-Added env grants granted c x ext.fine in
      let keeps = added_keeps env grants granted c x res a in
      let here = added_at env grants granted c x res a in
      record {
        fine = a.fine;
        keeps = λ q y low e. keeps q y low (ext.keeps q y low e);
        longer = omega (arith, ext.longer, added_length env grants granted c x res a);
        built =
            placed _ _
              (record {
                at = here.at;
                above = omega (arith, ext.longer, here.above);
                linked = here.linked;
                there = here.there;
              })
              (lasting c.nfa res.0.nfa keeps known);
        in_range = added_range env grants granted c x res a;
        good = added_ok env grants granted c x res a ext.good good_x;
      }

  pub plain_ok :
      (n : ℕ) (op : Opcode) (v1 v2 : ℕ) (out1 out2 : Option ℕ)
      → InRange n out1
      → InRange n out2
      → op ≢ backref
      → (op ≡ save → v1 < env.nmatch * 2)
      → ((c : ℕ) → (b : Bool) × (takes env (inst op v1 v2 out1 out2) c ≡ some b))
      → InstOk env n (inst op v1 v2 out1 out2)
  plain_ok n op v1 v2 out1 out2 h k p s d = record {
    first = h;
    second = k;
    plain = p;
    place = s;
    decides = d;
  }

  module _ (k : ℕ) (bld : Bld) (spec : BuildSpec k bld) (b : Build) (n : Node) (out : Option ℕ)
      (ok : b.err ≡ no_error) (good : AllOk env b.nfa) (range : InRange (length b.nfa) out) where
    pub concat_lem :
        (l r : Expr)
        → Spells nodes n.left l
        → Spells nodes n.right r
        → Settled env (Expr.concat l r)
        → depth (Expr.concat l r) < suc k
        → Builds env b (Expr.concat l r) out (build_concat grants bld b n out)
    unfolding build_concat
    concat_lem l r sl sr settled deep =
        let p = spec r b n.right out sr settled.1 (omega arith) ok good range in
        let res = bld b n.right out in
        let q = spec l res.0 n.left res.1 sl settled.0 (omega arith) p.fine p.good p.in_range in
        let res' = bld res.0 n.left res.1 in
        record {
          fine = q.fine;
          keeps = λ i y low e. q.keeps i y low (p.keeps i y low e);
          longer = omega (arith, p.longer, q.longer);
          built = (
            res.1,
            Built-carried (length b.nfa) (length res.0.nfa) res'.0.nfa res'.0.nfa p.longer
                (λ i y low e. e) l res'.1 res.1 q.built,
            Built-carried (length b.nfa) (length b.nfa) res.0.nfa res'.0.nfa (omega arith)
                (λ i y low e. q.keeps i y (omega arith) e) r res.1 out p.built,
          );
          in_range = q.in_range;
          good = q.good;
        }

    pub group_lem :
        (g : ℕ) (l : Expr)
        → n.v1 ≡ g
        → Spells nodes n.left l
        → Settled env (Expr.group g l)
        → depth (Expr.group g l) < suc k
        → Builds env b (Expr.group g l) out (build_group grants bld b n out)
    unfolding build_group takes
    group_lem g l e sl settled deep =
        let p = spec l b n.left out sl settled.1 (omega arith) ok good range in
        let res = bld b n.left out in
        rw e (
          before (λ nfa. Built nfa (length b.nfa) l res.1 out) (Expr.group g l) b res.0 out
            (inst Opcode.save (g * 2) 0 res.1 none) (Built-lasting (length b.nfa) l res.1 out)
            (record { fine = p.fine; keeps = p.keeps; longer = p.longer; good = p.good }) p.built
            (λ nfa entry x built. (res.1, x, built))
            (plain_ok (length res.0.nfa + 1) save (g * 2) 0 res.1 none
              (InRange-mono res.1 (omega arith) p.in_range) tt (cc) (λ _. omega (arith, settled.0))
              (λ c. (false, refl))))

    pub alt_lem :
        (l r : Expr)
        → Spells nodes n.left l
        → Spells nodes n.right r
        → Settled env (Expr.alt l r)
        → depth (Expr.alt l r) < suc k
        → Builds env b (Expr.alt l r) out (build_alt grants bld b n out)
    unfolding build_alt takes
    alt_lem l r sl sr settled deep =
        let p = spec l b n.left out sl settled.0 (omega arith) ok good range in
        let res = bld b n.left out in
        let q =
          spec r res.0 n.right out sr settled.1 (omega arith) p.fine p.good
            (InRange-mono out p.longer range) in
        let res' = bld res.0 n.right out in
        let lo = length b.nfa in
        let Both = λ (nfa : List Inst). Built nfa lo l res.1 out × Built nfa lo r res'.1 out in
        before Both (Expr.alt l r) b res'.0 out (inst Opcode.split 0 0 res.1 res'.1)
          (λ nfa nfa' carries h. (
            Built-lasting lo l res.1 out nfa nfa' carries h.0,
            Built-lasting lo r res'.1 out nfa nfa' carries h.1,
          ))
          (record {
            fine = q.fine;
            keeps = λ i y low e. q.keeps i y low (p.keeps i y low e);
            longer = omega (arith, p.longer, q.longer);
            good = q.good;
          })
          (
            Built-lasting lo l res.1 out res.0.nfa res'.0.nfa q.keeps p.built,
            Built-carried lo (length res.0.nfa) res'.0.nfa res'.0.nfa p.longer (λ i y low e. e) r
                res'.1 out q.built,
          )
          (λ nfa entry x h. (res.1, res'.1, x, h.0, h.1))
          (plain_ok (length res'.0.nfa + 1) Opcode.split 0 0 res.1 res'.1
            (InRange-mono res.1 (omega (arith, q.longer)) p.in_range)
            (InRange-mono res'.1 (omega arith) q.in_range) (cc) (cc) (λ c. (false, refl)))

    -- The fork of a star is patched when its body is there.
    pub star_lem :
        (l : Expr)
        → Spells nodes n.left l
        → Settled env l
        → depth (Expr.star l) < suc k
        → Builds env b (Expr.star l) out (build_star grants bld b n out)
    unfolding build_star takes
    star_lem l sl settled deep =
        let s = length b.nfa in
        let x = inst Opcode.split 0 0 none out in
        let fork = new_inst grants b x in
        let a = new_inst-Added env grants granted b x ok in
        let x_ok =
          plain_ok (s + 1) Opcode.split 0 0 none out tt (InRange-mono out (omega arith) range) (cc)
            (cc) (λ c. (false, refl)) in
        let grown = added_length env grants granted b x fork a in
        let p =
          spec l fork.0 n.left (some s) sl settled (omega arith) a.fine
            (added_ok env grants granted b x fork a good x_ok) (omega (arith, grown)) in
        let res = bld fork.0 n.left (some s) in
        let running : failed res.0.err ≡ false = ap failed p.fine in
        let forked : get_elem? fork.0.nfa s ≡ some x = rw a.nfa (get-last b.nfa x) in
        let at_s = p.keeps s x (omega arith) forked in
        let same_length = length-patch res.0.nfa s x res.1 at_s in
        rw (a.entry, running)
          (record {
            fine = p.fine;
            keeps = λ i y low e.
                let there = p.keeps i y low (added_keeps env grants granted b x fork a i y low e) in
                let apart : s ≢ i = λ same. absurd (omega (arith, same, get_elem?-lt b.nfa i e)) in
                patch-ne res.0.nfa s x res.1 at_s i apart ∙ there;
            longer = omega (arith, p.longer, grown, same_length);
            built = (
              res.1,
              record {
                at = s;
                above = omega arith;
                linked = refl;
                there = patch_self res.0.nfa s x res.1 at_s;
              },
              Built-carried s (length fork.0.nfa) res.0.nfa (patch res.0.nfa s res.1)
                  (omega (arith, grown))
                  (λ i y low e.
                    let apart : s ≢ i = λ same. absurd (omega (arith, same, low, grown)) in
                    patch-ne res.0.nfa s x res.1 at_s i apart ∙ e)
                  l res.1 (some s) p.built,
            );
            in_range = omega (arith, p.longer, grown, same_length);
            good = λ i y e. rw same_length (patched_ok s x res at_s p.good i y e p.in_range);
          })
      where
        patched_ok :
            (s : ℕ) (x : Inst) (res : Build × Option ℕ)
            → get_elem? res.0.nfa s ≡ some x
            → AllOk env res.0.nfa
            → (i : ℕ) (y : Inst) → get_elem? (patch res.0.nfa s res.1) i ≡ some y
            → InRange (length res.0.nfa) res.1
            → InstOk env (length res.0.nfa) y
        patched_ok s x res at_s good i y e inside = elim (Bool-cases (s == i)) [
          | inr apart ↦
              good i y
                (sym (patch-ne res.0.nfa s x res.1 at_s i (λ h. ground (arith, apart, h))) ∙ e)
          | inl together ↦
              let same : s ≡ i = (==_iff s i).0 together in
              let old = good s x at_s in
              let now : set_out1 x res.1 ≡ y =
                ground (arith, patch_self res.0.nfa s x res.1 at_s, e, same) in
              let patched : InstOk env (length res.0.nfa) (set_out1 x res.1) = record {
                first = inside;
                second = old.second;
                plain = old.plain;
                place = old.place;
                decides = old.decides;
              } in
              subst (λ z. InstOk env (length res.0.nfa) z) now patched
        ]

  -- A node that is read.
  pub read_node :
      (k : ℕ) (bld : Bld) (op : AstOp) (link : Option ℕ) (n : NodeAt nodes link op) (r : Expr)
      (b : Build) (out : Option ℕ)
      → b.err ≡ no_error
      → Builds env b r out (build_node grants (build_nfa grants nodes k) b n.node out)
      → Builds env b r out (build_nfa grants nodes (suc k) b link out)
  unfolding build_nfa
  read_node k bld op link n r b out ok built =
      let running : failed b.err ≡ false = ap failed ok in rw (n.linked, running, n.there) built
