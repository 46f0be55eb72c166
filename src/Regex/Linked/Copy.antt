-- ===== src/Regex/Linked/Copy.antt =====
-- copy_ast of src/c/regex/regcomp.c: the copy of a linked tree is linked.
use small_lib_c.Base.{
  ℕ, zero, suc, ◌+◌, ◌<◌, ◌≡◌, ◌≢◌, refl, ◌∙◌, ap, Bool, true, false, Option, none, some, ◌⊎◌, inl,
  inr, arith, length, get_elem?, Option-cases,
}
use small_lib_c.Regex.{Node, undefined, failed}
use small_lib_c.Regex.Marks.{get_elem?-some}
use small_lib_c.Regex.Compile.{
  Ctx, copy_self, copy_right, copy_children, copy_ast, copy_whole, stop,
}
use small_lib_c.Regex.Linked.{
  Below, Below-mono, Good, Grown, Failed, Grown-trans, emit-failed, emit_lem,
}

-- Above the place of the node.
abbrev pub rank : Option ℕ → ℕ
rank none = 0
rank (some i) = suc i

module _ (limit : ℕ) (grants : ℕ → Bool) where
  -- A copy and the link to it.
  pub record Copied (c : Ctx) (link : Option ℕ) (res : Ctx × Option ℕ) : Type 0 where
    pub grown : Grown limit c.pos c res.0
    pub same_pos : res.0.pos ≡ c.pos
    pub same_id : res.0.group_id ≡ c.group_id
    pub below : Below (length res.0.prog) res.1
    pub returned : link ≢ none → res.0.ret < length res.0.prog

  abbrev pub Copies : Ctx → Option ℕ → Ctx × Option ℕ → Type 0
  Copies c link res = Failed limit res.0 ⊎ Copied c link res

  gone : (c : Ctx) → Failed limit (stop c undefined)
  gone c = record { fails = refl; fuelled = cc }

  self_failed :
      (c : Ctx) (node : ℕ) (left right : Option ℕ)
      → Failed limit c
      → Failed limit (copy_self grants c node left right).0
  unfolding copy_self
  self_failed c node left right f = elim (Option-cases (get_elem? c.prog node)) [
    | inl e ↦ rw (copy_self, e) (gone c)
    | inr (n, e) ↦ rw (copy_self, e, emit-failed limit grants c n.op n.v1 n.v2 left right f.fails) f
  ]

  self_lem :
      (c : Ctx) (node : ℕ) (left right : Option ℕ) (n : Node)
      → Good limit c
      → get_elem? c.prog node ≡ some n
      → Below (length c.prog) left
      → Below (length c.prog) right
      → Copies c (some node) (copy_self grants c node left right)
  unfolding copy_self
  self_lem c node left right n g at l r =
      let group = (g.linked node n at).group in
      rw (copy_self, at)
        (elim (emit_lem limit grants c n.op n.v1 n.v2 left right g
          (record { left = l; right = r; group = group })) [
            | inl f ↦ inl f
            | inr e ↦ inr (record {
              grown = e.result.grown;
              same_pos = e.same_pos;
              same_id = e.same_id;
              below = e.result.returned;
              returned = λ h. e.result.returned;
            })
          ])

  Copied-trans :
      {c : Ctx} {link link' : Option ℕ} {res res' : Ctx × Option ℕ}
      → Copied c link res
      → Copied res.0 link' res'
      → Copied c link' res'
  Copied-trans p q = record {
    grown =
        let g = Grown-trans limit p.grown q.grown in
        record {
          good = g.good;
          behind = omega (arith, p.same_pos, q.same_pos);
          keeps = g.keeps;
          longer = g.longer;
          groups = g.groups;
          stack = g.stack;
        };
    same_pos = q.same_pos ∙ p.same_pos;
    same_id = q.same_id ∙ p.same_id;
    below = q.below;
    returned = q.returned;
  }

  module _ (k : ℕ) where
    copy-failed :
        (c : Ctx) (link : Option ℕ)
        → failed c.err ≡ true
        → copy_ast grants (suc k) c link ≡ (c, none)
    unfolding copy_ast
    copy-failed c none e = refl
    copy-failed c (some i) e = rw e refl

    abbrev CopySpec : Type 0
    CopySpec =
        (c : Ctx) (link : Option ℕ)
        → Good limit c
        → Below (length c.prog) link
        → rank link < suc k
        → Copies c link (copy_ast grants (suc k) c link)

    rank_lt : {i : ℕ} (link : Option ℕ) → Below i link → i < suc k → rank link < suc k
    rank_lt none h low = omega arith
    rank_lt (some j) h low = omega arith

    right_failed :
        (c : Ctx) (node : ℕ) (left : Option ℕ)
        → Failed limit c
        → Failed limit (copy_right grants (copy_ast grants (suc k)) c node left).0
    unfolding copy_right
    right_failed c node left f = elim (Option-cases (get_elem? c.prog node)) [
      | inl e ↦ rw (copy_right, e) (gone c)
      | inr (n, e) ↦
          rw (copy_right, e, copy-failed c n.right f.fails) (self_failed c node left none f)
    ]

    right_lem :
        (spec : CopySpec) (c : Ctx) (node : ℕ) (left : Option ℕ) (n : Node)
        → Good limit c
        → get_elem? c.prog node ≡ some n
        → node < suc k
        → node < length c.prog
        → Below (length c.prog) left
        → Copies c (some node) (copy_right grants (copy_ast grants (suc k)) c node left)
    unfolding copy_right
    right_lem spec c node left n g at low inside l =
        let o = g.linked node n at in
        rw (copy_right, at)
          (elim (spec c n.right g (Below-mono n.right (omega arith) o.right)
            (rank_lt n.right o.right low)) [
              | inl f ↦ inl (
                  self_failed (copy_ast grants (suc k) c n.right).0 node left
                    (copy_ast grants (suc k) c n.right).1 f)
              | inr p ↦
                  let d = (copy_ast grants (suc k) c n.right).0 in
                  elim (self_lem d node left (copy_ast grants (suc k) c n.right).1 n p.grown.good
                    (p.grown.keeps node n at) (Below-mono left p.grown.longer l) p.below) [
                      | inl f ↦ inl f
                      | inr q ↦ inr (Copied-trans p q)
                    ]
            ])

    children_lem :
        (spec : CopySpec) (c : Ctx) (node : ℕ)
        → Good limit c
        → node < suc k
        → node < length c.prog
        → Copies c (some node) (copy_children grants (copy_ast grants (suc k)) c node)
    unfolding copy_children
    children_lem spec c node g low inside =
        let (n, at) = get_elem?-some c.prog node inside in
        let o = g.linked node n at in
        let res = copy_ast grants (suc k) c n.left in
        rw (copy_children, at)
          (elim (spec c n.left g (Below-mono n.left (omega arith) o.left)
            (rank_lt n.left o.left low)) [
              | inl f ↦ inl (right_failed res.0 node res.1 f)
              | inr p ↦
                  elim (right_lem spec res.0 node res.1 n p.grown.good (p.grown.keeps node n at) low
                    (omega (arith, p.grown.longer)) p.below) [
                      | inl f ↦ inl f
                      | inr q ↦ inr (Copied-trans p q)
                    ]
            ])

  pub Grown-refl : {c : Ctx} → Good limit c → Grown limit c.pos c c
  Grown-refl g = record {
    good = g;
    behind = omega arith;
    keeps = λ i n e. e;
    longer = omega arith;
    groups = omega arith;
    stack = refl;
  }

  -- copy_ast copies a linked tree, with fuel above the place of its root.
  pub copy_ast-Copied : (k : ℕ) → CopySpec k
  unfolding copy_ast
  copy_ast-Copied k c none g low fuel = inr (record {
    grown = Grown-refl g;
    same_pos = refl;
    same_id = refl;
    below = tt;
    returned = λ h. absurd (h refl);
  })
  copy_ast-Copied zero c (some i) g low fuel = absurd (omega arith)
  copy_ast-Copied (suc k) c (some i) g low fuel =
      let running : failed c.err ≡ false = ap failed g.fine in
      rw running (children_lem k (copy_ast-Copied k) c i g (omega arith) low)

  pub copy_whole-Copied :
      (c : Ctx) (node : ℕ)
      → Good limit c
      → node < length c.prog
      → Copies c (some node) (copy_whole grants c node)
  unfolding copy_whole
  copy_whole-Copied c node g low =
      let one_more : length c.prog + 1 ≡ suc (length c.prog) = omega arith in
      rw one_more (copy_ast-Copied (length c.prog) c (some node) g low (omega arith))

  -- With an error there is nothing to copy.
  pub copy_whole-failed :
      (c : Ctx) (node : ℕ) → failed c.err ≡ true → copy_whole grants c node ≡ (c, none)
  unfolding copy_whole
  copy_whole-failed c node e =
      let one_more : length c.prog + 1 ≡ suc (length c.prog) = omega arith in
      rw one_more (copy-failed (length c.prog) c (some node) e)
