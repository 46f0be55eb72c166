-- ===== src/Regex/Linked/Bounds.antt =====
-- apply_bounds of src/c/regex/regcomp.c: repetition keeps the nodes linked.
use small_lib_c.Base.{
  ℕ, zero, suc, ◌-◌, ◌≤◌, ◌<◌, ◌≡◌, refl, ◌∙◌, ap, Bool, false, Option, none, some, ◌⊎◌, inl, inr,
  arith, length,
}
use small_lib_c.Regex.{AstOp, failed}
use small_lib_c.Regex.Compile.{
  Ctx, emit, copy_whole, join, finish, repeat_min, repeat_optional, repeat_for_ever, repeat_rest,
  apply_bounds,
}
use small_lib_c.Regex.Linked.{
  Below, group_of, Below-mono, Good, Failed, Grown-trans, emit-failed, Emitted, emit_lem,
}
use small_lib_c.Regex.Linked.Copy.{copy_whole-Copied, copy_whole-failed, Grown-refl}

-- A node without a group.
pub no_group :
    (op : AstOp) (v2 g : ℕ) (left right : Option ℕ)
    → group_of (record { op = op; v1 = 0; v2 = v2; left = left; right = right }) ≤ g
no_group AstOp.empty v2 g left right = omega arith
no_group AstOp.char v2 g left right = omega arith
no_group AstOp.any v2 g left right = omega arith
no_group AstOp.bol v2 g left right = omega arith
no_group AstOp.eol v2 g left right = omega arith
no_group AstOp.bracket v2 g left right = omega arith
no_group AstOp.backref v2 g left right = omega arith
no_group AstOp.concat v2 g left right = omega arith
no_group AstOp.alt v2 g left right = omega arith
no_group AstOp.star v2 g left right = omega arith
no_group AstOp.group v2 g left right = omega arith
no_group AstOp.group_end v2 g left right = omega arith

module _ (limit : ℕ) (grants : ℕ → Bool) where
  pub Emitted-refl : {c : Ctx} → Good limit c → c.ret < length c.prog → Emitted limit grants c c
  Emitted-refl g r = record {
    result = record { grown = Grown-refl limit grants g; returned = r };
    same_pos = refl;
    same_id = refl;
  }

  pub Emitted-trans :
      {c d e : Ctx} → Emitted limit grants c d → Emitted limit grants d e → Emitted limit grants c e
  Emitted-trans p q =
      let g = Grown-trans limit p.result.grown q.result.grown in
      record {
        result = record {
          grown = record {
            good = g.good;
            behind = omega (arith, p.same_pos, q.same_pos);
            keeps = g.keeps;
            longer = g.longer;
            groups = g.groups;
            stack = g.stack;
          };
          returned = q.result.returned;
        };
        same_pos = q.same_pos ∙ p.same_pos;
        same_id = q.same_id ∙ p.same_id;
      }

  module _ (c : Ctx) where
    -- A context with links into it.
    abbrev pub Piece : Ctx → Option ℕ → Option ℕ → Type 0
    Piece d root more =
        Failed limit d
        ⊎ Emitted limit grants c d × Below (length d.prog) root × Below (length d.prog) more

    abbrev pub Kept : Ctx → Type 0
    Kept d = Failed limit d ⊎ Emitted limit grants c d

    -- Emit a node over two links.
    pub emit-Piece :
        (d : Ctx) (op : AstOp) (left right : Option ℕ)
        → Piece d left right
        → Kept (emit grants d op 0 0 left right)
    emit-Piece d op left right (inl f) =
        inl (rw (emit-failed limit grants d op 0 0 left right f.fails) f)
    emit-Piece d op left right (inr (e, l, r)) =
        elim (emit_lem limit grants d op 0 0 left right e.result.grown.good
          (record { left = l; right = r; group = no_group op 0 d.group_id left right })) [
            | inl f ↦ inl f
            | inr e' ↦ inr (Emitted-trans e e')
          ]

    -- A link that was good stays good.
    pub emit_carry :
        (d : Ctx) (op : AstOp) (left right kept : Option ℕ)
        → Piece d left right
        → Below (length d.prog) kept ⊎ Failed limit d
        → Piece (emit grants d op 0 0 left right) kept (some (emit grants d op 0 0 left right).ret)
    emit_carry d op left right kept (inl f) k =
        inl (rw (emit-failed limit grants d op 0 0 left right f.fails) f)
    emit_carry d op left right kept (inr (e, l, r)) k =
        elim (emit_lem limit grants d op 0 0 left right e.result.grown.good
          (record { left = l; right = r; group = no_group op 0 d.group_id left right })) [
            | inl f ↦ inl f
            | inr e' ↦ elim k [
              | inl h ↦
                  inr (
                    Emitted-trans e e',
                    Below-mono kept e'.result.grown.longer h,
                    e'.result.returned,
                  )
              | inr f ↦ absurd (not_both f e.result.grown.good)
            ]
          ]
      where
        not_both : Failed limit d → Good limit d → ⊥
        not_both f g = let e = f.fails in cc (g.fine, e)

    pub join-Piece :
        (d : Ctx) (op : AstOp) (root piece : Option ℕ)
        → Piece d root piece
        → Piece (join grants d op root piece) none (some (join grants d op root piece).ret)
    unfolding join
    join-Piece d op none piece (inl f) = inl f
    join-Piece d op none piece (inr (e, l, r)) = inr (e, tt, e.result.returned)
    join-Piece d op (some root) piece (inl f) =
        emit_carry d op (some root) piece none (inl f) (inl tt)
    join-Piece d op (some root) piece (inr h) =
        emit_carry d op (some root) piece none (inr h) (inl tt)

    -- A copy of a node of c, with a link that is kept.
    pub copy-Piece :
        (d : Ctx) (node : ℕ) (root : Option ℕ)
        → node < length c.prog
        → Piece d root none
        → Piece (copy_whole grants d node).0 root (copy_whole grants d node).1
    copy-Piece d node root low (inl f) =
        let e = copy_whole-failed limit grants d node f.fails in rw e (inl f)
    copy-Piece d node root low (inr (e, l, r)) =
        elim (copy_whole-Copied limit grants d node e.result.grown.good
          (omega (arith, e.result.grown.longer))) [
            | inl f ↦ inl f
            | inr p ↦
                let e' : Emitted limit grants d (copy_whole grants d node).0 = record {
                  result = record { grown = p.grown; returned = p.returned (cc) };
                  same_pos = p.same_pos;
                  same_id = p.same_id;
                } in
                inr (Emitted-trans e e', Below-mono root p.grown.longer l, p.below)
          ]

    pub finish-Piece : (d : Ctx) (root : Option ℕ) → Piece d none root → Kept (finish grants d root)
    unfolding finish
    finish-Piece d none p = emit-Piece d AstOp.empty none none p
    finish-Piece d (some root) (inl f) = inl (record { fails = f.fails; fuelled = f.fuelled })
    finish-Piece d (some root) (inr (e, l, r)) = inr (record {
      result = record {
        grown = record {
          good = record {
            fine = e.result.grown.good.fine;
            inside = e.result.grown.good.inside;
            linked = e.result.grown.good.linked;
          };
          behind = e.result.grown.behind;
          keeps = e.result.grown.keeps;
          longer = e.result.grown.longer;
          groups = e.result.grown.groups;
          stack = e.result.grown.stack;
        };
        returned = r;
      };
      same_pos = e.same_pos;
      same_id = e.same_id;
    })

    swap : (d : Ctx) (root more : Option ℕ) → Piece d root more → Piece d more root
    swap d root more (inl f) = inl f
    swap d root more (inr (e, l, r)) = inr (e, r, l)

    first_only : (d : Ctx) (root more : Option ℕ) → Piece d root more → Piece d root none
    first_only d root more (inl f) = inl f
    first_only d root more (inr (e, l, r)) = inr (e, l, tt)

    kept_link :
        (d : Ctx) (root more : Option ℕ)
        → Piece d root more
        → Below (length d.prog) root ⊎ Failed limit d
    kept_link d root more (inl f) = inr f
    kept_link d root more (inr (e, l, r)) = inl l

    module _ (node : ℕ) (low : node < length c.prog) where
      min-Piece :
          (n : ℕ) (d : Ctx) (root : Option ℕ)
          → Piece d root none
          → Piece (repeat_min grants n d node root).0 (repeat_min grants n d node root).1 none
      unfolding repeat_min
      min-Piece zero d root p = p
      min-Piece (suc n) d root p =
          let (d', copy) = copy_whole grants d node in
          let joined = join-Piece d' AstOp.concat root copy (copy-Piece d node root low p) in
          let g = join grants d' AstOp.concat root copy in
          min-Piece n g (some g.ret) (swap g none (some g.ret) joined)

      optional-Piece :
          (n : ℕ) (d : Ctx) (root : Option ℕ)
          → Piece d root none
          → Piece
              (repeat_optional grants n d node root).0
              (repeat_optional grants n d node root).1
              none
      unfolding repeat_optional
      optional-Piece zero d root p = p
      optional-Piece (suc n) d root p =
          let (d', copy) = copy_whole grants d node in
          let copied = copy-Piece d node root low p in
          let e = emit grants d' AstOp.empty 0 0 none none in
          let bare = first_bare d' root copy copied in
          let with_root =
            emit_carry d' AstOp.empty none none root bare (kept_link d' root copy copied) in
          let with_copy =
            emit_carry d' AstOp.empty none none copy bare
              (kept_link d' copy root (swap d' root copy copied)) in
          let alt =
            emit_carry e AstOp.alt copy (some e.ret) root with_copy
              (kept_link e root (some e.ret) with_root) in
          let f = emit grants e AstOp.alt 0 0 copy (some e.ret) in
          let joined = join-Piece f AstOp.concat root (some f.ret) alt in
          let g = join grants f AstOp.concat root (some f.ret) in
          optional-Piece n g (some g.ret) (swap g none (some g.ret) joined)
        where
          first_bare : (d : Ctx) (root more : Option ℕ) → Piece d root more → Piece d none none
          first_bare d root more (inl f) = inl f
          first_bare d root more (inr (e, l, r)) = inr (e, tt, tt)

      for_ever-Piece :
          (d : Ctx) (root : Option ℕ)
          → Piece d root none
          → Piece (repeat_for_ever grants d node root).0 (repeat_for_ever grants d node root).1 none
      unfolding repeat_for_ever
      for_ever-Piece d root p =
          let (d', copy) = copy_whole grants d node in
          let copied = copy-Piece d node root low p in
          let star =
            emit_carry d' AstOp.star copy none root
              (first_only d' copy root (swap d' root copy copied))
              (kept_link d' root copy copied) in
          let e = emit grants d' AstOp.star 0 0 copy none in
          let g = join grants e AstOp.concat root (some e.ret) in
          swap g none (some g.ret) (join-Piece e AstOp.concat root (some e.ret) star)

      rest-Piece :
          (d : Ctx) (min : ℕ) (max root : Option ℕ)
          → Piece d root none
          → Piece
              (repeat_rest grants d node min max root).0
              (repeat_rest grants d node min max root).1
              none
      unfolding repeat_rest
      rest-Piece d min none root p = for_ever-Piece d root p
      rest-Piece d min (some m) root p = optional-Piece (m - min) d root p

      -- apply_bounds keeps the nodes linked and the position.
      pub apply_bounds-Kept :
          (min : ℕ) (max : Option ℕ)
          → Good limit c
          → c.ret < length c.prog
          → Kept (apply_bounds grants c node min max)
      unfolding apply_bounds
      apply_bounds-Kept min max g r =
          let running : failed c.err ≡ false = ap failed g.fine in
          let start : Piece c none none = inr (Emitted-refl g r, tt, tt) in
          let first = min-Piece min c none start in
          let d = repeat_min grants min c node none in
          let res = repeat_rest grants d.0 node min max d.1 in
          rw running
            (finish-Piece res.0 res.1 (swap res.0 res.1 none (rest-Piece d.0 min max d.1 first)))
