-- ===== src/Regex/Linked/Groups.antt =====
-- Groups and single bytes of src/c/regex/regcomp.c.
use small_lib_c.Base.{
  ℕ, ◌+◌, ◌-◌, ◌≤◌, ◌<◌, ◌≡◌, refl, ◌∙◌, ap, List, ◌∷◌, Bool, false, not, ◌||◌, none, some, ◌⊎◌,
  inl, inr, arith, length, drop, ltb, ◌==◌, Bool-cases,
}
use small_lib_c.Regex.{AstOp, failed, eparen}
use small_lib_c.Regex.Compile.{Ctx, emit}
use small_lib_c.Regex.Parse.{single, open_group, close_group, bre_group, ere_group}
use small_lib_c.Regex.Parse.Brackets.{here, ahead}
use small_lib_c.Regex.Linked.{
  group_of, Linked-mono, Good, Grown, Failed, Returns, Outcome, emit-failed, Emitted, emit_lem,
}
use small_lib_c.Regex.Linked.Bounds.{Piece, Emitted-trans, emit-Piece}
use small_lib_c.Regex.Linked.Bracket.{char_at-lt, at_byte, stop_lem, skip_kept}

module _ (grants : ℕ → Bool) (pat : List ℕ) where
  abbrev L : ℕ
  L = length pat

  -- One node of one byte.
  pub single_lem :
      (c d : Ctx) (op : AstOp) (v1 lo : ℕ)
      → Grown L lo c d
      → d.pos < L
      → group_of (record { op = op; v1 = v1; v2 = 0; left = none; right = none }) ≤ d.group_id
      → Outcome L (d.pos + 1) c (single grants pat d op v1)
  single_lem c d op v1 lo p inside group =
      skip_kept grants pat c d (emit grants d op v1 0 none none) 1 (d.pos + 1) lo p
        (emit_lem L grants d op v1 0 none none p.good
          (record { left = tt; right = tt; group = group }))
        (omega arith) (omega arith)

  record Opened (c d : Ctx) (width : ℕ) : Type 0 where
    good : Good L d
    at : d.pos ≡ c.pos + width
    same_prog : d.prog ≡ c.prog
    id : d.group_id ≡ c.group_id + 1
    pushed : d.group_stack ≡ (c.group_id + 1) ∷ c.group_stack

  open_group_lem :
      (c : Ctx) (width : ℕ)
      → Good L c
      → c.pos + width ≤ L
      → Failed L (open_group grants pat c width) ⊎ Opened c (open_group grants pat c width) width
  unfolding open_group
  open_group_lem c width g room = elim (Bool-cases (ltb (length c.group_stack) 256)) [
    | inr n ↦ rw n (inl (record { fails = refl; fuelled = cc }))
    | inl y ↦ rw y (
        inr (record {
          good = record {
            fine = g.fine;
            inside = room;
            linked = Linked-mono c.prog (omega arith) g.linked;
          };
          at = refl;
          same_prog = refl;
          id = refl;
          pushed = refl;
        }))
  ]

  -- The nodes of a group behind what stands in it.
  close_group_lem :
      (c e : Ctx) (width : ℕ)
      → Good L e
      → e.ret < length e.prog
      → c.group_id + 1 ≤ e.group_id
      → e.pos + width ≤ L
      → Failed L (close_group grants pat e (c.group_id + 1) width)
        ⊎ Emitted L grants
            (record e { group_stack = drop 1 e.group_stack; pos = e.pos + width })
            (close_group grants pat e (c.group_id + 1) width)
  unfolding close_group
  close_group_lem c e width g r ids room =
      let gid = c.group_id + 1 in
      let d : Ctx = record e { group_stack = drop 1 e.group_stack; pos = e.pos + width } in
      let gd : Good L d = record { fine = g.fine; inside = room; linked = g.linked } in
      let e1 = emit grants d AstOp.group_end gid 0 none none in
      let e2 = emit grants e1 AstOp.concat 0 0 (some e.ret) (some e1.ret) in
      let first =
        emit_lem L grants d AstOp.group_end gid 0 none none gd
          (record { left = tt; right = tt; group = ids }) in
      let both : Piece L grants d e1 (some e.ret) (some e1.ret) = elim first [
        | inl f ↦ inl f
        | inr q ↦ inr (q, omega (arith, q.result.grown.longer), q.result.returned)
      ] in
      elim (emit-Piece L grants d e1 AstOp.concat (some e.ret) (some e1.ret) both) [
        | inl f ↦ inl (rw (emit-failed L grants e2 AstOp.group gid 0 (some e2.ret) none f.fails) f)
        | inr q ↦
            elim (emit_lem L grants e2 AstOp.group gid 0 (some e2.ret) none q.result.grown.good
              (record {
                left = q.result.returned;
                right = tt;
                group = omega (arith, ids, q.same_id);
              })) [ inl f ↦ inl f | inr h ↦ inr (Emitted-trans L grants q h) ]
      ]

  -- A group around what the compiler makes of the rest.
  whole_group :
      (c d e f : Ctx) (width close lo : ℕ)
      → Opened c d width
      → Grown L lo d e
      → Emitted L grants (record e { group_stack = drop 1 e.group_stack; pos = e.pos + close }) f
      → d.pos ≤ e.pos
      → Returns L (c.pos + width) c f
  whole_group c d e f width close lo o p q le =
      let h = q.result.grown in
      record {
        grown = record {
          good = h.good;
          behind = omega (arith, o.at, le, q.same_pos);
          keeps = λ i n at. h.keeps i n (p.keeps i n (rw o.same_prog at));
          longer = omega (arith, p.longer, h.longer, ap length o.same_prog);
          groups = omega (arith, p.groups, h.groups, o.id);
          stack = h.stack ∙ ap (λ x. drop 1 x) (p.stack ∙ o.pushed);
        };
        returned = q.result.returned;
      }

  abbrev pub CompileSpec : (Ctx → Ctx) → ℕ → Type 0
  CompileSpec compile k = (d : Ctx) → Good L d → L - d.pos < k → Outcome L d.pos d (compile d)

  module _ (compile : Ctx → Ctx) (k : ℕ) (spec : CompileSpec compile k) (c : Ctx) (g : Good L c)
      (inside : c.pos < L) (fuel : L - (c.pos + 1) < k) where
    grouped :
        (close : ℕ)
        → (d : Ctx) → Opened c d 1
        → Returns L d.pos d (compile d)
        → (compile d).pos + close ≤ L
        → Outcome L (c.pos + 1) c (close_group grants pat (compile d) (c.group_id + 1) close)
    grouped close d o r room =
        let e = compile d in
        let p = r.grown in
        elim (close_group_lem c e close p.good r.returned (omega (arith, o.id, p.groups)) room) [
          | inl f ↦ inl f
          | inr q ↦ inr (
              whole_group c d e (close_group grants pat e (c.group_id + 1) close) 1 close d.pos o p
                q p.behind)
        ]

    pub bre_group-Outcome : Outcome L (c.pos + 1) c (bre_group grants pat compile c)
    unfolding bre_group
    bre_group-Outcome =
        let d = open_group grants pat c 1 in
        let e = compile d in
        elim (open_group_lem c 1 g (omega arith)) [
          | inl f ↦ rw f.fails (inl f)
          | inr o ↦
              let opened : failed d.err ≡ false = ap failed o.good.fine in
              elim (spec d o.good (omega (arith, o.at))) [
                | inl f ↦ rw (opened, f.fails) (inl f)
                | inr r ↦
                    let going : failed e.err ≡ false = ap failed r.grown.good.fine in
                    elim (Bool-cases
                      (not (here grants pat e == b'\\') || not (ahead grants pat e 1 == b')'))) [
                        | inl y ↦ rw (opened, going, y) (inl (stop_lem grants pat e eparen))
                        | inr n ↦
                            let room = char_at-lt pat (e.pos + 1) (λ z. ground (arith, n, z)) in
                            rw (opened, going, n) (grouped 2 d o r (omega (arith, room)))
                      ]
              ]
        ]

    pub ere_group-Outcome : Outcome L (c.pos + 1) c (ere_group grants pat compile c)
    unfolding ere_group
    ere_group-Outcome =
        let d = open_group grants pat c 1 in
        let e = compile d in
        elim (open_group_lem c 1 g (omega arith)) [
          | inl f ↦ rw f.fails (inl f)
          | inr o ↦
              let opened : failed d.err ≡ false = ap failed o.good.fine in
              elim (spec d o.good (omega (arith, o.at))) [
                | inl f ↦ rw (opened, f.fails) (inl f)
                | inr r ↦
                    let going : failed e.err ≡ false = ap failed r.grown.good.fine in
                    elim (Bool-cases (here grants pat e == b')')) [
                      | inr n ↦ rw (opened, going, n) (inl (stop_lem grants pat e eparen))
                      | inl y ↦
                          let room = at_byte pat e.pos b')' y (omega arith) in
                          rw (opened, going, y) (grouped 1 d o r (omega (arith, room)))
                    ]
              ]
        ]
