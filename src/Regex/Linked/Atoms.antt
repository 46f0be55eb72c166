-- ===== src/Regex/Linked/Atoms.antt =====
-- Atoms and pieces of src/c/regex/regcomp.c.
use small_lib_c.Base.{
  ℕ, ◌+◌, ◌-◌, ◌≤◌, ◌<◌, ◌≡◌, ap, List, Bool, true, false, ◌&&◌, ◌||◌, none, some, ◌⊎◌, inl, inr,
  arith, length, ltb, leb, ◌==◌, Bool-cases, if◌then◌else◌,
}
use small_lib_c.Regex.{AstOp, error, failed, char_at, badrpt, eescape, esubreg}
use small_lib_c.Regex.Compile.{Ctx, emit, stop, skip, copy_whole}
use small_lib_c.Regex.Parse.{
  single, parse_bre_escape, bol_anchor, eol_anchor, parse_bre_atom, parse_bre_piece, parse_ere_atom,
  parse_plus, parse_optional, parse_ere_piece,
}
use small_lib_c.Regex.Parse.Braces.{parse_bounds}
use small_lib_c.Regex.Linked.{Below, group_of, Good, Grown, Failed, Returns, Outcome, Grown-trans}
use small_lib_c.Regex.Linked.Copy.{Grown-refl}
use small_lib_c.Regex.Linked.Bounds.{Piece, Emitted-refl, emit-Piece, emit_carry, copy-Piece}
use small_lib_c.Regex.Linked.Bracket.{
  char_at-lt, at_byte, move_lem, Grown-lower, stop_lem, skip_kept, parse_bracket-Outcome,
}
use small_lib_c.Regex.Linked.Braces.{parse_bounds-Outcome}
use small_lib_c.Regex.Linked.Groups.{single_lem, CompileSpec, bre_group-Outcome, ere_group-Outcome}

module _ (grants : ℕ → Bool) (pat : List ℕ) where
  abbrev L : ℕ
  L = length pat

  -- Composition of two steps.
  pub Outcome-trans :
      (lo : ℕ) {hi top : ℕ} {c d e : Ctx}
      → Grown L hi c d
      → lo ≤ d.pos
      → d.pos ≤ top
      → Outcome L top d e
      → Outcome L lo c e
  Outcome-trans lo p le up (inl f) = inl f
  Outcome-trans lo p le up (inr r) = inr (record {
    grown =
        Grown-lower grants pat lo (omega (arith, le, up, r.grown.behind)) (Grown-trans L p r.grown);
    returned = r.returned;
  })

  single_here :
      (c : Ctx) (op : AstOp) (v1 : ℕ)
      → Good L c
      → c.pos < L
      → group_of (record { op = op; v1 = v1; v2 = 0; left = none; right = none }) ≤ c.group_id
      → Outcome L (c.pos + 1) c (single grants pat c op v1)
  single_here c op v1 g inside group =
      single_lem grants pat c c op v1 c.pos (Grown-refl L grants g) inside group

  -- A star over the node that was returned.
  star_lem :
      (c d : Ctx) (lo : ℕ)
      → Returns L lo c d
      → d.pos < L
      → Outcome L lo c (skip (emit grants d AstOp.star 0 0 (some d.ret) none) 1)
  star_lem c d lo r inside =
      skip_kept grants pat c d (emit grants d AstOp.star 0 0 (some d.ret) none) 1 lo lo r.grown
        (emit-Piece L grants d d AstOp.star (some d.ret) none
          (inr (Emitted-refl L grants r.grown.good r.returned, r.returned, tt)))
        (omega arith) (omega (arith, r.grown.behind))

  parse_optional_lem :
      (c d : Ctx) (lo : ℕ)
      → Returns L lo c d
      → d.pos < L
      → Outcome L lo c (parse_optional grants pat d)
  unfolding parse_optional
  parse_optional_lem c d lo r inside =
      let e = emit grants d AstOp.empty 0 0 none none in
      let self = Emitted-refl L grants r.grown.good r.returned in
      let more =
        emit_carry L grants d d AstOp.empty none none (some d.ret) (inr (self, tt, tt))
          (inl r.returned) in
      skip_kept grants pat c d (emit grants e AstOp.alt 0 0 (some d.ret) (some e.ret)) 1 lo lo
        r.grown (emit-Piece L grants d e AstOp.alt (some d.ret) (some e.ret) more) (omega arith)
        (omega (arith, r.grown.behind))

  parse_plus_lem :
      (c d : Ctx) (lo : ℕ) → Returns L lo c d → d.pos < L → Outcome L lo c (parse_plus grants pat d)
  unfolding parse_plus
  parse_plus_lem c d lo r inside =
      let self = Emitted-refl L grants r.grown.good r.returned in
      let copied =
        copy-Piece L grants d d d.ret (some d.ret) r.returned (inr (self, r.returned, tt)) in
      let d1 = (copy_whole grants d d.ret).0 in
      let copy = (copy_whole grants d d.ret).1 in
      let e = emit grants d1 AstOp.star 0 0 copy none in
      let more =
        emit_carry L grants d d1 AstOp.star copy none (some d.ret) (only_second copied)
          (first copied) in
      skip_kept grants pat c d (emit grants e AstOp.concat 0 0 (some d.ret) (some e.ret)) 1 lo lo
        r.grown (emit-Piece L grants d e AstOp.concat (some d.ret) (some e.ret) more) (omega arith)
        (omega (arith, r.grown.behind))
    where
      only_second :
          Piece L grants d (copy_whole grants d d.ret).0 (some d.ret) (copy_whole grants d d.ret).1
          → Piece L grants d (copy_whole grants d d.ret).0 (copy_whole grants d d.ret).1 none
      only_second (inl f) = inl f
      only_second (inr (e, l, r')) = inr (e, r', tt)

      first :
          Piece L grants d (copy_whole grants d d.ret).0 (some d.ret) (copy_whole grants d d.ret).1
          → Below (length (copy_whole grants d d.ret).0.prog) (some d.ret)
            ⊎ Failed L (copy_whole grants d d.ret).0
      first (inl f) = inr f
      first (inr (e, l, r')) = inl l

  braces_lem :
      (c d : Ctx) (is_ere : Bool) (n lo : ℕ)
      → Returns L lo c d
      → d.pos + n ≤ L
      → Outcome L lo c (parse_bounds grants pat (skip d n) is_ere d.ret)
  braces_lem c d is_ere n lo r room =
      let p = move_lem grants pat d.pos d (d.pos + n) r.grown.good (omega arith) room in
      Outcome-trans lo (Grown-trans L r.grown p) (omega (arith, r.grown.behind)) (omega arith)
        (parse_bounds-Outcome grants pat (skip d n) is_ere p.good r.returned)

  module _ (compile : Ctx → Ctx) (k : ℕ) (spec : CompileSpec grants pat compile k) (c : Ctx)
      (g : Good L c) (inside : c.pos < L) (fuel : L - (c.pos + 1) < k) where
    bre_escape_lem : Outcome L (c.pos + 1) c (parse_bre_escape grants pat compile c)
    unfolding parse_bre_escape
    bre_escape_lem =
        let running : failed c.err ≡ false = ap failed g.fine in
        let d = skip c 1 in
        let p = move_lem grants pat (c.pos + 1) c (c.pos + 1) g (omega arith) (omega arith) in
        let x = char_at pat (c.pos + 1) in
        elim (Bool-cases (x == 0)) [
          | inl y ↦ rw (running, y) (inl (stop_lem grants pat d eescape))
          | inr n1 ↦
              let low = char_at-lt pat (c.pos + 1) (λ z. ground (arith, n1, z)) in
              elim (Bool-cases (x == b'(')) [
                | inl y ↦
                    rw (running, n1, y)
                      (Outcome-trans (c.pos + 1) p (omega arith) (omega arith) (
                        bre_group-Outcome grants pat compile k spec d p.good low
                          (omega (arith, fuel))))
                | inr n2 ↦ elim (Bool-cases (x == b'{')) [
                  | inl y ↦ rw (running, n1, n2, y) (inl (stop_lem grants pat d badrpt))
                  | inr n3 ↦ elim (Bool-cases (leb b'1' x && leb x b'9')) [
                    | inr n4 ↦
                        rw (running, n1, n2, n3, n4)
                          (Outcome-trans (c.pos + 1) p (omega arith) (omega arith)
                            (single_here d AstOp.char x p.good low (omega arith)))
                    | inl y4 ↦ elim (Bool-cases (ltb c.group_id (x - b'0'))) [
                      | inl y ↦
                          rw (running, n1, n2, n3, y4, y) (inl (stop_lem grants pat d esubreg))
                      | inr n5 ↦
                          rw (running, n1, n2, n3, y4, n5)
                            (Outcome-trans (c.pos + 1) p (omega arith) (omega arith) (
                              single_here d AstOp.backref (x - b'0') p.good low
                                (ground (arith, n5))))
                    ]
                  ]
                ]
              ]
        ]

    bre_atom_lem : Outcome L (c.pos + 1) c (parse_bre_atom grants pat compile c)
    unfolding parse_bre_atom
    bre_atom_lem =
        let running : failed c.err ≡ false = ap failed g.fine in
        let x = char_at pat c.pos in
        elim (Bool-cases (x == b'^')) [
          | inl y ↦ elim (Bool-cases (bol_anchor grants pat compile c)) [
            | inl z ↦ rw (running, y, z) (single_here c AstOp.bol 0 g inside (omega arith))
            | inr z ↦ rw (running, y, z) (single_here c AstOp.char x g inside (omega arith))
          ]
          | inr n1 ↦ elim (Bool-cases (x == b'$')) [
            | inl y ↦ elim (Bool-cases (eol_anchor grants pat compile c)) [
              | inl z ↦ rw (running, n1, y, z) (single_here c AstOp.eol 0 g inside (omega arith))
              | inr z ↦ rw (running, n1, y, z) (single_here c AstOp.char x g inside (omega arith))
            ]
            | inr n2 ↦ elim (Bool-cases (x == b'.')) [
              | inl y ↦ rw (running, n1, n2, y) (single_here c AstOp.any 0 g inside (omega arith))
              | inr n3 ↦ elim (Bool-cases (x == b'[')) [
                | inl y ↦ rw (running, n1, n2, n3, y) (parse_bracket-Outcome grants pat c g inside)
                | inr n4 ↦ elim (Bool-cases (x == b'\\')) [
                  | inl y ↦ rw (running, n1, n2, n3, n4, y) bre_escape_lem
                  | inr n5 ↦
                      rw (running, n1, n2, n3, n4, n5)
                        (single_here c AstOp.char x g inside (omega arith))
                ]
              ]
            ]
          ]
        ]

    pub bre_piece-Outcome : Outcome L (c.pos + 1) c (parse_bre_piece grants pat compile c)
    unfolding parse_bre_piece
    bre_piece-Outcome =
        let running : failed c.err ≡ false = ap failed g.fine in
        let d = parse_bre_atom grants pat compile c in
        elim (Bool-cases (char_at pat c.pos == b'*')) [
          | inl y ↦ rw (running, y) (single_here c AstOp.char b'*' g inside (omega arith))
          | inr n1 ↦ elim bre_atom_lem [
            | inl f ↦ rw (running, n1, f.fails) (inl f)
            | inr r ↦
                let going : failed d.err ≡ false = ap failed r.grown.good.fine in
                elim (Bool-cases (char_at pat d.pos == b'*')) [
                  | inl y ↦
                      rw (running, n1, going, y)
                        (star_lem c d (c.pos + 1) r (at_byte pat d.pos b'*' y (omega arith)))
                  | inr n2 ↦
                      elim (Bool-cases
                        (char_at pat d.pos == b'\\' && char_at pat (d.pos + 1) == b'{')) [
                          | inl y ↦
                              let low = char_at-lt pat (d.pos + 1) (λ z. ground (arith, y, z)) in
                              rw (running, n1, going, n2, y)
                                (braces_lem c d false 2 (c.pos + 1) r (omega (arith, low)))
                          | inr n3 ↦ rw (running, n1, going, n2, n3) (inr r)
                        ]
                ]
          ]
        ]

    ere_atom_lem : Outcome L (c.pos + 1) c (parse_ere_atom grants pat compile c)
    unfolding parse_ere_atom
    ere_atom_lem =
        let running : failed c.err ≡ false = ap failed g.fine in
        let x = char_at pat c.pos in
        elim (Bool-cases (x == b'*' || x == b'+' || x == b'?' || x == b'{')) [
          | inl y ↦ rw (running, y) (inl (stop_lem grants pat c badrpt))
          | inr n0 ↦ elim (Bool-cases (x == b'^')) [
            | inl y ↦ rw (running, n0, y) (single_here c AstOp.bol 0 g inside (omega arith))
            | inr n1 ↦ elim (Bool-cases (x == b'$')) [
              | inl y ↦ rw (running, n0, n1, y) (single_here c AstOp.eol 0 g inside (omega arith))
              | inr n2 ↦ elim (Bool-cases (x == b'.')) [
                | inl y ↦
                    rw (running, n0, n1, n2, y) (single_here c AstOp.any 0 g inside (omega arith))
                | inr n3 ↦ elim (Bool-cases (x == b'[')) [
                  | inl y ↦
                      rw (running, n0, n1, n2, n3, y) (parse_bracket-Outcome grants pat c g inside)
                  | inr n4 ↦ elim (Bool-cases (x == b'(')) [
                    | inl y ↦
                        rw (running, n0, n1, n2, n3, n4, y)
                          (ere_group-Outcome grants pat compile k spec c g inside fuel)
                    | inr n5 ↦ elim (Bool-cases (x == b'\\')) [
                      | inr n6 ↦
                          rw (running, n0, n1, n2, n3, n4, n5, n6)
                            (single_here c AstOp.char x g inside (omega arith))
                      | inl y ↦ rw (running, n0, n1, n2, n3, n4, n5, y) ere_escape
                    ]
                  ]
                ]
              ]
            ]
          ]
        ]
      where
        ere_escape : Outcome L (c.pos + 1) c (
            if char_at pat (c.pos + 1) == 0
            then stop (skip c 1) (error eescape)
            else single grants pat (skip c 1) AstOp.char (char_at pat (c.pos + 1)))
        ere_escape = elim (Bool-cases (char_at pat (c.pos + 1) == 0)) [
          | inl y ↦ rw y (inl (stop_lem grants pat (skip c 1) eescape))
          | inr n ↦
              let low = char_at-lt pat (c.pos + 1) (λ z. ground (arith, n, z)) in
              let p = move_lem grants pat (c.pos + 1) c (c.pos + 1) g (omega arith) (omega arith) in
              rw n (
                Outcome-trans (c.pos + 1) p (omega arith) (omega arith) (
                  single_here (skip c 1) AstOp.char (char_at pat (c.pos + 1)) p.good low
                    (omega arith)))
        ]

    pub ere_piece-Outcome : Outcome L (c.pos + 1) c (parse_ere_piece grants pat compile c)
    unfolding parse_ere_piece
    ere_piece-Outcome =
        let running : failed c.err ≡ false = ap failed g.fine in
        let d = parse_ere_atom grants pat compile c in
        let x = char_at pat d.pos in
        elim ere_atom_lem [
          | inl f ↦ rw (running, f.fails) (inl f)
          | inr r ↦
              let going : failed d.err ≡ false = ap failed r.grown.good.fine in
              elim (Bool-cases (x == b'*')) [
                | inl y ↦
                    rw (running, going, y)
                      (star_lem c d (c.pos + 1) r (at_byte pat d.pos b'*' y (omega arith)))
                | inr n1 ↦ elim (Bool-cases (x == b'+')) [
                  | inl y ↦
                      rw (running, going, n1, y)
                        (parse_plus_lem c d (c.pos + 1) r (at_byte pat d.pos b'+' y (omega arith)))
                  | inr n2 ↦ elim (Bool-cases (x == b'?')) [
                    | inl y ↦
                        rw (running, going, n1, n2, y)
                          (parse_optional_lem c d (c.pos + 1) r
                            (at_byte pat d.pos b'?' y (omega arith)))
                    | inr n3 ↦ elim (Bool-cases (x == b'{')) [
                      | inl y ↦
                          let low = at_byte pat d.pos b'{' y (omega arith) in
                          rw (running, going, n1, n2, n3, y)
                            (braces_lem c d true 1 (c.pos + 1) r (omega (arith, low)))
                      | inr n4 ↦ rw (running, going, n1, n2, n3, n4) (inr r)
                    ]
                  ]
                ]
              ]
        ]
