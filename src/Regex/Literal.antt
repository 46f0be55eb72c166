-- ===== src/Regex/Literal.antt =====
-- regcomp of src/c/regex/regcomp.c on a pattern of bytes that stand for themselves: it is compiled.
use small_lib_c.Base.{
  ◌*◌, if◌then◌else◌, ℕ, zero, suc, ◌+◌, ◌≤◌, ◌<◌, ◌≡◌, refl, ap, ◌∙◌, subst, Bool, true, false,
  not, ◌&&◌, Option, none, some, List, [], ◌∷◌, ltb, ◌==◌, ◌⊎◌, inl, inr, arith, length, Bool-cases,
}
use small_lib_c.Regex.{no_error, failed, char_at, AstOp}
use small_lib_c.Regex.Compile.{Ctx, skip, reserve, emit, join, finish}
use small_lib_c.Regex.Parse.{parse_bre_atom, parse_bre_piece, compile_bre, check_end, first_ctx}

-- A byte that stands for itself wherever it is.
abbrev pub literal : ℕ → Bool
literal c =
    not (c == 0)
    && not (c == b'^')
    && not (c == b'$')
    && not (c == b'.')
    && not (c == b'[')
    && not (c == b'*')
    && not (c == b'\\')

abbrev pub all_literal : List ℕ → Bool
all_literal [] = true
all_literal (c ∷ s) = literal c && all_literal s

literal-at :
    (pat : List ℕ) (i : ℕ)
    → all_literal pat ≡ true
    → i < length pat
    → literal (char_at pat i) ≡ true
literal-at [] i h lt = absurd (omega arith)
literal-at (c ∷ s) zero h lt = ground (arith, h)
literal-at (c ∷ s) (suc i) h lt = literal-at s i (ground (arith, h)) (omega (arith, lt))

char_at-end : (pat : List ℕ) → char_at pat (length pat) ≡ 0
char_at-end [] = refl
char_at-end (c ∷ s) = char_at-end s

module _ (grants : ℕ → Bool) where
  -- Some room was not granted.
  abbrev pub Short : Type 0
  Short = (n : ℕ) × (grants n ≡ false)

  abbrev Ready : ℕ → Ctx → Type 0
  Ready n c = (c.err ≡ no_error) × (c.pos ≡ n) × (c.group_stack ≡ [])

  emit-Ready :
      (n : ℕ) (c : Ctx) (op : AstOp) (v1 v2 : ℕ) (left right : Option ℕ)
      → Ready n c
      → Ready n (emit grants c op v1 v2 left right) ⊎ Short
  unfolding emit reserve
  emit-Ready n c op v1 v2 left right (e, p, g) =
      let running : failed c.err ≡ false = ap failed e in
      elim (Bool-cases (ltb (length c.prog) c.cap)) [
        | inl y ↦ inl (rw (y, running) (e, p, g))
        | inr m ↦ elim (Bool-cases (grants (if c.cap == 0 then 16 else c.cap * 2))) [
          | inl y ↦ inl (rw (m, y, running) (e, p, g))
          | inr z ↦ inr (_, z)
        ]
      ]

  moved : (n : ℕ) (c : Ctx) → Ready n c ⊎ Short → Ready (n + 1) (skip c 1) ⊎ Short
  moved n c (inl (e, p, g)) = inl (e, ap (λ t. t + 1) p, g)
  moved n c (inr short) = inr short

  join-Ready :
      (n : ℕ) (c : Ctx) (op : AstOp) (root : Option ℕ) (piece : Option ℕ)
      → Ready n c
      → Ready n (join grants c op root piece) ⊎ Short
  unfolding join
  join-Ready n c op none piece r = inl r
  join-Ready n c op (some _) piece r = emit-Ready n c op 0 0 _ piece r

  finish-Ready :
      (n : ℕ) (c : Ctx) (root : Option ℕ) → Ready n c → Ready n (finish grants c root) ⊎ Short
  unfolding finish
  finish-Ready n c none r = emit-Ready n c AstOp.empty 0 0 none none r
  finish-Ready n c (some _) r = inl r

  module _ (pat : List ℕ) (plain : all_literal pat ≡ true) where
    -- A byte in the pattern, or the zero behind it.
    tame :
        (i : ℕ)
        → i ≤ length pat
        → ((char_at pat i == b'*') ≡ false) × ((char_at pat i == b'\\') ≡ false)
    tame i le = elim (Bool-cases (ltb i (length pat))) [
      | inl y ↦
          let h = literal-at pat i plain (ground (arith, y)) in
          (ground (arith, h), ground (arith, h))
      | inr m ↦
          let at : i ≡ length pat = ground (arith, m, le) in
          let z : char_at pat i ≡ 0 = ap (char_at pat) at ∙ char_at-end pat in
          (ground (arith, z), ground (arith, z))
    ]

    atom-Ready :
        (compile : Ctx → Ctx) (n : ℕ) (c : Ctx)
        → Ready n c
        → n < length pat
        → Ready (n + 1) (parse_bre_atom grants pat compile c) ⊎ Short
    unfolding parse_bre_atom
    atom-Ready compile n c (e, p, g) lt =
        let running : failed c.err ≡ false = ap failed e in
        let h = literal-at pat c.pos plain (omega (arith, p, lt)) in
        let t1 : (char_at pat c.pos == b'^') ≡ false = ground (arith, h) in
        let t2 : (char_at pat c.pos == b'$') ≡ false = ground (arith, h) in
        let t3 : (char_at pat c.pos == b'.') ≡ false = ground (arith, h) in
        let t4 : (char_at pat c.pos == b'[') ≡ false = ground (arith, h) in
        let t5 : (char_at pat c.pos == b'\\') ≡ false = ground (arith, h) in
        rw (running, t1, t2, t3, t4, t5)
          (moved n (emit grants c AstOp.char (char_at pat c.pos) 0 none none)
            (emit-Ready n c AstOp.char (char_at pat c.pos) 0 none none (e, p, g)))

    piece-Ready :
        (compile : Ctx → Ctx) (n : ℕ) (c : Ctx)
        → Ready n c
        → n < length pat
        → Ready (n + 1) (parse_bre_piece grants pat compile c) ⊎ Short
    unfolding parse_bre_piece
    piece-Ready compile n c (e, p, g) lt = elim (atom-Ready compile n c (e, p, g) lt) [
      | inr short ↦ inr short
      | inl (de, dp, dg) ↦
          let running : failed c.err ≡ false = ap failed e in
          let still : failed (parse_bre_atom grants pat compile c).err ≡ false = ap failed de in
          let here = tame c.pos (omega (arith, p, lt)) in
          let next = tame (parse_bre_atom grants pat compile c).pos (omega (arith, dp, lt)) in
          inl (rw (running, here.0, still, next.0, next.1) (de, dp, dg))
    ]

    compile_bre-Ready :
        (k : ℕ) (root : Option ℕ) (n : ℕ) (c : Ctx)
        → Ready n c
        → n ≤ length pat
        → length pat < k + n
        → Ready (length pat) (compile_bre grants pat k root c) ⊎ Short
    unfolding compile_bre
    compile_bre-Ready zero root n c r le enough = absurd (omega arith)
    compile_bre-Ready (suc k) root n c (e, p, g) le enough =
        let running : failed c.err ≡ false = ap failed e in
        elim (Bool-cases (n == length pat)) [
          | inl y ↦
              let at : n ≡ length pat = ground (arith, y) in
              let z : (char_at pat c.pos == 0) ≡ true =
                let zero_there : char_at pat c.pos ≡ 0 =
                  ap (char_at pat) (p ∙ at) ∙ char_at-end pat in
                ground (arith, zero_there) in
              subst (λ t. Ready t (compile_bre grants pat (suc k) root c) ⊎ Short) at
                (rw (running, z) (finish-Ready n c root (e, p, g)))
          | inr m ↦
              let lt : n < length pat = ground (arith, m, le) in
              let h = literal-at pat c.pos plain (omega (arith, p, lt)) in
              let t1 : (char_at pat c.pos == 0) ≡ false = ground (arith, h) in
              let t2 : (char_at pat c.pos == b'\\') ≡ false = ground (arith, h) in
              elim (piece-Ready (compile_bre grants pat k none) n c (e, p, g) lt) [
                | inr short ↦ inr short
                | inl rd ↦
                    let d = parse_bre_piece grants pat (compile_bre grants pat k none) c in
                    let still : failed d.err ≡ false = ap failed rd.0 in
                    elim (join-Ready (n + 1) d AstOp.concat root (some d.ret) rd) [
                      | inr short ↦ inr short
                      | inl re ↦
                          let f = join grants d AstOp.concat root (some d.ret) in
                          rw (running, t1, t2, still)
                            (compile_bre-Ready k (some f.ret) (n + 1) f re (omega (arith, lt))
                              (omega (arith, enough)))
                    ]
              ]
        ]

    -- The whole pattern is compiled without an error.
    pub literal-compiled :
        (failed (check_end pat (compile_bre grants pat (length pat + 1) none first_ctx)).err
          ≡ false)
        ⊎ Short
    unfolding check_end
    literal-compiled =
        elim (compile_bre-Ready (length pat + 1) none 0 first_ctx (refl, refl, refl) (omega arith)
          (omega arith)) [
            | inr short ↦ inr short
            | inl (e, p, g) ↦
                let c = compile_bre grants pat (length pat + 1) none first_ctx in
                let running : failed c.err ≡ false = ap failed e in
                let z : (char_at pat c.pos == 0) ≡ true =
                  let zero_there : char_at pat c.pos ≡ 0 = ap (char_at pat) p ∙ char_at-end pat in
                  ground (arith, zero_there) in
                let empty : (length c.group_stack == 0) ≡ true = ap (λ t. length t == 0) g in
                inl (rw (running, z, empty) running)
          ]
