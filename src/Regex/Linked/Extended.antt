-- ===== src/Regex/Linked/Extended.antt =====
-- The loops over branches of src/c/regex/regcomp.c.
use small_lib_c.Base.{
  ℕ, zero, suc, ◌+◌, ◌-◌, ◌≤◌, ◌<◌, ◌≡◌, refl, ◌∙◌, ap, List, Bool, true, false, ◌||◌, Option, none,
  some, inl, inr, arith, length, ◌==◌, Bool-cases, if◌then◌else◌,
}
use small_lib_c.Regex.{AstOp, failed, char_at}
use small_lib_c.Regex.Compile.{Ctx, reserve, emit, skip, join, finish}
use small_lib_c.Regex.Parse.{parse_ere_piece, parse_ere_branch, compile_ere}
use small_lib_c.Regex.Parse.Brackets.{here}
use small_lib_c.Regex.Linked.{Below, Good, Grown, Failed, Returns, Outcome, Grown-trans, Emitted}
use small_lib_c.Regex.Linked.Copy.{Grown-refl}
use small_lib_c.Regex.Linked.Bracket.{char_at-lt, at_byte, move_lem}
use small_lib_c.Regex.Linked.Groups.{CompileSpec}
use small_lib_c.Regex.Linked.Atoms.{Outcome-trans, ere_piece-Outcome}
use small_lib_c.Regex.Linked.Loops.{finish_lem, finish_failed, joined}

module _ (grants : ℕ → Bool) (pat : List ℕ) where
  abbrev L : ℕ
  L = length pat

  module _ (compile : Ctx → Ctx) where
    branch_failed :
        (k : ℕ) (root : Option ℕ) (c : Ctx)
        → Failed L c
        → Failed L (parse_ere_branch grants pat compile (suc k) root c)
    unfolding parse_ere_branch
    branch_failed k root c f = rw (f.fails) (finish_failed grants pat c root f)

    abbrev at_end : Ctx → Bool
    at_end c = char_at pat c.pos == 0 || char_at pat c.pos == b'|' || char_at pat c.pos == b')'

    branch_ended :
        (k : ℕ) (root : Option ℕ) (c : Ctx)
        → Good L c
        → at_end c ≡ true
        → parse_ere_branch grants pat compile (suc k) root c ≡ finish grants c root
    unfolding parse_ere_branch
    branch_ended k root c g y =
        let running : failed c.err ≡ false = ap failed g.fine in rw (running, y) refl

    module _ (m : ℕ) (spec : CompileSpec grants pat compile m) where
      branch_lem :
          (k : ℕ) (root : Option ℕ) (c : Ctx)
          → Good L c
          → Below (length c.prog) root
          → L - c.pos < k
          → L - c.pos < suc m
          → Outcome L c.pos c (parse_ere_branch grants pat compile k root c)
            × (at_end c ≡ false
                → Outcome L (c.pos + 1) c (parse_ere_branch grants pat compile k root c))
      unfolding parse_ere_branch
      branch_lem zero root c g b fuel enough = absurd (omega arith)
      branch_lem (suc k) root c g b fuel enough =
          let running : failed c.err ≡ false = ap failed g.fine in
          let d = parse_ere_piece grants pat compile c in
          let e = join grants d AstOp.concat root (some d.ret) in
          elim (Bool-cases (at_end c)) [
            | inl y ↦ (rw (running, y) (finish_lem grants pat c root g b), λ n. absurd (cc (y, n)))
            | inr n ↦
                let inside = char_at-lt pat c.pos (λ z. ground (arith, n, z)) in
                elim (ere_piece-Outcome grants pat compile m spec c g inside (omega arith)) [
                  | inl f ↦
                      (rw (running, n, f.fails) (inl f), λ _. rw (running, n, f.fails) (inl f))
                  | inr r ↦
                      let going : failed d.err ≡ false = ap failed r.grown.good.fine in
                      let forth = r.grown.behind in
                      elim (joined grants pat c d AstOp.concat root (c.pos + 1) r b) [
                        | inl f ↦
                            let stuck = still_failed k inside fuel e f in
                            (
                              rw (running, n, going) (inl stuck),
                              λ _. rw (running, n, going) (inl stuck),
                            )
                        | inr q ↦
                            let o =
                              (branch_lem k (some e.ret) e q.result.grown.good q.result.returned
                                (omega (arith, q.same_pos, forth, inside))
                                (omega (arith, q.same_pos, forth, enough))).0 in
                            let p = Grown-trans L r.grown q.result.grown in
                            let rest = parse_ere_branch grants pat compile k (some e.ret) e in
                            (
                              rw (running, n, going)
                                  (Outcome-trans grants pat c.pos p
                                    (omega (arith, forth, q.same_pos)) (omega arith) o),
                              λ _.
                                  rw (running, n, going)
                                    (Outcome-trans grants pat (c.pos + 1) p
                                      (omega (arith, forth, q.same_pos)) (omega arith) o),
                            )
                      ]
                ]
          ]
        where
          still_failed :
              (k : ℕ)
              → c.pos < L
              → L - c.pos < suc k
              → (e : Ctx) → Failed L e
              → Failed L (parse_ere_branch grants pat compile k (some e.ret) e)
          still_failed zero inside fuel e f = absurd (omega arith)
          still_failed (suc k) inside fuel e f = branch_failed k (some e.ret) e f

  ere_failed :
      (k : ℕ) (root : Option ℕ) (c : Ctx)
      → Failed L c
      → Failed L (compile_ere grants pat (suc k) root c)
  unfolding compile_ere
  ere_failed k root c f = rw (f.fails) (finish_failed grants pat c root f)

  -- The bar behind a branch.
  past_bar : Ctx → Ctx
  past_bar e = if here grants pat e == b'|' then skip e 1 else e

  bar_failed : (e : Ctx) → Failed L e → Failed L (past_bar e)
  unfolding past_bar
  bar_failed e f = elim (Bool-cases (char_at pat e.pos == b'|')) [
    | inl y ↦ rw y (record { fails = f.fails; fuelled = f.fuelled })
    | inr n ↦ rw n f
  ]

  bar_Grown :
      (e : Ctx)
      → Good L e
      → Grown L e.pos e (past_bar e) × (char_at pat e.pos ≡ b'|' → e.pos + 1 ≤ (past_bar e).pos)
  unfolding past_bar
  bar_Grown e g = elim (Bool-cases (char_at pat e.pos == b'|')) [
    | inl y ↦
        let low = at_byte pat e.pos b'|' y (omega arith) in
        rw y (
          move_lem grants pat e.pos e (e.pos + 1) g (omega arith) (omega (arith, low)),
          λ _. omega arith,
        )
    | inr n ↦ rw n (Grown-refl L grants g, λ h. absurd (ground (arith, n, h)))
  ]

  pos_finish : (c : Ctx) → (finish grants c none).pos ≡ c.pos
  unfolding finish emit reserve
  pos_finish c = ground arith

  pub compile_ere-Outcome :
      (k : ℕ) (root : Option ℕ) (c : Ctx)
      → Good L c
      → Below (length c.prog) root
      → L - c.pos < k
      → Outcome L c.pos c (compile_ere grants pat k root c)
  unfolding compile_ere past_bar
  compile_ere-Outcome zero root c g b fuel = absurd (omega arith)
  compile_ere-Outcome (suc k) root c g b fuel =
      let running : failed c.err ≡ false = ap failed g.fine in
      let d = parse_ere_branch grants pat (compile_ere grants pat k none) (suc k) none c in
      let e = join grants d AstOp.alt root (some d.ret) in
      elim (Bool-cases (char_at pat c.pos == 0 || char_at pat c.pos == b')')) [
        | inl y ↦ rw (running, y) (finish_lem grants pat c root g b)
        | inr n ↦
            let inside = char_at-lt pat c.pos (λ z. ground (arith, n, z)) in
            let branch =
              branch_lem (compile_ere grants pat k none) k
                (λ x gx fx. compile_ere-Outcome k none x gx tt fx) (suc k) none c g tt fuel fuel in
            elim (branch.0) [
              | inl f ↦ rw (running, n, f.fails) (inl f)
              | inr r ↦
                  let going : failed d.err ≡ false = ap failed r.grown.good.fine in
                  rw (running, n, going)
                    (elim (joined grants pat c d AstOp.alt root c.pos r b) [
                      | inl f ↦
                          inl
                            (still_failed k inside fuel (some e.ret) (past_bar e) (bar_failed e f))
                      | inr q ↦
                          let p = Grown-trans L r.grown q.result.grown in
                          let bar = bar_Grown e q.result.grown.good in
                          let moved : c.pos + 1 ≤ (past_bar e).pos =
                            progress e (past_bar e) n branch.1 r q bar in
                          let rest = compile_ere grants pat k (some e.ret) (past_bar e) in
                          Outcome-trans grants pat c.pos (Grown-trans L p bar.0)
                            (omega (arith, moved)) (omega arith)
                            (compile_ere-Outcome k (some e.ret) (past_bar e) bar.0.good
                              (omega (arith, q.result.returned, bar.0.longer))
                              (omega (arith, moved, inside)))
                    ])
            ]
      ]
    where
      still_failed :
          (k : ℕ)
          → c.pos < L
          → L - c.pos < suc k
          → (root : Option ℕ) → (e : Ctx) → Failed L e
          → Failed L (compile_ere grants pat k root e)
      still_failed zero inside fuel r e f = absurd (omega arith)
      still_failed (suc k) inside fuel r e f = ere_failed k r e f

      progress :
          (e f : Ctx)
          → (char_at pat c.pos == 0 || char_at pat c.pos == b')') ≡ false
          → (at_end (compile_ere grants pat k none) c ≡ false
              → Outcome L
                  (c.pos + 1)
                  c
                  (parse_ere_branch grants pat (compile_ere grants pat k none) (suc k) none c))
          → Returns L c.pos c
              (parse_ere_branch grants pat (compile_ere grants pat k none) (suc k) none c)
          → Emitted L grants
              (parse_ere_branch grants pat (compile_ere grants pat k none) (suc k) none c)
              e
          → Grown L e.pos e f × (char_at pat e.pos ≡ b'|' → e.pos + 1 ≤ f.pos)
          → c.pos + 1 ≤ f.pos
      progress e f more forth r q bar =
          elim (Bool-cases (at_end (compile_ere grants pat k none) c)) [
            | inr n ↦ elim (forth n) [
              | inl bad ↦
                  let wrong = bad.fails in
                  let right : failed
                        (parse_ere_branch grants pat (compile_ere grants pat k none) (suc k) none
                          c).err
                      ≡ false =
                    ap failed r.grown.good.fine in
                  absurd (cc (wrong, right))
              | inr r' ↦ omega (arith, r'.grown.behind, q.same_pos, bar.0.behind)
            ]
            | inl y ↦
                let bar_here : char_at pat c.pos ≡ b'|' = ground (arith, y, more) in
                let same : (parse_ere_branch grants pat (compile_ere grants pat k none) (suc k) none
                      c).pos
                    ≡ c.pos =
                  ap (λ z. z.pos) (branch_ended (compile_ere grants pat k none) k none c g y)
                  ∙ pos_finish c in
                let at : e.pos ≡ c.pos = q.same_pos ∙ same in
                let bar_there : char_at pat e.pos ≡ b'|' = ap (λ z. char_at pat z) at ∙ bar_here in
                omega (arith, bar.1 bar_there, at)
          ]
