-- ===== src/Regex/Linked/Loops.antt =====
-- The loops of src/c/regex/regcomp.c: with fuel above the bytes that are left they end.
use small_lib_c.Base.{
  ℕ, zero, suc, ◌+◌, ◌-◌, ◌≤◌, ◌<◌, ◌≡◌, refl, ap, List, Bool, false, ◌&&◌, ◌||◌, Option, none,
  some, ◌⊎◌, inl, inr, arith, length, ◌==◌, Bool-cases,
}
use small_lib_c.Regex.{AstOp, failed, char_at}
use small_lib_c.Regex.Compile.{Ctx, join, finish}
use small_lib_c.Regex.Parse.{parse_bre_piece, compile_bre}
use small_lib_c.Regex.Linked.{
  Below, Below-mono, Good, Failed, Returns, Outcome, Grown-trans, emit-failed, Emitted, emit_lem,
}
use small_lib_c.Regex.Linked.Copy.{Grown-refl}
use small_lib_c.Regex.Linked.Bounds.{Emitted-refl, join-Piece}
use small_lib_c.Regex.Linked.Bracket.{char_at-lt}
use small_lib_c.Regex.Linked.Atoms.{Outcome-trans, bre_piece-Outcome}

module _ (grants : ℕ → Bool) (pat : List ℕ) where
  abbrev L : ℕ
  L = length pat

  pub finish_lem :
      (c : Ctx) (root : Option ℕ)
      → Good L c
      → Below (length c.prog) root
      → Outcome L c.pos c (finish grants c root)
  unfolding finish
  finish_lem c none g b =
      elim (emit_lem L grants c AstOp.empty 0 0 none none g
        (record { left = tt; right = tt; group = omega arith })) [
          | inl f ↦ inl f
          | inr e ↦ inr e.result
        ]
  finish_lem c (some r) g b =
      let p = Grown-refl L grants g in
      inr (record {
        grown = record {
          good = record { fine = g.fine; inside = g.inside; linked = g.linked };
          behind = omega arith;
          keeps = p.keeps;
          longer = omega arith;
          groups = omega arith;
          stack = refl;
        };
        returned = b;
      })

  pub finish_failed : (c : Ctx) (root : Option ℕ) → Failed L c → Failed L (finish grants c root)
  unfolding finish
  finish_failed c none f = rw (emit-failed L grants c AstOp.empty 0 0 none none f.fails) f
  finish_failed c (some r) f = record { fails = f.fails; fuelled = f.fuelled }

  -- The pieces so far and one more.
  pub joined :
      (c d : Ctx) (op : AstOp) (root : Option ℕ) (lo : ℕ)
      → Returns L lo c d
      → Below (length c.prog) root
      → Failed L (join grants d op root (some d.ret))
        ⊎ Emitted L grants d (join grants d op root (some d.ret))
  joined c d op root lo r b =
      elim (join-Piece L grants d d op root (some d.ret) (
        inr (
          Emitted-refl L grants r.grown.good r.returned,
          Below-mono root r.grown.longer b,
          r.returned,
        ))) [ inl f ↦ inl f | inr h ↦ inr h.0 ]

  -- A step, what joins it, and the rest.
  pub step_on :
      (c d e rest : Ctx) (lo : ℕ)
      → Returns L lo c d
      → Emitted L grants d e
      → c.pos ≤ d.pos
      → Outcome L e.pos e rest
      → Outcome L c.pos c rest
  step_on c d e rest lo r q le o =
      Outcome-trans grants pat c.pos (Grown-trans L r.grown q.result.grown)
        (omega (arith, le, q.same_pos)) (omega arith) o

  bre_failed :
      (k : ℕ) (root : Option ℕ) (c : Ctx)
      → Failed L c
      → Failed L (compile_bre grants pat (suc k) root c)
  unfolding compile_bre
  bre_failed k root c f = rw (f.fails) (finish_failed c root f)

  pub compile_bre-Outcome :
      (k : ℕ) (root : Option ℕ) (c : Ctx)
      → Good L c
      → Below (length c.prog) root
      → L - c.pos < k
      → Outcome L c.pos c (compile_bre grants pat k root c)
  unfolding compile_bre
  compile_bre-Outcome zero root c g b fuel = absurd (omega arith)
  compile_bre-Outcome (suc k) root c g b fuel =
      let running : failed c.err ≡ false = ap failed g.fine in
      let d = parse_bre_piece grants pat (compile_bre grants pat k none) c in
      let e = join grants d AstOp.concat root (some d.ret) in
      elim (Bool-cases
        (char_at pat c.pos == 0 || char_at pat c.pos == b'\\' && char_at pat (c.pos + 1) == b')')) [
          | inl y ↦ rw (running, y) (finish_lem c root g b)
          | inr n ↦
              let inside = char_at-lt pat c.pos (λ z. ground (arith, n, z)) in
              elim (bre_piece-Outcome grants pat (compile_bre grants pat k none) k
                (λ x gx fx. compile_bre-Outcome k none x gx tt fx) c g inside (omega arith)) [
                  | inl f ↦ rw (running, n, f.fails) (inl f)
                  | inr r ↦
                      let going : failed d.err ≡ false = ap failed r.grown.good.fine in
                      let forth = r.grown.behind in
                      rw (running, n, going)
                        (elim (joined c d AstOp.concat root (c.pos + 1) r b) [
                          | inl f ↦ inl (still_failed k inside fuel e f)
                          | inr q ↦
                              step_on c d e (compile_bre grants pat k (some e.ret) e) (c.pos + 1) r
                                q (omega (arith, forth))
                                (compile_bre-Outcome k (some e.ret) e q.result.grown.good
                                  q.result.returned (omega (arith, q.same_pos, forth, inside)))
                        ])
                ]
        ]
    where
      still_failed :
          (k : ℕ)
          → c.pos < L
          → L - c.pos < suc k
          → (e : Ctx) → Failed L e
          → Failed L (compile_bre grants pat k (some e.ret) e)
      still_failed zero inside fuel e f = absurd (omega arith)
      still_failed (suc k) inside fuel e f = bre_failed k (some e.ret) e f
