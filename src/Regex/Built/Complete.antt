-- ===== src/Regex/Built/Complete.antt =====
-- A stretch that an expression matches is a run through its automaton.
use small_lib_c.Base.{
  ℕ, suc, ◌+◌, ◌*◌, ◌<◌, ◌≡◌, refl, sym, subst, true, Option, none, some, inl, inr, length,
}
use small_lib_c.Regex.{char_at}
use small_lib_c.Regex.Nfa.{Opcode, Inst, inst}
use small_lib_c.Regex.Exec.{Env, takes}
use small_lib_c.Regex.Graph.{OneOf, silent}
use small_lib_c.Regex.Language.{Expr, Byte, Many, finished, further}
use small_lib_c.Regex.Walk.{slip, take_byte, WalkFrom}
use small_lib_c.Regex.Built.{
  Means, at_bol_iff, at_eol_iff, takes-char, takes-any, InstAt, Built, WalkFrom-eq,
}

module _ (env : Env) where
  abbrev Onward : Option ℕ → ℕ → ℕ → Type 0
  Onward entry i j = (n : ℕ) × WalkFrom env entry n i j

  through :
      (x : Inst) (entry out : Option ℕ) (n i j : ℕ)
      → InstAt env entry x
      → ((q : ℕ) → some q ≡ out → OneOf (some q) (silent env x i))
      → WalkFrom env out n i j
      → Onward entry i j
  through x entry none n i j a exit w = absurd w
  through x entry (some q) n i j a exit w =
      (suc n, WalkFrom-eq env entry (suc n) i j a.linked (slip x a.there (exit q refl) w))

  by_byte :
      (x : Inst) (entry out : Option ℕ) (n i j : ℕ)
      → InstAt env entry x
      → x.out1 ≡ out
      → i < length env.str
      → takes env x (char_at env.str i) ≡ some true
      → WalkFrom env out n (suc i) j
      → Onward entry i j
  by_byte x entry none n i j a exit h t w = absurd w
  by_byte x entry (some q) n i j a exit h t w =
      (suc n, WalkFrom-eq env entry (suc n) i j a.linked (take_byte x a.there h t exit w))

  Byte-on :
      (P : ℕ → Type 0) (x : Inst) (entry : Option ℕ) (n i k j : ℕ)
      → InstAt env entry x
      → ((c : ℕ) → P c → takes env x c ≡ some true)
      → Byte env.pat env.str env.cflags env.eflags P i k
      → WalkFrom env x.out1 n k j
      → Onward entry i j
  Byte-on P x entry n i k j a means b w =
      by_byte x entry x.out1 n i j a refl b.inside (means (char_at env.str i) b.fits)
        (subst (λ z. WalkFrom env x.out1 n z j) b.ends w)

  star_on :
      (P : ℕ → ℕ → Type 0) (entry body out : Option ℕ)
      → InstAt env entry (inst Opcode.split 0 0 body out)
      → ((n i k j : ℕ) → P i k → WalkFrom env entry n k j → Onward body i j)
      → (n j : ℕ) {i k : ℕ} → Many P i k
      → WalkFrom env out n k j
      → Onward entry i j
  unfolding silent
  star_on P entry body out a inner n j (finished {i} {j = k} e) w =
      through (inst Opcode.split 0 0 body out) entry out n i j a (λ q m. inr (inl m))
        (subst (λ z. WalkFrom env out n z j) (sym e) w)
  star_on P entry body out a inner n j (further {i} {j = k} {k = h} d ds) w =
      let (m, w') = star_on P entry body out a inner n j ds w in
      let (m', w'') = inner m i h j d w' in
      through (inst Opcode.split 0 0 body out) entry body m' i j a (λ q e. inl e) w''

  -- A stretch that an expression matches and a run from `out` are a run from the entry.
  pub Means-WalkFrom :
      (r : Expr) (entry out : Option ℕ) (n i k j : ℕ)
      → Built env r entry out
      → Means env r i k
      → WalkFrom env out n k j
      → (m : ℕ) × WalkFrom env entry m i j
  unfolding silent takes
  Means-WalkFrom Expr.empty entry out n i k j b d w =
      (n, subst (λ x. WalkFrom env x n i j) (sym b) (subst (λ x. WalkFrom env out n x j) (sym d) w))
  Means-WalkFrom Expr.any entry out n i k j b d w =
      Byte-on _ (inst Opcode.any 0 0 out none) entry n i k j b (λ c. (takes-any env c out).1) d w
  Means-WalkFrom (Expr.char v) entry out n i k j b d w =
      Byte-on _ (inst Opcode.char v 0 out none) entry n i k j b (λ c. (takes-char env v c out).1) d
        w
  Means-WalkFrom (Expr.bracket s e) entry out n i k j b d w =
      Byte-on _ (inst Opcode.bracket s e out none) entry n i k j b (λ c t. t) d w
  Means-WalkFrom Expr.bol entry out n i k j b (e, l) w =
      through (inst Opcode.bol 0 0 out none) entry out n i j b
        (λ q m. rw ((at_bol_iff env i).1 l) (inl m)) (subst (λ x. WalkFrom env out n x j) (sym e) w)
  Means-WalkFrom Expr.eol entry out n i k j b (e, l) w =
      through (inst Opcode.eol 0 0 out none) entry out n i j b
        (λ q m. rw ((at_eol_iff env i).1 l) (inl m)) (subst (λ x. WalkFrom env out n x j) (sym e) w)
  Means-WalkFrom (Expr.concat l r) entry out n i k j (m, bl, br) (h, dl, dr) w =
      let (n', w') = Means-WalkFrom r m out n h k j br dr w in
      Means-WalkFrom l entry m n' i h j bl dl w'
  Means-WalkFrom (Expr.alt l r) entry out n i k j (a, b, x, bl, br) (inl d) w =
      let (n', w') = Means-WalkFrom l a out n i k j bl d w in
      through (inst Opcode.split 0 0 a b) entry a n' i j x (λ q e. inl e) w'
  Means-WalkFrom (Expr.alt l r) entry out n i k j (a, b, x, bl, br) (inr d) w =
      let (n', w') = Means-WalkFrom r b out n i k j br d w in
      through (inst Opcode.split 0 0 a b) entry b n' i j x (λ q e. inr (inl e)) w'
  Means-WalkFrom (Expr.star l) entry out n i k j (body, x, bl) d w =
      star_on (Means env l) entry body out x
        (λ n' i' k' j' d' w'. Means-WalkFrom l body entry n' i' k' j' bl d' w') n j d w
  Means-WalkFrom (Expr.group g l) entry out n i k j (a, x, bl) d w =
      let (n', w') = Means-WalkFrom l a out n i k j bl d w in
      through (inst Opcode.save (g * 2) 0 a none) entry a n' i j x (λ q e. inl e) w'
  Means-WalkFrom (Expr.group_end g) entry out n i k j b d w =
      through (inst Opcode.save (g * 2 + 1) 0 out none) entry out n i j b (λ q e. inl e)
        (subst (λ x. WalkFrom env out n x j) (sym d) w)
