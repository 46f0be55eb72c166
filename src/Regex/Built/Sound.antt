-- ===== src/Regex/Built/Sound.antt =====
-- A run through the automaton of an expression is a stretch that the expression matches.
use small_lib_c.Base.{
  ℕ, zero, suc, ◌+◌, ◌*◌, ◌≤◌, ◌≡◌, ◌≢◌, refl, sym, subst, [], ◌∷◌, Bool, true, false, Option, none,
  some, inl, inr, arith, if◌then◌else◌,
}
use small_lib_c.Regex.{char_at}
use small_lib_c.Regex.Nfa.{Opcode, Inst, inst, match}
use small_lib_c.Regex.Exec.{Env, takes, at_bol, at_eol}
use small_lib_c.Regex.Graph.{OneOf, silent}
use small_lib_c.Regex.Language.{Expr, Byte, Many, finished, further}
use small_lib_c.Regex.Walk.{Walk, WalkFrom}
use small_lib_c.Regex.Built.{
  Means, at_bol_iff, at_eol_iff, takes-char, takes-any, InstAt, Built, Passes, WalkFrom-eq,
  SilentStep, step_from,
}

module _ (env : Env) where
  -- An instruction that only takes bytes.
  Byte-pass :
      (P : ℕ → Type 0) (x : Inst) (entry : Option ℕ) (n i j : ℕ)
      → InstAt env entry x
      → WalkFrom env entry n i j
      → x.op ≢ match
      → ((q : ℕ) → OneOf (some q) (silent env x i) → ⊥)
      → ((c : ℕ) → takes env x c ≡ some true → P c)
      → Passes env (Byte env.pat env.str env.cflags env.eflags P) x.out1 n i j
  Byte-pass P x entry n i j a w other loud means = elim (step_from env x entry n i j a w other) [
    | inr s ↦ absurd (loud s.target s.exit)
    | inl b ↦ record {
      mid = suc i;
      steps = b.rest;
      part = record { inside = b.inside; ends = refl; fits = means (char_at env.str i) b.taken };
      onward = b.onward;
      fewer = b.shorter;
    }
  ]

  -- An instruction that takes no byte.
  silent_step :
      (x : Inst) (entry : Option ℕ) (n i j : ℕ)
      → InstAt env entry x
      → WalkFrom env entry n i j
      → x.op ≢ match
      → ((c : ℕ) → takes env x c ≢ some true)
      → SilentStep env x n i j
  silent_step x entry n i j a w other still = elim (step_from env x entry n i j a w other) [
    | inl b ↦ absurd (still (char_at env.str i) b.taken)
    | inr s ↦ s
  ]

  follow_exit :
      {q : ℕ} (out : Option ℕ) (n i j : ℕ)
      → OneOf (some q) (out ∷ [])
      → Walk env n q i j
      → WalkFrom env out n i j
  follow_exit out n i j (inl e) w = WalkFrom-eq env out n i j (sym e) w
  follow_exit out n i j (inr m) w = absurd m

  anchored :
      (b : Bool) {q : ℕ} (out : Option ℕ)
      → OneOf (some q) (if b then out ∷ [] else [])
      → (b ≡ true) × OneOf (some q) (out ∷ [])
  anchored true out m = (refl, m)
  anchored false out m = absurd m

  weaken :
      {P Q : ℕ → ℕ → Type 0} {out : Option ℕ} {n m i h j : ℕ}
      → n ≤ m
      → ((k : ℕ) → P h k → Q i k)
      → Passes env P out n h j
      → Passes env Q out m i j
  weaken le f p = record {
    mid = p.mid;
    steps = p.steps;
    part = f p.mid p.part;
    onward = p.onward;
    fewer = omega (arith, p.fewer, le);
  }

  -- The rounds of a star, for runs of at most `bound` steps.
  star_pass :
      (P : ℕ → ℕ → Type 0) (entry body out : Option ℕ)
      → InstAt env entry (inst Opcode.split 0 0 body out)
      → ((n i j : ℕ) → WalkFrom env body n i j → Passes env P entry n i j)
      → (bound n i j : ℕ) → n ≤ bound
      → WalkFrom env entry n i j
      → Passes env (Many P) out n i j
  unfolding silent takes
  star_pass P entry body out a inner zero n i j le w =
      let s = silent_step (inst Opcode.split 0 0 body out) entry n i j a w (cc) (λ c. cc) in
      absurd (omega (arith, s.shorter, le))
  star_pass P entry body out a inner (suc bound) n i j le w =
      let s = silent_step (inst Opcode.split 0 0 body out) entry n i j a w (cc) (λ c. cc) in
      elim (s.exit) [
        | inr m ↦ record {
          mid = i;
          steps = s.rest;
          part = finished refl;
          onward = follow_exit out s.rest i j m s.onward;
          fewer = omega (arith, s.shorter);
        }
        | inl e ↦
            let p = inner s.rest i j (WalkFrom-eq env body s.rest i j (sym e) s.onward) in
            let shorter : p.steps ≤ bound = omega (arith, s.shorter, le, p.fewer) in
            let more = star_pass P entry body out a inner bound p.steps p.mid j shorter p.onward in
            weaken (omega (arith, s.shorter, p.fewer)) (λ k m. further p.part m) more
      ]

  -- Every run from the entry of an expression begins with a stretch that it matches.
  pub Built-Passes :
      (r : Expr) (entry out : Option ℕ) (n i j : ℕ)
      → Built env r entry out
      → WalkFrom env entry n i j
      → Passes env (Means env r) out n i j
  unfolding silent takes
  Built-Passes Expr.empty entry out n i j b w = record {
    mid = i;
    steps = n;
    part = refl;
    onward = subst (λ x. WalkFrom env x n i j) b w;
    fewer = omega arith;
  }
  Built-Passes Expr.any entry out n i j b w =
      Byte-pass _ (inst Opcode.any 0 0 out none) entry n i j b w (cc) (λ q m. m)
        (λ c. (takes-any env c out).0)
  Built-Passes (Expr.char v) entry out n i j b w =
      Byte-pass _ (inst Opcode.char v 0 out none) entry n i j b w (cc) (λ q m. m)
        (λ c. (takes-char env v c out).0)
  Built-Passes (Expr.bracket s e) entry out n i j b w =
      Byte-pass _ (inst Opcode.bracket s e out none) entry n i j b w (cc) (λ q m. m) (λ c t. t)
  Built-Passes Expr.bol entry out n i j b w =
      let s = silent_step (inst Opcode.bol 0 0 out none) entry n i j b w (cc) (λ c. cc) in
      let (at, m) = anchored (at_bol env i) out s.exit in
      record {
        mid = i;
        steps = s.rest;
        part = (refl, (at_bol_iff env i).0 at);
        onward = follow_exit out s.rest i j m s.onward;
        fewer = omega (arith, s.shorter);
      }
  Built-Passes Expr.eol entry out n i j b w =
      let s = silent_step (inst Opcode.eol 0 0 out none) entry n i j b w (cc) (λ c. cc) in
      let (at, m) = anchored (at_eol env i) out s.exit in
      record {
        mid = i;
        steps = s.rest;
        part = (refl, (at_eol_iff env i).0 at);
        onward = follow_exit out s.rest i j m s.onward;
        fewer = omega (arith, s.shorter);
      }
  Built-Passes (Expr.concat l r) entry out n i j (m, bl, br) w =
      let p = Built-Passes l entry m n i j bl w in
      let q = Built-Passes r m out p.steps p.mid j br p.onward in
      weaken p.fewer (λ k d. (p.mid, p.part, d)) q
  Built-Passes (Expr.alt l r) entry out n i j (a, b, x, bl, br) w =
      let s = silent_step (inst Opcode.split 0 0 a b) entry n i j x w (cc) (λ c. cc) in
      elim (s.exit) [
        | inl e ↦
            weaken (omega (arith, s.shorter)) (λ k d. inl d)
              (Built-Passes l a out s.rest i j bl (WalkFrom-eq env a s.rest i j (sym e) s.onward))
        | inr m ↦
            weaken (omega (arith, s.shorter)) (λ k d. inr d)
              (Built-Passes r b out s.rest i j br (follow_exit b s.rest i j m s.onward))
      ]
  Built-Passes (Expr.star l) entry out n i j (body, x, bl) w =
      star_pass (Means env l) entry body out x (λ m k h. Built-Passes l body entry m k h bl) n n i j
        (omega arith) w
  Built-Passes (Expr.group g l) entry out n i j (a, x, bl) w =
      let s = silent_step (inst Opcode.save (g * 2) 0 a none) entry n i j x w (cc) (λ c. cc) in
      weaken (omega (arith, s.shorter)) (λ k d. d)
        (Built-Passes l a out s.rest i j bl (follow_exit a s.rest i j s.exit s.onward))
  Built-Passes (Expr.group_end g) entry out n i j b w =
      let s =
        silent_step (inst Opcode.save (g * 2 + 1) 0 out none) entry n i j b w (cc) (λ c. cc) in
      record {
        mid = i;
        steps = s.rest;
        part = refl;
        onward = follow_exit out s.rest i j s.exit s.onward;
        fewer = omega (arith, s.shorter);
      }
