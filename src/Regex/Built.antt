-- ===== src/Regex/Built.antt =====
-- The automaton of src/c/regex/regexec.c matches what its expression denotes.
pub mod Sound
pub mod Complete
use small_lib_c.Base.{
  ℕ, zero, suc, ◌+◌, ◌-◌, ◌*◌, ◌≤◌, ◌<◌, ◌≡◌, ◌≢◌, ◌↔◌, refl, sym, ◌∙◌, ap, subst, List, [], ◌∷◌,
  Bool, true, false, not, ◌&&◌, Option, none, some, ◌⊎◌, inl, inr, length, get_elem?, arith, ◌==◌,
  ==_iff, Bool-cases, ltb, if◌then◌else◌,
}
use small_lib_c.Regex.{char_at, has_flag, reg_newline, reg_notbol, reg_noteol}
use small_lib_c.Regex.Bracket.{fold, eval_bracket}
use small_lib_c.Regex.Nfa.{Opcode, Inst, inst, match}
use small_lib_c.Regex.Exec.{Env, takes, at_bol, at_eol}
use small_lib_c.Regex.Graph.{OneOf, silent}
use small_lib_c.Regex.Language.{Expr, Byte, Many, finished, further, LineStart, LineEnd, Denotes}
use small_lib_c.Regex.Placed
use small_lib_c.Regex.Walk.{Walk, arrive, slip, take_byte, WalkFrom}

module _ (env : Env) where
  abbrev pub Means : Expr → ℕ → ℕ → Type 0
  Means = Denotes env.pat env.str env.cflags env.eflags

  pub at_bol_iff :
      (i : ℕ) → (at_bol env i ≡ true) ↔ LineStart env.pat env.str env.cflags env.eflags i
  unfolding at_bol
  at_bol_iff i = ground arith

  pub at_eol_iff : (i : ℕ) → (at_eol env i ≡ true) ↔ LineEnd env.pat env.str env.cflags env.eflags i
  unfolding at_eol
  at_eol_iff i = ground arith

  pub takes-char :
      (v c : ℕ) (out : Option ℕ)
      → (takes env (inst Opcode.char v 0 out none) c ≡ some true)
        ↔ (fold env.cflags c ≡ fold env.cflags v)
  unfolding takes
  takes-char v c out = ground arith

  pub takes-any :
      (c : ℕ) (out : Option ℕ)
      → (takes env (inst Opcode.any 0 0 out none) c ≡ some true)
        ↔ (has_flag env.cflags reg_newline ≡ false) ⊎ (c ≢ 10)
  unfolding takes
  takes-any c out = ground arith

  abbrev pub InstAt : Option ℕ → Inst → Type 0
  InstAt = Placed.InstAt env.nfa 0

  abbrev pub Built : Expr → (entry out : Option ℕ) → Type 0
  Built = Placed.Built env.nfa 0

  -- A run from the entry is a stretch that the expression matches and a run from `out`.
  pub record Passes (P : ℕ → ℕ → Type 0) (out : Option ℕ) (n i j : ℕ) : Type 0 where
    pub mid : ℕ
    pub steps : ℕ
    pub part : P i mid
    pub onward : WalkFrom env out steps mid j
    pub fewer : steps ≤ n

  pub WalkFrom-eq :
      {q : ℕ} (out : Option ℕ) (n i j : ℕ)
      → out ≡ some q
      → Walk env n q i j
      → WalkFrom env out n i j
  WalkFrom-eq none n i j e w = cc
  WalkFrom-eq (some p) n i j e w =
      let same : _ ≡ p = ground (arith, e) in subst (λ x. Walk env n x i j) same w

  -- The first step of a run from an instruction that takes a byte.
  pub record ByteStep (x : Inst) (n i j : ℕ) : Type 0 where
    pub inside : i < length env.str
    pub taken : takes env x (char_at env.str i) ≡ some true
    pub rest : ℕ
    pub shorter : rest ≤ n
    pub onward : WalkFrom env x.out1 rest (suc i) j

  pub record SilentStep (x : Inst) (n i j : ℕ) : Type 0 where
    pub target : ℕ
    pub exit : OneOf (some target) (silent env x i)
    pub rest : ℕ
    pub shorter : n ≡ suc rest
    pub onward : Walk env rest target i j

  pub first_step :
      {n p i j : ℕ} (x : Inst)
      → Walk env n p i j
      → get_elem? env.nfa p ≡ some x
      → x.op ≢ match
      → ByteStep x n i j ⊎ SilentStep x n i j
  first_step x (arrive y at m) at' other = absurd (other (ground (arith, at, at', m)))
  first_step x (slip {n} {pc} {q} {i} {j} y at o w) at' other =
      let same : y ≡ x = ground (arith, at, at') in
      inr (record {
        target = q;
        exit = subst (λ z. OneOf (some q) (silent env z i)) same o;
        rest = n;
        shorter = refl;
        onward = w;
      })
  first_step x (take_byte {n} {pc} {q} {i} {j} y at h t o w) at' other =
      let same : y ≡ x = ground (arith, at, at') in
      inl (record {
        inside = h;
        taken = subst (λ z. takes env z (char_at env.str i) ≡ some true) same t;
        rest = n;
        shorter = omega arith;
        onward = WalkFrom-eq x.out1 n (suc i) j (ap (λ z. z.out1) (sym same) ∙ o) w;
      })

  pub step_from :
      (x : Inst) (entry : Option ℕ) (n i j : ℕ)
      → InstAt entry x
      → WalkFrom env entry n i j
      → x.op ≢ match
      → ByteStep x n i j ⊎ SilentStep x n i j
  step_from x none n i j a w other = absurd w
  step_from x (some p) n i j a w other =
      let same : a.at ≡ p = ground (arith, a.linked) in
      first_step x w (subst (λ z. get_elem? env.nfa z ≡ some x) same a.there) other
