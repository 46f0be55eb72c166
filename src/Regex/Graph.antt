-- ===== src/Regex/Graph.antt =====
-- The automaton of src/c/regex/regexec.c as a graph: what a run from a start can reach.
use small_lib_c.Base.{
  ℕ, suc, ◌*◌, ◌≤◌, ◌<◌, ◌≡◌, ◌≢◌, List, [], ◌∷◌, Bool, true, Option, none, some, ◌⊎◌, arith,
  length, get_elem?, if◌then◌else◌,
}
use small_lib_c.Regex.{char_at}
use small_lib_c.Regex.Nfa.{Opcode, Inst, save, backref, match}
use small_lib_c.Regex.Exec.{Env, at_bol, at_eol, takes}

abbrev pub OneOf : Option ℕ → List (Option ℕ) → Type 0
OneOf q [] = ⊥
OneOf q (x ∷ xs) = (q ≡ x) ⊎ OneOf q xs

-- An exit stays in a list of n instructions.
abbrev pub InRange : (n : ℕ) → Option ℕ → Type 0
InRange n none = Unit {0}
InRange n (some q) = q < n

module _ (env : Env) where
  -- The exits that are taken at a position with no byte read.
  unfoldable pub silent : Inst → ℕ → List (Option ℕ)
  silent i sp = elim i.op [
    | Opcode.jmp ↦ i.out1 ∷ []
    | Opcode.split ↦ i.out1 ∷ i.out2 ∷ []
    | Opcode.save ↦ i.out1 ∷ []
    | Opcode.bol ↦ if at_bol env sp then i.out1 ∷ [] else []
    | Opcode.eol ↦ if at_eol env sp then i.out1 ∷ [] else []
    | _ ↦ []
  ]

  -- `Reaches start root sp pc`: a run from `root` at `start` comes to `pc` at `sp`.
  pub data Reaches (root start : ℕ) : ℕ → ℕ → Type 0 where
    begin : Reaches root start start root
    quiet :
        {sp p q : ℕ} (i : Inst)
        → Reaches root start sp p
        → get_elem? env.nfa p ≡ some i
        → OneOf (some q) (silent i sp)
        → Reaches root start sp q
    read :
        {sp p q : ℕ} (i : Inst)
        → Reaches root start sp p
        → get_elem? env.nfa p ≡ some i
        → sp < length env.str
        → takes env i (char_at env.str sp) ≡ some true
        → i.out1 ≡ some q
        → Reaches root start (suc sp) q

  -- A run that ends in the instruction of a match.
  pub record Accepts (root start sp : ℕ) : Type 0 where
    pub pc : ℕ
    pub inst : Inst
    pub reached : Reaches root start sp pc
    pub there : get_elem? env.nfa pc ≡ some inst
    pub accepting : inst.op ≡ match

  -- What the matcher asks of the automaton: every exit is an instruction, no back reference, every
  -- saved position has a place, and no bracket expression reads behind the pattern.
  pub record FitsInst (i : Inst) : Type 0 where
    pub first : InRange (length env.nfa) i.out1
    pub second : InRange (length env.nfa) i.out2
    pub plain : i.op ≢ backref
    pub place : i.op ≡ save → i.v1 < env.nmatch * 2
    pub decides : (c : ℕ) → (b : Bool) × (takes env i c ≡ some b)

  abbrev pub Fits : Type 0
  Fits = (p : ℕ) (i : Inst) → get_elem? env.nfa p ≡ some i → FitsInst i

  pub Reaches-le : {root start sp pc : ℕ} → Reaches root start sp pc → start ≤ sp
  Reaches-le begin = omega arith
  Reaches-le (quiet i r e m) = Reaches-le r
  Reaches-le (read i r e h t o) = omega (arith, Reaches-le r)
