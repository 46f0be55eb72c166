-- ===== src/Regex/Walk.antt =====
-- Runs of the automaton that end in a match, from their front.
use small_lib_c.Base.{ℕ, zero, suc, ◌<◌, ◌≡◌, true, Option, none, some, length, get_elem?}
use small_lib_c.Regex.{char_at}
use small_lib_c.Regex.Nfa.{Inst, match}
use small_lib_c.Regex.Exec.{Env, takes}
use small_lib_c.Regex.Graph.{OneOf, silent, Reaches, begin, quiet, read, Accepts}

module _ (env : Env) where
  -- `Walk n pc i j`: n steps from `pc` at i to a match at j.
  pub data Walk : ℕ → ℕ → ℕ → ℕ → Type 0 where
    arrive : {pc i : ℕ} (x : Inst) → get_elem? env.nfa pc ≡ some x → x.op ≡ match → Walk zero pc i i
    slip :
        {n pc q i j : ℕ} (x : Inst)
        → get_elem? env.nfa pc ≡ some x
        → OneOf (some q) (silent env x i)
        → Walk n q i j
        → Walk (suc n) pc i j
    take_byte :
        {n pc q i j : ℕ} (x : Inst)
        → get_elem? env.nfa pc ≡ some x
        → i < length env.str
        → takes env x (char_at env.str i) ≡ some true
        → x.out1 ≡ some q
        → Walk n q (suc i) j
        → Walk (suc n) pc i j

  abbrev pub WalkFrom : Option ℕ → ℕ → ℕ → ℕ → Type 0
  WalkFrom none n i j = ⊥
  WalkFrom (some q) n i j = Walk n q i j

  extend :
      {root start sp pc n e : ℕ}
      → Reaches env root start sp pc
      → Walk n pc sp e
      → (m : ℕ) × Walk m root start e
  extend {n} begin w = (n, w)
  extend (quiet x r at o) w = extend r (slip x at o w)
  extend (read x r at h t o) w = extend r (take_byte x at h t o w)

  pub Walk-Accepts : {root start e : ℕ} → Accepts env root start e → (n : ℕ) × Walk n root start e
  Walk-Accepts a = extend a.reached (arrive a.inst a.there a.accepting)

  reach_on :
      {root start sp pc n e : ℕ}
      → Reaches env root start sp pc
      → Walk n pc sp e
      → Accepts env root start e
  reach_on {pc} r (arrive x at m) = record {
    pc = pc;
    inst = x;
    reached = r;
    there = at;
    accepting = m;
  }
  reach_on r (slip x at o w) = reach_on (quiet x r at o) w
  reach_on r (take_byte x at h t o w) = reach_on (read x r at h t o) w

  pub Accepts-Walk : {root start n e : ℕ} → Walk n root start e → Accepts env root start e
  Accepts-Walk w = reach_on begin w
