-- ===== src/Regex/Returned.antt =====
-- regcomp of src/c/regex/regcomp.c: what it returns, and what it takes for it to return an error.
use small_lib_c.Base.{
  none, none, ℕ, ◌≡◌, ◌≢◌, List, Bool, true, false, some, ◌⊎◌, ◌+◌, inl, inr, Bool-cases, length,
  refl,
}
use small_lib_c.Regex.{Status, out_of_fuel, failed, has_flag, reg_extended}
use small_lib_c.Regex.Parse.{
  Program, Compiled, compiled, refused, regcomp, store_program, compile_bre, check_end, first_ctx,
}
use small_lib_c.Regex.WellFormed.{WellFormed, Compiles, done, turned_down, regcomp-WellFormed}
use small_lib_c.Regex.Literal.{all_literal, Short, literal-compiled}

module _ (grants : ℕ → Bool) (has_room : Bool) (pat : List ℕ) (cflags : ℕ) where
  -- What regcomp may turn a pattern down for: it is an extended one, not all its bytes stand for
  -- themselves, or some memory is not there.
  abbrev pub Reason : Type 0
  Reason =
      (has_flag cflags reg_extended ≡ true)
      ⊎ (all_literal pat ≡ false)
      ⊎ Short grants
      ⊎ (has_room ≡ false)

  pub data Returned : Compiled → Type 0 where
    program :
        (p : Program) → p.text ≡ pat → p.cflags ≡ cflags → WellFormed p → Returned (compiled p)
    no_program : (e : Status) → failed e ≡ true → e ≢ out_of_fuel → Reason → Returned (refused e)

  with_reason : {c : Compiled} → Reason → Compiles pat cflags c → Returned c
  with_reason why (done p text flags ok) = program p text flags ok
  with_reason why (turned_down e bad fuelled) = no_program e bad fuelled why

  without_reason :
      {c : Compiled} (p : Program) → c ≡ compiled p → Compiles pat cflags c → Returned c
  without_reason p e (done q text flags ok) = program q text flags ok
  without_reason p e (turned_down x bad fuelled) = absurd (cc)

  stored_program :
      has_flag cflags reg_extended ≡ false
      → has_room ≡ true
      → failed (check_end pat (compile_bre grants pat (length pat + 1) none first_ctx)).err ≡ false
      → (p : Program) × (regcomp grants has_room (some pat) cflags ≡ compiled p)
  unfolding regcomp store_program
  stored_program basic room ok =
      let c = check_end pat (compile_bre grants pat (length pat + 1) none first_ctx) in
      let p : Program = record {
        nodes = c.prog;
        root = c.ret;
        text = pat;
        nsub = c.group_id;
        cflags = cflags;
      } in
      (p, rw (basic, ok, room) refl)

  -- For a pattern, whatever memory there is, regcomp returns a program of the pattern and the flags whose
  -- root is a node and whose nodes link to earlier ones only and name groups that the pattern has; or it
  -- returns an error or its behaviour is not defined, but never for a basic pattern whose bytes all stand
  -- for themselves, where every realloc and malloc gives the memory it is asked for.
  pub regcomp-Returned : Returned (regcomp grants has_room (some pat) cflags)
  regcomp-Returned =
      let whole = regcomp-WellFormed pat cflags grants has_room in
      elim (Bool-cases (has_flag cflags reg_extended)) [
        | inl y ↦ with_reason (inl y) whole
        | inr basic ↦ elim (Bool-cases (all_literal pat)) [
          | inr n ↦ with_reason (inr (inl n)) whole
          | inl plain ↦ elim (Bool-cases has_room) [
            | inr n ↦ with_reason (inr (inr (inr n))) whole
            | inl room ↦ elim (literal-compiled grants pat plain) [
              | inr short ↦ with_reason (inr (inr (inl short))) whole
              | inl ok ↦ let (p, e) = stored_program basic room ok in without_reason p e whole
            ]
          ]
        ]
      ]
