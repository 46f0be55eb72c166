-- ===== src/Regex/WellFormed.antt =====
-- regcomp of src/c/regex/regcomp.c: what a program that it returns is like.
use small_lib_c.Base.{
  ℕ, ◌+◌, ◌<◌, ◌≡◌, ◌≢◌, refl, ap, List, Bool, true, false, not, ◌||◌, none, some, inl, inr, arith,
  length, ◌==◌, Bool-cases,
}
use small_lib_c.Regex.{
  Status, error, out_of_fuel, failed, char_at, eparen, espace, has_flag, reg_extended,
}
use small_lib_c.Regex.Compile.{Ctx, stop}
use small_lib_c.Regex.Parse.{
  Program, Compiled, compiled, refused, regcomp, store_program, check_end, compile_ere, compile_bre,
  first_ctx,
}
use small_lib_c.Regex.Linked.{Linked, Good, Failed, Outcome}
use small_lib_c.Regex.Linked.Loops.{compile_bre-Outcome}
use small_lib_c.Regex.Linked.Extended.{compile_ere-Outcome}

-- The root is a node, and each node links to earlier ones and names a group of the pattern.
pub record WellFormed (p : Program) : Type 0 where
  pub root_there : p.root < length p.nodes
  pub linked : Linked p.nsub p.nodes

pub data Compiles (pat : List ℕ) (cflags : ℕ) : Compiled → Type 0 where
  done :
      (p : Program)
      → p.text ≡ pat
      → p.cflags ≡ cflags
      → WellFormed p
      → Compiles pat cflags (compiled p)
  turned_down : (e : Status) → failed e ≡ true → e ≢ out_of_fuel → Compiles pat cflags (refused e)

module _ (pat : List ℕ) (cflags : ℕ) where
  first_Good : Good (length pat) first_ctx
  first_Good = record {
    fine = refl;
    inside = omega arith;
    linked = λ i n e. absurd (ground (arith, e));
  }

  store_failed :
      (has_room : Bool) (c : Ctx)
      → Failed (length pat) c
      → Compiles pat cflags (store_program has_room pat cflags c)
  unfolding store_program
  store_failed has_room c f = rw (f.fails) (turned_down c.err f.fails f.fuelled)

  stored :
      (has_room : Bool) (c : Ctx)
      → Outcome (length pat) 0 first_ctx c
      → Compiles pat cflags (store_program has_room pat cflags (check_end pat c))
  unfolding check_end store_program
  stored has_room c (inl f) = rw (f.fails) (store_failed has_room c f)
  stored has_room c (inr r) =
      let running : failed c.err ≡ false = ap failed r.grown.good.fine in
      elim (Bool-cases (not (char_at pat c.pos == 0) || not (length c.group_stack == 0))) [
        | inl y ↦
            rw (running, y)
              (store_failed has_room (stop c (error eparen))
                (record { fails = refl; fuelled = cc }))
        | inr n ↦ rw (running, n) (kept has_room running)
      ]
    where
      kept :
          (has_room : Bool)
          → failed c.err ≡ false
          → Compiles pat cflags (store_program has_room pat cflags c)
      kept false running = rw running (turned_down (error espace) refl (cc))
      kept true running =
          let p : Program = record {
            nodes = c.prog;
            root = c.ret;
            text = pat;
            nsub = c.group_id;
            cflags = cflags;
          } in
          rw running
            (done p refl refl (record { root_there = r.returned; linked = r.grown.good.linked }))

  -- A program that regcomp returns is one of the pattern and the flags, its root is a node, and its nodes
  -- link to earlier ones only and name groups that the pattern has.
  pub regcomp-WellFormed :
      (grants : ℕ → Bool) (has_room : Bool)
      → Compiles pat cflags (regcomp grants has_room (some pat) cflags)
  unfolding regcomp
  regcomp-WellFormed grants has_room = elim (Bool-cases (has_flag cflags reg_extended)) [
    | inl y ↦ rw y (
        stored has_room (compile_ere grants pat (length pat + 1) none first_ctx) (
          compile_ere-Outcome grants pat (length pat + 1) none first_ctx first_Good tt
            (omega arith)))
    | inr n ↦ rw n (
        stored has_room (compile_bre grants pat (length pat + 1) none first_ctx) (
          compile_bre-Outcome grants pat (length pat + 1) none first_ctx first_Good tt
            (omega arith)))
  ]
