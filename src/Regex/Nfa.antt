-- ===== src/Regex/Nfa.antt =====
-- The automaton of a compiled pattern: new_inst and build_nfa of src/c/regex/regexec.c. `grants n`
-- says whether realloc finds room for n instructions.
use small_lib_c.Base.{
  ℕ, zero, suc, ◌+◌, ◌*◌, Bool, Option, none, some, List, [], ◌∷◌, ◌++◌, ltb, ◌==◌, if◌then◌else◌,
  length, get_elem?, set,
}
use small_lib_c.Regex.{espace, Status, error, undefined, out_of_fuel, failed, AstOp, Node}

pub data Opcode : Type 0 where
  match char any bol eol bracket backref split jmp save : Opcode

pub record Inst : Type 0 where
  pub op : Opcode
  pub v1 : ℕ
  pub v2 : ℕ
  pub out1 : Option ℕ
  pub out2 : Option ℕ

-- The part of the context that is written while the automaton is built.
pub record Build : Type 0 where
  pub nfa : List Inst
  pub cap : ℕ
  pub err : Status

abbrev pub inst : Opcode → (v1 v2 : ℕ) → (out1 out2 : Option ℕ) → Inst
inst op v1 v2 out1 out2 = record { op = op; v1 = v1; v2 = v2; out1 = out1; out2 = out2 }

abbrev pub halt : Build → Status → Build × Option ℕ
halt b e = (record b { err = e }, none)

-- `ex->nfa[split].out1 = body;`
abbrev pub set_out1 : Inst → Option ℕ → Inst
set_out1 i body = record i { out1 = body }

unfoldable pub patch : List Inst → ℕ → Option ℕ → List Inst
patch nfa at body = elim (get_elem? nfa at) [ none ↦ nfa | some i ↦ set nfa at (set_out1 i body) ]

-- The exit of a star's fork is its body, once that is there.
abbrev pub close_star : (fork : Option ℕ) → Build → (body : Option ℕ) → Build × Option ℕ
close_star none b body = halt b undefined
close_star (some s) b body = (record b { nfa = patch b.nfa s body }, some s)

module _ (grants : ℕ → Bool) where
  unfoldable pub new_inst : Build → Inst → Build × Option ℕ
  new_inst b i =
      let n = if b.cap == 0 then 64 else b.cap * 2 in
      let added = b.nfa ++ i ∷ [] in
      if failed b.err
      then (b, none)
      else if ltb (length b.nfa) b.cap
      then (record b { nfa = added }, some (length b.nfa))
      else if grants n
      then (record b { nfa = added; cap = n }, some (length b.nfa))
      else halt b (error espace)

  module _ (build : Build → Option ℕ → (out : Option ℕ) → Build × Option ℕ) where
    unfoldable pub build_concat : Build → Node → (out : Option ℕ) → Build × Option ℕ
    build_concat b n out = let (b1, right) = build b n.right out in build b1 n.left right

    unfoldable pub build_alt : Build → Node → (out : Option ℕ) → Build × Option ℕ
    build_alt b n out =
        let (b1, left) = build b n.left out in
        let (b2, right) = build b1 n.right out in new_inst b2 (inst Opcode.split 0 0 left right)

    unfoldable pub build_star : Build → Node → (out : Option ℕ) → Build × Option ℕ
    build_star b n out =
        let (b1, fork) = new_inst b (inst Opcode.split 0 0 none out) in
        let (b2, body) = build b1 n.left fork in
        if failed b2.err then (b2, none) else close_star fork b2 body

    unfoldable pub build_group : Build → Node → (out : Option ℕ) → Build × Option ℕ
    build_group b n out =
        let (b1, inner) = build b n.left out in
        new_inst b1 (inst Opcode.save (n.v1 * 2) 0 inner none)

    -- The switch on the node.
    unfoldable pub build_node : Build → Node → (out : Option ℕ) → Build × Option ℕ
    build_node b n out = elim n.op [
      | AstOp.empty ↦ (b, out)
      | AstOp.char ↦ new_inst b (inst Opcode.char n.v1 0 out none)
      | AstOp.any ↦ new_inst b (inst Opcode.any 0 0 out none)
      | AstOp.bol ↦ new_inst b (inst Opcode.bol 0 0 out none)
      | AstOp.eol ↦ new_inst b (inst Opcode.eol 0 0 out none)
      | AstOp.bracket ↦ new_inst b (inst Opcode.bracket n.v1 n.v2 out none)
      | AstOp.backref ↦ new_inst b (inst Opcode.backref n.v1 0 out none)
      | AstOp.concat ↦ build_concat b n out
      | AstOp.alt ↦ build_alt b n out
      | AstOp.star ↦ build_star b n out
      | AstOp.group ↦ build_group b n out
      | AstOp.group_end ↦ new_inst b (inst Opcode.save (n.v1 * 2 + 1) 0 out none)
    ]

  unfoldable pub build_nfa :
      (prog : List Node) (fuel : ℕ)
      → Build
      → (node : Option ℕ) → (out : Option ℕ) → Build × Option ℕ
  build_nfa prog zero b link out = halt b out_of_fuel
  build_nfa prog (suc k) b none out = if failed b.err then (b, none) else (b, out)
  build_nfa prog (suc k) b (some i) out =
      let read : Build × Option ℕ = elim (get_elem? prog i) [
        | none ↦ halt b undefined
        | some n ↦ build_node (build_nfa prog k) b n out
      ] in
      if failed b.err then (b, none) else read
