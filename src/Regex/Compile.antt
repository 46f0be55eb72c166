-- ===== src/Regex/Compile.antt =====
-- The compiler of patterns: src/c/regex/regcomp.c. `grants n` says whether realloc finds room for n
-- nodes (the capacity doubles, so that no size is asked for twice). `len` is the length of `prog`,
-- which is read only while there is no error, and `group_sp` that of `group_stack`.
use small_lib_c.Base.{
  ℕ, zero, suc, ◌+◌, ◌-◌, ◌*◌, Bool, Option, none, some, List, [], ◌∷◌, ◌++◌, ltb, ◌==◌,
  if◌then◌else◌, length, get_elem?,
}
use small_lib_c.Regex.{espace, Status, error, undefined, out_of_fuel, failed, AstOp, Node}

pub record Ctx : Type 0 where
  pub pos : ℕ
  pub prog : List Node
  pub cap : ℕ
  pub err : Status
  pub group_id : ℕ
  pub group_stack : List ℕ
  pub ret : ℕ

abbrev pub stop : Ctx → Status → Ctx
stop c e = record c { err = e }

abbrev pub skip : Ctx → ℕ → Ctx
skip c n = record c { pos = c.pos + n }

module _ (grants : ℕ → Bool) where
  -- Room for one more node.
  unfoldable pub reserve : Ctx → Ctx
  reserve c =
      let n = if c.cap == 0 then 16 else c.cap * 2 in
      if ltb (length c.prog) c.cap
      then c
      else if grants n
      then record c { cap = n }
      else record c { prog = []; err = error espace }

  unfoldable pub emit : Ctx → AstOp → (v1 v2 : ℕ) → (left right : Option ℕ) → Ctx
  emit c op v1 v2 left right =
      let d = reserve c in
      let node : Node = record { op = op; v1 = v1; v2 = v2; left = left; right = right } in
      if failed c.err
      then c
      else if failed d.err
      then d
      else record d { prog = d.prog ++ node ∷ []; ret = length d.prog }

  -- The node is read before each child is copied, and once more for its copy: a copy that fails has
  -- freed the nodes.
  unfoldable pub copy_self : Ctx → (node : ℕ) → (left right : Option ℕ) → Ctx × Option ℕ
  copy_self c node left right = elim (get_elem? c.prog node) [
    | none ↦ (stop c undefined, none)
    | some n ↦ let d = emit c n.op n.v1 n.v2 left right in (d, some d.ret)
  ]

  unfoldable pub copy_right :
      (copy : Ctx → Option ℕ → Ctx × Option ℕ)
      → Ctx
      → (node : ℕ) → (left : Option ℕ) → Ctx × Option ℕ
  copy_right copy c node left = elim (get_elem? c.prog node) [
    | none ↦ (stop c undefined, none)
    | some n ↦ let (d, right) = copy c n.right in copy_self d node left right
  ]

  unfoldable pub copy_children :
      (copy : Ctx → Option ℕ → Ctx × Option ℕ) → Ctx → (node : ℕ) → Ctx × Option ℕ
  copy_children copy c node = elim (get_elem? c.prog node) [
    | none ↦ (stop c undefined, none)
    | some n ↦ let (d, left) = copy c n.left in copy_right copy d node left
  ]

  unfoldable pub copy_ast : (fuel : ℕ) → Ctx → Option ℕ → Ctx × Option ℕ
  copy_ast zero c link = (stop c out_of_fuel, none)
  copy_ast (suc k) c none = (c, none)
  copy_ast (suc k) c (some i) =
      let copied = copy_children (copy_ast k) c i in if failed c.err then (c, none) else copied

  -- `if(root == -1) root = piece; else c = emit(c, AST_CONCAT, 0, 0, root, piece);`
  unfoldable pub join : Ctx → (op : AstOp) → (root : Option ℕ) → (piece : Option ℕ) → Ctx
  join c op none piece = c
  join c op (some root) piece = emit c op 0 0 (some root) piece

  -- `if(root == -1) c = emit(c, AST_EMPTY, 0, 0, -1, -1); else c.ret = root;`
  unfoldable pub finish : Ctx → Option ℕ → Ctx
  finish c none = emit c AstOp.empty 0 0 none none
  finish c (some root) = record c { ret = root }

  unfoldable pub copy_whole : Ctx → ℕ → Ctx × Option ℕ
  copy_whole c node = copy_ast (length c.prog + 1) c (some node)

  -- The rounds of `for(int i = 0; i < min; i++)`.
  unfoldable pub repeat_min : ℕ → Ctx → (node : ℕ) → (root : Option ℕ) → Ctx × Option ℕ
  repeat_min zero c node root = (c, root)
  repeat_min (suc n) c node root =
      let (d, copy) = copy_whole c node in
      let e = join d AstOp.concat root copy in repeat_min n e node (some e.ret)

  -- The rounds of `for(int i = min; i < max; i++)`.
  unfoldable pub repeat_optional : ℕ → Ctx → (node : ℕ) → (root : Option ℕ) → Ctx × Option ℕ
  repeat_optional zero c node root = (c, root)
  repeat_optional (suc n) c node root =
      let (d, copy) = copy_whole c node in
      let e = emit d AstOp.empty 0 0 none none in
      let f = emit e AstOp.alt 0 0 copy (some e.ret) in
      let g = join f AstOp.concat root (some f.ret) in repeat_optional n g node (some g.ret)

  unfoldable pub repeat_for_ever : Ctx → (node : ℕ) → (root : Option ℕ) → Ctx × Option ℕ
  repeat_for_ever c node root =
      let (d, copy) = copy_whole c node in
      let e = emit d AstOp.star 0 0 copy none in
      let f = join e AstOp.concat root (some e.ret) in (f, some f.ret)

  unfoldable pub repeat_rest :
      Ctx → (node min : ℕ) → (max : Option ℕ) → (root : Option ℕ) → Ctx × Option ℕ
  repeat_rest c node min none root = repeat_for_ever c node root
  repeat_rest c node min (some m) root = repeat_optional (m - min) c node root

  unfoldable pub apply_bounds : Ctx → (node min : ℕ) → (max : Option ℕ) → Ctx
  apply_bounds c node min max =
      let (d, root) = repeat_min min c node none in
      let (e, whole) = repeat_rest d node min max root in if failed c.err then c else finish e whole
