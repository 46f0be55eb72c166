-- ===== src/Regex/Parse.antt =====
-- The parser of patterns: the rest of src/c/regex/regcomp.c. A parser that calls the compiler of the
-- whole pattern takes it as an argument. Fuel is spent by the loops over the pattern.
pub mod Brackets
pub mod Braces
use small_lib_c.Base.{
  ℕ, zero, suc, ◌+◌, ◌-◌, ◌*◌, ◌^◌, Bool, true, false, not, ◌&&◌, ◌||◌, Option, none, some, List,
  [], ◌∷◌, ltb, leb, ◌==◌, if◌then◌else◌, length, take, drop,
}
use small_lib_c.Base.Text.{codes}
use small_lib_c.Regex.{
  ecollate, ectype, eescape, esubreg, ebrack, eparen, badbr, badpat, espace, badrpt, Status,
  no_error, error, undefined, out_of_fuel, failed, AstOp, Node, char_at, reg_extended, has_flag,
}
use small_lib_c.Regex.Compile.{Ctx, stop, skip, emit, copy_whole, join, finish, apply_bounds}
use small_lib_c.Regex.Parse.Brackets.{
  same_bytes, class_names, any_same, check_cls, is_digit, opens_class, last_of, is_some, here,
  ahead, class_end, class_item, bracket_item, bracket_loop, bracket_start, parse_bracket,
}
use small_lib_c.Regex.Parse.Braces.{
  read_digits, number, read_max, bounds_end, bad_bounds, close_bounds, parse_bounds,
}

module _ (grants : ℕ → Bool) (pat : List ℕ) where
  -- An atom of one byte.
  abbrev pub single : Ctx → AstOp → ℕ → Ctx
  single c op v1 = skip (emit grants c op v1 0 none none) 1

  -- `\(` or `(` with the position behind it: push, compile, pop behind the closing bracket of
  -- `width` bytes, and emit the group.
  unfoldable pub open_group : Ctx → (width : ℕ) → Ctx
  open_group c width =
      let gid = c.group_id + 1 in
      let d = record c { group_id = gid } in
      if ltb (length c.group_stack) 256
      then record d { group_stack = gid ∷ c.group_stack; pos = c.pos + width }
      else stop d (error espace)

  unfoldable pub close_group : Ctx → (gid width : ℕ) → Ctx
  close_group c gid width =
      let d = record c { group_stack = drop 1 c.group_stack; pos = c.pos + width } in
      let e = emit grants d AstOp.group_end gid 0 none none in
      let f = emit grants e AstOp.concat 0 0 (some c.ret) (some e.ret) in
      emit grants f AstOp.group gid 0 (some f.ret) none

  unfoldable pub parse_plus : Ctx → Ctx
  parse_plus c =
      let (d, copy) = copy_whole grants c c.ret in
      let e = emit grants d AstOp.star 0 0 copy none in
      skip (emit grants e AstOp.concat 0 0 (some c.ret) (some e.ret)) 1

  unfoldable pub parse_optional : Ctx → Ctx
  parse_optional c =
      let d = emit grants c AstOp.empty 0 0 none none in
      skip (emit grants d AstOp.alt 0 0 (some c.ret) (some d.ret)) 1

  module _ (compile : Ctx → Ctx) where
    unfoldable pub bre_group : Ctx → Ctx
    bre_group c =
        let d = open_group c 1 in
        let e = compile d in
        if failed d.err
        then d
        else if failed e.err
        then e
        else if not (here grants pat e == b'\\') || not (ahead grants pat e 1 == b')')
        then stop e (error eparen)
        else close_group e (c.group_id + 1) 2

    unfoldable pub ere_group : Ctx → Ctx
    ere_group c =
        let d = open_group c 1 in
        let e = compile d in
        if failed d.err
        then d
        else if failed e.err
        then e
        else if not (here grants pat e == b')')
        then stop e (error eparen)
        else close_group e (c.group_id + 1) 1

    unfoldable pub parse_bre_escape : Ctx → Ctx
    parse_bre_escape b =
        let c = skip b 1 in
        let x = here grants pat c in
        if failed b.err
        then b
        else if x == 0
        then stop c (error eescape)
        else if x == b'('
        then bre_group c
        else if x == b'{'
        then stop c (error badrpt)
        else if leb b'1' x && leb x b'9'
        then (if ltb c.group_id (x - b'0')
            then stop c (error esubreg)
            else single c AstOp.backref (x - b'0'))
        else single c AstOp.char x

    -- `^` at the start of the pattern or of a group.
    abbrev pub bol_anchor : Ctx → Bool
    bol_anchor c =
        c.pos == 0
        || leb 2 c.pos && char_at pat (c.pos - 1) == b'(' && char_at pat (c.pos - 2) == b'\\'

    -- `$` at the end of the pattern or of a group.
    abbrev pub eol_anchor : Ctx → Bool
    eol_anchor c =
        ahead grants pat c 1 == 0 || ahead grants pat c 1 == b'\\' && ahead grants pat c 2 == b')'

    unfoldable pub parse_bre_atom : Ctx → Ctx
    parse_bre_atom c =
        let x = here grants pat c in
        if failed c.err
        then c
        else if x == b'^'
        then (if bol_anchor c then single c AstOp.bol 0 else single c AstOp.char x)
        else if x == b'$'
        then (if eol_anchor c then single c AstOp.eol 0 else single c AstOp.char x)
        else if x == b'.'
        then single c AstOp.any 0
        else if x == b'['
        then parse_bracket grants pat c
        else if x == b'\\'
        then parse_bre_escape c
        else single c AstOp.char x

    unfoldable pub parse_bre_piece : Ctx → Ctx
    parse_bre_piece c =
        let d = parse_bre_atom c in
        if failed c.err
        then c
        else if here grants pat c == b'*'
        then single c AstOp.char b'*'
        else if failed d.err
        then d
        else if here grants pat d == b'*'
        then skip (emit grants d AstOp.star 0 0 (some d.ret) none) 1
        else if here grants pat d == b'\\' && ahead grants pat d 1 == b'{'
        then parse_bounds grants pat (skip d 2) false d.ret
        else d

    unfoldable pub parse_ere_atom : Ctx → Ctx
    parse_ere_atom c =
        let x = here grants pat c in
        if failed c.err
        then c
        else if x == b'*' || x == b'+' || x == b'?' || x == b'{'
        then stop c (error badrpt)
        else if x == b'^'
        then single c AstOp.bol 0
        else if x == b'$'
        then single c AstOp.eol 0
        else if x == b'.'
        then single c AstOp.any 0
        else if x == b'['
        then parse_bracket grants pat c
        else if x == b'('
        then ere_group c
        else if x == b'\\'
        then (if ahead grants pat c 1 == 0
            then stop (skip c 1) (error eescape)
            else single (skip c 1) AstOp.char (ahead grants pat c 1))
        else single c AstOp.char x

    unfoldable pub parse_ere_piece : Ctx → Ctx
    parse_ere_piece c =
        let d = parse_ere_atom c in
        let x = here grants pat d in
        if failed c.err
        then c
        else if failed d.err
        then d
        else if x == b'*'
        then skip (emit grants d AstOp.star 0 0 (some d.ret) none) 1
        else if x == b'+'
        then parse_plus d
        else if x == b'?'
        then parse_optional d
        else if x == b'{'
        then parse_bounds grants pat (skip d 1) true d.ret
        else d

    unfoldable pub parse_ere_branch : (fuel : ℕ) → (root : Option ℕ) → Ctx → Ctx
    parse_ere_branch zero root c = stop c out_of_fuel
    parse_ere_branch (suc k) root c =
        let d = parse_ere_piece c in
        let e = join grants d AstOp.concat root (some d.ret) in
        let rest = parse_ere_branch k (some e.ret) e in
        if failed c.err
          || here grants pat c == 0
          || here grants pat c == b'|'
          || here grants pat c == b')'
        then finish grants c root
        else if failed d.err
        then d
        else rest

  unfoldable pub compile_bre : (fuel : ℕ) → (root : Option ℕ) → Ctx → Ctx
  compile_bre zero root c = stop c out_of_fuel
  compile_bre (suc k) root c =
      let d = parse_bre_piece (compile_bre k none) c in
      let e = join grants d AstOp.concat root (some d.ret) in
      let rest = compile_bre k (some e.ret) e in
      if failed c.err
        || here grants pat c == 0
        || here grants pat c == b'\\' && ahead grants pat c 1 == b')'
      then finish grants c root
      else if failed d.err
      then d
      else rest

  unfoldable pub compile_ere : (fuel : ℕ) → (root : Option ℕ) → Ctx → Ctx
  compile_ere zero root c = stop c out_of_fuel
  compile_ere (suc k) root c =
      let d = parse_ere_branch (compile_ere k none) (suc k) none c in
      let e = join grants d AstOp.alt root (some d.ret) in
      let f = if here grants pat e == b'|' then skip e 1 else e in
      let rest = compile_ere k (some e.ret) f in
      if failed c.err || here grants pat c == 0 || here grants pat c == b')'
      then finish grants c root
      else if failed d.err
      then d
      else rest

-- What regcomp leaves in `preg`.
pub record Program : Type 0 where
  pub nodes : List Node
  pub root : ℕ
  pub text : List ℕ
  pub nsub : ℕ
  pub cflags : ℕ

pub data Compiled : Type 0 where
  compiled : Program → Compiled
  refused : Status → Compiled

abbrev pub first_ctx : Ctx
first_ctx = record {
  pos = 0;
  prog = [];
  cap = 0;
  err = no_error;
  group_id = 0;
  group_stack = [];
  ret = 0;
}

-- The two tests behind the compiler.
unfoldable pub check_end : (pat : List ℕ) → Ctx → Ctx
check_end pat c =
    if failed c.err
    then c
    else if not (char_at pat c.pos == 0) || not (length c.group_stack == 0)
    then stop c (error eparen)
    else c

-- `has_room` is the answer of the two calls of malloc.
unfoldable pub store_program : (has_room : Bool) → (pat : List ℕ) → (cflags : ℕ) → Ctx → Compiled
store_program has_room pat cflags c =
    if failed c.err
    then refused c.err
    else if not has_room
    then refused (error espace)
    else compiled
        (record { nodes = c.prog; root = c.ret; text = pat; nsub = c.group_id; cflags = cflags })

unfoldable pub regcomp :
    (grants : ℕ → Bool) (has_room : Bool) (pattern : Option (List ℕ)) (cflags : ℕ) → Compiled
regcomp grants has_room none cflags = refused (error badpat)
regcomp grants has_room (some pat) cflags =
    let c =
      if has_flag cflags reg_extended
      then compile_ere grants pat (length pat + 1) none first_ctx
      else compile_bre grants pat (length pat + 1) none first_ctx in
    store_program has_room pat cflags (check_end pat c)
