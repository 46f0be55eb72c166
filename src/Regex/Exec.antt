-- ===== src/Regex/Exec.antt =====
-- The matcher: regexec of src/c/regex/regexec.c. A position in an array of positions is an Option,
-- `none` for -1. The thread lists hold their threads in order, each with its own copy of `saves`.
use small_lib_c.Base.{
  ◌^◌, ℕ, zero, suc, ◌+◌, ◌-◌, ◌*◌, Bool, true, false, not, ◌&&◌, ◌||◌, Option, none, some, List,
  [], ◌∷◌, ◌++◌, ltb, leb, ◌==◌, if◌then◌else◌, length, get_elem?, set, take, drop, replicate,
}
use small_lib_c.Regex.{
  nomatch, badpat, espace, Status, no_error, error, undefined, out_of_fuel, failed, char_at,
  has_flag, reg_nosub, reg_newline, reg_notbol, reg_noteol,
}
use small_lib_c.Regex.Parse.{Program}
use small_lib_c.Regex.Bracket.{fold, eval_bracket}
use small_lib_c.Regex.Nfa.{Opcode, Inst, inst, Build, new_inst, build_nfa}

-- What does not change while the automaton runs; `cap` is `nfa_len`.
pub record Env : Type 0 where
  pub nfa : List Inst
  pub pat : List ℕ
  pub str : List ℕ
  pub cflags : ℕ
  pub eflags : ℕ
  pub nmatch : ℕ

pub record Thread : Type 0 where
  pub pc : ℕ
  pub bref : Option (ℕ × ℕ)
  pub saves : List (Option ℕ)

abbrev pub Span : Type 0
Span = Option ℕ × Option ℕ

-- The state of one round: the marks, the best match and the list that is filled.
pub record Round : Type 0 where
  pub handled : List ℕ
  pub best_len : Option ℕ
  pub best_m : List Span
  pub threads : List Thread
  pub status : Status

abbrev pub fail_with : Round → Status → Round
fail_with r e = record r { status = e }

-- `(rm_so, rm_eo)` of each group from the array of positions.
unfoldable pub spans : List (Option ℕ) → List Span
spans [] = []
spans (a ∷ []) = []
spans (a ∷ b ∷ s) = (a, b) ∷ spans s

-- `cur_len > ex->best_len`, with -1 below all.
abbrev pub longer : ℕ → Option ℕ → Bool
longer n none = true
longer n (some m) = ltb m n

-- What regexec returns: the spans are `none` where `pmatch` is not written.
pub data Answer : Type 0 where
  found : Option (List Span) → Answer
  failure : Status → Answer

module _ (env : Env) where
  abbrev pub flag : ℕ → Bool
  flag bit = has_flag env.cflags bit

  unfoldable pub push_thread : Round → Thread → Round
  push_thread r t =
      if ltb (length r.threads) (length env.nfa)
      then record r { threads = r.threads ++ t ∷ [] }
      else r

  -- `I_MATCH`
  unfoldable pub record_match : (start sp : ℕ) → List (Option ℕ) → Round → Round
  record_match start sp saves r =
      let m = if flag reg_nosub then r.best_m else (some start, some sp) ∷ drop 1 (spans saves) in
      if longer (sp - start) r.best_len
      then record r { best_len = some (sp - start); best_m = m }
      else r

  -- The anchors.
  unfoldable pub at_bol : ℕ → Bool
  at_bol sp =
      if sp == 0
      then not (has_flag env.eflags reg_notbol)
      else flag reg_newline && char_at env.str (sp - 1) == 10

  unfoldable pub at_eol : ℕ → Bool
  at_eol sp =
      if sp == length env.str
      then not (has_flag env.eflags reg_noteol)
      else flag reg_newline && ltb sp (length env.str) && char_at env.str sp == 10

  module _ (start sp step : ℕ) where
    abbrev pub Add : Type 0
    Add = (pc : Option ℕ) → (saves : List (Option ℕ)) → (bref : Option (ℕ × ℕ)) → Round → Round

    unfoldable pub add_save : (add : Add) → Inst → List (Option ℕ) → Option (ℕ × ℕ) → Round → Round
    add_save add i saves bref r = elim (get_elem? saves i.v1) [
      | none ↦ fail_with r undefined
      | some old ↦ add i.out1 (set saves i.v1 (some sp)) bref r
    ]

    -- The span that a back reference names: nothing, an empty one, or one to be read.
    unfoldable pub add_backref :
        (add : Add) → ℕ → Inst → List (Option ℕ) → Option (ℕ × ℕ) → Round → Round
    add_backref add pc i saves bref r = elim (get_elem? saves (i.v1 * 2)) [
      | none ↦ fail_with r undefined
      | some none ↦ r
      | some (some so) ↦ elim (get_elem? saves (i.v1 * 2 + 1)) [
        | none ↦ fail_with r undefined
        | some none ↦ r
        | some (some eo) ↦
            if eo == so
            then add i.out1 saves bref r
            else push_thread r (record { pc = pc; bref = some (i.v1, 0); saves = saves })
      ]
    ]

    -- The switch on the instruction.
    unfoldable pub dispatch :
        (add : Add) → ℕ → Inst → List (Option ℕ) → Option (ℕ × ℕ) → Round → Round
    dispatch add pc i saves bref r = elim i.op [
      | Opcode.match ↦ record_match start sp saves r
      | Opcode.jmp ↦ add i.out1 saves bref r
      | Opcode.split ↦ add i.out2 saves bref (add i.out1 saves bref r)
      | Opcode.save ↦ add_save add i saves bref r
      | Opcode.bol ↦ if at_bol sp then add i.out1 saves bref r else r
      | Opcode.eol ↦ if at_eol sp then add i.out1 saves bref r else r
      | Opcode.backref ↦ add_backref add pc i saves bref r
      | Opcode.char ↦ push_thread r (record { pc = pc; bref = bref; saves = saves })
      | Opcode.any ↦ push_thread r (record { pc = pc; bref = bref; saves = saves })
      | Opcode.bracket ↦ push_thread r (record { pc = pc; bref = bref; saves = saves })
    ]

    -- An instruction that is not marked yet.
    unfoldable pub enter : (add : Add) → ℕ → List (Option ℕ) → Option (ℕ × ℕ) → Round → Round
    enter add pc saves bref r = elim (get_elem? env.nfa pc) [
      | none ↦ fail_with r undefined
      | some i ↦ dispatch add pc i saves bref (record r { handled = set r.handled pc step })
    ]

    unfoldable pub visit : (add : Add) → ℕ → List (Option ℕ) → Option (ℕ × ℕ) → Round → Round
    visit add pc saves bref r = elim (get_elem? r.handled pc) [
      | none ↦ fail_with r undefined
      | some h ↦ if h == step then r else enter add pc saves bref r
    ]

    unfoldable pub add_thread : (fuel : ℕ) → Add
    add_thread fuel none saves bref r = r
    add_thread zero (some pc) saves bref r = fail_with r out_of_fuel
    add_thread (suc k) (some pc) saves bref r =
        let visited = visit (add_thread k) pc saves bref r in if failed r.status then r else visited

  -- Whether an instruction takes the byte c; `none` is undefined behaviour.
  unfoldable pub takes : Inst → ℕ → Option Bool
  takes i c = elim i.op [
    | Opcode.char ↦ some (fold env.cflags c == fold env.cflags i.v1)
    | Opcode.any ↦ some (not (flag reg_newline && c == 10))
    | Opcode.bracket ↦ eval_bracket env.pat env.cflags i.v1 i.v2 c
    | _ ↦ some false
  ]

  module _ (start sp step : ℕ) where
    abbrev pub next : (pc : Option ℕ) → List (Option ℕ) → Round → Round
    next pc saves r = add_thread start (suc sp) step (length env.nfa + 1) pc saves none r

    -- A thread inside a back reference.
    unfoldable pub step_backref : Thread → Inst → (id offset : ℕ) → Round → Round
    step_backref t i id offset r = elim (get_elem? t.saves (id * 2)) [
      | some (some so) ↦ elim (get_elem? t.saves (id * 2 + 1)) [
        | some (some eo) ↦
            if not (ltb sp (length env.str))
            then r
            else if not (
                fold env.cflags (char_at env.str sp)
                == fold env.cflags (char_at env.str (so + offset)))
            then r
            else if offset + 1 == eo - so
            then next i.out1 t.saves r
            else push_thread r (record { pc = t.pc; bref = some (id, offset + 1); saves = t.saves })
        | _ ↦ fail_with r undefined
      ]
      | _ ↦ fail_with r undefined
    ]

    unfoldable pub step_plain : Thread → Inst → Round → Round
    step_plain t i r =
        if not (ltb sp (length env.str)) then r else elim (takes i (char_at env.str sp)) [
          | none ↦ fail_with r undefined
          | some matched ↦ if matched then next i.out1 t.saves r else r
        ]

    unfoldable pub step_thread : Thread → Round → Round
    step_thread t r = elim (get_elem? env.nfa t.pc) [
      | none ↦ fail_with r undefined
      | some i ↦ elim t.bref [
        | some (id, offset) ↦ step_backref t i id offset r
        | none ↦ step_plain t i r
      ]
    ]

    unfoldable pub step_threads : List Thread → Round → Round
    step_threads [] r = r
    step_threads (t ∷ ts) r = step_threads ts (if failed r.status then r else step_thread t r)

  -- `for(size_t sp = start; sp <= slen; sp++)`, with the rounds left and the step last used. The step is an
  -- int, and to count it past INT_MAX is undefined.
  unfoldable pub scan : (start rounds sp step : ℕ) → Round → ℕ × Round
  scan start zero sp step r = (step, r)
  scan start (suc k) sp step r =
      let r' = step_threads start sp (step + 1) r.threads (record r { threads = [] }) in
      let rest = scan start k (suc sp) (step + 1) r' in
      if length r.threads == 0 || failed r.status
      then (step, r)
      else if leb (2 ^ 31) (step + 1)
      then (step, fail_with r undefined)
      else rest

  -- The round that opens a search at `start`, and its step.
  abbrev pub fresh_step : ℕ → ℕ
  fresh_step step = if leb 2000000000 (step + 1) then 1 else step + 1

  abbrev pub fresh_marks : ℕ → List ℕ → List ℕ
  fresh_marks step handled =
      if leb 2000000000 (step + 1) then replicate (length handled) 0 else handled

  abbrev pub no_saves : List (Option ℕ)
  no_saves = replicate (env.nmatch * 2) none

  unfoldable pub first_round : (root : Option ℕ) → (start step : ℕ) → List ℕ → Round
  first_round root start step handled =
      add_thread start start (fresh_step step) (length env.nfa + 1) root no_saves none (record {
        handled = fresh_marks step handled;
        best_len = none;
        best_m = replicate env.nmatch (none, none);
        threads = [];
        status = no_error;
      })

  unfoldable pub search_at : (root : Option ℕ) → (start step : ℕ) → List ℕ → ℕ × Round
  search_at root start step handled =
      let first = first_round root start step handled in
      if leb (2 ^ 31) (step + 1)
      then (step, fail_with first undefined)
      else scan start (length env.str + 1 - start) start (fresh_step step) first

  -- A null `pmatch` is an `nmatch` of 0.
  unfoldable pub report : (nmatch : ℕ) → List Span → Option (List Span)
  report nmatch best_m =
      if flag reg_nosub || nmatch == 0
      then none
      else some (take nmatch best_m ++ replicate (nmatch - env.nmatch) (none, none))

  -- `for(size_t start = 0; start <= slen; start++)`
  unfoldable pub search :
      (root : Option ℕ) → (nmatch : ℕ) → (rounds start step : ℕ) → List ℕ → Answer
  search root nmatch zero start step handled = failure (error nomatch)
  search root nmatch (suc k) start step handled =
      let (step', r) = search_at root start step handled in
      let rest = search root nmatch k (suc start) step' r.handled in
      if failed r.status
      then failure r.status
      else elim r.best_len [ none ↦ rest | some n ↦ found (report nmatch r.best_m) ]

abbrev pub first_build : Build
first_build = record { nfa = []; cap = 0; err = no_error }

-- The answers of realloc and of the calls of calloc and malloc.
pub record Allocations : Type 0 where
  pub grants : ℕ → Bool
  pub has_marks : Bool
  pub has_lists : Bool

abbrev pub subject_env : Program → (string : List ℕ) → (eflags : ℕ) → List Inst → Env
subject_env p string eflags nfa = record {
  nfa = nfa;
  pat = p.text;
  str = string;
  cflags = p.cflags;
  eflags = eflags;
  nmatch = p.nsub + 1;
}

-- An error before the lists are there calls cleanup with null pointers, which it reads through.
abbrev pub after_error : Status → Status
after_error no_error = no_error
after_error (error e) = undefined
after_error undefined = undefined
after_error out_of_fuel = out_of_fuel

-- The automaton of a program: the instruction of a match, and the rest before it.
unfoldable pub automaton : (grants : ℕ → Bool) → Program → Build × Option ℕ
automaton grants p =
    let (b, accept) = new_inst grants first_build (inst Opcode.match 0 0 none none) in
    build_nfa grants p.nodes (length p.nodes + 1) b (some p.root) accept

-- The sizes of a thread list and of its pool of positions pass a size_t: what is allocated is then smaller
-- than what the threads fill.
abbrev pub pools_wrap : (cap groups : ℕ) → Bool
pools_wrap cap groups = leb (2 ^ 32) (cap * groups * 2 * 4) || leb (2 ^ 32) (cap * 16)

-- With a compiled pattern and a string. Pools that are smaller than their threads are left undefined.
unfoldable pub run : (a : Allocations) (p : Program) (string : List ℕ) (nmatch eflags : ℕ) → Answer
run a p string nmatch eflags =
    let (b, root) = automaton a.grants p in
    let env = subject_env p string eflags b.nfa in
    if failed b.err
    then failure (after_error b.err)
    else if not a.has_marks
    then failure undefined
    else if not a.has_lists
    then failure (error espace)
    else if pools_wrap (length b.nfa) env.nmatch
    then failure undefined
    else search env root nmatch (length string + 1) 0 0 (replicate (length b.nfa) 0)

unfoldable pub regexec :
    (a : Allocations) (preg : Option Program) (string : Option (List ℕ)) (nmatch eflags : ℕ)
    → Answer
regexec a none string nmatch eflags = failure (error badpat)
regexec a (some p) none nmatch eflags = failure (error badpat)
regexec a (some p) (some s) nmatch eflags = run a p s nmatch eflags
