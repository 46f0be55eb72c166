-- ===== src/Regex/Correct.antt =====
-- regexec of src/c/regex/regexec.c finds the leftmost match, and the longest from there, of what the
-- compiled nodes spell.
use small_lib_c.Base.{
  ◌<◌, ◌^◌, ◌*◌, ℕ, ◌+◌, ◌≤◌, ◌≡◌, ◌↔◌, refl, sym, ap, subst, List, true, false, Option, none, some,
  arith, length, get_elem?, replicate,
}
use small_lib_c.Regex.{failed}
use small_lib_c.Regex.Parse.{Program}
use small_lib_c.Regex.Nfa.{Inst, inst, match, Build, new_inst, build_nfa}
use small_lib_c.Regex.Exec.{
  pools_wrap, Env, takes, Allocations, subject_env, automaton, first_build, run, Answer,
}
use small_lib_c.Regex.Graph.{OneOf, silent, Accepts, Fits, InRange}
use small_lib_c.Regex.Marks.{zeros, length-zeros}
use small_lib_c.Regex.Search.{Leftmost, hit, miss, search-Leftmost}
use small_lib_c.Regex.Language.{Expr, Spells, Denotes}
use small_lib_c.Regex.Walk.{Walk, arrive, slip, take_byte, Walk-Accepts, Accepts-Walk}
use small_lib_c.Regex.Placed.{Built, Built-carried}
use small_lib_c.Regex.Built.{Means}
use small_lib_c.Regex.Built.Sound.{Built-Passes}
use small_lib_c.Regex.Built.Complete.{Means-WalkFrom}
use small_lib_c.Regex.Assemble.{depth, SettledIn, InstOk, Builds, Added, new_inst-Added, added_ok}
use small_lib_c.Regex.Assemble.Whole.{build_nfa-Builds}

-- An expression before an instruction has an entry.
entry_there :
    (nfa : List Inst) (lo : ℕ) (r : Expr) (entry : Option ℕ) (q : ℕ)
    → Built nfa lo r entry (some q)
    → (p : ℕ) × (entry ≡ some p)
entry_there nfa lo Expr.empty entry q b = (q, b)
entry_there nfa lo Expr.any entry q b = (b.at, b.linked)
entry_there nfa lo Expr.bol entry q b = (b.at, b.linked)
entry_there nfa lo Expr.eol entry q b = (b.at, b.linked)
entry_there nfa lo (Expr.char c) entry q b = (b.at, b.linked)
entry_there nfa lo (Expr.bracket s e) entry q b = (b.at, b.linked)
entry_there nfa lo (Expr.concat l r) entry q (m, bl, br) =
    let (p, e) = entry_there nfa lo r m q br in
    entry_there nfa lo l entry p (subst (λ x. Built nfa lo l entry x) e bl)
entry_there nfa lo (Expr.alt l r) entry q (a, b, x, bl, br) = (x.at, x.linked)
entry_there nfa lo (Expr.star l) entry q (body, x, bl) = (x.at, x.linked)
entry_there nfa lo (Expr.group n l) entry q (a, x, bl) = (x.at, x.linked)
entry_there nfa lo (Expr.group_end n) entry q b = (b.at, b.linked)

pub Leftmost-iff :
    {P Q : ℕ → ℕ → Type 0} {n cflags nmatch : ℕ} {a : Answer}
    → ((s e : ℕ) → P s e ↔ Q s e)
    → Leftmost P n cflags nmatch a
    → Leftmost Q n cflags nmatch a
Leftmost-iff same (hit s e shown h m first longest spans) =
    hit s e shown h ((same s e).0 m) (λ s' e' q. first s' e' ((same s' e').1 q))
      (λ e' q. longest e' ((same s e').1 q)) spans
Leftmost-iff same (miss none_there) = miss (λ s e h q. none_there s e h ((same s e).1 q))

-- From the instruction of a match a run is at its end.
module _ (env : Env) (at_0 : get_elem? env.nfa 0 ≡ some (inst match 0 0 none none)) where
  ends_here : {n i j : ℕ} → Walk env n 0 i j → i ≡ j
  unfolding silent takes
  ends_here (arrive x at m) = refl
  ends_here (slip {q = q} {i = i} x at o w) =
      let same : x ≡ inst match 0 0 none none = ground (arith, at, at_0) in
      absurd (subst (λ z. OneOf (some q) (silent env z i)) same o)
  ends_here (take_byte x at h t o w) =
      let same : x ≡ inst match 0 0 none none = ground (arith, at, at_0) in
      absurd (ground (arith, same, o))

  Accepts-Means :
      (r : Expr) (root : ℕ)
      → Built env.nfa 0 r (some root) (some 0)
      → (s e : ℕ) → Accepts env root s e ↔ Means env r s e
  Accepts-Means r root built s e = (
    λ acc.
        let (n, w) = Walk-Accepts env acc in
        let p = Built-Passes env r (some root) (some 0) n s e built w in
        subst (λ x. Means env r s x) (ends_here p.onward) p.part,
    λ d.
        let (n, w) =
          Means-WalkFrom env r (some root) (some 0) 0 s e e built d
            (arrive (inst match 0 0 none none) at_0 refl) in
        Accepts-Walk env w,
  )

pub record Granted (a : Allocations) : Type 0 where
  pub nodes : (n : ℕ) → a.grants n ≡ true
  pub marks : a.has_marks ≡ true
  pub lists : a.has_lists ≡ true

-- The sizes of the thread lists and of their pools are no more than a size_t holds.
abbrev pub PoolsFit : Allocations → Program → Type 0
PoolsFit a p =
    let cap = length (automaton a.grants p).0.nfa in
    (cap * (p.nsub + 1) * 2 * 4 < 2 ^ 32) × (cap * 16 < 2 ^ 32)

module _ (a : Allocations) (granted : Granted a) (p : Program) (string : List ℕ) (nmatch eflags : ℕ)
    (r : Expr) (spells : Spells p.nodes (some p.root) r)
    (settled : SettledIn p.text p.cflags (p.nsub + 1) r) (shallow : depth r ≤ length p.nodes)
    (pools : PoolsFit a p) (short : length string < 2 ^ 27) where
  abbrev parts : Build × Option ℕ
  parts = automaton a.grants p

  abbrev env : Env
  env = subject_env p string eflags parts.0.nfa

  abbrev accept : Inst
  accept = inst match 0 0 none none

  first_Added :
      Added env a.grants granted.nodes first_build accept (new_inst a.grants first_build accept)
  first_Added = new_inst-Added env a.grants granted.nodes first_build accept refl

  laid_out : Builds env (new_inst a.grants first_build accept).0 r (some 0) parts
  unfolding automaton takes
  laid_out =
      let first = first_Added in
      let ok : InstOk env 1 accept = record {
        first = tt;
        second = tt;
        plain = cc;
        place = cc;
        decides = λ c. (false, refl);
      } in
      let start = (new_inst a.grants first_build accept).0 in
      subst
        (λ x.
          Builds env start r (some 0)
            (build_nfa a.grants p.nodes (length p.nodes + 1) start (some p.root) x))
        (sym first.entry)
        (build_nfa-Builds env p.nodes a.grants granted.nodes (length p.nodes + 1) r
          (new_inst a.grants first_build accept).0 (some p.root) (some 0) spells settled
          (omega (arith, shallow)) first.fine
          (added_ok env a.grants granted.nodes first_build accept
            (new_inst a.grants first_build accept) first (λ q y e. absurd (ground (arith, e))) ok)
          (rw first.nfa (omega arith)))

  all_fit : Fits env
  all_fit q y e =
      let o = laid_out.good q y e in
      record {
        first = o.first;
        second = o.second;
        plain = o.plain;
        place = o.place;
        decides = o.decides;
      }

  accept_there : get_elem? parts.0.nfa 0 ≡ some accept
  accept_there = laid_out.keeps 0 accept (omega arith) (rw first_Added.nfa refl)

  pub run-Leftmost :
      Leftmost
        (Denotes p.text string p.cflags eflags r)
        (length string)
        p.cflags
        nmatch
        (run a p string nmatch eflags)
  unfolding run
  run-Leftmost =
      let b = laid_out in
      let (root, e) =
        entry_there parts.0.nfa (length (new_inst a.grants first_build accept).0.nfa) r parts.1 0
          b.built in
      let running : failed parts.0.err ≡ false = ap failed b.fine in
      let built =
        subst (λ x. Built parts.0.nfa 0 r x (some 0)) e
          (Built-carried 0 _ parts.0.nfa parts.0.nfa (omega arith) (λ q y low h. h) r parts.1
            (some 0) b.built) in
      let found_it =
        search-Leftmost env root nmatch all_fit
          (subst (λ x. InRange (length parts.0.nfa) x) e b.in_range) (length string + 1) 0 0
          (replicate (length parts.0.nfa) 0) (omega arith) short (omega arith)
          (λ q h at. omega (arith, zeros (length parts.0.nfa) q h at))
          (length-zeros (length parts.0.nfa)) (λ s e' lt. absurd (omega arith)) in
      let room : pools_wrap (length parts.0.nfa) (p.nsub + 1) ≡ false = ground (arith, pools) in
      rw (running, granted.marks, granted.lists, room, e)
        (Leftmost-iff (λ s e'. Accepts-Means env accept_there r root built s e') found_it)
