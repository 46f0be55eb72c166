-- ===== src/Regex/Scan.antt =====
-- The search of src/c/regex/regexec.c at one start: the longest match from there.
use small_lib_c.Base.{
  ℕ, zero, suc, ◌+◌, ◌-◌, ◌*◌, ◌≤◌, ◌<◌, ◌≡◌, refl, sym, ◌∙◌, List, [], ◌∷◌, true, false, Option,
  none, some, inl, inr, arith, length, get_elem?, replicate, leb, ◌==◌, ◌||◌, ◌^◌, Bool-cases,
  ==_iff, subst, ap,
}
use small_lib_c.Regex.{no_error, failed, char_at}
use small_lib_c.Regex.Nfa.{Inst}
use small_lib_c.Regex.Exec.{
  Env, Thread, Round, takes, step_threads, scan, add_thread, first_round, search_at, fresh_step,
  no_saves,
}
use small_lib_c.Regex.Graph.{OneOf, silent, Reaches, begin, quiet, read, Reaches-le, Accepts, Fits}
use small_lib_c.Regex.Marks.{zeros, length-zeros, unmarked, unmarked-le-length}
use small_lib_c.Regex.Closure.{HasPc, All, AtLeast, Shown, Marked, Sane, Valid, Covered}
use small_lib_c.Regex.Closure.Add.{add_thread-Adds}
use small_lib_c.Regex.Steps.{Moves, step_threads-Grows}

fresh_step-le : (env : Env) (step : ℕ) → fresh_step env step < 2000000000
fresh_step-le env step = ground arith

-- A scan uses a step for each round at most.
scan-step :
    (env : Env) (start k sp step : ℕ) (r : Round) → (scan env start k sp step r).0 ≤ step + k
unfolding scan
scan-step env start zero sp step r = omega arith
scan-step env start (suc k) sp step r =
    elim (Bool-cases (length r.threads == 0 || failed r.status)) [
      | inl y ↦ rw y (omega arith)
      | inr n ↦ elim (Bool-cases (leb (2 ^ 31) (step + 1))) [
        | inl y ↦ rw (n, y) (omega arith)
        | inr m ↦
            let rest =
              scan-step env start k (suc sp) (step + 1)
                (step_threads env start sp (step + 1) r.threads (record r { threads = [] })) in
            rw (n, m) (omega (arith, rest))
      ]
    ]

-- The step is far from INT_MAX behind a start.
pub search_at-step :
    (env : Env) (root : Option ℕ) (start step : ℕ) (handled : List ℕ)
    → step + 1 < 2 ^ 31
    → length env.str < 2 ^ 27
    → (search_at env root start step handled).0 + 1 < 2 ^ 31
unfolding search_at
search_at-step env root start step handled few short =
    let counts : leb (2 ^ 31) (step + 1) ≡ false = ground (arith, few) in
    let bound =
      scan-step env start (length env.str + 1 - start) start (fresh_step env step)
        (first_round env root start step handled) in
    rw counts (omega (arith, bound, short, fresh_step-le env step))

module _ (env : Env) (root start : ℕ) where
  abbrev N : ℕ
  N = length env.nfa

  -- A round in which everything that can be reached at `sp` is marked.
  pub record Full (sp step : ℕ) (r : Round) : Type 0 where
    pub valid : Valid env root start sp step r
    pub closed :
        (p : ℕ) (i : Inst)
        → Marked env root start sp step r p
        → get_elem? env.nfa p ≡ some i
        → Covered env root start sp step r p i
    pub all : (q : ℕ) → Reaches env root start sp q → Marked env root start sp step r q
    pub longest : (e : ℕ) → e ≤ sp → Accepts env root start e → AtLeast (e - start) r.best_len

  re-Sane :
      (sp step step' : ℕ) (ts : List Thread)
      → All (Sane env root start sp step) ts
      → All (Sane env root start sp step') ts
  re-Sane sp step step' [] h = tt
  re-Sane sp step step' (t ∷ ts) h = (
    record { reached = h.0.reached; no_bref = h.0.no_bref; places = h.0.places },
    re-Sane sp step step' ts h.1,
  )

  -- What a finished scan says.
  pub record Scanned (step : ℕ) (r : Round) : Type 0 where
    pub ok : r.status ≡ no_error
    pub marks : length r.handled ≡ N
    pub recent : (p h : ℕ) → get_elem? r.handled p ≡ some h → h ≤ step
    pub best : (n : ℕ) → r.best_len ≡ some n → Accepts env root start (start + n)
    pub shown : (n : ℕ) → r.best_len ≡ some n → Shown env root start zero zero n r.best_m
    pub longest : (e : ℕ) → Accepts env root start e → AtLeast (e - start) r.best_len

  module _ (fits : Fits env) (inside : root < N) where
    -- Marks of another step are no marks.
    no_old_mark :
        (sp step h p : ℕ) (r : Round)
        → ((p h : ℕ) → get_elem? r.handled p ≡ some h → h < step)
        → Marked env root start sp step r p
        → ⊥
    no_old_mark sp step h p r old m = absurd (omega (arith, old p step m))

    -- The emptied list in which the next position's threads are collected.
    emptied :
        (sp step : ℕ) (r : Round)
        → Full sp step r
        → Valid env root start (suc sp) (step + 1) (record r { threads = [] })
    emptied sp step r f =
        let v = f.valid in
        record {
          ok = v.ok;
          marks = v.marks;
          recent = λ p h e. omega (arith, v.recent p h e);
          room = omega (arith, unmarked-le-length (step + 1) r.handled, v.marks);
          sane = tt;
          best = v.best;
          shown = v.shown;
        }

    abbrev following : ℕ → ℕ → Round → Round
    following sp step r = step_threads env start sp (step + 1) r.threads (record r { threads = [] })

    next_all :
        (sp step : ℕ) (r : Round)
        → start ≤ sp
        → Full sp step r
        → ((p : ℕ) → HasPc p r.threads → Moves env root start sp (step + 1) p (following sp step r))
        → ((p : ℕ) (i : Inst)
            → Marked env root start (suc sp) (step + 1) (following sp step r) p
            → get_elem? env.nfa p ≡ some i
            → Covered env root start (suc sp) (step + 1) (following sp step r) p i)
        → {e q : ℕ} → Reaches env root start e q
        → e ≡ suc sp
        → Marked env root start (suc sp) (step + 1) (following sp step r) q
    next_all sp step r le f moves closed begin e = absurd (omega arith)
    next_all sp step r le f moves closed (quiet {sp = e'} {p} {q} i reached at m) e =
        let before = next_all sp step r le f moves closed reached e in
        (closed p i before at).exits q (subst (λ x. OneOf (some q) (silent env i x)) e m)
    next_all sp step r le f moves closed (read {sp = e'} {p} {q} i reached at h t o) e =
        let same : e' ≡ sp = omega arith in
        let reached' = subst (λ x. Reaches env root start x p) same reached in
        let t' = subst (λ x. takes env i (char_at env.str x) ≡ some true) same t in
        let waits = (f.closed p i (f.all p reached') at).waits (char_at env.str sp) t' in
        (moves p waits).moved i q at (omega arith) t' o

    next_Full :
        (sp step : ℕ) (r : Round)
        → start ≤ sp
        → Full sp step r
        → Full (suc sp) (step + 1) (following sp step r)
    next_Full sp step r le f =
        let (g, moves) =
          step_threads-Grows env root start sp (step + 1) fits inside le r.threads
            (record r { threads = [] }) (re-Sane sp step (step + 1) r.threads f.valid.sane)
            (emptied sp step r f) in
        let closed : (p : ℕ) (i : Inst)
            → Marked env root start (suc sp) (step + 1) (following sp step r) p
            → get_elem? env.nfa p ≡ some i
            → Covered env root start (suc sp) (step + 1) (following sp step r) p i =
          λ p i m e. elim (g.covers p i m e) [
            | inl m' ↦ absurd (omega (arith, f.valid.recent p (step + 1) m'))
            | inr c ↦ c
          ] in
        let all = λ (q : ℕ) (reached : Reaches env root start (suc sp) q).
          next_all sp step r le f moves closed reached refl in
        record {
          valid = g.valid;
          closed = closed;
          all = all;
          longest = λ e h acc. elim (Bool-cases (e == suc sp)) [
            | inl y ↦
                let same : e ≡ suc sp = (==_iff e (suc sp)).0 y in
                let there = subst (λ x. Reaches env root start x acc.pc) same acc.reached in
                let c = closed acc.pc acc.inst (all acc.pc there) acc.there in
                subst (λ x. AtLeast (x - start) (following sp step r).best_len) (sym same)
                  (c.match_seen acc.accepting)
            | inr n ↦ g.longer_best (e - start) (f.longest e (ground (arith, n, h)) acc)
          ];
        }

    -- With no thread left nothing further is reached.
    no_further :
        (sp step : ℕ) (r : Round)
        → start ≤ sp
        → Full sp step r
        → r.threads ≡ []
        → {e q : ℕ} → Reaches env root start e q
        → e ≤ sp
    no_further sp step r le f empty begin = le
    no_further sp step r le f empty (quiet i reached at m) = no_further sp step r le f empty reached
    no_further sp step r le f empty (read {sp = e} {p} {q} i reached at h t o) =
        let before = no_further sp step r le f empty reached in
        elim (Bool-cases (e == sp)) [
          | inr n ↦ ground (arith, n, before)
          | inl y ↦
              let same : e ≡ sp = (==_iff e sp).0 y in
              let reached' = subst (λ x. Reaches env root start x p) same reached in
              let t' = subst (λ x. takes env i (char_at env.str x) ≡ some true) same t in
              let waits = (f.closed p i (f.all p reached') at).waits (char_at env.str sp) t' in
              absurd (rw empty at waits)
        ]

    Reaches-end :
        {e q : ℕ} → Reaches env root start e q → start ≤ length env.str → e ≤ length env.str
    Reaches-end begin h = h
    Reaches-end (quiet i reached at m) h = Reaches-end reached h
    Reaches-end (read i reached at lt t o) h = lt

    ended :
        (sp step : ℕ) (r : Round)
        → Full sp step r
        → ((e : ℕ) → Accepts env root start e → e ≤ sp)
        → Scanned step r
    ended sp step r f bound = record {
      ok = f.valid.ok;
      marks = f.valid.marks;
      recent = f.valid.recent;
      best = f.valid.best;
      shown = f.valid.shown;
      longest = λ e acc. f.longest e (bound e acc) acc;
    }

    pub scan-Scanned :
        (k sp step : ℕ) (r : Round)
        → start ≤ length env.str
        → start ≤ sp
        → length env.str < sp + k
        → step + k < 2 ^ 31
        → Full sp step r
        → Scanned (scan env start k sp step r).0 (scan env start k sp step r).1
    unfolding scan
    scan-Scanned zero sp step r h le enough few f =
        ended sp step r f (λ e acc. omega (arith, Reaches-end acc.reached h))
    scan-Scanned (suc k) sp step r h le enough few f =
        let counts : leb (2 ^ 31) (step + 1) ≡ false = ground (arith, few) in
        let running : failed r.status ≡ false = ap failed f.valid.ok in
        elim (Bool-cases (length r.threads == 0)) [
          | inl y ↦
              let empty : r.threads ≡ [] = none_left r.threads y in
              rw y (ended sp step r f (λ e acc. no_further sp step r le f empty acc.reached))
          | inr n ↦
              rw (n, running, counts)
                (scan-Scanned k (suc sp) (step + 1) (following sp step r) h (omega arith)
                  (omega arith) (omega (arith, few)) (next_Full sp step r le f))
        ]
      where
        none_left : (ts : List Thread) → (length ts == 0) ≡ true → ts ≡ []
        none_left [] y = refl
        none_left (t ∷ ts) y = ground (arith, y)

    abbrev opened : List ℕ → Round
    opened handled = record {
      handled = handled;
      best_len = none;
      best_m = replicate env.nmatch (none, none);
      threads = [];
      status = no_error;
    }

    abbrev added : (step : ℕ) → List ℕ → Round
    added step handled =
        add_thread env start start step (N + 1) (some root) (no_saves env) none (opened handled)

    length-no_saves : (k : ℕ) → length (replicate {A = Option ℕ} k none) ≡ k
    length-no_saves zero = refl
    length-no_saves (suc k) = ap suc (length-no_saves k)

    opened-Valid :
        (step : ℕ) (handled : List ℕ)
        → ((p h : ℕ) → get_elem? handled p ≡ some h → h < step)
        → length handled ≡ N
        → Valid env root start start step (opened handled)
    opened-Valid step handled old marks = record {
      ok = refl;
      marks = marks;
      recent = λ p h e. omega (arith, old p h e);
      room = omega (arith, unmarked-le-length step handled, marks);
      sane = tt;
      best = λ n e. cc;
      shown = λ n e. cc;
    }

    all_from_root :
        (step : ℕ) (handled : List ℕ)
        → Marked env root start start step (added step handled) root
        → ((p : ℕ) (i : Inst)
            → Marked env root start start step (added step handled) p
            → get_elem? env.nfa p ≡ some i
            → Covered env root start start step (added step handled) p i)
        → {e q : ℕ} → Reaches env root start e q
        → e ≡ start
        → Marked env root start start step (added step handled) q
    all_from_root step handled first closed begin e = first
    all_from_root step handled first closed (quiet {sp = e'} {p} {q} i reached at m) e =
        let before = all_from_root step handled first closed reached e in
        (closed p i before at).exits q (subst (λ x. OneOf (some q) (silent env i x)) e m)
    all_from_root step handled first closed (read i reached at h t o) e =
        absurd (omega (arith, Reaches-le env reached))

    -- The round that add_thread fills from the root.
    added-Full :
        (step : ℕ) (handled : List ℕ)
        → ((p h : ℕ) → get_elem? handled p ≡ some h → h < step)
        → length handled ≡ N
        → Full start step (added step handled)
    added-Full step handled old marks =
        let v = opened-Valid step handled old marks in
        let few : unmarked step handled < N + 1 =
          omega (arith, unmarked-le-length step handled, marks) in
        let a =
          add_thread-Adds env root start start step fits (N + 1) (some root) (no_saves env)
            (opened handled) v inside few begin (length-no_saves (env.nmatch * 2)) in
        let closed : (p : ℕ) (i : Inst)
            → Marked env root start start step (added step handled) p
            → get_elem? env.nfa p ≡ some i
            → Covered env root start start step (added step handled) p i =
          λ p i m e. elim (a.grows.covers p i m e) [
            | inl m' ↦ absurd (omega (arith, old p step m'))
            | inr c ↦ c
          ] in
        let all = λ (q : ℕ) (reached : Reaches env root start start q).
          all_from_root step handled a.marked closed reached refl in
        record {
          valid = a.grows.valid;
          closed = closed;
          all = all;
          longest = λ e h acc.
              let same : e ≡ start = omega (arith, h, Reaches-le env acc.reached) in
              let there = subst (λ x. Reaches env root start x acc.pc) same acc.reached in
              subst (λ x. AtLeast (x - start) (added step handled).best_len) (sym same)
                ((closed acc.pc acc.inst (all acc.pc there) acc.there).match_seen acc.accepting);
        }

    first_Full :
        (step : ℕ) (handled : List ℕ)
        → ((p h : ℕ) → get_elem? handled p ≡ some h → h ≤ step)
        → length handled ≡ N
        → Full start (fresh_step env step) (first_round env (some root) start step handled)
    unfolding first_round
    first_Full step handled old marks = elim (Bool-cases (leb 2000000000 (step + 1))) [
      | inl y ↦ rw y (
          added-Full 1 (replicate (length handled) 0)
            (λ p h e. omega (arith, zeros (length handled) p h e))
            (length-zeros (length handled) ∙ marks))
      | inr n ↦ rw n (added-Full (step + 1) handled (λ p h e. omega (arith, old p h e)) marks)
    ]

    -- The search at one start finds the longest match from there.
    pub search_at-Scanned :
        (step : ℕ) (handled : List ℕ)
        → ((p h : ℕ) → get_elem? handled p ≡ some h → h ≤ step)
        → length handled ≡ N
        → start ≤ length env.str
        → step + 1 < 2 ^ 31
        → length env.str < 2 ^ 27
        → Scanned
            (search_at env (some root) start step handled).0
            (search_at env (some root) start step handled).1
    unfolding search_at
    search_at-Scanned step handled old marks h few short =
        let counts : leb (2 ^ 31) (step + 1) ≡ false = ground (arith, few) in
        rw counts (
          scan-Scanned (length env.str + 1 - start) start (fresh_step env step)
            (first_round env (some root) start step handled) h (omega arith) (omega arith)
            (omega (arith, short, fresh_step-le env step)) (first_Full step handled old marks))
