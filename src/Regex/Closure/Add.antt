-- ===== src/Regex/Closure/Add.antt =====
-- add_thread of src/c/regex/regexec.c, instruction by instruction.
use small_lib_c.Base.{
  ℕ, zero, suc, ◌+◌, ◌-◌, ◌*◌, ◌≤◌, ◌<◌, ◌≡◌, ◌≢◌, refl, sym, ◌∙◌, List, [], ◌∷◌, true, false,
  Option, none, some, inl, inr, arith, length, length-append, length-set, get_elem?, set, ltb, ◌==◌,
  Bool-cases, ==_iff, subst, drop, ap,
}
use small_lib_c.Regex.{failed}
use small_lib_c.Regex.Nfa.{Opcode, Inst, inst, match}
use small_lib_c.Regex.Exec.{
  Env, Thread, Round, push_thread, record_match, add_thread, takes, dispatch, add_save, enter,
  visit, Add, at_bol, at_eol, spans, longer,
}
use small_lib_c.Regex.Graph.{
  OneOf, InRange, silent, Reaches, Reaches-le, quiet, Accepts, FitsInst, Fits,
}
use small_lib_c.Regex.Marks.{unmarked, get_elem?-set_self, get_elem?-some}
use small_lib_c.Regex.Closure.{
  HasPc, AtLeast, HasPc-append, HasPc-last, All-append, Marked, MarkedExit, Sane, Valid, Covered,
  Grows, Grows-refl, Grows-trans, mark, mark-Valid, mark-fewer, Grows-enter,
}

-- get_elem? at an index below the length, after a change of the length's name.
set_places :
    {A : Type 0} (xs : List A) (p : ℕ) (a : A) (n : ℕ) → length xs ≡ n → length (set xs p a) ≡ n
set_places xs p a n e = length-set xs p a ∙ e

module _ (env : Env) (root start sp step : ℕ) where
  abbrev N : ℕ
  N = length env.nfa

  -- The thread list has room while an instruction is just marked.
  pub push-Grows :
      (r : Round) (t : Thread)
      → Valid env root start sp step r
      → length r.threads + unmarked step r.handled < N
      → Sane env root start sp step t
      → Grows env root start sp step r (push_thread env r t)
        × HasPc t.pc (push_thread env r t).threads
  unfolding push_thread
  push-Grows r t v room sane =
      let free : ltb (length r.threads) N ≡ true = ground (arith, room) in
      rw free (
        record {
          valid = record {
            ok = v.ok;
            marks = v.marks;
            recent = v.recent;
            room = omega (arith, room, length-append r.threads (t ∷ []));
            sane = All-append (Sane env root start sp step) r.threads t v.sane sane;
            best = v.best;
            shown = v.shown;
          };
          keeps = λ p m. m;
          covers = λ p i m e. inl m;
          threads = λ p h. HasPc-append p r.threads t h;
          longer_best = λ n h. h;
          fewer = omega arith;
        },
        HasPc-last r.threads t,
      )

  pub record_match-Grows :
      (r : Round) (saves : List (Option ℕ))
      → Valid env root start sp step r
      → start ≤ sp
      → Accepts env root start sp
      → Grows env root start sp step r (record_match env start sp saves r)
        × AtLeast (sp - start) (record_match env start sp saves r).best_len
  unfolding record_match
  record_match-Grows r saves v le acc = elim (Bool-cases (longer (sp - start) r.best_len)) [
    | inl y ↦ rw y (
      record {
        valid = record {
          ok = v.ok;
          marks = v.marks;
          recent = v.recent;
          room = v.room;
          sane = v.sane;
          best = λ n e.
              let same : sp ≡ start + n = ground (arith, e) in
              subst (λ x. Accepts env root start x) same acc;
          shown = λ n e shows.
              let same : sp ≡ start + n = ground (arith, e) in
              (drop 1 (spans saves), rw (shows, sym same) refl);
        };
        keeps = λ p m. m;
        covers = λ p i m e. inl m;
        threads = λ p h. h;
        longer_best = at_least r.best_len y;
        fewer = omega arith;
      },
      omega arith,
    )
    | inr n ↦ rw n (Grows-refl env root start sp step v, no_longer r.best_len n)
  ]
    where
      at_least :
          (b : Option ℕ) → longer (sp - start) b ≡ true → (n : ℕ) → AtLeast n b → n ≤ sp - start
      at_least none y n h = absurd h
      at_least (some m) y n h = ground (arith, y, h)

      no_longer : (b : Option ℕ) → longer (sp - start) b ≡ false → AtLeast (sp - start) b
      no_longer none y = cc
      no_longer (some m) y = ground (arith, y)

  -- What a call promises, with fuel for the instructions that are not marked.
  pub record Adds (pc : Option ℕ) (r r' : Round) : Type 0 where
    pub grows : Grows env root start sp step r r'
    pub marked : MarkedExit env root start sp step r' pc

  abbrev pub ReachesExit : Option ℕ → Type 0
  ReachesExit none = Unit {0}
  ReachesExit (some q) = Reaches env root start sp q

  abbrev pub AddSpec : ℕ → Add env start sp step → Type 0
  AddSpec k add =
      (pc : Option ℕ) (saves : List (Option ℕ)) (r : Round)
      → Valid env root start sp step r
      → InRange N pc
      → unmarked step r.handled < k
      → ReachesExit pc
      → length saves ≡ env.nmatch * 2
      → Adds pc r (add pc saves none r)

  MarkedExit-Grows :
      (r r' : Round) (q : Option ℕ)
      → Grows env root start sp step r r'
      → MarkedExit env root start sp step r q
      → MarkedExit env root start sp step r' q
  MarkedExit-Grows r r' none g m = tt
  MarkedExit-Grows r r' (some q) g m = g.keeps q m

  -- One exit covers its instruction.
  one_exit :
      (r' : Round) {q : ℕ} (out : Option ℕ)
      → MarkedExit env root start sp step r' out
      → some q ≡ out
      → Marked env root start sp step r' q
  one_exit r' none m e = cc
  one_exit r' (some p) m e = ground (arith, m, e)

  exit_reached :
      (p : ℕ) (i : Inst) (out : Option ℕ)
      → Reaches env root start sp p
      → get_elem? env.nfa p ≡ some i
      → ((q : ℕ) → out ≡ some q → OneOf (some q) (silent env i sp))
      → ReachesExit out
  exit_reached p i none r at h = tt
  exit_reached p i (some q) r at h = quiet i r at (h q refl)

  module _ (k pc : ℕ) (add : Add env start sp step) (spec : AddSpec k add) (saves : List (Option ℕ))
      (places : length saves ≡ env.nmatch * 2) (r : Round) (v : Valid env root start sp step r)
      (room : length r.threads + unmarked step r.handled < N) (fuel : unmarked step r.handled < k)
      (reached : Reaches env root start sp pc) where
    abbrev Dispatched : Inst → Type 0
    Dispatched i =
        Grows env root start sp step r (dispatch env start sp step add pc i saves none r)
        × Covered env root start sp step (dispatch env start sp step add pc i saves none r) pc i

    -- An instruction that waits for a byte.
    push_lem :
        (i : Inst)
        → Grows env root start sp step r
            (push_thread env r (record { pc = pc; bref = none; saves = saves }))
          × HasPc pc (push_thread env r (record { pc = pc; bref = none; saves = saves })).threads
    push_lem i =
        push-Grows r (record { pc = pc; bref = none; saves = saves }) v room
          (record { reached = reached; no_bref = refl; places = places })

    -- An instruction with one exit that needs no byte.
    follow :
        (i : Inst) (saves' : List (Option ℕ))
        → length saves' ≡ env.nmatch * 2
        → get_elem? env.nfa pc ≡ some i
        → FitsInst env i
        → silent env i sp ≡ i.out1 ∷ []
        → ((c : ℕ) → takes env i c ≢ some true)
        → i.op ≢ match
        → Grows env root start sp step r (add i.out1 saves' none r)
          × Covered env root start sp step (add i.out1 saves' none r) pc i
    follow i saves' places' at fits one still other =
        let exit = exit_reached pc i i.out1 reached at (λ q e. rw one (inl (sym e))) in
        let a = spec i.out1 saves' r v fits.first fuel exit places' in
        (
          a.grows,
          record {
            exits = λ q m. elim (rw one at m) [
              | inl e ↦ one_exit (add i.out1 saves' none r) i.out1 a.marked e
              | inr n ↦ absurd n
            ];
            waits = λ c e. absurd (still c e);
            match_seen = λ e. absurd (other e);
          },
        )

    -- An instruction whose exit is closed here.
    rest_lem :
        (i : Inst)
        → silent env i sp ≡ []
        → ((c : ℕ) → takes env i c ≢ some true)
        → i.op ≢ match
        → Grows env root start sp step r r × Covered env root start sp step r pc i
    rest_lem i closed still other = (
      Grows-refl env root start sp step v,
      record {
        exits = λ q m. absurd (rw closed at m);
        waits = λ c e. absurd (still c e);
        match_seen = λ e. absurd (other e);
      },
    )

    dispatch_lem :
        (op : Opcode) (v1 v2 : ℕ) (out1 out2 : Option ℕ)
        → get_elem? env.nfa pc ≡ some (inst op v1 v2 out1 out2)
        → FitsInst env (inst op v1 v2 out1 out2)
        → Dispatched (inst op v1 v2 out1 out2)
    unfolding dispatch silent takes add_save
    dispatch_lem Opcode.match v1 v2 out1 out2 at fits =
        let acc : Accepts env root start sp = record {
          pc = pc;
          inst = inst match v1 v2 out1 out2;
          reached = reached;
          there = at;
          accepting = refl;
        } in
        let (g, b) = record_match-Grows r saves v (Reaches-le env reached) acc in
        (g, record { exits = λ q m. absurd m; waits = λ c e. cc; match_seen = λ e. b })
    dispatch_lem Opcode.char v1 v2 out1 out2 at fits =
        let (g, h) = push_lem (inst Opcode.char v1 v2 out1 out2) in
        (g, record { exits = λ q m. absurd m; waits = λ c e. h; match_seen = λ e. cc })
    dispatch_lem Opcode.any v1 v2 out1 out2 at fits =
        let (g, h) = push_lem (inst Opcode.any v1 v2 out1 out2) in
        (g, record { exits = λ q m. absurd m; waits = λ c e. h; match_seen = λ e. cc })
    dispatch_lem Opcode.bracket v1 v2 out1 out2 at fits =
        let (g, h) = push_lem (inst Opcode.bracket v1 v2 out1 out2) in
        (g, record { exits = λ q m. absurd m; waits = λ c e. h; match_seen = λ e. cc })
    dispatch_lem Opcode.backref v1 v2 out1 out2 at fits = absurd (fits.plain refl)
    dispatch_lem Opcode.jmp v1 v2 out1 out2 at fits =
        follow (inst Opcode.jmp v1 v2 out1 out2) saves places at fits refl (λ c. cc) (cc)
    dispatch_lem Opcode.save v1 v2 out1 out2 at fits =
        let (old, e) = get_elem?-some saves v1 (omega (arith, fits.place refl, places)) in
        rw (e, add_save)
          (follow (inst Opcode.save v1 v2 out1 out2) (set saves v1 (some sp))
            (length-set saves v1 (some sp) ∙ places) at fits refl (λ c. cc) (cc))
    dispatch_lem Opcode.bol v1 v2 out1 out2 at fits = elim (Bool-cases (at_bol env sp)) [
      | inl y ↦
          rw y (
            follow (inst Opcode.bol v1 v2 out1 out2) saves places at fits (rw y refl) (λ c. cc)
              (cc))
      | inr n ↦ rw n (rest_lem (inst Opcode.bol v1 v2 out1 out2) (rw n refl) (λ c. cc) (cc))
    ]
    dispatch_lem Opcode.eol v1 v2 out1 out2 at fits = elim (Bool-cases (at_eol env sp)) [
      | inl y ↦
          rw y (
            follow (inst Opcode.eol v1 v2 out1 out2) saves places at fits (rw y refl) (λ c. cc)
              (cc))
      | inr n ↦ rw n (rest_lem (inst Opcode.eol v1 v2 out1 out2) (rw n refl) (λ c. cc) (cc))
    ]
    dispatch_lem Opcode.split v1 v2 out1 out2 at fits =
        let a =
          spec out1 saves r v fits.first fuel
            (exit_reached pc _ out1 reached at (λ q e. inl (sym e))) places in
        let middle : Round = add out1 saves none r in
        let last : Round = add out2 saves none middle in
        let b =
          spec out2 saves middle a.grows.valid fits.second (omega (arith, a.grows.fewer, fuel))
            (exit_reached pc _ out2 reached at (λ q e. inr (inl (sym e)))) places in
        (
          Grows-trans env root start sp step a.grows b.grows,
          record {
            exits = λ q. elim [
              | inl e ↦ one_exit last out1 (MarkedExit-Grows middle last out1 b.grows a.marked) e
              | inr m ↦ elim m [ inl e ↦ one_exit last out2 b.marked e | inr n ↦ absurd n ]
            ];
            waits = λ c e. cc;
            match_seen = λ e. cc;
          },
        )

  visit_lem :
      (k pc : ℕ) (add : Add env start sp step)
      → AddSpec k add
      → Fits env
      → (saves : List (Option ℕ)) (r : Round) → Valid env root start sp step r
      → pc < N
      → unmarked step r.handled < suc k
      → Reaches env root start sp pc
      → length saves ≡ env.nmatch * 2
      → Adds (some pc) r (visit env start sp step add pc saves none r)
  unfolding visit enter
  visit_lem k pc add spec fits saves r v inside fuel reached places =
      let (h, old) = get_elem?-some r.handled pc (omega (arith, inside, v.marks)) in
      let (i, at) = get_elem?-some env.nfa pc inside in
      elim (Bool-cases (h == step)) [
        | inl y ↦
            let e : h ≡ step = (==_iff h step).0 y in
            rw (visit, old, y)
              (record { grows = Grows-refl env root start sp step v; marked = old ∙ ap some e })
        | inr n ↦
            let other : h ≢ step = λ e. ground (arith, n, e) in
            let one_less = mark-fewer env root start sp step r pc h old other in
            let v' = mark-Valid env root start sp step r pc h old other v in
            let (g, c) =
              dispatch_lem k pc add spec saves places (mark env root start sp step r pc) v'
                (omega (arith, one_less, v.room)) (omega (arith, one_less, fuel)) reached i.op i.v1
                i.v2 i.out1 i.out2 at (fits pc i at) in
            rw (visit, old, n, enter, at)
              (record {
                grows = Grows-enter env root start sp step r pc h old other i at g c;
                marked = g.keeps pc (get_elem?-set_self r.handled pc step old);
              })
      ]

  -- add_thread marks its instruction and all that follows from it without a byte.
  pub add_thread-Adds : Fits env → (k : ℕ) → AddSpec k (add_thread env start sp step k)
  unfolding add_thread
  add_thread-Adds fits zero pc saves r v inside fuel reached places = absurd (omega arith)
  add_thread-Adds fits (suc k) none saves r v inside fuel reached places = record {
    grows = Grows-refl env root start sp step v;
    marked = tt;
  }
  add_thread-Adds fits (suc k) (some pc) saves r v inside fuel reached places =
      let running : failed r.status ≡ false = ap failed v.ok in
      rw running (
        visit_lem k pc (add_thread env start sp step k) (add_thread-Adds fits k) fits saves r v
          inside fuel reached places)
