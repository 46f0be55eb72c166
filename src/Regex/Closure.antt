-- ===== src/Regex/Closure.antt =====
-- add_thread of src/c/regex/regexec.c: what a call adds to a round.
pub mod Add
use small_lib_c.Base.{
  ℕ, zero, suc, ◌+◌, ◌-◌, ◌*◌, ◌≤◌, ◌<◌, ◌≡◌, ◌≢◌, refl, sym, ◌∙◌, List, [], ◌∷◌, ◌++◌, Bool, true,
  false, Option, none, some, ◌⊎◌, inl, inr, arith, length, length-append, length-set, get_elem?,
  set, if◌then◌else◌, ltb, ◌==◌, Bool-cases, subst, ==_iff,
}
use small_lib_c.Regex.{reg_nosub, has_flag, no_error, failed, char_at}
use small_lib_c.Regex.Nfa.{Opcode, Inst, match}
use small_lib_c.Regex.Exec.{Span, Env, Thread, Round, push_thread, record_match, add_thread, takes}
use small_lib_c.Regex.Graph.{OneOf, InRange, silent, Reaches, quiet, Accepts, FitsInst, Fits}
use small_lib_c.Regex.Marks.{
  unmarked, unmarked-set, get_elem?-set_self, get_elem?-set_ne, get_elem?-lt, get_elem?-some,
}

abbrev pub HasPc : ℕ → List Thread → Type 0
HasPc p [] = ⊥
HasPc p (t ∷ ts) = (t.pc ≡ p) ⊎ HasPc p ts

abbrev pub All : (P : Thread → Type 0) → List Thread → Type 0
All P [] = Unit {0}
All P (t ∷ ts) = P t × All P ts

-- The best length is at least n.
abbrev pub AtLeast : ℕ → Option ℕ → Type 0
AtLeast n none = ⊥
AtLeast n (some m) = n ≤ m

pub HasPc-append : (p : ℕ) (ts : List Thread) (t : Thread) → HasPc p ts → HasPc p (ts ++ t ∷ [])
HasPc-append p [] t h = absurd h
HasPc-append p (x ∷ ts) t (inl e) = inl e
HasPc-append p (x ∷ ts) t (inr h) = inr (HasPc-append p ts t h)

pub HasPc-last : (ts : List Thread) (t : Thread) → HasPc t.pc (ts ++ t ∷ [])
HasPc-last [] t = inl refl
HasPc-last (x ∷ ts) t = inr (HasPc-last ts t)

pub All-append :
    (P : Thread → Type 0) (ts : List Thread) (t : Thread) → All P ts → P t → All P (ts ++ t ∷ [])
All-append P [] t h p = (p, tt)
All-append P (x ∷ ts) t h p = (h.0, All-append P ts t h.1 p)

module _ (env : Env) (root start sp step : ℕ) where
  abbrev pub size : ℕ
  size = length env.nfa

  abbrev pub Marked : Round → ℕ → Type 0
  Marked r p = get_elem? r.handled p ≡ some step

  abbrev pub MarkedExit : Round → Option ℕ → Type 0
  MarkedExit r none = Unit {0}
  MarkedExit r (some q) = Marked r q

  pub record Sane (t : Thread) : Type 0 where
    pub reached : Reaches env root start sp t.pc
    pub no_bref : t.bref ≡ none
    pub places : length t.saves ≡ env.nmatch * 2

  -- The first span of the best match, where spans are asked for.
  abbrev pub Shown : ℕ → List Span → Type 0
  Shown n best_m =
      has_flag env.cflags reg_nosub ≡ false
      → (rest : List Span) × (best_m ≡ (some start, some (start + n)) ∷ rest)

  -- A round whose threads and whose best match are those of runs.
  pub record Valid (r : Round) : Type 0 where
    pub ok : r.status ≡ no_error
    pub marks : length r.handled ≡ size
    pub recent : (p h : ℕ) → get_elem? r.handled p ≡ some h → h ≤ step
    pub room : length r.threads + unmarked step r.handled ≤ size
    pub sane : All Sane r.threads
    pub best : (n : ℕ) → r.best_len ≡ some n → Accepts env root start (start + n)
    pub shown : (n : ℕ) → r.best_len ≡ some n → Shown n r.best_m

  -- All that follows from an instruction that is marked is there too.
  pub record Covered (r : Round) (p : ℕ) (i : Inst) : Type 0 where
    pub exits : (q : ℕ) → OneOf (some q) (silent env i sp) → Marked r q
    pub waits : (c : ℕ) → takes env i c ≡ some true → HasPc p r.threads
    pub match_seen : i.op ≡ match → AtLeast (sp - start) r.best_len

  -- What a call adds.
  pub record Grows (r r' : Round) : Type 0 where
    pub valid : Valid r'
    pub keeps : (p : ℕ) → Marked r p → Marked r' p
    pub covers :
        (p : ℕ) (i : Inst)
        → Marked r' p
        → get_elem? env.nfa p ≡ some i
        → Marked r p ⊎ Covered r' p i
    pub threads : (p : ℕ) → HasPc p r.threads → HasPc p r'.threads
    pub longer_best : (n : ℕ) → AtLeast n r.best_len → AtLeast n r'.best_len
    pub fewer : unmarked step r'.handled ≤ unmarked step r.handled

  pub Grows-refl : {r : Round} → Valid r → Grows r r
  Grows-refl v = record {
    valid = v;
    keeps = λ p m. m;
    covers = λ p i m e. inl m;
    threads = λ p h. h;
    longer_best = λ n h. h;
    fewer = omega arith;
  }

  Covered-Grows : {r r' : Round} {p : ℕ} {i : Inst} → Grows r r' → Covered r p i → Covered r' p i
  Covered-Grows g c = record {
    exits = λ q m. g.keeps q (c.exits q m);
    waits = λ b e. g.threads _ (c.waits b e);
    match_seen = λ e. g.longer_best _ (c.match_seen e);
  }

  pub Grows-trans : {r s t : Round} → Grows r s → Grows s t → Grows r t
  Grows-trans g h = record {
    valid = h.valid;
    keeps = λ p m. h.keeps p (g.keeps p m);
    covers = λ p i m e. elim (h.covers p i m e) [
      | inr c ↦ inr c
      | inl m' ↦ elim (g.covers p i m' e) [ inl m'' ↦ inl m'' | inr c ↦ inr (Covered-Grows h c) ]
    ];
    threads = λ p m. h.threads p (g.threads p m);
    longer_best = λ n m. h.longer_best n (g.longer_best n m);
    fewer = omega (arith, g.fewer, h.fewer);
  }

  -- The round in which `pc` has just been marked.
  abbrev pub mark : Round → ℕ → Round
  mark r pc = record r { handled = set r.handled pc step }

  module _ (r : Round) (pc h : ℕ) (old : get_elem? r.handled pc ≡ some h) (other : h ≢ step) where
    pub mark-fewer : unmarked step (set r.handled pc step) + 1 ≡ unmarked step r.handled
    mark-fewer = unmarked-set step r.handled pc old other

    pub mark-Valid : Valid r → Valid (mark r pc)
    mark-Valid v = record {
      ok = v.ok;
      marks = length-set r.handled pc step ∙ v.marks;
      recent = λ p h' e. elim (Bool-cases (pc == p)) [
        | inl y ↦
            let same : pc ≡ p = (==_iff pc p).0 y in
            let new = get_elem?-set_self r.handled pc step old in ground (arith, new, e, same)
        | inr n ↦
            v.recent p h'
              (sym (get_elem?-set_ne r.handled pc p step (λ same. ground (arith, n, same))) ∙ e)
      ];
      room = omega (arith, v.room, mark-fewer);
      sane = v.sane;
      best = v.best;
      shown = v.shown;
    }

    mark-keeps : (p : ℕ) → Marked r p → Marked (mark r pc) p
    mark-keeps p m = elim (Bool-cases (pc == p)) [
      | inl y ↦ let e : pc ≡ p = (==_iff pc p).0 y in absurd (other (ground (arith, m, old, e)))
      | inr n ↦ get_elem?-set_ne r.handled pc p step (λ e. ground (arith, n, e)) ∙ m
    ]

    -- A marked instruction with its exits.
    pub Grows-enter :
        {r' : Round} (i : Inst)
        → get_elem? env.nfa pc ≡ some i
        → Grows (mark r pc) r'
        → Covered r' pc i
        → Grows r r'
    Grows-enter {r'} i at g c = record {
      valid = g.valid;
      keeps = λ p m. g.keeps p (mark-keeps p m);
      covers = λ p j m e. elim (Bool-cases (pc == p)) [
        | inl y ↦
            let same : pc ≡ p = (==_iff pc p).0 y in
            let i_j : i ≡ j = ground (arith, at, e, same) in
            inr (subst (λ x. Covered r' p x) i_j (subst (λ x. Covered r' x i) same c))
        | inr n ↦ elim (g.covers p j m e) [
          | inr d ↦ inr d
          | inl m' ↦
              inl
                (sym (get_elem?-set_ne r.handled pc p step (λ same. ground (arith, n, same))) ∙ m')
        ]
      ];
      threads = g.threads;
      longer_best = g.longer_best;
      fewer = omega (arith, g.fewer, mark-fewer);
    }
