-- ===== src/Regex/Steps.antt =====
-- One byte of src/c/regex/regexec.c: the threads at a position give those at the next.
use small_lib_c.Base.{
  ℕ, suc, ◌+◌, ◌≤◌, ◌<◌, ◌≡◌, refl, List, [], ◌∷◌, Bool, true, false, Option, none, some, inl, inr,
  arith, length, get_elem?, if◌then◌else◌, ltb, Bool-cases, subst, ap,
}
use small_lib_c.Regex.{failed, char_at}
use small_lib_c.Regex.Nfa.{Opcode, Inst, inst}
use small_lib_c.Regex.Exec.{
  Env, Thread, Round, takes, at_bol, at_eol, step_plain, step_thread, step_threads, next,
}
use small_lib_c.Regex.Graph.{OneOf, InRange, silent, Reaches, begin, quiet, read, Fits}
use small_lib_c.Regex.Marks.{get_elem?-some}
use small_lib_c.Regex.Closure.{
  HasPc, All, Marked, MarkedExit, Sane, Valid, Grows, Grows-refl, Grows-trans,
}
use small_lib_c.Regex.Closure.Add.{add_thread-Adds, ReachesExit}

module _ (env : Env) (root start : ℕ) where
  abbrev N : ℕ
  N = length env.nfa

  named_exit : {q : ℕ} (out : Option ℕ) → InRange N out → some q ≡ out → q < N
  named_exit none h e = cc
  named_exit (some p) h e = ground (arith, h, e)

  anchored_exit :
      {q : ℕ} (b : Bool) (out : Option ℕ)
      → InRange N out
      → OneOf (some q) (if b then out ∷ [] else [])
      → q < N
  anchored_exit true out h (inl e) = named_exit out h e
  anchored_exit true out h (inr m) = absurd m
  anchored_exit false out h m = absurd m

  exit_in :
      (op : Opcode) (v1 v2 : ℕ) (out1 out2 : Option ℕ) (sp q : ℕ)
      → InRange N out1
      → InRange N out2
      → OneOf (some q) (silent env (inst op v1 v2 out1 out2) sp)
      → q < N
  unfolding silent
  exit_in Opcode.match v1 v2 out1 out2 sp q h k m = absurd m
  exit_in Opcode.char v1 v2 out1 out2 sp q h k m = absurd m
  exit_in Opcode.any v1 v2 out1 out2 sp q h k m = absurd m
  exit_in Opcode.bracket v1 v2 out1 out2 sp q h k m = absurd m
  exit_in Opcode.backref v1 v2 out1 out2 sp q h k m = absurd m
  exit_in Opcode.jmp v1 v2 out1 out2 sp q h k m = anchored_exit true out1 h m
  exit_in Opcode.save v1 v2 out1 out2 sp q h k m = anchored_exit true out1 h m
  exit_in Opcode.bol v1 v2 out1 out2 sp q h k m = anchored_exit (at_bol env sp) out1 h m
  exit_in Opcode.eol v1 v2 out1 out2 sp q h k m = anchored_exit (at_eol env sp) out1 h m
  exit_in Opcode.split v1 v2 out1 out2 sp q h k (inl e) = named_exit out1 h e
  exit_in Opcode.split v1 v2 out1 out2 sp q h k (inr m) = anchored_exit true out2 k m

  pub Reaches-lt : {sp pc : ℕ} → Fits env → root < N → Reaches env root start sp pc → pc < N
  Reaches-lt fits inside begin = inside
  Reaches-lt fits inside (quiet {sp} {p} {q} i r e m) =
      exit_in i.op i.v1 i.v2 i.out1 i.out2 sp q (fits p i e).first (fits p i e).second m
  Reaches-lt fits inside (read {sp} {p} {q} i r e h t o) = let f = (fits p i e).first in rw o at f

  module _ (sp step : ℕ) where
    -- What the threads of one position owe to the next.
    pub record Moves (p : ℕ) (r' : Round) : Type 0 where
      pub moved :
          (i : Inst) (q : ℕ)
          → get_elem? env.nfa p ≡ some i
          → sp < length env.str
          → takes env i (char_at env.str sp) ≡ some true
          → i.out1 ≡ some q
          → Marked env root start (suc sp) step r' q

    Moves-Grows :
        {p : ℕ} {r r' : Round} → Grows env root start (suc sp) step r r' → Moves p r → Moves p r'
    Moves-Grows g m = record { moved = λ i q e h t o. g.keeps q (m.moved i q e h t o) }

    module _ (fits : Fits env) (inside : root < N) (le : start ≤ sp) where
      reads :
          (p : ℕ) (i : Inst) (out : Option ℕ)
          → Reaches env root start sp p
          → get_elem? env.nfa p ≡ some i
          → sp < length env.str
          → takes env i (char_at env.str sp) ≡ some true
          → i.out1 ≡ out
          → ReachesExit env root start (suc sp) step out
      reads p i none r e h t o = tt
      reads p i (some q) r e h t o = read i r e h t o

      marked_exit :
          (r : Round) (out : Option ℕ) {q : ℕ}
          → MarkedExit env root start (suc sp) step r out
          → out ≡ some q
          → Marked env root start (suc sp) step r q
      marked_exit r none m e = cc
      marked_exit r (some p) m e = ground (arith, m, e)

      abbrev Stepped : Thread → Round → Round → Type 0
      Stepped t r r' = Grows env root start (suc sp) step r r' × Moves t.pc r'

      taken :
          (t : Thread) (i : Inst) (r : Round) (b : Bool)
          → Sane env root start sp step t
          → Valid env root start (suc sp) step r
          → get_elem? env.nfa t.pc ≡ some i
          → sp < length env.str
          → takes env i (char_at env.str sp) ≡ some b
          → Stepped t r (step_plain env start sp step t i r)
      unfolding step_plain
      taken t i r false sane v at h e =
          let y : ltb sp (length env.str) ≡ true = ground (arith, h) in
          rw (step_plain, y, e)
            (
              Grows-refl env root start (suc sp) step v,
              record { moved = λ j q at' k o x. ground (arith, at, at', o, e) },
            )
      taken t i r true sane v at h e =
          let y : ltb sp (length env.str) ≡ true = ground (arith, h) in
          let room = v.room in
          let a =
            add_thread-Adds env root start (suc sp) step fits (N + 1) i.out1 t.saves r v
              (fits t.pc i at).first (omega (arith, room))
              (reads t.pc i i.out1 sane.reached at h e refl) sane.places in
          rw (step_plain, y, e)
            (
              a.grows,
              record {
                moved = λ j q at' k o x.
                    let same : i.out1 ≡ some q = ground (arith, at, at', x) in
                    marked_exit (next env start sp step i.out1 t.saves r) i.out1 a.marked same;
              },
            )

      plain_lem :
          (t : Thread) (i : Inst) (r : Round)
          → Sane env root start sp step t
          → Valid env root start (suc sp) step r
          → get_elem? env.nfa t.pc ≡ some i
          → Stepped t r (step_plain env start sp step t i r)
      unfolding step_plain
      plain_lem t i r sane v at = elim (Bool-cases (ltb sp (length env.str))) [
        | inr n ↦
            rw (step_plain, n)
              (
                Grows-refl env root start (suc sp) step v,
                record { moved = λ j q e h k o. absurd (ground (arith, n, h)) },
              )
        | inl y ↦
            let (b, e) = (fits t.pc i at).decides (char_at env.str sp) in
            taken t i r b sane v at (ground (arith, y)) e
      ]

      thread_lem :
          (t : Thread) (r : Round)
          → Sane env root start sp step t
          → Valid env root start (suc sp) step r
          → Stepped t r (step_thread env start sp step t r)
      unfolding step_thread
      thread_lem t r sane v =
          let (i, at) = get_elem?-some env.nfa t.pc (Reaches-lt fits inside sane.reached) in
          rw (step_thread, at, sane.no_bref) (plain_lem t i r sane v at)

      -- All the threads in their order.
      pub step_threads-Grows :
          (ts : List Thread) (r : Round)
          → All (Sane env root start sp step) ts
          → Valid env root start (suc sp) step r
          → Grows env root start (suc sp) step r (step_threads env start sp step ts r)
            × ((p : ℕ) → HasPc p ts → Moves p (step_threads env start sp step ts r))
      unfolding step_threads
      step_threads-Grows [] r sane v = (Grows-refl env root start (suc sp) step v, λ p h. absurd h)
      step_threads-Grows (t ∷ ts) r sane v =
          let running : failed r.status ≡ false = ap failed v.ok in
          let (g, m) = thread_lem t r sane.0 v in
          let (h, ms) = step_threads-Grows ts (step_thread env start sp step t r) sane.1 g.valid in
          rw running (
            Grows-trans env root start (suc sp) step g h,
            λ p. elim [
              | inl e ↦ Moves-Grows h (subst (λ x. Moves x (step_thread env start sp step t r)) e m)
              | inr k ↦ ms p k
            ],
          )
