-- ===== src/Fnmatch/Items.antt =====
-- One item of a pattern in src/c/fnmatch/fnmatch.c, where what stands behind it is decided.
use small_lib_c.Base.{
  ℕ, ◌≤◌, ◌≡◌, refl, sym, ◌∙◌, ap, subst, Bool, true, false, not, none, some, List, [], ◌∷◌, ◌++◌,
  ◌==◌, ==_iff, if◌then◌else◌, Bool-cases, inl, inr, arith, length, drop,
}
use small_lib_c.Fnmatch.{head}
use small_lib_c.Fnmatch.Match.{
  Verdict, bracket_holds, is_slash, is_dot, hidden, no_slash, literal, escape, question, star_loop,
  star, closed,
}
use small_lib_c.Fnmatch.Meaning.{Visible, Item, read_escape, start_behind, Matches}

-- A verdict on a proposition.
pub data Answers (P : Type 0) : Verdict → Type 0 where
  matched : P → Answers P (some true)
  unmatched : ¬ P → Answers P (some false)

Answers-map : {P Q : Type 0} {v : Verdict} → (P → Q) → (Q → P) → Answers P v → Answers Q v
Answers-map f g (matched p) = matched (f p)
Answers-map f g (unmatched n) = unmatched (λ q. n (g q))

cons_head : {x y : ℕ} {s t : List ℕ} → x ∷ s ≡ y ∷ t → x ≡ y
cons_head e = ap (λ l. head l) e

cons_tail : {x y : ℕ} {s t : List ℕ} → x ∷ s ≡ y ∷ t → s ≡ t
cons_tail e = ap (λ l. drop 1 l) e

-- A test that holds of a byte and not of an equal one.
differ : (test : ℕ → Bool) {x y : ℕ} → x ≡ y → test x ≡ true → test y ≡ false → ⊥
differ test e h n = let same = ap test e in cc

Visible-hidden :
    (flags : ℕ) (is_start : Bool) (x : ℕ)
    → Visible flags is_start x
    → hidden flags is_start x ≡ false
Visible-hidden flags is_start x v = elim (Bool-cases (is_slash flags x)) [
  | inl y ↦ absurd (v.0 (ground (arith, y)) (ground (arith, y)))
  | inr n ↦ elim (Bool-cases (is_dot flags is_start x)) [
    | inl y ↦ absurd (v.1 (ground (arith, y)) (ground (arith, y)) (ground (arith, y)))
    | inr m ↦ rw (n, m) refl
  ]
]

hidden-Visible :
    (flags : ℕ) (is_start : Bool) (x : ℕ)
    → hidden flags is_start x ≡ false
    → Visible flags is_start x
hidden-Visible flags is_start x h =
    ((λ f e. ground (arith, h, f, e)), (λ f st e. ground (arith, h, f, st, e)))

module _ (flags : ℕ) where
  -- One item, where the rest of the pattern is decided.
  module _ (items : List Item) (go : List ℕ → List ℕ → Bool → Verdict) (p : List ℕ)
      (decides : (s : List ℕ) (is_start : Bool)
        → Answers (Matches flags items s is_start) (go p s is_start)) where
    pub literal_lem :
        (c : ℕ) (s : List ℕ) (is_start : Bool)
        → Answers (Matches flags (Item.exactly c ∷ items) s is_start) (literal flags go c p s)
    unfolding literal
    literal_lem c [] is_start = unmatched (λ (s', e, m). absurd (ground (arith, e)))
    literal_lem c (x ∷ s) is_start = elim (Bool-cases (c == x)) [
      | inl y ↦
          let same : c ≡ x = (==_iff c x).0 y in
          rw y (
            Answers-map (λ m. (s, ap (λ z. z ∷ s) (sym same), m))
              (λ (s', e, m).
                subst (λ z. Matches flags items z (is_slash flags c)) (sym (cons_tail e)) m)
              (decides s (is_slash flags c)))
      | inr n ↦ rw n (unmatched (λ (s', e, m). absurd (ground (arith, n, cons_head e))))
    ]

    one_lem :
        (holds : ℕ → Bool) (x : ℕ) (s : List ℕ) (is_start : Bool)
        → Answers (Matches flags (Item.one_of holds ∷ items) (x ∷ s) is_start) (
            if hidden flags is_start x
            then some false
            else if not (holds x)
            then some false
            else go p s false)
    one_lem holds x s is_start = elim (Bool-cases (hidden flags is_start x)) [
      | inl y ↦ rw y (
          unmatched (λ (x', s', e, h, t, m).
            absurd (
              differ (hidden flags is_start) (cons_head e) y (Visible-hidden flags is_start x' h))))
      | inr n ↦ elim (Bool-cases (holds x)) [
        | inl h ↦
            rw (n, h)
              (Answers-map (λ m. (x, s, refl, hidden-Visible flags is_start x n, h, m))
                (λ (x', s', e, h, t, m).
                  subst (λ z. Matches flags items z false) (sym (cons_tail e)) m)
                (decides s false))
        | inr h ↦
            rw (n, h)
              (unmatched (λ (x', s', e, h', t, m). absurd (differ holds (sym (cons_head e)) t h)))
      ]
    ]

    pub question_lem :
        (s : List ℕ) (is_start : Bool)
        → Answers
            (Matches flags (Item.one_of (λ x. true) ∷ items) s is_start)
            (question flags go p s is_start)
    unfolding question
    question_lem [] is_start = unmatched (λ (x', s', e, h, t, m). absurd (ground (arith, e)))
    question_lem (x ∷ s) is_start = one_lem (λ x. true) x s is_start

    -- Some bytes without a slash, and the rest of the pattern behind them.
    abbrev Run : List ℕ → Bool → Type 0
    Run s is_start =
        (u : List ℕ) × (v : List ℕ) × (s ≡ u ++ v)
        × (no_slash flags u ≡ true)
        × Matches flags items v (start_behind u is_start)

    start_behind_lem : (u : List ℕ) → start_behind u false ≡ false
    start_behind_lem [] = refl
    start_behind_lem (x ∷ u) = refl

    run_nil : (is_start : Bool) → Run [] is_start → Matches flags items [] is_start
    run_nil st ([], v, e, h, m) = subst (λ z. Matches flags items z st) (sym e) m
    run_nil st (y ∷ u, v, e, h, m) = absurd (ground (arith, e))

    run_slash :
        (x : ℕ) (s : List ℕ) (is_start : Bool)
        → is_slash flags x ≡ true
        → (Matches flags items (x ∷ s) is_start → ⊥)
        → Run (x ∷ s) is_start
        → ⊥
    unfolding no_slash
    run_slash x s st slash none_here ([], v, e, h, m) =
        none_here (subst (λ z. Matches flags items z st) (sym e) m)
    run_slash x s st slash none_here (y ∷ u, v, e, h, m) =
        let same = ap (λ z. is_slash flags z) (cons_head e) in ground (arith, same, slash, h)

    run_tail :
        (x : ℕ) (s : List ℕ) (is_start : Bool)
        → (Matches flags items (x ∷ s) is_start → ⊥)
        → Run (x ∷ s) is_start
        → Run s false
    unfolding no_slash
    run_tail x s st none_here ([], v, e, h, m) =
        absurd (none_here (subst (λ z. Matches flags items z st) (sym e) m))
    run_tail x s st none_here (y ∷ u, v, e, h, m) = (
      u,
      v,
      cons_tail e,
      ground (arith, h),
      subst (λ b. Matches flags items v b) (sym (start_behind_lem u)) m,
    )

    run_cons :
        (x : ℕ) (s : List ℕ) (is_start : Bool)
        → is_slash flags x ≡ false
        → Run s false
        → Run (x ∷ s) is_start
    unfolding no_slash
    run_cons x s st no_slash_here (u, v, e, h, m) = (
      x ∷ u,
      v,
      ap (λ z. x ∷ z) e,
      rw (no_slash_here, h) refl,
      subst (λ b. Matches flags items v b) (start_behind_lem u) m,
    )

    star_loop_lem :
        (s : List ℕ) (is_start : Bool) → Answers (Run s is_start) (star_loop flags go p s is_start)
    unfolding star_loop no_slash
    star_loop_lem [] is_start =
        Answers-map (λ m. ([], [], refl, refl, m)) (λ r. run_nil is_start r) (decides [] is_start)
    star_loop_lem (x ∷ s) is_start = at_head (star_loop_lem s false) (decides (x ∷ s) is_start)
      where
        at_head :
            {v : Verdict}
            → Answers (Run s false) (star_loop flags go p s false)
            → Answers (Matches flags items (x ∷ s) is_start) v
            → Answers (Run (x ∷ s) is_start) (elim v [
              | none ↦ none
              | some true ↦ some true
              | some false ↦ if is_slash flags x then some false else star_loop flags go p s false
            ])
        at_head rest (matched m) = matched ([], x ∷ s, refl, refl, m)
        at_head rest (unmatched none_here) = elim (Bool-cases (is_slash flags x)) [
          | inl y ↦ rw y (unmatched (λ r. run_slash x s is_start y none_here r))
          | inr n ↦ rw n (
              Answers-map (λ r. run_cons x s is_start n r) (λ r. run_tail x s is_start none_here r)
                rest)
        ]

  append_nil : (u : List ℕ) → u ++ [] ≡ u
  append_nil [] = refl
  append_nil (x ∷ u) = ap (λ z. x ∷ z) (append_nil u)

  not_dot : (is_start : Bool) → is_dot flags is_start (head []) ≡ true → ⊥
  not_dot is_start y = ground (arith, y)

  whole : {s u v : List ℕ} → s ≡ u ++ v → u ≡ [] → v ≡ [] → s ≡ []
  whole {v = v} e none_before none_behind = e ∙ ap (λ z. z ++ v) none_before ∙ none_behind

  differ_text : (test : List ℕ → Bool) {x y : List ℕ} → x ≡ y → test x ≡ true → test y ≡ false → ⊥
  differ_text test e h n = let same = ap test e in cc

  -- A star at the end.
  pub star_end_lem :
      (go : List ℕ → List ℕ → Bool → Verdict) (s : List ℕ) (is_start : Bool)
      → Answers (Matches flags (Item.many ∷ []) s is_start) (star flags go [] s is_start)
  unfolding star
  star_end_lem go s is_start = elim (Bool-cases (is_dot flags is_start (head s))) [
    | inl y ↦ rw y (
        unmatched (λ (u, v, e, h, d, m).
          not_dot is_start
            (subst (λ z. is_dot flags is_start (head z) ≡ true) (whole e (d refl) m) y)))
    | inr n ↦ elim (Bool-cases (no_slash flags s)) [
      | inl t ↦ rw (n, t) (matched (s, [], sym (append_nil s), t, (λ d. absurd (cc)), refl))
      | inr f ↦
          rw (n, f)
            (unmatched (λ (u, v, e, h, d, m).
              let same : s ≡ u = e ∙ ap (λ z. u ++ z) m ∙ append_nil u in
              differ_text (no_slash flags) (sym same) h f))
    ]
  ]

  pub star_lem :
      (items : List Item) (go : List ℕ → List ℕ → Bool → Verdict) (c : ℕ) (p : List ℕ)
      → ((s : List ℕ) (is_start : Bool)
          → Answers (Matches flags items s is_start) (go (c ∷ p) s is_start))
      → (s : List ℕ) (is_start : Bool)
      → Answers (Matches flags (Item.many ∷ items) s is_start) (star flags go (c ∷ p) s is_start)
  unfolding star no_slash
  star_lem items go c p decides s is_start = elim (Bool-cases (is_dot flags is_start (head s))) [
    | inl y ↦ rw y (
        Answers-map (λ m. ([], s, refl, refl, (λ d. refl), m))
          (λ (u, v, e, h, d, m).
            subst (λ z. Matches flags items z is_start) (sym (e ∙ ap (λ z. z ++ v) (d refl)))
              (subst (λ z. Matches flags items v (start_behind z is_start)) (d refl) m))
          (decides s is_start))
    | inr n ↦ rw n (
        Answers-map (λ (u, v, e, h, m). (u, v, e, h, (λ d. absurd (cc)), m))
          (λ (u, v, e, h, d, m). (u, v, e, h, m))
          (star_loop_lem items go (c ∷ p) decides s is_start))
  ]

  pub closed_lem :
      (items : List Item) (go : List ℕ → List ℕ → Bool → Verdict) (p after : List ℕ)
      → ((s : List ℕ) (is_start : Bool)
          → Answers (Matches flags items s is_start) (go after s is_start))
      → (s : List ℕ) (is_start : Bool)
      → Answers
          (Matches flags (Item.one_of (λ x. bracket_holds p x) ∷ items) s is_start)
          (closed flags go p after s is_start)
  unfolding closed
  closed_lem items go p after decides [] is_start =
      unmatched (λ (x', s', e, h, t, m). absurd (ground (arith, e)))
  closed_lem items go p after decides (x ∷ s) is_start =
      one_lem items go after decides (λ x. bracket_holds p x) x s is_start

  pub escape_lem :
      (read : List ℕ → List Item) (go : List ℕ → List ℕ → Bool → Verdict) (p : List ℕ)
      → ((q : List ℕ)
          → length q ≤ length p
          → (s : List ℕ) (is_start : Bool)
          → Answers (Matches flags (read q) s is_start) (go q s is_start))
      → (s : List ℕ) (is_start : Bool)
      → Answers (Matches flags (read_escape flags read p) s is_start) (escape flags go p s)
  unfolding read_escape escape
  escape_lem read go [] shorter s is_start = unmatched (λ m. m)
  escape_lem read go (c ∷ p) shorter s is_start =
      literal_lem (read p) go p (shorter p (omega arith)) c s is_start
