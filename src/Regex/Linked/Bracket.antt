-- ===== src/Regex/Linked/Bracket.antt =====
-- parse_bracket and parse_bounds of src/c/regex/regcomp.c: the position stays in the pattern.
use small_lib_c.Base.{
  ℕ, zero, suc, ◌+◌, ◌-◌, ◌≤◌, ◌<◌, ◌≡◌, ◌≢◌, refl, ap, List, [], ◌∷◌, Bool, true, false, not, ◌&&◌,
  ◌||◌, Option, none, ◌⊎◌, inl, inr, arith, length, take, drop, ◌==◌, Bool-cases,
}
use small_lib_c.Regex.{Error, AstOp, error, failed, char_at, ebrack, ectype, ecollate}
use small_lib_c.Regex.Compile.{Ctx, emit, stop, skip}
use small_lib_c.Regex.Parse.Brackets.{
  here, ahead, class_end, class_item, bracket_item, bracket_loop, bracket_start, parse_bracket,
  check_cls, opens_class, is_some,
}
use small_lib_c.Regex.Linked.{Good, Grown, Failed, Outcome, Grown-trans, emit_lem}
use small_lib_c.Regex.Linked.Copy.{Grown-refl}
use small_lib_c.Regex.Linked.Bounds.{Kept}

pub char_at-lt : (s : List ℕ) (i : ℕ) → char_at s i ≢ 0 → i < length s
char_at-lt [] i h = absurd (h refl)
char_at-lt (c ∷ s) zero h = omega arith
char_at-lt (c ∷ s) (suc i) h = omega (arith, char_at-lt s i h)

pub at_byte : (s : List ℕ) (i x : ℕ) → (char_at s i == x) ≡ true → x ≢ 0 → i < length s
at_byte s i x e other = char_at-lt s i (λ z. ground (arith, e, z, other))

module _ (grants : ℕ → Bool) (pat : List ℕ) where
  abbrev pub limit : ℕ
  limit = length pat

  -- Another position.
  pub move_lem :
      (lo : ℕ) (c : Ctx) (p : ℕ)
      → Good limit c
      → lo ≤ p
      → p ≤ limit
      → Grown limit lo c (record c { pos = p })
  move_lem lo c p g behind inside = record {
    good = record { fine = g.fine; inside = inside; linked = g.linked };
    behind = behind;
    keeps = λ i n e. e;
    longer = omega arith;
    groups = omega arith;
    stack = refl;
  }

  pub Grown-lower :
      (lo : ℕ) {hi : ℕ} {c d : Ctx} → lo ≤ d.pos → Grown limit hi c d → Grown limit lo c d
  Grown-lower lo h p = record {
    good = p.good;
    behind = h;
    keeps = p.keeps;
    longer = p.longer;
    groups = p.groups;
    stack = p.stack;
  }

  pub stop_lem : (c : Ctx) (e : Error) → Failed limit (stop c (error e))
  stop_lem c e = record { fails = refl; fuelled = cc }

  class_end_le : (k t pos : ℕ) → class_end grants pat k t pos ≤ pos + k
  unfolding class_end
  class_end_le zero t pos = omega arith
  class_end_le (suc k) t pos = ground (arith, class_end_le k t (pos + 1))

  class_end_ge : (k t pos : ℕ) → pos ≤ class_end grants pat k t pos
  unfolding class_end
  class_end_ge zero t pos = omega arith
  class_end_ge (suc k) t pos = ground (arith, class_end_ge k t (pos + 1))

  class_end_closed :
      (k t pos : ℕ)
      → limit ≤ pos + k
      → char_at pat (class_end grants pat k t pos) ≢ 0
      → char_at pat (class_end grants pat k t pos + 1) ≡ b']'
  unfolding class_end
  class_end_closed zero t pos all h = absurd (omega (arith, char_at-lt pat pos h))
  class_end_closed (suc k) t pos all h =
      ground (arith, h, class_end_closed k t (pos + 1) (omega arith))

  class_item_lem :
      (c : Ctx)
      → Good limit c
      → ahead grants pat c 1 ≢ 0
      → Failed limit (class_item grants pat c) ⊎ Grown limit (c.pos + 1) c (class_item grants pat c)
  unfolding class_item
  class_item_lem c g more =
      let inside = char_at-lt pat (c.pos + 1) more in
      let t = ahead grants pat c 1 in
      let start = c.pos + 2 in
      let end = class_end grants pat (length pat - start) t start in
      elim (Bool-cases (char_at pat end == 0)) [
        | inl y ↦ rw y (inl (stop_lem c ebrack))
        | inr n ↦
            elim (Bool-cases (t == b':' && not (check_cls (take (end - start) (drop start pat))))) [
              | inl y ↦ rw (n, y) (inl (stop_lem c ectype))
              | inr n2 ↦ elim (Bool-cases ((t == b'.' || t == b'=') && end - start == 0)) [
                | inl y ↦ rw (n, n2, y) (inl (stop_lem c ecollate))
                | inr n3 ↦
                    let close =
                      class_end_closed (length pat - start) t start (omega arith)
                        (λ e. ground (arith, n, e)) in
                    let last = char_at-lt pat (end + 1) (λ e. omega (arith, e, close)) in
                    rw (n, n2, n3)
                      (inr (
                        move_lem (c.pos + 1) c (end + 2) g
                          (omega (arith, class_end_ge (length pat - start) t start))
                          (omega (arith, last))))
              ]
            ]
      ]

  pub bracket_item_lem :
      (c : Ctx) (last : Option ℕ)
      → Good limit c
      → here grants pat c ≢ 0
      → Failed limit (bracket_item grants pat c last).0
        ⊎ Grown limit (c.pos + 1) c (bracket_item grants pat c last).0
  unfolding bracket_item
  bracket_item_lem c last g some_byte =
      let inside = char_at-lt pat c.pos some_byte in
      elim (Bool-cases (opens_class (here grants pat c) (ahead grants pat c 1))) [
        | inl y ↦ rw y (class_item_lem c g (λ e. ground (arith, y, e)))
        | inr n ↦
            elim (Bool-cases (
              here grants pat c == b'-'
              && not (ahead grants pat c 1 == 0)
              && not (ahead grants pat c 1 == b']')
              && is_some last)) [
                | inl y ↦
                    let more = char_at-lt pat (c.pos + 1) (λ e. ground (arith, y, e)) in
                    rw (n, y)
                      (inr (move_lem (c.pos + 1) c (c.pos + 2) g (omega arith) (omega arith)))
                | inr n2 ↦
                    rw (n, n2)
                      (inr (move_lem (c.pos + 1) c (c.pos + 1) g (omega arith) (omega arith)))
              ]
      ]

  bracket_loop_lem :
      (k : ℕ) (c : Ctx) (last : Option ℕ)
      → Good limit c
      → limit - c.pos < k
      → Failed limit (bracket_loop grants pat k c last)
        ⊎ Grown limit c.pos c (bracket_loop grants pat k c last)
  unfolding bracket_loop
  bracket_loop_lem zero c last g fuel = absurd (omega arith)
  bracket_loop_lem (suc k) c last g fuel =
      elim (Bool-cases (here grants pat c == 0 || here grants pat c == b']')) [
        | inl y ↦ rw y (inr (Grown-refl limit grants g))
        | inr n ↦
            let some_byte : here grants pat c ≢ 0 = λ e. ground (arith, n, e) in
            let item = bracket_item grants pat c last in
            elim (bracket_item_lem c last g some_byte) [
              | inl f ↦ rw (n, f.fails) (inl f)
              | inr p ↦
                  let running : failed item.0.err ≡ false = ap failed p.good.fine in
                  let low = char_at-lt pat c.pos some_byte in
                  rw (n, running)
                    (elim (bracket_loop_lem k item.0 item.1 p.good (omega (arith, p.behind, low))) [
                      | inl f ↦ inl f
                      | inr q ↦ inr (
                          Grown-lower c.pos (omega (arith, p.behind, q.behind))
                            (Grown-trans limit p q))
                    ])
            ]
      ]

  bracket_start_lem :
      (c : Ctx)
      → Good limit c
      → c.pos < limit
      → Grown limit (c.pos + 1) c (bracket_start grants pat c)
  bracket_start_lem c g inside = elim (Bool-cases (char_at pat (c.pos + 1) == b'^')) [
    | inl y ↦
        let one = at_byte pat (c.pos + 1) b'^' y (omega arith) in
        elim (Bool-cases (char_at pat (c.pos + 1 + 1) == b']')) [
          | inl z ↦
              let two = at_byte pat (c.pos + 1 + 1) b']' z (omega arith) in
              rw (y, z) (move_lem (c.pos + 1) c (c.pos + 1 + 1 + 1) g (omega arith) (omega arith))
          | inr n ↦ rw (y, n) (move_lem (c.pos + 1) c (c.pos + 1 + 1) g (omega arith) (omega arith))
        ]
    | inr n ↦ elim (Bool-cases (char_at pat (c.pos + 1) == b']')) [
      | inl z ↦
          let two = at_byte pat (c.pos + 1) b']' z (omega arith) in
          rw (n, z) (move_lem (c.pos + 1) c (c.pos + 1 + 1) g (omega arith) (omega arith))
      | inr m ↦ rw (n, m) (move_lem (c.pos + 1) c (c.pos + 1) g (omega arith) (omega arith))
    ]
  ]

  -- A step behind what is emitted.
  pub skip_kept :
      (c d e : Ctx) (n lo hi : ℕ)
      → Grown limit hi c d
      → Kept limit grants d e
      → d.pos + n ≤ limit
      → lo ≤ d.pos + n
      → Outcome limit lo c (skip e n)
  skip_kept c d e n lo hi p (inl f) room low = inl (record { fails = f.fails; fuelled = f.fuelled })
  skip_kept c d e n lo hi p (inr q) room low =
      let h = Grown-trans limit p q.result.grown in
      inr (record {
        grown = record {
          good = record {
            fine = h.good.fine;
            inside = omega (arith, q.same_pos, room);
            linked = h.good.linked;
          };
          behind = omega (arith, q.same_pos, low);
          keeps = h.keeps;
          longer = h.longer;
          groups = h.groups;
          stack = h.stack;
        };
        returned = q.result.returned;
      })

  pub parse_bracket-Outcome :
      (c : Ctx)
      → Good limit c
      → c.pos < limit
      → Outcome limit (c.pos + 1) c (parse_bracket grants pat c)
  unfolding parse_bracket
  parse_bracket-Outcome c g low =
      let running : failed c.err ≡ false = ap failed g.fine in
      let s = bracket_start grants pat c in
      let ps = bracket_start_lem c g low in
      let d = bracket_loop grants pat (length pat + 1) s none in
      elim (bracket_loop_lem (length pat + 1) s none ps.good (omega arith)) [
        | inl f ↦ rw (running, f.fails) (inl f)
        | inr q ↦
            let going : failed d.err ≡ false = ap failed q.good.fine in
            elim (Bool-cases (char_at pat d.pos == b']')) [
              | inr n ↦ rw (running, going, n) (inl (stop_lem d ebrack))
              | inl y ↦
                  let inside = at_byte pat d.pos b']' y (omega arith) in
                  let e =
                    emit_lem limit grants d AstOp.bracket c.pos d.pos none none q.good
                      (record { left = tt; right = tt; group = omega arith }) in
                  rw (running, going, y)
                    (skip_kept c d (emit grants d AstOp.bracket c.pos d.pos none none) 1 (c.pos + 1)
                      s.pos (Grown-trans limit ps q) e (omega (arith, inside))
                      (omega (arith, ps.behind, q.behind)))
            ]
      ]
