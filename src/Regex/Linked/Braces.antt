-- ===== src/Regex/Linked/Braces.antt =====
-- parse_bounds of src/c/regex/regcomp.c.
use small_lib_c.Base.{
  ℕ, zero, suc, ◌+◌, ◌-◌, ◌*◌, ◌≤◌, ◌<◌, ◌≡◌, refl, ap, List, Bool, true, false, ◌&&◌, Option, some,
  inl, inr, arith, length, ◌==◌, Bool-cases, Option-cases,
}
use small_lib_c.Regex.{failed, char_at, badbr}
use small_lib_c.Regex.Compile.{Ctx}
use small_lib_c.Regex.Parse.Brackets.{here, is_digit}
use small_lib_c.Regex.Parse.Braces.{
  read_digits, number, read_max, bounds_end, bad_bounds, close_bounds, parse_bounds,
}
use small_lib_c.Regex.Linked.{Good, Outcome, Grown-trans}
use small_lib_c.Regex.Linked.Bounds.{apply_bounds-Kept}
use small_lib_c.Regex.Linked.Bracket.{limit, char_at-lt, at_byte, move_lem, Grown-lower, stop_lem}

module _ (grants : ℕ → Bool) (pat : List ℕ) where
  read_digits_le : (k v pos : ℕ) → (read_digits grants pat k v pos).1 ≤ pos + k
  unfolding read_digits
  read_digits_le zero v pos = omega arith
  read_digits_le (suc k) v pos =
      ground (arith, read_digits_le k (v * 10 + (char_at pat pos - b'0')) (pos + 1))

  read_digits_ge : (k v pos : ℕ) → pos ≤ (read_digits grants pat k v pos).1
  unfolding read_digits
  read_digits_ge zero v pos = omega arith
  read_digits_ge (suc k) v pos =
      ground (arith, read_digits_ge k (v * 10 + (char_at pat pos - b'0')) (pos + 1))

  read_max_inside :
      (min pos : ℕ)
      → pos ≤ length pat
      → (pos ≤ (read_max grants pat min pos).1) × ((read_max grants pat min pos).1 ≤ length pat)
  unfolding read_max
  read_max_inside min pos h = elim (Bool-cases (char_at pat pos == b',')) [
    | inr n ↦ rw n (omega arith, h)
    | inl y ↦
        let low = at_byte pat pos b',' y (omega arith) in
        elim (Bool-cases (is_digit (char_at pat (pos + 1)))) [
          | inr n ↦ rw (y, n) (omega arith, omega (arith, low))
          | inl d ↦
              let le = read_digits_le (length pat - (pos + 1)) 0 (pos + 1) in
              let ge = read_digits_ge (length pat - (pos + 1)) 0 (pos + 1) in
              elim (Option-cases ((number grants pat (pos + 1)).0)) [
                | inl e ↦ rw (y, d, e) (omega arith, omega (arith, low))
                | inr (v, e) ↦ rw (y, d, e) (omega (arith, ge), omega (arith, le, low))
              ]
        ]
  ]

  bounds_end_inside :
      (is_ere : Bool) (pos end : ℕ)
      → bounds_end grants pat is_ere pos ≡ some end
      → (pos ≤ end) × (end ≤ length pat)
  unfolding bounds_end
  bounds_end_inside true pos end e = elim (Bool-cases (char_at pat pos == b'}')) [
    | inr n ↦ absurd (ground (arith, n, rw n at e))
    | inl y ↦
        let low = at_byte pat pos b'}' y (omega arith) in
        let same : pos + 1 ≡ end = ground (arith, rw y at e) in
        (omega (arith, same), omega (arith, same, low))
  ]
  bounds_end_inside false pos end e =
      elim (Bool-cases (char_at pat pos == b'\\' && char_at pat (pos + 1) == b'}')) [
        | inr n ↦ absurd (ground (arith, n, rw n at e))
        | inl y ↦
            let low = char_at-lt pat (pos + 1) (λ z. ground (arith, y, z)) in
            let same : pos + 2 ≡ end = ground (arith, rw y at e) in
            (omega (arith, same), omega (arith, same, low))
      ]

  close_bounds_lem :
      (c : Ctx) (is_ere : Bool) (min : ℕ) (max : Option ℕ) (pos : ℕ)
      → Good (limit grants pat) c
      → c.ret < length c.prog
      → c.pos ≤ pos
      → Outcome (limit grants pat) c.pos c (close_bounds grants pat c is_ere c.ret min max pos)
  unfolding close_bounds
  close_bounds_lem c is_ere min max pos g r le =
      elim (Option-cases (bounds_end grants pat is_ere pos)) [
        | inl e ↦ rw (close_bounds, e) (inl (stop_lem grants pat c badbr))
        | inr (end, e) ↦
            let (ge, inside) = bounds_end_inside is_ere pos end e in
            elim (Bool-cases (bad_bounds grants pat min max)) [
              | inl y ↦ rw (close_bounds, e, y) (inl (stop_lem grants pat c badbr))
              | inr n ↦
                  let d : Ctx = record c { pos = end } in
                  let p = move_lem grants pat c.pos c end g (omega (arith, ge, le)) inside in
                  rw (close_bounds, e, n)
                    (elim (apply_bounds-Kept (length pat) grants d c.ret r min max p.good r) [
                      | inl f ↦ inl f
                      | inr q ↦
                          let h = Grown-trans (length pat) p q.result.grown in
                          inr (record {
                            grown =
                                Grown-lower grants pat c.pos (omega (arith, q.same_pos, ge, le)) h;
                            returned = q.result.returned;
                          })
                    ])
            ]
      ]

  -- parse_bounds, and apply_bounds behind it.
  pub parse_bounds-Outcome :
      (c : Ctx) (is_ere : Bool)
      → Good (limit grants pat) c
      → c.ret < length c.prog
      → Outcome (limit grants pat) c.pos c (parse_bounds grants pat c is_ere c.ret)
  unfolding parse_bounds
  parse_bounds-Outcome c is_ere g r =
      let running : failed c.err ≡ false = ap failed g.fine in
      let in_pat = g.inside in
      let pos = (number grants pat c.pos).1 in
      let le = read_digits_le (length pat - c.pos) 0 c.pos in
      let ge = read_digits_ge (length pat - c.pos) 0 c.pos in
      elim (Bool-cases (is_digit (here grants pat c))) [
        | inr n ↦ rw (running, n) (inl (stop_lem grants pat c badbr))
        | inl y ↦ elim (Option-cases ((number grants pat c.pos).0)) [
          | inl e ↦ rw (running, y, e) (inl (record { fails = refl; fuelled = cc }))
          | inr (min, e) ↦
              let (lo, hi) = read_max_inside min pos (omega (arith, le, in_pat)) in
              elim (Option-cases ((read_max grants pat min pos).0)) [
                | inl e' ↦ rw (running, y, e, e') (inl (record { fails = refl; fuelled = cc }))
                | inr (max, e') ↦
                    rw (running, y, e, e')
                      (close_bounds_lem c is_ere min max (read_max grants pat min pos).1 g r
                        (omega (arith, lo, ge)))
              ]
        ]
      ]
