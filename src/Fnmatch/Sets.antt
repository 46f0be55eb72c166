-- ===== src/Fnmatch/Sets.antt =====
-- The brackets of fnmatch of src/c/fnmatch/fnmatch.c, written out from bytes, ranges and classes.
use small_lib_c.Base.{
  ℕ, zero, suc, ◌-◌, ◌≤◌, ◌≡◌, ◌≢◌, refl, ap, ◌∙◌, Bool, true, false, not, ◌&&◌, ◌||◌, List, [],
  ◌∷◌, ◌++◌, ltb, leb, ◌==◌, length, length-append, take, xor, arith,
}
use small_lib_c.Base.Text.{codes}
use small_lib_c.Ctype.{
  isalnum, isalpha, iscntrl, isdigit, isgraph, islower, isprint, ispunct, isspace, isupper,
  isxdigit,
}
use small_lib_c.Fnmatch.{head}
use small_lib_c.Fnmatch.Bracket.{
  is_name, check_class, check_range, close_class, leads, end_loop, scan_end, in_class, before,
  items, set_holds,
}
use small_lib_c.Fnmatch.Match.{negates, set_start, bracket_end, bracket_holds}

-- The classes with their names.
pub data Named : List ℕ → (ℕ → Bool) → Type 0 where
  alnum : Named (codes "alnum") isalnum
  alpha : Named (codes "alpha") isalpha
  blank : Named (codes "blank") (λ x. x == 32 || x == 9)
  cntrl : Named (codes "cntrl") iscntrl
  digit : Named (codes "digit") isdigit
  graph : Named (codes "graph") isgraph
  lower : Named (codes "lower") islower
  print : Named (codes "print") isprint
  punct : Named (codes "punct") ispunct
  space : Named (codes "space") isspace
  upper : Named (codes "upper") isupper
  xdigit : Named (codes "xdigit") isxdigit

-- A byte of a bracket that means itself.
abbrev pub Ordinary : ℕ → Type 0
Ordinary c = (c ≢ b']') × (c ≢ b'[') × (c ≢ b'-')

-- A byte, the bytes from one to another, or those of a class.
pub data Part : Type 0 where
  single : (c : ℕ) → Ordinary c → Part
  range : (a b : ℕ) → Ordinary a → Ordinary b → Part
  class : (name : List ℕ) (test : ℕ → Bool) → Named name test → Part

-- A part as it is written, and what stands behind it.
abbrev pub written : Part → List ℕ → List ℕ
written (single c o) t = c ∷ t
written (range a b oa ob) t = a ∷ b'-' ∷ b ∷ t
written (class name test n) t = b'[' ∷ b':' ∷ (name ++ b':' ∷ b']' ∷ t)

abbrev pub text : List Part → List ℕ → List ℕ
text [] t = t
text (p ∷ ps) t = written p (text ps t)

-- Whether a byte is one of a part, and of parts.
abbrev pub of_part : Part → ℕ → Bool
of_part (single c o) x = x == c
of_part (range a b oa ob) x = not (ltb x a) && not (ltb b x)
of_part (class name test n) x = test x

abbrev pub of_parts : List Part → ℕ → Bool
of_parts [] x = false
of_parts (p ∷ ps) x = of_part p x || of_parts ps x

-- The byte that a part begins with.
abbrev pub first_byte : Part → ℕ
first_byte (single c o) = c
first_byte (range a b oa ob) = a
first_byte (class name test n) = b'['

-- The sign of a bracket that takes the other bytes, before the first byte of its parts.
pub data Sign (first : ℕ) : List ℕ → Bool → Type 0 where
  unsigned : first ≢ b'!' → first ≢ b'^' → Sign first [] false
  bang : Sign first (b'!' ∷ []) true
  caret : Sign first (b'^' ∷ []) true

check_class-Named :
    {name : List ℕ} {test : ℕ → Bool} → Named name test → (x : ℕ) → check_class name x ≡ test x
unfolding check_class is_name
check_class-Named alnum x = refl
check_class-Named alpha x = refl
check_class-Named blank x = refl
check_class-Named cntrl x = refl
check_class-Named digit x = refl
check_class-Named graph x = refl
check_class-Named lower x = refl
check_class-Named print x = refl
check_class-Named punct x = refl
check_class-Named space x = refl
check_class-Named upper x = refl
check_class-Named xdigit x = refl

close_class-Named :
    {name : List ℕ} {test : ℕ → Bool}
    → Named name test
    → (t : List ℕ) → close_class b':' (name ++ b':' ∷ b']' ∷ t) ≡ b':' ∷ b']' ∷ t
unfolding close_class
close_class-Named alnum t = refl
close_class-Named alpha t = refl
close_class-Named blank t = refl
close_class-Named cntrl t = refl
close_class-Named digit t = refl
close_class-Named graph t = refl
close_class-Named lower t = refl
close_class-Named print t = refl
close_class-Named punct t = refl
close_class-Named space t = refl
close_class-Named upper t = refl
close_class-Named xdigit t = refl

take-name : (name t : List ℕ) → take (length name) (name ++ t) ≡ name
take-name [] t = refl
take-name (c ∷ name) t = ap (λ z. c ∷ z) (take-name name t)

in_class-Named :
    {name : List ℕ} {test : ℕ → Bool}
    → Named name test
    → (t : List ℕ) (x : ℕ)
    → in_class (b'[' ∷ b':' ∷ (name ++ b':' ∷ b']' ∷ t)) (b':' ∷ b']' ∷ t) x ≡ test x
unfolding in_class
in_class-Named {name} n t x =
    let len : length (name ++ b':' ∷ b']' ∷ t) - suc (suc (length t)) ≡ length name =
      omega (arith, length-append name (b':' ∷ b']' ∷ t)) in
    rw (len, take-name name (b':' ∷ b']' ∷ t)) (check_class-Named n x)

-- What begins a part.
abbrev Begins : ℕ → Type 0
Begins c = ((c == b']') ≡ false) × ((c == b'-') ≡ false)

written-Begins : (p : Part) (t : List ℕ) → Begins (head (written p t))
written-Begins (single c o) t = (ground (arith, o), ground (arith, o))
written-Begins (range a b o ob) t = (ground (arith, o), ground (arith, o))
written-Begins (class name test n) t = (refl, refl)

no_dash : (ps : List Part) (rest : List ℕ) → (head (text ps (b']' ∷ rest)) == b'-') ≡ false
no_dash [] rest = refl
no_dash (p ∷ ps) rest = (written-Begins p (text ps (b']' ∷ rest))).1

pub longer : (ps : List Part) (t : List ℕ) → length t ≤ length (text ps t)
longer [] t = omega arith
longer (single c o ∷ ps) t = omega (arith, longer ps t)
longer (range a b o ob ∷ ps) t = omega (arith, longer ps t)
longer (class name test n ∷ ps) t =
    omega (arith, longer ps t, length-append name (b':' ∷ b']' ∷ text ps t))

end_loop-ordinary :
    (k c : ℕ) (s : List ℕ) → c ≢ b']' → c ≢ b'[' → end_loop (suc k) (c ∷ s) ≡ end_loop k s
unfolding end_loop
end_loop-ordinary k c s close bracket_none =
    let t1 : (c == b']') ≡ false = ground arith in
    let t2 : (c == b'[') ≡ false = ground arith in rw (t1, t2) refl

end_loop-text :
    (k : ℕ) (ps : List Part) (rest : List ℕ)
    → length (text ps (b']' ∷ rest)) ≤ k
    → end_loop k (text ps (b']' ∷ rest)) ≡ b']' ∷ rest
unfolding end_loop
end_loop-text zero [] rest le = refl
end_loop-text (suc k) [] rest le = refl
end_loop-text zero (p ∷ ps) rest le = absurd (omega (arith, le, longer (p ∷ ps) (b']' ∷ rest)))
end_loop-text (suc k) (single c o ∷ ps) rest le =
    end_loop-ordinary k c (text ps (b']' ∷ rest)) o.0 o.1
    ∙ end_loop-text k ps rest (omega (arith, le))
end_loop-text (suc zero) (range a b oa ob ∷ ps) rest le = absurd (omega (arith, le))
end_loop-text (suc (suc zero)) (range a b oa ob ∷ ps) rest le = absurd (omega (arith, le))
end_loop-text (suc (suc (suc k))) (range a b oa ob ∷ ps) rest le =
    end_loop-ordinary (suc (suc k)) a (b'-' ∷ b ∷ text ps (b']' ∷ rest)) oa.0 oa.1
    ∙ end_loop-ordinary k b (text ps (b']' ∷ rest)) ob.0 ob.1
    ∙ end_loop-text k ps rest (omega (arith, le))
end_loop-text (suc k) (class name test n ∷ ps) rest le =
    rw (close_class-Named n (text ps (b']' ∷ rest))) (
      end_loop-text k ps rest
        (omega (arith, le, length-append name (b':' ∷ b']' ∷ text ps (b']' ∷ rest)))))

or_order : (t u f : Bool) → (u || (t || f)) ≡ ((t || u) || f)
or_order true true f = refl
or_order true false f = refl
or_order false true f = refl
or_order false false f = refl

module _ (end : List ℕ) (x : ℕ) where
  -- One round of the loop over the parts.
  items-single :
      (k c : ℕ) (t : List ℕ) (found : Bool)
      → Ordinary c
      → length end ≤ length t
      → (head t == b'-') ≡ false
      → items end x (suc k) (c ∷ t) found ≡ items end x k t (x == c || found)
  unfolding items
  items-single k c t found o room other =
      let inside : before end x 0 (c ∷ t) ≡ true = ground (arith, room) in
      let bracket_none : (c == b'[') ≡ false = ground (arith, o) in
      let no_range : (before end x 1 (c ∷ t) && head t == b'-' && before end x 2 (c ∷ t)) ≡ false =
        ground (arith, other) in
      rw (inside, bracket_none, no_range) refl

  items-range :
      (k a b : ℕ) (t : List ℕ) (found : Bool)
      → Ordinary a
      → length end ≤ length t
      → items end x (suc k) (a ∷ b'-' ∷ b ∷ t) found
        ≡ items end x k t ((not (ltb x a) && not (ltb b x)) || found)
  unfolding items check_range
  items-range k a b t found o room =
      let inside : before end x 0 (a ∷ b'-' ∷ b ∷ t) ≡ true = ground (arith, room) in
      let second : before end x 1 (a ∷ b'-' ∷ b ∷ t) ≡ true = ground (arith, room) in
      let third : before end x 2 (a ∷ b'-' ∷ b ∷ t) ≡ true = ground (arith, room) in
      let bracket_none : (a == b'[') ≡ false = ground (arith, o) in
      let same : (leb a x && leb x b) ≡ (not (ltb x a) && not (ltb b x)) = ground arith in
      rw (inside, bracket_none, second, third, same) refl

  items-class :
      {name : List ℕ} {test : ℕ → Bool} (k : ℕ) (t : List ℕ) (found : Bool)
      → Named name test
      → length end ≤ length t
      → items end x (suc k) (b'[' ∷ b':' ∷ (name ++ b':' ∷ b']' ∷ t)) found
        ≡ items end x k t (test x || found)
  unfolding items
  items-class {name} k t found n room =
      let inside : before end x 0 (b'[' ∷ b':' ∷ (name ++ b':' ∷ b']' ∷ t)) ≡ true =
        ground (arith, room, length-append name (b':' ∷ b']' ∷ t)) in
      let closed : (suc (suc (length t)) == 0) ≡ false = ground arith in
      rw (inside, close_class-Named n t, in_class-Named n t x, closed) refl

  items-end : (k : ℕ) (found : Bool) → items end x k end found ≡ found
  unfolding items
  items-end zero found = refl
  items-end (suc k) found = let out : before end x 0 end ≡ false = ground arith in rw out refl

items-text :
    (k : ℕ) (ps : List Part) (rest : List ℕ) (x : ℕ) (found : Bool)
    → length (text ps (b']' ∷ rest)) ≤ k
    → items (b']' ∷ rest) x k (text ps (b']' ∷ rest)) found ≡ (of_parts ps x || found)
items-text k [] rest x found le = items-end (b']' ∷ rest) x k found
items-text zero (p ∷ ps) rest x found le = absurd (omega (arith, le, longer (p ∷ ps) (b']' ∷ rest)))
items-text (suc k) (single c o ∷ ps) rest x found le =
    items-single (b']' ∷ rest) x k c (text ps (b']' ∷ rest)) found o (longer ps (b']' ∷ rest))
      (no_dash ps rest)
    ∙ items-text k ps rest x (x == c || found) (omega (arith, le))
    ∙ or_order (x == c) (of_parts ps x) found
items-text (suc k) (range a b oa ob ∷ ps) rest x found le =
    items-range (b']' ∷ rest) x k a b (text ps (b']' ∷ rest)) found oa (longer ps (b']' ∷ rest))
    ∙ items-text k ps rest x (of_part (range a b oa ob) x || found) (omega (arith, le))
    ∙ or_order (of_part (range a b oa ob) x) (of_parts ps x) found
items-text (suc k) (class name test n ∷ ps) rest x found le =
    items-class (b']' ∷ rest) x k (text ps (b']' ∷ rest)) found n (longer ps (b']' ∷ rest))
    ∙ items-text k ps rest x (test x || found)
        (omega (arith, le, length-append name (b':' ∷ b']' ∷ text ps (b']' ∷ rest))))
    ∙ or_order (test x) (of_parts ps x) found

or-false : (t : Bool) → (t || false) ≡ t
or-false true = refl
or-false false = refl

no_lead : (p : Part) (t : List ℕ) → leads (written p t) ≡ false
no_lead p t = let b = written-Begins p t in rw (b.0, b.1) refl

module _ (p : Part) (ps : List Part) (rest : List ℕ) where
  abbrev inner : List ℕ
  inner = text (p ∷ ps) (b']' ∷ rest)

  scan_end-text : scan_end inner ≡ b']' ∷ rest
  unfolding scan_end
  scan_end-text =
      rw (no_lead p (text ps (b']' ∷ rest)))
        (end_loop-text (length inner) (p ∷ ps) rest (omega arith))

  set_holds-text : (x : ℕ) → set_holds inner (b']' ∷ rest) x ≡ of_parts (p ∷ ps) x
  unfolding set_holds
  set_holds-text x = rw (no_lead p (text ps (b']' ∷ rest))) (
      items-text (length inner) (p ∷ ps) rest x false (omega arith)
      ∙ or-false (of_parts (p ∷ ps) x))

  signed :
      (s : List ℕ) (negated : Bool)
      → negates s ≡ negated
      → set_start s ≡ inner
      → (bracket_end s ≡ b']' ∷ rest)
        × ((x : ℕ) → bracket_holds s x ≡ xor negated (of_parts (p ∷ ps) x))
  unfolding bracket_end bracket_holds
  signed s negated e start =
      let ends : scan_end (set_start s) ≡ b']' ∷ rest = ap scan_end start ∙ scan_end-text in
      (
        ends,
        λ x.
            ap (λ t. xor (negates s) (set_holds t (scan_end t) x)) start
            ∙ ap (λ t. xor (negates s) (set_holds inner t x)) scan_end-text
            ∙ ap (λ t. xor t (set_holds inner (b']' ∷ rest) x)) e
            ∙ ap (xor negated) (set_holds-text x),
      )

no_sign :
    (p : Part) (t : List ℕ)
    → first_byte p ≢ b'!'
    → first_byte p ≢ b'^'
    → negates (written p t) ≡ false
no_sign (single c o) t h k = ground arith
no_sign (range a b oa ob) t h k = ground arith
no_sign (class name test n) t h k = refl

-- A bracket that is written as a sign or none, parts, the first of them not beginning with a sign, and
-- the `]`: it ends at that `]`, and it takes the bytes of its parts, or with a sign the others.
pub bracket-of_parts :
    (sign : List ℕ) (negated : Bool) (p : Part) (ps : List Part) (rest : List ℕ)
    → Sign (first_byte p) sign negated
    → (bracket_end (sign ++ text (p ∷ ps) (b']' ∷ rest)) ≡ b']' ∷ rest)
      × ((x : ℕ)
          → bracket_holds (sign ++ text (p ∷ ps) (b']' ∷ rest)) x
            ≡ xor negated (of_parts (p ∷ ps) x))
bracket-of_parts sign negated p ps rest (unsigned no_bang no_caret) =
    let none_there : negates (inner p ps rest) ≡ false =
      no_sign p (text ps (b']' ∷ rest)) no_bang no_caret in
    signed p ps rest (inner p ps rest) false none_there (rw none_there refl)
bracket-of_parts sign negated p ps rest bang =
    signed p ps rest (b'!' ∷ inner p ps rest) true refl refl
bracket-of_parts sign negated p ps rest caret =
    signed p ps rest (b'^' ∷ inner p ps rest) true refl refl
