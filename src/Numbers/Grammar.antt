-- ===== src/Numbers/Grammar.antt =====
-- The whole scan of a numeral: what strtoull and strtoll do before they look at the result.
use small_lib_c.Base.{
  inl, ℕ, ◌+◌, ◌≤◌, ◌<◌, ◌≡◌, refl, ap, ◌∙◌, subst, Bool, false, some, List, [], ◌∷◌, ◌++◌, arith,
  length, length-append,
}
use mathlib.Core.List.{append_assoc}
use small_lib_c.Memory.{Memory, ok}
use small_lib_c.Memory.Region.{BytesAt}
use small_lib_c.Ctype.{isspace}
use small_lib_c.Numbers.{as_int, digits, no_digits, scan, scan_number}
use small_lib_c.Numbers.Digits.{
  Worth, AllBelow, after, Digits-AllBelow, IsDigit, NoDigit, Digits, advance_all, accumulate_lem,
}
use small_lib_c.Numbers.Text.{
  AllSpace, Sign, unsigned, minus, plus, Prefix, as_given, hexadecimal, octal, decimal,
  BytesAt-right, digit-space, skip_space_lem, read_sign_lem, read_prefix_lem,
}

abbrev pub next_char : List ℕ → ℕ → ℕ
next_char [] stop = stop
next_char (c ∷ cs) stop = c

-- The grammar of a numeral: white space, a sign, the prefix of a base and at least one digit of the
-- base, with the values of the digits; `stop` is the byte after it, no digit of the base.
pub data Numeral (given : ℕ)
    : (text : List ℕ) (stop : ℕ) → Bool → (base : ℕ) → List ℕ → Type 0 where
  numeral :
      (sp sg pre cs : List ℕ) (c : ℕ) {ds : List ℕ} {d stop base : ℕ} {neg : Bool}
      → AllSpace sp
      → Sign sg neg
      → Prefix given c (next_char cs stop) pre base
      → IsDigit base c d
      → Digits base cs ds
      → NoDigit base stop
      → Numeral given (sp ++ (sg ++ (pre ++ c ∷ cs))) stop neg base (d ∷ ds)

BytesAt-left : (m : Memory) (p : ℕ) (xs ys : List ℕ) → BytesAt m p (xs ++ ys) → BytesAt m p xs
BytesAt-left m p [] ys h = tt
BytesAt-left m p (x ∷ xs) ys h = (h.0, BytesAt-left m (p + 1) xs ys h.1)

BytesAt-join :
    (m : Memory) (p : ℕ) (xs ys : List ℕ)
    → BytesAt m p xs
    → BytesAt m (p + length xs) ys
    → BytesAt m p (xs ++ ys)
BytesAt-join m p [] ys h k = subst (λ q. BytesAt m q ys) (omega arith) k
BytesAt-join m p (x ∷ xs) ys h k =
    (h.0, BytesAt-join m (p + 1) xs ys h.1 (subst (λ q. BytesAt m q ys) (omega arith) k))

-- The first character of the rest of the text is a digit, or it is the sign.
digits_start :
    (given c e base d : ℕ) (pre ys : List ℕ) (m : Memory) (p : ℕ)
    → Prefix given c e pre base
    → Worth c d
    → BytesAt m p (pre ++ c ∷ ys)
    → (f : ℕ) × (d' : ℕ) × (m p ≡ some f) × (Worth f d')
digits_start given c e base d pre ys m p (as_given a b) digit at = (c, d, at.0, digit)
digits_start given c e base d pre ys m p (hexadecimal x a b) digit at =
    (b'0', 0, at.0, inl (omega arith, refl))
digits_start given c e base d pre ys m p (octal a b k) digit at = (c, d, at.0, digit)
digits_start given c e base d pre ys m p (decimal a b) digit at = (c, d, at.0, digit)

number_start :
    (sg : List ℕ) (neg : Bool) (f d : ℕ) (m : Memory) (p : ℕ)
    → Sign sg neg
    → Worth f d
    → BytesAt m p (sg ++ f ∷ [])
    → (g : ℕ) × (m p ≡ some g) × (isspace (as_int g) ≡ false)
unfolding isspace
number_start sg neg f d m p unsigned digit at = (f, at.0, digit-space f d digit)
number_start sg neg f d m p minus digit at = (b'-', at.0, refl)
number_start sg neg f d m p plus digit at = (b'+', at.0, refl)

first_cell :
    (m : Memory) (p : ℕ) (cs : List ℕ) (stop : ℕ)
    → BytesAt m p (cs ++ stop ∷ [])
    → BytesAt m p (next_char cs stop ∷ [])
first_cell m p [] stop at = at
first_cell m p (c ∷ cs) stop at = (at.0, tt)

module _ (given : ℕ) (limit : Bool → ℕ) (fuel p : ℕ) (m : Memory) (sp sg pre cs ds : List ℕ)
    (c d stop base : ℕ) (neg : Bool) (spaces : AllSpace sp) (sign : Sign sg neg)
    (prefix : Prefix given c (next_char cs stop) pre base) (digit : IsDigit base c d)
    (others : Digits base cs ds) (ends : NoDigit base stop)
    (at : BytesAt m p (sp ++ (sg ++ (pre ++ (c ∷ cs ++ stop ∷ [])))))
    (enough_spaces : length sp < fuel) (enough_digits : length (c ∷ cs) < fuel) where
  scan_parts :
      scan_number fuel limit p given m
      ≡ ok
          (
            neg,
            scan
                (advance_all (limit neg) base (d ∷ ds) (0, no_digits)).0
                (advance_all (limit neg) base (d ∷ ds) (0, no_digits)).1
                (p + length sp + length sg + length pre + length (c ∷ cs) + 1),
          )
          m
  unfolding scan_number
  scan_parts =
      let p1 = p + length sp in
      let p2 = p1 + length sg in
      let p3 = p2 + length pre in
      let at1 = BytesAt-right m p sp (sg ++ (pre ++ (c ∷ cs ++ stop ∷ []))) at in
      let at2 = BytesAt-right m p1 sg (pre ++ (c ∷ cs ++ stop ∷ [])) at1 in
      let at3 = BytesAt-right m p2 pre (c ∷ cs ++ stop ∷ []) at2 in
      let (f, d', here_f, digit_f) =
        digits_start given c (next_char cs stop) base d pre (cs ++ stop ∷ []) m p2 prefix digit.0
          at2 in
      let sign_text =
        BytesAt-join m p1 sg (f ∷ []) (BytesAt-left m p1 sg (pre ++ (c ∷ cs ++ stop ∷ [])) at1)
          (here_f, tt) in
      let (g, here_g, space_g) = number_start sg neg f d' m p1 sign digit_f sign_text in
      let space_text =
        BytesAt-join m p sp (g ∷ []) (BytesAt-left m p sp (sg ++ (pre ++ (c ∷ cs ++ stop ∷ []))) at)
          (here_g, tt) in
      let prefix_text =
        BytesAt-join m p2 pre (c ∷ next_char cs stop ∷ [])
          (BytesAt-left m p2 pre (c ∷ cs ++ stop ∷ []) at2)
          (at3.0, first_cell m (p3 + 1) cs stop at3.1) in
      let e1 = skip_space_lem fuel sp g p m spaces space_g space_text enough_spaces in
      let e2 = read_sign_lem sg neg f d' g p1 m sign digit_f sign_text here_g in
      let e3 =
        read_prefix_lem given pre base c (next_char cs stop) f p2 m prefix prefix_text here_f in
      let e4 =
        accumulate_lem fuel (limit neg) base (c ∷ cs) (d ∷ ds) stop p3 (0, no_digits) m c
          (digit, others) ends at3 at3.0 enough_digits in
      rw (e1, e2, e3, e4) refl

length_parts :
    (sp sg pre cs : List ℕ)
    → length (sp ++ (sg ++ (pre ++ cs))) ≡ length sp + length sg + length pre + length cs
length_parts sp sg pre cs = omega (
  arith,
  length-append sp (sg ++ (pre ++ cs)),
  length-append sg (pre ++ cs),
  length-append pre cs,
)

regroup :
    (sp sg pre cs end : List ℕ)
    → (sp ++ (sg ++ (pre ++ cs))) ++ end ≡ sp ++ (sg ++ (pre ++ (cs ++ end)))
regroup sp sg pre cs end =
    append_assoc sp (sg ++ (pre ++ cs)) end
    ∙ ap (λ t. sp ++ t)
        (append_assoc sg (pre ++ cs) end ∙ ap (λ t. sg ++ t) (append_assoc pre cs end))

-- The scan of a numeral ends behind it.
pub scan_number_lem :
    (given : ℕ) (limit : Bool → ℕ) (fuel p : ℕ) (m : Memory) (text : List ℕ) (stop : ℕ) (neg : Bool)
    (base : ℕ) (ds : List ℕ)
    → Numeral given text stop neg base ds
    → BytesAt m p (text ++ stop ∷ [])
    → length text < fuel
    → scan_number fuel limit p given m
      ≡ ok
          (
            neg,
            scan
                (advance_all (limit neg) base ds (0, no_digits)).0
                (advance_all (limit neg) base ds (0, no_digits)).1
                (p + length text + 1),
          )
          m
scan_number_lem given limit fuel p m text stop neg base ds
      (numeral sp sg pre cs c {ds = rest} {d = d} spaces sign prefix digit others ends) at enough =
    let lengths = length_parts sp sg pre (c ∷ cs) in
    let place : p + length sp + length sg + length pre + length (c ∷ cs) + 1
        ≡ p + length (sp ++ (sg ++ (pre ++ c ∷ cs))) + 1 =
      omega (arith, lengths) in
    scan_parts given limit fuel p m sp sg pre cs rest c d stop base neg spaces sign prefix digit
      others ends (subst (λ t. BytesAt m p t) (regroup sp sg pre (c ∷ cs) (stop ∷ [])) at)
      (omega (arith, lengths)) (omega (arith, lengths))
    ∙ ap
        (λ t.
          ok
            (
              neg,
              scan (advance_all (limit neg) base (d ∷ rest) (0, no_digits)).0
                  (advance_all (limit neg) base (d ∷ rest) (0, no_digits)).1 t,
            )
            m)
        place

pub Numeral-AllBelow :
    (given : ℕ) {text : List ℕ} {stop base : ℕ} {neg : Bool} {ds : List ℕ}
    → Numeral given text stop neg base ds
    → (1 ≤ base) × AllBelow base ds × (after no_digits ds ≡ digits)
Numeral-AllBelow given {base}
      (numeral sp sg pre cs c {ds} {d} spaces sign prefix digit others ends) =
    (omega (arith, digit.1), (digit.1, Digits-AllBelow base cs ds others), refl)
