-- ===== src/Fnmatch/Glob.antt =====
-- fnmatch of src/c/fnmatch/fnmatch.c on patterns that are written out from their tokens.
use mathlib.Core.Path.{fun_ext}
use small_lib_c.Base.{
  Bool-cases, inl, inr, ℕ, zero, suc, ◌+◌, ◌<◌, ◌≡◌, ◌≢◌, refl, ap, ◌∙◌, subst, Bool, true, false,
  not, ◌&&◌, some, List, [], ◌∷◌, ◌++◌, ◌==◌, ◌⊎◌, length, length-append, map, xor, arith,
}
use small_lib_c.Fnmatch.{flag, fnm_nomatch, fnm_noescape}
use small_lib_c.Fnmatch.Match.{skip_stars, bracket_end, bracket_holds, fnmatch}
use small_lib_c.Fnmatch.Meaning.{Item, read_escape, read_bracket, read_byte, read_items, Matches}
use small_lib_c.Fnmatch.Sets.{Part, first_byte, text, of_parts, Sign, longer, bracket-of_parts}
use small_lib_c.Fnmatch.Decides.{fnmatch-Matches}

-- What stands for one item of a pattern: a byte, a byte behind a backslash, a `?`, some `*`, or a bracket.
pub data Token : Type 0 where
  byte : (c : ℕ) → Token
  escaped : (c : ℕ) → Token
  question : Token
  stars : (more : ℕ) → Token
  bracketed :
      (sign : List ℕ) (negated : Bool) (p : Part) (ps : List Part)
      → Sign (first_byte p) sign negated
      → Token

abbrev pub star_text : (more : ℕ) → List ℕ → List ℕ
star_text zero t = t
star_text (suc n) t = b'*' ∷ star_text n t

-- A token as it is written, and what stands behind it.
abbrev pub token_text : Token → List ℕ → List ℕ
token_text (byte c) t = c ∷ t
token_text (escaped c) t = b'\\' ∷ c ∷ t
token_text question t = b'?' ∷ t
token_text (stars more) t = b'*' ∷ star_text more t
token_text (bracketed sign negated p ps s) t = b'[' ∷ (sign ++ text (p ∷ ps) (b']' ∷ t))

abbrev pub pattern_text : List Token → List ℕ
pattern_text [] = []
pattern_text (t ∷ ts) = token_text t (pattern_text ts)

-- What a token matches.
abbrev pub item_of : Token → Item
item_of (byte c) = Item.exactly c
item_of (escaped c) = Item.exactly c
item_of question = Item.one_of (λ x. true)
item_of (stars more) = Item.many
item_of (bracketed sign negated p ps s) = Item.one_of (λ x. xor negated (of_parts (p ∷ ps) x))

abbrev pub NotStars : List Token → Type 0
NotStars [] = Unit
NotStars (byte c ∷ ts) = Unit
NotStars (escaped c ∷ ts) = Unit
NotStars (question ∷ ts) = Unit
NotStars (stars more ∷ ts) = ⊥
NotStars (bracketed sign negated p ps s ∷ ts) = Unit

module _ (flags : ℕ) where
  -- A backslash is a byte of its own with `FNM_NOESCAPE`, and no other time.
  abbrev pub Fine : Token → Type 0
  Fine (byte c) =
      (c ≢ b'[') × (c ≢ b'?') × (c ≢ b'*') × (flag flags fnm_noescape ≡ false → c ≢ b'\\')
  Fine (escaped c) = flag flags fnm_noescape ≡ false
  Fine question = Unit
  Fine (stars more) = Unit
  Fine (bracketed sign negated p ps s) = Unit

  -- All the stars of a run are in one token.
  abbrev pub AllFine : List Token → Type 0
  AllFine [] = Unit
  AllFine (byte c ∷ ts) = Fine (byte c) × AllFine ts
  AllFine (escaped c ∷ ts) = Fine (escaped c) × AllFine ts
  AllFine (question ∷ ts) = AllFine ts
  AllFine (stars more ∷ ts) = NotStars ts × AllFine ts
  AllFine (bracketed sign negated p ps s ∷ ts) = AllFine ts

  skip-star_text : (n : ℕ) (t : List ℕ) → skip_stars (star_text n t) ≡ skip_stars t
  unfolding skip_stars
  skip-star_text zero t = refl
  skip-star_text (suc n) t = skip-star_text n t

  skip-pattern :
      (ts : List Token) → NotStars ts → AllFine ts → skip_stars (pattern_text ts) ≡ pattern_text ts
  unfolding skip_stars
  skip-pattern [] h f = refl
  skip-pattern (byte c ∷ ts) h f =
      let other : (c == b'*') ≡ false = ground (arith, f) in rw other refl
  skip-pattern (escaped c ∷ ts) h f = refl
  skip-pattern (question ∷ ts) h f = refl
  skip-pattern (stars more ∷ ts) h f = absurd h
  skip-pattern (bracketed sign negated p ps s ∷ ts) h f = refl

  length-star_text : (n : ℕ) (t : List ℕ) → length (star_text n t) ≡ n + length t
  length-star_text zero t = omega arith
  length-star_text (suc n) t = omega (arith, length-star_text n t)

  not_escape : (c : ℕ) → Fine (byte c) → (not (flag flags fnm_noescape) && c == b'\\') ≡ false
  not_escape c f = elim (Bool-cases (flag flags fnm_noescape)) [
    | inl y ↦ rw y refl
    | inr n ↦
        let other = f.3 n in
        let test : (c == b'\\') ≡ false = ground (arith, other) in rw (n, test) refl
  ]

  read_bracket-closed :
      (read : List ℕ → List Item) (p : List ℕ) (b : ℕ) (rest : List ℕ)
      → bracket_end p ≡ b ∷ rest
      → read_bracket flags read p ≡ Item.one_of (λ x. bracket_holds p x) ∷ read rest
  unfolding read_bracket
  read_bracket-closed read p b rest e =
      ap
        (λ z. elim z as (λ t. List Item) [
          | [] ↦ Item.exactly b'[' ∷ read p
          | b' ∷ after ↦ Item.one_of (λ x. bracket_holds p x) ∷ read after
        ])
        e

  read_items-pattern :
      (k : ℕ) (ts : List Token)
      → AllFine ts
      → length (pattern_text ts) < k
      → read_items flags k (pattern_text ts) ≡ map item_of ts
  unfolding read_items read_byte read_escape
  read_items-pattern zero ts f lt = absurd (omega (arith, lt))
  read_items-pattern (suc k) [] f lt = refl
  read_items-pattern (suc k) (byte c ∷ ts) f lt =
      let t1 : (not (flag flags fnm_noescape) && c == b'\\') ≡ false = not_escape c f.0 in
      let t2 : (c == b'[') ≡ false = ground (arith, f) in
      let t3 : (c == b'?') ≡ false = ground (arith, f) in
      let t4 : (c == b'*') ≡ false = ground (arith, f) in
      rw (t1, t2, t3, t4)
        (ap (λ z. Item.exactly c ∷ z) (read_items-pattern k ts f.1 (omega (arith, lt))))
  read_items-pattern (suc k) (escaped c ∷ ts) f lt =
      rw f.0 (ap (λ z. Item.exactly c ∷ z) (read_items-pattern k ts f.1 (omega (arith, lt))))
  read_items-pattern (suc k) (question ∷ ts) f lt =
      let t1 : (not (flag flags fnm_noescape) && false) ≡ false = ground arith in
      rw t1 (ap (λ z. Item.one_of (λ x. true) ∷ z) (read_items-pattern k ts f (omega (arith, lt))))
  read_items-pattern (suc k) (stars more ∷ ts) f lt =
      let t1 : (not (flag flags fnm_noescape) && false) ≡ false = ground arith in
      rw (t1, skip-star_text more (pattern_text ts), skip-pattern ts f.0 f.1)
        (ap (λ z. Item.many ∷ z)
          (read_items-pattern k ts f.1
            (omega (arith, lt, length-star_text more (pattern_text ts)))))
  read_items-pattern (suc k) (bracketed sign negated p ps s ∷ ts) f lt =
      let t1 : (not (flag flags fnm_noescape) && false) ≡ false = ground arith in
      let (ends, takes) = bracket-of_parts sign negated p ps (pattern_text ts) s in
      let holds : (λ x. bracket_holds (sign ++ text (p ∷ ps) (b']' ∷ pattern_text ts)) x)
          ≡ (λ (x : ℕ). xor negated (of_parts (p ∷ ps) x)) =
        fun_ext takes in
      let enough : length (pattern_text ts) < k = omega (
        arith,
        lt,
        length-append sign (text (p ∷ ps) (b']' ∷ pattern_text ts)),
        longer (p ∷ ps) (b']' ∷ pattern_text ts),
      ) in
      let whole : read_bracket flags (read_items flags k)
            (sign ++ text (p ∷ ps) (b']' ∷ pattern_text ts))
          ≡ Item.one_of (λ x. xor negated (of_parts (p ∷ ps) x)) ∷ map item_of ts =
        read_bracket-closed (read_items flags k) (sign ++ text (p ∷ ps) (b']' ∷ pattern_text ts))
          b']' (pattern_text ts) ends
        ∙ ap (λ z. Item.one_of z ∷ read_items flags k (pattern_text ts)) holds
        ∙ ap (λ z. Item.one_of (λ x. xor negated (of_parts (p ∷ ps) x)) ∷ z)
            (read_items-pattern k ts f enough) in
      rw t1 whole

  -- For a pattern that is written out from tokens: fnmatch returns 0 for a string that the tokens match,
  -- and FNM_NOMATCH for one that they do not. A token stands for a byte, for one byte that is not hidden,
  -- any or one of a bracket's bytes, ranges and classes or one of the others, or for any number of bytes;
  -- no slash, with FNM_PATHNAME, and no period at a start, with FNM_PERIOD, is matched but by itself.
  pub fnmatch-Matches_tokens :
      (ts : List Token) (string : List ℕ)
      → AllFine ts
      → (fnmatch (pattern_text ts) string flags ≡ some 0)
          × Matches flags (map item_of ts) string true
        ⊎ (fnmatch (pattern_text ts) string flags ≡ some fnm_nomatch)
          × ¬ Matches flags (map item_of ts) string true
  fnmatch-Matches_tokens ts string f =
      subst
        (λ z.
          (fnmatch (pattern_text ts) string flags ≡ some 0) × Matches flags z string true
          ⊎ (fnmatch (pattern_text ts) string flags ≡ some fnm_nomatch)
            × ¬ Matches flags z string true)
        (read_items-pattern (length (pattern_text ts) + 1) ts f (omega arith))
        (fnmatch-Matches flags (pattern_text ts) string)
