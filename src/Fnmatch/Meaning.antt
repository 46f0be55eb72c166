-- ===== src/Fnmatch/Meaning.antt =====
-- What a glob pattern means: the items that it reads as, and the strings that a list of items matches.
use small_lib_c.Base.{
  ◌≢◌, ◌+◌, length, length, ℕ, zero, suc, Bool, true, false, not, ◌&&◌, ◌≡◌, List, [], ◌∷◌, ◌++◌,
  ◌==◌, if◌then◌else◌,
}
use small_lib_c.Fnmatch.{flag, head, fnm_noescape, fnm_pathname, fnm_period}
use small_lib_c.Fnmatch.Match.{skip_stars, bracket_end, bracket_holds, is_slash, is_dot, no_slash}

-- One byte that is given, one byte of a set, any number of bytes, or what nothing matches.
pub data Item : Type 0 where
  exactly : ℕ → Item
  one_of : (ℕ → Bool) → Item
  many never : Item

-- Whether what stands behind some bytes is still at a start.
abbrev pub start_behind : List ℕ → Bool → Bool
start_behind [] is_start = is_start
start_behind (x ∷ u) is_start = false

-- A byte that a wildcard may match.
abbrev pub Visible : (flags : ℕ) (is_start : Bool) → ℕ → Type 0
Visible flags is_start x =
    (flag flags fnm_pathname ≡ true → x ≢ b'/')
    × (flag flags fnm_period ≡ true → is_start ≡ true → x ≢ b'.')

module _ (flags : ℕ) where
  module _ (read : List ℕ → List Item) where
    unfoldable pub read_escape : List ℕ → List Item
    read_escape [] = Item.never ∷ []
    read_escape (c ∷ p) = Item.exactly c ∷ read p

    unfoldable pub read_bracket : List ℕ → List Item
    read_bracket p = elim (bracket_end p) [
      | [] ↦ Item.exactly b'[' ∷ read p
      | b ∷ after ↦ Item.one_of (λ x. bracket_holds p x) ∷ read after
    ]

    unfoldable pub read_byte : (c : ℕ) → List ℕ → List Item
    read_byte c p =
        if not (flag flags fnm_noescape) && c == b'\\'
        then read_escape p
        else if c == b'['
        then read_bracket p
        else if c == b'?'
        then Item.one_of (λ x. true) ∷ read p
        else if c == b'*'
        then Item.many ∷ read (skip_stars p)
        else Item.exactly c ∷ read p

  -- The items of a pattern: each takes a byte at least.
  unfoldable pub read_items : (fuel : ℕ) → List ℕ → List Item
  read_items zero p = Item.never ∷ []
  read_items (suc k) [] = []
  read_items (suc k) (c ∷ p) = read_byte (read_items k) c p

  abbrev pub glob : (pattern : List ℕ) → List Item
  glob pattern = read_items (length pattern + 1) pattern

  -- A string matches items, at a start of a component or not. No wildcard matches a slash where
  -- `FNM_PATHNAME` is set, nor a period at a start where `FNM_PERIOD` is set.
  abbrev pub Matches : List Item → List ℕ → (is_start : Bool) → Type 0
  Matches [] s is_start = s ≡ []
  Matches (Item.never ∷ items) s is_start = ⊥
  Matches (Item.exactly c ∷ items) s is_start =
      (s' : List ℕ) × (s ≡ c ∷ s') × Matches items s' (is_slash flags c)
  Matches (Item.one_of holds ∷ items) s is_start =
      (x : ℕ) × (s' : List ℕ) × (s ≡ x ∷ s')
      × Visible flags is_start x
      × (holds x ≡ true)
      × Matches items s' false
  Matches (Item.many ∷ items) s is_start =
      (u : List ℕ) × (v : List ℕ) × (s ≡ u ++ v)
      × (no_slash flags u ≡ true)
      × (is_dot flags is_start (head s) ≡ true → u ≡ [])
      × Matches items v (start_behind u is_start)
