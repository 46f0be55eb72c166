-- ===== src/Fnmatch/Samples.antt =====
-- Runs of fnmatch of src/c/fnmatch/fnmatch.c, and the theorem on it at a concrete input.
use small_lib_c.Base.{arith, List, [], ◌∷◌, map, true, some, ◌≡◌, refl, ◌⊎◌}
use small_lib_c.Base.Text.{codes}
use small_lib_c.Fnmatch.{fnm_nomatch, fnm_period, fnm_pathname}
use small_lib_c.Fnmatch.Bracket.{
  is_name, check_class, check_range, close_class, end_loop, scan_end, in_class, items, set_holds,
}
use small_lib_c.Fnmatch.Match.{
  skip_stars, bracket_end, bracket_holds, no_slash, literal, escape, question, star_loop, star,
  closed, bracket, next_byte, fnmatch_internal, status, fnmatch,
}
use small_lib_c.Ctype.{isdigit}
use small_lib_c.Fnmatch.Meaning.{Matches}
use small_lib_c.Fnmatch.Sets.{Ordinary, range, class, digit, bang}
use small_lib_c.Fnmatch.Glob.{
  Token, byte, stars, bracketed, pattern_text, item_of, AllFine, fnmatch-Matches_tokens,
}

source_file : fnmatch (codes "*.[ch]") (codes "ab.c") fnm_period ≡ some 0
unfolding check_range close_class end_loop scan_end in_class items set_holds skip_stars bracket_end
    bracket_holds no_slash literal escape question star_loop star closed bracket next_byte
    fnmatch_internal status fnmatch
source_file = refl

other_file : fnmatch (codes "*.[!ch]") (codes "ab.c") fnm_period ≡ some fnm_nomatch
unfolding check_range close_class end_loop scan_end in_class items set_holds skip_stars bracket_end
    bracket_holds no_slash literal escape question star_loop star closed bracket next_byte
    fnmatch_internal status fnmatch
other_file = refl

hidden_file : fnmatch (codes "*c") (codes ".c") fnm_period ≡ some fnm_nomatch
unfolding skip_stars no_slash literal escape question star_loop star next_byte fnmatch_internal
    status fnmatch
hidden_file = refl

one_folder : fnmatch (codes "a/*") (codes "a/b/c") fnm_pathname ≡ some fnm_nomatch
unfolding skip_stars no_slash literal escape question star_loop star next_byte fnmatch_internal
    status fnmatch
one_folder = refl

digit_class : fnmatch (codes "v[[:digit:]x-z]") (codes "v7") 0 ≡ some 0
unfolding isdigit is_name check_class check_range close_class end_loop scan_end in_class items
    set_holds bracket_end bracket_holds literal closed bracket next_byte fnmatch_internal status
    fnmatch
digit_class = refl

a-Ordinary : Ordinary b'a'
a-Ordinary = (ground arith, ground arith, ground arith)

c-Ordinary : Ordinary b'c'
c-Ordinary = (ground arith, ground arith, ground arith)

-- The tokens of "*.[!a-c[:digit:]]".
abbrev suffix : List Token
suffix =
    stars 0
    ∷ byte b'.'
    ∷ bracketed (b'!' ∷ []) true (range b'a' b'c' a-Ordinary c-Ordinary)
        (class (codes "digit") isdigit digit ∷ []) bang
    ∷ []

suffix_text : pattern_text suffix ≡ codes "*.[!a-c[:digit:]]"
suffix_text = refl

suffix-AllFine : AllFine fnm_period suffix
suffix-AllFine = (tt, ((ground arith, ground arith, ground arith, λ f. ground arith), tt))

fnmatch-Matches_tokens_example :
    (fnmatch (pattern_text suffix) (codes "ab.d") fnm_period ≡ some 0)
      × Matches fnm_period (map item_of suffix) (codes "ab.d") true
    ⊎ (fnmatch (pattern_text suffix) (codes "ab.d") fnm_period ≡ some fnm_nomatch)
      × ¬ Matches fnm_period (map item_of suffix) (codes "ab.d") true
fnmatch-Matches_tokens_example =
    fnmatch-Matches_tokens fnm_period suffix (codes "ab.d") suffix-AllFine
