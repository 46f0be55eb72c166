-- ===== src/Calendar/Strftime/Room.antt =====
-- strftime of src/c/time/strftime.c against the text that a format stands for, whatever its length.
use small_lib_c.Base.{
  ℕ, ◌+◌, ◌-◌, ◌≤◌, ◌<◌, ◌≡◌, refl, sym, ap, subst, ◌∙◌, Bool, true, false, ◌||◌, Option, none,
  some, some_value, List, [], ◌∷◌, ◌++◌, ltb, ◌==◌, if◌then◌else◌, length, length-append,
  Bool-cases, inl, inr, arith,
}
use small_lib_c.Calendar.{Tm}
use small_lib_c.Calendar.Zone.{TzDb}
use small_lib_c.Calendar.Directives.{Segment, byte, string, undefined, directive}
use small_lib_c.Calendar.Strftime.{
  Formatted, written, no_room, unknown, unless_full, append, store-inside, overrun, append_all,
  terminate, format_loop, has_directive, strftime,
}
use mathlib.Core.List.{append_assoc, append-nil}

-- A text is returned where it fits; its start is left where it does not, or may be where it fills the buffer.
pub data Fitted (maxsize : ℕ) (t : List ℕ) : Formatted → Type 0 where
  fits_in : length t < maxsize → Fitted maxsize t (written t)
  too_long :
      (s rest : List ℕ)
      → s ++ rest ≡ t
      → length s ≤ maxsize
      → maxsize ≤ length t + 1
      → Fitted maxsize t (no_room s)

-- The texts of the pieces, one behind the other.
abbrev pub joined : List ℕ → Option (List ℕ) → Option (List ℕ)
joined s none = none
joined s (some t) = some (s ++ t)

unfoldable pub pieces_text : List Segment → Option (List ℕ)
pieces_text [] = some []
pieces_text (byte c ∷ pieces) = joined (c ∷ []) (pieces_text pieces)
pieces_text (string s ∷ pieces) = joined s (pieces_text pieces)
pieces_text (undefined ∷ pieces) = none

-- The text of a format, behind a `%` or not.
module _ (db : Option TzDb) (tm : Tm) where
  abbrev pub with_rest : Option (List ℕ) → Option (List ℕ) → Option (List ℕ)
  with_rest none rest = none
  with_rest (some s) rest = joined s rest

  unfoldable pub expansion : (in_directive : Bool) → (format : List ℕ) → Option (List ℕ)
  expansion false [] = some []
  expansion true [] = some (b'%' ∷ [])
  expansion false (c ∷ format) =
      let behind = expansion true format in
      let plain = joined (c ∷ []) (expansion false format) in if c == b'%' then behind else plain
  expansion true (c ∷ format) =
      let again = expansion true format in
      let rest = with_rest (pieces_text (directive db tm c)) (expansion false format) in
      if c == b'E' || c == b'O' then again else rest

-- What is appended.
data Appended (maxsize : ℕ) (t : List ℕ) : Formatted → Type 0 where
  all_of : length t ≤ maxsize → Appended maxsize t (written t)
  some_of :
      (s rest : List ℕ)
      → s ++ rest ≡ t
      → length s ≤ maxsize
      → maxsize ≤ length t
      → Appended maxsize t (no_room s)

joined-some :
    (s : List ℕ) (o : Option (List ℕ)) {t : List ℕ}
    → joined s o ≡ some t
    → (u : List ℕ) × (o ≡ some u) × (s ++ u ≡ t)
joined-some s none e = absurd (ground (arith, e))
joined-some s (some u) e = (u, refl, some_value e)

with_rest-some :
    (db : Option TzDb) (tm : Tm) (o rest : Option (List ℕ)) {t : List ℕ}
    → with_rest db tm o rest ≡ some t
    → (u v : List ℕ) × (o ≡ some u) × (rest ≡ some v) × (u ++ v ≡ t)
with_rest-some db tm none rest e = absurd (ground (arith, e))
with_rest-some db tm (some u) rest e =
    let (v, there, same) = joined-some u rest e in (u, v, refl, there, same)

module _ (maxsize : ℕ) where
  -- A piece that is appended, or that has no room.
  data OneMore (s str : List ℕ) : Formatted → Type 0 where
    appended : length (s ++ str) ≤ maxsize → OneMore s str (written (s ++ str))
    too_much : maxsize ≤ length (s ++ str) → OneMore s str (no_room s)

  append_byte : (c : ℕ) (s : List ℕ) → OneMore s (c ∷ []) (append maxsize (byte c) s)
  unfolding append
  append_byte c s = elim (Bool-cases (ltb (length s) maxsize)) [
    | inl y ↦
        let lt : length s < maxsize = ground (arith, y) in
        rw (append, y, store-inside maxsize (length s + 1) (s ++ c ∷ []) (omega (arith, lt)))
          (appended (omega (arith, length-append s (c ∷ []), lt)))
    | inr n ↦
        let le : maxsize ≤ length s = ground (arith, n) in
        rw (append, n) (too_much (omega (arith, length-append s (c ∷ []), le)))
  ]

  append_string :
      (str s : List ℕ) → length s ≤ maxsize → OneMore s str (append maxsize (string str) s)
  unfolding append
  append_string str s room = elim (Bool-cases (ltb (length str) (maxsize - length s))) [
    | inl y ↦
        let lt : length str < maxsize - length s = ground (arith, y) in
        rw
          (
            append,
            y,
            store-inside maxsize (length s + length str + 1) (s ++ str) (omega (arith, lt)),
          )
          (appended (omega (arith, length-append s str, lt)))
    | inr n ↦
        let le : maxsize - length s ≤ length str = ground (arith, n) in
        rw (append, n) (too_much (omega (arith, length-append s str, le, room)))
  ]

  -- The pieces behind a piece.
  and_pieces :
      (str u s : List ℕ) (o : Formatted) (rest : List ℕ → Formatted)
      → length s ≤ maxsize
      → OneMore s str o
      → ((s' : List ℕ) → length s' ≤ maxsize → Appended maxsize (s' ++ u) (rest s'))
      → Appended maxsize (s ++ (str ++ u)) (unless_full o rest)
  and_pieces str u s (written _) rest room (appended le) go =
      subst (λ t. Appended maxsize t (rest (s ++ str))) (append_assoc s str u) (go (s ++ str) le)
  and_pieces str u s (no_room _) rest room (too_much le) go =
      some_of s (str ++ u) refl room
        (omega (arith, length-append s str, length-append s (str ++ u), length-append str u, le))
  and_pieces str u s overrun rest room one go = elim one [ ]
  and_pieces str u s unknown rest room one go = elim one [ ]

  append_all_lem :
      (pieces : List Segment) (s : List ℕ) {t : List ℕ}
      → length s ≤ maxsize
      → pieces_text pieces ≡ some t
      → Appended maxsize (s ++ t) (append_all maxsize pieces s)
  unfolding append_all pieces_text
  append_all_lem [] s room e =
      subst (λ t. Appended maxsize (s ++ t) (written s)) (some_value e)
        (subst (λ t. Appended maxsize t (written s)) (sym (append-nil s)) (all_of room))
  append_all_lem (byte c ∷ pieces) s room e =
      let (u, there, same) = joined-some (c ∷ []) (pieces_text pieces) e in
      subst (λ t. Appended maxsize (s ++ t) (append_all maxsize (byte c ∷ pieces) s)) same
        (and_pieces (c ∷ []) u s (append maxsize (byte c) s) (append_all maxsize pieces) room
          (append_byte c s) (λ s' le. append_all_lem pieces s' le there))
  append_all_lem (string str ∷ pieces) s room e =
      let (u, there, same) = joined-some str (pieces_text pieces) e in
      subst (λ t. Appended maxsize (s ++ t) (append_all maxsize (string str ∷ pieces) s)) same
        (and_pieces str u s (append maxsize (string str) s) (append_all maxsize pieces) room
          (append_string str s room) (λ s' le. append_all_lem pieces s' le there))
  append_all_lem (undefined ∷ pieces) s room e = absurd (ground (arith, e))

  terminate_lem : (s : List ℕ) → length s ≤ maxsize → Fitted maxsize s (terminate maxsize s)
  unfolding terminate
  terminate_lem s room = elim (Bool-cases (ltb (length s) maxsize)) [
    | inl y ↦
        rw (terminate, y, store-inside maxsize (length s + 1) s (ground (arith, y)))
          (fits_in (ground (arith, y)))
    | inr n ↦
        let full : maxsize ≤ length s = ground (arith, n) in
        rw (terminate, n) (too_long s [] (append-nil s) room (omega (arith, full)))
  ]

  module _ (db : Option TzDb) (tm : Tm) where
    -- The format behind the pieces of a directive.
    and_format :
        (u v s : List ℕ) (o : Formatted) (rest : List ℕ → Formatted)
        → Appended maxsize (s ++ u) o
        → ((s' : List ℕ) → length s' ≤ maxsize → Fitted maxsize (s' ++ v) (rest s'))
        → Fitted maxsize (s ++ (u ++ v)) (unless_full o rest)
    and_format u v s (written _) rest (all_of le) go =
        subst (λ t. Fitted maxsize t (rest (s ++ u))) (append_assoc s u v) (go (s ++ u) le)
    and_format u v s (no_room _) rest (some_of s' more same le full) go =
        too_long s' (more ++ v)
          (sym (append_assoc s' more v) ∙ ap (λ x. x ++ v) same ∙ append_assoc s u v) le
          (omega (arith, full, length-append s u, length-append s (u ++ v), length-append u v))
    and_format u v s overrun rest text_there go = elim text_there [ ]
    and_format u v s unknown rest text_there go = elim text_there [ ]

    format_loop_lem :
        (in_directive : Bool) (format s : List ℕ) {t : List ℕ}
        → length s + (if in_directive then 1 else 0) ≤ maxsize
        → expansion db tm in_directive format ≡ some t
        → Fitted maxsize (s ++ t) (format_loop maxsize db tm in_directive format s)
    unfolding format_loop expansion
    format_loop_lem false [] s room e =
        subst (λ t. Fitted maxsize (s ++ t) (terminate maxsize s)) (some_value e)
          (subst (λ t. Fitted maxsize t (terminate maxsize s)) (sym (append-nil s))
            (terminate_lem s (omega (arith, room))))
    format_loop_lem true [] s room e =
        rw (format_loop, store-inside maxsize (length s + 1) (s ++ b'%' ∷ []) (omega (arith, room)))
          (subst (λ t. Fitted maxsize (s ++ t) (terminate maxsize (s ++ b'%' ∷ []))) (some_value e)
            (terminate_lem (s ++ b'%' ∷ []) (omega (arith, room, length-append s (b'%' ∷ [])))))
    format_loop_lem false (c ∷ format) s room e = elim (Bool-cases (ltb (length s + 1) maxsize)) [
      | inr n ↦
          let full : maxsize ≤ length s + 1 = ground (arith, n) in
          rw (format_loop, n)
            (too_long s _ refl (omega (arith, room)) (omega (arith, full, length-append s _)))
      | inl y ↦
          let more : length s + 1 < maxsize = ground (arith, y) in
          elim (Bool-cases (c == b'%')) [
            | inl p ↦
                let same : expansion db tm false (c ∷ format) ≡ expansion db tm true format =
                  rw (expansion, p) refl in
                rw (format_loop, y, p)
                  (format_loop_lem true format s (omega (arith, more)) (sym same ∙ e))
            | inr p ↦
                let same : expansion db tm false (c ∷ format)
                    ≡ joined (c ∷ []) (expansion db tm false format) =
                  rw (expansion, p) refl in
                let (u, there, is) =
                  joined-some (c ∷ []) (expansion db tm false format) (sym same ∙ e) in
                rw
                  (
                    format_loop,
                    y,
                    p,
                    store-inside maxsize (length s + 1) (s ++ c ∷ []) (omega (arith, more)),
                  )
                  (subst
                    (λ t. Fitted maxsize t (format_loop maxsize db tm false format (s ++ c ∷ [])))
                    (append_assoc s (c ∷ []) u ∙ ap (λ x. s ++ x) is)
                    (format_loop_lem false format (s ++ c ∷ [])
                      (omega (arith, more, length-append s (c ∷ []))) there))
          ]
    ]
    format_loop_lem true (c ∷ format) s room e = elim (Bool-cases (c == b'E' || c == b'O')) [
      | inl y ↦
          let same : expansion db tm true (c ∷ format) ≡ expansion db tm true format =
            rw (expansion, y) refl in
          rw (format_loop, y) (format_loop_lem true format s room (sym same ∙ e))
      | inr n ↦
          let pieces = directive db tm c in
          let same : expansion db tm true (c ∷ format)
              ≡ with_rest db tm (pieces_text pieces) (expansion db tm false format) =
            rw (expansion, n) refl in
          let (u, v, text_there, there, is) =
            with_rest-some db tm (pieces_text pieces) (expansion db tm false format)
              (sym same ∙ e) in
          rw (format_loop, n)
            (subst
              (λ t. Fitted maxsize (s ++ t) (
                unless_full (append_all maxsize pieces s)
                  (λ s'. format_loop maxsize db tm false format s')))
              is
              (and_format u v s (append_all maxsize pieces s)
                (λ s'. format_loop maxsize db tm false format s')
                (append_all_lem pieces s (omega (arith, room)) text_there)
                (λ s' le. format_loop_lem false format s' (omega (arith, le)) there)))
    ]

    plain_text :
        (format : List ℕ)
        → has_directive format ≡ false
        → expansion db tm false format ≡ some format
    unfolding has_directive expansion
    plain_text [] e = refl
    plain_text (c ∷ format) e =
        let other : (c == b'%') ≡ false = ground (arith, e) in
        let others : has_directive format ≡ false = ground (arith, e) in
        rw (expansion, other) (ap (joined (c ∷ [])) (plain_text format others))

    -- For a format whose bytes and directives append a text, all of them being defined: strftime returns the
    -- whole text, shorter than the buffer, or it returns 0 with a start of the text in the buffer, and that only where the text
    -- and its terminator fill the buffer or are longer.
    pub strftime-Fitted :
        (format t : List ℕ)
        → expansion db tm false format ≡ some t
        → Fitted maxsize t (strftime maxsize db tm format)
    unfolding strftime
    strftime-Fitted format t e = elim (Bool-cases (maxsize == 0)) [
      | inl y ↦
          let none_at_all : maxsize ≡ 0 = ground (arith, y) in
          rw (strftime, y) (too_long [] t refl (omega arith) (omega (arith, none_at_all)))
      | inr n ↦ elim (Bool-cases (has_directive format)) [
        | inl y ↦ rw (strftime, n, y) (format_loop_lem false format [] (omega arith) e)
        | inr k ↦
            let same : format ≡ t = some_value (sym (plain_text format k) ∙ e) in
            subst (λ t. Fitted maxsize t (strftime maxsize db tm format)) same
              (elim (Bool-cases (ltb maxsize (length format + 1))) [
                | inl y ↦
                    let le : maxsize < length format + 1 = ground (arith, y) in
                    rw (strftime, n, k, y)
                      (too_long [] format refl (omega arith) (omega (arith, le)))
                | inr f ↦
                    rw
                      (
                        strftime,
                        n,
                        k,
                        f,
                        store-inside maxsize (length format + 1) format (ground (arith, f)),
                      )
                      (fits_in (ground (arith, f)))
              ])
      ]
    ]
