-- ===== src/Calendar/Strftime/Bounds.antt =====
-- strftime of src/c/time/strftime.c: how much it writes.
use small_lib_c.Base.{
  ℕ, suc, ◌+◌, ◌-◌, ◌≤◌, ◌<◌, Bool, true, false, ◌||◌, Option, List, [], ◌∷◌, ◌++◌, ltb, ◌==◌,
  if◌then◌else◌, length, length-append, Bool-cases, inl, inr, arith,
}
use small_lib_c.Calendar.{Tm}
use small_lib_c.Calendar.Zone.{TzDb}
use small_lib_c.Calendar.Directives.{Segment, byte, string, undefined, directive}
use small_lib_c.Calendar.Strftime.{
  Formatted, written, no_room, unknown, unless_full, append, store-inside, overrun, append_all,
  terminate, format_loop, has_directive, strftime,
}

-- What is written, below a limit, and what is left in a buffer of `maxsize` bytes, with no write behind
-- it.
pub data Within (limit maxsize : ℕ) : Formatted → Type 0 where
  returned : (s : List ℕ) → length s < limit → Within limit maxsize (written s)
  left : (s : List ℕ) → length s ≤ maxsize → Within limit maxsize (no_room s)
  anything : Within limit maxsize unknown

module _ (maxsize : ℕ) where
  abbrev Kept : Formatted → Type 0
  Kept = Within (suc maxsize) maxsize

  unless_full-Within :
      (limit : ℕ) (o : Formatted) (rest : List ℕ → Formatted)
      → Kept o
      → ((s : List ℕ) → length s ≤ maxsize → Within limit maxsize (rest s))
      → Within limit maxsize (unless_full o rest)
  unless_full-Within limit (written _) rest (returned s lt) go = go s (omega (arith, lt))
  unless_full-Within limit (no_room _) rest (left s le) go = left s le
  unless_full-Within limit overrun rest kept go = elim kept [ ]
  unless_full-Within limit unknown rest kept go = anything

  append-Kept : (piece : Segment) (s : List ℕ) → length s ≤ maxsize → Kept (append maxsize piece s)
  unfolding append
  append-Kept (byte c) s room = elim (Bool-cases (ltb (length s) maxsize)) [
    | inl y ↦
        let lt : length s < maxsize = ground (arith, y) in
        rw (append, y, store-inside maxsize (length s + 1) (s ++ c ∷ []) (omega (arith, lt)))
          (returned (s ++ c ∷ []) (omega (arith, length-append s (c ∷ []), lt)))
    | inr n ↦ rw (append, n) (left s room)
  ]
  append-Kept (string str) s room = elim (Bool-cases (ltb (length str) (maxsize - length s))) [
    | inl y ↦
        let lt : length str < maxsize - length s = ground (arith, y) in
        rw
          (
            append,
            y,
            store-inside maxsize (length s + length str + 1) (s ++ str) (omega (arith, lt)),
          )
          (returned (s ++ str) (omega (arith, length-append s str, lt)))
    | inr n ↦ rw (append, n) (left s room)
  ]
  append-Kept undefined s room = anything

  append_all-Kept :
      (pieces : List Segment) (s : List ℕ) → length s ≤ maxsize → Kept (append_all maxsize pieces s)
  unfolding append_all
  append_all-Kept [] s room = returned s (omega (arith, room))
  append_all-Kept (piece ∷ pieces) s room =
      unless_full-Within (suc maxsize) (append maxsize piece s) (append_all maxsize pieces)
        (append-Kept piece s room) (append_all-Kept pieces)

  terminate-Within :
      (s : List ℕ) → length s ≤ maxsize → Within maxsize maxsize (terminate maxsize s)
  unfolding terminate
  terminate-Within s room = elim (Bool-cases (ltb (length s) maxsize)) [
    | inl y ↦
        rw (terminate, y, store-inside maxsize (length s + 1) s (ground (arith, y)))
          (returned s (ground (arith, y)))
    | inr n ↦ rw (terminate, n) (left s room)
  ]

  module _ (db : Option TzDb) (tm : Tm) where
    format_loop-Within :
        (in_directive : Bool) (format s : List ℕ)
        → length s + (if in_directive then 1 else 0) ≤ maxsize
        → Within maxsize maxsize (format_loop maxsize db tm in_directive format s)
    unfolding format_loop
    format_loop-Within false [] s room = terminate-Within s (omega (arith, room))
    format_loop-Within true [] s room =
        rw (format_loop, store-inside maxsize (length s + 1) (s ++ b'%' ∷ []) (omega (arith, room)))
          (terminate-Within (s ++ b'%' ∷ []) (omega (arith, room, length-append s (b'%' ∷ []))))
    format_loop-Within false (c ∷ format) s room = elim (Bool-cases (ltb (length s + 1) maxsize)) [
      | inr n ↦ rw (format_loop, n) (left s (omega (arith, room)))
      | inl y ↦
          let more : length s + 1 < maxsize = ground (arith, y) in
          elim (Bool-cases (c == b'%')) [
            | inl p ↦
                rw (format_loop, y, p) (format_loop-Within true format s (omega (arith, more)))
            | inr p ↦
                rw
                  (
                    format_loop,
                    y,
                    p,
                    store-inside maxsize (length s + 1) (s ++ c ∷ []) (omega (arith, more)),
                  )
                  (format_loop-Within false format (s ++ c ∷ [])
                    (omega (arith, more, length-append s (c ∷ []))))
          ]
    ]
    format_loop-Within true (c ∷ format) s room = elim (Bool-cases (c == b'E' || c == b'O')) [
      | inl y ↦ rw (format_loop, y) (format_loop-Within true format s room)
      | inr n ↦
          rw (format_loop, n)
            (unless_full-Within maxsize (append_all maxsize (directive db tm c) s)
              (λ s'. format_loop maxsize db tm false format s')
              (append_all-Kept (directive db tm c) s (omega (arith, room)))
              (λ s' le. format_loop-Within false format s' (omega (arith, le))))
    ]

    -- Whatever the format and the fields, where the behaviour of the directives is defined: strftime writes
    -- no byte behind the buffer, the terminators that strcpy writes included; a text that it returns leaves
    -- a byte of the buffer for its terminator, and what it has written where it returns 0 lies in the buffer.
    pub strftime-Within : (format : List ℕ) → Within maxsize maxsize (strftime maxsize db tm format)
    unfolding strftime
    strftime-Within format = elim (Bool-cases (maxsize == 0)) [
      | inl y ↦ rw (strftime, y) (left [] (omega arith))
      | inr n ↦ elim (Bool-cases (has_directive format)) [
        | inl y ↦ rw (strftime, n, y) (format_loop-Within false format [] (omega arith))
        | inr k ↦ elim (Bool-cases (ltb maxsize (length format + 1))) [
          | inl y ↦ rw (strftime, n, k, y) (left [] (omega arith))
          | inr f ↦
              rw
                (
                  strftime,
                  n,
                  k,
                  f,
                  store-inside maxsize (length format + 1) format (ground (arith, f)),
                )
                (returned format (ground (arith, f)))
        ]
      ]
    ]
