-- ===== src/Calendar/Zone/Lookup.antt =====
-- tz_lookup of src/c/time/parser.c: its search finds the last transition that has come.
use small_lib_c.Base.{
  drop, ltb, ◌≢◌, ap, subst, Option-cases, ℕ, zero, suc, ◌+◌, ◌-◌, ◌/◌, ◌≤◌, ◌<◌, ◌≡◌, refl, true,
  false, Option, none, some, List, [], ◌∷◌, leb, ◌==◌, ==_iff, length, get_elem?, Bool-cases, inl,
  inr, arith, get-inside, inside-get,
}
use small_lib_c.Base.Int.{ℤ, pos, negsuc, abs, ltb_ℤ, ◌≤ℤ◌}
use small_lib_c.Calendar.{TzResult}
use mathlib.Core.Option.{some-injective}
use small_lib_c.Calendar.Zone.{
  TzDb, TtInfo, first_standard, lookup_loop, lookup_index, type_index, type_result, tz_lookup,
}

-- Each time is at or behind those before it.
abbrev pub Ascending : List ℤ → Type 0
Ascending times =
    (i j : ℕ) (x y : ℤ) → i ≤ j → get_elem? times i ≡ some x → get_elem? times j ≡ some y → x ≤ℤ y

module _ (times : List ℤ) (timestamp : ℤ) where
  -- The index of the last of some times that is not behind `timestamp`, if any.
  pub data LastBefore : Option ℕ → Type 0 where
    none_yet :
        ((j : ℕ) (y : ℤ) → get_elem? times j ≡ some y → ltb_ℤ timestamp y ≡ true) → LastBefore none
    last_at :
        (i : ℕ) (x : ℤ)
        → get_elem? times i ≡ some x
        → ltb_ℤ timestamp x ≡ false
        → ((j : ℕ) (y : ℤ) → i < j → get_elem? times j ≡ some y → ltb_ℤ timestamp y ≡ true)
        → LastBefore (some i)

  -- What the loop has found below `low`.
  data Found (low : ℕ) : Option ℕ → Type 0 where
    nothing : low ≡ 0 → Found low none
    one :
        (i : ℕ) (x : ℤ)
        → low ≡ suc i
        → get_elem? times i ≡ some x
        → ltb_ℤ timestamp x ≡ false
        → Found low (some i)

  abbrev Behind : ℕ → Type 0
  Behind high = (j : ℕ) (y : ℤ) → high < j → get_elem? times j ≡ some y → ltb_ℤ timestamp y ≡ true

  Found-LastBefore :
      (low high : ℕ) (idx : Option ℕ)
      → low ≡ suc high
      → Found low idx
      → Behind high
      → LastBefore idx
  Found-LastBefore low high none e (nothing z) behind = absurd (omega (arith, e, z))
  Found-LastBefore low high (some _) e (one i x l at h) behind =
      last_at i x at h (λ j y lt f. behind j y (omega (arith, lt, e, l)) f)

  module _ (ascending : Ascending times) where
    behind_from :
        (mid : ℕ) (x : ℤ)
        → get_elem? times mid ≡ some x
        → ltb_ℤ timestamp x ≡ true
        → (j : ℕ) (y : ℤ) → mid ≤ j
        → get_elem? times j ≡ some y
        → ltb_ℤ timestamp y ≡ true
    behind_from mid x at lt j y le e = ground (arith, ascending mid j x y le at e, lt)

    lookup_loop_lem :
        (k low high : ℕ) (idx : Option ℕ)
        → high < length times
        → low ≤ suc high
        → suc high < k + low
        → Found low idx
        → Behind high
        → (r : Option ℕ) × (lookup_loop k times timestamp low high idx ≡ some r) × LastBefore r
    unfolding lookup_loop
    lookup_loop_lem zero low high idx inside le enough found behind = absurd (omega arith)
    lookup_loop_lem (suc k) low high idx inside le enough found behind =
        elim (Bool-cases (leb low high)) [
          | inr n ↦
              let e : low ≡ suc high = ground (arith, n, le) in
              (idx, rw (lookup_loop, n) refl, Found-LastBefore low high idx e found behind)
          | inl y ↦
              let mid = low + (high - low) / 2 in
              let up : low ≤ high = ground (arith, y) in
              let (x, at) = get-inside times mid (omega (arith, inside, up)) in
              elim (Bool-cases (ltb_ℤ timestamp x)) [
                | inr f ↦
                    let (r, runs, last) =
                      lookup_loop_lem k (mid + 1) high (some mid) inside (omega (arith, up))
                        (omega (arith, enough)) (one mid x (omega arith) at f) behind in
                    (r, rw (lookup_loop, y, at, f) runs, last)
                | inl t ↦ elim (Bool-cases (mid == 0)) [
                  | inl z ↦
                      let start : mid ≡ 0 = (==_iff mid 0).0 z in
                      (
                        idx,
                        rw (lookup_loop, y, at, t, z) refl,
                        at_start found (omega (arith, start)) mid x start at t,
                      )
                  | inr p ↦
                      let above : 0 < mid = ground (arith, p) in
                      let (r, runs, last) =
                        lookup_loop_lem k low (mid - 1) idx (omega (arith, inside, up))
                          (omega (arith, above)) (omega (arith, enough, above, up)) found
                          (λ j v lt e. behind_from mid x at t j v (omega (arith, lt)) e) in
                      (r, rw (lookup_loop, y, at, t, p) runs, last)
                ]
              ]
        ]
      where
        at_start :
            {o : Option ℕ}
            → Found low o
            → low ≡ 0
            → (mid : ℕ) (x : ℤ) → mid ≡ 0
            → get_elem? times mid ≡ some x
            → ltb_ℤ timestamp x ≡ true
            → LastBefore o
        at_start (nothing z) l mid x m at t =
            none_yet (λ j y e. behind_from mid x at t j y (omega (arith, m)) e)
        at_start (one i v s e h) l mid x m at t = absurd (omega (arith, s, l))

lookup_index_lem :
    (times : List ℤ) (timestamp : ℤ)
    → Ascending times
    → (idx : Option ℕ) × (lookup_index times timestamp ≡ some idx) × LastBefore times timestamp idx
unfolding lookup_index
lookup_index_lem [] timestamp ascending =
    (none, refl, none_yet (λ j y e. absurd (ground (arith, e))))
lookup_index_lem (first ∷ rest) timestamp ascending = elim (Bool-cases (ltb_ℤ timestamp first)) [
  | inl y ↦ (
    none,
    rw (lookup_index, y) refl,
    none_yet (λ j v e.
        behind_from (first ∷ rest) timestamp ascending 0 first refl y j v (omega arith) e),
  )
  | inr n ↦
      let (idx, runs, last) =
        lookup_loop_lem (first ∷ rest) timestamp ascending (length rest + 2) 0 (length rest) none
          (omega arith) (omega arith) (omega arith) (nothing refl)
          (λ j v lt e. absurd (omega (arith, lt, inside-get (first ∷ rest) j e))) in
      (idx, rw (lookup_index, n) runs, last)
]

-- The index of the type that holds from a transition on, or before all of them.
pub data TypeFor (db : TzDb) : Option ℕ → (type_idx : ℕ) → Type 0 where
  of_transition : (i t : ℕ) → get_elem? db.type_idxs i ≡ some t → TypeFor db (some i) t
  standard :
      (t : ℕ) (info : TtInfo)
      → get_elem? db.types t ≡ some info
      → info.is_dst ≡ pos 0
      → ((j : ℕ) (other : TtInfo)
          → j < t
          → get_elem? db.types j ≡ some other
          → other.is_dst ≢ pos 0)
      → TypeFor db none t
  no_standard :
      ((j : ℕ) (other : TtInfo) → get_elem? db.types j ≡ some other → other.is_dst ≢ pos 0)
      → TypeFor db none 0

-- What is read of the type at an index.
pub data ResultFor (db : TzDb) (type_idx : ℕ) : Option TzResult → Type 0 where
  there :
      (info : TtInfo) (r : TzResult)
      → get_elem? db.types type_idx ≡ some info
      → r.gmtoff ≡ info.gmtoff
      → r.is_dst ≡ info.is_dst
      → r.abbr ≡ drop info.abbr_idx db.abbrevs
      → ResultFor db type_idx (some r)
  missing : length db.types ≤ type_idx → ResultFor db type_idx none

-- What the loop over the types finds from the index `k` on.
data Standard (k : ℕ) (types : List TtInfo) : ℕ → Type 0 where
  found_at :
      (i t : ℕ) (info : TtInfo)
      → t ≡ k + i
      → get_elem? types i ≡ some info
      → info.is_dst ≡ pos 0
      → ((j : ℕ) (other : TtInfo) → j < i → get_elem? types j ≡ some other → other.is_dst ≢ pos 0)
      → Standard k types t
  nowhere :
      ((j : ℕ) (other : TtInfo) → get_elem? types j ≡ some other → other.is_dst ≢ pos 0)
      → Standard k types 0

abs-zero : (z : ℤ) → (abs z == 0) ≡ true → z ≡ pos 0
abs-zero (pos n) e = ap pos (omega (arith, (==_iff (abs (pos n)) 0).0 e))
abs-zero (negsuc n) e = absurd (ground (arith, e))

abs-nonzero : (z : ℤ) → (abs z == 0) ≡ false → z ≢ pos 0
abs-nonzero z e h = let zero_abs : abs z ≡ 0 = ap abs h in absurd (ground (arith, e, zero_abs))

first_standard_lem : (k : ℕ) (types : List TtInfo) → Standard k types (first_standard k types)
unfolding first_standard
first_standard_lem k [] = nowhere (λ j other e. absurd (ground (arith, e)))
first_standard_lem k (info ∷ types) = elim (Bool-cases (abs info.is_dst == 0)) [
  | inl y ↦
      rw (first_standard, y)
        (found_at 0 k info (omega arith) refl (abs-zero info.is_dst y)
          (λ j other lt e. absurd (omega (arith, lt))))
  | inr n ↦ rw (first_standard, n) (add_first n (first_standard_lem (k + 1) types))
]
  where
    also_first :
        {bound : ℕ}
        → (abs info.is_dst == 0) ≡ false
        → ((j : ℕ) (other : TtInfo)
            → j < bound
            → get_elem? types j ≡ some other
            → other.is_dst ≢ pos 0)
        → (j : ℕ) (other : TtInfo) → j < suc bound
        → get_elem? (info ∷ types) j ≡ some other
        → other.is_dst ≢ pos 0
    also_first n before zero other lt e =
        subst (λ (o : TtInfo). o.is_dst ≢ pos 0) (some-injective _ _ e) (abs-nonzero info.is_dst n)
    also_first n before (suc j) other lt e = before j other (omega (arith, lt)) e

    also_no :
        (abs info.is_dst == 0) ≡ false
        → ((j : ℕ) (other : TtInfo) → get_elem? types j ≡ some other → other.is_dst ≢ pos 0)
        → (j : ℕ) (other : TtInfo) → get_elem? (info ∷ types) j ≡ some other
        → other.is_dst ≢ pos 0
    also_no n before zero other e =
        subst (λ (o : TtInfo). o.is_dst ≢ pos 0) (some-injective _ _ e) (abs-nonzero info.is_dst n)
    also_no n before (suc j) other e = before j other e

    add_first :
        {t : ℕ}
        → (abs info.is_dst == 0) ≡ false
        → Standard (k + 1) types t
        → Standard k (info ∷ types) t
    add_first n (found_at i t found e here std before) =
        found_at (suc i) t found (omega (arith, e)) here std (also_first n before)
    add_first n (nowhere before) = nowhere (also_no n before)

Standard-TypeFor : (db : TzDb) {t : ℕ} → Standard 0 db.types t → TypeFor db none t
Standard-TypeFor db (found_at i t info e here std before) =
    let same : i ≡ t = omega (arith, e) in
    standard t info (subst (λ (n : ℕ). get_elem? db.types n ≡ some info) same here) std
      (λ j other lt f. before j other (omega (arith, lt, same)) f)
Standard-TypeFor db (nowhere before) = no_standard before

type_result_lem : (db : TzDb) (t : ℕ) → ResultFor db t (type_result db t)
unfolding type_result
type_result_lem db t = elim (Option-cases (get_elem? db.types t)) [
  | inr (info, e) ↦ rw (type_result, e) (there info _ e refl refl refl)
  | inl e ↦ elim (Bool-cases (ltb t (length db.types))) [
    | inr n ↦ rw (type_result, e) (missing (ground (arith, n)))
    | inl y ↦
        let (info, f) = get-inside db.types t (ground (arith, y)) in absurd (ground (arith, e, f))
  ]
]

-- With transitions in their order, and a type for each, tz_lookup takes the type of the last
-- transition that is not behind the time; before all of them it takes the first type that is not
-- daylight saving time, or the type 0 if there is none. It writes the type's offset, its daylight saving
-- time and its name, the names' bytes from the type's index on, or returns 0 where the type is not there.
pub tz_lookup-LastBefore :
    (db : TzDb) (timestamp : ℤ)
    → Ascending db.transitions
    → length db.type_idxs ≡ length db.transitions
    → (idx : Option ℕ) × (type_idx : ℕ) × (r : Option TzResult) × LastBefore db.transitions
        timestamp idx
      × TypeFor db idx type_idx
      × ResultFor db type_idx r
      × (tz_lookup db timestamp ≡ some r)
unfolding tz_lookup type_index
tz_lookup-LastBefore db timestamp ascending sizes =
    let (idx, runs, last) = lookup_index_lem db.transitions timestamp ascending in
    let (type_idx, e, chosen) = type_there idx last in
    (
      idx,
      type_idx,
      type_result db type_idx,
      last,
      chosen,
      type_result_lem db type_idx,
      rw (tz_lookup, runs, e) refl,
    )
  where
    type_there :
        (idx : Option ℕ)
        → LastBefore db.transitions timestamp idx
        → (type_idx : ℕ) × (type_index db idx ≡ some type_idx) × TypeFor db idx type_idx
    type_there none last =
        (first_standard 0 db.types, refl, Standard-TypeFor db (first_standard_lem 0 db.types))
    type_there (some _) (last_at i x at h behind) =
        let (t, e) =
          get-inside db.type_idxs i (omega (arith, sizes, inside-get db.transitions i at)) in
        (t, e, of_transition i t e)
