-- ===== src/Calendar/Months.antt =====
-- The loop over months of src/c/time/gmtime.c.
use small_lib_c.Base.{
  ℕ, zero, suc, ◌+◌, ◌-◌, ◌≤◌, ◌<◌, ◌≡◌, refl, Bool, ◌&&◌, some, List, [], ◌∷◌, arith, ltb, ◌==◌,
  if◌then◌else◌, Bool-cases, inl, inr, length, get_elem?,
}
use small_lib_c.Calendar.{year_len, is_leap, days_per_month, month_loop}

-- The lengths of months from one on, and the days of the first n of them.
abbrev pub lengths : (leap : Bool) → List ℕ → (month : ℕ) → List ℕ
lengths leap [] month = []
lengths leap (len ∷ lens) month =
    (if month == 1 && leap then len + 1 else len) ∷ lengths leap lens (suc month)

abbrev pub days_of : ℕ → List ℕ → ℕ
days_of zero lens = 0
days_of (suc n) [] = 0
days_of (suc n) (x ∷ lens) = x + days_of n lens

-- A day, as one of a month that is n months on.
pub record InMonth (lens : List ℕ) (first days : ℕ) (r : ℕ × ℕ) : Type 0 where
  pub n : ℕ
  pub len : ℕ
  pub month : r.0 ≡ first + n
  pub there : get_elem? lens n ≡ some len
  pub inside : r.1 < len
  pub counts : days_of n lens + r.1 ≡ days

pub month_loop-InMonth :
    (leap : Bool) (lens : List ℕ) (first days : ℕ)
    → days < days_of (length lens) (lengths leap lens first)
    → InMonth (lengths leap lens first) first days (month_loop leap lens first days)
unfolding month_loop
month_loop-InMonth leap [] first days lt = absurd (omega arith)
month_loop-InMonth leap (len ∷ lens) first days lt =
    let dim = if first == 1 && leap then len + 1 else len in
    elim (Bool-cases (ltb days dim)) [
      | inl y ↦
          rw (month_loop, y)
            (record {
              n = 0;
              len = dim;
              month = omega arith;
              there = refl;
              inside = ground (arith, y);
              counts = omega arith;
            })
      | inr k ↦
          let le : dim ≤ days = ground (arith, k) in
          let r = month_loop-InMonth leap lens (suc first) (days - dim) (omega (arith, lt, le)) in
          rw (month_loop, k)
            (record {
              n = suc r.n;
              len = r.len;
              month = omega (arith, r.month);
              there = r.there;
              inside = r.inside;
              counts = omega (arith, r.counts, le);
            })
    ]

-- The months of a year fill it.
pub whole_year : (year : ℕ) → days_of 12 (lengths (is_leap year) days_per_month 0) ≡ year_len year
unfolding year_len
whole_year year = elim (Bool-cases (is_leap year)) [ inl y ↦ rw y refl | inr n ↦ rw n refl ]
