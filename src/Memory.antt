-- ===== src/Memory.antt =====
-- The memory that the string functions work on: cells at addresses, read and written one at a time.
-- A cell holds a number: a byte for `char`, a code for `wchar_t`. An address outside every object
-- has no cell, and an access there is a fault. A pointer is an address, counted in cells.
pub mod Region
use small_lib_c.Base.{ℕ, ◌+◌, ◌≡◌, Option, none, some, Bool, ◌==◌, if◌then◌else◌, arith}

abbrev pub Memory : Type 0
Memory = ℕ → Option ℕ

-- What a run comes to. `out_of_fuel` is no behaviour of the code: the theorems show that it does
-- not occur with the fuel that they name.
pub data Run (A : Type 0) : Type 0 where
  ok : A → Memory → Run A
  fault : Run A
  out_of_fuel : Run A

abbrev pub Cmd : Type 0 → Type 0
Cmd A = Memory → Run A

abbrev pub pure : {A : Type 0} → A → Cmd A
pure = ok

module _ {A B : Type 0} where
  abbrev pub and_then : Run A → (A → Cmd B) → Run B
  and_then (ok a m) k = k a m
  and_then fault k = fault
  and_then out_of_fuel k = out_of_fuel

  infixl 5 ◌>>=◌ ◌>>◌
  abbrev pub ◌>>=◌ : Cmd A → (A → Cmd B) → Cmd B
  c >>= k = λ m. and_then (c m) k

  abbrev pub ◌>>◌ : Cmd A → Cmd B → Cmd B
  c >> k = c >>= λ _. k

unfoldable pub write : Memory → ℕ → ℕ → Memory
write m p c a = if a == p then some c else m a

-- `*p`
unfoldable pub load : ℕ → Cmd ℕ
load p m = elim (m p) [ none ↦ fault | some c ↦ ok c m ]

-- `*p = c`
unfoldable pub store : ℕ → ℕ → Cmd (Unit {0})
unfolding write
store p c m = elim (m p) [ none ↦ fault | some _ ↦ ok tt (write m p c) ]

pub load-some : (p : ℕ) (m : Memory) {c : ℕ} → m p ≡ some c → load p m ≡ ok c m
unfolding load
load-some p m e = rw (e, load)

pub store-some : (p c : ℕ) (m : Memory) {d : ℕ} → m p ≡ some d → store p c m ≡ ok tt (write m p c)
unfolding store
store-some p c m e = rw (e, store)

pub write_self : (m : Memory) (p c : ℕ) → write m p c p ≡ some c
unfolding write
write_self m p c = ground arith
