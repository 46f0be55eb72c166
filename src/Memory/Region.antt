-- ===== src/Memory/Region.antt =====
-- Regions of memory and what they hold.
use small_lib_c.Base.{
  length, ◌⊎◌, ℕ, suc, ◌+◌, ◌-◌, ◌≤◌, ◌<◌, ◌≡◌, refl, ◌≢◌, Bool, ◌&&◌, Option, none, some, List, [],
  ◌∷◌, arith, ltb, leb, if◌then◌else◌, get_elem?,
}
use small_lib_c.Memory.{Memory, write}

-- All n cells from p on are there.
abbrev pub Mapped : Memory → ℕ → ℕ → Type 0
Mapped m p n = (a : ℕ) → p ≤ a → a < p + n → m a ≢ none

abbrev pub inside : ℕ → ℕ → ℕ → Bool
inside p n a = leb p a && ltb a (p + n)

-- The cells from p on hold the list.
abbrev pub BytesAt : Memory → ℕ → List ℕ → Type 0
BytesAt m p [] = Unit
BytesAt m p (b ∷ bs) = (m p ≡ some b) × BytesAt m (p + 1) bs

-- The cells from p on hold the list, which has no zero, and a zero after it.
abbrev pub StringAt : Memory → ℕ → List ℕ → Type 0
StringAt m p [] = m p ≡ some 0
StringAt m p (b ∷ bs) = (m p ≡ some b) × (b ≢ 0) × StringAt m (p + 1) bs

pub some_of : (o : Option ℕ) → o ≢ none → (c : ℕ) × (o ≡ some c)
some_of none h = absurd (h refl)
some_of (some c) h = (c, refl)

pub first_cell : (m : Memory) (p n : ℕ) → Mapped m p (suc n) → (c : ℕ) × (m p ≡ some c)
first_cell m p n h = some_of (m p) (h p (omega arith) (omega arith))

pub Mapped-tail : (m : Memory) (p n : ℕ) → Mapped m p (suc n) → Mapped m (p + 1) n
Mapped-tail m p n h = λ a lo hi. h a (omega arith) (omega arith)

pub last_cell : (m : Memory) (p n : ℕ) → Mapped m p (suc n) → (c : ℕ) × (m (p + n) ≡ some c)
last_cell m p n h = some_of (m (p + n)) (h (p + n) (omega arith) (omega arith))

pub Mapped-init : (m : Memory) (p n : ℕ) → Mapped m p (suc n) → Mapped m p n
Mapped-init m p n h = λ a lo hi. h a (omega arith) (omega arith)

pub Mapped-write : (m : Memory) (p n q c : ℕ) → Mapped m p n → Mapped (write m q c) p n
unfolding write
Mapped-write m p n q c h = λ a lo hi. ground (arith, h a lo hi)

-- A memory with one object, whose cells from `p` on hold the list.
abbrev pub holding : ℕ → List ℕ → Memory
holding p bs a = if leb p a then get_elem? bs (a - p) else none

pub BytesAt-write :
    (m : Memory) (p q c : ℕ) (bs : List ℕ)
    → (q < p) ⊎ (p + length bs ≤ q)
    → BytesAt m p bs
    → BytesAt (write m q c) p bs
unfolding write
BytesAt-write m p q c [] out h = tt
BytesAt-write m p q c (b ∷ bs) out h =
    (ground arith, BytesAt-write m (p + 1) q c bs (omega arith) h.1)

pub StringAt-write :
    (m : Memory) (p q c : ℕ) (bs : List ℕ)
    → (q < p) ⊎ (p + length bs < q)
    → StringAt m p bs
    → StringAt (write m q c) p bs
unfolding write
StringAt-write m p q c [] out h = ground arith
StringAt-write m p q c (b ∷ bs) out h =
    (ground arith, h.1, StringAt-write m (p + 1) q c bs (omega arith) h.2)
