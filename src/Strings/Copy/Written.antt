-- ===== src/Strings/Copy/Written.antt =====
-- The memory in which a list has been written.
use small_lib_c.Base.{
  ℕ, ◌+◌, ◌≤◌, ◌<◌, ◌≡◌, refl, ap, ◌∙◌, ◌⊎◌, List, [], ◌∷◌, ◌++◌, arith, inl, length,
}
use small_lib_c.Memory.{Memory, write, write_self}
use small_lib_c.Memory.Region.{Mapped, BytesAt, Mapped-write}

-- The list from `d` on, in order; all else is as in `m`.
unfoldable pub written : Memory → (d : ℕ) → List ℕ → Memory
written m d [] = m
written m d (b ∷ bs) = written (write m d b) (d + 1) bs

pub written-other :
    (m : Memory) (d : ℕ) (bs : List ℕ) (a : ℕ)
    → (a < d) ⊎ (d + length bs ≤ a)
    → written m d bs a ≡ m a
unfolding written write
written-other m d [] a out = refl
written-other m d (b ∷ bs) a out =
    written-other (write m d b) (d + 1) bs a (omega arith) ∙ ground arith

pub written-BytesAt : (m : Memory) (d : ℕ) (bs : List ℕ) → BytesAt (written m d bs) d bs
unfolding written
written-BytesAt m d [] = tt
written-BytesAt m d (b ∷ bs) = (
  written-other (write m d b) (d + 1) bs d (inl (omega arith)) ∙ write_self m d b,
  written-BytesAt (write m d b) (d + 1) bs,
)

pub written-append :
    (m : Memory) (d : ℕ) (xs ys : List ℕ)
    → written m d (xs ++ ys) ≡ written (written m d xs) (d + length xs) ys
unfolding written
written-append m d [] ys = ap (λ t. written m t ys) (omega arith)
written-append m d (x ∷ xs) ys =
    written-append (write m d x) (d + 1) xs ys
    ∙ ap (λ t. written (written (write m d x) (d + 1) xs) t ys) (omega arith)

pub Mapped-written :
    (m : Memory) (d : ℕ) (bs : List ℕ) (p n : ℕ) → Mapped m p n → Mapped (written m d bs) p n
unfolding written
Mapped-written m d [] p n h = h
Mapped-written m d (b ∷ bs) p n h =
    Mapped-written (write m d b) (d + 1) bs p n (Mapped-write m p n d b h)
