-- ===== src/Strings/Block/Move.antt =====
-- Copying: memcpy, memmove, bcopy, memset and bzero as one simultaneous assignment.
use small_lib_c.Base.{
  ℕ, zero, suc, ◌+◌, ◌-◌, ◌%◌, ◌≤◌, ◌≡◌, refl, ap, ◌⊎◌, inl, inr, some, arith, if◌then◌else◌,
}
use mathlib.Core.Path.{fun_ext}
use small_lib_c.Memory.{Memory, ok, write, load-some, store-some}
use small_lib_c.Memory.Region.{
  Mapped, inside, first_cell, last_cell, Mapped-tail, Mapped-init, Mapped-write,
}
use small_lib_c.Strings.Block.{
  copy_up, copy_down, copy_last, fill, memcpy, memmove, bcopy, memset, bzero,
}

-- The memory in which the n cells from d on hold what the n cells from s on hold in `m`, and all
-- else is as in `m`.
unfoldable pub moved : Memory → (d s n : ℕ) → Memory
moved m d s n a = if inside d n a then m (s + (a - d)) else m a

-- The memory in which the n cells from p on hold `c`.
unfoldable pub filled : Memory → (p n c : ℕ) → Memory
filled m p n c a = if inside p n a then some c else m a

pub moved_up_step :
    (m : Memory) (n d s c a : ℕ)
    → m s ≡ some c
    → (d ≤ s) ⊎ (s + suc n ≤ d)
    → moved (write m d c) (d + 1) (s + 1) n a ≡ moved m d s (suc n) a
unfolding moved write
moved_up_step m n d s c a from apart = ground arith

moved_down_step :
    (m : Memory) (n d s c a : ℕ)
    → m (s + n) ≡ some c
    → (s ≤ d) ⊎ (d + suc n ≤ s)
    → moved (write m (d + n) c) d s n a ≡ moved m d s (suc n) a
unfolding moved write
moved_down_step m n d s c a from apart = ground arith

pub moved_none : (m : Memory) (d s a : ℕ) → m a ≡ moved m d s 0 a
unfolding moved
moved_none m d s a = ground arith

pub moved_self : (m : Memory) (d n : ℕ) → moved m d d n ≡ m
unfolding moved
moved_self m d n = fun_ext λ a. ground arith

filled_none : (m : Memory) (p c a : ℕ) → m a ≡ filled m p 0 c a
unfolding filled
filled_none m p c a = ground arith

filled_step :
    (m : Memory) (n p c a : ℕ) → filled (write m p c) (p + 1) n c a ≡ filled m p (suc n) c a
unfolding filled write
filled_step m n p c a = ground arith

pub copy_up-moved :
    (n d s : ℕ) (m : Memory)
    → Mapped m d n
    → Mapped m s n
    → (d ≤ s) ⊎ (s + n ≤ d)
    → copy_up n d s m ≡ ok tt (moved m d s n)
unfolding copy_up
copy_up-moved zero d s m md ms apart = ap (ok tt) (fun_ext (moved_none m d s))
copy_up-moved (suc n) d s m md ms apart =
    let (c, from) = first_cell m s n ms in
    let (old, to) = first_cell m d n md in
    let m' : Memory = write m d c in
    let rest =
      copy_up-moved n (d + 1) (s + 1) m' (Mapped-write m (d + 1) n d c (Mapped-tail m d n md))
        (Mapped-write m (s + 1) n d c (Mapped-tail m s n ms)) (omega arith) in
    rw (load-some s m from, store-some d c m to, rest)
      (ap (ok tt) (fun_ext λ a. moved_up_step m n d s c a from apart))

pub copy_down-moved :
    (n d s d' s' : ℕ) (m : Memory)
    → Mapped m d n
    → Mapped m s n
    → (s ≤ d) ⊎ (d + n ≤ s)
    → d' ≡ d + n
    → s' ≡ s + n
    → copy_down n d' s' m ≡ ok tt (moved m d s n)
unfolding copy_down
copy_down-moved zero d s d' s' m md ms apart ed es = ap (ok tt) (fun_ext (moved_none m d s))
copy_down-moved (suc n) d s d' s' m md ms apart ed es =
    let (c, from) = last_cell m s n ms in
    let (old, to) = last_cell m d n md in
    let m' : Memory = write m (d + n) c in
    let ed' : d' - 1 ≡ d + n = omega arith in
    let es' : s' - 1 ≡ s + n = omega arith in
    let rest =
      copy_down-moved n d s (d + n) (s + n) m' (Mapped-write m d n (d + n) c (Mapped-init m d n md))
        (Mapped-write m s n (d + n) c (Mapped-init m s n ms)) (omega arith) refl refl in
    rw (ed', es', load-some (s + n) m from, store-some (d + n) c m to, rest)
      (ap (ok tt) (fun_ext λ a. moved_down_step m n d s c a from apart))

-- The start of the last cell does not matter where no cell is left.
copy_last-moved :
    (n d s d' s' : ℕ) (m : Memory)
    → Mapped m d n
    → Mapped m s n
    → (s ≤ d) ⊎ (d + n ≤ s)
    → (n ≡ 0) ⊎ ((d' + 1 ≡ d + n) × (s' + 1 ≡ s + n))
    → copy_last n d' s' m ≡ ok tt (moved m d s n)
unfolding copy_last
copy_last-moved zero d s d' s' m md ms apart ends = ap (ok tt) (fun_ext (moved_none m d s))
copy_last-moved (suc n) d s d' s' m md ms apart ends =
    let (c, from) = last_cell m s n ms in
    let (old, to) = last_cell m d n md in
    let ed : d' ≡ d + n = omega arith in
    let es : s' ≡ s + n = omega arith in
    let rest =
      copy_last-moved n d s (d + n - 1) (s + n - 1) (write m (d + n) c)
        (Mapped-write m d n (d + n) c (Mapped-init m d n md))
        (Mapped-write m s n (d + n) c (Mapped-init m s n ms)) (omega arith) (ends_lem n) in
    rw (ed, es, load-some (s + n) m from, store-some (d + n) c m to, rest)
      (ap (ok tt) (fun_ext λ a. moved_down_step m n d s c a from apart))
  where
    ends_lem : (k : ℕ) → (k ≡ 0) ⊎ ((d + k - 1 + 1 ≡ d + k) × (s + k - 1 + 1 ≡ s + k))
    ends_lem zero = inl refl
    ends_lem (suc k) = inr (omega arith, omega arith)

-- For regions of n cells that are there, however they overlap, memmove returns `dest`, does not
-- fault, and leaves the memory in which the n cells from `dest` on hold what the n cells from `src`
-- on held before and all else is unchanged.
pub memmove_lem :
    (dest src n : ℕ) (m : Memory)
    → Mapped m dest n
    → Mapped m src n
    → memmove dest src n m ≡ ok dest (moved m dest src n)
unfolding memmove
memmove_lem dest src n m md ms = ground (
  arith,
  moved_self m dest n,
  copy_up-moved n dest src m md ms,
  copy_down-moved n dest src (dest + n) (src + n) m md ms,
)

pub memcpy_lem :
    (dest src n : ℕ) (m : Memory)
    → Mapped m dest n
    → Mapped m src n
    → (dest ≤ src) ⊎ (src + n ≤ dest)
    → memcpy dest src n m ≡ ok dest (moved m dest src n)
unfolding memcpy
memcpy_lem dest src n m md ms apart = rw (copy_up-moved n dest src m md ms apart)

pub bcopy_lem :
    (src dest n : ℕ) (m : Memory)
    → Mapped m dest n
    → Mapped m src n
    → bcopy src dest n m ≡ ok tt (moved m dest src n)
unfolding bcopy
bcopy_lem src dest n m md ms = ground (
  arith,
  copy_up-moved n dest src m md ms,
  copy_last-moved n dest src (dest + (n - 1)) (src + (n - 1)) m md ms,
)

pub fill-filled : (n p c : ℕ) (m : Memory) → Mapped m p n → fill n p c m ≡ ok tt (filled m p n c)
unfolding fill
fill-filled zero p c m h = ap (ok tt) (fun_ext λ a. filled_none m p c a)
fill-filled (suc n) p c m h =
    let (old, to) = first_cell m p n h in
    rw
      (
        store-some p c m to,
        fill-filled n (p + 1) c (write m p c) (Mapped-write m (p + 1) n p c (Mapped-tail m p n h)),
      )
      (ap (ok tt) (fun_ext λ a. filled_step m n p c a))

-- memset and bzero on a region of n cells that are there write the low byte of `c`, and 0, to each
-- of them and nothing else, and memset returns the region.
pub memset-bzero :
    (s c n : ℕ) (m : Memory)
    → Mapped m s n
    → (memset s c n m ≡ ok s (filled m s n (c % 256))) × (bzero s n m ≡ ok tt (filled m s n 0))
unfolding memset bzero
memset-bzero s c n m h = (rw (fill-filled n s (c % 256) m h), fill-filled n s 0 m h)
