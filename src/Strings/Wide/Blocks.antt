-- ===== src/Strings/Wide/Blocks.antt =====
-- wmemcpy, wmemmove, wmemset and wmemchr.
use small_lib_c.Base.{ℕ, ◌+◌, ◌≡◌, refl, List, length, arith}
use mathlib.Core.Option
use small_lib_c.Memory.{Memory, ok}
use small_lib_c.Memory.Region.{Mapped, BytesAt}
use small_lib_c.Strings.Block.Move.{
  moved, moved_self, filled, copy_up-moved, copy_down-moved, fill-filled,
}
use small_lib_c.Strings.Block.Search.{index_of, find_byte-index_of}
use small_lib_c.Strings.Wide.{wmemmove, wmemset, wmemchr}

-- For regions of n cells that are there, however they overlap, wmemmove returns `dest` and leaves
-- the memory in which the n cells from `dest` on hold what those from `src` on held before.
pub wmemmove-moved :
    (dest src n : ℕ) (m : Memory)
    → Mapped m dest n
    → Mapped m src n
    → wmemmove dest src n m ≡ ok dest (moved m dest src n)
unfolding wmemmove
wmemmove-moved dest src n m md ms = ground (
  arith,
  moved_self m dest n,
  copy_up-moved n dest src m md ms,
  copy_down-moved n dest src (dest + n) (src + n) m md ms,
)

-- wmemset writes its code to each of n cells that are there and nothing else; wmemchr returns the
-- address of the first code of a block that is looked for, or null.
pub wmemset-wmemchr :
    (s c : ℕ) (bs : List ℕ) (m : Memory)
    → BytesAt m s bs
    → Mapped m s (length bs)
    → (wmemset s c (length bs) m ≡ ok s (filled m s (length bs) c))
      × (wmemchr s c (length bs) m ≡ ok (Option.map (λ (i : ℕ). s + i) (index_of c bs)) m)
unfolding wmemset wmemchr
wmemset-wmemchr s c bs m at there =
    (rw (fill-filled (length bs) s c m there) refl, find_byte-index_of m c s bs at)
