-- ===== src/Allocator/Bytes.antt =====
-- What the heap's functions do to the payload's bytes by way of memset and memcpy.
use small_lib_c.Base.{ℕ, ◌+◌, ◌≡◌, ◌≢◌, subst, none, List, [], ◌∷◌, ◌++◌, arith}
use small_lib_c.Memory.{Run, Memory, Cmd, ok}
use small_lib_c.Memory.Region.{Mapped}
use small_lib_c.Allocator.{Arena, Step, done, fault, out_of_fuel}
use small_lib_c.Allocator.Chain.{Block}
use small_lib_c.Allocator.Layout.{Placed, Layout-right}
use small_lib_c.Allocator.Invariant.{Backed, Backed-right, IsHeap, live, live-Splits}

-- A function of string.h on the payload's bytes.
pub on_bytes : {A : Type 0} → Cmd A → Step A
on_bytes c h = elim (c h.bytes) [
  | ok x m ↦ done x (record h { bytes = m })
  | Run.fault ↦ fault
  | Run.out_of_fuel ↦ out_of_fuel
]

pub on_bytes-ok :
    {A : Type 0} (c : Cmd A) (h : Arena) {x : A} {m : Memory}
    → c h.bytes ≡ ok x m
    → on_bytes c h ≡ done x (record h { bytes = m })
unfolding on_bytes
on_bytes-ok c h e = rw (e, on_bytes)

-- Every cell that is there stays there.
abbrev pub StillMapped : (m m' : Memory) → Type 0
StillMapped m m' = (a : ℕ) → m a ≢ none → m' a ≢ none

Backed-still : (m m' : Memory) (bs : List Block) → StillMapped m m' → Backed m bs → Backed m' bs
Backed-still m m' [] still k = tt
Backed-still m m' (b ∷ bs) still k =
    (λ a lo hi. still a (k.0 a lo hi), Backed-still m m' bs still k.1)

-- A heap whose bytes change is as well formed as before.
pub IsHeap-bytes :
    (h : Arena) (m : Memory) (bs : List Block)
    → StillMapped h.bytes m
    → IsHeap h bs
    → IsHeap (record h { bytes = m }) bs
IsHeap-bytes h m bs still heap = record {
  base = heap.base;
  unlocked = heap.unlocked;
  chain = heap.chain;
  layout = heap.layout;
  backed = Backed-still h.bytes m bs still heap.backed;
}

-- A block in use is placed, and its payload is mapped.
pub live_block-Mapped :
    (h : Arena) (bs xs ys : List Block) (b : Block)
    → IsHeap h bs
    → live bs ≡ xs ++ b ∷ ys
    → Placed b × Mapped h.bytes (b.at + 32) b.size
live_block-Mapped h bs xs ys b heap e =
    let (pre, post, split, left, right, used) = live-Splits bs xs b ys e in
    let heap' : IsHeap h (pre ++ b ∷ post) = subst (λ t. IsHeap h t) split heap in
    let backed = (Backed-right h.bytes pre (b ∷ post) heap'.backed).0 in
    ((Layout-right pre (b ∷ post) heap'.layout).0, λ a lo hi. backed a (omega arith) (omega arith))
