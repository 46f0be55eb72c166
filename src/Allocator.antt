-- ===== src/Allocator.antt =====
-- The heap: src/c/stdlib/malloc.h, malloc.c, free.c, calloc.c and realloc.c, for the 32 bit targets
-- (`size_t` and pointers of 32 bits, so that `struct block_meta` has 20 bytes and its aligned size
-- is 32). Headers stand at addresses of their own, apart from the payload's bytes, which are the
-- memory of `Memory`. `sched_yield` and the kernel's `mmap` are not under src/c/stdlib: what `mmap`
-- answers is an argument, `none` for MAP_FAILED, and a lock that is held makes the caller spin.
pub mod Chain
pub mod Layout
pub mod Link
pub mod Split
pub mod Invariant
pub mod Search
pub mod Malloc
pub mod Request
pub mod Extend
pub mod Answer
pub mod Merge
pub mod Coalesce
pub mod Free
pub mod Bytes
pub mod Calloc
pub mod Realloc
mod Samples
use small_lib_c.Base.{
  ℕ, zero, suc, ◌+◌, ◌-◌, ◌*◌, ◌%◌, ◌^◌, bit_and, Bool, true, false, not, ◌&&◌, ◌||◌, Option, none,
  some, ltb, leb, ◌==◌, if◌then◌else◌,
}
use small_lib_c.Memory
use small_lib_c.Memory.{Memory}
use small_lib_c.Memory.Region.{inside}
use small_lib_c.Strings.Block.{memset, memcpy}

abbrev pub word : ℕ
word = 2 ^ 32

-- `struct block_meta` without its padding. A null pointer is 0.
pub record Header : Type 0 where
  pub size : ℕ
  pub next : ℕ
  pub prev : ℕ
  pub magic : ℕ

abbrev pub header : (size next prev magic : ℕ) → Header
header s n p g = record { size = s; next = n; prev = p; magic = g }

pub record Arena : Type 0 where
  pub headers : ℕ → Option Header
  pub heap_base : ℕ
  pub malloc_lock : Bool
  pub bytes : Memory

-- `fault` is an access to an address with no header, `spin` a wait for a lock that nobody releases.
pub data Outcome (A : Type 0) : Type 0 where
  done : A → Arena → Outcome A
  fault : Outcome A
  spin : Outcome A
  out_of_fuel : Outcome A

abbrev pub Step : Type 0 → Type 0
Step A = Arena → Outcome A

module _ {A B : Type 0} where
  infixl 5 ◌>>=◌ ◌>>◌
  abbrev pub continue : Outcome A → (A → Step B) → Outcome B
  continue (done x h) next = next x h
  continue fault next = fault
  continue spin next = spin
  continue out_of_fuel next = out_of_fuel

  abbrev pub ◌>>=◌ : Step A → (A → Step B) → Step B
  ◌>>=◌ first next h = continue (first h) next

  abbrev pub ◌>>◌ : Step A → Step B → Step B
  ◌>>◌ first next h = continue (first h) (λ _. next)

abbrev pub magic_free : ℕ
magic_free = 0xDEADBEEF

abbrev pub magic_used : ℕ
magic_used = 0xBA5EBA11

abbrev pub meta_size : ℕ
meta_size = 32

abbrev pub size_max : ℕ
size_max = 2 ^ 32 - 1

unfoldable pub put : (ℕ → Option Header) → ℕ → Header → ℕ → Option Header
put hs p h a = if a == p then some h else hs a

pub load : ℕ → Step Header
load p h = elim (h.headers p) [ none ↦ fault | some b ↦ done b h ]

pub store : ℕ → Header → Step (Unit {0})
store p b h = done tt (record h { headers = put h.headers p b })

pub modify : ℕ → (Header → Header) → Step (Unit {0})
modify p f = do b ← load p; store p (f b)

pub lock : Step (Unit {0})
lock h = if h.malloc_lock then spin else done tt (record h { malloc_lock = true })

pub unlock : Step (Unit {0})
unlock h = done tt (record h { malloc_lock = false })

-- `(size + (ALIGNMENT - 1)) & ~(ALIGNMENT - 1)`
pub align : ℕ → ℕ
align size = bit_and ((size + 15) % word) (word - 16)

pub sub_word : ℕ → ℕ → ℕ
sub_word a b = (a + word - b) % word

pub get_block_ptr : ℕ → ℕ
get_block_ptr ptr = sub_word ptr meta_size

pub payload : ℕ → ℕ
payload block = (block + meta_size) % word

pub is_valid_block : ℕ → Step Bool
is_valid_block block =
    if block == 0
    then done false
    else (do b ← load block; done (b.magic == magic_used || b.magic == magic_free))

-- `if(p) p->prev = q;`
pub link_back : (p q : ℕ) → Step (Unit {0})
link_back p q = if p == 0 then done tt else modify p (λ b. record b { prev = q })

pub split_block : (block size : ℕ) → Step (Unit {0})
split_block block size = do
  b ← load block
  if leb ((size + meta_size + 16) % word) b.size
      then (do
        let new_block = (block + meta_size + size) % word
        store new_block (header (sub_word (sub_word b.size size) meta_size) b.next block magic_free)
        modify block (λ c. record c { size = size; next = new_block })
        link_back b.next new_block)
      else done tt

-- The end of a block, where an adjacent one begins.
pub block_end : (block size : ℕ) → ℕ
block_end block size = (block + meta_size + size) % word

-- The first half of `coalesce`: the block takes in a free successor that it is adjacent to.
pub merge_next : ℕ → Step (Unit {0})
merge_next block = do
  b ← load block
  if b.next == 0 then done tt else (do
    n ← load b.next
    if n.magic == magic_free && block_end block b.size == b.next
        then (do
          modify block
              (λ c. record c { size = (c.size + meta_size + n.size) % word; next = n.next })
          link_back n.next block)
        else done tt)

-- The second half: a free predecessor takes in the block.
pub merge_prev : ℕ → Step ℕ
merge_prev block = do
  b ← load block
  if b.prev == 0 then done block else (do
    p ← load b.prev
    if p.magic == magic_free && block_end b.prev p.size == block
        then (do
          modify b.prev
              (λ c. record c { size = (c.size + meta_size + b.size) % word; next = b.next })
          link_back b.next b.prev
          done b.prev)
        else done block)

pub coalesce : ℕ → Step ℕ
coalesce block = do merge_next block; merge_prev block

-- `(total_size + PAGE_SIZE - 1) & ~(PAGE_SIZE - 1)`
pub page_align : ℕ → ℕ
page_align total = bit_and ((total + 4095) % word) (word - 4096)

-- The kernel's part: a fresh region of zero bytes.
pub map_bytes : (block n : ℕ) → Step (Unit {0})
map_bytes block n h =
    done tt (record h { bytes = λ a. if inside block n a then some 0 else h.bytes a })

-- `if(last) last->next = block;`
pub link_last : (last block : ℕ) → Step (Unit {0})
link_last last block = if last == 0 then done tt else modify last (λ c. record c { next = block })

-- `if(!heap_base) heap_base = block;`
pub set_base : ℕ → Step (Unit {0})
set_base block h = done tt (if h.heap_base == 0 then record h { heap_base = block } else h)

pub request_space : (mmap : ℕ → Option ℕ) → (last size : ℕ) → Step ℕ
request_space mmap last size =
    if leb word (size + meta_size)
    then done 0
    else (let alloc_size = page_align (size + meta_size) in
        if ltb alloc_size (size + meta_size) then done 0 else elim (mmap alloc_size) [
          | none ↦ done 0
          | some block ↦ (do
            map_bytes block alloc_size
            store block (header (sub_word alloc_size meta_size) 0 last magic_used)
            link_last last block
            done block)
        ])

-- The loop of `malloc`: the first free block that is large enough, or 0, and the last block seen.
pub search_free : (fuel block last size : ℕ) → Step (ℕ × ℕ)
search_free zero block last size = λ _. out_of_fuel
search_free (suc k) block last size = if block == 0 then done (0, last) else (do
  b ← load block
  if b.magic == magic_free && leb size b.size
      then done (block, last)
      else search_free k b.next block size)

-- What `malloc` does once the loop has ended.
pub take_block : ℕ → ℕ → Step ℕ
take_block block size = do
  modify block (λ c. record c { magic = magic_used })
  split_block block size
  unlock
  done (payload block)

pub extend_heap : (mmap : ℕ → Option ℕ) → (last size : ℕ) → Step ℕ
extend_heap mmap last size = do
  block ← request_space mmap last size
  if block == 0 then (do unlock; done 0) else (do
    set_base block
    split_block block size
    modify block (λ c. record c { magic = magic_used })
    unlock
    done (payload block))

pub malloc : (fuel : ℕ) (mmap : ℕ → Option ℕ) (size : ℕ) → Step ℕ
malloc fuel mmap size = if size == 0 || ltb (size_max - meta_size) size then done 0 else (do
  lock
  base ← (λ h. done h.heap_base h)
  (block, last) ← search_free fuel base 0 (align size)
  if block == 0 then extend_heap mmap last (align size) else take_block block (align size))

pub free : ℕ → Step (Unit {0})
free ptr = if ptr == 0 then done tt else if not (bit_and ptr 15 == 0) then done tt else (do
  lock
  let block = get_block_ptr ptr
  valid ← is_valid_block block
  if not valid then unlock else (do
    b ← load block
    if not (b.magic == magic_used)
        then unlock
        else (do modify block (λ c. record c { magic = magic_free }); coalesce block; unlock)))
