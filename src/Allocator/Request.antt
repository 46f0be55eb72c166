-- ===== src/Allocator/Request.antt =====
-- request_space: a block of whole pages from mmap, linked behind the last one.
use small_lib_c.Base.{
  ℕ, ◌+◌, ◌-◌, ◌*◌, ◌/◌, ◌%◌, ◌^◌, ◌≤◌, ◌<◌, ◌≡◌, refl, ◌≢◌, sym, ◌∙◌, true, false, Option, none,
  some, List, [], ◌∷◌, ◌++◌, arith, ◌==◌, if◌then◌else◌, leb, ltb, lt→ltb, Bool-cases, inl, inr,
}
use native.Mathlib.Nat.{mod-eq_of_lt}
use small_lib_c.Base.Bits.{round_down_4096}
use small_lib_c.Memory.Region.{inside}
use small_lib_c.Allocator.{
  Header, header, Arena, done, ◌>>◌, put, store, request_space, link_last, page_align, map_bytes,
  sub_word, magic_used,
}
use small_lib_c.Allocator.Chain.{
  Snoc, empty, snoc, at_end, last_or-snoc, Block, header_of, last_or, Seg, Seg-put, Seg-append,
  Seg-left, Seg-right, Absent-left, Absent-right,
}
use small_lib_c.Allocator.Layout.{
  Placed, Layout, AllApart, AllApart-Absent, Layout-left, Layout-right, Layout-between,
}
use small_lib_c.Allocator.Link.{with_headers, modify-some, put_self, put-ne}

-- The block that a mapping of n bytes becomes.
abbrev pub mapped_block : (a n : ℕ) → Block
mapped_block a n = record { at = a; size = n - 32; used = true }

-- What the kernel promises of a mapping: whole pages in the address space, not the first one, that
-- no block of the heap stands in.
abbrev pub MmapFresh : (mmap : ℕ → Option ℕ) → List Block → Type 0
MmapFresh mmap bs =
    (n a : ℕ)
    → mmap n ≡ some a
    → (a % 4096 ≡ 0) × (4096 ≤ a) × (a + n ≤ 2 ^ 32) × AllApart (mapped_block a n) bs

-- The new header and the link from the last block.
module _ (h : Arena) (nb : Block) where
  abbrev written : ℕ → Arena
  written last = with_headers h (put h.headers nb.at (header_of nb 0 last))

  -- What the step leaves behind.
  abbrev Linked : List Block → Type 0
  Linked bs =
      (hs : ℕ → Option Header) × (link_last (last_or 0 bs) nb.at (written (last_or 0 bs))
        ≡ done tt (with_headers h hs))
      × Seg hs 0 (bs ++ nb ∷ []) 0

  link_last_snoc :
      (init : List Block) (b : Block)
      → Layout ((init ++ b ∷ []) ++ nb ∷ [])
      → Seg h.headers 0 (init ++ b ∷ []) 0
      → Linked (init ++ b ∷ [])
  unfolding link_last
  link_last_snoc init b l s =
      let l_new = Layout-right (init ++ b ∷ []) (nb ∷ []) l in
      let l_old = Layout-left (init ++ b ∷ []) (nb ∷ []) l in
      let apart = (Layout-between (init ++ b ∷ []) (nb ∷ []) l).0 in
      let l_init = Layout-left init (b ∷ []) l_old in
      let b_placed : Placed b = (Layout-right init (b ∷ []) l_old).0 in
      let nb_out = AllApart-Absent nb (init ++ b ∷ []) l_new.0 l_old apart in
      let live : (b.at == 0) ≡ false = ground arith in
      let here = (Seg-right h.headers 0 init (b ∷ []) 0 s).0 in
      let ne : b.at ≢ nb.at = (Absent-right nb.at init (b ∷ []) nb_out).0 in
      let kept_header = put-ne h.headers nb.at b.at (header_of nb 0 b.at) ne ∙ here in
      let hs : ℕ → Option Header =
        put (put h.headers nb.at (header_of nb 0 b.at)) b.at (header_of b nb.at (last_or 0 init)) in
      rw (last_or-snoc 0 init b, live)
        (
          hs,
          modify-some b.at (λ c. record c { next = nb.at }) (written b.at) kept_header,
          Seg-append hs 0 (init ++ b ∷ []) (nb ∷ []) 0
              (Seg-append hs 0 init (b ∷ []) nb.at
                (Seg-put _ b.at _ 0 init b.at
                  (AllApart-Absent b init b_placed l_init (Layout-between init (b ∷ []) l_old).0)
                  (Seg-put h.headers nb.at _ 0 init b.at (Absent-left nb.at init (b ∷ []) nb_out)
                    (Seg-left h.headers 0 init (b ∷ []) 0 s)))
                (put_self _ b.at _, tt))
              (rw (last_or-snoc 0 init b)
                (put-ne _ b.at nb.at _ (λ e. ne (sym e)) ∙ put_self h.headers nb.at _, tt)),
        )

  link_last_lem : (bs : List Block) → Layout (bs ++ nb ∷ []) → Seg h.headers 0 bs 0 → Linked bs
  unfolding link_last
  link_last_lem bs l s = go (at_end bs) l s
    where
      go : {cs : List Block} → Snoc cs → Layout (cs ++ nb ∷ []) → Seg h.headers 0 cs 0 → Linked cs
      go empty lay seg = (
        put h.headers nb.at (header_of nb 0 0),
        refl,
        (put_self h.headers nb.at (header_of nb 0 0), tt),
      )
      go (snoc init b) lay seg = link_last_snoc init b lay seg

pub page_align-eq : (n : ℕ) → n + 4095 < 2 ^ 32 → page_align n ≡ (n + 4095) / 4096 * 4096
unfolding page_align
page_align-eq n h =
    let small : (n + 4095) % 2 ^ 32 ≡ n + 4095 = mod-eq_of_lt h in
    rw (small, round_down_4096 (n + 4095) h)

-- Past the last page the sum wraps, and the code sees it by the result being too small.
page_align_wrapped : (n : ℕ) → n < 2 ^ 32 → 2 ^ 32 ≤ n + 4095 → page_align n < n
unfolding page_align
page_align_wrapped n h k =
    let wrap : (n + 4095) % 2 ^ 32 ≡ n + 4095 - 2 ^ 32 = omega arith in
    rw (wrap, round_down_4096 (n + 4095 - 2 ^ 32) (omega arith)) (omega arith)

module _ (mmap : ℕ → Option ℕ) (h : Arena) (last n : ℕ) where
  pub request_large : 2 ^ 32 ≤ n + 4127 → request_space mmap last n h ≡ done 0 h
  unfolding request_space
  request_large large = elim (Bool-cases (leb (2 ^ 32) (n + 32))) [
    | inl over ↦ rw over
    | inr under ↦
        let room : n + 32 < 2 ^ 32 = ground arith in
        let wrapped : ltb (page_align (n + 32)) (n + 32) ≡ true =
          lt→ltb _ _ (page_align_wrapped (n + 32) room (omega arith)) in
        rw (under, wrapped)
  ]

  -- The tests that a smaller size passes.
  request_tests :
      n + 4127 < 2 ^ 32
      → (leb (2 ^ 32) (n + 32) ≡ false) × (ltb (page_align (n + 32)) (n + 32) ≡ false)
  request_tests small =
      let e = page_align-eq (n + 32) (omega arith) in (ground arith, ground (arith, e))

  pub request_refused :
      n + 4127 < 2 ^ 32 → mmap (page_align (n + 32)) ≡ none → request_space mmap last n h ≡ done 0 h
  unfolding request_space
  request_refused small e = let (t1, t2) = request_tests small in rw (t1, t2, e)

  request_granted :
      (a : ℕ)
      → n + 4127 < 2 ^ 32
      → mmap (page_align (n + 32)) ≡ some a
      → request_space mmap last n h
        ≡ (do
          map_bytes a (page_align (n + 32))
          store a (header (sub_word (page_align (n + 32)) 32) 0 last magic_used)
          link_last last a
          done a)
            h
  unfolding request_space
  request_granted a small e = let (t1, t2) = request_tests small in rw (t1, t2, e)

-- The bytes of a new mapping.
abbrev pub zeroed : Arena → (a n : ℕ) → Arena
zeroed h a n = record h { bytes = λ x. if inside a n x then some 0 else h.bytes x }

module _ (mmap : ℕ → Option ℕ) (h : Arena) (bs : List Block) (a n : ℕ)
    (layout : Layout (bs ++ mapped_block a (page_align (n + 32)) ∷ []))
    (chain : Seg h.headers 0 bs 0) (small : n + 4127 < 2 ^ 32)
    (answer : mmap (page_align (n + 32)) ≡ some a) where
  abbrev new_block : Block
  new_block = mapped_block a (page_align (n + 32))

  sub_meta : sub_word (page_align (n + 32)) 32 ≡ page_align (n + 32) - 32
  unfolding sub_word
  sub_meta = let e = page_align-eq (n + 32) (omega arith) in ground (arith, e)

  pub request_space_lem :
      (hs : ℕ → Option Header) × (request_space mmap (last_or 0 bs) n h
        ≡ done a (with_headers (zeroed h a (page_align (n + 32))) hs))
      × Seg hs 0 (bs ++ new_block ∷ []) 0
  unfolding map_bytes store
  request_space_lem =
      let (hs, e, s) = link_last_lem (zeroed h a (page_align (n + 32))) new_block bs layout chain in
      (hs, request_granted mmap h (last_or 0 bs) n a small answer ∙ rw (sub_meta, e), s)
