-- ===== src/Allocator/Link.antt =====
-- The steps on single headers, and what `if(next) next->prev = ...` does to the list.
use small_lib_c.Base.{
  ℕ, ◌≡◌, refl, ◌≢◌, Bool, false, Option, some, List, [], ◌∷◌, ◌++◌, arith, ◌==◌,
}
use small_lib_c.Allocator.{Header, Arena, done, put, load, store, modify, link_back}
use small_lib_c.Allocator.Chain.{
  Block, header_of, first_or, last_or, Seg, Absent, Seg-put, Seg-append, Seg-left, Seg-right,
}
use small_lib_c.Allocator.Layout.{
  Placed, Layout, Between, Layout-left, Layout-right, Layout-between, Layout-replace,
  AllApart-Absent,
}

-- The arena with other headers.
abbrev pub with_headers : Arena → (ℕ → Option Header) → Arena
with_headers h hs = record h { headers = hs }

pub load-some : (p : ℕ) (h : Arena) {b : Header} → h.headers p ≡ some b → load p h ≡ done b h
unfolding load
load-some p h e = rw (e, load)

pub modify-some :
    (p : ℕ) (f : Header → Header) (h : Arena) {b : Header}
    → h.headers p ≡ some b
    → modify p f h ≡ done tt (with_headers h (put h.headers p (f b)))
unfolding modify store
modify-some p f h e = rw (load-some p h e)

pub put_self : (hs : ℕ → Option Header) (p : ℕ) (b : Header) → put hs p b p ≡ some b
unfolding put
put_self hs p b = ground arith

pub put-ne : (hs : ℕ → Option Header) (p q : ℕ) (b : Header) → q ≢ p → put hs p b q ≡ hs q
unfolding put
put-ne hs p q b h = ground arith

-- The headers after the first block's link back is set to `r`.
abbrev pub relinked : (ℕ → Option Header) → List Block → (next r : ℕ) → ℕ → Option Header
relinked hs [] next r = hs
relinked hs (c ∷ cs) next r = put hs c.at (header_of c (first_or cs next) r)

pub link_back-relinked :
    (h : Arena) (prev r : ℕ) (post : List Block)
    → Layout post
    → Seg h.headers prev post 0
    → link_back (first_or post 0) r h ≡ done tt (with_headers h (relinked h.headers post 0 r))
unfolding link_back
link_back-relinked h prev r [] l s = refl
link_back-relinked h prev r (c ∷ cs) l s =
    let live : (c.at == 0) ≡ false = ground arith in
    rw (live, modify-some c.at (λ b. record b { prev = r }) h s.0)

pub Seg-relinked :
    (hs : ℕ → Option Header) (prev r : ℕ) (post : List Block)
    → Layout post
    → Seg hs prev post 0
    → Seg (relinked hs post 0 r) r post 0
Seg-relinked hs prev r [] l s = tt
Seg-relinked hs prev r (c ∷ cs) l s = (
  put_self hs c.at (header_of c (first_or cs 0) r),
  Seg-put hs c.at _ c.at cs 0 (AllApart-Absent c cs l.0 l.2 l.1) s.1,
)

-- It changes no header of blocks that are apart from the list, nor of a single such block.
pub relinked-ne :
    (hs : ℕ → Option Header) (a r : ℕ) (post : List Block)
    → Absent a post
    → relinked hs post 0 r a ≡ hs a
relinked-ne hs a r [] out = refl
relinked-ne hs a r (c ∷ cs) out = put-ne hs c.at a _ (ground arith)

pub Seg-relinked-other :
    (hs : ℕ → Option Header) (prev : ℕ) (xs : List Block) (next r : ℕ) (post : List Block)
    → Layout xs
    → Layout post
    → Between xs post
    → Seg hs prev xs next
    → Seg (relinked hs post 0 r) prev xs next
Seg-relinked-other hs prev xs next r [] lx lp k s = s
Seg-relinked-other hs prev xs next r (c ∷ cs) lx lp k s =
    Seg-put hs c.at _ prev xs next (AllApart-Absent c xs lp.0 lx k.0) s

-- The block with another size and state, at the same place.
abbrev pub changed : Block → ℕ → Bool → Block
changed b s u = record b { size = s; used = u }

-- Writing one block's header changes that block of the list.
pub Seg-changed :
    (hs : ℕ → Option Header) (pre post : List Block) (b : Block) (s : ℕ) (u : Bool)
    → Layout (pre ++ b ∷ post)
    → Seg hs 0 (pre ++ b ∷ post) 0
    → Seg
        (put hs b.at (header_of (changed b s u) (first_or post 0) (last_or 0 pre)))
        0
        (pre ++ changed b s u ∷ post)
        0
Seg-changed hs pre post b s u l seg =
    let (placed, apart, l_post) = Layout-right pre (b ∷ post) l in
    let l_pre = Layout-left pre (b ∷ post) l in
    let between = Layout-between pre (b ∷ post) l in
    let old = Seg-right hs 0 pre (b ∷ post) 0 seg in
    let front_part =
      Seg-put hs b.at _ 0 pre b.at (AllApart-Absent b pre placed l_pre between.0)
        (Seg-left hs 0 pre (b ∷ post) 0 seg) in
    let back_part =
      Seg-put hs b.at _ b.at post 0 (AllApart-Absent b post placed l_post apart) old.1 in
    Seg-append _ 0 pre (changed b s u ∷ post) 0 front_part (put_self hs b.at _, back_part)

pub Layout-state :
    (pre post : List Block) (b : Block) (u : Bool)
    → Layout (pre ++ b ∷ post)
    → Layout (pre ++ changed b b.size u ∷ post)
Layout-state pre post b u l =
    let placed : Placed b = (Layout-right pre (b ∷ post) l).0 in
    let placed' : Placed (changed b b.size u) = record {
      above_zero_page = placed.above_zero_page;
      aligned_at = placed.aligned_at;
      aligned_size = placed.aligned_size;
      not_empty = placed.not_empty;
      in_space = placed.in_space;
    } in
    Layout-replace pre (b ∷ []) (changed b b.size u ∷ []) post (λ c p h. h) (placed', tt, tt) l
