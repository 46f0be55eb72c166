-- ===== src/Allocator/Split.antt =====
-- split_block cuts a block that is large enough into the part asked for and a free rest.
use small_lib_c.Base.{
  ℕ, ◌+◌, ◌-◌, ◌%◌, ◌^◌, ◌≤◌, ◌≡◌, ◌∙◌, true, false, Option, some, List, [], ◌∷◌, ◌++◌, arith,
  if◌then◌else◌, leb, Bool-cases, inl, inr, leb→le,
}
use native.Mathlib.Nat.{mod-eq_of_lt}
use small_lib_c.Allocator.{Header, Arena, done, put, store, split_block, sub_word}
use small_lib_c.Allocator.Chain.{
  Block, header_of, first_or, last_or, Seg, Seg-put, Seg-append, Seg-left, Seg-right,
}
use small_lib_c.Allocator.Layout.{
  Placed, Between, Layout, Covers, AllApart-Absent, Layout-left, Layout-right, Layout-between,
  Layout-replace,
}
use small_lib_c.Allocator.Link.{
  with_headers, load-some, modify-some, put_self, put-ne, relinked, link_back-relinked,
  Seg-relinked, relinked-ne, Seg-relinked-other,
}

abbrev pub front : ℕ → Block → Block
front n b = record b { size = n }

abbrev pub rest : ℕ → Block → Block
rest n b = record { at = b.at + 32 + n; size = b.size - n - 32; used = false }

-- The blocks that stand for `b` after the call.
abbrev pub carve : ℕ → Block → List Block
carve n b = if leb (n + 48) b.size then front n b ∷ rest n b ∷ [] else b ∷ []

module _ (n : ℕ) (b : Block) (placed : Placed b) (n_size : 16 ≤ n) (n_aligned : n % 16 ≡ 0) where
  front-Placed : n ≤ b.size → Placed (front n b)
  front-Placed fits = record {
    above_zero_page = omega arith;
    aligned_at = omega arith;
    aligned_size = omega arith;
    not_empty = omega arith;
    in_space = omega arith;
  }

  rest-Placed : n + 48 ≤ b.size → Placed (rest n b)
  rest-Placed fits = record {
    above_zero_page = omega arith;
    aligned_at = omega arith;
    aligned_size = omega arith;
    not_empty = omega arith;
    in_space = omega arith;
  }

  pub two-Layout : n + 48 ≤ b.size → Layout (front n b ∷ rest n b ∷ [])
  two-Layout fits =
      (front-Placed (omega arith), (inl (omega arith), tt), (rest-Placed fits, tt, tt))

  two-Covers : n + 48 ≤ b.size → Covers (b ∷ []) (front n b ∷ rest n b ∷ [])
  two-Covers fits c c_placed h = (omega arith, (omega arith, tt))

  pub carve-Layout :
      (pre post : List Block) → Layout (pre ++ b ∷ post) → Layout (pre ++ (carve n b ++ post))
  carve-Layout pre post h = elim (Bool-cases (leb (n + 48) b.size)) [
    | inl big ↦
        let fits = leb→le (n + 48) b.size big in
        rw big (
          Layout-replace pre (b ∷ []) (front n b ∷ rest n b ∷ []) post (two-Covers fits)
            (two-Layout fits) h)
    | inr small ↦ rw small h
  ]

-- The headers after a cut.
abbrev cut : (ℕ → Option Header) → ℕ → Block → (prev : ℕ) → List Block → ℕ → Option Header
cut hs n b prev post =
    relinked
      (put (put hs (rest n b).at (header_of (rest n b) (first_or post 0) b.at)) b.at
        (header_of (front n b) (rest n b).at prev))
      post 0 (rest n b).at

module _ (hs : ℕ → Option Header) (n : ℕ) (b : Block) (pre post : List Block)
    (layout : Layout (pre ++ (front n b ∷ rest n b ∷ post)))
    (seg : Seg hs 0 (pre ++ b ∷ post) 0) where
  back : Layout (front n b ∷ rest n b ∷ post)
  back = Layout-right pre (front n b ∷ rest n b ∷ post) layout

  between : Between pre (front n b ∷ rest n b ∷ post)
  between = Layout-between pre (front n b ∷ rest n b ∷ post) layout

  cut-before : Seg (cut hs n b (last_or 0 pre) post) 0 pre b.at
  cut-before =
      let l_pre = Layout-left pre (front n b ∷ rest n b ∷ post) layout in
      let (front_placed, _, (rest_placed, _, l_post)) = back in
      Seg-relinked-other _ 0 pre b.at (rest n b).at post l_pre l_post between.1.1 (
        Seg-put _ b.at _ 0 pre b.at (AllApart-Absent (front n b) pre front_placed l_pre between.0) (
          Seg-put hs (rest n b).at _ 0 pre b.at
            (AllApart-Absent (rest n b) pre rest_placed l_pre between.1.0)
            (Seg-left hs 0 pre (b ∷ post) 0 seg)))

  cut_post :
      Seg
        (put
          (put hs (rest n b).at (header_of (rest n b) (first_or post 0) b.at))
          b.at
          (header_of (front n b) (rest n b).at (last_or 0 pre)))
        b.at
        post
        0
  cut_post =
      let (front_placed, front_apart, (rest_placed, rest_apart, l_post)) = back in
      let old = Seg-right hs 0 pre (b ∷ post) 0 seg in
      Seg-put _ b.at _ b.at post 0
        (AllApart-Absent (front n b) post front_placed l_post front_apart.1)
        (Seg-put hs (rest n b).at _ b.at post 0
          (AllApart-Absent (rest n b) post rest_placed l_post rest_apart) old.1)

  cut-after : Seg (cut hs n b (last_or 0 pre) post) (last_or 0 pre) (front n b ∷ rest n b ∷ post) 0
  cut-after =
      let (front_placed, front_apart, (rest_placed, rest_apart, l_post)) = back in
      let front_out = AllApart-Absent (front n b) post front_placed l_post front_apart.1 in
      let rest_out = AllApart-Absent (rest n b) post rest_placed l_post rest_apart in
      (
        relinked-ne _ b.at (rest n b).at post front_out ∙ put_self _ b.at _,
        (
          relinked-ne _ (rest n b).at (rest n b).at post rest_out
              ∙ put-ne _ b.at (rest n b).at _ (omega arith)
              ∙ put_self hs (rest n b).at _,
          Seg-relinked _ b.at (rest n b).at post l_post cut_post,
        ),
      )

  cut-Seg : Seg (cut hs n b (last_or 0 pre) post) 0 (pre ++ (front n b ∷ rest n b ∷ post)) 0
  cut-Seg = Seg-append _ 0 pre (front n b ∷ rest n b ∷ post) 0 cut-before cut-after

module _ (n : ℕ) (b : Block) (placed : Placed b) (fits : n ≤ b.size) where
  test-eq : (n + 32 + 16) % 2 ^ 32 ≡ n + 48
  test-eq = mod-eq_of_lt (omega arith) ∙ omega arith

  sub_twice : n + 48 ≤ b.size → sub_word (sub_word b.size n) 32 ≡ b.size - n - 32
  unfolding sub_word
  sub_twice room = ground arith

  split_small :
      (h : Arena) (next prev : ℕ)
      → leb (n + 48) b.size ≡ false
      → h.headers b.at ≡ some (header_of b next prev)
      → split_block b.at n h ≡ done tt h
  unfolding split_block
  split_small h next prev small e = rw (load-some b.at h e, test-eq, small)

  split_big :
      (h : Arena) (prev : ℕ) (post : List Block)
      → leb (n + 48) b.size ≡ true
      → h.headers b.at ≡ some (header_of b (first_or post 0) prev)
      → Layout post
      → Seg
          (put
            (put h.headers (rest n b).at (header_of (rest n b) (first_or post 0) b.at))
            b.at
            (header_of (front n b) (rest n b).at prev))
          b.at
          post
          0
      → split_block b.at n h ≡ done tt (with_headers h (cut h.headers n b prev post))
  unfolding split_block store
  split_big h prev post big e l s =
      let room : n + 48 ≤ b.size = leb→le (n + 48) b.size big in
      let new : (b.at + 32 + n) % 2 ^ 32 ≡ b.at + 32 + n = mod-eq_of_lt (omega arith) in
      let left : sub_word (sub_word b.size n) 32 ≡ b.size - n - 32 = sub_twice room in
      let linked =
        link_back-relinked
          (with_headers h (
            put (put h.headers (rest n b).at (header_of (rest n b) (first_or post 0) b.at)) b.at
              (header_of (front n b) (rest n b).at prev)))
          b.at (rest n b).at post l s in
      let kept =
        put-ne h.headers (rest n b).at b.at (header_of (rest n b) (first_or post 0) b.at)
          (omega arith)
        ∙ e in
      rw (load-some b.at h e, test-eq, big, new, left)
        (rw
          (modify-some b.at _
            (with_headers h
              (put h.headers (rest n b).at (header_of (rest n b) (first_or post 0) b.at)))
            kept)
          linked)

-- For a block of the heap and an aligned size that it can hold, split_block leaves a heap in which
-- the block is cut, and which is laid out as before.
pub split_block_lem :
    (h : Arena) (pre post : List Block) (b : Block) (n : ℕ)
    → Seg h.headers 0 (pre ++ b ∷ post) 0
    → Layout (pre ++ b ∷ post)
    → 16 ≤ n
    → n % 16 ≡ 0
    → n ≤ b.size
    → (hs : ℕ → Option Header) × (split_block b.at n h ≡ done tt (with_headers h hs))
      × Seg hs 0 (pre ++ (carve n b ++ post)) 0
      × Layout (pre ++ (carve n b ++ post))
split_block_lem h pre post b n s l n_size n_aligned fits =
    let placed : Placed b = (Layout-right pre (b ∷ post) l).0 in
    let here = (Seg-right h.headers 0 pre (b ∷ post) 0 s).0 in
    let l' = carve-Layout n b placed n_size n_aligned pre post l in
    elim (Bool-cases (leb (n + 48) b.size)) [
      | inl big ↦
          let l2 : Layout (pre ++ (front n b ∷ rest n b ∷ post)) = rw big at l' in
          let l_post = (Layout-right pre (front n b ∷ rest n b ∷ post) l2).2.2 in
          rw big (
            cut h.headers n b (last_or 0 pre) post,
            split_big n b placed fits h (last_or 0 pre) post big here l_post
                (cut_post h.headers n b pre post l2 s),
            cut-Seg h.headers n b pre post l2 s,
            l2,
          )
      | inr small ↦ rw small (h.headers, split_small n b placed fits h _ _ small here, s, l)
    ]
