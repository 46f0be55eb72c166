-- ===== src/Allocator/Merge.antt =====
-- Two adjacent blocks become one, the step that both halves of coalesce make.
use small_lib_c.Base.{
  ℕ, ◌+◌, ◌%◌, ◌^◌, ◌≡◌, ◌∙◌, Option, List, [], ◌∷◌, ◌++◌, arith, ltb, Bool-cases, inl, inr,
}
use native.Mathlib.Nat.{mod-eq_of_lt}
use small_lib_c.Memory.{Memory}
use small_lib_c.Allocator.{Header, Arena, Outcome, done, ◌>>◌, put, modify, link_back, word}
use small_lib_c.Allocator.Chain.{
  Block, header_of, first_or, last_or, Seg, Absent, Seg-put, Seg-append, Seg-left, Seg-right,
}
use small_lib_c.Allocator.Layout.{
  Placed, Layout, Covers, AllApart-Absent, Layout-left, Layout-right, Layout-between,
  Layout-replace, top,
}
use small_lib_c.Allocator.Link.{
  with_headers, modify-some, put_self, put-ne, relinked, link_back-relinked, Seg-relinked,
  relinked-ne, Seg-relinked-other,
}
use small_lib_c.Allocator.Invariant.{Backed, Backed-append, Backed-left, Backed-right}

-- The block that takes in its successor.
abbrev pub join : Block → Block → Block
join b c = record b { size = b.size + 32 + c.size }

-- The code's two writes.
abbrev pub joining : (b c next : ℕ) → Arena → Outcome (Unit {0})
joining b size next = do
  modify b (λ x. record x { size = (x.size + 32 + size) % word; next = next })
  link_back next b

module _ (h : Arena) (pre post : List Block) (b c : Block) (adjacent : top b ≡ c.at)
    (layout : Layout (pre ++ (b ∷ c ∷ post)))
    (seg : Seg h.headers 0 (pre ++ (b ∷ c ∷ post)) 0) where
  back : Layout (b ∷ c ∷ post)
  back = Layout-right pre (b ∷ c ∷ post) layout

  join-Placed : Placed (join b c)
  join-Placed =
      let pb : Placed b = back.0 in
      let pc : Placed c = back.2.0 in
      record {
        above_zero_page = pb.above_zero_page;
        aligned_at = pb.aligned_at;
        aligned_size = omega arith;
        not_empty = omega arith;
        in_space = omega arith;
      }

  join-Covers : Covers (b ∷ c ∷ []) (join b c ∷ [])
  join-Covers d d_placed (inl left, k) = (inl left, tt)
  join-Covers d d_placed (inr right, (inl left, k)) = absurd (omega (arith, d_placed, adjacent))
  join-Covers d d_placed (inr right, (inr beyond, k)) = (inr (omega (arith, adjacent)), tt)

  pub join-Layout : Layout (pre ++ join b c ∷ post)
  join-Layout =
      Layout-replace pre (b ∷ c ∷ []) (join b c ∷ []) post join-Covers (join-Placed, tt, tt) layout

  abbrev joined : ℕ → Option Header
  joined = put h.headers b.at (header_of (join b c) (first_or post 0) (last_or 0 pre))

  joined-Seg :
      (bs : List Block) (prev next : ℕ)
      → Absent b.at bs
      → Seg h.headers prev bs next
      → Seg joined prev bs next
  joined-Seg bs prev next out s = Seg-put h.headers b.at _ prev bs next out s

  pub joining-Seg :
      (hs : ℕ → Option Header) × (joining b.at c.size (first_or post 0) h
        ≡ done tt (with_headers h hs))
      × Seg hs 0 (pre ++ join b c ∷ post) 0
      × (hs c.at ≡ h.headers c.at)
  joining-Seg =
      let old = Seg-right h.headers 0 pre (b ∷ c ∷ post) 0 seg in
      let placed : Placed (join b c) = join-Placed in
      let wrap : (b.size + 32 + c.size) % 2 ^ 32 ≡ b.size + 32 + c.size =
        mod-eq_of_lt (omega (arith, placed)) in
      let l_new = Layout-right pre (join b c ∷ post) join-Layout in
      let l_pre = Layout-left pre (join b c ∷ post) join-Layout in
      let between = Layout-between pre (join b c ∷ post) join-Layout in
      let s_post =
        joined-Seg post c.at 0 (AllApart-Absent (join b c) post placed l_new.2 l_new.1) old.1.1 in
      let s_pre =
        joined-Seg pre 0 b.at (AllApart-Absent (join b c) pre placed l_pre between.0)
          (Seg-left h.headers 0 pre (b ∷ c ∷ post) 0 seg) in
      (
        relinked joined post 0 b.at,
        rw (
          modify-some b.at _ h old.0,
          wrap,
          link_back-relinked (with_headers h joined) c.at b.at post l_new.2 s_post,
        ),
        Seg-append _ 0 pre (join b c ∷ post) 0
            (Seg-relinked-other joined 0 pre b.at b.at post l_pre l_new.2 between.1 s_pre)
            (
              relinked-ne joined b.at b.at post
                    (AllApart-Absent (join b c) post placed l_new.2 l_new.1)
                  ∙ put_self h.headers b.at _,
              Seg-relinked joined c.at b.at post l_new.2 s_post,
            ),
        relinked-ne joined c.at b.at post (AllApart-Absent c post back.2.0 l_new.2 back.2.1)
            ∙ put-ne h.headers b.at c.at _ (omega (arith, back.0, adjacent)),
      )

pub join-Backed :
    (m : Memory) (pre post : List Block) (b c : Block)
    → top b ≡ c.at
    → Backed m (pre ++ (b ∷ c ∷ post))
    → Backed m (pre ++ join b c ∷ post)
join-Backed m pre post b c adjacent k =
    let (kb, (kc, kp)) = Backed-right m pre (b ∷ c ∷ post) k in
    Backed-append m pre (join b c ∷ post) (Backed-left m pre (b ∷ c ∷ post) k) (
      (λ a lo hi. elim (Bool-cases (ltb a c.at)) [
        | inl y ↦ kb a (omega arith) (ground (arith, y, adjacent))
        | inr y ↦ kc a (ground (arith, y)) (omega (arith, adjacent))
      ]),
      kp,
    )
