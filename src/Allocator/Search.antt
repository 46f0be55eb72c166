-- ===== src/Allocator/Search.antt =====
-- The loop of malloc finds the first free block that is large enough.
use small_lib_c.Base.{
  ℕ, zero, suc, ◌<◌, ◌≡◌, refl, ap, ◌∙◌, Bool, true, false, not, ◌&&◌, some, List, [], ◌∷◌, ◌++◌,
  arith, ◌==◌, if◌then◌else◌, leb, Bool-cases, inl, inr, length,
}
use small_lib_c.Allocator.{Arena, done, search_free, magic_free}
use small_lib_c.Allocator.Chain.{Block, first_or, last_or, Seg, header_of, magic_of}
use small_lib_c.Allocator.Layout.{Layout, Placed}
use small_lib_c.Allocator.Link.{load-some}

abbrev pub fits : ℕ → Block → Bool
fits n b = not b.used && leb n b.size

abbrev pub NoneFits : ℕ → List Block → Type 0
NoneFits n [] = Unit
NoneFits n (b ∷ bs) = (fits n b ≡ false) × NoneFits n bs

-- What the loop returns from `last` on.
pub data Found (n : ℕ) (h : Arena) (last : ℕ) (bs : List Block) (k : ℕ) : Type 0 where
  nothing :
      NoneFits n bs
      → search_free k (first_or bs 0) last n h ≡ done (0, last_or last bs) h
      → Found n h last bs k
  found :
      (pre post : List Block) (b : Block)
      → bs ≡ pre ++ b ∷ post
      → NoneFits n pre
      → fits n b ≡ true
      → search_free k (first_or bs 0) last n h ≡ done (b.at, last_or last pre) h
      → Found n h last bs k

pub magic-test : (u : Bool) → (magic_of u == magic_free) ≡ not u
magic-test true = refl
magic-test false = refl

search_step :
    (k n : ℕ) (h : Arena) (last : ℕ) (b : Block) (next : ℕ)
    → Placed b
    → h.headers b.at ≡ some (header_of b next last)
    → search_free (suc k) b.at last n h
      ≡ (if fits n b then done (b.at, last) h else search_free k next b.at n h)
unfolding search_free
search_step k n h last b next placed e =
    let live : (b.at == 0) ≡ false = ground arith in
    rw (live, load-some b.at h e, magic-test b.used)
      (elim (Bool-cases (fits n b)) [ inl y ↦ rw y | inr y ↦ rw y ])

search_end : (k n : ℕ) (h : Arena) (last : ℕ) → search_free (suc k) 0 last n h ≡ done (0, last) h
unfolding search_free
search_end k n h last = refl

-- One more block in front that does not fit.
add_first :
    {k n : ℕ} {h : Arena} {last : ℕ} {b : Block} {bs : List Block}
    → Found n h b.at bs k
    → fits n b ≡ false
    → search_free (suc k) b.at last n h ≡ search_free k (first_or bs 0) b.at n h
    → Found n h last (b ∷ bs) (suc k)
add_first (nothing none_fits e) y step = nothing (y, none_fits) (step ∙ e)
add_first {b} (found pre post c split none_fits z e) y step =
    found (b ∷ pre) post c (ap (λ t. b ∷ t) split) (y, none_fits) z (step ∙ e)

pub search_free-Found :
    (k n : ℕ) (h : Arena) (last : ℕ) (bs : List Block)
    → Seg h.headers last bs 0
    → Layout bs
    → length bs < k
    → Found n h last bs k
search_free-Found zero n h last bs s l fuel = absurd (omega arith)
search_free-Found (suc k) n h last [] s l fuel = nothing tt (search_end k n h last)
search_free-Found (suc k) n h last (b ∷ bs) s l fuel =
    let step = search_step k n h last b (first_or bs 0) l.0 s.0 in
    elim (Bool-cases (fits n b)) [
      | inl y ↦ found [] bs b refl tt y (step ∙ rw y)
      | inr y ↦ add_first (search_free-Found k n h b.at bs s.1 l.2 (omega arith)) y (step ∙ rw y)
    ]
