-- ===== src/Regex/Search.antt =====
-- The search of src/c/regex/regexec.c over all starts: the leftmost match, and the longest from
-- there.
use small_lib_c.Base.{
  ◌^◌, ℕ, zero, suc, ◌+◌, ◌-◌, ◌≤◌, ◌<◌, ◌≡◌, refl, List, ◌∷◌, ◌++◌, false, Option, none, some, inl,
  inr, arith, length, get_elem?, take, replicate, ltb, ◌==◌, Bool-cases, ==_iff, subst, ap,
  Option-cases,
}
use small_lib_c.Regex.{failed, error, nomatch, has_flag, reg_nosub}
use small_lib_c.Regex.Exec.{Env, Span, search, search_at, report, Answer, found, failure}
use small_lib_c.Regex.Graph.{Accepts, Fits, Reaches-le}
use small_lib_c.Regex.Scan.{search_at-step, search_at-Scanned}

-- What an answer says of the matches, `Match s e` being one of the bytes from s to e of a subject of
-- n bytes: it shows the leftmost match, and the longest of those; or there is none.
pub data Leftmost (Match : ℕ → ℕ → Type 0) (n cflags nmatch : ℕ) : Answer → Type 0 where
  hit :
      (s e : ℕ) (shown : Option (List Span))
      → s ≤ n
      → Match s e
      → ((s' e' : ℕ) → Match s' e' → s ≤ s')
      → ((e' : ℕ) → Match s e' → e' ≤ e)
      → (has_flag cflags reg_nosub ≡ false
          → 0 < nmatch
          → (rest : List Span) × (shown ≡ some ((some s, some e) ∷ rest)))
      → Leftmost Match n cflags nmatch (found shown)
  miss :
      ((s e : ℕ) → s ≤ n → ¬ Match s e) → Leftmost Match n cflags nmatch (failure (error nomatch))

report_first :
    (env : Env) (nmatch : ℕ) (first : Span) (rest : List Span)
    → has_flag env.cflags reg_nosub ≡ false
    → 0 < nmatch
    → (more : List Span) × (report env nmatch (first ∷ rest) ≡ some (first ∷ more))
unfolding report
report_first env zero first rest spans some_room = absurd (omega arith)
report_first env (suc k) first rest spans some_room =
    let more : (suc k == 0) ≡ false = ground arith in
    (take k rest ++ replicate (suc k - env.nmatch) (none, none), rw (spans, more) refl)

module _ (env : Env) (root nmatch : ℕ) (fits : Fits env) (inside : root < length env.nfa) where
  abbrev Match : ℕ → ℕ → Type 0
  Match s e = Accepts env root s e

  report_lem :
      (s n : ℕ) (best_m : List Span)
      → (has_flag env.cflags reg_nosub ≡ false
          → (rest : List Span) × (best_m ≡ (some s, some (s + n)) ∷ rest))
      → has_flag env.cflags reg_nosub ≡ false
      → 0 < nmatch
      → (rest : List Span) × (report env nmatch best_m ≡ some ((some s, some (s + n)) ∷ rest))
  report_lem s n best_m shown spans some_room =
      let (rest, e) = shown spans in
      rw e (report_first env nmatch (some s, some (s + n)) rest spans some_room)

  pub search-Leftmost :
      (k start step : ℕ) (handled : List ℕ)
      → step + 1 < 2 ^ 31
      → length env.str < 2 ^ 27
      → start + k ≡ length env.str + 1
      → ((p h : ℕ) → get_elem? handled p ≡ some h → h ≤ step)
      → length handled ≡ length env.nfa
      → ((s e : ℕ) → s < start → ¬ Match s e)
      → Leftmost Match
          (length env.str)
          env.cflags
          nmatch
          (search env (some root) nmatch k start step handled)
  unfolding search
  search-Leftmost zero start step handled few short end old marks none_before =
      miss (λ s e h. none_before s e (omega arith))
  search-Leftmost (suc k) start step handled few short end old marks none_before =
      let r = (search_at env (some root) start step handled).1 in
      let sc =
        search_at-Scanned env root start fits inside step handled old marks (omega arith) few
          short in
      let running : failed r.status ≡ false = ap failed sc.ok in
      elim (Option-cases r.best_len) [
        | inl e ↦
            let no_match : (e' : ℕ) → ¬ Match start e' = λ e' acc. rw e at (sc.longest e' acc) in
            rw (running, e)
              (search-Leftmost k (suc start) (search_at env (some root) start step handled).0
                r.handled (search_at-step env (some root) start step handled few short) short
                (omega arith) sc.recent sc.marks
                (λ s e' h acc. elim (Bool-cases (s == start)) [
                  | inl y ↦ no_match e' (subst (λ x. Match x e') ((==_iff s start).0 y) acc)
                  | inr n ↦ none_before s e' (ground (arith, n, h)) acc
                ]))
        | inr (n, e) ↦
            rw (running, e)
              (hit start (start + n) (report env nmatch r.best_m) (omega arith) (sc.best n e)
                (λ s' e' acc. elim (Bool-cases (ltb s' start)) [
                  | inl y ↦ absurd (none_before s' e' (ground (arith, y)) acc)
                  | inr z ↦ ground (arith, z)
                ])
                (λ e' acc.
                  let far : e' - start ≤ n = rw e at (sc.longest e' acc) in
                  omega (arith, far, Reaches-le env acc.reached))
                (report_lem start n r.best_m (sc.shown n e)))
      ]
