-- ===== src/Exit/Order.antt =====
-- The order of the calls in src/c/stdlib/atexit.c.
use small_lib_c.Base.{
  get-inside, ℕ, zero, suc, ◌+◌, ◌≤◌, ◌<◌, ◌≡◌, refl, ◌∙◌, subst, true, false, Option, some, List,
  [], ◌∷◌, leb, get_elem?, set, length, length-set, take, arith, get-set_same, get-set_other,
}
use small_lib_c.Exit.{Table, no_handlers, atexit, register_all, call_atexit_handlers}

module _ {ℓ} {H : Type ℓ} where
  -- The slots below the count hold a stack, its top first.
  abbrev pub Holds : List (Option H) → List H → Type ℓ
  Holds slots [] = Unit
  Holds slots (func ∷ stack) =
      (get_elem? slots (length stack) ≡ some (some func)) × Holds slots stack

  pub record Stacked (t : Table H) (stack : List H) : Type ℓ where
    pub room : length t.handlers ≡ 32
    pub count : t.count ≡ length stack
    pub small : length stack ≤ 32
    pub holds : Holds t.handlers stack

  -- The elements of one list in reverse before another.
  abbrev pub reversed_onto : List H → List H → List H
  reversed_onto [] stack = stack
  reversed_onto (x ∷ xs) stack = reversed_onto xs (x ∷ stack)

  set-Holds :
      (slots : List (Option H)) (i : ℕ) (o : Option H) (stack : List H)
      → length stack ≤ i
      → Holds slots stack
      → Holds (set slots i o) stack
  set-Holds slots i o [] le h = tt
  set-Holds slots i o (func ∷ stack) le (here, h) = (
    get-set_other slots i (length stack) o (λ e. absurd (omega (arith, e, le))) ∙ here,
    set-Holds slots i o stack (omega (arith, le)) h,
  )

  atexit-Stacked :
      (t : Table H) (stack : List H) (func : H)
      → length stack < 32
      → Stacked t stack
      → Stacked (atexit t func).1 (func ∷ stack)
  unfolding atexit
  atexit-Stacked t stack func lt s =
      let free : leb 32 t.count ≡ false = ground (arith, lt, s.count) in
      let (o, e) = get-inside t.handlers t.count (omega (arith, lt, s.count, s.room)) in
      rw (atexit, free)
        (record {
          room = length-set t.handlers t.count (some func) ∙ s.room;
          count = omega (arith, s.count);
          small = omega (arith, lt);
          holds = (
            subst (λ z. get_elem? (set t.handlers t.count (some func)) z ≡ some (some func)) s.count
                (get-set_same t.handlers t.count (some func) e),
            set-Holds t.handlers t.count (some func) stack (omega (arith, s.count)) s.holds,
          );
        })

  register_all-full : (t : Table H) (funcs : List H) → 32 ≤ t.count → register_all t funcs ≡ t
  unfolding register_all atexit
  register_all-full t [] full = refl
  register_all-full t (func ∷ funcs) full =
      let none_free : leb 32 t.count ≡ true = ground (arith, full) in
      rw (register_all, atexit, none_free) (register_all-full t funcs full)

  register_all-Stacked :
      (t : Table H) (stack funcs : List H) (room : ℕ)
      → length stack + room ≡ 32
      → Stacked t stack
      → Stacked (register_all t funcs) (reversed_onto (take room funcs) stack)
  unfolding register_all
  register_all-Stacked t stack [] zero e s = s
  register_all-Stacked t stack [] (suc room) e s = s
  register_all-Stacked t stack (func ∷ funcs) zero e s =
      rw (register_all-full t (func ∷ funcs) (omega (arith, e, s.count))) s
  register_all-Stacked t stack (func ∷ funcs) (suc room) e s =
      register_all-Stacked (atexit t func).1 (func ∷ stack) funcs room (omega (arith, e))
        (atexit-Stacked t stack func (omega (arith, e)) s)

  calls_of :
      (registers : H → List H) (quiet : (func : H) → registers func ≡ []) (stack : List H) (k : ℕ)
      (t : Table H)
      → length stack < k
      → Stacked t stack
      → call_atexit_handlers registers k t ≡ some stack
  unfolding call_atexit_handlers register_all
  calls_of registers quiet stack zero t lt s = absurd (omega arith)
  calls_of registers quiet [] (suc k) t lt s = rw (call_atexit_handlers, s.count) refl
  calls_of registers quiet (func ∷ stack) (suc k) t lt s =
      let (here, below) = s.holds in
      let rest =
        calls_of registers quiet stack k (record t { count = length stack }) (omega (arith, lt))
          (record { room = s.room; count = refl; small = omega (arith, s.small); holds = below }) in
      rw (call_atexit_handlers, s.count, here, quiet func, rest) refl

  no_slots : Stacked no_handlers []
  no_slots = record { room = refl; count = refl; small = omega arith; holds = tt }

  -- Handlers that are registered from the start on, and register none themselves, are called in the
  -- reverse order, the first 32 of them.
  pub exit_order :
      (registers : H → List H)
      → ((func : H) → registers func ≡ [])
      → (funcs : List H)
      → call_atexit_handlers registers 33 (register_all no_handlers funcs)
        ≡ some (reversed_onto (take 32 funcs) [])
  exit_order registers quiet funcs =
      let s = register_all-Stacked no_handlers [] funcs 32 refl no_slots in
      calls_of registers quiet (reversed_onto (take 32 funcs) []) 33
        (register_all no_handlers funcs) (omega (arith, s.small)) s
