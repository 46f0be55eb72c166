-- ===== src/Exit.antt =====
-- src/c/stdlib/atexit.c: the table of handlers. A handler is a value of a type H, and what it
-- registers as it runs is an argument. `none` is the end of the fuel, or a call of a handler that was
-- not registered.
pub mod Order
mod Samples
use small_lib_c.Base.{
  ℕ, zero, suc, ◌+◌, Bool, true, false, Option, none, some, List, [], ◌∷◌, leb, get_elem?, set,
  replicate,
}

abbrev pub atexit_max : ℕ
atexit_max = 32

module _ {ℓ} (H : Type ℓ) where
  pub record Table : Type ℓ where
    pub handlers : List (Option H)
    pub count : ℕ

module _ {ℓ} {H : Type ℓ} where
  -- The static variables as they start.
  abbrev pub no_handlers : Table H
  no_handlers = record { handlers = replicate atexit_max none; count = 0 }

  -- The returned value, and the table.
  unfoldable pub atexit : Table H → H → ℕ × Table H
  atexit t func = elim (leb atexit_max t.count) [
    | true ↦ (1, t)
    | false ↦ (0, record { handlers = set t.handlers t.count (some func); count = t.count + 1 })
  ]

  unfoldable pub register_all : Table H → List H → Table H
  register_all t [] = t
  register_all t (func ∷ funcs) = register_all (atexit t func).1 funcs

  -- The handlers in the order of their calls, `registers` being what each registers as it runs.
  unfoldable pub call_atexit_handlers :
      (registers : H → List H) → (fuel : ℕ) → Table H → Option (List H)
  call_atexit_handlers registers zero t = none
  call_atexit_handlers registers (suc k) t = elim t.count [
    | zero ↦ some []
    | suc n ↦ elim (get_elem? t.handlers n) [
      | none ↦ none
      | some none ↦ none
      | some (some func) ↦
          let left = register_all (record t { count = n }) (registers func) in
          elim (call_atexit_handlers registers k left) [
            | none ↦ none
            | some calls ↦ some (func ∷ calls)
          ]
    ]
  ]
