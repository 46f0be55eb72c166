-- ===== src/Exit/Samples.antt =====
-- Runs of src/c/stdlib/atexit.c, and the theorem on it at a concrete input.
use small_lib_c.Base.{ℕ, List, [], ◌∷◌, some, ◌≡◌, refl, ◌==◌, if◌then◌else◌}
use small_lib_c.Exit.{no_handlers, atexit, register_all, call_atexit_handlers}
use small_lib_c.Exit.Order.{exit_order}

abbrev quiet : ℕ → List ℕ
quiet func = []

-- The handler 2 registers 7 as it runs.
abbrev busy : ℕ → List ℕ
busy func = if func == 2 then 7 ∷ [] else []

busy_calls :
    call_atexit_handlers busy 9 (register_all no_handlers (1 ∷ 2 ∷ 3 ∷ []))
    ≡ some (3 ∷ 2 ∷ 7 ∷ 1 ∷ [])
unfolding atexit register_all call_atexit_handlers
busy_calls = refl

exit_order_example :
    call_atexit_handlers quiet 33 (register_all no_handlers (1 ∷ 2 ∷ 3 ∷ []))
    ≡ some (3 ∷ 2 ∷ 1 ∷ [])
exit_order_example = exit_order quiet (λ func. refl) (1 ∷ 2 ∷ 3 ∷ [])
