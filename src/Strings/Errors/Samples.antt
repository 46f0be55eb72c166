-- ===== src/Strings/Errors/Samples.antt =====
-- A code with a message and one without.
use small_lib_c.Base.{◌^◌, ◌-◌, none, ◌≡◌, refl, arith}
use small_lib_c.Base.Int.{negsuc}
use small_lib_c.Strings.Errors.{magnitude, format_unknown, resolve_err_text, strerror}
use small_lib_c.Strings.Errors.Message.{Described, strerror-unknown}

strerror-unknown_example : Described (negsuc 4) (strerror (negsuc 4))
unfolding resolve_err_text
strerror-unknown_example = strerror-unknown (negsuc 4) refl (omega arith)

int_min_example : strerror (negsuc (2 ^ 31 - 1)) ≡ none
unfolding strerror format_unknown resolve_err_text magnitude
int_min_example = refl
