-- ===== src/Strings/Errors.antt =====
-- Error messages: src/c/string/strerror.c. The static buffer is the string that it ends up with.
pub mod Message
mod Samples
use Prim.Native.String.{String}
use small_lib_c.Base.{
  ◌&&◌, ◌^◌, ℕ, zero, suc, ◌+◌, ◌-◌, ◌/◌, ◌%◌, Bool, true, false, Option, none, some, List, [], ◌∷◌,
  ◌++◌, leb, ◌==◌, if◌then◌else◌, length, take, get_elem?,
}
use small_lib_c.Base.Text.{codes}
use small_lib_c.Base.Int.{ℤ, pos, negsuc, abs, is_negative}

-- The cases of the switch, from 0 on.
abbrev pub messages : List String
messages =
    "Success" ∷ "Action prohibited" ∷ "Entity not found" ∷ "Process lookup failed"
    ∷ "System call interrupted" ∷ "I/O failure" ∷ "Device not configured" ∷ "Argument list too big"
    ∷ "Invalid executable format" ∷ "Invalid file descriptor" ∷ "No child processes found"
    ∷ "Deadlock prevented" ∷ "Out of memory" ∷ "Access forbidden" ∷ "Invalid memory address"
    ∷ "Block device required" ∷ "Device in use" ∷ "File already exists" ∷ "Link across devices"
    ∷ "Device does not support operation" ∷ "Path is not a directory" ∷ "Path is a directory"
    ∷ "Invalid argument provided" ∷ "System file limit reached" ∷ "Process file limit reached"
    ∷ "Inappropriate IOCTL" ∷ "Executable file is busy" ∷ "File size too large"
    ∷ "No space on device" ∷ "Illegal seek operation" ∷ "Filesystem is read-only" ∷ "Too many links"
    ∷ "Broken pipe" ∷ "Argument out of domain" ∷ "Result out of range"
    ∷ "Resource unavailable try again" ∷ "Operation in progress" ∷ "Operation currently proceeding"
    ∷ "Not a socket" ∷ "Dest address needed" ∷ "Message too huge" ∷ "Protocol wrong type"
    ∷ "Protocol unavailable" ∷ "Protocol unsupported" ∷ "Socket type unsupported" ∷ "Not supported"
    ∷ "Protocol family unsupported" ∷ "Addr family unsupported" ∷ "Address in use"
    ∷ "Cannot assign address" ∷ "Network down" ∷ "Network unreachable" ∷ "Network reset connection"
    ∷ "Connection aborted locally" ∷ "Connection reset by peer" ∷ "Buffer space exhausted"
    ∷ "Socket connected" ∷ "Socket not connected" ∷ "Socket shutdown cannot send" ∷ "Too many refs"
    ∷ "Request timed out" ∷ "Connection refused" ∷ "Symlink loop detected" ∷ "Filename too long"
    ∷ "Host down" ∷ "No route to host" ∷ "Directory not empty" ∷ "Process limit exceeded"
    ∷ "User limit exceeded" ∷ "Quota exceeded" ∷ "Stale file handle" ∷ "Remote path too deep"
    ∷ "Bad RPC structure" ∷ "RPC version mismatch" ∷ "RPC program unavailable"
    ∷ "Program version mismatch" ∷ "Bad RPC procedure" ∷ "No locks available" ∷ "Not implemented"
    ∷ "Wrong file type" ∷ "Auth error" ∷ "Auth required" ∷ "Power off" ∷ "Device error"
    ∷ "Value overflow" ∷ "Bad executable" ∷ "Wrong CPU type" ∷ "Library version mismatch"
    ∷ "Corrupt Mach-O" ∷ "Canceled" ∷ "ID removed" ∷ "No message" ∷ "Illegal byte seq"
    ∷ "Attr not found" ∷ "Bad message" ∷ "Reserved (EMULTIHOP)" ∷ "No data on stream"
    ∷ "Reserved (ENOLINK)" ∷ "No stream resources" ∷ "Not a stream" ∷ "Protocol error"
    ∷ "Stream timeout" ∷ "Op not supported on socket" ∷ "No policy" ∷ "Not recoverable"
    ∷ "Owner died" ∷ "Output queue full" ∷ []

-- `none` is the switch's default.
pub resolve_err_text : ℤ → Option String
resolve_err_text (pos n) = get_elem? messages n
resolve_err_text (negsuc n) = none

-- What a buffer of `cap` bytes holds of a text after util_strcpy.
pub util_strcpy : List ℕ → (cap : ℕ) → List ℕ
util_strcpy src cap = take (cap - 1) src

-- `temp_num`, its last entry first: `while(val > 0) { temp_num[t_idx++] = (val % 10) + '0'; val /= 10; }`
pub push_digits : (fuel val : ℕ) → List ℕ → List ℕ
push_digits zero val temp_num = temp_num
push_digits (suc k) val temp_num =
    if val == 0 then temp_num else push_digits k (val / 10) ((val % 10 + 48) ∷ temp_num)

pub unsigned_digits : ℕ → List ℕ
unsigned_digits val = if val == 0 then b'0' ∷ [] else push_digits 10 val []

abbrev pub base_msg : List ℕ
base_msg = codes "Unknown error: "

-- `-code` of an `int`: INT_MIN has no negative, and its negation no defined behaviour.
unfoldable pub magnitude : ℤ → Option ℕ
magnitude code = if is_negative code && abs code == 2 ^ 31 then none else some (abs code)

-- `none` is undefined behaviour, for INT_MIN.
pub format_unknown : ℤ → (cap : ℕ) → Option (List ℕ)
format_unknown code cap =
    let buf = take (cap - 1) base_msg in
    let signed = buf ++ (if is_negative code then b'-' ∷ [] else []) in
    if leb (cap - 1) (length buf) then some buf else elim (magnitude code) [
      | none ↦ none
      | some val ↦ some (
          if leb (cap - 1) (length signed)
          then signed
          else signed ++ take (cap - 1 - length signed) (unsigned_digits val))
    ]

pub strerror : ℤ → Option (List ℕ)
strerror errnum = elim (resolve_err_text errnum) [
  | some text ↦ some (util_strcpy (codes text) 256)
  | none ↦ format_unknown errnum 256
]
