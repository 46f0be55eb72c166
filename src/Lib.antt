-- ===== src/Lib.antt =====
-- Small-LibC in small parts: the C library's own code over native numbers, with the theorems that
-- make each part correct. Paths are from the repository's root.
--
-- The parts and how they meet. The string functions of src/c/string, src/c/strings and src/c/memory
-- work on one flat memory (Memory), in which an access outside every object is a fault: a theorem
-- that a run ends in `ok` says that the code neither faults nor runs on. The heap of src/c/stdlib
-- keeps its list of headers beside that memory, takes its lock, and calls memset and memcpy on it.
-- The parsers of src/c/stdlib call the classes of src/c/ctype. The compiler's calls for wide
-- division end in src/runtime/c. regexec runs what regcomp returns, and both test bytes with the
-- classes of src/c/ctype, as fnmatch does.
--
--   - Base: shared names, Boolean tests, integers, lists, laws of the bit operations.
--   - Memory: cells, runs, regions and what they hold.
--   - Runtime: src/runtime/c/__udivdi3.c, __divdi3.c and their six companions.
--   - Ctype: src/c/ctype.
--   - Strings.Block: memcpy, memmove, memset, memchr, bcopy, bzero, memccpy.
--   - Strings.Compare: strcmp, strncmp, memcmp, bcmp, strcoll, strcasecmp, strncasecmp.
--   - Strings.Find, Strings.Span, Strings.Copy: the lengths, searches, spans and copies of src/c/string,
--     src/c/strings and src/c/wchar, the wide functions beside those on bytes.
--   - Strings.Substring: strstr.c and wcsstr.c.
--   - Strings.Wide: the blocks and comparisons of src/c/wchar.
--   - Strings.Errors: src/c/string/strerror.c.
--   - Utf8: wctomb, mbtowc and mblen of src/c/stdlib. Utf8.Restartable: mbrtowc.c and wcrtomb.c of
--     src/c/wchar, with the bytes kept between calls; Utf8.Sequences: mbsrtowcs.c and wcsrtombs.c there.
--   - Bsearch: src/c/stdlib/bsearch.c.
--   - Qsort: src/c/stdlib/qsort.c.
--   - Calendar: src/c/time/gmtime.c, against a count of days and of seconds from the year 0.
--     Calendar.Zone: tz_lookup of parser.c, localtime.c and mktime.c there. Calendar.Weeks,
--     Calendar.Directives and Calendar.Strftime: strftime.c; a directive is the list of what it appends.
--     Calendar.Asctime: asctime.c and ctime.c. Calendar.Formats tells the text of a format of strftime
--     without its code.
--   - Exit: src/c/stdlib/atexit.c.
--   - Numbers: strtoll, strtoull, strtol, strtoul and atoll of src/c/stdlib.
--   - Regex: src/c/regex. Regex.Compile and Regex.Parse, with its Brackets and Braces, are regcomp.c, the
--     nodes emitted and the pattern read; Regex.Bracket, Regex.Nfa and Regex.Exec are regexec.c: one
--     bracket, the automaton laid out, and the rounds of threads. Regex.Linked follows the nodes through
--     the compiler, Regex.Literal patterns whose bytes stand for themselves, and Regex.Returned says
--     what regcomp returns. Regex.Language says what nodes spell and what an expression matches; Regex.Placed,
--     Regex.Built and Regex.Assemble follow the automaton against it, Regex.Graph, Regex.Closure,
--     Regex.Steps, Regex.Scan and Regex.Search the rounds; Regex.Correct and Regex.Matching put them
--     together.
--   - Fnmatch: src/c/fnmatch/fnmatch.c, a pattern against a string; Fnmatch.Meaning says which items a
--     pattern reads as and what they match, Fnmatch.Sets and Fnmatch.Glob how patterns are written out of
--     bytes, wildcards and brackets with their parts.
--   - Allocator: src/c/stdlib/malloc.h, malloc.c, free.c; Allocator.Calloc and Allocator.Realloc.
--
-- Conventions. An address is a number; a null pointer is 0 for the heap and `none` for a search. The
-- targets are those of 32 bits: `size_t`, `long` and pointers have 32 bits and wrap, and
-- `struct block_meta` has an aligned size of 32. `char` is signed, so that a comparison of two
-- `char` values is one of signed numbers; `unsigned char` casts are kept. Signed overflow, which C
-- leaves undefined, is `none` in the division runtime and in strerror. A pattern or subject of regcomp, regexec and
-- fnmatch is the list of its bytes before the terminator, and the array of qsort the list of its
-- elements. The year of gmtime is that of the calendar, `tm_year + 1900`. The fields of
-- a `struct tm` are integers whose sums are not bounded; a time is bounded where an offset is added.
--
-- Bounds and fuel. Loops that count down recur on the count. Loops that follow a string or the list
-- of blocks have fuel, one more than the string's length or the number of blocks, and the theorems
-- show that it is enough. The loops of regcomp have fuel, one more than the pattern's length; copies of
-- nodes, build_nfa and add_thread one more than the number of nodes or of instructions. Running out is
-- a status of its own. fnmatch has one more than the pattern's length, qsort one more than the number of
-- elements, gmtime four more than the days over 365, the search of tz_lookup one more than the
-- transitions, iso8601wknum two, which are its calls, mbsrtowcs two more than the bytes of its string,
-- and the table of exit one more than its places.
--
-- Parameters. The kernel is not in the sources: what mmap answers is an argument of the heap, and
-- MmapFresh is what the kernel documents, whole pages in the address space that overlap nothing in
-- use. For regcomp and regexec what realloc, calloc and malloc answer is an argument: `grants n` for an
-- array of n, and a test for each other allocation. Their positions are Options where the code has -1,
-- a status `undefined` stands for what C leaves undefined (a read behind an array, an overflow); the
-- step of regexec is an int, the sizes of its pools are those of a size_t, and other counts below the
-- memory's size are not bounded.
--
-- Not modelled: system calls, inline assembly, streams, regerror and regfree, the files
-- of time zones, locale, glob and wordexp. One thread runs: a lock that is held is an endless
-- wait (`spin`).
pub mod Base
pub mod Runtime
pub mod Ctype
pub mod Memory
pub mod Strings
pub mod Allocator
pub mod Numbers
pub mod Utf8
pub mod Bsearch
pub mod Regex
pub mod Fnmatch
pub mod Qsort
pub mod Calendar
pub mod Exit
