-- ===== src/Utf8/Samples.antt =====
-- The euro sign.
use small_lib_c.Base.{◌≡◌, some, arith}
use small_lib_c.Base.Int.{pos}
use small_lib_c.Memory.{Memory, ok}
use small_lib_c.Memory.Region.{Mapped}
use small_lib_c.Strings.Copy.Written.{written}
use small_lib_c.Utf8.{wctomb, mbtowc}
use small_lib_c.Utf8.Encode.{encoded}
use small_lib_c.Utf8.Decode.{mbtowc-wctomb}

abbrev blank : Memory
blank a = some 0

blank-Mapped : Mapped blank 10 4
blank-Mapped a lo hi e = ground arith

mbtowc-wctomb_example :
    (wctomb 10 (pos 0x20AC) blank ≡ ok (pos 3) (written blank 10 (encoded 0x20AC)))
    × (mbtowc 10 4 (written blank 10 (encoded 0x20AC))
        ≡ ok (pos 3, some 0x20AC) (written blank 10 (encoded 0x20AC)))
mbtowc-wctomb_example =
    mbtowc-wctomb blank 10 4 0x20AC (omega arith) blank-Mapped (omega arith) (omega arith)
      (omega arith)
