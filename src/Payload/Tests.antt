-- ===== src/Payload/Tests.antt =====
-- Headers of payload.h, written and read.
use streamers.Common.{◌≡◌, refl, pos, negsuc, arith}
use streamers.Payload.{frame_header_parse, frame_header_write}
use streamers.Payload.Roundtrip.{frame_header_parse-write}

frame_header_parse-write_example :
    frame_header_parse (frame_header_write (pos 70000) (pos 5040) (pos 5000))
    ≡ record { size = 70000; pts = pos 5040; dts = pos 5000 }
frame_header_parse-write_example =
    frame_header_parse-write (pos 70000) (pos 5040) (pos 5000) (omega arith) (omega arith)

-- A `dts` of -1 is read as 2 ^ 32 - 1.
negative_run :
    (frame_header_parse (frame_header_write (pos 9) (pos 4) (negsuc 0))).dts ≡ pos 4294967295
unfolding frame_header_parse frame_header_write
negative_run = refl
