-- ===== src/Tests/Wire.antt =====
-- Frames on the wire, the generator and the shaper, at concrete bytes.
use anytls_x.Base.{◌+◌, ◌*◌, get_or, ◌≡◌, [], ◌∷◌, ◌++◌, arith, length}
use anytls_x.Frame.Stream.{decode, decode-wire, wire}
use anytls_x.Rand.Defs.{fill_random}
use anytls_x.Rand.Bounds.{OnlyDraws}
use anytls_x.Rand.Drawn.{byte_at, fill_random_draws}
use anytls_x.Shaper.Defs.{append_waste_frame}
use anytls_x.Shaper.Waste.{length-append_waste_frame}
use anytls_x.Tests.Data.{calm, start, hello, hello_frame, hello_frame-IsRead}

decode-wire_example :
    decode (wire (hello_frame ∷ hello_frame ∷ []) ++ (2 ∷ 0 ∷ []))
    ≡ (hello_frame ∷ hello_frame ∷ []) ++ decode (2 ∷ 0 ∷ [])
decode-wire_example =
    decode-wire (hello_frame ∷ hello_frame ∷ []) (2 ∷ 0 ∷ [])
      (hello_frame-IsRead, (hello_frame-IsRead, tt))

fill_random_draws_example :
    (length (fill_random calm 11 start).0 ≡ 11)
    × (get_or (fill_random calm 11 start).0 (8 * 1 + 2) 0
        ≡ byte_at 2 (calm.uint64 (start.draws + 1)))
    × OnlyDraws start (fill_random calm 11 start).1
fill_random_draws_example = fill_random_draws calm 11 1 2 start (omega arith) (omega arith)

length-append_waste_frame_example : length (append_waste_frame calm hello 17 start).0 ≡ 17
length-append_waste_frame_example =
    length-append_waste_frame calm hello 17 start (omega arith) (omega arith)
