-- ===== src/Frame/Wire.antt =====
-- session/frame.go: the header that a writer lays out is the header that a reader sees.
use anytls_x.Base.{
  ℕ, ◌+◌, ◌/◌, ◌%◌, ◌^◌, ◌≤◌, ◌<◌, ◌≡◌, refl, some, List, [], ◌∷◌, ◌++◌, arith, length,
  length-append, take-length-append, drop-length-append, append_assoc,
}
use anytls_x.Frame.Defs.{encode, header_cmd, header_stream_id, header_length, read_full}

abbrev pub IsU32 : ℕ → Type 0
IsU32 n = n < 2 ^ 32

abbrev pub FitsFrame : List ℕ → Type 0
FitsFrame p = length p ≤ 0xFFFF

pub length-encode : (cmd sid : ℕ) (p : List ℕ) → length (encode cmd sid p) ≡ 7 + length p
unfolding encode
length-encode cmd sid p = omega arith

-- ReadFull hands back the front when it has the length asked for.
pub read_full-append :
    (n : ℕ) (xs ys : List ℕ) → length xs ≡ n → read_full n (xs ++ ys) ≡ some (xs, ys)
unfolding read_full
read_full-append n xs ys h =
    ground (arith, length-append xs ys, take-length-append xs ys, drop-length-append xs ys)

-- The seven bytes of a header.
pub header_of : ℕ → ℕ → ℕ → List ℕ
header_of cmd sid n =
    cmd
    ∷ (sid / 16777216 % 256)
    ∷ (sid / 65536 % 256)
    ∷ (sid / 256 % 256)
    ∷ (sid % 256)
    ∷ (n / 256 % 256)
    ∷ (n % 256)
    ∷ []

pub encode-header_of :
    (cmd sid : ℕ) (p : List ℕ) → encode cmd sid p ≡ header_of cmd sid (length p) ++ p
unfolding encode header_of
encode-header_of cmd sid p = refl

-- Of an encoded frame with a stream id of 32 bits and a payload of at most 0xFFFF bytes, the first
-- seven bytes give back the command, the stream id and the payload length, and the payload is next.
pub read_header :
    (cmd sid : ℕ) (p rest : List ℕ)
    → IsU32 sid
    → FitsFrame p
    → (read_full 7 (encode cmd sid p ++ rest) ≡ some (header_of cmd sid (length p), p ++ rest))
      × (header_cmd (header_of cmd sid (length p)) ≡ cmd)
      × (header_stream_id (header_of cmd sid (length p)) ≡ sid)
      × (header_length (header_of cmd sid (length p)) ≡ length p)
unfolding header_cmd header_stream_id header_length header_of
read_header cmd sid p rest hs hl = (
  rw (encode-header_of, append_assoc)
      (read_full-append 7 (header_of cmd sid (length p)) (p ++ rest) refl),
  refl,
  omega arith,
  omega arith,
)
