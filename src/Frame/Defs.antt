-- ===== src/Frame/Defs.antt =====
-- session/frame.go. A byte slice is a list of numbers; a frame on the wire is its command byte, the
-- stream id in four bytes, the payload length in two, all big-endian, and the payload.
use anytls_x.Base.{
  ℕ, ◌+◌, ◌*◌, ◌/◌, ◌%◌, Option, none, some, List, [], ◌∷◌, ◌++◌, length, take, drop, get_or, leb,
  if◌then◌else◌,
}

abbrev pub cmd_waste : ℕ
cmd_waste = 0

abbrev pub cmd_syn : ℕ
cmd_syn = 1

abbrev pub cmd_psh : ℕ
cmd_psh = 2

abbrev pub cmd_fin : ℕ
cmd_fin = 3

abbrev pub cmd_settings : ℕ
cmd_settings = 4

abbrev pub cmd_alert : ℕ
cmd_alert = 5

abbrev pub cmd_update_padding_scheme : ℕ
cmd_update_padding_scheme = 6

abbrev pub cmd_synack : ℕ
cmd_synack = 7

abbrev pub cmd_heart_request : ℕ
cmd_heart_request = 8

abbrev pub cmd_heart_response : ℕ
cmd_heart_response = 9

abbrev pub cmd_server_settings : ℕ
cmd_server_settings = 10

abbrev pub cmd_migrate_ready : ℕ
cmd_migrate_ready = 11

abbrev pub cmd_migrate_go : ℕ
cmd_migrate_go = 12

abbrev pub cmd_migrate_carrier : ℕ
cmd_migrate_carrier = 13

abbrev pub cmd_uplink_fin : ℕ
cmd_uplink_fin = 14

abbrev pub header_over_head_size : ℕ
header_over_head_size = 7

abbrev pub max_frame_data_len : ℕ
max_frame_data_len = 0xFFFF

abbrev pub h2_max_frame_payload : ℕ
h2_max_frame_payload = 16384

abbrev pub max_padding_scheme_len : ℕ
max_padding_scheme_len = 16384

pub record Frame : Type 0 where
  pub cmd : ℕ
  pub sid : ℕ
  pub payload : List ℕ

unfoldable pub new_frame : ℕ → ℕ → Frame
new_frame cmd sid = record { cmd = cmd; sid = sid; payload = [] }

-- binary.BigEndian.PutUint16 of uint16(n) and PutUint32 of a uint32: higher bits are lost.
abbrev pub put_uint16 : ℕ → List ℕ
put_uint16 n = (n / 256 % 256) ∷ (n % 256) ∷ []

abbrev pub put_uint32 : ℕ → List ℕ
put_uint32 n = (n / 16777216 % 256) ∷ (n / 65536 % 256) ∷ (n / 256 % 256) ∷ (n % 256) ∷ []

-- The bytes that every writer of a frame lays out by WriteByte, PutUint32, PutUint16 and Write.
unfoldable pub encode : ℕ → ℕ → List ℕ → List ℕ
encode cmd sid payload = cmd ∷ put_uint32 sid ++ (put_uint16 (length payload) ++ payload)

-- rawHeader.Cmd, StreamID and Length, on the seven bytes of a header.
unfoldable pub header_cmd : List ℕ → ℕ
header_cmd h = get_or h 0 0

unfoldable pub header_stream_id : List ℕ → ℕ
header_stream_id h =
    get_or h 1 0 * 16777216 + get_or h 2 0 * 65536 + get_or h 3 0 * 256 + get_or h 4 0

unfoldable pub header_length : List ℕ → ℕ
header_length h = get_or h 5 0 * 256 + get_or h 6 0

-- io.ReadFull of n bytes from what the connection still holds.
unfoldable pub read_full : ℕ → List ℕ → Option (List ℕ × List ℕ)
read_full n input = if leb n (length input) then some (take n input, drop n input) else none
