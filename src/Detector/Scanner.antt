-- ===== src/Detector/Scanner.antt =====
-- session/migration_detect.go, recordScanner: the walk over a stream of TLS records. The callback
-- changes a state that the scanner does not look at, so `feed` passes that state along.
use anytls_x.Base.{
  ℕ, zero, suc, ◌+◌, ◌-◌, ◌*◌, Bool, true, false, ◌&&◌, not, List, [], ◌∷◌, ◌++◌, length, take,
  drop, get_or, ltb, ◌==◌, if◌then◌else◌,
}

-- `hdr` are the header bytes buffered so far: Go's array up to hdrLen.
pub record RecordScanner : Type 0 where
  pub hdr : List ℕ
  pub body_left : ℕ
  pub rec_length : ℕ
  pub rec_type : ℕ
  pub first_byte : ℕ
  pub got_first : Bool
  pub reported : Bool
  pub broken : Bool

abbrev pub fresh_scanner : RecordScanner
fresh_scanner = record {
  hdr = [];
  body_left = 0;
  rec_length = 0;
  rec_type = 0;
  first_byte = 0;
  got_first = false;
  reported = false;
  broken = false;
}

-- The largest body of a TLS record.
abbrev pub max_record : ℕ
max_record = 0x4800

abbrev pub reset_for_next : RecordScanner → RecordScanner
reset_for_next rs = record rs { hdr = [] }

-- The record that a whole header opens.
unfoldable pub open_record : RecordScanner → RecordScanner
open_record rs =
    let len = get_or rs.hdr 3 0 * 256 + get_or rs.hdr 4 0 in
    record rs {
      rec_type = get_or rs.hdr 0 0;
      rec_length = len;
      body_left = len;
      got_first = false;
      reported = false;
      first_byte = 0;
    }

-- A header announces too long a body: Go sets recType and recLength, and nothing else.
unfoldable pub break_record : RecordScanner → RecordScanner
break_record rs = record rs {
  rec_type = get_or rs.hdr 0 0;
  rec_length = get_or rs.hdr 3 0 * 256 + get_or rs.hdr 4 0;
  broken = true;
}

-- The first body byte is noted, and the record reported, when there is a byte.
unfoldable pub note_first : List ℕ → RecordScanner → RecordScanner
note_first [] rs = rs
note_first (c ∷ p) rs = if rs.got_first then rs else record rs { first_byte = c; got_first = true }

-- The body bytes in `p` are skipped, and the record ends with the last of them.
unfoldable pub skip_body : ℕ → RecordScanner → RecordScanner
skip_body n rs =
    let left = rs.body_left - n in
    if left == 0
    then reset_for_next (record rs { body_left = left })
    else record rs { body_left = left }

-- How many bytes of `p` the body takes.
abbrev pub body_take : List ℕ → RecordScanner → ℕ
body_take p rs = if ltb (length p) rs.body_left then length p else rs.body_left

module _ {S : Type 0} (on_record : ℕ → ℕ → ℕ → S → S) where
  -- A record without a body is reported at once.
  unfoldable pub report_empty : RecordScanner → S → RecordScanner × S
  report_empty rs s = (reset_for_next (record rs { reported = true }), on_record rs.rec_type 0 0 s)

  -- The record is reported once its first byte is known.
  unfoldable pub report_once : RecordScanner → S → RecordScanner × S
  report_once rs s =
      if not rs.reported && rs.got_first
      then (record rs { reported = true }, on_record rs.rec_type rs.rec_length rs.first_byte s)
      else (rs, s)

  unfoldable pub feed_body : List ℕ → RecordScanner → S → RecordScanner × S
  unfolding note_first report_once skip_body
  feed_body p rs s =
      let n = if ltb (length p) rs.body_left then length p else rs.body_left in
      let r = report_once (note_first (take n p) rs) s in (skip_body n r.0, r.1)

  -- A round of feed's loop gives what is left of the call with the new states. Where the Go code
  -- returns, nothing is left.
  unfoldable pub body_rest : List ℕ → RecordScanner → S → List ℕ × RecordScanner × S
  unfolding feed_body
  body_rest p rs s = let r = feed_body p rs s in (drop (body_take p rs) p, r.0, r.1)

  -- Behind the header bytes that the call holds.
  unfoldable pub header_rest : List ℕ → RecordScanner → S → List ℕ × RecordScanner × S
  unfolding open_record break_record report_empty body_rest
  header_rest p rs s =
      let opened = open_record rs in
      let empty = report_empty opened s in
      if ltb (length rs.hdr) 5
      then ([], rs, s)
      else (if ltb max_record opened.rec_length
          then ([], break_record rs, s)
          else (if opened.rec_length == 0 then (p, empty.0, empty.1) else body_rest p opened s))

  unfoldable pub feed_round : List ℕ → RecordScanner → S → List ℕ × RecordScanner × S
  unfolding header_rest
  feed_round p rs s =
      let n = if ltb (length p) (5 - length rs.hdr) then length p else 5 - length rs.hdr in
      if ltb (length rs.hdr) 5
      then header_rest (drop n p) (record rs { hdr = rs.hdr ++ take n p }) s
      else body_rest p rs s

  -- Each round takes a byte at least, so the length of `p` is fuel enough.
  unfoldable pub feed_loop : ℕ → List ℕ → RecordScanner → S → RecordScanner × S
  unfolding feed_round
  feed_loop zero p rs s = (rs, s)
  feed_loop (suc fuel) [] rs s = (rs, s)
  feed_loop (suc fuel) (c ∷ p) rs s = let r = feed_round (c ∷ p) rs s in feed_loop fuel r.0 r.1 r.2

  unfoldable pub feed : List ℕ → RecordScanner → S → RecordScanner × S
  unfolding feed_loop
  feed p rs s = if rs.broken then (rs, s) else feed_loop (length p) p rs s
