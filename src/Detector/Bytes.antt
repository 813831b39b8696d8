-- ===== src/Detector/Bytes.antt =====
-- session/migration_detect.go, recordScanner.feed: a description of it byte by byte, which does not
-- depend on how the stream is cut into calls.
use anytls_x.Base.{
  ℕ, ◌+◌, ◌<◌, ◌≡◌, refl, sym, ap, ◌∙◌, true, false, ◌⊎◌, List, [], ◌∷◌, ◌++◌, arith, length,
  length-append, append_assoc, append-nil, ltb, ◌==◌, if◌then◌else◌,
}
use anytls_x.Detector.Scanner.{
  RecordScanner, max_record, open_record, break_record, report_empty, feed_body,
}

-- Inside a header, or with body bytes to come.
abbrev pub IsHalfway : RecordScanner → Type 0
IsHalfway rs = (length rs.hdr < 5) ⊎ ((length rs.hdr ≡ 5) × (0 < rs.body_left))

-- So is a scanner that has not given up.
abbrev pub IsScanning : RecordScanner → Type 0
IsScanning rs = (rs.broken ≡ true) ⊎ IsHalfway rs

module _ {S : Type 0} (on_record : ℕ → ℕ → ℕ → S → S) where
  -- What a whole header leads to.
  unfoldable pub finish_header : RecordScanner → S → RecordScanner × S
  finish_header more s =
      let opened = open_record more in
      if ltb max_record opened.rec_length
      then (break_record more, s)
      else (if opened.rec_length == 0 then report_empty on_record opened s else (opened, s))

  unfoldable pub take_header : RecordScanner → S → RecordScanner × S
  take_header more s = if ltb (length more.hdr) 5 then (more, s) else finish_header more s

  -- One byte of the stream.
  unfoldable pub scan_byte : ℕ → RecordScanner → S → RecordScanner × S
  scan_byte c rs s =
      if rs.broken
      then (rs, s)
      else (if ltb (length rs.hdr) 5
          then take_header (record rs { hdr = rs.hdr ++ (c ∷ []) }) s
          else feed_body on_record (c ∷ []) rs s)

  unfoldable pub scan_bytes : List ℕ → RecordScanner → S → RecordScanner × S
  scan_bytes [] rs s = (rs, s)
  scan_bytes (c ∷ p) rs s = let r = scan_byte c rs s in scan_bytes p r.0 r.1

  pub scan_bytes-append :
      (p q : List ℕ) (rs : RecordScanner) (s : S)
      → scan_bytes (p ++ q) rs s ≡ scan_bytes q (scan_bytes p rs s).0 (scan_bytes p rs s).1
  unfolding scan_bytes
  scan_bytes-append [] q rs s = refl
  scan_bytes-append (c ∷ p) q rs s = scan_bytes-append p q (scan_byte c rs s).0 (scan_byte c rs s).1

  pub scan_bytes-none : (rs : RecordScanner) (s : S) → scan_bytes [] rs s ≡ (rs, s)
  unfolding scan_bytes
  scan_bytes-none rs s = refl

  pub scan_bytes-broken :
      (p : List ℕ) (rs : RecordScanner) (s : S) → rs.broken ≡ true → scan_bytes p rs s ≡ (rs, s)
  unfolding scan_bytes scan_byte
  scan_bytes-broken [] rs s h = refl
  scan_bytes-broken (c ∷ p) rs s h = ground (arith, scan_bytes-broken p rs s)

  byte_header :
      (c : ℕ) (rs : RecordScanner) (s : S)
      → rs.broken ≡ false
      → length rs.hdr < 4
      → scan_byte c rs s ≡ (record rs { hdr = rs.hdr ++ (c ∷ []) }, s)
  unfolding scan_byte take_header
  byte_header c rs s h k = ground (arith, length-append rs.hdr (c ∷ []))

  byte_whole :
      (c : ℕ) (rs : RecordScanner) (s : S)
      → rs.broken ≡ false
      → length rs.hdr ≡ 4
      → scan_byte c rs s ≡ finish_header (record rs { hdr = rs.hdr ++ (c ∷ []) }) s
  unfolding scan_byte take_header
  byte_whole c rs s h k = ground (arith, length-append rs.hdr (c ∷ []))

  pub byte_body :
      (c : ℕ) (rs : RecordScanner) (s : S)
      → rs.broken ≡ false
      → length rs.hdr ≡ 5
      → scan_byte c rs s ≡ feed_body on_record (c ∷ []) rs s
  unfolding scan_byte
  byte_body c rs s h k = ground arith

  pub header_run :
      (p : List ℕ) (rs : RecordScanner) (s : S)
      → rs.broken ≡ false
      → length rs.hdr + length p < 5
      → scan_bytes p rs s ≡ (record rs { hdr = rs.hdr ++ p }, s)
  unfolding scan_bytes
  header_run [] rs s h k = ap (λ x. (record rs { hdr = x }, s)) (sym (append-nil rs.hdr))
  header_run (c ∷ p) rs s h k =
      ap (λ (r : RecordScanner × S). scan_bytes p r.0 r.1) (byte_header c rs s h (omega arith))
      ∙ header_run p (record rs { hdr = rs.hdr ++ (c ∷ []) }) s h
          (omega (arith, length-append rs.hdr (c ∷ [])))
      ∙ ap (λ x. (record rs { hdr = x }, s)) (append_assoc rs.hdr (c ∷ []) p)

  pub header_run_whole :
      (c : ℕ) (p : List ℕ) (rs : RecordScanner) (s : S)
      → rs.broken ≡ false
      → length rs.hdr + length (c ∷ p) ≡ 5
      → scan_bytes (c ∷ p) rs s ≡ finish_header (record rs { hdr = rs.hdr ++ (c ∷ p) }) s
  unfolding scan_bytes
  header_run_whole c [] rs s h k = byte_whole c rs s h (omega arith)
  header_run_whole c (d ∷ p) rs s h k =
      ap (λ (r : RecordScanner × S). scan_bytes (d ∷ p) r.0 r.1)
        (byte_header c rs s h (omega arith))
      ∙ header_run_whole d p (record rs { hdr = rs.hdr ++ (c ∷ []) }) s h
          (omega (arith, length-append rs.hdr (c ∷ [])))
      ∙ ap (λ x. finish_header (record rs { hdr = x }) s) (append_assoc rs.hdr (c ∷ []) (d ∷ p))
