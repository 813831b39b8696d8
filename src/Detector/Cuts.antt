-- ===== src/Detector/Cuts.antt =====
-- session/migration_detect.go, recordScanner.feed: how the stream is cut into calls.
use anytls_x.Base.{
  ℕ, ◌≡◌, refl, sym, ◌∙◌, subst, inl, inr, List, [], ◌∷◌, ◌++◌, arith, length, length-append, ltb,
  ltb→lt, ◌==◌, if_cases,
}
use anytls_x.Detector.Scanner.{
  RecordScanner, max_record, open_record, break_record, report_empty, feed,
}
use anytls_x.Detector.Bytes.{
  finish_header, take_header, scan_byte, scan_bytes, scan_bytes-append, IsScanning,
}
use anytls_x.Detector.Bodies.{feed_body-IsScanning}
use anytls_x.Detector.Rounds.{feed-scan_bytes}

module _ {S : Type 0} (on_record : ℕ → ℕ → ℕ → S → S) where
  finish_header-IsScanning :
      (rs : RecordScanner) (s : S) → length rs.hdr ≡ 5 → IsScanning (finish_header on_record rs s).0
  unfolding finish_header open_record break_record report_empty
  finish_header-IsScanning rs s k =
      if_cases (λ (r : RecordScanner × S). IsScanning r.0)
        (ltb max_record (open_record rs).rec_length) _ _ (λ e. inl refl)
        (λ e.
          if_cases (λ (r : RecordScanner × S). IsScanning r.0) ((open_record rs).rec_length == 0) _
            _ (λ e. inr (inl (omega arith))) (λ e. inr (inr (k, ground arith))))

  scan_byte-IsScanning :
      (c : ℕ) (rs : RecordScanner) (s : S)
      → IsScanning rs
      → IsScanning (scan_byte on_record c rs s).0
  unfolding scan_byte take_header
  scan_byte-IsScanning c rs s v =
      if_cases (λ (r : RecordScanner × S). IsScanning r.0) rs.broken _ _ (λ e. inl e)
        (λ b.
          if_cases (λ (r : RecordScanner × S). IsScanning r.0) (ltb (length rs.hdr) 5) _ _
            (λ e.
              if_cases (λ (r : RecordScanner × S). IsScanning r.0)
                (ltb (length (rs.hdr ++ (c ∷ []))) 5) _ _ (λ l. inr (inl (ltb→lt _ _ l)))
                (λ l.
                  finish_header-IsScanning (record rs { hdr = rs.hdr ++ (c ∷ []) }) s
                    (ground (arith, length-append rs.hdr (c ∷ [])))))
            (λ e. inr (feed_body-IsScanning on_record (c ∷ []) rs s b (ground arith)).1))

  scan_bytes-IsScanning :
      (p : List ℕ) (rs : RecordScanner) (s : S)
      → IsScanning rs
      → IsScanning (scan_bytes on_record p rs s).0
  unfolding scan_bytes
  scan_bytes-IsScanning [] rs s v = v
  scan_bytes-IsScanning (c ∷ p) rs s v =
      scan_bytes-IsScanning p (scan_byte on_record c rs s).0 (scan_byte on_record c rs s).1
        (scan_byte-IsScanning c rs s v)

  -- feed, in any state that it can reach, leaves such a state, and for any callback a stream handed
  -- over in two calls gives the same scanner and the same state of the callback as in one.
  pub feed-append :
      (p q : List ℕ) (rs : RecordScanner) (s : S)
      → IsScanning rs
      → let r = feed on_record p rs s in
        IsScanning r.0 × (feed on_record (p ++ q) rs s ≡ feed on_record q r.0 r.1)
  feed-append p q rs s v =
      subst
        (λ (r : RecordScanner × S).
          IsScanning r.0 × (feed on_record (p ++ q) rs s ≡ feed on_record q r.0 r.1))
        (sym (feed-scan_bytes on_record p rs s v))
        (
          keep,
          feed-scan_bytes on_record (p ++ q) rs s v
              ∙ scan_bytes-append on_record p q rs s
              ∙ sym (
                  feed-scan_bytes on_record q (scan_bytes on_record p rs s).0
                    (scan_bytes on_record p rs s).1 keep),
        )
    where
      keep : IsScanning (scan_bytes on_record p rs s).0
      keep = scan_bytes-IsScanning p rs s v
