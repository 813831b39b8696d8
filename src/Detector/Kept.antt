-- ===== src/Detector/Kept.antt =====
-- session/migration_detect.go, recordScanner.feed: what its callback keeps, it keeps.
use anytls_x.Base.{
  ℕ, zero, suc, ◌-◌, ◌&&◌, not, List, [], ◌∷◌, ◌++◌, length, ltb, ◌==◌, if◌then◌else◌, if_cases,
  drop, take,
}
use anytls_x.Detector.Scanner.{
  RecordScanner, max_record, open_record, report_empty, report_once, note_first, feed_body,
  body_rest, header_rest, feed_round, feed_loop, feed, body_take,
}

-- How many bytes of `p` the header takes.
abbrev header_take : List ℕ → RecordScanner → ℕ
header_take p rs = if ltb (length p) (5 - length rs.hdr) then length p else 5 - length rs.hdr

-- Whatever the callback keeps, a whole call of feed keeps.
module _ {S : Type 0} (on_record : ℕ → ℕ → ℕ → S → S) (Keeps : S → Type 0)
    (kept : (t n c : ℕ) (s : S) → Keeps s → Keeps (on_record t n c s)) where
  report_once-Keeps : (rs : RecordScanner) (s : S) → Keeps s → Keeps (report_once on_record rs s).1
  unfolding report_once
  report_once-Keeps rs s h =
      if_cases (λ (r : RecordScanner × S). Keeps r.1) (not rs.reported && rs.got_first) _ _
        (λ e. kept rs.rec_type rs.rec_length rs.first_byte s h) (λ e. h)

  body_rest-Keeps :
      (p : List ℕ) (rs : RecordScanner) (s : S) → Keeps s → Keeps (body_rest on_record p rs s).2
  unfolding body_rest feed_body
  body_rest-Keeps p rs s h = report_once-Keeps (note_first (take (body_take p rs) p) rs) s h

  header_rest-Keeps :
      (p : List ℕ) (rs : RecordScanner) (s : S) → Keeps s → Keeps (header_rest on_record p rs s).2
  unfolding header_rest report_empty
  header_rest-Keeps p rs s h =
      if_cases (λ (r : List ℕ × RecordScanner × S). Keeps r.2) (ltb (length rs.hdr) 5) _ _ (λ e. h)
        (λ e.
          if_cases (λ (r : List ℕ × RecordScanner × S). Keeps r.2)
            (ltb max_record (open_record rs).rec_length) _ _ (λ e. h)
            (λ e.
              if_cases (λ (r : List ℕ × RecordScanner × S). Keeps r.2)
                ((open_record rs).rec_length == 0) _ _ (λ e. kept (open_record rs).rec_type 0 0 s h)
                (λ e. body_rest-Keeps p (open_record rs) s h)))

  feed_loop-Keeps :
      (fuel : ℕ) (p : List ℕ) (rs : RecordScanner) (s : S)
      → Keeps s
      → Keeps (feed_loop on_record fuel p rs s).1
  unfolding feed_loop feed_round
  feed_loop-Keeps zero p rs s h = h
  feed_loop-Keeps (suc fuel) [] rs s h = h
  feed_loop-Keeps (suc fuel) (c ∷ p) rs s h =
      let r = feed_round on_record (c ∷ p) rs s in
      feed_loop-Keeps fuel r.0 r.1 r.2 (
        if_cases (λ (r : List ℕ × RecordScanner × S). Keeps r.2) (ltb (length rs.hdr) 5) _ _
          (λ e.
            header_rest-Keeps (drop (header_take (c ∷ p) rs) (c ∷ p))
              (record rs { hdr = rs.hdr ++ take (header_take (c ∷ p) rs) (c ∷ p) }) s h)
          (λ e. body_rest-Keeps (c ∷ p) rs s h))

  pub feed-Keeps :
      (p : List ℕ) (rs : RecordScanner) (s : S) → Keeps s → Keeps (feed on_record p rs s).1
  unfolding feed
  feed-Keeps p rs s h =
      if_cases (λ (r : RecordScanner × S). Keeps r.1) rs.broken _ _ (λ e. h)
        (λ e. feed_loop-Keeps (length p) p rs s h)
