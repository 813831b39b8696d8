-- ===== src/Detector/Paired.antt =====
-- session/migration_detect.go, recordScanner.feed: two callbacks whose states are matched by a function
-- see the same records.
use anytls_x.Base.{
  true, ℕ, zero, suc, ◌-◌, ◌≡◌, refl, ap, ◌∙◌, ◌&&◌, not, List, [], ◌∷◌, ◌++◌, length, ltb, ◌==◌,
  if◌then◌else◌, ifs_cases, drop, take,
}
use anytls_x.Detector.Scanner.{
  RecordScanner, max_record, open_record, reset_for_next, report_empty, report_once, note_first,
  skip_body, feed_body, body_rest, header_rest, feed_round, feed_loop, feed, body_take,
}

-- How many bytes of `p` the header takes.
abbrev header_take : List ℕ → RecordScanner → ℕ
header_take p rs = if ltb (length p) (5 - length rs.hdr) then length p else 5 - length rs.hdr

module _ {S T : Type 0} (on_record : ℕ → ℕ → ℕ → S → S) (on_other : ℕ → ℕ → ℕ → T → T) (f : S → T)
    (same : (t n c : ℕ) (s : S) → on_other t n c (f s) ≡ f (on_record t n c s)) where
  abbrev Matches : RecordScanner × S → RecordScanner × T → Type 0
  Matches r q = q ≡ (r.0, f r.1)

  abbrev MatchesRound : List ℕ × RecordScanner × S → List ℕ × RecordScanner × T → Type 0
  MatchesRound r q = q ≡ (r.0, r.1, f r.2)

  report_once-Matches :
      (rs : RecordScanner) (s : S)
      → Matches (report_once on_record rs s) (report_once on_other rs (f s))
  unfolding report_once
  report_once-Matches rs s =
      ifs_cases Matches (not rs.reported && rs.got_first) _ _ _ _
        (λ _.
          ap (λ x. (record rs { reported = true }, x))
            (same rs.rec_type rs.rec_length rs.first_byte s))
        λ _. refl

  body_rest-Matches :
      (p : List ℕ) (rs : RecordScanner) (s : S)
      → MatchesRound (body_rest on_record p rs s) (body_rest on_other p rs (f s))
  unfolding body_rest feed_body
  body_rest-Matches p rs s =
      let n = body_take p rs in
      ap (λ (r : RecordScanner × T). (drop n p, skip_body n r.0, r.1))
        (report_once-Matches (note_first (take n p) rs) s)

  header_rest-Matches :
      (p : List ℕ) (rs : RecordScanner) (s : S)
      → MatchesRound (header_rest on_record p rs s) (header_rest on_other p rs (f s))
  unfolding header_rest report_empty
  header_rest-Matches p rs s =
      ifs_cases MatchesRound (ltb (length rs.hdr) 5) _ _ _ _ (λ _. refl)
        λ _.
          ifs_cases MatchesRound (ltb max_record (open_record rs).rec_length) _ _ _ _ (λ _. refl)
            λ _.
              ifs_cases MatchesRound ((open_record rs).rec_length == 0) _ _ _ _
                (λ _.
                  ap
                    (λ x. (
                      p,
                      reset_for_next (let o = open_record rs in record o { reported = true }),
                      x,
                    ))
                    (same (open_record rs).rec_type 0 0 s))
                λ _. body_rest-Matches p (open_record rs) s

  feed_round-Matches :
      (p : List ℕ) (rs : RecordScanner) (s : S)
      → MatchesRound (feed_round on_record p rs s) (feed_round on_other p rs (f s))
  unfolding feed_round
  feed_round-Matches p rs s =
      ifs_cases MatchesRound (ltb (length rs.hdr) 5) _ _ _ _
        (λ _.
          header_rest-Matches (drop (header_take p rs) p)
            (record rs { hdr = rs.hdr ++ take (header_take p rs) p }) s)
        λ _. body_rest-Matches p rs s

  feed_loop-Matches :
      (fuel : ℕ) (p : List ℕ) (rs : RecordScanner) (s : S)
      → Matches (feed_loop on_record fuel p rs s) (feed_loop on_other fuel p rs (f s))
  unfolding feed_loop
  feed_loop-Matches zero p rs s = refl
  feed_loop-Matches (suc fuel) [] rs s = refl
  feed_loop-Matches (suc fuel) (c ∷ p) rs s =
      let r = feed_round on_record (c ∷ p) rs s in
      ap (λ (q : List ℕ × RecordScanner × T). feed_loop on_other fuel q.0 q.1 q.2)
        (feed_round-Matches (c ∷ p) rs s)
      ∙ feed_loop-Matches fuel r.0 r.1 r.2

  pub feed-Matches :
      (p : List ℕ) (rs : RecordScanner) (s : S)
      → feed on_other p rs (f s) ≡ ((feed on_record p rs s).0, f (feed on_record p rs s).1)
  unfolding feed
  feed-Matches p rs s =
      ifs_cases Matches rs.broken _ _ _ _ (λ _. refl) λ _. feed_loop-Matches (length p) p rs s
