-- ===== src/Detector/Bodies.antt =====
-- session/migration_detect.go, recordScanner.feed: the body of a record, taken in one piece and byte
-- by byte.
use anytls_x.Base.{
  ℕ, zero, suc, ◌-◌, ◌≤◌, ◌<◌, ◌≡◌, refl, sym, ap, ◌∙◌, true, false, List, [], ◌∷◌, arith, length,
  length-take, take, drop, take-append-drop,
}
use anytls_x.Detector.Scanner.{
  RecordScanner, report_once, note_first, skip_body, body_take, feed_body,
}
use anytls_x.Detector.Bytes.{scan_bytes, scan_bytes-append, byte_body, IsHalfway}

module _ {S : Type 0} (on_record : ℕ → ℕ → ℕ → S → S) where
  -- Behind its first byte, a body is noted and reported.
  noted :
      (c : ℕ) (p : List ℕ) (rs : RecordScanner) (s : S)
      → let r = (report_once on_record (note_first (c ∷ p) rs) s).0 in
        (r.got_first ≡ true)
        × (r.reported ≡ true)
        × (r.body_left ≡ rs.body_left)
        × (r.hdr ≡ rs.hdr)
        × (r.broken ≡ rs.broken)
  unfolding note_first report_once
  noted c p rs s = ground arith

  skip_twice :
      (n : ℕ) (rs : RecordScanner)
      → 1 < rs.body_left
      → skip_body n (skip_body 1 rs) ≡ skip_body (suc n) rs
  unfolding skip_body
  skip_twice n rs h = ground arith

  known_first :
      (d : ℕ) (p : List ℕ) (rs : RecordScanner) (s : S)
      → rs.got_first ≡ true
      → rs.reported ≡ true
      → report_once on_record (note_first (d ∷ p) rs) s ≡ (rs, s)
  unfolding note_first report_once
  known_first d p rs s h k = ground arith

  -- What the body takes of `p`, with the number of bytes by itself.
  body_step : ℕ → List ℕ → RecordScanner → S → RecordScanner × S
  body_step n p rs s =
      let r = report_once on_record (note_first (take n p) rs) s in (skip_body n r.0, r.1)

  feed_body_step :
      (n : ℕ) (p : List ℕ) (rs : RecordScanner) (s : S)
      → body_take p rs ≡ n
      → feed_body on_record p rs s ≡ body_step n p rs s
  unfolding feed_body body_step
  feed_body_step n p rs s h = ap (λ m. body_step m p rs s) h

  skip_one :
      (rs : RecordScanner)
      → 1 < rs.body_left
      → ((skip_body 1 rs).got_first ≡ rs.got_first)
        × ((skip_body 1 rs).reported ≡ rs.reported)
        × ((skip_body 1 rs).hdr ≡ rs.hdr)
        × ((skip_body 1 rs).broken ≡ rs.broken)
        × ((skip_body 1 rs).body_left ≡ rs.body_left - 1)
  unfolding skip_body
  skip_one rs h = ground arith

  body_run :
      (c : ℕ) (p : List ℕ) (rs : RecordScanner) (s : S)
      → rs.broken ≡ false
      → length rs.hdr ≡ 5
      → length (c ∷ p) ≤ rs.body_left
      → scan_bytes on_record (c ∷ p) rs s ≡ (
        skip_body (length (c ∷ p)) (report_once on_record (note_first (c ∷ p) rs) s).0,
        (report_once on_record (note_first (c ∷ p) rs) s).1,
      )
  unfolding scan_bytes body_step note_first
  body_run c [] rs s h k l =
      byte_body on_record c rs s h k ∙ feed_body_step 1 (c ∷ []) rs s (ground arith)
  body_run c (d ∷ p) rs s h k l =
      ap (λ (x : RecordScanner × S). scan_bytes on_record (d ∷ p) x.0 x.1)
        (byte_body on_record c rs s h k ∙ feed_body_step 1 (c ∷ []) rs s (ground arith))
      ∙ body_run d p (skip_body 1 r.0) r.1 (one.3 ∙ facts.4 ∙ h) (ap length (one.2 ∙ facts.3) ∙ k)
          (omega (arith, one.4, facts.2))
      ∙ ap (λ (x : RecordScanner × S). (skip_body (length (d ∷ p)) x.0, x.1))
          (known_first d p (skip_body 1 r.0) r.1 (one.0 ∙ facts.0) (one.1 ∙ facts.1))
      ∙ ap (λ x. (x, r.1)) (skip_twice (length (d ∷ p)) r.0 (omega (arith, facts.2)))
    where
      r : RecordScanner × S
      r = report_once on_record (note_first (c ∷ []) rs) s

      facts :
          (r.0.got_first ≡ true)
          × (r.0.reported ≡ true)
          × (r.0.body_left ≡ rs.body_left)
          × (r.0.hdr ≡ rs.hdr)
          × (r.0.broken ≡ rs.broken)
      facts = noted c [] rs s

      one :
          ((skip_body 1 r.0).got_first ≡ r.0.got_first)
          × ((skip_body 1 r.0).reported ≡ r.0.reported)
          × ((skip_body 1 r.0).hdr ≡ r.0.hdr)
          × ((skip_body 1 r.0).broken ≡ r.0.broken)
          × ((skip_body 1 r.0).body_left ≡ r.0.body_left - 1)
      one = skip_one r.0 (omega (arith, facts.2))

  -- A call of the body over what is left of a call, and then the rest.
  body_round_at :
      (n c : ℕ) (p : List ℕ) (rs : RecordScanner) (s : S)
      → body_take (c ∷ p) rs ≡ n
      → 0 < n
      → rs.broken ≡ false
      → length rs.hdr ≡ 5
      → scan_bytes on_record (c ∷ p) rs s
        ≡ scan_bytes on_record
            (drop n (c ∷ p))
            (feed_body on_record (c ∷ p) rs s).0
            (feed_body on_record (c ∷ p) rs s).1
  unfolding body_step note_first
  body_round_at zero c p rs s b z h k = absurd (omega (arith, z))
  body_round_at (suc m) c p rs s b z h k =
      ap (λ x. scan_bytes on_record x rs s) (sym (take-append-drop (suc m) (c ∷ p)))
      ∙ scan_bytes-append on_record (c ∷ take m p) (drop (suc m) (c ∷ p)) rs s
      ∙ ap (λ (r : RecordScanner × S). scan_bytes on_record (drop (suc m) (c ∷ p)) r.0 r.1)
          (body_run c (take m p) rs s h k (ground (arith, length-take m p))
            ∙ ap
                (λ x. (
                  skip_body x (report_once on_record (note_first (c ∷ p) rs) s).0,
                  (report_once on_record (note_first (c ∷ p) rs) s).1,
                ))
                {x = length (c ∷ take m p)} {y = suc m} (ground (arith, length-take m p))
            ∙ sym (feed_body_step (suc m) (c ∷ p) rs s b))

  pub body_round :
      (c : ℕ) (p : List ℕ) (rs : RecordScanner) (s : S)
      → rs.broken ≡ false
      → length rs.hdr ≡ 5
      → 0 < rs.body_left
      → scan_bytes on_record (c ∷ p) rs s
        ≡ scan_bytes on_record
            (drop (body_take (c ∷ p) rs) (c ∷ p))
            (feed_body on_record (c ∷ p) rs s).0
            (feed_body on_record (c ∷ p) rs s).1
  body_round c p rs s h k l = body_round_at (body_take (c ∷ p) rs) c p rs s refl (ground arith) h k

  noted_keeps :
      (p : List ℕ) (rs : RecordScanner) (s : S)
      → let r = (report_once on_record (note_first p rs) s).0 in
        (r.body_left ≡ rs.body_left) × (r.hdr ≡ rs.hdr) × (r.broken ≡ rs.broken)
  unfolding note_first report_once
  noted_keeps [] rs s = ground arith
  noted_keeps (c ∷ p) rs s = ground arith

  skip_body-IsScanning :
      (n : ℕ) (rs : RecordScanner)
      → rs.broken ≡ false
      → length rs.hdr ≡ 5
      → ((skip_body n rs).broken ≡ false) × IsHalfway (skip_body n rs)
  unfolding skip_body
  skip_body-IsScanning n rs h k = ground arith

  pub feed_body-IsScanning :
      (p : List ℕ) (rs : RecordScanner) (s : S)
      → rs.broken ≡ false
      → length rs.hdr ≡ 5
      → ((feed_body on_record p rs s).0.broken ≡ false) × IsHalfway (feed_body on_record p rs s).0
  unfolding feed_body
  feed_body-IsScanning p rs s h k =
      let keeps = noted_keeps (take (body_take p rs) p) rs s in
      skip_body-IsScanning (body_take p rs)
        (report_once on_record (note_first (take (body_take p rs) p) rs) s).0 (keeps.2 ∙ h)
        (ap length keeps.1 ∙ k)
