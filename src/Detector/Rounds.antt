-- ===== src/Detector/Rounds.antt =====
-- session/migration_detect.go, recordScanner.feed: the rounds of its loop against the description byte
-- by byte.
use anytls_x.Base.{
  ℕ, zero, suc, ◌+◌, ◌-◌, ◌≤◌, ◌<◌, ◌≡◌, refl, sym, ap, ◌∙◌, subst, false, ◌⊎◌, inl, inr, List, [],
  ◌∷◌, ◌++◌, arith, length, length-append, length-take, length-drop, take, drop, take-append-drop,
  ltb, ◌==◌, Bool-cases, if_cases, ifs_cases, take-all,
}
use anytls_x.Detector.Scanner.{
  RecordScanner, max_record, open_record, break_record, report_empty, report_once, note_first,
  skip_body, body_take, body_rest, header_rest, feed_round, feed_loop, feed,
}
use anytls_x.Detector.Bytes.{
  finish_header, scan_bytes, scan_bytes-append, scan_bytes-none, scan_bytes-broken, header_run,
  header_run_whole, IsHalfway, IsScanning,
}
use anytls_x.Detector.Bodies.{body_round, feed_body-IsScanning}

module _ {S : Type 0} (on_record : ℕ → ℕ → ℕ → S → S) where
  -- There is nothing left, or the scanner is ready for it.
  abbrev IsGoing : List ℕ → RecordScanner → Type 0
  IsGoing p rs = (p ≡ []) ⊎ ((rs.broken ≡ false) × IsHalfway rs)

  -- A round leaves the bytes that it did not take, and has done what the others do.
  abbrev IsRound : List ℕ → RecordScanner → S → List ℕ × RecordScanner × S → Type 0
  IsRound p rs s r =
      (scan_bytes on_record p rs s ≡ scan_bytes on_record r.0 r.1 r.2)
      × IsGoing r.0 r.1
      × (length r.0 ≤ length p)

  body_rest-IsRound :
      (c : ℕ) (p : List ℕ) (rs : RecordScanner) (s : S)
      → rs.broken ≡ false
      → length rs.hdr ≡ 5
      → 0 < rs.body_left
      → IsRound (c ∷ p) rs s (body_rest on_record (c ∷ p) rs s)
        × (length (body_rest on_record (c ∷ p) rs s).0 < length (c ∷ p))
  unfolding body_rest
  body_rest-IsRound c p rs s h k l = (
    (
      body_round on_record c p rs s h k l,
      inr (feed_body-IsScanning on_record (c ∷ p) rs s h k),
      ground (arith, length-drop (body_take (c ∷ p) rs) (c ∷ p)),
    ),
    ground (arith, length-drop (body_take (c ∷ p) rs) (c ∷ p)),
  )

  -- A record just opened, whose body has not begun in this call.
  body_rest-empty :
      (rs : RecordScanner) (s : S)
      → 0 < rs.body_left
      → rs.got_first ≡ false
      → body_rest on_record [] rs s ≡ ([], rs, s)
  unfolding body_rest report_once note_first skip_body
  body_rest-empty rs s h k = ground arith

  -- What follows a whole header in the same call.
  opened_rest-IsRound :
      (p : List ℕ) (rs : RecordScanner) (s : S)
      → rs.broken ≡ false
      → length rs.hdr ≡ 5
      → 0 < rs.body_left
      → rs.got_first ≡ false
      → IsRound p rs s (body_rest on_record p rs s)
  unfolding scan_bytes
  opened_rest-IsRound [] rs s h k l g =
      subst (λ x. IsRound [] rs s x) (sym (body_rest-empty rs s l g)) (refl, inl refl, omega arith)
  opened_rest-IsRound (c ∷ p) rs s h k l g = (body_rest-IsRound c p rs s h k l).0

  abbrev WholeHeader : List ℕ → RecordScanner × S → List ℕ × RecordScanner × S → Type 0
  WholeHeader p fin r =
      (scan_bytes on_record p fin.0 fin.1 ≡ scan_bytes on_record r.0 r.1 r.2)
      × IsGoing r.0 r.1
      × (length r.0 ≤ length p)

  whole_header :
      (p : List ℕ) (rs : RecordScanner) (s : S)
      → rs.broken ≡ false
      → length rs.hdr ≡ 5
      → WholeHeader p (finish_header on_record rs s) (header_rest on_record p rs s)
  unfolding header_rest finish_header open_record break_record report_empty
  whole_header p rs s h k =
      if_cases (λ (r : List ℕ × RecordScanner × S). WholeHeader p (finish_header on_record rs s) r)
        (ltb (length rs.hdr) 5) _ _ (λ e. absurd (ground arith))
        (λ e.
          ifs_cases (λ (x : RecordScanner × S) (r : List ℕ × RecordScanner × S). WholeHeader p x r)
            (ltb max_record (open_record rs).rec_length) _ _ _ _
            (λ e. (
              scan_bytes-broken on_record p (break_record rs) s refl
                  ∙ sym (scan_bytes-broken on_record [] (break_record rs) s refl),
              inl refl,
              omega arith,
            ))
            (λ e.
              ifs_cases
                (λ (x : RecordScanner × S) (r : List ℕ × RecordScanner × S). WholeHeader p x r)
                ((open_record rs).rec_length == 0) _ _ _ _
                (λ e. (refl, inr (h, inl (omega arith)), omega arith))
                (λ e. opened_rest-IsRound p (open_record rs) s h k (ground arith) refl)))

  abbrev IsShortRound : List ℕ → RecordScanner → S → List ℕ × RecordScanner × S → Type 0
  IsShortRound p rs s r = IsRound p rs s r × (length r.0 < length p)

  header_short :
      (n c : ℕ) (p : List ℕ) (rs : RecordScanner) (s : S)
      → rs.broken ≡ false
      → n ≡ length (c ∷ p)
      → length rs.hdr + length (c ∷ p) < 5
      → IsShortRound
          (c ∷ p)
          rs
          s
          (header_rest on_record (drop n (c ∷ p)) (record rs { hdr = rs.hdr ++ take n (c ∷ p) }) s)
  unfolding header_rest
  header_short n c p rs s h e k =
      if_cases (IsShortRound (c ∷ p) rs s) (ltb (length (rs.hdr ++ take n (c ∷ p))) 5) _ _
        (λ x. (
          (
            header_run on_record (c ∷ p) rs s h k
                ∙ ap (λ q. (record rs { hdr = rs.hdr ++ q }, s)) (sym all)
                ∙ sym (scan_bytes-none on_record (record rs { hdr = rs.hdr ++ take n (c ∷ p) }) s),
            inl refl,
            omega arith,
          ),
          omega arith,
        ))
        (λ x. absurd (ground (arith, length-append rs.hdr (take n (c ∷ p)), ap length all)))
    where
      all : take n (c ∷ p) ≡ c ∷ p
      all = take-all n (c ∷ p) (omega (arith, e))

  header_full :
      (n c : ℕ) (p : List ℕ) (rs : RecordScanner) (s : S)
      → rs.broken ≡ false
      → length rs.hdr < 5
      → length rs.hdr + n ≡ 5
      → n ≤ length (c ∷ p)
      → IsShortRound
          (c ∷ p)
          rs
          s
          (header_rest on_record (drop n (c ∷ p)) (record rs { hdr = rs.hdr ++ take n (c ∷ p) }) s)
  header_full zero c p rs s h l k j = absurd (omega arith)
  header_full (suc m) c p rs s h l k j =
      let more = record rs { hdr = rs.hdr ++ (c ∷ take m p) } in
      let whole =
        whole_header (drop m p) more s h
          (omega (arith, length-append rs.hdr (c ∷ take m p), length-take m p)) in
      (
        (
          ap (λ x. scan_bytes on_record x rs s) (sym (take-append-drop (suc m) (c ∷ p)))
              ∙ scan_bytes-append on_record (c ∷ take m p) (drop m p) rs s
              ∙ ap (λ (r : RecordScanner × S). scan_bytes on_record (drop m p) r.0 r.1)
                  (header_run_whole on_record c (take m p) rs s h (omega (arith, length-take m p)))
              ∙ whole.0,
          whole.1,
          omega (arith, whole.2, length-drop m p),
        ),
        omega (arith, whole.2, length-drop m p),
      )

  feed_round-IsRound :
      (c : ℕ) (p : List ℕ) (rs : RecordScanner) (s : S)
      → rs.broken ≡ false
      → IsHalfway rs
      → IsShortRound (c ∷ p) rs s (feed_round on_record (c ∷ p) rs s)
  unfolding feed_round
  feed_round-IsRound c p rs s h v =
      if_cases (IsShortRound (c ∷ p) rs s) (ltb (length rs.hdr) 5) _ _
        (λ e. elim (Bool-cases (ltb (length (c ∷ p)) (5 - length rs.hdr))) [
          | inl x ↦ header_short _ c p rs s h (ground arith) (ground arith)
          | inr x ↦ header_full _ c p rs s h (ground arith) (ground arith) (ground arith)
        ])
        (λ e. body_rest-IsRound c p rs s h (ground arith) (ground arith))

  -- The loop, with fuel for every byte, does what its bytes do.
  feed_loop-scan_bytes :
      (fuel : ℕ) (p : List ℕ) (rs : RecordScanner) (s : S)
      → length p ≤ fuel
      → IsGoing p rs
      → feed_loop on_record fuel p rs s ≡ scan_bytes on_record p rs s
  unfolding feed_loop scan_bytes
  feed_loop-scan_bytes zero [] rs s h v = refl
  feed_loop-scan_bytes zero (c ∷ p) rs s h v = elim h [ ]
  feed_loop-scan_bytes (suc fuel) [] rs s h v = refl
  feed_loop-scan_bytes (suc fuel) (c ∷ p) rs s h (inl v) = absurd (omega (arith, ap length v))
  feed_loop-scan_bytes (suc fuel) (c ∷ p) rs s h (inr v) =
      let r = feed_round on_record (c ∷ p) rs s in
      let facts = feed_round-IsRound c p rs s v.0 v.1 in
      feed_loop-scan_bytes fuel r.0 r.1 r.2 (omega (arith, facts.1)) facts.0.1 ∙ sym facts.0.0

  pub feed-scan_bytes :
      (p : List ℕ) (rs : RecordScanner) (s : S)
      → IsScanning rs
      → feed on_record p rs s ≡ scan_bytes on_record p rs s
  unfolding feed
  feed-scan_bytes p rs s v =
      if_cases (λ (r : RecordScanner × S). r ≡ scan_bytes on_record p rs s) rs.broken _ _
        (λ e. sym (scan_bytes-broken on_record p rs s e))
        (λ e. feed_loop-scan_bytes (length p) p rs s (omega arith) (inr (e, ground arith)))
