-- ===== src/Shaper/Writes.antt =====
-- session/record_shaper.go: WriteData, WriteControl and WriteInitialFlush, as the connection and the
-- caller see them.
use anytls_x.Base.{
  ℕ, ◌+◌, ◌≡◌, refl, sym, ◌∙◌, Option, none, some, List, length, ltb, inl, inr, Bool-cases,
}
use anytls_x.Env.{Env, World, Error, Written, conn_write, time_now, set_write_deadline}
use anytls_x.Env.Wire.{Sent, Sent-same, conn_write-Sends}
use anytls_x.Padding.Defs.{PaddingFactory}
use anytls_x.Shaper.Defs.{
  RecordShaper, maybe_refresh_config, pad_control_frame, pad_to_headers_target, or_same, note_write,
  write_deadline, write_data, write_by_deadline, write_initial_flush, write_control,
}
use anytls_x.Shaper.Shaped.{Shaped, pad_control_frame-Shaped, pad_control_frame-OnlyDraws}
use anytls_x.Shaper.Headers.{pad_to_headers_target-Shaped, pad_to_headers_target-OnlyDraws}

-- The shaper is the given one, but that LastWrite is the clock's last reading behind a write that
-- succeeded.
abbrev pub Noted : Env → World → RecordShaper → RecordShaper → Option Error → Type 0
Noted e w before after none =
    (t : ℕ) × (t + 1 ≡ w.reads) × (after ≡ record before { last_write = e.clock t })
Noted e w before after (some err) = after ≡ before

pub note_write-Noted :
    (e : Env) (rs : RecordShaper) (err : Option Error) (w : World)
    → Noted e (note_write e rs err w).1 rs (note_write e rs err w).0 err
      × ((note_write e rs err w).1.sent ≡ w.sent)
      × ((note_write e rs err w).1.deadline ≡ w.deadline)
unfolding note_write time_now
note_write-Noted e rs none w = ((w.reads, refl, refl), refl, refl)
note_write-Noted e rs (some err) w = (refl, refl, refl)

-- What a caller of a control write gets: the count of its own bytes, no deadline left behind, its
-- bytes on the wire with padding at most, and LastWrite moved on success only.
pub record Controlled (e : Env) (rs : RecordShaper) (b : List ℕ) (v : World)
    (r : (RecordShaper × Written) × World) : Type 0 where
  pub counted : r.0.1.n ≡ length b
  pub deadline_reset : r.1.deadline ≡ none
  pub out : List ℕ
  pub shaped : Shaped b out
  pub on_wire : Sent v (r.1) out (r.0.1.error)
  pub noted : Noted e (r.1) rs (r.0.0) (r.0.1.error)

write_by_deadline-Controlled :
    (e : Env) (rs : RecordShaper) (b out : List ℕ) (v w : World)
    → Shaped b out
    → w.sent ≡ v.sent
    → Controlled e rs b v (write_by_deadline e rs out (length b) w)
unfolding write_by_deadline time_now set_write_deadline
write_by_deadline-Controlled e rs b out v w sh same = record {
  counted = refl;
  deadline_reset = note.2;
  out = out;
  shaped = sh;
  on_wire =
      Sent-same armed wrote.1 v (note_write e rs wrote.0.error disarmed).1 out wrote.0.error
        (sym same) note.1 (conn_write-Sends e out armed).sends;
  noted = note.0;
}
  where
    armed : World
    armed = record w { reads = w.reads + 1; deadline = some (e.clock w.reads + write_deadline) }

    wrote : Written × World
    wrote = conn_write e out armed

    disarmed : World
    disarmed = let after = wrote.1 in record after { deadline = none }

    note :
        Noted e
          (note_write e rs wrote.0.error disarmed).1
          rs
          (note_write e rs wrote.0.error disarmed).0
          wrote.0.error
        × ((note_write e rs wrote.0.error disarmed).1.sent ≡ wrote.1.sent)
        × ((note_write e rs wrote.0.error disarmed).1.deadline ≡ none)
    note = note_write-Noted e rs wrote.0.error disarmed

-- WriteControl answers the count of the caller's own bytes, leaves no write deadline, sends those
-- bytes with one waste frame behind them at most, of which only an error loses a suffix, and leaves
-- the refreshed shaper with LastWrite set to the clock's last reading on success, and as it was on
-- an error.
pub write_control-Controlled :
    (e : Env) (pf : PaddingFactory) (rs : RecordShaper) (b : List ℕ) (w : World)
    → Controlled e (maybe_refresh_config pf rs) b w (write_control e pf rs b w)
unfolding write_control
write_control-Controlled e pf rs b w =
    let rs' = maybe_refresh_config pf rs in
    elim (Bool-cases (ltb (length b) rs'.max_target)) [
      | inl small ↦ rw small (
          write_by_deadline-Controlled e rs' b (or_same b (pad_control_frame e rs' b w).0) w
            (pad_control_frame e rs' b w).1 (pad_control_frame-Shaped e rs' b w)
            (pad_control_frame-OnlyDraws e rs' b w).sent_same)
      | inr large ↦ rw large (write_by_deadline-Controlled e rs' b b w w (inl refl) refl)
    ]

-- WriteInitialFlush answers the count of the caller's own bytes, leaves no write deadline, sends
-- those bytes with one waste frame behind them at most, of which only an error loses a suffix, and
-- leaves the refreshed shaper with LastWrite set to the clock's last reading on success, and as it
-- was on an error.
pub write_initial_flush-Controlled :
    (e : Env) (pf : PaddingFactory) (rs : RecordShaper) (b : List ℕ) (w : World)
    → Controlled e (maybe_refresh_config pf rs) b w (write_initial_flush e pf rs b w)
unfolding write_initial_flush
write_initial_flush-Controlled e pf rs b w =
    let rs' = maybe_refresh_config pf rs in
    write_by_deadline-Controlled e rs' b (or_same b (pad_to_headers_target e rs' b w).0) w
      (pad_to_headers_target e rs' b w).1 (pad_to_headers_target-Shaped e rs' b w)
      (pad_to_headers_target-OnlyDraws e rs' b w).sent_same

-- WriteData sends the bytes without padding, of which only an error loses a suffix, leaves the
-- write deadline alone, answers what the connection answered, and moves LastWrite exactly on
-- success.
pub write_data_lem :
    (e : Env) (rs : RecordShaper) (b : List ℕ) (w : World)
    → Sent w (write_data e rs b w).1 b (write_data e rs b w).0.1.error
      × ((write_data e rs b w).1.deadline ≡ w.deadline)
      × ((write_data e rs b w).0.1 ≡ (conn_write e b w).0)
      × Noted e (write_data e rs b w).1 rs (write_data e rs b w).0.0 (write_data e rs b w).0.1.error
unfolding write_data
write_data_lem e rs b w =
    let wrote = conn_write e b w in
    let sent = conn_write-Sends e b w in
    let note = note_write-Noted e rs wrote.0.error wrote.1 in
    (
      Sent-same w wrote.1 w (note_write e rs wrote.0.error wrote.1).1 b wrote.0.error refl note.1
          sent.sends,
      note.2 ∙ sent.deadline_kept,
      refl,
      note.0,
    )
