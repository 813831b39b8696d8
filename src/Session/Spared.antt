-- ===== src/Session/Spared.antt =====
-- session/session.go, the SYNACK timer: which streams it spares.
use anytls_x.Base.{
  ◌≤◌, ◌<◌, ◌+◌, ◌%◌, ◌^◌, ℕ, ◌≡◌, ◌≢◌, ◌∙◌, refl, ap, leb, Bool, true, false, Option, some, List,
  [], ◌∷◌, arith, ◌⊎◌, if◌then◌else◌, inl, inr, if_cases, Option-cases,
}
use anytls_x.Env.{Env, Error, syn_ack_timeout}
use anytls_x.Frame.Defs.{new_frame, cmd_fin}
use anytls_x.Session.Defs.{
  Session, Stream, Net, when, emit, log_syn_ack_timeouts, find_stream, put_stream, delete_stream,
  die_once,
}
use anytls_x.Session.Write.{write_control_frame, close}
use anytls_x.Session.Control.{write_control_frame_fails, close-closed}
use anytls_x.Session.Recv.{stream_closed, forget, close_with_error}
use anytls_x.Session.Alive.{close-Quiet}
use anytls_x.Session.Open.{IsSound, Quiet-IsSound, delete_stream-put_stream}
use anytls_x.Session.Ended.{close_with_error-IsSound, not_closed}
use anytls_x.Session.Opened.{write_control_frame-Still}
use anytls_x.Session.Timers.{
  syn_ack_timeout_alert_threshold, should_reap, timeouts, timed_out, reap_session, fire_syn_timer,
}

find_stream-delete_stream :
    (k j : ℕ) (m : List (ℕ × Stream)) → k ≢ j → find_stream k (delete_stream j m) ≡ find_stream k m
unfolding find_stream delete_stream
find_stream-delete_stream k j [] h = refl
find_stream-delete_stream k j ((i, st) ∷ m) h = ground (arith, find_stream-delete_stream k j m h)

-- Every other stream is in the map as before.
abbrev pub Spares : ℕ → Net → Net → Type 0
Spares sid n m = (k : ℕ) → k ≢ sid → find_stream k m.sess.streams ≡ find_stream k n.sess.streams

find_forgotten :
    (k sid : ℕ) (st : Stream) (m old : List (ℕ × Stream))
    → k ≢ sid
    → m ≡ put_stream sid st old
    → find_stream k (delete_stream sid m) ≡ find_stream k old
find_forgotten k sid st m old h eq =
    ap (λ x. find_stream k (delete_stream sid x)) eq
    ∙ ap (find_stream k) (delete_stream-put_stream sid st old)
    ∙ find_stream-delete_stream k sid old h

-- A stream that closes leaves the others alone and the session open, or its FIN fails, which closes the
-- session, and the error is the answer.
abbrev pub ClosesAlone : ℕ → List (ℕ × Stream) → Option Error × Net → Type 0
ClosesAlone sid old r =
    (((k : ℕ) → k ≢ sid → find_stream k r.1.sess.streams ≡ find_stream k old)
      × (r.1.sess.closed ≡ false))
    ⊎ ((err : Error) × (r.0 ≡ some err) × (r.1.sess.closed ≡ true))

stream_closed-ClosesAlone :
    (e : Env) (sid : ℕ) (st : Stream) (old : List (ℕ × Stream)) (n : Net)
    → n.sess.streams ≡ put_stream sid st old
    → n.sess.closed ≡ false
    → ClosesAlone sid old (stream_closed e sid n)
unfolding stream_closed forget
stream_closed-ClosesAlone e sid st old n eq c =
    let sent = write_control_frame e (new_frame cmd_fin sid) n in
    if_cases (ClosesAlone sid old) n.sess.closed _ _ (λ dead. absurd (ground (arith, dead, c)))
      λ _. elim (Option-cases sent.0.error) [
        | inl ok ↦
            let still = write_control_frame-Still e (new_frame cmd_fin sid) n ok in
            inl
              (λ k h. find_forgotten k sid st sent.1.sess.streams old h (still.0 ∙ eq), still.1 ∙ c)
        | inr (err, bad) ↦ elim (write_control_frame_fails e (new_frame cmd_fin sid) n err bad).1 [
          | inl (long, _) ↦ absurd (unfold new_frame in omega arith)
          | inr dead ↦ inr (err, bad, dead)
        ]
      ]

close_with_error-ClosesAlone :
    (e : Env) (sid : ℕ) (err : Error) (st : Stream) (n : Net)
    → n.sess.closed ≡ false
    → ClosesAlone sid n.sess.streams (close_with_error e sid err st n)
unfolding close_with_error
close_with_error-ClosesAlone e sid err st n c =
    if_cases (ClosesAlone sid n.sess.streams) (die_once err st).1 _ _
      (λ _. stream_closed-ClosesAlone e sid (die_once err st).0 n.sess.streams _ refl c)
      λ _. inl ((λ k h. refl), c)

closed_empty : (s : Session) → IsSound s → s.closed ≡ true → s.streams ≡ []
closed_empty s h c = elim h.1 [ inl o ↦ absurd (ground (arith, c, o)) | inr x ↦ x ]

reap_session-closed :
    (e : Env) (k : ℕ) (n : Net)
    → IsSound n.sess
    → ((reap_session e k n).1.sess.closed ≡ true) × ((reap_session e k n).1.sess.streams ≡ [])
reap_session-closed e k n h =
    let m = (when (leb syn_ack_timeout_alert_threshold k) (emit log_syn_ack_timeouts) n).1 in
    let sound =
      if_cases (λ (r : Unit {0} × Net). IsSound r.1.sess) (leb syn_ack_timeout_alert_threshold k) _
        _ (λ _. h) λ _. h in
    let dead = close-closed e m in
    (
      dead,
      closed_empty (close e m).1.sess (Quiet-IsSound m (close e m).1 sound (close-Quiet e m)) dead,
    )

-- The closing of the stream itself, in a session that is not to be reaped.
abbrev pub lone_closing : Env → ℕ → Stream → Net → Option Error × Net
lone_closing e sid st n =
    close_with_error e sid syn_ack_timeout st (record n { sess = timed_out false n.sess })

-- What the timer does with `active` streams counted and `before` timeouts in a row behind it.
abbrev pub Fires : Env → ℕ → ℕ → Stream → Net → Net → Type 0
Fires e active sid st n m =
    (((active ≤ 1) ⊎ (4 ≤ n.sess.consecutive_syn_ack_timeouts))
      × (m.sess.closed ≡ true)
      × (m.sess.streams ≡ []))
    ⊎ ((1 < active)
        × (n.sess.consecutive_syn_ack_timeouts < 4)
        × ((Spares sid n m × (m.sess.closed ≡ false))
            ⊎ ((err : Error) × ((lone_closing e sid st n).0 ≡ some err) × (m.sess.closed ≡ true))))

reap_due :
    (active before : ℕ)
    → active < 2 ^ 31
    → before + 1 < 2 ^ 32
    → should_reap active ((before + 1) % 2 ^ 32) ≡ true
    → (active ≤ 1) ⊎ (4 ≤ before)
unfolding should_reap
reap_due active before small few h = ground (arith, small, few, h)

reap_not_due :
    (active before : ℕ)
    → active < 2 ^ 31
    → before + 1 < 2 ^ 32
    → should_reap active ((before + 1) % 2 ^ 32) ≡ false
    → (1 < active) × (before < 4)
unfolding should_reap
reap_not_due active before small few h = ground (arith, small, few, h)

fired : Env → ℕ → Stream → Net → Bool → Unit {0} × Net
fired e sid st n reap =
    let m =
      (close_with_error e sid syn_ack_timeout st (record n { sess = timed_out reap n.sess })).1 in
    if reap then reap_session e (timeouts n.sess) m else (tt, m)

fired-Fires :
    (e : Env) (active sid : ℕ) (st : Stream) (n : Net) (reap : Bool)
    → IsSound n.sess
    → find_stream sid n.sess.streams ≡ some st
    → (reap ≡ true → (active ≤ 1) ⊎ (4 ≤ n.sess.consecutive_syn_ack_timeouts))
    → (reap ≡ false → (1 < active) × (n.sess.consecutive_syn_ack_timeouts < 4))
    → Fires e active sid st n (fired e sid st n reap).1
unfolding fired
fired-Fires e active sid st n true h has due alone =
    let m = record n { sess = timed_out true n.sess } in
    let ended = close_with_error e sid syn_ack_timeout st m in
    let sound = close_with_error-IsSound e sid syn_ack_timeout st m h has in
    let gone = reap_session-closed e (timeouts n.sess) ended.1 sound in
    inl (due refl, gone.0, gone.1)
fired-Fires e active sid st n false h has due alone =
    let m = record n { sess = timed_out false n.sess } in
    let spare = alone refl in
    inr (
      spare.0,
      spare.1,
      close_with_error-ClosesAlone e sid syn_ack_timeout st m (not_closed sid st n.sess h has),
    )

-- The SYNACK timer of a stream of a session whose map of streams is sound, with a count of active
-- streams below 2^31 and a count of timeouts that does not wrap around: when at most one stream is
-- active, or this is the fifth timeout in a row at least, it closes the session and empties its
-- map; otherwise it leaves the session open and every other stream in the map as it was, unless the
-- closing of the stream itself fails, which closes the session.
pub fire_syn_timer-Fires :
    (e : Env) (active sid : ℕ) (st : Stream) (n : Net)
    → IsSound n.sess
    → find_stream sid n.sess.streams ≡ some st
    → active < 2 ^ 31
    → n.sess.consecutive_syn_ack_timeouts + 1 < 2 ^ 32
    → Fires e active sid st n (fire_syn_timer e active sid st n).1
unfolding fire_syn_timer fired
fire_syn_timer-Fires e active sid st n h has small few =
    fired-Fires e active sid st n (should_reap active (timeouts n.sess)) h has
      (reap_due active n.sess.consecutive_syn_ack_timeouts small few)
      (reap_not_due active n.sess.consecutive_syn_ack_timeouts small few)
