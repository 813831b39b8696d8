-- ===== src/Session/Alive.antt =====
-- session/session.go: what the writing half leaves of the map of streams.
use anytls_x.Base.{
  ℕ, ◌≡◌, refl, ap, ◌∙◌, subst, Bool, true, ◌||◌, ◌&&◌, Option, none, some, List, [], arith, length,
  ltb, ◌⊎◌, inl, inr, if_cases, Bool-cases,
}
use anytls_x.Env.{Env, Error, Written, conn_try_lock}
use anytls_x.Frame.Defs.{Frame, encode}
use anytls_x.Session.Defs.{Session, Net, lift}
use anytls_x.Session.Write.{
  bury, close, write_conn, flush_buffer, buffer_up, write_shaped, is_lone_syn, control_result,
  write_control_frame, write_two_wastes, note_two_wastes, write_window_update_waste,
  broken_if_partial,
}
use anytls_x.Session.Control.{close_lem}

-- The streams, whether the session is closed, and what it knows of its peer are the same.
abbrev pub Still : Net → Net → Type 0
Still n m =
    (m.sess.streams ≡ n.sess.streams)
    × (m.sess.closed ≡ n.sess.closed)
    × (m.sess.is_client ≡ n.sess.is_client)
    × (m.sess.received_settings ≡ n.sess.received_settings)

-- They are, or the session has closed, and its map is empty.
abbrev pub Quiet : Net → Net → Type 0
Quiet n m =
    Still n m
    ⊎ ((m.sess.streams ≡ [])
        × (m.sess.is_client ≡ n.sess.is_client)
        × (m.sess.received_settings ≡ n.sess.received_settings))

write_shaped-Still : (e : Env) (b : List ℕ) (c : Bool) (n : Net) → Still n (write_shaped e b c n).1
unfolding write_shaped
write_shaped-Still e b c n =
    if_cases (λ (r : Written × Net). Still n r.1) (c && is_lone_syn b) _ _
      (λ _. (refl, refl, refl, refl))
      (λ _.
        if_cases (λ (r : Written × Net). Still n r.1) c _ _ (λ _. (refl, refl, refl, refl))
          (λ _. (refl, refl, refl, refl)))

pub write_conn-Still : (e : Env) (b : List ℕ) (c : Bool) (n : Net) → Still n (write_conn e b c n).1
unfolding write_conn buffer_up flush_buffer
write_conn-Still e b c n =
    if_cases (λ (r : Written × Net). Still n r.1) n.sess.closed _ _ (λ _. (refl, refl, refl, refl))
      (λ _.
        if_cases (λ (r : Written × Net). Still n r.1) n.sess.buffering _ _
          (λ _. (refl, refl, refl, refl))
          (λ _.
            if_cases (λ (r : Written × Net). Still n r.1) (ltb 0 (length n.sess.buffer)) _ _
              (λ _. (refl, refl, refl, refl)) (λ _. write_shaped-Still e b c n)))

pub close-Quiet : (e : Env) (n : Net) → Quiet n (close e n).1
close-Quiet e n = elim (close_lem e n) [
  | inl (dead, same) ↦
      let back = ap (λ (r : Option Error × Net). r.1.sess) same in
      inl (
        ap (λ s. s.streams) back,
        ap (λ s. s.closed) back,
        ap (λ s. s.is_client) back,
        ap (λ s. s.received_settings) back,
      )
  | inr (alive, _, made, _) ↦ inr (
    ap (λ s. s.streams) made ∙ (unfold bury in refl),
    ap (λ s. s.is_client) made ∙ (unfold bury in refl),
    ap (λ s. s.received_settings) made ∙ (unfold bury in refl),
  )
]

pub Still-Quiet : (n m k : Net) → Still n m → Quiet m k → Quiet n k
Still-Quiet n m k s (inl q) = inl (q.0 ∙ s.0, q.1 ∙ s.1, q.2 ∙ s.2, q.3 ∙ s.3)
Still-Quiet n m k s (inr q) = inr (q.0, q.1 ∙ s.2, q.2 ∙ s.3)

control_result-Quiet :
    (e : Env) (len : ℕ) (o : Option Error) (n : Net) → Quiet n (control_result e len o n).1
unfolding control_result
control_result-Quiet e len none n = inl (refl, refl, refl, refl)
control_result-Quiet e len (some err) n = close-Quiet e n

pub write_control_frame-Quiet :
    (e : Env) (f : Frame) (n : Net) → Quiet n (write_control_frame e f n).1
unfolding write_control_frame
write_control_frame-Quiet e f n = elim (Bool-cases (ltb 0xFFFF (length f.payload))) [
  | inl large ↦ rw large (inl (refl, refl, refl, refl))
  | inr small ↦
      let r = write_conn e (encode f.cmd f.sid f.payload) true n in
      rw small (
        Still-Quiet n r.1 (control_result e (length f.payload) r.0.error r.1).1
          (write_conn-Still e (encode f.cmd f.sid f.payload) true n)
          (control_result-Quiet e (length f.payload) r.0.error r.1))
]

broken_if_partial-keeps :
    (r : Written) (s : Session)
    → ((broken_if_partial r s).streams ≡ s.streams)
      × ((broken_if_partial r s).closed ≡ s.closed)
      × ((broken_if_partial r s).is_client ≡ s.is_client)
      × ((broken_if_partial r s).received_settings ≡ s.received_settings)
broken_if_partial-keeps r s = ground arith

note_two_wastes-Still :
    (e : Env) (r : Written) (n m : Net) → m.sess ≡ n.sess → Still n (note_two_wastes e r m).1
unfolding note_two_wastes
note_two_wastes-Still e r n m h =
    subst
      (λ s.
        (((broken_if_partial r m.sess).streams ≡ s.streams)
          × ((broken_if_partial r m.sess).closed ≡ s.closed)
          × ((broken_if_partial r m.sess).is_client ≡ s.is_client)
          × ((broken_if_partial r m.sess).received_settings ≡ s.received_settings)))
      h (broken_if_partial-keeps r m.sess)

write_two_wastes-Still : (e : Env) (n : Net) → Still n (write_two_wastes e n).1
unfolding write_two_wastes
write_two_wastes-Still e n = note_two_wastes-Still e _ n _ refl

pub write_window_update_waste-Still :
    (e : Env) (n : Net) → Still n (write_window_update_waste e n).1
unfolding write_window_update_waste
write_window_update_waste-Still e n =
    if_cases (λ (r : Unit {0} × Net). Still n r.1) (n.sess.closed || n.sess.conn_broken) _ _
      (λ _. (refl, refl, refl, refl))
      (λ _.
        if_cases (λ (r : Unit {0} × Net). Still n r.1) (lift (conn_try_lock e) n).0 _ _
          (λ _. write_two_wastes-Still e (lift (conn_try_lock e) n).1)
          (λ _. (refl, refl, refl, refl)))
