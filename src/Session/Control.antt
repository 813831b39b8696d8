-- ===== src/Session/Control.antt =====
-- session/session.go, Close and writeControlFrame: what the peer hears, and what a failure does.
use anytls_x.Base.{
  ℕ, ◌<◌, ◌≡◌, refl, sym, ap, ◌∙◌, Bool, true, false, Option, none, some, List, [], ◌∷◌, ◌++◌,
  arith, length, ltb, ltb→lt, ◌⊎◌, inl, inr, All, All-append, Bool-cases, if_cases, append-nil,
}
use anytls_x.Env.{time_now, conn_close, conn_try_lock, set_write_deadline, Env, Error, closed_pipe}
use anytls_x.Frame.Defs.{Frame, cmd_waste}
use anytls_x.Frame.Stream.{IsFrame, bytes_of, wire, wire-append}
use anytls_x.Shaper.Shaped.{visible, visible-append}
use anytls_x.Session.Defs.{when, Net, P}
use anytls_x.Session.Write.{
  bury, close_conn, write_frame_bytes, close, write_conn, control_result, write_control_frame,
}
use anytls_x.Session.Line.{line, Adds, write_conn-Adds}

-- On the line are whole frames, and those that the peer acts on are `gs`, in order.
pub record Speaks (n : Net) (gs : List Frame) : Type 0 where
  pub spoken : List Frame
  pub whole : All IsFrame spoken
  pub on_line : line n ≡ wire spoken
  pub heard : visible spoken ≡ gs

-- A write of one frame that lost nothing.
pub Adds-Speaks :
    (v w : Net) (f : Frame) (gs : List Frame)
    → IsFrame f
    → Speaks v gs
    → Adds v w (bytes_of f) none
    → Speaks w (gs ++ visible (f ∷ []))
Adds-Speaks v w f gs valid s a = record {
  spoken = s.spoken ++ (f ∷ a.padding);
  whole = All-append IsFrame s.spoken (f ∷ a.padding) s.whole (valid, a.is_padding.0);
  on_line =
      sym (append-nil (line w))
      ∙ ap (◌++◌ (line w)) (sym a.none_lost)
      ∙ a.grown
      ∙ ap (λ x. x ++ (bytes_of f ++ wire a.padding)) s.on_line
      ∙ (unfold wire in sym (wire-append s.spoken (f ∷ a.padding)));
  heard =
      visible-append s.spoken (f ∷ a.padding)
      ∙ ap (λ x. x ++ visible (f ∷ a.padding)) s.heard
      ∙ ap (◌++◌ gs) (
          visible-append (f ∷ []) a.padding
          ∙ ap (◌++◌ (visible (f ∷ []))) a.is_padding.1
          ∙ append-nil (visible (f ∷ [])));
}

when-sess :
    (b : Bool) (m : P (Unit {0})) (n : Net) → (m n).1.sess ≡ n.sess → (when b m n).1.sess ≡ n.sess
when-sess b m n h = if_cases (λ r. r.1.sess ≡ n.sess) b (m n) (tt, n) (λ _. h) (λ _. refl)

close_conn-sess :
    (e : Env) (n : Net)
    → ((close_conn e n).1.sess ≡ n.sess)
      × ((close_conn e n).1.world.shut ≡ true)
      × ((close_conn e n).0 ≡ e.close_error)
unfolding close_conn conn_close write_frame_bytes
close_conn-sess e n = (
  when-sess (conn_try_lock e (set_write_deadline _ (time_now e n.world).1).1).0
      (write_frame_bytes e cmd_waste 0 10) _ refl,
  refl,
  refl,
)

-- The two branches of Session.Close.
pub close_lem :
    (e : Env) (n : Net)
    → ((n.sess.closed ≡ true) × (close e n ≡ (some closed_pipe, n)))
      ⊎ ((n.sess.closed ≡ false)
          × ((close e n).0 ≡ e.close_error)
          × ((close e n).1.sess ≡ bury n.sess)
          × ((close e n).1.world.shut ≡ true))
unfolding close
close_lem e n =
    if_cases
      (λ r.
        ((n.sess.closed ≡ true) × (r ≡ (some closed_pipe, n)))
        ⊎ ((n.sess.closed ≡ false)
            × (r.0 ≡ e.close_error)
            × (r.1.sess ≡ bury n.sess)
            × (r.1.world.shut ≡ true)))
      n.sess.closed _ _ (λ dead. inl (dead, refl))
      λ alive.
        let rest = close_conn-sess e (record n { sess = bury n.sess }) in
        inr (alive, rest.2, rest.0, rest.1)

pub close-closed : (e : Env) (n : Net) → (close e n).1.sess.closed ≡ true
close-closed e n = elim (close_lem e n) [
  | inl (dead, same) ↦ ap (λ r. r.1.sess.closed) same ∙ dead
  | inr (alive, _, made, _) ↦ ap (λ s. s.closed) made ∙ (unfold bury in refl)
]

control_result-Speaks :
    (e : Env) (f : Frame) (n : Net) (gs : List Frame)
    → IsFrame f
    → Speaks n gs
    → (err : Option Error) (m : Net) → Adds n m (bytes_of f) err
    → (control_result e (length f.payload) err m).0.error ≡ none
    → Speaks (control_result e (length f.payload) err m).1 (gs ++ visible (f ∷ []))
      × ((control_result e (length f.payload) err m).0.n ≡ length f.payload)
unfolding control_result
control_result-Speaks e f n gs valid s none m a h = (Adds-Speaks n m f gs valid s a, refl)
control_result-Speaks e f n gs valid s (some err) m a h = cc

control_result_fails :
    (e : Env) (len : ℕ) (o : Option Error) (m : Net) (err : Error)
    → (control_result e len o m).0.error ≡ some err
    → ((control_result e len o m).0.n ≡ 0) × ((control_result e len o m).1.sess.closed ≡ true)
unfolding control_result
control_result_fails e len none m err h = cc
control_result_fails e len (some o) m err h = (refl, close-closed e m)

-- On a session whose line so far is whole frames that the peer acts on as `gs`: a writeControlFrame
-- of a frame fit for the wire that answers no error leaves a line of whole frames that the peer
-- acts on as `gs` and then that frame (unless it is waste), and it answers the length of its
-- payload.
pub write_control_frame-Speaks :
    (e : Env) (f : Frame) (n : Net) (gs : List Frame)
    → IsFrame f
    → Speaks n gs
    → (write_control_frame e f n).0.error ≡ none
    → Speaks (write_control_frame e f n).1 (gs ++ visible (f ∷ []))
      × ((write_control_frame e f n).0.n ≡ length f.payload)
unfolding write_control_frame
write_control_frame-Speaks e f n gs valid s h =
    let small : ltb 0xFFFF (length f.payload) ≡ false = ground (arith, valid.payload_fits) in
    let r = write_conn e (bytes_of f) true n in
    let a = write_conn-Adds e (bytes_of f) true n in
    rw small (control_result-Speaks e f n gs valid s r.0.error r.1 a (rw small at h))

-- A writeControlFrame that answers an error answers the count 0, and either the payload is too long
-- for a frame and nothing has changed, or the session is closed.
pub write_control_frame_fails :
    (e : Env) (f : Frame) (n : Net) (err : Error)
    → (write_control_frame e f n).0.error ≡ some err
    → ((write_control_frame e f n).0.n ≡ 0)
      × (((0xFFFF < length f.payload) × ((write_control_frame e f n).1 ≡ n))
          ⊎ ((write_control_frame e f n).1.sess.closed ≡ true))
unfolding write_control_frame
write_control_frame_fails e f n err h = elim (Bool-cases (ltb 0xFFFF (length f.payload))) [
  | inl large ↦ rw large (refl, inl (ltb→lt 0xFFFF (length f.payload) large, refl))
  | inr small ↦
      let r = write_conn e (bytes_of f) true n in
      let made = control_result_fails e (length f.payload) r.0.error r.1 err (rw small at h) in
      rw small (made.0, inr made.1)
]
