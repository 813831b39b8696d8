-- ===== src/Session/Started.antt =====
-- session/session.go: what a client says first.
use anytls_x.Base.{
  ℕ, ◌+◌, ◌*◌, ◌/◌, ◌≤◌, ◌≡◌, ◌∙◌, refl, sym, ap, subst, Bool, true, false, ◌||◌, none, [], ◌∷◌,
  ◌++◌, arith, length, ltb, inl, if_cases, ◌==◌,
}
use anytls_x.Env.{Env, World, M, time_now}
use anytls_x.Rand.Bounds.{fast_intn-OnlyDraws}
use anytls_x.Shaper.Defs.{new_record_shaper}
use anytls_x.Frame.Defs.{Frame, cmd_settings}
use anytls_x.Frame.Stream.{IsFrame, wire, reads_payload}
use anytls_x.Shaper.Shaped.{visible}
use anytls_x.Padding.Defs.{PaddingFactory}
use anytls_x.Text.Maps.{StringMap}
use anytls_x.Session.Defs.{Net}
use anytls_x.Session.Write.{
  next_wnd_interval, write_conn, write_control_frame, buffer_up, control_result,
}
use anytls_x.Session.Line.{line}
use anytls_x.Session.Control.{Speaks, write_control_frame-Speaks}
use anytls_x.Session.Greet.{maybe_start_idle_loop}
use anytls_x.Session.Start.{new_session, fresh_session, settings_frame, made_net, run_client}

-- A session that is open, buffers, and has written nothing.
record IsSilent (n : Net) : Type 0 where
  open_still : n.sess.closed ≡ false
  buffers : n.sess.buffering ≡ true
  no_bytes : line n ≡ []

silent-Speaks : (n : Net) → IsSilent n → Speaks n []
silent-Speaks n h = record {
  spoken = [];
  whole = tt;
  on_line = h.no_bytes ∙ unfold wire in refl;
  heard = unfold visible in refl;
}

buffered_no_error :
    (e : Env) (f : Frame) (n : Net)
    → IsSilent n
    → length f.payload ≤ 0xFFFF
    → (write_control_frame e f n).0.error ≡ none
unfolding write_control_frame write_conn buffer_up control_result
buffered_no_error e f n h fits = ground (arith, h.open_still, h.buffers, fits)

-- What starting the idle loop leaves alone.
abbrev Starts : Net → Net → Type 0
Starts n m =
    (m.sess.closed ≡ n.sess.closed)
    × (line m ≡ line n)
    × (m.sess.mig_active ≡ n.sess.mig_active)
    × (m.padding ≡ n.padding)

maybe_start_idle_loop-Starts : (n : Net) → Starts n (maybe_start_idle_loop n).1
unfolding maybe_start_idle_loop
maybe_start_idle_loop-Starts n =
    if_cases (λ (r : Unit {0} × Net). Starts n r.1)
      (length n.padding.record_config.idle_sizes == 0
        || (n.padding.record_config.idle_interval_hi == 0 || n.sess.idle_loop_started))
      _ _ (λ _. (refl, refl, refl, refl)) λ _. (refl, refl, refl, refl)

next_wnd_interval_sent :
    (e : Env) (base : ℕ) (w : World) → (next_wnd_interval e base w).1.sent ≡ w.sent
unfolding next_wnd_interval
next_wnd_interval_sent e base w =
    if_cases (λ (r : ℕ × World). r.1.sent ≡ w.sent) (base == 0) _ _ (λ _. refl)
      λ _. (fast_intn-OnlyDraws e (2 * (base / 4) + 1) w).sent_same

new_session_sent :
    (e : Env) (c : Bool) (padding : PaddingFactory) (w : World)
    → (new_session e c padding w).1.sent ≡ w.sent
unfolding new_session new_record_shaper time_now
new_session_sent e c padding w =
    let base = padding.record_config.wnd_update_interval in
    if_cases (λ (m : M ℕ). (m (record w { reads = w.reads + 1 })).1.sent ≡ w.sent) (ltb 0 base) _ _
      (λ _. next_wnd_interval_sent e base (record w { reads = w.reads + 1 })) λ _. refl

line-made_net :
    (e : Env) (mig : Bool) (padding : PaddingFactory) (w : World)
    → w.sent ≡ []
    → line (made_net e mig padding w) ≡ []
unfolding made_net new_session fresh_session
line-made_net e mig padding w h = ap (λ x. x ++ []) (new_session_sent e true padding w ∙ h)

visible_settings : (f : Frame) → f.cmd ≡ cmd_settings → visible (f ∷ []) ≡ f ∷ []
unfolding visible
visible_settings f h = ground (arith, h)

said_first :
    (e : Env) (f : Frame) (n : Net)
    → n.sess.closed ≡ false
    → line n ≡ []
    → IsFrame f
    → f.cmd ≡ cmd_settings
    → let s = n.sess in
      Speaks
        (write_control_frame e f (record n { sess = record s { buffering = true } })).1
        (f ∷ [])
said_first e f n alive empty valid c =
    let s = n.sess in
    let m = record n { sess = record s { buffering = true } } in
    let silent : IsSilent m = record { open_still = alive; buffers = refl; no_bytes = empty } in
    subst (Speaks (write_control_frame e f m).1) (visible_settings f c)
      (write_control_frame-Speaks e f m [] valid (silent-Speaks m silent)
        (buffered_no_error e f m silent valid.payload_fits)).0

settings_frame_same :
    (order : StringMap → StringMap) (p q : PaddingFactory) (a b : Bool)
    → p ≡ q
    → a ≡ b
    → settings_frame order p a ≡ settings_frame order q b
settings_frame_same order p q a b h k =
    ap (λ x. settings_frame order x a) h ∙ ap (settings_frame order q) k

settings_frame-IsFrame :
    (order : StringMap → StringMap) (padding : PaddingFactory) (mig : Bool)
    → length (settings_frame order padding mig).payload ≤ 0xFFFF
    → IsFrame (settings_frame order padding mig)
settings_frame-IsFrame order padding mig h = record {
  sid_fits = unfold settings_frame in omega arith;
  payload_fits = h;
  read_whole = unfold settings_frame reads_payload in inl refl;
}

made_net-closed :
    (e : Env) (mig : Bool) (padding : PaddingFactory) (w : World)
    → (made_net e mig padding w).sess.closed ≡ false
unfolding made_net new_session fresh_session
made_net-closed e mig padding w = refl

made_net_kept :
    (e : Env) (mig : Bool) (padding : PaddingFactory) (w : World)
    → ((made_net e mig padding w).padding ≡ padding)
      × ((made_net e mig padding w).sess.mig_active ≡ mig)
unfolding made_net
made_net_kept e mig padding w = (refl, refl)

-- A client session made on a connection that has sent nothing yet says, once it runs, its settings
-- frame and nothing else, in whatever order Go ranges over the settings, when they fit in a frame.
pub run_client-Speaks :
    (e : Env) (order : StringMap → StringMap) (mig : Bool) (padding : PaddingFactory) (w : World)
    → w.sent ≡ []
    → length (settings_frame order padding mig).payload ≤ 0xFFFF
    → Speaks
        (run_client e order (made_net e mig padding w)).1
        (settings_frame order padding mig ∷ [])
unfolding run_client
run_client-Speaks e order mig padding w h fits =
    let n = made_net e mig padding w in
    let m = (maybe_start_idle_loop n).1 in
    let starts = maybe_start_idle_loop-Starts n in
    let f = settings_frame order m.padding m.sess.mig_active in
    let kept = made_net_kept e mig padding w in
    let same =
      settings_frame_same order m.padding padding m.sess.mig_active mig (starts.3 ∙ kept.0)
        (starts.2 ∙ kept.1) in
    subst (λ g. Speaks (run_client e order n).1 (g ∷ [])) same
      (said_first e f m (starts.0 ∙ made_net-closed e mig padding w)
        (starts.1 ∙ line-made_net e mig padding w h)
        (subst IsFrame (sym same) (settings_frame-IsFrame order padding mig fits))
        (unfold settings_frame in refl))
