-- ===== src/Session/Greet.antt =====
-- session/session.go, recvLoop: the handlers of settings, alerts, heartbeats and migration signals.
use anytls_x.Base.{
  ℕ, Bool, true, false, ◌&&◌, ◌||◌, not, Option, none, some, List, [], ◌∷◌, length, take, leb, ◌==◌,
  if◌then◌else◌, bytes_eq, on_some, on_error,
}
use anytls_x.Env.{Env, no_record_shaper, time_now}
use anytls_x.Frame.Defs.{
  Frame, new_frame, cmd_waste, cmd_alert, cmd_update_padding_scheme, cmd_heart_response,
  cmd_server_settings,
}
use anytls_x.Padding.Defs.{PaddingFactory}
use anytls_x.Session.Defs.{
  Session, P, ◌>>=◌, ◌>>◌, pure, lift, modify, when, emit, Event, start_carrier, migrate_go,
  uplink_fin, idle_loop, log_alert, log_updated, log_not_updated, log_refused, find_stream,
}
use anytls_x.Session.Write.{write_control_frame}
use anytls_x.Text.Maps.{StringMap, string_map_from_bytes, lookup, to_bytes}
use anytls_x.Text.Numbers.{atoi, uint32_of}
use anytls_x.Session.Settings.{
  key_rs, key_v, key_mig, key_padding_md5, value_1, value_2, no_shaper_text,
}
use anytls_x.Session.Recv.{Verdict, go_on, ends, send_last}

unfoldable pub signal_idle_ready : Session → Session
signal_idle_ready s = record s { idle_ready = true }

-- What the peer's settings change on the server, and whether its version wants an answer.
abbrev pub activate_migration : StringMap → Session → Session
activate_migration m s =
    if s.has_registry && bytes_eq (lookup key_mig m) value_1
    then record s { mig_active = true }
    else s

abbrev pub wants_settings : StringMap → Bool
wants_settings m = elim (atoi (lookup key_v m)) [
  | none ↦ false
  | some (true, v) ↦ false
  | some (false, v) ↦ leb 2 v
]

abbrev pub note_version : StringMap → Session → Session
note_version m s = on_some (atoi (lookup key_v m)) s λ v. record s { peer_version = uint32_of v }

-- A reply that fails ends the loop; one that is not due is skipped.
unfoldable pub reply_if : Env → Bool → ℕ → List ℕ → P Verdict → P Verdict
reply_if e due cmd text next n =
    let sent = write_control_frame e (record { cmd = cmd; sid = 0; payload = text }) n in
    let after = next sent.1 in
    let skipped = next n in
    if due then on_error sent.0.error after (λ err. (ends (some err), sent.1)) else skipped

-- `rs_first` is the order in which Go ranges over the two entries of the server's settings.
unfoldable pub server_settings : Bool → List ℕ
unfolding to_bytes
server_settings true = to_bytes ((key_rs, value_1) ∷ (key_v, value_2) ∷ [])
server_settings false = to_bytes ((key_v, value_2) ∷ (key_rs, value_1) ∷ [])

unfoldable pub answer_settings : Env → Bool → StringMap → P Verdict
unfolding signal_idle_ready
answer_settings e rs_first m n =
    let wants = wants_settings m in
    let stale = not (bytes_eq (lookup key_padding_md5 m) n.padding.md5) in
    reply_if e wants cmd_server_settings (server_settings rs_first)
      (reply_if e true cmd_waste [] (
        reply_if e stale cmd_update_padding_scheme n.padding.raw_scheme
          (do modify signal_idle_ready; pure go_on)))
      n

unfoldable pub on_settings : Env → Bool → Frame → P Verdict
unfolding answer_settings string_map_from_bytes
on_settings e rs_first f n =
    let m = string_map_from_bytes f.payload in
    let s = n.sess in
    let known = record n { sess = record s { received_settings = true } } in
    let version = if wants_settings m then note_version m else (λ s. s) in
    if length f.payload == 0 || n.sess.is_client
    then (go_on, n)
    else (if bytes_eq (lookup key_rs m) value_1
        then answer_settings e rs_first m
            (record known { sess = version (activate_migration m known.sess) })
        else send_last e cmd_alert no_shaper_text none known)

unfoldable pub on_alert : Frame → P Verdict
on_alert f n =
    if length f.payload == 0
    then (go_on, n)
    else (do when n.sess.is_client (emit (log_alert f.payload)); pure (ends none)) n

-- maybeStartIdleLoop, on the padding scheme in force.
unfoldable pub maybe_start_idle_loop : P (Unit {0})
maybe_start_idle_loop n =
    let cfg = n.padding.record_config in
    let s = n.sess in
    if length cfg.idle_sizes == 0 || (cfg.idle_interval_hi == 0 || s.idle_loop_started)
    then (tt, n)
    else (do modify (λ s. record s { idle_loop_started = true }); emit idle_loop) n

-- UpdatePaddingScheme with what NewPaddingFactory made of the scheme.
unfoldable pub update_padding_scheme : List ℕ → Option PaddingFactory → P (Unit {0})
unfolding maybe_start_idle_loop
update_padding_scheme raw none n = emit (log_not_updated raw) n
update_padding_scheme raw (some p) n =
    (do emit (log_updated raw); maybe_start_idle_loop) (record n { padding = p })

unfoldable pub on_update_padding_scheme : (List ℕ → Option PaddingFactory) → Frame → P Verdict
unfolding update_padding_scheme
on_update_padding_scheme new_padding_factory f n =
    if length f.payload == 0 || not n.sess.is_client
    then (go_on, n)
    else (do update_padding_scheme f.payload (new_padding_factory f.payload); pure go_on) n

unfoldable pub on_heart_request : Env → Frame → P Verdict
on_heart_request e f = do
  r ← write_control_frame e (new_frame cmd_heart_response f.sid)
  pure (on_error r.error go_on (λ err. ends (some err)))

unfoldable pub on_heart_response : Env → Frame → P Verdict
on_heart_response e f = do
  now ← lift (time_now e)
  modify (λ s. record s { last_heart_resp = now })
  pure go_on

unfoldable pub on_server_settings : Env → Frame → P Verdict
unfolding string_map_from_bytes signal_idle_ready
on_server_settings e f n =
    let m = string_map_from_bytes f.payload in
    if length f.payload == 0 || not n.sess.is_client
    then (go_on, n)
    else (if bytes_eq (lookup key_rs m) value_1
        then (do
          modify (note_version m)
          r ← write_control_frame e (new_frame cmd_waste 0)
          modify signal_idle_ready
          pure go_on)
            n
        else (do emit log_refused; pure (ends (some no_record_shaper))) n)

-- A stream of the map that takes part in migration.
abbrev pub with_migration : ℕ → (ℕ → Event) → P (Unit {0})
with_migration sid ev n =
    on_some (find_stream sid n.sess.streams) (tt, n) λ st. when st.migrating (emit (ev sid)) n

abbrev pub mig_token_len : ℕ
mig_token_len = 16

unfoldable pub on_migrate_ready : Frame → P Verdict
on_migrate_ready f n =
    if n.sess.is_client && leb mig_token_len (length f.payload)
    then (do
      with_migration f.sid (λ sid. start_carrier sid (take mig_token_len f.payload))
      pure go_on)
        n
    else (go_on, n)

unfoldable pub on_migrate_go : Frame → P Verdict
on_migrate_go f n = (do when n.sess.is_client (with_migration f.sid migrate_go); pure go_on) n

unfoldable pub on_uplink_fin : Frame → P Verdict
on_uplink_fin f n = (do when (not n.sess.is_client) (with_migration f.sid uplink_fin); pure go_on) n
