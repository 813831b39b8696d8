-- ===== src/Session/Greeted.antt =====
-- session/session.go, recvLoop: what the handlers of settings and the others keep of the map of
-- streams.
use anytls_x.Base.{
  ℕ, inl, inr, refl, if_cases, on_error_cases, Bool, true, ◌&&◌, ◌||◌, not, Option, none, some,
  List, [], ◌∷◌, ◌++◌, length, take, leb, ◌==◌, if◌then◌else◌, bytes_eq, on_some_cases,
}
use anytls_x.Env.{Env}
use anytls_x.Frame.Defs.{Frame, new_frame, cmd_waste, cmd_alert, cmd_heart_response}
use anytls_x.Padding.Defs.{PaddingFactory}
use anytls_x.Session.Defs.{
  Session, Net, P, Event, start_carrier, migrate_go, uplink_fin, log_updated, find_stream,
}
use anytls_x.Session.Write.{write_control_frame}
use anytls_x.Text.Maps.{StringMap, string_map_from_bytes, lookup}
use anytls_x.Text.Numbers.{atoi}
use anytls_x.Session.Settings.{key_rs, key_v, key_mig, value_1, no_shaper_text}
use anytls_x.Session.Recv.{Verdict}
use anytls_x.Session.Greet.{
  activate_migration, wants_settings, note_version, reply_if, answer_settings, on_settings,
  on_alert, maybe_start_idle_loop, update_padding_scheme, on_update_padding_scheme,
  on_heart_request, on_heart_response, on_server_settings, with_migration, mig_token_len,
  on_migrate_ready, on_migrate_go, on_uplink_fin, signal_idle_ready,
}
use anytls_x.Session.Open.{IsSound, write_control_frame-IsSound, send_last-IsSound}

note_version-IsSound : (m : StringMap) (s : Session) → IsSound s → IsSound (note_version m s)
note_version-IsSound m s h = on_some_cases IsSound (atoi (lookup key_v m)) _ _ (λ _. h) (λ v _. h)

activate_migration-IsSound :
    (m : StringMap) (s : Session) → IsSound s → IsSound (activate_migration m s)
activate_migration-IsSound m s h =
    if_cases IsSound (s.has_registry && bytes_eq (lookup key_mig m) value_1) _ _ (λ _. h) (λ _. h)

reply_if-IsSound :
    (e : Env) (due : Bool) (cmd : ℕ) (text : List ℕ) (next : P Verdict) (n : Net)
    → ((m : Net) → IsSound m.sess → IsSound (next m).1.sess)
    → IsSound n.sess
    → IsSound (reply_if e due cmd text next n).1.sess
unfolding reply_if
reply_if-IsSound e due cmd text next n k h =
    let f : Frame = record { cmd = cmd; sid = 0; payload = text } in
    let sent = write_control_frame-IsSound e f n h in
    if_cases (λ (r : Verdict × Net). IsSound r.1.sess) due _ _
      (λ _.
        on_error_cases (λ (r : Verdict × Net). IsSound r.1.sess) (write_control_frame e f n).0.error
          _ _ (λ _. k (write_control_frame e f n).1 sent) (λ err _. sent))
      (λ _. k n h)

answer_settings-IsSound :
    (e : Env) (rs_first : Bool) (m : StringMap) (n : Net)
    → IsSound n.sess
    → IsSound (answer_settings e rs_first m n).1.sess
unfolding answer_settings signal_idle_ready
answer_settings-IsSound e rs_first m n h =
    reply_if-IsSound e _ _ _ _ n
      (λ n1 h1.
        reply_if-IsSound e _ _ _ _ n1 (λ n2 h2. reply_if-IsSound e _ _ _ _ n2 (λ n3 h3. h3) h2) h1)
      h

version-IsSound :
    (m : StringMap) (s : Session)
    → IsSound s
    → IsSound ((if wants_settings m then note_version m else (λ s. s)) s)
version-IsSound m s h =
    if_cases (λ (f : Session → Session). IsSound (f s)) (wants_settings m) _ _
      (λ _. note_version-IsSound m s h) (λ _. h)

pub on_settings-IsSound :
    (e : Env) (rs_first : Bool) (f : Frame) (n : Net)
    → IsSound n.sess
    → IsSound (on_settings e rs_first f n).1.sess
unfolding on_settings
on_settings-IsSound e rs_first f n h =
    let m = string_map_from_bytes f.payload in
    let s = n.sess in
    let greeted = record s { received_settings = true } in
    let settled = activate_migration m greeted in
    let version = if wants_settings m then note_version m else (λ s. s) in
    let known : IsSound greeted = (h.0, h.1, inr (inl refl)) in
    if_cases (λ (r : Verdict × Net). IsSound r.1.sess) (length f.payload == 0 || n.sess.is_client) _
      _ (λ _. h)
      (λ _.
        if_cases (λ (r : Verdict × Net). IsSound r.1.sess) (bytes_eq (lookup key_rs m) value_1) _ _
          (λ _.
            answer_settings-IsSound e rs_first m (record n { sess = version settled })
              (version-IsSound m settled (activate_migration-IsSound m greeted known)))
          (λ _.
            send_last-IsSound e cmd_alert no_shaper_text none (record n { sess = greeted }) known))

pub on_alert-IsSound : (f : Frame) (n : Net) → IsSound n.sess → IsSound (on_alert f n).1.sess
unfolding on_alert
on_alert-IsSound f n h =
    if_cases (λ (r : Verdict × Net). IsSound r.1.sess) (length f.payload == 0) _ _ (λ _. h)
      (λ _.
        if_cases (λ (r : Unit {0} × Net). IsSound r.1.sess) n.sess.is_client _ _ (λ _. h) (λ _. h))

maybe_start_idle_loop-IsSound :
    (n : Net) → IsSound n.sess → IsSound (maybe_start_idle_loop n).1.sess
unfolding maybe_start_idle_loop
maybe_start_idle_loop-IsSound n h =
    if_cases (λ (r : Unit {0} × Net). IsSound r.1.sess)
      (length n.padding.record_config.idle_sizes == 0
        || (n.padding.record_config.idle_interval_hi == 0 || n.sess.idle_loop_started))
      _ _ (λ _. h) (λ _. h)

update_padding_scheme-IsSound :
    (raw : List ℕ) (p : Option PaddingFactory) (n : Net)
    → IsSound n.sess
    → IsSound (update_padding_scheme raw p n).1.sess
unfolding update_padding_scheme
update_padding_scheme-IsSound raw none n h = h
update_padding_scheme-IsSound raw (some p) n h =
    let s = n.sess in
    maybe_start_idle_loop-IsSound
      (record n { sess = record s { events = s.events ++ (log_updated raw ∷ []) }; padding = p }) h

pub on_update_padding_scheme-IsSound :
    (parse : List ℕ → Option PaddingFactory) (f : Frame) (n : Net)
    → IsSound n.sess
    → IsSound (on_update_padding_scheme parse f n).1.sess
unfolding on_update_padding_scheme
on_update_padding_scheme-IsSound parse f n h =
    if_cases (λ (r : Verdict × Net). IsSound r.1.sess)
      (length f.payload == 0 || not n.sess.is_client) _ _ (λ _. h)
      (λ _. update_padding_scheme-IsSound f.payload (parse f.payload) n h)

pub on_heart_request-IsSound :
    (e : Env) (f : Frame) (n : Net) → IsSound n.sess → IsSound (on_heart_request e f n).1.sess
unfolding on_heart_request
on_heart_request-IsSound e f n h =
    write_control_frame-IsSound e (new_frame cmd_heart_response f.sid) n h

pub on_heart_response-IsSound :
    (e : Env) (f : Frame) (n : Net) → IsSound n.sess → IsSound (on_heart_response e f n).1.sess
unfolding on_heart_response
on_heart_response-IsSound e f n h = h

pub on_server_settings-IsSound :
    (e : Env) (f : Frame) (n : Net) → IsSound n.sess → IsSound (on_server_settings e f n).1.sess
unfolding on_server_settings signal_idle_ready
on_server_settings-IsSound e f n h =
    let m = string_map_from_bytes f.payload in
    if_cases (λ (r : Verdict × Net). IsSound r.1.sess)
      (length f.payload == 0 || not n.sess.is_client) _ _ (λ _. h)
      (λ _.
        if_cases (λ (r : Verdict × Net). IsSound r.1.sess) (bytes_eq (lookup key_rs m) value_1) _ _
          (λ _.
            write_control_frame-IsSound e (new_frame cmd_waste 0)
              (record n { sess = note_version m n.sess }) (note_version-IsSound m n.sess h))
          (λ _. h))

with_migration-IsSound :
    (sid : ℕ) (ev : ℕ → Event) (n : Net) → IsSound n.sess → IsSound (with_migration sid ev n).1.sess
with_migration-IsSound sid ev n h =
    on_some_cases (λ (r : Unit {0} × Net). IsSound r.1.sess) (find_stream sid n.sess.streams) _ _
      (λ _. h)
      (λ st _.
        if_cases (λ (r : Unit {0} × Net). IsSound r.1.sess) st.migrating _ _ (λ _. h) (λ _. h))

pub on_migrate_ready-IsSound :
    (f : Frame) (n : Net) → IsSound n.sess → IsSound (on_migrate_ready f n).1.sess
unfolding on_migrate_ready
on_migrate_ready-IsSound f n h =
    if_cases (λ (r : Verdict × Net). IsSound r.1.sess)
      (n.sess.is_client && leb mig_token_len (length f.payload)) _ _
      (λ _.
        with_migration-IsSound f.sid (λ sid. start_carrier sid (take mig_token_len f.payload)) n h)
      (λ _. h)

pub on_migrate_go-IsSound :
    (f : Frame) (n : Net) → IsSound n.sess → IsSound (on_migrate_go f n).1.sess
unfolding on_migrate_go
on_migrate_go-IsSound f n h =
    if_cases (λ (r : Unit {0} × Net). IsSound r.1.sess) n.sess.is_client _ _
      (λ _. with_migration-IsSound f.sid migrate_go n h) (λ _. h)

pub on_uplink_fin-IsSound :
    (f : Frame) (n : Net) → IsSound n.sess → IsSound (on_uplink_fin f n).1.sess
unfolding on_uplink_fin
on_uplink_fin-IsSound f n h =
    if_cases (λ (r : Unit {0} × Net). IsSound r.1.sess) (not n.sess.is_client) _ _
      (λ _. with_migration-IsSound f.sid uplink_fin n h) (λ _. h)
