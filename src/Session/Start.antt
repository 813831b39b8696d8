-- ===== src/Session/Start.antt =====
-- session/session.go: NewClientSession, NewServerSession, and Run up to its goroutines.
use anytls_x.Base.{ℕ, Bool, true, false, List, [], ◌∷◌, ltb, if◌then◌else◌}
use anytls_x.Env.{Env, World, M, ◌>>=◌, pure}
use anytls_x.Frame.Defs.{Frame, cmd_settings}
use anytls_x.Padding.Defs.{PaddingFactory}
use anytls_x.Shaper.Defs.{RecordShaper, new_record_shaper}
use anytls_x.Text.Maps.{StringMap, to_bytes}
use anytls_x.Session.Defs.{Session, Net, P}
use anytls_x.Session.Write.{next_wnd_interval, write_control_frame}
use anytls_x.Session.Settings.{key_rs, key_v, key_mig, key_padding_md5, value_1, value_2}
use anytls_x.Session.Greet.{maybe_start_idle_loop}

-- "client"
abbrev pub key_client : List ℕ
key_client = 99 ∷ 108 ∷ 105 ∷ 101 ∷ 110 ∷ 116 ∷ []

-- util.Verison
abbrev pub version : List ℕ
version = 97 ∷ 110 ∷ 121 ∷ 116 ∷ 108 ∷ 115 ∷ 45 ∷ 120 ∷ 47 ∷ 48 ∷ 46 ∷ 48 ∷ 46 ∷ 49 ∷ 49 ∷ []

-- The fields that the two constructors set, the others being Go's zero values.
unfoldable pub fresh_session : Bool → RecordShaper → ℕ → ℕ → Session
fresh_session is_client shaper base trigger = record {
  is_client = is_client;
  closed = false;
  conn_broken = false;
  hooked = false;
  idle_ready = false;
  idle_loop_started = false;
  stream_id = 0;
  streams = [];
  retired = [];
  consecutive_syn_ack_timeouts = 0;
  last_heart_resp = 0;
  peer_version = 0;
  buffering = false;
  buffer = [];
  shaper = shaper;
  recv_bytes = 0;
  wnd_update_base = base;
  wnd_update_trigger = trigger;
  received_settings = false;
  mig_active = false;
  has_registry = false;
  events = [];
}

-- NewClientSession and NewServerSession.
unfoldable pub new_session : Env → Bool → PaddingFactory → M Session
unfolding fresh_session new_record_shaper next_wnd_interval
new_session e is_client padding = do
  shaper ← new_record_shaper e padding
  let base = padding.record_config.wnd_update_interval
  trigger ← if ltb 0 base then next_wnd_interval e base else pure 0
  pure (fresh_session is_client shaper base trigger)

-- The session that the pool makes of a new connection.
unfoldable pub made_net : Env → Bool → PaddingFactory → World → Net
unfolding new_session
made_net e mig_enabled padding w =
    let r = new_session e true padding w in
    let s = r.0 in
    record {
      sess = record s { hooked = true; mig_active = mig_enabled };
      world = r.1;
      padding = padding;
    }

-- The settings of a client, in one order of the entries of a Go map.
unfoldable pub client_settings : PaddingFactory → Bool → StringMap
client_settings padding mig_active =
    (key_v, value_2)
    ∷ (key_client, version)
    ∷ (key_padding_md5, padding.md5)
    ∷ (key_rs, value_1)
    ∷ (if mig_active then (key_mig, value_1) ∷ [] else [])

-- The first frame of a client; `order` is the order in which Go ranges over the settings.
unfoldable pub settings_frame : (StringMap → StringMap) → PaddingFactory → Bool → Frame
unfolding client_settings
settings_frame order padding mig_active = record {
  cmd = cmd_settings;
  sid = 0;
  payload = to_bytes (order (client_settings padding mig_active));
}

-- Run of a client up to its goroutines.
unfoldable pub run_client : Env → (StringMap → StringMap) → P (Unit {0})
unfolding settings_frame
run_client e order n =
    let m = (maybe_start_idle_loop n).1 in
    let s = m.sess in
    let sent =
      write_control_frame e (settings_frame order m.padding s.mig_active)
        (record m { sess = record s { buffering = true } }) in
    (tt, sent.1)
