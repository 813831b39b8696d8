-- ===== src/Tests/Data.antt =====
-- The environment and the states of the tests.
use anytls_x.Base.{ℕ, ◌+◌, ◌*◌, refl, true, false, none, List, [], ◌∷◌, arith, inl}
use anytls_x.Env.{Env, IsRandom, World}
use anytls_x.Frame.Defs.{Frame, cmd_psh}
use anytls_x.Frame.Stream.{IsFrame, IsRead, reads_payload, wire}
use anytls_x.Padding.Defs.{PaddingFactory, default_record_shaper_config}
use anytls_x.Shaper.Defs.{RecordShaper}
use anytls_x.Session.Defs.{Session, Net, new_stream_obj}
use anytls_x.Session.Control.{Speaks}
use anytls_x.Shaper.Shaped.{visible}

-- A generator that always draws the least number, a clock that ticks once a second, and a connection
-- that takes every write.
abbrev pub calm : Env
calm = record {
  int_n = λ i n. 0;
  uint64 = λ i. 0x0102030405060708;
  clock = λ i. 1000000000 * (i + 100);
  fault = λ i. none;
  try_lock = λ i. true;
  close_error = none;
}

pub calm-IsRandom : IsRandom calm
calm-IsRandom = record { int_n-lt = λ i n h. h; uint64-lt = λ i. omega arith }

abbrev pub start : World
start = record {
  draws = 0;
  reads = 0;
  writes = 0;
  locks = 0;
  sent = [];
  deadline = none;
  shut = false;
}

abbrev pub scheme : PaddingFactory
scheme = record {
  raw_scheme = 1 ∷ 2 ∷ [];
  md5 = 7 ∷ 7 ∷ [];
  pad_buckets = [];
  total_weight = 0;
  record_config = default_record_shaper_config;
}

abbrev pub shaper : RecordShaper
shaper = record {
  last_write = 0;
  cfg = default_record_shaper_config;
  last_cfg_md5 = 7 ∷ 7 ∷ [];
  max_target = 45;
}

-- A server that has its client's settings and one open stream, number 1.
abbrev pub server : Session
server = record {
  is_client = false;
  closed = false;
  conn_broken = false;
  hooked = false;
  idle_ready = true;
  idle_loop_started = false;
  stream_id = 0;
  streams = (1, new_stream_obj 1 false) ∷ [];
  retired = [];
  consecutive_syn_ack_timeouts = 0;
  last_heart_resp = 0;
  peer_version = 2;
  buffering = false;
  buffer = [];
  shaper = shaper;
  recv_bytes = 0;
  wnd_update_base = 0;
  wnd_update_trigger = 0;
  received_settings = true;
  mig_active = false;
  has_registry = false;
  events = [];
}

abbrev pub net : Net
net = record { sess = server; world = start; padding = scheme }

abbrev pub hello : List ℕ
hello = 104 ∷ 105 ∷ []

abbrev pub hello_frame : Frame
hello_frame = record { cmd = cmd_psh; sid = 1; payload = hello }

pub hello_frame-IsFrame : IsFrame hello_frame
unfolding reads_payload
hello_frame-IsFrame = record {
  sid_fits = omega arith;
  payload_fits = omega arith;
  read_whole = inl refl;
}

pub hello_frame-IsRead : IsRead hello_frame
hello_frame-IsRead = record {
  frame_fits = hello_frame-IsFrame;
  not_refused = refl;
  not_last = refl;
}

-- Nothing was sent yet.
pub net-Speaks : Speaks net []
unfolding visible wire
net-Speaks = record { spoken = []; whole = tt; on_line = refl; heard = refl }
