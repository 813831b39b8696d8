-- ===== src/Tests/Sessions.antt =====
-- Sessions, at concrete states and inputs.
use anytls_x.Base.{
  Any, ℕ, ◌<◌, ◌≡◌, ◌⊎◌, refl, true, false, Option, none, some, List, [], ◌∷◌, ◌++◌, arith, All,
  inl, inr, length, bytes_eq,
}
use anytls_x.Rand.Defs.{fast_intn, fill_random}
use anytls_x.Shaper.Defs.{write_data, write_control, maybe_refresh_config}
use anytls_x.Env.{conn_write, set_write_deadline, time_now, Error, closed_pipe}
use anytls_x.Frame.Defs.{new_frame, Frame, encode, cmd_fin, cmd_syn}
use anytls_x.Frame.Stream.{IsFrame}
use anytls_x.Padding.Defs.{PaddingFactory}
use anytls_x.Shaper.Shaped.{visible}
use anytls_x.Session.Defs.{Net, new_stream_obj}
use anytls_x.Session.Write.{close, write_conn, write_control_frame, write_data_frame_shaped}
use anytls_x.Session.Line.{line, Adds, write_conn-Adds}
use anytls_x.Session.Control.{Speaks, write_control_frame-Speaks, write_control_frame_fails}
use anytls_x.Session.Carry.{IsData, payloads, Carries}
use anytls_x.Session.Split.{write_data_frame_shaped-Carries, write_data_frame_shaped-Speaks}
use anytls_x.Session.Loop.{on_frame, recv_loop}
use anytls_x.Session.Open.{IsSound}
use anytls_x.Session.Return.{on_frame-IsSound, recv_loop-closed}
use anytls_x.Frame.Stream.{wire, decode}
use anytls_x.Session.Closed.{IsTornDown, close_closes}
use anytls_x.Session.Heard.{write_data_frame_shaped_heard}
use anytls_x.Shaper.Defs.{write_initial_flush}
use anytls_x.Session.Opening.{open_stream}
use anytls_x.Session.Opened.{Opens, open_stream-Opens}
use anytls_x.Tests.Data.{calm, calm-IsRandom, start, scheme, server, net, net-Speaks, hello}

abbrev fin : Frame
fin = record { cmd = cmd_fin; sid = 1; payload = [] }

fin-IsFrame : IsFrame fin
fin-IsFrame = record { sid_fits = omega arith; payload_fits = omega arith; read_whole = inr refl }

write_data_frame_shaped-Speaks_example :
    (fs : List Frame) × Speaks (write_data_frame_shaped calm 1 hello false net).1 ([] ++ fs)
    × All (IsData 1) fs
    × (payloads fs ≡ hello)
    × ((write_data_frame_shaped calm 1 hello false net).0.n ≡ length hello)
unfolding write_data_frame_shaped write_data conn_write
write_data_frame_shaped-Speaks_example =
    write_data_frame_shaped-Speaks calm calm-IsRandom 1 hello false net [] (omega arith) net-Speaks
      refl

write_data_frame_shaped-Carries_example :
    Carries 1 (length hello) 0 hello net (write_data_frame_shaped calm 1 hello true net)
write_data_frame_shaped-Carries_example =
    write_data_frame_shaped-Carries calm calm-IsRandom 1 hello true net (omega arith)

write_control_frame-Speaks_example :
    Speaks (write_control_frame calm fin net).1 ([] ++ visible (fin ∷ []))
    × ((write_control_frame calm fin net).0.n ≡ length fin.payload)
unfolding write_control_frame encode write_control conn_write set_write_deadline time_now
    maybe_refresh_config bytes_eq fast_intn fill_random new_frame
write_control_frame-Speaks_example =
    write_control_frame-Speaks calm fin net [] fin-IsFrame net-Speaks refl

-- A session that was closed.
abbrev closed_net : Net
closed_net = record {
  sess = record server { closed = true; streams = [] };
  world = start;
  padding = scheme;
}

write_control_frame_fails_example :
    ((write_control_frame calm fin closed_net).0.n ≡ 0)
    × (((0xFFFF < length fin.payload) × ((write_control_frame calm fin closed_net).1 ≡ closed_net))
        ⊎ ((write_control_frame calm fin closed_net).1.sess.closed ≡ true))
unfolding write_control_frame
write_control_frame_fails_example = write_control_frame_fails calm fin closed_net closed_pipe refl

write_conn-Adds_example :
    Adds net (write_conn calm hello true net).1 hello (write_conn calm hello true net).0.error
write_conn-Adds_example = write_conn-Adds calm hello true net

close_closes_example :
    ((close calm net).0 ≡ calm.close_error)
    × ((close calm net).1.sess.closed ≡ true)
    × ((close calm net).1.sess.streams ≡ [])
    × ((close calm net).1.world.shut ≡ true)
    × All (λ kv. Any (IsTornDown (kv.1)) (close calm net).1.sess.retired) net.sess.streams
    × (close calm (close calm net).1 ≡ (some closed_pipe, (close calm net).1))
close_closes_example = close_closes calm net refl

net-IsSound : IsSound net.sess
unfolding new_stream_obj
net-IsSound = ((refl, tt), inl refl, inr (inl refl))

-- No pushed scheme parses.
abbrev no_scheme : List ℕ → Option PaddingFactory
no_scheme raw = none

on_frame-IsSound_example : IsSound (on_frame calm no_scheme true fin net).1.sess
on_frame-IsSound_example = on_frame-IsSound calm no_scheme true fin net net-IsSound refl

recv_loop-closed_example :
    let r = recv_loop calm no_scheme true (encode cmd_syn 2 [] ++ (9 ∷ [])) net in
    ((err : Option Error) × (r.0 ≡ some err)) × (r.1.sess.closed ≡ true) × (r.1.sess.streams ≡ [])
recv_loop-closed_example =
    recv_loop-closed calm no_scheme true (encode cmd_syn 2 [] ++ (9 ∷ [])) net net-IsSound

abbrev client_net : Net
client_net = record { sess = record server { is_client = true }; world = start; padding = scheme }

client_net-Speaks : Speaks client_net []
unfolding visible wire
client_net-Speaks = record { spoken = []; whole = tt; on_line = refl; heard = refl }

open_stream-Opens_example : Opens true [] client_net (open_stream calm true client_net)
unfolding open_stream write_control_frame encode write_initial_flush conn_write set_write_deadline
    time_now maybe_refresh_config bytes_eq fast_intn fill_random new_frame
open_stream-Opens_example = open_stream-Opens calm true client_net [] client_net-Speaks refl

write_data_frame_shaped_heard_example :
    (fs : List Frame) × (visible (decode (line (write_data_frame_shaped calm 1 hello false net).1))
      ≡ [] ++ fs)
    × All (IsData 1) fs
    × (payloads fs ≡ hello)
unfolding write_data_frame_shaped write_data conn_write
write_data_frame_shaped_heard_example =
    write_data_frame_shaped_heard calm calm-IsRandom 1 hello false net [] (omega arith) net-Speaks
      tt refl
