-- ===== src/Tests/Pools.antt =====
-- The client's pool, timers and the start of a session, at concrete states.
use anytls_x.Base.{ℕ, ◌≤◌, refl, ◌⊎◌, true, false, List, [], ◌∷◌, arith, length, All, inl, inr}
use anytls_x.Env.{Env}
use anytls_x.Text.Maps.{StringMap, to_bytes, line_of}
use anytls_x.Text.Strings.{join}
use anytls_x.Session.Defs.{Session, find_stream, new_stream_obj}
use anytls_x.Session.Open.{IsSound}
use anytls_x.Session.Control.{Speaks}
use anytls_x.Session.Timers.{fire_syn_timer}
use anytls_x.Session.Spared.{Fires, fire_syn_timer-Fires}
use anytls_x.Session.Start.{made_net, run_client, settings_frame}
use anytls_x.Session.Started.{run_client-Speaks}
use anytls_x.Pool.Idle.{list_map}
use anytls_x.Pool.Defs.{Node, Client, find_node, idle_key}
use anytls_x.Pool.Calls.{open_on, close_session, get_idle_session, least_loaded_session}
use anytls_x.Pool.Cleanup.{sweep_idle}
use anytls_x.Pool.Counted.{hook_count}
use anytls_x.Pool.Opening.{Counts, open_on-Counts}
use anytls_x.Pool.Closing.{Forgotten, close_session-Forgotten}
use anytls_x.Pool.Least.{IsLeast, least_loaded_session-IsLeast}
use anytls_x.Pool.Taken.{IsTaken, get_idle_session-IsTaken}
use anytls_x.Pool.Rounds.{IsClosable, count_keepable}
use anytls_x.Pool.Swept.{sweep_idle_spares}
use anytls_x.Tests.Data.{calm, start, scheme, server, net}

abbrev ticks : ℕ → ℕ
ticks i = i

abbrev envs : ℕ → Env
envs i = calm

abbrev in_turn : StringMap → StringMap
in_turn m = m

-- A session of the client that is idle: its one stream is not the client's.
abbrev idle_session : Session
idle_session = record server { is_client = true; hooked = true; stream_id = 1 }

abbrev idle_node : Node
idle_node = record { sess = idle_session; world = start; active_streams = 0; idle_since = 0 }

abbrev pool : Client (List (ℕ × ℕ))
pool = record {
  dead = false;
  session_counter = 1;
  idle = (idle_key 1, 1) ∷ [];
  sessions = 1 ∷ [];
  nodes = (1, idle_node) ∷ [];
  closing = [];
  padding = scheme;
  idle_session_timeout = 30;
  min_idle_session = 0;
  max_session = 1;
  mig_enabled = false;
  reads = 100;
}

open_on-Counts_example : Counts list_map ticks envs (open_on list_map ticks envs 1 pool).1 1
unfolding find_node find_stream hook_count new_stream_obj
open_on-Counts_example =
    open_on-Counts list_map ticks envs 1 idle_node pool refl refl (omega arith) refl refl

close_session-Forgotten_example :
    Forgotten list_map ticks envs 1 (close_session list_map ticks envs 1 pool)
unfolding find_node hook_count new_stream_obj
close_session-Forgotten_example =
    close_session-Forgotten list_map ticks envs 1 idle_node pool refl refl refl refl (omega arith)

get_idle_session-IsTaken_example :
    IsTaken list_map ticks envs pool (get_idle_session list_map ticks envs pool)
get_idle_session-IsTaken_example = get_idle_session-IsTaken list_map ticks envs pool

least_loaded_session-IsLeast_example :
    IsLeast pool.nodes pool.sessions (least_loaded_session list_map ticks envs pool)
least_loaded_session-IsLeast_example = least_loaded_session-IsLeast list_map ticks envs pool

sweep_idle_spares_example :
    ((pool.min_idle_session ≤ (sweep_idle list_map ticks pool).active_count)
      ⊎ (count_keepable pool.nodes (list_map.entries pool.idle)
          ≤ (sweep_idle list_map ticks pool).active_count))
    × All
        (λ seq. IsClosable (ticks pool.reads) pool.idle_session_timeout (find_node seq pool.nodes))
        (sweep_idle list_map ticks pool).to_close
    × ((sweep_idle list_map ticks pool).active_count
        ≤ length (list_map.entries (sweep_idle list_map ticks pool).client.idle))
sweep_idle_spares_example = sweep_idle_spares list_map ticks pool (tt, tt)

server-IsSound : IsSound net.sess
unfolding new_stream_obj
server-IsSound = ((refl, tt), inl refl, inr (inl refl))

fire_syn_timer-Fires_example :
    Fires calm 2 1
      (new_stream_obj 1 false)
      net
      (fire_syn_timer calm 2 1 (new_stream_obj 1 false) net).1
unfolding find_stream
fire_syn_timer-Fires_example =
    fire_syn_timer-Fires calm 2 1 (new_stream_obj 1 false) net server-IsSound refl (omega arith)
      (omega arith)

run_client-Speaks_example :
    Speaks
      (run_client calm in_turn (made_net calm true scheme start)).1
      (settings_frame in_turn scheme true ∷ [])
unfolding settings_frame to_bytes join line_of
run_client-Speaks_example = run_client-Speaks calm in_turn true scheme start refl (omega arith)
