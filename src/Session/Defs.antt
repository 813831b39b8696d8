-- ===== src/Session/Defs.antt =====
-- session/session.go and session/stream.go: the state of a session and of its streams, and the monad
-- of the operations on it. A session is modelled as one thread of calls: connLock and streamLock are
-- held for the length of a call, and what TryLock finds is the environment's.
use anytls_x.Base.{
  ℕ, Bool, true, false, ◌&&◌, Option, none, some, List, [], ◌∷◌, ◌++◌, ◌==◌, if◌then◌else◌,
}
use anytls_x.Env.{World, M, Error, net_closed}
use anytls_x.Padding.Defs.{PaddingFactory}
use anytls_x.Shaper.Defs.{RecordShaper}

-- A time.Timer: never made, running, or stopped.
pub data Timer : Type 0 where
  unset running stopped : Timer

-- `received` is what pipeW took for the reader, and `pipe_closed` says that the carrier's clean end has
-- closed pipeW (carrierToPipe), which no call of the session does; `migrating` says that Stream.mig is not nil, and
-- `hooked` that dieHook is not.
pub record Stream : Type 0 where
  pub id : ℕ
  pub received : List ℕ
  pub pipe_closed : Bool
  pub die_err : Option Error
  pub hooked : Bool
  pub reported : Bool
  pub frame_seq : ℕ
  pub syn_timer : Timer
  pub migrating : Bool

-- Calls out of the session: hooks, goroutines, the migration component and the logger.
pub data Event : Type 0 where
  new_stream : ℕ → Event
  stream_hook : ℕ → Event
  session_hook : Event
  start_carrier : ℕ → List ℕ → Event
  migrate_go : ℕ → Event
  uplink_fin : ℕ → Event
  idle_loop : Event
  log_alert : List ℕ → Event
  log_updated log_not_updated : List ℕ → Event
  log_refused : Event
  log_syn_ack_timeouts : Event

-- `streams` is the map of the open streams; `retired` are the streams that left it.
pub record Session : Type 0 where
  pub is_client : Bool
  pub closed : Bool
  pub conn_broken : Bool
  pub hooked : Bool
  pub idle_ready : Bool
  pub idle_loop_started : Bool
  pub stream_id : ℕ
  pub streams : List (ℕ × Stream)
  pub retired : List Stream
  pub consecutive_syn_ack_timeouts : ℕ
  pub last_heart_resp : ℕ
  pub peer_version : ℕ
  pub buffering : Bool
  pub buffer : List ℕ
  pub shaper : RecordShaper
  pub recv_bytes : ℕ
  pub wnd_update_base : ℕ
  pub wnd_update_trigger : ℕ
  pub received_settings : Bool
  pub mig_active : Bool
  pub has_registry : Bool
  pub events : List Event

-- A session with the connection under it and the padding scheme in force, which the client shares
-- among its sessions.
pub record Net : Type 0 where
  pub sess : Session
  pub world : World
  pub padding : PaddingFactory

abbrev pub P : Type 0 → Type 0
P A = Net → A × Net

infixl 5 ◌>>=◌ ◌>>◌
abbrev pub ◌>>=◌ : {A B : Type 0} → P A → (A → P B) → P B
◌>>=◌ m f n = f (m n).0 (m n).1

abbrev pub ◌>>◌ : {B : Type 0} → P (Unit {0}) → P B → P B
◌>>◌ m k n = k (m n).1

abbrev pub pure : {A : Type 0} → A → P A
pure a n = (a, n)

-- A call on the connection, the clock or the generator.
abbrev pub lift : {A : Type 0} → M A → P A
lift m n = ((m n.world).0, record n { world = (m n.world).1 })

abbrev pub get : P Session
get n = (n.sess, n)

abbrev pub modify : (Session → Session) → P (Unit {0})
modify f n = (tt, record n { sess = f n.sess })

abbrev pub when : Bool → P (Unit {0}) → P (Unit {0})
when b m n = if b then m n else (tt, n)

-- The map of streams.
unfoldable pub find_stream : ℕ → List (ℕ × Stream) → Option Stream
find_stream k [] = none
find_stream k ((j, s) ∷ m) = if j == k then some s else find_stream k m

unfoldable pub put_stream : ℕ → Stream → List (ℕ × Stream) → List (ℕ × Stream)
put_stream k s [] = (k, s) ∷ []
put_stream k s ((j, t) ∷ m) = if j == k then (k, s) ∷ m else (j, t) ∷ put_stream k s m

unfoldable pub delete_stream : ℕ → List (ℕ × Stream) → List (ℕ × Stream)
delete_stream k [] = []
delete_stream k ((j, t) ∷ m) =
    let rest = delete_stream k m in if j == k then rest else (j, t) ∷ rest

-- A record of what a session shows.
abbrev pub emit : Event → P (Unit {0})
emit ev = modify λ s. record s { events = s.events ++ (ev ∷ []) }

abbrev pub stop_timer : Timer → Timer
stop_timer unset = unset
stop_timer running = stopped
stop_timer stopped = stopped

-- newStream: rail-switch state exactly if the session has it active.
unfoldable pub new_stream_obj : ℕ → Bool → Stream
new_stream_obj id mig_active = record {
  id = id;
  received = [];
  pipe_closed = false;
  die_err = none;
  hooked = false;
  reported = false;
  frame_seq = 0;
  syn_timer = unset;
  migrating = mig_active;
}

-- The body of dieOnce, in closeLocally and in closeWithError, with the dieHook call behind it: it runs
-- for a stream that has no error yet, and says whether it ran.
unfoldable pub die_once : Error → Stream → Stream × Bool
die_once err s = elim s.die_err [
  | none ↦
      (record s { die_err = some err; syn_timer = stop_timer s.syn_timer; hooked = false }, true)
  | some e ↦ (s, false)
]

-- dieHook is called if it is set and dieOnce ran.
abbrev pub hook_events : Stream → Bool → List Event
hook_events s ran = if ran && s.hooked then stream_hook s.id ∷ [] else []

-- closeLocally on every stream of the map, in Session.Close.
unfoldable pub close_streams : List (ℕ × Stream) → List Stream × List Event
unfolding die_once
close_streams [] = ([], [])
close_streams ((k, s) ∷ m) =
    let (s', ran) = die_once net_closed s in
    let (rest, evs) = close_streams m in (s' ∷ rest, hook_events s ran ++ evs)
