-- ===== src/Pool/Calls.antt =====
-- session/client.go: the methods of a client. `envs` gives each session the surroundings of its own
-- connection; `dial` is dialOut, numbered by its calls: it fails, or it gives a connection.
use anytls_x.Base.{
  ℕ, ◌*◌, zero, suc, ◌+◌, ◌-◌, ◌%◌, ◌^◌, Bool, true, false, ◌&&◌, ◌||◌, not, Option, none, some,
  List, [], ◌∷◌, ◌++◌, length, ltb, leb, ◌==◌, if◌then◌else◌, on_some, on_error,
}
use mathlib.Core.List.{map}
use anytls_x.Env.{Env, World, Error, closed_pipe, dial_failed, time_now, set_write_deadline}
use anytls_x.Text.Maps.{StringMap}
use anytls_x.Padding.Defs.{PaddingFactory}
use anytls_x.Session.Defs.{Session, Stream, lift, ◌>>=◌, find_stream}
use anytls_x.Session.Write.{close}
use anytls_x.Session.Opening.{open_stream}
use anytls_x.Shaper.Defs.{second}
use anytls_x.Session.Timers.{int32_le}
use anytls_x.Session.Start.{made_net, run_client}
use anytls_x.Pool.Idle.{IdleMap}
use anytls_x.Pool.Defs.{
  Node, Client, delete_seq, find_node, put_node, increased, decreased, change_node,
}
use anytls_x.Pool.Hooks.{close_later, run_session}

-- `s.IsClosed() || s.connBroken.Load()`
abbrev pub unusable : Node → Bool
unusable nd = nd.sess.closed || nd.sess.conn_broken

abbrev pub broken_open : Node → Bool
broken_open nd = nd.sess.conn_broken && not nd.sess.closed

unfoldable pub find_retired : ℕ → List Stream → Option Stream
find_retired sid [] = none
find_retired sid (st ∷ sts) =
    let rest = find_retired sid sts in on_some rest (if st.id == sid then some st else none) some

-- The stream that OpenStream handed back has died.
unfoldable pub has_died : Session → ℕ → Bool
unfolding find_retired
has_died s sid =
    let died = λ (st : Stream). on_some st.die_err false λ err. true in
    on_some (find_stream sid s.streams) (on_some (find_retired sid s.retired) false died) died

-- The round of leastLoadedSession on one session.
unfoldable pub lighter : ℕ → Option Node → Option (ℕ × ℕ) → Option (ℕ × ℕ)
lighter seq none best = best
lighter seq (some nd) best =
    if unusable nd
    then best
    else on_some best (some (seq, nd.active_streams))
        λ b. if int32_le (b.1) nd.active_streams then best else some (seq, nd.active_streams)

unfoldable pub lightest : List (ℕ × Node) → List ℕ → Option (ℕ × ℕ) → Option (ℕ × ℕ)
unfolding lighter
lightest nodes [] best = best
lightest nodes (seq ∷ seqs) best = lightest nodes seqs (lighter seq (find_node seq nodes) best)

-- time.Second*30 for a duration that is at most time.Second*5; a negative duration is 0 here.
abbrev pub at_least_5s : ℕ → ℕ
at_least_5s d = if leb d (5 * second) then 30 * second else d

-- NewClient, without the goroutine that calls idleCleanup.
unfoldable pub new_client : (im : IdleMap) → PaddingFactory → ℕ → ℕ → ℕ → Client im.T
new_client im padding timeout min_idle max_session = record {
  dead = false;
  session_counter = 0;
  idle = im.clear;
  sessions = [];
  nodes = [];
  closing = [];
  padding = padding;
  idle_session_timeout = at_least_5s timeout;
  min_idle_session = min_idle;
  max_session = max_session;
  mig_enabled = false;
  reads = 0;
}

module _ (im : IdleMap) (clock : ℕ → ℕ) (envs : ℕ → Env) where
  abbrev pub close_session : ℕ → Client im.T → Client im.T
  close_session seq c = (run_session im clock seq none (close (envs seq)) c).1

  unfoldable pub close_all : List ℕ → Client im.T → Client im.T
  close_all [] c = c
  close_all (seq ∷ seqs) c = close_all seqs (close_session seq c)

  -- The increment is taken back when no stream was made, or the one that was made has not died.
  unfoldable pub roll_back : ℕ → Option ℕ → Client im.T → Client im.T
  unfolding change_node has_died
  roll_back seq none c = change_node seq decreased c
  roll_back seq (some sid) c =
      on_some (find_node seq c.nodes) c
        λ nd. if has_died nd.sess sid then c else change_node seq decreased c

  -- openOn. The stream is named by its id.
  unfoldable pub open_on : ℕ → Client im.T → (Option ℕ × Option Error) × Client im.T
  unfolding roll_back
  open_on seq c =
      let r =
        run_session im clock seq (none, some closed_pipe) (open_stream (envs seq) true)
          (change_node seq increased c) in
      on_error (r.0.1) (r.0, r.1) λ err. ((none, some err), roll_back seq (r.0.0) (r.1))

  unfoldable pub active_session_count : Client im.T → ℕ
  active_session_count c = length c.sessions

  unfoldable pub least_loaded_session : Client im.T → Option ℕ
  unfolding lightest
  least_loaded_session c = on_some (lightest c.nodes c.sessions none) none λ b. some (b.0)

  -- What getIdleSession does with a session that it has taken off the list.
  abbrev pub drop_unusable : ℕ → Node → Client im.T → Client im.T
  drop_unusable seq nd c = if broken_open nd then close_later im clock seq c else c

  -- A round of getIdleSession: the first entry is taken off the list.
  unfoldable pub take_round :
      (Client im.T → Option ℕ × Client im.T) → List (ℕ × ℕ) → Client im.T → Option ℕ × Client im.T
  take_round again [] c = (none, c)
  take_round again ((key, seq) ∷ m) c =
      let taken = record c { idle = im.remove key c.idle } in
      on_some (find_node seq c.nodes) (again taken)
        λ nd. if unusable nd then again (drop_unusable seq nd taken) else (some seq, taken)

  -- Each round takes an entry off the list, so its length is fuel enough.
  unfoldable pub take_idle : ℕ → Client im.T → Option ℕ × Client im.T
  unfolding take_round
  take_idle zero c = (none, c)
  take_idle (suc fuel) c = take_round (take_idle fuel) (im.entries c.idle) c

  unfoldable pub get_idle_session : Client im.T → Option ℕ × Client im.T
  unfolding take_idle
  get_idle_session c = take_idle (length (im.entries c.idle)) c

  -- createSession on what dialOut gave: the state of a new connection, or none for an error.
  unfoldable pub create_session :
      (StringMap → StringMap) → Option World → Client im.T → Option ℕ × Client im.T
  create_session order none c = (none, c)
  create_session order (some w) c =
      let seq = (c.session_counter + 1) % 2 ^ 64 in
      let n = made_net (envs seq) c.mig_enabled c.padding w in
      let nd : Node = record {
        sess = n.sess;
        world = n.world;
        active_streams = 0;
        idle_since = 0;
      } in
      let made = record c {
        session_counter = seq;
        nodes = put_node seq nd c.nodes;
        sessions = seq ∷ delete_seq seq c.sessions;
      } in
      (some seq, (run_session im clock seq tt (run_client (envs seq) order) made).1)

  -- What CreateStream answers: the session and the stream, or an error.
  abbrev pub Answer : Type 0
  Answer = (Option (ℕ × ℕ) × Option Error) × Client im.T

  -- A stream opened on a session, or what comes next.
  unfoldable pub open_or : ℕ → Client im.T → (Client im.T → Answer) → Answer
  unfolding open_on
  open_or seq c next =
      let r = open_on seq c in on_some (r.0.0) (next r.1) λ sid. ((some (seq, sid), none), r.1)

  unfoldable pub open_dialed : Option ℕ × Client im.T → Answer
  unfolding open_or
  open_dialed (none, c) = ((none, some dial_failed), c)
  open_dialed (some seq, c) = open_or seq c λ d. ((none, (open_on seq c).0.1), close_session seq d)

  -- The session cap: a stream is opened on the least loaded session, or a new one is dialled.
  unfoldable pub open_capped : (StringMap → StringMap) → Option World → Client im.T → Answer
  unfolding open_dialed create_session least_loaded_session active_session_count
  open_capped order dialed c =
      let fresh = λ (d : Client im.T). open_dialed (create_session order dialed d) in
      if ltb 0 c.max_session && leb c.max_session (active_session_count c)
      then on_some (least_loaded_session c) (fresh c) (λ seq. open_or seq c fresh)
      else fresh c

  unfoldable pub create_stream : (StringMap → StringMap) → Option World → Client im.T → Answer
  unfolding open_capped get_idle_session
  create_stream order dialed c =
      let r = get_idle_session c in
      let capped = open_capped order dialed in
      if c.dead
      then ((none, some closed_pipe), c)
      else (on_some (r.0) (capped r.1) λ seq. open_or seq r.1 (λ d. capped (close_session seq d)))

  -- Client.Close.
  unfoldable pub close_client : Client im.T → Client im.T
  unfolding close_all
  close_client c = close_all c.sessions (record c { dead = true; sessions = [] })

  -- SetWriteDeadline to a time that has passed.
  unfoldable pub abort_writes : List ℕ → Client im.T → Client im.T
  abort_writes [] c = c
  abort_writes (seq ∷ seqs) c =
      abort_writes seqs
        (run_session im clock seq tt
          (do t ← lift (time_now (envs seq)); lift (set_write_deadline (some (t - second)))) c).1

  -- Reset: the idle list is cleared, every session is to be closed.
  unfoldable pub reset : Client im.T → Client im.T
  unfolding abort_writes
  reset c =
      let all = c.sessions ++ map (λ (kv : ℕ × ℕ). kv.1) (im.entries c.idle) in
      let aborted = abort_writes all (record c { idle = im.clear }) in
      if c.dead then c else record aborted { closing = aborted.closing ++ all }

  -- A goroutine that closes a session runs.
  unfoldable pub run_closing : List ℕ → Client im.T → Client im.T
  run_closing [] c = c
  run_closing (seq ∷ seqs) c = close_session seq (record c { closing = seqs })
