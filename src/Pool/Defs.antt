-- ===== src/Pool/Defs.antt =====
-- session/client.go: the state of a client. A session is named by its number (seq); `nodes` holds every
-- session that the client made, and `sessions` the numbers in the client's map, in the order in which
-- Go ranges over it. The fields of Session that only the client uses are here.
use anytls_x.Base.{
  ℕ, ◌+◌, ◌-◌, ◌%◌, ◌^◌, Bool, Option, none, some, List, [], ◌∷◌, ◌==◌, if◌then◌else◌, on_some,
}
use anytls_x.Env.{World}
use anytls_x.Padding.Defs.{PaddingFactory}
use anytls_x.Session.Defs.{Session, Net}

-- `active_streams` is an int32 as its 32 bits.
pub record Node : Type 0 where
  pub sess : Session
  pub world : World
  pub active_streams : ℕ
  pub idle_since : ℕ

-- `reads` counts the readings of the client's clock; `closing` are the sessions that a new goroutine
-- is to close.
pub record Client (T : Type 0) : Type 0 where
  pub dead : Bool
  pub session_counter : ℕ
  pub idle : T
  pub sessions : List ℕ
  pub nodes : List (ℕ × Node)
  pub closing : List ℕ
  pub padding : PaddingFactory
  pub idle_session_timeout : ℕ
  pub min_idle_session : ℕ
  pub max_session : ℕ
  pub mig_enabled : Bool
  pub reads : ℕ

unfoldable pub find_node : ℕ → List (ℕ × Node) → Option Node
find_node k [] = none
find_node k ((j, nd) ∷ m) = if j == k then some nd else find_node k m

unfoldable pub put_node : ℕ → Node → List (ℕ × Node) → List (ℕ × Node)
put_node k nd [] = (k, nd) ∷ []
put_node k nd ((j, old) ∷ m) = if j == k then (k, nd) ∷ m else (j, old) ∷ put_node k nd m

-- delete(c.sessions, seq)
unfoldable pub delete_seq : ℕ → List ℕ → List ℕ
delete_seq k [] = []
delete_seq k (j ∷ js) = let rest = delete_seq k js in if j == k then rest else j ∷ rest

-- math.MaxUint64-session.seq: the newest session has the least key.
abbrev pub idle_key : ℕ → ℕ
idle_key seq = 2 ^ 64 - 1 - seq

-- Add(1) and Add(-1) on an atomic.Int32.
abbrev pub increased : Node → Node
increased nd = record nd { active_streams = (nd.active_streams + 1) % 2 ^ 32 }

abbrev pub decreased : Node → Node
decreased nd = record nd { active_streams = (nd.active_streams + (2 ^ 32 - 1)) % 2 ^ 32 }

unfoldable pub change_node : {T : Type 0} → ℕ → (Node → Node) → Client T → Client T
change_node seq f c =
    on_some (find_node seq c.nodes) c λ nd. record c { nodes = put_node seq (f nd) c.nodes }

-- A session with the connection under it and the scheme that the client's sessions share.
abbrev pub net_of : PaddingFactory → Node → Net
net_of padding nd = record { sess = nd.sess; world = nd.world; padding = padding }

abbrev pub with_net : Net → Node → Node
with_net n nd = record nd { sess = n.sess; world = n.world }
