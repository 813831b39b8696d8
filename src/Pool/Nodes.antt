-- ===== src/Pool/Nodes.antt =====
-- session/client.go: the sessions that the client made, looked up behind a change of one.
use anytls_x.Base.{ℕ, ◌≡◌, ◌≢◌, some, List, [], ◌∷◌, arith}
use anytls_x.Pool.Defs.{Node, find_node, put_node}

pub find_node-put_node :
    (k : ℕ) (nd : Node) (m : List (ℕ × Node)) → find_node k (put_node k nd m) ≡ some nd
unfolding find_node put_node
find_node-put_node k nd [] = ground arith
find_node-put_node k nd ((j, x) ∷ m) = ground (arith, find_node-put_node k nd m)

pub find_node_other :
    (k j : ℕ) (nd : Node) (m : List (ℕ × Node))
    → k ≢ j
    → find_node k (put_node j nd m) ≡ find_node k m
unfolding find_node put_node
find_node_other k j nd [] h = ground (arith, h)
find_node_other k j nd ((i, x) ∷ m) h = ground (arith, h, find_node_other k j nd m h)
