-- ===== src/Session/Delivery.antt =====
-- session/session.go: the map of streams, behind an assignment.
use anytls_x.Base.{ℕ, ◌≡◌, some, List, [], ◌∷◌, arith}
use anytls_x.Session.Defs.{Stream, find_stream, put_stream}

pub find_stream-put_stream :
    (k : ℕ) (st : Stream) (m : List (ℕ × Stream)) → find_stream k (put_stream k st m) ≡ some st
unfolding find_stream put_stream
find_stream-put_stream k st [] = ground arith
find_stream-put_stream k st ((j, s) ∷ m) = ground (arith, find_stream-put_stream k st m)
