-- ===== src/Migration/Registry.antt =====
-- session/migration.go, MigRegistry. A token is a list of bytes; a pending streamMig is named by a
-- number, as a pointer is.
use anytls_x.Base.{ℕ, Option, none, some, List, [], ◌∷◌, bytes_eq, ◌==◌, if◌then◌else◌, on_some}

abbrev pub Token : Type 0
Token = List ℕ

abbrev pub MigRegistry : Type 0
MigRegistry = List (Token × ℕ)

unfoldable pub pending_of : Token → MigRegistry → Option ℕ
pending_of tok [] = none
pending_of tok (e ∷ r) =
    let rest = pending_of tok r in if bytes_eq tok (e.0) then some (e.1) else rest

-- delete of a Go map.
unfoldable pub forget_token : Token → MigRegistry → MigRegistry
forget_token tok [] = []
forget_token tok (e ∷ r) =
    let rest = forget_token tok r in if bytes_eq tok (e.0) then rest else e ∷ rest

-- The assignment of register.
unfoldable pub register_token : Token → ℕ → MigRegistry → MigRegistry
unfolding forget_token
register_token tok sm r = (tok, sm) ∷ forget_token tok r

-- What register has run after migRegistryTTL.
unfoldable pub expire_token : Token → ℕ → MigRegistry → MigRegistry
unfolding pending_of forget_token
expire_token tok sm r =
    on_some (pending_of tok r) r λ held. if held == sm then forget_token tok r else r

unfoldable pub take_token : Token → MigRegistry → Option ℕ × MigRegistry
unfolding pending_of forget_token
take_token tok r = (pending_of tok r, forget_token tok r)
