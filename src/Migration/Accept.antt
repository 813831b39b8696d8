-- ===== src/Migration/Accept.antt =====
-- session/migration.go, MaybeAcceptCarrier, over the bytes that a connection sends before it waits or ends.
use anytls_x.Base.{ℕ, ◌||◌, Option, some, List, ◌++◌, take, ltb, ◌==◌, if◌then◌else◌, on_some}
use anytls_x.Frame.Defs.{header_cmd, header_length, read_full, cmd_migrate_carrier}
use anytls_x.Session.Greet.{mig_token_len}
use anytls_x.Migration.Registry.{Token, MigRegistry, take_token}

abbrev pub mig_carrier_max_data : ℕ
mig_carrier_max_data = 4096

-- What becomes of the connection: the header could not be read; the bytes are handed back for a
-- session; it is closed; or it goes to the serverAttachCarrier of a streamMig.
pub data Accepted : Type 0 where
  header_failed : Accepted
  handed_back : List ℕ → Accepted
  shut : Accepted
  attached : ℕ → Accepted

-- The token is known now; `reg` is none for a nil registry.
unfoldable pub present_token : Token → Option MigRegistry → Accepted × Option MigRegistry
unfolding take_token
present_token tok reg =
    on_some reg (shut, reg)
      λ r. let t = take_token tok r in (on_some (t.0) shut attached, some (t.1))

unfoldable pub accept_payload : List ℕ → List ℕ → Option MigRegistry → Accepted × Option MigRegistry
unfolding present_token
accept_payload hdr rest reg =
    if ltb (header_length hdr) mig_token_len || ltb mig_carrier_max_data (header_length hdr)
    then (shut, reg)
    else on_some (read_full (header_length hdr) rest) (shut, reg)
        λ r. present_token (take mig_token_len (r.0)) reg

unfoldable pub maybe_accept_carrier : List ℕ → Option MigRegistry → Accepted × Option MigRegistry
unfolding accept_payload
maybe_accept_carrier input reg =
    on_some (read_full 7 input) (header_failed, reg)
      λ r.
        if header_cmd (r.0) == cmd_migrate_carrier
        then accept_payload (r.0) (r.1) reg
        else (handed_back (r.0 ++ r.1), reg)
