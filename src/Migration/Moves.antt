-- ===== src/Migration/Moves.antt =====
-- session/migration.go: a streamMig through any calls of its methods, in any order.
use anytls_x.Base.{
  ℕ, ◌≡◌, refl, sym, Bool, true, ◌||◌, not, Option, some, List, [], ◌∷◌, if_cases, on_some_cases,
  if◌then◌else◌, arith,
}
use anytls_x.Env.{Error, end_of_file}
use anytls_x.Frame.Defs.{cmd_uplink_fin}
use anytls_x.Migration.Registry.{Token}
use anytls_x.Migration.Defs.{
  StreamMig, CarrierRead, act, control, greet_carrier, carrier_frame, pipe_close, new_stream_mig,
  observe_server_read, mig_write, begin_migration_payload, close_carrier, end_of_stream,
  close_write, maybe_client_cutover, client_on_migrate_go, client_start_carrier,
  server_attach_carrier, server_on_uplink_fin, pump_error, pump_bytes, pump_loop, finish_pump,
  carrier_to_pipe,
}
use anytls_x.Migration.Seam.{
  crossed, half_closed, released, IsSeam, IsMoving, observe_server_read-IsMoving,
  mig_write-IsMoving, close_carrier-IsMoving, maybe_full_close_carrier-IsMoving,
  end_of_stream-IsMoving, close_write-IsMoving, server_attach_carrier-IsMoving,
  server_on_uplink_fin-IsMoving,
}

maybe_client_cutover-IsMoving : (m : StreamMig) → IsMoving m → IsMoving (maybe_client_cutover m)
unfolding maybe_client_cutover IsSeam crossed half_closed released
maybe_client_cutover-IsMoving m h =
    if_cases IsMoving (not m.carrier_ready || not m.go_seen || m.cut_over) _ _ (λ _. h)
      λ go.
        let up : m.carrier_ready ≡ true = ground (arith, go) in
        let switched : StreamMig =
          if m.stream_died
          then record m { cut_over = true }
          else act (control cmd_uplink_fin [])
              (record m { cut_over = true; write_conn = m.carrier }) in
        let moved : IsMoving switched =
          if_cases IsMoving m.stream_died _ _ (λ _. h) λ _. (h.0, sym (h.4 up), h.2, h.3, h.4) in
        on_some_cases IsMoving m.carrier _ _ (λ _. moved) λ conn _. moved

client_on_migrate_go-IsMoving : (m : StreamMig) → IsMoving m → IsMoving (client_on_migrate_go m)
unfolding client_on_migrate_go IsSeam crossed half_closed released
client_on_migrate_go-IsMoving m h = maybe_client_cutover-IsMoving (record m { go_seen = true }) h

client_start_carrier-IsMoving :
    (tok : Token) (filler : List ℕ) (dialled : Option ℕ) (wrote : Bool) (m : StreamMig)
    → IsMoving m
    → IsMoving (client_start_carrier tok filler dialled wrote m)
unfolding client_start_carrier IsSeam crossed half_closed released
client_start_carrier-IsMoving tok filler dialled wrote m h =
    on_some_cases IsMoving dialled _ _ (λ _. h)
      λ conn _.
        let m' : StreamMig =
          act (greet_carrier conn (carrier_frame m.sid tok filler))
            (record m { carrier = some conn }) in
        let h' : IsMoving m' = (h.0, h.1, h.2, h.3, λ _. refl) in
        if_cases IsMoving wrote _ _
          (λ _.
            maybe_client_cutover-IsMoving (record m' { carrier_ready = true })
              (h.0, h.1, h.2, h.3, λ _. refl))
          λ _. close_carrier-IsMoving m' h'

pump_bytes-IsMoving : (r : CarrierRead) (m : StreamMig) → IsMoving m → IsMoving (pump_bytes r m)
unfolding pump_bytes IsSeam crossed half_closed released
pump_bytes-IsMoving r m h = if_cases IsMoving _ _ _ (λ _. h) λ _. h

pump_loop-IsMoving :
    (rs : List CarrierRead) (m : StreamMig) → IsMoving m → IsMoving (pump_loop rs m).0
unfolding pump_loop
pump_loop-IsMoving [] m h = h
pump_loop-IsMoving (r ∷ rs) m h =
    on_some_cases (λ (x : StreamMig × Option Error). IsMoving x.0) (pump_error r) _ _
      (λ _. pump_loop-IsMoving rs (pump_bytes r m) (pump_bytes-IsMoving r m h))
      λ err _. pump_bytes-IsMoving r m h

torn_down : (m : StreamMig) → IsMoving m → IsMoving (end_of_stream (close_carrier m))
torn_down m h = end_of_stream-IsMoving (close_carrier m) (close_carrier-IsMoving m h)

finish_pump-IsMoving : (err : Error) (m : StreamMig) → IsMoving m → IsMoving (finish_pump err m)
unfolding finish_pump IsSeam crossed half_closed released
finish_pump-IsMoving err m h = elim err as (λ x. IsMoving (finish_pump x m)) [
  | end_of_file ↦
      maybe_full_close_carrier-IsMoving (act pipe_close (record m { read_half_closed = true })) h
  | _ ↦ torn_down m h
]

carrier_to_pipe-IsMoving :
    (rs : List CarrierRead) (m : StreamMig) → IsMoving m → IsMoving (carrier_to_pipe rs m)
unfolding carrier_to_pipe
carrier_to_pipe-IsMoving rs m h =
    on_some_cases IsMoving (pump_loop rs m).1 _ _ (λ _. pump_loop-IsMoving rs m h)
      λ err _. finish_pump-IsMoving err (pump_loop rs m).0 (pump_loop-IsMoving rs m h)

-- A call of a method from outside; the watchdog is `carrier_timed_out`.
pub data MigCall : Type 0 where
  payload_begins : MigCall
  reads_uplink : Bool → Option Token → List ℕ → MigCall
  writes : Bool → Option Token → List ℕ → MigCall
  sees_migrate_go : MigCall
  starts_carrier : Token → List ℕ → Option ℕ → Bool → MigCall
  attaches : ℕ → MigCall
  sees_uplink_fin : MigCall
  pumps : List CarrierRead → MigCall
  closes_write : MigCall
  stream_ends : MigCall
  carrier_timed_out : MigCall

unfoldable pub run_call : MigCall → StreamMig → StreamMig
run_call payload_begins m = begin_migration_payload m
run_call (reads_uplink has drawn p) m = observe_server_read has drawn p m
run_call (writes has drawn p) m = mig_write has drawn p m
run_call sees_migrate_go m = client_on_migrate_go m
run_call (starts_carrier tok filler dialled wrote) m =
    client_start_carrier tok filler dialled wrote m
run_call (attaches conn) m = server_attach_carrier conn m
run_call sees_uplink_fin m = server_on_uplink_fin m
run_call (pumps rs) m = carrier_to_pipe rs m
run_call closes_write m = close_write m
run_call stream_ends m = end_of_stream m
run_call carrier_timed_out m = close_carrier m

unfoldable pub run_calls : List MigCall → StreamMig → StreamMig
run_calls [] m = m
run_calls (c ∷ cs) m = run_calls cs (run_call c m)

run_call-IsMoving : (c : MigCall) (m : StreamMig) → IsMoving m → IsMoving (run_call c m)
unfolding run_call begin_migration_payload IsSeam crossed half_closed released
run_call-IsMoving payload_begins m h = h
run_call-IsMoving (reads_uplink has drawn p) m h = observe_server_read-IsMoving has drawn p m h
run_call-IsMoving (writes has drawn p) m h = mig_write-IsMoving has drawn p m h
run_call-IsMoving sees_migrate_go m h = client_on_migrate_go-IsMoving m h
run_call-IsMoving (starts_carrier tok filler dialled wrote) m h =
    client_start_carrier-IsMoving tok filler dialled wrote m h
run_call-IsMoving (attaches conn) m h = server_attach_carrier-IsMoving conn m h
run_call-IsMoving sees_uplink_fin m h = server_on_uplink_fin-IsMoving m h
run_call-IsMoving (pumps rs) m h = carrier_to_pipe-IsMoving rs m h
run_call-IsMoving closes_write m h = close_write-IsMoving m h
run_call-IsMoving stream_ends m h = end_of_stream-IsMoving m h
run_call-IsMoving carrier_timed_out m h = close_carrier-IsMoving m h

run_calls-IsMoving : (cs : List MigCall) (m : StreamMig) → IsMoving m → IsMoving (run_calls cs m)
unfolding run_calls
run_calls-IsMoving [] m h = h
run_calls-IsMoving (c ∷ cs) m h = run_calls-IsMoving cs (run_call c m) (run_call-IsMoving c m h)

-- A new streamMig, through any calls of its methods in any order, has written data on the session
-- only before its first barrier frame (cmdMigrateGo or cmdUplinkFin) and on the carrier only behind
-- one, has half-closed the carrier at most once, and has closed doneCh at most once.
pub run_calls-IsSeam :
    (cs : List MigCall) (is_client : Bool) (min_bulk : ℕ) (tls_only : Bool) (sid : ℕ)
    → IsSeam (run_calls cs (new_stream_mig is_client min_bulk tls_only sid)).acts
unfolding new_stream_mig IsSeam crossed half_closed released
run_calls-IsSeam cs is_client min_bulk tls_only sid =
    (run_calls-IsMoving cs (new_stream_mig is_client min_bulk tls_only sid)
      (tt, refl, refl, refl, λ ready. absurd (ground (arith, ready)))).0
