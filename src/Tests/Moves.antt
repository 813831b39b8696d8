-- ===== src/Tests/Moves.antt =====
-- The move of a stream to a carrier, at concrete calls.
use anytls_x.Base.{ℕ, ◌≡◌, refl, true, false, none, some, List, [], ◌∷◌, ◌++◌, arith}
use anytls_x.Env.{end_of_file}
use anytls_x.Frame.Defs.{cmd_uplink_fin}
use anytls_x.Migration.Registry.{Token, MigRegistry, register_token, forget_token}
use anytls_x.Migration.Defs.{
  close_carrier, end_of_stream, carrier_to_pipe, close_write, mig_write, client_on_migrate_go,
  client_start_carrier, StreamMig, new_stream_mig, carrier_frame, control, mux_write, carrier_write,
  greet_carrier, pump, half_close, shut_carrier, release, pipe_write, pipe_close, watchdog,
  end_stream,
}
use anytls_x.Migration.Accept.{attached, shut, maybe_accept_carrier}
use anytls_x.Migration.Taken.{maybe_accept_carrier_once}
use anytls_x.Migration.Seam.{IsSeam}
use anytls_x.Migration.Moves.{
  MigCall, writes, sees_migrate_go, starts_carrier, pumps, closes_write, stream_ends,
  carrier_timed_out, run_call, run_calls, run_calls-IsSeam,
}

abbrev token : Token
token = 1 ∷ 2 ∷ 3 ∷ 4 ∷ 5 ∷ 6 ∷ 7 ∷ 8 ∷ 9 ∷ 10 ∷ 11 ∷ 12 ∷ 13 ∷ 14 ∷ 15 ∷ 16 ∷ []

abbrev padding : List ℕ
padding = 0 ∷ 0 ∷ 0 ∷ []

abbrev others : MigRegistry
others = (2 ∷ [], 9) ∷ []

maybe_accept_carrier_once_example :
    (maybe_accept_carrier
        (carrier_frame 5 token padding ++ (7 ∷ []))
        (some (register_token token 4 others))
      ≡ (attached 4, some (forget_token token others)))
    × (maybe_accept_carrier
          (carrier_frame 5 token padding ++ (7 ∷ []))
          (some (forget_token token others))
        ≡ (shut, some (forget_token token others)))
maybe_accept_carrier_once_example =
    maybe_accept_carrier_once 5 4 token padding (7 ∷ []) others (omega arith) refl (omega arith)

abbrev client : StreamMig
client = new_stream_mig true 0 false 5

-- A client whose stream is written to, cut over, written to again and ended from both sides.
abbrev whole_life : List MigCall
whole_life =
    writes true none (1 ∷ [])
    ∷ starts_carrier token [] (some 8) true
    ∷ sees_migrate_go
    ∷ writes true none (2 ∷ [])
    ∷ closes_write
    ∷ pumps (record { bytes = 3 ∷ []; read_error = some end_of_file; pipe_error = none } ∷ [])
    ∷ stream_ends
    ∷ carrier_timed_out
    ∷ []

run_calls-IsSeam_example : IsSeam (run_calls whole_life client).acts
run_calls-IsSeam_example = run_calls-IsSeam whole_life true 0 false 5

whole_life_runs : (run_calls whole_life client).acts ≡ (
    end_stream
    ∷ watchdog
    ∷ release
    ∷ shut_carrier 8
    ∷ pipe_close
    ∷ pipe_write (3 ∷ [])
    ∷ half_close 8
    ∷ carrier_write 8 (2 ∷ [])
    ∷ pump 8
    ∷ control cmd_uplink_fin []
    ∷ greet_carrier 8 (carrier_frame 5 token [])
    ∷ mux_write (1 ∷ [])
    ∷ [])
unfolding run_calls new_stream_mig run_call close_carrier end_of_stream carrier_to_pipe close_write
    mig_write client_on_migrate_go client_start_carrier
whole_life_runs = refl

-- A stream that ends while its carrier is dialled: nothing closes the carrier then.
late_carrier_stays :
    (run_calls
      (stream_ends ∷ starts_carrier token [] (some 8) true ∷ carrier_timed_out ∷ [])
      client).acts
    ≡ (greet_carrier 8 (carrier_frame 5 token []) ∷ end_stream ∷ release ∷ [])
unfolding run_calls new_stream_mig run_call close_carrier client_start_carrier end_of_stream
late_carrier_stays = refl
