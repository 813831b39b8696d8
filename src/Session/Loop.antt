-- ===== src/Session/Loop.antt =====
-- session/session.go, recvLoop. `input` is all that the connection still delivers; behind it, a read
-- fails.
use anytls_x.Base.{
  ℕ, zero, suc, Bool, ◌&&◌, Option, none, some, List, [], length, ltb, ◌==◌, if◌then◌else◌, on_some,
}
use anytls_x.Env.{Env, Error, closed_pipe, end_of_file, scheme_too_large}
use anytls_x.Frame.Defs.{
  max_padding_scheme_len, Frame, header_cmd, header_stream_id, header_length, read_full, cmd_syn,
  cmd_psh, cmd_fin, cmd_settings, cmd_alert, cmd_update_padding_scheme, cmd_synack,
  cmd_heart_request, cmd_heart_response, cmd_server_settings, cmd_migrate_ready, cmd_migrate_go,
  cmd_uplink_fin,
}
use anytls_x.Frame.Stream.{next_payload}
use anytls_x.Padding.Defs.{PaddingFactory}
use anytls_x.Session.Defs.{Net, P, ◌>>=◌, pure}
use anytls_x.Session.Write.{close}
use anytls_x.Session.Recv.{acknowledge, Verdict, go_on, ends, on_psh, on_syn, on_synack, on_fin}
use anytls_x.Session.Greet.{
  on_settings, on_alert, on_update_padding_scheme, on_heart_request, on_heart_response,
  on_server_settings, on_migrate_ready, on_migrate_go, on_uplink_fin,
}

abbrev pub resume : Verdict → Option (Option Error) × Net → Net → Option (Option Error) × Net
resume go_on rest n = rest
resume (ends err) rest n = (some err, n)

-- The input ends inside a payload: only cmdSYNACK had an effect before.
unfoldable pub cut_off : ℕ → ℕ → Net → Net
unfolding acknowledge
cut_off cmd sid n =
    if cmd == cmd_synack then (let s = n.sess in record n { sess = acknowledge sid s }) else n

module _ (e : Env) (new_padding_factory : List ℕ → Option PaddingFactory) (rs_first : Bool) where
  -- The switch on the command; cmdWaste and commands without a case are read and dropped.
  unfoldable pub on_frame : Frame → P Verdict
  unfolding on_psh on_syn on_synack on_fin on_settings on_alert on_update_padding_scheme
      on_heart_request on_heart_response on_server_settings on_migrate_ready on_migrate_go
      on_uplink_fin
  on_frame f =
      if f.cmd == cmd_psh
      then on_psh e f
      else (if f.cmd == cmd_syn
          then on_syn e f
          else (if f.cmd == cmd_synack
              then on_synack e f
              else (if f.cmd == cmd_fin
                  then on_fin e f
                  else (if f.cmd == cmd_settings
                      then on_settings e rs_first f
                      else (if f.cmd == cmd_alert
                          then on_alert f
                          else (if f.cmd == cmd_update_padding_scheme
                              then on_update_padding_scheme new_padding_factory f
                              else (if f.cmd == cmd_heart_request
                                  then on_heart_request e f
                                  else (if f.cmd == cmd_heart_response
                                      then on_heart_response e f
                                      else (if f.cmd == cmd_server_settings
                                          then on_server_settings e f
                                          else (if f.cmd == cmd_migrate_ready
                                              then on_migrate_ready f
                                              else (if f.cmd == cmd_migrate_go
                                                  then on_migrate_go f
                                                  else (if f.cmd == cmd_uplink_fin
                                                      then on_uplink_fin f
                                                      else pure go_on))))))))))))

  -- A round behind its header: the verdict with what is left of the input.
  unfoldable pub recv_payload : List ℕ → List ℕ → P (Verdict × List ℕ)
  unfolding on_frame next_payload cut_off
  recv_payload h rest n =
      let len = header_length h in
      if header_cmd h == cmd_update_padding_scheme && ltb max_padding_scheme_len len
      then ((ends (some (scheme_too_large len)), rest), n)
      else (on_some (next_payload (header_cmd h) (header_stream_id h) len rest)
          ((ends (some end_of_file), []), cut_off (header_cmd h) (header_stream_id h) n)
          λ f. let r = on_frame f.0 n in ((r.0, f.1), r.1))

  unfoldable pub recv_round : List ℕ → P (Verdict × List ℕ)
  unfolding recv_payload
  recv_round input n =
      if n.sess.closed
      then ((ends (some closed_pipe), input), n)
      else (on_some (read_full 7 input) ((ends (some end_of_file), []), n)
          λ h. recv_payload h.0 h.1 n)

  -- The rounds up to a return, which a run that is short of fuel does not reach.
  unfoldable pub recv_rounds : ℕ → List ℕ → P (Option (Option Error))
  unfolding recv_round
  recv_rounds zero input n = (none, n)
  recv_rounds (suc fuel) input n =
      let r = recv_round input n in let rest = recv_rounds fuel r.0.1 r.1 in resume r.0.0 rest r.1

  -- recvLoop, with its deferred Close. Each round but the last takes a header, so the length of the
  -- input is fuel enough.
  unfoldable pub recv_loop : List ℕ → P (Option (Option Error))
  unfolding recv_rounds close
  recv_loop input = do r ← recv_rounds (suc (length input)) input; closed_by ← close e; pure r
