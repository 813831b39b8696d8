-- ===== src/Session/Return.antt =====
-- session/session.go, recvLoop: that it returns, and what it leaves behind.
use anytls_x.Base.{
  ℕ, zero, suc, ◌<◌, ◌≡◌, inl, inr, refl, if_cases, arith, Bool, true, false, ◌&&◌, Option, some,
  List, [], length, ltb, ◌==◌, if◌then◌else◌, on_some_cases,
}
use anytls_x.Env.{Env, Error}
use anytls_x.Frame.Defs.{
  max_padding_scheme_len, Frame, header_cmd, header_stream_id, header_length, read_full, cmd_syn,
  cmd_psh, cmd_fin, cmd_settings, cmd_alert, cmd_update_padding_scheme, cmd_synack,
  cmd_heart_request, cmd_heart_response, cmd_server_settings, cmd_migrate_ready, cmd_migrate_go,
  cmd_uplink_fin,
}
use anytls_x.Frame.Stream.{next_payload}
use anytls_x.Padding.Defs.{PaddingFactory}
use anytls_x.Session.Defs.{Session, Net, P}
use anytls_x.Session.Write.{close}
use anytls_x.Session.Recv.{Verdict, go_on, ends}
use anytls_x.Frame.Stream.{read_full-shorter, payload-shorter}
use anytls_x.Session.Loop.{
  cut_off, on_frame, recv_payload, recv_round, recv_rounds, recv_loop, resume,
}
use anytls_x.Session.Control.{close-closed}
use anytls_x.Session.Alive.{close-Quiet}
use anytls_x.Session.Open.{IsSound, Quiet-IsSound, on_psh-IsSound, on_syn-IsSound}
use anytls_x.Session.Ended.{acknowledge-IsSound, on_synack-IsSound, on_fin-IsSound}
use anytls_x.Session.Greeted.{
  on_settings-IsSound, on_alert-IsSound, on_update_padding_scheme-IsSound, on_heart_request-IsSound,
  on_heart_response-IsSound, on_server_settings-IsSound, on_migrate_ready-IsSound,
  on_migrate_go-IsSound, on_uplink_fin-IsSound,
}

module _ (e : Env) (parse : List ℕ → Option PaddingFactory) (rs_first : Bool) where
  -- Every handler of recvLoop, run on a session that is not closed, keeps the map of streams sound:
  -- each stream in it is alive, a session that closed on the way has none, and neither has a server
  -- that did not get the settings of its client.
  pub on_frame-IsSound :
      (f : Frame) (n : Net)
      → IsSound n.sess
      → n.sess.closed ≡ false
      → IsSound (on_frame e parse rs_first f n).1.sess
  unfolding on_frame
  on_frame-IsSound f n h c = step (f.cmd == cmd_psh) _ _ (on_psh-IsSound e f n h) (
      step (f.cmd == cmd_syn) _ _ (on_syn-IsSound e f n h c) (
        step (f.cmd == cmd_synack) _ _ (on_synack-IsSound e f n h) (
          step (f.cmd == cmd_fin) _ _ (on_fin-IsSound e f n h) (
            step (f.cmd == cmd_settings) _ _ (on_settings-IsSound e rs_first f n h) (
              step (f.cmd == cmd_alert) _ _ (on_alert-IsSound f n h) (
                step (f.cmd == cmd_update_padding_scheme) _ _
                  (on_update_padding_scheme-IsSound parse f n h)
                  (step (f.cmd == cmd_heart_request) _ _ (on_heart_request-IsSound e f n h) (
                    step (f.cmd == cmd_heart_response) _ _ (on_heart_response-IsSound e f n h) (
                      step (f.cmd == cmd_server_settings) _ _ (on_server_settings-IsSound e f n h) (
                        step (f.cmd == cmd_migrate_ready) _ _ (on_migrate_ready-IsSound f n h) (
                          step (f.cmd == cmd_migrate_go) _ _ (on_migrate_go-IsSound f n h) (
                            step (f.cmd == cmd_uplink_fin) _ _ (on_uplink_fin-IsSound f n h)
                              h))))))))))))
    where
      step :
          (b : Bool) (x y : P Verdict)
          → IsSound (x n).1.sess
          → IsSound (y n).1.sess
          → IsSound ((if b then x else y) n).1.sess
      step b x y p q = if_cases (λ (r : P Verdict). IsSound (r n).1.sess) b x y (λ _. p) (λ _. q)

  -- A round that does not return took some of the input.
  abbrev Advances : List ℕ → Verdict → List ℕ → Type 0
  Advances input go_on rest = length rest < length input
  Advances input (ends err) rest = Unit {0}

  abbrev IsRound : List ℕ → (Verdict × List ℕ) × Net → Type 0
  IsRound input r = IsSound r.1.sess × Advances input r.0.0 r.0.1

  shorter-Advances :
      (v : Verdict) (input rest : List ℕ) → length rest < length input → Advances input v rest
  shorter-Advances go_on input rest h = h
  shorter-Advances (ends err) input rest h = tt

  cut_off-IsSound : (cmd sid : ℕ) (n : Net) → IsSound n.sess → IsSound (cut_off cmd sid n).sess
  unfolding cut_off
  cut_off-IsSound cmd sid n s =
      if_cases (λ (m : Net). IsSound m.sess) (cmd == cmd_synack) _ _
        (λ _. acknowledge-IsSound sid n.sess s) (λ _. s)

  recv_payload-IsRound :
      (input h rest : List ℕ) (n : Net)
      → IsSound n.sess
      → n.sess.closed ≡ false
      → length rest < length input
      → IsRound input (recv_payload e parse rs_first h rest n)
  unfolding recv_payload
  recv_payload-IsRound input h rest n s c l =
      if_cases (IsRound input)
        (header_cmd h == cmd_update_padding_scheme && ltb max_padding_scheme_len (header_length h))
        _ _ (λ _. (s, tt))
        (λ _.
          on_some_cases (IsRound input)
            (next_payload (header_cmd h) (header_stream_id h) (header_length h) rest) _ _
            (λ _. (cut_off-IsSound (header_cmd h) (header_stream_id h) n s, tt))
            (λ f got. (
              on_frame-IsSound f.0 n s c,
              shorter-Advances (on_frame e parse rs_first f.0 n).0 input f.1 (
                  omega (
                    arith,
                    l,
                    payload-shorter (header_cmd h) (header_stream_id h) (header_length h) rest f.0
                        f.1 got,
                  )),
            )))

  recv_round-IsRound :
      (input : List ℕ) (n : Net)
      → IsSound n.sess
      → IsRound input (recv_round e parse rs_first input n)
  unfolding recv_round
  recv_round-IsRound input n s =
      if_cases (IsRound input) n.sess.closed _ _ (λ _. (s, tt))
        (λ c.
          on_some_cases (IsRound input) (read_full 7 input) _ _ (λ _. (s, tt))
            (λ h got.
              recv_payload-IsRound input h.0 h.1 n s c
                (omega (arith, read_full-shorter 7 input h.0 h.1 got))))

  abbrev Returned : Option (Option Error) × Net → Type 0
  Returned r = ((err : Option Error) × (r.0 ≡ some err)) × IsSound r.1.sess

  resume-Returned :
      (v : Verdict) (input left : List ℕ) (rest : Option (Option Error) × Net) (n : Net)
      → IsSound n.sess
      → Advances input v left
      → (length left < length input → Returned rest)
      → Returned (resume v rest n)
  resume-Returned go_on input left rest n s a k = k a
  resume-Returned (ends err) input left rest n s a k = ((err, refl), s)

  recv_rounds-Returned :
      (fuel : ℕ) (input : List ℕ) (n : Net)
      → IsSound n.sess
      → length input < fuel
      → Returned (recv_rounds e parse rs_first fuel input n)
  unfolding recv_rounds
  recv_rounds-Returned zero input n s l = elim l [ ]
  recv_rounds-Returned (suc fuel) input n s l =
      let r = recv_round e parse rs_first input n in
      let round = recv_round-IsRound input n s in
      resume-Returned r.0.0 input r.0.1 (recv_rounds e parse rs_first fuel r.0.1 r.1) r.1 round.0
        round.1 (λ shorter. recv_rounds-Returned fuel r.0.1 r.1 round.0 (omega (arith, shorter, l)))

  closed_empty : (s : Session) → IsSound s → s.closed ≡ true → s.streams ≡ []
  closed_empty s h c = elim h.1 [ inl alive ↦ absurd cc | inr x ↦ x ]

  -- recvLoop, started on a session whose map of streams is sound, returns on every input, and the
  -- session that it leaves is closed and has no streams.
  pub recv_loop-closed :
      (input : List ℕ) (n : Net)
      → IsSound n.sess
      → let r = recv_loop e parse rs_first input n in
        ((err : Option Error) × (r.0 ≡ some err))
        × (r.1.sess.closed ≡ true)
        × (r.1.sess.streams ≡ [])
  unfolding recv_loop
  recv_loop-closed input n s =
      let done = recv_rounds-Returned (suc (length input)) input n s (omega arith) in
      let m = (recv_rounds e parse rs_first (suc (length input)) input n).1 in
      (
        done.0,
        close-closed e m,
        closed_empty (close e m).1.sess (Quiet-IsSound m (close e m).1 done.1 (close-Quiet e m))
            (close-closed e m),
      )
