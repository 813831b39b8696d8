-- ===== src/Session/Open.antt =====
-- session/session.go, recvLoop: what every handler keeps of the map of streams.
use anytls_x.Base.{
  ℕ, ◌≡◌, ◌≢◌, ◌+◌, refl, sym, ap, ◌∙◌, subst, true, false, ◌&&◌, not, Option, none, some, List, [],
  ◌∷◌, arith, length, leb, ◌==◌, ◌⊎◌, inl, inr, All, if_cases, on_some_cases,
}
use anytls_x.Env.{Env, Error}
use anytls_x.Frame.Defs.{Frame, cmd_alert}
use anytls_x.Session.Defs.{
  Session, Stream, Net, find_stream, put_stream, delete_stream, new_stream_obj,
}
use anytls_x.Session.Write.{write_control_frame}
use anytls_x.Session.Recv.{
  Verdict, on_stream, hand_over, track_received, on_psh, register, on_syn, send_last,
}
use anytls_x.Session.Settings.{no_settings_text}
use anytls_x.Session.Alive.{
  Still, Quiet, write_control_frame-Quiet, write_window_update_waste-Still,
}

abbrev pub IsAlive : ℕ × Stream → Type 0
IsAlive kv = kv.1.die_err ≡ none

-- Every stream in the map is alive; a closed session has none, and neither has a server that has not
-- got the settings of its client.
abbrev pub IsSound : Session → Type 0
IsSound s =
    All IsAlive s.streams
    × ((s.closed ≡ false) ⊎ (s.streams ≡ []))
    × ((s.is_client ≡ true) ⊎ ((s.received_settings ≡ true) ⊎ (s.streams ≡ [])))

pub no_streams : (s : Session) → s.streams ≡ [] → IsSound s
no_streams s h = (subst (All IsAlive) (sym h) tt, inr h, inr (inr h))

pub Quiet-IsSound : (n m : Net) → IsSound n.sess → Quiet n m → IsSound m.sess
Quiet-IsSound n m h (inr q) = no_streams m.sess q.0
Quiet-IsSound n m h (inl q) = (
  subst (All IsAlive) (sym q.0) h.0,
  elim h.1 [ inl c ↦ inl (q.1 ∙ c) | inr e ↦ inr (q.0 ∙ e) ],
  elim h.2 [
    | inl c ↦ inl (q.2 ∙ c)
    | inr (inl r) ↦ inr (inl (q.3 ∙ r))
    | inr (inr e) ↦ inr (inr (q.0 ∙ e))
  ],
)

All-put_stream :
    (k : ℕ) (st : Stream) (m : List (ℕ × Stream))
    → st.die_err ≡ none
    → All IsAlive m
    → All IsAlive (put_stream k st m)
unfolding put_stream
All-put_stream k st [] h a = (h, tt)
All-put_stream k st ((j, s) ∷ m) h a =
    if_cases (All IsAlive) (j == k) _ _ (λ _. (h, a.1)) (λ _. (a.0, All-put_stream k st m h a.1))

All-find_stream :
    (k : ℕ) (st : Stream) (m : List (ℕ × Stream))
    → All IsAlive m
    → find_stream k m ≡ some st
    → st.die_err ≡ none
unfolding find_stream
All-find_stream k st [] a h = cc
All-find_stream k st ((j, s) ∷ m) a h = ground (arith, All-find_stream k st m)

pub All-delete_stream :
    (k : ℕ) (m : List (ℕ × Stream)) → All IsAlive m → All IsAlive (delete_stream k m)
unfolding delete_stream
All-delete_stream k [] a = tt
All-delete_stream k ((j, s) ∷ m) a =
    if_cases (All IsAlive) (j == k) _ _ (λ _. All-delete_stream k m a.1)
      (λ _. (a.0, All-delete_stream k m a.1))

pub delete_stream-put_stream :
    (k : ℕ) (st : Stream) (m : List (ℕ × Stream))
    → delete_stream k (put_stream k st m) ≡ delete_stream k m
unfolding put_stream delete_stream
delete_stream-put_stream k st [] = ground arith
delete_stream-put_stream k st ((j, s) ∷ m) = ground (arith, delete_stream-put_stream k st m)

-- A stream that is looked up is in a map that is not empty.
pub found_not_empty :
    (k : ℕ) (st : Stream) (m : List (ℕ × Stream)) → find_stream k m ≡ some st → m ≢ []
unfolding find_stream
found_not_empty k st [] h e = cc
found_not_empty k st ((j, s) ∷ m) h e = omega (arith, ap length e)

-- A change of a stream that was found, which leaves it alive.
put_found-IsSound :
    (k : ℕ) (st new : Stream) (s : Session)
    → IsSound s
    → find_stream k s.streams ≡ some st
    → new.die_err ≡ none
    → IsSound (record s { streams = put_stream k new s.streams })
put_found-IsSound k st new s h e a = (
  All-put_stream k new s.streams a h.0,
  elim h.1 [ inl c ↦ inl c | inr x ↦ absurd (found_not_empty k st s.streams e x) ],
  elim h.2 [
    | inl c ↦ inl c
    | inr (inl r) ↦ inr (inl r)
    | inr (inr x) ↦ absurd (found_not_empty k st s.streams e x)
  ],
)

pub on_stream-IsSound :
    (k : ℕ) (f : Stream → Stream) (s : Session)
    → ((st : Stream) → st.die_err ≡ none → (f st).die_err ≡ none)
    → IsSound s
    → IsSound (on_stream k f s)
on_stream-IsSound k f s keeps h =
    on_some_cases IsSound (find_stream k s.streams) _ _ (λ _. h)
      (λ st has.
        put_found-IsSound k st (f st) s h has (keeps st (All-find_stream k st s.streams h.0 has)))

hand_over-keeps : (p : List ℕ) (st : Stream) → st.die_err ≡ none → (hand_over p st).die_err ≡ none
unfolding hand_over
hand_over-keeps p st h = ground arith

pub track_received-Still : (e : Env) (len : ℕ) (n : Net) → Still n (track_received e len n).1
unfolding track_received
track_received-Still e len n =
    if_cases (λ (r : Unit {0} × Net). Still n r.1) (n.sess.wnd_update_trigger == 0) _ _
      (λ _. (refl, refl, refl, refl))
      (λ _.
        if_cases (λ (r : Unit {0} × Net). Still n r.1)
          (leb n.sess.wnd_update_trigger (n.sess.recv_bytes + len)) _ _
          (λ _.
            let s = n.sess in
            write_window_update_waste-Still e (record n { sess = record s { recv_bytes = 0 } }))
          (λ _. (refl, refl, refl, refl)))

pub on_psh-IsSound :
    (e : Env) (f : Frame) (n : Net) → IsSound n.sess → IsSound (on_psh e f n).1.sess
unfolding on_psh
on_psh-IsSound e f n h =
    if_cases (λ (r : Verdict × Net). IsSound r.1.sess) (length f.payload == 0) _ _ (λ _. h)
      (λ _.
        let m = record n { sess = on_stream f.sid (hand_over f.payload) n.sess } in
        Quiet-IsSound m (track_received e (length f.payload) m).1
          (on_stream-IsSound f.sid (hand_over f.payload) n.sess (hand_over-keeps f.payload) h)
          (inl (track_received-Still e (length f.payload) m)))

register-IsSound :
    (k : ℕ) (s : Session)
    → IsSound s
    → s.closed ≡ false
    → (s.is_client ≡ true) ⊎ (s.received_settings ≡ true)
    → IsSound (register k s)
unfolding register new_stream_obj
register-IsSound k s h c g =
    on_some_cases IsSound (find_stream k s.streams) _ _
      (λ _. (
        All-put_stream k (new_stream_obj k s.mig_active) s.streams refl h.0,
        inl c,
        elim g [ inl x ↦ inl x | inr x ↦ inr (inl x) ],
      ))
      (λ st has. h)

pub write_control_frame-IsSound :
    (e : Env) (f : Frame) (n : Net) → IsSound n.sess → IsSound (write_control_frame e f n).1.sess
write_control_frame-IsSound e f n h =
    Quiet-IsSound n (write_control_frame e f n).1 h (write_control_frame-Quiet e f n)

pub send_last-IsSound :
    (e : Env) (cmd : ℕ) (text : List ℕ) (err : Option Error) (n : Net)
    → IsSound n.sess
    → IsSound (send_last e cmd text err n).1.sess
send_last-IsSound e cmd text err n h =
    write_control_frame-IsSound e (record { cmd = cmd; sid = 0; payload = text }) n h

pub on_syn-IsSound :
    (e : Env) (f : Frame) (n : Net)
    → IsSound n.sess
    → n.sess.closed ≡ false
    → IsSound (on_syn e f n).1.sess
unfolding on_syn
on_syn-IsSound e f n h c =
    if_cases (λ (r : Verdict × Net). IsSound r.1.sess)
      (not n.sess.is_client && not n.sess.received_settings) _ _
      (λ _. send_last-IsSound e cmd_alert no_settings_text none n h)
      (λ x. register-IsSound f.sid n.sess h c (ground arith))
