-- ===== src/Session/Carry.antt =====
-- session/session.go, the data writers: what one cmdPSH frame adds, and how a run of them adds up.
use anytls_x.Base.{
  ℕ, ◌+◌, ◌≤◌, ◌<◌, ◌≡◌, refl, ap, ◌∙◌, Bool, true, false, Option, none, some, List, [], ◌∷◌, ◌++◌,
  arith, length, All, inl,
}
use anytls_x.Env.{Env, Error, Written}
use anytls_x.Frame.Defs.{Frame, encode, cmd_psh}
use anytls_x.Frame.Wire.{IsU32}
use anytls_x.Frame.Stream.{IsFrame, wire, reads_payload}
use anytls_x.Shaper.Shaped.{visible}
use anytls_x.Session.Defs.{Net}
use anytls_x.Session.Write.{write_conn, mark_broken, send_psh}
use anytls_x.Session.Line.{line, IsPadding, unflushed, NoneLost, Adds, write_conn-Adds}

-- A data frame of the stream, within the chunk size.
pub record IsData (sid : ℕ) (f : Frame) : Type 0 where
  pub is_psh : f.cmd ≡ cmd_psh
  pub of_stream : f.sid ≡ sid
  pub not_empty : 0 < length f.payload
  pub in_chunk : length f.payload ≤ 16384

unfoldable pub payloads : List Frame → List ℕ
payloads [] = []
payloads (f ∷ fs) = f.payload ++ payloads fs

-- The answer of a data writer: the whole length on success, and the bytes of the frames that went out
-- whole on failure, with the connection marked broken.
abbrev pub Answer : Option Error → ℕ → ℕ → ℕ → List ℕ → Bool → Type 0
Answer none total done n rest broken = (n ≡ total) × (rest ≡ [])
Answer (some err) total done n rest broken = (n ≡ done) × (broken ≡ true)

-- What was tried behind the frames that went out whole: nothing on success, and on failure one more
-- data frame, with a payload that the rest of the data begins with, and padding behind it.
abbrev pub Tried : ℕ → Option Error → List ℕ → List ℕ → Type 0
Tried sid none rest partial = partial ≡ []
Tried sid (some err) rest partial =
    (chunk : List ℕ) × (more : List ℕ) × (padding : List Frame) × (chunk ++ more ≡ rest)
    × (0 < length chunk)
    × IsPadding padding
    × (partial ≡ encode cmd_psh sid chunk ++ wire padding)

-- What a failure of the first frame loses besides, the flush that takes it along.
abbrev pub left_over : List Frame → Net → ℕ
left_over [] v = unflushed v
left_over (f ∷ fs) v = 0

-- From `v` to `w` the bytes went out as data frames, but for `rest`; `partial` is what was tried of it,
-- and `lost`, which is no longer, what of that did not get out.
pub record Carries (sid total base : ℕ) (bytes : List ℕ) (v : Net) (r : Written × Net)
    : Type 0 where
  pub sent_frames : List Frame
  pub rest : List ℕ
  pub all_data : All (IsData sid) sent_frames
  pub carried : payloads sent_frames ++ rest ≡ bytes
  pub answered :
      Answer
        (r.0.error)
        total
        (base + length (payloads sent_frames))
        (r.0.n)
        rest
        (r.1.sess.conn_broken)
  pub on_wire : List Frame
  pub whole : All IsFrame on_wire
  pub heard : visible on_wire ≡ sent_frames
  pub partial : List ℕ
  pub lost : List ℕ
  pub grown : line (r.1) ++ lost ≡ line v ++ (wire on_wire ++ partial)
  pub tried : Tried sid (r.0.error) rest partial
  pub lost_short : length lost ≤ length partial + left_over sent_frames v
  pub none_lost : NoneLost (r.0.error) lost

abbrev pub data_frame : ℕ → List ℕ → Frame
data_frame sid chunk = record { cmd = cmd_psh; sid = sid; payload = chunk }

pub data_frame-IsFrame :
    (sid : ℕ) (chunk : List ℕ) → IsU32 sid → length chunk ≤ 16384 → IsFrame (data_frame sid chunk)
unfolding reads_payload
data_frame-IsFrame sid chunk h k = record {
  sid_fits = h;
  payload_fits = omega arith;
  read_whole = inl refl;
}

-- mark_broken touches the flag only.
mark_broken-line : (err : Option Error) (n : Net) → line (mark_broken err n).1 ≡ line n
unfolding mark_broken
mark_broken-line none n = refl
mark_broken-line (some err) n = refl

mark_broken-unflushed :
    (err : Option Error) (n : Net) → unflushed (mark_broken err n).1 ≡ unflushed n
unfolding mark_broken
mark_broken-unflushed none n = refl
mark_broken-unflushed (some err) n = refl

pub send_psh-Adds :
    (e : Env) (sid : ℕ) (chunk : List ℕ) (n : Net)
    → Adds n (send_psh e sid chunk n).1 (encode cmd_psh sid chunk) (send_psh e sid chunk n).0
unfolding send_psh
send_psh-Adds e sid chunk n =
    let r = write_conn e (encode cmd_psh sid chunk) false n in
    let a = write_conn-Adds e (encode cmd_psh sid chunk) false n in
    record {
      padding = a.padding;
      is_padding = a.is_padding;
      lost = a.lost;
      grown = ap (λ x. x ++ a.lost) (mark_broken-line r.0.error r.1) ∙ a.grown;
      none_lost = a.none_lost;
      lost_short = a.lost_short;
      flushed = λ ok. mark_broken-unflushed r.0.error r.1 ∙ a.flushed ok;
    }

mark_broken-some :
    (o : Option Error) (err : Error) (n : Net)
    → o ≡ some err
    → (mark_broken o n).1.sess.conn_broken ≡ true
unfolding mark_broken
mark_broken-some none err n h = cc
mark_broken-some (some o) err n h = refl

pub send_psh-broken :
    (e : Env) (sid : ℕ) (chunk : List ℕ) (n : Net) (err : Error)
    → (send_psh e sid chunk n).0 ≡ some err
    → (send_psh e sid chunk n).1.sess.conn_broken ≡ true
unfolding send_psh
send_psh-broken e sid chunk n err h =
    let r = write_conn e (encode cmd_psh sid chunk) false n in mark_broken-some r.0.error err r.1 h
