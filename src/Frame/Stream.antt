-- ===== src/Frame/Stream.antt =====
-- session/session.go, recvLoop: how the receiver cuts its input into frames. It reads a header and
-- then the payload that the header announces, except for four commands whose payload it never reads.
use anytls_x.Base.{
  false, subst, Bool-cases, ◌&&◌, ltb, ℕ, zero, suc, ◌+◌, ◌≤◌, ◌<◌, ◌≡◌, refl, sym, ap, ◌∙◌, Bool,
  true, ◌||◌, not, Option, none, some, List, [], ◌∷◌, ◌++◌, arith, length, length-drop,
  append_assoc, ◌⊎◌, ◌==◌, if◌then◌else◌, All, Option-cases, inl, inr,
}
use anytls_x.Frame.Defs.{
  Frame, encode, header_cmd, header_stream_id, header_length, read_full, cmd_syn, cmd_fin,
  cmd_heart_request, cmd_heart_response, cmd_alert, cmd_update_padding_scheme,
  max_padding_scheme_len,
}
use anytls_x.Frame.Wire.{IsU32, FitsFrame, read_header, read_full-append}

-- cmdSYN, cmdFIN, cmdHeartRequest and cmdHeartResponse are handled without a look at the length.
unfoldable pub reads_payload : ℕ → Bool
reads_payload cmd =
    not (cmd == cmd_syn || cmd == cmd_fin || cmd == cmd_heart_request || cmd == cmd_heart_response)

unfoldable pub next_payload : ℕ → ℕ → ℕ → List ℕ → Option (Frame × List ℕ)
unfolding reads_payload
next_payload cmd sid n rest =
    if reads_payload cmd
    then (elim (read_full n rest) [
      | none ↦ none
      | some (p, after) ↦ some (record { cmd = cmd; sid = sid; payload = p }, after)
    ])
    else some (record { cmd = cmd; sid = sid; payload = [] }, rest)

-- A padding scheme that recvLoop refuses by the length in its header, and returns.
abbrev pub is_refused : ℕ → ℕ → Bool
is_refused cmd n = cmd == cmd_update_padding_scheme && ltb max_padding_scheme_len n

-- An alert with a text: recvLoop returns behind it.
abbrev pub is_last : Frame → Bool
is_last f = f.cmd == cmd_alert && ltb 0 (length f.payload)

-- Nothing is read behind the last frame.
abbrev pub stop_behind : Option (Frame × List ℕ) → Option (Frame × List ℕ)
stop_behind none = none
stop_behind (some r) = some (r.0, if is_last r.0 then [] else r.1)

unfoldable pub frame_behind : ℕ → ℕ → ℕ → List ℕ → Option (Frame × List ℕ)
unfolding next_payload
frame_behind cmd sid n rest =
    if is_refused cmd n then none else stop_behind (next_payload cmd sid n rest)

unfoldable pub next_frame : List ℕ → Option (Frame × List ℕ)
unfolding frame_behind
next_frame input = elim (read_full 7 input) [
  | none ↦ none
  | some (h, rest) ↦ frame_behind (header_cmd h) (header_stream_id h) (header_length h) rest
]

-- One frame takes seven bytes at least, so the length of the input is fuel enough.
unfoldable pub frames : ℕ → List ℕ → List Frame
frames zero input = []
frames (suc f) input = elim (next_frame input) [ none ↦ [] | some (fr, rest) ↦ fr ∷ frames f rest ]

-- The frames that a receiver reads off an input: up to its end, to a padding scheme that is too long,
-- or to an alert. What else makes recvLoop return depends on the session (a SYN before the settings, a
-- reply that fails), and is not looked at here.
unfoldable pub decode : List ℕ → List Frame
unfolding frames next_frame
decode input = frames (length input) input

-- A frame that a sender may put on the wire.
pub record IsFrame (f : Frame) : Type 0 where
  pub sid_fits : IsU32 f.sid
  pub payload_fits : FitsFrame f.payload
  pub read_whole : (reads_payload f.cmd ≡ true) ⊎ (f.payload ≡ [])

-- A frame that a receiver reads, and reads on behind it.
pub record IsRead (f : Frame) : Type 0 where
  pub frame_fits : IsFrame f
  pub not_refused : is_refused f.cmd (length f.payload) ≡ false
  pub not_last : is_last f ≡ false

abbrev pub bytes_of : Frame → List ℕ
bytes_of f = encode f.cmd f.sid f.payload

next_payload-whole :
    (f : Frame) (rest : List ℕ)
    → IsFrame f
    → next_payload f.cmd f.sid (length f.payload) (f.payload ++ rest) ≡ some (f, rest)
unfolding next_payload
next_payload-whole f rest v =
    ground (arith, read_full-append (length f.payload) f.payload rest refl, v.read_whole)

go_on_behind :
    (f : Frame) (rest : List ℕ) → is_last f ≡ false → stop_behind (some (f, rest)) ≡ some (f, rest)
go_on_behind f rest h = rw h refl

frame_behind-whole :
    (f : Frame) (rest : List ℕ)
    → IsRead f
    → frame_behind f.cmd f.sid (length f.payload) (f.payload ++ rest) ≡ some (f, rest)
unfolding frame_behind
frame_behind-whole f rest r =
    rw r.not_refused
      (ap stop_behind (next_payload-whole f rest r.frame_fits) ∙ go_on_behind f rest r.not_last)

same_behind :
    (c c' s s' n n' : ℕ) (rest : List ℕ)
    → c ≡ c'
    → s ≡ s'
    → n ≡ n'
    → frame_behind c s n rest ≡ frame_behind c' s' n' rest
same_behind c c' s s' n n' rest h k l = cc

pub next_frame-encode :
    (f : Frame) (rest : List ℕ) → IsRead f → next_frame (bytes_of f ++ rest) ≡ some (f, rest)
unfolding next_frame
next_frame-encode f rest r =
    let v = r.frame_fits in
    let (whole, cmd_same, sid_same, length_same) =
      read_header f.cmd f.sid f.payload rest v.sid_fits v.payload_fits in
    rw (whole, next_frame)
      (same_behind _ f.cmd _ f.sid _ (length f.payload) (f.payload ++ rest) cmd_same sid_same
          length_same
        ∙ frame_behind-whole f rest r)

pub read_full-shorter :
    (n : ℕ) (input : List ℕ) (h rest : List ℕ)
    → read_full n input ≡ some (h, rest)
    → length input ≡ length rest + n
unfolding read_full
read_full-shorter n input h rest e = ground (arith, length-drop n input)

pub payload-shorter :
    (cmd sid n : ℕ) (input : List ℕ) (f : Frame) (rest : List ℕ)
    → next_payload cmd sid n input ≡ some (f, rest)
    → length rest ≤ length input
unfolding next_payload
payload-shorter cmd sid n input f rest e = elim (Option-cases (read_full n input)) [
  | inl none_left ↦ ground (arith, none_left)
  | inr ((h, after), got) ↦ ground (arith, got, read_full-shorter n input h after)
]

tail_same :
    (g : Frame) (more : List ℕ) (f : Frame) (rest : List ℕ)
    → ◌≡◌ {A = Option (Frame × List ℕ)} (some (g, more)) (some (f, rest))
    → more ≡ rest
tail_same g more f rest e = cc

absent : {r : Frame × List ℕ} → ◌≡◌ {A = Option (Frame × List ℕ)} none (some r) → ⊥
absent e = cc

stop_behind-shorter :
    (o : Option (Frame × List ℕ)) (n : ℕ) (f : Frame) (rest : List ℕ)
    → ((g : Frame) (more : List ℕ) → o ≡ some (g, more) → length more ≤ n)
    → stop_behind o ≡ some (f, rest)
    → length rest ≤ n
stop_behind-shorter none n f rest h e = cc
stop_behind-shorter (some (g, more)) n f rest h e =
    let less = h g more refl in
    elim (Bool-cases (is_last g)) [
      | inl last ↦
          subst (λ x. length x ≤ n) (tail_same g (if is_last g then [] else more) f rest e)
            (rw last (omega arith))
      | inr on ↦
          subst (λ x. length x ≤ n) (tail_same g (if is_last g then [] else more) f rest e)
            (rw on less)
    ]

frame_behind-shorter :
    (cmd sid n : ℕ) (input : List ℕ) (f : Frame) (rest : List ℕ)
    → frame_behind cmd sid n input ≡ some (f, rest)
    → length rest ≤ length input
unfolding frame_behind
frame_behind-shorter cmd sid n input f rest e = elim (Bool-cases (is_refused cmd n)) [
  | inl off ↦ absurd (absent (rw off at e))
  | inr on ↦
      stop_behind-shorter (next_payload cmd sid n input) (length input) f rest
        (payload-shorter cmd sid n input) (rw on at e)
]

pub next_frame-shorter :
    (input : List ℕ) (f : Frame) (rest : List ℕ)
    → next_frame input ≡ some (f, rest)
    → length rest < length input
unfolding next_frame
next_frame-shorter input f rest e = elim (Option-cases (read_full 7 input)) [
  | inl none_left ↦ ground (arith, none_left)
  | inr ((h, after), got) ↦ ground (
    arith,
    got,
    read_full-shorter 7 input h after,
    frame_behind-shorter (header_cmd h) (header_stream_id h) (header_length h) after f rest,
  )
]

frames_fuel :
    (f g : ℕ) (input : List ℕ)
    → length input ≤ f
    → length input ≤ g
    → frames f input ≡ frames g input
unfolding frames
frames_fuel zero zero input hf hg = refl
frames_fuel zero (suc g) input hf hg = elim (Option-cases (next_frame input)) [
  | inl e ↦ rw (e, frames)
  | inr ((x, rest), e) ↦ absurd (omega (arith, next_frame-shorter input x rest e))
]
frames_fuel (suc f) zero input hf hg = elim (Option-cases (next_frame input)) [
  | inl e ↦ rw (e, frames)
  | inr ((x, rest), e) ↦ absurd (omega (arith, next_frame-shorter input x rest e))
]
frames_fuel (suc f) (suc g) input hf hg = elim (Option-cases (next_frame input)) [
  | inl e ↦ rw (e, frames)
  | inr ((x, rest), e) ↦
      let less = next_frame-shorter input x rest e in
      rw (e, frames) (ap (◌∷◌ x) (frames_fuel f g rest (omega arith) (omega arith)))
]

frames_step :
    (n : ℕ) (input : List ℕ) (f : Frame) (rest : List ℕ)
    → next_frame input ≡ some (f, rest)
    → frames (suc n) input ≡ f ∷ frames n rest
unfolding frames
frames_step n input f rest e = rw (e, frames)

-- A decoding step: what follows the first frame is decoded by itself.
pub decode_step :
    (input : List ℕ) (f : Frame) (rest : List ℕ)
    → next_frame input ≡ some (f, rest)
    → decode input ≡ f ∷ decode rest
unfolding decode
decode_step input f rest e =
    let less = next_frame-shorter input f rest e in
    frames_fuel (length input) (suc (length input)) input (omega arith) (omega arith)
    ∙ frames_step (length input) input f rest e
    ∙ ap (◌∷◌ f) (frames_fuel (length input) (length rest) rest (omega arith) (omega arith))

-- The receiver cuts an encoded frame off the front of its input, whatever follows.
pub decode-encode :
    (f : Frame) (rest : List ℕ) → IsRead f → decode (bytes_of f ++ rest) ≡ f ∷ decode rest
decode-encode f rest v = decode_step (bytes_of f ++ rest) f rest (next_frame-encode f rest v)

-- The bytes of a sequence of frames.
unfoldable pub wire : List Frame → List ℕ
wire [] = []
wire (f ∷ fs) = bytes_of f ++ wire fs

-- Frames fit for the wire, none of which is a padding scheme above 16384 bytes or an alert with a
-- text, written one behind the other, are read back as they were, and what follows them is read as
-- if it stood alone.
pub decode-wire :
    (fs : List Frame) (rest : List ℕ) → All IsRead fs → decode (wire fs ++ rest) ≡ fs ++ decode rest
unfolding wire
decode-wire [] rest v = refl
decode-wire (f ∷ fs) rest (v, vs) =
    rw (append_assoc (bytes_of f) (wire fs) rest)
      (decode-encode f (wire fs ++ rest) v ∙ ap (◌∷◌ f) (decode-wire fs rest vs))

pub wire-append : (fs gs : List Frame) → wire (fs ++ gs) ≡ wire fs ++ wire gs
unfolding wire
wire-append [] gs = refl
wire-append (f ∷ fs) gs =
    ap (◌++◌ (bytes_of f)) (wire-append fs gs) ∙ sym (append_assoc (bytes_of f) (wire fs) (wire gs))
