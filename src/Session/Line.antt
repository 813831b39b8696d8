-- ===== src/Session/Line.antt =====
-- session/session.go, writeConn: what a write adds to the line, that is, to the bytes that the
-- connection took followed by those that the session still buffers.
use anytls_x.Base.{
  true, false, if◌then◌else◌, length-append, length-drop, ◌+◌, ◌≤◌, ℕ, ◌≡◌, refl, sym, ap, ◌∙◌,
  Bool, ◌&&◌, Option, none, some, List, [], ◌∷◌, ◌++◌, arith, length, length-eq-zero, take, drop,
  ltb, inl, inr, All, Bool-cases, if_cases, append_assoc, append-nil, take-append-drop,
}
use anytls_x.Env.{Env, World, Error, Written}
use anytls_x.Env.Wire.{Sent}
use anytls_x.Frame.Defs.{Frame}
use anytls_x.Frame.Stream.{IsFrame, wire}
use anytls_x.Shaper.Waste.{waste_frame, waste_frame-IsFrame}
use anytls_x.Shaper.Shaped.{Shaped, visible}
use anytls_x.Shaper.Writes.{
  write_control-Controlled, write_initial_flush-Controlled, write_data_lem,
}
use anytls_x.Session.Defs.{Net}
use anytls_x.Session.Write.{is_lone_syn, flush_buffer, buffer_up, write_shaped, write_conn}

abbrev pub line : Net → List ℕ
line n = n.world.sent ++ n.sess.buffer

-- Frames that the receiver drops.
abbrev pub IsPadding : List Frame → Type 0
IsPadding ws = All IsFrame ws × (visible ws ≡ [])

-- Only a failed write loses bytes.
abbrev pub NoneLost : Option Error → List ℕ → Type 0
NoneLost none lost = lost ≡ []
NoneLost (some err) lost = Unit {0}

-- What the next write flushes in front of its own bytes.
abbrev pub unflushed : Net → ℕ
unflushed n = if n.sess.buffering then 0 else length n.sess.buffer

-- The line grew by `b` and padding, but for a suffix that only a failed write loses.
pub record Adds (v w : Net) (b : List ℕ) (err : Option Error) : Type 0 where
  pub padding : List Frame
  pub is_padding : IsPadding padding
  pub lost : List ℕ
  pub grown : line w ++ lost ≡ line v ++ (b ++ wire padding)
  pub none_lost : NoneLost err lost
  pub lost_short : length lost ≤ length (b ++ wire padding) + unflushed v
  pub flushed : err ≡ none → unflushed w ≡ 0

wire-IsPadding :
    (b out : List ℕ) → Shaped b out → (ws : List Frame) × (out ≡ b ++ wire ws) × IsPadding ws
unfolding visible wire
wire-IsPadding b out (inl same) = ([], same ∙ sym (append-nil b), (tt, refl))
wire-IsPadding b out (inr (n, p)) = (
  waste_frame p.filler ∷ [],
  p.trailer ∙ ap (◌++◌ b) (sym (append-nil _)),
  ((waste_frame-IsFrame p.filler (omega (arith, p.filler_length, p.filler_fits)), tt), refl),
)

-- What Sent says, with the part that did not get out by its name.
sent_or_lost :
    (v w : World) (out : List ℕ) (err : Option Error)
    → Sent v w out err
    → (lost : List ℕ) × (w.sent ++ lost ≡ v.sent ++ out)
      × NoneLost err lost
      × (length lost ≤ length out)
sent_or_lost v w out none s = ([], append-nil w.sent ∙ s, refl, omega arith)
sent_or_lost v w out (some err) (k, s) = (
  drop k out,
  rw s (append_assoc v.sent (take k out) (drop k out) ∙ ap (◌++◌ v.sent) (take-append-drop k out)),
  tt,
  omega (arith, length-drop k out),
)

nothing_left : (w : Net) → w.sess.buffer ≡ [] → unflushed w ≡ 0
nothing_left w h = rw h (if_cases (λ k. k ≡ 0) w.sess.buffering _ _ (λ _. refl) λ _. refl)

shaped_short :
    (v : Net) (b out : List ℕ) (ws : List Frame) (lost : List ℕ)
    → v.sess.buffering ≡ false
    → out ≡ (v.sess.buffer ++ b) ++ wire ws
    → length lost ≤ length out
    → length lost ≤ length (b ++ wire ws) + unflushed v
shaped_short v b out ws lost free whole short =
    let all = ap length whole in
    rw free (
      omega (
        arith,
        all,
        short,
        length-append (v.sess.buffer ++ b) (wire ws),
        length-append v.sess.buffer b,
        length-append b (wire ws),
      ))

-- A write behind an empty buffer, or one that took the buffer along.
Shaped-Adds :
    (v w : Net) (b out : List ℕ) (err : Option Error)
    → w.sess.buffer ≡ []
    → v.sess.buffering ≡ false
    → Shaped (v.sess.buffer ++ b) out
    → Sent v.world w.world out err
    → Adds v w b err
Shaped-Adds v w b out err empty free sh sent =
    let (ws, whole, pad) = wire-IsPadding (v.sess.buffer ++ b) out sh in
    let (lost, rest, none_lost, short) = sent_or_lost v.world w.world out err sent in
    record {
      padding = ws;
      is_padding = pad;
      lost = lost;
      grown =
          rw (empty, append-nil w.world.sent, rest, whole)
            (ap (◌++◌ v.world.sent) (append_assoc v.sess.buffer b (wire ws))
              ∙ sym (append_assoc v.world.sent v.sess.buffer (b ++ wire ws)));
      none_lost = none_lost;
      lost_short = shaped_short v b out ws lost free whole short;
      flushed = λ _. nothing_left w empty;
    }

flush_buffer-Adds :
    (e : Env) (b : List ℕ) (n : Net)
    → n.sess.buffering ≡ false
    → Adds n (flush_buffer e b n).1 b (flush_buffer e b n).0.error
unfolding flush_buffer
flush_buffer-Adds e b n free =
    let c = write_initial_flush-Controlled e n.padding n.sess.shaper (n.sess.buffer ++ b) n.world in
    Shaped-Adds n (flush_buffer e b n).1 b c.out (flush_buffer e b n).0.error refl free c.shaped
      c.on_wire

buffer_up-Adds :
    (b : List ℕ) (n : Net)
    → n.sess.buffering ≡ true
    → Adds n (buffer_up b n).1 b (buffer_up b n).0.error
unfolding buffer_up wire visible
buffer_up-Adds b n held = record {
  padding = [];
  is_padding = (tt, refl);
  lost = [];
  grown =
      append-nil (n.world.sent ++ (n.sess.buffer ++ b))
      ∙ sym (append_assoc n.world.sent n.sess.buffer b)
      ∙ ap (◌++◌ (line n)) (sym (append-nil b));
  none_lost = refl;
  lost_short = omega arith;
  flushed = λ _. rw held refl;
}

write_shaped-Adds :
    (e : Env) (b : List ℕ) (is_ctrl : Bool) (n : Net)
    → n.sess.buffer ≡ []
    → n.sess.buffering ≡ false
    → Adds n (write_shaped e b is_ctrl n).1 b (write_shaped e b is_ctrl n).0.error
unfolding write_shaped
write_shaped-Adds e b is_ctrl n empty free = elim (Bool-cases (is_ctrl && is_lone_syn b)) [
  | inl syn ↦
      let c = write_initial_flush-Controlled e n.padding n.sess.shaper b n.world in
      rw syn (Shaped-Adds n _ b c.out _ empty free (rw empty c.shaped) c.on_wire)
  | inr other ↦ elim (Bool-cases is_ctrl) [
    | inl ctrl ↦
        let c = write_control-Controlled e n.padding n.sess.shaper b n.world in
        rw (other, ctrl) (Shaped-Adds n _ b c.out _ empty free (rw empty c.shaped) c.on_wire)
    | inr plain ↦
        let d = write_data_lem e n.sess.shaper b n.world in
        rw (other, plain) (Shaped-Adds n _ b b _ empty free (inl (rw empty refl)) d.0)
  ]
]

-- The same of a result and the state it comes with.
abbrev pub Adding : Net → List ℕ → Written × Net → Type 0
Adding v b r = Adds v (r.1) b (r.0.error)

-- Whichever way writeConn takes (closed, buffering, flushing the buffer, or shaping as SYN, control
-- frame or data), the line, which is what the connection took and then the buffer, grows by the
-- bytes and padding frames behind them, but for a suffix that is lost only when it answers an
-- error.
pub write_conn-Adds :
    (e : Env) (b : List ℕ) (is_ctrl : Bool) (n : Net)
    → Adds n (write_conn e b is_ctrl n).1 b (write_conn e b is_ctrl n).0.error
unfolding write_conn
write_conn-Adds e b is_ctrl n =
    if_cases (Adding n b) n.sess.closed _ _
      (λ dead. record {
        padding = [];
        is_padding = (tt, unfold visible in refl);
        lost = b;
        grown = ap (◌++◌ (line n)) (sym (unfold wire in append-nil b));
        none_lost = tt;
        lost_short = omega (arith, length-append b (wire []));
        flushed = λ h. absurd cc;
      })
      λ alive.
        if_cases (Adding n b) n.sess.buffering _ _ (λ held. buffer_up-Adds b n held)
          λ free.
            if_cases (Adding n b) (ltb 0 (length n.sess.buffer)) _ _
              (λ full. flush_buffer-Adds e b n free)
              λ empty.
                write_shaped-Adds e b is_ctrl n
                  (length-eq-zero n.sess.buffer (ground (arith, empty))) free
