-- ===== src/Session/Carried.antt =====
-- session/session.go, the data-frame writers: no round, a round that fails, and a round with the rest.
use anytls_x.Base.{
  ℕ, ◌+◌, ◌≤◌, ◌<◌, ◌≡◌, refl, sym, ap, ◌∙◌, subst, Bool, true, Option, none, some, List, [], ◌∷◌,
  ◌++◌, arith, length, length-append, All, All-append, append_assoc, append-nil, on_error,
  on_error_cases,
}
use anytls_x.Env.{Env, Error, Written}
use anytls_x.Frame.Defs.{Frame, encode, cmd_psh}
use anytls_x.Frame.Wire.{IsU32}
use anytls_x.Frame.Stream.{IsFrame, wire, wire-append}
use anytls_x.Shaper.Shaped.{visible, visible-append}
use anytls_x.Session.Defs.{Net}
use anytls_x.Session.Write.{send_psh}
use anytls_x.Session.Line.{line, unflushed, NoneLost, Adds}
use anytls_x.Session.Control.{Speaks}
use anytls_x.Session.Carry.{
  IsData, payloads, Tried, left_over, Answer, Carries, data_frame, data_frame-IsFrame,
  send_psh-Adds, send_psh-broken,
}

-- Nothing to send, nothing sent.
pub Carries-nil :
    (sid total base : ℕ) (n : Net)
    → Carries sid total base [] n (record { n = total; error = none }, n)
unfolding payloads wire visible
Carries-nil sid total base n = record {
  sent_frames = [];
  rest = [];
  all_data = tt;
  carried = refl;
  answered = (refl, refl);
  on_wire = [];
  whole = tt;
  heard = refl;
  partial = [];
  lost = [];
  grown = refl;
  tried = refl;
  none_lost = refl;
  lost_short = omega arith;
}

-- The first frame failed.
pub Carries-fail :
    (sid total base : ℕ) (chunk more bytes : List ℕ) (v w : Net) (err : Error)
    → 0 < length chunk
    → chunk ++ more ≡ bytes
    → Adds v w (encode cmd_psh sid chunk) (some err)
    → w.sess.conn_broken ≡ true
    → Carries sid total base bytes v (record { n = base; error = some err }, w)
unfolding payloads wire visible
Carries-fail sid total base chunk more bytes v w err pos joined a broken = record {
  sent_frames = [];
  rest = bytes;
  all_data = tt;
  carried = refl;
  answered = (omega arith, broken);
  on_wire = [];
  whole = tt;
  heard = refl;
  partial = encode cmd_psh sid chunk ++ wire a.padding;
  lost = a.lost;
  grown = a.grown;
  tried = (chunk, more, a.padding, joined, pos, a.is_padding, refl);
  none_lost = tt;
  lost_short = a.lost_short;
}

nothing_over :
    (fs : List Frame) (v : Net) (lost partial : List ℕ)
    → unflushed v ≡ 0
    → length lost ≤ length partial + left_over fs v
    → length lost ≤ length partial + 0
nothing_over [] v lost partial flushed short = omega (arith, flushed, short)
nothing_over (f ∷ fs) v lost partial flushed short = short

-- The first frame went out, and the rest follows.
pub Carries-cons :
    (sid total base : ℕ) (chunk more bytes : List ℕ) (u v : Net) (r : Written × Net)
    → IsU32 sid
    → 0 < length chunk
    → length chunk ≤ 16384
    → chunk ++ more ≡ bytes
    → Adds u v (encode cmd_psh sid chunk) none
    → Carries sid total (base + length chunk) more v r
    → Carries sid total base bytes u r
unfolding payloads
Carries-cons sid total base chunk more bytes u v r hs pos fits joined a c = record {
  sent_frames = data_frame sid chunk ∷ c.sent_frames;
  rest = c.rest;
  all_data =
      (record { is_psh = refl; of_stream = refl; not_empty = pos; in_chunk = fits }, c.all_data);
  carried = append_assoc chunk (payloads c.sent_frames) c.rest ∙ ap (◌++◌ chunk) c.carried ∙ joined;
  answered =
      subst (λ d. Answer r.0.error total d r.0.n c.rest r.1.sess.conn_broken)
        (omega (arith, length-append chunk (payloads c.sent_frames))) c.answered;
  on_wire = data_frame sid chunk ∷ (a.padding ++ c.on_wire);
  whole = (
    data_frame-IsFrame sid chunk hs fits,
    All-append IsFrame a.padding c.on_wire a.is_padding.0 c.whole,
  );
  heard =
      unfold visible in
      ap (◌∷◌ (data_frame sid chunk)) (
        visible-append a.padding c.on_wire
        ∙ ap (λ x. x ++ visible c.on_wire) a.is_padding.1
        ∙ c.heard);
  partial = c.partial;
  lost = c.lost;
  grown = c.grown ∙ ap (λ x. x ++ (wire c.on_wire ++ c.partial)) whole_line ∙ regroup;
  tried = c.tried;
  none_lost = c.none_lost;
  lost_short = nothing_over c.sent_frames v c.lost c.partial (a.flushed refl) c.lost_short;
}
  where
    whole_line : line v ≡ line u ++ (encode cmd_psh sid chunk ++ wire a.padding)
    whole_line = sym (append-nil (line v)) ∙ ap (◌++◌ (line v)) (sym a.none_lost) ∙ a.grown

    regroup :
        (line u ++ (encode cmd_psh sid chunk ++ wire a.padding)) ++ (wire c.on_wire ++ c.partial)
        ≡ line u ++ (wire (data_frame sid chunk ∷ (a.padding ++ c.on_wire)) ++ c.partial)
    regroup = unfold wire in simp (append_assoc, wire-append)

Answer-none :
    (o : Option Error) (total done n : ℕ) (rest : List ℕ) (broken : Bool)
    → o ≡ none
    → Answer o total done n rest broken
    → (n ≡ total) × (rest ≡ [])
Answer-none none total done n rest broken h a = a
Answer-none (some err) total done n rest broken h a = cc

Tried-none :
    (sid : ℕ) (o : Option Error) (rest partial : List ℕ)
    → o ≡ none
    → Tried sid o rest partial
    → partial ≡ []
Tried-none sid none rest partial h a = a
Tried-none sid (some err) rest partial h a = cc

NoneLost-none : (o : Option Error) (lost : List ℕ) → o ≡ none → NoneLost o lost → lost ≡ []
NoneLost-none none lost h a = a
NoneLost-none (some err) lost h a = cc

-- A run that carried everything is heard behind what went before.
pub Carries-Speaks :
    (sid total base : ℕ) (bytes : List ℕ) (v : Net) (r : Written × Net) (gs : List Frame)
    → Carries sid total base bytes v r
    → r.0.error ≡ none
    → Speaks v gs
    → (fs : List Frame) × Speaks r.1 (gs ++ fs)
      × All (IsData sid) fs
      × (payloads fs ≡ bytes)
      × (r.0.n ≡ total)
Carries-Speaks sid total base bytes v r gs c h s =
    let (count, all_out) = Answer-none r.0.error _ _ _ c.rest _ h c.answered in
    let partial_out = Tried-none sid r.0.error c.rest c.partial h c.tried in
    let lost_out = NoneLost-none r.0.error c.lost h c.none_lost in
    (
      c.sent_frames,
      record {
        spoken = s.spoken ++ c.on_wire;
        whole = All-append IsFrame s.spoken c.on_wire s.whole c.whole;
        on_line =
            sym (append-nil (line r.1))
            ∙ ap (◌++◌ (line r.1)) (sym lost_out)
            ∙ c.grown
            ∙ ap (λ x. line v ++ (wire c.on_wire ++ x)) partial_out
            ∙ ap (◌++◌ (line v)) (append-nil (wire c.on_wire))
            ∙ ap (λ x. x ++ wire c.on_wire) s.on_line
            ∙ sym (wire-append s.spoken c.on_wire);
        heard =
            visible-append s.spoken c.on_wire
            ∙ ap (λ x. x ++ visible c.on_wire) s.heard
            ∙ ap (◌++◌ gs) c.heard;
      },
      c.all_data,
      sym (append-nil (payloads c.sent_frames))
          ∙ ap (◌++◌ (payloads c.sent_frames)) (sym all_out)
          ∙ c.carried,
      count,
    )

-- One round of a data writer: send a chunk from a state with the same line, then go on or give up.
pub Carries-round :
    (e : Env) (sid total base : ℕ) (chunk more bytes : List ℕ) (u n : Net) (rest : Written × Net)
    → IsU32 sid
    → 0 < length chunk
    → length chunk ≤ 16384
    → chunk ++ more ≡ bytes
    → line n ≡ line u
    → unflushed n ≡ unflushed u
    → Carries sid total (base + length chunk) more (send_psh e sid chunk n).1 rest
    → Carries sid total base bytes u (
        on_error
          (send_psh e sid chunk n).0
          rest
          (λ err. (record { n = base; error = some err }, (send_psh e sid chunk n).1)))
Carries-round e sid total base chunk more bytes u n rest hs pos fits joined same kept later =
    on_error_cases (Carries sid total base bytes u) sent.0 rest _
      (λ fine.
        Carries-cons sid total base chunk more bytes u sent.1 rest hs pos fits joined
          (adds none fine) later)
      (λ err bad.
        Carries-fail sid total base chunk more bytes u sent.1 err pos joined (adds (some err) bad)
          (send_psh-broken e sid chunk n err bad))
  where
    sent : Option Error × Net
    sent = send_psh e sid chunk n

    adds : (o : Option Error) → sent.0 ≡ o → Adds u sent.1 (encode cmd_psh sid chunk) o
    adds o h =
        let a =
          subst (λ x. Adds n sent.1 (encode cmd_psh sid chunk) x) h (send_psh-Adds e sid chunk n) in
        record {
          padding = a.padding;
          is_padding = a.is_padding;
          lost = a.lost;
          grown = a.grown ∙ ap (λ x. x ++ (encode cmd_psh sid chunk ++ wire a.padding)) same;
          none_lost = a.none_lost;
          lost_short =
              subst (λ k. length a.lost ≤ length (encode cmd_psh sid chunk ++ wire a.padding) + k)
                kept a.lost_short;
          flushed = a.flushed;
        }
