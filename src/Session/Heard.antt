-- ===== src/Session/Heard.antt =====
-- session/session.go: the writing half of one session against the reading half of its peer.
use anytls_x.Base.{
  All-append, All-map, Bool-cases, ◌∷◌, ◌==◌, true, false, arith, length, inl, inr, subst, ℕ, ◌≡◌,
  refl, sym, ap, ◌∙◌, Bool, none, List, [], ◌++◌, All, append-nil,
}
use anytls_x.Env.{Env, IsRandom}
use anytls_x.Frame.Defs.{Frame, cmd_waste}
use anytls_x.Frame.Wire.{IsU32}
use anytls_x.Frame.Stream.{IsFrame, IsRead, is_refused, is_last, decode, wire, decode-wire}
use anytls_x.Shaper.Shaped.{visible}
use anytls_x.Session.Defs.{Net}
use anytls_x.Session.Write.{write_data_frame_shaped}
use anytls_x.Session.Line.{line}
use anytls_x.Session.Control.{Speaks}
use anytls_x.Session.Carry.{IsData, payloads}
use anytls_x.Session.Split.{write_data_frame_shaped-Speaks}

decode-nothing : decode [] ≡ []
unfolding decode
decode-nothing = refl

-- What keeps a receiver from reading a frame, or from reading on behind it, keeps no waste.
abbrev pub Passes : Frame → Type 0
Passes f = (is_refused f.cmd (length f.payload) ≡ false) × (is_last f ≡ false)

passed : (f : Frame) → IsFrame f → Passes f → IsRead f
passed f v h = record { frame_fits = v; not_refused = h.0; not_last = h.1 }

waste-Passes : (f : Frame) → (f.cmd == cmd_waste) ≡ true → Passes f
waste-Passes f h = (ground (arith, h), ground (arith, h))

visible-IsRead : (fs : List Frame) → All IsFrame fs → All Passes (visible fs) → All IsRead fs
unfolding visible
visible-IsRead [] v h = tt
visible-IsRead (f ∷ fs) v h = elim (Bool-cases (f.cmd == cmd_waste)) [
  | inl waste ↦ (passed f v.0 (waste-Passes f waste), visible-IsRead fs v.1 (rw waste at h))
  | inr other ↦
      let k : Passes f × All Passes (visible fs) = rw other at h in
      (passed f v.0 k.0, visible-IsRead fs v.1 k.1)
]

data-Passes : (sid : ℕ) (f : Frame) → IsData sid f → Passes f
data-Passes sid f d = (ground (arith, d.is_psh), ground (arith, d.is_psh))

decode-wire_whole : (fs : List Frame) → All IsRead fs → decode (wire fs) ≡ fs
decode-wire_whole fs v =
    ap decode (sym (append-nil (wire fs)))
    ∙ decode-wire fs [] v
    ∙ ap (◌++◌ fs) decode-nothing
    ∙ append-nil fs

-- A peer that cuts the whole line into frames acts on those that it says.
pub Speaks-decode :
    (n : Net) (gs : List Frame) → Speaks n gs → All Passes gs → visible (decode (line n)) ≡ gs
Speaks-decode n gs s h =
    ap (λ x. visible (decode x)) s.on_line
    ∙ ap visible (
        decode-wire_whole s.spoken
          (visible-IsRead s.spoken s.whole (subst (All Passes) (sym s.heard) h)))
    ∙ s.heard

-- With a generator that stays in its range and a stream id of 32 bits, on a session whose line so
-- far is whole frames that the peer acts on as `gs`, none of which is a padding scheme above 16384
-- bytes or an alert with a text: after a writeDataFrameShaped that answers no error, a peer that
-- cuts the whole line into frames and drops the waste finds `gs` and then data frames of the stream
-- whose payloads put together are the data.
pub write_data_frame_shaped_heard :
    (e : Env)
    → IsRandom e
    → (sid : ℕ) (bytes : List ℕ) (early : Bool) (n : Net) (gs : List Frame) → IsU32 sid
    → Speaks n gs
    → All Passes gs
    → (write_data_frame_shaped e sid bytes early n).0.error ≡ none
    → (fs : List Frame) × (visible (decode (line (write_data_frame_shaped e sid bytes early n).1))
        ≡ gs ++ fs)
      × All (IsData sid) fs
      × (payloads fs ≡ bytes)
write_data_frame_shaped_heard e r sid bytes early n gs u s reads h =
    let told = write_data_frame_shaped-Speaks e r sid bytes early n gs u s h in
    (
      told.0,
      Speaks-decode (write_data_frame_shaped e sid bytes early n).1 (gs ++ told.0) told.1
          (All-append Passes gs told.0 reads (All-map _ _ told.0 (data-Passes sid) told.2)),
      told.2,
      told.3,
    )
