-- ===== src/Shaper/Waste.antt =====
-- session/record_shaper.go, appendWasteFrame: what the trailer is to the receiver.
use anytls_x.Base.{
  ℕ, ◌+◌, ◌≤◌, ◌≡◌, refl, ap, ◌∙◌, List, ◌∷◌, ◌++◌, arith, length, length-append, inl, All,
  append_assoc,
}
use anytls_x.Env.{Env, World}
use anytls_x.Rand.Bounds.{OnlyDraws, fill_random-Filled}
use anytls_x.Rand.Defs.{fill_random}
use anytls_x.Frame.Defs.{Frame, cmd_waste}
use anytls_x.Frame.Wire.{length-encode}
use anytls_x.Frame.Stream.{
  IsFrame, IsRead, bytes_of, decode, wire, decode-wire, decode-encode, reads_payload,
}
use anytls_x.Shaper.Defs.{waste_payload_len, append_waste_frame}

abbrev pub waste_frame : List ℕ → Frame
waste_frame filler = record { cmd = cmd_waste; sid = 0; payload = filler }

pub waste_frame-IsFrame : (filler : List ℕ) → length filler ≤ 0xFFFF → IsFrame (waste_frame filler)
unfolding reads_payload
waste_frame-IsFrame filler h = record {
  sid_fits = omega arith;
  payload_fits = h;
  read_whole = inl refl;
}

-- `out` is `b` and one waste frame behind it, whose payload has the given length.
pub record Padded (b out : List ℕ) (n : ℕ) : Type 0 where
  pub filler : List ℕ
  pub filler_length : length filler ≡ n
  pub filler_fits : n ≤ 0xFFFF
  pub trailer : out ≡ b ++ bytes_of (waste_frame filler)

pub waste_payload_len-le : (t len : ℕ) → waste_payload_len t len ≤ 0xFFFF
unfolding waste_payload_len
waste_payload_len-le t len = ground arith

pub append_waste_frame-Padded :
    (e : Env) (b : List ℕ) (t : ℕ) (w : World)
    → Padded b (append_waste_frame e b t w).0 (waste_payload_len t (length b))
unfolding append_waste_frame
append_waste_frame-Padded e b t w = record {
  filler = (fill_random e (waste_payload_len t (length b)) w).0;
  filler_length = (fill_random-Filled e (waste_payload_len t (length b)) w).filled_length;
  filler_fits = waste_payload_len-le t (length b);
  trailer = refl;
}

pub append_waste_frame-OnlyDraws :
    (e : Env) (b : List ℕ) (t : ℕ) (w : World) → OnlyDraws w (append_waste_frame e b t w).1
unfolding append_waste_frame
append_waste_frame-OnlyDraws e b t w =
    (fill_random-Filled e (waste_payload_len t (length b)) w).filled_world

pub length-Padded : (b out : List ℕ) (n : ℕ) → Padded b out n → length out ≡ length b + 7 + n
length-Padded b out n p = omega (
  arith,
  ap length p.trailer,
  length-append b (bytes_of (waste_frame p.filler)),
  length-encode cmd_waste 0 p.filler,
  p.filler_length,
)

-- appendWasteFrame gives exactly the target length when the target is at least seven bytes, and at
-- most seven and 0xFFFF bytes, above the length of what it pads.
pub length-append_waste_frame :
    (e : Env) (b : List ℕ) (t : ℕ) (w : World)
    → length b + 7 ≤ t
    → t ≤ length b + 7 + 0xFFFF
    → length (append_waste_frame e b t w).0 ≡ t
length-append_waste_frame e b t w lo hi =
    unfold waste_payload_len in
    ground (
      arith,
      length-Padded b _ (waste_payload_len t (length b)) (append_waste_frame-Padded e b t w),
    )

pub waste_frame-IsRead : (filler : List ℕ) → length filler ≤ 0xFFFF → IsRead (waste_frame filler)
waste_frame-IsRead filler fits = record {
  frame_fits = waste_frame-IsFrame filler fits;
  not_refused = refl;
  not_last = refl;
}

-- Behind whole frames, the receiver sees them as they were, then one waste frame.
pub decode-Padded :
    (fs : List Frame) (out rest : List ℕ) (n : ℕ)
    → All IsRead fs
    → (p : Padded (wire fs) out n)
    → decode (out ++ rest) ≡ fs ++ (waste_frame p.filler ∷ decode rest)
decode-Padded fs out rest n v p =
    rw (p.trailer, append_assoc (wire fs) (bytes_of (waste_frame p.filler)) rest)
      (decode-wire fs (bytes_of (waste_frame p.filler) ++ rest) v
        ∙ ap (◌++◌ fs)
            (decode-encode (waste_frame p.filler) rest (waste_frame-IsRead p.filler (omega arith))))
