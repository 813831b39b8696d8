-- ===== src/Session/Split.antt =====
-- session/session.go, writeDataFrameSplit and writeDataFrameShaped: early frames are cut at random.
use anytls_x.Base.{
  ℕ, zero, suc, ◌+◌, ◌-◌, ◌*◌, ◌≤◌, ◌<◌, ◌≡◌, refl, sym, ap, subst, Bool, ◌||◌, not, none, List,
  ◌++◌, arith, length, length-take, length-drop, length-eq-zero, take, drop, take-append-drop, ◌⊎◌,
  ◌≢◌, All, if◌then◌else◌, if_cases, ◌==◌, ltb, leb,
}
use anytls_x.Env.{Env, IsRandom, World, Written}
use anytls_x.Rand.Bounds.{fast_intn-lt, fast_intn-OnlyDraws}
use anytls_x.Frame.Defs.{Frame}
use anytls_x.Frame.Wire.{IsU32}
use anytls_x.Session.Defs.{Net, P}
use anytls_x.Session.Write.{
  send_psh, split_size, split_loop, write_data_frame_split, write_data_frame_shaped,
}
use anytls_x.Session.Line.{line}
use anytls_x.Session.Control.{Speaks}
use anytls_x.Session.Carry.{Carries, IsData, payloads}
use anytls_x.Session.Carried.{Carries-nil, Carries-round, Carries-Speaks}
use anytls_x.Session.Chunks.{write_data_frame-Carries}

-- A chunk takes a byte at least, and the last part takes everything.
split_size_bounds :
    (e : Env)
    → IsRandom e
    → (left : ℕ) (bytes : List ℕ) (w : World) → 0 < length bytes
    → (0 < (split_size e left bytes w).0)
      × ((split_size e left bytes w).0 ≤ length bytes)
      × ((left ≢ 1) ⊎ ((split_size e left bytes w).0 ≡ length bytes))
unfolding split_size
split_size_bounds e r left bytes w h =
    ground (arith, fast_intn-lt e r (length bytes - 48 * (left - 1) - 48 + 1) w)

split_size-line :
    (e : Env) (left : ℕ) (bytes : List ℕ) (n : Net)
    → line (record n { world = (split_size e left bytes n.world).1 }) ≡ line n
unfolding split_size
split_size-line e left bytes n =
    ap (λ x. x ++ n.sess.buffer)
      (if_cases (λ (r : ℕ × World). r.1.sent ≡ n.world.sent)
        (left == 1 || leb (length bytes - 48 * (left - 1)) 48) (length bytes, n.world) _ (λ _. refl)
        λ _. (fast_intn-OnlyDraws e (length bytes - 48 * (left - 1) - 48 + 1) n.world).sent_same)

-- With a part left, the loop carries all of the data, or stops at the frame that fails.
split_loop-Carries :
    (e : Env)
    → IsRandom e
    → (sid total : ℕ) (left : ℕ) (bytes : List ℕ) (written : ℕ) (n : Net) → IsU32 sid
    → 0 < length bytes
    → length bytes ≤ 16384
    → 0 < left
    → Carries sid total written bytes n (split_loop e sid total left bytes written n)
unfolding split_loop
split_loop-Carries e r sid total zero bytes written n hs h fits pos = absurd (omega arith)
split_loop-Carries e r sid total (suc left) bytes written n hs h fits pos =
    let size = split_size e (suc left) bytes n.world in
    let bounds = split_size_bounds e r (suc left) bytes n.world h in
    let chunk = take size.0 bytes in
    let more = drop size.0 bytes in
    let sent = send_psh e sid chunk (record n { world = size.1 }) in
    Carries-round e sid total written chunk more bytes n (record n { world = size.1 }) _ hs
      (omega (arith, length-take size.0 bytes)) (omega (arith, length-take size.0 bytes))
      (take-append-drop size.0 bytes) (split_size-line e (suc left) bytes n) refl
      (if_cases (Carries sid total (written + length chunk) more sent.1) (leb (length bytes) size.0)
        _ _
        (λ all_out.
          subst
            (λ x.
              Carries sid total (written + length chunk) x sent.1
                (record { n = total; error = none }, sent.1))
            (sym (length-eq-zero more (ground (arith, all_out, length-drop size.0 bytes))))
            (Carries-nil sid total (written + length chunk) sent.1))
        (λ cut.
          split_loop-Carries e r sid total left (drop size.0 bytes) (written + length chunk) sent.1
            hs (ground (arith, cut, length-drop size.0 bytes))
            (omega (arith, length-drop size.0 bytes)) (ground (arith, cut, bounds.2))))

-- With a generator that stays in its range and a stream id of 32 bits, writeDataFrameShaped,
-- whether it succeeds or fails, has put data frames of the stream with padding on the line, and on
-- an error one more data frame with padding behind them, whose payload the rest of the data begins
-- with, but for a lost suffix. The payloads of the whole frames and the rest are the data. The lost
-- suffix is no longer than that last frame with its padding, unless no frame went out before, when
-- it may be longer by the bytes that the session had buffered. It answers the whole length with
-- nothing left over, or an error, with the bytes of the whole frames for its count and the
-- connection marked broken.
pub write_data_frame_shaped-Carries :
    (e : Env)
    → IsRandom e
    → (sid : ℕ) (bytes : List ℕ) (early : Bool) (n : Net) → IsU32 sid
    → Carries sid (length bytes) 0 bytes n (write_data_frame_shaped e sid bytes early n)
unfolding write_data_frame_shaped write_data_frame_split
write_data_frame_shaped-Carries e r sid bytes early n hs =
    if_cases (λ (m : P Written). Carries sid (length bytes) 0 bytes n (m n))
      (not early || (leb (length bytes) 256 || ltb 16384 (length bytes))) _ _
      (λ plain. write_data_frame-Carries e sid bytes n hs)
      λ split.
        split_loop-Carries e r sid (length bytes) (if ltb 600 (length bytes) then 3 else 2) bytes 0
          n hs (ground (arith, split)) (ground (arith, split)) (ground arith)

-- With a generator that stays in its range and a stream id of 32 bits, on a session whose line so
-- far is whole frames that the peer acts on as `gs`: a writeDataFrameShaped that answers no error
-- leaves a line of whole frames that the peer acts on as `gs` and then data frames of that stream,
-- none empty and none above the chunk size, whose payloads put together are the data, and it
-- answers the length of the data.
pub write_data_frame_shaped-Speaks :
    (e : Env)
    → IsRandom e
    → (sid : ℕ) (bytes : List ℕ) (early : Bool) (n : Net) (gs : List Frame) → IsU32 sid
    → Speaks n gs
    → (write_data_frame_shaped e sid bytes early n).0.error ≡ none
    → (fs : List Frame) × Speaks (write_data_frame_shaped e sid bytes early n).1 (gs ++ fs)
      × All (IsData sid) fs
      × (payloads fs ≡ bytes)
      × ((write_data_frame_shaped e sid bytes early n).0.n ≡ length bytes)
write_data_frame_shaped-Speaks e r sid bytes early n gs hs s h =
    Carries-Speaks sid (length bytes) 0 bytes n _ gs
      (write_data_frame_shaped-Carries e r sid bytes early n hs) h s
