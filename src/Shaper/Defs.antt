-- ===== src/Shaper/Defs.antt =====
-- session/record_shaper.go. The padding source is an atomic pointer; each method is given the factory
-- that its Load returns. The connection and the clock are the world's.
use anytls_x.Base.{
  ℕ, zero, suc, ◌+◌, ◌-◌, ◌*◌, ◌%◌, ◌^◌, Bool, ◌&&◌, ◌||◌, Option, none, some, List, [], ◌∷◌, ◌++◌,
  length, get_or, ltb, leb, ◌==◌, bytes_eq, if◌then◌else◌,
}
use anytls_x.Env.{
  Env, M, ◌>>=◌, ◌>>◌, pure, time_now, Error, Written, set_write_deadline, conn_write,
}
use anytls_x.Rand.Defs.{fast_intn, fill_random}
use anytls_x.Frame.Defs.{encode, cmd_waste, header_over_head_size, max_frame_data_len}
use anytls_x.Padding.Defs.{PadTarget, RecordShaperConfig, PaddingFactory, target}

abbrev pub pad_retries : ℕ
pad_retries = 3

abbrev pub max_pad_targets_stack : ℕ
max_pad_targets_stack = 16

-- time.Second in nanoseconds, and the deadline of control writes.
abbrev pub second : ℕ
second = 1000000000

abbrev pub millisecond : ℕ
millisecond = 1000000

abbrev pub write_deadline : ℕ
write_deadline = 5 * second

pub record RecordShaper : Type 0 where
  pub last_write : ℕ
  pub cfg : RecordShaperConfig
  pub last_cfg_md5 : List ℕ
  pub max_target : ℕ

unfoldable pub compute_max_target_loop : ℕ → List PadTarget → ℕ
compute_max_target_loop m [] = m
compute_max_target_loop m (t ∷ ts) = compute_max_target_loop (if ltb m t.max then t.max else m) ts

unfoldable pub compute_max_target : RecordShaperConfig → ℕ
unfolding compute_max_target_loop
compute_max_target cfg = compute_max_target_loop 0 cfg.pad_targets

unfoldable pub new_record_shaper : Env → PaddingFactory → M RecordShaper
unfolding compute_max_target
new_record_shaper e pf = do
  now ← time_now e
  pure (record {
    last_write = now;
    cfg = pf.record_config;
    last_cfg_md5 = pf.md5;
    max_target = compute_max_target pf.record_config;
  })

unfoldable pub maybe_refresh_config : PaddingFactory → RecordShaper → RecordShaper
unfolding compute_max_target
maybe_refresh_config pf rs = if bytes_eq pf.md5 rs.last_cfg_md5 then rs else record rs {
  cfg = pf.record_config;
  last_cfg_md5 = pf.md5;
  max_target = compute_max_target pf.record_config;
}

-- The length of the waste payload: what is missing to the target, clamped at 0 and at the most that
-- the two-byte length field can say.
unfoldable pub waste_payload_len : ℕ → ℕ → ℕ
waste_payload_len target_size len =
    let raw =
      if ltb target_size (len + header_over_head_size)
      then 0
      else target_size - len - header_over_head_size in
    if ltb max_frame_data_len raw then max_frame_data_len else raw

-- Whether the buffer's spare capacity is reused or a new one is made, the bytes are these.
unfoldable pub append_waste_frame : Env → List ℕ → ℕ → M (List ℕ)
unfolding waste_payload_len
append_waste_frame e b target_size = do
  filler ← fill_random e (waste_payload_len target_size (length b))
  pure (b ++ encode cmd_waste 0 filler)

-- The rejection sampling: up to `attempts` draws from the whole list.
unfoldable pub pick_target : Env → ℕ → List PadTarget → ℕ → M (Option PadTarget)
pick_target e zero targets min_target = pure none
pick_target e (suc attempts) targets min_target = do
  i ← fast_intn e (length targets)
  let candidate = get_or targets i (target 0 0)
  let again = pick_target e attempts targets min_target
  if leb min_target candidate.max then pure (some candidate) else again

-- The fallback's array: the first targets that are large enough, `room` of them at most.
unfoldable pub feasible_targets : ℕ → ℕ → List PadTarget → List PadTarget
feasible_targets room min_target [] = []
feasible_targets room min_target (t ∷ ts) =
    let fits = leb min_target t.max && ltb 0 room in
    let rest = feasible_targets (if fits then room - 1 else room) min_target ts in
    if fits then t ∷ rest else rest

unfoldable pub pick_feasible : Env → List PadTarget → M (Option PadTarget)
pick_feasible e [] = pure none
pick_feasible e (t ∷ ts) = do
  i ← fast_intn e (length (t ∷ ts))
  pure (some (get_or (t ∷ ts) i (target 0 0)))

-- The size within the picked target.
unfoldable pub size_in : Env → PadTarget → ℕ → M ℕ
size_in e picked min_target =
    let lo = if ltb picked.min min_target then min_target else picked.min in
    if picked.min == picked.max
    then pure picked.min
    else (if ltb picked.max lo
        then pure picked.max
        else (do r ← fast_intn e (picked.max - lo + 1); pure (lo + r)))

unfoldable pub pad_to_picked : Env → List ℕ → ℕ → Option PadTarget → M (Option (List ℕ))
unfolding size_in append_waste_frame
pad_to_picked e b min_target none = pure none
pad_to_picked e b min_target (some picked) = do
  size ← size_in e picked min_target
  out ← append_waste_frame e b size
  pure (some out)

-- After the retries the fallback picks among the feasible ones.
unfoldable pub or_feasible : Env → List PadTarget → ℕ → Option PadTarget → M (Option PadTarget)
unfolding feasible_targets pick_feasible
or_feasible e targets min_target (some t) = pure (some t)
or_feasible e targets min_target none =
    pick_feasible e (feasible_targets max_pad_targets_stack min_target targets)

-- `none` is Go's nil: the frame goes out as it is.
unfoldable pub pad_control_frame : Env → RecordShaper → List ℕ → M (Option (List ℕ))
unfolding pick_target or_feasible pad_to_picked
pad_control_frame e rs b = if length rs.cfg.pad_targets == 0 then pure none else (do
  let min_target = length b + header_over_head_size
  found ← pick_target e pad_retries rs.cfg.pad_targets min_target
  picked ← or_feasible e rs.cfg.pad_targets min_target found
  pad_to_picked e b min_target picked)

unfoldable pub pick_size : Env → ℕ → ℕ → M ℕ
pick_size e lo hi = if lo == hi then pure lo else (do r ← fast_intn e (hi - lo + 1); pure (lo + r))

unfoldable pub pad_to_range : Env → List ℕ → ℕ → ℕ → M (Option (List ℕ))
unfolding pick_size append_waste_frame
pad_to_range e b lo hi = do
  chosen ← pick_size e lo hi
  out ← append_waste_frame e b chosen
  pure (some out)

abbrev pub headers_lo : PadTarget → ℕ → ℕ
headers_lo t min_target = if ltb t.min min_target then min_target else t.min

-- The three early returns.
abbrev pub headers_out_of_reach : PadTarget → ℕ → Bool
headers_out_of_reach t min_target =
    t.max == 0 || (ltb t.max min_target || ltb t.max (headers_lo t min_target))

-- The shaper is the refreshed one.
unfoldable pub pad_to_headers_target : Env → RecordShaper → List ℕ → M (Option (List ℕ))
unfolding pad_to_range
pad_to_headers_target e rs b =
    let t = rs.cfg.headers_target in
    let min_target = length b + header_over_head_size in
    if headers_out_of_reach t min_target
    then pure none
    else pad_to_range e b (headers_lo t min_target) t.max

abbrev pub or_same : List ℕ → Option (List ℕ) → List ℕ
or_same b none = b
or_same b (some padded) = padded

-- LastWrite moves only when the write succeeded.
unfoldable pub note_write : Env → RecordShaper → Option Error → M RecordShaper
note_write e rs none = do now ← time_now e; pure (record rs { last_write = now })
note_write e rs (some err) = pure rs

-- WriteData: no deadline is set, and the connection's own count is returned.
unfoldable pub write_data : Env → RecordShaper → List ℕ → M (RecordShaper × Written)
unfolding note_write
write_data e rs b = do r ← conn_write e b; rs' ← note_write e rs r.error; pure (rs', r)

-- The write that both WriteControl and WriteInitialFlush end with: five seconds, then no deadline.
unfoldable pub write_by_deadline : Env → RecordShaper → List ℕ → ℕ → M (RecordShaper × Written)
unfolding note_write
write_by_deadline e rs b total = do
  now ← time_now e
  set_write_deadline (some (now + write_deadline))
  r ← conn_write e b
  set_write_deadline none
  rs' ← note_write e rs r.error
  pure (rs', record { n = total; error = r.error })

unfoldable pub write_initial_flush :
    Env → PaddingFactory → RecordShaper → List ℕ → M (RecordShaper × Written)
unfolding pad_to_headers_target write_by_deadline
write_initial_flush e pf rs b = do
  let rs' = maybe_refresh_config pf rs
  padded ← pad_to_headers_target e rs' b
  write_by_deadline e rs' (or_same b padded) (length b)

unfoldable pub write_control :
    Env → PaddingFactory → RecordShaper → List ℕ → M (RecordShaper × Written)
unfolding pad_control_frame write_by_deadline
write_control e pf rs b = do
  let rs' = maybe_refresh_config pf rs
  padded ← if ltb (length b) rs'.max_target then pad_control_frame e rs' b else pure none
  write_by_deadline e rs' (or_same b padded) (length b)

-- The quiet time, in milliseconds, that idle injection waits for: the threshold, or one interval.
unfoldable pub idle_threshold : RecordShaperConfig → ℕ
idle_threshold cfg =
    if cfg.idle_threshold_ms == 0 then cfg.idle_interval_lo else cfg.idle_threshold_ms

unfoldable pub idle_waste_len : ℕ → ℕ
idle_waste_len size =
    let raw = if ltb size header_over_head_size then 0 else size - header_over_head_size in
    if ltb max_frame_data_len raw then max_frame_data_len else raw

unfoldable pub idle_record : Env → List ℕ → M (Option (List ℕ))
unfolding idle_waste_len
idle_record e sizes = do
  i ← fast_intn e (length sizes)
  filler ← fill_random e (idle_waste_len (get_or sizes i 0))
  pure (some (encode cmd_waste 0 filler))

-- `elapsed < time.Duration(ms) * time.Millisecond`, on int64: the product wraps around, and no time
-- elapsed is below a negative one.
unfoldable pub is_before : ℕ → ℕ → Bool
is_before elapsed ms = let d = ms * millisecond % 2 ^ 64 in ltb d (2 ^ 63) && ltb elapsed d

-- The shaper is the refreshed one; time.Since is the clock's reading less LastWrite.
-- BuildIdleFrame behind its refresh of the configuration.
unfoldable pub due_idle_frame : Env → RecordShaper → M (Option (List ℕ))
unfolding idle_threshold idle_record is_before
due_idle_frame e rs =
    if length rs.cfg.idle_sizes == 0 || idle_threshold rs.cfg == 0 then pure none else (do
      now ← time_now e
      if is_before (now - rs.last_write) (idle_threshold rs.cfg)
          then pure none
          else idle_record e rs.cfg.idle_sizes)

unfoldable pub build_idle_frame :
    Env → PaddingFactory → RecordShaper → M (RecordShaper × Option (List ℕ))
unfolding maybe_refresh_config due_idle_frame
build_idle_frame e pf rs w =
    let fresh = maybe_refresh_config pf rs in
    let r = due_idle_frame e fresh w in ((fresh, r.0), r.1)

unfoldable pub idle_enabled : RecordShaper → Bool
idle_enabled rs = ltb 0 (length rs.cfg.idle_sizes) && ltb 0 rs.cfg.idle_interval_hi

-- `time.Duration(ms) * time.Millisecond`, on int64; a negative wait is over at once, as 0 is.
abbrev pub as_duration : ℕ → ℕ
as_duration ms = let d = ms * millisecond % 2 ^ 64 in if ltb d (2 ^ 63) then d else 0

-- In nanoseconds.
unfoldable pub idle_interval : Env → RecordShaper → M ℕ
idle_interval e rs =
    let lo = rs.cfg.idle_interval_lo in
    let hi = rs.cfg.idle_interval_hi in
    if lo == 0 || (hi == 0 || ltb hi lo)
    then pure (as_duration lo)
    else (do r ← fast_intn e (hi - lo + 1); pure (as_duration (lo + r)))
