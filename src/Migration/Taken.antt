-- ===== src/Migration/Taken.antt =====
-- session/migration.go: the carrier that a client opens reaches the stream that its token is for.
use anytls_x.Base.{
  ◌==◌, ◌≢◌, ℕ, ◌≤◌, ◌≡◌, refl, ◌∙◌, ltb, ◌||◌, subst, Option, none, some, List, [], ◌∷◌, ◌++◌,
  arith, length, length-append, take-length-append, take, bytes_eq, bytes_eq_refl, Bool-cases, true,
  false, inl, inr,
}
use anytls_x.Frame.Defs.{cmd_migrate_carrier}
use anytls_x.Frame.Wire.{IsU32, read_header, read_full-append}
use anytls_x.Session.Greet.{mig_token_len}
use anytls_x.Migration.Registry.{
  Token, MigRegistry, pending_of, forget_token, register_token, expire_token, take_token,
}
use anytls_x.Migration.Defs.{carrier_frame}
use anytls_x.Migration.Accept.{
  attached, shut, mig_carrier_max_data, maybe_accept_carrier, accept_payload, present_token,
}

forgotten : (tok : Token) (r : MigRegistry) → pending_of tok (forget_token tok r) ≡ none
unfolding pending_of forget_token
forgotten tok [] = refl
forgotten tok (e ∷ r) = elim (Bool-cases (bytes_eq tok (e.0))) [
  | inl same ↦ rw same (forgotten tok r)
  | inr other ↦ rw (other, other) (forgotten tok r)
]

pending_of-register_token :
    (tok : Token) (sm : ℕ) (r : MigRegistry) → pending_of tok (register_token tok sm r) ≡ some sm
unfolding pending_of register_token
pending_of-register_token tok sm r = rw (bytes_eq_refl tok) refl

forget-register :
    (tok : Token) (sm : ℕ) (r : MigRegistry)
    → forget_token tok (register_token tok sm r) ≡ forget_token tok (forget_token tok r)
unfolding forget_token register_token
forget-register tok sm r = rw (bytes_eq_refl tok) refl

forget-forget :
    (tok : Token) (r : MigRegistry) → forget_token tok (forget_token tok r) ≡ forget_token tok r
unfolding forget_token
forget-forget tok [] = refl
forget-forget tok (e ∷ r) = elim (Bool-cases (bytes_eq tok (e.0))) [
  | inl same ↦ rw same (forget-forget tok r)
  | inr other ↦ rw (other, other, forget-forget tok r) refl
]

presented :
    (tok : Token) (sm : ℕ) (r : MigRegistry)
    → present_token tok (some (register_token tok sm r)) ≡ (attached sm, some (forget_token tok r))
unfolding present_token take_token
presented tok sm r =
    rw (pending_of-register_token tok sm r, forget-register tok sm r, forget-forget tok r) refl

presented_again :
    (tok : Token) (r : MigRegistry)
    → present_token tok (some (forget_token tok r)) ≡ (shut, some (forget_token tok r))
unfolding present_token take_token
presented_again tok r = rw (forgotten tok r, forget-forget tok r) refl

-- A carrier frame brings its token to the registry.
accepted :
    (sid : ℕ) (tok : Token) (filler rest : List ℕ) (reg : Option MigRegistry)
    → IsU32 sid
    → length tok ≡ 16
    → length filler ≤ 4080
    → maybe_accept_carrier (carrier_frame sid tok filler ++ rest) reg ≡ present_token tok reg
unfolding maybe_accept_carrier accept_payload carrier_frame
accepted sid tok filler rest reg hs ht hf =
    let len = length-append tok filler in
    let h = read_header cmd_migrate_carrier sid (tok ++ filler) rest hs (omega (arith, len)) in
    let whole = read_full-append (length (tok ++ filler)) (tok ++ filler) rest refl in
    let front : take 16 (tok ++ filler) ≡ tok =
      subst (λ n. take n (tok ++ filler) ≡ tok) ht (take-length-append tok filler) in
    let fits : (ltb (length (tok ++ filler)) mig_token_len
          || ltb mig_carrier_max_data (length (tok ++ filler)))
        ≡ false =
      ground (arith, len) in
    rw (h.0, h.1, h.3, fits, whole, front) refl

-- MaybeAcceptCarrier, given the frame that clientStartCarrier lays out for a stream id of 32 bits
-- and a token of 16 bytes, with at most 4080 bytes of filler and anything behind it, attaches the
-- connection to the streamMig that register holds under the token and takes the token out of the
-- registry; the same frame on a second connection has that connection closed, and the registry
-- stays as it is.
pub maybe_accept_carrier_once :
    (sid sm : ℕ) (tok : Token) (filler rest : List ℕ) (r : MigRegistry)
    → IsU32 sid
    → length tok ≡ 16
    → length filler ≤ 4080
    → (maybe_accept_carrier (carrier_frame sid tok filler ++ rest) (some (register_token tok sm r))
        ≡ (attached sm, some (forget_token tok r)))
      × (maybe_accept_carrier (carrier_frame sid tok filler ++ rest) (some (forget_token tok r))
          ≡ (shut, some (forget_token tok r)))
maybe_accept_carrier_once sid sm tok filler rest r hs ht hf = (
  accepted sid tok filler rest (some (register_token tok sm r)) hs ht hf ∙ presented tok sm r,
  accepted sid tok filler rest (some (forget_token tok r)) hs ht hf ∙ presented_again tok r,
)

beq_refl : (n : ℕ) → (n == n) ≡ true
beq_refl n = ground arith

beq_other : (n k : ℕ) → n ≢ k → (k == n) ≡ false
beq_other n k h = ground (arith, h)

-- The expiry of a registration spares one that took its token over.
pub expire_token-register_token :
    (tok : Token) (old sm : ℕ) (r : MigRegistry)
    → (expire_token tok sm (register_token tok sm r) ≡ forget_token tok r)
      × (old ≢ sm → expire_token tok old (register_token tok sm r) ≡ register_token tok sm r)
unfolding expire_token
expire_token-register_token tok old sm r = (
  rw (pending_of-register_token tok sm r, beq_refl sm, forget-register tok sm r)
      (forget-forget tok r),
  λ other. rw (pending_of-register_token tok sm r, beq_other old sm other) refl,
)
