-- ===== src/Detector/Records.antt =====
-- session/migration_detect.go: the TLS records in a stream of bytes, and the handshake of TLS 1.3 in them.
use anytls_x.Base.{
  ℕ, ◌+◌, ◌≤◌, ◌≡◌, ◌≢◌, refl, List, [], ◌∷◌, ◌++◌, length, length-append, arith, All, All-append,
  ◌⊎◌, inl, inr,
}
use anytls_x.Detector.Scanner.{fresh_scanner, feed}
use anytls_x.Detector.Machine.{tls_record_handshake, tls_handshake_server_hello}

-- A record as it is reported: its type, its length and its first byte.
abbrev pub TlsRecord : Type 0
TlsRecord = ℕ × ℕ × ℕ

abbrev pub log_record : ℕ → ℕ → ℕ → List TlsRecord → List TlsRecord
log_record rec_type len first log = log ++ ((rec_type, len, first) ∷ [])

-- The records that have begun in a stream of bytes.
unfoldable pub records_of : List ℕ → List TlsRecord
records_of p = (feed log_record p fresh_scanner []).1

-- A handshake record that begins a ServerHello, or has no body.
abbrev pub IsHello : TlsRecord → Type 0
IsHello r = (r.0 ≡ tls_record_handshake) × ((r.2 ≡ tls_handshake_server_hello) ⊎ (r.1 ≡ 0))

abbrev pub IsOther : TlsRecord → Type 0
IsOther r = r.0 ≢ tls_record_handshake

-- A ServerHello in the log has `k` records behind it, none a handshake record.
unfoldable pub HelloThen : ℕ → List TlsRecord → Type 0
HelloThen k [] = ⊥
HelloThen k (r ∷ log) = (IsHello r × All IsOther log × (length log ≡ k)) ⊎ HelloThen k log

abbrev pub NextOther : List TlsRecord → Type 0
NextOther [] = ⊥
NextOther (r ∷ log) = IsOther r

-- A ServerHello with a record right behind it that is no handshake record, as in TLS 1.3.
unfoldable pub HasHandshake : List TlsRecord → Type 0
HasHandshake [] = ⊥
HasHandshake (r ∷ log) = (IsHello r × NextOther log) ⊎ HasHandshake log

pub HelloThen-start :
    (log : List TlsRecord) (r : TlsRecord) → IsHello r → HelloThen 0 (log ++ (r ∷ []))
unfolding HelloThen
HelloThen-start [] r h = inl (h, tt, refl)
HelloThen-start (x ∷ log) r h = inr (HelloThen-start log r h)

pub HelloThen-more :
    (k : ℕ) (log : List TlsRecord) (r : TlsRecord)
    → HelloThen k log
    → IsOther r
    → HelloThen (k + 1) (log ++ (r ∷ []))
unfolding HelloThen
HelloThen-more k [] r h o = absurd h
HelloThen-more k (x ∷ log) r (inl h) o = inl (
  h.0,
  All-append IsOther log (r ∷ []) h.1 (o, tt),
  omega (arith, length-append log (r ∷ []), h.2),
)
HelloThen-more k (x ∷ log) r (inr h) o = inr (HelloThen-more k log r h o)

next_of : (log : List TlsRecord) → All IsOther log → 1 ≤ length log → NextOther log
next_of [] h l = absurd (omega arith)
next_of (x ∷ log) h l = h.0

pub HelloThen-HasHandshake :
    (k : ℕ) (log : List TlsRecord) → HelloThen k log → 1 ≤ k → HasHandshake log
unfolding HelloThen HasHandshake
HelloThen-HasHandshake k [] h l = absurd h
HelloThen-HasHandshake k (x ∷ log) (inl h) l = inl (h.0, next_of log h.1 (omega (arith, h.2, l)))
HelloThen-HasHandshake k (x ∷ log) (inr h) l = inr (HelloThen-HasHandshake k log h l)

NextOther-more :
    (log : List TlsRecord) (r : TlsRecord) → NextOther log → NextOther (log ++ (r ∷ []))
NextOther-more [] r h = absurd h
NextOther-more (x ∷ log) r h = h

pub HasHandshake-more :
    (log : List TlsRecord) (r : TlsRecord) → HasHandshake log → HasHandshake (log ++ (r ∷ []))
unfolding HasHandshake
HasHandshake-more [] r h = absurd h
HasHandshake-more (x ∷ log) r (inl h) = inl (h.0, NextOther-more log r h.1)
HasHandshake-more (x ∷ log) r (inr h) = inr (HasHandshake-more log r h)
