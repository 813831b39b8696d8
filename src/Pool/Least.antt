-- ===== src/Pool/Least.antt =====
-- session/client.go, leastLoadedSession: the choice among the sessions of the client.
use anytls_x.Base.{
  ℕ, ◌≡◌, refl, sym, subst, true, false, Option, none, some, List, [], ◌∷◌, arith, All, All-map,
  All-reverse, ◌⊎◌, inl, inr, if_cases, on_some,
}
use mathlib.Core.List.{reverse, reverse_aux}
use anytls_x.Env.{Env}
use anytls_x.Session.Timers.{int32_le}
use anytls_x.Pool.Idle.{IdleMap}
use anytls_x.Pool.Defs.{Node, Client, find_node}
use anytls_x.Pool.Calls.{unusable, lighter, lightest, least_loaded_session}

pub int32_le_refl : (a : ℕ) → int32_le a a ≡ true
int32_le_refl a = ground arith

int32_le_trans : (a b c : ℕ) → int32_le a b ≡ true → int32_le b c ≡ true → int32_le a c ≡ true
int32_le_trans a b c h k = ground (arith, h, k)

int32_le_total : (a b : ℕ) → int32_le a b ≡ false → int32_le b a ≡ true
int32_le_total a b h = ground (arith, h)

-- No lighter than a bound: a session that is missing or of no use, or has at least that load.
abbrev pub NotLighter : ℕ → Option Node → Type 0
NotLighter load none = Unit
NotLighter load (some nd) = (unusable nd ≡ true) ⊎ (int32_le load nd.active_streams ≡ true)

NotLighter-le : (a b : ℕ) (o : Option Node) → int32_le a b ≡ true → NotLighter b o → NotLighter a o
NotLighter-le a b none h k = tt
NotLighter-le a b (some nd) h (inl off) = inl off
NotLighter-le a b (some nd) h (inr le) = inr (int32_le_trans a b nd.active_streams h le)

abbrev pub IsUnusable : Option Node → Type 0
IsUnusable none = Unit
IsUnusable (some nd) = unusable nd ≡ true

-- A session of the client that can carry streams, with its load.
abbrev pub Carries : List (ℕ × Node) → ℕ → ℕ → Type 0
Carries nodes seq load =
    (nd : Node) × (find_node seq nodes ≡ some nd)
    × (unusable nd ≡ false)
    × (nd.active_streams ≡ load)

-- The best session among those that were seen.
abbrev pub IsBest : List (ℕ × Node) → List ℕ → Option (ℕ × ℕ) → Type 0
IsBest nodes seen none = All (λ seq. IsUnusable (find_node seq nodes)) seen
IsBest nodes seen (some b) =
    Carries nodes (b.0) (b.1) × All (λ seq. NotLighter (b.1) (find_node seq nodes)) seen

new-IsBest :
    (nodes : List (ℕ × Node)) (seq : ℕ) (nd : Node) (seen : List ℕ)
    → find_node seq nodes ≡ some nd
    → unusable nd ≡ false
    → All (λ j. NotLighter nd.active_streams (find_node j nodes)) seen
    → IsBest nodes (seq ∷ seen) (some (seq, nd.active_streams))
new-IsBest nodes seq nd seen eq on h = (
  (nd, eq, on, refl),
  (subst (NotLighter nd.active_streams) (sym eq) (inr (int32_le_refl nd.active_streams)), h),
)

unusable-NotLighter : (load : ℕ) (o : Option Node) → IsUnusable o → NotLighter load o
unusable-NotLighter load none h = tt
unusable-NotLighter load (some nd) h = inl h

lighter-IsBest :
    (nodes : List (ℕ × Node)) (seq : ℕ) (o : Option Node) (best : Option (ℕ × ℕ)) (seen : List ℕ)
    → find_node seq nodes ≡ o
    → IsBest nodes seen best
    → IsBest nodes (seq ∷ seen) (lighter seq o best)
unfolding lighter
lighter-IsBest nodes seq none none seen eq h = (subst IsUnusable (sym eq) tt, h)
lighter-IsBest nodes seq none (some b) seen eq h =
    (h.0, (subst (NotLighter (b.1)) (sym eq) tt, h.1))
lighter-IsBest nodes seq (some nd) none seen eq h =
    if_cases (IsBest nodes (seq ∷ seen)) (unusable nd) _ _
      (λ off. (subst IsUnusable (sym eq) off, h))
      λ on.
        new-IsBest nodes seq nd seen eq on
          (All-map _ _ seen (λ j. unusable-NotLighter nd.active_streams (find_node j nodes)) h)
lighter-IsBest nodes seq (some nd) (some b) seen eq h =
    if_cases (IsBest nodes (seq ∷ seen)) (unusable nd) _ _
      (λ off. (h.0, (subst (NotLighter (b.1)) (sym eq) (inl off), h.1)))
      λ on.
        if_cases (IsBest nodes (seq ∷ seen)) (int32_le (b.1) nd.active_streams) _ _
          (λ le. (h.0, (subst (NotLighter (b.1)) (sym eq) (inr le), h.1)))
          λ lt. new-IsBest nodes seq nd seen eq on (
            All-map _ _ seen
              (λ j.
                NotLighter-le nd.active_streams (b.1) (find_node j nodes)
                  (int32_le_total (b.1) nd.active_streams lt))
              h.1)

lightest-IsBest :
    (nodes : List (ℕ × Node)) (seqs : List ℕ) (best : Option (ℕ × ℕ)) (seen : List ℕ)
    → IsBest nodes seen best
    → IsBest nodes (reverse_aux seqs seen) (lightest nodes seqs best)
unfolding lightest
lightest-IsBest nodes [] best seen h = h
lightest-IsBest nodes (seq ∷ seqs) best seen h =
    lightest-IsBest nodes seqs (lighter seq (find_node seq nodes) best) (seq ∷ seen)
      (lighter-IsBest nodes seq (find_node seq nodes) best seen refl h)

-- The answer of leastLoadedSession: a session that is of use and no other is lighter than, or none
-- when no session is of use.
abbrev pub IsLeast : List (ℕ × Node) → List ℕ → Option ℕ → Type 0
IsLeast nodes seen none = All (λ seq. IsUnusable (find_node seq nodes)) seen
IsLeast nodes seen (some seq) =
    (load : ℕ) × Carries nodes seq load × All (λ j. NotLighter load (find_node j nodes)) seen

IsBest-IsLeast :
    (nodes : List (ℕ × Node)) (seen : List ℕ) (o : Option (ℕ × ℕ))
    → IsBest nodes (reverse seen) o
    → IsLeast nodes seen (on_some o none λ b. some (b.0))
IsBest-IsLeast nodes seen none h = All-reverse _ seen h
IsBest-IsLeast nodes seen (some b) h = (b.1, h.0, All-reverse _ seen h.1)

-- leastLoadedSession answers a session that is open and not broken, and no such session of the
-- client has fewer active streams, or answers none, and then no session of the client is both open
-- and not broken.
pub least_loaded_session-IsLeast :
    (im : IdleMap) (clock : ℕ → ℕ) (envs : ℕ → Env) (c : Client im.T)
    → IsLeast c.nodes c.sessions (least_loaded_session im clock envs c)
unfolding least_loaded_session
least_loaded_session-IsLeast im clock envs c =
    IsBest-IsLeast c.nodes c.sessions (lightest c.nodes c.sessions none)
      (lightest-IsBest c.nodes c.sessions none [] tt)
