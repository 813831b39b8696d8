-- ===== src/Pool/Rounds.antt =====
-- session/client.go, idleCleanupExpTime: what one round of its loop does.
use anytls_x.Base.{
  length, ◌+◌, append-nil, ◌++◌, ℕ, suc, ◌≤◌, ◌<◌, ◌≡◌, ◌≢◌, refl, sym, ap, ◌∙◌, subst, Bool, true,
  false, ◌&&◌, not, Option, none, some, List, [], ◌∷◌, arith, ◌==◌, All, ◌⊎◌, inl, inr, Bool-cases,
  if_cases, on_some_cases, on_some, if◌then◌else◌, ltb,
}
use anytls_x.Pool.Idle.{IdleMap}
use anytls_x.Pool.Defs.{Node, Client, find_node, put_node}
use anytls_x.Pool.Entries.{IsDistinct, delete_entry-IsDistinct}
use anytls_x.Pool.Calls.{unusable, broken_open}
use anytls_x.Pool.Cleanup.{
  Swept, is_stale, is_used, keep, refresh, drop_closing, sweep_stale, sweep_entry,
}
use anytls_x.Pool.Nodes.{find_node-put_node, find_node_other}

-- A session that could be kept idle.
abbrev pub keepable : Option Node → Bool
keepable none = false
keepable (some nd) = not (unusable nd) && not (is_used nd)

-- A session that may be closed: broken and still open, or without active streams and idle for longer
-- than the timeout.
abbrev pub IsClosable : ℕ → ℕ → Option Node → Type 0
IsClosable now timeout none = ⊥
IsClosable now timeout (some nd) =
    (broken_open nd ≡ true) ⊎ ((is_used nd ≡ false) × (is_stale now timeout nd ≡ true))

-- The entries whose sessions could be kept.
unfoldable pub count_keepable : List (ℕ × Node) → List (ℕ × ℕ) → ℕ
count_keepable nodes [] = 0
count_keepable nodes (kv ∷ m) =
    let rest = count_keepable nodes m in
    if keepable (find_node (kv.1) nodes) then suc rest else rest

-- A later state of the sessions, in which no more of them could be closed, and as many kept.
abbrev pub SameUse : ℕ → ℕ → List (ℕ × Node) → List (ℕ × Node) → Type 0
SameUse now timeout xs ys =
    (k : ℕ)
    → (keepable (find_node k ys) ≡ keepable (find_node k xs))
      × (IsClosable now timeout (find_node k ys) → IsClosable now timeout (find_node k xs))

-- The sessions to close, with some more of them.
abbrev pub More : (ℕ → Type 0) → List ℕ → List ℕ → Type 0
More P xs ys = (new : List ℕ) × (ys ≡ xs ++ new) × All P new

pub More-same : (P : ℕ → Type 0) (xs : List ℕ) → More P xs xs
More-same P xs = ([], sym (append-nil xs), tt)

beq→eq : (k j : ℕ) → (k == j) ≡ true → k ≡ j
beq→eq k j h = ground (arith, h)

beq→ne : (k j : ℕ) → (k == j) ≡ false → k ≢ j
beq→ne k j h = ground (arith, h)

put-SameUse :
    (now timeout j : ℕ) (nd : Node) (t : ℕ) (m : List (ℕ × Node))
    → find_node j m ≡ some nd
    → IsClosable now timeout (some nd)
    → SameUse now timeout m (put_node j (record nd { idle_since = t }) m)
put-SameUse now timeout j nd t m h may k = elim (Bool-cases (k == j)) [
  | inl same ↦
      let eq = beq→eq k j same in
      let later =
        ap (λ x. find_node x (put_node j (record nd { idle_since = t }) m)) eq
        ∙ find_node-put_node j (record nd { idle_since = t }) m in
      let old = ap (λ x. find_node x m) eq ∙ h in
      (ap keepable later ∙ sym (ap keepable old), λ c. subst (IsClosable now timeout) (sym old) may)
  | inr other ↦
      let eq = find_node_other k j (record nd { idle_since = t }) m (beq→ne k j other) in
      (ap keepable eq, λ c. subst (IsClosable now timeout) eq c)
]

module _ (im : IdleMap) (clock : ℕ → ℕ) where
  refresh-SameUse :
      (now timeout seq : ℕ) (nd : Node) (c : Client im.T)
      → find_node seq c.nodes ≡ some nd
      → IsClosable now timeout (some nd)
      → SameUse now timeout c.nodes (refresh im clock seq c).nodes
  unfolding refresh
  refresh-SameUse now timeout seq nd c has may =
      on_some_cases (λ (d : Client im.T). SameUse now timeout c.nodes d.nodes)
        (find_node seq c.nodes) _ _ (λ _ k. (refl, λ x. x))
        λ nd' has'.
          put-SameUse now timeout seq nd' (clock c.reads) c.nodes has'
            (subst (IsClosable now timeout) (sym has ∙ has') may)

  pub count_same :
      (now timeout : ℕ) (xs ys : List (ℕ × Node)) (m : List (ℕ × ℕ))
      → SameUse now timeout xs ys
      → count_keepable ys m ≡ count_keepable xs m
  unfolding count_keepable
  count_same now timeout xs ys [] h = refl
  count_same now timeout xs ys (kv ∷ m) h = rw ((h (kv.1)).0, count_same now timeout xs ys m h) refl

  -- Of an idle list with distinct keys, a round that counts no session takes one entry at most, and a
  -- round that counts one takes none.
  abbrev pub Remains : Swept im.T → Swept im.T → Type 0
  Remains u v =
      IsDistinct (im.entries u.client.idle)
      → IsDistinct (im.entries v.client.idle)
        × (length (im.entries u.client.idle) + v.active_count
            ≤ length (im.entries v.client.idle) + u.active_count + 1)

  refresh_idle : (seq : ℕ) (c : Client im.T) → (refresh im clock seq c).idle ≡ c.idle
  unfolding refresh
  refresh_idle seq c =
      on_some_cases (λ (d : Client im.T). d.idle ≡ c.idle) (find_node seq c.nodes) _ _ (λ _. refl)
        λ nd _. refl

  -- What one round of the loop does; `b` says that its session could be kept.
  pub record Round (now : ℕ) (b : Bool) (u v : Swept im.T) : Type 0 where
    pub same_use : SameUse now u.client.idle_session_timeout u.client.nodes v.client.nodes
    pub timeout_kept : v.client.idle_session_timeout ≡ u.client.idle_session_timeout
    pub min_kept : v.client.min_idle_session ≡ u.client.min_idle_session
    pub grows : u.active_count ≤ v.active_count
    pub counts :
        b ≡ true → (u.active_count < v.active_count) ⊎ (u.client.min_idle_session ≤ u.active_count)
    pub remains : Remains u v
    pub closable :
        More
          (λ seq. IsClosable now u.client.idle_session_timeout (find_node seq u.client.nodes))
          u.to_close
          v.to_close

  unchanged : (now timeout : ℕ) (xs : List (ℕ × Node)) → SameUse now timeout xs xs
  unchanged now timeout xs k = (refl, λ x. x)

  drop-Round :
      (now : ℕ) (b closing : Bool) (key seq : ℕ) (nd : Node) (u : Swept im.T)
      → find_node seq u.client.nodes ≡ some nd
      → (b ≡ true → u.client.min_idle_session ≤ u.active_count)
      → (closing ≡ true → IsClosable now u.client.idle_session_timeout (some nd))
      → Round now b u (drop_closing im clock closing key seq u)
  drop-Round now b closing key seq nd u has full may =
      let P : ℕ → Type 0 =
        λ j. IsClosable now u.client.idle_session_timeout (find_node j u.client.nodes) in
      record {
        same_use = unchanged now u.client.idle_session_timeout u.client.nodes;
        timeout_kept = refl;
        min_kept = refl;
        grows = omega arith;
        counts = λ h. inr (full h);
        remains = λ d.
            let taken = delete_entry-IsDistinct key (im.entries u.client.idle) d in
            rw (im.entries-remove key u.client.idle) (taken.0, omega (arith, taken.1));
        closable =
            if_cases (More P u.to_close) closing _ _
              (λ due. (
                seq ∷ [],
                refl,
                (subst (IsClosable now u.client.idle_session_timeout) (sym has) (may due), tt),
              ))
              λ _. More-same P u.to_close;
      }

  keep-Round : (now : ℕ) (b : Bool) (u : Swept im.T) → Round now b u (keep im clock u)
  keep-Round now b u = record {
    same_use = unchanged now u.client.idle_session_timeout u.client.nodes;
    timeout_kept = refl;
    min_kept = refl;
    grows = omega arith;
    counts = λ h. inl (omega arith);
    remains = λ d. (d, omega arith);
    closable = More-same _ u.to_close;
  }

  refresh_min :
      (seq : ℕ) (c : Client im.T) → (refresh im clock seq c).min_idle_session ≡ c.min_idle_session
  unfolding refresh
  refresh_min seq c =
      on_some_cases (λ (d : Client im.T). d.min_idle_session ≡ c.min_idle_session)
        (find_node seq c.nodes) _ _ (λ _. refl) λ nd _. refl

  refresh_timeout :
      (seq : ℕ) (c : Client im.T)
      → (refresh im clock seq c).idle_session_timeout ≡ c.idle_session_timeout
  unfolding refresh
  refresh_timeout seq c =
      on_some_cases (λ (d : Client im.T). d.idle_session_timeout ≡ c.idle_session_timeout)
        (find_node seq c.nodes) _ _ (λ _. refl) λ nd _. refl

  sweep_stale-Round :
      (now : ℕ) (b : Bool) (key seq : ℕ) (nd : Node) (u : Swept im.T)
      → find_node seq u.client.nodes ≡ some nd
      → is_used nd ≡ false
      → is_stale now u.client.idle_session_timeout nd ≡ true
      → Round now b u (sweep_stale im clock key seq u)
  unfolding sweep_stale
  sweep_stale-Round now b key seq nd u has free late =
      if_cases (Round now b u) (ltb u.active_count u.client.min_idle_session) _ _
        (λ _. record {
          same_use =
              refresh-SameUse now u.client.idle_session_timeout seq nd u.client has
                (inr (free, late));
          timeout_kept = refresh_timeout seq u.client;
          min_kept = refresh_min seq u.client;
          grows = omega arith;
          counts = λ h. inl (omega arith);
          remains = λ d. rw (refresh_idle seq u.client) (d, omega arith);
          closable = More-same _ u.to_close;
        })
        λ full.
          drop-Round now b true key seq nd u has (λ _. ground (arith, full)) λ _. inr (free, late)

  sweep_entry-Round :
      (now key seq : ℕ) (nd : Node) (u : Swept im.T)
      → find_node seq u.client.nodes ≡ some nd
      → Round now (keepable (some nd)) u (sweep_entry im clock now key seq nd u)
  unfolding sweep_entry
  sweep_entry-Round now key seq nd u has =
      let b = keepable (some nd) in
      if_cases (Round now b u) (unusable nd) _ _
        (λ off.
          drop-Round now b (broken_open nd) key seq nd u has (λ k. absurd (ground (arith, off, k)))
            λ due. inl due)
        λ on.
          if_cases (Round now b u) (is_used nd) _ _
            (λ used.
              drop-Round now b false key seq nd u has (λ k. absurd (ground (arith, used, k)))
                λ due. absurd (ground (arith, due)))
            λ free.
              if_cases (Round now b u) (is_stale now u.client.idle_session_timeout nd) _ _
                (λ late. sweep_stale-Round now b key seq nd u has free late) λ _. keep-Round now b u

  same-Round : (now : ℕ) (u : Swept im.T) → Round now false u u
  same-Round now u = record {
    same_use = unchanged now u.client.idle_session_timeout u.client.nodes;
    timeout_kept = refl;
    min_kept = refl;
    grows = omega arith;
    counts = λ h. absurd (ground (arith, h));
    remains = λ d. (d, omega arith);
    closable = More-same _ u.to_close;
  }

  pub found-Round :
      (now key seq : ℕ) (o : Option Node) (u : Swept im.T)
      → find_node seq u.client.nodes ≡ o
      → Round now (keepable o) u (on_some o u λ nd. sweep_entry im clock now key seq nd u)
  found-Round now key seq none u has = same-Round now u
  found-Round now key seq (some nd) u has = sweep_entry-Round now key seq nd u has
