-- ===== src/Pool/Taken.antt =====
-- session/client.go, getIdleSession: what comes off the idle list.
use anytls_x.Base.{
  ℕ, zero, suc, ◌≤◌, ◌<◌, ◌≡◌, refl, sym, ap, ◌∙◌, subst, false, Option, none, some, List, [], ◌∷◌,
  arith, length, if_cases, on_some_cases, length-eq-zero, All, Any, inl, ◌≢◌,
}
use anytls_x.Env.{Env}
use anytls_x.Pool.Idle.{IdleMap, delete_entry}
use anytls_x.Pool.Defs.{Node, Client, find_node}
use anytls_x.Pool.Entries.{
  length-delete_entry, delete_entry_first, delete_entry-All, delete_entry-Any,
}
use anytls_x.Pool.Calls.{unusable, drop_unusable, take_round, take_idle, get_idle_session}

module _ (im : IdleMap) (clock : ℕ → ℕ) (envs : ℕ → Env) where
  -- A session that is open and not broken, and an entry of it that has been taken off the list.
  abbrev IsOffered : ℕ → Client im.T → Client im.T → Type 0
  IsOffered seq c d =
      ((nd : Node) × (find_node seq c.nodes ≡ some nd) × (unusable nd ≡ false))
      × ((key : ℕ) × Any (λ kv. kv ≡ (key, seq)) (im.entries c.idle)
          × All (λ kv. kv.0 ≢ key) (im.entries d.idle))

  -- The answer of getIdleSession: the sessions are as they were, and either one is offered, or the idle
  -- list is empty.
  abbrev pub IsTaken : Client im.T → Option ℕ × Client im.T → Type 0
  IsTaken c (none, d) = (d.nodes ≡ c.nodes) × (im.entries d.idle ≡ [])
  IsTaken c (some seq, d) = (d.nodes ≡ c.nodes) × IsOffered seq c d

  IsTaken-later :
      (key : ℕ) (b c : Client im.T) (r : Option ℕ × Client im.T)
      → c.nodes ≡ b.nodes
      → im.entries c.idle ≡ delete_entry key (im.entries b.idle)
      → IsTaken c r
      → IsTaken b r
  IsTaken-later key b c (none, d) h g k = (k.0 ∙ h, k.1)
  IsTaken-later key b c (some seq, d) h g (same, (use_of, (at, there, gone))) = (
    same ∙ h,
    (
      subst (λ m. (nd : Node) × (find_node seq m ≡ some nd) × (unusable nd ≡ false)) h use_of,
      (
        at,
        delete_entry-Any (λ kv. kv ≡ (at, seq)) key (im.entries b.idle)
            (subst (Any λ (kv : ℕ × ℕ). kv ≡ (at, seq)) g there),
        gone,
      ),
    ),
  )

  drop_unusable_kept :
      (seq : ℕ) (nd : Node) (c : Client im.T)
      → ((drop_unusable im clock envs seq nd c).nodes ≡ c.nodes)
        × ((drop_unusable im clock envs seq nd c).idle ≡ c.idle)
  drop_unusable_kept seq nd c = ground arith

  removed_fewer :
      (key seq : ℕ) (m : List (ℕ × ℕ)) (t : im.T)
      → im.entries t ≡ (key, seq) ∷ m
      → length (im.entries (im.remove key t)) < length ((key, seq) ∷ m)
  removed_fewer key seq m t h =
      let gone : im.entries (im.remove key t) ≡ delete_entry key m =
        im.entries-remove key t ∙ ap (delete_entry key) h ∙ delete_entry_first key seq m in
      omega (arith, ap (λ x. length x) gone, length-delete_entry key m)

  take_round-IsTaken :
      (again : Client im.T → Option ℕ × Client im.T) (m : List (ℕ × ℕ)) (c : Client im.T)
      → im.entries c.idle ≡ m
      → ((d : Client im.T) → length (im.entries d.idle) < length m → IsTaken d (again d))
      → IsTaken c (take_round im clock envs again m c)
  unfolding take_round
  take_round-IsTaken again [] c h k = (refl, h)
  take_round-IsTaken again ((key, seq) ∷ m) c h k =
      let taken = record c { idle = im.remove key c.idle } in
      let fewer : length (im.entries taken.idle) < length ((key, seq) ∷ m) =
        removed_fewer key seq m c.idle h in
      on_some_cases (IsTaken c) (find_node seq c.nodes) _ _
        (λ _.
          IsTaken-later key c taken (again taken) refl (im.entries-remove key c.idle)
            (k taken fewer))
        λ nd has.
          if_cases (IsTaken c) (unusable nd) _ _
            (λ _.
              let d = drop_unusable im clock envs seq nd taken in
              let kept = drop_unusable_kept seq nd taken in
              IsTaken-later key c d (again d) (kept.0)
                (ap im.entries kept.1 ∙ im.entries-remove key c.idle)
                (k d (
                  subst (λ t. length (im.entries t) < length ((key, seq) ∷ m)) (sym kept.1) fewer)))
            λ on. (
              refl,
              (
                (nd, has, on),
                (
                  key,
                  subst (Any λ (kv : ℕ × ℕ). kv ≡ (key, seq)) (sym h) (inl refl),
                  subst (All λ (kv : ℕ × ℕ). kv.0 ≢ key) (sym (im.entries-remove key c.idle))
                      (delete_entry-All key (im.entries c.idle)),
                ),
              ),
            )

  take_idle-IsTaken :
      (fuel : ℕ) (c : Client im.T)
      → length (im.entries c.idle) ≤ fuel
      → IsTaken c (take_idle im clock envs fuel c)
  unfolding take_idle
  take_idle-IsTaken zero c h = (refl, length-eq-zero (im.entries c.idle) (omega (arith, h)))
  take_idle-IsTaken (suc fuel) c h =
      take_round-IsTaken (take_idle im clock envs fuel) (im.entries c.idle) c refl
        λ d less. take_idle-IsTaken fuel d (omega (arith, h, less))

  -- getIdleSession leaves the sessions as they were, and either answers one that is open and not
  -- broken, which was on the idle list with a key that is on it no more, or answers none with the
  -- idle list empty.
  pub get_idle_session-IsTaken : (c : Client im.T) → IsTaken c (get_idle_session im clock envs c)
  unfolding get_idle_session
  get_idle_session-IsTaken c = take_idle-IsTaken (length (im.entries c.idle)) c (omega arith)
