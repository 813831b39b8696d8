-- ===== src/Pool/Swept.antt =====
-- session/client.go, idleCleanupExpTime: how many sessions stay idle, and which ones are closed.
use anytls_x.Base.{
  length, ℕ, suc, ◌+◌, ◌≤◌, ◌<◌, ◌≡◌, refl, Bool, true, false, List, [], ◌∷◌, arith, All, All-map,
  All-append, append_assoc, ap, sym, subst, ◌∙◌, ◌++◌, ◌⊎◌, inl, inr, on_some, if◌then◌else◌,
}
use anytls_x.Pool.Idle.{IdleMap}
use anytls_x.Pool.Entries.{IsDistinct}
use anytls_x.Pool.Defs.{Client, find_node}
use anytls_x.Pool.Cleanup.{Swept, sweep_entry, sweep, sweep_idle}
use anytls_x.Pool.Rounds.{
  More, More-same, keepable, IsClosable, count_keepable, Round, found-Round, count_same,
}

count_step :
    (b : Bool) (left result least before behind : ℕ)
    → (b ≡ true → (before < behind) ⊎ (least ≤ before))
    → before ≤ behind
    → behind ≤ result
    → (least ≤ result) ⊎ (behind + left ≤ result)
    → (least ≤ result) ⊎ (before + (if b then suc left else left) ≤ result)
count_step b left result least before behind f g h (inl full) = inl full
count_step false left result least before behind f g h (inr k) = inr (omega (arith, g, k))
count_step true left result least before behind f g h (inr k) = elim (f refl) [
  | inl more ↦ inr (omega (arith, more, k))
  | inr full ↦ inl (omega (arith, full, g, h))
]

module _ (im : IdleMap) (clock : ℕ → ℕ) where
  -- Of the entries that could be kept, the minimum or all are; what is to be closed may be.
  abbrev pub IsSwept : ℕ → List (ℕ × ℕ) → Swept im.T → Swept im.T → Type 0
  IsSwept now m u v =
      ((u.client.min_idle_session ≤ v.active_count)
        ⊎ (u.active_count + count_keepable u.client.nodes m ≤ v.active_count))
      × More (λ seq. IsClosable now u.client.idle_session_timeout (find_node seq u.client.nodes))
          u.to_close v.to_close
      × (u.active_count ≤ v.active_count)
      × (IsDistinct (im.entries u.client.idle)
          → length (im.entries u.client.idle) + v.active_count
            ≤ length (im.entries v.client.idle) + u.active_count + length m)

  More-More :
      (P Q : ℕ → Type 0) (xs ys zs : List ℕ)
      → ((j : ℕ) → Q j → P j)
      → More P xs ys
      → More Q ys zs
      → More P xs zs
  More-More P Q xs ys zs f (new, eq, h) (more, eq', k) = (
    new ++ more,
    eq' ∙ ap (λ l. l ++ more) eq ∙ append_assoc xs new more,
    All-append P new more h (All-map Q P more f k),
  )

  IsSwept-Round :
      (now key seq : ℕ) (m : List (ℕ × ℕ)) (u v w : Swept im.T)
      → Round im clock now (keepable (find_node seq u.client.nodes)) u v
      → IsSwept now m v w
      → IsSwept now ((key, seq) ∷ m) u w
  unfolding count_keepable
  IsSwept-Round now key seq m u v w r s =
      let t = u.client.idle_session_timeout in
      let same = count_same im clock now t u.client.nodes v.client.nodes m r.same_use in
      (
        count_step (keepable (find_node seq u.client.nodes)) (count_keepable u.client.nodes m)
            w.active_count u.client.min_idle_session u.active_count v.active_count r.counts r.grows
            s.2
            (elim s.0 [
              | inl full ↦ inl (omega (arith, full, r.min_kept))
              | inr counted ↦ inr (omega (arith, counted, same))
            ]),
        More-More _ _ u.to_close v.to_close w.to_close
            (λ j c.
              (r.same_use j).1
                (subst (λ x. IsClosable now x (find_node j v.client.nodes)) r.timeout_kept c))
            r.closable s.1,
        omega (arith, r.grows, s.2),
        λ d. let one = r.remains d in omega (arith, one.1, s.3 one.0),
      )

  sweep-IsSwept :
      (now : ℕ) (m : List (ℕ × ℕ)) (u : Swept im.T) → IsSwept now m u (sweep im clock now m u)
  unfolding sweep count_keepable
  sweep-IsSwept now [] u =
      (inr (omega arith), More-same _ u.to_close, omega arith, λ d. omega arith)
  sweep-IsSwept now ((key, seq) ∷ m) u =
      let o = find_node seq u.client.nodes in
      let v = on_some o u λ nd. sweep_entry im clock now key seq nd u in
      IsSwept-Round now key seq m u v (sweep im clock now m v)
        (found-Round im clock now key seq o u refl) (sweep-IsSwept now m v)

  -- The scan of idleCleanupExpTime, on an idle list with distinct keys, counts as many sessions as
  -- the configured minimum, or all those that are open, not broken and without active streams, and
  -- leaves at least as many on the idle list as it counts; what it will close is open and broken,
  -- or has no active stream and has been idle for longer than the timeout.
  pub sweep_idle_spares :
      (c : Client im.T)
      → IsDistinct (im.entries c.idle)
      → ((c.min_idle_session ≤ (sweep_idle im clock c).active_count)
          ⊎ (count_keepable c.nodes (im.entries c.idle) ≤ (sweep_idle im clock c).active_count))
        × All
            (λ seq. IsClosable (clock c.reads) c.idle_session_timeout (find_node seq c.nodes))
            (sweep_idle im clock c).to_close
        × ((sweep_idle im clock c).active_count
            ≤ length (im.entries (sweep_idle im clock c).client.idle))
  unfolding sweep_idle
  sweep_idle_spares c distinct =
      let start : Swept im.T = record {
        active_count = 0;
        to_close = [];
        client = record c { reads = c.reads + 1 };
      } in
      let r = sweep-IsSwept (clock c.reads) (im.entries c.idle) start in
      (
        elim r.0 [ inl full ↦ inl full | inr all ↦ inr (omega (arith, all)) ],
        subst (All _) (sym (r.1.1)) (r.1.2),
        omega (arith, r.3 distinct),
      )
