-- ===== src/Pool/Closing.antt =====
-- session/client.go, the dieHook of a session: the client forgets a session that closes.
use anytls_x.Base.{
  ℕ, ◌^◌, ◌<◌, ◌≡◌, ◌≢◌, refl, sym, ap, ◌∙◌, subst, true, false, none, some, List, [], ◌∷◌, arith,
  ◌==◌, All, inl, inr, if_cases,
}
use anytls_x.Env.{Env}
use anytls_x.Session.Defs.{Net}
use anytls_x.Session.Write.{close}
use anytls_x.Session.Control.{close_lem, close-closed}
use anytls_x.Pool.Idle.{IdleMap}
use anytls_x.Pool.Entries.{delete_entry-All}
use anytls_x.Pool.Defs.{Node, Client, find_node, delete_seq, idle_key, net_of}
use anytls_x.Pool.Hooks.{session_die_hook, store}
use anytls_x.Pool.Calls.{close_session}
use anytls_x.Pool.Counted.{hook_count}
use anytls_x.Pool.Rolled.{Settled}
use anytls_x.Pool.Ran.{ran, left, buried_holds}

delete_seq-All : (k : ℕ) (js : List ℕ) → All (λ j. j ≢ k) (delete_seq k js)
unfolding delete_seq
delete_seq-All k [] = tt
delete_seq-All k (j ∷ js) =
    if_cases (All λ j. j ≢ k) (j == k) _ _ (λ _. delete_seq-All k js)
      λ other. (ground (arith, other), delete_seq-All k js)

module _ (im : IdleMap) (clock : ℕ → ℕ) (envs : ℕ → Env) where
  -- The client has no use for the session any more: it is in neither of its lists, it is closed, and no
  -- stream is counted for it.
  pub record Forgotten (seq : ℕ) (c : Client im.T) : Type 0 where
    pub not_listed : All (λ j. j ≢ seq) c.sessions
    pub not_idle : All (λ kv. kv.0 ≢ idle_key seq) (im.entries c.idle)
    pub closed_empty :
        (nd : Node) × (find_node seq c.nodes ≡ some nd)
        × (nd.sess.closed ≡ true)
        × (nd.active_streams ≡ 0)

  Settled-Forgotten :
      (seq : ℕ) (c d : Client im.T) (m : Net)
      → m.sess.closed ≡ true
      → Settled im clock seq m.sess 0 (session_die_hook im clock seq c) d
      → Forgotten seq d
  unfolding session_die_hook
  Settled-Forgotten seq c d m dead ((nd, has, same, count), idle, sessions) = record {
    not_listed = subst (All λ j. j ≢ seq) (sym sessions) (delete_seq-All seq c.sessions);
    not_idle =
        subst (All λ (kv : ℕ × ℕ). kv.0 ≢ idle_key seq)
          (sym (ap im.entries idle ∙ im.entries-remove (idle_key seq) c.idle))
          (delete_entry-All (idle_key seq) (im.entries c.idle));
    closed_empty = (nd, has, ap (λ s. s.closed) same ∙ dead, count);
  }

  -- Closing an open session that has its die hook and whose count of active streams, below 2^31, is
  -- the number of its streams whose die hook is still to run, with the hooks behind it, leaves a
  -- closed session with no active stream counted, in neither the map of sessions nor the idle list.
  pub close_session-Forgotten :
      (seq : ℕ) (nd : Node) (c : Client im.T)
      → find_node seq c.nodes ≡ some nd
      → nd.sess.closed ≡ false
      → nd.sess.hooked ≡ true
      → nd.active_streams ≡ hook_count nd.sess.streams
      → nd.active_streams < 2 ^ 31
      → Forgotten seq (close_session im clock envs seq c)
  close_session-Forgotten seq nd c has alive hook count small =
      let n = net_of c.padding nd in
      let m = (close (envs seq) n).1 in
      subst (Forgotten seq)
        (sym (ap (λ r. r.1) (ran im clock (close (envs seq)) none seq nd c has)))
        (Settled-Forgotten seq (store im clock seq nd m c) (left im clock seq nd m c) m
          (close-closed (envs seq) n)
          (elim (close_lem (envs seq) n) [
            | inl (dead, _) ↦ absurd (ground (arith, dead, alive))
            | inr (_, _, made, _) ↦
                buried_holds im clock seq nd c m nd.sess alive small count refl hook made
          ]))
