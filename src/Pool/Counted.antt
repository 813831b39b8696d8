-- ===== src/Pool/Counted.antt =====
-- session/session.go, Close: the hooks of the streams of a session that closes, and their count.
use anytls_x.Base.{
  ℕ, suc, ◌+◌, ◌≡◌, refl, Bool, false, ◌&&◌, some, List, [], ◌∷◌, ◌++◌, arith, All, All-append, inl,
  inr, Option-cases, if_cases, on_some, if◌then◌else◌,
}
use anytls_x.Env.{Error, net_closed}
use anytls_x.Session.Defs.{Stream, Event, stream_hook, die_once, hook_events, close_streams}

-- A stream whose hook is still to run.
abbrev pub waits : Stream → Bool
waits st = on_some st.die_err st.hooked λ err. false

unfoldable pub hook_count : List (ℕ × Stream) → ℕ
hook_count [] = 0
hook_count (kv ∷ m) = let rest = hook_count m in if waits (kv.1) then suc rest else rest

abbrev pub IsStreamHook : Event → Type 0
IsStreamHook (stream_hook sid) = Unit
IsStreamHook ev = ⊥

unfoldable pub count_of : List Event → ℕ
count_of [] = 0
count_of (ev ∷ evs) = suc (count_of evs)

-- Every stream that closes with the session runs its hook, if that is still to run, and is dead.
abbrev pub HasDied : Stream → Type 0
HasDied st = (err : Error) × (st.die_err ≡ some err)

hook_events-IsStreamHook : (st : Stream) (ran : Bool) → All IsStreamHook (hook_events st ran)
hook_events-IsStreamHook st ran =
    if_cases (All IsStreamHook) (ran && st.hooked) _ _ (λ _. (tt, tt)) λ _. tt

pub record Torn (st : Stream) (r : Stream × Bool) : Type 0 where
  pub id_kept : (r.0).id ≡ st.id
  pub dead : HasDied (r.0)
  pub hooks_run : count_of (hook_events st (r.1)) ≡ (if waits st then 1 else 0)
  pub all_hooks : All IsStreamHook (hook_events st (r.1))

pub die_once-Torn : (st : Stream) → Torn st (die_once net_closed st)
unfolding die_once count_of
die_once-Torn st = elim (Option-cases st.die_err) [
  | inl alive ↦ record {
    id_kept = ground (arith, alive);
    dead = (net_closed, ground (arith, alive));
    hooks_run = ground (arith, alive);
    all_hooks = hook_events-IsStreamHook st (die_once net_closed st).1;
  }
  | inr (err, dead) ↦ record {
    id_kept = ground (arith, dead);
    dead = (err, ground (arith, dead));
    hooks_run = ground (arith, dead);
    all_hooks = hook_events-IsStreamHook st (die_once net_closed st).1;
  }
]

count_of-append : (xs ys : List Event) → count_of (xs ++ ys) ≡ count_of xs + count_of ys
unfolding count_of
count_of-append [] ys = omega arith
count_of-append (x ∷ xs) ys = omega (arith, count_of-append xs ys)

pub record TornAll (m : List (ℕ × Stream)) (r : List Stream × List Event) : Type 0 where
  pub hooks_run : count_of (r.1) ≡ hook_count m
  pub all_hooks : All IsStreamHook (r.1)
  pub all_dead : All HasDied (r.0)

pub close_streams-TornAll : (m : List (ℕ × Stream)) → TornAll m (close_streams m)
unfolding close_streams count_of hook_count
close_streams-TornAll [] = record { hooks_run = refl; all_hooks = tt; all_dead = tt }
close_streams-TornAll ((k, st) ∷ m) =
    let one = die_once-Torn st in
    let rest = close_streams-TornAll m in
    record {
      hooks_run = ground (
        arith,
        count_of-append (hook_events st (die_once net_closed st).1) (close_streams m).1,
        one.hooks_run,
        rest.hooks_run,
      );
      all_hooks =
          All-append IsStreamHook (hook_events st (die_once net_closed st).1) (close_streams m).1
            one.all_hooks rest.all_hooks;
      all_dead = (one.dead, rest.all_dead);
    }
