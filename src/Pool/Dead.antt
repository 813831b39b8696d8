-- ===== src/Pool/Dead.antt =====
-- session/session.go and session/client.go: a stream whose SYN fails has died with its session.
use anytls_x.Base.{
  ℕ, suc, ◌≡◌, sym, ap, ◌∙◌, subst, true, false, none, some, List, [], ◌∷◌, ◌++◌, arith, ◌==◌, All,
  Any, WhenSome, on_some_cases, inl, inr, Option-cases, if_cases, on_some, if◌then◌else◌,
}
use anytls_x.Session.Defs.{Session, Stream, find_stream, put_stream, close_streams}
use anytls_x.Session.Write.{bury}
use anytls_x.Pool.Calls.{find_retired, has_died}
use anytls_x.Pool.Counted.{HasDied, die_once-Torn, close_streams-TornAll, hook_count, waits}

find_retired-append :
    (sid : ℕ) (xs ys : List Stream) (st : Stream)
    → find_retired sid ys ≡ some st
    → find_retired sid (xs ++ ys) ≡ some st
unfolding find_retired
find_retired-append sid [] ys st h = h
find_retired-append sid (x ∷ xs) ys st h =
    ap (λ o. on_some o (if x.id == sid then some x else none) some)
      (find_retired-append sid xs ys st h)

find_retired-WhenSome :
    (P : Stream → Type 0) (sid : ℕ) (sts : List Stream)
    → All P sts
    → WhenSome P (find_retired sid sts)
unfolding find_retired
find_retired-WhenSome P sid [] h = tt
find_retired-WhenSome P sid (x ∷ sts) h =
    on_some_cases (WhenSome P) (find_retired sid sts) _ _
      (λ _. if_cases (WhenSome P) (x.id == sid) _ _ (λ _. h.0) λ _. tt)
      λ y has. subst (WhenSome P) has (find_retired-WhenSome P sid sts h.1)

-- A stream with the id is found, and it is dead.
abbrev FoundDead : ℕ → List Stream → Type 0
FoundDead sid sts = (st : Stream) × (find_retired sid sts ≡ some st) × HasDied st

found_dead :
    (sid : ℕ) (sts : List Stream)
    → All HasDied sts
    → Any (λ st. st.id ≡ sid) sts
    → FoundDead sid sts
unfolding find_retired
found_dead sid [] d h = elim h [ ]
found_dead sid (x ∷ sts) d (inl here) = elim (Option-cases (find_retired sid sts)) [
  | inl lacks ↦ (x, ground (arith, here, lacks), d.0)
  | inr (y, has) ↦ (
    y,
    ap (λ o. on_some o (if x.id == sid then some x else none) some) has,
    subst (WhenSome HasDied) has (find_retired-WhenSome HasDied sid sts d.1),
  )
]
found_dead sid (x ∷ sts) d (inr there) =
    let (y, has, dead) = found_dead sid sts d.1 there in
    (y, ap (λ o. on_some o (if x.id == sid then some x else none) some) has, dead)

ids_kept :
    (sid : ℕ) (m : List (ℕ × Stream))
    → Any (λ kv. kv.1.id ≡ sid) m
    → Any (λ st. st.id ≡ sid) (close_streams m).0
unfolding close_streams
ids_kept sid [] h = elim h [ ]
ids_kept sid ((k, st) ∷ m) (inl h) = inl ((die_once-Torn st).id_kept ∙ h)
ids_kept sid ((k, st) ∷ m) (inr h) = inr (ids_kept sid m h)

put_stream-Any :
    (sid : ℕ) (st : Stream) (m : List (ℕ × Stream))
    → st.id ≡ sid
    → Any (λ kv. kv.1.id ≡ sid) (put_stream sid st m)
unfolding put_stream
put_stream-Any sid st [] h = inl h
put_stream-Any sid st ((k, x) ∷ m) h =
    if_cases (Any λ (kv : ℕ × Stream). kv.1.id ≡ sid) (k == sid) _ _ (λ _. inl h)
      λ _. inr (put_stream-Any sid st m h)

-- A stream that is in the map when its session closes has died.
pub bury-has_died :
    (s : Session) (sid : ℕ) (st : Stream) (m : List (ℕ × Stream))
    → s.streams ≡ put_stream sid st m
    → st.id ≡ sid
    → has_died (bury s) sid ≡ true
unfolding has_died bury find_stream
bury-has_died s sid st m eq h =
    let torn = close_streams-TornAll s.streams in
    let (x, has, (err, dead)) = found_dead sid (close_streams s.streams).0 torn.all_dead (
      ids_kept sid s.streams
        (subst (Any λ (kv : ℕ × Stream). kv.1.id ≡ sid) (sym eq) (put_stream-Any sid st m h))) in
    ap (λ o. on_some o false λ (y : Stream). on_some y.die_err false λ e. true)
      (find_retired-append sid s.retired (close_streams s.streams).0 x has)
    ∙ ap (λ o. on_some o false λ e. true) dead

-- One more stream waits with a new stream in the map.
pub hook_count-put_stream :
    (sid : ℕ) (st : Stream) (m : List (ℕ × Stream))
    → find_stream sid m ≡ none
    → waits st ≡ true
    → hook_count (put_stream sid st m) ≡ suc (hook_count m)
unfolding hook_count put_stream find_stream
hook_count-put_stream sid st [] h k = ground (arith, k)
hook_count-put_stream sid st ((j, x) ∷ m) h k = ground (arith, h, k, hook_count-put_stream sid st m)
