-- ===== src/Env/Wire.antt =====
-- What one Write of the connection puts on the wire.
use anytls_x.Base.{
  ℕ, ◌≡◌, refl, sym, ◌∙◌, ap, Option, none, some, List, ◌++◌, take, length, if◌then◌else◌,
}
use anytls_x.Env.{Env, World, Error, Written, deliver, conn_write}

-- All of `out` was sent, or the write failed behind a prefix of it.
abbrev pub Sent : World → World → List ℕ → Option Error → Type 0
Sent v w out none = w.sent ≡ v.sent ++ out
Sent v w out (some err) = (k : ℕ) × (w.sent ≡ v.sent ++ take k out)

-- `Sent` speaks of the sent bytes only.
pub Sent-same :
    (v w v' w' : World) (out : List ℕ) (err : Option Error)
    → v'.sent ≡ v.sent
    → w'.sent ≡ w.sent
    → Sent v w out err
    → Sent v' w' out err
Sent-same v w v' w' out none p q s = q ∙ s ∙ ap (λ x. x ++ out) (sym p)
Sent-same v w v' w' out (some err) p q (k, s) = (k, q ∙ s ∙ ap (λ x. x ++ take k out) (sym p))

-- A write sends what it reports, and leaves the deadline and the connection's life alone. The count
-- without an error is the whole length.
pub record Sends (v : World) (b : List ℕ) (r : Written × World) : Type 0 where
  pub sends : Sent v (r.1) b (r.0.error)
  pub all_counted : r.0.error ≡ none → r.0.n ≡ length b
  pub deadline_kept : r.1.deadline ≡ v.deadline
  pub shut_kept : r.1.shut ≡ v.shut

deliver-Sends : (o : Option ℕ) (b : List ℕ) (w : World) → Sends w b (deliver o b w)
unfolding deliver
deliver-Sends none b w = record {
  sends = refl;
  all_counted = λ _. refl;
  deadline_kept = refl;
  shut_kept = refl;
}
deliver-Sends (some k) b w = record {
  sends = (k, refl);
  all_counted = λ h. cc;
  deadline_kept = refl;
  shut_kept = refl;
}

pub conn_write-Sends : (e : Env) (b : List ℕ) (w : World) → Sends w b (conn_write e b w)
unfolding conn_write
conn_write-Sends e b w = deliver-Sends (if w.shut then some 0 else e.fault w.writes) b w
