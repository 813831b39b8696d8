-- ===== src/Pool/Entries.antt =====
-- session/client.go: the entries of the idle list, behind a removal.
use anytls_x.Base.{
  refl, true, subst, ◌+◌, ℕ, ◌≤◌, ◌≡◌, ◌≢◌, List, [], ◌∷◌, arith, length, ◌==◌, if_cases, All, Any,
  inl, inr,
}
use anytls_x.Pool.Idle.{delete_entry}

-- No two entries have the same key.
abbrev pub IsDistinct : List (ℕ × ℕ) → Type 0
IsDistinct [] = Unit
IsDistinct ((j, u) ∷ m) = All (λ kv. kv.0 ≢ j) m × IsDistinct m

delete_entry_absent : (k : ℕ) (m : List (ℕ × ℕ)) → All (λ kv. kv.0 ≢ k) m → delete_entry k m ≡ m
unfolding delete_entry
delete_entry_absent k [] h = refl
delete_entry_absent k ((j, u) ∷ m) h = ground (arith, h.0, delete_entry_absent k m h.1)

delete_entry-keeps :
    (P : ℕ × ℕ → Type 0) (k : ℕ) (m : List (ℕ × ℕ)) → All P m → All P (delete_entry k m)
unfolding delete_entry
delete_entry-keeps P k [] h = h
delete_entry-keeps P k ((j, u) ∷ m) h =
    if_cases (All P) (k == j) _ _ (λ _. delete_entry-keeps P k m h.1)
      λ _. (h.0, delete_entry-keeps P k m h.1)

same_key : (k j : ℕ) → (k == j) ≡ true → j ≡ k
same_key k j h = ground (arith, h)

-- Of entries with distinct keys, a removal takes one at most.
pub delete_entry-IsDistinct :
    (k : ℕ) (m : List (ℕ × ℕ))
    → IsDistinct m
    → IsDistinct (delete_entry k m) × (length m ≤ length (delete_entry k m) + 1)
unfolding delete_entry
delete_entry-IsDistinct k [] h = (tt, omega arith)
delete_entry-IsDistinct k ((j, u) ∷ m) h =
    let ih = delete_entry-IsDistinct k m h.1 in
    if_cases (λ x. IsDistinct x × (length ((j, u) ∷ m) ≤ length x + 1)) (k == j) _ _
      (λ same.
        let absent =
          delete_entry_absent k m (subst (λ i. All (λ kv. kv.0 ≢ i) m) (same_key k j same) h.0) in
        rw absent (h.1, omega arith))
      λ _. ((delete_entry-keeps _ k m h.0, ih.0), omega (arith, ih.1))

pub length-delete_entry : (k : ℕ) (m : List (ℕ × ℕ)) → length (delete_entry k m) ≤ length m
unfolding delete_entry
length-delete_entry k [] = omega arith
length-delete_entry k ((j, u) ∷ m) = ground (arith, length-delete_entry k m)

pub delete_entry_first :
    (k v : ℕ) (m : List (ℕ × ℕ)) → delete_entry k ((k, v) ∷ m) ≡ delete_entry k m
unfolding delete_entry
delete_entry_first k v m = ground arith

pub delete_entry-All : (k : ℕ) (m : List (ℕ × ℕ)) → All (λ kv. kv.0 ≢ k) (delete_entry k m)
unfolding delete_entry
delete_entry-All k [] = tt
delete_entry-All k ((j, u) ∷ m) =
    if_cases (All λ (kv : ℕ × ℕ). kv.0 ≢ k) (k == j) _ _ (λ _. delete_entry-All k m)
      λ other. (ground (arith, other), delete_entry-All k m)

pub delete_entry-Any :
    (P : ℕ × ℕ → Type 0) (k : ℕ) (m : List (ℕ × ℕ)) → Any P (delete_entry k m) → Any P m
unfolding delete_entry
delete_entry-Any P k [] h = h
delete_entry-Any P k ((j, u) ∷ m) h =
    if_cases (λ x. Any P x → Any P ((j, u) ∷ m)) (k == j) _ _
      (λ _ x. inr (delete_entry-Any P k m x))
      (λ _ x. elim x [ inl here ↦ inl here | inr there ↦ inr (delete_entry-Any P k m there) ]) h
