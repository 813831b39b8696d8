-- ===== src/Pool/Idle.antt =====
-- The skip list that holds the idle sessions, as far as session/client.go uses it: an ordered map from
-- keys to session numbers. The skip list itself is third-party code, so that it is an interface here.
use anytls_x.Base.{ℕ, ◌≡◌, refl, List, [], ◌∷◌, ltb, ◌==◌, if◌then◌else◌}

-- An entry in front of those with greater keys; the value of a key that is there is updated.
unfoldable pub put_entry : ℕ → ℕ → List (ℕ × ℕ) → List (ℕ × ℕ)
put_entry k v [] = (k, v) ∷ []
put_entry k v ((j, u) ∷ m) =
    let rest = put_entry k v m in
    if ltb k j then (k, v) ∷ (j, u) ∷ m else (if k == j then (k, v) ∷ m else (j, u) ∷ rest)

unfoldable pub delete_entry : ℕ → List (ℕ × ℕ) → List (ℕ × ℕ)
delete_entry k [] = []
delete_entry k ((j, u) ∷ m) = let rest = delete_entry k m in if k == j then rest else (j, u) ∷ rest

-- `entries` are what Iterate and MoveToNext pass, in the order of the keys.
pub record IdleMap : Type 1 where
  pub T : Type 0
  pub entries : T → List (ℕ × ℕ)
  pub clear : T
  pub insert : ℕ → ℕ → T → T
  pub remove : ℕ → T → T
  pub entries-clear : entries clear ≡ []
  pub entries-insert : (k v : ℕ) (m : T) → entries (insert k v m) ≡ put_entry k v (entries m)
  pub entries-remove : (k : ℕ) (m : T) → entries (remove k m) ≡ delete_entry k (entries m)

-- A list in the order of its keys is such a map.
abbrev pub list_map : IdleMap
list_map = record {
  T = List (ℕ × ℕ);
  entries = λ m. m;
  clear = [];
  insert = put_entry;
  remove = delete_entry;
  entries-clear = refl;
  entries-insert = λ k v m. refl;
  entries-remove = λ k m. refl;
}
