-- ===== src/Base/Entries.antt =====
-- std::unordered_map with numbers for keys (every key of the program is an id), as a list of
-- entries in iteration order, and std::unordered_set of ids as a list.
use Prim.Native.Nat.{ℕ, suc, ◌≤◌}
use mathlib.Core.Path.{◌≡◌, refl}
use mathlib.Core.Bool.{Bool, true, false}
use mathlib.Core.Option.{Option, none, some}
use mathlib.Core.List.{List, [], ◌∷◌}
use native.Mathlib.Omega.{arith}
use dungeon_crawler.Base.Tests.{◌==◌, if◌then◌else◌, is_some, ==_iff}
use dungeon_crawler.Base.Lists.{length}

abbrev pub Dict {ℓ} : Type ℓ → Type ℓ
Dict V = List (ℕ × V)

module _ {ℓ} {V : Type ℓ} where
  unfoldable pub find : ℕ → Dict V → Option V
  find k [] = none
  find k ((j, v) ∷ m) = if j == k then some v else find k m

  unfoldable pub contains : ℕ → Dict V → Bool
  contains k m = is_some (find k m)

  -- `m[k] = v`
  unfoldable pub assign : ℕ → V → Dict V → Dict V
  assign k v [] = (k, v) ∷ []
  assign k v ((j, w) ∷ m) = if j == k then (k, v) ∷ m else (j, w) ∷ assign k v m

  -- `m.emplace(k, v)`: an entry that is there stays.
  unfoldable pub emplace : ℕ → V → Dict V → Dict V
  unfolding contains find assign
  emplace k v m = if contains k m then m else assign k v m

  -- `m.erase(k)`
  unfoldable pub erase : ℕ → Dict V → Dict V
  erase k [] = []
  erase k ((j, w) ∷ m) = if j == k then erase k m else (j, w) ∷ erase k m

  unfoldable pub keys : Dict V → List ℕ
  keys [] = []
  keys ((k, v) ∷ m) = k ∷ keys m

  unfoldable pub values : Dict V → List V
  values [] = []
  values ((k, v) ∷ m) = v ∷ values m

  -- No key stands twice: what std::unordered_map guarantees.
  abbrev pub Distinct : Dict V → Type ℓ
  Distinct [] = Unit
  Distinct ((k, v) ∷ m) = (find k m ≡ none) × Distinct m

  pub find-assign :
      (j k : ℕ) (v : V) (m : Dict V) → find j (assign k v m) ≡ (if k == j then some v else find j m)
  unfolding find assign
  find-assign j k v [] = refl
  find-assign j k v ((i, w) ∷ m) = ground (arith, find-assign j k v m)

  pub find-erase : (j k : ℕ) (m : Dict V) → find j (erase k m) ≡ (if k == j then none else find j m)
  unfolding find erase
  find-erase j k [] = ground arith
  find-erase j k ((i, w) ∷ m) = ground (arith, find-erase j k m)

  pub find-emplace :
      (j k : ℕ) (v : V) (m : Dict V)
      → find j (emplace k v m)
        ≡ (if contains k m then find j m else if k == j then some v else find j m)
  unfolding emplace
  find-emplace j k v m = ground (arith, find-assign j k v m)

  pub contains-find : (k : ℕ) (m : Dict V) → contains k m ≡ is_some (find k m)
  unfolding contains
  contains-find k m = refl

  pub assign-Distinct : (k : ℕ) (v : V) (m : Dict V) → Distinct m → Distinct (assign k v m)
  unfolding find assign
  assign-Distinct k v [] d = (refl, tt)
  assign-Distinct k v ((i, w) ∷ m) d =
      ground (arith, assign-Distinct k v m d.1, find-assign i k v m)

  pub emplace-Distinct : (k : ℕ) (v : V) (m : Dict V) → Distinct m → Distinct (emplace k v m)
  unfolding emplace
  emplace-Distinct k v m d = ground (arith, assign-Distinct k v m d)

  pub erase-Distinct : (k : ℕ) (m : Dict V) → Distinct m → Distinct (erase k m)
  unfolding erase
  erase-Distinct k [] d = tt
  erase-Distinct k ((i, w) ∷ m) d = ground (arith, erase-Distinct k m d.1, find-erase i k m)

  pub erase_missing : (k : ℕ) (m : Dict V) → find k m ≡ none → erase k m ≡ m
  unfolding find erase
  erase_missing k [] h = refl
  erase_missing k ((i, w) ∷ m) h = ground (arith, erase_missing k m)

  -- Erasing what is there makes the map one entry smaller.
  pub length-erase :
      (k : ℕ) (m : Dict V) {v : V}
      → Distinct m
      → find k m ≡ some v
      → suc (length (erase k m)) ≡ length m
  unfolding find erase
  length-erase k [] d h = absurd (ground arith)
  length-erase k ((i, w) ∷ m) {v} d h =
      ground (arith, length-erase k m {v = v} d.1, erase_missing k m)

  pub length-assign_new :
      (k : ℕ) (v : V) (m : Dict V) → find k m ≡ none → length (assign k v m) ≡ suc (length m)
  unfolding find assign
  length-assign_new k v [] h = refl
  length-assign_new k v ((i, w) ∷ m) h = ground (arith, length-assign_new k v m)

  pub length-assign_old :
      (k : ℕ) (v : V) (m : Dict V) {w : V} → find k m ≡ some w → length (assign k v m) ≡ length m
  unfolding find assign
  length-assign_old k v [] h = absurd (ground arith)
  length-assign_old k v ((i, u) ∷ m) {w} h = ground (arith, length-assign_old k v m {w = w})

  pub length-erase_le : (k : ℕ) (m : Dict V) → length (erase k m) ≤ length m
  unfolding erase
  length-erase_le k [] = omega arith
  length-erase_le k ((i, w) ∷ m) = ground (arith, length-erase_le k m)

  pub contains-erase :
      (j k : ℕ) (m : Dict V) → contains j (erase k m) ≡ (if k == j then false else contains j m)
  unfolding contains
  contains-erase j k m = ground (arith, find-erase j k m)

  pub contains-assign :
      (j k : ℕ) (v : V) (m : Dict V)
      → contains j (assign k v m) ≡ (if k == j then true else contains j m)
  unfolding contains
  contains-assign j k v m = ground (arith, find-assign j k v m)

  pub contains-emplace :
      (j k : ℕ) (v : V) (m : Dict V)
      → contains j (emplace k v m) ≡ (if k == j then true else contains j m)
  unfolding contains emplace
  contains-emplace j k v m = ground (arith, find-assign j k v m, ==_iff k j)

  -- The second of two writes of one entry stands.
  pub assign-assign : (k : ℕ) (v w : V) (m : Dict V) → assign k v (assign k w m) ≡ assign k v m
  unfolding assign
  assign-assign k v w [] = ground (arith, ==_iff k k)
  assign-assign k v w ((i, u) ∷ m) = ground (arith, assign-assign k v w m, ==_iff k k)

  pub assign-emplace :
      (k : ℕ) (v w : V) (m : Dict V)
      → contains k m ≡ false
      → assign k v (emplace k w m) ≡ assign k v m
  unfolding emplace
  assign-emplace k v w m h = ground (arith, assign-assign k v w m)

  pub length-emplace_new :
      (k : ℕ) (v : V) (m : Dict V) → contains k m ≡ false → length (emplace k v m) ≡ suc (length m)
  unfolding contains emplace
  length-emplace_new k v m h = ground (arith, length-assign_new k v m)

pub contains-nil {ℓ} : (V : Type ℓ) (k : ℕ) → contains {V = V} k [] ≡ false
unfolding contains find
contains-nil V k = refl
