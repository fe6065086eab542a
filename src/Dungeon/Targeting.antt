-- ===== src/Dungeon/Targeting.antt =====
-- Which target `findClosestTarget` chooses.
use dungeon_crawler.Base.{
  ltb, leb, ◌==◌, Bool-cases, ℕ, ◌+◌, ◌%◌, ◌^◌, ◌≤◌, ◌<◌, ◌≡◌, refl, ◌⊎◌, inl, inr, true, ◌&&◌,
  Option, none, some, [], ◌∷◌, arith,
}
use dungeon_crawler.World.Position.{Position, manhattan_distance}
use dungeon_crawler.World.Entity.{Entity, is_alive}
use dungeon_crawler.Dungeon.EntityManager.{EntityMap, closest_from, find_closest_target}

-- No living entity is nearer than `b`.
abbrev pub AreFar : Position → ℕ → EntityMap → Type 0
AreFar from b [] = Unit {0}
AreFar from b ((id, e) ∷ m) =
    (is_alive e ≡ true → b ≤ manhattan_distance from e.position) × AreFar from b m

-- The entry is in the map.
abbrev pub IsEntry : ℕ → Entity → EntityMap → Type 0
IsEntry k e [] = ⊥
IsEntry k e ((j, x) ∷ m) = ((j ≡ k) × (x ≡ e)) ⊎ IsEntry k e m

AreFar-mono :
    (from : Position) (b c : ℕ) (m : EntityMap) → b ≤ c → AreFar from c m → AreFar from b m
AreFar-mono from b c [] h f = tt
AreFar-mono from b c ((id, e) ∷ m) h f = (λ a. omega (arith, f.0 a), AreFar-mono from b c m h f.1)

AreFar-zero : (from : Position) (m : EntityMap) → AreFar from 0 m
AreFar-zero from [] = tt
AreFar-zero from ((id, e) ∷ m) = (λ a. omega arith, AreFar-zero from m)

-- A living target of the map below the bound that no living target undercuts.
abbrev Found : Position → ℕ → EntityMap → Option ℕ → Type 0
Found from b m r =
    (id : ℕ) × (t : Entity) × (r ≡ some id)
    × IsEntry id t m
    × (is_alive t ≡ true)
    × (manhattan_distance from t.position < b)
    × AreFar from (manhattan_distance from t.position) m

abbrev Outcome : Position → ℕ → EntityMap → Option ℕ → Option ℕ → Type 0
Outcome from b m best r = ((r ≡ best) × AreFar from b m) ⊎ Found from b m r

-- One entity in front that is no better target.
skip_one :
    (from : Position) (b id : ℕ) (e : Entity) (m : EntityMap) (best r : Option ℕ)
    → (is_alive e ≡ true → b ≤ manhattan_distance from e.position)
    → Outcome from b m best r
    → Outcome from b ((id, e) ∷ m) best r
skip_one from b id e m best r h (inl (same, far)) = inl (same, (h, far))
skip_one from b id e m best r h (inr (k, t, q, entry, a, near, far)) =
    inr (k, t, q, inr entry, a, near, ((λ l. omega (arith, h l)), far))

-- One entity in front that is the best target so far.
take_one :
    (from : Position) (b id : ℕ) (e : Entity) (m : EntityMap) (best r : Option ℕ)
    → is_alive e ≡ true
    → manhattan_distance from e.position < b
    → Outcome from (manhattan_distance from e.position) m (some id) r
    → Outcome from b ((id, e) ∷ m) best r
take_one from b id e m best r a near (inl (same, far)) =
    inr (id, e, same, inl (refl, refl), a, near, ((λ l. omega arith), far))
take_one from b id e m best r a near (inr (k, t, q, entry, l, near', far)) =
    inr (k, t, q, inr entry, l, omega arith, ((λ x. omega arith), far))

closest_from-Outcome :
    (from : Position) (radius : ℕ) (m : EntityMap) (b : ℕ) (best : Option ℕ)
    → b ≤ radius + 1
    → Outcome from b m best (closest_from from radius m b best)
unfolding closest_from
closest_from-Outcome from radius [] b best h = inl (refl, tt)
closest_from-Outcome from radius ((id, e) ∷ m) b best h =
    elim (Bool-cases (
      is_alive e
      && (leb (manhattan_distance from e.position) radius
          && ltb (manhattan_distance from e.position) b))) [
            | inr miss ↦
                rw (miss, closest_from)
                  (skip_one from b id e m best _ (ground arith)
                    (closest_from-Outcome from radius m b best h))
            | inl hit ↦ elim (Bool-cases (manhattan_distance from e.position == 0)) [
              | inl z ↦
                  rw (hit, closest_from)
                    (rw (z, closest_from)
                      (take_one from b id e m best (some id) (ground arith) (ground arith)
                        (inl (refl, AreFar-mono from _ 0 m (ground arith) (AreFar-zero from m)))))
              | inr nz ↦
                  rw (hit, closest_from)
                    (rw (nz, closest_from)
                      (take_one from b id e m best _ (ground arith) (ground arith) (
                        closest_from-Outcome from radius m (manhattan_distance from e.position)
                          (some id) (ground arith))))
            ]
          ]

-- For every radius that a caller can pass (any uint32_t): where there is no result, every living target is
-- farther away than the radius; a result is the id of a living target within the radius, and no living
-- target is nearer.
pub find_closest_target_lem :
    (from : Position) (radius : ℕ) (m : EntityMap)
    → radius < 2 ^ 32
    → ((find_closest_target from radius m ≡ none) × AreFar from (radius + 1) m)
      ⊎ ((id : ℕ) × (t : Entity) × (find_closest_target from radius m ≡ some id)
          × IsEntry id t m
          × (is_alive t ≡ true)
          × (manhattan_distance from t.position < radius + 1)
          × AreFar from (manhattan_distance from t.position) m)
unfolding find_closest_target
find_closest_target_lem from radius m h =
    let whole : (radius + 1) % 2 ^ 64 ≡ radius + 1 = omega arith in
    rw whole (closest_from-Outcome from radius m (radius + 1) none (omega arith))
