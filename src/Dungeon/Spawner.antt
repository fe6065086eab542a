-- ===== src/Dungeon/Spawner.antt =====
-- src/server/domain/dungeon/collision_check.h, position_gen.h and spawner.h. The draws of a
-- `PositionGenerator` are a function of their number, and the number of the next draw is a state
-- that a spawn hands on.
use dungeon_crawler.Base.{
  if◌then◌else◌, Bool-cases, contains, ℕ, zero, suc, ◌+◌, ◌≤◌, ◌<◌, ◌≡◌, ap, ◌⊎◌, inl, inr, Bool,
  true, false, not, ◌&&◌, arith, dec_lt,
}
use dungeon_crawler.Settings.{Settings}
use dungeon_crawler.World.Position.{Position}
use dungeon_crawler.World.GameMap.{GameMap, map_available}
use dungeon_crawler.World.Entity.{EntityType}
use dungeon_crawler.Dungeon.EntityManager.{EntityMap, add_entity, is_occupied, add_entity_new}

-- `CollisionChecker::isAvailable`
unfoldable pub is_available : GameMap → EntityMap → EntityMap → Position → Bool
unfolding map_available is_occupied
is_available world players monsters p =
    map_available world p && (not (is_occupied p players) && not (is_occupied p monsters))

abbrev pub max_spawn_attempts : ℕ
max_spawn_attempts = 100

-- The loop, from the draw that `pos` holds: the draw at which it ends. It runs while `attempts`,
-- which starts at 1, is at most 100, so 100 times at most; the argument counts the rounds left.
unfoldable pub draw_until : ℕ → (Position → Bool) → (ℕ → Position) → ℕ → ℕ
draw_until zero free draw n = n
draw_until (suc rounds) free draw n =
    let next = draw_until rounds free draw (n + 1) in if not (free (draw n)) then next else n

pub record Spawned : Type 0 where
  pub entities : EntityMap
  pub next_draw : ℕ
  pub ok : Bool

-- `free` is the collision checker over the maps as they are before the spawn.
unfoldable pub spawn_entity :
    Settings → EntityType → (Position → Bool) → (ℕ → Position) → EntityMap → ℕ → ℕ → Spawned
spawn_entity c kind free draw m id n =
    let last = draw_until max_spawn_attempts free draw n in
    let added = add_entity c kind id (draw last) m in
    if contains id m
    then record { entities = m; next_draw = n; ok = false }
    else if not (free (draw last))
    then record { entities = m; next_draw = last + 1; ok = false }
    else record { entities = added.0; next_draw = last + 1; ok = added.1 }

-- An id that is in use is refused at once.
pub spawn_known :
    (c : Settings) (kind : EntityType) (free : Position → Bool) (draw : ℕ → Position)
    (m : EntityMap) (id n : ℕ)
    → contains id m ≡ true
    → spawn_entity c kind free draw m id n ≡ record { entities = m; next_draw = n; ok = false }
unfolding spawn_entity
spawn_known c kind free draw m id n h = rw h

draw_until-bound :
    (rounds : ℕ) (free : Position → Bool) (draw : ℕ → Position) (n : ℕ)
    → (n ≤ draw_until rounds free draw n) × (draw_until rounds free draw n ≤ n + rounds)
unfolding draw_until
draw_until-bound zero free draw n = omega arith
draw_until-bound (suc r) free draw n = ground (arith, draw_until-bound r free draw (n + 1))

draw_until_found :
    (rounds : ℕ) (free : Position → Bool) (draw : ℕ → Position) (n k : ℕ)
    → n ≤ k
    → k ≤ n + rounds
    → free (draw k) ≡ true
    → (free (draw (draw_until rounds free draw n)) ≡ true) × (draw_until rounds free draw n ≤ k)
unfolding draw_until
draw_until_found zero free draw n k a b h = let same : k ≡ n = omega arith in (rw (← same) h, a)
draw_until_found (suc r) free draw n k a b h = elim (Bool-cases (free (draw n))) [
  | inl hit ↦ ground (arith, hit)
  | inr miss ↦ elim (dec_lt n k) [
    | yes later ↦
        ground (arith, draw_until_found r free draw (n + 1) k (omega arith) (omega arith) h)
    | no now ↦ let same : k ≡ n = omega arith in absurd (cc (h, miss, ap (λ i. free (draw i)) same))
  ]
]

-- A new id is spawned exactly if one of the next 101 draws is free, and then at the first of these
-- draws that is; the draws after that one are left.
pub spawn_entity_lem :
    (c : Settings) (kind : EntityType) (free : Position → Bool) (draw : ℕ → Position)
    (m : EntityMap) (id n : ℕ)
    → contains id m ≡ false
    → (((k : ℕ) → n ≤ k → k ≤ n + 100 → free (draw k) ≡ false)
        × ((spawn_entity c kind free draw m id n).ok ≡ false)
        × ((spawn_entity c kind free draw m id n).entities ≡ m))
      ⊎ ((k : ℕ) × (n ≤ k)
          × (k ≤ n + 100)
          × (free (draw k) ≡ true)
          × ((j : ℕ) → n ≤ j → j < k → free (draw j) ≡ false)
          × (spawn_entity c kind free draw m id n ≡ record {
            entities = (add_entity c kind id (draw k) m).0;
            next_draw = k + 1;
            ok = true;
          }))
unfolding spawn_entity
spawn_entity_lem c kind free draw m id n new =
    let last = draw_until 100 free draw n in
    elim (Bool-cases (free (draw last))) [
      | inl hit ↦ inr (
        last,
        (draw_until-bound 100 free draw n).0,
        (draw_until-bound 100 free draw n).1,
        hit,
        first,
        ground (arith, hit, add_entity_new c kind id (draw last) m new),
      )
      | inr miss ↦ inl (none_free miss, ground (arith, miss), ground (arith, miss))
    ]
  where
    first : (j : ℕ) → n ≤ j → j < draw_until 100 free draw n → free (draw j) ≡ false
    first j a b = elim (Bool-cases (free (draw j))) [
      | inl hit ↦ absurd (
          omega (
            arith,
            (draw_until_found 100 free draw n j a (omega (arith, draw_until-bound 100 free draw n))
                hit).1,
          ))
      | inr miss ↦ miss
    ]

    none_free :
        free (draw (draw_until 100 free draw n)) ≡ false
        → (k : ℕ) → n ≤ k
        → k ≤ n + 100
        → free (draw k) ≡ false
    none_free miss k a b = elim (Bool-cases (free (draw k))) [
      | inl hit ↦ absurd (cc (miss, (draw_until_found 100 free draw n k a b hit).0))
      | inr e ↦ e
    ]
