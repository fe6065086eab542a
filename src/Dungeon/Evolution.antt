-- ===== src/Dungeon/Evolution.antt =====
-- What becomes of the entities of a dungeon as the game goes on.
use dungeon_crawler.Base.{
  ◌==◌, Bool-cases, find, ℕ, ◌≤◌, ◌≡◌, refl, ◌∙◌, inl, inr, true, [], ◌∷◌, arith,
}
use dungeon_crawler.Types.Direction.{Direction}
use dungeon_crawler.World.Position.{Position}
use dungeon_crawler.World.Entity.{Entity, is_alive, set_position, hurt}
use dungeon_crawler.Dungeon.EntityManager.{EntityMap, modify, is_living, move_entity}

-- An entity later in the game: the same one, with the same radii, no healthier, and alive only if it was.
abbrev pub Ages : Entity → Entity → Type 0
Ages e f =
    (f.id ≡ e.id)
    × (f.info.radius_attack ≡ e.info.radius_attack)
    × (f.info.radius_view ≡ e.info.radius_view)
    × (f.info.health ≤ e.info.health)
    × (is_alive f ≡ true → is_alive e ≡ true)

-- The same ids, in the same order, with the entities later in the game.
abbrev pub Evolves : EntityMap → EntityMap → Type 0
Evolves [] [] = Unit
Evolves [] (x ∷ n) = ⊥
Evolves (x ∷ m) [] = ⊥
Evolves ((j, e) ∷ m) ((k, f) ∷ n) = (j ≡ k) × Ages e f × Evolves m n

pub Evolves-refl : (m : EntityMap) → Evolves m m
Evolves-refl [] = tt
Evolves-refl ((k, e) ∷ m) = (refl, (refl, refl, refl, omega arith, λ a. a), Evolves-refl m)

pub Evolves-trans : (m n o : EntityMap) → Evolves m n → Evolves n o → Evolves m o
Evolves-trans [] [] [] h k = tt
Evolves-trans [] [] (x ∷ o) h k = absurd k
Evolves-trans [] (x ∷ n) o h k = absurd h
Evolves-trans (x ∷ m) [] o h k = absurd h
Evolves-trans (x ∷ m) (y ∷ n) [] h k = absurd k
Evolves-trans ((i, e) ∷ m) ((j, f) ∷ n) ((l, g) ∷ o) (p, a, h) (q, b, k) = (
  p ∙ q,
  (b.0 ∙ a.0, b.1 ∙ a.1, b.2 ∙ a.2, omega (arith, a.3, b.3), λ x. a.4 (b.4 x)),
  Evolves-trans m n o h k,
)

pub Evolves-modify :
    (k : ℕ) (f : Entity → Entity) (m : EntityMap)
    → ((e : Entity) → Ages e (f e))
    → Evolves m (modify k f m)
unfolding modify
Evolves-modify k f [] a = tt
Evolves-modify k f ((j, e) ∷ m) a = elim (Bool-cases (j == k)) [
  | inl t ↦ rw t (refl, a e, Evolves-refl m)
  | inr t ↦ rw t (refl, (refl, refl, refl, omega arith, λ x. x), Evolves-modify k f m a)
]

pub hurt-Ages : (damage : ℕ) (e : Entity) → Ages e (hurt damage e)
unfolding hurt is_alive
hurt-Ages damage e = ground arith

pub set_position-Ages : (p : Position) (e : Entity) → Ages e (set_position p e)
unfolding set_position is_alive
set_position-Ages p e = (refl, refl, refl, omega arith, λ a. a)

pub move_entity-Evolves :
    (id : ℕ) (dir : Direction) (p : Position) (m : EntityMap) → Evolves m (move_entity id dir p m).0
unfolding move_entity
move_entity-Evolves id dir p m = elim (Bool-cases (is_living (find id m))) [
  | inl e ↦ rw e (Evolves-modify id (set_position p) m (set_position-Ages p))
  | inr e ↦ rw e (Evolves-refl m)
]
