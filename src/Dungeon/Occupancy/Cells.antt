-- ===== src/Dungeon/Occupancy/Cells.antt =====
-- What a change of one entity does to the positions that the entities of a map hold.
use dungeon_crawler.Base.{
  find, assign, find-assign, ℕ, ◌≡◌, refl, ◌∙◌, true, false, none, [], ◌∷◌, arith,
}
use dungeon_crawler.World.Position.{Position, pos_eq}
use dungeon_crawler.World.Position.Saturation.{pos_eq_iff}
use dungeon_crawler.World.GameMap.{GameMap, map_available}
use dungeon_crawler.World.Entity.{Entity, set_position}
use dungeon_crawler.Dungeon.EntityManager.{EntityMap, modify, is_occupied}

-- Each id once, and each position once.
abbrev pub IsApart : EntityMap → Type 0
IsApart [] = Unit {0}
IsApart ((id, e) ∷ m) = (find id m ≡ none) × (is_occupied e.position m ≡ false) × IsApart m

-- Every entity stands on a free cell of the map.
abbrev pub IsPlaced : GameMap → EntityMap → Type 0
IsPlaced world [] = Unit {0}
IsPlaced world ((id, e) ∷ m) = (map_available world e.position ≡ true) × IsPlaced world m

-- No entity of the one map stands where one of the other map does.
abbrev pub IsClear : EntityMap → EntityMap → Type 0
IsClear [] others = Unit {0}
IsClear ((id, e) ∷ m) others = (is_occupied e.position others ≡ false) × IsClear m others

pub pos_eq_comm : (p q : Position) → pos_eq p q ≡ pos_eq q p
pos_eq_comm p q = ground (arith, pos_eq_iff p q, pos_eq_iff q p)

pub find-modify :
    (j k : ℕ) (f : Entity → Entity) (m : EntityMap) → find j m ≡ none → find j (modify k f m) ≡ none
unfolding find modify
find-modify j k f [] h = refl
find-modify j k f ((i, e) ∷ m) h = ground (arith, find-modify j k f m)

-- A change that moves nobody.
module _ (f : Entity → Entity) (still : (e : Entity) → (f e).position ≡ e.position) where
  pub is_occupied-modify :
      (k : ℕ) (q : Position) (m : EntityMap) → is_occupied q (modify k f m) ≡ is_occupied q m
  unfolding modify is_occupied
  is_occupied-modify k q [] = refl
  is_occupied-modify k q ((i, e) ∷ m) = ground (arith, is_occupied-modify k q m, still e)

  pub modify-IsApart : (k : ℕ) (m : EntityMap) → IsApart m → IsApart (modify k f m)
  unfolding modify
  modify-IsApart k [] a = tt
  modify-IsApart k ((i, e) ∷ m) a = ground (
    arith,
    modify-IsApart k m a.2,
    is_occupied-modify k e.position m,
    find-modify i k f m,
    still e,
  )

  pub modify-IsPlaced :
      (world : GameMap) (k : ℕ) (m : EntityMap) → IsPlaced world m → IsPlaced world (modify k f m)
  unfolding modify
  modify-IsPlaced world k [] a = tt
  modify-IsPlaced world k ((i, e) ∷ m) a = ground (arith, modify-IsPlaced world k m a.1, still e)

  pub modify-IsClear :
      (k : ℕ) (m others : EntityMap) → IsClear m others → IsClear (modify k f m) others
  unfolding modify
  modify-IsClear k [] others a = tt
  modify-IsClear k ((i, e) ∷ m) others a = ground (arith, modify-IsClear k m others a.1, still e)

  pub modify-IsClear_right :
      (k : ℕ) (m others : EntityMap) → IsClear m others → IsClear m (modify k f others)
  modify-IsClear_right k [] others a = tt
  modify-IsClear_right k ((i, e) ∷ m) others a =
      (is_occupied-modify k e.position others ∙ a.0, modify-IsClear_right k m others a.1)

-- A move to a position that nobody holds.
module _ (p : Position) where
  pub is_occupied-move :
      (k : ℕ) (q : Position) (m : EntityMap)
      → is_occupied q m ≡ false
      → pos_eq p q ≡ false
      → is_occupied q (modify k (set_position p) m) ≡ false
  unfolding modify is_occupied set_position
  is_occupied-move k q [] h n = refl
  is_occupied-move k q ((i, e) ∷ m) h n = ground (arith, is_occupied-move k q m)

  pub move-IsApart :
      (k : ℕ) (m : EntityMap)
      → is_occupied p m ≡ false
      → IsApart m
      → IsApart (modify k (set_position p) m)
  unfolding modify is_occupied set_position
  move-IsApart k [] h a = tt
  move-IsApart k ((i, e) ∷ m) h a = ground (
    arith,
    move-IsApart k m,
    is_occupied-move k e.position m,
    find-modify i k (set_position p) m,
    pos_eq_comm p e.position,
  )

  pub move-IsPlaced :
      (world : GameMap) (k : ℕ) (m : EntityMap)
      → map_available world p ≡ true
      → IsPlaced world m
      → IsPlaced world (modify k (set_position p) m)
  unfolding modify set_position
  move-IsPlaced world k [] h a = tt
  move-IsPlaced world k ((i, e) ∷ m) h a = ground (arith, move-IsPlaced world k m h a.1)

  pub move-IsClear :
      (k : ℕ) (m others : EntityMap)
      → is_occupied p others ≡ false
      → IsClear m others
      → IsClear (modify k (set_position p) m) others
  unfolding modify set_position
  move-IsClear k [] others h a = tt
  move-IsClear k ((i, e) ∷ m) others h a = ground (arith, move-IsClear k m others h a.1)

  pub move-IsClear_right :
      (k : ℕ) (m others : EntityMap)
      → is_occupied p m ≡ false
      → IsClear m others
      → IsClear m (modify k (set_position p) others)
  unfolding is_occupied
  move-IsClear_right k [] others h a = tt
  move-IsClear_right k ((i, e) ∷ m) others h a = (
    is_occupied-move k e.position others a.0 (ground (arith, pos_eq_comm p e.position)),
    move-IsClear_right k m others (ground arith) a.1,
  )

-- A new entity.
module _ (k : ℕ) (n : Entity) where
  is_occupied-assign :
      (q : Position) (m : EntityMap)
      → find k m ≡ none
      → is_occupied q m ≡ false
      → pos_eq n.position q ≡ false
      → is_occupied q (assign k n m) ≡ false
  unfolding is_occupied find assign
  is_occupied-assign q [] h e d = ground arith
  is_occupied-assign q ((i, x) ∷ m) h e d = ground (arith, is_occupied-assign q m)

  pub assign-IsApart :
      (m : EntityMap)
      → find k m ≡ none
      → is_occupied n.position m ≡ false
      → IsApart m
      → IsApart (assign k n m)
  unfolding is_occupied find assign
  assign-IsApart [] h e a = (refl, refl, tt)
  assign-IsApart ((i, x) ∷ m) h e a = ground (
    arith,
    assign-IsApart m,
    is_occupied-assign x.position m,
    find-assign i k n m,
    pos_eq_comm x.position n.position,
  )

  pub assign-IsPlaced :
      (world : GameMap) (m : EntityMap)
      → map_available world n.position ≡ true
      → IsPlaced world m
      → IsPlaced world (assign k n m)
  unfolding assign
  assign-IsPlaced world [] h a = (h, tt)
  assign-IsPlaced world ((i, x) ∷ m) h a = ground (arith, assign-IsPlaced world m h a.1)

  pub assign-IsClear :
      (m others : EntityMap)
      → is_occupied n.position others ≡ false
      → IsClear m others
      → IsClear (assign k n m) others
  unfolding assign
  assign-IsClear [] others h a = (h, tt)
  assign-IsClear ((i, x) ∷ m) others h a = ground (arith, assign-IsClear m others h a.1)

  pub assign-IsClear_right :
      (m others : EntityMap)
      → find k others ≡ none
      → is_occupied n.position m ≡ false
      → IsClear m others
      → IsClear m (assign k n others)
  unfolding is_occupied
  assign-IsClear_right [] others f h a = tt
  assign-IsClear_right ((i, x) ∷ m) others f h a = (
    is_occupied-assign x.position others f a.0 (ground (arith, pos_eq_comm x.position n.position)),
    assign-IsClear_right m others f (ground arith) a.1,
  )
