-- ===== src/World/GameMap/Barriers.antt =====
-- What adding and removing barriers does to the map.
use dungeon_crawler.Base.{
  if◌then◌else◌, Bool-cases, ◌≡◌, refl, inl, inr, true, false, ◌&&◌, List, [], ◌∷◌, arith,
}
use dungeon_crawler.World.Position.{Position, pos_eq}
use dungeon_crawler.World.Position.Saturation.{pos_eq_iff}
use dungeon_crawler.World.GameMap.{
  MapSize, size_contains, GameMap, position_in, position_erase, is_barrier, is_in_map,
  map_available, add_barrier, remove_barrier,
}

-- Every barrier lies in the map, and no barrier stands twice.
abbrev pub AreBarriers : MapSize → List Position → Type 0
AreBarriers m [] = Unit
AreBarriers m (q ∷ qs) = (size_contains m q ≡ true) × (position_in q qs ≡ false) × AreBarriers m qs

abbrev pub IsValid : GameMap → Type 0
IsValid m = AreBarriers m.map_size m.barriers

position_in-erase :
    (p q : Position) (qs : List Position)
    → position_in q (position_erase p qs) ≡ (if pos_eq p q then false else position_in q qs)
unfolding position_in position_erase
position_in-erase p q [] = ground arith
position_in-erase p q (r ∷ qs) =
    ground (arith, position_in-erase p q qs, pos_eq_iff r p, pos_eq_iff r q, pos_eq_iff p q)

-- Adding a barrier succeeds exactly at an available position, which is then the one new barrier, and keeps
-- the extent of the map.
pub is_barrier-add_barrier :
    (m : GameMap) (p q : Position)
    → ((add_barrier m p).1 ≡ map_available m p)
      × (is_barrier (add_barrier m p).0 q
          ≡ (if map_available m p && pos_eq p q then true else is_barrier m q))
      × ((add_barrier m p).0.map_size ≡ m.map_size)
unfolding add_barrier map_available is_barrier position_in
is_barrier-add_barrier m p q = ground arith

-- Removing a barrier succeeds exactly where there is one, which is then the one that is gone, and keeps
-- the extent of the map.
pub is_barrier-remove_barrier :
    (m : GameMap) (p q : Position)
    → ((remove_barrier m p).1 ≡ is_barrier m p)
      × (is_barrier (remove_barrier m p).0 q ≡ (if pos_eq p q then false else is_barrier m q))
      × ((remove_barrier m p).0.map_size ≡ m.map_size)
unfolding remove_barrier is_barrier
is_barrier-remove_barrier m p q = elim (Bool-cases (position_in p m.barriers)) [
  | inl e ↦ rw e (refl, position_in-erase p q m.barriers, refl)
  | inr e ↦ ground (arith, e, pos_eq_iff p q)
]

position_erase-AreBarriers :
    (z : MapSize) (p : Position) (qs : List Position)
    → AreBarriers z qs
    → AreBarriers z (position_erase p qs)
unfolding position_erase
position_erase-AreBarriers z p [] v = tt
position_erase-AreBarriers z p (q ∷ qs) v =
    ground (arith, position_erase-AreBarriers z p qs v.2, position_in-erase p q qs)

-- On a map whose barriers lie in it, each of them once, adding and removing a barrier keep this.
pub barriers-IsValid :
    (m : GameMap) (p : Position)
    → IsValid m
    → IsValid (add_barrier m p).0 × IsValid (remove_barrier m p).0
unfolding add_barrier remove_barrier is_in_map is_barrier
barriers-IsValid m p v = ground (arith, position_erase-AreBarriers m.map_size p m.barriers v)
