-- ===== src/Game/Registry/Players.antt =====
-- Which dungeon a player finds after a dungeon was added or removed.
use dungeon_crawler.Base.{
  ◌==◌, if◌then◌else◌, ==_iff, Bool-cases, Option-cases, length, Dict, find, contains, emplace,
  erase, find-erase, find-emplace, contains-find, contains-emplace, length-emplace_new, ℕ, suc, ◌≤◌,
  ◌<◌, ◌≡◌, refl, ◌↔◌, inl, inr, Bool, true, false, not, ◌&&◌, none, some, List, [], ◌∷◌, arith,
}
use dungeon_crawler.Settings.{Settings}
use dungeon_crawler.World.Position.{Position}
use dungeon_crawler.World.GameMap.{GameMap}
use dungeon_crawler.Game.Registry.{
  DungeonRegistry, id_set, any_known, place_players, register_dungeon, generate_next_id,
  add_dungeon, release_players, forget_dungeon, remove_dungeon, find_dungeon, find_player_dungeon,
}

-- Whether the id is in the list.
unfoldable pub listed : ℕ → List ℕ → Bool
listed p [] = false
listed p (q ∷ qs) = if q == p then true else listed p qs

place_players-find :
    (p id : ℕ) (pids : List ℕ) (m : Dict ℕ)
    → find p (place_players pids id m)
      ≡ (if contains p m then find p m else if listed p pids then some id else none)
unfolding place_players listed
place_players-find p id [] m = ground (arith, contains-find p m, Option-cases (find p m))
place_players-find p id (q ∷ qs) m = ground (
  arith,
  place_players-find p id qs (emplace q id m),
  find-emplace p q id m,
  contains-emplace p q id m,
  contains-find p m,
  contains-find q m,
  ==_iff q p,
)

known-listed :
    (p : ℕ) (pids : List ℕ) (m : Dict ℕ)
    → any_known pids m ≡ false
    → listed p pids ≡ true
    → contains p m ≡ false
unfolding any_known listed
known-listed p [] m h k = absurd (cc k)
known-listed p (q ∷ qs) m h k = ground (arith, known-listed p qs m, ==_iff q p)

pub release_players-find :
    (p : ℕ) (pids : List ℕ) (m : Dict ℕ)
    → find p (release_players pids m) ≡ (if listed p pids then none else find p m)
unfolding release_players listed
release_players-find p [] m = refl
release_players-find p (q ∷ qs) m =
    ground (arith, release_players-find p qs (erase q m), find-erase p q m)

-- Where the id has a list of players, removing its dungeon succeeds exactly for one of the
-- registry, which is then gone; the players on the list then find no dungeon, and everybody else
-- finds the one they found before.
pub remove_dungeon_lem :
    (id : ℕ) (pids : List ℕ) (r : DungeonRegistry)
    → find id r.dungeon_to_players ≡ some pids
    → let (r', ok) = remove_dungeon id r in
      (ok ≡ contains id r.dungeons)
      × ((g : ℕ) → find_dungeon g r' ≡ (if id == g then none else find_dungeon g r))
      × ((p : ℕ)
          → find_player_dungeon p r'
            ≡ (if ok && listed p pids then none else find_player_dungeon p r))
unfolding remove_dungeon forget_dungeon find_dungeon find_player_dungeon
remove_dungeon_lem id pids r h = elim (Bool-cases (contains id r.dungeons)) [
  | inl e ↦ rw e (
    refl,
    λ g. ground (arith, h, find-erase g id r.dungeons),
    λ p. ground (arith, h, release_players-find p pids r.player_to_dungeon),
  )
  | inr e ↦ rw e (
    refl,
    λ g.
        ground (arith, contains-find id r.dungeons, Option-cases (find id r.dungeons), ==_iff id g),
    λ p. refl,
  )
]

-- Whether no id is twice in the list.
unfoldable pub names_once : List ℕ → Bool
names_once [] = true
names_once (p ∷ ps) = not (listed p ps) && names_once ps

contains-id_set : (p : ℕ) (pids : List ℕ) → contains p (id_set pids) ≡ listed p pids
unfolding id_set listed contains find
contains-id_set p [] = refl
contains-id_set p (q ∷ qs) =
    ground (arith, contains-id_set p qs, contains-emplace p q tt (id_set qs))

length-emplace :
    (q : ℕ) (m : Dict (Unit {0}))
    → length (emplace q tt m) ≡ (if contains q m then length m else suc (length m))
unfolding emplace
length-emplace q m = elim (Bool-cases (contains q m)) [
  | inl e ↦ ground (arith, e)
  | inr e ↦ ground (arith, e, length-emplace_new q tt m e)
]

-- The set of the ids is as large as the list exactly if no id is twice in the list.
length-id_set :
    (pids : List ℕ)
    → (length (id_set pids) ≤ length pids)
      × ((length (id_set pids) == length pids) ≡ names_once pids)
unfolding id_set names_once
length-id_set [] = (omega arith, refl)
length-id_set (q ∷ qs) =
    let (bound, same) = length-id_set qs in
    let one = length-emplace q (id_set qs) in
    let twice = contains-id_set q qs in
    (ground (arith, bound, one), ground (arith, bound, same, one, twice))

any_known-free :
    (pids : List ℕ) (m : Dict ℕ)
    → (any_known pids m ≡ false) ↔ ((p : ℕ) → listed p pids ≡ true → find p m ≡ none)
unfolding any_known listed
any_known-free [] m = (λ h p k. absurd (cc k), λ h. refl)
any_known-free (q ∷ qs) m =
    let (free, unknown) = any_known-free qs m in
    (
      λ h p k. elim (Bool-cases (q == p)) [
        | inl e ↦ ground (arith, h, e, ==_iff q p, contains-find q m)
        | inr e ↦ free (ground (arith, h)) p (ground (arith, k, e))
      ],
      λ h.
          let rest : any_known qs m ≡ false = unknown (λ p k. h p (ground (arith, k))) in
          ground (arith, rest, h q, ==_iff q q, contains-find q m),
    )

add_dungeon-guards :
    (c : Settings) (draw : ℕ → Position) (world : GameMap) (pids : List ℕ) (r : DungeonRegistry)
    → contains r.next_game_id r.dungeons ≡ false
    → (add_dungeon c draw world pids r).1 ≡ (
        not (length pids == 0)
        && (length (id_set pids) == length pids && not (any_known pids r.player_to_dungeon)))
unfolding add_dungeon register_dungeon generate_next_id
add_dungeon-guards c draw world pids r fresh = ground arith

-- The three guards, as what they say of the players.
guards_lem :
    (pids : List ℕ) (m : Dict ℕ)
    → ((not (length pids == 0) && (length (id_set pids) == length pids && not (any_known pids m)))
        ≡ true)
      ↔ ((0 < length pids)
          × (names_once pids ≡ true)
          × ((p : ℕ) → listed p pids ≡ true → find p m ≡ none))
guards_lem pids m =
    let same = (length-id_set pids).1 in
    let (free, unknown) = any_known-free pids m in
    (
      λ h. (ground (arith, h), ground (arith, h, same), free (ground (arith, h))),
      λ h. ground (arith, h.0, h.1, same, unknown h.2),
    )

-- Adding a dungeon, where the next id is not in use, succeeds exactly for a list of players that is not empty, names nobody
-- twice, and names nobody who finds a dungeon. Then the listed players find the new dungeon; everybody
-- else finds the one they found before, and so does everybody where it fails.
pub add_dungeon_lem :
    (c : Settings) (draw : ℕ → Position) (world : GameMap) (pids : List ℕ) (r : DungeonRegistry)
    → contains r.next_game_id r.dungeons ≡ false
    → let (r', ok) = add_dungeon c draw world pids r in
      ((ok ≡ true) ↔ (
        (0 < length pids)
        × (names_once pids ≡ true)
        × ((p : ℕ) → listed p pids ≡ true → find_player_dungeon p r ≡ none)))
      × ((p : ℕ)
          → find_player_dungeon p r'
            ≡ (if ok && listed p pids then some r.next_game_id else find_player_dungeon p r))
unfolding add_dungeon register_dungeon generate_next_id find_player_dungeon
add_dungeon_lem c draw world pids r fresh = (
  rw (add_dungeon-guards c draw world pids r fresh) (guards_lem pids r.player_to_dungeon),
  λ p. ground (
    arith,
    place_players-find p r.next_game_id pids r.player_to_dungeon,
    known-listed p pids r.player_to_dungeon,
    contains-find p r.player_to_dungeon,
    Option-cases (find p r.player_to_dungeon),
  ),
)
