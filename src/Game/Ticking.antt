-- ===== src/Game/Ticking.antt =====
-- What a tick of all dungeons, and a player's command, do to each dungeon.
use dungeon_crawler.Base.{
  ◌==◌, if◌then◌else◌, is_some, ==_iff, Bool-cases, Option-cases, Dict, find, contains, erase,
  Distinct, find-assign, find-erase, contains-find, ℕ, ◌≡◌, refl, sym, ap, ◌∙◌, inl, inr, true,
  false, not, ◌&&◌, Option, none, some, List, [], ◌∷◌, ◌++◌, arith,
}
use dungeon_crawler.Settings.{Settings}
use dungeon_crawler.Types.Direction.{Direction}
use dungeon_crawler.Types.GameState.{DungeonSnapshot}
use dungeon_crawler.Dungeon.{
  move_command, Dungeon, push_command, add_move_player_command, TickDraws, process_tick,
}
use dungeon_crawler.Game.Registry.{
  DungeonRegistry, forget_dungeon, remove_dungeon, find_dungeon, find_player_dungeon,
}
use dungeon_crawler.Game.Registry.Players.{listed}
use dungeon_crawler.Game.Manager.{
  GameManager, Ticked, tick_one, tick_all, remove_all, on_game_tick, command_in, command_for,
  on_move_request,
}

-- A dungeon after its tick, unless its game is over.
unfoldable pub continued : Dungeon × Option DungeonSnapshot → Option Dungeon
continued (d, none) = none
continued (d, some snapshot) = some d

unfoldable pub after_tick : Settings → TickDraws → Option Dungeon → Option Dungeon
unfolding continued
after_tick c r none = none
after_tick c r (some d) = continued (process_tick c r d)

unfoldable pub ticked : Settings → TickDraws → Option Dungeon → Option Dungeon
ticked c r none = none
ticked c r (some d) = some (process_tick c r d).0

forget_dungeon-dungeons :
    (id : ℕ) (o : Option (List ℕ)) (r : DungeonRegistry)
    → (forget_dungeon id o r).dungeons ≡ r.dungeons
unfolding forget_dungeon
forget_dungeon-dungeons id none r = refl
forget_dungeon-dungeons id (some pids) r = refl

remove_dungeon-find :
    (g id : ℕ) (r : DungeonRegistry)
    → find g (remove_dungeon id r).0.dungeons ≡ (if id == g then none else find g r.dungeons)
unfolding remove_dungeon
remove_dungeon-find g id r = elim (Bool-cases (contains id r.dungeons)) [
  | inl e ↦ rw e (
      ap (λ m. find g (erase id m)) (forget_dungeon-dungeons id (find id r.dungeon_to_players) r)
      ∙ find-erase g id r.dungeons)
  | inr e ↦
      rw e (
        ground (arith, contains-find id r.dungeons, Option-cases (find id r.dungeons), ==_iff id g))
]

remove_all-find :
    (g : ℕ) (ids : List ℕ) (r : DungeonRegistry)
    → find g (remove_all ids r).dungeons ≡ (if listed g ids then none else find g r.dungeons)
unfolding remove_all listed
remove_all-find g [] r = refl
remove_all-find g (id ∷ ids) r =
    ground (arith, remove_all-find g ids (remove_dungeon id r).0, remove_dungeon-find g id r)

tick_one-dungeons :
    (id : ℕ) (d : Dungeon) (o : Option DungeonSnapshot) (t : Ticked)
    → (tick_one id d o t).dungeons ≡ (id, d) ∷ t.dungeons
unfolding tick_one
tick_one-dungeons id d none t = refl
tick_one-dungeons id d (some snapshot) t = refl

tick_one-over :
    (g id : ℕ) (d : Dungeon) (o : Option DungeonSnapshot) (t : Ticked)
    → listed g (tick_one id d o t).over
      ≡ (if (id == g) && not (is_some o) then true else listed g t.over)
unfolding tick_one listed
tick_one-over g id d none t = ground arith
tick_one-over g id d (some snapshot) t = ground arith

tick_all-find :
    (c : Settings) (draws : ℕ → TickDraws) (g : ℕ) (m : Dict Dungeon)
    → find g (tick_all c draws m).dungeons ≡ ticked c (draws g) (find g m)
unfolding tick_all ticked find
tick_all-find c draws g [] = refl
tick_all-find c draws g ((id, d) ∷ m) =
    let (d', snapshot) = process_tick c (draws id) d in
    ap (find g) (tick_one-dungeons id d' snapshot (tick_all c draws m))
    ∙ elim (Bool-cases (id == g)) [
      | inl e ↦ rw e (ap (λ k. some (process_tick c (draws k) d).0) ((==_iff id g).0 e))
      | inr e ↦ rw e (tick_all-find c draws g m)
    ]

over_missing :
    (c : Settings) (draws : ℕ → TickDraws) (g : ℕ) (m : Dict Dungeon)
    → find g m ≡ none
    → listed g (tick_all c draws m).over ≡ false
unfolding tick_all listed find
over_missing c draws g [] h = refl
over_missing c draws g ((id, d) ∷ m) h =
    let (d', snapshot) = process_tick c (draws id) d in
    ground (arith, h, tick_one-over g id d' snapshot (tick_all c draws m), over_missing c draws g m)

over_one :
    (d : Dungeon) (o : Option DungeonSnapshot)
    → (if (if true && not (is_some o) then true else false) then none else some d)
      ≡ continued (d, o)
unfolding continued
over_one d none = refl
over_one d (some snapshot) = refl

over-find :
    (c : Settings) (draws : ℕ → TickDraws) (g : ℕ) (m : Dict Dungeon)
    → Distinct m
    → (if listed g (tick_all c draws m).over then none else ticked c (draws g) (find g m))
      ≡ after_tick c (draws g) (find g m)
unfolding tick_all listed find after_tick ticked
over-find c draws g [] h = refl
over-find c draws g ((id, d) ∷ m) h =
    let (d', snapshot) = process_tick c (draws id) d in
    let over = tick_one-over g id d' snapshot (tick_all c draws m) in
    elim (Bool-cases (id == g)) [
      | inr e ↦ rw over (rw e (over-find c draws g m h.1))
      | inl e ↦
          let same = (==_iff id g).0 e in
          let rest = over_missing c draws g m (ap (λ k. find k m) (sym same) ∙ h.0) in
          rw over (rw e (rw rest (rw (← same) (over_one d' snapshot))))
    ]

-- A tick, of dungeons with distinct ids, ticks every dungeon once with its own draws, and removes exactly those whose
-- game is over.
pub on_game_tick_lem :
    (c : Settings) (draws : ℕ → TickDraws) (s : GameManager) (g : ℕ)
    → Distinct s.dungeon_registry.dungeons
    → find_dungeon g (on_game_tick c draws s).0.dungeon_registry
      ≡ after_tick c (draws g) (find_dungeon g s.dungeon_registry)
unfolding on_game_tick find_dungeon
on_game_tick_lem c draws s g h =
    let t = tick_all c draws s.dungeon_registry.dungeons in
    let r = record s.dungeon_registry { dungeons = t.dungeons } in
    remove_all-find g t.over r
    ∙ ap (λ o. if listed g t.over then none else o)
        (tick_all-find c draws g s.dungeon_registry.dungeons)
    ∙ over-find c draws g s.dungeon_registry.dungeons h

-- The dungeon `g`, changed if it is the one that was found.
unfoldable pub queued : ℕ → (Dungeon → Dungeon) → Option ℕ → Option Dungeon → Option Dungeon
queued g f none o = o
queued g f (some id) none = none
queued g f (some id) (some d) = if id == g then some (f d) else some d

command_in-find :
    (g id : ℕ) (f : Dungeon → Dungeon) (o : Option Dungeon) (r : DungeonRegistry)
    → find id r.dungeons ≡ o
    → (find g (command_in id f o r).dungeons ≡ queued g f (some id) (find g r.dungeons))
      × ((command_in id f o r).player_to_dungeon ≡ r.player_to_dungeon)
unfolding command_in queued
command_in-find g id f none r h = (
  elim (Option-cases (find g r.dungeons)) [
    | inl e ↦ rw (e, queued) refl
    | inr (x, e) ↦ rw (e, queued) (ground (arith, h, e, ==_iff id g))
  ],
  refl,
)
command_in-find g id f (some d) r h = (
  elim (Option-cases (find g r.dungeons)) [
    | inl e ↦ rw (e, queued) (ground (arith, h, e, ==_iff id g, find-assign g id (f d) r.dungeons))
    | inr (x, e) ↦
        rw (e, queued) (ground (arith, h, e, ==_iff id g, find-assign g id (f d) r.dungeons))
  ],
  refl,
)

command_for-find :
    (g : ℕ) (f : Dungeon → Dungeon) (o : Option ℕ) (r : DungeonRegistry)
    → (find g (command_for f o r).dungeons ≡ queued g f o (find g r.dungeons))
      × ((command_for f o r).player_to_dungeon ≡ r.player_to_dungeon)
unfolding command_for queued find_dungeon
command_for-find g f none r = (refl, refl)
command_for-find g f (some id) r = command_in-find g id f (find id r.dungeons) r refl

-- A move of a player, with its direction, becomes the last command of the queue of the dungeon that the player is in,
-- if there is one: the commands that wait stay before it in their order, and nothing else of that dungeon changes. No
-- other dungeon changes, nobody's dungeon becomes another, and the lobbies stay.
pub on_move_request_lem :
    (pid g : ℕ) (dir : Direction) (s : GameManager)
    → let s' = on_move_request pid dir s in
      (find_dungeon g s'.dungeon_registry
        ≡ queued g
            (λ d. record d { command_queue = d.command_queue ++ (move_command pid dir ∷ []) })
            (find_player_dungeon pid s.dungeon_registry)
            (find_dungeon g s.dungeon_registry))
      × (s'.dungeon_registry.player_to_dungeon ≡ s.dungeon_registry.player_to_dungeon)
      × (s'.lobby_registry ≡ s.lobby_registry)
unfolding on_move_request find_dungeon add_move_player_command push_command
on_move_request_lem pid g dir s =
    let r = s.dungeon_registry in
    let f = add_move_player_command pid dir in
    let (found_there, same) = command_for-find g f (find_player_dungeon pid r) r in
    (found_there, same, refl)
