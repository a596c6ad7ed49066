-- ===== src/Moderation/Targets.antt =====
-- The rooms that a moderation command is carried out in.
use matrix_bridge_discord.Prelude.{
  List, [], ◌∷◌, String, Bool, true, false, not, ◌≡◌, refl, ◌∙◌, subst, arith, if◌then◌else◌, ◌==◌,
  ◌&&◌, ◌||◌, eq_iff, eq_refl, any, is_nil, Bool-cases, inl, inr,
}
use matrix_bridge_discord.BridgeLogic.{RoomMapping}
use matrix_bridge_discord.Rooms.Tasks.{}
use matrix_bridge_discord.Moderation.{unseen_rooms, target_rooms}

abbrev pub has : List String → String → Bool
has l room = any (λ r. r == room) l

abbrev pub Distinct : List String → Type 0
Distinct [] = Unit
Distinct (r ∷ l) = (has l r ≡ false) × Distinct l

abbrev pub in_rows : List RoomMapping → String → Bool
in_rows l room = any (λ m. m.matrix_room_id == room) l

seen_row :
    (row room : String) (seen : List String) (b : Bool)
    → has seen row ≡ true
    → (b && not (has seen room)) ≡ (((row == room) || b) && not (has seen room))
seen_row row room seen b e = elim (Bool-cases (row == room)) [
  | inl same ↦
      let here : row ≡ room = ground (arith, eq_iff row room) in
      let there : has seen room ≡ true = subst (λ r. has seen r ≡ true) here e in ground arith
  | inr other ↦ rw other refl
]

new_row :
    (row room : String) (seen : List String) (b : Bool)
    → has seen row ≡ false
    → ((row == room) || (b && not ((row == room) || has seen room)))
      ≡ (((row == room) || b) && not (has seen room))
new_row row room seen b e = elim (Bool-cases (row == room)) [
  | inl same ↦
      let here : row ≡ room = ground (arith, eq_iff row room) in
      let there : has seen room ≡ false = subst (λ r. has seen r ≡ false) here e in ground arith
  | inr other ↦ rw other refl
]

-- A room is among the unseen ones if a row has it and it was not seen.
pub has-unseen_rooms :
    (room : String) (seen : List String) (l : List RoomMapping)
    → has (unseen_rooms seen l) room ≡ (in_rows l room && not (has seen room))
has-unseen_rooms room seen [] = refl
has-unseen_rooms room seen (m ∷ l) =
    let same = has-unseen_rooms room seen l in
    let later = has-unseen_rooms room (m.matrix_room_id ∷ seen) l in
    elim (Bool-cases (has seen m.matrix_room_id)) [
      | inl e ↦ rw e (same ∙ seen_row (m.matrix_room_id) room seen (in_rows l room) e)
      | inr e ↦ rw (e, later) (new_row m.matrix_room_id room seen (in_rows l room) e)
    ]

unseen_rooms-Distinct : (seen : List String) (l : List RoomMapping) → Distinct (unseen_rooms seen l)
unseen_rooms-Distinct seen [] = tt
unseen_rooms-Distinct seen (m ∷ l) =
    let same = unseen_rooms-Distinct seen l in
    let later = unseen_rooms-Distinct (m.matrix_room_id ∷ seen) l in
    let new = has-unseen_rooms m.matrix_room_id (m.matrix_room_id ∷ seen) l in
    elim (Bool-cases (has seen m.matrix_room_id)) [
      | inl e ↦ rw e same
      | inr e ↦ rw e (ground (arith, eq_refl m.matrix_room_id), later)
    ]

pub target_rooms-Distinct :
    (mapping : RoomMapping) (l : List RoomMapping) → Distinct (target_rooms mapping l)
unfolding target_rooms
target_rooms-Distinct mapping [] = (refl, tt)
target_rooms-Distinct mapping (m ∷ l) = unseen_rooms-Distinct [] (m ∷ l)

pub has-target_rooms :
    (room : String) (mapping : RoomMapping) (l : List RoomMapping)
    → has (target_rooms mapping l) room
      ≡ (if is_nil l then mapping.matrix_room_id == room else in_rows l room)
unfolding target_rooms
has-target_rooms room mapping [] = ground arith
has-target_rooms room mapping (m ∷ l) = ground (arith, has-unseen_rooms room [] (m ∷ l))
