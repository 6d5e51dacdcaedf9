-- ===== src/Management/Messages.antt =====
-- The documents of app/schemas/player.py: `MSMPPlayer(**d)` and the other models, and `model_dump()`.
use miniverse_backend.Base.{
  ◌≡◌, refl, ℕ, Bool, Option, none, some, Text, str, ◌==◌, Result, ok, err, Error, arith,
}
use miniverse_backend.Json.{
  Json, number, boolean, text, object, end, field, ◌>>=◌, text_at, number_at, bool_at,
  optional_text, field_at, text_or_null,
}
use miniverse_backend.Players.Store.{Player}

-- `MSMPOperator`
pub record Operator : Type 0 where
  pub permission_level : ℕ
  pub bypasses_player_limit : Bool
  pub player : Player

-- `MSMPPlayerBan`
pub record PlayerBan : Type 0 where
  pub reason : Text
  pub expires : Option Text
  pub source : Text
  pub player : Player

abbrev pub validated : {A : Type 0} → Result A → Result A
validated (ok a) = ok a
validated (err e) = err Error.validation

-- `Model(**d)`, whose fields `read` reads
abbrev pub construct : {A : Type 0} → (Json → Result A) → Json → Result A
construct read (object fs) = validated (read (object fs))
construct read _ = err Error.type_error

unfoldable pub player_from_dict : Json → Result Player
unfolding ◌==◌
player_from_dict d = text_at (str "id") d >>= λ id.
    text_at (str "name") d >>= λ name. ok (record { id = id; name = name })

unfoldable pub operator_from_dict : Json → Result Operator
unfolding player_from_dict ◌==◌
operator_from_dict d = number_at (str "permissionLevel") d >>= λ level.
    bool_at (str "bypassesPlayerLimit") d >>= λ bypasses. field_at (str "player") d >>= λ p.
    player_from_dict p >>= λ player.
    ok (record { permission_level = level; bypasses_player_limit = bypasses; player = player })

unfoldable pub ban_from_dict : Json → Result PlayerBan
unfolding player_from_dict ◌==◌
ban_from_dict d = text_at (str "reason") d >>= λ reason.
    optional_text (str "expires") d >>= λ expires. text_at (str "source") d >>= λ source.
    field_at (str "player") d >>= λ p. player_from_dict p >>= λ player.
    ok (record { reason = reason; expires = expires; source = source; player = player })

unfoldable pub player_dump : Player → Json
player_dump p = object (field (str "id") (text p.id) (field (str "name") (text p.name) end))

unfoldable pub operator_dump : Operator → Json
unfolding player_dump
operator_dump o = object (
    field (str "permissionLevel") (number o.permission_level) (
      field (str "bypassesPlayerLimit") (boolean o.bypasses_player_limit)
        (field (str "player") (player_dump o.player) end)))

unfoldable pub ban_dump : PlayerBan → Json
unfolding player_dump
ban_dump b = object (
    field (str "reason") (text b.reason) (
      field (str "expires") (text_or_null b.expires)
        (field (str "source") (text b.source) (field (str "player") (player_dump b.player) end))))

pub construct-player_dump : (p : Player) → construct player_from_dict (player_dump p) ≡ ok p
unfolding player_from_dict player_dump
construct-player_dump p = refl

pub construct-operator_dump : (o : Operator) → construct operator_from_dict (operator_dump o) ≡ ok o
unfolding operator_from_dict operator_dump
construct-operator_dump o = refl

ban_with :
    (b : PlayerBan) (e : Option Text) → b.expires ≡ e → construct ban_from_dict (ban_dump b) ≡ ok b
unfolding ban_from_dict ban_dump
ban_with b none e = ground (arith, e)
ban_with b (some t) e = ground (arith, e)

pub construct-ban_dump : (b : PlayerBan) → construct ban_from_dict (ban_dump b) ≡ ok b
construct-ban_dump b = ban_with b b.expires refl

-- The documents that are written for a player, an operator and a ban, with or without an end, are read back
-- as what they were written for.
messages_roundtrip :
    (p : Player) (o : Operator) (b : PlayerBan)
    → (construct player_from_dict (player_dump p) ≡ ok p)
      × (construct operator_from_dict (operator_dump o) ≡ ok o)
      × (construct ban_from_dict (ban_dump b) ≡ ok b)
messages_roundtrip p o b =
    (construct-player_dump p, construct-operator_dump o, construct-ban_dump b)
