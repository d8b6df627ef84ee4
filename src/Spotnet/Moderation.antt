-- ===== src/Spotnet/Moderation.antt =====
-- internal/spotnet/moderation.go: recognising withdrawal requests and deciding on them. Times are
-- in nanoseconds after 1970.
pub mod Authority
use spottr.Base.{
  ℕ, suc, ◌+◌, ◌-◌, ◌*◌, ◌^◌, ◌≡◌, Bool, true, false, not, ◌&&◌, ◌||◌, Option, none, some, List, [],
  ◌∷◌, ◌++◌, ltb, leb, ◌==◌, if◌then◌else◌, length,
}
use spottr.Text.{Bytes, codes, is_empty, eqb, has_prefix, contains, fields, to_lower, trim_space}
use spottr.Spotnet.Crypto.{Crypto}
use spottr.Spotnet.Signing.{verify_header, verify_self_signed, min_self_signed_key_len}

abbrev pub second : ℕ
second = 10 ^ 9

-- `disposeMaxAge`: five days
abbrev pub dispose_max_age : ℕ
dispose_max_age = 5 * 24 * 3600 * second

pub record ModerationCommand : Type 0 where
  pub action : Bytes
  pub target_id : Bytes
  pub spotter : Bytes
  pub verified : Bool
  pub stamp : ℕ
  pub moderator : Bool

-- `validModerationCommands`
abbrev pub is_moderation_word : Bytes → Bool
is_moderation_word w = eqb w (codes "delete") || (eqb w (codes "dispose") || eqb w (codes "remove"))

abbrev pub with_brackets : Bytes → Bytes
with_brackets target =
    if has_prefix target (b'<' ∷ []) then target else b'<' ∷ (target ++ b'>' ∷ [])

-- A command that names an action and a target, with nothing checked yet.
abbrev unsigned : Bytes → Bytes → ModerationCommand
unsigned action target = record {
  action = action;
  target_id = target;
  spotter = [];
  verified = false;
  stamp = 0;
  moderator = false;
}

command_of : Bytes → Bytes → Option ModerationCommand
command_of word target =
    if is_moderation_word (to_lower word)
    then if is_empty (trim_space target) || not (contains (trim_space target) (b'@' ∷ []))
      then none
      else some (unsigned (to_lower word) (with_brackets (trim_space target)))
    else none

command_in : List Bytes → Option ModerationCommand
unfolding command_of
command_in [] = none
command_in (word ∷ []) = none
command_in (word ∷ target ∷ rest) = command_of word target

-- `LooksLikeModerationCommand`; `none` is the answer false.
unfoldable pub looks_like_moderation_command : Bytes → Option ModerationCommand
unfolding command_in
looks_like_moderation_command title = command_in (fields title)

module _ (c : Crypto) where
  -- What `ParseDispose` does with a recognised command.
  unfoldable pub sign_check :
      ModerationCommand → Bytes → Bytes → Bytes → Bytes → Bytes → Bytes → ℕ → ModerationCommand
  sign_check cmd title header poster signature self_signed_key message_id key_id =
      if not (key_id == 2)
      then cmd
      else if leb (length self_signed_key) min_self_signed_key_len
      then if verify_header c title header poster signature 2
        then record cmd { verified = true; moderator = true }
        else cmd
      else elim (verify_self_signed c title header poster signature self_signed_key message_id) [
        | none ↦ cmd
        | some spotter ↦ record cmd { spotter = spotter; verified = true }
      ]

  -- `ParseDispose`; `none` is the answer false.
  unfoldable pub parse_dispose :
      Bytes → Bytes → Bytes → Bytes → Bytes → Bytes → ℕ → ℕ → Option ModerationCommand
  unfolding sign_check
  parse_dispose title header poster signature self_signed_key message_id key_id stamp =
      elim (looks_like_moderation_command title) [
        | none ↦ none
        | some cmd ↦ some (
            sign_check (record cmd { stamp = stamp }) title header poster signature self_signed_key
              message_id key_id)
      ]

-- `WithinDisposeWindow`
unfoldable pub within_dispose_window : ModerationCommand → ℕ → Bool
within_dispose_window cmd spot_stamp =
    if ltb cmd.stamp spot_stamp then false else leb (cmd.stamp - spot_stamp) dispose_max_age

-- `ValidateDispose`
unfoldable pub validate_dispose : ModerationCommand → Bytes → ℕ → Bool
unfolding within_dispose_window
validate_dispose cmd spot_spotter_id spot_stamp =
    if cmd.verified && cmd.moderator
    then true
    else if not cmd.verified || is_empty cmd.spotter
    then false
    else if is_empty spot_spotter_id || not (eqb spot_spotter_id cmd.spotter)
    then false
    else within_dispose_window cmd spot_stamp
