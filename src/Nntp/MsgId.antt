-- ===== src/Nntp/MsgId.antt =====
-- internal/nntp/msgid.go: the check that a message-id passes before it enters an NNTP command.
pub mod Laws
use spottr.Base.{
  ℕ, ◌+◌, Bool, true, false, ◌||◌, List, [], ◌∷◌, ◌++◌, ltb, leb, ◌==◌, if◌then◌else◌, length,
  exists, Result, ok, err, Error, empty_id, long_id, illegal_byte,
}
use spottr.Text.{Bytes, is_empty, trim_space, trim_prefix, trim_suffix}

abbrev pub max_message_id_len : ℕ
max_message_id_len = 250

-- A byte that the loop refuses.
unfoldable pub is_illegal : ℕ → Bool
is_illegal c = leb c 0x20 || (leb 0x7f c || ((c == b'<') || (c == b'>')))

-- The text without its outer white space and brackets.
unfoldable pub bare_id : Bytes → Bytes
bare_id id = trim_suffix (trim_prefix (trim_space id) (b'<' ∷ [])) (b'>' ∷ [])

-- The checks of the bare id, and the brackets put round it.
unfoldable pub check_id : Bytes → Result Bytes
unfolding is_illegal
check_id id =
    if is_empty id
    then err empty_id
    else if ltb max_message_id_len (length id + 2)
    then err long_id
    else if exists is_illegal id
    then err illegal_byte
    else ok (b'<' ∷ (id ++ b'>' ∷ []))

unfoldable pub normalize_message_id : Bytes → Result Bytes
unfolding check_id bare_id
normalize_message_id id = check_id (bare_id id)

abbrev is_ok {ℓ} : {A : Type ℓ} → Result A → Bool
is_ok (ok a) = true
is_ok (err e) = false

unfoldable pub valid_message_id : Bytes → Bool
unfolding normalize_message_id
valid_message_id id = is_ok (normalize_message_id id)
