-- ===== src/Spotnet/Parser/Subject.antt =====
-- parser.go: title and tag of a subject line.
use spottr.Base.{
  ℕ, zero, suc, ◌+◌, ◌-◌, ◌≡◌, refl, Bool, true, false, ◌&&◌, Option, none, some, List, [], ◌++◌,
  ltb, leb, if◌then◌else◌, length, take, drop, get_or,
}
use spottr.Text.{Bytes, codes, is_empty, contains, index, split, join, replace_all, trim_space}

-- One round of the loop in `stripRFC2047`: `none` ends it.
unfoldable pub strip_marker : Bytes → Option Bytes
strip_marker s =
    if contains s (codes "=?") && contains s (codes "?=")
    then elim (index s (codes "=?")) [
      | none ↦ none
      | some start ↦ elim (index (drop start s) (codes "?=")) [
        | none ↦ none
        | some end ↦ some (take start s ++ drop (start + end + 2) s)
      ]
    ]
    else none

-- The loop; each round shortens the text, so its length is fuel enough.
unfoldable pub strip_markers : ℕ → Bytes → Bytes
unfolding strip_marker
strip_markers zero s = s
strip_markers (suc fuel) s = elim (strip_marker s) [ none ↦ s | some t ↦ strip_markers fuel t ]

-- `stripRFC2047`
unfoldable pub strip_rfc2047 : Bytes → Bytes
unfolding strip_markers
strip_rfc2047 s = trim_space (strip_markers (length s) s)

-- `unescapePipe`
unfoldable pub unescape_pipe : Bytes → Bytes
unescape_pipe s = replace_all s (codes "&#124;") (codes "|")

first_part : List Bytes → Bytes
first_part parts = get_or parts 0 []

-- Title and tag before the pipes are unescaped.
legacy_parts : Bytes → List Bytes → Bytes × Bytes
unfolding first_part
legacy_parts subj parts =
    let title = trim_space (join (take (length parts - 2) parts) (codes "|")) in
    if leb 2 (length parts)
    then (
      if is_empty title then trim_space (first_part parts) else title,
      trim_space (get_or parts (length parts - 1) []),
    )
    else (trim_space subj, [])

new_parts : List Bytes → Bytes × Bytes
unfolding first_part
new_parts parts = (
  trim_space (first_part parts),
  if ltb 1 (length parts) then trim_space (get_or parts 1 []) else [],
)

unescaped : Bytes × Bytes → Bytes × Bytes
unescaped (title, tag) = (unescape_pipe title, unescape_pipe tag)

subject_parts : Bytes → Bool → Bytes × Bytes
unfolding legacy_parts new_parts unescaped
subject_parts subj true = unescaped (legacy_parts subj (split subj b'|'))
subject_parts subj false = unescaped (new_parts (split subj b'|'))

-- `parseSubject`
unfoldable pub parse_subject : Bytes → Bool → Bytes × Bytes
unfolding subject_parts
parse_subject subj is_legacy =
    subject_parts (if contains subj (codes "=?") then strip_rfc2047 subj else subj) is_legacy

new_subject : parse_subject (codes " A title | tag |x") false ≡ (codes "A title", codes "tag")
unfolding parse_subject split trim_space contains unescape_pipe replace_all
new_subject = refl

legacy_subject : parse_subject (codes "a|b&#124;|c|d") true ≡ (codes "a|b|", codes "d")
unfolding parse_subject split trim_space contains unescape_pipe replace_all join
legacy_subject = refl
