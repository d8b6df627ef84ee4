-- ===== src/Nntp/MsgId/Laws.antt =====
-- msgid.go: an accepted id cannot break out of a command line, and acceptance is stable.
use spottr.Base.{
  ℕ, ◌+◌, ◌-◌, ◌≤◌, ◌<◌, ◌≡◌, ◌≢◌, refl, false, [], ◌∷◌, ◌++◌, length, exists, ok, All, arith,
  length-append, reverse, ap, take-append_length, All-mono, All-reverse,
}
use spottr.Text.{Bytes, has_prefix, has_suffix, trim_prefix, trim_suffix}
use mathlib.Core.List.{reverse-append}
use spottr.Text.Laws.{Solid, trim_space-Solid, trim_space-All}
use spottr.Nntp.MsgId.{is_illegal, bare_id, check_id, normalize_message_id}

-- A byte that may stand between the brackets: printable ASCII, no bracket, and so neither CR nor
-- LF nor a space.
abbrev pub IsPlain : ℕ → Type 0
IsPlain c = (0x20 < c) × (c < 0x7f) × (c ≢ b'<') × (c ≢ b'>')

exists-IsPlain : (s : Bytes) → exists is_illegal s ≡ false → All IsPlain s
unfolding is_illegal
exists-IsPlain [] h = tt
exists-IsPlain (c ∷ s) h = ground (arith, exists-IsPlain s)

IsPlain-exists : (s : Bytes) → All IsPlain s → exists is_illegal s ≡ false
unfolding is_illegal
IsPlain-exists [] h = refl
IsPlain-exists (c ∷ s) h = ground (arith, IsPlain-exists s)

check_id-ok :
    (s out : Bytes)
    → check_id s ≡ ok out
    → (out ≡ b'<' ∷ (s ++ b'>' ∷ [])) × (s ≢ []) × All IsPlain s × (length s + 2 ≤ 250)
unfolding check_id
check_id-ok [] out h = absurd (cc)
check_id-ok (c ∷ s) out h =
    (ground arith, ground arith, ground (arith, exists-IsPlain (c ∷ s)), ground arith)

check_id-IsPlain :
    (s : Bytes)
    → s ≢ []
    → All IsPlain s
    → length s ≤ 248
    → check_id s ≡ ok (b'<' ∷ (s ++ b'>' ∷ []))
unfolding check_id
check_id-IsPlain [] n h l = absurd (n refl)
check_id-IsPlain (c ∷ s) n h l = ground (arith, IsPlain-exists (c ∷ s) h)

IsPlain-Solid : (c : ℕ) → IsPlain c → Solid c
IsPlain-Solid c h = omega arith

trim_prefix-IsPlain : (s : Bytes) → All IsPlain s → trim_prefix s (b'<' ∷ []) ≡ s
unfolding trim_prefix
trim_prefix-IsPlain [] h = refl
trim_prefix-IsPlain (c ∷ s) h = ground arith

has_prefix-IsPlain : (s : Bytes) → All IsPlain s → has_prefix s (b'>' ∷ []) ≡ false
unfolding has_prefix
has_prefix-IsPlain [] h = refl
has_prefix-IsPlain (c ∷ s) h = ground arith

trim_suffix-IsPlain : (s : Bytes) → All IsPlain s → trim_suffix s (b'>' ∷ []) ≡ s
unfolding trim_suffix has_suffix
trim_suffix-IsPlain s h = rw (has_prefix-IsPlain (reverse s) (All-reverse IsPlain s h))

trim_suffix-closed : (s : Bytes) → trim_suffix (s ++ b'>' ∷ []) (b'>' ∷ []) ≡ s
unfolding trim_suffix has_suffix has_prefix
trim_suffix-closed s =
    rw (reverse-append s (b'>' ∷ []), length-append s (b'>' ∷ []))
      (let e : length s + 1 - 1 ≡ length s = omega arith in rw e (take-append_length s _))

bare_id-IsPlain : (s : Bytes) → All IsPlain s → bare_id s ≡ s
unfolding bare_id
bare_id-IsPlain s h =
    rw (trim_space-All s (All-mono IsPlain Solid IsPlain-Solid s h), trim_prefix-IsPlain s h)
      (trim_suffix-IsPlain s h)

bare_id-closed : (s : Bytes) → bare_id (b'<' ∷ (s ++ b'>' ∷ [])) ≡ s
unfolding bare_id trim_prefix has_prefix
bare_id-closed s =
    rw (trim_space-Solid b'<' b'>' s (omega arith) (omega arith)) (trim_suffix-closed s)

-- An accepted message-id is a bracketed text of at most 250 bytes whose inside is not empty and
-- holds only printable ASCII without brackets or spaces, so neither CR nor LF.
pub normalize_message_id_sound :
    (id out : Bytes)
    → normalize_message_id id ≡ ok out
    → (s : Bytes) × (out ≡ b'<' ∷ (s ++ b'>' ∷ [])) × (s ≢ []) × All IsPlain s × (length out ≤ 250)
unfolding normalize_message_id
normalize_message_id_sound id out h =
    let (e, n, p, l) = check_id-ok (bare_id id) out h in
    let bound : length out ≤ 250 =
      omega (arith, ap length e, length-append (bare_id id) (b'>' ∷ [])) in
    (bare_id id, e, n, p, bound)

-- Every text of 1 to 248 such bytes is accepted, with its brackets or without them, and with the
-- same result.
pub normalize_message_id_complete :
    (s : Bytes)
    → s ≢ []
    → All IsPlain s
    → length s ≤ 248
    → (normalize_message_id s ≡ ok (b'<' ∷ (s ++ b'>' ∷ [])))
      × (normalize_message_id (b'<' ∷ (s ++ b'>' ∷ [])) ≡ ok (b'<' ∷ (s ++ b'>' ∷ [])))
unfolding normalize_message_id
normalize_message_id_complete s n p l = (
  rw (bare_id-IsPlain s p) (check_id-IsPlain s n p l),
  rw (bare_id-closed s) (check_id-IsPlain s n p l),
)

-- An accepted id is accepted again as it was returned, unchanged, so a stored id stays usable.
pub normalize_message_id_stable :
    (id out : Bytes) → normalize_message_id id ≡ ok out → normalize_message_id out ≡ ok out
normalize_message_id_stable id out h =
    let (s, e, n, p, l) = normalize_message_id_sound id out h in
    let short : length s ≤ 248 = omega (arith, ap length e, length-append s (b'>' ∷ [])) in
    rw e (normalize_message_id_complete s n p short).1
