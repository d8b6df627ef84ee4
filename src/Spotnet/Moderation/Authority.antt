-- ===== src/Spotnet/Moderation/Authority.antt =====
-- moderation.go: who may withdraw a spot, and when.
use spottr.Base.{
  ℕ, ◌+◌, ◌≤◌, ◌<◌, ◌≡◌, ◌≢◌, refl, ◌↔◌, ◌⊎◌, inl, inr, true, false, some, List, [], ◌∷◌, arith,
  length, Option-cases,
}
use spottr.Text.{Bytes, codes, is_empty}
use spottr.Text.Laws.{eqb_iff}
use spottr.Spotnet.Crypto.{Crypto}
use spottr.Spotnet.Signing.Textbook.{
  HeaderSigned, ProofOfWork, verify_header-HeaderSigned, verify_self_signed-HeaderSigned,
}
use spottr.Spotnet.Signing.{
  PublicKey, master_key, verify_header, verify_self_signed, has_valid_hashcash, spotter_id,
}
use spottr.Spotnet.Moderation.{
  ModerationCommand, dispose_max_age, looks_like_moderation_command, command_in, command_of,
  sign_check, parse_dispose, validate_dispose,
}

is_empty-false : (s : Bytes) → (is_empty s ≡ false) ↔ (s ≢ [])
is_empty-false [] = (λ e. absurd (cc), λ h. absurd (h refl))
is_empty-false (c ∷ s) = (λ _ e. absurd (cc), λ _. refl)

-- A withdrawal that anyone may have sent: signed by the network's moderator, or by the owner of
-- the spot within five days after it.
abbrev pub Authorised : ModerationCommand → Bytes → ℕ → Type 0
Authorised cmd owner posted =
    (cmd.verified ≡ true) × (cmd.moderator ≡ true)
    ⊎ (cmd.verified ≡ true)
      × (cmd.spotter ≢ [])
      × (owner ≡ cmd.spotter)
      × (posted ≤ cmd.stamp)
      × (cmd.stamp ≤ posted + dispose_max_age)

validate_dispose_sound :
    (cmd : ModerationCommand) (owner : Bytes) (posted : ℕ)
    → validate_dispose cmd owner posted ≡ true
    → Authorised cmd owner posted
unfolding validate_dispose
validate_dispose_sound cmd owner posted h =
    ground (arith, eqb_iff owner cmd.spotter, is_empty-false cmd.spotter)

validate_dispose_complete :
    (cmd : ModerationCommand) (owner : Bytes) (posted : ℕ)
    → Authorised cmd owner posted
    → validate_dispose cmd owner posted ≡ true
unfolding validate_dispose
validate_dispose_complete cmd owner posted h =
    ground (arith, eqb_iff owner cmd.spotter, is_empty-false cmd.spotter, is_empty-false owner)

-- `ValidateDispose` accepts exactly the withdrawals that are verified and either the moderator's,
-- or signed by the spot's known owner no earlier than the spot and at most five days after it.
pub validate_dispose_iff :
    (cmd : ModerationCommand) (owner : Bytes) (posted : ℕ)
    → (validate_dispose cmd owner posted ≡ true) ↔ Authorised cmd owner posted
validate_dispose_iff cmd owner posted =
    (validate_dispose_sound cmd owner posted, validate_dispose_complete cmd owner posted)

command_of-unsigned :
    (w t : Bytes) (cmd : ModerationCommand)
    → command_of w t ≡ some cmd
    → (cmd.verified ≡ false) × (cmd.moderator ≡ false)
unfolding command_of
command_of-unsigned w t cmd h = ground arith

command_in-unsigned :
    (ws : List Bytes) (cmd : ModerationCommand)
    → command_in ws ≡ some cmd
    → (cmd.verified ≡ false) × (cmd.moderator ≡ false)
unfolding command_in
command_in-unsigned [] cmd h = absurd (cc)
command_in-unsigned (w ∷ []) cmd h = absurd (cc)
command_in-unsigned (w ∷ t ∷ ws) cmd h = command_of-unsigned w t cmd h

looks_like-unsigned :
    (title : Bytes) (cmd : ModerationCommand)
    → looks_like_moderation_command title ≡ some cmd
    → (cmd.verified ≡ false) × (cmd.moderator ≡ false)
unfolding looks_like_moderation_command
looks_like-unsigned title cmd h = command_in-unsigned _ cmd h

module _ (c : Crypto) (title header poster signature self_signed_key message_id : Bytes) where
  -- The two ways in which an article proves a withdrawal: by the moderator's signature, where it
  -- carries no key of its own, or by the key that it carries, with the proof of work.
  abbrev pub Proved : ModerationCommand → Type 0
  Proved cmd =
      (cmd.moderator ≡ true)
        × (length self_signed_key ≤ 50)
        × ((key : PublicKey) × (master_key 2 ≡ some key)
            × HeaderSigned c key title header poster signature)
      ⊎ (cmd.moderator ≡ false)
        × (50 < length self_signed_key)
        × ProofOfWork c message_id
        × (cmd.spotter ≡ spotter_id c self_signed_key)
        × HeaderSigned c (record { modulus = self_signed_key; exponent = codes "AQAB" }) title
            header poster signature

  -- The same in the words of the program's own checks.
  abbrev Checked : ModerationCommand → Type 0
  Checked cmd =
      (cmd.moderator ≡ true)
        × (length self_signed_key ≤ 50)
        × (verify_header c title header poster signature 2 ≡ true)
      ⊎ (cmd.moderator ≡ false)
        × (50 < length self_signed_key)
        × (has_valid_hashcash c message_id ≡ true)
        × (cmd.spotter ≡ spotter_id c self_signed_key)
        × (verify_self_signed c title header poster signature self_signed_key message_id
            ≡ some cmd.spotter)

  verify_self_signed-some :
      (spotter : Bytes)
      → verify_self_signed c title header poster signature self_signed_key message_id ≡ some spotter
      → (has_valid_hashcash c message_id ≡ true) × (spotter ≡ spotter_id c self_signed_key)
  unfolding verify_self_signed
  verify_self_signed-some spotter h = ground arith

  Checked-Proved : (cmd : ModerationCommand) → Checked cmd → Proved cmd
  Checked-Proved cmd (inl (m, len, v)) =
      inl (m, len, verify_header-HeaderSigned c title header poster signature 2 v)
  Checked-Proved cmd (inr (m, len, work, own, v)) =
      let (proof, signed) =
        verify_self_signed-HeaderSigned c title header poster signature self_signed_key message_id
          cmd.spotter v in
      inr (m, len, proof, own, signed)

  sign_check-verified :
      (cmd : ModerationCommand) (key_id : ℕ)
      → (cmd.verified ≡ false) × (cmd.moderator ≡ false)
      → let signed =
          sign_check c cmd title header poster signature self_signed_key message_id key_id in
        (signed.stamp ≡ cmd.stamp)
        × (signed.target_id ≡ cmd.target_id)
        × (signed.verified ≡ true → (key_id ≡ 2) × Checked signed)
  unfolding sign_check
  sign_check-verified cmd key_id u =
      elim (Option-cases
        (verify_self_signed c title header poster signature self_signed_key message_id)) [
          | inl e ↦ (ground arith, ground arith, λ h. ground arith)
          | inr (spotter, e) ↦
              let facts = verify_self_signed-some spotter e in
              (ground arith, ground arith, λ h. ground arith)
        ]

  -- A recognised command that counts as verified carries the article's stamp and key id 2. It is
  -- either the moderator's, with no key in the article and a header signature under master key 2, or
  -- the command of the spotter whose key the article carries, which signed the header and whose
  -- message-id meets the proof of work; it is never the moderator's on such a key. That a key signed
  -- the header is the RSA equation between its numbers, those of the signature and the padded SHA-1
  -- digest of the title, the header up to its last dot and the poster. The proof of work is that the
  -- digest of the message-id in brackets begins with two zero bytes.
  pub parse_dispose-Proved :
      (key_id stamp : ℕ) (cmd : ModerationCommand)
      → parse_dispose c title header poster signature self_signed_key message_id key_id stamp
        ≡ some cmd
      → cmd.verified ≡ true
      → (cmd.stamp ≡ stamp) × (key_id ≡ 2) × Proved cmd
  unfolding parse_dispose
  parse_dispose-Proved key_id stamp cmd h v =
      elim (Option-cases (looks_like_moderation_command title)) [
        | inl e ↦ absurd (ground arith)
        | inr (found, e) ↦
            let u = looks_like-unsigned title found e in
            let facts = sign_check-verified (record found { stamp = stamp }) key_id u in
            let (at, two, checked) : (cmd.stamp ≡ stamp) × (key_id ≡ 2) × Checked cmd =
              ground arith in
            (at, two, Checked-Proved cmd checked)
      ]
