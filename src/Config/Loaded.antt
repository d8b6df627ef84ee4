-- ===== src/Config/Loaded.antt =====
-- config.go: which environments `Load` accepts, and what a configuration then is.
use spottr.Base.{
  Option-cases, if◌then◌else◌, ◌≡◌, refl, ap, ◌∙◌, Bool, true, false, not, ◌&&◌, ◌||◌, Option, none,
  some, is_some, List, [], ◌∷◌, Bool-cases, inl, inr,
}
use spottr.Text.{to_lower, eqb, Bytes, codes, is_empty, split, trim_space}
use spottr.Text.Laws.{eqb_eq}
use spottr.Text.Numbers.{ℤ, pos}
use spottr.Db.Search.Run.{leb_int}
use spottr.Sync.Env.{Mode}
use spottr.Api.Login.{AuthMode, by_password, by_proxy, open_to_all}
use spottr.Config.{
  Libraries, Config, LoadResult, refused, loaded, Env, env_or, env_int, part_prefix, parse_parts,
  parse_cidrs, auth_mode_of, moderation_mode_of, lacks_password, with_auth, with_moderation, load,
  at_least_one, add_prefix,
}

or_false : (b : Bool) → b ≡ (b || false)
or_false true = refl
or_false false = refl

and_four :
    {a a' b b' c c' d d' : Bool}
    → a ≡ a'
    → b ≡ b'
    → c ≡ c'
    → d ≡ d'
    → (a && (b && (c && d))) ≡ (a' && (b' && (c' && d')))
and_four h k l m = cc (h, k, l, m)

abbrev pub is_loaded : {P : Type 0} → LoadResult P → Bool
is_loaded (refused why) = false
is_loaded (loaded c) = true

module _ (l : Libraries) where
  -- Each part is blank, a prefix or an address.
  abbrev pub parts_good : List Bytes → Bool
  parts_good [] = true
  parts_good (raw ∷ parts) =
      (is_empty (trim_space raw)
        || (is_some (l.parse_prefix (trim_space raw))
            || is_some (l.net.parse_addr (trim_space raw))))
      && parts_good parts

  abbrev pub proxies_good : Bytes → Bool
  proxies_good s = is_empty (trim_space s) || parts_good (split (trim_space s) b',')

  is_some-add_prefix :
      (p : Option l.net.Prefix) (rest : Option (List l.net.Prefix))
      → is_some (add_prefix l p rest) ≡ (is_some p && is_some rest)
  is_some-add_prefix none rest = refl
  is_some-add_prefix (some p) none = refl
  is_some-add_prefix (some p) (some ps) = refl

  is_some-part_prefix :
      (s : Bytes)
      → is_some (part_prefix l s) ≡ (is_some (l.parse_prefix s) || is_some (l.net.parse_addr s))
  is_some-part_prefix s = elim (Option-cases (l.parse_prefix s)) [
    | inr (p, e) ↦ rw (e, part_prefix) refl
    | inl e ↦ elim (Option-cases (l.net.parse_addr s)) [
      | inl e' ↦ rw (e, e', part_prefix) refl
      | inr (a, e') ↦ rw (e, e', part_prefix) refl
    ]
  ]

  parse_parts_good : (parts : List Bytes) → is_some (parse_parts l parts) ≡ parts_good parts
  unfolding parse_parts
  parse_parts_good [] = refl
  parse_parts_good (raw ∷ parts) = elim (Bool-cases (is_empty (trim_space raw))) [
    | inl e ↦ rw (e, parse_parts) (parse_parts_good parts)
    | inr e ↦
        rw (e, parse_parts)
          (is_some-add_prefix (part_prefix l (trim_space raw)) (parse_parts l parts)
            ∙ ap (λ b. is_some (part_prefix l (trim_space raw)) && b) (parse_parts_good parts)
            ∙ ap (λ b. b && parts_good parts) (is_some-part_prefix (trim_space raw)))
  ]

  parse_cidrs_good : (s : Bytes) → is_some (parse_cidrs l s) ≡ proxies_good s
  unfolding parse_cidrs
  parse_cidrs_good s = elim (Bool-cases (is_empty (trim_space s))) [
    | inl e ↦ rw (e, parse_cidrs) refl
    | inr e ↦ rw (e, parse_cidrs) (parse_parts_good (split (trim_space s) b','))
  ]

  -- A variable in lower case, with what stands for an empty one.
  abbrev pub lowered : Env → Bytes → Bytes → Bytes
  lowered env key def = to_lower (if is_empty (env key) then def else env key)

  -- AUTH_MODE is `password`, the value of an empty one, and APP_PASSWORD is not empty, or AUTH_MODE
  -- is `proxy` or `open`.
  abbrev pub auth_good : Env → Bool
  auth_good env =
      let mode = lowered env (codes "AUTH_MODE") (codes "password") in
      (eqb mode (codes "password") && not (is_empty (env (codes "APP_PASSWORD"))))
      || (eqb mode (codes "proxy") || eqb mode (codes "open"))

  -- MODERATION_MODE is `off`, the value of an empty one, `mark` or `delete`.
  abbrev pub moderation_good : Env → Bool
  moderation_good env =
      let mode = lowered env (codes "MODERATION_MODE") (codes "off") in
      eqb mode (codes "off") || (eqb mode (codes "mark") || eqb mode (codes "delete"))

  abbrev pub has_password : Env → Option AuthMode → Bool
  has_password env none = false
  has_password env (some a) = not (lacks_password l env a)

  with_auth_good :
      (env : Env) (a : Option AuthMode) (m : Option Mode) (ps : Option (List l.net.Prefix))
      → is_loaded (with_auth l env a m ps) ≡ (has_password env a && (is_some m && is_some ps))
  with_auth_good env none m ps = refl
  with_auth_good env (some a) m ps = elim (Bool-cases (lacks_password l env a)) [
    | inl e ↦ rw e refl
    | inr e ↦ rw e (rest m ps)
  ]
    where
      rest :
          (m : Option Mode) (ps : Option (List l.net.Prefix))
          → is_loaded (with_moderation l env a m ps) ≡ (is_some m && is_some ps)
      rest none ps = refl
      rest (some m) none = refl
      rest (some m) (some ps) = refl

  load_good :
      (env : Env)
      → is_loaded (load l env) ≡ (
          not (is_empty (env_or env (codes "NNTP_HOST") []))
          && (has_password env (auth_mode_of l env)
              && (is_some (moderation_mode_of l env)
                  && proxies_good (env_or env (codes "TRUSTED_PROXIES") []))))
  unfolding load
  load_good env = elim (Bool-cases (is_empty (env_or env (codes "NNTP_HOST") []))) [
    | inl e ↦ rw (e, load) refl
    | inr e ↦
        rw (e, load)
          (with_auth_good env (auth_mode_of l env) (moderation_mode_of l env)
              (parse_cidrs l (env_or env (codes "TRUSTED_PROXIES") []))
            ∙ ap
                (λ b.
                  has_password env (auth_mode_of l env)
                  && (is_some (moderation_mode_of l env) && b))
                (parse_cidrs_good (env_or env (codes "TRUSTED_PROXIES") [])))
  ]

  env_or-empty : (env : Env) (key : Bytes) → env_or env key [] ≡ env key
  env_or-empty env key = empty_lem (env key)
    where
      empty_lem : (s : Bytes) → (if is_empty s then [] else s) ≡ s
      empty_lem [] = refl
      empty_lem (c ∷ s) = refl

  auth_good_lem : (env : Env) → has_password env (auth_mode_of l env) ≡ auth_good env
  unfolding eqb
  auth_good_lem env =
      let mode = lowered env (codes "AUTH_MODE") (codes "password") in
      let given = env_or-empty env (codes "APP_PASSWORD") in
      elim (Bool-cases (eqb mode (codes "password"))) [
        | inl e ↦
            rw (e, given, eqb_eq mode (codes "password") e)
              (or_false (not (is_empty (env (codes "APP_PASSWORD")))))
        | inr e ↦ elim (Bool-cases (eqb mode (codes "proxy"))) [
          | inl e' ↦ rw (e, e') refl
          | inr e' ↦ elim (Bool-cases (eqb mode (codes "open"))) [
            | inl e'' ↦ rw (e, e', e'') refl
            | inr e'' ↦ rw (e, e', e'') refl
          ]
        ]
      ]

  moderation_good_lem : (env : Env) → is_some (moderation_mode_of l env) ≡ moderation_good env
  moderation_good_lem env =
      let mode = lowered env (codes "MODERATION_MODE") (codes "off") in
      elim (Bool-cases (eqb mode (codes "off"))) [
        | inl e ↦ rw e refl
        | inr e ↦ elim (Bool-cases (eqb mode (codes "mark"))) [
          | inl e' ↦ rw (e, e') refl
          | inr e' ↦ elim (Bool-cases (eqb mode (codes "delete"))) [
            | inl e'' ↦ rw (e, e', e'') refl
            | inr e'' ↦ rw (e, e', e'') refl
          ]
        ]
      ]

  -- The program starts exactly where NNTP_HOST is not empty, AUTH_MODE is `password`, `proxy` or
  -- `open` and MODERATION_MODE is `off`, `mark` or `delete`, both in any case and with the first of
  -- these for an empty one, APP_PASSWORD is not empty where AUTH_MODE is `password`, and each part
  -- of TRUSTED_PROXIES is blank, a prefix or an address.
  pub load_iff :
      (env : Env)
      → is_loaded (load l env) ≡ (
          not (is_empty (env (codes "NNTP_HOST")))
          && (auth_good env
              && (moderation_good env && proxies_good (env (codes "TRUSTED_PROXIES")))))
  load_iff env =
      load_good env
      ∙ and_four (ap (λ b. not (is_empty b)) (env_or-empty env (codes "NNTP_HOST")))
          (auth_good_lem env) (moderation_good_lem env)
          (ap proxies_good (env_or-empty env (codes "TRUSTED_PROXIES")))

  abbrev needs_password : AuthMode → Bool
  needs_password by_password = true
  needs_password by_proxy = false
  needs_password open_to_all = false

  -- What holds of a configuration that was loaded.
  abbrev pub Sound : Config l.net.Prefix → Type 0
  Sound c =
      (is_empty c.nntp_host ≡ false)
      × ((needs_password c.auth_mode && is_empty c.app_password) ≡ false)
      × (leb_int (pos 1) c.nntp_max_conns ≡ true)
      × (leb_int (pos 1) c.max_page_size ≡ true)

  abbrev pub SoundIn : LoadResult l.net.Prefix → Type 0
  SoundIn (refused why) = Unit
  SoundIn (loaded c) = Sound c

  at_least_one_lem : (n : ℤ) → leb_int (pos 1) (at_least_one n) ≡ true
  at_least_one_lem n = elim (Bool-cases (leb_int (pos 1) n)) [ inl e ↦ rw e e | inr e ↦ rw e refl ]

  lacks-needs :
      (env : Env) (a : AuthMode)
      → lacks_password l env a ≡ false
      → (needs_password a && is_empty (env_or env (codes "APP_PASSWORD") [])) ≡ false
  lacks-needs env by_password h = h
  lacks-needs env by_proxy h = refl
  lacks-needs env open_to_all h = refl

  with_auth-SoundIn :
      (env : Env) (a : Option AuthMode) (m : Option Mode) (ps : Option (List l.net.Prefix))
      → is_empty (env_or env (codes "NNTP_HOST") []) ≡ false
      → SoundIn (with_auth l env a m ps)
  with_auth-SoundIn env none m ps host = tt
  with_auth-SoundIn env (some a) m ps host = elim (Bool-cases (lacks_password l env a)) [
    | inl e ↦ rw e tt
    | inr e ↦ rw e (rest m ps e)
  ]
    where
      rest :
          (m : Option Mode) (ps : Option (List l.net.Prefix))
          → lacks_password l env a ≡ false
          → SoundIn (with_moderation l env a m ps)
      rest none ps e = tt
      rest (some m) none e = tt
      rest (some m) (some ps) e = (
        host,
        lacks-needs env a e,
        at_least_one_lem (env_int env (codes "NNTP_MAX_CONNS") (pos 4)),
        at_least_one_lem (env_int env (codes "MAX_PAGE_SIZE") (pos 200)),
      )

  -- A configuration that is loaded names a news server, has a password where AUTH_MODE asks for
  -- one, allows one connection at least and pages of one spot at least.
  pub load-SoundIn : (env : Env) → SoundIn (load l env)
  unfolding load
  load-SoundIn env = elim (Bool-cases (is_empty (env_or env (codes "NNTP_HOST") []))) [
    | inl e ↦ rw (e, load) tt
    | inr e ↦ rw (e, load) (with_auth-SoundIn env _ _ _ e)
  ]
