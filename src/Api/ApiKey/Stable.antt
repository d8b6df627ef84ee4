-- ===== src/Api/ApiKey/Stable.antt =====
-- apikey.go: the key that a start has found is the key of every later start.
use spottr.Base.{
  ◌⊎◌, ℕ, ◌+◌, ◌≡◌, refl, ap, subst, sym, Bool, true, false, Option, none, some, List, [], ◌∷◌,
  Result, ok, err, Bool-cases, inl, inr, arith, length, Option-cases,
}
use spottr.Text.{Bytes, is_empty}
use spottr.Text.Laws.{eqb_refl}
use spottr.Auth.{find}
use spottr.Db.Tables.{head_fault}
use spottr.Api.ApiKey.{
  AppSettings, Entropy, setting_api_key, queried, or_empty, setting, set_setting, random_hex,
  new_key, key_from, resolve_api_key,
}

-- The key is the environment's, or it is the one that is stored.
abbrev Holds : Bytes → Bytes → AppSettings → Type 0
Holds env_key key s =
    (is_empty env_key ≡ false × (key ≡ env_key))
    ⊎ ((is_empty env_key ≡ true)
        × (or_empty (find setting_api_key s.entries) ≡ key)
        × (is_empty key ≡ false))

abbrev Kept : Bytes → Result (Bytes × Bool) × AppSettings → Type 0
Kept env_key (err e, s) = Unit
Kept env_key (ok (key, new), s) = Holds env_key key s

not_empty : (s : Bytes) (n : ℕ) → length s ≡ 16 + n → is_empty s ≡ false
not_empty [] n h = absurd (omega (arith, h))
not_empty (c ∷ s) n h = refl

new_key-Kept :
    (env_key : Bytes) (o : Option Bytes) (s : AppSettings)
    → is_empty env_key ≡ true
    → ((key : Bytes) → o ≡ some key → is_empty key ≡ false)
    → Kept env_key (new_key o s)
unfolding set_setting
new_key-Kept env_key none s e h = tt
new_key-Kept env_key (some key) s e h = elim (Bool-cases (head_fault s.faults)) [
  | inl f ↦ rw (f, new_key) tt
  | inr f ↦ rw (f, new_key) (inr (e, rw (eqb_refl setting_api_key) refl, h key refl))
]

random_hex-full : (r : Entropy) (key : Bytes) → random_hex r 16 ≡ some key → is_empty key ≡ false
random_hex-full r key h = elim (Option-cases (r.read 16)) [
  | inl e ↦ absurd (cc (rw (e, random_hex) at h))
  | inr (b, e) ↦
      let same : r.hex b ≡ key = cc (rw (e, random_hex) at h) in
      not_empty key 16 (omega (arith, ap length same, r.length-hex b, r.length-read 16 b e))
]

key_from-Kept :
    (env_key : Bytes) (r : Entropy) (s : AppSettings) (stored : Result Bytes)
    → is_empty env_key ≡ true
    → ((v : Bytes) → stored ≡ ok v → or_empty (find setting_api_key s.entries) ≡ v)
    → Kept env_key (key_from r s stored)
key_from-Kept env_key r s (err e) e' h = tt
key_from-Kept env_key r s (ok v) e h = elim (Bool-cases (is_empty v)) [
  | inl k ↦ rw (k, key_from) (new_key-Kept env_key (random_hex r 16) s e (random_hex-full r))
  | inr k ↦ rw (k, key_from) (inr (e, h v refl, k))
]

setting-found :
    (key v : Bytes) (s : AppSettings) → setting key s ≡ ok v → or_empty (find key s.entries) ≡ v
unfolding setting
setting-found key v s h = elim (Bool-cases (head_fault s.faults)) [
  | inl f ↦ absurd (cc (rw f at h))
  | inr f ↦ cc (rw f at h)
]

resolve_api_key-Kept :
    (env_key : Bytes) (r : Entropy) (s : AppSettings) → Kept env_key (resolve_api_key env_key r s)
unfolding resolve_api_key
resolve_api_key-Kept env_key r s = elim (Bool-cases (is_empty env_key)) [
  | inr e ↦ rw (e, resolve_api_key) (inl (e, refl))
  | inl e ↦
      rw (e, resolve_api_key)
        (key_from-Kept env_key r (queried s) (setting setting_api_key s) e
          (λ v. setting-found setting_api_key v s))
]

-- A start that finds or makes a key fixes it: where its first statement does not fail, every later
-- start on the settings that it leaves, with the same environment, finds that key and makes none,
-- whatever its source of randomness would give.
pub resolve_api_key_again :
    (env_key : Bytes) (r r' : Entropy) (s s' : AppSettings) (key : Bytes) (new : Bool)
    (faults : List Bool)
    → resolve_api_key env_key r s ≡ (ok (key, new), s')
    → head_fault faults ≡ false
    → (resolve_api_key env_key r' (record s' { faults = faults })).0 ≡ ok (key, false)
unfolding resolve_api_key setting
resolve_api_key_again env_key r r' s s' key new faults h f =
    elim (subst (Kept env_key) h (resolve_api_key-Kept env_key r s)) [
      | inl (e, same) ↦ rw (e, resolve_api_key) (ap (λ k. ok (k, false)) (sym same))
      | inr (e, found, full) ↦ rw (e, f, found, full, resolve_api_key, setting, key_from) refl
    ]
