-- ===== src/Spotnet/Parser/PostDate.antt =====
-- parser.go: when a spot was posted. Times are in nanoseconds after 1970, and 0 stands for the
-- zero time and all times before 1970.
use spottr.Base.{
  ℕ, ◌+◌, ◌*◌, ◌<◌, ◌≡◌, refl, Bool, true, false, ◌&&◌, ltb, ◌==◌, if◌then◌else◌, Result, ok, err,
  bad_date, ◌⊎◌, arith, inl, inr, Bool-cases,
}
use spottr.Text.{Bytes, trim_space}
use spottr.Text.Numbers.{pos, negsuc, Parsed, parse_int}
use spottr.Db.Tables.{nanos}

-- `spotnetEpoch`, the first second of 2000
abbrev pub spotnet_epoch : ℕ
spotnet_epoch = 946684800 * nanos

abbrev pub max_clock_skew : ℕ
max_clock_skew = 48 * 3600 * nanos

-- `plausibleSpotTime`, at the time `now`
unfoldable pub plausible_spot_time : ℕ → ℕ → Bool
plausible_spot_time now t =
    if t == 0 then false else ltb spotnet_epoch t && ltb t (now + max_clock_skew)

-- The time of a stamp, 0 for one that is no positive number.
abbrev stamp_time : Parsed → ℕ
stamp_time p = if p.good then elim p.value [ pos n ↦ n * nanos | negsuc n ↦ 0 ] else 0

unfoldable pub read_stamp : Bytes → ℕ
read_stamp stamp = stamp_time (parse_int (trim_space stamp))

-- `resolvePostedAt`
unfoldable pub resolve_posted_at : ℕ → Bytes → ℕ → Result ℕ
unfolding plausible_spot_time read_stamp
resolve_posted_at now stamp header_date =
    if plausible_spot_time now (read_stamp stamp)
    then ok (read_stamp stamp)
    else if plausible_spot_time now header_date
    then ok header_date
    else err bad_date

abbrev pub IsPlausible : ℕ → ℕ → Type 0
IsPlausible now t = (spotnet_epoch < t) × (t < now + max_clock_skew)

IsPlausible-iff : (now t : ℕ) → plausible_spot_time now t ≡ true → IsPlausible now t
unfolding plausible_spot_time
IsPlausible-iff now t h = ground arith

implausible : (now t : ℕ) → plausible_spot_time now t ≡ false → ¬ IsPlausible now t
unfolding plausible_spot_time
implausible now t h p = ground arith

-- A resolved date lies after the start of 2000 and less than two days after now, and it is the
-- signed stamp whenever that is such a date, else the Date header; without either there is no date.
pub resolve_posted_at_lem :
    (now : ℕ) (stamp : Bytes) (header_date : ℕ)
    → (resolve_posted_at now stamp header_date ≡ ok (read_stamp stamp))
        × IsPlausible now (read_stamp stamp)
      ⊎ (resolve_posted_at now stamp header_date ≡ ok header_date)
        × ¬ IsPlausible now (read_stamp stamp)
        × IsPlausible now header_date
      ⊎ (resolve_posted_at now stamp header_date ≡ err bad_date)
        × ¬ IsPlausible now (read_stamp stamp)
        × ¬ IsPlausible now header_date
unfolding resolve_posted_at
resolve_posted_at_lem now stamp header_date =
    let t = read_stamp stamp in
    elim (Bool-cases (plausible_spot_time now t)) [
      | inl e ↦ rw (e, resolve_posted_at) (inl (refl, IsPlausible-iff now t e))
      | inr e ↦ elim (Bool-cases (plausible_spot_time now header_date)) [
        | inl e' ↦
            rw (e, e', resolve_posted_at)
              (inr (inl (refl, implausible now t e, IsPlausible-iff now header_date e')))
        | inr e' ↦
            rw (e, e', resolve_posted_at)
              (inr (inr (refl, implausible now t e, implausible now header_date e')))
      ]
    ]
