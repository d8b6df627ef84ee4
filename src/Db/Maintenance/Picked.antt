-- ===== src/Db/Maintenance/Picked.antt =====
-- maintenance.go: which spots a round of the retention sweep deletes.
use spottr.Base.{
  All-both, ℕ, ◌≤◌, ◌<◌, ◌+◌, ◌≡◌, refl, sym, ap, ◌∙◌, Bool, true, false, not, ◌&&◌, List, All,
  All-mono, arith, Bool-cases, inl, inr, ==_refl, ◌==◌, length, keep, exists, count, count_split,
  count-keep, keep-keep, keep-same, exists-count, count-exists, exists-take, take-whole,
  count-take-le, count_whole, exists-All, count-All, length-take-less,
}
use spottr.Db.Tables.{Row}
use spottr.Db.Maintenance.{Visiting, retention_chunk, is_old, picked, is_picked}

abbrev same_id : Row → Row → Bool
same_id x r = x.id == r.id

-- What a PRIMARY KEY says of the ids.
abbrev pub UniqueIds : List Row → Type 0
UniqueIds rows = (k : ℕ) → count (λ (x : Row). x.id == k) rows ≤ 1

pub keep-UniqueIds : (p : Row → Bool) (rows : List Row) → UniqueIds rows → UniqueIds (keep p rows)
keep-UniqueIds p rows u k =
    let fewer = count_split (λ (x : Row). x.id == k) p rows in
    omega (arith, count-keep (λ (x : Row). x.id == k) p rows, fewer, u k)

both_ways : (a b : Bool) → (a ≡ true → b ≡ true) → (b ≡ true → a ≡ true) → a ≡ b
both_ways true b f g = sym (f refl)
both_ways false true f g = g refl
both_ways false false f g = refl

contrary : (a b : Bool) → (a ≡ true → b ≡ true) → not b ≡ true → not a ≡ true
contrary true b f h = ground (arith, f refl, h)
contrary false b f h = refl

within : (a b : Bool) → (a ≡ true → b ≡ true) → (b && a) ≡ a
within true b f = rw (f refl) refl
within false b f = ground arith

module _ (order : Visiting Row) (cutoff : ℕ) (rows : List Row) where
  abbrev chosen : List Row
  chosen = picked order cutoff rows

  abbrev old : Row → Bool
  old = is_old cutoff

  -- A row that shares its id with a chosen one is old.
  chosen-old : UniqueIds rows → All (λ r. is_picked chosen r ≡ true → old r ≡ true) rows
  unfolding picked
  chosen-old u =
      All-mono _ _ by_count rows (count-All same_id (λ x. not (old x)) rows (λ x. ==_refl x.id))
    where
      by_count :
          (r : Row)
          → (not (old r) ≡ true → 0 < count (λ y. same_id y r && not (old y)) rows)
          → is_picked chosen r ≡ true
          → old r ≡ true
      by_count r young e =
          let p = λ (x : Row). x.id == r.id in
          let seen = exists-take p retention_chunk (keep old (order.visit rows)) e in
          let some_old = exists-count p (keep old (order.visit rows)) seen in
          let moved = count-keep p old (order.visit rows) in
          let there = order.visit-count (λ (x : Row). (x.id == r.id) && old x) rows in
          let parts = count_split p old rows in
          elim (Bool-cases (old r)) [
            | inl is ↦ is
            | inr is ↦
                absurd (omega (arith, u r.id, some_old, moved, there, parts, young (ap not is)))
          ]

  -- Where fewer rows are old than a round takes, it takes all of them.
  chosen_whole :
      count old rows ≤ retention_chunk → All (λ r. old r ≡ true → is_picked chosen r ≡ true) rows
  unfolding picked
  chosen_whole few = All-mono _ _ by_count rows (count-All same_id old rows (λ x. ==_refl x.id))
    where
      whole : chosen ≡ keep old (order.visit rows)
      whole =
          take-whole retention_chunk (keep old (order.visit rows))
            (omega (arith, order.visit-count old rows, few))

      by_count :
          (r : Row)
          → (old r ≡ true → 0 < count (λ y. same_id y r && old y) rows)
          → old r ≡ true
          → is_picked chosen r ≡ true
      by_count r own e =
          let p = λ (x : Row). x.id == r.id in
          let moved = count-keep p old (order.visit rows) in
          let there = order.visit-count (λ (x : Row). (x.id == r.id) && old x) rows in
          ap (λ xs. exists p xs) whole
          ∙ count-exists p (keep old (order.visit rows)) (omega (arith, own e, moved, there))

  -- A round deletes at least as many rows as it chose.
  chosen-le : length chosen ≤ count (is_picked chosen) rows
  unfolding picked
  chosen-le =
      let gone = is_picked chosen in
      let from_all = order.visit-count gone rows in
      let olds = keep old (order.visit rows) in
      let own = count_whole gone chosen (exists-All same_id chosen (λ x. ==_refl x.id)) in
      let part = count-take-le gone retention_chunk olds in
      let moved = count-keep gone old (order.visit rows) in
      let split = count_split gone old (order.visit rows) in
      omega (arith, from_all, own, part, moved, split)

  -- A round with fewer deletions than a full one has deleted all that is old.
  pub last_round :
      UniqueIds rows
      → count (is_picked chosen) rows < retention_chunk
      → keep (λ r. not (is_picked chosen r)) rows ≡ keep (λ r. not (old r)) rows
  unfolding picked
  last_round u few =
      let olds = keep old (order.visit rows) in
      let size : length chosen < retention_chunk = omega (arith, chosen-le, few) in
      let all_old = length-take-less retention_chunk olds size in
      let enough : count old rows ≤ retention_chunk =
        omega (arith, all_old, size, order.visit-count old rows) in
      keep-same (λ r. not (is_picked chosen r)) (λ r. not (old r)) rows
        (All-both _ _ _ (λ r f g. ap not (both_ways (is_picked chosen r) (old r) f g)) rows
          (chosen-old u) (chosen_whole enough))

  -- A round deletes old rows alone.
  pub round-young :
      UniqueIds rows
      → keep (λ r. not (old r)) (keep (λ r. not (is_picked chosen r)) rows)
        ≡ keep (λ r. not (old r)) rows
  round-young u =
      keep-keep (λ r. not (old r)) (λ r. not (is_picked chosen r)) rows
        (All-mono _ _ (λ r f. contrary (is_picked chosen r) (old r) f) rows (chosen-old u))

  pub round-count :
      UniqueIds rows
      → count old rows
        ≡ count (is_picked chosen) rows + count old (keep (λ r. not (is_picked chosen r)) rows)
  round-count u =
      let gone = is_picked chosen in
      let split = count_split old gone rows in
      let left = count-keep old (λ r. not (gone r)) rows in
      let same =
        keep-same (λ r. old r && gone r) gone rows
          (All-mono _ _ (λ r f. within (gone r) (old r) f) rows (chosen-old u)) in
      omega (arith, split, left, ap length same)
