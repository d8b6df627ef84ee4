-- ===== src/Db/Invariant.antt =====
-- What the store keeps true: message-ids are unique, a recorded withdrawal hides its spot, and the
-- kind column is the derived kind.
use spottr.Base.{
  ◌≡◌, refl, Bool, true, false, not, ◌&&◌, ◌||◌, List, [], ◌∷◌, ◌++◌, map, arith, All, All-keep,
  keep, exists,
}
use spottr.Text.{Bytes}
use spottr.Text.Laws.{eqb_comm, eqb_iff, eqb_refl}
use spottr.Db.Kind.{kind_of}
use spottr.Db.Tables.{Row, Withdrawn, has_id, in_ring, in_spots}

abbrev pub Distinct : List Row → Type 0
Distinct [] = Unit
Distinct (r ∷ rows) = (in_spots rows r.message_id ≡ false) × Distinct rows

-- A spot whose withdrawal is recorded is not shown.
abbrev pub Hidden : List Withdrawn → Row → Type 0
Hidden ring r = in_ring ring r.message_id ≡ true → r.moderated ≡ true

abbrev pub HasKind : Row → Type 0
HasKind r = r.kind ≡ kind_of r.category r.sub_cat_a r.sub_cat_b r.sub_cat_d

pub record IsKept (rows : List Row) (ring : List Withdrawn) : Type 0 where
  pub distinct : Distinct rows
  pub hidden : All (Hidden ring) rows
  pub kinds : All HasKind rows

pub in_spots-append :
    (rows more : List Row) (id : Bytes)
    → in_spots (rows ++ more) id ≡ (in_spots rows id || in_spots more id)
in_spots-append [] more id = refl
in_spots-append (r ∷ rows) more id = ground (arith, in_spots-append rows more id)

pub in_ring-append :
    (ring more : List Withdrawn) (id : Bytes)
    → in_ring (ring ++ more) id ≡ (in_ring ring id || in_ring more id)
in_ring-append [] more id = refl
in_ring-append (w ∷ ring) more id = ground (arith, in_ring-append ring more id)

pub Distinct-snoc :
    (rows : List Row) (r : Row)
    → Distinct rows
    → in_spots rows r.message_id ≡ false
    → Distinct (rows ++ r ∷ [])
Distinct-snoc [] r d h = (refl, tt)
Distinct-snoc (x ∷ rows) r d h = ground (
  arith,
  Distinct-snoc rows r d.1,
  in_spots-append rows (r ∷ []) x.message_id,
  eqb_comm r.message_id x.message_id,
)

pub in_spots-keep :
    (p : Row → Bool) (rows : List Row) (id : Bytes)
    → in_spots rows id ≡ false
    → in_spots (keep p rows) id ≡ false
in_spots-keep p [] id h = refl
in_spots-keep p (r ∷ rows) id h = ground (arith, in_spots-keep p rows id)

pub Distinct-keep : (p : Row → Bool) (rows : List Row) → Distinct rows → Distinct (keep p rows)
Distinct-keep p [] d = tt
Distinct-keep p (r ∷ rows) d =
    ground (arith, Distinct-keep p rows d.1, in_spots-keep p rows r.message_id d.0)

pub IsKept-keep :
    (p : Row → Bool) (rows : List Row) (ring : List Withdrawn)
    → IsKept rows ring
    → IsKept (keep p rows) ring
IsKept-keep p rows ring k = record {
  distinct = Distinct-keep p rows k.distinct;
  hidden = All-keep (Hidden ring) p rows k.hidden;
  kinds = All-keep HasKind p rows k.kinds;
}

-- A change of rows that leaves their ids alone.
module _ (f : Row → Row) (same : (r : Row) → (f r).message_id ≡ r.message_id) where
  pub in_spots-map : (rows : List Row) (id : Bytes) → in_spots (map f rows) id ≡ in_spots rows id
  in_spots-map [] id = refl
  in_spots-map (r ∷ rows) id = ground (arith, in_spots-map rows id, same r)

  pub Distinct-map : (rows : List Row) → Distinct rows → Distinct (map f rows)
  Distinct-map [] d = tt
  Distinct-map (r ∷ rows) d =
      (ground (arith, in_spots-map rows r.message_id, same r), Distinct-map rows d.1)

pub All-map {ℓ κ} :
    (P : Row → Type ℓ) (Q : Row → Type κ) (f : Row → Row)
    → ((r : Row) → P r → Q (f r))
    → (rows : List Row) → All P rows
    → All Q (map f rows)
All-map P Q f step [] h = tt
All-map P Q f step (r ∷ rows) (p, h) = (step r p, All-map P Q f step rows h)

pub in_ring-keep :
    (p : Withdrawn → Bool) (ring : List Withdrawn) (id : Bytes)
    → in_ring (keep p ring) id ≡ true
    → in_ring ring id ≡ true
in_ring-keep p [] id h = h
in_ring-keep p (w ∷ ring) id h = ground (arith, in_ring-keep p ring id)

pub in_ring_refl :
    (ring : List Withdrawn) (w : Withdrawn) → in_ring (ring ++ w ∷ []) w.message_id ≡ true
in_ring_refl ring w =
    ground (arith, in_ring-append ring (w ∷ []) w.message_id, eqb_refl w.message_id)

-- A row with this message-id is listed to users.
abbrev pub shown : List Row → Bytes → Bool
shown rows id = exists (λ (r : Row). has_id id r && not r.moderated) rows

-- A withdrawn message-id is shown by no row.
pub Hidden-shown :
    (ring : List Withdrawn) (rows : List Row) (id : Bytes)
    → All (Hidden ring) rows
    → in_ring ring id ≡ true
    → shown rows id ≡ false
Hidden-shown ring [] id h w = refl
Hidden-shown ring (r ∷ rows) id h w =
    ground (arith, Hidden-shown ring rows id h.1, eqb_iff r.message_id id)
