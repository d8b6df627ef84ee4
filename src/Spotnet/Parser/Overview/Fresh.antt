-- ===== src/Spotnet/Parser/Overview/Fresh.antt =====
-- parser.go: what is true of every spot that `ParseFromOverview` returns.
use spottr.Base.{
  ℕ, ◌≤◌, ◌≡◌, refl, sym, ==_iff, ◌++◌, subst, ◌↔◌, Bool, true, false, List, [], ◌∷◌, ltb, ok,
  >>=-eq-ok, arith, inl, inr, Bool-cases, length, get_or,
}
use spottr.Text.{Bytes, to_lower, codes}
use spottr.Nntp.{ArticleInfo}
use spottr.Db.Kind.{kind_erotic}
use spottr.Db.KindSql.{kind_case, kind_case-kind_of}
use spottr.Db.Columns.{IsColumn, LetterA, LetterB, LetterC, LetterD}
use spottr.Db.Tables.{Spot}
use spottr.Spotnet.Crypto.{Crypto}
use spottr.Spotnet.Parser.SubCats.{parse_sub_cats}
use spottr.Spotnet.Parser.SubCats.Columns.{parse_sub_cats-IsSorted}
use spottr.Spotnet.Parser.PostDate.{resolve_posted_at, resolve_posted_at_lem, IsPlausible}
use spottr.Spotnet.Parser.Overview.{
  Header, head_field, first_field, address_of, parts_of, parse_header, spot_of, parse_from_overview,
}

-- A spot as it comes from an overview line, at the time `now`.
pub record IsFresh (now : ℕ) (ai : ArticleInfo) (s : Spot) : Type 0 where
  pub same_id : s.message_id ≡ ai.message_id
  pub same_number : s.article_num ≡ ai.article_num
  pub category_bound : s.category ≤ 3
  pub column_a : IsColumn LetterA s.sub_cat_a
  pub column_b : IsColumn LetterB s.sub_cat_b
  pub column_c : IsColumn LetterC s.sub_cat_c
  pub column_d : IsColumn LetterD s.sub_cat_d
  pub kind_by_sql : s.kind ≡ kind_case s.category s.sub_cat_a s.sub_cat_b s.sub_cat_d
  pub adult : (s.is_adult ≡ true) ↔ (s.kind ≡ kind_erotic)
  pub plausible : IsPlausible now s.posted_at
  pub shown : s.moderated ≡ false
  pub unowned : s.spotter_id ≡ []

resolved-IsPlausible :
    (now : ℕ) (stamp : Bytes) (date t : ℕ)
    → resolve_posted_at now stamp date ≡ ok t
    → IsPlausible now t
resolved-IsPlausible now stamp date t e = elim (resolve_posted_at_lem now stamp date) [
  | inl (e', p) ↦ subst (IsPlausible now) (ground arith) p
  | inr (inl (e', _, p)) ↦ subst (IsPlausible now) (ground arith) p
  | inr (inr (e', _, _)) ↦ absurd (ground arith)
]

spot_of-IsFresh :
    (c : Crypto) (now : ℕ) (ai : ArticleInfo) (h : Header) (t : ℕ)
    → h.category ≤ 3
    → IsPlausible now t
    → IsFresh now ai (spot_of c now ai h t)
unfolding spot_of
spot_of-IsFresh c now ai h t bound p =
    let subs = parse_sub_cats (to_lower h.sub_cats ++ codes "!!!") in
    let columns = parse_sub_cats-IsSorted (to_lower h.sub_cats ++ codes "!!!") in
    record {
      same_id = refl;
      same_number = refl;
      category_bound = bound;
      column_a = columns.column_a;
      column_b = columns.column_b;
      column_c = columns.column_c;
      column_d = columns.column_d;
      kind_by_sql = sym (
          kind_case-kind_of h.category subs.sub_a subs.sub_b subs.sub_d columns.column_a
            columns.column_b columns.column_d);
      adult = ==_iff _ _;
      plausible = p;
      shown = refl;
      unowned = refl;
    }

head_field-bound :
    (f : Bytes) (category key_id : ℕ) (rest : Bytes)
    → head_field f ≡ ok (category, key_id, rest)
    → category ≤ 3
unfolding head_field
head_field-bound [] category key_id rest h = absurd (cc)
head_field-bound (c ∷ []) category key_id rest h = absurd (cc)
head_field-bound (c ∷ k ∷ f) category key_id rest h = ground arith

first_field-bound : (fields : List Bytes) (t : ℕ × ℕ × Bytes) → first_field fields ≡ ok t → t.0 ≤ 3
unfolding first_field
first_field-bound fields t h = elim (Bool-cases (ltb (length fields) 6)) [
  | inl e ↦ absurd (ground arith)
  | inr e ↦ head_field-bound (get_or fields 0 []) t.0 t.1 t.2 (ground arith)
]

parse_header-bound : (from : Bytes) (h : Header) → parse_header from ≡ ok h → h.category ≤ 3
unfolding parse_header
parse_header-bound from h e =
    let (a, ea, e1) = >>=-eq-ok (address_of from) _ e in
    let (p, ep, e2) = >>=-eq-ok (parts_of a.1) _ e1 in
    let (t, et, e3) = >>=-eq-ok (first_field _) _ e2 in
    let bound = first_field-bound _ t et in ground arith

-- A spot that comes out of `ParseFromOverview` carries the article's own number and message-id, a
-- category from 0 to 3, columns of well-formed codes, the kind that the migration's SQL would give
-- it, the 18+ mark exactly for the erotic kind, and a date after 1999 and less than two days ahead;
-- it is neither hidden nor owned yet.
pub parse_from_overview-IsFresh :
    (c : Crypto) (now : ℕ) (ai : ArticleInfo) (s : Spot) (verified : Bool)
    → parse_from_overview c now ai ≡ ok (s, verified)
    → IsFresh now ai s
unfolding parse_from_overview
parse_from_overview-IsFresh c now ai s verified e =
    let (h, eh, e1) = >>=-eq-ok (parse_header ai.from) _ e in
    let (t, et, e2) = >>=-eq-ok (resolve_posted_at now (get_or h.fields 3 []) ai.date) _ e1 in
    let same : spot_of c now ai h t ≡ s = ground arith in
    subst (IsFresh now ai) same (
      spot_of-IsFresh c now ai h t (parse_header-bound ai.from h eh)
        (resolved-IsPlausible now _ ai.date t et))
