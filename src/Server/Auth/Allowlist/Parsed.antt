-- ===== src/Server/Auth/Allowlist/Parsed.antt =====
-- What a parsed allowlist holds (crates/quackgis-server/src/auth.rs).
use quackgis.Base.{
  ◌≡◌, refl, inl, inr, Bool, true, false, not, ◌&&◌, List, [], ◌∷◌, ok, arith, codes, any, all,
  is_control, nat_Eq, list_Eq, sort_by, all-sort_by, IsSorted, sort_by-IsSorted,
  list_less_asymmetric, >>=-eq-ok, reject-then, returned, Bool-cases, &&-true, list_beq_iff,
  follows_head, insert_sorted, List-cases, ◌∙◌,
}
use quackgis.Role.Model.{Name, name_eq, eq_ignore_ascii_case}
use quackgis.Role.Config.Names.{split_at}
use quackgis.Server.Text.{trim, trim_matches}
use quackgis.Server.Auth.{
  WriteTarget, is_blank, target_less, target_eq, starts_with_target, dedup, sorted_targets,
}
use quackgis.Server.Auth.Allowlist.{
  is_public_schema, is_quote, normalize_identifier_part, collect_parts, table_of_parts,
  parse_table_target, parse_entries, no_targets, parse_table_allowlist,
}

abbrev pub is_identifier : Name → Bool
is_identifier name = not (is_blank name) && not (any is_control name)

abbrev pub is_main_target : WriteTarget → Bool
is_main_target t = name_eq t.schema (codes "main") && is_identifier t.table

-- The targets are not empty, all in the schema main, with a name of no control characters, and each
-- comes strictly after the one before it.
abbrev pub comes_before : WriteTarget → List WriteTarget → Bool
comes_before t [] = true
comes_before t (x ∷ xs) = not (target_less x t) && not (target_eq x t)

abbrev pub IsStrict : List WriteTarget → Type 0
IsStrict [] = Unit {0}
IsStrict (t ∷ ts) = (comes_before t ts ≡ true) × IsStrict ts

pub record IsAllowlist (targets : List WriteTarget) : Type 0 where
  pub nonempty : no_targets targets ≡ false
  pub valid : all is_main_target targets ≡ true
  pub strict : IsStrict targets

normalize_identifier_part-eq-ok :
    (raw : Name) {part : Name} → normalize_identifier_part raw ≡ ok part → is_identifier part ≡ true
unfolding normalize_identifier_part
normalize_identifier_part-eq-ok raw h =
    let part = trim_matches is_quote (trim raw) in
    let (nonempty, h1) = reject-then (is_blank part) _ _ h in
    let (plain, h2) = reject-then (any is_control part) _ _ h1 in
    returned (λ p. is_identifier p ≡ true) part h2 (ground (arith, nonempty, plain))

collect_parts-eq-ok :
    (raws : List Name) {parts : List Name}
    → collect_parts raws ≡ ok parts
    → all is_identifier parts ≡ true
unfolding collect_parts
collect_parts-eq-ok [] h = returned (λ ps. all is_identifier ps ≡ true) [] h refl
collect_parts-eq-ok (raw ∷ raws) h =
    let (part, first, h1) = >>=-eq-ok (normalize_identifier_part raw) _ h in
    let (parts, later, h2) = >>=-eq-ok (collect_parts raws) _ h1 in
    returned (λ ps. all is_identifier ps ≡ true) (part ∷ parts) h2
      (ground (arith, normalize_identifier_part-eq-ok raw first, collect_parts-eq-ok raws later))

table_of_parts-eq-ok :
    (parts : List Name) {table : Name}
    → all is_identifier parts ≡ true
    → table_of_parts parts ≡ ok table
    → is_identifier table ≡ true
unfolding table_of_parts
table_of_parts-eq-ok [] v h = absurd (cc h)
table_of_parts-eq-ok (t ∷ []) v h = returned (λ p. is_identifier p ≡ true) t h (ground (arith, v))
table_of_parts-eq-ok (s ∷ t ∷ []) v h = elim (Bool-cases (is_public_schema s)) [
  | inl public ↦ returned (λ p. is_identifier p ≡ true) t (rw public at h) (ground (arith, v))
  | inr other ↦ absurd (cc (rw other at h))
]
table_of_parts-eq-ok (c ∷ s ∷ t ∷ []) v h =
    elim (Bool-cases (eq_ignore_ascii_case c (codes "quackgis") && is_public_schema s)) [
      | inl public ↦ returned (λ p. is_identifier p ≡ true) t (rw public at h) (ground (arith, v))
      | inr other ↦ absurd (cc (rw other at h))
    ]
table_of_parts-eq-ok (c ∷ s ∷ t ∷ u ∷ rest) v h = absurd (cc h)

parse_table_target-eq-ok :
    (raw : Name) {target : WriteTarget}
    → parse_table_target raw ≡ ok target
    → is_main_target target ≡ true
unfolding parse_table_target
parse_table_target-eq-ok raw h =
    let (parts, split, h1) = >>=-eq-ok (collect_parts (split_at b'.' raw)) _ h in
    let (table, named, h2) = >>=-eq-ok (table_of_parts parts) _ h1 in
    returned (λ t. is_main_target t ≡ true) (record { schema = codes "main"; table = table }) h2
      (ground
        (arith, table_of_parts-eq-ok parts (collect_parts-eq-ok (split_at b'.' raw) split) named))

parse_entries-eq-ok :
    (entries : List Name) {targets : List WriteTarget}
    → parse_entries entries ≡ ok targets
    → all is_main_target targets ≡ true
unfolding parse_entries
parse_entries-eq-ok [] h = returned (λ ts. all is_main_target ts ≡ true) [] h refl
parse_entries-eq-ok (entry ∷ entries) h =
    let (nonempty, h1) = reject-then (is_blank (trim entry)) _ _ h in
    let (target, first, h2) = >>=-eq-ok (parse_table_target (trim entry)) _ h1 in
    let (targets, later, h3) = >>=-eq-ok (parse_entries entries) _ h2 in
    returned (λ ts. all is_main_target ts ≡ true) (target ∷ targets) h3
      (ground
        (arith, parse_table_target-eq-ok (trim entry) first, parse_entries-eq-ok entries later))

target_less_asymmetric : (a b : WriteTarget) → target_less a b ≡ true → target_less b a ≡ false
target_less_asymmetric a b h = ground (
  arith,
  h,
  list_less_asymmetric a.schema b.schema,
  list_less_asymmetric b.schema a.schema,
  list_less_asymmetric a.table b.table,
)

all-dedup :
    (p : WriteTarget → Bool) (ts : List WriteTarget) → all p ts ≡ true → all p (dedup ts) ≡ true
all-dedup p [] h = refl
all-dedup p (t ∷ ts) h = ground (arith, all-dedup p ts)

target_eq→≡ : (a b : WriteTarget) → target_eq a b ≡ true → a ≡ b
target_eq→≡ a b h =
    let (s, t) = &&-true (name_eq a.schema b.schema) (name_eq a.table b.table) h in
    cc ((list_beq_iff a.schema b.schema).0 s, (list_beq_iff a.table b.table).0 t)

follows_head-dedup :
    (t : WriteTarget) (ts : List WriteTarget)
    → follows_head target_less t ts ≡ true
    → follows_head target_less t (dedup ts) ≡ true
follows_head-dedup t [] h = refl
follows_head-dedup t (x ∷ xs) h = elim (Bool-cases (starts_with_target (dedup xs) x)) [
  | inr other ↦ rw other h
  | inl same ↦ rw same (elim (List-cases (dedup xs)) [
    | inl p ↦ absurd (cc (rw p at same))
    | inr (y, ys, p) ↦ rw (p, target_eq→≡ y x (rw p at same)) h
  ])
]

strictly :
    (t : WriteTarget) (rest : List WriteTarget)
    → follows_head target_less t rest ≡ true
    → starts_with_target rest t ≡ false
    → comes_before t rest ≡ true
strictly t [] f o = refl
strictly t (x ∷ xs) f o = ground (arith, f, o)

dedup-IsStrict : (ts : List WriteTarget) → IsSorted target_less ts → IsStrict (dedup ts)
dedup-IsStrict [] s = tt
dedup-IsStrict (t ∷ ts) (f, s) = elim (Bool-cases (starts_with_target (dedup ts) t)) [
  | inl same ↦ rw same (dedup-IsStrict ts s)
  | inr other ↦
      rw other (strictly t (dedup ts) (follows_head-dedup t ts f) other, dedup-IsStrict ts s)
]

no_targets-insert_sorted :
    (t : WriteTarget) (ts : List WriteTarget) → no_targets (insert_sorted target_less t ts) ≡ false
no_targets-insert_sorted t [] = refl
no_targets-insert_sorted t (x ∷ xs) = ground arith

no_targets-dedup : (ts : List WriteTarget) → no_targets ts ≡ false → no_targets (dedup ts) ≡ false
no_targets-dedup [] h = absurd (cc h)
no_targets-dedup (t ∷ []) h = refl
no_targets-dedup (t ∷ x ∷ xs) h = ground (arith, no_targets-dedup (x ∷ xs))

no_targets-sorted : (ts : List WriteTarget) → no_targets (sorted_targets ts) ≡ no_targets ts
no_targets-sorted [] = refl
no_targets-sorted (t ∷ ts) =
    no_targets-dedup (sort_by target_less (t ∷ ts))
      (no_targets-insert_sorted t (sort_by target_less ts))

-- An allowlist that is parsed is not empty, names only tables of the schema main, with a name that is
-- not empty and has no control character, and lists them in strictly ascending order.
pub parse_table_allowlist-IsAllowlist :
    (raw : Name) {targets : List WriteTarget}
    → parse_table_allowlist raw ≡ ok targets
    → IsAllowlist targets
unfolding parse_table_allowlist
parse_table_allowlist-IsAllowlist raw h =
    let (targets, parsed, h1) = >>=-eq-ok (parse_entries (split_at b',' raw)) _ h in
    let (nonempty, h2) = reject-then (no_targets targets) _ _ h1 in
    returned IsAllowlist (sorted_targets targets) h2 (record {
      nonempty = no_targets-sorted targets ∙ nonempty;
      valid = all-dedup is_main_target (sort_by target_less targets) (
          rw (all-sort_by target_less is_main_target targets)
            (parse_entries-eq-ok (split_at b',' raw) parsed));
      strict =
          dedup-IsStrict (sort_by target_less targets)
            (sort_by-IsSorted target_less target_less_asymmetric targets);
    })
