-- ===== src/Server/Audit/Labels.antt =====
-- What a label of an audit event may hold (crates/quackgis-server/src/audit.rs).
use quackgis.Base.{ℕ, zero, suc, ◌≤◌, ◌≡◌, refl, true, List, [], ◌∷◌, map, arith, take, length, all}
use quackgis.Server.Audit.{is_label_char, label_char, or_empty_label, sanitize_label}

-- A label is not empty, has at most 128 characters, each of them harmless in a key-value line, and is
-- a label of itself.
pub record IsLabel (label : List ℕ) : Type 0 where
  pub bounded : length label ≤ 128
  pub nonempty : 1 ≤ length label
  pub harmless : all is_label_char label ≡ true
  pub stable : sanitize_label label ≡ label

mapped_bounded : (n : ℕ) (cs : List ℕ) → length (map label_char (take n cs)) ≤ n
mapped_bounded zero cs = omega arith
mapped_bounded (suc n) [] = omega arith
mapped_bounded (suc n) (c ∷ cs) = omega (arith, mapped_bounded n cs)

mapped_harmless : (n : ℕ) (cs : List ℕ) → all is_label_char (map label_char (take n cs)) ≡ true
mapped_harmless zero cs = refl
mapped_harmless (suc n) [] = refl
mapped_harmless (suc n) (c ∷ cs) = ground (arith, mapped_harmless n cs)

harmless_kept :
    (n : ℕ) (cs : List ℕ)
    → length cs ≤ n
    → all is_label_char cs ≡ true
    → map label_char (take n cs) ≡ cs
harmless_kept zero [] l h = refl
harmless_kept zero (c ∷ cs) l h = absurd (omega (arith, l))
harmless_kept (suc n) [] l h = refl
harmless_kept (suc n) (c ∷ cs) l h = ground (arith, harmless_kept n cs, l, h)

or_empty-IsLabel :
    (cs : List ℕ) → length cs ≤ 128 → all is_label_char cs ≡ true → IsLabel (or_empty_label cs)
unfolding sanitize_label
or_empty-IsLabel [] l h = record {
  bounded = omega arith;
  nonempty = omega arith;
  harmless = refl;
  stable = refl;
}
or_empty-IsLabel (c ∷ cs) l h = record {
  bounded = l;
  nonempty = omega arith;
  harmless = h;
  stable = rw (harmless_kept 128 (c ∷ cs) l h) refl;
}

-- Every value has a label: not empty, bounded, of harmless characters, and unchanged by a second
-- sanitizing.
pub sanitize_label-IsLabel : (value : List ℕ) → IsLabel (sanitize_label value)
sanitize_label-IsLabel value =
    unfold sanitize_label in
    or_empty-IsLabel (map label_char (take 128 value)) (mapped_bounded 128 value)
      (mapped_harmless 128 value)
