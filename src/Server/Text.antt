-- ===== src/Server/Text.antt =====
-- Operations of `str` that the server uses on names (crates/quackgis-server/src/auth.rs).
use quackgis.Base.{ℕ, Bool, ◌&&◌, ◌||◌, List, [], ◌∷◌, leb, ◌==◌, if◌then◌else◌}

-- `char::is_whitespace`
abbrev pub is_whitespace : ℕ → Bool
is_whitespace c =
    (leb 9 c && leb c 13)
    || (c == 32
        || (c == 0x85
            || (c == 0xa0
                || (c == 0x1680
                    || ((leb 0x2000 c && leb c 0x200a)
                        || (c == 0x2028
                            || (c == 0x2029 || (c == 0x202f || (c == 0x205f || c == 0x3000)))))))))

abbrev pub trim_start_matches : (ℕ → Bool) → List ℕ → List ℕ
trim_start_matches p [] = []
trim_start_matches p (c ∷ cs) = let rest = trim_start_matches p cs in if p c then rest else c ∷ cs

abbrev pub reverse_onto {ℓ} : {A : Type ℓ} → List A → List A → List A
reverse_onto acc [] = acc
reverse_onto acc (x ∷ xs) = reverse_onto (x ∷ acc) xs

abbrev pub reverse {ℓ} : {A : Type ℓ} → List A → List A
reverse xs = reverse_onto [] xs

-- `str::trim_matches`
abbrev pub trim_matches : (ℕ → Bool) → List ℕ → List ℕ
trim_matches p cs = reverse (trim_start_matches p (reverse (trim_start_matches p cs)))

-- `str::trim`
abbrev pub trim : List ℕ → List ℕ
trim = trim_matches is_whitespace
