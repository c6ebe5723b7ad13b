-- ===== src/Controlplane/Names.antt =====
-- What a derived slug looks like, and that tenants do not share the name of a database.
use opero.Prelude.{
  ℕ, String, ◌≡◌, inl, inr, refl, Bool, true, false, ◌||◌, List, [], ◌∷◌, ◌++◌, map, arith, ◌==◌,
  trim_space, Bool-cases,
}
use opero.Controlplane.Slugs.{
  codes, is_word, to_lower, write_rest, write_first, is_nil, trim_end, trim_start, derive_slug,
  matches_from, validate_slug, underscore, db_name_from_slug,
}

-- What the loop writes, without hyphens at the end: words with single hyphens between them.
write_rest-Matches :
    (cs : List ℕ)
    → (matches_from true (trim_end (write_rest false cs)) ≡ true)
      × ((is_nil (trim_end (write_rest true cs))
            || matches_from false (trim_end (write_rest true cs)))
          ≡ true)
unfolding write_rest trim_end is_nil matches_from
write_rest-Matches [] = (refl, refl)
write_rest-Matches (c ∷ cs) =
    let h = write_rest-Matches cs in (ground (arith, h.0, h.1), ground (arith, h.0, h.1))

write_first-Matches :
    (cs : List ℕ)
    → (is_nil (trim_end (write_first cs)) || matches_from false (trim_end (write_first cs))) ≡ true
unfolding write_first trim_end is_nil matches_from
write_first-Matches [] = refl
write_first-Matches (c ∷ cs) = ground (arith, (write_rest-Matches cs).0, write_first-Matches cs)

-- A text that starts with no hyphen keeps its start.
trim_start-Matches : (s : List ℕ) → (is_nil s || matches_from false s) ≡ true → trim_start s ≡ s
unfolding trim_start is_nil matches_from is_word
trim_start-Matches [] h = refl
trim_start-Matches (c ∷ cs) h = ground arith

-- The slug derived of a name is empty, or words of small letters and digits with single hyphens between
-- them, as the pattern of valid slugs asks.
pub derive_slug-Matches :
    (name : String) → (is_nil (derive_slug name) || matches_from false (derive_slug name)) ≡ true
unfolding derive_slug
derive_slug-Matches name =
    let shaped = write_first-Matches (map to_lower (codes (trim_space name))) in
    rw (trim_start-Matches _ shaped) shaped

prefix_injective : (p s t : List ℕ) → p ++ s ≡ p ++ t → s ≡ t
prefix_injective [] s t h = h
prefix_injective (c ∷ p) s t h = prefix_injective p s t (ground arith)

after_first :
    (b : Bool) (c : ℕ) (s : List ℕ)
    → matches_from b (c ∷ s) ≡ true
    → ((is_word c || c == 45) ≡ true) × (matches_from (is_word c) s ≡ true)
unfolding matches_from
after_first b c s h = elim (Bool-cases (is_word c)) [
  | inl w ↦ (ground (arith, w), rw w (ground (arith, w)))
  | inr n ↦ (ground (arith, n), rw n (ground (arith, n)))
]

same_char :
    (c d : ℕ)
    → (is_word c || c == 45) ≡ true
    → (is_word d || d == 45) ≡ true
    → underscore c ≡ underscore d
    → c ≡ d
unfolding is_word underscore
same_char c d h k e = ground arith

-- The names of two matching rests tell them apart: neither has an underscore.
underscore-Matches :
    (b b' : Bool) (s t : List ℕ)
    → matches_from b s ≡ true
    → matches_from b' t ≡ true
    → map underscore s ≡ map underscore t
    → s ≡ t
unfolding matches_from is_word underscore
underscore-Matches b b' [] [] h k e = refl
underscore-Matches b b' [] (d ∷ t) h k e = absurd (ground arith)
underscore-Matches b b' (c ∷ s) [] h k e = absurd (ground arith)
underscore-Matches b b' (c ∷ s) (d ∷ t) h k e =
    let heads : underscore c ≡ underscore d = ground arith in
    let tails : map underscore s ≡ map underscore t = ground arith in
    let (first, rest) = after_first b c s h in
    let (first', rest') = after_first b' d t k in
    cc (
      same_char c d first first' heads,
      underscore-Matches (is_word c) (is_word d) s t rest rest' tails,
    )

-- Two valid slugs with the same database name are the same slug.
pub db_name_from_slug-IsInjective :
    (prefix s t : List ℕ)
    → validate_slug s ≡ true
    → validate_slug t ≡ true
    → db_name_from_slug prefix s ≡ db_name_from_slug prefix t
    → s ≡ t
unfolding validate_slug db_name_from_slug
db_name_from_slug-IsInjective prefix s t h k e =
    underscore-Matches false false s t (ground (arith, h)) (ground (arith, k))
      (prefix_injective prefix _ _ e)
