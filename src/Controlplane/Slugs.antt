-- ===== src/Controlplane/Slugs.antt =====
-- controlplane/types.go: DeriveSlug, validateSlug and dbNameFromSlug. A text is the list of its code
-- points, which are its bytes where it is ASCII.
use Prim.Native.Char.{code}
use opero.Prelude.{
  ℕ, ◌≡◌, refl, arith, ◌+◌, String, Bool, true, false, ◌&&◌, ◌||◌, List, [], ◌∷◌, ◌++◌, map, ◌==◌,
  leb, length, if◌then◌else◌, trim_space,
}

abbrev pub codes : String → List ℕ
codes String.[] = []
codes (String.◌∷◌ c s) = code c ∷ codes s

unfoldable pub same_text : List ℕ → List ℕ → Bool
same_text [] [] = true
same_text [] (d ∷ t) = false
same_text (c ∷ s) [] = false
same_text (c ∷ s) (d ∷ t) = c == d && same_text s t

pub same_text_refl : (s : List ℕ) → same_text s s ≡ true
unfolding same_text
same_text_refl [] = refl
same_text_refl (c ∷ s) = ground (arith, same_text_refl s)

-- `[a-z0-9]`
unfoldable pub is_word : ℕ → Bool
is_word c = leb 97 c && leb c 122 || leb 48 c && leb c 57

-- `unicode.ToLower`, up to the code points that are no ASCII before and after: they are all alike to
-- `DeriveSlug`. The Kelvin sign and the dotted capital I are the two others that it maps to ASCII.
unfoldable pub to_lower : ℕ → ℕ
to_lower c =
    if leb 65 c && leb c 90
    then c + 32
    else if c == 0x212a
    then 107
    else if c == 0x130
    then 105
    else c

-- The loop: what it still writes, once something is written, by whether it wrote a hyphen last.
unfoldable pub write_rest : Bool → List ℕ → List ℕ
unfolding is_word
write_rest hyphen [] = []
write_rest hyphen (c ∷ cs) =
    let word = write_rest false cs in
    let gap = write_rest true cs in if is_word c then c ∷ word else if hyphen then gap else 45 ∷ gap

-- The loop before anything is written.
unfoldable pub write_first : List ℕ → List ℕ
unfolding write_rest
write_first [] = []
write_first (c ∷ cs) =
    let later = write_first cs in if is_word c then c ∷ write_rest false cs else later

unfoldable pub is_nil : List ℕ → Bool
is_nil [] = true
is_nil (c ∷ cs) = false

-- `strings.Trim(s, "-")`.
unfoldable pub trim_end : List ℕ → List ℕ
unfolding is_nil
trim_end [] = []
trim_end (c ∷ cs) = let rest = trim_end cs in if c == 45 && is_nil rest then [] else c ∷ rest

unfoldable pub trim_start : List ℕ → List ℕ
trim_start [] = []
trim_start (c ∷ cs) = let rest = trim_start cs in if c == 45 then rest else c ∷ cs

unfoldable pub derive_slug : String → List ℕ
unfolding write_first trim_end trim_start to_lower
derive_slug name = trim_start (trim_end (write_first (map to_lower (codes (trim_space name)))))

-- `^[a-z0-9]+(?:-[a-z0-9]+)*$`: whether the rest matches, by whether a word is open.
unfoldable pub matches_from : Bool → List ℕ → Bool
unfolding is_word
matches_from open_word [] = open_word
matches_from open_word (c ∷ cs) =
    let word = matches_from true cs in
    let gap = matches_from false cs in if is_word c then word else c == 45 && open_word && gap

unfoldable pub validate_slug : List ℕ → Bool
unfolding matches_from
validate_slug slug = leb 2 (length slug) && leb (length slug) 63 && matches_from false slug

unfoldable pub underscore : ℕ → ℕ
underscore c = if c == 45 then 95 else c

unfoldable pub db_name_from_slug : List ℕ → List ℕ → List ℕ
unfolding underscore
db_name_from_slug prefix slug = prefix ++ map underscore slug
