-- ===== src/Http/Origins.antt =====
-- Which origins a browser may call the API from (middleware/cors.go).
use opero.Prelude.{
  ℕ, String, Bool, ◌≡◌, ◌↔◌, refl, sym, true, false, not, ◌&&◌, Option, none, some, List, [], ◌∷◌,
  arith, any_row, delete_rows, find_row, is_empty, str_eq, eq_iff, Bool-cases, inl, inr, ap, ◌∙◌,
}
use mathlib.Core.List.{Memᴰ}
use mathlib.Core.List.Memᴰ
use opero.Http.Exchange.{Request, Writer, Handler, set_header, add_header, get_header, write_status}
use opero.Http.Cors.{allowed, allow_origin, cors}

-- The header that names the origin which may read the response.
abbrev pub named : Writer → Option String
named w = get_header "Access-Control-Allow-Origin" w

allow_origin-names : (o : String) (w : Writer) → named (allow_origin o w) ≡ some o
unfolding allow_origin set_header add_header get_header find_row delete_rows
allow_origin-names o w = refl

write_status-named : (code : ℕ) (w : Writer) → named (write_status code w) ≡ named w
unfolding write_status get_header
write_status-named code w = ground arith

-- The map of the allowed origins holds exactly the texts of the list.
allowed-Mem : (origins : List String) (o : String) → allowed origins o ≡ true → Memᴰ o origins
unfolding allowed any_row
allowed-Mem [] o h = absurd (ground arith)
allowed-Mem (a ∷ rest) o h = elim (Bool-cases (str_eq a o)) [
  | inl hit ↦ Memᴰ.head (sym ((eq_iff a o).0 hit))
  | inr miss ↦ Memᴰ.tail (allowed-Mem rest o (ground (arith, h, miss)))
]

Mem-allowed : (origins : List String) (o : String) → Memᴰ o origins → allowed origins o ≡ true
unfolding allowed any_row
Mem-allowed [] o i = absurd (Memᴰ.not-nil i)
Mem-allowed (a ∷ rest) o (Memᴰ.head e) = ground (arith, (eq_iff a o).1 (sym e))
Mem-allowed (a ∷ rest) o (Memᴰ.tail i) = ground (arith, Mem-allowed rest o i)

-- The origin that the request gives is one of the list.
abbrev pub IsListed : List String → Request → Type 0
IsListed origins r = (is_empty r.origin ≡ false) × Memᴰ r.origin origins

module _ (origins : List String) (next : Handler) (r : Request) (w : Writer)
    (silent : (v : Writer) → named (next r v) ≡ named v) where
  abbrev listed : Bool
  listed = not (is_empty r.origin) && allowed origins r.origin

  listed-IsListed : listed ≡ true → IsListed origins r
  listed-IsListed h = (ground (arith, h), allowed-Mem origins r.origin (ground (arith, h)))

  IsListed-listed : IsListed origins r → listed ≡ true
  IsListed-listed (given, i) = ground (arith, given, Mem-allowed origins r.origin i)

  listed-named : listed ≡ true → named (cors origins next r w) ≡ some r.origin
  unfolding cors
  listed-named h = elim (Bool-cases (str_eq r.method "OPTIONS")) [
    | inl preflight ↦ rw (h, preflight) (write_status-named 204 _ ∙ allow_origin-names r.origin w)
    | inr plain ↦ rw (h, plain) (silent _ ∙ allow_origin-names r.origin w)
  ]

  unlisted-named : listed ≡ false → named (cors origins next r w) ≡ named w
  unfolding cors
  unlisted-named h = elim (Bool-cases (str_eq r.method "OPTIONS" && not (is_empty r.origin))) [
    | inl preflight ↦ rw (h, preflight) (write_status-named 403 w)
    | inr plain ↦ rw (h, plain) (silent w)
  ]

  named-IsListed :
      named w ≡ none
      → (o : String)
      → (named (cors origins next r w) ≡ some o) ↔ ((o ≡ r.origin) × IsListed origins r)
  named-IsListed blank o = (
    λ h. elim (Bool-cases listed) [
      | inl hit ↦ (same_text o (sym (listed-named hit) ∙ h), listed-IsListed hit)
      | inr miss ↦ absurd (none_some o (sym blank ∙ sym (unlisted-named miss) ∙ h))
    ],
    λ (e, l). listed-named (IsListed-listed l) ∙ ap some (sym e),
  )
    where
      same_text : (o : String) → some r.origin ≡ some o → o ≡ r.origin
      same_text o h = cc

      none_some : (o : String) → none ≡ some o → ⊥
      none_some o h = ground (arith, h)

  preflights :
      str_eq r.method "OPTIONS" ≡ true
      → is_empty r.origin ≡ false
      → (IsListed origins r → cors origins next r w ≡ write_status 204 (allow_origin r.origin w))
        × ((IsListed origins r → ⊥) → cors origins next r w ≡ write_status 403 w)
  unfolding cors
  preflights p given = (
    λ l. let h = IsListed-listed l in ground (arith, p, given, h),
    λ un. elim (Bool-cases listed) [
      | inl hit ↦ absurd (un (listed-IsListed hit))
      | inr miss ↦ ground (arith, p, given, miss)
    ],
  )

  passes :
      str_eq r.method "OPTIONS" ≡ false
      → (v : Writer) × (cors origins next r w ≡ next r v)
        × (v.status ≡ w.status)
        × (v.body ≡ w.body)
  unfolding cors allow_origin set_header add_header
  passes p = elim (Bool-cases listed) [
    | inl hit ↦ (allow_origin r.origin w, ground (arith, p, hit), refl, refl)
    | inr miss ↦ (w, ground (arith, p, miss), refl, refl)
  ]

-- Before a handler that names no origin itself, and with none named yet: the response names an
-- origin exactly if it is the one that the request gives and the list holds that very text. A
-- preflight that gives an origin is answered without the handler, 204 for an origin of the list and
-- 403 for any other. A request with another method always reaches the handler, with no status and
-- no body written before it.
pub cors-Confines :
    (origins : List String) (next : Handler) (r : Request) (w : Writer)
    → ((v : Writer) → named (next r v) ≡ named v)
    → named w ≡ none
    → let out = cors origins next r w in
      ((o : String) → (named out ≡ some o) ↔ ((o ≡ r.origin) × IsListed origins r))
      × (str_eq r.method "OPTIONS" ≡ true
          → is_empty r.origin ≡ false
          → (IsListed origins r → out ≡ write_status 204 (allow_origin r.origin w))
            × ((IsListed origins r → ⊥) → out ≡ write_status 403 w))
      × (str_eq r.method "OPTIONS" ≡ false
          → (v : Writer) × (out ≡ next r v) × (v.status ≡ w.status) × (v.body ≡ w.body))
cors-Confines origins next r w silent blank = (
  named-IsListed origins next r w silent blank,
  preflights origins next r w silent,
  passes origins next r w silent,
)
