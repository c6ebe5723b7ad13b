-- ===== src/Stats/CheckIns.antt =====
-- The check-ins by shift of stats/service.go: the map keeps the earliest one of each shift.
use opero.Prelude.{
  ℕ, false, ◌≡◌, ◌≤◌, ◌⊎◌, inl, inr, refl, sym, ap, subst, ◌∙◌, Option, none, some, List, [], ◌∷◌,
  arith, ltb, ◌==◌, ==_iff, if◌then◌else◌, All, Bool-cases,
}
use mathlib.Core.List.{Memᴰ}
use opero.Prelude.GoMap.{Index, lookup}
use opero.Attendance.Types.{Record}
use opero.Stats.Service.{set, set_if_earlier, keep_earliest, check_in_by_shift}

lookup-set :
    (s k v : ℕ) (m : Index ℕ) → lookup s (set k v m) ≡ (if k == s then some v else lookup s m)
unfolding lookup set
lookup-set s k v [] = refl
lookup-set s k v ((j, a) ∷ m) = ground (arith, lookup-set s k v m)

abbrev pub least : ℕ → Option ℕ → ℕ
least c none = c
least c (some e) = if ltb c e then c else e

set_if_earlier-here :
    (s c : ℕ) (m : Index ℕ) (o : Option ℕ)
    → lookup s m ≡ o
    → lookup s (set_if_earlier s c o m) ≡ some (least c o)
set_if_earlier-here s c m none h = ground (arith, lookup-set s s c m)
set_if_earlier-here s c m (some e) h = ground (arith, lookup-set s s c m, h)

set_if_earlier-other :
    (s k c : ℕ) (m : Index ℕ) (o : Option ℕ)
    → (k == s) ≡ false
    → lookup s (set_if_earlier k c o m) ≡ lookup s m
set_if_earlier-other s k c m none h = ground (arith, lookup-set s k c m, h)
set_if_earlier-other s k c m (some e) h = ground (arith, lookup-set s k c m, h)

-- A row with no check-in for the shift, and one with a check-in at `c`.
abbrev pub IsElsewhere : ℕ → Option ℕ → Option ℕ → Type 0
IsElsewhere s so co = (c : ℕ) → so ≡ some s → co ≡ some c → ⊥

keep_earliest-cases :
    (s : ℕ) (so co : Option ℕ) (m : Index ℕ)
    → (IsElsewhere s so co × (lookup s (keep_earliest so co m) ≡ lookup s m))
      ⊎ ((c : ℕ) × (so ≡ some s)
          × (co ≡ some c)
          × (lookup s (keep_earliest so co m) ≡ some (least c (lookup s m))))
keep_earliest-cases s none co m = inl (λ c h k. absurd (ground arith), refl)
keep_earliest-cases s (some j) none m = inl (λ c h k. absurd (ground arith), refl)
keep_earliest-cases s (some j) (some c) m = elim (Bool-cases (j == s)) [
  | inl hit ↦
      let e = (==_iff j s).0 hit in
      inr (
        c,
        ap some e,
        refl,
        subst (λ i. lookup s (set_if_earlier i c (lookup i m) m) ≡ some (least c (lookup s m)))
            (sym e) (set_if_earlier-here s c m (lookup s m) refl),
      )
  | inr miss ↦
      inl
        (λ d h k. absurd (ground (arith, h, miss)), set_if_earlier-other s j c m (lookup j m) miss)
]

least-le : (c : ℕ) (o : Option ℕ) → least c o ≤ c
least-le c none = omega arith
least-le c (some e) = ground arith

least-old : (c : ℕ) (o : Option ℕ) (e : ℕ) → o ≡ some e → least c o ≤ e
least-old c none e h = absurd (ground arith)
least-old c (some d) e h = ground (arith, h)

least-source : (c : ℕ) (o : Option ℕ) → (least c o ≡ c) ⊎ (o ≡ some (least c o))
least-source c none = inl refl
least-source c (some e) = elim (Bool-cases (ltb c e)) [
  | inl hit ↦ inl (ground (arith, hit))
  | inr miss ↦ inr (ground (arith, miss))
]

-- A record with a check-in for the shift at `c`, and one with none for it before `c`.
abbrev pub Recorded : ℕ → List Record → ℕ → Type 0
Recorded s rs c = (r : Record) × Memᴰ r rs × (r.shift_id ≡ some s) × (r.check_in_at ≡ some c)

abbrev pub NotBefore : ℕ → ℕ → Record → Type 0
NotBefore s c r = (d : ℕ) → r.shift_id ≡ some s → r.check_in_at ≡ some d → c ≤ d

module _ (s : ℕ) where
  -- What the loop makes of the entry `old` of the shift.
  abbrev Kept : List Record → Option ℕ → Option ℕ → Type 0
  Kept rs old o =
      (All (λ r. IsElsewhere s r.shift_id r.check_in_at) rs × (o ≡ old))
      ⊎ ((c : ℕ) × (o ≡ some c)
          × ((old ≡ some c) ⊎ Recorded s rs c)
          × All (NotBefore s c) rs
          × ((e : ℕ) → old ≡ some e → c ≤ e))

  elsewhere-NotBefore :
      (c : ℕ) (rs : List Record)
      → All (λ r. IsElsewhere s r.shift_id r.check_in_at) rs
      → All (NotBefore s c) rs
  elsewhere-NotBefore c [] h = tt
  elsewhere-NotBefore c (r ∷ rs) h = (λ d a b. absurd (h.0 d a b), elsewhere-NotBefore c rs h.1)

  skip-Kept :
      (x : Record) (xs : List Record) (old o : Option ℕ)
      → IsElsewhere s x.shift_id x.check_in_at
      → Kept xs old o
      → Kept (x ∷ xs) old o
  skip-Kept x xs old o e (inl (a, h)) = inl ((e, a), h)
  skip-Kept x xs old o e (inr (c, h, inl src, low, b)) =
      inr (c, h, inl src, (λ d p q. absurd (e d p q), low), b)
  skip-Kept x xs old o e (inr (c, h, inr (r, i, p, q), low, b)) =
      inr (c, h, inr (r, Memᴰ.tail i, p, q), (λ d k l. absurd (e d k l), low), b)

  module _ (x : Record) (xs : List Record) (old : Option ℕ) (c : ℕ) (here : x.shift_id ≡ some s)
      (at : x.check_in_at ≡ some c) where
    least-Recorded : (old ≡ some (least c old)) ⊎ Recorded s (x ∷ xs) (least c old)
    least-Recorded = elim (least-source c old) [
      | inl e ↦ inr (x, Memᴰ.head refl, here, at ∙ ap some (sym e))
      | inr e ↦ inl e
    ]

    same_time : (f : ℕ) → x.check_in_at ≡ some f → c ≡ f
    same_time f q = cc

    least-NotBefore : (d : ℕ) → d ≤ least c old → NotBefore s d x
    least-NotBefore d h f p q = omega (arith, h, least-le c old, same_time f q)

    least_is : (d : ℕ) → some (least c old) ≡ some d → least c old ≡ d
    least_is d e = cc

    take-Kept : (o : Option ℕ) → Kept xs (some (least c old)) o → Kept (x ∷ xs) old o
    take-Kept o (inl (a, h)) = inr (
      least c old,
      h,
      least-Recorded,
      (least-NotBefore (least c old) (omega arith), elsewhere-NotBefore _ xs a),
      least-old c old,
    )
    take-Kept o (inr (d, h, src, low, b)) = inr (
      d,
      h,
      elim src [
        | inl e ↦ subst (λ n. (old ≡ some n) ⊎ Recorded s (x ∷ xs) n) (least_is d e) least-Recorded
        | inr (r, i, p, q) ↦ inr (r, Memᴰ.tail i, p, q)
      ],
      (least-NotBefore d (b _ refl), low),
      λ e k. omega (arith, b _ refl, least-old c old e k),
    )

  loop-Kept :
      (rs : List Record) (m : Index ℕ) → Kept rs (lookup s m) (lookup s (check_in_by_shift rs m))
  unfolding check_in_by_shift
  loop-Kept [] m = inl (tt, refl)
  loop-Kept (x ∷ xs) m =
      let below = loop-Kept xs (keep_earliest x.shift_id x.check_in_at m) in
      elim (keep_earliest-cases s x.shift_id x.check_in_at m) [
        | inl (e, same) ↦
            skip-Kept x xs _ _ e
              (subst (λ o. Kept xs o (lookup s (check_in_by_shift (x ∷ xs) m))) same below)
        | inr (c, here, at, now) ↦
            take-Kept x xs _ c here at _
              (subst (λ o. Kept xs o (lookup s (check_in_by_shift (x ∷ xs) m))) now below)
      ]

-- The map of the check-ins has, of each shift, the earliest check-in of the records that are linked to
-- it, and no entry where none of them has a check-in.
pub check_in_by_shift-IsEarliest :
    (s : ℕ) (rs : List Record)
    → let found = lookup s (check_in_by_shift rs []) in
      (All (λ r. IsElsewhere s r.shift_id r.check_in_at) rs × (found ≡ none))
      ⊎ ((c : ℕ) × (found ≡ some c) × Recorded s rs c × All (NotBefore s c) rs)
unfolding lookup
check_in_by_shift-IsEarliest s rs = elim (loop-Kept s rs []) [
  | inl (a, h) ↦ inl (a, h)
  | inr (c, h, inl e, low, b) ↦ absurd (ground (arith, e))
  | inr (c, h, inr r, low, b) ↦ inr (c, h, r, low)
]
