-- ===== src/Http/Roles.antt =====
-- What the role gate of middleware/authz.go decides.
use opero.Prelude.{
  ℕ, String, ◌≡◌, refl, ◌∙◌, ap, true, false, not, ◌&&◌, List, [], ◌∷◌, arith, ltb, leb, any_row,
  All, if◌then◌else◌,
}
use opero.Http.Authz.{role_rank, highest, role_satisfies}

highest-bound :
    (n m : ℕ) (rs : List String)
    → leb (highest n rs) m ≡ leb n m && not (any_row (λ r. ltb m (role_rank r)) rs)
unfolding highest any_row
highest-bound n m [] = ground arith
highest-bound n m (r ∷ rs) =
    ground (arith, highest-bound (if ltb n (role_rank r) then role_rank r else n) m rs)

-- A role is refused exactly if one of the scopes has a higher rank than it.
pub role_satisfies-IsEach :
    (actual : String) (required : List String)
    → role_satisfies actual required
      ≡ not (any_row (λ r. ltb (role_rank actual) (role_rank r)) required)
unfolding role_satisfies any_row
role_satisfies-IsEach actual [] = refl
role_satisfies-IsEach actual (r ∷ rs) = ground (arith, highest-bound 0 (role_rank actual) (r ∷ rs))

none_higher :
    (actual : String) (rs : List String)
    → All (λ r. role_rank r ≡ 0) rs
    → any_row (λ r. ltb (role_rank actual) (role_rank r)) rs ≡ false
unfolding any_row
none_higher actual [] h = refl
none_higher actual (r ∷ rs) h = ground (arith, h.0, none_higher actual rs h.1)

-- Scopes that are all unknown roles bar nobody: any role passes them, the empty one as well.
pub unknown-IsOpen :
    (actual : String) (required : List String)
    → All (λ r. role_rank r ≡ 0) required
    → role_satisfies actual required ≡ true
unknown-IsOpen actual required h =
    role_satisfies-IsEach actual required ∙ ap not (none_higher actual required h)
