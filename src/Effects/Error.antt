-- ===== src/Effects/Error.antt =====
-- The sentinel errors of the packages, as `errors.Is` tells them apart: two packages' sentinels differ
-- though their texts agree. `internal` is any other error. Messages are not modelled.
use opero.Prelude.{Bool, true, false}

pub data Package : Type 0 where
  attendance leave roster identity tours controlplane : Package

pub data Err : Type 0 where
  validation not_found conflict in_use no_tenant : Package → Err
  invalid_credentials : Err
  internal : Err

unfoldable pub Err-discrete : Discrete Err
Err-discrete = hlevel

-- `errors.Is(err, sentinel)`.
abbrev pub errors_is : Err → Err → Bool
errors_is e s = elim (Err-discrete e s) [ yes p ↦ true | no p ↦ false ]
