-- ===== src/Examples/Signup.antt =====
-- Runs of the theorems on signing up.
use opero.Prelude.{ℕ, ◌≤◌, String, ◌≡◌, refl, true, some, List, [], ◌∷◌, ◌⊎◌, arith, eq_refl}
use opero.Effects.{Result, ok, World, Turn, up, cut}
use opero.Effects.Runs.{calm, world}
use opero.Controlplane.Slugs.{codes, db_name_from_slug}
use opero.Controlplane.Types.{SignupInput, AuthResult, ControlDb}
use opero.Controlplane.Service
use opero.Controlplane.Signup
use opero.Controlplane.Signup.{slug_of}
use opero.Controlplane.Cleanup.{Unused}
use opero.Controlplane.Onboarding.{later, Refused, Joined, signup-LeavesNothing}
use opero.Controlplane.Steps.{Newcomer, admin, active_tenant, with_active}
use opero.Controlplane.SetUp.{newcomer}
use opero.Controlplane.FirstLogin.{with_token, signup-login}
use opero.Examples.Controlplane.{some_crypto, control}

abbrev newcomers : SignupInput
newcomers = record {
  company_name = "Hue Tours";
  slug = [];
  admin_full_name = "Mai";
  admin_email = " mai@hue.test";
  admin_password = "a password";
}

abbrev prefix : List ℕ
prefix = codes "opero_tenant_"

unused : Unused (db_name_from_slug prefix (slug_of newcomers)) 60 62 control
unfolding slug_of opero.Prelude.any_row opero.Controlplane.Slugs.same_text
    opero.Controlplane.Provision.identifier opero.Prelude.take_rows db_name_from_slug
    opero.Controlplane.Slugs.is_nil opero.Controlplane.Slugs.derive_slug opero.Prelude.trim_space
unused = record {
  no_database = refl;
  no_tenant = refl;
  no_member = refl;
  no_plan = refl;
  no_event = refl;
  no_user = refl;
}

-- The connection is cut when the admin is inserted.
signup-LeavesNothing_example :
    let r =
      Signup.signup some_crypto
        (λ name. true)
        prefix
        9
        newcomers
        (world control (
          calm up 5 60
          ∷ later some_crypto
              (λ name. true)
              prefix
              9
              newcomers
              control
              5
              60
              62
              unused
              up
              cut
              up
              up
              up
              6
              61
              7
              8
              63
              9
              64
              10
              65
              [])) in
    Refused some_crypto
      (λ name. true)
      prefix
      9
      newcomers
      control
      5
      60
      62
      unused
      up
      cut
      up
      up
      up
      6
      61
      7
      8
      63
      9
      64
      10
      65
      []
      r
    ⊎ Joined some_crypto
        (λ name. true)
        prefix
        9
        newcomers
        control
        5
        60
        62
        unused
        up
        cut
        up
        up
        up
        6
        61
        7
        8
        63
        9
        64
        10
        65
        []
        r
signup-LeavesNothing_example =
    signup-LeavesNothing some_crypto (λ name. true) prefix 9 newcomers control 5 60 62 unused up cut
      up up up 6 61 7 8 63 9 64 10 65 [] (ground arith)

abbrev start : World ControlDb
start =
    world control (
      calm up 5 60 ∷ calm up 6 61 ∷ calm up 7 62 ∷ calm up 8 63 ∷ calm up 9 64 ∷ calm up 10 65 ∷ [])

abbrev p : Newcomer
p =
    newcomer newcomers (db_name_from_slug prefix (slug_of newcomers)) (slug_of newcomers) 5 60 62
      "a password"

abbrev result : AuthResult
result = record { token = "token"; expires_at = 9; user = admin p 7; tenant = active_tenant p 8 }

abbrev left : World ControlDb
left = world (with_active p control 7 8) (calm up 9 64 ∷ calm up 10 65 ∷ [])

checks :
    (h q : String) → some_crypto.hash_password q ≡ some h → some_crypto.check_password h q ≡ true
checks h q e = let same : h ≡ q = ground arith in rw same (eq_refl q)

signed_up : Signup.signup some_crypto (λ name. true) prefix 9 newcomers start ≡ (ok result, left)
unfolding Signup.signup opero.Prelude.is_blank opero.Controlplane.Slugs.validate_slug
    opero.Controlplane.Slugs.is_nil opero.Controlplane.Slugs.derive_slug opero.Effects.◌>>=◌
    opero.Controlplane.Store.create_tenant opero.Effects.query
    opero.Controlplane.Queries.create_tenant opero.Prelude.any_row
    opero.Controlplane.Slugs.same_text db_name_from_slug opero.Effects.attempt
    opero.Controlplane.Provision.create opero.Prelude.take_rows opero.Controlplane.Store.create_user
    opero.Controlplane.Queries.create_user opero.Controlplane.Provision.create_database
    opero.Controlplane.Provision.created opero.Controlplane.Provision.identifier
    opero.Controlplane.Queries.set_tenant_status Service.issue Service.issued Signup.set_up slug_of
    opero.Controlplane.Slugs.write_rest opero.Controlplane.Store.map_err
    opero.Controlplane.Store.set_tenant_status opero.Effects.exec opero.Effects.pure
    opero.Effects.raise opero.Prelude.find_row opero.Prelude.update_rows opero.Prelude.trim_space
signed_up = refl

signup-login_example :
    (Service.login some_crypto 11
      (record {
        tenant_slug = result.tenant.slug;
        email = " mai@hue.test";
        password = "a password";
      })
      left).0
    ≡ ok (with_token "token" 11 result)
signup-login_example =
    signup-login some_crypto (λ name. true) prefix 9 11 newcomers control 5 60 62 6 61 7 8 63 9 64
      10 65 [] checks unused result left signed_up "token" 11 refl
