-- ===== src/Examples/Platform.antt =====
-- Runs of the theorems on the platform operations.
use opero.Prelude.{
  ℕ, ◌≤◌, String, ◌≡◌, Option, none, some, List, [], ◌∷◌, ◌⊎◌, length, leb, suc, trim_space, false,
}
use opero.Prelude.Int.{pos}
use opero.Prelude.Sorting.{Ordered}
use opero.Effects.{ok, err, World, Turn, lost, quiet}
use opero.Effects.Error.{controlplane, validation}
use opero.Effects.Runs.{calm}
use opero.Effects.Atomic.{Whole}
use opero.Controlplane.Types.{ControlDb, SuperAdminAuditEvent}
use opero.Controlplane.Platform.Service
use opero.Controlplane.Platform.Audit.{TenantChanged, UserChanged, platform_updates-AreAudited}
use opero.Controlplane.Platform.Lists.{audit_list-IsBounded}
use opero.Examples.Controlplane.{control}

abbrev a_lost_turn : Turn ControlDb
a_lost_turn = calm lost 5 50

abbrev at_update : World ControlDb
at_update = record { pool = false; db = control; turns = a_lost_turn ∷ [] }

platform_updates-AreAudited_example :
    ((name status plan : Option String)
      → let r = Service.platform_update_tenant 2 4 name status plan at_update in
        (r ≡ (err (validation controlplane), at_update))
        ⊎ Whole control
            (TenantChanged 5 50 2 4
              (Service.clean_string_ptr name)
              (Service.clean_string_ptr status)
              (Service.clean_string_ptr plan)
              control)
            r)
    × ((status : String)
        → let r = Service.platform_update_user 2 4 status at_update in
          (r ≡ (err (validation controlplane), at_update))
          ⊎ Whole control (UserChanged 5 50 2 4 (trim_space status) control) r)
platform_updates-AreAudited_example = platform_updates-AreAudited 2 4 false control a_lost_turn []

audit_list-IsBounded_example :
    (found : List SuperAdminAuditEvent) × (Service.platform_list_audit_events none
        (some 2)
        none
        (pos 500)
        (record { pool = false; db = control; turns = quiet 5 50 ∷ [] })
      ≡ (ok found, record { pool = false; db = control; turns = [] }))
    × (length found ≤ 200)
    × ((n : ℕ) → pos 500 ≡ pos (suc n) → length found ≤ suc n)
    × Ordered (λ a b. leb b.created_at a.created_at) found
audit_list-IsBounded_example =
    audit_list-IsBounded control false 5 50 [] none (some 2) none (pos 500)
