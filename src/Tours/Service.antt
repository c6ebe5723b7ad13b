-- ===== src/Tours/Service.antt =====
-- tours/service.go.
use opero.Prelude.{ℕ, String, Bool, not, List, holds_if_given, is_blank, if◌then◌else◌}
use opero.Effects.{raise, tenant_store, ◌>>◌}
use opero.Effects.Error.{tours, validation}
use opero.Tenant.{Call}
use opero.Tours.Types.{Tour, CreateInput, UpdateInput, Filter, valid_category}
use opero.Tours.Store

unfoldable pub create : (ℕ → Bool) → CreateInput → Call Tour
unfolding valid_category
create rated inp =
    if is_blank inp.name
    then raise (validation tours)
    else if not (valid_category inp.category)
    then raise (validation tours)
    else do tenant_store tours; Store.create rated inp

unfoldable pub get : ℕ → Call Tour
get i = do tenant_store tours; Store.get i

unfoldable pub list : (String → String → Bool) → Filter → Call (List Tour)
list collates f = do tenant_store tours; Store.list collates f

unfoldable pub update : (ℕ → Bool) → ℕ → UpdateInput → Call Tour
unfolding valid_category
update rated i inp =
    if not (holds_if_given (λ n. not (is_blank n)) inp.name)
    then raise (validation tours)
    else if not (holds_if_given valid_category inp.category)
    then raise (validation tours)
    else do tenant_store tours; Store.update rated i inp

unfoldable pub delete : ℕ → Call Unit
delete i = do tenant_store tours; Store.delete i
