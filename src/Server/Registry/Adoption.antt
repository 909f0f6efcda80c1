-- ===== src/Server/Registry/Adoption.antt =====
-- A process that is registered again: it is found, and adopted in place.
use mathlib.Core.Path.{subst}
use dlt_matterbeam.Prelude.{String, ◌≡◌, refl, Bool, false, Option, none, some, eq_refl}
use dlt_matterbeam.Server.{Server, Item, done}
use dlt_matterbeam.Server.Lock.{set_item}
use dlt_matterbeam.Server.Registry.{
  registry_key, register, new_item, adopt, found_pid, lookup_or_create,
}

-- the registry names a process, and it is there
abbrev IsRegistered : String → String → Server → Type 0
IsRegistered key pid s = (s.registry key ≡ some pid) × ((item : Item) × (s.pids pid ≡ some item))

found_pid-IsRegistered :
    (key type pid pid' : String) (created : Bool) (o : Option Item) (s s₁ : Server)
    → s.registry key ≡ some pid
    → found_pid type pid o s ≡ (done (pid', created), s₁)
    → IsRegistered key pid' s₁
found_pid-IsRegistered key type pid pid' created none s s₁ named eq = absurd cc
found_pid-IsRegistered key type pid pid' created (some item) s s₁ named eq =
    let same : pid ≡ pid' = cc in
    subst (λ x. IsRegistered key x s₁) same
      (subst (λ x. IsRegistered key pid x.1) eq (named, (adopt type item, rw (eq_refl pid) refl)))

lookup_or_create-IsRegistered :
    (key type new_pid pid : String) (created : Bool) (o : Option String) (s s₁ : Server)
    → s.registry key ≡ o
    → lookup_or_create key type new_pid o s ≡ (done (pid, created), s₁)
    → IsRegistered key pid s₁
lookup_or_create-IsRegistered key type new_pid pid created (some pid') s s₁ named eq =
    found_pid-IsRegistered key type pid' pid created (s.pids pid') s s₁ named eq
lookup_or_create-IsRegistered key type new_pid pid created none s s₁ named eq =
    let same : new_pid ≡ pid = cc in
    subst (λ x. IsRegistered key x s₁) same
      (subst (λ x. IsRegistered key new_pid x.1) eq
        (rw (eq_refl key) refl, (new_item type, rw (eq_refl new_pid) refl)))

-- Registering a pipeline and a dataset a second time, under whatever collector type and fresh pid,
-- finds the process of the first time and creates none; the registry stays as it was, and only that
-- process changes: it is adopted in place, where the second registration hosts an external one.
pub register_again :
    (pipeline dataset type type' new_pid new_pid' pid : String) (created : Bool) (s s₁ : Server)
    → register pipeline dataset type new_pid s ≡ (done (pid, created), s₁)
    → (item : Item) × (s₁.pids pid ≡ some item)
      × (register pipeline dataset type' new_pid' s₁
          ≡ (done (pid, false), set_item pid (adopt type' item) s₁))
unfolding register
register_again pipeline dataset type type' new_pid new_pid' pid created s s₁ first =
    let key = registry_key pipeline dataset in
    let (named, (item, there)) =
      lookup_or_create-IsRegistered key type new_pid pid created (s.registry key) s s₁ refl first in
    (item, there, rw (named, there) refl)
