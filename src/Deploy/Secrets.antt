-- ===== src/Deploy/Secrets.antt =====
-- `recover_secrets` of src/dlt_matterbeam/deploy.py: which secrets of the last run's trace are
-- submitted. dlt's names of a secret and its lookup are parameters.
pub mod Names
use dlt_matterbeam.Prelude.{
  String, ◌≡◌, refl, Bool, true, false, not, ◌&&◌, ◌||◌, Option, none, some, List, [], ◌∷◌, map,
  arith, ◌==◌, eq_iff, eq_refl, contains, All, if◌then◌else◌, Bool-cases, Option-cases, inl, inr,
}

-- one of `trace.resolved_config_values`
pub record Resolved : Type 0 where
  pub key : String
  pub sections : List String
  pub is_secret_hint : Bool

pub record SecretItem : Type 0 where
  pub key : String
  pub value : String

-- `resolved.sections and resolved.sections[0] == "destination"`
abbrev pub is_destination : List String → Bool
is_destination [] = false
is_destination (s ∷ ss) = s == "destination"

module _ (env_key dotted_key : String → List String → String)
    (secrets : String → Option String) where
  abbrev item_for : Resolved → Option String → List SecretItem → List SecretItem
  item_for r none items = items
  item_for r (some v) items = record { key = env_key r.key r.sections; value = v } ∷ items

  -- the loop, with the names seen so far
  unfoldable pub recover_from : List String → List Resolved → List SecretItem
  recover_from seen [] = []
  recover_from seen (r ∷ rs) =
      let k = env_key r.key r.sections in
      let skipped = recover_from seen rs in
      let next = recover_from (k ∷ seen) rs in
      if not r.is_secret_hint
      then skipped
      else if is_destination r.sections
      then skipped
      else if contains k seen
      then skipped
      else item_for r (secrets (dotted_key r.key r.sections)) next

  unfoldable pub recover_secrets : List Resolved → List SecretItem
  recover_secrets = recover_from []
