-- ===== src/Deploy/Secrets/Names.antt =====
-- The names of the secrets that are submitted, and where they come from.
use mathlib.Core.Path.{subst}
use dlt_matterbeam.Prelude.{
  String, ◌≡◌, refl, Bool, true, false, not, ◌&&◌, Option, none, some, List, [], ◌∷◌, map, arith,
  ◌==◌, eq_iff, eq_refl, any, contains, All, Bool-cases, inl, inr,
}
use dlt_matterbeam.Deploy.Secrets.{
  Resolved, SecretItem, is_destination, recover_from, recover_secrets, item_for,
}

-- no text twice
abbrev pub Distinct : List String → Type 0
Distinct [] = Unit
Distinct (k ∷ ks) = (contains k ks ≡ false) × Distinct ks

module _ (env_key dotted_key : String → List String → String)
    (secrets : String → Option String) where
  abbrev pub has_value : Option String → String → Bool
  has_value none v = false
  has_value (some w) v = w == v

  -- whether an item is the name and the value of a secret that is no destination's
  abbrev pub is_of : SecretItem → Resolved → Bool
  is_of item r =
      r.is_secret_hint
      && (not (is_destination r.sections)
          && (env_key r.key r.sections == item.key
              && has_value (secrets (dotted_key r.key r.sections)) item.value))

  abbrev name : Resolved → String
  name r = env_key r.key r.sections

  abbrev value : Resolved → Option String
  value r = secrets (dotted_key r.key r.sections)

  abbrev from : List String → List Resolved → List SecretItem
  from = recover_from env_key dotted_key secrets

  abbrev keys : List SecretItem → List String
  keys = map (λ i. i.key)

  -- one step of the loop: what it skips, and what it takes up
  recover_from-step :
      (P : List SecretItem → Type 0) (seen : List String) (r : Resolved) (rs : List Resolved)
      → P (from seen rs)
      → (r.is_secret_hint ≡ true
          → is_destination r.sections ≡ false
          → contains (name r) seen ≡ false
          → P (item_for env_key dotted_key secrets r (value r) (from (name r ∷ seen) rs)))
      → P (from seen (r ∷ rs))
  unfolding recover_from
  recover_from-step P seen r rs skipped taken = elim (Bool-cases r.is_secret_hint) [
    | inr plain ↦ rw (plain) skipped
    | inl hint ↦ elim (Bool-cases (is_destination r.sections)) [
      | inl destination ↦ rw (hint, destination) skipped
      | inr other ↦ elim (Bool-cases (contains (name r) seen)) [
        | inl old ↦ rw (hint, other, old) skipped
        | inr new ↦ rw (hint, other, new) (taken hint other new)
      ]
    ]
  ]

  item_for-unseen :
      (r : Resolved) (o : Option String) (items : List SecretItem) (k : String)
      → (k == name r) ≡ false
      → contains k (keys items) ≡ false
      → contains k (keys (item_for env_key dotted_key secrets r o items)) ≡ false
  item_for-unseen r none items k other rest = rest
  item_for-unseen r (some v) items k other rest = rw (other) rest

  other_name :
      (r : Resolved) (seen : List String) (k : String)
      → contains k seen ≡ true
      → contains (name r) seen ≡ false
      → (k == name r) ≡ false
  other_name r seen k at new = elim (Bool-cases (k == name r)) [
    | inl same ↦
        let at' = subst (λ x. contains x seen ≡ true) ((eq_iff k (name r)).0 same) at in
        ground arith
    | inr other ↦ other
  ]

  recover_from-unseen :
      (rs : List Resolved) (seen : List String) (k : String)
      → contains k seen ≡ true
      → contains k (keys (from seen rs)) ≡ false
  unfolding recover_from
  recover_from-unseen [] seen k at = refl
  recover_from-unseen (r ∷ rs) seen k at =
      recover_from-step (λ items. contains k (keys items) ≡ false) seen r rs
        (recover_from-unseen rs seen k at)
        λ hint other new.
          item_for-unseen r (value r) _ k (other_name r seen k at new)
            (recover_from-unseen rs (name r ∷ seen) k (ground arith))

  item_for-Distinct :
      (r : Resolved) (o : Option String) (items : List SecretItem)
      → contains (name r) (keys items) ≡ false
      → Distinct (keys items)
      → Distinct (keys (item_for env_key dotted_key secrets r o items))
  item_for-Distinct r none items new rest = rest
  item_for-Distinct r (some v) items new rest = (new, rest)

  recover_from-Distinct : (rs : List Resolved) (seen : List String) → Distinct (keys (from seen rs))
  unfolding recover_from
  recover_from-Distinct [] seen = tt
  recover_from-Distinct (r ∷ rs) seen =
      recover_from-step (λ items. Distinct (keys items)) seen r rs (recover_from-Distinct rs seen)
        λ hint other new.
          item_for-Distinct r (value r) _
            (recover_from-unseen rs (name r ∷ seen) (name r) (rw (eq_refl (name r)) refl))
            (recover_from-Distinct rs (name r ∷ seen))

  -- more of the trace takes nothing away
  is_of-more :
      (r : Resolved) (rs : List Resolved) (items : List SecretItem)
      → All (λ i. any (is_of i) rs ≡ true) items
      → All (λ i. any (is_of i) (r ∷ rs) ≡ true) items
  is_of-more r rs [] all = tt
  is_of-more r rs (i ∷ items) all = (ground arith, is_of-more r rs items all.1)

  item_for-is_of :
      (r : Resolved) (o : Option String) (rs : List Resolved) (items : List SecretItem)
      → r.is_secret_hint ≡ true
      → is_destination r.sections ≡ false
      → value r ≡ o
      → All (λ i. any (is_of i) rs ≡ true) items
      → All (λ i. any (is_of i) (r ∷ rs) ≡ true) (item_for env_key dotted_key secrets r o items)
  item_for-is_of r none rs items hint other at all = is_of-more r rs items all
  item_for-is_of r (some v) rs items hint other at all =
      (rw (hint, other, eq_refl (name r), at, eq_refl v) refl, is_of-more r rs items all)

  recover_from-is_of :
      (rs : List Resolved) (seen : List String) → All (λ i. any (is_of i) rs ≡ true) (from seen rs)
  unfolding recover_from
  recover_from-is_of [] seen = tt
  recover_from-is_of (r ∷ rs) seen =
      recover_from-step (λ items. All (λ i. any (is_of i) (r ∷ rs) ≡ true) items) seen r rs
        (is_of-more r rs _ (recover_from-is_of rs seen))
        λ hint other new.
          item_for-is_of r (value r) rs _ hint other refl (recover_from-is_of rs (name r ∷ seen))

-- The secrets recovered have different names, and each is the name and the value of a secret of the
-- trace that stands in no destination section.
pub recover_secrets_lem :
    (env_key dotted_key : String → List String → String) (secrets : String → Option String)
    (rs : List Resolved)
    → Distinct (map (λ i. i.key) (recover_secrets env_key dotted_key secrets rs))
      × All
          (λ i. any (is_of env_key dotted_key secrets i) rs ≡ true)
          (recover_secrets env_key dotted_key secrets rs)
unfolding recover_secrets
recover_secrets_lem env_key dotted_key secrets rs = (
  recover_from-Distinct env_key dotted_key secrets rs [],
  recover_from-is_of env_key dotted_key secrets rs [],
)
