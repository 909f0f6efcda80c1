-- ===== src/Server/State/Pushes.antt =====
-- A push of a state: what it stores, and when it is refused.
use mathlib.Core.Path.{subst}
use dlt_matterbeam.Prelude.{
  String, ◌≡◌, ◌⊎◌, refl, ap, sym, ◌∙◌, Bool, true, false, some, [], ◌∷◌, arith, eq_refl,
  if◌then◌else◌, inl, inr, lookup,
}
use dlt_matterbeam.Json.{Json, Row, num, object, truthy, as_doc, from_fields-to_fields}
use dlt_matterbeam.Envelope.Sort.{py_lt}
use dlt_matterbeam.Json.Int.{ℤ, ltb_ℤ}
use dlt_matterbeam.Server.{Server, Outcome, Fault, Knobs, done, fault, terminal}
use dlt_matterbeam.Server.Lock.{claim}
use dlt_matterbeam.Server.Lock.Apart.{claim-process, release-process, with_lock-cases}
use dlt_matterbeam.Server.State.{
  put_dlt_state, get_dlt_state, write_state, staleness, is_stale, store_unless,
}

-- what a push leaves, in an outcome and a server: the document where it is stored, and else what
-- was there
abbrev pub Pushed : String → Json → Json → Outcome (Unit {0}) × Server → Type 0
Pushed pid doc before x =
    ((x.0 ≡ done tt) × (get_dlt_state pid x.1 ≡ as_doc doc) × (staleness doc before ≡ done false))
    ⊎ ((f : Fault) × (x.0 ≡ fault f) × (get_dlt_state pid x.1 ≡ as_doc before))

store_unless-Pushed :
    (pid : String) (doc before : Json) (b : Outcome Bool) (s : Server)
    → get_dlt_state pid s ≡ as_doc before
    → staleness doc before ≡ b
    → Pushed pid doc before (store_unless pid doc b s)
unfolding get_dlt_state
store_unless-Pushed pid doc before (done true) s at stale =
    inr (terminal "stale_state_version", refl, at)
store_unless-Pushed pid doc before (done false) s at stale =
    inl (refl, rw (get_dlt_state, eq_refl pid) refl, stale)
store_unless-Pushed pid doc before (fault f) s at stale = inr (f, refl, at)

write_state-Pushed :
    (pid : String) (doc : Json) (s : Server)
    → Pushed pid doc (s.process_state pid).dlt_state (write_state pid doc s)
unfolding write_state get_dlt_state
write_state-Pushed pid doc s =
    let before = (s.process_state pid).dlt_state in
    store_unless-Pushed pid doc before (staleness doc before) s refl refl

get_dlt_state-saved :
    (pid : String) (a b : Server)
    → a.process_state ≡ b.process_state
    → get_dlt_state pid a ≡ as_doc (b.process_state pid).dlt_state
unfolding get_dlt_state
get_dlt_state-saved pid a b same = ap (λ p. as_doc (p pid).dlt_state) same

get_dlt_state-process :
    (pid : String) (a b : Server)
    → a.process_state ≡ b.process_state
    → get_dlt_state pid a ≡ get_dlt_state pid b
unfolding get_dlt_state
get_dlt_state-process pid a b same = ap (λ p. as_doc (p pid).dlt_state) same

-- A push either is accepted, and then the state read back is the document pushed, and the document
-- was not stale against the state before; or it fails, whether at the lock or by its version, and
-- then the state read back is the one before. A document that is null reads back as no state.
pub put_dlt_state-get_dlt_state :
    (knobs : Knobs) (pid : String) (doc : Json) (s : Server)
    → Pushed pid doc (s.process_state pid).dlt_state (put_dlt_state knobs pid doc s)
unfolding put_dlt_state
put_dlt_state-get_dlt_state knobs pid doc s =
    let s₁ = (claim knobs pid s).1 in
    let kept = claim-process knobs pid s in
    let before = get_dlt_state-saved pid s₁ s kept in
    elim (with_lock-cases knobs pid (write_state pid doc) s) [
      | inl (f, safe, at) ↦
          subst (Pushed pid doc (s.process_state pid).dlt_state) (sym at) (inr (f, refl, before))
      | inr (v, at) ↦
          subst (Pushed pid doc (s.process_state pid).dlt_state) (sym at)
            (elim (subst (λ p. Pushed pid doc (p pid).dlt_state (write_state pid doc s₁)) kept
              (write_state-Pushed pid doc s₁)) [
                | inl (ok, now, new) ↦ inl (
                  ok,
                  get_dlt_state-process pid _ _
                        (release-process knobs pid v (write_state pid doc s₁).1)
                      ∙ now,
                  new,
                )
                | inr (f, bad, now) ↦ inr (
                  f,
                  bad,
                  get_dlt_state-process pid _ _
                        (release-process knobs pid v (write_state pid doc s₁).1)
                      ∙ now,
                )
              ])
    ]

-- A document with an integer version is stale against another exactly where its version is not
-- above the other's.
staleness-version :
    (doc before : Row) (v w : ℤ)
    → lookup "version" doc ≡ some (num v)
    → lookup "version" before ≡ some (num w)
    → staleness (object doc) (object before) ≡ done (if ltb_ℤ w v then false else true)
unfolding py_lt truthy
staleness-version doc [] v w at at' = ground arith
staleness-version doc (x ∷ before) v w at at' =
    (λ i.
      is_stale (lookup "version" (from_fields-to_fields doc i))
        (lookup "version" (from_fields-to_fields (x ∷ before) i)))
    ∙ ground arith
