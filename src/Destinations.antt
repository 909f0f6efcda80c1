-- ===== src/Destinations.antt =====
-- src/dlt_matterbeam/destinations.py: the capabilities that the destination declares to dlt. The
-- generic capabilities of a file format are dlt's, a parameter.
use dlt_matterbeam.Prelude.{
  ℕ, String, ◌≡◌, refl, not, ◌&&◌, is_empty, sym, ap, ◌∙◌, Bool, true, false, ◌==◌, eq_iff, Option,
  none, some, List, [], ◌∷◌, contains, Bool-cases, inl, inr,
}
use dlt_matterbeam.Exec.{ok}
use dlt_matterbeam.Envelope.Table.{Table, Degraded, check_disposition, key_fields, is_text}

-- the fields of `DestinationCapabilitiesContext` that are set
pub record Capabilities : Type 0 where
  pub supported_loader_file_formats : List String
  pub supported_staging_file_formats : List String
  pub preferred_staging_file_format : Option String
  pub supports_ddl_transactions : Bool
  pub supports_transactions : Bool
  pub naming_convention : String
  pub max_table_nesting : ℕ
  pub loader_parallelism_strategy : String
  pub supported_merge_strategies : List String
  pub max_parallel_load_jobs : Option ℕ

-- `_raw_capabilities`
unfoldable pub raw_capabilities : (String → Capabilities) → Capabilities
raw_capabilities generic_capabilities = record (generic_capabilities "typed-jsonl") {
  supported_loader_file_formats = "typed-jsonl" ∷ [];
  supported_staging_file_formats = [];
  preferred_staging_file_format = none;
  supports_ddl_transactions = false;
  supports_transactions = false;
  naming_convention = "direct";
  max_table_nesting = 0;
  loader_parallelism_strategy = "sequential";
  supported_merge_strategies = "upsert" ∷ "insert-only" ∷ "delete-insert" ∷ [];
}

and_false : (b : Bool) → (b && false) ≡ false
and_false true = refl
and_false false = refl

-- A load job accepts every table whose merge strategy the destination declares.
pub check_disposition-declared :
    (generic_capabilities : String → Capabilities) (t : Table) (strategy : String)
    → t.merge_strategy ≡ some strategy
    → contains strategy (raw_capabilities generic_capabilities).supported_merge_strategies ≡ true
    → (d : Option Degraded) × (check_disposition t ≡ ok d)
unfolding raw_capabilities check_disposition
check_disposition-declared generic_capabilities t strategy asked declared =
    elim (Bool-cases (strategy == "scd2")) [
      | inl scd ↦
          let merges = (raw_capabilities generic_capabilities).supported_merge_strategies in
          let at = (eq_iff strategy "scd2").0 scd in
          let clash : true ≡ false = sym declared ∙ ap (λ s. contains s merges) at in absurd (cc)
      | inr other ↦
          let merge = is_text "merge" t.write_disposition in
          let safe : (merge && is_text "scd2" t.merge_strategy) ≡ false =
            rw (asked, other) (and_false merge) in
          elim (Bool-cases (is_text "replace" t.write_disposition)) [
            | inl replace ↦ (
              some (record { table = t.name; keyed = not (is_empty (key_fields t)) }),
              rw (safe, replace) refl,
            )
            | inr kept ↦ (none, rw (safe, kept) refl)
          ]
    ]
