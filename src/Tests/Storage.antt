-- ===== src/Tests/Storage.antt =====
-- The repository of crates/casegraph-infrastructure/src/sqlite_repository.rs on a database with one
-- claim: a second claim contradicts it.
use casegraph.Infrastructure.Sqlite.Load.{load_artifact_version, load_claim, load_provenance}
use casegraph.Infrastructure.Sqlite.Claims.{no_comparison}
use casegraph.Infrastructure.Sqlite.Repository.{perform, record_claim_call, run}
use casegraph.Infrastructure.Sqlite.Repository.Ends.{Ended, perform-Ended}
use casegraph.Infrastructure.Sqlite.Claims.Compared.{IsCompared}
use casegraph.Infrastructure.Sqlite.Claims.Priors.{record_claim-IsCompared}
use casegraph.Infrastructure.Sqlite.Load.{read_claim, read_provenance, read_artifact_version}
use casegraph.Infrastructure.Sqlite.Codes.{
  parse_assertion_origin, parse_claim_state, parse_verification_state,
}
use casegraph.Domain.Model.Validate.{validate_artifact_version}
use casegraph.Infrastructure.Sqlite.Claims.Live.{IsLivePrior, UniqueIds, is_prior-IsLivePrior}
use casegraph.Prelude.{◌↔◌, filter, Bool, true, false, ◌≡◌, refl, none, some, []}
use casegraph.Prelude.Result.{Result, ok, err}
use casegraph.Text.{Text, lit, text_eq, text_cmp}
use casegraph.Application.Error.{AppError}
use casegraph.Application.Ports.{ClaimResult}
use casegraph.Infrastructure.Sqlite.Rows.{Database}
use casegraph.Infrastructure.Sqlite.Claims.{record_claim}
use casegraph.Infrastructure.Sqlite.Tx.{◌>>=◌, for_each}
use casegraph.Infrastructure.Sqlite.Claims.{
  insert_grounded, compare_prior, compare_priors, contradict, corroborate, current_state, is_prior,
  mark_contradicted, prior_claims,
}
use casegraph.Domain.Model.Validate.{validate_provenance, validate_text, validate_claim}
use casegraph.Text.Trim.{trim, is_control, is_whitespace, trim_end, trim_start}
use casegraph.Infrastructure.Sqlite.Statement.{
  ensure_case_exists, insert, insert_or_ignore, collision,
}
use casegraph.Infrastructure.Sqlite.Insert.{
  insert_provenance, insert_observation, insert_claim, insert_evidence, insert_edge, insert_audit,
  insert_contradiction_edges, insert_contradicts, insert_state_change,
}
use casegraph.Application.Codec.{hex}
use casegraph.Application.Error.{from_domain}
use casegraph.Domain.Error.{domain_error_display}
use casegraph.Domain.Id.{parse}
use casegraph.Domain.Temporal.{timestamp, validate}
use casegraph.Infrastructure.Sqlite.Codes.{parse_contradiction_status, parse_detection_method}
use casegraph.Infrastructure.Sqlite.Load.{load_contradiction, read_contradiction}
use casegraph.Infrastructure.Sqlite.Order.{by_time, latest, sort_by}
use casegraph.Infrastructure.Sqlite.Rows.{ClaimRow}
use casegraph.Infrastructure.Sqlite.Tables.{as_claim, as_state_change, select}
use casegraph.Infrastructure.Sqlite.References.{refers}
use casegraph.Infrastructure.Sqlite.Schema.{checks, repeats_key, repeats_unique}
use casegraph.Infrastructure.Sqlite.Serde.{deterministic_id, ordered_ids, parse_id, read_timestamp}
use casegraph.Text.Utf8.{bytes, encode, len}
use casegraph.Domain.Model.Evidence.{ArtifactVersion}
use casegraph.Tests.Fixtures.{signed, stored_version, id_of, moment}
use casegraph.Infrastructure.Sqlite.Repository.History.{run-keeps_evidence}
use casegraph.Tests.Database.{
  the_hash, provenance_of, the_serde, the_database, unsigned_bundle, the_calls, unsigned,
}

abbrev is_ok : {A : Type 0} → Result AppError A → Bool
is_ok (ok a) = true
is_ok (err e) = false

abbrev value_or : {A : Type 0} → A → Result AppError A → A
value_or a (ok b) = b
value_or a (err e) = a

is_ok-value_or :
    {A : Type 0} (a : A) (r : Result AppError A) → is_ok r ≡ true → r ≡ ok (value_or a r)
is_ok-value_or a (ok b) h = refl
is_ok-value_or a (err e) h = absurd (cc)

-- What `record_claim` returns, and the database after it.
unsigned_recorded : ClaimResult × Database
unsigned_recorded =
    value_or (record { claim = unsigned; contradictions = []; corroborates = [] }, [])
      (record_claim the_serde unsigned_bundle the_database)

is_recorded : is_ok (record_claim the_serde unsigned_bundle the_database) ≡ true
unfolding record_claim ◌>>=◌ for_each insert_grounded compare_prior compare_priors contradict
    corroborate current_state is_prior mark_contradicted prior_claims validate_provenance
    validate_text validate_claim trim is_control is_whitespace trim_end trim_start lit text_eq
    text_cmp ensure_case_exists insert insert_or_ignore collision insert_provenance
    insert_observation insert_claim insert_evidence insert_edge insert_audit
    insert_contradiction_edges insert_contradicts insert_state_change hex from_domain
    domain_error_display parse timestamp validate parse_contradiction_status parse_detection_method
    load_contradiction read_contradiction latest sort_by refers checks repeats_key repeats_unique
    deterministic_id ordered_ids parse_id read_timestamp bytes encode len
is_recorded = refl

recorded :
    record_claim the_serde unsigned_bundle the_database
    ≡ ok (unsigned_recorded.0, unsigned_recorded.1)
unfolding unsigned_recorded
recorded = is_ok-value_or _ (record_claim the_serde unsigned_bundle the_database) is_recorded

no_changes : UniqueIds (select as_state_change the_database)
no_changes = tt

tells_live :
    (r : ClaimRow) → (is_prior the_database unsigned r ≡ true) ↔ IsLivePrior the_database unsigned r
tells_live r = is_prior-IsLivePrior the_database unsigned r no_changes

record_claim-IsCompared_example :
    (normalized : Text) × ((the_serde.value_json unsigned.normalized_value ≡ ok normalized)
      × IsCompared the_serde unsigned normalized no_comparison
          (sort_by
            (by_time (λ r. r.created_at_ms) (λ r. r.id))
            (filter (is_prior the_database unsigned) (select as_claim the_database)))
          (record {
            contradictions = unsigned_recorded.0.contradictions;
            corroborates = unsigned_recorded.0.corroborates;
          }))
record_claim-IsCompared_example =
    record_claim-IsCompared the_serde unsigned_bundle the_database unsigned_recorded.0
      unsigned_recorded.1 (is_prior the_database unsigned) no_changes tells_live recorded

perform-Ended_example :
    Ended the_serde
      (record_claim_call unsigned_bundle)
      the_database
      (perform the_serde (record_claim_call unsigned_bundle) the_database)
perform-Ended_example = perform-Ended the_serde (record_claim_call unsigned_bundle) the_database

signed_loads : load_claim the_serde signed.id the_database ≡ ok (some signed)
unfolding load_claim text_eq lit read_claim parse_id parse encode parse_assertion_origin
    parse_claim_state read_timestamp timestamp validate_claim validate_text trim is_control
signed_loads = refl

provenance_loads :
    load_provenance (id_of (lit "provenance_1")) the_database
    ≡ ok (some (provenance_of (lit "provenance_1")))
unfolding load_provenance text_eq lit read_provenance parse_id parse encode read_timestamp timestamp
    parse_verification_state validate_provenance validate_text trim is_control
provenance_loads = refl

abbrev loaded_version : ArtifactVersion
loaded_version = record {
  id = stored_version.id;
  artifact_id = stored_version.artifact_id;
  version_number = 1;
  content_sha256 = the_hash;
  content_length = 4;
  media_type = stored_version.media_type;
  storage_key = stored_version.storage_key;
  ingested_at = moment;
  received_at = none;
  original_filename = none;
}

version_loads : load_artifact_version stored_version.id the_database ≡ ok (some loaded_version)
unfolding load_artifact_version text_eq lit read_artifact_version parse_id parse encode bytes len
    read_timestamp timestamp validate_artifact_version validate_text trim is_control
version_loads = refl

run-keeps_evidence_example :
    (load_claim the_serde signed.id (run the_serde the_calls the_database) ≡ ok (some signed))
    × ((load_provenance (id_of (lit "provenance_1")) (run the_serde the_calls the_database)
          ≡ ok (some (provenance_of (lit "provenance_1"))))
        × (load_artifact_version stored_version.id (run the_serde the_calls the_database)
            ≡ ok (some loaded_version)))
run-keeps_evidence_example =
    run-keeps_evidence the_serde the_calls the_database signed.id signed
      (id_of (lit "provenance_1")) (provenance_of (lit "provenance_1")) stored_version.id
      loaded_version signed_loads provenance_loads version_loads
