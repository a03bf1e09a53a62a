-- ===== src/Store/Create/CrossDb.antt =====
-- internal/store/create.go: validateCrossDBRefs and crossDBCheck. What the other server answers is a
-- function of the URL.
use Prim.Native.String.{◌++◌}
use backlog_server.Prelude.{
  ℕ, String, [], ◌∷◌, eqb, if◌then◌else◌, is_empty, concat, ◌&&◌, trim_space, trim_right,
}
use backlog_server.Prelude.Decimal.{decimal}
use backlog_server.Store.Create.{Failures, Advisories}

-- What becomes of the request that crossDBCheck makes to the other server.
pub data Ping : Type 0 where
  not_built : String → Ping
  no_answer : String → Ping
  answered : ℕ → Ping

unreachable : String → Failures × Advisories
unreachable message = ([], record { code = "CROSS_DB_UNREACHABLE"; message = message } ∷ [])

checked : String → String → String → Ping → Failures × Advisories
unfolding unreachable
checked resource uuid fail_code (not_built e) =
    unreachable ("could not build " ++ resource ++ " check request: " ++ e ++ " — accepting create")
checked resource uuid fail_code (no_answer e) =
    unreachable (resource ++ " check failed (" ++ e ++ ") — accepting create")
checked resource uuid fail_code (answered code) =
    if eqb code 200
    then ([], [])
    else if eqb code 404
    then (
      record {
        check = fail_code;
        detail = resource ++ " \"" ++ uuid ++ "\" not found in AyantXAPI";
      }
          ∷ [],
      [],
    )
    else unreachable (resource ++ " check returned " ++ decimal code ++ " — accepting create")

-- The URL of the check; `base` is AX_API_BASE without the spaces around it.
abbrev check_url : String → String → String → String
check_url base resource uuid =
    trim_right (λ c. eqb c b'/') base ++ "/api/v1/" ++ resource ++ "/" ++ uuid

cross_db_check : (String → Ping) → String → String → String → String → Failures × Advisories
unfolding checked
cross_db_check network base resource uuid fail_code =
    if is_empty uuid
    then ([], [])
    else checked resource uuid fail_code (network (check_url base resource uuid))

-- The failures and the advisories of both checks.
unfoldable pub validate_cross_db_refs :
    (String → Ping) → String → String → String → Failures × Advisories
unfolding cross_db_check unreachable
validate_cross_db_refs network ax_api_base client project =
    let base = trim_space ax_api_base in
    if is_empty base
    then if is_empty client && is_empty project
      then ([], [])
      else unreachable "AX_API_BASE unset — client/project UUID validation skipped"
    else (let (fs, advs) = cross_db_check network base "clients" client "INVALID_CLIENT_UUID" in
        let (gs, bdvs) = cross_db_check network base "projects" project "INVALID_PROJECT_UUID" in
        (concat (fs ∷ gs ∷ []), concat (advs ∷ bdvs ∷ [])))
