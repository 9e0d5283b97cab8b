-- ===== src/Secret/Validate.antt =====
-- ValidateResticSecret and checkByteArrayIsEmpty of controllers/common.go
use volume_snapshot_mover.Prelude.{
  String, Bool, not, Option, none, some, List, [], ◌∷◌, StringMap, text_at, ◌==◌, if◌then◌else◌,
}
use volume_snapshot_mover.Exec.{Error, Result, ok, err}
use volume_snapshot_mover.Api.Cluster.{Secret}
use volume_snapshot_mover.Secret.Keys.{
  oadp_bsl_provider_name, aws_provider, azure_provider, gcp_provider, aws_access_key,
  aws_secret_key, azure_account_name, azure_account_key, google_application_credentials,
  restic_password, restic_repository,
}

-- True where the value is NOT empty, as in the source.
unfoldable pub check_byte_array_is_empty : String → Bool
check_byte_array_is_empty val = not (val == "")

-- The `switch key` of one provider: the checked keys with their errors.
abbrev pub Cases : Type 0
Cases = List (String × String)

abbrev pub aws_cases : Cases
aws_cases =
    (aws_access_key, "awsAccessKey value cannot be empty")
    ∷ (aws_secret_key, "awsSecretKey value cannot be empty")
    ∷ (restic_password, "resticPassword value cannot be empty")
    ∷ (restic_repository, "resticRepository value cannot be empty")
    ∷ []

abbrev pub azure_cases : Cases
azure_cases =
    (azure_account_name, "azure accout name value cannot be empty")
    ∷ (azure_account_key, "azure account key value cannot be empty")
    ∷ (restic_password, "resticPassword value cannot be empty")
    ∷ (restic_repository, "resticRepository value cannot be empty")
    ∷ []

abbrev pub gcp_cases : Cases
gcp_cases =
    (google_application_credentials, "GoogleApplicationCredentials value cannot be empty")
    ∷ (restic_password, "resticPassword value cannot be empty")
    ∷ (restic_repository, "resticRepository value cannot be empty")
    ∷ []

-- The cases are tried in order; a key with no case passes.
unfoldable pub switch_key : Cases → String → String → Result Unit
unfolding check_byte_array_is_empty
switch_key [] key val = ok tt
switch_key ((k, text) ∷ cs) key val =
    if key == k
    then (if not (check_byte_array_is_empty val) then err (Error.message text) else ok tt)
    else switch_key cs key val

abbrev pub and_rest : Result Unit → Result Unit → Result Unit
and_rest (ok u) rest = rest
and_rest r rest = r

-- `for key, val := range resticsecret.Data { switch key { … } }`
unfoldable pub check_data : Cases → StringMap String → Result Unit
unfolding switch_key
check_data cs [] = ok tt
check_data cs ((key, val) ∷ m) = and_rest (switch_key cs key val) (check_data cs m)

-- `switch provider`: a provider with no case checks nothing.
unfoldable pub provider_cases : String → Cases
provider_cases provider =
    if provider == aws_provider
    then aws_cases
    else if provider == azure_provider
    then azure_cases
    else if provider == gcp_provider
    then gcp_cases
    else []

abbrev pub validate_data : Cases → Option (StringMap String) → Result Unit
validate_data cs none = err (Error.message "secret data is empty")
validate_data cs (some m) = check_data cs m

-- The argument is a pointer: `none` is nil.
unfoldable pub validate_restic_secret : Option Secret → Result Unit
unfolding provider_cases check_data
validate_restic_secret none =
    err (Error.message "empty restic secret. Please create a restic secret")
validate_restic_secret (some secret) =
    validate_data (provider_cases (text_at secret.meta.labels oadp_bsl_provider_name))
      secret.data_of
