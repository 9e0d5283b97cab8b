-- ===== src/Secret/Built.antt =====
-- What the package variables hold after a secret has been read into them.
use volume_snapshot_mover.Prelude.{
  String, true, false, ◌≡◌, refl, ◌∙◌, [], ◌∷◌, StringMap, ◌==◌, eq_iff, if◌then◌else◌, arith, ◌||◌,
  Bool, some, text_at, Bool-cases, inl, inr,
}
use volume_snapshot_mover.Exec.{ResticVars, Result, ok}
use volume_snapshot_mover.Secret.Keys.{
  aws_access_key, aws_secret_key, aws_default_region, azure_account_name, azure_account_key,
  google_application_credentials, restic_custom_ca, restic_password, aws_provider, azure_provider,
  gcp_provider, oadp_bsl_provider_name,
}
use volume_snapshot_mover.Api.Cluster.{Secret}
use volume_snapshot_mover.Secret.Build.{
  RetainPolicy, take_aws, take_azure, take_gcp, take_all, entries, fill_secret, aws_data,
  azure_data, gcp_data, common_data, build_restic_secret,
}

-- The last value under a key, or `old` where the key is missing.
unfoldable pub last_at : String → StringMap String → String → String
last_at key [] old = old
last_at key ((k, val) ∷ m) old = last_at key m (if k == key then val else old)

-- One key is never another.
pub other_key : (k a b : String) → (a == b) ≡ false → (k == a) ≡ true → (k == b) ≡ false
other_key k a b f e = rw ((eq_iff k a).0 e) f

take_aws-password :
    (k val : String) (v : ResticVars)
    → (take_aws k val v).restic_password ≡ (if k == restic_password then val else v.restic_password)
unfolding take_aws
take_aws-password k val v =
    let a = other_key k aws_access_key restic_password refl in
    let b = other_key k aws_secret_key restic_password refl in
    let d = other_key k aws_default_region restic_password refl in ground arith

take_aws-ca :
    (k val : String) (v : ResticVars)
    → (take_aws k val v).restic_custom_ca
      ≡ (if k == restic_custom_ca then val else v.restic_custom_ca)
unfolding take_aws
take_aws-ca k val v =
    let a = other_key k aws_access_key restic_custom_ca refl in
    let b = other_key k aws_secret_key restic_custom_ca refl in
    let d = other_key k aws_default_region restic_custom_ca refl in
    let e = other_key k restic_password restic_custom_ca refl in ground arith

take_azure-ca :
    (k val : String) (v : ResticVars)
    → (take_azure k val v).restic_custom_ca
      ≡ (if k == restic_custom_ca then val else v.restic_custom_ca)
unfolding take_azure
take_azure-ca k val v =
    let a = other_key k azure_account_name restic_custom_ca refl in
    let b = other_key k azure_account_key restic_custom_ca refl in
    let e = other_key k restic_password restic_custom_ca refl in ground arith

take_gcp-ca :
    (k val : String) (v : ResticVars)
    → (take_gcp k val v).restic_custom_ca
      ≡ (if k == restic_custom_ca then val else v.restic_custom_ca)
unfolding take_gcp
take_gcp-ca k val v =
    let a = other_key k google_application_credentials restic_custom_ca refl in
    let e = other_key k restic_password restic_custom_ca refl in ground arith

-- A loop whose turn sets a variable from its key and no other sets it to the key's last value.
module _ (take : String → String → ResticVars → ResticVars) (of_vars : ResticVars → String)
    (key : String)
    (turn : (k val : String) (v : ResticVars)
      → of_vars (take k val v) ≡ (if k == key then val else of_vars v)) where
  take_all-last :
      (m : StringMap String) (v : ResticVars)
      → of_vars (take_all take m v) ≡ last_at key m (of_vars v)
  unfolding take_all last_at
  take_all-last [] v = refl
  take_all-last ((k, val) ∷ m) v =
      take_all-last m (take k val v) ∙ (λ i. last_at key m (turn k val v i))

unfoldable pub is_provider : String → Bool
is_provider p = p == aws_provider || p == azure_provider || p == gcp_provider

-- The variable holds `ca` behind the run, which builds a secret that holds it too.
pub record HasCa (ca : String) (p : Result Secret × ResticVars) : Type 0 where
  pub kept : p.1.restic_custom_ca ≡ ca
  pub built : Secret
  pub ended : p.0 ≡ ok built
  pub stored : text_at (entries built.data_of) restic_custom_ca ≡ ca

module _ (given secret : Secret) (repo prune : String) (policy : RetainPolicy) (cron : String)
    (v : ResticVars) where
  -- For a user's secret whose label names one of the three providers, and which may have its keys
  -- in any order, BuildResticSecret leaves as the custom CA the secret's, or, where the secret has
  -- none, the one that the variable held from an earlier secret, and the secret that it builds
  -- holds the same.
  pub build_restic_secret-HasCa :
      is_provider (text_at given.meta.labels oadp_bsl_provider_name) ≡ true
      → HasCa
          (last_at restic_custom_ca (entries given.data_of) v.restic_custom_ca)
          (build_restic_secret (some given) (some secret) repo prune policy cron v)
  unfolding build_restic_secret fill_secret is_provider common_data aws_data azure_data gcp_data
      text_at
  build_restic_secret-HasCa known =
      let provider = text_at given.meta.labels oadp_bsl_provider_name in
      let m = entries given.data_of in
      let ca = λ (u : ResticVars). u.restic_custom_ca in
      let aws = take_all-last take_aws ca restic_custom_ca take_aws-ca m v in
      let azure = take_all-last take_azure ca restic_custom_ca take_azure-ca m v in
      let gcp = take_all-last take_gcp ca restic_custom_ca take_gcp-ca m v in
      elim (Bool-cases (provider == aws_provider)) [
        | inl e ↦ rw e (record { kept = aws; built = _; ended = refl; stored = aws })
        | inr e ↦ elim (Bool-cases (provider == azure_provider)) [
          | inl f ↦ rw (e, f) (record { kept = azure; built = _; ended = refl; stored = azure })
          | inr f ↦
              let g : (provider == gcp_provider) ≡ true = ground arith in
              rw (e, f, g) (record { kept = gcp; built = _; ended = refl; stored = gcp })
        ]
      ]
