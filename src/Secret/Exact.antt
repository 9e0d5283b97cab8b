-- ===== src/Secret/Exact.antt =====
-- What a restic secret must hold to be valid.
use volume_snapshot_mover.Prelude.{
  String, Bool, true, false, not, ◌&&◌, ◌||◌, ◌≡◌, refl, ◌∙◌, Option, none, some, [], ◌∷◌,
  StringMap, text_at, ◌==◌, if◌then◌else◌, arith,
}
use volume_snapshot_mover.Exec.{Result, ok, err, panic}
use volume_snapshot_mover.Api.Cluster.{Secret}
use volume_snapshot_mover.Secret.Keys.{oadp_bsl_provider_name}
use volume_snapshot_mover.Secret.Validate.{
  Cases, check_byte_array_is_empty, switch_key, and_rest, check_data, validate_data, provider_cases,
  validate_restic_secret,
}

-- The key is one that the provider's checks name.
unfoldable is_checked : Cases → String → Bool
is_checked [] key = false
is_checked ((k, text) ∷ cs) key = if key == k then true else is_checked cs key

-- Every entry under a checked key has a value.
unfoldable all_filled : Cases → StringMap String → Bool
all_filled cs [] = true
all_filled cs ((key, val) ∷ m) = (not (is_checked cs key) || not (val == "")) && all_filled cs m

-- A secret with a data map, all of whose checked entries have values.
pub has_values : Cases → Option (StringMap String) → Bool
has_values cs none = false
has_values cs (some m) = all_filled cs m

abbrev pub is_ok : {A : Type 0} → Result A → Bool
is_ok (ok a) = true
is_ok (err e) = false
is_ok panic = false

switch_key-filled :
    (cs : Cases) (key val : String)
    → is_ok (switch_key cs key val) ≡ (not (is_checked cs key) || not (val == ""))
unfolding switch_key is_checked check_byte_array_is_empty
switch_key-filled [] key val = refl
switch_key-filled ((k, text) ∷ cs) key val = ground (arith, switch_key-filled cs key val)

and_rest-ok : (a b : Result Unit) → is_ok (and_rest a b) ≡ (is_ok a && is_ok b)
and_rest-ok (ok u) b = refl
and_rest-ok (err e) b = refl
and_rest-ok panic b = refl

check_data-filled : (cs : Cases) (m : StringMap String) → is_ok (check_data cs m) ≡ all_filled cs m
unfolding check_data all_filled
check_data-filled cs [] = refl
check_data-filled cs ((key, val) ∷ m) =
    and_rest-ok (switch_key cs key val) (check_data cs m)
    ∙ (λ i. switch_key-filled cs key val i && check_data-filled cs m i)

validate_data-values :
    (cs : Cases) (data_of : Option (StringMap String))
    → is_ok (validate_data cs data_of) ≡ has_values cs data_of
unfolding has_values
validate_data-values cs none = refl
validate_data-values cs (some m) = check_data-filled cs m

-- In whatever order the entries are met, a restic secret is valid exactly if it has a data map
-- and every entry under a key that its provider's checks name has a value. A checked key that is
-- not there at all makes no secret invalid.
pub validate_restic_secret-exact :
    (secret : Secret)
    → is_ok (validate_restic_secret (some secret))
      ≡ has_values
          (provider_cases (text_at secret.meta.labels oadp_bsl_provider_name))
          secret.data_of
unfolding validate_restic_secret
validate_restic_secret-exact secret = validate_data-values _ secret.data_of
