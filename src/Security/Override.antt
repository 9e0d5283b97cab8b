-- ===== src/Security/Override.antt =====
-- Which pod decides the security context of the mover.
use volume_snapshot_mover.Prelude.{◌≡◌, refl, String, true, false, List, [], ◌∷◌, ◌++◌, All}
use volume_snapshot_mover.Exec.{if_nil}
use volume_snapshot_mover.Api.Cluster.{Pod}
use volume_snapshot_mover.Security.{has_claim, pod_has_pvc_name, context_of, search_pods}

module _ {W : Type 0} where
  -- The first pod that mounts the claim decides: those before it and those behind it are not
  -- looked at.
  pub search_pods-first :
      (name : String) (before : List Pod) (pod : Pod) (behind : List Pod)
      → All (λ p. has_claim name p.volumes ≡ false) before
      → has_claim name pod.volumes ≡ true
      → search_pods {W = W} name (before ++ pod ∷ behind) ≡ context_of pod
  unfolding search_pods pod_has_pvc_name if_nil
  search_pods-first name [] pod behind h e = rw e refl
  search_pods-first name (p ∷ before) pod behind (hp, h) e =
      rw hp (search_pods-first name before pod behind h e)
