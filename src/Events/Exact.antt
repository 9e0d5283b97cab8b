-- ===== src/Events/Exact.antt =====
-- The events that pass the filters, described without the tests.
use volume_snapshot_mover.Prelude.{
  String, Bool, true, false, not, ◌&&◌, ◌≡◌, ◌≢◌, refl, ◌↔◌, inl, inr, Option, none, some, List, [],
  ◌∷◌, text_at, ◌==◌, eq_iff, eq_refl, ◌∙◌, arith, Bool-cases,
}
use volume_snapshot_mover.Prelude.Tests.{nat_eq}
use volume_snapshot_mover.Secret.Keys.{vsb_label, vsr_label}
use volume_snapshot_mover.Events.Filter.{
  GroupVersionKind, group_name, version_name, vsb_kind, vsr_kind, Scheme, Event, is_of_kinds,
  is_object_ours_backup, is_object_ours_restore, volume_snapshot_backup_predicate,
  volume_snapshot_restore_predicate,
}

-- An object of one registered kind: the controller's own kind, or one with a value under the
-- controller's label.
pub data Ours {O : Type 0} (scheme : Scheme O) (kind label : String) (object : O) : Type 0 where
  own :
      scheme.object_kinds object
        ≡ some (record { group = group_name; version = version_name; kind = kind } ∷ [])
      → Ours scheme kind label object
  labelled :
      (gvk : GroupVersionKind)
      → scheme.object_kinds object ≡ some (gvk ∷ [])
      → text_at (scheme.meta object).labels label ≢ ""
      → Ours scheme kind label object

-- A change of the desired state, a creation, a deletion that has been seen, or a generic event, for
-- which the filters give no function, if controller-runtime passes such an event.
pub data Passes {O : Type 0} (scheme : Scheme O) (kind label : String) : Event O → Type 0 where
  updated :
      {old new : O}
      → (scheme.meta old).generation ≢ (scheme.meta new).generation
      → Ours scheme kind label old
      → Passes scheme kind label (Event.update old new)
  created :
      {object : O} → Ours scheme kind label object → Passes scheme kind label (Event.create object)
  deleted :
      {object : O}
      → Ours scheme kind label object
      → Passes scheme kind label (Event.delete object false)
  generic :
      {object : O} → scheme.unset_func ≡ true → Passes scheme kind label (Event.generic object)

-- The test of one kind, in its three parts, and the test of the label.
named-parts :
    (gvk : GroupVersionKind) (kind : String)
    → (gvk.group == group_name && gvk.version == version_name && gvk.kind == kind) ≡ true
    → (gvk.group == group_name) ≡ true
      × (gvk.version == version_name) ≡ true
      × (gvk.kind == kind) ≡ true
named-parts gvk kind h = (ground arith, ground arith, ground arith)

named-eq :
    (gvk : GroupVersionKind) (kind : String)
    → (gvk.group == group_name && gvk.version == version_name && gvk.kind == kind) ≡ true
    → gvk ≡ record { group = group_name; version = version_name; kind = kind }
named-eq gvk kind h =
    let (g, v, k) = named-parts gvk kind h in
    λ i. record {
      group = (eq_iff gvk.group group_name).0 g i;
      version = (eq_iff gvk.version version_name).0 v i;
      kind = (eq_iff gvk.kind kind).0 k i;
    }

module _ {O : Type 0} (scheme : Scheme O) (kind label : String) (object : O) where
  Ours-of_test :
      (ks : Option (List GroupVersionKind))
      → scheme.object_kinds object ≡ ks
      → is_of_kinds kind label (scheme.meta object) ks ≡ true
      → Ours scheme kind label object
  unfolding is_of_kinds
  Ours-of_test none e h = ground arith
  Ours-of_test (some []) e h = ground arith
  Ours-of_test (some (gvk ∷ [])) e h =
      elim (Bool-cases
        (gvk.group == group_name && gvk.version == version_name && gvk.kind == kind)) [
          | inl n ↦ Ours.own (e ∙ (λ i. some (named-eq gvk kind n i ∷ [])))
          | inr n ↦ Ours.labelled gvk e λ z.
              let y = (eq_iff (text_at (scheme.meta object).labels label) "").1 z in ground arith
        ]
  Ours-of_test (some (gvk ∷ g ∷ gs)) e h = ground arith

  test-of_Ours :
      Ours scheme kind label object
      → is_of_kinds kind label (scheme.meta object) (scheme.object_kinds object) ≡ true
  unfolding is_of_kinds
  test-of_Ours (Ours.own e) = let k = eq_refl kind in rw e (ground arith)
  test-of_Ours (Ours.labelled gvk e h) =
      elim (Bool-cases (text_at (scheme.meta object).labels label == "")) [
        | inl y ↦ absurd (h ((eq_iff _ _).0 y))
        | inr n ↦ rw e (ground arith)
      ]

-- One filter, given as its three answers.
module _ {O : Type 0} (scheme : Scheme O) (kind label : String) where
  filter : Event O → Bool
  filter (Event.update old new) =
      not (nat_eq (scheme.meta old).generation (scheme.meta new).generation)
      && is_of_kinds kind label (scheme.meta old) (scheme.object_kinds old)
  filter (Event.create o) = is_of_kinds kind label (scheme.meta o) (scheme.object_kinds o)
  filter (Event.delete o unknown) =
      not unknown && is_of_kinds kind label (scheme.meta o) (scheme.object_kinds o)
  filter (Event.generic o) = scheme.unset_func

  filter-Passes : (e : Event O) → filter e ≡ true → Passes scheme kind label e
  unfolding filter
  filter-Passes (Event.update old new) h =
      Passes.updated (λ z. ground arith) (Ours-of_test scheme kind label old _ refl (ground arith))
  filter-Passes (Event.create o) h = Passes.created (Ours-of_test scheme kind label o _ refl h)
  filter-Passes (Event.delete o false) h =
      Passes.deleted (Ours-of_test scheme kind label o _ refl h)
  filter-Passes (Event.delete o true) h = ground arith
  filter-Passes (Event.generic o) h = Passes.generic h

  Passes-filter : (e : Event O) → Passes scheme kind label e → filter e ≡ true
  unfolding filter
  Passes-filter (Event.update old new) (Passes.updated g u) =
      let t = test-of_Ours scheme kind label old u in ground arith
  Passes-filter (Event.create o) (Passes.created u) = test-of_Ours scheme kind label o u
  Passes-filter (Event.delete o unknown) (Passes.deleted u) = test-of_Ours scheme kind label o u
  Passes-filter (Event.generic o) (Passes.generic h) = h

module _ {O : Type 0} (scheme : Scheme O) where
  backup-filter :
      (e : Event O) → volume_snapshot_backup_predicate scheme e ≡ filter scheme vsb_kind vsb_label e
  unfolding volume_snapshot_backup_predicate is_object_ours_backup filter
  backup-filter (Event.update old new) = refl
  backup-filter (Event.create o) = refl
  backup-filter (Event.delete o unknown) = refl
  backup-filter (Event.generic o) = refl

  restore-filter :
      (e : Event O)
      → volume_snapshot_restore_predicate scheme e ≡ filter scheme vsr_kind vsr_label e
  unfolding volume_snapshot_restore_predicate is_object_ours_restore filter
  restore-filter (Event.update old new) = refl
  restore-filter (Event.create o) = refl
  restore-filter (Event.delete o unknown) = refl
  restore-filter (Event.generic o) = refl

  -- Each of the two filters passes exactly these: the creations of its controller's objects, their
  -- deletions that have been seen, their updates that change the generation, and, where
  -- controller-runtime passes an event for which no function is given, every generic event. An
  -- object is the controller's if it has one registered kind, and that is the controller's kind or
  -- the object has a value under the controller's label.
  pub predicates-exact :
      (e : Event O)
      → (volume_snapshot_backup_predicate scheme e ≡ true ↔ Passes scheme vsb_kind vsb_label e)
        × (volume_snapshot_restore_predicate scheme e ≡ true ↔ Passes scheme vsr_kind vsr_label e)
  predicates-exact e =
      rw (backup-filter e, restore-filter e)
        (
          (filter-Passes scheme vsb_kind vsb_label e, Passes-filter scheme vsb_kind vsb_label e),
          (filter-Passes scheme vsr_kind vsr_label e, Passes-filter scheme vsr_kind vsr_label e),
        )
