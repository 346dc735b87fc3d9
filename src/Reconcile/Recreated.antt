-- ===== src/Reconcile/Recreated.antt =====
-- Reconciling pods and services comes to rest: they are deleted and made anew.
use webmesh_vdi.Prelude.{
  ◌≡◌, refl, sym, ◌∙◌, ap, inl, inr, ℕ, String, true, false, Option, none, some, Bool-cases,
  if◌then◌else◌,
}
use mathlib.Core.Path.{subst}
use webmesh_vdi.Desktop.Types.{done, requeue}
use webmesh_vdi.Reconcile.Types.{
  Object, StoredObject, Calls, annotated, set_creation_spec_annotation, creation_specs_equal,
}
use webmesh_vdi.Reconcile.Kinds.{
  Reconciled, create_object, annotate_and, recreate_service, service, recreate_pod, pod,
}
use webmesh_vdi.Reconcile.Settled.{AllOk, signed, Honest, carried, carries, Settles}

module _ {S : Type 0} where
  -- A pod whose deletion was asked for goes away before the next call.
  unfoldable pub vanish : Option (StoredObject S) → Option (StoredObject S)
  vanish none = none
  vanish (some s) = if s.is_terminating then none else some s

  module _ (checksum : Object S → Option String) (wanted : Object S) (sum : String)
      (has_sum : checksum wanted ≡ some sum) where
    pod_annotated :
        (c : Calls) (st : Option (StoredObject S))
        → c.get_ok ≡ true
        → pod c checksum wanted st ≡ recreate_pod c checksum (signed wanted sum) st
    unfolding pod annotate_and set_creation_spec_annotation annotated
    pod_annotated c st h = simp (has_sum, h) refl

    service_annotated :
        (c : Calls) (st : Option (StoredObject S))
        → c.get_ok ≡ true
        → service c checksum wanted st ≡ recreate_service c checksum (signed wanted sum) st
    unfolding service annotate_and set_creation_spec_annotation annotated
    service_annotated c st h = simp (has_sum, h) refl

    module _ (c c' : Calls) (ok : AllOk c) (got : c'.get_ok ≡ true) where
      abbrev made : StoredObject S
      made = record { object = signed wanted sum; is_terminating = false; ready_replicas = 0 }

      made_equal : creation_specs_equal (signed wanted sum) (signed wanted sum) ≡ true
      made_equal = carries wanted (signed wanted sum) sum refl

      pod-create : Settles (pod c' checksum wanted) wanted (pod c checksum wanted none)
      unfolding recreate_pod create_object
      pod-create = (
        made,
        pod_annotated c none ok.got ∙ (simp ok.created refl),
        refl,
        pod_annotated c' (some made) got ∙ (simp made_equal refl),
      )

      service-create : Settles (service c' checksum wanted) wanted (service c checksum wanted none)
      unfolding recreate_service create_object
      service-create = (
        made,
        service_annotated c none ok.got ∙ (simp ok.created refl),
        refl,
        service_annotated c' (some made) got ∙ (simp made_equal refl),
      )

      SettlesNext : Reconciled S → Type 0
      SettlesNext first =
          Settles (pod c' checksum wanted) wanted (pod c checksum wanted (vanish first.1))

      pod-kept :
          (c'' : Calls) (s : StoredObject S)
          → c''.get_ok ≡ true
          → s.is_terminating ≡ false
          → creation_specs_equal (signed wanted sum) s.object ≡ true
          → pod c'' checksum wanted (some s) ≡ (done tt, some s)
      unfolding recreate_pod
      pod-kept c'' s g t e = pod_annotated c'' (some s) g ∙ (simp (t, e) refl)

      kept_next :
          (s : StoredObject S)
          → s.is_terminating ≡ false
          → creation_specs_equal (signed wanted sum) s.object ≡ true
          → s.object.spec ≡ wanted.spec
          → SettlesNext (done tt, some s)
      unfolding SettlesNext vanish
      kept_next s t e w =
          let stays : vanish (some s) ≡ some s = simp t refl in
          (s, ap (pod c checksum wanted) stays ∙ pod-kept c s ok.got t e, w, pod-kept c' s got t e)

      gone_next :
          (n : ℕ) (s : StoredObject S) → s.is_terminating ≡ true → SettlesNext (requeue n, some s)
      unfolding SettlesNext vanish
      gone_next n s t = rw t pod-create

      pod-again :
          (st : Option (StoredObject S))
          → ((old : StoredObject S) → st ≡ some old → Honest wanted sum old)
          → SettlesNext (pod c checksum wanted st)
      unfolding recreate_pod create_object
      pod-again none h =
          subst SettlesNext (sym (pod_annotated c none ok.got ∙ (simp ok.created refl)))
            (kept_next made refl made_equal refl)
      pod-again (some old) h = elim (Bool-cases old.is_terminating) [
        | inl t ↦
            subst SettlesNext (sym (pod_annotated c (some old) ok.got ∙ (simp t refl)))
              (gone_next 3 old t)
        | inr t ↦ elim (Bool-cases (creation_specs_equal (signed wanted sum) old.object)) [
          | inl e ↦
              subst SettlesNext (sym (pod-kept c old ok.got t e))
                (kept_next old t e (h old refl (carried wanted old.object sum e)))
          | inr e ↦
              subst SettlesNext
                (sym (pod_annotated c (some old) ok.got ∙ (simp (t, e, ok.deleted) refl)))
                (gone_next 3 (record old { is_terminating = true }) refl)
        ]
      ]

      SettlesAgain : Reconciled S → Type 0
      SettlesAgain first =
          Settles (service c' checksum wanted) wanted (service c checksum wanted first.1)

      service-kept :
          (c'' : Calls) (s : StoredObject S)
          → c''.get_ok ≡ true
          → creation_specs_equal (signed wanted sum) s.object ≡ true
          → service c'' checksum wanted (some s) ≡ (done tt, some s)
      unfolding recreate_service
      service-kept c'' s g e = service_annotated c'' (some s) g ∙ (simp e refl)

      service-again :
          (st : Option (StoredObject S))
          → ((old : StoredObject S) → st ≡ some old → Honest wanted sum old)
          → SettlesAgain (service c checksum wanted st)
      unfolding SettlesAgain recreate_service create_object
      service-again none h =
          let first : service c checksum wanted none ≡ (done tt, some made) =
            service_annotated c none ok.got ∙ (simp ok.created refl) in
          subst SettlesAgain (sym first)
            (made, service-kept c made ok.got made_equal, refl, service-kept c' made got made_equal)
      service-again (some old) h =
          elim (Bool-cases (creation_specs_equal (signed wanted sum) old.object)) [
            | inl e ↦ subst SettlesAgain (sym (service-kept c old ok.got e)) (
              old,
              service-kept c old ok.got e,
              h old refl (carried wanted old.object sum e),
              service-kept c' old got e,
            )
            | inr e ↦
                let first : service c checksum wanted (some old) ≡ (requeue 2, none) =
                  service_annotated c (some old) ok.got ∙ (simp (e, ok.deleted) refl) in
                subst SettlesAgain (sym first) service-create
          ]

      -- Pods and services are not updated but deleted and made anew. Where the API server answers,
      -- the second call leaves one with the wanted spec, whatever there was before the first, if a
      -- pod whose deletion was asked for goes away in between; and a later call that gets this object
      -- finds nothing to do. The checksum of the wanted object can be computed, and an object that
      -- carries it has its spec.
      pub recreates-Settle :
          (st : Option (StoredObject S))
          → ((old : StoredObject S) → st ≡ some old → Honest wanted sum old)
          → Settles
              (pod c' checksum wanted)
              wanted
              (pod c checksum wanted (vanish (pod c checksum wanted st).1))
            × Settles
                (service c' checksum wanted)
                wanted
                (service c checksum wanted (service c checksum wanted st).1)
      unfolding SettlesNext SettlesAgain
      recreates-Settle st h = (pod-again st h, service-again st h)
