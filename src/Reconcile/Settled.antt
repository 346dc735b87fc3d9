-- ===== src/Reconcile/Settled.antt =====
-- Reconciling comes to rest: the object is what is wanted, and nothing more is changed.
use webmesh_vdi.Prelude.{
  ◌≡◌, refl, sym, ◌∙◌, ap, inl, inr, String, true, false, Option, none, some, arith, Bool-cases,
  eq_iff,
}
use text.Mathlib.Text.{◌==◌}
use webmesh_vdi.Desktop.Keyed.{lookup_key, put_key, lookup-put_key}
use webmesh_vdi.Desktop.Types.{done}
use webmesh_vdi.Reconcile.Types.{
  Object, StoredObject, Calls, creation_spec_annotation, same_checksum, annotated,
  set_creation_spec_annotation, creation_specs_equal,
}
use webmesh_vdi.Reconcile.Kinds.{
  Reconciled, with_spec, with_labels, create_object, update_object, update_changed, annotate_and,
  updating, config_map, cluster_role, cluster_role_binding, vdi_role, prometheus, service_monitor,
}

-- The API server answers.
pub record AllOk (c : Calls) : Type 0 where
  pub got : c.get_ok ≡ true
  pub created : c.create_ok ≡ true
  pub updated : c.update_ok ≡ true
  pub deleted : c.delete_ok ≡ true

same_refl : (s : String) → (s == s) ≡ true
same_refl s = ground (arith, eq_iff s s)

-- Two checksums of which the wanted one is known.
same_checksum_iff :
    (sum : String) (o : Option String) → same_checksum (some sum) o ≡ true → o ≡ some sum
unfolding same_checksum
same_checksum_iff sum none h = absurd (cc h)
same_checksum_iff sum (some t) h = ap some (ground (arith, eq_iff sum t, h))

module _ {S : Type 0} where
  -- The object as it is created.
  abbrev pub signed : Object S → String → Object S
  signed wanted sum = record wanted {
    annotations = put_key creation_spec_annotation sum wanted.annotations;
  }

  -- An object that carries the checksum of the wanted one has its spec.
  abbrev pub Honest : Object S → String → StoredObject S → Type 0
  Honest wanted sum old =
      lookup_key creation_spec_annotation old.object.annotations ≡ some sum
      → old.object.spec ≡ wanted.spec

  pub equal_signed :
      (wanted old : Object S) (sum : String)
      → creation_specs_equal (signed wanted sum) old
        ≡ same_checksum (some sum) (lookup_key creation_spec_annotation old.annotations)
  unfolding creation_specs_equal
  equal_signed wanted old sum =
      rw (lookup-put_key creation_spec_annotation sum wanted.annotations) refl

  pub carried :
      (wanted old : Object S) (sum : String)
      → creation_specs_equal (signed wanted sum) old ≡ true
      → lookup_key creation_spec_annotation old.annotations ≡ some sum
  carried wanted old sum h =
      same_checksum_iff sum (lookup_key creation_spec_annotation old.annotations)
        (sym (equal_signed wanted old sum) ∙ h)

  -- An object with the annotations of the wanted one counts as equal to it.
  pub carries :
      (wanted old : Object S) (sum : String)
      → old.annotations ≡ put_key creation_spec_annotation sum wanted.annotations
      → creation_specs_equal (signed wanted sum) old ≡ true
  unfolding same_checksum
  carries wanted old sum h =
      equal_signed wanted old sum
      ∙ (rw (h, lookup-put_key creation_spec_annotation sum wanted.annotations) (same_refl sum))

  -- A call ends with an object of the wanted spec, and a later call finds nothing to do then.
  abbrev pub Settles : (Option (StoredObject S) → Reconciled S) → Object S → Reconciled S → Type 0
  Settles later wanted out =
      (s : StoredObject S) × (out ≡ (done tt, some s))
      × (s.object.spec ≡ wanted.spec)
      × (later (some s) ≡ (done tt, some s))

  module _ (checksum : Object S → Option String) (wanted : Object S) (sum : String)
      (has_sum : checksum wanted ≡ some sum) where
    pub updating_annotated :
        (c : Calls) (merge : Object S → Object S → Object S) (st : Option (StoredObject S))
        → c.get_ok ≡ true
        → updating c checksum merge wanted st ≡ update_changed c merge (signed wanted sum) st
    unfolding updating annotate_and set_creation_spec_annotation annotated
    updating_annotated c merge st h = simp (has_sum, h) refl

    unchanged :
        (c : Calls) (merge : Object S → Object S → Object S) (s : StoredObject S)
        → c.get_ok ≡ true
        → creation_specs_equal (signed wanted sum) s.object ≡ true
        → updating c checksum merge wanted (some s) ≡ (done tt, some s)
    unfolding update_changed
    unchanged c merge s h e = updating_annotated c merge (some s) h ∙ (simp e refl)

    updating-Settles :
        (c c' : Calls) (merge : Object S → Object S → Object S) (st : Option (StoredObject S))
        → ((w o : Object S)
            → ((merge w o).spec ≡ w.spec) × ((merge w o).annotations ≡ w.annotations))
        → AllOk c
        → c'.get_ok ≡ true
        → ((old : StoredObject S) → st ≡ some old → Honest wanted sum old)
        → Settles (updating c' checksum merge wanted) wanted (updating c checksum merge wanted st)
    unfolding update_changed create_object update_object
    updating-Settles c c' merge none m ok g h =
        let made : StoredObject S = record {
          object = signed wanted sum;
          is_terminating = false;
          ready_replicas = 0;
        } in
        (
          made,
          updating_annotated c merge none ok.got ∙ (simp ok.created refl),
          refl,
          unchanged c' merge made g (carries wanted (signed wanted sum) sum refl),
        )
    updating-Settles c c' merge (some old) m ok g h =
        elim (Bool-cases (creation_specs_equal (signed wanted sum) old.object)) [
          | inl e ↦ (
            old,
            unchanged c merge old ok.got e,
            h old refl (carried wanted old.object sum e),
            unchanged c' merge old g e,
          )
          | inr e ↦
              let next : StoredObject S = record old {
                object = merge (signed wanted sum) old.object;
              } in
              let laws = m (signed wanted sum) old.object in
              (
                next,
                updating_annotated c merge (some old) ok.got ∙ (simp (e, ok.updated) refl),
                laws.0,
                unchanged c' merge next g (carries wanted next.object sum laws.1),
              )
        ]

    -- Where the API server answers, each of the six functions that update an object (config maps,
    -- cluster roles and their bindings, VDIRoles, Prometheus instances and service monitors) leaves an
    -- object with the wanted spec, whether there was one or not, and a later call that gets this object
    -- finds nothing to do, whatever else the API server refuses then.
    -- The checksum of the wanted object can be computed, and an object that carries it has its spec.
    pub updates-Settle :
        (c c' : Calls) (st : Option (StoredObject S))
        → AllOk c
        → c'.get_ok ≡ true
        → ((old : StoredObject S) → st ≡ some old → Honest wanted sum old)
        → Settles (config_map c' checksum wanted) wanted (config_map c checksum wanted st)
          × Settles (cluster_role c' checksum wanted) wanted (cluster_role c checksum wanted st)
          × Settles
              (cluster_role_binding c' checksum wanted)
              wanted
              (cluster_role_binding c checksum wanted st)
          × Settles (vdi_role c' checksum wanted) wanted (vdi_role c checksum wanted st)
          × Settles (prometheus c' checksum wanted) wanted (prometheus c checksum wanted st)
          × Settles
              (service_monitor c' checksum wanted)
              wanted
              (service_monitor c checksum wanted st)
    unfolding config_map cluster_role cluster_role_binding vdi_role prometheus service_monitor
        with_spec with_labels
    updates-Settle c c' st ok g h =
        let spec = updating-Settles c c' with_spec st (λ w o. (refl, refl)) ok g h in
        let labels = updating-Settles c c' with_labels st (λ w o. (refl, refl)) ok g h in
        (spec, spec, spec, labels, labels, labels)
