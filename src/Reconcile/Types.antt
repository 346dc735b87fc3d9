-- ===== src/Reconcile/Types.antt =====
-- Objects with the annotation that records what they were made from: SetCreationSpecAnnotation and
-- CreationSpecsEqual of pkg/util/k8sutil/util.go.
use webmesh_vdi.Prelude.{ℕ, String, Bool, false, Option, none, some, List}
use text.Mathlib.Text.{◌==◌}
use webmesh_vdi.Desktop.Keyed.{lookup_key, put_key}

-- The part that a function copies over is the spec: the data of a config map, the rules of a role.
pub record Object (S : Type 0) : Type 0 where
  pub spec : S
  pub labels : List (String × String)
  pub annotations : List (String × String)

-- An object as the API server has it.
pub record StoredObject (S : Type 0) : Type 0 where
  pub object : Object S
  pub is_terminating : Bool
  pub ready_replicas : ℕ

-- Which calls of the client the API server answers, a missing object included.
pub record Calls : Type 0 where
  pub get_ok : Bool
  pub create_ok : Bool
  pub update_ok : Bool
  pub delete_ok : Bool
  pub get_again_ok : Bool

abbrev pub creation_spec_annotation : String
creation_spec_annotation = "kvdi.io/creation-spec"

-- The two checksums of CreationSpecsEqual, where they are there.
unfoldable pub same_checksum : Option String → Option String → Bool
same_checksum none found = false
same_checksum (some s) none = false
same_checksum (some s) (some t) = s == t

module _ {S : Type 0} where
  -- The checksum of the object's JSON is a parameter, none for an error of its encoding.
  unfoldable pub annotated : Object S → Option String → Option (Object S)
  annotated o none = none
  annotated o (some sum) =
      some (record o { annotations = put_key creation_spec_annotation sum o.annotations })

  unfoldable pub set_creation_spec_annotation :
      (Object S → Option String) → Object S → Option (Object S)
  unfolding annotated
  set_creation_spec_annotation checksum o = annotated o (checksum o)

  unfoldable pub creation_specs_equal : Object S → Object S → Bool
  creation_specs_equal wanted old =
      same_checksum (lookup_key creation_spec_annotation wanted.annotations)
        (lookup_key creation_spec_annotation old.annotations)
