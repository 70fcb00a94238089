-- ===== src/Openapi/Examples.antt =====
-- openapi: runs of the code.
use fibr.Prelude.{ℕ, ◌≡◌, refl, Bool, true, false, Option, some, none, List, [], ◌∷◌}
use fibr.Prelude.Bytes.{Bytes, codes, bytes_cmp, split, cut, trim_space, trim_left, trim_right}
use fibr.Prelude.Assoc.{lookup, insert, delete}
use fibr.Openapi.{Kind, string_kind, struct_kind, pointer_kind, slice_kind, Field, Reflection, Info}
use fibr.Openapi.Validate.{json_name, parse_validate, apply_validate}
use fibr.Openapi.Schemas.{
  schema_of, deref, struct_schema, base_schema, schema_for, set_property, add_field, object_fields,
  object_schema, walk,
}
use fibr.Openapi.Schemas.Endless.{embeds_itself, walk_endless}
use fibr.Openapi.Spec.{
  Spec, Op, new, with_bearer_auth, query_fields, query_params, schema_if, build_operation, register,
  convert_path, convert_segments, join_path,
}
use fibr.Openapi.Schemas.Closed.{PlainNames, is_word}
use fibr.Openapi.Spec.Linked.{Linked}
use fibr.Openapi.Spec.Resolves.{fresh, bearer, operation, Registered-Linked}

-- A user has a boss and reports; a list of itself; a node that embeds a pointer to itself.
data Sample : Type 0 where
  text user boss reports nested tree tree_pointer : Sample

abbrev field : Bytes → Sample → Bool → Bytes → Field Sample
field name t anonymous validate = record {
  name = name;
  pkg_path = [];
  anonymous = anonymous;
  type_of = t;
  json = [];
  validate = validate;
}

abbrev kind_of : Sample → Kind
kind_of text = string_kind
kind_of user = struct_kind
kind_of boss = pointer_kind
kind_of reports = slice_kind
kind_of nested = slice_kind
kind_of tree = struct_kind
kind_of tree_pointer = pointer_kind

abbrev elem_of : Sample → Sample
elem_of boss = user
elem_of reports = user
elem_of tree_pointer = tree
elem_of t = t

abbrev name_of : Sample → Bytes
name_of user = codes "User"
name_of tree = codes "Tree"
name_of t = []

abbrev fields_of : Sample → List (Field Sample)
fields_of user =
    field (codes "ID") text false (codes "required,min=3")
    ∷ field (codes "Boss") boss false []
    ∷ field (codes "Reports") reports false []
    ∷ []
fields_of tree = field (codes "Tree") tree_pointer true [] ∷ []
fields_of t = []

abbrev sample : Reflection
sample = record {
  GoType = Sample;
  kind = kind_of;
  elem_of = elem_of;
  name = name_of;
  fields = fields_of;
  is_time = λ t. false;
  Float = ℕ;
  parse_float = λ raw. none;
}

abbrev info : Info
info = record { title = codes "Staff"; version = codes "1"; description = [] }

abbrev show_user : Op sample
show_user = record {
  summary = codes "Show";
  description = [];
  tags = [];
  request = none;
  response = some user;
  query = some reports;
  status = 0;
  secured = true;
}

abbrev made : Option (Spec sample) → Spec sample
made none = new sample info
made (some s) = s

abbrev staff : Spec sample
staff = made (
    register sample (λ n. codes "OK") (λ m. m) 9 (codes "GET") (codes "/users/:id") show_user
      (with_bearer_auth sample (new sample info)))

sample_names : PlainNames sample
unfolding is_word
sample_names text = refl
sample_names user = refl
sample_names boss = refl
sample_names reports = refl
sample_names nested = refl
sample_names tree = refl
sample_names tree_pointer = refl

Registered-Linked_example : Linked sample staff
unfolding register build_operation query_params query_fields schema_if walk schema_for base_schema
    deref struct_schema object_schema object_fields add_field set_property lookup insert delete
    json_name cut parse_validate apply_validate split trim_space trim_left trim_right convert_path
    convert_segments join_path new with_bearer_auth
Registered-Linked_example =
    Registered-Linked sample sample_names (λ n. codes "OK") (λ m. m) staff
      (operation 9 (codes "GET") (codes "/users/:id") show_user
        (with_bearer_auth sample (new sample info)) staff (bearer (new sample info) (fresh info))
        refl)

walk_endless_example : walk sample 1000 (schema_of tree) [] ≡ none
unfolding lookup
walk_endless_example =
    walk_endless sample tree 1000 []
      (embeds_itself (field (codes "Tree") tree_pointer true []) [] refl refl refl refl refl refl
        refl refl)
      refl
