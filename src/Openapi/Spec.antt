-- ===== src/Openapi/Spec.antt =====
-- openapi/openapi.go and openapi/handlers.go: registering operations, and the document that is built
-- and marshaled once. `json.Marshal`, `http.StatusText` and `strings.ToUpper` are parameters.
pub mod Linked
pub mod Steps
pub mod Resolves
use fibr.Prelude.{
  ℕ, Bool, true, false, Option, none, some, List, [], ◌∷◌, ◌++◌, if◌then◌else◌, ◌==◌, nat_cmp,
}
use fibr.Prelude.Bytes.{Bytes, codes, bytes_cmp, split}
use fibr.Prelude.Assoc.{lookup, insert}
use fibr.Openapi.{
  Field, Reflection, Attrs, no_attrs, Schema, node, no_property, no_child, Parameter, Response,
  Operation, PathItem, no_operation, Info, SecurityScheme,
}
use fibr.Openapi.Validate.{is_empty, json_name, parse_validate, apply_validate}
use fibr.Openapi.Schemas.{◌>>=◌, Components, is_struct, deref, schema_of, walk, validated}

abbrev bearer_scheme_name : Bytes
bearer_scheme_name = codes "bearerAuth"

-- A segment of a path, and the parameter in it.
abbrev convert_segment : Bytes → Bytes × List Bytes
convert_segment [] = ([], [])
convert_segment (c ∷ name) =
    if c == 58
    then (codes "{" ++ (name ++ codes "}"), name ∷ [])
    else if (c ∷ name) == codes "*"
    then (codes "{wildcard}", codes "wildcard" ∷ [])
    else (c ∷ name, [])

-- `strings.Join(segs, "/")`
unfoldable pub join_path : List Bytes → Bytes
join_path [] = []
join_path (seg ∷ []) = seg
join_path (seg ∷ next ∷ segs) = seg ++ 47 ∷ join_path (next ∷ segs)

unfoldable pub convert_segments : List Bytes → List Bytes × List Bytes
convert_segments [] = ([], [])
convert_segments (seg ∷ segs) =
    let (new, names) = convert_segment seg in
    let (rest, more) = convert_segments segs in (new ∷ rest, names ++ more)

unfoldable pub convert_path : Bytes → Bytes × List Bytes
convert_path path = let (segs, names) = convert_segments (split 47 path) in (join_path segs, names)

module _ (R : Reflection) where
  pub record Spec : Type 0 where
    pub info : Info
    pub paths : List (Bytes × PathItem R)
    pub component_schemas : Components R
    pub security_schemes : List (Bytes × SecurityScheme)
    pub cached : Option (Option Bytes)

  pub record Op : Type 0 where
    pub summary : Bytes
    pub description : Bytes
    pub tags : List Bytes
    pub request : Option R.GoType
    pub response : Option R.GoType
    pub query : Option R.GoType
    pub status : ℕ
    pub secured : Bool

  unfoldable pub new : Info → Spec
  new info = record {
    info = info;
    paths = [];
    component_schemas = [];
    security_schemes = [];
    cached = none;
  }

  unfoldable pub with_bearer_auth : Spec → Spec
  with_bearer_auth s = record s {
    security_schemes =
        insert bearer_scheme_name
          (record {
            type_name = codes "http";
            scheme = codes "bearer";
            bearer_format = codes "JWT";
          })
          s.security_schemes;
  }

  abbrev string_schema : Schema R
  string_schema =
      node (record (no_attrs R) { type_name = codes "string" }) no_property no_child no_child

  unfoldable pub path_parameters : List Bytes → List (Parameter R)
  path_parameters [] = []
  path_parameters (name ∷ names) =
      record { name = name; in_path = true; required = true; schema = string_schema }
      ∷ path_parameters names

  abbrev query_named :
      ℕ → Field R.GoType → Option Bytes → Components R → Option (List (Parameter R) × Components R)
  query_named n f none cs = some ([], cs)
  query_named n f (some name) cs = do
    (sc, cs') ← walk R n (schema_of f.type_of) cs
    (p, t) ← deref R n f.type_of
    some (
      record {
        name = name;
        in_path = false;
        required = (parse_validate f.validate).required;
        schema = validated R f (R.kind t) sc;
      }
          ∷ [],
      cs',
    )

  abbrev query_field :
      ℕ → Field R.GoType → Components R → Option (List (Parameter R) × Components R)
  query_field n f cs =
      if is_empty f.pkg_path then query_named n f (json_name f) cs else some ([], cs)

  unfoldable pub query_fields :
      ℕ → List (Field R.GoType) → Components R → Option (List (Parameter R) × Components R)
  query_fields n [] cs = some ([], cs)
  query_fields n (f ∷ fs) cs = do
    (params, cs') ← query_field n f cs
    (more, cs'') ← query_fields n fs cs'
    some (params ++ more, cs'')

  unfoldable pub query_params :
      ℕ → Option R.GoType → Components R → Option (List (Parameter R) × Components R)
  query_params n none cs = some ([], cs)
  query_params n (some q) cs = do
    (p, t) ← deref R n q
    (if is_struct (R.kind t) then query_fields n (R.fields t) cs else some ([], cs))

  -- The schema of a value that may be missing.
  unfoldable pub schema_if :
      ℕ → Option R.GoType → Components R → Option (Option (Schema R) × Components R)
  schema_if n none cs = some (none, cs)
  schema_if n (some t) cs = do (sc, cs') ← walk R n (schema_of t) cs; some (some sc, cs')

  module _ (status_text : ℕ → Bytes) (to_upper : Bytes → Bytes) where
    abbrev status_of : ℕ → ℕ
    status_of n = if n == 0 then 200 else n

    abbrev description_of : ℕ → Bytes
    description_of n = if is_empty (status_text n) then codes "response" else status_text n

    abbrev operation_of :
        Op → List (Parameter R) → Option (Schema R) → Option (Schema R) → Operation R
    operation_of op params body content = record {
      summary = op.summary;
      description = op.description;
      tags = op.tags;
      parameters = params;
      request_body = body;
      response = record {
        status = status_of op.status;
        description = description_of (status_of op.status);
        content = content;
      };
      security = if op.secured then bearer_scheme_name ∷ [] else [];
    }

    unfoldable pub build_operation :
        ℕ → List Bytes → Op → Components R → Option (Operation R × Components R)
    build_operation n names op cs = do
      (query, cs1) ← query_params n op.query cs
      (body, cs2) ← schema_if n op.request cs1
      (content, cs3) ← schema_if n op.response cs2
      some (operation_of op (path_parameters names ++ query) body content, cs3)

    -- A method that is not among these is passed over.
    unfoldable pub set_op : PathItem R → Bytes → Operation R → PathItem R
    set_op item method o =
        let m = to_upper method in
        if m == codes "GET"
        then record item { get = some o }
        else if m == codes "POST"
        then record item { post = some o }
        else if m == codes "PUT"
        then record item { put = some o }
        else if m == codes "PATCH"
        then record item { patch = some o }
        else if m == codes "DELETE"
        then record item { delete = some o }
        else if m == codes "HEAD"
        then record item { head = some o }
        else if m == codes "OPTIONS"
        then record item { options = some o }
        else item

    abbrev item_of : Option (PathItem R) → PathItem R
    item_of none = no_operation R
    item_of (some item) = item

    abbrev pub store_op : Bytes → Bytes → Spec → Operation R × Components R → Spec
    store_op method p s (o, cs) = record s {
      paths = insert p (set_op (item_of (lookup p s.paths)) method o) s.paths;
      component_schemas = cs;
    }

    unfoldable pub register : ℕ → Bytes → Bytes → Op → Spec → Option Spec
    register n method path op s = do
      built ← build_operation n (convert_path path).1 op s.component_schemas
      some (store_op method (convert_path path).0 s built)

  pub record ComponentList : Type 0 where
    pub schemas : Components R
    pub security_schemes : List (Bytes × SecurityScheme)

  pub record Document : Type 0 where
    pub openapi : Bytes
    pub info : Info
    pub paths : List (Bytes × PathItem R)
    pub components : Option ComponentList

  abbrev components_of : Components R → List (Bytes × SecurityScheme) → Option ComponentList
  components_of [] [] = none
  components_of cs schemes = some (record { schemas = cs; security_schemes = schemes })

  unfoldable pub build : Spec → Document
  build s = record {
    openapi = codes "3.0.3";
    info = s.info;
    paths = s.paths;
    components = components_of s.component_schemas s.security_schemes;
  }

  module _ (marshal : Document → Option Bytes) where
    abbrev cached_bytes : Spec → Option (Option Bytes) → Spec × Option Bytes
    cached_bytes s (some b) = (s, b)
    cached_bytes s none = let b = marshal (build s) in (record s { cached = some b }, b)

    -- `s.once.Do`: none of the answer is the marshaler's error.
    unfoldable pub spec_bytes : Spec → Spec × Option Bytes
    spec_bytes s = cached_bytes s s.cached
