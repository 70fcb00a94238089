-- ===== src/Openapi/Spec/Linked.antt =====
-- openapi/openapi.go: a document whose references name components.
use fibr.Prelude.{
  ◌≡◌, Bool, true, false, Option, none, some, List, [], ◌∷◌, if◌then◌else◌, All, nat_cmp,
}
use fibr.Prelude.Bytes.{Bytes, bytes_cmp}
use fibr.Prelude.Assoc.{lookup}
use fibr.Openapi.{Reflection, Schema, Parameter, Operation, PathItem}
use fibr.Openapi.Schemas.{Components}
use fibr.Openapi.Schemas.Refs.{refs, AllRefs}
use fibr.Openapi.Schemas.Closed.{Defined, Closed, Grows, All-Grows}
use fibr.Openapi.Spec.{Spec}

module _ (R : Reflection) where
  abbrev pub LinkedParameter : Components R → Parameter R → Type 0
  LinkedParameter cs p = AllRefs R (Defined R cs) p.schema

  abbrev pub LinkedSchema : Components R → Option (Schema R) → Type 0
  LinkedSchema cs none = Unit {0}
  LinkedSchema cs (some sc) = AllRefs R (Defined R cs) sc

  -- The references of an operation name components.
  pub record LinkedOperation (cs : Components R) (o : Operation R) : Type 0 where
    pub parameters : All (LinkedParameter cs) o.parameters
    pub body : LinkedSchema cs o.request_body
    pub content : LinkedSchema cs o.response.content

  abbrev pub LinkedOption : Components R → Option (Operation R) → Type 0
  LinkedOption cs none = Unit {0}
  LinkedOption cs (some o) = LinkedOperation cs o

  pub record LinkedItem (cs : Components R) (item : PathItem R) : Type 0 where
    pub get : LinkedOption cs item.get
    pub post : LinkedOption cs item.post
    pub put : LinkedOption cs item.put
    pub patch : LinkedOption cs item.patch
    pub delete : LinkedOption cs item.delete
    pub head : LinkedOption cs item.head
    pub options : LinkedOption cs item.options

  -- Every reference in the components and in the operations of the document names a component.
  pub record Linked (s : Spec R) : Type 0 where
    pub components : Closed R s.component_schemas
    pub operations :
        (p : Bytes) (item : PathItem R)
        → lookup p s.paths ≡ some item
        → LinkedItem s.component_schemas item

module _ (R : Reflection) (cs cs' : Components R) (grows : Grows R cs cs') where
  pub grown_parameters :
      (ps : List (Parameter R)) → All (LinkedParameter R cs) ps → All (LinkedParameter R cs') ps
  grown_parameters [] h = tt
  grown_parameters (p ∷ ps) h =
      (All-Grows R cs cs' (refs R p.schema) grows h.0, grown_parameters ps h.1)

  pub grown_schema : (sc : Option (Schema R)) → LinkedSchema R cs sc → LinkedSchema R cs' sc
  grown_schema none h = tt
  grown_schema (some sc) h = All-Grows R cs cs' (refs R sc) grows h

  pub grown_option : (o : Option (Operation R)) → LinkedOption R cs o → LinkedOption R cs' o
  grown_option none h = tt
  grown_option (some o) h = record {
    parameters = grown_parameters o.parameters h.parameters;
    body = grown_schema o.request_body h.body;
    content = grown_schema o.response.content h.content;
  }

  pub grown_item : (item : PathItem R) → LinkedItem R cs item → LinkedItem R cs' item
  grown_item item h = record {
    get = grown_option item.get h.get;
    post = grown_option item.post h.post;
    put = grown_option item.put h.put;
    patch = grown_option item.patch h.patch;
    delete = grown_option item.delete h.delete;
    head = grown_option item.head h.head;
    options = grown_option item.options h.options;
  }

pub pick-LinkedItem :
    (R : Reflection) (cs : Components R) (b : Bool) (x y : PathItem R)
    → LinkedItem R cs x
    → LinkedItem R cs y
    → LinkedItem R cs (if b then x else y)
pick-LinkedItem R cs true x y h g = h
pick-LinkedItem R cs false x y h g = g
