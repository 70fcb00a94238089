-- ===== src/Openapi/Spec/Resolves.antt =====
-- openapi/openapi.go: where the references of a specification lead.
use fibr.Prelude.{
  ℕ, ◌≡◌, subst, Option, none, some, List, inl, inr, ◌==◌, Bool-cases, Option-cases, arith, nat_cmp,
}
use fibr.Prelude.Bytes.{Bytes, codes, bytes_cmp, All-append}
use fibr.Prelude.Assoc.{lookup, lookup-insert}
use fibr.Openapi.{Reflection, Operation, PathItem, no_operation, Info}
use fibr.Openapi.Schemas.{◌>>=◌, Components}
use fibr.Openapi.Schemas.Closed.{PlainNames, Closed, Grows, same_Grows}
use fibr.Openapi.Spec.{
  Spec, Op, new, with_bearer_auth, path_parameters, query_params, schema_if, build_operation,
  set_op, item_of, store_op, register, convert_path,
}
use fibr.Openapi.Spec.Linked.{
  LinkedParameter, LinkedSchema, LinkedOperation, LinkedItem, Linked, grown_parameters,
  grown_schema, grown_item, pick-LinkedItem,
}
use fibr.Openapi.Spec.Steps.{
  Leaves, bind-Leaves, LinkedAll, query_params-Leaves, schema_if-Leaves, path_parameters-Linked,
}

module _ (R : Reflection) (plain_names : PlainNames R) (status_text : ℕ → Bytes)
    (to_upper : Bytes → Bytes) where
  build_operation-Leaves :
      (n : ℕ) (names : List Bytes) (op : Op R) (cs : Components R)
      → Closed R cs
      → Leaves R plain_names
          (LinkedOperation R)
          cs
          (build_operation R status_text to_upper n names op cs)
  unfolding build_operation
  build_operation-Leaves n names op cs closed =
      bind-Leaves R plain_names (LinkedAll R plain_names) (LinkedOperation R) cs
        (query_params R n op.query cs) _ (query_params-Leaves R plain_names n op.query cs closed)
        (λ query cs1 _ closed1 hq.
          bind-Leaves R plain_names (LinkedSchema R) (LinkedOperation R) cs1
            (schema_if R n op.request cs1) _
            (schema_if-Leaves R plain_names n op.request cs1 closed1)
            (λ body cs2 g2 closed2 hb.
              bind-Leaves R plain_names (LinkedSchema R) (LinkedOperation R) cs2
                (schema_if R n op.response cs2) _
                (schema_if-Leaves R plain_names n op.response cs2 closed2)
                (λ content cs3 g3 closed3 hc. (
                  same_Grows R cs3,
                  closed3,
                  record {
                    parameters =
                        All-append (LinkedParameter R cs3) (path_parameters R names) query
                          (path_parameters-Linked R plain_names names cs3)
                          (grown_parameters R cs2 cs3 g3 query
                            (grown_parameters R cs1 cs2 g2 query hq));
                    body = grown_schema R cs2 cs3 g3 body hb;
                    content = hc;
                  },
                ))))

  set_op-Linked :
      (cs : Components R) (item : PathItem R) (method : Bytes) (o : Operation R)
      → LinkedItem R cs item
      → LinkedOperation R cs o
      → LinkedItem R cs (set_op R status_text to_upper item method o)
  unfolding set_op
  set_op-Linked cs item method o h g =
      let m = to_upper method in
      let put_one = pick-LinkedItem R cs in
      put_one (m == codes "GET") (record item { get = some o }) _
        (record {
          get = g;
          post = h.post;
          put = h.put;
          patch = h.patch;
          delete = h.delete;
          head = h.head;
          options = h.options;
        })
        (put_one (m == codes "POST") (record item { post = some o }) _
          (record {
            get = h.get;
            post = g;
            put = h.put;
            patch = h.patch;
            delete = h.delete;
            head = h.head;
            options = h.options;
          })
          (put_one (m == codes "PUT") (record item { put = some o }) _
            (record {
              get = h.get;
              post = h.post;
              put = g;
              patch = h.patch;
              delete = h.delete;
              head = h.head;
              options = h.options;
            })
            (put_one (m == codes "PATCH") (record item { patch = some o }) _
              (record {
                get = h.get;
                post = h.post;
                put = h.put;
                patch = g;
                delete = h.delete;
                head = h.head;
                options = h.options;
              })
              (put_one (m == codes "DELETE") (record item { delete = some o }) _
                (record {
                  get = h.get;
                  post = h.post;
                  put = h.put;
                  patch = h.patch;
                  delete = g;
                  head = h.head;
                  options = h.options;
                })
                (put_one (m == codes "HEAD") (record item { head = some o }) _
                  (record {
                    get = h.get;
                    post = h.post;
                    put = h.put;
                    patch = h.patch;
                    delete = h.delete;
                    head = g;
                    options = h.options;
                  })
                  (put_one (m == codes "OPTIONS") (record item { options = some o }) _
                    (record {
                      get = h.get;
                      post = h.post;
                      put = h.put;
                      patch = h.patch;
                      delete = h.delete;
                      head = h.head;
                      options = g;
                    })
                    h))))))

  no_operation-Linked : (cs : Components R) → LinkedItem R cs (no_operation R)
  no_operation-Linked cs = record {
    get = tt;
    post = tt;
    put = tt;
    patch = tt;
    delete = tt;
    head = tt;
    options = tt;
  }

  item_of-Linked :
      (s : Spec R) (cs : Components R) (p : Bytes)
      → Linked R s
      → Grows R s.component_schemas cs
      → LinkedItem R cs (item_of R status_text to_upper (lookup p s.paths))
  item_of-Linked s cs p linked grows = elim (Option-cases (lookup p s.paths)) [
    | inl absent ↦ rw absent (no_operation-Linked cs)
    | inr there ↦
        rw there.1
          (grown_item R s.component_schemas cs grows there.0 (linked.operations p there.0 there.1))
  ]

  store_op-Linked :
      (method p : Bytes) (s : Spec R) (o : Operation R) (cs : Components R)
      → Linked R s
      → Grows R s.component_schemas cs
      → Closed R cs
      → LinkedOperation R cs o
      → Linked R (store_op R status_text to_upper method p s (o, cs))
  store_op-Linked method p s o cs linked grows closed h =
      let item =
        set_op R status_text to_upper (item_of R status_text to_upper (lookup p s.paths)) method
          o in
      let fresh = set_op-Linked cs _ method o (item_of-Linked s cs p linked grows) h in
      record {
        components = closed;
        operations = λ q found there. elim (Bool-cases (p == q)) [
          | inl own ↦
              let same : item ≡ found = ground (arith, lookup-insert p q item s.paths) in
              subst (LinkedItem R cs) same fresh
          | inr other ↦
              grown_item R s.component_schemas cs grows found
                (linked.operations q found (ground (arith, lookup-insert p q item s.paths)))
        ];
      }

  stored-Linked :
      (method p : Bytes) (s s' : Spec R) (built : Option (Operation R × Components R))
      → Linked R s
      → Leaves R plain_names (LinkedOperation R) s.component_schemas built
      → (built >>= (λ b. some (store_op R status_text to_upper method p s b))) ≡ some s'
      → Linked R s'
  stored-Linked method p s s' none linked h e = absurd (ground arith)
  stored-Linked method p s s' (some (o, cs)) linked h e =
      let same : store_op R status_text to_upper method p s (o, cs) ≡ s' = ground arith in
      subst (Linked R) same (store_op-Linked method p s o cs linked h.0 h.1 h.2)

  pub register-Linked :
      (n : ℕ) (method path : Bytes) (op : Op R) (s s' : Spec R)
      → Linked R s
      → register R status_text to_upper n method path op s ≡ some s'
      → Linked R s'
  unfolding register
  register-Linked n method path op s s' linked e =
      stored-Linked method (convert_path path).0 s s' _ linked
        (build_operation-Leaves n (convert_path path).1 op s.component_schemas linked.components) e

module _ (R : Reflection) (status_text : ℕ → Bytes) (to_upper : Bytes → Bytes) where
  -- A specification as it is made by the operations of the package.
  pub data Registered : Spec R → Type 0 where
    fresh : (info : Info) → Registered (new R info)
    bearer : (s : Spec R) → Registered s → Registered (with_bearer_auth R s)
    operation :
        (n : ℕ) (method path : Bytes) (op : Op R) (s s' : Spec R)
        → Registered s
        → register R status_text to_upper n method path op s ≡ some s'
        → Registered s'

-- In a specification that was made by any number of registrations, where the names of the types are
-- words, every schema reference in a component, in a parameter, in a request body and in a response
-- leads, as a JSON pointer, to a component that is there.
pub Registered-Linked :
    (R : Reflection) (plain_names : PlainNames R) (status_text : ℕ → Bytes)
    (to_upper : Bytes → Bytes) (s : Spec R)
    → Registered R status_text to_upper s
    → Linked R s
unfolding new with_bearer_auth lookup
Registered-Linked R plain_names status_text to_upper s (fresh info) = record {
  components = λ k sc there. absurd (ground arith);
  operations = λ p item there. absurd (ground arith);
}
Registered-Linked R plain_names status_text to_upper s (bearer s0 before) =
    let linked = Registered-Linked R plain_names status_text to_upper s0 before in
    record { components = linked.components; operations = linked.operations }
Registered-Linked R plain_names status_text to_upper s (operation n method path op s0 s' before e) =
    register-Linked R plain_names status_text to_upper n method path op s0 s
      (Registered-Linked R plain_names status_text to_upper s0 before) e
