-- ===== src/Query/Offset.antt =====
-- parser/parser.go: pages by number, with a search and a sort order from the request.
use Prim.Native.String.{String, ◌++◌}
use fibr.Prelude.{
  ℕ, zero, suc, ◌-◌, ◌*◌, ◌≡◌, ◌⊎◌, inl, inr, refl, true, not, ◌&&◌, ◌||◌, if◌then◌else◌, ◌==◌,
  string_cmp, contains, List, [], ◌∷◌, Option, none, some, arith, All, Bool-cases,
}
use fibr.Prelude.Int.{ℤ, pos, negsuc, pos_part, ltb_ℤ}
use fibr.Query.Identifier.{
  is_simple_identifier, lowers_to, plain, plain-is_simple_identifier, plain-append, plain_asc,
}
use fibr.Query.Statement.{Statement, select, where_expr, order_expr, wrap64, join, append_if}

pub record PaginationQuery : Type 0 where
  pub page : ℤ
  pub limit : ℤ
  pub search : String
  pub sort : String
  pub order : String

abbrev page_err : PaginationQuery → List String → List String
page_err p errs = append_if (ltb_ℤ p.page (pos 0)) "page must not be negative" errs

abbrev limit_err : PaginationQuery → List String → List String
limit_err p errs = append_if (ltb_ℤ p.limit (pos 0)) "limit must not be negative" errs

abbrev sort_err : PaginationQuery → List String → List String → List String
sort_err p opts errs =
    append_if (not (p.sort == "") && not (contains opts p.sort))
      ("sort must be one of " ++ join opts ", ") errs

abbrev order_err : PaginationQuery → List String → List String
order_err p errs =
    append_if (not (p.order == "") && not (p.order == "asc") && not (p.order == "desc"))
      "order must be one of asc or desc" errs

abbrev error_of : List String → Option String
error_of [] = none
error_of (e ∷ errs) = some ("validation failed: " ++ join (e ∷ errs) ", ")

unfoldable pub validate : PaginationQuery → List String → Option String
validate p opts = error_of (order_err p (sort_err p opts (limit_err p (page_err p []))))

-- `applyPaginationDefaults`: the page and the limit are set in place.
unfoldable pub apply_pagination_defaults :
    {V : Type 0} → Statement V → PaginationQuery → Statement V × PaginationQuery
apply_pagination_defaults q p =
    let page = if ltb_ℤ (pos 0) p.page then p.page else pos 1 in
    let limit = if ltb_ℤ (pos 0) p.limit then p.limit else pos 10 in
    (
      record q {
        offset = some (wrap64 ((pos_part page - 1) * pos_part limit));
        limit = some limit;
      },
      record p { page = page; limit = limit },
    )

positive : (z : ℤ) (d : ℕ) → (n : ℕ) × ((if ltb_ℤ (pos 0) z then z else pos (suc d)) ≡ pos (suc n))
positive (pos zero) d = (d, refl)
positive (pos (suc n)) d = (n, ground arith)
positive (negsuc n) d = (d, ground arith)

-- The page and the limit are at least one after the defaults, and give the offset.
pub defaults_positive :
    {V : Type 0} (q : Statement V) (p : PaginationQuery)
    → let (q', p') = apply_pagination_defaults q p in
      (m n : ℕ) × (p'.page ≡ pos (suc m))
      × (p'.limit ≡ pos (suc n))
      × (q'.offset ≡ some (wrap64 (m * suc n)))
unfolding apply_pagination_defaults
defaults_positive q p =
    let (m, pm) = positive p.page 0 in
    let (n, pn) = positive p.limit 9 in
    let same : suc m - 1 ≡ m = omega arith in (m, n, pm, pn, rw (pm, pn, same) refl)

abbrev repeated : {A V : Type 0} → List A → V → List V
repeated [] v = []
repeated (a ∷ l) v = v ∷ repeated l v

pub apply_search : Statement String → String → List String → Statement String
apply_search q search [] = q
apply_search q search (c ∷ cs) =
    if search == ""
    then q
    else where_expr (join (c ∷ cs) " ILIKE ? OR " ++ " ILIKE ?")
        (repeated (c ∷ cs) ("%" ++ search ++ "%")) q

-- `order` is compared after `strings.ToLower`, and written in lower case.
pub apply_sorting : Statement String → String → String → Statement String
apply_sorting q sort order =
    if sort == "" || order == "" || not (lowers_to order "asc" || lowers_to order "desc")
    then q
    else if not (is_simple_identifier sort)
    then q
    else order_expr (sort ++ (if lowers_to order "asc" then " asc" else " desc")) q

pub paginate : PaginationQuery → List String → Statement String → Statement String × PaginationQuery
paginate p cols q =
    apply_pagination_defaults (apply_sorting (apply_search q p.search cols) p.sort p.order) p

-- `Count`
pub count_query : String → List String → Statement String → Statement String
count_query search cols q = apply_search q search cols

search-orders :
    (q : Statement String) (search : String) (cols : List String)
    → (apply_search q search cols).orders ≡ q.orders
unfolding apply_search
search-orders q search [] = refl
search-orders q search (c ∷ cs) = ground arith

-- Whatever the request asks for, the ORDER BY that `Paginate` writes has only letters, digits, `_`,
-- `.` and spaces.
paginate-plain :
    (p : PaginationQuery) (cols : List String)
    → All (λ e. plain e ≡ true) (paginate p cols select).0.orders
unfolding paginate apply_sorting apply_pagination_defaults
paginate-plain p cols = ground (
  arith,
  search-orders select p.search cols,
  plain-is_simple_identifier p.sort,
  plain-append p.sort " asc",
  plain-append p.sort " desc",
  plain_asc,
)

-- A request that `Validate` accepts is sorted by one of the options or not at all.
validate-sorted :
    (p : PaginationQuery) (opts cols : List String)
    → validate p opts ≡ none
    → ((paginate p cols select).0.orders ≡ [])
      ⊎ ((contains opts p.sort ≡ true)
          × (dir : String) × ((dir ≡ " asc") ⊎ (dir ≡ " desc"))
          × ((paginate p cols select).0.orders ≡ (p.sort ++ dir) ∷ []))
unfolding validate paginate apply_sorting apply_pagination_defaults
validate-sorted p opts cols h =
    elim (Bool-cases (p.sort == "" || not (is_simple_identifier p.sort))) [
      | inl b ↦ inl (ground (arith, search-orders select p.search cols))
      | inr b ↦
          elim (Bool-cases
            (p.order == "" || not (lowers_to p.order "asc" || lowers_to p.order "desc"))) [
              | inl o ↦ inl (ground (arith, search-orders select p.search cols))
              | inr o ↦ inr (
                ground arith,
                if lowers_to p.order "asc" then " asc" else " desc",
                ground arith,
                ground (arith, search-orders select p.search cols),
              )
            ]
    ]
