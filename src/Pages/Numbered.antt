-- ===== src/Pages/Numbered.antt =====
-- pagination/pagination.go: the numbers shown beside a page.
use fibr.Prelude.{
  ℕ, suc, ◌+◌, ◌-◌, ◌*◌, ◌/◌, ◌%◌, ◌^◌, ◌≤◌, ◌<◌, ◌≡◌, subst, ◌∙◌, ap, inl, inr, Bool-cases, Bool,
  if◌then◌else◌, ltb, nat_cmp, List, length, some, arith,
}
use fibr.Prelude.Int.{ℤ, pos, negsuc, pos_part, neg_part, ltb_ℤ, sub_ℕ, ◌+ℤ◌}
use fibr.Query.Statement.{Statement, wrap64, wrap64_small}
use fibr.Query.Offset.{PaginationQuery, apply_pagination_defaults, defaults_positive}

pub record Pagination (T : Type 0) : Type 0 where
  pub data_items : List T
  pub page_size : ℤ
  pub count_items : ℕ
  pub total_count : ℤ
  pub page_count : ℤ
  pub page_number : ℤ
  pub start_number : ℤ

-- Go's `/` and `%` by a positive number round to zero.
abbrev quotient : ℤ → ℕ → ℤ
quotient (pos n) d = pos (n / d)
quotient (negsuc n) d = sub_ℕ 0 (suc n / d)

abbrev has_remainder : ℤ → ℕ → Bool
has_remainder a d = ltb 0 ((pos_part a + neg_part a) % d)

abbrev pub page_count_of : ℤ → ℤ → ℤ
page_count_of total size =
    if ltb_ℤ (pos 0) size
    then (if has_remainder total (pos_part size)
        then quotient total (pos_part size) +ℤ pos 1
        else quotient total (pos_part size))
    else pos 0

pub new_pagination : {T : Type 0} → List T → ℤ → ℤ → ℤ → Pagination T
new_pagination items size number total =
    let page = if ltb_ℤ number (pos 1) then pos 1 else number in
    record {
      data_items = items;
      page_size = size;
      count_items = length items;
      total_count = total;
      page_count = page_count_of total size;
      page_number = page;
      start_number =
          if ltb_ℤ (pos 0) size then wrap64 ((pos_part page - 1) * pos_part size + 1) else pos 0;
    }

divides : (n s : ℕ) → (n ≡ (n / suc s) * suc s + n % suc s) × (n % suc s < suc s)
divides n s = ground arith

-- The page count of a result of `n` rows is the least number of pages that holds them all.
pub new_pagination-page_count :
    {T : Type 0} (items : List T) (number : ℤ) (n s : ℕ)
    → (c : ℕ) × ((new_pagination items (pos (suc s)) number (pos n)).page_count ≡ pos c)
      × (n ≤ c * suc s)
      × (c * suc s < n + suc s)
unfolding new_pagination ◌+ℤ◌
new_pagination-page_count items number n s =
    let (d, r) = divides n s in
    elim (Bool-cases (ltb 0 (n % suc s))) [
      | inl h ↦ (suc (n / suc s), ground arith, omega arith, ground arith)
      | inr h ↦ (n / suc s, ground arith, ground arith, omega arith)
    ]

-- The first row's number, where the page and the size are not zero.
start_of :
    {T : Type 0} (items : List T) (total : ℤ) (m n : ℕ)
    → suc m * suc n < 2 ^ 63
    → (wrap64 (m * suc n) ≡ pos (m * suc n))
      × ((new_pagination items (pos (suc n)) (pos (suc m)) total).start_number
          ≡ pos (suc (m * suc n)))
unfolding new_pagination
start_of items total m n h =
    let e : suc m * suc n ≡ suc n + m * suc n = omega arith in
    (
      wrap64_small (m * suc n) (omega arith),
      ground (arith, wrap64_small (m * suc n + 1) (omega arith)),
    )

-- The number shown for the first row of a page is one more than the OFFSET of the query that
-- `Paginate` makes for that page, where the last row's number fits an `int`.
start_number-apply_pagination_defaults :
    {T V : Type 0} (items : List T) (total : ℤ) (q : Statement V) (p : PaginationQuery)
    → let p' = (apply_pagination_defaults q p).1 in
      pos_part p'.page * pos_part p'.limit < 2 ^ 63
      → let (q', p') = apply_pagination_defaults q p in
        (o : ℕ) × (q'.offset ≡ some (pos o))
        × ((new_pagination items p'.limit p'.page total).start_number ≡ pos (suc o))
start_number-apply_pagination_defaults items total q p fits =
    let (m, n, pm, pn, o) = defaults_positive q p in
    let p' = (apply_pagination_defaults q p).1 in
    let fits' = subst (λ x. x * pos_part p'.limit < 2 ^ 63) (ap pos_part pm) fits in
    let (w, start) =
      start_of items total m n (subst (λ x. suc m * x < 2 ^ 63) (ap pos_part pn) fits') in
    (m * suc n, o ∙ ap some w, rw (pm, pn) start)
