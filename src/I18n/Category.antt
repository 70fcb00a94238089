-- ===== src/I18n/Category.antt =====
-- i18n/plural.go: the plural category of an integer.
use fibr.Prelude.{
  ℕ, suc, ◌-◌, ◌%◌, ◌^◌, Bool, false, not, ◌&&◌, ◌||◌, Option, none, some, if◌then◌else◌, ◌==◌,
  nat_cmp,
}
use fibr.Prelude.Int.{ℤ, pos, negsuc, ltb_ℤ, sub_ℕ}
use fibr.Prelude.Bytes.{Bytes, codes, bytes_cmp, cut, to_lower}

pub data Category : Type 0 where
  zero_form one two few many other : Category

abbrev pub text_of : Category → Bytes
text_of zero_form = codes "zero"
text_of one = codes "one"
text_of two = codes "two"
text_of few = codes "few"
text_of many = codes "many"
text_of other = codes "other"

-- `if n < 0 { n = -n }`: the least `int` is its own opposite.
abbrev pub without_sign : ℤ → ℤ
without_sign (pos n) = pos n
without_sign (negsuc n) = if n == 2 ^ 63 - 1 then negsuc n else pos (suc n)

-- Go's `%`: the remainder has the sign of the dividend.
abbrev pub rem : ℤ → ℕ → ℤ
rem (pos n) m = pos (n % m)
rem (negsuc n) m = sub_ℕ 0 (suc n % m)

abbrev pub is : ℤ → ℕ → Bool
is (pos n) m = n == m
is (negsuc n) m = false

abbrev pub between : ℕ → ℤ → ℕ → Bool
between low n high = not (ltb_ℤ n (pos low)) && not (ltb_ℤ (pos high) n)

pub data Language : Type 0 where
  uniform french east_slavic polish arabic english_like : Language

abbrev pub base_of : Bytes → Option (Bytes × Bytes) → Bytes
base_of locale none = locale
base_of locale (some (base, rest)) = base

-- The cases of the switch.
abbrev pub language : Bytes → Language
language lang =
    if lang == codes "id"
      || lang == codes "ja"
      || lang == codes "ko"
      || lang == codes "zh"
      || lang == codes "th"
      || lang == codes "vi"
    then uniform
    else if lang == codes "fr"
    then french
    else if lang == codes "ru" || lang == codes "uk"
    then east_slavic
    else if lang == codes "pl"
    then polish
    else if lang == codes "ar"
    then arabic
    else english_like

abbrev pub few_ending : ℤ → Bool
few_ending n = between 2 (rem n 10) 4 && not (between 12 (rem n 100) 14)

abbrev pub category : Language → ℤ → Category
category uniform n = other
category french n = if is n 0 || is n 1 then one else other
category east_slavic n =
    if is (rem n 10) 1 && not (is (rem n 100) 11) then one else if few_ending n then few else many
category polish n = if is n 1 then one else if few_ending n then few else many
category arabic n =
    if is n 0
    then zero_form
    else if is n 1
    then one
    else if is n 2
    then two
    else if between 3 (rem n 100) 10
    then few
    else if between 11 (rem n 100) 99
    then many
    else other
category english_like n = if is n 1 then one else other

unfoldable pub plural_category : Bytes → ℤ → Category
plural_category locale n =
    category (language (to_lower (base_of locale (cut 45 locale)))) (without_sign n)
