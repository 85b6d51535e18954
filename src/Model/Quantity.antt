-- ===== src/Model/Quantity.antt =====
-- model.rs: CPU and memory quantities. The texts are lists of code points; an `i128` is an integer
-- with its range checked, as `checked_mul`, `checked_add` and `parse::<i128>` do.
use hub_kubernetes_agent.Prelude.{
  ℕ, suc, ◌+◌, ◌-◌, ◌*◌, ◌/◌, ◌^◌, String, Option, none, some, List, [], ◌∷◌, Bool, true, false,
  not, ◌&&◌, ◌||◌, ℤ, pos, negsuc, pos_part, neg_part, sub_ℕ, leb, nat_eq, if◌then◌else◌, is_empty,
  length, is_whitespace, codes, and_then, is_some, map_or,
}
use hub_kubernetes_agent.Model.Policy.{PolicyLimits}

unfoldable pub trim_start : List ℕ → List ℕ
trim_start [] = []
trim_start (c ∷ cs) = let rest = trim_start cs in if is_whitespace c then rest else c ∷ cs

-- What is left of a text without the white space at its end.
unfoldable pub trim_end : List ℕ → List ℕ
trim_end [] = []
trim_end (c ∷ cs) =
    let rest = trim_end cs in if is_empty rest && is_whitespace c then [] else c ∷ rest

unfoldable pub trim : List ℕ → List ℕ
unfolding trim_start trim_end
trim cs = trim_end (trim_start cs)

abbrev codes_eq : List ℕ → List ℕ → Bool
codes_eq [] [] = true
codes_eq [] (_ ∷ _) = false
codes_eq (_ ∷ _) [] = false
codes_eq (a ∷ as') (b ∷ bs) = nat_eq a b && codes_eq as' bs

-- `str::strip_suffix`
unfoldable pub strip_suffix : List ℕ → List ℕ → Option (List ℕ)
strip_suffix suffix [] = if is_empty suffix then some [] else none
strip_suffix suffix (c ∷ cs) =
    let rest = strip_suffix suffix cs in
    if codes_eq (c ∷ cs) suffix then some [] else and_then rest (λ r. some (c ∷ r))

-- `split_once('.')`, and the whole text with an empty fraction where there is no dot.
unfoldable pub split_dot : List ℕ → List ℕ × List ℕ
split_dot [] = ([], [])
split_dot (c ∷ cs) =
    let (whole, frac) = split_dot cs in if nat_eq c b'.' then ([], cs) else (c ∷ whole, frac)

abbrev pub is_digit : ℕ → Bool
is_digit c = leb b'0' c && leb c b'9'

-- The value of a text of decimal digits; none at any other character.
unfoldable pub digits_value : ℕ → List ℕ → Option ℕ
digits_value n [] = some n
digits_value n (c ∷ cs) =
    let rest = digits_value (n * 10 + (c - b'0')) cs in if is_digit c then rest else none

abbrev pub i128_max : ℕ
i128_max = 2 ^ 127 - 1

-- `i128::MIN` to `i128::MAX`; none outside, as the checked operations answer.
unfoldable pub i128_checked : ℤ → Option ℤ
i128_checked (pos n) = if leb n i128_max then some (pos n) else none
i128_checked (negsuc n) = if leb n i128_max then some (negsuc n) else none

abbrev pub unsigned : Bool → ℕ → ℤ
unsigned negative n = if negative then sub_ℕ 0 n else pos n

-- At least one digit has to follow the sign.
digits_i128 : Bool → List ℕ → Option ℤ
unfolding digits_value i128_checked
digits_i128 negative [] = none
digits_i128 negative (c ∷ cs) =
    and_then (digits_value 0 (c ∷ cs)) (λ n. i128_checked (unsigned negative n))

-- `parse::<i128>`: an optional sign and decimal digits, in range.
unfoldable pub parse_i128 : List ℕ → Option ℤ
unfolding digits_i128
parse_i128 [] = none
parse_i128 (c ∷ cs) =
    if nat_eq c b'+'
    then digits_i128 false cs
    else if nat_eq c b'-'
    then digits_i128 true cs
    else digits_i128 false (c ∷ cs)

abbrev pub mul_ℕ : ℤ → ℕ → ℤ
mul_ℕ (pos n) k = pos (n * k)
mul_ℕ (negsuc n) k = sub_ℕ 0 (suc n * k)

-- Division of integers rounds toward zero.
abbrev pub div_ℕ : ℤ → ℕ → ℤ
div_ℕ (pos n) k = pos (n / k)
div_ℕ (negsuc n) k = sub_ℕ 0 (suc n / k)

abbrev pub add_ℤ : ℤ → ℤ → ℤ
add_ℤ a b = sub_ℕ (pos_part a + pos_part b) (neg_part a + neg_part b)

-- The fraction's value, added to the whole part's.
add_fraction : ℤ → List ℕ → ℕ → Option ℤ
unfolding parse_i128
add_fraction total [] scale = some total
add_fraction total (c ∷ cs) scale = and_then (parse_i128 (c ∷ cs)) (λ frac_value.
    and_then (i128_checked (pos (10 ^ length (c ∷ cs)))) (λ _.
      and_then (i128_checked (mul_ℕ frac_value scale))
        (λ scaled. i128_checked (add_ℤ total (div_ℕ scaled (10 ^ length (c ∷ cs)))))))

unfoldable pub parse_decimal_scaled : List ℕ → ℕ → Option ℤ
unfolding parse_i128 split_dot trim add_fraction
parse_decimal_scaled number scale =
    let trimmed = trim number in
    let (whole, frac) = split_dot trimmed in
    if is_empty trimmed
    then none
    else and_then (parse_i128 whole) (λ whole_value.
      and_then (i128_checked (mul_ℕ whole_value scale)) (λ total. add_fraction total frac scale))

unfoldable pub parse_scaled_decimal : List ℕ → List (List ℕ × ℕ) → Option ℤ
unfolding strip_suffix parse_decimal_scaled
parse_scaled_decimal quantity [] = none
parse_scaled_decimal quantity ((suffix, scale) ∷ suffixes) =
    let rest = parse_scaled_decimal quantity suffixes in
    elim (strip_suffix suffix quantity) [
      | none ↦ rest
      | some number ↦
          if is_empty suffix || not (is_empty number)
          then parse_decimal_scaled number scale
          else rest
    ]

abbrev pub cpu_suffixes : List (List ℕ × ℕ)
cpu_suffixes =
    (codes "n", 1) ∷ (codes "u", 1_000) ∷ (codes "m", 1_000_000) ∷ (codes "", 1_000_000_000) ∷ []

abbrev pub memory_suffixes : List (List ℕ × ℕ)
memory_suffixes =
    (codes "Ki", 1024)
    ∷ (codes "Mi", 1024 ^ 2)
    ∷ (codes "Gi", 1024 ^ 3)
    ∷ (codes "Ti", 1024 ^ 4)
    ∷ (codes "Pi", 1024 ^ 5)
    ∷ (codes "Ei", 1024 ^ 6)
    ∷ (codes "k", 1_000)
    ∷ (codes "M", 1_000_000)
    ∷ (codes "G", 1_000_000_000)
    ∷ (codes "T", 1_000_000_000_000)
    ∷ (codes "P", 1_000_000_000_000_000)
    ∷ (codes "E", 1_000_000_000_000_000_000)
    ∷ (codes "", 1)
    ∷ []

unfoldable pub parse_cpu_quantity : String → Option ℤ
unfolding parse_scaled_decimal
parse_cpu_quantity quantity = parse_scaled_decimal (codes quantity) cpu_suffixes

unfoldable pub parse_memory_quantity : String → Option ℤ
unfolding parse_scaled_decimal
parse_memory_quantity quantity = parse_scaled_decimal (codes quantity) memory_suffixes

-- `limits.is_none_or(|value| parse(value).is_some())` at both fields.
unfoldable pub policy_limits_are_valid : Option PolicyLimits → Bool
policy_limits_are_valid none = true
policy_limits_are_valid (some limits) =
    map_or limits.max_cpu_limit true (λ value. is_some (parse_cpu_quantity value))
    && map_or limits.max_memory_limit true (λ value. is_some (parse_memory_quantity value))
