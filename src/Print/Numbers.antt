-- ===== src/Print/Numbers.antt =====
-- tb-utils.c, lines 29-75: reading back what is printed.
use threading_from_scratch.Prelude.{
  ℕ, zero, suc, ◌+◌, ◌-◌, ◌*◌, ◌/◌, ◌%◌, ◌^◌, ◌≤◌, ◌<◌, ◌≡◌, refl, ap, ◌∙◌, ◌⊎◌, inl, inr, false,
  ◌||◌, ◌==◌, ltb, if◌then◌else◌, Bool-cases, List, [], ◌∷◌, arith,
}
use threading_from_scratch.Print.{digit, room, put_digits, print_num, print_num_s}

-- The value of a digit, and of a text behind a value.
abbrev pub digit_value : ℕ → ℕ
digit_value c = if ltb c 58 then c - 48 else c - 87

pub read : (base value : ℕ) → List ℕ → ℕ
read base value [] = value
read base value (c ∷ cs) = read base (value * base + digit_value c) cs

-- The bases that tbprint uses.
abbrev pub IsBase : ℕ → Type 0
IsBase base = (base ≡ 8) ⊎ ((base ≡ 10) ⊎ (base ≡ 16))

-- 8 to the power `r`.
abbrev bound : ℕ → ℕ
bound zero = 1
bound (suc r) = 8 * bound r

digit_value-digit : (d : ℕ) → d < 16 → digit_value (digit d) ≡ d
digit_value-digit d lt = ground arith

div_facts :
    (base n : ℕ)
    → IsBase base
    → (n / base * 8 ≤ n) × (n / base * base + n % base ≡ n) × (n % base < 16)
div_facts base n (inl e) = rw e (omega arith, omega arith, omega arith)
div_facts base n (inr (inl e)) = rw e (omega arith, omega arith, omega arith)
div_facts base n (inr (inr e)) = rw e (omega arith, omega arith, omega arith)

read-put_digits :
    (r base n : ℕ) (text : List ℕ)
    → IsBase base
    → n < bound r
    → read base 0 (put_digits r base n text) ≡ read base n text
unfolding put_digits read
read-put_digits zero base n text is lt = ap (λ v. read base v text) (omega arith)
read-put_digits (suc r) base n text is lt = elim (Bool-cases (n == 0)) [
  | inl none ↦ rw none (ap (λ v. read base v text) (ground (arith, none)))
  | inr some_left ↦
      let facts = div_facts base n is in
      let digit_read = digit_value-digit (n % base) facts.2 in
      rw some_left (
        read-put_digits r base (n / base) (digit (n % base) ∷ text) is (omega (arith, facts.0, lt))
        ∙ ap (λ v. read base v text) (ap (λ d. n / base * base + d) digit_read ∙ facts.1))
]

fits_room : (num : ℕ) → num < 2 ^ 64 → num < bound room
fits_room num lt = omega (arith, lt)

digits-read :
    (num base : ℕ) → IsBase base → num < 2 ^ 64 → read base 0 (put_digits room base num []) ≡ num
unfolding read
digits-read num base is lt = read-put_digits room base num [] is (fits_room num lt)

zero-read : (base : ℕ) → read base 0 (48 ∷ []) ≡ 0
unfolding read
zero-read base = ground arith

good_base : (base : ℕ) → IsBase base → (base == 0 || ltb 16 base) ≡ false
good_base base is = ground arith

read-print_num :
    (num base : ℕ) → IsBase base → num < 2 ^ 64 → read base 0 (print_num num base) ≡ num
unfolding print_num
read-print_num num base is lt = elim (Bool-cases (num == 0)) [
  | inl none ↦ rw (good_base base is, none) (zero-read base ∙ ground (arith, none))
  | inr some_left ↦ rw (good_base base is, some_left) (digits-read num base is lt)
]

read-print_num_s : (num : ℕ) → num < 2 ^ 64 → read 10 0 (print_num_s num) ≡ num
unfolding print_num_s
read-print_num_s num lt = elim (Bool-cases (num == 0)) [
  | inl none ↦ rw none (zero-read 10 ∙ ground (arith, none))
  | inr some_left ↦ rw some_left (digits-read num 10 (inr (inl refl)) lt)
]

-- In each base that tbprint uses, reading the text that printNum writes of a 64-bit number gives that
-- number; and reading in base 10 the text that printNumS writes of a 64-bit word gives the unsigned
-- value of the word, also where the word is a negative number's.
pub read-printed :
    (num base : ℕ)
    → IsBase base
    → num < 2 ^ 64
    → (read base 0 (print_num num base) ≡ num) × (read 10 0 (print_num_s num) ≡ num)
read-printed num base is lt = (read-print_num num base is lt, read-print_num_s num lt)
