-- ===== src/Text/Number.antt =====
-- usize::from_str and u32::from_str_radix.
use devit.Prelude.{
  ℕ, ◌+◌, ◌*◌, ◌-◌, ◌^◌, ◌<◌, ◌≡◌, ◌&&◌, Option, none, some, [], ◌∷◌, arith, ltb, leb, ◌==◌,
  if◌then◌else◌, Bool-cases, Option-cases, inl, inr,
}
use devit.Text.{Text}

-- The value of a digit of a radix of at most 10.
unfoldable pub digit : ℕ → ℕ → Option ℕ
digit radix c = if leb 48 c && ltb c (48 + radix) then some (c - 48) else none

-- The digits that are left, with the overflow test at each of them.
unfoldable pub digits : ℕ → ℕ → ℕ → Text → Option ℕ
unfolding digit
digits radix limit n [] = some n
digits radix limit n (c ∷ s) = elim (digit radix c) [
  | none ↦ none
  | some d ↦ if ltb (n * radix + d) limit then digits radix limit (n * radix + d) s else none
]

-- A leading `+` is accepted, but not alone.
unfoldable pub from_str_radix : ℕ → ℕ → Text → Option ℕ
unfolding digits
from_str_radix radix limit [] = none
from_str_radix radix limit (c ∷ []) = digits radix limit 0 (c ∷ [])
from_str_radix radix limit (c ∷ d ∷ s) =
    if c == b'+' then digits radix limit 0 (d ∷ s) else digits radix limit 0 (c ∷ d ∷ s)

abbrev pub usize_limit : ℕ
usize_limit = 2 ^ 64

abbrev pub u32_limit : ℕ
u32_limit = 2 ^ 32

-- s.parse::<usize>() on a target of 64 bits
unfoldable pub parse_usize : Text → Option ℕ
unfolding from_str_radix
parse_usize = from_str_radix 10 usize_limit

digits-lt-limit :
    (radix limit n : ℕ) (s : Text) (m : ℕ) → n < limit → digits radix limit n s ≡ some m → m < limit
unfolding digits
digits-lt-limit radix limit n [] m h e = ground arith
digits-lt-limit radix limit n (c ∷ s) m h e = elim (Option-cases (digit radix c)) [
  | inl bad ↦ ground arith
  | inr (d, good) ↦ ground (arith, digits-lt-limit radix limit (n * radix + d) s m)
]

-- A parsed number fits the type.
pub from_str_radix-lt-limit :
    (radix limit : ℕ) (s : Text) (m : ℕ)
    → 0 < limit
    → from_str_radix radix limit s ≡ some m
    → m < limit
unfolding from_str_radix
from_str_radix-lt-limit radix limit [] m h e = ground arith
from_str_radix-lt-limit radix limit (c ∷ []) m h e = digits-lt-limit radix limit 0 (c ∷ []) m h e
from_str_radix-lt-limit radix limit (c ∷ d ∷ s) m h e = elim (Bool-cases (c == b'+')) [
  | inl plus ↦ digits-lt-limit radix limit 0 (d ∷ s) m h (rw plus at e)
  | inr other ↦ digits-lt-limit radix limit 0 (c ∷ d ∷ s) m h (rw other at e)
]
