-- ===== src/Backend/Posting.antt =====
-- The checks of `PostTransaction` in service.go that depend on the entries alone: that there are some,
-- that every amount is positive, and that debits and credits balance, in that order.
use core_banking_system.Prelude.{
  ℕ, ◌-◌, ◌%◌, ◌^◌, ltb, Bool, Option, none, some, List, [], ◌∷◌, every, if◌then◌else◌,
}
use core_banking_system.Prelude.Int.{ℤ, pos, negsuc, ◌+ℤ◌, ltb_ℤ, eqb_ℤ}
use core_banking_system.Enums.{debit, credit}
use core_banking_system.Types.Requests.{EntryInput}

pub data PostError : Type 0 where
  empty_transaction invalid_amount unbalanced_transaction : PostError

-- The int64 of a bit pattern, and the one that an integer wraps around to.
abbrev signed64 : ℕ → ℤ
signed64 w = if ltb w (2 ^ 63) then pos w else negsuc (2 ^ 64 - w - 1)

abbrev wrap64 : ℤ → ℤ
wrap64 (pos n) = signed64 (n % 2 ^ 64)
wrap64 (negsuc n) = signed64 (2 ^ 64 - 1 - n % 2 ^ 64)

-- `+` on two int64.
unfoldable pub add_int64 : ℤ → ℤ → ℤ
add_int64 a b = wrap64 (a +ℤ b)

-- `validateBalance`: one pass with two running totals.
unfoldable pub validate_balance : ℤ → ℤ → List EntryInput → Option PostError
unfolding add_int64
validate_balance d c [] = if eqb_ℤ d c then none else some unbalanced_transaction
validate_balance d c (e ∷ es) = elim e.direction [
  | debit ↦ validate_balance (add_int64 d e.amount) c es
  | credit ↦ validate_balance d (add_int64 c e.amount) es
]

abbrev pub is_positive : EntryInput → Bool
is_positive e = ltb_ℤ (pos 0) e.amount

unfoldable pub validate_entries : List EntryInput → Option PostError
unfolding validate_balance
validate_entries [] = some empty_transaction
validate_entries (e ∷ es) =
    if every is_positive (e ∷ es)
    then validate_balance (pos 0) (pos 0) (e ∷ es)
    else some invalid_amount
