-- ===== src/Init/Prompts.antt =====
-- The prompts of cmd/marmot/cmd/init.go. Standard input is the lines that are still to be read; what stands
-- behind the last line feed is not read, since the error that comes with it counts.
use marmot_cli.Common.{
  ℕ, zero, suc, ◌-◌, ◌^◌, Bool, true, false, ◌||◌, List, [], ◌∷◌, Option, none, some, Bytes, codes,
  text_eq, is_empty, is_digit, decimal_value, to_lower, ltb, ℤ, pos, negsuc, if◌then◌else◌, ◌==◌,
}
use marmot_cli.PidFile.{trim_space, are_digits}

abbrev pub Stdin : Type 0
Stdin = List Bytes

unfoldable pub prompt : Bytes → Stdin → Bytes × Stdin
prompt default [] = (default, [])
prompt default (line ∷ lines) =
    (if is_empty (trim_space line) then default else trim_space line, lines)

unfoldable pub prompt_password : Stdin → Bytes × Stdin
prompt_password [] = ([], [])
prompt_password (line ∷ lines) = (trim_space line, lines)

-- `strings.ToLower` comes before the blanks are cut.
unfoldable pub confirm : Stdin → Bool × Stdin
unfolding to_lower
confirm [] = (false, [])
confirm (line ∷ lines) =
    let input = trim_space (to_lower line) in
    (text_eq input (codes "y") || text_eq input (codes "yes"), lines)

leading_digits : Bytes → Bytes
leading_digits [] = []
leading_digits (c ∷ cs) = let rest = leading_digits cs in if is_digit c then c ∷ rest else []

-- `fmt.Sscanf(input, "%d", &idx)`: a sign and digits, whatever stands behind them. It is 0 for a number that
-- is not positive, and where there is none.
unfoldable pub index_in : Bytes → ℕ
unfolding leading_digits
index_in [] = 0
index_in (c ∷ cs) =
    if c == b'-' then 0 else decimal_value (leading_digits (if c == b'+' then cs else c ∷ cs)) 0

-- The option of the number, counted from 1.
unfoldable pub option_at : ℕ → List Bytes → Option Bytes
option_at n [] = none
option_at zero (o ∷ os) = none
option_at (suc zero) (o ∷ os) = some o
option_at (suc (suc n)) (o ∷ os) = option_at (suc n) os

or_typed : Bytes → Option Bytes → Bytes
or_typed input none = input
or_typed input (some o) = o

-- The first option is the default; what is neither empty nor the number of an option is taken as it is.
unfoldable pub prompt_select : Bytes → List Bytes → Stdin → Bytes × Stdin
unfolding index_in option_at or_typed
prompt_select first options [] = (first, [])
prompt_select first options (line ∷ lines) =
    let input = trim_space line in
    (
      if is_empty input
          then first
          else or_typed input (option_at (index_in input) (first ∷ options)),
      lines,
    )

-- The value of digits as an `int`, and whether it fits.
positive : ℕ → ℤ × Bool
positive n = if ltb n (2 ^ 63) then (pos n, true) else (pos (2 ^ 63 - 1), false)

negative : ℕ → ℤ × Bool
negative zero = (pos 0, true)
negative (suc n) = if ltb n (2 ^ 63) then (negsuc n, true) else (negsuc (2 ^ 63 - 1), false)

digits_value : (ℕ → ℤ × Bool) → Bytes → ℤ × Bool
unfolding are_digits
digits_value f [] = (pos 0, false)
digits_value f (c ∷ cs) =
    if are_digits (c ∷ cs) then f (decimal_value (c ∷ cs) 0) else (pos 0, false)

-- `strconv.Atoi`: the value, and whether there is no error.
unfoldable pub atoi : Bytes → ℤ × Bool
unfolding positive negative digits_value
atoi [] = (pos 0, false)
atoi (c ∷ cs) =
    if c == b'-'
    then digits_value negative cs
    else digits_value positive (if c == b'+' then cs else c ∷ cs)
