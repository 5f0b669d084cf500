-- ===== src/Text.antt =====
-- The functions of Go's strings, fmt and regexp packages that the program calls, over texts as
-- sequences of Unicode characters.
pub mod Occurs
pub mod Replaced
pub mod Prefixes
use Prim.Native.Nat.{◌/◌, ◌%◌}
use Prim.Native.Char.{Char, code}
use Prim.Native.String
use Prim.Native.String.{[], ◌∷◌}
use mariadb_ctrl.Prelude.{
  ℕ, zero, suc, ◌-◌, String, Bool, true, false, List, ◌&&◌, ◌||◌, nat_eq, leb, if◌then◌else◌,
}

-- `unicode.IsSpace`
unfoldable pub is_space : Char → Bool
is_space c =
    let n = code c in
    (leb 9 n && leb n 13)
    || nat_eq n 32
    || nat_eq n 0x85
    || nat_eq n 0xa0
    || nat_eq n 0x1680
    || (leb 0x2000 n && leb n 0x200a)
    || nat_eq n 0x2028
    || nat_eq n 0x2029
    || nat_eq n 0x202f
    || nat_eq n 0x205f
    || nat_eq n 0x3000

-- `strings.TrimLeftFunc(s, unicode.IsSpace)`
unfoldable pub trim_left : String → String
trim_left [] = []
trim_left (c ∷ s) = let rest = trim_left s in if is_space c then rest else c ∷ s

abbrev pub trim_cons : Char → String → String
trim_cons c [] = if is_space c then [] else c ∷ []
trim_cons c (d ∷ s) = c ∷ (d ∷ s)

-- `strings.TrimRightFunc(s, unicode.IsSpace)`
unfoldable pub trim_right : String → String
trim_right [] = []
trim_right (c ∷ s) = trim_cons c (trim_right s)

-- `strings.TrimSpace`
unfoldable pub trim_space : String → String
unfolding trim_left trim_right is_space
trim_space s = trim_right (trim_left s)

-- `strings.HasPrefix(s, p)`, with the prefix first
unfoldable pub begins_with : String → String → Bool
begins_with [] s = true
begins_with (c ∷ p) [] = false
begins_with (c ∷ p) (d ∷ s) = nat_eq (code c) (code d) && begins_with p s

-- whether the second text has the first as a part
unfoldable pub occurs : String → String → Bool
unfolding begins_with
occurs p [] = begins_with p []
occurs p (c ∷ s) = begins_with p (c ∷ s) || occurs p s

-- `MatchString` of a regular expression that is an alternation of plain texts
unfoldable pub matches_any : List String → String → Bool
unfolding occurs
matches_any List.[] s = false
matches_any (List.◌∷◌ p ps) s = occurs p s || matches_any ps s

-- the walk of `strings.Replace`: `skip` characters of an occurrence are still to be passed over
unfoldable pub replace_from : String → String → ℕ → String → String
unfolding begins_with
replace_from old new skip [] = []
replace_from old new (suc k) (c ∷ s) = replace_from old new k s
replace_from old new zero (c ∷ s) =
    let replaced = String.◌++◌ new (replace_from old new (String.count old - 1) s) in
    let kept = c ∷ replace_from old new zero s in if begins_with old (c ∷ s) then replaced else kept

-- `strings.Replace(s, old, new, -1)` for an `old` that is not empty
unfoldable pub replace_all : String → String → String → String
unfolding replace_from
replace_all s old new = replace_from old new zero s

-- `fmt.Sprintf` with the verbs `%s`, `%d` (its argument is given in decimal) and `%%`; the Boolean
-- says that a percent sign was read
unfoldable pub format_from : Bool → String → List String → String
format_from seen [] args = []
format_from false (c ∷ s) args =
    let formatted = format_from true s args in
    let plain = c ∷ format_from false s args in if nat_eq (code c) b'%' then formatted else plain
format_from true (c ∷ s) List.[] =
    let rest = format_from false s List.[] in
    if nat_eq (code c) b'%' then String.◌++◌ "%" rest else String.◌++◌ "%!s(MISSING)" rest
format_from true (c ∷ s) (List.◌∷◌ a args) =
    let literal = String.◌++◌ "%" (format_from false s (List.◌∷◌ a args)) in
    let filled = String.◌++◌ a (format_from false s args) in
    if nat_eq (code c) b'%' then literal else filled

unfoldable pub sprintf : String → List String → String
unfolding format_from
sprintf format args = format_from false format args

digit : ℕ → String
digit zero = "0"
digit (suc zero) = "1"
digit (suc (suc zero)) = "2"
digit (suc (suc (suc zero))) = "3"
digit (suc (suc (suc (suc zero)))) = "4"
digit (suc (suc (suc (suc (suc zero))))) = "5"
digit (suc (suc (suc (suc (suc (suc zero)))))) = "6"
digit (suc (suc (suc (suc (suc (suc (suc zero))))))) = "7"
digit (suc (suc (suc (suc (suc (suc (suc (suc zero)))))))) = "8"
digit _ = "9"

-- the digits of a number, on at least as much fuel as there are digits
decimal_from : ℕ → ℕ → String
unfolding digit
decimal_from zero n = ""
decimal_from (suc fuel) n =
    let more = String.◌++◌ (decimal_from fuel (n / 10)) (digit (n % 10)) in
    if leb n 9 then digit n else more

-- a number as `%d` writes it
unfoldable pub decimal : ℕ → String
unfolding decimal_from
decimal n = decimal_from (suc n) n
