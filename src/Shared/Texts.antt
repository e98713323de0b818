-- ===== src/Shared/Texts.antt =====
-- `str` of the standard library on texts as lists of characters: trimming, prefixes and pieces.
use Prim.Native.Nat.{ℕ, zero, suc, ◌/◌, ◌%◌}
use Prim.Native.Char.{code}
use Prim.Native.String.{String, ◌++◌}
use mathlib.Core.Bool.{Bool, true, false, ◌||◌, ◌&&◌}
use hydra_server.Shared.Tests.{if◌then◌else◌, ltb, leb, nat_eq}

-- `char::is_whitespace`
abbrev pub is_space : ℕ → Bool
is_space c =
    (leb 9 c && leb c 13)
    || (nat_eq c 0x20
        || (nat_eq c 0x85
            || (nat_eq c 0xA0
                || (nat_eq c 0x1680
                    || ((leb 0x2000 c && leb c 0x200A)
                        || (nat_eq c 0x2028
                            || (nat_eq c 0x2029
                                || (nat_eq c 0x202F || (nat_eq c 0x205F || nat_eq c 0x3000)))))))))

abbrev pub is_empty : String → Bool
is_empty String.[] = true
is_empty (String.◌∷◌ c s) = false

-- `trim_start_matches(p)`
abbrev pub trim_start : (ℕ → Bool) → String → String
trim_start p String.[] = String.[]
trim_start p (String.◌∷◌ c s) =
    let rest = trim_start p s in if p (code c) then rest else String.◌∷◌ c s

-- `trim_end_matches(p)`
abbrev pub trim_end : (ℕ → Bool) → String → String
trim_end p String.[] = String.[]
trim_end p (String.◌∷◌ c s) =
    let rest = trim_end p s in if p (code c) && is_empty rest then String.[] else String.◌∷◌ c rest

unfoldable pub trim : String → String
trim s = trim_end is_space (trim_start is_space s)

abbrev pub starts_with : String → String → Bool
starts_with String.[] s = true
starts_with (String.◌∷◌ c p) String.[] = false
starts_with (String.◌∷◌ c p) (String.◌∷◌ d s) = nat_eq (code c) (code d) && starts_with p s

abbrev pub contains : String → String → Bool
contains p String.[] = is_empty p
contains p (String.◌∷◌ c s) = starts_with p (String.◌∷◌ c s) || contains p s

-- `chars().all(p)`
abbrev pub all_chars : (ℕ → Bool) → String → Bool
all_chars p String.[] = true
all_chars p (String.◌∷◌ c s) = p (code c) && all_chars p s

abbrev pub digit : ℕ → String
digit n =
    if nat_eq n 0
    then "0"
    else if nat_eq n 1
    then "1"
    else if nat_eq n 2
    then "2"
    else if nat_eq n 3
    then "3"
    else if nat_eq n 4
    then "4"
    else if nat_eq n 5
    then "5"
    else if nat_eq n 6
    then "6"
    else if nat_eq n 7
    then "7"
    else if nat_eq n 8
    then "8"
    else "9"

-- A number in decimal, before what follows it: the last digit first; `n` steps are more than it has digits.
unfoldable pub digits : ℕ → ℕ → String → String
digits zero n acc = digit n ++ acc
digits (suc fuel) n acc =
    let rest = digits fuel (n / 10) (digit (n % 10) ++ acc) in
    if ltb n 10 then digit n ++ acc else rest
