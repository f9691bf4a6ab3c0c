-- ===== src/Prelude/Text.antt =====
-- Messages: concatenation, and `std::to_string` of an unsigned number.
use Prim.Native.Nat.{ℕ, zero, suc, ◌-◌, ◌/◌, ◌%◌, Ordering}
use Prim.Native.Char.{code}
use Prim.Native.String.{String, ◌++◌, compare}
use mathlib.Core.Bool.{Bool, true, false, ◌&&◌}
use mathlib.Core.List.{List, [], ◌∷◌, map}
use mathlib.Core.Path.{◌≡◌, refl}
use nav_bridge.Prelude.Int.{ℤ, pos, negsuc}
use nav_bridge.Prelude.Tests.{ltb, leb, ◌==◌, if◌then◌else◌}

digit : ℕ → String
digit zero = "0"
digit (suc zero) = "1"
digit (suc (suc zero)) = "2"
digit (suc (suc (suc zero))) = "3"
digit (suc (suc (suc (suc zero)))) = "4"
digit (suc (suc (suc (suc (suc zero))))) = "5"
digit (suc (suc (suc (suc (suc (suc zero)))))) = "6"
digit (suc (suc (suc (suc (suc (suc (suc zero))))))) = "7"
digit (suc (suc (suc (suc (suc (suc (suc (suc zero)))))))) = "8"
digit _ = "9"

-- The digits of `n`, most significant first; the fuel `n` is more than the digits of `n`.
digits : ℕ → ℕ → String
digits zero n = digit n
digits (suc fuel) n =
    let more = digits fuel (n / 10) in if ltb n 10 then digit n else more ++ digit (n % 10)

unfoldable pub to_string : ℕ → String
unfolding digits digit
to_string n = digits n n

to_string_example : to_string 4097 ≡ "4097"
unfolding to_string
to_string_example = refl

unfoldable pub to_string_int : ℤ → String
unfolding to_string
to_string_int (pos n) = to_string n
to_string_int (negsuc n) = "-" ++ to_string (suc n)

-- The code points of a text.
codes : String → List ℕ
codes String.[] = []
codes (String.◌∷◌ c s) = code c ∷ codes s

-- `std::toupper` in the "C" locale.
to_upper : ℕ → ℕ
to_upper c = if leb b'a' c && leb c b'z' then c - 32 else c

equal : List ℕ → List ℕ → Bool
equal [] [] = true
equal [] (y ∷ ys) = false
equal (x ∷ xs) [] = false
equal (x ∷ xs) (y ∷ ys) = (x == y) && equal xs ys

-- Is the text, in capitals, this name?
unfoldable pub is_name : String → String → Bool
unfolding codes to_upper equal
is_name text name = equal (map to_upper (codes text)) (codes name)

-- `==` of two texts.
abbrev pub same_text : String → String → Bool
same_text s t = elim (compare s t) [ Ordering.eq ↦ true | _ ↦ false ]
