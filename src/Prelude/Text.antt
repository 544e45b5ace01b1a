-- ===== src/Prelude/Text.antt =====
-- Python's str as the list of its code points, with the operations that the program uses.
use Prim.Native.Nat.{ℕ, zero, suc, ◌+◌, ◌-◌, ◌*◌, ◌/◌, ◌%◌, ◌<◌}
use Prim.Native.Char.{code}
use Prim.Native.String.{String}
use mathlib.Core.Path.{◌≡◌, refl, ◌∙◌}
use mathlib.Core.Logic.{◌↔◌, inl, inr}
use mathlib.Core.Bool.{Bool, true, false, ◌&&◌, ◌||◌}
use mathlib.Core.List.{List, [], ◌∷◌, ◌++◌, append_assoc}
use native.Mathlib.Omega.{arith}
use indian_sim_sms_gateway.Prelude.Tests.{Bool-cases, ltb, leb, ◌==◌, if◌then◌else◌}
use indian_sim_sms_gateway.Prelude.Lists.{length, replicate}
use indian_sim_sms_gateway.Prelude.Int.{ℤ, pos, negsuc}

abbrev pub Text : Type 0
Text = List ℕ

-- A literal.
abbrev pub str : String → Text
str String.[] = []
str (String.◌∷◌ c s) = code c ∷ str s

-- `s == t`
unfoldable pub text_eq : Text → Text → Bool
text_eq [] [] = true
text_eq [] (d ∷ t) = false
text_eq (c ∷ s) [] = false
text_eq (c ∷ s) (d ∷ t) = c == d && text_eq s t

pub text_eq_refl : (s : Text) → text_eq s s ≡ true
unfolding text_eq
text_eq_refl [] = refl
text_eq_refl (c ∷ s) = ground (arith, text_eq_refl s)

text_eq_sound : (s t : Text) → text_eq s t ≡ true → s ≡ t
unfolding text_eq
text_eq_sound [] [] h = refl
text_eq_sound [] (d ∷ t) h = ground arith
text_eq_sound (c ∷ s) [] h = ground arith
text_eq_sound (c ∷ s) (d ∷ t) h = ground (arith, text_eq_sound s t)

pub text_eq_iff : (s t : Text) → (text_eq s t ≡ true) ↔ (s ≡ t)
text_eq_iff s t = (text_eq_sound s t, λ e. ground (arith, e, text_eq_refl s))

-- `s or default`: the empty text counts as missing.
abbrev pub or_text : Text → Text → Text
or_text [] d = d
or_text (c ∷ s) d = c ∷ s

unfoldable pub starts_with : Text → Text → Bool
starts_with [] s = true
starts_with (c ∷ p) [] = false
starts_with (c ∷ p) (d ∷ s) = c == d && starts_with p s

-- `p in s`
unfoldable pub contains : Text → Text → Bool
unfolding starts_with
contains p [] = starts_with p []
contains p (c ∷ s) = starts_with p (c ∷ s) || contains p s

-- `s.lower()`. Of the letters outside ASCII only two have ASCII letters in their lower case, the
-- Kelvin sign and the capital I with a dot; the others stay, since no ASCII keyword can tell.
lower_char : ℕ → Text
lower_char c =
    if leb b'A' c && leb c b'Z'
    then (c + 32) ∷ []
    else if c == 0x212a
    then b'k' ∷ []
    else if c == 0x130
    then b'i' ∷ 0x307 ∷ []
    else c ∷ []

unfoldable pub lower : Text → Text
unfolding lower_char
lower [] = []
lower (c ∷ s) = lower_char c ++ lower s

-- `s.upper()` on a text whose letters are ASCII, as hexadecimal digits are.
abbrev pub upper_ascii : Text → Text
upper_ascii [] = []
upper_ascii (c ∷ s) = (if leb b'a' c && leb c b'z' then c - 32 else c) ∷ upper_ascii s

-- An f-string, by its parts.
abbrev pub concat : List Text → Text
concat [] = []
concat (t ∷ ts) = t ++ concat ts

-- `sep.join(parts)`
unfoldable pub join : Text → List Text → Text
join sep [] = []
join sep (p ∷ []) = p
join sep (p ∷ q ∷ ps) = p ++ (sep ++ join sep (q ∷ ps))

-- Decimal digits; the fuel is more than the number, hence more than its digits.
nat_digits : ℕ → ℕ → Text
nat_digits zero n = []
nat_digits (suc f) n =
    let rest = nat_digits f (n / 10) in
    if ltb n 10 then (48 + n) ∷ [] else rest ++ ((48 + n % 10) ∷ [])

unfoldable pub show_nat : ℕ → Text
unfolding nat_digits
show_nat n = nat_digits (suc n) n

-- The number that decimal digits stand for, after those that n stands for.
abbrev pub read_digits : ℕ → Text → ℕ
read_digits n [] = n
read_digits n (c ∷ t) = read_digits (10 * n + (c - 48)) t

read_digits-snoc :
    (n : ℕ) (t : Text) (c : ℕ) → read_digits n (t ++ (c ∷ [])) ≡ 10 * read_digits n t + (c - 48)
read_digits-snoc n [] c = refl
read_digits-snoc n (d ∷ t) c = read_digits-snoc (10 * n + (d - 48)) t c

read_digits-nat_digits : (f n : ℕ) → n < f → read_digits 0 (nat_digits f n) ≡ n
unfolding nat_digits
read_digits-nat_digits zero n h = absurd (omega arith)
read_digits-nat_digits (suc f) n h = elim (Bool-cases (ltb n 10)) [
  | inl e ↦ rw e (omega arith)
  | inr e ↦
      let here = read_digits-snoc 0 (nat_digits f (n / 10)) (48 + n % 10) in
      let small : n / 10 < f = ground arith in
      rw e (omega (arith, here, read_digits-nat_digits f (n / 10) small))
]

pub read_digits-show_nat : (n : ℕ) → read_digits 0 (show_nat n) ≡ n
unfolding show_nat
read_digits-show_nat n = read_digits-nat_digits (suc n) n (omega arith)

-- `f"{n:0wd}"`
unfoldable pub show_padded : ℕ → ℕ → Text
unfolding show_nat
show_padded w n = let t = show_nat n in replicate (w - length t) b'0' ++ t

read_digits-zeros : (k : ℕ) (t : Text) → read_digits 0 (replicate k b'0' ++ t) ≡ read_digits 0 t
read_digits-zeros zero t = refl
read_digits-zeros (suc k) t = read_digits-zeros k t

pub read_digits-show_padded : (w n : ℕ) → read_digits 0 (show_padded w n) ≡ n
unfolding show_padded
read_digits-show_padded w n =
    read_digits-zeros (w - length (show_nat n)) (show_nat n) ∙ read_digits-show_nat n

-- `str(n)`
unfoldable pub show_int : ℤ → Text
unfolding show_nat
show_int (pos n) = show_nat n
show_int (negsuc n) = b'-' ∷ show_nat (suc n)

pub starts_with-append : (p s : Text) → starts_with p (p ++ s) ≡ true
unfolding starts_with
starts_with-append [] s = refl
starts_with-append (c ∷ p) s = ground (arith, starts_with-append p s)

-- A text that is put between two others is found there.
pub contains-append : (a p b : Text) → contains p (a ++ (p ++ b)) ≡ true
unfolding contains
contains-append [] [] [] = refl
contains-append [] [] (c ∷ b) = refl
contains-append [] (c ∷ p) b = rw (starts_with-append (c ∷ p) b) refl
contains-append (c ∷ a) p b = ground (arith, contains-append a p b)

pub lower-append : (s t : Text) → lower (s ++ t) ≡ lower s ++ lower t
unfolding lower
lower-append [] t = refl
lower-append (c ∷ s) t = simp (lower-append s t, append_assoc)
