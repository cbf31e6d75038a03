-- ===== src/Cache/Keys.antt =====
-- Different ports and ONUs of an OLT have different keys.
use zzte.Strings.{is_digit}
use zzte.Strings.Split.{Lacks}
use zzte.Strings.Decimal.{itoa}
use zzte.Strings.Decimal.RoundTrip.{itoa_nat-Lacks, atoi-itoa_nat}
use zzte.Strings.Decimal.{atoi}
use zzte.Cache.{olt_prefix, key_onu_list}
use zzte.Prelude.{
  Text, [], ap, arith, codes, false, int_eq, nat_eq, pos, pos_part, refl, some, sym, text_eq, ℕ, ℤ,
  ◌++◌, ◌<◌, ◌^◌, ◌∙◌, ◌∷◌, ◌≡◌,
}

abbrev tail : Text → Text
tail [] = []
tail (c ∷ s) = s

abbrev head : Text → ℕ
head [] = 0
head (c ∷ s) = c

pub append-cancel : (p s t : Text) → p ++ s ≡ p ++ t → s ≡ t
append-cancel [] s t h = h
append-cancel (c ∷ p) s t h = append-cancel p s t (ap tail h)

-- A text up to the first separator is determined, and so is what follows.
pub part-cancel :
    (sep : ℕ) (u v s t : Text)
    → Lacks sep u
    → Lacks sep v
    → u ++ sep ∷ s ≡ v ++ sep ∷ t
    → (u ≡ v) × (s ≡ t)
part-cancel sep [] [] s t h k e = (refl, ap tail e)
part-cancel sep [] (d ∷ v) s t h (q, k) e = ground (arith, ap head e, q)
part-cancel sep (c ∷ u) [] s t (p, h) k e = ground (arith, ap head e, p)
part-cancel sep (c ∷ u) (d ∷ v) s t (p, h) (q, k) e =
    let (same, rest) = part-cancel sep u v s t h k (ap tail e) in (cc (ap head e, same), rest)

itoa-cancel : (n m : ℕ) → n < 2 ^ 63 → m < 2 ^ 63 → itoa (pos n) ≡ itoa (pos m) → n ≡ m
unfolding itoa
itoa-cancel n m h k e =
    ap pos_part
      (some-cancel (pos n) (pos m) (sym (atoi-itoa_nat n h) ∙ ap atoi e ∙ atoi-itoa_nat m k))
  where
    some-cancel : (i j : ℤ) → some i ≡ some j → i ≡ j
    some-cancel i j e = cc

colon-not-digit : is_digit b':' ≡ false
unfolding is_digit
colon-not-digit = refl

itoa-Lacks_colon : (n : ℕ) → Lacks b':' (itoa (pos n))
unfolding itoa
itoa-Lacks_colon n = itoa_nat-Lacks b':' n colon-not-digit

number-cancel :
    (n m : ℕ) (s t : Text)
    → n < 2 ^ 63
    → m < 2 ^ 63
    → itoa (pos n) ++ b':' ∷ s ≡ itoa (pos m) ++ b':' ∷ t
    → (n ≡ m) × (s ≡ t)
number-cancel n m s t h k e =
    let (same, rest) =
      part-cancel b':' (itoa (pos n)) (itoa (pos m)) s t (itoa-Lacks_colon n) (itoa-Lacks_colon m)
        e in
    (itoa-cancel n m h k same, rest)

-- Two ports of one OLT share the key of their ONU list only if they are the same port.
pub key_onu_list_injective :
    (olt_id : Text) (board pon board' pon' : ℕ)
    → board < 2 ^ 63
    → pon < 2 ^ 63
    → board' < 2 ^ 63
    → pon' < 2 ^ 63
    → key_onu_list olt_id (pos board) (pos pon) ≡ key_onu_list olt_id (pos board') (pos pon')
    → (board ≡ board') × (pon ≡ pon')
unfolding key_onu_list
key_onu_list_injective olt_id board pon board' pon' a b c d h =
    let rest : ℕ → Text = λ p. itoa (pos p) ++ codes ":list" in
    let numbers : ℕ → ℕ → Text = λ n p. itoa (pos n) ++ (codes ":pon:" ++ rest p) in
    let cut =
      append-cancel (olt_prefix olt_id) (codes "board:" ++ numbers board pon)
        (codes "board:" ++ numbers board' pon') h in
    let (same_board, left) =
      number-cancel board board' (codes "pon:" ++ rest pon) (codes "pon:" ++ rest pon') a c
        (append-cancel (codes "board:") (numbers board pon) (numbers board' pon') cut) in
    let (same_pon, _) =
      number-cancel pon pon' (codes "list") (codes "list") b d
        (append-cancel (codes "pon:") (rest pon) (rest pon') left) in
    (same_board, same_pon)
