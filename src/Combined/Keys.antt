-- ===== src/Combined/Keys.antt =====
-- combined_achievements.rs: the key of a group says which pairing key it has and which occurrence.
use Prim.Native.Char.{Char, code}
use Prim.Native.String.{◌++◌}
use Prim.Native.String.append
use text.Mathlib.TextLemmas.{append_cancel_right}
use hydra_server.Shared.{
  ℕ, zero, suc, String, ◌+◌, ◌-◌, ◌*◌, ◌/◌, ◌%◌, ◌≤◌, ◌<◌, ◌≡◌, sym, ap, ◌∙◌, arith, if◌then◌else◌,
  nat_eq, ltb, Bool-cases, inl, inr, ltb→lt,
}
use hydra_server.Shared.Texts.{digit, digits}
use hydra_server.Combined.Groups.{group_key}

abbrev step : ℕ → ℕ → ℕ
step n c = if nat_eq c 0x23 then 0 else n * 10 + (c - 48)

-- The number behind a text's last `#`.
read : ℕ → String → ℕ
read n String.[] = n
read n (String.◌∷◌ c s) = read (step n (code c)) s

read-cons :
    (n : ℕ) (c : Char) (s : String)
    → read n (String.◌∷◌ c String.[] ++ s) ≡ read (step n (code c)) s
unfolding read
read-cons n c s =
    ap (read n) (append.cons c String.[] s) ∙ ap (read (step n (code c))) (append.nil s)

read-digit : (n d : ℕ) (s : String) → d < 10 → read n (digit d ++ s) ≡ read (n * 10 + d) s
unfolding read
read-digit n zero s h = read-cons n "0" s
read-digit n (suc zero) s h = read-cons n "1" s
read-digit n (suc (suc zero)) s h = read-cons n "2" s
read-digit n (suc (suc (suc zero))) s h = read-cons n "3" s
read-digit n (suc (suc (suc (suc zero)))) s h = read-cons n "4" s
read-digit n (suc (suc (suc (suc (suc zero))))) s h = read-cons n "5" s
read-digit n (suc (suc (suc (suc (suc (suc zero)))))) s h = read-cons n "6" s
read-digit n (suc (suc (suc (suc (suc (suc (suc zero))))))) s h = read-cons n "7" s
read-digit n (suc (suc (suc (suc (suc (suc (suc (suc zero)))))))) s h = read-cons n "8" s
read-digit n (suc (suc (suc (suc (suc (suc (suc (suc (suc zero))))))))) s h = read-cons n "9" s
read-digit n (suc (suc (suc (suc (suc (suc (suc (suc (suc (suc d)))))))))) s h =
    absurd (omega arith)

read-digits : (fuel n : ℕ) (s : String) → n ≤ fuel → read 0 (digits fuel n s) ≡ read n s
unfolding digits read
read-digits zero n s h = read-digit 0 n s (omega arith) ∙ ap (λ m. read m s) (omega arith)
read-digits (suc fuel) n s h = elim (Bool-cases (ltb n 10)) [
  | inl y ↦ rw y (read-digit 0 n s (ltb→lt n 10 y) ∙ ap (λ m. read m s) (omega arith))
  | inr k ↦ rw k (
      read-digits fuel (n / 10) (digit (n % 10) ++ s) (ground arith)
      ∙ read-digit (n / 10) (n % 10) s (omega arith)
      ∙ ap (λ m. read m s) (omega arith))
]

read-append : (n : ℕ) (b s : String) → read n (b ++ ("#" ++ s)) ≡ read 0 s
unfolding read
read-append n String.[] s = ap (read n) (append.nil ("#" ++ s)) ∙ read-cons n "#" s
read-append n (String.◌∷◌ c b) s =
    ap (read n) (append.cons c b ("#" ++ s)) ∙ read-append (step n (code c)) b s

read-group_key : (base : String) (n : ℕ) → read 0 (group_key base n) ≡ n
unfolding group_key read
read-group_key base n = read-append 0 base (digits n n "") ∙ read-digits n n "" (omega arith)

-- Two pairing keys never make one group key, whatever characters they hold.
pub group_key-injective :
    (a b : String) (n m : ℕ) → group_key a n ≡ group_key b m → (a ≡ b) × (n ≡ m)
unfolding group_key
group_key-injective a b n m e =
    let same : n ≡ m = sym (read-group_key a n) ∙ ap (read 0) e ∙ read-group_key b m in
    (append_cancel_right a b ("#" ++ digits m m "") (rw same at e), same)
