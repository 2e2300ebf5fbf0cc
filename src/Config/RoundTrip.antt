-- ===== src/Config/RoundTrip.antt =====
-- config/src/lib.rs: a `HostPortPair` is read back from its text.
use Prim.Native.String.{◌++◌ as append}
use Prim.Native.String.append
use Prim.Native.Char.{Char, code}
use laas_reflab.Prelude.{
  ℕ, zero, suc, ◌+◌, ◌-◌, ◌*◌, ◌%◌, ◌<◌, ◌≡◌, refl, sym, ap, ◌∙◌, arith, Bool, true, false, String,
  some, ◌==◌, ltb, leb, if◌then◌else◌, Bool-cases, inl, inr,
}
use laas_reflab.Models.Rows.{◌>>=◌}
use laas_reflab.Network.Commands.{decimal, digit}
use laas_reflab.Config.{HostPortPair, split_once, digits_from, parse, deserialize, to_string}

abbrev pub has_colon : String → Bool
has_colon String.[] = false
has_colon (String.◌∷◌ c s) = let rest = has_colon s in if code c == 58 then true else rest

append-char : (c : Char) (rest : String) → append (String.◌∷◌ c "") rest ≡ String.◌∷◌ c rest
append-char c rest = append.cons c "" rest ∙ ap (String.◌∷◌ c) (append.nil rest)

split_once-append :
    (host rest : String)
    → has_colon host ≡ false
    → split_once (append host (append ":" rest)) ≡ some (host, rest)
split_once-append String.[] rest e =
    ap split_once (append.nil (append ":" rest) ∙ append-char _ rest)
split_once-append (String.◌∷◌ c s) rest e =
    ap split_once (append.cons c s (append ":" rest)) ∙ ground (arith, split_once-append s rest)

-- The character of a digit.
digit_lem : (d : ℕ) → d < 10 → (c : Char) × (digit d ≡ String.◌∷◌ c "") × (code c ≡ 48 + d)
digit_lem zero a = ("0", refl, refl)
digit_lem (suc zero) a = ("1", refl, refl)
digit_lem (suc (suc zero)) a = ("2", refl, refl)
digit_lem (suc (suc (suc zero))) a = ("3", refl, refl)
digit_lem (suc (suc (suc (suc zero)))) a = ("4", refl, refl)
digit_lem (suc (suc (suc (suc (suc zero))))) a = ("5", refl, refl)
digit_lem (suc (suc (suc (suc (suc (suc zero)))))) a = ("6", refl, refl)
digit_lem (suc (suc (suc (suc (suc (suc (suc zero))))))) a = ("7", refl, refl)
digit_lem (suc (suc (suc (suc (suc (suc (suc (suc zero)))))))) a = ("8", refl, refl)
digit_lem (suc (suc (suc (suc (suc (suc (suc (suc (suc zero))))))))) a = ("9", refl, refl)
digit_lem (suc (suc (suc (suc (suc (suc (suc (suc (suc (suc d)))))))))) a = absurd (omega arith)

append-digit :
    (d : ℕ) (rest : String)
    → d < 10
    → (c : Char) × (append (digit d) rest ≡ String.◌∷◌ c rest) × (code c ≡ 48 + d)
append-digit d rest a =
    let (c, q, k) = digit_lem d a in (c, ap (λ t. append t rest) q ∙ append-char c rest, k)

digits_from-digit :
    (d value : ℕ) (rest : String)
    → d < 10
    → value * 10 + d < 65536
    → digits_from value (append (digit d) rest) ≡ digits_from (value * 10 + d) rest
digits_from-digit d value rest a b =
    let (c, q, k) = append-digit d rest a in
    let low : leb 48 (code c) ≡ true = ground arith in
    let high : leb (code c) 57 ≡ true = ground arith in
    let next : value * 10 + (code c - 48) ≡ value * 10 + d = omega arith in
    let small : leb (value * 10 + (code c - 48)) 65535 ≡ true = ground arith in
    ap (digits_from value) q ∙ ground (arith, ap (λ v. digits_from v rest) next)

-- So many digits are enough for the number.
abbrev Fits : ℕ → ℕ → Type 0
Fits zero n = n ≡ 0
Fits (suc fuel) n = Fits fuel (Prim.Native.Nat.◌/◌ n 10)

digits_from-decimal :
    (fuel n : ℕ) (text : String)
    → Fits fuel n
    → n < 65536
    → digits_from 0 (decimal fuel n text) ≡ digits_from n text
digits_from-decimal zero n text f b = ap (λ v. digits_from v text) (sym f)
digits_from-decimal (suc fuel) n text f b = elim (Bool-cases (ltb n 10)) [
  | inl y ↦
      let less : n < 10 = ground arith in
      ap (digits_from 0) (
        ap
          (λ c.
            if c
            then append (digit n) text
            else decimal fuel (Prim.Native.Nat.◌/◌ n 10) (append (digit (n % 10)) text))
          y)
      ∙ digits_from-digit n 0 text less (omega arith)
      ∙ ap (λ v. digits_from v text) (omega arith)
  | inr y ↦
      ap (digits_from 0) (
        ap
          (λ c.
            if c
            then append (digit n) text
            else decimal fuel (Prim.Native.Nat.◌/◌ n 10) (append (digit (n % 10)) text))
          y)
      ∙ digits_from-decimal fuel (Prim.Native.Nat.◌/◌ n 10) (append (digit (n % 10)) text) f
          (omega arith)
      ∙ digits_from-digit (n % 10) (Prim.Native.Nat.◌/◌ n 10) text (omega arith) (omega arith)
      ∙ ap (λ v. digits_from v text) (omega arith)
]

-- A text that begins with no sign.
abbrev Plain : String → Type 0
Plain s = (c : Char) × (rest : String) × (s ≡ String.◌∷◌ c rest) × ((code c == 43) ≡ false)

Plain-digit : (d : ℕ) (rest : String) → d < 10 → Plain (append (digit d) rest)
Plain-digit d rest a = let (c, q, k) = append-digit d rest a in (c, rest, q, ground arith)

Plain-either :
    (n : ℕ) (text longer : String)
    → Plain longer
    → Plain (if ltb n 10 then append (digit n) text else longer)
Plain-either n text longer p = go (ltb n 10) refl
  where
    go : (b : Bool) → ltb n 10 ≡ b → Plain (if b then append (digit n) text else longer)
    go true y = Plain-digit n text (ground arith)
    go false y = p

Plain-decimal : (fuel n : ℕ) (text : String) → Plain text → Plain (decimal fuel n text)
Plain-decimal zero n text p = p
Plain-decimal (suc fuel) n text p =
    Plain-either n text (decimal fuel (Prim.Native.Nat.◌/◌ n 10) (append (digit (n % 10)) text)) (
      Plain-decimal fuel (Prim.Native.Nat.◌/◌ n 10) (append (digit (n % 10)) text)
        (Plain-digit (n % 10) text (omega arith)))

parse-Plain : (s : String) → Plain s → parse s ≡ digits_from 0 s
parse-Plain String.[] (c, rest, q, k) = absurd (cc)
parse-Plain (String.◌∷◌ c String.[]) p = refl
parse-Plain (String.◌∷◌ c (String.◌∷◌ d s)) (e, rest, q, k) = ground arith

-- A `HostPortPair` whose host has no colon and whose port is a `u16` is read back from the text that
-- `to_string` makes of it.
pub deserialize-to_string :
    (p : HostPortPair)
    → has_colon p.host ≡ false
    → p.port < 65536
    → deserialize (to_string p) ≡ some p
deserialize-to_string p e b =
    let text : String = decimal 5 p.port "" in
    let leads : Plain text = Plain-either p.port "" _ (
      Plain-decimal 4 (Prim.Native.Nat.◌/◌ p.port 10) (append (digit (p.port % 10)) "")
        (Plain-digit (p.port % 10) "" (omega arith))) in
    let port : parse text ≡ some p.port =
      parse-Plain text leads ∙ digits_from-decimal 5 p.port "" (omega arith) b in
    ap (λ o. o >>= λ q. parse q.1 >>= λ port. some (record { host = q.0; port = port }))
      (split_once-append p.host text e)
    ∙ ap (λ o. o >>= λ port. some (record { host = p.host; port = port })) port
