-- ===== src/Config.antt =====
-- src/config/src/lib.rs: the texts of `HostPortPair`. `parse` is Rust's, for a `u16`.
pub mod RoundTrip
mod Tests
use Prim.Native.String.{◌++◌ as append}
use Prim.Native.Char.{Char, code}
use laas_reflab.Prelude.{
  ℕ, zero, suc, ◌+◌, ◌-◌, ◌*◌, ◌%◌, Bool, true, false, ◌&&◌, String, Option, none, some, ◌==◌, ltb,
  leb, if◌then◌else◌,
}
use laas_reflab.Models.Rows.{◌>>=◌}
use laas_reflab.Network.Commands.{decimal}

pub record HostPortPair : Type 0 where
  pub host : String
  pub port : ℕ

-- `split_once(":")`.
abbrev pub before : Char → String × String → String × String
before c (host, port) = (String.◌∷◌ c host, port)

abbrev pub split_once : String → Option (String × String)
split_once String.[] = none
split_once (String.◌∷◌ c s) =
    let rest = split_once s in
    if code c == 58 then some ("", s) else rest >>= λ p. some (before c p)

abbrev pub is_digit : Char → Bool
is_digit c = leb 48 (code c) && leb (code c) 57

-- The digits that are left, after those that gave `value`.
abbrev pub digits_from : ℕ → String → Option ℕ
digits_from value String.[] = some value
digits_from value (String.◌∷◌ c s) =
    let next = value * 10 + (code c - 48) in
    let rest = digits_from next s in if is_digit c && leb next 65535 then rest else none

-- A sign may stand before the digits.
abbrev pub parse : String → Option ℕ
parse String.[] = none
parse (String.◌∷◌ c String.[]) = digits_from 0 (String.◌∷◌ c String.[])
parse (String.◌∷◌ c (String.◌∷◌ d s)) =
    if code c == 43
    then digits_from 0 (String.◌∷◌ d s)
    else digits_from 0 (String.◌∷◌ c (String.◌∷◌ d s))

abbrev pub deserialize : String → Option HostPortPair
deserialize base = do
  p ← split_once base
  port ← parse p.1
  some (record { host = p.0; port = port })

abbrev pub to_string : HostPortPair → String
to_string p = append p.host (append ":" (decimal 5 p.port ""))
