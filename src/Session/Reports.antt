-- ===== src/Session/Reports.antt =====
-- OPFL/OPFL.cpp, the texts that `mycallback` sends: the account, when a session begins, and the notice for the
-- clean-up, when the session's connection has crashed. Both are written to one stream, `out`.
pub mod Read
use operation_front_line.Common.{ℕ, List, [], ◌∷◌, ◌++◌, ◌==◌, if◌then◌else◌, ℤ}
use operation_front_line.Arma.{ad_unit}
use operation_front_line.Arma.Numbers.{to_string_unsigned, to_string_signed}
use operation_front_line.Bans.{OpflAccount, Login}

-- `"$" << AD_UNIT << name << AD_UNIT`, `"-" << z` and `"+" << n`.
abbrev pub quoted : List ℕ → List ℕ
quoted name = b'$' ∷ ad_unit ∷ name ++ (ad_unit ∷ [])

abbrev pub minus_sign : ℤ → List ℕ
minus_sign z = b'-' ∷ to_string_signed z

abbrev pub plus_sign : ℕ → List ℕ
plus_sign n = b'+' ∷ to_string_unsigned n

-- `actName.c_str()` written to a stream, which ends at the first NUL.
abbrev pub c_str : List ℕ → List ℕ
c_str [] = []
c_str (c ∷ s) = let rest = c_str s in if c == 0 then [] else c ∷ rest

-- Texts with commas between them.
abbrev pub with_commas : List ℕ → List (List ℕ) → List ℕ
with_commas s [] = s
with_commas s (t ∷ ts) = s ++ (b',' ∷ with_commas t ts)

abbrev pub account_fields : OpflAccount → List ℤ
account_fields act =
    act.rank ∷ act.level ∷ act.matches ∷ act.wins ∷ act.losses ∷ act.kills ∷ act.chickens ∷ act.left
    ∷ act.year ∷ act.month ∷ act.day ∷ act.hour ∷ act.minute ∷ act.second ∷ []

abbrev pub signed_texts : List ℤ → List (List ℕ) → List (List ℕ)
signed_texts [] ts = ts
signed_texts (z ∷ zs) ts = minus_sign z ∷ signed_texts zs ts

abbrev pub in_brackets : List ℕ → List ℕ
in_brackets s = b'@' ∷ b'[' ∷ s ++ (b']' ∷ [])

-- The text of a session that begins, which `Login` describes.
pub account_text : List ℕ → Login → List ℕ
account_text act_name l = in_brackets (
    with_commas (quoted (c_str act_name))
      (signed_texts (account_fields l.act) (plus_sign (if l.banned then 1 else 0) ∷ [])))

-- The text for the clean-up.
pub cleanup_text : List ℕ → List ℕ → List ℕ → List ℕ
cleanup_text input_name output_name act_name =
    in_brackets (with_commas (quoted input_name) (quoted output_name ∷ quoted act_name ∷ []))

-- What the stream holds after the start of a session, and what is sent to the clean-up after a crash.
unfoldable pub out_after_login : List ℕ → Login → List ℕ
out_after_login act_name l = if l.stable then account_text act_name l else []

unfoldable pub crash_message : List ℕ → List ℕ → List ℕ → Login → List ℕ
crash_message input_name output_name act_name l =
    out_after_login act_name l ++ cleanup_text input_name output_name act_name
