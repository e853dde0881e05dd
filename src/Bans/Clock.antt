-- ===== src/Bans/Clock.antt =====
-- `IsBanned` against the date that a punished session stamps.
use mathlib.Core.Path.{ap₂}
use native.Mathlib.Decide.{dec_lt}
use operation_front_line.Common.{
  ℕ, suc, ◌+◌, ◌≡◌, ap, ◌∙◌, ltb, lt→ltb, ge→ltb, ℤ, pos, negsuc, arith,
}
use operation_front_line.Bans.{
  OpflAccount, Tm, add_literal, sub_literal, TimeLibrary, closer, is_banned, stamp, ban_running,
}

sub_literal-add_literal : (z : ℤ) (k : ℕ) → sub_literal (add_literal z k) k ≡ z
sub_literal-add_literal (pos n) k = ground arith
sub_literal-add_literal (negsuc n) k = ground arith

-- The date that a session stamps is read back as it was.
restored :
    (g : Tm)
    → record g {
      tm_year = sub_literal (add_literal g.tm_year 1900) 1900;
      tm_mon = sub_literal (add_literal g.tm_mon 1) 1;
    }
      ≡ g
restored g = λ i. record g {
  tm_year = sub_literal-add_literal g.tm_year 1900 i;
  tm_mon = sub_literal-add_literal g.tm_mon 1 i;
}

-- A time with the offset of a zone west of the universal time, and of one east of it.
abbrev pub moved_by : ℤ → ℕ → ℤ
moved_by (pos k) n = pos (n + k)
moved_by (negsuc k) n = sub_literal (pos n) (suc k)

no_offset :
    (n t : ℕ) (offset : ℤ) → closer (moved_by offset n) (moved_by offset t) 3600 ≡ ltb n (t + 3600)
no_offset n t (pos k) = ground arith
no_offset n t (negsuc k) = elim (dec_lt n (suc k)) [
  | yes p ↦ elim (dec_lt t (suc k)) [
    | yes q ↦ rw (lt→ltb p, lt→ltb q) (ground arith)
    | no q ↦ rw (lt→ltb p, ge→ltb {a = t} {b = suc k} (omega arith)) (ground arith)
  ]
  | no p ↦ elim (dec_lt t (suc k)) [
    | yes q ↦ rw (ge→ltb {a = n} {b = suc k} (omega arith), lt→ltb q) (ground arith)
    | no q ↦
        rw (ge→ltb {a = n} {b = suc k} (omega arith), ge→ltb {a = t} {b = suc k} (omega arith))
          (ground arith)
  ]
]

-- `gmtime` and `mktime` keep the distance of two times: the local time zone has one offset to the
-- universal time throughout, in seconds, in either direction.
abbrev pub OneOffset : TimeLibrary → ℤ → Type 0
OneOffset c offset = (n : ℕ) → c.mktime (c.gmtime n) ≡ moved_by offset n

-- Where `gmtime` and `mktime` keep the distance of any two times, the ban that a session stamps
-- at time `t` is running exactly before `t` and 3600 seconds.
pub ban_running-stamp :
    (c : TimeLibrary) (offset : ℤ) (t : ℕ) (act : OpflAccount)
    → OneOffset c offset
    → ban_running c (stamp (c.gmtime t) act) ≡ ltb c.now (t + 3600)
unfolding is_banned
ban_running-stamp c offset t act o =
    ap₂ (λ a b. closer a b 3600) (o c.now) (ap c.mktime (restored (c.gmtime t)) ∙ o t)
    ∙ no_offset c.now t offset
