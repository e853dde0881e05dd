-- ===== src/Bans/Counter.antt =====
-- The counter of early leaves stays between 0 and 5. Five punished sessions in a row lead to a ban, and
-- a session that rejoins never reports one.
use mathlib.Core.Path.{subst}
use mathlib.Core.Bool.{false≢true}
use native.Mathlib.Decide.{dec_lt}
use operation_front_line.Common.{
  order, lt→ltb, ge→ltb, ne→==, eq→==, ◌==◌, sym, ◌∙◌, ℕ, zero, suc, ◌+◌, ◌≤◌, ◌<◌, ◌≡◌, refl, ap,
  Bool, Bool-cases, inl, inr, true, false, ◌&&◌, Option, none, some, List, [], ◌∷◌, ltb,
  if◌then◌else◌, ℤ, pos, negsuc, arith,
}
use operation_front_line.Bans.{
  TimeLibrary, ban_running, Tm, stamp, OpflAccount, Database, exceeds, plus_one, left_on_rejoin,
  punish, login_checked, read_account, read_ban_data, login, logout_read, logout,
}

-- The values of the counter, as the database stores it.
abbrev pub Bounded : ℤ → Type 0
Bounded (pos n) = n ≤ 5
Bounded (negsuc n) = ⊥

-- What befalls the counter of a player: a session that rejoins, with a ban that holds or not, or a
-- punished end of a session.
pub data Event : Type 0 where
  rejoins : Bool → Event
  leaves_early : Event

unfoldable pub play : Tm → List Event → OpflAccount → OpflAccount
play gmt [] act = act
play gmt (rejoins banned ∷ events) act =
    play gmt events (record act { left = left_on_rejoin banned act.left })
play gmt (leaves_early ∷ events) act = play gmt events (punish gmt act)

left_on_rejoin-Bounded :
    (banned : Bool) (left : ℤ) → Bounded left → Bounded (left_on_rejoin banned left)
unfolding left_on_rejoin
left_on_rejoin-Bounded banned (pos zero) h = omega arith
left_on_rejoin-Bounded banned (pos (suc n)) h = ground arith
left_on_rejoin-Bounded banned (negsuc n) h = omega arith

exceeds-pos : (z : ℤ) (n k : ℕ) (b : Bool) → z ≡ pos n → ltb k n ≡ b → exceeds z k ≡ b
exceeds-pos z n k b e h = ap (λ z. exceeds z k) e ∙ h

module _ (gmt : Tm) where
  punish-above :
      (act : OpflAccount) (n : ℕ)
      → act.left ≡ pos n
      → 4 < n
      → punish gmt act ≡ record act { left = pos 1 }
  unfolding punish
  punish-above act n e h = rw (exceeds-pos act.left n 4 true e (lt→ltb h)) refl

  punish-at :
      (act : OpflAccount)
      → act.left ≡ pos 4
      → punish gmt act ≡ stamp gmt (record act { left = pos 5 })
  unfolding punish
  punish-at act e =
      rw (exceeds-pos act.left 4 4 false e refl, exceeds-pos act.left 4 3 true e refl) refl

  punish-below :
      (act : OpflAccount) (n : ℕ)
      → act.left ≡ pos n
      → n < 4
      → punish gmt act ≡ record act { left = pos (suc n) }
  unfolding punish
  punish-below act n e h =
      rw
        (
          exceeds-pos act.left n 4 false e (ge→ltb {a = 4} {b = n} (omega arith)),
          exceeds-pos act.left n 3 false e (ge→ltb {a = 3} {b = n} (omega arith)),
        )
        (ap (λ z. record act { left = plus_one z }) e)

module _ (gmt : Tm) where
  punish-Bounded :
      (act : OpflAccount) (n : ℕ) → act.left ≡ pos n → n ≤ 5 → Bounded (punish gmt act).left
  punish-Bounded act n e h = elim (order n 4) [
    | inl lt ↦ subst (λ a. Bounded a.left) (sym (punish-below gmt act n e lt)) (omega arith)
    | inr (inl four) ↦
        subst (λ a. Bounded a.left) (sym (punish-at gmt act (e ∙ ap pos four))) (omega arith)
    | inr (inr gt) ↦ subst (λ a. Bounded a.left) (sym (punish-above gmt act n e gt)) (omega arith)
  ]

  punish-Bounded_value :
      (act : OpflAccount) (z : ℤ) → act.left ≡ z → Bounded z → Bounded (punish gmt act).left
  punish-Bounded_value act (pos n) e h = punish-Bounded act n e h
  punish-Bounded_value act (negsuc n) e h = elim h [ ]

  -- A counter between 0 and 5 stays between them, whatever order its player rejoins and leaves
  -- early in.
  pub play-Bounded :
      (events : List Event) (act : OpflAccount)
      → Bounded act.left
      → Bounded (play gmt events act).left
  unfolding play
  play-Bounded [] act h = h
  play-Bounded (rejoins banned ∷ events) act h =
      play-Bounded events (record act { left = left_on_rejoin banned act.left })
        (left_on_rejoin-Bounded banned act.left h)
  play-Bounded (leaves_early ∷ events) act h =
      play-Bounded events (punish gmt act) (punish-Bounded_value act act.left refl h)

abbrev pub leaves : ℕ → List Event
leaves zero = []
leaves (suc n) = leaves_early ∷ leaves n

same_left : (act : OpflAccount) (z : ℤ) → act.left ≡ z → act ≡ record act { left = z }
same_left act z e = ap (λ w. record act { left = w }) e

-- A player whose counter is at `k`, less than 5, and who leaves early `n` times on end, with `k +
-- n` at most 5, has the counter at `k + n`; the date of the ban is stamped when that is 5, and
-- else nothing but the counter has changed.
pub play-leaves :
    (gmt : Tm) (n k : ℕ) (act : OpflAccount)
    → act.left ≡ pos k
    → k < 5
    → k + n ≤ 5
    → play gmt (leaves n) act ≡ (
        if k + n == 5
        then stamp gmt (record act { left = pos 5 })
        else record act { left = pos (k + n) })
unfolding play
play-leaves gmt zero k act e lt le =
    rw (ne→== {a = k + 0} {b = 5} (omega arith))
      (same_left act (pos (k + 0)) (e ∙ ap pos (omega arith)))
play-leaves gmt (suc n) k act e lt le = elim (dec_lt k 4) [
  | yes p ↦
      ap (play gmt (leaves n)) (punish-below gmt act k e p)
      ∙ play-leaves gmt n (suc k) (record act { left = pos (suc k) }) refl (omega arith)
          (omega arith)
      ∙ ap
          (λ m.
            if m == 5 then stamp gmt (record act { left = pos 5 }) else record act { left = pos m })
          {x = suc k + n} {y = k + suc n} (omega arith)
  | no p ↦
      ap (λ m. play gmt (leaves m) (punish gmt act)) {x = n} {y = 0} (omega arith)
      ∙ punish-at gmt act (e ∙ ap pos (omega arith))
      ∙ sym (rw (eq→== {a = k + suc n} {b = 5} (omega arith)) refl)
]

rejoin_below :
    (banned : Bool) (left : ℤ)
    → Bounded left
    → banned && exceeds (left_on_rejoin banned left) 4 ≡ false
unfolding left_on_rejoin
rejoin_below true (pos zero) h = refl
rejoin_below false (pos zero) h = refl
rejoin_below true (pos (suc n)) h = ground arith
rejoin_below false (pos (suc n)) h = refl
rejoin_below banned (negsuc n) h = elim h [ ]

-- The counter is lowered before the report is made.
checked_rejoin :
    (db : Database) (banned got : Bool) (act : OpflAccount)
    → (got ≡ true → Bounded act.left)
    → (login_checked db banned true act got).stable ≡ true
    → (login_checked db banned true act got).banned ≡ false
unfolding login_checked
checked_rejoin db banned true act h e = rejoin_below banned act.left (h refl)
checked_rejoin db banned false act h e = absurd (false≢true e)

read_ban_data-Bounded :
    (db : Database) (stable : Bool) (act : OpflAccount)
    → ((a : OpflAccount) → Bounded (db.get_ban_data a).1.left)
    → (read_ban_data db (stable, act)).0 ≡ true
    → Bounded (read_ban_data db (stable, act)).1.left
read_ban_data-Bounded db stable act h e = elim (Bool-cases (stable && db.create_ban_data)) [
  | inl on ↦
      subst (λ b. Bounded (if b then db.get_ban_data act else (false, act)).1.left) (sym on) (h act)
  | inr off ↦
      absurd
        (false≢true (sym (ap (λ b. (if b then db.get_ban_data act else (false, act)).0) off) ∙ e))
]

-- A session that rejoins and stays stable never reports a ban, whatever the database holds and whether
-- the ban is running, as long as the stored counter is between 0 and 5.
pub login_rejoin :
    (db : Database) (c : TimeLibrary) (act : OpflAccount)
    → ((a : OpflAccount) → Bounded (db.get_ban_data a).1.left)
    → (login db c true true act).stable ≡ true
    → (login db c true true act).banned ≡ false
unfolding login
login_rejoin db c act h =
    let read = read_account db (true, act) in
    let found = read_ban_data db read in
    checked_rejoin db (ban_running c found.1) found.0 found.1
      (read_ban_data-Bounded db read.0 read.1 h)

-- What a call wrote to the ban data, if it wrote, has a counter between 0 and 5.
abbrev pub WritesBounded : Option OpflAccount → Type 0
WritesBounded none = Unit {0}
WritesBounded (some act) = Bounded act.left

checked-WritesBounded :
    (db : Database) (banned rejoin got : Bool) (act : OpflAccount)
    → (got ≡ true → Bounded act.left)
    → WritesBounded (login_checked db banned rejoin act got).written
unfolding login_checked
checked-WritesBounded db banned true true act h = left_on_rejoin-Bounded banned act.left (h refl)
checked-WritesBounded db banned false true act h = tt
checked-WritesBounded db banned true false act h = tt
checked-WritesBounded db banned false false act h = tt

logout_read-WritesBounded :
    (db : Database) (gmt : Tm) (got : Bool) (act : OpflAccount)
    → Bounded act.left
    → WritesBounded (logout_read db gmt got act).written
unfolding logout_read
logout_read-WritesBounded db gmt true act h = punish-Bounded_value gmt act act.left refl h
logout_read-WritesBounded db gmt false act h = tt

logout-WritesBounded :
    (db : Database) (gmt : Tm) (punishment : Bool) (act : OpflAccount)
    → ((a : OpflAccount) → Bounded (db.get_ban_data a).1.left)
    → WritesBounded (logout db gmt punishment act).written
unfolding logout
logout-WritesBounded db gmt true act h =
    logout_read-WritesBounded db gmt (db.get_ban_data act).0 (db.get_ban_data act).1 (h act)
logout-WritesBounded db gmt false act h = tt

-- Where every counter that the database returns is between 0 and 5, every counter that a session
-- writes, at its start or at its commit message, is too: rejoining or not, punished or not.
pub session-WritesBounded :
    (db : Database) (c : TimeLibrary) (gmt : Tm) (rejoin stable punishment : Bool)
    (act : OpflAccount)
    → ((a : OpflAccount) → Bounded (db.get_ban_data a).1.left)
    → WritesBounded (login db c rejoin stable act).written
      × WritesBounded (logout db gmt punishment act).written
unfolding login
session-WritesBounded db c gmt rejoin stable punishment act h =
    let read = read_account db (stable, act) in
    let found = read_ban_data db read in
    (
      checked-WritesBounded db (ban_running c found.1) rejoin found.0 found.1
          (read_ban_data-Bounded db read.0 read.1 h),
      logout-WritesBounded db gmt punishment act h,
    )
