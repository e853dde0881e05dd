-- ===== src/Session/Owned.antt =====
-- What a session holds while it borrows its connections.
use operation_front_line.Common.{
  ℕ, ◌+◌, ◌-◌, ◌≡◌, ◌≤◌, refl, Option, none, some, ◌==◌, if◌then◌else◌, arith,
}
use operation_front_line.ConnectionPool.{ConnectionPool, borrow}
use operation_front_line.ConnectionPool.System.{
  System, more, IsSound, Fresh, hands, cannot_create, all_held, borrow-Answered,
}
use operation_front_line.Session.{Worker, Attempt, passed, caught, let_go, keep_first, keep_second}

-- How many of a worker's two `shared_ptr`s are to a connection.
abbrev pub holds : Option ℕ → ℕ → ℕ
holds none c = 0
holds (some d) c = if c == d then 1 else 0

-- The pool is sound, and a worker's `shared_ptr`s come on top of those of the others, who hold none of its
-- connections; its two connections are different.
pub record Owns (others : ℕ → ℕ) (w : Worker) : Type 0 where
  pub sound : IsSound (w.shared)
  pub split : (c : ℕ) → w.shared.outside c ≡ others c + (holds w.opflcon c + holds w.opflcon2 c)
  pub alone : (c : ℕ) → 1 ≤ holds w.opflcon c + holds w.opflcon2 c → others c ≡ 0
  pub once : (c : ℕ) → holds w.opflcon c + holds w.opflcon2 c ≤ 1

-- A worker with both connections.
pub record OwnsBoth (others : ℕ → ℕ) (w : Worker) : Type 0 where
  pub owns : Owns others w
  pub first : ℕ
  pub second : ℕ
  pub is_first : w.opflcon ≡ some first
  pub is_second : w.opflcon2 ≡ some second

pub let_go-holds :
    (o : Option ℕ) (outside : ℕ → ℕ) (c : ℕ) → let_go o outside c ≡ outside c - holds o c
let_go-holds none outside c = omega arith
let_go-holds (some d) outside c = ground arith

pub fewer-IsSound :
    (s : System) (outside : ℕ → ℕ)
    → IsSound s
    → ((c : ℕ) → outside c ≤ s.outside c)
    → IsSound (record s { outside = outside })
fewer-IsSound s outside h less = record {
  whole = h.whole;
  once = h.once;
  held = λ c k. h.held c (omega (arith, less c, k));
}

module _ (others : ℕ → ℕ) where
  abbrev pub AfterFirst : Attempt → Type 0
  AfterFirst (passed w) = Owns others w × ((c : ℕ) × (w.opflcon ≡ some c))
  AfterFirst (caught stable w) = Owns others w

  abbrev pub AfterBoth : Attempt → Type 0
  AfterBoth (passed w) = OwnsBoth others w
  AfterBoth (caught stable w) = Owns others w

  first-Owns :
      (w : Worker) (c : ℕ) (p : ConnectionPool)
      → Owns others w
      → w.shared.outside c ≡ 0
      → IsSound (record { manager = p; outside = more w.shared.outside c })
      → Owns others (record w {
        opflcon = some c;
        shared = record { manager = p; outside = let_go w.opflcon (more w.shared.outside c) };
      })
  first-Owns w c p o free h = record {
    sound =
        fewer-IsSound (record { manager = p; outside = more w.shared.outside c })
          (let_go w.opflcon (more w.shared.outside c)) h
          (λ d. omega (arith, let_go-holds w.opflcon (more w.shared.outside c) d));
    split = λ d. ground (arith, let_go-holds w.opflcon (more w.shared.outside c) d, o.split d);
    alone = λ d k. ground (arith, o.alone d, o.split d, free);
    once = λ d. ground (arith, o.once d, o.split d, free);
  }

  second-Owns :
      (w : Worker) (c : ℕ) (p : ConnectionPool)
      → Owns others w
      → w.shared.outside c ≡ 0
      → IsSound (record { manager = p; outside = more w.shared.outside c })
      → Owns others (record w {
        opflcon2 = some c;
        shared = record { manager = p; outside = let_go w.opflcon2 (more w.shared.outside c) };
      })
  second-Owns w c p o free h = record {
    sound =
        fewer-IsSound (record { manager = p; outside = more w.shared.outside c })
          (let_go w.opflcon2 (more w.shared.outside c)) h
          (λ d. omega (arith, let_go-holds w.opflcon2 (more w.shared.outside c) d));
    split = λ d. ground (arith, let_go-holds w.opflcon2 (more w.shared.outside c) d, o.split d);
    alone = λ d k. ground (arith, o.alone d, o.split d, free);
    once = λ d. ground (arith, o.once d, o.split d, free);
  }

  pub keep_first-AfterFirst :
      (w : Worker) (created : Option ℕ)
      → Owns others w
      → Fresh (w.shared) created
      → AfterFirst (keep_first w (borrow w.shared.outside created w.shared.manager))
  keep_first-AfterFirst w created o fresh =
      elim (borrow-Answered (w.shared) created (o.sound) fresh) [
        | hands c p e free h ↦ rw e (first-Owns w c p o free h, (c, refl))
        | cannot_create e threw empty ↦ rw e o
        | all_held e full busy ↦ rw e o
      ]

  pub keep_second-AfterBoth :
      (w : Worker) (created : Option ℕ) (d : ℕ)
      → Owns others w
      → w.opflcon ≡ some d
      → Fresh (w.shared) created
      → AfterBoth (keep_second w (borrow w.shared.outside created w.shared.manager))
  keep_second-AfterBoth w created d o is fresh =
      elim (borrow-Answered (w.shared) created (o.sound) fresh) [
        | hands c p e free h ↦ rw e (record {
          owns = second-Owns w c p o free h;
          first = d;
          second = c;
          is_first = is;
          is_second = refl;
        })
        | cannot_create e threw empty ↦ rw e o
        | all_held e full busy ↦ rw e o
      ]
