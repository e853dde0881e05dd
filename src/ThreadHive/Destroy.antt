-- ===== src/ThreadHive/Destroy.antt =====
-- `~ThreadHive<T>` on a list of handles.
use operation_front_line.Common.{
  ℕ, zero, suc, ◌<◌, ◌≡◌, refl, ap, ◌∙◌, Bool, true, some, List, ◌∷◌, ◌++◌, ltb, ge→ltb,
  if◌then◌else◌, u32_mod, sub32, arith, Outcome, done, ◌>>=◌,
}
use operation_front_line.ThreadHive.{ThreadHandle, Registry, update}
use operation_front_line.ThreadHive.Destructor.{unlink, free_handle, destroy}
use operation_front_line.ThreadHive.Chain.{Lists, update-at, deref_lem, write_lem, Lists-inside}
use operation_front_line.ThreadHive.Leave.{}
use operation_front_line.ThreadHive.Unlink.{Left, freeing, unlink-Left}

-- `result` is the registry with one share fewer of the handle at `m`.
pub record Shared {A : Type 0} (m n : ℕ) (ps : List ℕ) (result : Outcome (Registry A))
    : Type 0 where
  pub next : Registry A
  pub handle : ThreadHandle A
  pub returns : result ≡ done next
  pub lists : Lists next ps
  pub kept : next.handles m ≡ some handle
  pub fewer : handle.shares ≡ n

-- What becomes of the handle at `m`, between `ps` and `qs`, of which `n` shares remain.
abbrev pub Departed : {A : Type 0} → ℕ → ℕ → List ℕ → List ℕ → Outcome (Registry A) → Type 0
Departed m zero ps qs result = Left m (ps ++ qs) result
Departed m (suc n) ps qs result = Shared m (suc n) (ps ++ m ∷ qs) result

module _ {A : Type 0} (r : Registry A) (m : ℕ) (ps qs : List ℕ) (h : ThreadHandle A)
    (at : r.handles m ≡ some h) (l : Lists r (ps ++ m ∷ qs)) where
  abbrev less : ThreadHandle A
  less = record h { shares = sub32 (h.shares) 1 }

  abbrev with_less : Registry A
  with_less = record r { handles = update (r.handles) m (some less) }

  with_less-Lists : Lists with_less (ps ++ m ∷ qs)
  with_less-Lists = Lists-inside r (ps ++ m ∷ qs) m h less at refl l

  abbrev go_on : Bool → Outcome (Registry A)
  go_on unshared =
      if unshared then unlink with_less m >>= (λ r'. done (free_handle m r')) else done with_less

  destroy-shares : destroy r (some m) ≡ go_on (ltb (sub32 (h.shares) 1) 1)
  unfolding destroy
  destroy-shares =
      rw
        (
          deref_lem (r.handles) m h at,
          write_lem (r.handles) m h (λ h'. record h' { shares = sub32 (h'.shares) 1 }) at,
        )
        refl

  -- A destructor gives up one share of its handle. The last one takes the handle out of the list, wherever it
  -- stands, keeps the order of the others and frees it.
  pub destroy-Departed :
      (n : ℕ) → h.shares ≡ suc n → suc n < u32_mod → Departed m n ps qs (destroy r (some m))
  destroy-Departed zero e word = record {
    next = left.next;
    returns = destroy-shares ∙ ap go_on last_share ∙ left.returns;
    lists = left.lists;
    freed = left.freed;
  }
    where
      left : Left m (ps ++ qs) (freeing m (unlink with_less m))
      left = unlink-Left m ps qs with_less with_less-Lists

      last_share : ltb (sub32 (h.shares) 1) 1 ≡ true
      last_share = rw e refl
  destroy-Departed (suc n) e word = record {
    next = with_less;
    handle = less;
    returns =
        destroy-shares ∙ ap go_on (ge→ltb {a = sub32 (h.shares) 1} {b = 1} (omega (arith, fewer)));
    lists = with_less-Lists;
    kept = update-at (r.handles) m m (some less) refl;
    fewer = fewer;
  }
    where
      fewer : sub32 (h.shares) 1 ≡ suc n
      fewer = rw e (omega arith)
