-- ===== src/Queue/Pick/Preview.antt =====
-- The scope of a connection, as the queue's badges, its preview and `next_pending` apply it.
use viofosync.Prelude.{
  ◌+◌, ◌≤◌, ◌≡◌, refl, ◌∙◌, Bool, true, false, not, ◌&&◌, List, [], ◌∷◌, Option, none, some, arith,
  select, count, count_mono, count-select,
}
use viofosync.Queue.Row.{pending, Row, Table, Scope, is_state, held_sql, stranded_sql}
use viofosync.Queue.Pick.{is_eligible, scope_preview}

-- With no gate in force, a row can be picked exactly when it is pending and not held.
pub eligible-held :
    (scope : Scope) (t : Table) (r : Row)
    → is_eligible scope false false t r ≡ (is_state pending r && not (held_sql (some scope) r))
unfolding is_eligible held_sql
eligible-held scope t r = ground arith

stranded_held :
    (scope : Scope) (other : Option Scope) (r : Row)
    → stranded_sql (some scope) other r ≡ true
    → held_sql (some scope) r ≡ true
unfolding stranded_sql
stranded_held scope none r h = h
stranded_held scope (some other) r h = ground arith

module _ {A : Type 0} where
  count_split :
      (p : A → Bool) (xs : List A) → count (λ r. not (p r)) xs + count p xs ≡ count (λ r. true) xs
  count_split p [] = omega arith
  count_split p (x ∷ xs) = ground (arith, count_split p xs)

and_true : (b : Bool) → b ≡ (b && true)
and_true true = refl
and_true false = refl

-- The preview splits the pending rows: `now` counts those that `next_pending` could pick with no
-- gate in force, `now` and `held` add up to all pending rows, and the stranded rows are among the
-- held ones, all of them when there is no other connection.
pub scope_preview_partition :
    (scope : Scope) (other : Option Scope) (t : Table)
    → let p = scope_preview scope other t in
      (p.now ≡ count (is_eligible scope false false t) t)
      × (p.now + p.held ≡ count (is_state pending) t)
      × (p.stranded ≤ p.held)
      × ((scope_preview scope none t).stranded ≡ p.held)
unfolding scope_preview stranded_sql
scope_preview_partition scope other t = (
  count-select _ (is_state pending) _ (eligible-held scope t) t,
  count_split _ (select (is_state pending) t)
      ∙ count-select (λ r. true) (is_state pending) (is_state pending)
          (λ r. and_true (is_state pending r)) t,
  count_mono _ _ (stranded_held scope other) (select (is_state pending) t),
  refl,
)
