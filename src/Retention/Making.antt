-- ===== src/Retention/Making.antt =====
-- `make_room_for` of retention.py: it returns, what it evicts, and what its answer means.
use mathlib.Core.List.{Memᴰ}
use viofosync.Prelude.{
  ℕ, zero, suc, ◌≤◌, ◌≡◌, refl, Bool, true, false, not, ◌&&◌, List, [], ◌∷◌, Option, none, some,
  arith, ◌==◌, if◌then◌else◌, select, Bool-cases, inl, inr,
}
use viofosync.Queue.Table.{IsFirst, first_by-IsFirst, mem_of_mem-select, mem-select}
use viofosync.Retention.{Clip, Host, Store, delete_clip_files, delete_index_row}
use viofosync.Retention.Space.{Rules}
use viofosync.Retention.Evictions.{without, Evictions, unchanged, evicted}
use viofosync.Retention.Candidates.{left, left_row_fewer}
use viofosync.Retention.Room.{
  is_evictable, older, oldest, Room, is_over, note_eviction, RoomLoop, on_oldest, on_over,
  room_loop,
}

older_asym : (a b : Clip) → older a b ≡ true → older b a ≡ false
older_asym a b h = ground arith

older_not_trans : (a b c : Clip) → older a b ≡ false → older b c ≡ false → older a c ≡ false
older_not_trans a b c h k = ground arith

-- The clip that a round evicts: none older could be, and `none` means that no clip could.
abbrev pub IsOldest : Rules → ℕ → List ℕ → List Clip → Option Clip → Type 0
IsOldest rules before_ts ids cs none =
    (c : Clip) → Memᴰ c cs → is_evictable rules before_ts ids c ≡ false
IsOldest rules before_ts ids cs (some x) =
    Memᴰ x cs
    × (is_evictable rules before_ts ids x ≡ true)
    × ((c : Clip) → Memᴰ c cs → is_evictable rules before_ts ids c ≡ true → older c x ≡ false)

pub oldest-IsOldest :
    (rules : Rules) (before_ts : ℕ) (ids : List ℕ) (cs : List Clip)
    → IsOldest rules before_ts ids cs (oldest rules before_ts ids cs)
unfolding oldest
oldest-IsOldest rules before_ts ids cs = of_first _ (
    first_by-IsFirst older older_asym older_not_trans
      (select (is_evictable rules before_ts ids) cs))
  where
    of_first :
        (o : Option Clip)
        → IsFirst older older_asym older_not_trans (select (is_evictable rules before_ts ids) cs) o
        → IsOldest rules before_ts ids cs o
    of_first none h = λ c m. elim (Bool-cases (is_evictable rules before_ts ids c)) [
      | inl e ↦ absurd (h c (mem-select (is_evictable rules before_ts ids) cs m e))
      | inr e ↦ e
    ]
    of_first (some x) (m, h) =
        let (mx, e) = mem_of_mem-select (is_evictable rules before_ts ids) cs m in
        (mx, e, λ c mc ec. h c (mem-select (is_evictable rules before_ts ids) cs mc ec))

pub evictable_law :
    (rules : Rules) (before_ts i : ℕ) (ids : List ℕ) (c : Clip)
    → is_evictable rules before_ts (i ∷ ids) c
      ≡ (not (c.id == i) && is_evictable rules before_ts ids c)
unfolding is_evictable
evictable_law rules before_ts i ids c = ground arith

evictable_first :
    (rules : Rules) (before_ts : ℕ) (ids : List ℕ) (c : Clip)
    → is_evictable rules before_ts ids c ≡ true
    → is_evictable rules before_ts [] c ≡ true
unfolding is_evictable
evictable_first rules before_ts ids c e = ground arith

module _ {W : Type 0} (h : Host W) (rules : Rules) (size before_ts : ℕ) (all : List Clip) where
  abbrev pub remaining : Store W × Room → ℕ
  remaining t =
      left (is_evictable rules before_ts) (evictable_law rules before_ts) t.1.failed_ids t.0.clips

  abbrev pub Evicts : List Clip → List Clip → Type 0
  Evicts = Evictions (is_evictable rules before_ts []) all

  -- What the loop has done when it returns: with `true` the new clip fits, with `false` no clip is
  -- left that could be evicted, but those that could not be unlinked.
  abbrev pub Settled : Store W × Room × Bool → Type 0
  Settled (s, r, true) = is_over h rules size before_ts s.world r.used ≡ false
  Settled (s, r, false) =
      (is_over h rules size before_ts s.world r.used ≡ true)
      × ((c : Clip) → Memᴰ c s.clips → is_evictable rules before_ts r.failed_ids c ≡ false)

  abbrev pub RoomDone : List Clip → RoomLoop h rules size before_ts → Type 0
  RoomDone cs l = (x : Store W × Room × Bool) × (l ≡ some x) × Evicts cs x.0.clips × Settled x

  -- The state after one eviction, or one failure.
  evicted_row :
      (c : Clip) (s : Store W) (r : Room) (d : ℕ × Bool × W)
      → ((note_eviction h rules size before_ts c s r d).0.clips
          ≡ (if d.1 then without c.id s.clips else s.clips))
        × ((note_eviction h rules size before_ts c s r d).1.failed_ids
            ≡ (if d.1 then r.failed_ids else c.id ∷ r.failed_ids))
  unfolding delete_index_row
  evicted_row c s r (freed, true, w) = (refl, refl)
  evicted_row c s r (freed, false, w) = (refl, refl)

  eviction_step :
      (c : Clip) (cs ds : List Clip) (removed : Bool)
      → Memᴰ c all
      → is_evictable rules before_ts [] c ≡ true
      → Evicts (if removed then without c.id cs else cs) ds
      → Evicts cs ds
  eviction_step c cs ds true m e d = evicted c m e d
  eviction_step c cs ds false m e d = d

  on_oldest_done :
      (fuel : ℕ) (again : Store W × Room → RoomLoop h rules size before_ts) (s : Store W) (r : Room)
      (o : Option Clip)
      → IsOldest rules before_ts r.failed_ids s.clips o
      → is_over h rules size before_ts s.world r.used ≡ true
      → suc (remaining (s, r)) ≤ suc fuel
      → ((c : Clip) → Memᴰ c s.clips → Memᴰ c all)
      → ((t : Store W × Room)
          → suc (remaining t) ≤ fuel
          → ((c : Clip) → Memᴰ c t.0.clips → Memᴰ c all)
          → RoomDone t.0.clips (again t))
      → RoomDone s.clips (on_oldest h rules size before_ts again s r o)
  on_oldest_done fuel again s r none old over less sub ih =
      ((s, r, false), refl, unchanged, (over, old))
  on_oldest_done fuel again s r (some c) (m, e, old) over less sub ih =
      let d = delete_clip_files h c s.world in
      let t = note_eviction h rules size before_ts c s r d in
      let (e1, e2) = evicted_row c s r d in
      let fewer =
        left_row_fewer (is_evictable rules before_ts) (evictable_law rules before_ts) d.1 c
          r.failed_ids s.clips m e in
      let (x, got, ev, done) =
        ih t (rw (e1, e2) (omega (arith, fewer, less))) (λ y my. sub y (kept d.1 (rw e1 at my))) in
      (
        x,
        got,
        eviction_step c s.clips x.0.clips d.1 (sub c m)
            (evictable_first rules before_ts r.failed_ids c e) (rw e1 at ev),
        done,
      )
    where
      kept :
          {y : Clip} (removed : Bool)
          → Memᴰ y (if removed then without c.id s.clips else s.clips)
          → Memᴰ y s.clips
      kept true my = (mem_of_mem-select (λ z. not (z.id == c.id)) s.clips my).0
      kept false my = my

  on_over_done :
      (fuel : ℕ) (again : Store W × Room → RoomLoop h rules size before_ts) (s : Store W) (r : Room)
      (b : Bool)
      → is_over h rules size before_ts s.world r.used ≡ b
      → suc (remaining (s, r)) ≤ suc fuel
      → ((c : Clip) → Memᴰ c s.clips → Memᴰ c all)
      → ((t : Store W × Room)
          → suc (remaining t) ≤ fuel
          → ((c : Clip) → Memᴰ c t.0.clips → Memᴰ c all)
          → RoomDone t.0.clips (again t))
      → RoomDone s.clips (on_over h rules size before_ts again s r b)
  on_over_done fuel again s r false over less sub ih = ((s, r, true), refl, unchanged, over)
  on_over_done fuel again s r true over less sub ih =
      on_oldest_done fuel again s r (oldest rules before_ts r.failed_ids s.clips)
        (oldest-IsOldest rules before_ts r.failed_ids s.clips) over less sub ih

  pub room_loop_done :
      (fuel : ℕ) (t : Store W × Room)
      → suc (remaining t) ≤ fuel
      → ((c : Clip) → Memᴰ c t.0.clips → Memᴰ c all)
      → RoomDone t.0.clips (room_loop h rules size before_ts fuel t)
  unfolding room_loop
  room_loop_done zero (s, r) less sub = absurd (omega (arith, less))
  room_loop_done (suc fuel) (s, r) less sub =
      on_over_done fuel (room_loop h rules size before_ts fuel) s r
        (is_over h rules size before_ts s.world r.used) refl less sub (room_loop_done fuel)
