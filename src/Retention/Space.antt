-- ===== src/Retention/Space.antt =====
-- retention.py: the two rules on space, with the cache of the folder's size.
use viofosync.Prelude.{
  ℕ, ◌+◌, ◌-◌, ◌*◌, ◌^◌, Bool, true, false, not, ◌&&◌, List, Option, none, some, leb, ltb, ◌==◌,
  if◌then◌else◌,
}
use viofosync.Retention.{Host, Store}

-- The arguments that do not change during a pass.
pub record Rules : Type 0 where
  pub disk_pct : ℕ
  pub quota_gb : ℕ
  pub protect_ro : Bool
  pub protect_ids : List ℕ

abbrev pub size_cache_ttl : ℕ
size_cache_ttl = 60

module _ {W : Type 0} (h : Host W) where
  -- `used / total * 100 >= disk_pct`, without the division. `none` is an OSError.
  abbrev pct_of : ℕ → Option (ℕ × ℕ) → Option Bool
  pct_of disk_pct none = none
  pct_of disk_pct (some (used, total)) =
      some (if total == 0 then false else leb (disk_pct * total) (used * 100))

  unfoldable pub pct_exceeded : ℕ → W → Option Bool
  pct_exceeded disk_pct w = if disk_pct == 0 then some false else pct_of disk_pct (h.disk_usage w)

  abbrev scan_again : Store W → ℕ × Store W
  scan_again s =
      let used = h.scan_dir_bytes s.world in
      (used, record s { cache = some (h.monotonic s.world, used) })

  unfoldable pub cached_used_bytes : Bool → Store W → ℕ × Store W
  cached_used_bytes refresh s = elim s.cache [
    | none ↦ scan_again s
    | some (at, used) ↦
        if not refresh && ltb (h.monotonic s.world) (at + size_cache_ttl)
        then (used, s)
        else scan_again s
  ]

  unfoldable pub cache_subtract : ℕ → Store W → Store W
  cache_subtract freed s = elim s.cache [
    | none ↦ s
    | some (at, used) ↦ if ltb 0 freed then record s { cache = some (at, used - freed) } else s
  ]

  unfoldable pub quota_exceeded : ℕ → Bool → Store W → Bool × Store W
  unfolding cached_used_bytes
  quota_exceeded quota_gb refresh s =
      if quota_gb == 0
      then (false, s)
      else (let (used, s') = cached_used_bytes refresh s in (leb (quota_gb * 2 ^ 30) used, s'))

  abbrev pub or_quota : ℕ → Bool → Store W → Option Bool → Option Bool × Store W
  or_quota quota_gb refresh s none = (none, s)
  or_quota quota_gb refresh s (some true) = (some true, s)
  or_quota quota_gb refresh s (some false) =
      let (over, s') = quota_exceeded quota_gb refresh s in (some over, s')

  unfoldable pub over_threshold : Rules → Bool → Store W → Option Bool × Store W
  unfolding pct_exceeded quota_exceeded
  over_threshold rules refresh s =
      or_quota rules.quota_gb refresh s (pct_exceeded rules.disk_pct s.world)
